-- ===== src/Worker/Crash.antt =====
-- The worker pool over the program's own reconciler.
use k8s_eviction_controller.Prelude.{
  ℕ, ◌≡◌, ◌↔◌, refl, String, Bool, true, false, Option, none, some,
}
use k8s_eviction_controller.Cluster.{Env, Err, Exit, returned, panicked, panics}
use k8s_eviction_controller.Interceptor.Priority.{SortsSlices}
use k8s_eviction_controller.Reconciler.{reconcile_eviction_request}
use k8s_eviction_controller.Reconciler.Safety.{reconcile_panics_iff}
use k8s_eviction_controller.Worker.{
  request_at, key, Workqueue, Pool, Pass, passed, crashed, sync_handler, settle, process_item,
}
use k8s_eviction_controller.Worker.Protocol.{processed}

abbrev pub is_crash : {Queue W : Type 0} → Pass Queue W → Bool
is_crash (passed b p) = false
is_crash (crashed p) = true

module _ (w : Workqueue) (env : Env) (sorts : SortsSlices env) where
  settle_crash :
      (a : ℕ) (k : String) (p : Pool w.Queue env.World) (exit : Exit env.World (Option Err))
      → is_crash (settle w (reconcile_eviction_request env) a k p exit) ≡ panics exit
  unfolding settle
  settle_crash a k p (returned none t) = refl
  settle_crash a k p (returned (some e) t) = refl
  settle_crash a k p (panicked t) = refl

  -- A worker that takes a request with a key brings the process down exactly when the request names
  -- no pod: nothing between the reconciler and the worker's goroutine recovers from the panic.
  pub process_item_crashes_iff :
      (a : ℕ) (k : String) (p : Pool w.Queue env.World)
      → w.key_of (p.heap a) ≡ key k
      → (is_crash (process_item w (reconcile_eviction_request env) (request_at a) p) ≡ true)
        ↔ ((p.heap a).spec.target.pod_ref ≡ none)
  unfolding sync_handler
  process_item_crashes_iff a k p known =
      rw (processed w (reconcile_eviction_request env) a k p known, settle_crash)
        (reconcile_panics_iff env sorts _)
