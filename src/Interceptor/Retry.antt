-- ===== src/Interceptor/Retry.antt =====
-- A second pass of `Handle` on the object that the first one wrote to, as the work queue makes it
-- after an error.
use k8s_eviction_controller.Prelude.{
  ◌∷◌, String, ◌≡◌, ◌≢◌, inr, true, false, Option, none, [], arith,
}
use k8s_eviction_controller.Api.{EvictionRequest}
use k8s_eviction_controller.Cluster.{Env, Err, State, returned, updated, final}
use k8s_eviction_controller.Interceptor.{is_unset, select_class, handle}
use k8s_eviction_controller.Interceptor.Priority.{SortsSlices}
use k8s_eviction_controller.Interceptor.Selection.{handle-Selects-IsHighest}
use k8s_eviction_controller.Interceptor.Progress.{IsActive, handle_waits}
use k8s_eviction_controller.Interceptor.Drain.{HasClasses}

-- Interceptors are listed and none was selected yet; nothing is completed, and there is no
-- heartbeat.
pub record IsFresh (r : EvictionRequest) : Type 0 where
  pub listed : r.spec.interceptors ≢ []
  pub unselected : is_unset r.status.active_interceptor_class ≡ true
  pub running : r.status.active_interceptor_completed ≡ false
  pub silent : r.status.heartbeat_time ≡ none

IsActive-select_class :
    (r r' : EvictionRequest) (c : String)
    → r' ≡ record r { status = select_class c r.status }
    → IsFresh r
    → c ≢ ""
    → IsActive r' c
unfolding select_class
IsActive-select_class r r' c e fresh named = record {
  listed = ground (arith, fresh.listed);
  class = ground arith;
  named = named;
  running = ground (arith, fresh.running);
}

silent_after :
    (r r' : EvictionRequest) (c : String)
    → r' ≡ record r { status = select_class c r.status }
    → IsFresh r
    → r'.status.heartbeat_time ≡ none
unfolding select_class
silent_after r r' c e fresh = ground (arith, fresh.silent)

-- With distinct, non-empty classes, the first pass on a fresh request sends one update, the
-- selection. Whatever the API server answers, a second pass on the same object, in any world, sends
-- nothing and returns nil: a selection that was refused is not sent again.
pub handle_once :
    (env : Env) (sorts : SortsSlices env) (s : State env.World) (later : env.World)
    → IsFresh s.request
    → HasClasses s.request.spec.interceptors
    → let t = final (handle env s) in
      let again : State env.World = record t { world = later } in
      (answer : Option Err) × (handle env s ≡ returned answer t)
      × (t.calls ≡ updated t.request answer ∷ s.calls)
      × (handle env again ≡ returned none again)
handle_once env sorts s later fresh classes =
    let (x, top, (answer, exit, stored, sent, written)) =
      handle-Selects-IsHighest env sorts s fresh.listed fresh.unselected in
    (
      answer,
      exit,
      sent,
      handle_waits env sorts _ x.interceptor_class
          (IsActive-select_class s.request _ _ stored fresh (classes.named x top.0))
          (inr (silent_after s.request _ _ stored fresh)),
    )
