-- ===== src/Controller/Rounds.antt =====
-- Round after round of the informer, the event handler, the queue and a worker, until the pod is
-- evicted.
use k8s_eviction_controller.Prelude.{
  ℕ, zero, suc, ◌<◌, ◌≤◌, ◌≡◌, ◌⊎◌, ◌++◌, refl, ap, sym, ◌∙◌, subst, inl, inr, String, true, false,
  Option, some, none, ◌∷◌, length, arith,
}
use k8s_eviction_controller.Api.{EvictionRequest}
use k8s_eviction_controller.Cluster.{
  Env, Err, Exit, returned, panicked, Pod, panics, result, evictions,
}
use k8s_eviction_controller.Eviction.{eviction_of}
use k8s_eviction_controller.Reconciler.{reconcile_eviction_request}
use k8s_eviction_controller.Interceptor.Priority.{SortsSlices}
use k8s_eviction_controller.Reconciler.Calls.{evictions-append}
use k8s_eviction_controller.Reconciler.Server.{Serves, informed, turn, turns, IsQuiet}
use k8s_eviction_controller.Reconciler.Turns.{IsHandedOver, EvictsAt, turns_evict}
use k8s_eviction_controller.Reconciler.Overdue.{IsOverdue, overdue_evicts}
use k8s_eviction_controller.Worker.{
  Obj, request_at, key, Workqueue, Pool, passed, crashed, pool_of, write,
}
use k8s_eviction_controller.Controller.Loop.{after_update, update_turns}
use k8s_eviction_controller.Controller.Reaction.{write_lem}

-- What client-go documents of an idle queue, one without items: it hands out the item that is added
-- next, and it is idle again when that item is forgotten and done. And its key function does not
-- fail on an object with metadata.
pub record HandsOut (w : Workqueue) : Type 1 where
  pub IsIdle : w.Queue → Type 0
  pub get : (q : w.Queue) (obj : Obj) → IsIdle q → (w.get (w.add q obj)).0 ≡ some obj
  pub again :
      (q : w.Queue) (obj : Obj)
      → IsIdle q
      → IsIdle (w.done (w.forget (w.get (w.add q obj)).1 obj) obj)
  pub key_of : (r : EvictionRequest) → (k : String) × (w.key_of r ≡ key k)

quiet-panics :
    {W : Type 0} (exit : Exit W (Option Err)) → result exit ≡ some none → panics exit ≡ false
quiet-panics (returned a s) e = refl
quiet-panics (panicked s) e = cc

module _ (w : Workqueue) (env : Env) (serves : Serves env) where
  open serves use {stored}

  -- The pool, and the address of the object that the informer's cache holds.
  pub record Watched : Type 0 where
    pub seen : ℕ
    pub pool : Pool w.Queue env.World

  -- The pool with the stored object, as the informer decoded it, at a new address.
  abbrev pub decoded : Pool w.Queue env.World → Pool w.Queue env.World
  decoded p = record p { heap = write p.heap p.next (stored p.world); next = suc p.next }

  -- The informer puts the stored object into its cache and calls the handler, and a worker makes a
  -- pass; `none` if the process crashes or the queue is shut down.
  unfoldable pub round : Watched → Option Watched
  round x = elim (after_update w env x.seen x.pool.next (decoded x.pool)) [
    | passed true q ↦ some (record { seen = x.pool.next; pool = q })
    | passed false q ↦ none
    | crashed q ↦ none
  ]

  unfoldable pub rounds : ℕ → Watched → Option Watched
  rounds zero x = some x
  rounds (suc n) x = elim (round x) [ none ↦ none | some y ↦ rounds n y ]

  module _ (hands : HandsOut w) where
    open hands use {IsIdle}

    -- A round whose turn does not panic.
    round_turns :
        (x : Watched)
        → IsIdle x.pool.workqueue
        → panics (reconcile_eviction_request env (informed env serves x.pool.world)) ≡ false
        → (y : Watched) × (round x ≡ some y)
          × (y.pool.world ≡ (turn env serves x.pool.world).world)
          × (y.pool.calls ≡ (turn env serves x.pool.world).calls ++ x.pool.calls)
          × (result (reconcile_eviction_request env (informed env serves x.pool.world)) ≡ some none
              → IsIdle y.pool.workqueue)
    unfolding round
    round_turns x idle safe =
        let p = decoded x.pool in
        let (k, known) = hands.key_of (p.heap x.pool.next) in
        let (passes, world, calls, object, queued) =
          update_turns w env serves x.seen x.pool.next k p
            (write_lem w env x.pool.heap x.pool.next (stored x.pool.world)) known
            (hands.get x.pool.workqueue (request_at p.next) idle) safe in
        (
          record { seen = x.pool.next; pool = pool_of (after_update w env x.seen x.pool.next p) },
          rw (passes, round) refl,
          world,
          calls,
          λ nil.
              subst IsIdle (sym (queued nil))
                (hands.again x.pool.workqueue (request_at p.next) idle),
        )

    -- The evictions of a round are those of the turn.
    round-evictions :
        (x y : Watched)
        → y.pool.calls ≡ (turn env serves x.pool.world).calls ++ x.pool.calls
        → evictions y.pool.calls
          ≡ evictions (turn env serves x.pool.world).calls ++ evictions x.pool.calls
    round-evictions x y e =
        ap evictions e ∙ evictions-append (turn env serves x.pool.world).calls x.pool.calls

    -- `n` rounds whose turns are quiet.
    rounds_quiet :
        (n : ℕ) (x : Watched)
        → IsIdle x.pool.workqueue
        → ((j : ℕ) → j < n → IsQuiet env serves (turns env serves j x.pool.world))
        → (y : Watched) × (rounds n x ≡ some y)
          × IsIdle y.pool.workqueue
          × (y.pool.world ≡ turns env serves n x.pool.world)
          × (evictions y.pool.calls ≡ evictions x.pool.calls)
    unfolding rounds turns
    rounds_quiet zero x idle quiet = (x, refl, idle, refl, refl)
    rounds_quiet (suc n) x idle quiet =
        let (none_sent, nil) = quiet 0 (omega arith) in
        let (y, step, world, calls, next_idle) = round_turns x idle (quiet-panics _ nil) in
        let later : (j : ℕ) → j < n → IsQuiet env serves (turns env serves j y.pool.world) =
          λ j lt. rw world (quiet (suc j) (omega arith)) in
        let (z, steps, idle_z, world_z, sent_z) = rounds_quiet n y (next_idle nil) later in
        (
          z,
          rw (step, rounds) steps,
          idle_z,
          world_z ∙ ap (turns env serves n) world,
          sent_z ∙ round-evictions x y calls ∙ ap (λ es. es ++ evictions x.pool.calls) none_sent,
        )

    module _ (sorts : SortsSlices env) (pod : Pod) where
      -- After `k` rounds that evict nothing, a round sends one eviction, of the pod.
      abbrev pub RoundEvicts : ℕ → Watched → Type 0
      RoundEvicts k x =
          (y z : Watched) × (rounds k x ≡ some y)
          × (evictions y.pool.calls ≡ evictions x.pool.calls)
          × (round y ≡ some z)
          × (evictions z.pool.calls ≡ eviction_of pod ∷ evictions x.pool.calls)

      RoundEvicts-of_EvictsAt :
          (k : ℕ) (x : Watched)
          → IsIdle x.pool.workqueue
          → EvictsAt env sorts serves pod k x.pool.world
          → RoundEvicts k x
      RoundEvicts-of_EvictsAt k x idle (quiet, (safe, sent)) =
          let (y, steps, idle_y, world, quiet_calls) = rounds_quiet k x idle quiet in
          let (z, step, world_z, calls, rest) = round_turns y idle_y (rw world safe) in
          (
            y,
            z,
            steps,
            quiet_calls,
            step,
            round-evictions y z calls
                ∙ ap (λ v. evictions (turn env serves v).calls ++ evictions y.pool.calls) world
                ∙ ap (λ es. es ++ evictions y.pool.calls) sent
                ∙ ap (λ es. eviction_of pod ∷ es) quiet_calls,
          )

      -- The stored object has a policy, refers to a pod that the lister gives, has interceptors of
      -- distinct, non-empty classes, and its active one has completed or is past its deadline;
      -- nobody but the controller writes to it; the queue is idle. Then at most as many rounds of
      -- the informer, the handler and a worker as there are interceptors pass, in which the process
      -- does not crash and nothing is evicted, and the next round sends one eviction, of the pod.
      pub rounds_evict :
          (x : Watched) (c : String)
          → IsIdle x.pool.workqueue
          → IsHandedOver env sorts serves pod x.pool.world c
            ⊎ IsOverdue env sorts serves pod x.pool.world c
          → (k : ℕ) × (k ≤ length (stored x.pool.world).spec.interceptors) × RoundEvicts k x
      rounds_evict x c idle (inl handed) =
          let (k, few, evicts) = turns_evict env sorts serves pod x.pool.world c handed in
          (k, omega arith, RoundEvicts-of_EvictsAt k x idle evicts)
      rounds_evict x c idle (inr overdue) =
          let (k, few, evicts) = overdue_evicts env sorts serves pod x.pool.world c overdue in
          (k, few, RoundEvicts-of_EvictsAt k x idle evicts)
