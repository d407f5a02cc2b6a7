-- ===== src/Reconciler/Overdue.antt =====
-- Turns of the control loop on a request whose active interceptor has stopped its heartbeat.
use k8s_eviction_controller.Prelude.{
  ℕ, suc, ◌+◌, ◌*◌, ◌^◌, ◌<◌, ◌≤◌, ◌≡◌, ◌≢◌, refl, ◌∙◌, inl, inr, String, pos, true, some, length,
  arith,
}
use k8s_eviction_controller.Api.{EvictionRequestStatus}
use k8s_eviction_controller.Api.Constants.{second}
use k8s_eviction_controller.Cluster.{Env, Pod, final}
use k8s_eviction_controller.Interceptor.{handle}
use k8s_eviction_controller.Interceptor.Priority.{SortsSlices}
use k8s_eviction_controller.Interceptor.Progress.{IsActive, handle_times_out}
use k8s_eviction_controller.Interceptor.Drain.{HasClasses}
use k8s_eviction_controller.Reconciler.Policy.{policy_of}
use k8s_eviction_controller.Reconciler.Server.{
  IsQuiet, IsWrite, Serves, RefersTo, at_pod, at_pod-stored, stores, turn, turn_goes_on,
}
use k8s_eviction_controller.Reconciler.Turns.{
  IsHandedOver, EvictsAt, EvictsAt-suc, reconcile_pod-handle, turns_evict,
}

abbrev completed : EvictionRequestStatus → EvictionRequestStatus
completed status = record status { active_interceptor_completed = true }

module _ (env : Env) (sorts : SortsSlices env) (serves : Serves env) (pod : Pod) where
  open serves use {stored}

  -- The interceptor `c` is active, and at the time of a turn its last heartbeat is longer ago than
  -- the deadline, of at least 0 and less than 2^31 seconds.
  pub record IsOverdue (w : env.World) (c : String) : Type 0 where
    pub refers : RefersTo env serves w pod
    pub policy : policy_of (stored w) ≢ ""
    pub active : IsActive (stored w) c
    pub classes : HasClasses (stored w).spec.interceptors
    pub seconds : ℕ
    pub heartbeat : ℕ
    pub small : seconds < 2 ^ 31
    pub deadline : (stored w).spec.heartbeat_deadline_seconds ≡ some (pos seconds)
    pub last_seen : (stored w).status.heartbeat_time ≡ some heartbeat
    pub late : heartbeat + seconds * second < (env.now (at_pod env serves pod w).world).1

  -- The turn stores that the interceptor has completed.
  turn_completes :
      (w : env.World) (c : String)
      → IsOverdue w c
      → IsQuiet env serves w
        × IsWrite (stored w) (completed (stored w).status) (stored (turn env serves w).world)
        × serves.Lists (turn env serves w).world pod
  turn_completes w c h =
      let before = at_pod env serves pod w in
      elim (handle_times_out env sorts before c h.seconds h.heartbeat h.active h.deadline
        h.last_seen h.small) [
          | inl (_, (answer, exit, marked, sent, written)) ↦
              let t = final (handle env before) in
              let timed = (env.now before.world).0 in
              let same = serves.now-stored before.world ∙ at_pod-stored env serves pod w in
              let (ok, write) = stores env serves w timed t.request _ same marked in
              let found_before = serves.get_pod-keeps w _ _ pod h.refers.listed in
              let there =
                serves.update-Lists timed t.request pod
                  (serves.now-Lists before.world pod found_before) in
              let goes_on =
                turn_goes_on env serves w pod h.refers
                ∙ reconcile_pod-handle env before h.policy h.active.listed in
              rw goes_on (
                (rw sent refl, rw (exit, rw written at ok) refl),
                rw written at write,
                rw written at there,
              )
          | inr (early, _) ↦ let late = h.late in absurd (omega arith)
        ]

  -- If the stored object has a policy, refers to a pod that the lister gives, has interceptors of
  -- distinct, non-empty classes, and its active one has not completed and is past its deadline, and
  -- if nobody but the controller writes to it: after at most as many turns as there are
  -- interceptors, which return nil and send no eviction, the next turn sends one eviction, of the
  -- pod.
  pub overdue_evicts :
      (w : env.World) (c : String)
      → IsOverdue w c
      → (k : ℕ) × (k ≤ length (stored w).spec.interceptors) × EvictsAt env sorts serves pod k w
  overdue_evicts w c h =
      let (quiet, (version, marked), lists) = turn_completes w c h in
      let handed : IsHandedOver env sorts serves pod (turn env serves w).world c = record {
        refers = record {
          reference = rw marked h.refers.reference;
          namespace = rw marked h.refers.namespace;
          listed = lists;
        };
        policy = rw marked h.policy;
        completed = record {
          listed = rw marked h.active.listed;
          class = rw marked h.active.class;
          named = h.active.named;
          done = rw marked refl;
        };
        classes = rw marked h.classes;
      } in
      let (k, few, evicts) = turns_evict env sorts serves pod (turn env serves w).world c handed in
      (suc k, rw marked at few, EvictsAt-suc env sorts serves pod k w quiet evicts)
