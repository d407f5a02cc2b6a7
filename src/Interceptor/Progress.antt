-- ===== src/Interceptor/Progress.antt =====
-- Time-outs of the active interceptor at the level of `Handle`.
use k8s_eviction_controller.Prelude.{
  ℕ, ◌+◌, ◌*◌, ◌^◌, ◌<◌, ◌≤◌, ltb_ℤ, pos, ◌≡◌, ◌≢◌, refl, ◌⊎◌, inl, inr, String, eq_iff, Bool-cases,
  true, false, Option, none, some, List, [], ◌∷◌, arith,
}
use k8s_eviction_controller.Api.{Interceptor, EvictionRequest}
use k8s_eviction_controller.Api.Constants.{second}
use k8s_eviction_controller.Cluster.{Env, Err, State, returned, updated, final}
use k8s_eviction_controller.Interceptor.{deadline_of, since, handle}
use k8s_eviction_controller.Interceptor.Timeout.{overdue_iff}
use k8s_eviction_controller.Interceptor.Priority.{SortsSlices}
use k8s_eviction_controller.Interceptor.Decision.{while_active, decide, act, handle_decides}

-- An interceptor is active and has not completed.
pub record IsActive (r : EvictionRequest) (c : String) : Type 0 where
  pub listed : r.spec.interceptors ≢ []
  pub class : r.status.active_interceptor_class ≡ some c
  pub named : c ≢ ""
  pub running : r.status.active_interceptor_completed ≡ false

decide_active :
    (xs : List Interceptor) (r : EvictionRequest) (c : String)
    → IsActive r c
    → decide xs r ≡ while_active r.spec.heartbeat_deadline_seconds r.status.heartbeat_time
unfolding decide
decide_active xs r c a = ground (arith, eq_iff c "")

module _ (env : Env) (sorts : SortsSlices env) (s : State env.World) (c : String) where
  -- The active interceptor has a heartbeat: it is marked as completed, in one status update, if the
  -- clock is more than the deadline past the heartbeat; otherwise only the clock is read.
  pub handle_times_out :
      (n heartbeat : ℕ)
      → IsActive s.request c
      → s.request.spec.heartbeat_deadline_seconds ≡ some (pos n)
      → s.request.status.heartbeat_time ≡ some heartbeat
      → n < 2 ^ 31
      → let t = final (handle env s) in
        ((heartbeat + n * second < (env.now s.world).1)
          × ((answer : Option Err) × (handle env s ≡ returned answer t)
              × (t.request ≡ record s.request {
                status = record s.request.status { active_interceptor_completed = true };
              })
              × (t.calls ≡ updated t.request answer ∷ s.calls)
              × (env.update_status (env.now s.world).0 t.request ≡ (t.world, answer))))
        ⊎ (((env.now s.world).1 ≤ heartbeat + n * second)
            × (handle env s ≡ returned none (record s { world = (env.now s.world).0 })))
  unfolding act while_active
  handle_times_out n heartbeat a d h small =
      elim (Bool-cases (ltb_ℤ (deadline_of (pos n)) (since (env.now s.world).1 heartbeat))) [
        | inl over ↦ inl (
          (overdue_iff n heartbeat _ small).0 over,
          rw
              (
                handle_decides env sorts s a.listed,
                decide_active _ s.request c a,
                d,
                h,
                over,
                act,
                while_active,
              )
              (_, refl, refl, refl, refl),
        )
        | inr within ↦ inr (
          ground (arith, overdue_iff n heartbeat (env.now s.world).1 small),
          rw
              (
                handle_decides env sorts s a.listed,
                decide_active _ s.request c a,
                d,
                h,
                within,
                act,
                while_active,
              )
              refl,
        )
      ]

  -- Without a heartbeat or without a deadline the active interceptor is never timed out.
  pub handle_waits :
      IsActive s.request c
      → (s.request.spec.heartbeat_deadline_seconds ≡ none)
        ⊎ (s.request.status.heartbeat_time ≡ none)
      → handle env s ≡ returned none s
  unfolding act while_active
  handle_waits a h =
      rw (handle_decides env sorts s a.listed, decide_active _ s.request c a) (ground arith)
