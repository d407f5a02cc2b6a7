-- ===== src/Status/Handler.antt =====
-- The two methods of the status handler, on any answers of the clock and of the API server.
use k8s_eviction_controller.Prelude.{
  ℤ, pos, negsuc, ◌+ℤ◌, ltb_ℤ, ◌-◌, ◌^◌, IsInt32, ◌≡◌, ◌≢◌, refl, String, ◌==◌, eq_iff, Option,
  some, ◌∷◌, arith, if◌then◌else◌,
}
use mathlib.Core.Option
use k8s_eviction_controller.Api.{Condition, PodEvictionStatus}
use k8s_eviction_controller.Api.Constants.{
  allow, condition_false, condition_type_evicted, reason_eviction_failed,
}
use k8s_eviction_controller.Cluster.{Env, State, returned, updated, final}
use k8s_eviction_controller.Status.{
  default_policy, new_condition, ensure_counter, upsert_condition,
  increment_failed_eviction_counter,
}
use k8s_eviction_controller.Status.Conditions.{
  find_condition, transition_time, find_condition-upsert,
}

module _ (env : Env) (type status reason message : String) (s : State env.World) where
  -- Whatever the API server answers, the condition is reported by one update, which is sent the
  -- object as it stands at the end; the answer is returned. The first condition of the reported
  -- type then has the new content, with its old transition time if its status is not new; that of
  -- any other type is what it was. The policy is not empty, and nothing else of the object changes.
  pub upsert_condition_lem :
      (other : String)
      → let before = s.request in
        let condition = new_condition (env.now s.world).1 type status reason message in
        let t = final (upsert_condition env type status reason message s) in
        (answer : Option _) × (upsert_condition env type status reason message s
          ≡ returned answer t)
        × (t.calls ≡ updated t.request answer ∷ s.calls)
        × (find_condition other t.request.status.conditions ≡ (
            if type == other
            then some (record condition {
              last_transition_time =
                  transition_time condition (find_condition type before.status.conditions);
            })
            else find_condition other before.status.conditions))
        × (t.request.status.eviction_request_cancellation_policy ≢ "")
        × (t.request ≡ record before {
          status = record before.status {
            conditions = t.request.status.conditions;
            eviction_request_cancellation_policy =
                (default_policy before.status).eviction_request_cancellation_policy;
          };
        })
  unfolding upsert_condition new_condition default_policy
  upsert_condition_lem other = (
    _,
    refl,
    refl,
    find_condition-upsert condition s.request.status.conditions other,
    ground
        (arith, eq_iff s.request.status.eviction_request_cancellation_policy "", eq_iff allow ""),
    refl,
  )
    where
      condition : Condition
      condition = new_condition (env.now s.world).1 type status reason message

-- The count that a status holds, 0 if it holds none.
abbrev pub counter : Option PodEvictionStatus → ℤ
counter c = (ensure_counter c).failed_api_eviction_counter

module _ (env : Env) (s : State env.World) where
  -- For a count that is an int32: below the largest one it goes up by one, and from the largest it
  -- wraps to the smallest, below zero. The condition Evicted is False, the policy is not empty and
  -- the spec is the same; one update is sent, and its answer returned.
  pub increment_failed_eviction_counter_lem :
      IsInt32 (counter s.request.status.pod_eviction_status)
      → let t = final (increment_failed_eviction_counter env s) in
        (answer : Option _) × (increment_failed_eviction_counter env s ≡ returned answer t)
        × (t.calls ≡ updated t.request answer ∷ s.calls)
        × (counter t.request.status.pod_eviction_status ≡ (
            if ltb_ℤ (counter s.request.status.pod_eviction_status) (pos (2 ^ 31 - 1))
            then counter s.request.status.pod_eviction_status +ℤ pos 1
            else negsuc (2 ^ 31 - 1)))
        × (Option.map
              (λ c. c.status)
              (find_condition condition_type_evicted t.request.status.conditions)
            ≡ some condition_false)
        × (t.request.status.eviction_request_cancellation_policy ≢ "")
        × (t.request.spec ≡ s.request.spec)
  unfolding increment_failed_eviction_counter
  increment_failed_eviction_counter_lem range = (
    _,
    refl,
    refl,
    ground arith,
    ground (
      arith,
      find_condition-upsert failure s.request.status.conditions condition_type_evicted,
      eq_iff condition_type_evicted condition_type_evicted,
    ),
    ground
        (arith, eq_iff s.request.status.eviction_request_cancellation_policy "", eq_iff allow ""),
    refl,
  )
    where
      failure : Condition
      failure =
          new_condition (env.now s.world).1 condition_type_evicted condition_false
            reason_eviction_failed "Failed to evict pod"

  -- At the largest int32 the count wraps to the smallest, below zero.
  pub increment_wraps :
      counter s.request.status.pod_eviction_status ≡ pos (2 ^ 31 - 1)
      → counter (final (increment_failed_eviction_counter env s)).request.status.pod_eviction_status
        ≡ negsuc (2 ^ 31 - 1)
  unfolding increment_failed_eviction_counter
  increment_wraps h = rw h
