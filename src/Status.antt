-- ===== src/Status.antt =====
-- pkg/reconciler/status/status.go: the handler that records conditions and the failure counter.
pub mod Conditions
pub mod Handler
use k8s_eviction_controller.Prelude.{
  ℕ, ℤ, pos, ◌+ℤ◌, wrap32, ◌≡◌, String, ◌==◌, Bool, true, false, Option, none, some, List, [], ◌∷◌,
  ◌++◌, if◌then◌else◌,
}
use k8s_eviction_controller.Api.{Condition, EvictionRequestStatus, PodEvictionStatus}
use k8s_eviction_controller.Api.Constants.{
  allow, condition_false, condition_type_evicted, reason_eviction_failed,
}
use k8s_eviction_controller.Cluster.{
  Env, Err, M, pure, ◌>>=◌, ◌>>◌, modify_status, update_status, now,
}

-- The loop over the conditions: the first one of the new condition's type is replaced, and keeps
-- its transition time if its status does not change. The flag is `found`.
unfoldable pub replace_condition : Condition → List Condition → List Condition × Bool
replace_condition condition [] = ([], false)
replace_condition condition (existing ∷ rest) =
    let (rest', found) = replace_condition condition rest in
    if existing.type == condition.type
    then (
      record condition {
        last_transition_time =
            if existing.status == condition.status
            then existing.last_transition_time
            else condition.last_transition_time;
      }
          ∷ rest,
      true,
    )
    else (existing ∷ rest', found)

-- The loop, and the append if nothing was found.
unfoldable pub upsert : Condition → List Condition → List Condition
unfolding replace_condition
upsert condition conditions =
    let (conditions', found) = replace_condition condition conditions in
    if found then conditions' else conditions' ++ (condition ∷ [])

unfoldable pub new_condition : ℕ → String → String → String → String → Condition
new_condition now type status reason message = record {
  type = type;
  status = status;
  observed_generation = 0;
  last_transition_time = now;
  reason = reason;
  message = message;
}

-- An empty cancellation policy becomes Allow.
unfoldable pub default_policy : EvictionRequestStatus → EvictionRequestStatus
default_policy status = record status {
  eviction_request_cancellation_policy =
      if status.eviction_request_cancellation_policy == ""
      then allow
      else status.eviction_request_cancellation_policy;
}

-- A nil PodEvictionStatus is replaced by the zero value.
unfoldable pub ensure_counter : Option PodEvictionStatus → PodEvictionStatus
ensure_counter none = record { failed_api_eviction_counter = pos 0 }
ensure_counter (some counter) = counter

-- `FailedAPIEvictionCounter++` on an int32.
unfoldable pub increment_counter : Option PodEvictionStatus → PodEvictionStatus
unfolding ensure_counter
increment_counter counter = record {
  failed_api_eviction_counter =
      wrap32 ((ensure_counter counter).failed_api_eviction_counter +ℤ pos 1);
}

module _ (env : Env) where
  unfoldable pub upsert_condition : String → String → String → String → M env.World (Option Err)
  unfolding upsert new_condition default_policy
  upsert_condition type status reason message = do
    time ← now env
    modify_status λ current. record current {
      conditions = upsert (new_condition time type status reason message) current.conditions;
    }
    modify_status default_policy
    update_status env

  unfoldable pub increment_failed_eviction_counter : M env.World (Option Err)
  unfolding increment_counter default_policy upsert_condition
  increment_failed_eviction_counter = do
    modify_status λ current. record current {
      pod_eviction_status = some (increment_counter current.pod_eviction_status);
    }
    modify_status default_policy
    upsert_condition condition_type_evicted condition_false reason_eviction_failed
        "Failed to evict pod"
