-- ===== src/Tests/Status.antt =====
-- The theorems on conditions, on the failure counter, on indices and on the clients, at concrete
-- values.
use mathlib.Core.Option
use k8s_eviction_controller.Prelude.{
  ◌-◌, ◌^◌, ℤ, pos, negsuc, ◌≡◌, ◌≢◌, refl, ◌==◌, Option, some, List, [], ◌∷◌, arith, if◌then◌else◌,
}
use k8s_eviction_controller.Api.{Condition}
use k8s_eviction_controller.Api.Constants.{condition_type_evicted, condition_false}
use k8s_eviction_controller.Cluster.{Err, State, returned, updated, final}
use k8s_eviction_controller.Status.{
  upsert, ensure_counter, new_condition, default_policy, upsert_condition,
  increment_failed_eviction_counter,
}
use k8s_eviction_controller.Status.Conditions.{
  find_condition, transition_time, contains, NodupTypes, find_condition-upsert, upsert-NodupTypes,
}
use k8s_eviction_controller.Status.Handler.{
  counter, upsert_condition_lem, increment_failed_eviction_counter_lem,
}
use k8s_eviction_controller.Tests.Memory.{World, memory}
use k8s_eviction_controller.Tests.Requests.{fresh}

abbrev evicted_false : Condition
evicted_false = new_condition 7 "Evicted" "False" "EvictionFailed" "Failed to evict pod"

abbrev evicted_true : Condition
evicted_true = new_condition 9 "Evicted" "True" "EvictionSucceeded" "Pod evicted"

abbrev accepted : Condition
accepted = new_condition 3 "Accepted" "True" "Ok" ""

abbrev listed : List Condition
listed = accepted ∷ evicted_false ∷ []

-- A new status takes the new time, and a repeated one keeps the old.
status_changes : upsert evicted_true listed ≡ accepted ∷ evicted_true ∷ []
unfolding upsert new_condition
status_changes = refl

find_condition-upsert_example : find_condition "Evicted" (upsert evicted_true listed) ≡ (
    if evicted_true.type == "Evicted"
    then some (record evicted_true {
      last_transition_time = transition_time evicted_true (find_condition evicted_true.type listed);
    })
    else find_condition "Evicted" listed)
find_condition-upsert_example = find_condition-upsert evicted_true listed "Evicted"

listed-NodupTypes : NodupTypes listed
unfolding contains new_condition
listed-NodupTypes = (refl, (refl, tt))

upsert-NodupTypes_example : NodupTypes (upsert evicted_true listed)
upsert-NodupTypes_example = upsert-NodupTypes evicted_true listed listed-NodupTypes

upsert_condition_lem_example :
    let before = fresh.request in
    let condition = new_condition (memory.now fresh.world).1 "Evicted" "True" "Done" "" in
    let t = final (upsert_condition memory "Evicted" "True" "Done" "" fresh) in
    (answer : Option Err) × (upsert_condition memory "Evicted" "True" "Done" "" fresh
      ≡ returned answer t)
    × (t.calls ≡ updated t.request answer ∷ [])
    × (find_condition "Accepted" t.request.status.conditions ≡ (
        if "Evicted" == "Accepted"
        then some (record condition {
          last_transition_time =
              transition_time condition (find_condition "Evicted" before.status.conditions);
        })
        else find_condition "Accepted" before.status.conditions))
    × (t.request.status.eviction_request_cancellation_policy ≢ "")
    × (t.request ≡ record before {
      status = record before.status {
        conditions = t.request.status.conditions;
        eviction_request_cancellation_policy =
            (default_policy before.status).eviction_request_cancellation_policy;
      };
    })
upsert_condition_lem_example =
    upsert_condition_lem memory "Evicted" "True" "Done" "" fresh "Accepted"

abbrev with_count : ℤ → State World
with_count n = record fresh {
  request = record fresh.request {
    status = record fresh.request.status {
      pod_eviction_status = some (record { failed_api_eviction_counter = n });
    };
  };
}

abbrev full : State World
full = with_count (pos (2 ^ 31 - 1))

increment_failed_eviction_counter_lem_example :
    let t = final (increment_failed_eviction_counter memory full) in
    (answer : Option Err) × (increment_failed_eviction_counter memory full ≡ returned answer t)
    × (t.calls ≡ updated t.request answer ∷ [])
    × (counter t.request.status.pod_eviction_status ≡ negsuc (2 ^ 31 - 1))
    × (Option.map
          (λ c. c.status)
          (find_condition condition_type_evicted t.request.status.conditions)
        ≡ some condition_false)
    × (t.request.status.eviction_request_cancellation_policy ≢ "")
    × (t.request.spec ≡ fresh.request.spec)
unfolding ensure_counter
increment_failed_eviction_counter_lem_example =
    increment_failed_eviction_counter_lem memory full (omega arith, omega arith)
