-- ===== src/Tests/Handlers.antt =====
-- Runs of the reconciler and its handlers on the small cluster, and their theorems at those runs.
use mathlib.Core.List.{mem-cons, not-mem-nil, Pairwise-pair}
use mathlib.Core.Logic.Or
use mathlib.Core.Option
use k8s_eviction_controller.Prelude.{
  List, ◌+◌, ◌<◌, ◌≤◌, ◌*◌, ◌≡◌, ◌≢◌, ◌↔◌, ◌⊎◌, refl, inr, true, Option, none, some, [], ◌∷◌, arith,
  if◌then◌else◌,
}
use k8s_eviction_controller.Api.{LocalPodReference, Interceptor}
use k8s_eviction_controller.Api.Constants.{forbid, second}
use k8s_eviction_controller.Cluster.{
  Err, remote, message, wrapped, Pod, found, failed, State, Exit, updated, evicted, returned,
  panics, result, final, evictions,
}
use k8s_eviction_controller.Status.{upsert_condition, increment_failed_eviction_counter}
use k8s_eviction_controller.Eviction.{eviction_of, evict_pod, perform}
use k8s_eviction_controller.Eviction.Outcomes.{answer_of, perform_outcome}
use k8s_eviction_controller.Interceptor.{
  is_unset, find_interceptor_index, index_with_next, deadline_of, since, select_class,
  sort_interceptors_by_priority, select_at, select_initial_interceptor, select_next_interceptor,
  handle_completed_interceptor, mark_interceptor_as_completed, wait_for_progress,
  check_interceptor_timeout, handle,
}
use k8s_eviction_controller.Interceptor.Order.{IsHighest, IsOrder, Follows, IsLast}
use k8s_eviction_controller.Interceptor.Decision.{decide, act, handle_decides}
use k8s_eviction_controller.Interceptor.Selection.{
  Selects, handle-Selects-IsHighest, handle-Selects-Follows,
}
use k8s_eviction_controller.Interceptor.Progress.{handle_times_out, handle_waits}
use k8s_eviction_controller.Interceptor.Drain.{HasClasses}
use k8s_eviction_controller.Interceptor.Retry.{handle_once}
use k8s_eviction_controller.Interceptor.Effects.{IsExhausted}
use k8s_eviction_controller.Reconciler.{
  proceed, ensure_policy, reconcile_pod, reconcile_eviction_request,
}
use k8s_eviction_controller.Reconciler.Safety.{
  MatchesPod, reconcile_panics_iff, reconcile_evicts_last,
}
use k8s_eviction_controller.Reconciler.Policy.{policy_of, reconcile_policy}
use k8s_eviction_controller.Reconciler.Repeat.{eviction_not_reported, reconcile_evicts_second}
use k8s_eviction_controller.Tests.Memory.{
  World, memory, memory-SortsSlices as sorts, memory-HasVersions,
}
use k8s_eviction_controller.Tests.Requests.{
  text-ne, two, cluster, pod_reference, web, fresh, working, silent, first_done, last_done, direct,
  no_policy, no_reference,
}

-- The line names all that a run computes with.
run_handle : State World → Exit World (Option Err)
unfolding handle check_interceptor_timeout wait_for_progress mark_interceptor_as_completed
    handle_completed_interceptor select_next_interceptor select_initial_interceptor select_at
    sort_interceptors_by_priority select_class since deadline_of index_with_next
    find_interceptor_index is_unset perform evict_pod eviction_of upsert_condition
    increment_failed_eviction_counter
run_handle = handle memory

run_reconcile : State World → Exit World (Option Err)
unfolding run_handle reconcile_eviction_request reconcile_pod ensure_policy proceed
run_reconcile = reconcile_eviction_request memory

-- The interceptor of higher priority is selected, though it stands second in the spec.
fresh_selects :
    (final (reconcile_eviction_request memory fresh)).request.status.active_interceptor_class
    ≡ some "fast.example.com"
unfolding run_reconcile
fresh_selects = refl

last_evicts :
    evictions (final (reconcile_eviction_request memory last_done)).calls ≡ eviction_of web ∷ []
unfolding run_reconcile
last_evicts = refl

working_expires :
    (final (reconcile_eviction_request memory working)).request.status.active_interceptor_completed
    ≡ true
unfolding run_reconcile
working_expires = refl

pub two-ne : two ≢ []
two-ne e = cc

reconcile_evicts_last_example : IsExhausted memory last_done.request × MatchesPod memory last_done
reconcile_evicts_last_example =
    reconcile_evicts_last memory sorts last_done λ e. cc (last_evicts, e)

handle_decides_example :
    handle memory fresh
    ≡ act memory (decide (sort_interceptors_by_priority memory two) fresh.request) fresh
handle_decides_example = handle_decides memory sorts fresh two-ne

handle-Selects-IsHighest_example :
    (x : Interceptor) × IsHighest two x
    × Selects memory fresh (handle memory fresh) x.interceptor_class
unfolding is_unset
handle-Selects-IsHighest_example = handle-Selects-IsHighest memory sorts fresh two-ne refl

perform_outcome_example :
    let s = direct in
    let t = final (perform memory s) in
    ((s.request.spec.target.pod_ref ≡ none)
      × (result (perform memory s) ≡ some (some (message "pod reference cannot be nil")))
      × (evictions t.calls ≡ evictions s.calls))
    ⊎ ((ref : LocalPodReference) × (e : Err) × (s.request.spec.target.pod_ref ≡ some ref)
        × ((answer_of memory s ref).1 ≡ failed e)
        × (result (perform memory s)
            ≡ some (if memory.is_not_found e then none else some (wrapped "failed to get pod" e)))
        × (t ≡ record s { world = (answer_of memory s ref).0 }))
    ⊎ ((ref : LocalPodReference) × (pod : Pod) × (s.request.spec.target.pod_ref ≡ some ref)
        × ((answer_of memory s ref).1 ≡ found pod)
        × (result (perform memory s)
            ≡ some (
                Option.map
                  (wrapped "failed to evict pod")
                  (memory.evict (answer_of memory s ref).0 (eviction_of pod)).1))
        × (evictions t.calls ≡ eviction_of pod ∷ evictions s.calls))
perform_outcome_example = perform_outcome memory direct

handle-Selects-Follows_example :
    (zs : List Interceptor) × IsOrder memory two zs
    × (((n : Interceptor) × Follows zs "fast.example.com" n
          × Selects memory first_done (handle memory first_done) n.interceptor_class)
        ⊎ (IsLast zs "fast.example.com" × (handle memory first_done ≡ perform memory first_done)))
handle-Selects-Follows_example =
    handle-Selects-Follows memory sorts first_done "fast.example.com" two-ne refl (text-ne _ _ refl)
      refl

pub two-HasClasses : HasClasses two
two-HasClasses = record {
  distinct = (Pairwise-pair (λ a b. hlevel)).1 (text-ne _ _ refl);
  named = λ x m.
      Or.elim (hlevel) (mem-cons.0 m) (λ e. rw e (text-ne _ _ refl))
        λ m'.
          Or.elim (hlevel) (mem-cons.0 m') (λ e. rw e (text-ne _ _ refl))
            λ k. absurd (not-mem-nil k);
}

reconcile_panics_iff_example :
    (panics (reconcile_eviction_request memory no_reference) ≡ true)
    ↔ (no_reference.request.spec.target.pod_ref ≡ none)
reconcile_panics_iff_example = reconcile_panics_iff memory sorts no_reference

matches : MatchesPod memory working
matches = (pod_reference, web, refl, refl, refl)

reconcile_policy_example :
    policy_of (final (reconcile_eviction_request memory working)).request ≡ forbid
reconcile_policy_example = reconcile_policy memory sorts working matches

reconcile_evicts_second_example :
    (evictions (final (reconcile_eviction_request memory direct)).calls ≡ eviction_of web ∷ [])
    × (result (reconcile_eviction_request memory direct) ≡ some none)
reconcile_evicts_second_example =
    reconcile_evicts_second memory direct pod_reference web web refl refl (text-ne _ _ refl) refl
      refl refl

eviction_not_reported_example :
    let t = final (reconcile_eviction_request memory no_policy) in
    (e : Err) × (result (reconcile_eviction_request memory no_policy) ≡ some none)
    × (t.calls
        ≡ updated t.request (some e)
          ∷ evicted (eviction_of web) none
          ∷ updated (final (ensure_policy memory no_policy)).request none
          ∷ [])
unfolding ensure_policy
eviction_not_reported_example =
    eviction_not_reported memory memory-HasVersions no_policy pod_reference web web refl refl refl
      refl refl refl refl refl

handle_times_out_example :
    let t = final (handle memory working) in
    ((1000 * second + 1800 * second < 5000 * second)
      × ((answer : Option Err) × (handle memory working ≡ returned answer t)
          × (t.request ≡ record working.request {
            status = record working.request.status { active_interceptor_completed = true };
          })
          × (t.calls ≡ updated t.request answer ∷ [])
          × (memory.update_status working.world t.request ≡ (t.world, answer))))
    ⊎ ((5000 * second ≤ 1000 * second + 1800 * second)
        × (handle memory working ≡ returned none working))
handle_times_out_example =
    handle_times_out memory sorts working "fast.example.com" 1800 (1000 * second)
      (record { listed = two-ne; class = refl; named = text-ne _ _ refl; running = refl }) refl refl
      (omega arith)

handle_waits_example : handle memory silent ≡ returned none silent
handle_waits_example =
    handle_waits memory sorts silent "fast.example.com"
      (record { listed = two-ne; class = refl; named = text-ne _ _ refl; running = refl })
      (inr refl)

-- A newer version of the object than `fresh` is stored, so its updates are refused.
abbrev outdated : State World
outdated = record fresh { world = record cluster { version = 9 } }

selection_refused : result (handle memory outdated) ≡ some (some (remote "Conflict"))
unfolding run_handle
selection_refused = refl

handle_once_example :
    let t = final (handle memory outdated) in
    let again : State World = record t { world = cluster } in
    (answer : Option Err) × (handle memory outdated ≡ returned answer t)
    × (t.calls ≡ updated t.request answer ∷ [])
    × (handle memory again ≡ returned none again)
unfolding is_unset
handle_once_example =
    handle_once memory sorts outdated cluster
      (record { listed = two-ne; unselected = refl; running = refl; silent = refl }) two-HasClasses
