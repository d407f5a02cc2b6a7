-- ===== src/Tests/Retries.antt =====
-- A reconciliation whose eviction is refused, its retry, and the same for other requesters.
use k8s_eviction_controller.Prelude.{◌≡◌, refl, true, [], ◌∷◌}
use k8s_eviction_controller.Cluster.{State, final, result, evictions}
use k8s_eviction_controller.Cluster.Runs.{asked_by}
use k8s_eviction_controller.Reconciler.Requesters.{requesters_ignored}
use k8s_eviction_controller.Status.{upsert_condition, increment_failed_eviction_counter}
use k8s_eviction_controller.Eviction.{evict_pod, perform}
use k8s_eviction_controller.Reconciler.{
  proceed, ensure_policy, reconcile_pod, reconcile_eviction_request,
}
use k8s_eviction_controller.Reconciler.Stale.{AllRefused, HasStale, retry_stores_nothing}
use k8s_eviction_controller.Tests.Memory.{World, memory, memory-HasVersions}
use k8s_eviction_controller.Tests.Requests.{cluster, direct}

-- A disruption budget stands in the way of the eviction.
abbrev blocked : State World
blocked = record direct { world = record cluster { blocked = true } }

counted : ¬ AllRefused (final (reconcile_eviction_request memory blocked)).calls
unfolding reconcile_eviction_request reconcile_pod ensure_policy proceed perform evict_pod
    increment_failed_eviction_counter upsert_condition
counted h = h

retry_stores_nothing_example :
    let t = final (reconcile_eviction_request memory blocked) in
    let again : State World = record t { calls = [] } in
    HasStale memory memory-HasVersions t
    × HasStale memory memory-HasVersions (final (reconcile_eviction_request memory again))
    × AllRefused (final (reconcile_eviction_request memory again)).calls
retry_stores_nothing_example =
    retry_stores_nothing memory memory-HasVersions blocked
      (final (reconcile_eviction_request memory blocked)).world tt counted (λ h. h)

-- The requests of the tests have no requesters.
requesters_ignored_example :
    let x = reconcile_eviction_request memory blocked in
    let y = reconcile_eviction_request memory (record blocked {
      request = asked_by "Soft" (record { name = "autoscaler" } ∷ []) blocked.request;
    }) in
    (result y ≡ result x)
    × ((final y).world ≡ (final x).world)
    × ((final y).request.status ≡ (final x).request.status)
    × (evictions (final y).calls ≡ evictions (final x).calls)
requesters_ignored_example =
    requesters_ignored memory (λ w r type requesters. refl) "Soft"
      (record { name = "autoscaler" } ∷ []) blocked
