-- ===== src/Reconciler/Frame.antt =====
-- Every handler ends alike from related states, if every step of it does; so it keeps what every
-- step of it keeps.
use k8s_eviction_controller.Prelude.{◌≡◌, ℕ, String, Option, none, some, List}
use k8s_eviction_controller.Api.{EvictionRequest, EvictionRequestStatus, Interceptor, Requester}
use k8s_eviction_controller.Cluster.{
  Env, Pod, Eviction, State, M, ◌>>=◌, get_request, modify_status, get_pod, update_status, evict,
  now,
}
use k8s_eviction_controller.Cluster.Runs.{
  Related, RelatesSteps, asked_by, read_then, bind, next, pure_related, panic_related, when_related,
  nil_related, found_related, empty_related,
}
use k8s_eviction_controller.Cluster.Frame.{IsFrame, Keeping, IsFrame-RelatesSteps, Keeping-Related}
use k8s_eviction_controller.Status.{upsert_condition, increment_failed_eviction_counter}
use k8s_eviction_controller.Eviction.{evict_pod, perform}
use k8s_eviction_controller.Interceptor.{
  deref, select_at, select_initial_interceptor, select_next_interceptor,
  handle_completed_interceptor, mark_interceptor_as_completed, wait_for_progress,
  check_interceptor_timeout, handle,
}
use k8s_eviction_controller.Reconciler.{
  proceed, ensure_policy, reconcile_pod, reconcile_eviction_request,
}

ruleset rules = (bind, next, nil_related, found_related, when_related, pure_related, panic_related)

module _ (env : Env) (R : State env.World → State env.World → Type 0)
    (steps : RelatesSteps env R) where
  reads :
      {A : Type 0} {f : EvictionRequest → M env.World A}
      → ((r : EvictionRequest) (type : String) (requesters : List Requester)
          → f (asked_by type requesters r) ≡ f r)
      → ((r : EvictionRequest) → Related R (f r))
      → Related R (get_request >>= f)
  reads {f} = read_then env R steps f

  write_related : (f : EvictionRequestStatus → EvictionRequestStatus) → Related R (modify_status f)
  write_related = steps.write

  update_related : Related R (update_status env)
  update_related = steps.update

  evict_related : (e : Eviction) → Related R (evict env e)
  evict_related = steps.evict

  now_related : Related R (now env)
  now_related = steps.now

  get_pod_related : (namespace name : String) → Related R (get_pod env namespace name)
  get_pod_related = steps.get_pod

  upsert_condition_related :
      (type status reason message : String)
      → Related R (upsert_condition env type status reason message)
  unfolding upsert_condition
  upsert_condition_related type status reason message =
      search (bind, next, now_related, write_related, update_related)

  increment_related : Related R (increment_failed_eviction_counter env)
  unfolding increment_failed_eviction_counter
  increment_related = search (bind, next, write_related, upsert_condition_related)

  evict_pod_related : (pod : Pod) → Related R (evict_pod env pod)
  unfolding evict_pod
  evict_pod_related pod = search (
    bind, next, evict_related, nil_related, pure_related, upsert_condition_related,
    increment_related,
  )

  perform_related : Related R (perform env)
  unfolding perform
  perform_related =
      search (rules, reads, get_pod_related, evict_pod_related, upsert_condition_related) depth 12

  deref_related : (o : Option String) → Related R (deref {W = env.World} o)
  deref_related none = panic_related R
  deref_related (some c) = pure_related R c

  select_at_related : (xs : List Interceptor) (i : ℕ) → Related R (select_at env xs i)
  unfolding select_at
  select_at_related xs i = search (rules, write_related, update_related) depth 12

  completed_related : (xs : List Interceptor) → Related R (handle_completed_interceptor env xs)
  unfolding handle_completed_interceptor select_next_interceptor
  completed_related xs =
      search (rules, reads, deref_related, perform_related, select_at_related) depth 12

  wait_related : Related R (wait_for_progress env)
  unfolding wait_for_progress
  wait_related = search (rules, reads, deref_related) depth 12

  mark_related : Related R (mark_interceptor_as_completed env)
  unfolding mark_interceptor_as_completed
  mark_related = search (rules, reads, deref_related, write_related, update_related) depth 12

  timeout_related : Related R (check_interceptor_timeout env)
  unfolding check_interceptor_timeout
  timeout_related = search (rules, reads, wait_related, mark_related, now_related) depth 12

  handle_related : Related R (handle env)
  unfolding handle select_initial_interceptor
  handle_related =
      search (rules, reads, select_at_related, completed_related, timeout_related) depth 12

  proceed_related : Related R (proceed env)
  unfolding proceed
  proceed_related = search (rules, reads, empty_related, perform_related, handle_related) depth 12

  ensure_policy_related : Related R (ensure_policy env)
  unfolding ensure_policy
  ensure_policy_related = search (rules, reads, write_related, update_related) depth 12

  reconcile_pod_related : Related R (reconcile_pod env)
  unfolding reconcile_pod
  reconcile_pod_related = search (rules, ensure_policy_related, proceed_related) depth 12

  -- From related states a reconciliation ends alike.
  pub reconcile_related : Related R (reconcile_eviction_request env)
  unfolding reconcile_eviction_request
  reconcile_related = search (rules, reads, get_pod_related, reconcile_pod_related) depth 12

-- What every call and every write to the status keeps, a reconciliation keeps, also when it panics.
pub reconcile_kept :
    (env : Env) (P : State env.World → Type 0)
    → IsFrame env P
    → Keeping P (reconcile_eviction_request env)
reconcile_kept env P frame =
    Keeping-Related P (reconcile_related env _ (IsFrame-RelatesSteps env P frame))
