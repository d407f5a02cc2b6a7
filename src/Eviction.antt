-- ===== src/Eviction.antt =====
-- pkg/reconciler/eviction/eviction.go: the eviction of the target pod.
pub mod Outcomes
use k8s_eviction_controller.Prelude.{String, true, false, Option, none, some, if◌then◌else◌}
use k8s_eviction_controller.Api.Constants.{
  condition_true, condition_false, condition_type_ready, condition_type_evicted,
  reason_pod_not_found, reason_eviction_succeeded,
}
use k8s_eviction_controller.Cluster.{
  Env, Err, message, wrapped, Pod, Eviction, found, failed, M, pure, ◌>>=◌, ◌>>◌, case_nil,
  case_found, when◌then◌otherwise◌, get_request, get_pod, evict,
}
use k8s_eviction_controller.Status.{upsert_condition, increment_failed_eviction_counter}

-- The eviction object of a pod: its delete options are empty, so it has no precondition.
unfoldable pub eviction_of : Pod → Eviction
eviction_of pod = record {
  name = pod.name;
  namespace = pod.namespace;
  delete_options = record { precondition_uid = none };
}

module _ (env : Env) where
  -- The part of `Perform` after the pod was found. The results of the status handler are dropped.
  unfoldable pub evict_pod : Pod → M env.World (Option Err)
  evict_pod pod = do
    refused ← evict env (eviction_of pod)
    case_nil refused
        (do
          upsert_condition env condition_type_evicted condition_true reason_eviction_succeeded
              "Pod evicted successfully"
          pure none)
        λ e. do increment_failed_eviction_counter env; pure (some (wrapped "failed to evict pod" e))

  unfoldable pub perform : M env.World (Option Err)
  perform = do
    request ← get_request
    case_nil request.spec.target.pod_ref
        (do
          upsert_condition env condition_type_ready condition_false reason_pod_not_found
              "EvictionRequest.Spec.Target.PodRef cannot be nil"
          pure (some (message "pod reference cannot be nil")))
        λ ref. do
          answer ← get_pod env request.metadata.namespace ref.name
          case_found answer (evict_pod) λ e.
              when env.is_not_found e
              then pure none
              otherwise pure (some (wrapped "failed to get pod" e))
