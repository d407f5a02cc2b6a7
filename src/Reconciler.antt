-- ===== src/Reconciler.antt =====
-- pkg/reconciler/reconciler.go: one reconciliation of an EvictionRequest.
pub mod Frame
pub mod Safety
pub mod Policy
pub mod Repeat
pub mod Stale
pub mod Target
pub mod Calls
pub mod Requesters
pub mod Server
pub mod Turns
pub mod Beginning
pub mod Overdue
use k8s_eviction_controller.Prelude.{
  String, ◌==◌, true, false, Option, none, some, List, [], ◌∷◌, if◌then◌else◌,
}
use k8s_eviction_controller.Api.Constants.{allow}
use k8s_eviction_controller.Cluster.{
  Env, Err, found, failed, M, pure, panic, ◌>>=◌, ◌>>◌, case_nil, case_found, case_empty,
  when◌then◌otherwise◌, get_request, modify_status, get_pod, update_status,
}
use k8s_eviction_controller.Eviction.{perform}
use k8s_eviction_controller.Interceptor.{handle}

module _ (env : Env) where
  -- The last part of `ReconcileEvictionRequest`: interceptors first, if there are any.
  unfoldable pub proceed : M env.World (Option Err)
  proceed = do
    request ← get_request
    case_empty request.spec.interceptors (perform env) (handle env)

  -- An empty cancellation policy is set to Allow and stored before anything else is done.
  unfoldable pub ensure_policy : M env.World (Option Err)
  ensure_policy = do
    request ← get_request
    when request.status.eviction_request_cancellation_policy == ""
        then (do
          modify_status λ status. record status { eviction_request_cancellation_policy = allow }
          update_status env)
        otherwise pure none

  -- The part of `ReconcileEvictionRequest` after the test of the pod's UID.
  unfoldable pub reconcile_pod : M env.World (Option Err)
  reconcile_pod = do refused ← ensure_policy; case_nil refused proceed λ e. pure (some e)

  -- `PodRef` is read without a test: a nil one panics.
  unfoldable pub reconcile_eviction_request : M env.World (Option Err)
  reconcile_eviction_request = do
    request ← get_request
    case_nil request.spec.target.pod_ref panic λ ref. do
      answer ← get_pod env request.metadata.namespace ref.name
      case_found answer (λ pod. when pod.uid == ref.uid then reconcile_pod otherwise pure none)
          (λ e. when env.is_not_found e then pure none otherwise pure (some e))
