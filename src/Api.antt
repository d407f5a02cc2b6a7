-- ===== src/Api.antt =====
-- apis/evictionrequest/v1alpha1/types.go and pkg/constants/constants.go: the EvictionRequest
-- resource. A pointer field is an `Option`, a nil or empty slice is `[]`, an int32 is a ℤ (its
-- range is `IsInt32`). Of apimachinery's ObjectMeta the fields that the code or the API server's
-- versioning reads are kept; times are nanoseconds since a fixed origin.
use k8s_eviction_controller.Prelude.{ℕ, ℤ, String, Bool, Option, List}
pub mod Constants

pub record LocalPodReference : Type 0 where
  pub name : String
  pub uid : String

pub record EvictionTarget : Type 0 where
  pub pod_ref : Option LocalPodReference

pub record Requester : Type 0 where
  pub name : String

pub record Interceptor : Type 0 where
  pub interceptor_class : String
  pub priority : ℤ
  pub role : Option String

pub record EvictionRequestSpec : Type 0 where
  pub type : String
  pub target : EvictionTarget
  pub requesters : List Requester
  pub interceptors : List Interceptor
  pub heartbeat_deadline_seconds : Option ℤ

-- metav1.Condition of apimachinery.
pub record Condition : Type 0 where
  pub type : String
  pub status : String
  pub observed_generation : ℕ
  pub last_transition_time : ℕ
  pub reason : String
  pub message : String

pub record PodEvictionStatus : Type 0 where
  pub failed_api_eviction_counter : ℤ

pub record EvictionRequestStatus : Type 0 where
  pub conditions : List Condition
  pub message : String
  pub active_interceptor_class : Option String
  pub active_interceptor_completed : Bool
  pub heartbeat_time : Option ℕ
  pub expected_interceptor_finish_time : Option ℕ
  pub eviction_request_cancellation_policy : String
  pub pod_eviction_status : Option PodEvictionStatus

-- metav1.ObjectMeta of apimachinery, in part.
pub record ObjectMeta : Type 0 where
  pub name : String
  pub namespace : String
  pub resource_version : ℕ

pub record EvictionRequest : Type 0 where
  pub metadata : ObjectMeta
  pub spec : EvictionRequestSpec
  pub status : EvictionRequestStatus
