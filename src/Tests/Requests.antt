-- ===== src/Tests/Requests.antt =====
-- Requests and states that the tests run on.
use k8s_eviction_controller.Prelude.{
  ◌≡◌, ◌≢◌, ◌==◌, eq_iff, arith, ℕ, ◌*◌, pos, String, Bool, true, false, Option, none, some, List,
  [], ◌∷◌,
}
use k8s_eviction_controller.Api.{
  LocalPodReference, Interceptor, EvictionRequestSpec, EvictionRequestStatus, EvictionRequest,
}
use k8s_eviction_controller.Api.Constants.{soft, allow, forbid, second}
use k8s_eviction_controller.Cluster.{Pod, State}
use k8s_eviction_controller.Tests.Memory.{World}

abbrev pub slow : Interceptor
slow = record { interceptor_class = "slow.example.com"; priority = pos 10; role = none }

abbrev pub fast : Interceptor
fast = record { interceptor_class = "fast.example.com"; priority = pos 20; role = none }

abbrev pub pod_reference : LocalPodReference
pod_reference = record { name = "web"; uid = "u1" }

abbrev pub web : Pod
web = record { name = "web"; namespace = "prod"; uid = "u1" }

abbrev pub spec_of : Option LocalPodReference → List Interceptor → EvictionRequestSpec
spec_of reference interceptors = record {
  type = soft;
  target = record { pod_ref = reference };
  requesters = [];
  interceptors = interceptors;
  heartbeat_deadline_seconds = some (pos 1800);
}

abbrev pub status_of : String → Option String → Bool → Option ℕ → EvictionRequestStatus
status_of policy class completed heartbeat = record {
  conditions = [];
  message = "";
  active_interceptor_class = class;
  active_interceptor_completed = completed;
  heartbeat_time = heartbeat;
  expected_interceptor_finish_time = none;
  eviction_request_cancellation_policy = policy;
  pod_eviction_status = none;
}

abbrev pub request_of : EvictionRequestSpec → EvictionRequestStatus → EvictionRequest
request_of spec status = record {
  metadata = record { name = "drain-web"; namespace = "prod"; resource_version = 3 };
  spec = spec;
  status = status;
}

abbrev pub cluster : World
cluster = record { pod = some web; version = 3; clock = 5000 * second; blocked = false }

abbrev pub state_of : EvictionRequest → State World
state_of r = record { world = cluster; request = r; calls = [] }

abbrev pub two : List Interceptor
two = slow ∷ fast ∷ []

-- No interceptor is active yet.
abbrev pub fresh : State World
fresh = state_of (request_of (spec_of (some pod_reference) two) (status_of allow none false none))

-- The first interceptor is at work, and was last heard of at the second 1000.
abbrev pub working : State World
working = state_of (
    request_of (spec_of (some pod_reference) two)
      (status_of forbid (some "fast.example.com") false (some (1000 * second))))

-- The same with no heartbeat.
abbrev pub silent : State World
silent = state_of (
    request_of (spec_of (some pod_reference) two)
      (status_of allow (some "fast.example.com") false none))

-- The first interceptor has completed.
abbrev pub first_done : State World
first_done = state_of (
    request_of (spec_of (some pod_reference) two)
      (status_of allow (some "fast.example.com") true none))

-- The last one has.
abbrev pub last_done : State World
last_done = state_of (
    request_of (spec_of (some pod_reference) two)
      (status_of allow (some "slow.example.com") true none))

-- No interceptors, with a policy and without.
abbrev pub direct : State World
direct = state_of (request_of (spec_of (some pod_reference) []) (status_of allow none false none))

abbrev pub no_policy : State World
no_policy = state_of (request_of (spec_of (some pod_reference) []) (status_of "" none false none))

abbrev pub no_reference : State World
no_reference = state_of (request_of (spec_of none []) (status_of allow none false none))

pub text-ne : (a b : String) → (a == b) ≡ false → a ≢ b
text-ne a b h = ground (arith, eq_iff a b)
