-- ===== src/Api/Constants.antt =====
-- The string constants of types.go and of pkg/constants/constants.go, those of metav1 that the code
-- uses, and the resync interval in nanoseconds.
use k8s_eviction_controller.Prelude.{ℕ, ◌*◌, String}

abbrev pub soft : String
soft = "Soft"

abbrev pub allow : String
allow = "Allow"

abbrev pub forbid : String
forbid = "Forbid"

abbrev pub condition_true : String
condition_true = "True"

abbrev pub condition_false : String
condition_false = "False"

abbrev pub condition_type_ready : String
condition_type_ready = "Ready"

abbrev pub condition_type_evicted : String
condition_type_evicted = "Evicted"

abbrev pub reason_pod_not_found : String
reason_pod_not_found = "PodNotFound"

abbrev pub reason_eviction_succeeded : String
reason_eviction_succeeded = "EvictionSucceeded"

abbrev pub reason_eviction_failed : String
reason_eviction_failed = "EvictionFailed"

-- time.Second, in nanoseconds.
abbrev pub second : ℕ
second = 1_000_000_000

abbrev pub default_resync_interval : ℕ
default_resync_interval = 3600 * second

abbrev pub condition_type_intercepting : String
condition_type_intercepting = "Intercepting"

abbrev pub eviction_request_complete : String
eviction_request_complete = "Complete"

abbrev pub reason_interceptors_ready : String
reason_interceptors_ready = "InterceptorsReady"

abbrev pub reason_interceptors_not_ready : String
reason_interceptors_not_ready = "InterceptorsNotReady"
