-- ===== src/DeepCopy.antt =====
-- apis/evictionrequest/v1alpha1/zz_generated.deepcopy.go. A `…_deep_copy_into` gives the value of
-- `*out`; a `…_deep_copy` takes and gives a pointer. DeepCopyInto of apimachinery's ObjectMeta,
-- ListMeta and Condition, and DeepCopy of its Time, copy the fields that are kept here.
pub mod Shape
pub mod Pointer
pub mod Views
pub mod Requests
pub mod Isolation
use k8s_eviction_controller.Prelude.{ℕ, pos, false, Option, none, some, List, [], ◌∷◌}
use k8s_eviction_controller.Api.{LocalPodReference, Requester, PodEvictionStatus}
use k8s_eviction_controller.Store.{
  TargetCell, InterceptorCell, SpecCell, StatusCell, RequestCell, ListCell, Cell, Store, Alloc,
  pure, ◌>>=◌, reserve, put, copy_cell,
}

-- What a cell of the type in question holds; Go's types exclude any other.
abbrev pub interceptors_of : Cell → List InterceptorCell
interceptors_of (Cell.interceptor_array xs) = xs
interceptors_of _ = []

abbrev pub requests_of : Cell → List RequestCell
requests_of (Cell.request_array xs) = xs
requests_of _ = []

-- A loop `for i := range *in` of `DeepCopyInto`.
abbrev pub copy_each : {A : Type 0} → (A → Alloc A) → List A → Alloc (List A)
copy_each copy_into [] m = ([], m)
copy_each copy_into (x ∷ xs) m =
    let (y, m1) = copy_into x m in let (ys, m2) = copy_each copy_into xs m1 in (y ∷ ys, m2)

-- A pointer or slice with pointers in what it points to: the new cell is made, then the copies,
-- with the cells that they need.
abbrev pub copy_pointer :
    {A : Type 0} → (Cell → A) → (A → Cell) → (A → Alloc A) → Option ℕ → Alloc (Option ℕ)
copy_pointer from to copy_into none m = (none, m)
copy_pointer from to copy_into (some a) m =
    let (out, m1) = reserve m in
    let (y, m2) = copy_into (from (m1.cell a)) m1 in (some out, (put out (to y) m2).1)

unfoldable pub target_deep_copy_into : TargetCell → Alloc TargetCell
target_deep_copy_into x = do pod_ref ← copy_cell x.pod_ref; pure (record x { pod_ref = pod_ref })

unfoldable pub interceptor_deep_copy_into : InterceptorCell → Alloc InterceptorCell
interceptor_deep_copy_into x = do role ← copy_cell x.role; pure (record x { role = role })

unfoldable pub spec_deep_copy_into : SpecCell → Alloc SpecCell
unfolding target_deep_copy_into interceptor_deep_copy_into
spec_deep_copy_into x = do
  target ← target_deep_copy_into x.target
  requesters ← copy_cell x.requesters
  interceptors ←
      copy_pointer interceptors_of Cell.interceptor_array (copy_each interceptor_deep_copy_into)
        x.interceptors
  heartbeat ← copy_cell x.heartbeat_deadline_seconds
  pure (record x {
    target = target;
    requesters = requesters;
    interceptors = interceptors;
    heartbeat_deadline_seconds = heartbeat;
  })

unfoldable pub status_deep_copy_into : StatusCell → Alloc StatusCell
status_deep_copy_into x = do
  conditions ← copy_cell x.conditions
  active ← copy_cell x.active_interceptor_class
  heartbeat ← copy_cell x.heartbeat_time
  finish ← copy_cell x.expected_interceptor_finish_time
  counter ← copy_cell x.pod_eviction_status
  pure (record x {
    conditions = conditions;
    active_interceptor_class = active;
    heartbeat_time = heartbeat;
    expected_interceptor_finish_time = finish;
    pod_eviction_status = counter;
  })

unfoldable pub request_deep_copy_into : RequestCell → Alloc RequestCell
unfolding spec_deep_copy_into status_deep_copy_into
request_deep_copy_into x = do
  spec ← spec_deep_copy_into x.spec
  status ← status_deep_copy_into x.status
  pure (record x { spec = spec; status = status })

unfoldable pub list_deep_copy_into : ListCell → Alloc ListCell
unfolding request_deep_copy_into
list_deep_copy_into x = do
  items ← copy_pointer requests_of Cell.request_array (copy_each request_deep_copy_into) x.items
  pure (record x { items = items })

-- The types without pointers: `*out = *in`.
abbrev pub local_pod_reference_deep_copy_into : LocalPodReference → Alloc LocalPodReference
local_pod_reference_deep_copy_into x = pure x

abbrev pub pod_eviction_status_deep_copy_into : PodEvictionStatus → Alloc PodEvictionStatus
pod_eviction_status_deep_copy_into x = pure x

abbrev pub requester_deep_copy_into : Requester → Alloc Requester
requester_deep_copy_into x = pure x

abbrev pub zero_request : RequestCell
zero_request = record {
  metadata = record { name = ""; namespace = ""; resource_version = 0 };
  spec = record {
    type = "";
    target = record { pod_ref = none };
    requesters = none;
    interceptors = none;
    heartbeat_deadline_seconds = none;
  };
  status = record {
    conditions = none;
    message = "";
    active_interceptor_class = none;
    active_interceptor_completed = false;
    heartbeat_time = none;
    expected_interceptor_finish_time = none;
    eviction_request_cancellation_policy = "";
    pod_eviction_status = none;
  };
}

abbrev pub request_of : Cell → RequestCell
request_of (Cell.request x) = x
request_of _ = zero_request

abbrev pub list_of : Cell → ListCell
list_of (Cell.request_list x) = x
list_of _ = record { resource_version = 0; items = none }

abbrev pub spec_of : Cell → SpecCell
spec_of (Cell.spec x) = x
spec_of _ = zero_request.spec

abbrev pub status_of : Cell → StatusCell
status_of (Cell.status x) = x
status_of _ = zero_request.status

abbrev pub target_of : Cell → TargetCell
target_of (Cell.target x) = x
target_of _ = record { pod_ref = none }

abbrev pub interceptor_of : Cell → InterceptorCell
interceptor_of (Cell.interceptor x) = x
interceptor_of _ = record { interceptor_class = ""; priority = pos 0; role = none }

-- DeepCopy: nil gives nil; otherwise a new struct is filled by DeepCopyInto.
unfoldable pub request_deep_copy : Option ℕ → Alloc (Option ℕ)
unfolding request_deep_copy_into
request_deep_copy = copy_pointer request_of Cell.request request_deep_copy_into

unfoldable pub list_deep_copy : Option ℕ → Alloc (Option ℕ)
unfolding list_deep_copy_into
list_deep_copy = copy_pointer list_of Cell.request_list list_deep_copy_into

unfoldable pub spec_deep_copy : Option ℕ → Alloc (Option ℕ)
unfolding spec_deep_copy_into
spec_deep_copy = copy_pointer spec_of Cell.spec spec_deep_copy_into

unfoldable pub status_deep_copy : Option ℕ → Alloc (Option ℕ)
unfolding status_deep_copy_into
status_deep_copy = copy_pointer status_of Cell.status status_deep_copy_into

unfoldable pub target_deep_copy : Option ℕ → Alloc (Option ℕ)
unfolding target_deep_copy_into
target_deep_copy = copy_pointer target_of Cell.target target_deep_copy_into

unfoldable pub interceptor_deep_copy : Option ℕ → Alloc (Option ℕ)
unfolding interceptor_deep_copy_into
interceptor_deep_copy = copy_pointer interceptor_of Cell.interceptor interceptor_deep_copy_into

-- For the types without pointers.
abbrev pub local_pod_reference_deep_copy : Option ℕ → Alloc (Option ℕ)
local_pod_reference_deep_copy = copy_cell

abbrev pub pod_eviction_status_deep_copy : Option ℕ → Alloc (Option ℕ)
pod_eviction_status_deep_copy = copy_cell

abbrev pub requester_deep_copy : Option ℕ → Alloc (Option ℕ)
requester_deep_copy = copy_cell

-- DeepCopyObject: the copy as a runtime.Object, which is nil for a nil receiver.
unfoldable pub request_deep_copy_object : Option ℕ → Alloc (Option ℕ)
unfolding request_deep_copy
request_deep_copy_object x = do
  c ← request_deep_copy x
  elim c [ some out ↦ pure (some out) | none ↦ pure none ]

unfoldable pub list_deep_copy_object : Option ℕ → Alloc (Option ℕ)
unfolding list_deep_copy
list_deep_copy_object x = do
  c ← list_deep_copy x
  elim c [ some out ↦ pure (some out) | none ↦ pure none ]
