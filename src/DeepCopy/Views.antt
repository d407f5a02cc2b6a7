-- ===== src/DeepCopy/Views.antt =====
-- The structs of the API as shapes: what they reach, and the values of Api that they stand for.
use k8s_eviction_controller.Prelude.{ℕ, ℤ, pos, refl, String, Option, none, some, List, []}
use k8s_eviction_controller.Api.{
  LocalPodReference, EvictionTarget, Requester, Interceptor, EvictionRequestSpec, Condition,
  PodEvictionStatus,
}
use k8s_eviction_controller.Store.{TargetCell, InterceptorCell, SpecCell, Cell, copy_cell}
use k8s_eviction_controller.DeepCopy.{
  copy_each, copy_pointer, interceptors_of, target_deep_copy_into, interceptor_deep_copy_into,
  spec_deep_copy_into,
}
use k8s_eviction_controller.DeepCopy.Shape.{
  Shape, Copies, plain, both, both-Copies, struct, struct-Copies,
}
use k8s_eviction_controller.DeepCopy.Pointer.{
  each, each-Copies, pointer, pointer-Copies, cell-Copies,
}

abbrev pub text_of : Cell → String
text_of (Cell.text x) = x
text_of _ = ""

abbrev pub number_of : Cell → ℤ
number_of (Cell.number x) = x
number_of _ = pos 0

abbrev pub time_of : Cell → ℕ
time_of (Cell.time x) = x
time_of _ = 0

abbrev pub pod_reference_of : Cell → LocalPodReference
pod_reference_of (Cell.pod_reference x) = x
pod_reference_of _ = record { name = ""; uid = "" }

abbrev pub pod_status_of : Cell → PodEvictionStatus
pod_status_of (Cell.pod_status x) = x
pod_status_of _ = record { failed_api_eviction_counter = pos 0 }

abbrev pub requesters_of : Cell → List Requester
requesters_of (Cell.requester_array xs) = xs
requesters_of _ = []

abbrev pub conditions_of : Cell → List Condition
conditions_of (Cell.condition_array xs) = xs
conditions_of _ = []

-- Nil is an empty slice.
abbrev pub or_empty : {A : Type 0} → Option (List A) → List A
or_empty none = []
or_empty (some xs) = xs

abbrev pub leaf : {X : Type 0} → (Cell → X) → Shape (Option ℕ) (Option X)
leaf from = pointer from plain

abbrev pub target_shape : Shape TargetCell EvictionTarget
target_shape =
    struct (leaf pod_reference_of) (λ x. x.pod_ref) (λ x p. record x { pod_ref = p })
      (λ x v. record { pod_ref = v })

pub target-Copies : Copies target_shape target_deep_copy_into
unfolding target_deep_copy_into
target-Copies =
    struct-Copies (leaf pod_reference_of) (λ x. x.pod_ref) (λ x p. record x { pod_ref = p })
      (λ x v. record { pod_ref = v }) copy_cell (cell-Copies pod_reference_of) (λ x p. refl)
      (λ x p v. refl)

abbrev build_interceptor : InterceptorCell → Option String → Interceptor
build_interceptor x role = record {
  interceptor_class = x.interceptor_class;
  priority = x.priority;
  role = role;
}

abbrev pub interceptor_shape : Shape InterceptorCell Interceptor
interceptor_shape =
    struct (leaf text_of) (λ x. x.role) (λ x p. record x { role = p }) build_interceptor

pub interceptor-Copies : Copies interceptor_shape interceptor_deep_copy_into
unfolding interceptor_deep_copy_into
interceptor-Copies =
    struct-Copies (leaf text_of) (λ x. x.role) (λ x p. record x { role = p }) build_interceptor
      copy_cell (cell-Copies text_of) (λ x p. refl) (λ x p v. refl)

abbrev pub interceptors_shape : Shape (Option ℕ) (Option (List Interceptor))
interceptors_shape = pointer interceptors_of (each interceptor_shape)

interceptors-Copies :
    Copies interceptors_shape
      (copy_pointer interceptors_of Cell.interceptor_array (copy_each interceptor_deep_copy_into))
interceptors-Copies =
    pointer-Copies interceptors_of (each interceptor_shape) Cell.interceptor_array
      (copy_each interceptor_deep_copy_into)
      (each-Copies interceptor_shape interceptor_deep_copy_into interceptor-Copies) (λ x. refl)

-- The fields with pointers, in the order of the code.
abbrev SpecFields : Type 0
SpecFields = TargetCell × (Option ℕ × (Option ℕ × Option ℕ))

abbrev spec_fields : SpecCell → SpecFields
spec_fields x = (x.target, (x.requesters, (x.interceptors, x.heartbeat_deadline_seconds)))

abbrev rebuild_spec : SpecCell → SpecFields → SpecCell
rebuild_spec x (target, (requesters, (interceptors, heartbeat))) = record x {
  target = target;
  requesters = requesters;
  interceptors = interceptors;
  heartbeat_deadline_seconds = heartbeat;
}

abbrev build_spec :
    SpecCell
    → EvictionTarget × (Option (List Requester) × (Option (List Interceptor) × Option ℤ))
    → EvictionRequestSpec
build_spec x (target, (requesters, (interceptors, heartbeat))) = record {
  type = x.type;
  target = target;
  requesters = or_empty requesters;
  interceptors = or_empty interceptors;
  heartbeat_deadline_seconds = heartbeat;
}

abbrev spec_fields_shape :
    Shape SpecFields
      (EvictionTarget × (Option (List Requester) × (Option (List Interceptor) × Option ℤ)))
spec_fields_shape =
    both target_shape (both (leaf requesters_of) (both interceptors_shape (leaf number_of)))

abbrev pub spec_shape : Shape SpecCell EvictionRequestSpec
spec_shape = struct spec_fields_shape spec_fields rebuild_spec build_spec

pub spec-Copies : Copies spec_shape spec_deep_copy_into
unfolding spec_deep_copy_into
spec-Copies =
    struct-Copies spec_fields_shape spec_fields rebuild_spec build_spec _
      (both-Copies target_shape _ target_deep_copy_into _ target-Copies (
        both-Copies (leaf requesters_of) _ copy_cell _ (cell-Copies requesters_of) (
          both-Copies interceptors_shape (leaf number_of) _ copy_cell interceptors-Copies
            (cell-Copies number_of))))
      (λ x p. refl) (λ x p v. refl)
