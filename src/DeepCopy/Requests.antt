-- ===== src/DeepCopy/Requests.antt =====
-- The status, the request and the list as shapes, with their copiers.
use k8s_eviction_controller.Prelude.{ℕ, refl, String, Option, List}
use k8s_eviction_controller.Api.{
  Condition, PodEvictionStatus, EvictionRequestSpec, EvictionRequestStatus, EvictionRequest,
}
use k8s_eviction_controller.Store.{SpecCell, StatusCell, RequestCell, ListCell, Cell, copy_cell}
use k8s_eviction_controller.DeepCopy.{
  copy_each, requests_of, spec_deep_copy_into, status_deep_copy_into, request_deep_copy_into,
  list_deep_copy_into,
}
use k8s_eviction_controller.DeepCopy.Shape.{Shape, Copies, both, both-Copies, struct, struct-Copies}
use k8s_eviction_controller.DeepCopy.Pointer.{
  each, each-Copies, pointer, pointer-Copies, cell-Copies,
}
use k8s_eviction_controller.DeepCopy.Views.{
  text_of, time_of, pod_status_of, conditions_of, or_empty, leaf, spec_shape, spec-Copies,
}

abbrev StatusFields : Type 0
StatusFields = Option ℕ × (Option ℕ × (Option ℕ × (Option ℕ × Option ℕ)))

abbrev status_fields : StatusCell → StatusFields
status_fields x = (
  x.conditions,
  (
    x.active_interceptor_class,
    (x.heartbeat_time, (x.expected_interceptor_finish_time, x.pod_eviction_status)),
  ),
)

abbrev rebuild_status : StatusCell → StatusFields → StatusCell
rebuild_status x (conditions, (active, (heartbeat, (finish, counter)))) = record x {
  conditions = conditions;
  active_interceptor_class = active;
  heartbeat_time = heartbeat;
  expected_interceptor_finish_time = finish;
  pod_eviction_status = counter;
}

abbrev StatusValues : Type 0
StatusValues =
    Option (List Condition) × (Option String × (Option ℕ × (Option ℕ × Option PodEvictionStatus)))

abbrev build_status : StatusCell → StatusValues → EvictionRequestStatus
build_status x (conditions, (active, (heartbeat, (finish, counter)))) = record {
  conditions = or_empty conditions;
  message = x.message;
  active_interceptor_class = active;
  active_interceptor_completed = x.active_interceptor_completed;
  heartbeat_time = heartbeat;
  expected_interceptor_finish_time = finish;
  eviction_request_cancellation_policy = x.eviction_request_cancellation_policy;
  pod_eviction_status = counter;
}

abbrev status_fields_shape : Shape StatusFields StatusValues
status_fields_shape =
    both (leaf conditions_of)
      (both (leaf text_of) (both (leaf time_of) (both (leaf time_of) (leaf pod_status_of))))

abbrev pub status_shape : Shape StatusCell EvictionRequestStatus
status_shape = struct status_fields_shape status_fields rebuild_status build_status

pub status-Copies : Copies status_shape status_deep_copy_into
unfolding status_deep_copy_into
status-Copies =
    struct-Copies status_fields_shape status_fields rebuild_status build_status _
      (both-Copies (leaf conditions_of) _ copy_cell _ (cell-Copies conditions_of) (
        both-Copies (leaf text_of) _ copy_cell _ (cell-Copies text_of) (
          both-Copies (leaf time_of) _ copy_cell _ (cell-Copies time_of) (
            both-Copies (leaf time_of) (leaf pod_status_of) copy_cell copy_cell
              (cell-Copies time_of) (cell-Copies pod_status_of)))))
      (λ x p. refl) (λ x p v. refl)

abbrev build_request : RequestCell → EvictionRequestSpec × EvictionRequestStatus → EvictionRequest
build_request x (spec, status) = record { metadata = x.metadata; spec = spec; status = status }

abbrev rebuild_request : RequestCell → SpecCell × StatusCell → RequestCell
rebuild_request x (spec, status) = record x { spec = spec; status = status }

abbrev pub request_shape : Shape RequestCell EvictionRequest
request_shape =
    struct (both spec_shape status_shape) (λ x. (x.spec, x.status)) rebuild_request build_request

pub request-Copies : Copies request_shape request_deep_copy_into
unfolding request_deep_copy_into
request-Copies =
    struct-Copies (both spec_shape status_shape) (λ x. (x.spec, x.status)) rebuild_request
      build_request _
      (both-Copies spec_shape status_shape spec_deep_copy_into status_deep_copy_into spec-Copies
        status-Copies)
      (λ x p. refl) (λ x p v. refl)

-- EvictionRequestList as a value.
pub record RequestList : Type 0 where
  pub resource_version : ℕ
  pub items : List EvictionRequest

abbrev items_shape : Shape (Option ℕ) (Option (List EvictionRequest))
items_shape = pointer requests_of (each request_shape)

abbrev build_list : ListCell → Option (List EvictionRequest) → RequestList
build_list x items = record { resource_version = x.resource_version; items = or_empty items }

abbrev pub list_shape : Shape ListCell RequestList
list_shape = struct items_shape (λ x. x.items) (λ x p. record x { items = p }) build_list

pub list-Copies : Copies list_shape list_deep_copy_into
unfolding list_deep_copy_into
list-Copies =
    struct-Copies items_shape (λ x. x.items) (λ x p. record x { items = p }) build_list _
      (pointer-Copies requests_of (each request_shape) Cell.request_array
        (copy_each request_deep_copy_into)
        (each-Copies request_shape request_deep_copy_into request-Copies) (λ x. refl))
      (λ x p. refl) (λ x p v. refl)
