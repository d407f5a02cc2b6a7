-- ===== src/Tests/Copies.antt =====
-- A request in memory, its copies, and the theorems on them.
use k8s_eviction_controller.Prelude.{
  zero, false, ℕ, suc, ◌≡◌, refl, pos, none, some, [], ◌∷◌, arith,
}
use k8s_eviction_controller.Store.{RequestCell, Cell, Store}
use k8s_eviction_controller.DeepCopy.{
  target_deep_copy_into, interceptor_deep_copy_into, spec_deep_copy_into, status_deep_copy_into,
  request_deep_copy_into, request_deep_copy, request_of,
}
use k8s_eviction_controller.DeepCopy.Isolation.{
  request_pointer, IsIsolated, request_deep_copy-IsIsolated,
}

abbrev drain : RequestCell
drain = record {
  metadata = record { name = "drain-web"; namespace = "prod"; resource_version = 3 };
  spec = record {
    type = "Soft";
    target = record { pod_ref = some 1 };
    requesters = none;
    interceptors = some 2;
    heartbeat_deadline_seconds = some 4;
  };
  status = record {
    conditions = none;
    message = "";
    active_interceptor_class = some 5;
    active_interceptor_completed = false;
    heartbeat_time = none;
    expected_interceptor_finish_time = none;
    eviction_request_cancellation_policy = "Allow";
    pod_eviction_status = none;
  };
}

-- The request stands at 0, and a list that holds it at 6.
abbrev cells : ℕ → Cell
cells zero = Cell.request drain
cells (suc zero) = Cell.pod_reference (record { name = "web"; uid = "u1" })
cells (suc (suc zero)) =
    Cell.interceptor_array
      (record { interceptor_class = "fast.example.com"; priority = pos 20; role = some 3 } ∷ [])
cells (suc (suc (suc zero))) = Cell.text "controller"
cells (suc (suc (suc (suc zero)))) = Cell.number (pos 1800)
cells (suc (suc (suc (suc (suc zero))))) = Cell.text "fast.example.com"
cells (suc (suc (suc (suc (suc (suc zero)))))) =
    Cell.request_list (record { resource_version = 9; items = some 7 })
cells (suc (suc (suc (suc (suc (suc (suc n))))))) = Cell.request_array (drain ∷ [])

abbrev memory : Store
memory = record { next = 8; cell = cells }

-- The copy stands at a new address, and so does its pod reference.
copied :
    ((request_deep_copy (some 0) memory).0 ≡ some 8)
    × ((request_of ((request_deep_copy (some 0) memory).1.cell 8)).spec.target.pod_ref ≡ some 9)
unfolding request_deep_copy request_deep_copy_into spec_deep_copy_into status_deep_copy_into
    target_deep_copy_into interceptor_deep_copy_into
copied = (refl, refl)

request_deep_copy-IsIsolated_example :
    let (y, m') = request_deep_copy (some 0) memory in
    IsIsolated request_pointer memory (some 0) m' y
request_deep_copy-IsIsolated_example = request_deep_copy-IsIsolated memory (some 0) (omega arith)
