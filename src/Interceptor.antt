-- ===== src/Interceptor.antt =====
-- pkg/reconciler/interceptor/interceptor.go: the hand-over from interceptor to interceptor.
pub mod Index
pub mod Timeout
pub mod Priority
pub mod Decision
pub mod Order
pub mod Selection
pub mod Effects
pub mod Progress
pub mod Drain
pub mod Retry
use k8s_eviction_controller.Prelude.{
  ℕ, suc, ◌+◌, ◌-◌, ◌*◌, ℤ, pos, negsuc, sub_ℕ, scale, wrap64, saturate64, ltb, ltb_ℤ, String, ◌==◌,
  Bool, true, false, ◌&&◌, ◌||◌, Option, none, some, List, [], ◌∷◌, length, get_elem?,
  if◌then◌else◌,
}
use k8s_eviction_controller.Api.{Interceptor, EvictionRequestStatus}
use k8s_eviction_controller.Api.Constants.{second}
use k8s_eviction_controller.Cluster.{
  Env, Err, M, pure, panic, ◌>>=◌, ◌>>◌, case_nil, when◌then◌otherwise◌, get_request, modify_status,
  update_status, now,
}
use k8s_eviction_controller.Eviction.{perform}

-- The comparison given to `sort.Slice`: higher priorities first.
unfoldable pub higher_priority : Interceptor → Interceptor → Bool
higher_priority a b = ltb_ℤ b.priority a.priority

-- The loop of `findInterceptorIndex`, from the index `idx` on; -1 if no class fits.
unfoldable pub find_from : ℕ → List Interceptor → String → ℤ
find_from idx [] interceptor_class = negsuc 0
find_from idx (interceptor ∷ rest) interceptor_class =
    if interceptor.interceptor_class == interceptor_class
    then pos idx
    else find_from (suc idx) rest interceptor_class

unfoldable pub find_interceptor_index : List Interceptor → String → ℤ
unfolding find_from
find_interceptor_index interceptors interceptor_class = find_from 0 interceptors interceptor_class

-- The class names no interceptor: it is nil or empty.
unfoldable pub is_unset : Option String → Bool
is_unset none = true
is_unset (some interceptor_class) = interceptor_class == ""

-- time.Duration(seconds) * time.Second, in int64 nanoseconds.
unfoldable pub deadline_of : ℤ → ℤ
deadline_of seconds = wrap64 (scale seconds second)

-- time.Since, at the time `now`: the difference saturates at the ends of int64.
unfoldable pub since : ℕ → ℕ → ℤ
since now t = saturate64 (sub_ℕ now t)

-- The test of `handleCompletedInterceptor`: `currentIndex >= 0 && currentIndex+1 < n`, with the
-- index where it passes.
unfoldable pub index_with_next : ℤ → ℕ → Option ℕ
index_with_next (pos i) n = if ltb (i + 1) n then some i else none
index_with_next (negsuc i) n = none

-- `*p` of a `*string`.
abbrev pub deref : {W : Type 0} → Option String → M W String
deref none = panic
deref (some s) = pure s

unfoldable pub select_class : String → EvictionRequestStatus → EvictionRequestStatus
select_class interceptor_class status = record status {
  active_interceptor_class = some interceptor_class;
}

module _ (env : Env) where
  -- The copy and the sort: the interceptors of the spec stay as they are.
  unfoldable pub sort_interceptors_by_priority : List Interceptor → List Interceptor
  unfolding higher_priority
  sort_interceptors_by_priority interceptors = env.sort_slice interceptors higher_priority

  -- The interceptor at an index of the sorted list becomes the active one; an index out of range
  -- panics.
  unfoldable pub select_at : List Interceptor → ℕ → M env.World (Option Err)
  unfolding select_class
  select_at interceptors index = case_nil (get_elem? interceptors index) panic λ interceptor. do
    modify_status (select_class interceptor.interceptor_class)
    update_status env

  unfoldable pub select_initial_interceptor : List Interceptor → M env.World (Option Err)
  unfolding select_at
  select_initial_interceptor interceptors = select_at interceptors 0

  unfoldable pub select_next_interceptor : List Interceptor → ℕ → M env.World (Option Err)
  unfolding select_at
  select_next_interceptor interceptors current_index = select_at interceptors (current_index + 1)

  unfoldable pub handle_completed_interceptor : List Interceptor → M env.World (Option Err)
  handle_completed_interceptor interceptors = do
    request ← get_request
    current ← deref request.status.active_interceptor_class
    case_nil (index_with_next (find_interceptor_index interceptors current) (length interceptors))
        (perform env) (select_next_interceptor interceptors)

  -- The log line reads `*ActiveInterceptorClass`.
  unfoldable pub mark_interceptor_as_completed : M env.World (Option Err)
  mark_interceptor_as_completed = do
    request ← get_request
    _ ← deref request.status.active_interceptor_class
    modify_status λ status. record status { active_interceptor_completed = true }
    update_status env

  -- The log line of the end of `checkInterceptorTimeout` reads `*ActiveInterceptorClass` too.
  unfoldable pub wait_for_progress : M env.World (Option Err)
  wait_for_progress = do
    request ← get_request
    _ ← deref request.status.active_interceptor_class
    pure none

  -- The clock is read only if both the deadline and the heartbeat are there.
  unfoldable pub check_interceptor_timeout : M env.World (Option Err)
  check_interceptor_timeout = do
    request ← get_request
    case_nil request.spec.heartbeat_deadline_seconds wait_for_progress λ seconds.
        case_nil request.status.heartbeat_time wait_for_progress λ heartbeat. do
          time ← now env
          when ltb_ℤ (deadline_of seconds) (since time heartbeat)
              then mark_interceptor_as_completed
              otherwise wait_for_progress

  unfoldable pub handle : M env.World (Option Err)
  handle = do
    request ← get_request
    let interceptors = sort_interceptors_by_priority request.spec.interceptors
    when is_unset request.status.active_interceptor_class
        then select_initial_interceptor interceptors
        otherwise (when request.status.active_interceptor_completed
            then handle_completed_interceptor interceptors
            otherwise check_interceptor_timeout)
