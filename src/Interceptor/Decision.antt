-- ===== src/Interceptor/Decision.antt =====
-- The hand-over as a decision on the sorted interceptors and the object, with no index in it, and
-- its relation to `Handle`.
use k8s_eviction_controller.Prelude.{
  Option-cases, ℕ, ◌+◌, ltb_ℤ, ℤ, ◌≡◌, ◌≢◌, refl, inl, inr, String, ◌==◌, true, Option, none, some,
  List, [], ◌∷◌, get_elem?, length, arith, if◌then◌else◌,
}
use k8s_eviction_controller.Api.{Interceptor, EvictionRequest}
use k8s_eviction_controller.Cluster.{
  Env, Err, State, M, pure, ◌>>=◌, ◌>>◌, when◌then◌otherwise◌, modify_status, update_status, now,
}
use k8s_eviction_controller.Eviction.{perform}
use k8s_eviction_controller.Interceptor.{
  select_class, mark_interceptor_as_completed, wait_for_progress, select_next_interceptor,
  select_initial_interceptor, sort_interceptors_by_priority, handle, handle_completed_interceptor,
  check_interceptor_timeout, deadline_of, since, is_unset, index_with_next, find_interceptor_index,
}
use k8s_eviction_controller.Interceptor.Index.{successor, index_with_next-ne, pick_next-successor}
use k8s_eviction_controller.Interceptor.Priority.{SortsSlices, sort_nonempty}

pub data Decision : Type 0 where
  -- make this class the active one
  select : String → Decision
  -- evict the pod
  evict_now : Decision
  -- compare the clock with a heartbeat and a number of seconds
  check : ℤ → ℕ → Decision
  wait : Decision

unfoldable pub first_of_all : List Interceptor → Decision
first_of_all [] = wait
first_of_all (x ∷ xs) = select x.interceptor_class

unfoldable pub after_completion : Option Interceptor → Decision
after_completion none = evict_now
after_completion (some x) = select x.interceptor_class

unfoldable pub while_active : Option ℤ → Option ℕ → Decision
while_active (some seconds) (some heartbeat) = check seconds heartbeat
while_active _ _ = wait

unfoldable pub decide : List Interceptor → EvictionRequest → Decision
unfolding first_of_all after_completion while_active
decide sorted r = elim r.status.active_interceptor_class [
  | none ↦ first_of_all sorted
  | some c ↦
      if c == ""
      then first_of_all sorted
      else if r.status.active_interceptor_completed
      then after_completion (successor sorted c)
      else while_active r.spec.heartbeat_deadline_seconds r.status.heartbeat_time
]

module _ (env : Env) where
  unfoldable pub act : Decision → M env.World (Option Err)
  act (select c) = do modify_status (select_class c); update_status env
  act evict_now = perform env
  act (check seconds heartbeat) = do
    time ← now env
    when ltb_ℤ (deadline_of seconds) (since time heartbeat)
        then (do
          modify_status λ status. record status { active_interceptor_completed = true }
          update_status env)
        otherwise pure none
  act wait = pure none

  select_next_total :
      (xs : List Interceptor) (i : ℕ) (s : State env.World)
      → get_elem? xs (i + 1) ≢ none
      → select_next_interceptor env xs i s
        ≡ act (elim (get_elem? xs (i + 1)) [ none ↦ wait | some x ↦ select x.interceptor_class ]) s
  unfolding select_next_interceptor act
  select_next_total xs i s h = ground arith

  completed_decides :
      (xs : List Interceptor) (s : State env.World) (c : String)
      → s.request.status.active_interceptor_class ≡ some c
      → handle_completed_interceptor env xs s ≡ act (after_completion (successor xs c)) s
  unfolding handle_completed_interceptor act after_completion
  completed_decides xs s c e =
      elim (Option-cases (index_with_next (find_interceptor_index xs c) (length xs))) [
        | inl last ↦
            rw (e, last, handle_completed_interceptor)
              (ground (arith, last, pick_next-successor xs c))
        | inr (i, found) ↦
            rw (e, found, handle_completed_interceptor)
              (ground (
                arith,
                found,
                pick_next-successor xs c,
                index_with_next-ne xs (find_interceptor_index xs c) found,
                select_next_total xs i s,
              ))
      ]

  timeout_decides :
      (s : State env.World) (c : String)
      → s.request.status.active_interceptor_class ≡ some c
      → check_interceptor_timeout env s
        ≡ act
            (while_active s.request.spec.heartbeat_deadline_seconds s.request.status.heartbeat_time)
            s
  unfolding check_interceptor_timeout mark_interceptor_as_completed wait_for_progress act
      while_active
  timeout_decides s c e = ground arith

  initial_decides :
      (xs : List Interceptor) (s : State env.World)
      → get_elem? xs 0 ≢ none
      → select_initial_interceptor env xs s ≡ act (first_of_all xs) s
  unfolding select_initial_interceptor act first_of_all
  initial_decides [] s h = absurd (h refl)
  initial_decides (x ∷ xs) s h = refl

  -- For a request with interceptors, `Handle` carries out the decision on the sorted interceptors,
  -- and nothing else: no index is out of range and no nil pointer is read.
  pub handle_decides :
      SortsSlices env
      → (s : State env.World) → s.request.spec.interceptors ≢ []
      → handle env s
        ≡ act (decide (sort_interceptors_by_priority env s.request.spec.interceptors) s.request) s
  unfolding handle decide is_unset
  handle_decides sorts s h = elim (Option-cases s.request.status.active_interceptor_class) [
    | inl e ↦ ground (
      arith,
      initial_decides (sort_interceptors_by_priority env s.request.spec.interceptors) s,
      sort_nonempty env sorts s.request.spec.interceptors h,
    )
    | inr (c, e) ↦ ground (
      arith,
      initial_decides (sort_interceptors_by_priority env s.request.spec.interceptors) s,
      sort_nonempty env sorts s.request.spec.interceptors h,
      completed_decides (sort_interceptors_by_priority env s.request.spec.interceptors) s c e,
      timeout_decides s c e,
    )
  ]
