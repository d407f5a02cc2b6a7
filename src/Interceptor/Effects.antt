-- ===== src/Interceptor/Effects.antt =====
-- What `Handle` keeps, and when it evicts.
use k8s_eviction_controller.Prelude.{
  ◌≡◌, ◌≢◌, refl, ◌⊎◌, inl, inr, String, eq_iff, Option-cases, true, false, none, some, List, [],
  ◌∷◌, arith,
}
use k8s_eviction_controller.Api.{
  Interceptor, EvictionRequest, EvictionRequestSpec, EvictionRequestStatus,
}
use k8s_eviction_controller.Cluster.{Env, State, panics, final, evictions}
use k8s_eviction_controller.Eviction.Outcomes.{perform_total}
use k8s_eviction_controller.Interceptor.{sort_interceptors_by_priority, handle}
use k8s_eviction_controller.Interceptor.Index.{successor}
use k8s_eviction_controller.Interceptor.Priority.{SortsSlices}
use k8s_eviction_controller.Interceptor.Order.{IsLast, IsOrder, sort-IsOrder, successor-IsLast}
use k8s_eviction_controller.Interceptor.Decision.{
  Decision, select, evict_now, check, wait, first_of_all, after_completion, while_active, decide,
  act, handle_decides,
}

-- Nothing follows in the order of the interceptors: there are none; or the active one is marked as
-- completed, and it stands last in that order or is not listed in the spec at all.
abbrev pub Exhausted : Env → EvictionRequestSpec → EvictionRequestStatus → Type 0
Exhausted env spec status =
    (spec.interceptors ≡ [])
    ⊎ ((c : String) × (zs : List Interceptor) × (status.active_interceptor_class ≡ some c)
        × (c ≢ "")
        × (status.active_interceptor_completed ≡ true)
        × IsOrder env spec.interceptors zs
        × IsLast zs c)

abbrev pub IsExhausted : Env → EvictionRequest → Type 0
IsExhausted env r = Exhausted env r.spec r.status

evict_now-cases : (d : Decision) → (d ≡ evict_now) ⊎ (d ≢ evict_now)
evict_now-cases evict_now = inl refl
evict_now-cases (select c) = inr (λ e. cc)
evict_now-cases (check seconds heartbeat) = inr (λ e. cc)
evict_now-cases wait = inr (λ e. cc)

first_of_all-ne : (xs : List Interceptor) → first_of_all xs ≢ evict_now
unfolding first_of_all
first_of_all-ne [] = λ e. cc
first_of_all-ne (x ∷ xs) = λ e. cc

decide-evict_now :
    (xs : List Interceptor) (r : EvictionRequest)
    → decide xs r ≡ evict_now
    → (c : String) × (r.status.active_interceptor_class ≡ some c)
      × (c ≢ "")
      × (r.status.active_interceptor_completed ≡ true)
      × (successor xs c ≡ none)
unfolding decide after_completion while_active
decide-evict_now xs r h = elim (Option-cases r.status.active_interceptor_class) [
  | inl e ↦ absurd (ground (arith, first_of_all-ne xs))
  | inr (c, e) ↦ (
    c,
    e,
    ground (arith, first_of_all-ne xs, eq_iff c ""),
    ground (arith, first_of_all-ne xs),
    ground (arith, first_of_all-ne xs),
  )
]

module _ (env : Env) where
  act_total : (d : Decision) (s : State env.World) → panics (act env d s) ≡ false
  unfolding act
  act_total (select c) s = refl
  act_total evict_now s = perform_total env s
  act_total (check seconds heartbeat) s = ground arith
  act_total wait s = refl

  pub act-evictions :
      (d : Decision) (s : State env.World)
      → d ≢ evict_now
      → evictions (final (act env d s)).calls ≡ evictions s.calls
  unfolding act
  act-evictions (select c) s h = refl
  act-evictions evict_now s h = absurd (h refl)
  act-evictions (check seconds heartbeat) s h = ground arith
  act-evictions wait s h = refl

module _ (env : Env) (sorts : SortsSlices env) (s : State env.World)
    (some_left : s.request.spec.interceptors ≢ []) where
  abbrev sorted : List Interceptor
  sorted = sort_interceptors_by_priority env s.request.spec.interceptors

  pub handle_total : panics (handle env s) ≡ false
  handle_total = rw (handle_decides env sorts s some_left) (act_total env _ s)

  pub handle-evictions :
      (evictions (final (handle env s)).calls ≡ evictions s.calls) ⊎ IsExhausted env s.request
  handle-evictions = elim (evict_now-cases (decide sorted s.request)) [
    | inl e ↦
        let (c, class, ne, done, last) = decide-evict_now sorted s.request e in
        inr (
          inr (
            c,
            sorted,
            class,
            ne,
            done,
            sort-IsOrder env sorts s.request.spec.interceptors,
            successor-IsLast sorted c last,
          ))
    | inr n ↦ inl (rw (handle_decides env sorts s some_left) (act-evictions env _ s n))
  ]
