-- ===== src/Interceptor/Selection.antt =====
-- Which interceptor `Handle` makes the active one, in terms of the spec alone.
use mathlib.Core.List.Perm
use k8s_eviction_controller.Prelude.{
  ◌≡◌, ◌≢◌, ◌⊎◌, refl, sym, ◌∙◌, inl, inr, String, eq_iff, Option-cases, true, Option, some, List,
  [], ◌∷◌, Perm, arith,
}
use mathlib.Core.List.{mem-cons_self}
use k8s_eviction_controller.Api.{Interceptor, EvictionRequest}
use k8s_eviction_controller.Cluster.{Env, Err, State, Exit, returned, updated, final}
use k8s_eviction_controller.Eviction.{perform}
use k8s_eviction_controller.Interceptor.{
  is_unset, select_class, sort_interceptors_by_priority, handle,
}
use k8s_eviction_controller.Interceptor.Index.{successor, head?}
use k8s_eviction_controller.Interceptor.Priority.{
  SortsSlices, IsDescending, sort-perm, sort-IsDescending,
}
use k8s_eviction_controller.Interceptor.Order.{
  IsHighest, IsOrder, Follows, IsLast, sort-IsOrder, le-head, successor-IsLast, successor-Follows,
}
use k8s_eviction_controller.Interceptor.Decision.{
  select, decide, first_of_all, after_completion, act, handle_decides,
}

-- The whole effect of a selection: the class is stored in the object, the object is sent in one
-- status update, and the answer is returned.
abbrev pub Selects : (env : Env) → State env.World → Exit env.World (Option Err) → String → Type 0
Selects env s exit c =
    let t = final exit in
    (answer : Option Err) × (exit ≡ returned answer t)
    × (t.request ≡ record s.request { status = select_class c s.request.status })
    × (t.calls ≡ updated t.request answer ∷ s.calls)
    × (env.update_status s.world t.request ≡ (t.world, answer))

IsHighest-of :
    (xs ys : List Interceptor)
    → Perm xs ys
    → IsDescending xs
    → ys ≢ []
    → (x : Interceptor) × (head? xs ≡ some x) × IsHighest ys x
IsHighest-of [] ys p d h = absurd (h (sym (Perm.nil-eq p)))
IsHighest-of (x ∷ xs) ys p d h =
    (x, refl, ((Perm.mem_iff p).0 mem-cons_self, λ y m. le-head d ((Perm.mem_iff p).1 m)))

first_of_all-head :
    (xs : List Interceptor) {x : Interceptor}
    → head? xs ≡ some x
    → first_of_all xs ≡ select x.interceptor_class
unfolding first_of_all
first_of_all-head [] e = cc
first_of_all-head (y ∷ xs) e = ground arith

decide_unset :
    (xs : List Interceptor) (r : EvictionRequest)
    → is_unset r.status.active_interceptor_class ≡ true
    → decide xs r ≡ first_of_all xs
unfolding decide is_unset
decide_unset xs r h = ground arith

pub decide_completed :
    (xs : List Interceptor) (r : EvictionRequest) (c : String)
    → r.status.active_interceptor_class ≡ some c
    → c ≢ ""
    → r.status.active_interceptor_completed ≡ true
    → decide xs r ≡ after_completion (successor xs c)
unfolding decide
decide_completed xs r c e ne done = ground (arith, eq_iff c "")

module _ (env : Env) (sorts : SortsSlices env) (s : State env.World) where
  abbrev sorted : List Interceptor
  sorted = sort_interceptors_by_priority env s.request.spec.interceptors

  pub Selects-of_decision :
      (c : String)
      → s.request.spec.interceptors ≢ []
      → decide sorted s.request ≡ select c
      → Selects env s (handle env s) c
  unfolding act
  Selects-of_decision c some_left e =
      rw (handle_decides env sorts s some_left, e, act) (_, refl, refl, refl, refl)

  -- With no active interceptor, one of the spec's interceptors that no other exceeds in priority is
  -- selected.
  pub handle-Selects-IsHighest :
      s.request.spec.interceptors ≢ []
      → is_unset s.request.status.active_interceptor_class ≡ true
      → (x : Interceptor) × IsHighest s.request.spec.interceptors x
        × Selects env s (handle env s) x.interceptor_class
  handle-Selects-IsHighest some_left unset =
      let (x, e, top) =
        IsHighest-of sorted s.request.spec.interceptors (sort-perm env sorts _)
          (sort-IsDescending env sorts _) some_left in
      (
        x,
        top,
        Selects-of_decision x.interceptor_class some_left
            (decide_unset sorted s.request unset ∙ first_of_all-head sorted e),
      )

  -- When the active interceptor is marked as completed: in the order of the spec's interceptors by
  -- falling priority, either the entry right behind the first one of the active class is selected;
  -- or that entry is the last one, or the active class is not listed, and the pod is evicted.
  pub handle-Selects-Follows :
      (c : String)
      → s.request.spec.interceptors ≢ []
      → s.request.status.active_interceptor_class ≡ some c
      → c ≢ ""
      → s.request.status.active_interceptor_completed ≡ true
      → (zs : List Interceptor) × IsOrder env s.request.spec.interceptors zs
        × (((n : Interceptor) × Follows zs c n × Selects env s (handle env s) n.interceptor_class)
            ⊎ (IsLast zs c × (handle env s ≡ perform env s)))
  unfolding after_completion act
  handle-Selects-Follows c some_left e ne done = (
    sorted,
    sort-IsOrder env sorts s.request.spec.interceptors,
    elim (Option-cases (successor sorted c)) [
      | inl last ↦ inr (
        successor-IsLast sorted c last,
        rw
            (
              handle_decides env sorts s some_left,
              decide_completed sorted s.request c e ne done,
              last,
              act,
            )
            refl,
      )
      | inr (n, found) ↦ inl (
        n,
        successor-Follows sorted c found,
        Selects-of_decision n.interceptor_class some_left
            (decide_completed sorted s.request c e ne done ∙ rw found),
      )
    ],
  )
