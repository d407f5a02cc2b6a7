-- ===== src/Interceptor/Priority.antt =====
-- The order of the interceptors. `sort.Slice` is not stable: of its result only what its
-- documentation promises is used.
use mathlib.Core.List.Pairwise
use mathlib.Core.List.Perm
use k8s_eviction_controller.Prelude.{
  ◌≤ℤ◌, ◌≡◌, ◌≢◌, refl, sym, Bool, true, false, none, List, [], ◌∷◌, Perm, Pairwise, get_elem?,
  arith,
}
use k8s_eviction_controller.Api.{Interceptor}
use k8s_eviction_controller.Cluster.{Env}
use k8s_eviction_controller.Interceptor.{higher_priority, sort_interceptors_by_priority}

-- What `sort.Slice` requires of its comparison.
pub record IsStrictWeak (less : Interceptor → Interceptor → Bool) : Type 0 where
  pub irrefl : (a : Interceptor) → less a a ≡ false
  pub trans : (a b c : Interceptor) → less a b ≡ true → less b c ≡ true → less a c ≡ true
  pub tie_trans : (a b c : Interceptor) → less a b ≡ false → less b c ≡ false → less a c ≡ false

-- What `sort.Slice` promises: a rearrangement, in which no later entry is less than an earlier one.
pub record SortsSlices (env : Env) : Type 0 where
  pub perm :
      (xs : List Interceptor) (less : Interceptor → Interceptor → Bool)
      → Perm (env.sort_slice xs less) xs
  pub ordered :
      (xs : List Interceptor) (less : Interceptor → Interceptor → Bool)
      → IsStrictWeak less
      → Pairwise (λ a b. less b a ≡ false) (env.sort_slice xs less)

-- The comparison by priority meets the requirement, so the promise holds of it.
pub higher_priority-IsStrictWeak : IsStrictWeak higher_priority
unfolding higher_priority
higher_priority-IsStrictWeak = record {
  irrefl = λ a. ground arith;
  trans = λ a b c p q. ground arith;
  tie_trans = λ a b c p q. ground arith;
}

abbrev pub IsDescending : List Interceptor → Type 0
IsDescending = Pairwise (λ a b. b.priority ≤ℤ a.priority)

higher_priority-le : (a b : Interceptor) → higher_priority b a ≡ false → b.priority ≤ℤ a.priority
unfolding higher_priority
higher_priority-le a b h = ground arith

module _ (env : Env) (sorts : SortsSlices env) where
  pub sort-perm : (xs : List Interceptor) → Perm (sort_interceptors_by_priority env xs) xs
  unfolding sort_interceptors_by_priority
  sort-perm xs = sorts.perm xs higher_priority

  pub sort-IsDescending :
      (xs : List Interceptor) → IsDescending (sort_interceptors_by_priority env xs)
  unfolding sort_interceptors_by_priority
  sort-IsDescending xs =
      Pairwise.imp (λ a b. higher_priority-le a b)
        (sorts.ordered xs higher_priority higher_priority-IsStrictWeak)

  nonempty_of_perm : (xs ys : List Interceptor) → Perm xs ys → ys ≢ [] → get_elem? xs 0 ≢ none
  nonempty_of_perm [] [] p h = λ _. h refl
  nonempty_of_perm [] (y ∷ ys) p h = λ _. h (sym (Perm.nil-eq p))
  nonempty_of_perm (x ∷ xs) ys p h = λ e. cc

  pub sort_nonempty :
      (xs : List Interceptor) → xs ≢ [] → get_elem? (sort_interceptors_by_priority env xs) 0 ≢ none
  sort_nonempty xs = nonempty_of_perm _ xs (sort-perm xs)
