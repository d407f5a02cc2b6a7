-- ===== src/Interceptor/Order.antt =====
-- The order in which the interceptors are asked, and what `successor` picks in it.
use mathlib.Core.List.{mem-cons, rel_of_Pairwise-cons}
use mathlib.Core.Logic.Or
use native.Mathlib.Bridge.{le_prop}
use k8s_eviction_controller.Prelude.{
  ◌≡◌, ◌≢◌, ◌⊎◌, refl, ap, inl, inr, ◌≤ℤ◌, String, ◌==◌, eq_iff, Bool-cases, none, some, List, [],
  ◌∷◌, ◌++◌, Mem, Perm, arith,
}
use k8s_eviction_controller.Api.{Interceptor}
use k8s_eviction_controller.Cluster.{Env}
use k8s_eviction_controller.Interceptor.{sort_interceptors_by_priority}
use k8s_eviction_controller.Interceptor.Index.{successor, head?, Lacks}
use k8s_eviction_controller.Interceptor.Priority.{
  SortsSlices, IsDescending, sort-perm, sort-IsDescending,
}

-- An entry that no other exceeds in priority.
abbrev pub IsHighest : List Interceptor → Interceptor → Type 0
IsHighest xs x = Mem x xs × ((y : Interceptor) → Mem y xs → y.priority ≤ℤ x.priority)

-- `n` stands right behind the first entry of class `c`.
abbrev pub Follows : List Interceptor → String → Interceptor → Type 0
Follows zs c n =
    (before : List Interceptor) × (x : Interceptor) × (after : List Interceptor) × (zs
      ≡ before ++ x ∷ n ∷ after)
    × Lacks c before
    × (x.interceptor_class ≡ c)

-- No entry has class `c`, or the first one of class `c` is the last of all.
abbrev pub IsLast : List Interceptor → String → Type 0
IsLast zs c =
    Lacks c zs
    ⊎ ((before : List Interceptor) × (x : Interceptor) × (zs ≡ before ++ x ∷ [])
        × Lacks c before
        × (x.interceptor_class ≡ c))

-- `zs` are the interceptors `xs` in the order in which the handler goes through them, which is by
-- falling priority.
abbrev pub IsOrder : Env → List Interceptor → List Interceptor → Type 0
IsOrder env xs zs = (zs ≡ sort_interceptors_by_priority env xs) × Perm zs xs × IsDescending zs

pub sort-IsOrder :
    (env : Env)
    → SortsSlices env
    → (xs : List Interceptor) → IsOrder env xs (sort_interceptors_by_priority env xs)
sort-IsOrder env sorts xs = (refl, sort-perm env sorts xs, sort-IsDescending env sorts xs)

-- The head of a descending list is above all of it.
pub le-head :
    {z y : Interceptor} {zs : List Interceptor}
    → IsDescending (z ∷ zs)
    → Mem y (z ∷ zs)
    → y.priority ≤ℤ z.priority
le-head d m = Or.elim le_prop (mem-cons.0 m) (λ e. ground arith) (rel_of_Pairwise-cons d)

pub successor-IsLast : (zs : List Interceptor) (c : String) → successor zs c ≡ none → IsLast zs c
unfolding successor
successor-IsLast [] c e = inl tt
successor-IsLast (z ∷ zs) c e = elim (Bool-cases (z.interceptor_class == c)) [
  | inl same ↦ at_end zs (ground arith) ((eq_iff _ _).0 same)
  | inr other ↦
      let differs : z.interceptor_class ≢ c = ground (arith, eq_iff z.interceptor_class c) in
      elim (successor-IsLast zs c (ground arith)) [
        | inl lacks ↦ inl (differs, lacks)
        | inr (before, x, split, lacks, class) ↦
            inr (z ∷ before, x, ap (λ ys. z ∷ ys) split, (differs, lacks), class)
      ]
]
  where
    at_end : (zs : List Interceptor) → head? zs ≡ none → z.interceptor_class ≡ c → IsLast (z ∷ zs) c
    at_end [] h class = inr ([], z, refl, tt, class)
    at_end (w ∷ ws) h class = cc

pub successor-Follows :
    (zs : List Interceptor) (c : String) {n : Interceptor}
    → successor zs c ≡ some n
    → Follows zs c n
unfolding successor
successor-Follows [] c e = cc
successor-Follows (z ∷ zs) c {n} e = elim (Bool-cases (z.interceptor_class == c)) [
  | inl same ↦ second zs (ground arith) ((eq_iff _ _).0 same)
  | inr other ↦
      let found : successor zs c ≡ some n = ground arith in
      let differs : z.interceptor_class ≢ c = ground (arith, eq_iff z.interceptor_class c) in
      let (before, x, after, split, lacks, class) = successor-Follows zs c found in
      (z ∷ before, x, after, ap (λ ys. z ∷ ys) split, (differs, lacks), class)
]
  where
    second :
        (zs : List Interceptor) → head? zs ≡ some n → z.interceptor_class ≡ c → Follows (z ∷ zs) c n
    second [] h class = cc
    second (w ∷ ws) h class =
        let same : w ≡ n = ground arith in ([], z, ws, ap (λ y. z ∷ y ∷ ws) same, tt, class)
