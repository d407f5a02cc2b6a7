-- ===== src/Interceptor/Index.antt =====
-- `findInterceptorIndex` and the choice of the next interceptor, against plain list functions.
use k8s_eviction_controller.Prelude.{
  ℕ, zero, suc, ◌+◌, ◌≤◌, ◌<◌, ℤ, pos, negsuc, ◌≡◌, ◌≢◌, refl, ◌⊎◌, inl, inr, String, ◌==◌, eq_iff,
  Bool-cases, Option, none, some, List, [], ◌∷◌, All, length, get_elem?, arith, if◌then◌else◌,
}
use k8s_eviction_controller.Api.{Interceptor}
use k8s_eviction_controller.Interceptor.{find_from, find_interceptor_index, index_with_next}

abbrev pub head? : List Interceptor → Option Interceptor
head? [] = none
head? (x ∷ xs) = some x

-- The entry behind the first one of a class.
unfoldable pub successor : List Interceptor → String → Option Interceptor
successor [] c = none
successor (x ∷ xs) c = if x.interceptor_class == c then head? xs else successor xs c

-- What `handleCompletedInterceptor` picks by its indices.
abbrev pub pick_next : List Interceptor → String → Option Interceptor
pick_next xs c = elim (index_with_next (find_interceptor_index xs c) (length xs)) [
  | some i ↦ get_elem? xs (i + 1)
  | none ↦ none
]

-- The first index of the class: it names an interceptor of the class, all before it have another.
unfoldable pub IsFirstIndex : List Interceptor → String → ℕ → Type 0
IsFirstIndex [] c i = ⊥
IsFirstIndex (x ∷ xs) c zero = x.interceptor_class ≡ c
IsFirstIndex (x ∷ xs) c (suc i) = (x.interceptor_class ≢ c) × IsFirstIndex xs c i

abbrev pub Lacks : String → List Interceptor → Type 0
Lacks c = All (λ x. x.interceptor_class ≢ c)

abbrev Finds : ℕ → List Interceptor → String → ℤ → Type 0
Finds k xs c r = ((i : ℕ) × (r ≡ pos (i + k)) × IsFirstIndex xs c i) ⊎ ((r ≡ negsuc 0) × Lacks c xs)

-- One step of the search, at an interceptor of another class.
Finds-suc :
    (k : ℕ) (x : Interceptor) (xs : List Interceptor) (c : String) (r : ℤ)
    → x.interceptor_class ≢ c
    → Finds (suc k) xs c r
    → Finds k (x ∷ xs) c r
unfolding IsFirstIndex
Finds-suc k x xs c r ne (inl (i, e, f)) = inl (suc i, ground arith, (ne, f))
Finds-suc k x xs c r ne (inr (e, l)) = inr (e, (ne, l))

find_from-Finds : (k : ℕ) (xs : List Interceptor) (c : String) → Finds k xs c (find_from k xs c)
unfolding find_from IsFirstIndex
find_from-Finds k [] c = inr (refl, tt)
find_from-Finds k (x ∷ xs) c = elim (Bool-cases (x.interceptor_class == c)) [
  | inl e ↦ rw (e, find_from) (inl (0, ground arith, (eq_iff _ _).0 e))
  | inr e ↦
      rw (e, find_from)
        (Finds-suc k x xs c _ (ground (arith, eq_iff x.interceptor_class c))
          (find_from-Finds (suc k) xs c))
]

-- The result is the first index of the class, or -1 and no interceptor has the class.
pub find_interceptor_index_lem :
    (xs : List Interceptor) (c : String)
    → ((i : ℕ) × (find_interceptor_index xs c ≡ pos i) × IsFirstIndex xs c i)
      ⊎ ((find_interceptor_index xs c ≡ negsuc 0) × Lacks c xs)
unfolding find_interceptor_index
find_interceptor_index_lem xs c = elim (find_from-Finds 0 xs c) [
  | inl (i, r, f) ↦ inl (i, ground arith, f)
  | inr (r, l) ↦ inr (r, l)
]

successor-IsFirstIndex :
    (xs : List Interceptor) (c : String) (i : ℕ)
    → IsFirstIndex xs c i
    → successor xs c ≡ get_elem? xs (i + 1)
unfolding successor IsFirstIndex
successor-IsFirstIndex [] c i h = elim h [ ]
successor-IsFirstIndex (x ∷ []) c zero h = ground arith
successor-IsFirstIndex (x ∷ y ∷ ys) c zero h = ground (arith, eq_iff x.interceptor_class c)
successor-IsFirstIndex (x ∷ xs) c (suc i) h =
    ground (arith, eq_iff x.interceptor_class c, successor-IsFirstIndex xs c i h.1)

successor-Lacks : (xs : List Interceptor) (c : String) → Lacks c xs → successor xs c ≡ none
unfolding successor
successor-Lacks [] c h = refl
successor-Lacks (x ∷ xs) c h =
    ground (arith, eq_iff x.interceptor_class c, successor-Lacks xs c h.1)

get_elem?-le : (xs : List Interceptor) (i : ℕ) → length xs ≤ i → get_elem? xs i ≡ none
get_elem?-le [] i h = refl
get_elem?-le (x ∷ xs) zero h = absurd (omega arith)
get_elem?-le (x ∷ xs) (suc i) h = get_elem?-le xs i (omega arith)

lt-get_elem? : (xs : List Interceptor) (i : ℕ) → i < length xs → get_elem? xs i ≢ none
lt-get_elem? [] i h = absurd (omega arith)
lt-get_elem? (x ∷ xs) zero h = λ e. cc
lt-get_elem? (x ∷ xs) (suc i) h = lt-get_elem? xs i (omega arith)

-- An index that passes the test has an entry behind it.
pub index_with_next-ne :
    (xs : List Interceptor) (r : ℤ) {i : ℕ}
    → index_with_next r (length xs) ≡ some i
    → get_elem? xs (i + 1) ≢ none
unfolding index_with_next
index_with_next-ne xs (pos j) {i} h = ground (arith, lt-get_elem? xs (i + 1))
index_with_next-ne xs (negsuc j) h = cc

-- The index arithmetic picks the entry behind the first one of the class.
pub pick_next-successor : (xs : List Interceptor) (c : String) → pick_next xs c ≡ successor xs c
unfolding index_with_next
pick_next-successor xs c = elim (find_interceptor_index_lem xs c) [
  | inl (i, e, f) ↦ ground (arith, e, successor-IsFirstIndex xs c i f, get_elem?-le xs (i + 1))
  | inr (e, l) ↦ ground (arith, e, successor-Lacks xs c l)
]
