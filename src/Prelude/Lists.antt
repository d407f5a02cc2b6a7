-- ===== src/Prelude/Lists.antt =====
-- Lists measured and indexed by native numbers, under the library's names.
use Prim.Native.Nat.{ℕ, zero, suc, ◌+◌}
use mathlib.Core.Path.{◌≡◌, refl, sym, ◌∙◌, ap}
use mathlib.Core.List.{List, [], ◌∷◌, ◌++◌, Perm}
use mathlib.Core.List
use mathlib.Core.List.Perm
use mathlib.Core.Nat
use mathlib.Core.Option.{Option, none, some}
use native.Mathlib.Omega.{arith}

-- A number of the library as a native one.
abbrev from_unary : Nat.ℕ → ℕ
from_unary Nat.zero = 0
from_unary (Nat.suc n) = suc (from_unary n)

module _ {ℓ} {A : Type ℓ} where
  abbrev pub length : List A → ℕ
  length [] = 0
  length (x ∷ xs) = suc (length xs)

  abbrev pub get_elem? : List A → ℕ → Option A
  get_elem? [] i = none
  get_elem? (x ∷ xs) zero = some x
  get_elem? (x ∷ xs) (suc i) = get_elem? xs i

  pub length-append : (xs ys : List A) → length (xs ++ ys) ≡ length xs + length ys
  length-append [] ys = omega arith
  length-append (x ∷ xs) ys = omega (arith, length-append xs ys)

  -- A predicate of every entry, by recursion.
  abbrev pub All {κ} : (A → Type κ) → List A → Type κ
  All P [] = Unit
  All P (x ∷ xs) = P x × All P xs

  length-unary : (xs : List A) → length xs ≡ from_unary (List.length xs)
  length-unary [] = refl
  length-unary (x ∷ xs) = ap suc (length-unary xs)

  -- A permutation has the same length.
  pub length-Perm : {xs ys : List A} → Perm xs ys → length xs ≡ length ys
  length-Perm {xs} {ys} p =
      length-unary xs ∙ ap from_unary (Perm.length-eq p) ∙ sym (length-unary ys)
