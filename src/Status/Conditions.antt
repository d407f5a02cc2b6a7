-- ===== src/Status/Conditions.antt =====
-- The condition list as a map keyed by type (`+listType=map`, `+listMapKey=type` in types.go).
use k8s_eviction_controller.Prelude.{
  ℕ, ◌≡◌, ◌≢◌, refl, String, ◌==◌, eq_iff, Bool, true, false, Option, none, some, List, [], ◌∷◌,
  ◌++◌, map, arith, if◌then◌else◌,
}
use k8s_eviction_controller.Api.{Condition}
use k8s_eviction_controller.Status.{upsert, new_condition}

-- The first condition of a type.
unfoldable pub find_condition : String → List Condition → Option Condition
find_condition type [] = none
find_condition type (c ∷ cs) = if c.type == type then some c else find_condition type cs

-- The time at which the condition took the status that `c` has now.
unfoldable pub transition_time : Condition → Option Condition → ℕ
transition_time c none = c.last_transition_time
transition_time c (some old) =
    if old.status == c.status then old.last_transition_time else c.last_transition_time

abbrev pub types : List Condition → List String
types = map (λ c. c.type)

unfoldable pub contains : String → List String → Bool
contains k [] = false
contains k (x ∷ xs) = if x == k then true else contains k xs

-- No type is listed twice.
abbrev pub NodupTypes : List Condition → Type 0
NodupTypes [] = Unit {0}
NodupTypes (c ∷ cs) = (contains c.type (types cs) ≡ false) × NodupTypes cs

-- What the list says of a type after an upsert: the new condition for its own type, with the time
-- of its last change of status, and what it said before for any other.
pub find_condition-upsert :
    (c : Condition) (cs : List Condition) (type : String)
    → find_condition type (upsert c cs) ≡ (
        if c.type == type
        then some (record c { last_transition_time = transition_time c (find_condition c.type cs) })
        else find_condition type cs)
unfolding upsert find_condition transition_time
find_condition-upsert c [] type = refl
find_condition-upsert c (x ∷ xs) type = ground (
  arith,
  eq_iff x.type c.type,
  eq_iff x.type type,
  eq_iff c.type type,
  find_condition-upsert c xs type,
)

-- The types keep their places, and a new one goes to the end.
pub types-upsert :
    (c : Condition) (cs : List Condition)
    → types (upsert c cs)
      ≡ (if contains c.type (types cs) then types cs else types cs ++ (c.type ∷ []))
unfolding upsert contains
types-upsert c [] = refl
types-upsert c (x ∷ xs) = ground (arith, eq_iff x.type c.type, types-upsert c xs)

contains-append_one :
    (k x : String) (xs : List String) → x ≢ k → contains k (xs ++ (x ∷ [])) ≡ contains k xs
unfolding contains
contains-append_one k x [] h = ground (arith, eq_iff x k)
contains-append_one k x (y ∷ ys) h = ground (arith, contains-append_one k x ys h)

-- In a list without repeated types none is repeated after an upsert.
pub upsert-NodupTypes :
    (c : Condition) (cs : List Condition) → NodupTypes cs → NodupTypes (upsert c cs)
unfolding upsert contains
upsert-NodupTypes c [] h = (refl, tt)
upsert-NodupTypes c (x ∷ xs) h = ground (
  arith,
  eq_iff x.type c.type,
  eq_iff c.type x.type,
  types-upsert c xs,
  contains-append_one x.type c.type (types xs),
  upsert-NodupTypes c xs h.1,
)

-- Reporting the same status again changes nothing, whenever it is done.
pub upsert_again :
    (early late : ℕ) (type status reason message : String) (cs : List Condition)
    → let first = upsert (new_condition early type status reason message) cs in
      upsert (new_condition late type status reason message) first ≡ first
unfolding upsert new_condition
upsert_again early late type status reason message [] =
    ground (arith, eq_iff type type, eq_iff status status)
upsert_again early late type status reason message (x ∷ xs) = ground (
  arith,
  eq_iff type type,
  eq_iff status status,
  eq_iff x.type type,
  upsert_again early late type status reason message xs,
)
