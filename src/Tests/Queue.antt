-- ===== src/Tests/Queue.antt =====
-- A first-in first-out work queue that does not hand out an item that a worker still holds. It is
-- what the theorems on workers are instantiated with.
use mathlib.Core.List.{◌++◌}
use k8s_eviction_controller.Prelude.{
  ◌≤◌, ◌⊎◌, ℕ, ◌<◌, leb, ◌≡◌, ◌≢◌, ◌↔◌, ◌&&◌, refl, ◌==◌, eq_iff, Bool, true, false, Option, none,
  some, List, [], ◌∷◌, arith, length, if◌then◌else◌, Option-cases, inl, inr,
}
use k8s_eviction_controller.Worker.{Obj, request_at, other, key, Workqueue}
use k8s_eviction_controller.Worker.Shutdown.{DrainsOnShutDown}
use k8s_eviction_controller.Worker.Items.{GivesAdded}
use k8s_eviction_controller.Controller.Rounds.{HandsOut}

abbrev same : Obj → Obj → Bool
same (request_at a) (request_at b) = leb a b && leb b a
same (other s) (other t) = s == t
same (request_at a) (other t) = false
same (other s) (request_at b) = false

same_iff : (x y : Obj) → (same x y ≡ true) ↔ (x ≡ y)
same_iff (request_at a) (request_at b) = ground arith
same_iff (other s) (other t) = ground (arith, eq_iff s t)
same_iff (request_at a) (other t) = ground arith
same_iff (other s) (request_at b) = ground arith

abbrev contains : Obj → List Obj → Bool
contains x [] = false
contains x (y ∷ ys) = if same y x then true else contains x ys

abbrev without : Obj → List Obj → List Obj
without x [] = []
without x (y ∷ ys) = let rest = without x ys in if same y x then rest else y ∷ rest

contains-without :
    (x obj : Obj) (ys : List Obj) → x ≢ obj → contains x (without obj ys) ≡ contains x ys
contains-without x obj [] h = refl
contains-without x obj (y ∷ ys) h =
    ground (arith, same_iff y x, same_iff y obj, contains-without x obj ys h)

-- The first item that is not held, and the others.
abbrev first_free : List Obj → List Obj → Option (Obj × List Obj)
first_free held [] = none
first_free held (x ∷ xs) =
    if contains x held
    then (elim (first_free held xs) [ none ↦ none | some (y, ys) ↦ some (y, x ∷ ys) ])
    else some (x, xs)

first_free_lem :
    (held xs : List Obj) (x : Obj) (rest : List Obj)
    → first_free held xs ≡ some (x, rest)
    → (contains x held ≡ false) × (length rest < length xs)
first_free_lem held [] x rest e = cc
first_free_lem held (y ∷ ys) x rest e = elim (Option-cases (first_free held ys)) [
  | inl none_free ↦ ground arith
  | inr ((z, zs), found) ↦ ground (arith, first_free_lem held ys z zs found)
]

pub record Fifo : Type 0 where
  pub items : List Obj
  pub held : List Obj
  pub shut : Bool

abbrev take : Fifo → Option Obj × Fifo
take q = elim (first_free q.held q.items) [
  | none ↦ (none, q)
  | some (x, rest) ↦ (some x, record q { items = rest; held = x ∷ q.held })
]

abbrev put : Fifo → Obj → Fifo
put q x = if q.shut then q else record q { items = q.items ++ (x ∷ []) }

abbrev pub fifo : Workqueue
fifo = record {
  Queue = Fifo;
  new_queue = λ name. record { items = []; held = []; shut = false };
  get = take;
  add = put;
  done = λ q x. record q { held = without x q.held };
  forget = λ q x. q;
  add_rate_limited = put;
  shut_down = λ q. record q { shut = true };
  key_of = λ r. key r.metadata.name;
}

take_lem :
    (q : Fifo) (obj : Obj)
    → (take q).0 ≡ some obj
    → (contains obj q.held ≡ false)
      × (length (take q).1.items < length q.items)
      × ((take q).1.held ≡ obj ∷ q.held)
take_lem q obj e = elim (Option-cases (first_free q.held q.items)) [
  | inl none_free ↦ ground arith
  | inr ((z, zs), found) ↦ ground (arith, first_free_lem q.held q.items z zs found)
]

take-length :
    (q : Fifo) → q.shut ≡ true → (take q).0 ≡ none → length (take q).1.items ≤ length q.items
take-length q h e = elim (Option-cases (first_free q.held q.items)) [
  | inl none_free ↦ ground arith
  | inr ((z, zs), found) ↦ ground arith
]

take-shut : (q : Fifo) → q.shut ≡ true → (take q).1.shut ≡ true
take-shut q h = ground arith

take-held : (q : Fifo) (x : Obj) → contains x q.held ≡ true → contains x (take q).1.held ≡ true
take-held q x h = ground arith

pub fifo-DrainsOnShutDown : DrainsOnShutDown fifo
fifo-DrainsOnShutDown = record {
  IsShut = λ q. q.shut ≡ true;
  left = λ q. length q.items;
  after = λ q. refl;
  get = take-shut;
  get_some = λ q obj h e. (take_lem q obj e).1;
  get_none = take-length;
  add = λ q obj h. ground arith;
  again = λ q h. omega arith;
  done = λ q obj h. (h, omega arith);
  forget = λ q obj h. (h, omega arith);
  add_rate_limited = λ q obj h. ground arith;
}

pub fifo-left : (q : Fifo) (n : ℕ) → length q.items < n → fifo-DrainsOnShutDown.left q < n
unfolding fifo-DrainsOnShutDown
fifo-left q n h = h

contains-++ :
    (x y : Obj) (ys : List Obj)
    → contains x (ys ++ (y ∷ [])) ≡ true
    → (contains x ys ≡ true) ⊎ (x ≡ y)
contains-++ x y [] h = inr (ground (arith, same_iff y x))
contains-++ x y (z ∷ zs) h = ground (arith, contains-++ x y zs)

first_free-contains :
    (held xs : List Obj) (x : Obj) (rest : List Obj)
    → first_free held xs ≡ some (x, rest)
    → (contains x xs ≡ true) × ((y : Obj) → contains y rest ≡ true → contains y xs ≡ true)
first_free-contains held [] x rest e = cc
first_free-contains held (z ∷ zs) x rest e = elim (Option-cases (first_free held zs)) [
  | inl none_free ↦ (ground (arith, same_iff z x), λ y h. ground (arith, same_iff z y))
  | inr ((u, us), found) ↦
      let (own, others) = first_free-contains held zs u us found in
      (ground (arith, own, same_iff z x), λ y h. ground (arith, others y, own, same_iff z y))
]

take-contains :
    (q : Fifo)
    → ((obj : Obj) → (take q).0 ≡ some obj → contains obj q.items ≡ true)
      × ((x : Obj) → contains x (take q).1.items ≡ true → contains x q.items ≡ true)
take-contains q = elim (Option-cases (first_free q.held q.items)) [
  | inl none_free ↦ (λ obj e. ground arith, λ x h. ground arith)
  | inr ((z, zs), found) ↦
      let (own, others) = first_free-contains q.held q.items z zs found in
      (λ obj e. ground (arith, own), λ x h. ground (arith, others x))
]

put-contains :
    (q : Fifo) (obj x : Obj)
    → contains x (put q obj).items ≡ true
    → (contains x q.items ≡ true) ⊎ (x ≡ obj)
put-contains q obj x h = ground (arith, contains-++ x obj q.items)

pub fifo-GivesAdded : GivesAdded fifo
fifo-GivesAdded = record {
  Contains = λ q x. contains x q.items ≡ true;
  get_some = λ q. (take-contains q).0;
  get = λ q. (take-contains q).1;
  add = put-contains;
  add_rate_limited = put-contains;
  forget = λ q obj x h. h;
  done = λ q obj x h. h;
  shut_down = λ q x h. h;
}

pub fifo-empty : (x : Obj) → ¬ fifo-GivesAdded.Contains (fifo.new_queue "eviction-requests") x
unfolding fifo-GivesAdded
fifo-empty x h = cc

-- No item is there, none is held, and the queue is open.
abbrev IsEmpty : Fifo → Type 0
IsEmpty q = (q.items ≡ []) × (q.held ≡ []) × (q.shut ≡ false)

first_out : (q : Fifo) (obj : Obj) → IsEmpty q → (take (put q obj)).0 ≡ some obj
first_out q obj (none_left, none_held, open_still) = rw (none_left, none_held, open_still) refl

IsEmpty-again :
    (q : Fifo) (obj : Obj)
    → IsEmpty q
    → let q' = (take (put q obj)).1 in IsEmpty (record q' { held = without obj q'.held })
IsEmpty-again q obj (none_left, none_held, open_still) =
    rw (none_left, none_held, open_still) (refl, ground (arith, same_iff obj obj), refl)

pub fifo-HandsOut : HandsOut fifo
fifo-HandsOut = record {
  IsIdle = IsEmpty;
  get = first_out;
  again = IsEmpty-again;
  key_of = λ r. (r.metadata.name, refl);
}

pub fifo-idle : fifo-HandsOut.IsIdle (fifo.new_queue "EvictionRequest")
unfolding fifo-HandsOut
fifo-idle = (refl, refl, refl)
