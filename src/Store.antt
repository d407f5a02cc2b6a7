-- ===== src/Store.antt =====
-- Go's heap under the structs of apis/evictionrequest/v1alpha1/types.go: a pointer or a slice field
-- is the address of a cell, and nil is `none`. A struct is shallow here: `Api` has the values that
-- it stands for.
use k8s_eviction_controller.Prelude.{
  ℕ, suc, ℤ, String, Bool, Option, none, some, List, leb, ◌&&◌, if◌then◌else◌,
}
use k8s_eviction_controller.Api.{
  LocalPodReference, Requester, Condition, PodEvictionStatus, ObjectMeta,
}

pub record TargetCell : Type 0 where
  pub pod_ref : Option ℕ

pub record InterceptorCell : Type 0 where
  pub interceptor_class : String
  pub priority : ℤ
  pub role : Option ℕ

pub record SpecCell : Type 0 where
  pub type : String
  pub target : TargetCell
  pub requesters : Option ℕ
  pub interceptors : Option ℕ
  pub heartbeat_deadline_seconds : Option ℕ

pub record StatusCell : Type 0 where
  pub conditions : Option ℕ
  pub message : String
  pub active_interceptor_class : Option ℕ
  pub active_interceptor_completed : Bool
  pub heartbeat_time : Option ℕ
  pub expected_interceptor_finish_time : Option ℕ
  pub eviction_request_cancellation_policy : String
  pub pod_eviction_status : Option ℕ

pub record RequestCell : Type 0 where
  pub metadata : ObjectMeta
  pub spec : SpecCell
  pub status : StatusCell

-- EvictionRequestList, with the resource version of its ListMeta.
pub record ListCell : Type 0 where
  pub resource_version : ℕ
  pub items : Option ℕ

-- What an address holds: a value of one of the types that are pointed to, or the array of a slice.
pub data Cell : Type 0 where
  text : String → Cell
  number : ℤ → Cell
  time : ℕ → Cell
  pod_reference : LocalPodReference → Cell
  pod_status : PodEvictionStatus → Cell
  requester : Requester → Cell
  requester_array : List Requester → Cell
  condition_array : List Condition → Cell
  interceptor_array : List InterceptorCell → Cell
  request_array : List RequestCell → Cell
  target : TargetCell → Cell
  interceptor : InterceptorCell → Cell
  spec : SpecCell → Cell
  status : StatusCell → Cell
  request : RequestCell → Cell
  request_list : ListCell → Cell

-- The addresses below `next` are in use.
pub record Store : Type 0 where
  pub next : ℕ
  pub cell : ℕ → Cell

abbrev pub Alloc : Type 0 → Type 0
Alloc A = Store → A × Store

abbrev pub pure : {A : Type 0} → A → Alloc A
pure a m = (a, m)

infixl 5 ◌>>=◌
abbrev pub ◌>>=◌ : {A B : Type 0} → Alloc A → (A → Alloc B) → Alloc B
◌>>=◌ f g m = g (f m).0 (f m).1

abbrev pub write : (ℕ → Cell) → ℕ → Cell → ℕ → Cell
write cell a c b = if leb a b && leb b a then c else cell b

-- `new` and `make`: a fresh address. What it holds is written by `put` before it is read.
abbrev pub reserve : Alloc ℕ
reserve m = (m.next, record m { next = suc m.next })

abbrev pub put : ℕ → Cell → Alloc (Unit {0})
put a c m = (tt, record m { cell = write m.cell a c })

abbrev pub get : ℕ → Alloc Cell
get a m = (m.cell a, m)

-- A pointer or slice without pointers in what it points to: `*out = new(T)` with `**out = **in`,
-- and `*out = make([]T, len(*in))` with `copy(*out, *in)`.
abbrev pub copy_cell : Option ℕ → Alloc (Option ℕ)
copy_cell none m = (none, m)
copy_cell (some a) m =
    (some m.next, record { next = suc m.next; cell = write m.cell m.next (m.cell a) })
