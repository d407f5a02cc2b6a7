-- ===== src/DeepCopy/Isolation.antt =====
-- DeepCopy of a request and of a list of requests: the copy is equal, and shares nothing.
use k8s_eviction_controller.Prelude.{ℕ, ◌≡◌, refl, ◌∙◌, Option}
use k8s_eviction_controller.Api.{EvictionRequest}
use k8s_eviction_controller.Store.{Cell, Store, Alloc}
use k8s_eviction_controller.DeepCopy.{
  request_of, list_of, request_deep_copy_into, list_deep_copy_into, request_deep_copy,
  list_deep_copy,
}
use k8s_eviction_controller.DeepCopy.Shape.{Agrees, Shape, IsCopy, Copies}
use k8s_eviction_controller.DeepCopy.Pointer.{pointer, pointer-Copies}
use k8s_eviction_controller.DeepCopy.Requests.{
  request_shape, request-Copies, RequestList, list_shape, list-Copies,
}

-- A *EvictionRequest.
abbrev pub request_pointer : Shape (Option ℕ) (Option EvictionRequest)
request_pointer = pointer request_of request_shape

abbrev pub list_pointer : Shape (Option ℕ) (Option RequestList)
list_pointer = pointer list_of list_shape

request_deep_copy-Copies : Copies request_pointer request_deep_copy
unfolding request_deep_copy
request_deep_copy-Copies =
    pointer-Copies request_of request_shape Cell.request request_deep_copy_into request-Copies
      (λ x. refl)

list_deep_copy-Copies : Copies list_pointer list_deep_copy
unfolding list_deep_copy
list_deep_copy-Copies =
    pointer-Copies list_of list_shape Cell.request_list list_deep_copy_into list-Copies (λ x. refl)

module _ {V : Type 0} (s : Shape (Option ℕ) V) where
  -- All that `x` reaches is in use.
  abbrev pub IsClosed : Store → Option ℕ → Type 0
  IsClosed m x = s.within 0 m.next m x

  -- What holds of the copy `y` of `x`, made in `m` and leaving `m'`, whatever is written later
  -- through pointers that are not part of the copy, or through those that are.
  pub record IsIsolated (m : Store) (x : Option ℕ) (m' : Store) (y : Option ℕ) : Type 0 where
    pub equal : s.view m' y ≡ s.view m x
    pub original : s.view m' x ≡ s.view m x
    pub copy_unchanged :
        (later : Store) → Agrees m.next m'.next m' later → s.view later y ≡ s.view m x
    pub original_unchanged :
        (later : Store) → Agrees 0 m.next m' later → s.view later x ≡ s.view m x

  IsIsolated-of_copy :
      (f : Option ℕ → Alloc (Option ℕ))
      → Copies s f
      → (m : Store) (x : Option ℕ) → IsClosed m x
      → IsIsolated m x (f x m).1 (f x m).0
  IsIsolated-of_copy f copies m x w = record {
    equal = c.same;
    original = s.view-agree 0 m.next m (f x m).1 x c.keeps w;
    copy_unchanged = λ later same.
        s.view-agree m.next (f x m).1.next (f x m).1 later (f x m).0 same c.fresh ∙ c.same;
    original_unchanged =
        λ later same. s.view-agree 0 m.next m later x (λ a p q. same a p q ∙ c.keeps a p q) w;
  }
    where
      c : IsCopy s m x (f x m).1 (f x m).0
      c = copies m x w

-- The copy of a request whose cells are in use stands for the same value, and the request for what
-- it stood for. As long as the new cells are left alone, whatever is written to the old ones, the
-- copy stands for that value; as long as the old cells are left alone, whatever is written to the
-- new ones, the request does.
pub request_deep_copy-IsIsolated :
    (m : Store) (x : Option ℕ)
    → IsClosed request_pointer m x
    → let (y, m') = request_deep_copy x m in IsIsolated request_pointer m x m' y
request_deep_copy-IsIsolated m x w =
    IsIsolated-of_copy request_pointer request_deep_copy request_deep_copy-Copies m x w

-- The same for a list of requests.
pub list_deep_copy-IsIsolated :
    (m : Store) (x : Option ℕ)
    → IsClosed list_pointer m x
    → let (y, m') = list_deep_copy x m in IsIsolated list_pointer m x m' y
list_deep_copy-IsIsolated m x w =
    IsIsolated-of_copy list_pointer list_deep_copy list_deep_copy-Copies m x w
