-- ===== src/Tests/Memory.antt =====
-- A small cluster that answers the handlers' calls: it holds one pod, one stored version of one
-- object, a clock, and a flag by which it refuses evictions. It is what the theorems are
-- instantiated with.
use mathlib.Core.List.{mem-cons, not-mem-nil, rel_of_Pairwise-cons}
use mathlib.Core.List.Pairwise
use mathlib.Core.List.Perm
use mathlib.Core.Logic.Or
use mathlib.Core.Bool.{Bool-set}
use k8s_eviction_controller.Interceptor.Priority.{IsStrictWeak, SortsSlices}
use k8s_eviction_controller.Reconciler.Repeat.{HasVersions}
use k8s_eviction_controller.Worker.Origins.{FindsByName}
use k8s_eviction_controller.Prelude.{
  Option-cases, eq_iff, inl, inr, Mem, Perm, Pairwise, Bool-cases, ℕ, suc, ◌≡◌, ◌≢◌, String, ◌==◌,
  Bool, true, false, Option, none, some, List, [], ◌∷◌, ltb, ◌&&◌, ◌<◌, arith, if◌then◌else◌,
}
use k8s_eviction_controller.Api.{Interceptor, EvictionRequest}
use k8s_eviction_controller.Cluster.{Err, remote, message, wrapped, Pod, Lookup, found, failed, Env}

pub record World : Type 0 where
  pub pod : Option Pod
  pub version : ℕ
  pub clock : ℕ
  pub blocked : Bool

abbrev pub look_up : Option Pod → String → String → Lookup
look_up none namespace name = failed (remote "NotFound")
look_up (some pod) namespace name =
    if pod.namespace == namespace && pod.name == name then found pod else failed (remote "NotFound")

-- An older version is refused, and a write raises the version.
abbrev store : World → EvictionRequest → World × Option Err
store w r =
    if ltb r.metadata.resource_version w.version
    then (w, some (remote "Conflict"))
    else (record w { version = suc r.metadata.resource_version }, none)

abbrev pub is_not_found : Err → Bool
is_not_found (remote text) = text == "NotFound"
is_not_found (message text) = false
is_not_found (wrapped text e) = is_not_found e

-- Insertion sort.
abbrev pub insert_by :
    (Interceptor → Interceptor → Bool) → Interceptor → List Interceptor → List Interceptor
insert_by less x [] = x ∷ []
insert_by less x (y ∷ ys) =
    let rest = insert_by less x ys in if less y x then y ∷ rest else x ∷ y ∷ ys

abbrev pub sort_by : (Interceptor → Interceptor → Bool) → List Interceptor → List Interceptor
sort_by less [] = []
sort_by less (x ∷ xs) = insert_by less x (sort_by less xs)

abbrev pub memory : Env
memory = record {
  World = World;
  get_pod = λ w namespace name. (w, look_up w.pod namespace name);
  update_status = store;
  evict = λ w eviction. (w, if w.blocked then some (remote "TooManyRequests") else none);
  now = λ w. (w, w.clock);
  is_not_found = is_not_found;
  sort_slice = λ xs less. sort_by less xs;
}

insert_by-perm :
    (less : Interceptor → Interceptor → Bool) (x : Interceptor) (xs : List Interceptor)
    → Perm (insert_by less x xs) (x ∷ xs)
insert_by-perm less x [] = Perm.refl _
insert_by-perm less x (y ∷ ys) = elim (Bool-cases (less y x)) [
  | inl later ↦ rw later (Perm.trans (Perm.cons y (insert_by-perm less x ys)) (Perm.swap x y ys))
  | inr here ↦ rw here (Perm.refl _)
]

sort_by-perm :
    (less : Interceptor → Interceptor → Bool) (xs : List Interceptor) → Perm (sort_by less xs) xs
sort_by-perm less [] = Perm.refl _
sort_by-perm less (x ∷ xs) =
    Perm.trans (insert_by-perm less x (sort_by less xs)) (Perm.cons x (sort_by-perm less xs))

module _ (less : Interceptor → Interceptor → Bool) (weak : IsStrictWeak less) where
  abbrev IsOrdered : List Interceptor → Type 0
  IsOrdered = Pairwise (λ a b. less b a ≡ false)

  asymm : (a b : Interceptor) → less a b ≡ true → less b a ≡ false
  asymm a b h = elim (Bool-cases (less b a)) [
    | inl back ↦ cc (weak.trans a b a h back, weak.irrefl a)
    | inr fine ↦ fine
  ]

  below_insert :
      (x y : Interceptor) (ys : List Interceptor)
      → less x y ≡ false
      → IsOrdered (y ∷ ys)
      → (z : Interceptor) → Mem z (insert_by less x ys)
      → less z y ≡ false
  below_insert x y ys h d z m =
      Or.elim (Bool-set _ _) (mem-cons.0 ((Perm.mem_iff (insert_by-perm less x ys)).0 m))
        (λ e. rw e h) (rel_of_Pairwise-cons d)

  insert_by-IsOrdered :
      (x : Interceptor) (xs : List Interceptor) → IsOrdered xs → IsOrdered (insert_by less x xs)
  insert_by-IsOrdered x [] d = Pairwise.cons (λ z m. absurd (not-mem-nil m)) Pairwise.nil
  insert_by-IsOrdered x (y ∷ ys) d = elim (Bool-cases (less y x)) [
    | inl later ↦ rw later (
        Pairwise.cons (below_insert x y ys (asymm y x later) d)
          (insert_by-IsOrdered x ys (Pairwise.of_cons d)))
    | inr here ↦ rw here (
        Pairwise.cons
          (λ z m.
            Or.elim (Bool-set _ _) (mem-cons.0 m) (λ e. rw e here)
              (λ m'. weak.tie_trans z y x (rel_of_Pairwise-cons d m') here))
          d)
  ]

  sort_by-IsOrdered : (xs : List Interceptor) → IsOrdered (sort_by less xs)
  sort_by-IsOrdered [] = Pairwise.nil
  sort_by-IsOrdered (x ∷ xs) = insert_by-IsOrdered x (sort_by less xs) (sort_by-IsOrdered xs)

pub memory-SortsSlices : SortsSlices memory
memory-SortsSlices = record {
  perm = λ xs less. sort_by-perm less xs;
  ordered = λ xs less weak. sort_by-IsOrdered less weak xs;
}

store_stale :
    (w : World) (r : EvictionRequest)
    → (store w r).1 ≡ none
    → r.metadata.resource_version < (store w r).0.version
store_stale w r h = ground arith

store_refused :
    (w : World) (r : EvictionRequest)
    → r.metadata.resource_version < w.version
    → (store w r).1 ≢ none
store_refused w r h = ground arith

store_still_stale :
    (w : World) (r : EvictionRequest) (version : ℕ)
    → version < w.version
    → version < (store w r).0.version
store_still_stale w r version h = ground arith

pub memory-HasVersions : HasVersions memory
memory-HasVersions = record {
  IsStale = λ w m. m.resource_version < w.version;
  after_write = store_stale;
  refused = store_refused;
  update-stale = λ w r m h. store_still_stale w r m.resource_version h;
  get_pod-stale = λ w m a b h. h;
  evict-stale = λ w m e h. h;
  now-stale = λ w m h. h;
}

pub memory-FindsByName : FindsByName memory
memory-FindsByName w namespace name pod found_it = elim (Option-cases w.pod) [
  | inl e ↦ absurd (ground arith)
  | inr (stored, e) ↦ (
    ground (arith, eq_iff stored.namespace namespace, eq_iff stored.name name),
    ground (arith, eq_iff stored.namespace namespace, eq_iff stored.name name),
  )
]
