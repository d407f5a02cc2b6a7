-- ===== src/Interceptor/Drain.antt =====
-- Pass after pass of `Handle` on a request whose active interceptor has completed, while nobody
-- else writes to it.
use mathlib.Core.List.{mem-cons_self, mem-cons_of_mem, rel_of_Pairwise-cons}
use mathlib.Core.List.Pairwise
use mathlib.Core.List.Perm
use k8s_eviction_controller.Prelude.{
  ℕ, zero, suc, ◌<◌, ◌≡◌, ◌≢◌, refl, sym, ◌∙◌, inl, inr, String, ◌==◌, eq_iff, Bool-cases,
  Option-cases, true, none, some, List, [], ◌∷◌, Mem, Pairwise, length, arith, if◌then◌else◌,
}
use k8s_eviction_controller.Api.{Interceptor, EvictionRequest}
use k8s_eviction_controller.Cluster.{Env, State, final, evictions}
use k8s_eviction_controller.Eviction.{perform}
use k8s_eviction_controller.Interceptor.{select_class, sort_interceptors_by_priority, handle}
use k8s_eviction_controller.Interceptor.Index.{successor, head?}
use k8s_eviction_controller.Interceptor.Priority.{SortsSlices, sort-perm}
use k8s_eviction_controller.Interceptor.Decision.{after_completion, act, handle_decides}
use k8s_eviction_controller.Interceptor.Selection.{Selects-of_decision, decide_completed}

-- No two interceptors have one class (`+listMapKey=interceptorClass` in types.go), and no class is
-- empty.
pub record HasClasses (xs : List Interceptor) : Type 0 where
  pub distinct : Pairwise (λ a b. a.interceptor_class ≢ b.interceptor_class) xs
  pub named : (x : Interceptor) → Mem x xs → x.interceptor_class ≢ ""

-- How many interceptors stand behind the first one of a class.
unfoldable pub remaining : List Interceptor → String → ℕ
remaining [] c = 0
remaining (x ∷ xs) c = if x.interceptor_class == c then length xs else remaining xs c

head?-mem : (xs : List Interceptor) {n : Interceptor} → head? xs ≡ some n → Mem n xs
head?-mem [] e = cc
head?-mem (x ∷ xs) {n} e = let same : n ≡ x = ground arith in rw same mem-cons_self

head?-remaining :
    (xs : List Interceptor) {n : Interceptor}
    → head? xs ≡ some n
    → length xs ≡ suc (remaining xs n.interceptor_class)
unfolding remaining
head?-remaining [] e = cc
head?-remaining (x ∷ xs) {n} e = ground (arith, eq_iff x.interceptor_class n.interceptor_class)

pub successor-mem :
    (xs : List Interceptor) (c : String) {n : Interceptor} → successor xs c ≡ some n → Mem n xs
unfolding successor
successor-mem [] c e = cc
successor-mem (x ∷ xs) c e = elim (Bool-cases (x.interceptor_class == c)) [
  | inl same ↦ mem-cons_of_mem x (head?-mem xs (ground arith))
  | inr other ↦ mem-cons_of_mem x (successor-mem xs c (ground arith))
]

pub remaining-successor :
    (xs : List Interceptor) (c : String) {n : Interceptor}
    → Pairwise (λ a b. a.interceptor_class ≢ b.interceptor_class) xs
    → successor xs c ≡ some n
    → remaining xs c ≡ suc (remaining xs n.interceptor_class)
unfolding successor remaining
remaining-successor [] c d e = cc
remaining-successor (x ∷ xs) c {n} d e = elim (Bool-cases (x.interceptor_class == c)) [
  | inl same ↦
      let other = rel_of_Pairwise-cons d (head?-mem xs {n = n} (ground arith)) in
      ground (arith, eq_iff x.interceptor_class n.interceptor_class, head?-remaining xs {n = n})
  | inr differs ↦
      let other = rel_of_Pairwise-cons d (successor-mem xs c {n = n} (ground arith)) in
      ground (
        arith,
        eq_iff x.interceptor_class n.interceptor_class,
        remaining-successor xs c {n = n} (Pairwise.of_cons d),
      )
]

pub remaining-last :
    (xs : List Interceptor) (c : String) → successor xs c ≡ none → remaining xs c ≡ 0
unfolding successor remaining
remaining-last [] c e = refl
remaining-last (x ∷ []) c e = ground arith
remaining-last (x ∷ y ∷ ys) c e = ground (arith, remaining-last (y ∷ ys) c)

pub remaining-lt : (xs : List Interceptor) (c : String) → xs ≢ [] → remaining xs c < length xs
unfolding remaining
remaining-lt [] c h = absurd (h refl)
remaining-lt (x ∷ []) c h = ground arith
remaining-lt (x ∷ y ∷ ys) c h = ground (arith, remaining-lt (y ∷ ys) c (λ e. cc))

-- The active interceptor has completed.
pub record IsCompleted (r : EvictionRequest) (c : String) : Type 0 where
  pub listed : r.spec.interceptors ≢ []
  pub class : r.status.active_interceptor_class ≡ some c
  pub named : c ≢ ""
  pub done : r.status.active_interceptor_completed ≡ true

module _ (env : Env) where
  -- `n` passes of `Handle` on one object.
  unfoldable pub passes : ℕ → State env.World → State env.World
  passes zero s = s
  passes (suc n) s = passes n (final (handle env s))

  abbrev sorted : EvictionRequest → List Interceptor
  sorted r = sort_interceptors_by_priority env r.spec.interceptors

  -- The pass after which nothing is left is the one that evicts.
  abbrev pub Drains : ℕ → State env.World → Type 0
  Drains k s =
      let t = passes k s in
      (handle env t ≡ perform env t)
      × (t.request.spec ≡ s.request.spec)
      × (t.request.status.active_interceptor_completed ≡ true)
      × (evictions t.calls ≡ evictions s.calls)

IsCompleted-after :
    (r r' : EvictionRequest) (c n : String)
    → r' ≡ record r { status = select_class n r.status }
    → IsCompleted r c
    → n ≢ ""
    → (r'.spec ≡ r.spec) × IsCompleted r' n
unfolding select_class
IsCompleted-after r r' c n e done named = (
  ground arith,
  record {
    listed = ground (arith, done.listed);
    class = ground arith;
    named = named;
    done = ground (arith, done.done);
  },
)

module _ (env : Env) (sorts : SortsSlices env) where
  pub sorted-distinct :
      (xs : List Interceptor)
      → HasClasses xs
      → Pairwise
          (λ a b. a.interceptor_class ≢ b.interceptor_class)
          (sort_interceptors_by_priority env xs)
  sorted-distinct xs classes =
      Perm.pairwise (λ a b. hlevel) (λ a b h e. h (sym e)) (Perm.symm (sort-perm env sorts xs))
        classes.distinct

  Drains-from :
      (k : ℕ) (s : State env.World) (c : String)
      → remaining (sorted env s.request) c ≡ k
      → IsCompleted s.request c
      → HasClasses s.request.spec.interceptors
      → Drains env k s
  unfolding passes after_completion act
  Drains-from zero s c left done classes =
      elim (Option-cases (successor (sorted env s.request) c)) [
        | inl last ↦ (
          rw
              (
                handle_decides env sorts s done.listed,
                decide_completed _ s.request c done.class done.named done.done,
                last,
                act,
              )
              refl,
          refl,
          done.done,
          refl,
        )
        | inr (n, found) ↦
            let more = remaining-successor _ c (sorted-distinct _ classes) found in
            absurd (omega arith)
      ]
  Drains-from (suc k) s c left done classes =
      elim (Option-cases (successor (sorted env s.request) c)) [
        | inl last ↦ let end = remaining-last _ c last in absurd (omega arith)
        | inr (n, found) ↦
            let more = remaining-successor _ c (sorted-distinct _ classes) found in
            let (answer, exit, stored, sent, written) =
              Selects-of_decision env sorts s n.interceptor_class done.listed
                (decide_completed _ s.request c done.class done.named done.done ∙ rw found) in
            let named' =
              classes.named n
                ((Perm.mem_iff (sort-perm env sorts _)).0 (successor-mem _ c found)) in
            let (same_spec, next) =
              IsCompleted-after s.request _ c n.interceptor_class stored done named' in
            let (evicts, spec, flag, count) =
              Drains-from k (final (handle env s)) n.interceptor_class (rw same_spec (omega arith))
                next (rw same_spec classes) in
            (evicts, spec ∙ same_spec, flag, count ∙ rw sent)
      ]

  -- When the active interceptor has completed, the interceptors have distinct classes, none of them
  -- empty, and nobody else writes to the object: after fewer passes than there are interceptors,
  -- the next pass is Perform. No eviction was sent before it, the spec is the same, and the object
  -- is still marked as completed, whatever interceptors were made active in between.
  pub completed-Drains :
      (s : State env.World) (c : String)
      → IsCompleted s.request c
      → HasClasses s.request.spec.interceptors
      → (k : ℕ) × (k < length (sort_interceptors_by_priority env s.request.spec.interceptors))
        × Drains env k s
  completed-Drains s c done classes = (
    remaining (sorted env s.request) c,
    remaining-lt _ c (λ e.
        done.listed
          (sym (Perm.nil-eq (rw e at (sort-perm env sorts s.request.spec.interceptors))))),
    Drains-from _ s c refl done classes,
  )
