-- ===== src/Worker/Counting.antt =====
-- How much the workers may still have to do, by what each of them does now.
use k8s_eviction_controller.Prelude.{
  ℕ, zero, suc, ◌+◌, ◌*◌, ◌<◌, ◌≤◌, ◌≡◌, ◌≢◌, refl, sym, ap, ◌∙◌, inl, inr, arith,
}
use k8s_eviction_controller.Worker.Concurrent.{Activity, idle, busy, stopped, update}
use k8s_eviction_controller.Worker.Activities.{update-cases}

-- The steps that a worker may still take for what it does now, if no item is left.
abbrev pub weight : Activity → ℕ
weight idle = 1
weight (busy obj) = 2
weight stopped = 0

abbrev pub total : ℕ → (ℕ → Activity) → ℕ
total zero f = 0
total (suc k) f = weight (f k) + total k f

weight-le : (a : Activity) → weight a ≤ 2
weight-le idle = omega arith
weight-le (busy obj) = omega arith
weight-le stopped = omega arith

pub total-le : (k : ℕ) (f : ℕ → Activity) → total k f ≤ 2 * k
total-le zero f = omega arith
total-le (suc k) f = omega (arith, weight-le (f k), total-le k f)

total-above :
    (k : ℕ) (f : ℕ → Activity) (i : ℕ) (a : Activity) → k ≤ i → total k (update f i a) ≡ total k f
total-above zero f i a h = refl
total-above (suc k) f i a h = elim (update-cases f i a k) [
  | inl (e, u) ↦ absurd (omega arith)
  | inr (n, u) ↦ ground (arith, total-above k f i a)
]

pub total-update :
    (k : ℕ) (f : ℕ → Activity) (i : ℕ) (a : Activity)
    → i < k
    → total k (update f i a) + weight (f i) ≡ total k f + weight a
total-update zero f i a h = absurd (omega arith)
total-update (suc k) f i a h = elim (update-cases f i a k) [
  | inl (e, u) ↦
      let own = ap weight u in
      let above = total-above k f i a (omega arith) in
      let here = ap (λ j. weight (f j)) e in omega arith
  | inr (n, u) ↦
      let same = ap weight u in let rest = total-update k f i a (omega (arith, n)) in omega arith
]

update-own : (f : ℕ → Activity) (i : ℕ) (a : Activity) → update f i a i ≡ a
update-own f i a = ground arith

pub update-moves :
    (f : ℕ → Activity) (i : ℕ) (a b : Activity) → f i ≡ a → b ≢ a → update f i b i ≢ f i
update-moves f i a b e ne q = ne (sym (update-own f i b) ∙ q ∙ e)
