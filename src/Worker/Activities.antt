-- ===== src/Worker/Activities.antt =====
-- What a step of one worker means for the others.
use k8s_eviction_controller.Prelude.{
  ℕ, leb, ◌≡◌, ◌≢◌, ◌⊎◌, sym, ◌∙◌, Bool-cases, inl, inr, arith, ◌&&◌,
}
use k8s_eviction_controller.Worker.{Obj}
use k8s_eviction_controller.Worker.Concurrent.{Activity, busy, update}

pub update-cases :
    (f : ℕ → Activity) (i : ℕ) (a : Activity) (j : ℕ)
    → ((i ≡ j) × (update f i a j ≡ a)) ⊎ ((i ≢ j) × (update f i a j ≡ f j))
update-cases f i a j = elim (Bool-cases (leb i j && leb j i)) [
  | inl same ↦ inl (ground arith, ground arith)
  | inr differ ↦ inr (λ e. ground arith, ground arith)
]

-- A worker that gives up its item.
pub release-busy :
    (f : ℕ → Activity) (i : ℕ) (a : Activity) (j : ℕ) (x : Obj)
    → a ≢ busy x
    → update f i a j ≡ busy x
    → (i ≢ j) × (f j ≡ busy x)
release-busy f i a j x free e = elim (update-cases f i a j) [
  | inl (same, u) ↦ absurd (free (sym u ∙ e))
  | inr (differ, u) ↦ (differ, sym u ∙ e)
]
