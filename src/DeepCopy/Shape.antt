-- ===== src/DeepCopy/Shape.antt =====
-- Structures with pointers, by what they reach and what they stand for, and the copiers of such
-- structures.
use k8s_eviction_controller.Prelude.{ℕ, ◌<◌, ◌≤◌, ◌≡◌, refl, sym, subst, ◌∙◌, ap, arith}
use k8s_eviction_controller.Store.{Store, Alloc}

-- The cells at the addresses from `lo` on and below `hi` are the same.
abbrev pub Agrees : ℕ → ℕ → Store → Store → Type 0
Agrees lo hi m m' = (a : ℕ) → lo ≤ a → a < hi → m'.cell a ≡ m.cell a

-- `within lo hi m x`: all addresses that `x` reaches in `m` lie from `lo` on and below `hi`. `view
-- m x`: the value that `x` stands for in `m`.
pub record Shape (X V : Type 0) : Type 1 where
  pub within : ℕ → ℕ → Store → X → Type 0
  pub view : Store → X → V
  pub within-agree :
      (lo hi : ℕ) (m m' : Store) (x : X) → Agrees lo hi m m' → within lo hi m x → within lo hi m' x
  pub view-agree :
      (lo hi : ℕ) (m m' : Store) (x : X)
      → Agrees lo hi m m'
      → within lo hi m x
      → view m' x ≡ view m x
  pub widen :
      (lo hi lo' hi' : ℕ) (m : Store) (x : X)
      → lo' ≤ lo
      → hi ≤ hi'
      → within lo hi m x
      → within lo' hi' m x

module _ {X V : Type 0} (s : Shape X V) where
  open s use {within, view}

  -- `y` in `m'` is a copy of `x` in `m`: it stands for the same value, reaches new cells only, and
  -- no old cell was changed.
  pub record IsCopy (m : Store) (x : X) (m' : Store) (y : X) : Type 0 where
    pub grows : m.next ≤ m'.next
    pub keeps : Agrees 0 m.next m m'
    pub fresh : within m.next m'.next m' y
    pub same : view m' y ≡ view m x

  -- On a structure whose cells are in use, `f` makes a copy.
  abbrev pub Copies : (X → Alloc X) → Type 0
  Copies f = (m : Store) (x : X) → within 0 m.next m x → IsCopy m x (f x m).1 (f x m).0

abbrev pub plain : {X : Type 0} → Shape X X
plain = record {
  within = λ lo hi m x. Unit {0};
  view = λ m x. x;
  within-agree = λ lo hi m m' x a w. w;
  view-agree = λ lo hi m m' x a w. refl;
  widen = λ lo hi lo' hi' m x p q w. w;
}

module _ {X V Y U : Type 0} (s : Shape X V) (t : Shape Y U) where
  -- Two structures side by side, and their copies, one after the other.
  abbrev pub both : Shape (X × Y) (V × U)
  both = record {
    within = λ lo hi m x. s.within lo hi m x.0 × t.within lo hi m x.1;
    view = λ m x. (s.view m x.0, t.view m x.1);
    within-agree = λ lo hi m m' x a w.
        (s.within-agree lo hi m m' x.0 a w.0, t.within-agree lo hi m m' x.1 a w.1);
    view-agree = λ lo hi m m' x a w.
        λ i. (s.view-agree lo hi m m' x.0 a w.0 i, t.view-agree lo hi m m' x.1 a w.1 i);
    widen = λ lo hi lo' hi' m x p q w.
        (s.widen lo hi lo' hi' m x.0 p q w.0, t.widen lo hi lo' hi' m x.1 p q w.1);
  }

  abbrev pub copy_both : (X → Alloc X) → (Y → Alloc Y) → X × Y → Alloc (X × Y)
  copy_both f g x m = let (a, m1) = f x.0 m in let (b, m2) = g x.1 m1 in ((a, b), m2)

  -- The second copy leaves the first alone, as it changes no cell that is in use.
  pub both-IsCopy :
      (m m1 m2 : Store) (x y : X) (x' z : Y)
      → IsCopy s m x m1 y
      → t.within 0 m.next m x'
      → (t.within 0 m1.next m1 x' → IsCopy t m1 x' m2 z)
      → IsCopy both m (x, x') m2 (y, z)
  both-IsCopy m m1 m2 x y x' z first w copies = record {
    grows = omega (arith, first.grows, second.grows);
    keeps = λ a p q. second.keeps a p (omega (arith, first.grows)) ∙ first.keeps a p q;
    fresh = (
      s.widen m.next m1.next m.next m2.next m2 y (omega arith) second.grows
          (s.within-agree m.next m1.next m1 m2 y later first.fresh),
      t.widen m1.next m2.next m.next m2.next m2 z first.grows (omega arith) second.fresh,
    );
    same = λ i. (
      (s.view-agree m.next m1.next m1 m2 y later first.fresh ∙ first.same) i,
      (second.same ∙ t.view-agree 0 m.next m m1 x' first.keeps w) i,
    );
  }
    where
      second : IsCopy t m1 x' m2 z
      second = copies (
          t.widen 0 m.next 0 m1.next m1 x' (omega arith) first.grows
            (t.within-agree 0 m.next m m1 x' first.keeps w))

      later : Agrees m.next m1.next m1 m2
      later = λ a p q. second.keeps a (omega arith) q

  pub both-Copies :
      (f : X → Alloc X) (g : Y → Alloc Y) → Copies s f → Copies t g → Copies both (copy_both f g)
  both-Copies f g cf cg m (x, x') (w, w') =
      both-IsCopy m _ _ x _ x' _ (cf m x w) w' (cg (f x m).1 x')

module _ {X V Y U : Type 0} (s : Shape X V) (tuple : Y → X) (rebuild : Y → X → Y)
    (build : Y → V → U) where
  -- A struct: `tuple` are its fields with pointers, `rebuild` changes them, and `build` makes its
  -- value.
  abbrev pub struct : Shape Y U
  struct = record {
    within = λ lo hi m y. s.within lo hi m (tuple y);
    view = λ m y. build y (s.view m (tuple y));
    within-agree = λ lo hi m m' y a w. s.within-agree lo hi m m' (tuple y) a w;
    view-agree = λ lo hi m m' y a w. ap (build y) (s.view-agree lo hi m m' (tuple y) a w);
    widen = λ lo hi lo' hi' m y p q w. s.widen lo hi lo' hi' m (tuple y) p q w;
  }

  pub struct-Copies :
      (f : X → Alloc X)
      → Copies s f
      → ((y : Y) (x : X) → tuple (rebuild y x) ≡ x)
      → ((y : Y) (x : X) (v : V) → build (rebuild y x) v ≡ build y v)
      → Copies struct (λ y m. let (x, m') = f (tuple y) m in (rebuild y x, m'))
  struct-Copies f cf fields value m y w =
      let c = cf m (tuple y) w in
      let x = (f (tuple y) m).0 in
      let m' = (f (tuple y) m).1 in
      record {
        grows = c.grows;
        keeps = c.keeps;
        fresh = subst (s.within m.next m'.next m') (sym (fields y x)) c.fresh;
        same =
            ap (λ z. build (rebuild y x) (s.view m' z)) (fields y x)
            ∙ value y x (s.view m' x)
            ∙ ap (build y) c.same;
      }
