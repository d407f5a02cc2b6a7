-- ===== src/DeepCopy/Pointer.antt =====
-- Slices and pointers as shapes, and their copiers.
use k8s_eviction_controller.Prelude.{
  ℕ, suc, ◌<◌, ◌≤◌, ◌≡◌, refl, sym, subst, ◌∙◌, ap, Option, none, some, List, [], ◌∷◌, map, All,
  arith,
}
use k8s_eviction_controller.Store.{Cell, Store, Alloc, reserve, put, copy_cell}
use k8s_eviction_controller.DeepCopy.{copy_each, copy_pointer}
use k8s_eviction_controller.DeepCopy.Shape.{Agrees, Shape, IsCopy, Copies, both-IsCopy, plain}

module _ {X V : Type 0} (s : Shape X V) where
  -- A slice, as the list of its elements.
  abbrev pub each : Shape (List X) (List V)
  each = record {
    within = λ lo hi m xs. All (s.within lo hi m) xs;
    view = λ m xs. map (s.view m) xs;
    within-agree = within_each;
    view-agree = view_each;
    widen = widen_each;
  }
    where
      within_each :
          (lo hi : ℕ) (m m' : Store) (xs : List X)
          → Agrees lo hi m m'
          → All (s.within lo hi m) xs
          → All (s.within lo hi m') xs
      within_each lo hi m m' [] a w = tt
      within_each lo hi m m' (x ∷ xs) a w =
          (s.within-agree lo hi m m' x a w.0, within_each lo hi m m' xs a w.1)

      view_each :
          (lo hi : ℕ) (m m' : Store) (xs : List X)
          → Agrees lo hi m m'
          → All (s.within lo hi m) xs
          → map (s.view m') xs ≡ map (s.view m) xs
      view_each lo hi m m' [] a w = refl
      view_each lo hi m m' (x ∷ xs) a w =
          λ i. s.view-agree lo hi m m' x a w.0 i ∷ view_each lo hi m m' xs a w.1 i

      widen_each :
          (lo hi lo' hi' : ℕ) (m : Store) (xs : List X)
          → lo' ≤ lo
          → hi ≤ hi'
          → All (s.within lo hi m) xs
          → All (s.within lo' hi' m) xs
      widen_each lo hi lo' hi' m [] p q w = tt
      widen_each lo hi lo' hi' m (x ∷ xs) p q w =
          (s.widen lo hi lo' hi' m x p q w.0, widen_each lo hi lo' hi' m xs p q w.1)

  each-IsCopy :
      (f : X → Alloc X)
      → Copies s f
      → (xs : List X) (m : Store) → All (s.within 0 m.next m) xs
      → IsCopy each m xs (copy_each f xs m).1 (copy_each f xs m).0
  each-IsCopy f cf [] m w = record {
    grows = omega arith;
    keeps = λ a p q. refl;
    fresh = tt;
    same = refl;
  }
  each-IsCopy f cf (x ∷ xs) m w =
      let c =
        both-IsCopy s each m (f x m).1 _ x _ xs _ (cf m x w.0) w.1
          (each-IsCopy f cf xs (f x m).1) in
      record {
        grows = c.grows;
        keeps = c.keeps;
        fresh = c.fresh;
        same = ap (λ (v : V × List V). v.0 ∷ v.1) c.same;
      }

  pub each-Copies : (f : X → Alloc X) → Copies s f → Copies each (copy_each f)
  each-Copies f cf m xs w = each-IsCopy f cf xs m w

module _ {X V : Type 0} (from : Cell → X) (s : Shape X V) where
  abbrev pub WithinPointer : ℕ → ℕ → Store → Option ℕ → Type 0
  WithinPointer lo hi m none = Unit
  WithinPointer lo hi m (some a) = (lo ≤ a) × (a < hi) × s.within lo hi m (from (m.cell a))

  pub WithinPointer-agree :
      (lo hi : ℕ) (m m' : Store) (x : Option ℕ)
      → Agrees lo hi m m'
      → WithinPointer lo hi m x
      → WithinPointer lo hi m' x
  WithinPointer-agree lo hi m m' none a w = tt
  WithinPointer-agree lo hi m m' (some x) a (p, q, w) = (
    p,
    q,
    subst (λ c. s.within lo hi m' (from c)) (sym (a x p q))
        (s.within-agree lo hi m m' (from (m.cell x)) a w),
  )

  abbrev pub view_pointer : Store → Option ℕ → Option V
  view_pointer m none = none
  view_pointer m (some a) = some (s.view m (from (m.cell a)))

  pub view_pointer-agree :
      (lo hi : ℕ) (m m' : Store) (x : Option ℕ)
      → Agrees lo hi m m'
      → WithinPointer lo hi m x
      → view_pointer m' x ≡ view_pointer m x
  view_pointer-agree lo hi m m' none a w = refl
  view_pointer-agree lo hi m m' (some x) a (p, q, w) =
      ap (λ c. some (s.view m' (from c))) (a x p q)
      ∙ ap some (s.view-agree lo hi m m' (from (m.cell x)) a w)

  pub widen_pointer :
      (lo hi lo' hi' : ℕ) (m : Store) (x : Option ℕ)
      → lo' ≤ lo
      → hi ≤ hi'
      → WithinPointer lo hi m x
      → WithinPointer lo' hi' m x
  widen_pointer lo hi lo' hi' m none p q w = tt
  widen_pointer lo hi lo' hi' m (some x) p q (a, b, w) =
      (omega arith, omega arith, s.widen lo hi lo' hi' m (from (m.cell x)) p q w)

  -- A pointer or slice: what its cell stands for, if it is not nil.
  abbrev pub pointer : Shape (Option ℕ) (Option V)
  pointer = record {
    within = WithinPointer;
    view = view_pointer;
    within-agree = WithinPointer-agree;
    view-agree = view_pointer-agree;
    widen = widen_pointer;
  }

  pub pointer-Copies :
      (to : X → Cell) (f : X → Alloc X)
      → Copies s f
      → ((x : X) → from (to x) ≡ x)
      → Copies pointer (copy_pointer from to f)
  pointer-Copies to f cf stored m none w = record {
    grows = omega arith;
    keeps = λ a p q. refl;
    fresh = tt;
    same = refl;
  }
  pointer-Copies to f cf stored m (some x) (p, q, w) = record {
    grows = omega (arith, c.grows);
    keeps = λ a lo hi. ground (arith, c.grows, c.keeps a);
    fresh = (
      omega arith,
      omega (arith, c.grows),
      subst (λ z. s.within m.next m2.next m3 z) (sym put_back)
          (s.widen (suc m.next) m2.next m.next m2.next m3 y (omega arith) (omega arith)
            (s.within-agree (suc m.next) m2.next m2 m3 y later c.fresh)),
    );
    same = ap some (
        ap (s.view m3) put_back
        ∙ s.view-agree (suc m.next) m2.next m2 m3 y later c.fresh
        ∙ c.same
        ∙ s.view-agree 0 m.next m m1 (from (m.cell x)) (λ a lo hi. refl) w);
  }
    where
      m1 : Store
      m1 = (reserve m).1

      y : X
      y = (f (from (m.cell x)) m1).0

      m2 : Store
      m2 = (f (from (m.cell x)) m1).1

      m3 : Store
      m3 = (put m.next (to y) m2).1

      c : IsCopy s m1 (from (m.cell x)) m2 y
      c = cf m1 (from (m.cell x)) (
          s.widen 0 m.next 0 (suc m.next) m1 (from (m.cell x)) (omega arith) (omega arith)
            (s.within-agree 0 m.next m m1 (from (m.cell x)) (λ a lo hi. refl) w))

      later : Agrees (suc m.next) m2.next m2 m3
      later = λ a lo hi. ground arith

      put_back : from (m3.cell m.next) ≡ y
      put_back = ap from (ground arith) ∙ stored y

-- A cell without pointers is copied whole.
pub cell-Copies : {X : Type 0} (from : Cell → X) → Copies (pointer from plain) copy_cell
cell-Copies from m none w = record {
  grows = omega arith;
  keeps = λ a p q. refl;
  fresh = tt;
  same = refl;
}
cell-Copies from m (some x) (p, q, w) = record {
  grows = omega arith;
  keeps = λ a lo hi. ground arith;
  fresh = (omega arith, omega arith, tt);
  same = ap (λ c. some (from c)) (ground arith);
}
