-- ===== src/Fakes/Objects.antt =====
-- When the fake clientset is made, and with which objects.
use k8s_eviction_controller.Prelude.{
  ◌≡◌, ◌↔◌, refl, subst, inl, inr, Option-cases, some, List, [], ◌∷◌, arith,
}
use k8s_eviction_controller.Config.{Made, made, not_made}
use k8s_eviction_controller.Fakes.{
  Testing, FakeClientset, watch_reaction, add_each, new_simple_clientset,
}

module _ (t : Testing) where
  open t use {Object, Tracker, Memory}

  -- Each object is added, at the memory that the one before left.
  pub data Adds (o : Tracker) : Memory → List Object → Memory → Type 0 where
    nothing : {m : Memory} → Adds o m [] m
    then_add :
        {m m' m'' : Memory} {obj : Object} {objects : List Object}
        → t.add o obj m ≡ made m'
        → Adds o m' objects m''
        → Adds o m (obj ∷ objects) m''

  Adds-add_each :
      {o : Tracker} {m m' : Memory} {objects : List Object}
      → Adds o m objects m'
      → add_each t o objects m ≡ some m'
  unfolding add_each
  Adds-add_each nothing = refl
  Adds-add_each (then_add e rest) = rw (e, add_each) (Adds-add_each rest)

  add_by_answer :
      (o : Tracker) (m m'' : Memory) (obj : Object) (objects : List Object) (answer : Made Memory)
      → t.add o obj m ≡ answer
      → add_each t o (obj ∷ objects) m ≡ some m''
      → ((m' : Memory) → add_each t o objects m' ≡ some m'' → Adds o m' objects m'')
      → Adds o m (obj ∷ objects) m''
  unfolding add_each
  add_by_answer o m m'' obj objects (made m') added e rest =
      then_add added (rest m' (rw (added, add_each) at e))
  add_by_answer o m m'' obj objects (not_made err) added e rest = absurd (ground arith)

  add_each-Adds :
      (o : Tracker) (m m' : Memory) (objects : List Object)
      → add_each t o objects m ≡ some m'
      → Adds o m objects m'
  unfolding add_each
  add_each-Adds o m m' [] e = let same : m ≡ m' = cc in subst (Adds o m []) same nothing
  add_each-Adds o m m' (obj ∷ objects) e =
      add_by_answer o m m' obj objects _ refl e (λ n. add_each-Adds o n m' objects)

  -- The clientset is made, and nothing panics, exactly when the objects can be added to a new, empty
  -- tracker one after the other, which leaves the memory `m'`; the clientset then has that tracker,
  -- client-go's reactor on it for all calls, and a reactor on it for all watches.
  pub new_simple_clientset_iff :
      (objects : List Object) (m m' : Memory) (cs : FakeClientset t)
      → let (o, with_tracker) = t.new_tracker m in
        (new_simple_clientset t objects m ≡ some (cs, m')) ↔ (
          Adds o with_tracker objects m'
          × (cs.tracker ≡ o)
          × (cs.reactors ≡ ("*", "*", t.object_reaction o) ∷ [])
          × (cs.watch_reactors ≡ ("*", watch_reaction t o) ∷ []))
  unfolding new_simple_clientset
  new_simple_clientset_iff objects m m' cs =
      let (o, start) = t.new_tracker m in
      elim (Option-cases (add_each t o objects start)) [
        | inl e ↦ (
          λ h. absurd (ground arith),
          λ (adds, x, r, v). absurd (let f = Adds-add_each adds in cc),
        )
        | inr (n, e) ↦ (
          λ h.
              let same : m' ≡ n = ground arith in
              (
                add_each-Adds o start m' objects (rw (← same) at e),
                ground arith,
                ground arith,
                ground arith,
              ),
          λ (adds, x, r, v). let f = Adds-add_each adds in ground arith,
        )
      ]
