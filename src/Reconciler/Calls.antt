-- ===== src/Reconciler/Calls.antt =====
-- The log of the calls does not influence a reconciliation: it only grows.
use k8s_eviction_controller.Prelude.{◌≡◌, refl, ap, List, [], ◌∷◌, ◌++◌}
use k8s_eviction_controller.Cluster.{
  Env, State, Exit, returned, panicked, Call, updated, evicted, final, result, panics, evictions,
}
use k8s_eviction_controller.Cluster.Runs.{Alike, RelatesSteps}
use k8s_eviction_controller.Reconciler.{reconcile_eviction_request}
use k8s_eviction_controller.Reconciler.Frame.{reconcile_related}

-- The state when `earlier` calls were sent before.
abbrev pub after_calls : {W : Type 0} → List Call → State W → State W
after_calls earlier s = record s { calls = s.calls ++ earlier }

abbrev IsAfter : {W : Type 0} → List Call → State W → State W → Type 0
IsAfter earlier s t = t ≡ after_calls earlier s

Alike-IsAfter :
    {W A : Type 0} (earlier : List Call) (x y : Exit W A)
    → Alike (IsAfter earlier) x y
    → (result y ≡ result x) × (panics y ≡ panics x) × (final y ≡ after_calls earlier (final x))
Alike-IsAfter earlier (returned a s) (returned b t) (e, r) = (rw e, refl, r)
Alike-IsAfter earlier (returned a s) (panicked t) h = elim h [ ]
Alike-IsAfter earlier (panicked s) (returned b t) h = elim h [ ]
Alike-IsAfter earlier (panicked s) (panicked t) r = (refl, refl, r)

pub evictions-append : (xs ys : List Call) → evictions (xs ++ ys) ≡ evictions xs ++ evictions ys
evictions-append [] ys = refl
evictions-append (updated r answer ∷ xs) ys = evictions-append xs ys
evictions-append (evicted e answer ∷ xs) ys = ap (λ es. e ∷ es) (evictions-append xs ys)

module _ (env : Env) (earlier : List Call) where
  IsAfter-RelatesSteps : RelatesSteps env (IsAfter earlier)
  IsAfter-RelatesSteps = record {
    read = λ s t e. (s.request.spec.type, s.request.spec.requesters, rw e refl);
    write = λ f. record { run = λ s t e. rw e (refl, refl) };
    update = record { run = λ s t e. rw e (refl, refl) };
    evict = λ v. record { run = λ s t e. rw e (refl, refl) };
    now = record { run = λ s t e. rw e (refl, refl) };
    get_pod = λ namespace name. record { run = λ s t e. rw e (refl, refl) };
  }

  -- After earlier calls a reconciliation does and returns what it does without them.
  pub reconcile-after_calls :
      (s : State env.World)
      → let x = reconcile_eviction_request env s in
        let y = reconcile_eviction_request env (after_calls earlier s) in
        (result y ≡ result x) × (panics y ≡ panics x) × (final y ≡ after_calls earlier (final x))
  reconcile-after_calls s =
      Alike-IsAfter earlier _ _ ((reconcile_related env _ IsAfter-RelatesSteps).run s _ refl)
