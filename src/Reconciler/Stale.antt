-- ===== src/Reconciler/Stale.antt =====
-- Status updates over the retries of one object in memory, on an API server with versions.
use k8s_eviction_controller.Prelude.{◌⊎◌, inl, inr, Option-cases, none, some, List, [], ◌∷◌}
use k8s_eviction_controller.Cluster.{Env, State, Call, updated, evicted, final, update_status}
use k8s_eviction_controller.Cluster.Frame.{IsFrame}
use k8s_eviction_controller.Reconciler.{reconcile_eviction_request}
use k8s_eviction_controller.Reconciler.Frame.{reconcile_kept}
use k8s_eviction_controller.Reconciler.Repeat.{HasVersions}

-- None of the updates in the log was stored.
abbrev pub AllRefused : List Call → Type 0
AllRefused [] = Unit
AllRefused (updated r none ∷ calls) = ⊥
AllRefused (updated r (some e) ∷ calls) = AllRefused calls
AllRefused (evicted e answer ∷ calls) = AllRefused calls

module _ (env : Env) (versions : HasVersions env) where
  open versions use {
    IsStale, after_write, refused, get_pod-stale, evict-stale, now-stale, update-stale,
  }

  abbrev pub HasStale : State env.World → Type 0
  HasStale s = IsStale s.world s.request.metadata

  -- The object is stale, and nothing was stored.
  abbrev Futile : State env.World → Type 0
  Futile s = HasStale s × AllRefused s.calls

  Futile-update : (s : State env.World) → Futile s → Futile (final (update_status env s))
  Futile-update s (stale, refusals) = (
    update-stale s.world s.request s.request.metadata stale,
    elim (Option-cases (env.update_status s.world s.request).1) [
      | inl e ↦ absurd (refused s.world s.request stale e)
      | inr (err, e) ↦ rw e refusals
    ],
  )

  Futile-IsFrame : IsFrame env Futile
  Futile-IsFrame = record {
    write = λ f s p. p;
    update = Futile-update;
    evict = λ e s (stale, refusals). (evict-stale s.world s.request.metadata e stale, refusals);
    now = λ s (stale, refusals). (now-stale s.world s.request.metadata stale, refusals);
    get_pod = λ namespace name s (stale, refusals).
        (get_pod-stale s.world s.request.metadata namespace name stale, refusals);
  }

  -- Nothing was stored, or the object is stale.
  abbrev Spent : State env.World → Type 0
  Spent s = HasStale s ⊎ AllRefused s.calls

  Spent-update : (s : State env.World) → Spent s → Spent (final (update_status env s))
  Spent-update s (inl stale) = inl (update-stale s.world s.request s.request.metadata stale)
  Spent-update s (inr refusals) = elim (Option-cases (env.update_status s.world s.request).1) [
    | inl e ↦ inl (after_write s.world s.request e)
    | inr (err, e) ↦ inr (rw e refusals)
  ]

  map_left : {A B C : Type 0} → (A → B) → A ⊎ C → B ⊎ C
  map_left f (inl a) = inl (f a)
  map_left f (inr c) = inr c

  Spent-IsFrame : IsFrame env Spent
  Spent-IsFrame = record {
    write = λ f s p. p;
    update = Spent-update;
    evict = λ e s p. map_left (evict-stale s.world s.request.metadata e) p;
    now = λ s p. map_left (now-stale s.world s.request.metadata) p;
    get_pod =
        λ namespace name s p. map_left (get_pod-stale s.world s.request.metadata namespace name) p;
  }

  -- A reconciliation that stored an update leaves its object stale, and every later reconciliation
  -- of that object in memory, in a world where it is stale still, stores nothing and leaves it
  -- stale.
  pub retry_stores_nothing :
      (s : State env.World) (later : env.World)
      → let t = final (reconcile_eviction_request env s) in
        let again : State env.World = record t { world = later; calls = [] } in
        AllRefused s.calls
        → ¬ AllRefused t.calls
        → (HasStale t → IsStale later t.request.metadata)
        → HasStale t
          × HasStale (final (reconcile_eviction_request env again))
          × AllRefused (final (reconcile_eviction_request env again)).calls
  retry_stores_nothing s later none_stored stored lasts = (stale, after.0, after.1)
    where
      t : State env.World
      t = final (reconcile_eviction_request env s)

      left_of : {A B : Type 0} → A ⊎ B → ¬ B → A
      left_of (inl a) h = a
      left_of (inr b) h = absurd (h b)

      stale : HasStale t
      stale = left_of ((reconcile_kept env Spent Spent-IsFrame).run s (inr none_stored)) stored

      after :
          Futile (final (reconcile_eviction_request env (record t { world = later; calls = [] })))
      after = (reconcile_kept env Futile Futile-IsFrame).run _ (lasts stale, tt)
