-- ===== src/Reconciler/Requesters.antt =====
-- A reconciliation reads neither the requesters of a request nor its type.
use k8s_eviction_controller.Prelude.{◌≡◌, refl, ap, String, List, ◌∷◌}
use k8s_eviction_controller.Api.{EvictionRequest, Requester}
use k8s_eviction_controller.Cluster.{Env, State, Exit, returned, panicked, final, result, evictions}
use k8s_eviction_controller.Cluster.Runs.{asked_by, Alike, RelatesSteps}
use k8s_eviction_controller.Reconciler.{reconcile_eviction_request}
use k8s_eviction_controller.Reconciler.Frame.{reconcile_related}

-- What is documented of the status subresource: an update of it does not read the spec that it is
-- sent.
abbrev pub IgnoresSpec : Env → Type 0
IgnoresSpec env =
    (w : env.World) (r : EvictionRequest) (type : String) (requesters : List Requester)
    → env.update_status w (asked_by type requesters r) ≡ env.update_status w r

module _ (env : Env) (ignores : IgnoresSpec env) (type : String) (requesters : List Requester) where
  -- The two states differ in what was asked, and by whom, alone.
  abbrev pub IsAskedLike : State env.World → State env.World → Type 0
  IsAskedLike s t =
      (t.world ≡ s.world)
      × (t.request ≡ asked_by type requesters s.request)
      × (evictions t.calls ≡ evictions s.calls)

  IsAskedLike-RelatesSteps : RelatesSteps env IsAskedLike
  IsAskedLike-RelatesSteps = record {
    read = λ s t (world, request, sent). (type, requesters, request);
    write =
        λ f. record { run = λ s t (world, request, sent). (refl, (world, rw request refl, sent)) };
    update = record {
      run = λ s t (world, request, sent).
          let same = ignores s.world s.request type requesters in
          rw (world, request, same) (refl, (refl, refl, sent));
    };
    evict = λ e. record {
      run = λ s t (world, request, sent). rw world (refl, (refl, request, ap (λ es. e ∷ es) sent));
    };
    now = record { run = λ s t (world, request, sent). rw world (refl, (refl, request, sent)) };
    get_pod = λ namespace name. record {
      run = λ s t (world, request, sent). rw world (refl, (refl, request, sent));
    };
  }

  Alike-IsAskedLike :
      {A : Type 0} (x y : Exit env.World A)
      → Alike IsAskedLike x y
      → (result y ≡ result x)
        × ((final y).world ≡ (final x).world)
        × ((final y).request.status ≡ (final x).request.status)
        × (evictions (final y).calls ≡ evictions (final x).calls)
  Alike-IsAskedLike (returned a s) (returned b t) (e, (world, request, sent)) =
      (rw e, world, rw request refl, sent)
  Alike-IsAskedLike (returned a s) (panicked t) h = elim h [ ]
  Alike-IsAskedLike (panicked s) (returned b t) h = elim h [ ]
  Alike-IsAskedLike (panicked s) (panicked t) (world, request, sent) =
      (refl, world, rw request refl, sent)

  -- If updates of the status do not read the spec: with another type and other requesters, none
  -- included, a reconciliation ends with the same result, or panics too, leaves the same world and
  -- the same status, and sends the same evictions.
  pub requesters_ignored :
      (s : State env.World)
      → let x = reconcile_eviction_request env s in
        let y =
          reconcile_eviction_request env
            (record s { request = asked_by type requesters s.request }) in
        (result y ≡ result x)
        × ((final y).world ≡ (final x).world)
        × ((final y).request.status ≡ (final x).request.status)
        × (evictions (final y).calls ≡ evictions (final x).calls)
  requesters_ignored s =
      Alike-IsAskedLike _ _
        ((reconcile_related env IsAskedLike IsAskedLike-RelatesSteps).run s _ (refl, refl, refl))
