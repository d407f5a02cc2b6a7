-- ===== src/Cluster/Frame.antt =====
-- Properties of the state that every step of a handler keeps, as relations of a state to itself.
use k8s_eviction_controller.Prelude.{◌≡◌, refl, ap, String}
use k8s_eviction_controller.Cluster.Runs.{Alike, Related, RelatesSteps}
use k8s_eviction_controller.Api.{EvictionRequestStatus}
use k8s_eviction_controller.Cluster.{
  Env, Eviction, State, Exit, returned, panicked, M, modify_status, final, get_pod, update_status,
  evict, now,
}

-- `P` survives each call and each write to the status.
pub record IsFrame (env : Env) (P : State env.World → Type 0) : Type 0 where
  pub write :
      (f : EvictionRequestStatus → EvictionRequestStatus) (s : State env.World)
      → P s
      → P (final (modify_status f s))
  pub update : (s : State env.World) → P s → P (final (update_status env s))
  pub evict : (e : Eviction) (s : State env.World) → P s → P (final (evict env e s))
  pub now : (s : State env.World) → P s → P (final (now env s))
  pub get_pod :
      (namespace name : String) (s : State env.World)
      → P s
      → P (final (get_pod env namespace name s))

module _ {W : Type 0} (P : State W → Type 0) where
  -- `m` keeps `P`, also when it panics.
  pub record Keeping {A : Type 0} (m : M W A) : Type 0 where
    pub run : (s : State W) → P s → P (final (m s))

  -- One and the same state, of which `P` holds.
  abbrev pub Same : State W → State W → Type 0
  Same s t = P s × (s ≡ t)

  Alike-final : {A : Type 0} (x y : Exit W A) → Alike Same x y → P (final x)
  Alike-final (returned a s) (returned b t) (e, (p, same)) = p
  Alike-final (returned a s) (panicked t) h = elim h [ ]
  Alike-final (panicked s) (returned b t) h = elim h [ ]
  Alike-final (panicked s) (panicked t) (p, same) = p

  pub Keeping-Related : {A : Type 0} {m : M W A} → Related Same m → Keeping m
  Keeping-Related {m} r = record { run = λ s p. Alike-final (m s) (m s) (r.run s s (p, refl)) }

  -- A step that returns.
  returns :
      {A : Type 0} (m : M W A) (a : State W → A) (f : State W → State W)
      → ((s : State W) → m s ≡ returned (a s) (f s))
      → ((s : State W) → P s → P (f s))
      → Related Same m
  returns m a f e k = record {
    run = λ s t (p, same).
        let left = e s in let right = e t in rw (left, right) (ap a same, (k s p, ap f same));
  }

module _ (env : Env) (P : State env.World → Type 0) (frame : IsFrame env P) where
  pub IsFrame-RelatesSteps : RelatesSteps env (Same P)
  IsFrame-RelatesSteps = record {
    read = λ s t (p, same). (s.request.spec.type, s.request.spec.requesters, rw same refl);
    write = λ f.
        returns P (modify_status f) (λ s. tt) (λ s. final (modify_status f s)) (λ s. refl)
          (frame.write f);
    update =
        returns P (update_status env) (λ s. (env.update_status s.world s.request).1)
          (λ s. final (update_status env s)) (λ s. refl) frame.update;
    evict = λ e.
        returns P (evict env e) (λ s. (env.evict s.world e).1) (λ s. final (evict env e s))
          (λ s. refl) (frame.evict e);
    now =
        returns P (now env) (λ s. (env.now s.world).1) (λ s. final (now env s)) (λ s. refl)
          frame.now;
    get_pod = λ namespace name.
        returns P (get_pod env namespace name) (λ s. (env.get_pod s.world namespace name).1)
          (λ s. final (get_pod env namespace name s)) (λ s. refl) (frame.get_pod namespace name);
  }
