-- ===== src/Cluster/Runs.antt =====
-- Two runs of a handler from related states: they end alike, if every single write and call does.
use k8s_eviction_controller.Prelude.{
  ◌≡◌, refl, sym, ap, ◌∙◌, subst, Bool, true, false, Option, none, some, List, [], ◌∷◌, String,
}
use k8s_eviction_controller.Api.{EvictionRequest, EvictionRequestStatus, Requester}
use k8s_eviction_controller.Cluster.{
  Env, Err, Pod, Eviction, Lookup, found, failed, State, Exit, returned, panicked, M, pure, panic,
  ◌>>=◌, ◌>>◌, when◌then◌otherwise◌, case_nil, case_found, case_empty, get_request, modify_status,
  get_pod, update_status, evict, now,
}

-- The request with another type and other requesters.
abbrev pub asked_by : String → List Requester → EvictionRequest → EvictionRequest
asked_by type requesters r = record r {
  spec = record r.spec { type = type; requesters = requesters };
}

module _ {W : Type 0} (R : State W → State W → Type 0) where
  -- Both return the same value, or both panic, and the states are related.
  abbrev pub Alike : {A : Type 0} → Exit W A → Exit W A → Type 0
  Alike (returned a s) (returned b t) = (a ≡ b) × R s t
  Alike (panicked s) (panicked t) = R s t
  Alike _ _ = ⊥

  -- From related states `m` ends alike.
  pub record Related {A : Type 0} (m : M W A) : Type 0 where
    pub run : (s t : State W) → R s t → Alike (m s) (m t)

  and_then :
      {A B : Type 0} (x y : Exit W A) (f : A → M W B)
      → Alike x y
      → ((a : A) → Related (f a))
      → Alike
          (elim x as (λ _. Exit W B) [ returned a t ↦ f a t | panicked t ↦ panicked t ])
          (elim y as (λ _. Exit W B) [ returned a t ↦ f a t | panicked t ↦ panicked t ])
  and_then (returned a s) (returned b t) f (e, r) k =
      subst (λ c. Alike (f a s) (f c t)) e ((k a).run s t r)
  and_then (returned a s) (panicked t) f h k = elim h [ ]
  and_then (panicked s) (returned b t) f h k = elim h [ ]
  and_then (panicked s) (panicked t) f r k = r

  pub bind :
      {A B : Type 0} {m : M W A} {f : A → M W B}
      → Related m
      → ((a : A) → Related (f a))
      → Related (m >>= f)
  bind {m} {f} k l = record { run = λ s t r. and_then (m s) (m t) f (k.run s t r) l }

  pub next : {A B : Type 0} {m : M W A} {n : M W B} → Related m → Related n → Related (m >> n)
  next k l = bind k (λ _. l)

  pub pure_related : {A : Type 0} (a : A) → Related (pure a)
  pure_related a = record { run = λ s t r. (refl, r) }

  pub panic_related : {A : Type 0} → Related {A = A} panic
  panic_related = record { run = λ s t r. r }

  pub when_related :
      {A : Type 0} (b : Bool) {m k : M W A}
      → Related m
      → Related k
      → Related (when b then m otherwise k)
  when_related true x y = record { run = λ s t r. x.run s t r }
  when_related false x y = record { run = λ s t r. y.run s t r }

  pub nil_related :
      {A B : Type 0} (o : Option B) {m : M W A} {f : B → M W A}
      → Related m
      → ((b : B) → Related (f b))
      → Related (case_nil o m f)
  nil_related none x y = record { run = λ s t r. x.run s t r }
  nil_related (some b) x y = record { run = λ s t r. (y b).run s t r }

  pub found_related :
      {A : Type 0} (l : Lookup) {m : Pod → M W A} {f : Err → M W A}
      → ((pod : Pod) → Related (m pod))
      → ((e : Err) → Related (f e))
      → Related (case_found l m f)
  found_related (found pod) x y = record { run = λ s t r. (x pod).run s t r }
  found_related (failed e) x y = record { run = λ s t r. (y e).run s t r }

  pub empty_related :
      {A B : Type 0} (xs : List B) {m k : M W A}
      → Related m
      → Related k
      → Related (case_empty xs m k)
  empty_related [] x y = record { run = λ s t r. x.run s t r }
  empty_related (b ∷ xs) x y = record { run = λ s t r. y.run s t r }

-- The steps that handlers are made of. The objects may differ in the type and the requesters, which
-- no handler reads.
pub record RelatesSteps (env : Env) (R : State env.World → State env.World → Type 0) : Type 0 where
  pub read :
      (s t : State env.World)
      → R s t
      → (type : String) × (requesters : List Requester) × (t.request
          ≡ asked_by type requesters s.request)
  pub write : (f : EvictionRequestStatus → EvictionRequestStatus) → Related R (modify_status f)
  pub update : Related R (update_status env)
  pub evict : (e : Eviction) → Related R (evict env e)
  pub now : Related R (now env)
  pub get_pod : (namespace name : String) → Related R (get_pod env namespace name)

-- A handler that reads the object, and neither its type nor its requesters.
pub read_then :
    (env : Env) (R : State env.World → State env.World → Type 0) {A : Type 0}
    → RelatesSteps env R
    → (f : EvictionRequest → M env.World A)
    → ((r : EvictionRequest) (type : String) (requesters : List Requester)
        → f (asked_by type requesters r) ≡ f r)
    → ((r : EvictionRequest) → Related R (f r))
    → Related R (get_request >>= f)
read_then env R steps f same related = record {
  run = λ s t r.
      let (type, requesters, e) = steps.read s t r in
      let alike = ap f e ∙ same s.request type requesters in
      subst (λ m. Alike R (f s.request s) (m t)) (sym alike) ((related s.request).run s t r);
}
