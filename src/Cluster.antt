-- ===== src/Cluster.antt =====
-- What the handlers call and do not implement: the pod lister, the EvictionRequest client, the
-- eviction subresource, the clock, `apierrors.IsNotFound` and `sort.Slice`. A world of any type
-- answers; each call may change it, so that whatever the other clients of the API server do between
-- two calls is part of its answers. A handler is a function on the state that it shares with its
-- caller: the world, the object behind its `*EvictionRequest`, and the log of the calls sent to the
-- API server, newest first.
pub mod Runs
pub mod Frame
use k8s_eviction_controller.Prelude.{
  ℕ, String, Bool, true, false, Option, none, some, List, [], ◌∷◌,
}
use k8s_eviction_controller.Api.{EvictionRequest, EvictionRequestStatus, Interceptor}

-- A non-nil Go error: made by code outside this repository, by errors.New, or by fmt.Errorf and %w.
pub data Err : Type 0 where
  remote : String → Err
  message : String → Err
  wrapped : String → Err → Err

-- The fields of corev1.Pod that the code reads.
pub record Pod : Type 0 where
  pub name : String
  pub namespace : String
  pub uid : String

-- metav1.DeleteOptions, in part: the UID that the pod must have for the eviction to be granted.
pub record DeleteOptions : Type 0 where
  pub precondition_uid : Option String

-- policyv1.Eviction.
pub record Eviction : Type 0 where
  pub name : String
  pub namespace : String
  pub delete_options : DeleteOptions

-- The answer of a lister: a pod and a nil error, or an error.
pub data Lookup : Type 0 where
  found : Pod → Lookup
  failed : Err → Lookup

pub record Env : Type 1 where
  pub World : Type 0
  pub get_pod : World → String → String → World × Lookup
  pub update_status : World → EvictionRequest → World × Option Err
  pub evict : World → Eviction → World × Option Err
  pub now : World → World × ℕ
  pub is_not_found : Err → Bool
  pub sort_slice : List Interceptor → (Interceptor → Interceptor → Bool) → List Interceptor

-- A call sent to the API server, with its answer.
pub data Call : Type 0 where
  updated : EvictionRequest → Option Err → Call
  evicted : Eviction → Option Err → Call

pub record State (W : Type 0) : Type 0 where
  pub world : W
  pub request : EvictionRequest
  pub calls : List Call

-- A Go function returns or panics, and leaves the state as it is then.
pub data Exit (W A : Type 0) : Type 0 where
  returned : A → State W → Exit W A
  panicked : State W → Exit W A

abbrev pub M : Type 0 → Type 0 → Type 0
M W A = State W → Exit W A

abbrev pub pure : {W A : Type 0} → A → M W A
pure a s = returned a s

abbrev pub panic : {W A : Type 0} → M W A
panic s = panicked s

infixl 5 ◌>>=◌ ◌>>◌
abbrev pub ◌>>=◌ : {W A B : Type 0} → M W A → (A → M W B) → M W B
◌>>=◌ m f s = elim (m s) [ returned a t ↦ f a t | panicked t ↦ panicked t ]

abbrev pub ◌>>◌ : {W A B : Type 0} → M W A → M W B → M W B
m >> k = m >>= λ _. k

-- Branches of a handler: on a test, on a nil pointer or error, on a lister's answer.
infix 1 when◌then◌otherwise◌
abbrev pub when◌then◌otherwise◌ : {W A : Type 0} → Bool → M W A → M W A → M W A
when◌then◌otherwise◌ true m k s = m s
when◌then◌otherwise◌ false m k s = k s

abbrev pub case_nil : {W A B : Type 0} → Option B → M W A → (B → M W A) → M W A
case_nil none m f s = m s
case_nil (some b) m f s = f b s

abbrev pub case_found : {W A : Type 0} → Lookup → (Pod → M W A) → (Err → M W A) → M W A
case_found (found pod) m f s = m pod s
case_found (failed e) m f s = f e s

abbrev pub case_empty : {W A B : Type 0} → List B → M W A → M W A → M W A
case_empty [] m k s = m s
case_empty (x ∷ xs) m k s = k s

abbrev pub get_request : {W : Type 0} → M W EvictionRequest
get_request s = returned s.request s

-- A write through `evictionRequest.Status`.
abbrev pub modify_status :
    {W : Type 0} → (EvictionRequestStatus → EvictionRequestStatus) → M W (Unit {0})
modify_status f s =
    returned tt (record s { request = record s.request { status = f s.request.status } })

-- The final state, and the value if there is one.
abbrev pub final : {W A : Type 0} → Exit W A → State W
final (returned a s) = s
final (panicked s) = s

abbrev pub panics : {W A : Type 0} → Exit W A → Bool
panics (returned a s) = false
panics (panicked s) = true

-- The result, if there is one.
abbrev pub result : {W A : Type 0} → Exit W A → Option A
result (returned a s) = some a
result (panicked s) = none

-- The evictions that were sent, newest first.
abbrev pub evictions : List Call → List Eviction
evictions [] = []
evictions (updated request answer ∷ calls) = evictions calls
evictions (evicted eviction answer ∷ calls) = eviction ∷ evictions calls

-- The objects that were sent in status updates, newest first.
abbrev pub updates : List Call → List EvictionRequest
updates [] = []
updates (updated request answer ∷ calls) = request ∷ updates calls
updates (evicted eviction answer ∷ calls) = updates calls

module _ (env : Env) where
  -- PodLister.Pods(namespace).Get(name)
  abbrev pub get_pod : String → String → M env.World Lookup
  get_pod namespace name s =
      let answer = env.get_pod s.world namespace name in
      returned answer.1 (record s { world = answer.0 })

  -- EvictionRequests(namespace).UpdateStatus: the object is sent whole, and the one that comes back
  -- is dropped.
  abbrev pub update_status : M env.World (Option Err)
  update_status s =
      let answer = env.update_status s.world s.request in
      returned answer.1
        (record s { world = answer.0; calls = updated s.request answer.1 ∷ s.calls })

  -- Pods(namespace).EvictV1
  abbrev pub evict : Eviction → M env.World (Option Err)
  evict eviction s =
      let answer = env.evict s.world eviction in
      returned answer.1 (record s { world = answer.0; calls = evicted eviction answer.1 ∷ s.calls })

  -- metav1.Now, time.Now
  abbrev pub now : M env.World ℕ
  now s = let answer = env.now s.world in returned answer.1 (record s { world = answer.0 })
