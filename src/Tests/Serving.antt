-- ===== src/Tests/Serving.antt =====
-- A cluster that keeps an object: it takes a status update that carries the current version, and
-- gives the object another version.
use k8s_eviction_controller.Prelude.{
  ℕ, suc, ◌≡◌, ◌≢◌, ◌<◌, refl, ap, eq_iff, Bool, Option, none, some, leb, ◌&&◌, arith,
  if◌then◌else◌,
}
use k8s_eviction_controller.Api.{EvictionRequest}
use k8s_eviction_controller.Cluster.{Env, Err, remote, Pod, found}
use k8s_eviction_controller.Interceptor.Priority.{SortsSlices}
use k8s_eviction_controller.Reconciler.Repeat.{HasVersions}
use k8s_eviction_controller.Reconciler.Server.{IsWrite, Serves}
use k8s_eviction_controller.Tests.Memory.{look_up, is_not_found, sort_by, memory-SortsSlices}

pub record Serving : Type 0 where
  pub pod : Option Pod
  pub clock : ℕ
  pub object : EvictionRequest

abbrev pub is_current : Serving → EvictionRequest → Bool
is_current w r =
    leb w.object.metadata.resource_version r.metadata.resource_version
    && leb r.metadata.resource_version w.object.metadata.resource_version

abbrev pub take : Serving → EvictionRequest → Serving × Option Err
take w r =
    if is_current w r
    then (
      record w {
        object = record w.object {
          metadata = record w.object.metadata {
            resource_version = suc w.object.metadata.resource_version;
          };
          status = r.status;
        };
      },
      none,
    )
    else (w, some (remote "Conflict"))

abbrev pub serving : Env
serving = record {
  World = Serving;
  get_pod = λ w namespace name. (w, look_up w.pod namespace name);
  update_status = take;
  evict = λ w eviction. (record w { pod = none }, none);
  now = λ w. (w, w.clock);
  is_not_found = is_not_found;
  sort_slice = λ xs less. sort_by less xs;
}

pub serving-SortsSlices : SortsSlices serving
serving-SortsSlices = record {
  perm = memory-SortsSlices.perm;
  ordered = memory-SortsSlices.ordered;
}

take_stale :
    (w : Serving) (r : EvictionRequest)
    → (take w r).1 ≡ none
    → r.metadata.resource_version < (take w r).0.object.metadata.resource_version
take_stale w r h = ground arith

take_refused :
    (w : Serving) (r : EvictionRequest)
    → r.metadata.resource_version < w.object.metadata.resource_version
    → (take w r).1 ≢ none
take_refused w r h = ground arith

take_still_stale :
    (w : Serving) (r : EvictionRequest) (version : ℕ)
    → version < w.object.metadata.resource_version
    → version < (take w r).0.object.metadata.resource_version
take_still_stale w r version h = ground arith

pub serving-HasVersions : HasVersions serving
serving-HasVersions = record {
  IsStale = λ w m. m.resource_version < w.object.metadata.resource_version;
  after_write = take_stale;
  refused = take_refused;
  update-stale = λ w r m h. take_still_stale w r m.resource_version h;
  get_pod-stale = λ w m a b h. h;
  evict-stale = λ w m e h. h;
  now-stale = λ w m h. h;
}

pub take_current :
    (w : Serving) (r : EvictionRequest)
    → r.metadata ≡ w.object.metadata
    → ((take w r).1 ≡ none) × IsWrite w.object r.status (take w r).0.object
take_current w r e =
    let same = ap (λ m. m.resource_version) e in
    (ground arith, (suc w.object.metadata.resource_version, ground arith))

pub take_keeps :
    (w : Serving) (r : EvictionRequest) → (take w r).1 ≢ none → (take w r).0.object ≡ w.object
take_keeps w r h = ground arith

pub take-pod : (w : Serving) (r : EvictionRequest) → (take w r).0.pod ≡ w.pod
take-pod w r = ground arith

pub look_up_own :
    (w : Serving) (pod : Pod) → w.pod ≡ some pod → look_up w.pod pod.namespace pod.name ≡ found pod
look_up_own w pod e = ground (arith, eq_iff pod.namespace pod.namespace, eq_iff pod.name pod.name)

-- It keeps its object as an API server does.
abbrev pub server : Serves serving
server = record {
  stored = λ w. w.object;
  Lists = λ w pod. w.pod ≡ some pod;
  get_pod-Lists = look_up_own;
  update-current = take_current;
  update-refused = take_keeps;
  get_pod-stored = λ w a b. refl;
  now-stored = λ w. refl;
  evict-stored = λ w e. refl;
  update-Lists = λ w r pod there. rw (take-pod w r) there;
  get_pod-keeps = λ w a b pod there. there;
  now-Lists = λ w pod there. there;
}
