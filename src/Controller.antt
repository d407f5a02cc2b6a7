-- ===== src/Controller.antt =====
-- pkg/controller/controller.go: leadership callbacks, event handlers and the stop channel. What the
-- two informer factories report and what the informer delivers are arguments.
pub mod Lifecycle
pub mod Election
pub mod Reaction
pub mod Loop
pub mod Rounds
pub mod Delivery
use k8s_eviction_controller.Prelude.{
  ℕ, suc, ◌*◌, ◌≡◌, String, Bool, true, false, not, Option, none, some, List, [], ◌∷◌,
  if◌then◌else◌, ◌&&◌,
}
use k8s_eviction_controller.Cluster.{Err, M}
use k8s_eviction_controller.Worker.{Obj, request_at, other, Workqueue, Pool, enqueue}
use k8s_eviction_controller.Api.Constants.{second}

abbrev pub lease_name : String
lease_name = "eviction-request-controller"

abbrev pub lease_namespace : String
lease_namespace = "default"

abbrev pub lease_duration : ℕ
lease_duration = 15 * second

abbrev pub lease_renew_deadline : ℕ
lease_renew_deadline = 10 * second

abbrev pub lease_retry_period : ℕ
lease_retry_period = 2 * second

-- A `chan struct{}` that nothing is sent on.
pub data Channel : Type 0 where
  unset open_channel closed_channel : Channel

-- The controller: its stop channel, how many of its event handlers the informer has, and how often
-- the worker pool was started.
pub record Controller : Type 0 where
  pub stop_ch : Channel
  pub handlers : ℕ
  pub workers : ℕ

unfoldable pub new_controller : Controller
new_controller = record { stop_ch = unset; handlers = 0; workers = 0 }

-- Go's `close`: a nil or a closed channel panics.
abbrev pub close : Channel → Option Channel
close unset = none
close open_channel = some closed_channel
close closed_channel = none

-- The loop of `verifyCacheSync` over the map from informer types to flags, with `allSynced`.
verify_from : Bool → List (String × Bool) → Bool
verify_from all_synced [] = all_synced
verify_from all_synced ((informer, synced) ∷ rest) =
    verify_from (if synced then all_synced else false) rest

unfoldable pub verify_cache_sync : List (String × Bool) → Bool
unfolding verify_from
verify_cache_sync sync_map = verify_from true sync_map

-- What the two factories report after they are started.
pub record SyncMaps : Type 0 where
  pub kube : List (String × Bool)
  pub eviction_request : List (String × Bool)

unfoldable pub start_informers : SyncMaps → Controller → Bool × Controller
start_informers maps c =
    let kube_synced = if verify_cache_sync maps.kube then true else false in
    let all_synced = if verify_cache_sync maps.eviction_request then kube_synced else false in
    (all_synced, record c { stop_ch = open_channel })

-- The argument is whether AddEventHandler gave no error. An informer that has stopped refuses the
-- handlers; the code drops the error.
unfoldable pub setup_event_handlers : Bool → Controller → Controller
setup_event_handlers accepted c = record c {
  handlers = if accepted then suc c.handlers else c.handlers;
}

unfoldable pub start_worker : Controller → Controller
start_worker c = record c { workers = suc c.workers }

-- The worker is started whether or not all caches have synced.
unfoldable pub on_started_leading : Bool → SyncMaps → Controller → Controller
unfolding setup_event_handlers start_informers start_worker
on_started_leading accepted maps c =
    let (all_synced, c') = start_informers maps (setup_event_handlers accepted c) in start_worker c'

-- `none` is a panic. The `select` finds out whether the channel is closed.
unfoldable pub on_stopped_leading : Controller → Option Controller
on_stopped_leading c = elim c.stop_ch [
  | unset ↦ some c
  | closed_channel ↦ some c
  | open_channel ↦ elim (close c.stop_ch) [
    | none ↦ none
    | some channel ↦ some (record c { stop_ch = channel })
  ]
]

-- What client-go calls on a change of leadership.
pub record LeaderCallbacks : Type 0 where
  pub started_leading : Bool → SyncMaps → Controller → Controller
  pub stopped_leading : Controller → Option Controller

abbrev pub create_leader_callbacks : LeaderCallbacks
create_leader_callbacks = record {
  started_leading = on_started_leading;
  stopped_leading = on_stopped_leading;
}

pub record LeaseLock : Type 0 where
  pub name : String
  pub namespace : String
  pub identity : String

abbrev pub create_resource_lock : String → LeaseLock
create_resource_lock id = record { name = lease_name; namespace = lease_namespace; identity = id }

pub record LeaderElectionConfig : Type 0 where
  pub lock : LeaseLock
  pub duration : ℕ
  pub renew_deadline : ℕ
  pub retry_period : ℕ
  pub callbacks : LeaderCallbacks

-- The argument is the fresh UUID.
abbrev pub create_leader_election_config : String → LeaderElectionConfig
create_leader_election_config id = record {
  lock = create_resource_lock id;
  duration = lease_duration;
  renew_deadline = lease_renew_deadline;
  retry_period = lease_retry_period;
  callbacks = create_leader_callbacks;
}

-- The event handlers call `Enqueue` of the worker pool.
module _ (w : Workqueue) {W : Type 0} (reconcile : M W (Option Err)) where
  unfoldable pub handle_eviction_request_add : Obj → Pool w.Queue W → Pool w.Queue W
  handle_eviction_request_add (other value) p = p
  handle_eviction_request_add (request_at a) p = enqueue w reconcile (request_at a) p

  unfoldable pub handle_eviction_request_update : Obj → Obj → Pool w.Queue W → Pool w.Queue W
  handle_eviction_request_update (other value) new p = p
  handle_eviction_request_update (request_at a) (other value) p = p
  handle_eviction_request_update (request_at a) (request_at b) p =
      enqueue w reconcile (request_at b) p
