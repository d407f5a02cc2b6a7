-- ===== src/Controller/Election.antt =====
-- `Start` and `registerLifecycleHooks` of pkg/controller/controller.go. The application's lifecycle
-- is the list of its hooks; fx calls OnStart of each in turn, and OnStop of those that were started
-- in the reverse order. leaderelection.RunOrDie is a call of client-go, in a goroutine of its own.
use k8s_eviction_controller.Prelude.{
  ◌*◌, ◌<◌, ◌≡◌, ◌≢◌, refl, String, Bool, true, List, [], ◌∷◌, ◌++◌, arith,
}
use k8s_eviction_controller.Controller.{LeaderElectionConfig, create_leader_election_config}

-- The loops that run with one context, and whether it is cancelled.
pub record Election : Type 0 where
  pub loops : List LeaderElectionConfig
  pub cancelled : Bool

pub record Hook : Type 0 where
  pub on_start : Election → Election
  pub on_stop : Election → Election

-- The hooks work on the election of the context that is made here.
unfoldable pub register_lifecycle_hooks : LeaderElectionConfig → List Hook → List Hook
register_lifecycle_hooks config hooks =
    hooks
    ++ (record {
      on_start = λ e. record e { loops = config ∷ e.loops };
      on_stop = λ e. record e { cancelled = true };
    }
        ∷ [])

-- The argument is the fresh UUID.
unfoldable pub start : String → List Hook → List Hook
unfolding register_lifecycle_hooks
start id hooks = register_lifecycle_hooks (create_leader_election_config id) hooks

-- What leaderelection.NewLeaderElector asks of a config, whose error is a panic of RunOrDie: the
-- lease outlasts the deadline, the deadline 1.2 retry periods, no time is zero, and there is an
-- identity.
pub record IsValid (config : LeaderElectionConfig) : Type 0 where
  pub outlasts : config.renew_deadline < config.duration
  pub retries : 12 * config.retry_period < 10 * config.renew_deadline
  pub positive : 0 < config.retry_period
  pub named : config.lock.identity ≢ ""

-- A controller that is started with a nonempty UUID beside no other hooks and then stopped has run
-- one leader election loop, on a valid config, and cancelled its context.
pub start-IsValid :
    (id : String) (e : Election)
    → id ≢ ""
    → (h : Hook) × (config : LeaderElectionConfig) × (start id [] ≡ h ∷ [])
      × ((h.on_start e).loops ≡ config ∷ e.loops)
      × ((h.on_start e).cancelled ≡ e.cancelled)
      × ((h.on_stop (h.on_start e)).cancelled ≡ true)
      × IsValid config
unfolding start
start-IsValid id e named = (
  _,
  create_leader_election_config id,
  refl,
  refl,
  refl,
  refl,
  record { outlasts = omega arith; retries = omega arith; positive = omega arith; named = named },
)
