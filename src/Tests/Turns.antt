-- ===== src/Tests/Turns.antt =====
-- The control loop turn by turn, on the cluster that keeps an object.
use k8s_eviction_controller.Prelude.{
  ℕ, ◌≤◌, ◌*◌, ◌≡◌, ◌++◌, inr, [], refl, Option, none, some, String, Bool, true, false, arith,
}
use k8s_eviction_controller.Api.Constants.{allow, second}
use k8s_eviction_controller.Interceptor.{is_unset}
use k8s_eviction_controller.Worker.{Pool, passed, pool_of, new_pool}
use k8s_eviction_controller.Controller.Loop.{after_update, event_is_turn}
use k8s_eviction_controller.Controller.Rounds.{Watched, RoundEvicts, rounds_evict}
use k8s_eviction_controller.Tests.Queue.{Fifo, fifo, fifo-HandsOut, fifo-idle}
use k8s_eviction_controller.Reconciler.{reconcile_eviction_request}
use k8s_eviction_controller.Reconciler.Server.{turn}
use k8s_eviction_controller.Reconciler.Beginning.{StoresPolicy, StoresHighest, untouched_turns}
use k8s_eviction_controller.Tests.Requests.{
  web, two, pod_reference, request_of, spec_of, status_of, text-ne,
}
use k8s_eviction_controller.Tests.Handlers.{two-ne, two-HasClasses}
use k8s_eviction_controller.Tests.Serving.{
  Serving, serving, serving-SortsSlices, serving-HasVersions, server,
}

abbrev with_status : String → Option String → Bool → Option ℕ → Serving
with_status policy class completed heartbeat = record {
  pod = some web;
  clock = 5000 * second;
  object =
      request_of (spec_of (some pod_reference) two) (status_of policy class completed heartbeat);
}

abbrev untouched : Serving
untouched = with_status "" none false none

abbrev handed_over : Serving
handed_over = with_status allow (some "fast.example.com") true none

abbrev overdue : Serving
overdue = with_status allow (some "fast.example.com") false (some (1000 * second))

untouched_turns_example :
    StoresPolicy serving serving-SortsSlices serving-HasVersions server web untouched
    × StoresHighest serving serving-SortsSlices serving-HasVersions server web
        (turn serving server untouched).world
unfolding is_unset
untouched_turns_example =
    untouched_turns serving serving-SortsSlices serving-HasVersions server web untouched
      (record { reference = refl; namespace = refl; listed = refl })
      (record { policy = refl; unselected = refl; listed = two-ne })

-- The object as the informer holds it, in the cluster where its first interceptor has completed.
abbrev pool : Pool Fifo Serving
pool = new_pool fifo (reconcile_eviction_request serving) (λ a. handed_over.object) 2 handed_over

event_is_turn_example :
    let t = after_update fifo serving 0 1 pool in
    (t ≡ passed true (pool_of t))
    × ((pool_of t).world ≡ (turn serving server handed_over).world)
    × ((pool_of t).calls ≡ (turn serving server handed_over).calls ++ [])
    × ((pool_of t).heap 2 ≡ (turn serving server handed_over).request)
event_is_turn_example =
    event_is_turn fifo serving serving-SortsSlices server 0 1 "drain-web" pool refl refl refl
      (λ e. cc)

-- The informer holds the object of the cluster where the active interceptor is overdue.
abbrev watched : Watched fifo serving server
watched = record {
  seen = 1;
  pool = new_pool fifo (reconcile_eviction_request serving) (λ a. overdue.object) 2 overdue;
}

rounds_evict_example :
    (k : ℕ) × (k ≤ 2)
    × RoundEvicts fifo serving server fifo-HandsOut serving-SortsSlices web k watched
rounds_evict_example =
    rounds_evict fifo serving server fifo-HandsOut serving-SortsSlices web watched
      "fast.example.com" fifo-idle
      (inr (record {
        refers = record { reference = refl; namespace = refl; listed = refl };
        policy = text-ne _ _ refl;
        active = record { listed = two-ne; class = refl; named = text-ne _ _ refl; running = refl };
        classes = two-HasClasses;
        seconds = 1800;
        heartbeat = 1000 * second;
        small = omega arith;
        deadline = refl;
        last_seen = refl;
        late = omega arith;
      }))
