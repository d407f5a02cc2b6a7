-- ===== src/Controller/Lifecycle.antt =====
-- The stop channel and the worker pool over any sequence of leadership events, and the cache
-- test.
use k8s_eviction_controller.Prelude.{
  ℕ, suc, ◌+◌, ◌≡◌, ◌↔◌, refl, String, Bool, true, false, Option, none, some, List, [], ◌∷◌, All,
  arith, if◌then◌else◌,
}
use k8s_eviction_controller.Controller.{
  Channel, unset, open_channel, closed_channel, Controller, SyncMaps, verify_from,
  verify_cache_sync, start_informers, create_leader_callbacks, setup_event_handlers, start_worker,
  on_started_leading, on_stopped_leading,
}

verify_from_iff :
    (b : Bool) (m : List (String × Bool))
    → (verify_from b m ≡ true) ↔ ((b ≡ true) × All (λ e. e.1 ≡ true) m)
unfolding verify_from
verify_from_iff b [] = ground arith
verify_from_iff b ((informer, synced) ∷ rest) =
    ground (arith, verify_from_iff (if synced then b else false) rest)

-- Starting the informers reports success exactly when every informer of both factories has synced;
-- the stop channel is then a new, open one in either case.
pub start_informers_iff :
    (maps : SyncMaps) (c : Controller)
    → let (all_synced, c') = start_informers maps c in
      ((all_synced ≡ true)
        ↔ (All (λ e. e.1 ≡ true) maps.kube × All (λ e. e.1 ≡ true) maps.eviction_request))
      × (c'.stop_ch ≡ open_channel)
unfolding start_informers verify_cache_sync
start_informers_iff maps c = (
  ground (arith, verify_from_iff true maps.kube, verify_from_iff true maps.eviction_request),
  refl,
)

-- client-go calls OnStartedLeading in a goroutine of its own, so OnStoppedLeading can come between
-- the parts of it, before them or after them.
pub data Event : Type 0 where
  -- setupEventHandlers, with whether the informer took the handlers
  handlers_added : Bool → Event
  -- startInformers
  informers_started : SyncMaps → Event
  -- the worker pool
  worker_started : Event
  -- OnStoppedLeading
  stopped : Event

-- The events one after the other; `none` is a panic.
pub run : List Event → Controller → Option Controller
run [] c = some c
run (handlers_added accepted ∷ events) c = run events (setup_event_handlers accepted c)
run (informers_started maps ∷ events) c = run events (start_informers maps c).1
run (worker_started ∷ events) c = run events (start_worker c)
run (stopped ∷ events) c = elim (create_leader_callbacks.stopped_leading c) [
  | none ↦ none
  | some c' ↦ run events c'
]

-- The parts of OnStartedLeading with nothing between them.
abbrev pub whole : Bool → SyncMaps → List Event → List Event
whole accepted maps events =
    handlers_added accepted ∷ informers_started maps ∷ worker_started ∷ events

run-whole :
    (accepted : Bool) (maps : SyncMaps) (events : List Event) (c : Controller)
    → run (whole accepted maps events) c
      ≡ run events (create_leader_callbacks.started_leading accepted maps c)
unfolding run on_started_leading
run-whole accepted maps events c = refl

-- The starts of the worker pool.
abbrev pub starts : List Event → ℕ
starts [] = 0
starts (handlers_added accepted ∷ events) = starts events
starts (informers_started maps ∷ events) = starts events
starts (worker_started ∷ events) = suc (starts events)
starts (stopped ∷ events) = starts events

-- How often the informer took the handlers.
abbrev pub acceptances : List Event → ℕ
acceptances [] = 0
acceptances (handlers_added accepted ∷ events) =
    if accepted then suc (acceptances events) else acceptances events
acceptances (informers_started maps ∷ events) = acceptances events
acceptances (worker_started ∷ events) = acceptances events
acceptances (stopped ∷ events) = acceptances events

-- Whether startInformers came after the last OnStoppedLeading; `b` if neither came.
abbrev pub opened : Bool → List Event → Bool
opened b [] = b
opened b (handlers_added accepted ∷ events) = opened b events
opened b (informers_started maps ∷ events) = opened true events
opened b (worker_started ∷ events) = opened b events
opened b (stopped ∷ events) = opened false events

abbrev pub is_open : Channel → Bool
is_open unset = false
is_open open_channel = true
is_open closed_channel = false

stopped_lem :
    (c : Controller)
    → (c' : Controller) × (on_stopped_leading c ≡ some c')
      × (is_open c'.stop_ch ≡ false)
      × (c'.workers ≡ c.workers)
      × (c'.handlers ≡ c.handlers)
unfolding on_stopped_leading
stopped_lem c = by_channel c.stop_ch refl
  where
    by_channel :
        (ch : Channel)
        → c.stop_ch ≡ ch
        → (c' : Controller) × (on_stopped_leading c ≡ some c')
          × (is_open c'.stop_ch ≡ false)
          × (c'.workers ≡ c.workers)
          × (c'.handlers ≡ c.handlers)
    by_channel unset e = (c, ground arith, ground arith, refl, refl)
    by_channel open_channel e =
        (record c { stop_ch = closed_channel }, ground arith, refl, refl, refl)
    by_channel closed_channel e = (c, ground arith, ground arith, refl, refl)

-- In whatever order the parts of OnStartedLeading and calls of OnStoppedLeading come one after the
-- other, none panics: no nil or closed channel is ever closed. At the end the stop channel is open
-- exactly if the informers were started after the last OnStoppedLeading; the worker pool was started
-- as often as OnStartedLeading came to it, and the handlers were added as often as the informer took
-- them.
pub run_total :
    (events : List Event) (c : Controller)
    → (c' : Controller) × (run events c ≡ some c')
      × (is_open c'.stop_ch ≡ opened (is_open c.stop_ch) events)
      × (c'.workers ≡ starts events + c.workers)
      × (c'.handlers ≡ acceptances events + c.handlers)
unfolding run setup_event_handlers start_informers start_worker
run_total [] c = (c, refl, refl, omega arith, omega arith)
run_total (handlers_added accepted ∷ events) c =
    let (c', e, channel, workers, handlers) = run_total events (setup_event_handlers accepted c) in
    (c', e, channel, workers, ground arith)
run_total (informers_started maps ∷ events) c = run_total events (start_informers maps c).1
run_total (worker_started ∷ events) c =
    let (c', e, channel, workers, handlers) = run_total events (start_worker c) in
    (c', e, channel, omega arith, handlers)
run_total (stopped ∷ events) c =
    let (d, stops, shut, same_workers, same_handlers) = stopped_lem c in
    let (c', e, channel, workers, handlers) = run_total events d in
    (c', rw (stops, run) e, rw shut at channel, omega arith, omega arith)
