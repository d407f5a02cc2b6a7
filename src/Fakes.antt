-- ===== src/Fakes.antt =====
-- pkg/generated/clientset/versioned/fake/clientset_generated.go: the fake clientset on client-go's
-- object tracker. The tracker is a reference, which the reactors keep; the memory that it refers to
-- is passed along.
pub mod Objects
pub mod Typed
use k8s_eviction_controller.Prelude.{String, Bool, true, false, Option, none, some, List, [], ◌∷◌}
use k8s_eviction_controller.Cluster.{Err}
use k8s_eviction_controller.Config.{Made, made, not_made}
use k8s_eviction_controller.Informers.{GroupVersionResource}

-- client-go's testing package: `options_of` is the type assertion to WatchActionImpl, `no_options`
-- the zero ListOptions, `Reaction` what ObjectReaction gives. `Tracker` is a reference to a
-- tracker, `Memory` what the references refer to.
pub record Testing : Type 1 where
  pub Object : Type 0
  pub Tracker : Type 0
  pub Memory : Type 0
  pub Reaction : Type 0
  pub Action : Type 0
  pub ListOptions : Type 0
  pub Watching : Type 0
  pub new_tracker : Memory → Tracker × Memory
  pub add : Tracker → Object → Memory → Made Memory
  pub object_reaction : Tracker → Reaction
  pub no_options : ListOptions
  pub options_of : Action → Option ListOptions
  pub resource_of : Action → GroupVersionResource
  pub namespace_of : Action → String
  pub watch : Tracker → GroupVersionResource → String → ListOptions → Memory → Made Watching

module _ (t : Testing) where
  open t use {Object, Tracker, Memory, Reaction, Action, ListOptions, Watching}

  -- What a watch reactor returns.
  pub record Handled : Type 0 where
    pub handled : Bool
    pub watch : Option Watching
    pub error : Option Err

  abbrev pub watch_options : Action → ListOptions
  watch_options action = elim (t.options_of action) [ none ↦ t.no_options | some options ↦ options ]

  -- The watch reactor that is made with the tracker `o`, at the memory when it is called.
  unfoldable pub watch_reaction : Tracker → Action → Memory → Handled
  watch_reaction o action memory =
      elim (t.watch o (t.resource_of action) (t.namespace_of action) (watch_options action)
        memory) [
          | not_made e ↦ record { handled = false; watch = none; error = some e }
          | made watch ↦ record { handled = true; watch = some watch; error = none }
        ]

  -- The clientset: its tracker, and its reactors by verb and resource, in the order in which they
  -- are asked.
  pub record FakeClientset : Type 0 where
    pub tracker : Tracker
    pub reactors : List (String × String × Reaction)
    pub watch_reactors : List (String × (Action → Memory → Handled))

  -- The loop over the objects; `none` is the panic.
  unfoldable pub add_each : Tracker → List Object → Memory → Option Memory
  add_each o [] memory = some memory
  add_each o (obj ∷ objects) memory = elim (t.add o obj memory) [
    | not_made e ↦ none
    | made memory' ↦ add_each o objects memory'
  ]

  unfoldable pub new_simple_clientset : List Object → Memory → Option (FakeClientset × Memory)
  unfolding add_each watch_reaction
  new_simple_clientset objects memory =
      let (o, with_tracker) = t.new_tracker memory in
      elim (add_each o objects with_tracker) [
        | none ↦ none
        | some with_objects ↦ some (
          record {
            tracker = o;
            reactors = ("*", "*", t.object_reaction o) ∷ [];
            watch_reactors = ("*", watch_reaction o) ∷ [];
          },
          with_objects,
        )
      ]

  -- fakediscovery.FakeDiscovery, on the reactors of the clientset.
  pub record FakeDiscovery : Type 0 where
    pub fake : FakeClientset

  abbrev pub fake_discovery : FakeClientset → FakeDiscovery
  fake_discovery c = record { fake = c }

  abbrev pub fake_tracker : FakeClientset → Tracker
  fake_tracker c = c.tracker
