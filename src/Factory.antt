-- ===== src/Factory.antt =====
-- pkg/generated/informers/externalversions/factory.go: the shared informer factory. A reflect.Type
-- is the name of the type; clients, transforms, filters and informers are of any types, and a stop
-- channel is a number.
pub mod Starting
use k8s_eviction_controller.Prelude.{
  ℕ, String, ◌==◌, Bool, true, false, Option, none, some, List, [], ◌∷◌, ◌++◌, if◌then◌else◌,
}

-- Assignment to a key of a map.
abbrev pub assign : {A : Type 0} → String → A → (String → A) → String → A
assign k a m x = if k == x then a else m x

-- A map that is ranged over: its entries.
abbrev pub entry : {A : Type 0} → String → List (String × A) → Option A
entry k [] = none
entry k ((x, a) ∷ rest) = if x == k then some a else entry k rest

-- The types of client-go that the factory passes around.
pub record Types : Type 1 where
  pub Client : Type 0
  pub Transform : Type 0
  pub Tweak : Type 0
  pub Informer : Type 0

module _ (types : Types) where
  open types use {Client, Transform, Tweak, Informer}

  -- `runs` are the informers that a goroutine was started for, with the stop channel it was given,
  -- newest first.
  pub record SharedInformerFactory : Type 0 where
    pub client : Client
    pub namespace : String
    pub tweak_list_options : Option Tweak
    pub default_resync : ℕ
    pub custom_resync : String → Option ℕ
    pub transform : Option Transform
    pub informers : List (String × Informer)
    pub started_informers : String → Bool
    pub shutting_down : Bool
    pub runs : List (Informer × ℕ)

  unfoldable pub with_custom_resync_config :
      List (String × ℕ) → SharedInformerFactory → SharedInformerFactory
  with_custom_resync_config [] factory = factory
  with_custom_resync_config ((k, v) ∷ rest) factory =
      with_custom_resync_config rest
        (record factory { custom_resync = assign k (some v) factory.custom_resync })

  abbrev pub with_tweak_list_options : Tweak → SharedInformerFactory → SharedInformerFactory
  with_tweak_list_options tweak factory = record factory { tweak_list_options = some tweak }

  abbrev pub with_namespace : String → SharedInformerFactory → SharedInformerFactory
  with_namespace namespace factory = record factory { namespace = namespace }

  abbrev pub with_transform : Transform → SharedInformerFactory → SharedInformerFactory
  with_transform transform factory = record factory { transform = some transform }

  -- The options are applied from the first to the last.
  abbrev pub apply_options :
      List (SharedInformerFactory → SharedInformerFactory)
      → SharedInformerFactory
      → SharedInformerFactory
  apply_options [] factory = factory
  apply_options (option ∷ options) factory = apply_options options (option factory)

  unfoldable pub new_shared_informer_factory_with_options :
      Client → ℕ → List (SharedInformerFactory → SharedInformerFactory) → SharedInformerFactory
  new_shared_informer_factory_with_options client default_resync options =
      apply_options options (record {
        client = client;
        namespace = "";
        tweak_list_options = none;
        default_resync = default_resync;
        custom_resync = λ k. none;
        transform = none;
        informers = [];
        started_informers = λ k. false;
        shutting_down = false;
        runs = [];
      })

  abbrev pub new_shared_informer_factory : Client → ℕ → SharedInformerFactory
  new_shared_informer_factory client default_resync =
      new_shared_informer_factory_with_options client default_resync []

  abbrev pub new_filtered_shared_informer_factory :
      Client → ℕ → String → Tweak → SharedInformerFactory
  new_filtered_shared_informer_factory client default_resync namespace tweak =
      new_shared_informer_factory_with_options client default_resync
        (with_namespace namespace ∷ with_tweak_list_options tweak ∷ [])

  abbrev pub run_informer : ℕ → String → Informer → SharedInformerFactory → SharedInformerFactory
  run_informer stop_ch informer_type informer f = record f {
    started_informers = assign informer_type true f.started_informers;
    runs = (informer, stop_ch) ∷ f.runs;
  }

  -- The loop of `Start` over the informers.
  unfoldable pub start_each :
      ℕ → List (String × Informer) → SharedInformerFactory → SharedInformerFactory
  start_each stop_ch [] f = f
  start_each stop_ch ((informer_type, informer) ∷ rest) f = start_each stop_ch rest (
      if f.started_informers informer_type
      then f
      else run_informer stop_ch informer_type informer f)

  unfoldable pub start : ℕ → SharedInformerFactory → SharedInformerFactory
  unfolding start_each
  start stop_ch f = if f.shutting_down then f else start_each stop_ch f.informers f

  -- Whether all goroutines have ended: the Run of an informer returns when its stop channel is
  -- closed.
  abbrev pub all_ended : (ℕ → Bool) → List (Informer × ℕ) → Bool
  all_ended closed [] = true
  all_ended closed ((informer, stop_ch) ∷ rest) =
      let others = all_ended closed rest in if closed stop_ch then others else false

  -- Whether it returns, as it waits for the goroutines, and the factory.
  unfoldable pub shutdown : (ℕ → Bool) → SharedInformerFactory → Bool × SharedInformerFactory
  shutdown closed f = (all_ended closed f.runs, record f { shutting_down = true })

  -- The started informers, each with what cache.WaitForCacheSync says of it.
  unfoldable pub sync_each :
      (Informer → Bool) → (String → Bool) → List (String × Informer) → List (String × Bool)
  sync_each synced started [] = []
  sync_each synced started ((informer_type, informer) ∷ rest) =
      let others = sync_each synced started rest in
      if started informer_type then (informer_type, synced informer) ∷ others else others

  unfoldable pub wait_for_cache_sync :
      (Informer → Bool) → SharedInformerFactory → List (String × Bool)
  unfolding sync_each
  wait_for_cache_sync synced f = sync_each synced f.started_informers f.informers

  abbrev pub resync_period : String → SharedInformerFactory → ℕ
  resync_period informer_type f = elim (f.custom_resync informer_type) [
    | none ↦ f.default_resync
    | some period ↦ period
  ]

  -- `set_transform` is SetTransform of the new informer.
  unfoldable pub informer_for :
      (Client → ℕ → Informer)
      → (Option Transform → Informer → Informer)
      → String
      → SharedInformerFactory
      → Informer × SharedInformerFactory
  informer_for new_func set_transform informer_type f = elim (entry informer_type f.informers) [
    | some informer ↦ (informer, f)
    | none ↦
        let informer =
          set_transform f.transform (new_func f.client (resync_period informer_type f)) in
        (informer, record f { informers = (informer_type, informer) ∷ f.informers })
  ]
