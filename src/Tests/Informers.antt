-- ===== src/Tests/Informers.antt =====
-- The informer factory, the typed informers and the terms of leadership on one type of object, and
-- their theorems there.
use k8s_eviction_controller.Prelude.{
  leb, ℕ, suc, ◌≡◌, ◌↔◌, refl, String, ◌<>◌, Bool, true, false, some, [], ◌∷◌, All,
}
use k8s_eviction_controller.Api.Constants.{default_resync_interval}
use k8s_eviction_controller.Controller.{new_controller}
use k8s_eviction_controller.Factory.{
  Types, new_shared_informer_factory_with_options, entry, shutdown, informer_for, start, start_each,
}
use k8s_eviction_controller.Informers.{
  Machinery, Factory, eviction_request_type, eviction_request_informer,
  new_eviction_request_informer_factory, new_filtered_eviction_request_informer,
}
use k8s_eviction_controller.Informers.Leading.{KubeFactories, Leader, Answers, lead, lead_terms}
use k8s_eviction_controller.Informers.Terms.{shared_informer, terms_run_one_informer, lead_iff}

-- An informer is its resync period, with what it lists for the options "all".
abbrev pub types : Types
types = record { Client = String; Transform = String; Tweak = String; Informer = ℕ × String }

-- A call is written out as its namespace and its options.
abbrev pub machinery : Machinery types
machinery = record {
  Context = Bool;
  ListOptions = String;
  Listing = String;
  Watching = String;
  Indexers = Bool;
  Indexer = String;
  background = false;
  namespace_indexers = true;
  tweak = λ t options. t;
  list = λ client namespace ctx options. namespace <> "/" <> options;
  watch = λ client namespace ctx options. options;
  new_shared_index_informer =
      λ list_watch type_name resync_period indexers. (resync_period, list_watch.list_func "all");
  set_transform = λ transform informer. informer;
  get_indexer = λ informer. informer.1;
}

abbrev factory : Factory types machinery
factory = new_eviction_request_informer_factory types machinery "client"

-- client-go's factory has one informer, which syncs.
abbrev kube : KubeFactories
kube = record {
  Kube = ℕ;
  start = λ stop_ch started. suc started;
  wait_for_cache_sync = λ stop_ch started. ("Pod", true) ∷ [];
}

abbrev leader : Leader types machinery kube
leader = record {
  controller = new_controller;
  kube_factory = 0;
  factory = factory;
  handled = [];
  next_channel = 5;
}

-- A term in which the informer takes the handlers and syncs, and one in which it has stopped.
abbrev running : Answers types machinery kube
running = record { accepts = λ informer. true; synced = λ informer. true }

abbrev refusing : Answers types machinery kube
refusing = record { accepts = λ informer. false; synced = λ informer. true }

abbrev shared : ℕ × String
shared = (default_resync_interval, "/all")

-- The informer of the first term, on channel 5, is the only one that is run in three terms.
three_terms :
    (lead_terms types machinery kube (running ∷ refusing ∷ refusing ∷ []) leader).factory.runs
    ≡ (shared, 5) ∷ []
unfolding lead_terms lead eviction_request_informer start start_each informer_for
    new_shared_informer_factory_with_options new_filtered_eviction_request_informer
three_terms = refl

-- The channel of the first term is closed.
abbrev first_closed : ℕ → Bool
first_closed ch = leb ch 5

terms_run_one_informer_example :
    let q = lead_terms types machinery kube (running ∷ refusing ∷ []) leader in
    let (returns, down) = shutdown types first_closed q.factory in
    (q.factory.runs ≡ (shared_informer types machinery kube "client", 5) ∷ [])
    × (q.handled ≡ shared_informer types machinery kube "client" ∷ [])
    × (returns ≡ true)
    × (start types 9 down ≡ down)
terms_run_one_informer_example =
    terms_run_one_informer types machinery kube "client" running (refusing ∷ []) leader first_closed
      9 refl

lead_iff_example :
    let (i, f) = eviction_request_informer types machinery factory in
    let (all_synced, q) = lead types machinery kube running leader in
    ((all_synced ≡ true) ↔ (
      All (λ (e : String × Bool). e.1 ≡ true) (("Pod", true) ∷ [])
      × All (λ (e : String × (ℕ × String)). running.synced e.1 ≡ true) f.informers))
    × (entry eviction_request_type f.informers ≡ some i)
    × (q.handled ≡ i ∷ [])
unfolding new_shared_informer_factory_with_options
lead_iff_example = lead_iff types machinery kube running leader refl
