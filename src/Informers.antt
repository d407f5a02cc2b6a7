-- ===== src/Informers.antt =====
-- The typed informers of pkg/generated/informers/externalversions: evictionrequest/interface.go,
-- evictionrequest/v1alpha1, generic.go; and the providers of cmd/main.go that use them. The factory
-- that an informer points to is passed along and returned. client-go's informers and the calls of
-- the client are an interface; a call that is to be made is a value.

pub mod Sharing
pub mod Leading
pub mod Terms
use k8s_eviction_controller.Prelude.{
  ℕ, String, ◌==◌, Bool, true, false, Option, none, some, List, [], ◌∷◌, if◌then◌else◌, ◌&&◌,
}
use k8s_eviction_controller.Api.Constants.{default_resync_interval}
use k8s_eviction_controller.Cluster.{Err, message}
use k8s_eviction_controller.Clientset.{scheme_group_version}
use k8s_eviction_controller.Config.{Made, made, not_made}
use k8s_eviction_controller.Factory.{
  Types, SharedInformerFactory, new_shared_informer_factory, informer_for,
}

-- cache.ListWatch
pub record ListWatch (Context ListOptions Listing Watching : Type 0) : Type 0 where
  pub list_func : ListOptions → Listing
  pub watch_func : ListOptions → Watching
  pub list_with_context_func : Context → ListOptions → Listing
  pub watch_func_with_context : Context → ListOptions → Watching

-- What client-go and the typed client provide: `list` and `watch` are the calls of the client in a
-- namespace, `tweak` what a function on ListOptions does.
pub record Machinery (types : Types) : Type 1 where
  pub Context : Type 0
  pub ListOptions : Type 0
  pub Listing : Type 0
  pub Watching : Type 0
  pub Indexers : Type 0
  pub Indexer : Type 0
  pub background : Context
  pub namespace_indexers : Indexers
  pub tweak : types.Tweak → ListOptions → ListOptions
  pub list : types.Client → String → Context → ListOptions → Listing
  pub watch : types.Client → String → Context → ListOptions → Watching
  pub new_shared_index_informer :
      ListWatch Context ListOptions Listing Watching → String → ℕ → Indexers → types.Informer
  pub set_transform : Option types.Transform → types.Informer → types.Informer
  pub get_indexer : types.Informer → Indexer

-- The reflect.Type of *EvictionRequest.
abbrev pub eviction_request_type : String
eviction_request_type = "EvictionRequest"

-- schema.GroupVersionResource
pub record GroupVersionResource : Type 0 where
  pub group : String
  pub version : String
  pub resource : String

abbrev pub eviction_requests_resource : GroupVersionResource
eviction_requests_resource = record {
  group = scheme_group_version.0;
  version = scheme_group_version.1;
  resource = "evictionrequests";
}

abbrev pub same_resource : GroupVersionResource → GroupVersionResource → Bool
same_resource a b = a.group == b.group && a.version == b.version && a.resource == b.resource

abbrev pub no_informer : Err
no_informer = message "no informer found for"

module _ (types : Types) (k : Machinery types) where
  open types use {Client, Tweak, Informer}
  open k use {ListOptions, Indexers, Indexer}

  abbrev pub Factory : Type 0
  Factory = SharedInformerFactory types

  abbrev pub tweaked : Option Tweak → ListOptions → ListOptions
  tweaked none options = options
  tweaked (some t) options = k.tweak t options

  unfoldable pub new_filtered_eviction_request_informer :
      Client → String → ℕ → Indexers → Option Tweak → Informer
  new_filtered_eviction_request_informer client namespace resync_period indexers
        tweak_list_options =
      k.new_shared_index_informer
        (record {
          list_func =
              λ options. k.list client namespace k.background (tweaked tweak_list_options options);
          watch_func =
              λ options. k.watch client namespace k.background (tweaked tweak_list_options options);
          list_with_context_func =
              λ ctx options. k.list client namespace ctx (tweaked tweak_list_options options);
          watch_func_with_context =
              λ ctx options. k.watch client namespace ctx (tweaked tweak_list_options options);
        })
        eviction_request_type resync_period indexers

  unfoldable pub new_eviction_request_informer : Client → String → ℕ → Indexers → Informer
  unfolding new_filtered_eviction_request_informer
  new_eviction_request_informer client namespace resync_period indexers =
      new_filtered_eviction_request_informer client namespace resync_period indexers none

  -- evictionRequestInformer, group and version: the same fields beside the factory.
  pub record EvictionRequestInformer : Type 0 where
    pub namespace : String
    pub tweak_list_options : Option Tweak

  pub record Version : Type 0 where
    pub namespace : String
    pub tweak_list_options : Option Tweak

  pub record Group : Type 0 where
    pub namespace : String
    pub tweak_list_options : Option Tweak

  abbrev pub new_group : String → Option Tweak → Group
  new_group n t = record { namespace = n; tweak_list_options = t }

  abbrev pub new_version : String → Option Tweak → Version
  new_version n t = record { namespace = n; tweak_list_options = t }

  -- The method of the factory.
  abbrev pub evictionrequest : Factory → Group
  evictionrequest f = new_group f.namespace f.tweak_list_options

  abbrev pub v1alpha1 : Group → Version
  v1alpha1 g = new_version g.namespace g.tweak_list_options

  abbrev pub eviction_requests : Version → EvictionRequestInformer
  eviction_requests v = record {
    namespace = v.namespace;
    tweak_list_options = v.tweak_list_options;
  }

  abbrev pub default_informer : EvictionRequestInformer → Client → ℕ → Informer
  default_informer i client resync_period =
      new_filtered_eviction_request_informer client i.namespace resync_period k.namespace_indexers
        i.tweak_list_options

  abbrev pub informer : EvictionRequestInformer → Factory → Informer × Factory
  informer i f = informer_for types (default_informer i) k.set_transform eviction_request_type f

  -- pkg/generated/listers: a lister of client-go on the indexer, for one resource.
  pub record EvictionRequestLister : Type 0 where
    pub indexer : Indexer
    pub resource : String × String

  pub record EvictionRequestNamespaceLister : Type 0 where
    pub indexer : Indexer
    pub resource : String × String
    pub namespace : String

  abbrev pub new_lister : Indexer → EvictionRequestLister
  new_lister indexer = record {
    indexer = indexer;
    resource = (scheme_group_version.0, "evictionrequest");
  }

  abbrev pub in_namespace : EvictionRequestLister → String → EvictionRequestNamespaceLister
  in_namespace l namespace = record {
    indexer = l.indexer;
    resource = l.resource;
    namespace = namespace;
  }

  abbrev pub lister : EvictionRequestInformer → Factory → EvictionRequestLister × Factory
  lister i f = let (shared, g) = informer i f in (new_lister (k.get_indexer shared), g)

  -- `f.Evictionrequest().V1alpha1().EvictionRequests().Informer()`
  unfoldable pub eviction_request_informer : Factory → Informer × Factory
  eviction_request_informer f = informer (eviction_requests (v1alpha1 (evictionrequest f))) f

  pub record GenericInformer : Type 0 where
    pub informer : Informer
    pub resource : String × String

  abbrev pub generic_lister : GenericInformer → Indexer × (String × String)
  generic_lister g = (k.get_indexer g.informer, g.resource)

  unfoldable pub for_resource : GroupVersionResource → Factory → Made GenericInformer × Factory
  unfolding eviction_request_informer
  for_resource resource f =
      let (shared, g) = eviction_request_informer f in
      if same_resource resource eviction_requests_resource
      then (made (record { informer = shared; resource = (resource.group, resource.resource) }), g)
      else (not_made no_informer, f)

  abbrev pub new_eviction_request_informer_factory : Client → Factory
  new_eviction_request_informer_factory client =
      new_shared_informer_factory types client default_resync_interval

  unfoldable pub new_eviction_request_lister : Factory → EvictionRequestLister × Factory
  new_eviction_request_lister f = lister (eviction_requests (v1alpha1 (evictionrequest f))) f
