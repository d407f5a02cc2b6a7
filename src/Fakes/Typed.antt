-- ===== src/Fakes/Typed.antt =====
-- fake_evictionrequest_client.go and fake_evictionrequest.go of the typed fakes: what client-go's
-- generic fake client of one resource is told.
use k8s_eviction_controller.Prelude.{ℕ, String, Option, none, some}
use k8s_eviction_controller.Clientset.{scheme_group_version}
use k8s_eviction_controller.Informers.{GroupVersionResource, eviction_requests_resource}
use k8s_eviction_controller.Store.{RequestCell, ListCell, Alloc, pure, ◌>>=◌}
use k8s_eviction_controller.DeepCopy.{zero_request}
use k8s_eviction_controller.Fakes.{Testing, FakeClientset}

-- client-go's gentype: a slice of pointers to the elements of a slice, and back.
pub record Gentype : Type 1 where
  pub Pointers : Type 0
  pub to_pointer_slice : Option ℕ → Alloc Pointers
  pub from_pointer_slice : Pointers → Alloc (Option ℕ)

-- `dst.ListMeta = src.ListMeta`
abbrev pub copy_list_meta : ListCell → ListCell → ListCell
copy_list_meta dst src = record dst { resource_version = src.resource_version }

module _ (g : Gentype) where
  abbrev pub items_of : ListCell → Alloc g.Pointers
  items_of list = g.to_pointer_slice list.items

  abbrev pub set_items : ListCell → g.Pointers → Alloc ListCell
  set_items list items = do slice ← g.from_pointer_slice items; pure (record list { items = slice })

module _ (t : Testing) (g : Gentype) where
  -- FakeEvictionrequestV1alpha1 embeds a pointer to the reactors of the clientset.
  pub record FakeTypedClient : Type 0 where
    pub fake : FakeClientset t

  -- The functions that gentype's fake client is given, beside the reactors and the names.
  pub record FakeEvictionRequests : Type 0 where
    pub fake : FakeTypedClient
    pub namespace : String
    pub resource : GroupVersionResource
    pub kind : String × String × String
    pub new_object : RequestCell
    pub new_list : ListCell
    pub copy_meta : ListCell → ListCell → ListCell
    pub get_items : ListCell → Alloc g.Pointers
    pub put_items : ListCell → g.Pointers → Alloc ListCell

  abbrev pub new_fake_eviction_requests : FakeTypedClient → String → FakeEvictionRequests
  new_fake_eviction_requests fake namespace = record {
    fake = fake;
    namespace = namespace;
    resource = eviction_requests_resource;
    kind = (scheme_group_version.0, scheme_group_version.1, "EvictionRequest");
    new_object = zero_request;
    new_list = record { resource_version = 0; items = none };
    copy_meta = copy_list_meta;
    get_items = items_of g;
    put_items = set_items g;
  }

  abbrev pub fake_eviction_requests : FakeTypedClient → String → FakeEvictionRequests
  fake_eviction_requests c namespace = new_fake_eviction_requests c namespace

  -- `EvictionrequestV1alpha1` of the clientset.
  abbrev pub fake_typed : FakeClientset t → FakeTypedClient
  fake_typed c = record { fake = c }

  -- A nil *rest.RESTClient in an interface: the interface is not nil, the pointer in it is.
  abbrev pub fake_rest_client : {RestClient : Type 0} → FakeTypedClient → Option (Option RestClient)
  fake_rest_client c = some none
