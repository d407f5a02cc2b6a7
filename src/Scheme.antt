-- ===== src/Scheme.antt =====
-- The registration of the API's types: groupversion_info.go of apis/evictionrequest/v1alpha1, and
-- register.go of pkg/generated/clientset/versioned/scheme and of its fake. The initialisation of
-- these packages is what their variables and init functions do, in the order of Go: that of the API
-- package comes first, since the others import it. A codec keeps a pointer to its scheme, so it is
-- given here the scheme as it is at the end.
pub mod Registration
use k8s_eviction_controller.Prelude.{String, Option, none, some, List, [], ◌∷◌}
use k8s_eviction_controller.Clientset.{scheme_group_version, or_die}
use k8s_eviction_controller.Config.{Made}

-- apimachinery's runtime.Scheme, and controller-runtime's scheme.Builder. An object that is
-- registered is named by its Go type; `add_all` is AddToScheme of runtime.SchemeBuilder, a list of
-- functions on a scheme.
pub record Apimachinery : Type 1 where
  pub Scheme : Type 0
  pub Builder : Type 0
  pub Codecs : Type 0
  pub ParameterCodec : Type 0
  pub new_scheme : Scheme
  pub new_builder : String × String → Builder
  pub register : Builder → List String → Builder
  pub add_to_scheme : Builder → Scheme → Made Scheme
  pub add_all : List (Scheme → Made Scheme) → Scheme → Made Scheme
  pub add_to_group_version : Scheme → String × String → Scheme
  pub new_codecs : Scheme → Codecs
  pub new_parameter_codec : Scheme → ParameterCodec

-- schema.GroupResource of a resource of the API.
abbrev pub group_resource : String → String × String
group_resource name = (scheme_group_version.0, name)

module _ (a : Apimachinery) where
  open a use {Scheme, Builder}

  -- `SchemeBuilder` before `init`.
  abbrev pub new_scheme_builder : Builder
  new_scheme_builder = a.new_builder scheme_group_version

  -- `SchemeBuilder` after `init`.
  unfoldable pub scheme_builder : Builder
  scheme_builder = a.register new_scheme_builder ("EvictionRequest" ∷ "EvictionRequestList" ∷ [])

  -- `AddToScheme` of the API package.
  unfoldable pub add_api_to_scheme : Scheme → Made Scheme
  unfolding scheme_builder
  add_api_to_scheme scheme = a.add_to_scheme scheme_builder scheme

  abbrev pub local_scheme_builder : List (Scheme → Made Scheme)
  local_scheme_builder = add_api_to_scheme ∷ []

  -- `AddToScheme` of the clientset.
  unfoldable pub add_clientset_to_scheme : Scheme → Made Scheme
  unfolding add_api_to_scheme
  add_clientset_to_scheme = a.add_all local_scheme_builder

  -- `init`: utilruntime.Must panics on an error.
  unfoldable pub init_scheme : Option Scheme
  unfolding add_clientset_to_scheme
  init_scheme = or_die (add_clientset_to_scheme (a.add_to_group_version a.new_scheme ("", "v1")))

  -- The variables of the package.
  pub record ClientScheme : Type 0 where
    pub scheme : Scheme
    pub codecs : a.Codecs
    pub parameter_codec : a.ParameterCodec

  unfoldable pub client_scheme : Option ClientScheme
  unfolding init_scheme
  client_scheme = elim init_scheme [
    | none ↦ none
    | some s ↦
        some (record {
          scheme = s;
          codecs = a.new_codecs s;
          parameter_codec = a.new_parameter_codec s;
        })
  ]

  -- fake/register.go, which has a scheme of its own and the same functions on it.
  abbrev pub fake_local_scheme_builder : List (Scheme → Made Scheme)
  fake_local_scheme_builder = add_api_to_scheme ∷ []

  unfoldable pub init_fake_scheme : Option Scheme
  unfolding add_api_to_scheme
  init_fake_scheme =
      or_die (a.add_all fake_local_scheme_builder (a.add_to_group_version a.new_scheme ("", "v1")))

  pub record FakeScheme : Type 0 where
    pub scheme : Scheme
    pub codecs : a.Codecs

  unfoldable pub fake_scheme : Option FakeScheme
  unfolding init_fake_scheme
  fake_scheme = elim init_fake_scheme [
    | none ↦ none
    | some s ↦ some (record { scheme = s; codecs = a.new_codecs s })
  ]
