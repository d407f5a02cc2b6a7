-- ===== src/Clientset.antt =====
-- pkg/generated/clientset/versioned/clientset.go, and evictionrequest_client.go of its typed
-- clients. client-go's rest, discovery and flowcontrol packages are an interface. A config is
-- passed as a pointer and copied before it is changed, so the caller's stays as it is.
pub mod Creation
use k8s_eviction_controller.Prelude.{
  ℕ, ℤ, pos, ltb_ℤ, String, ◌==◌, Bool, true, false, not, Option, none, some, ◌&&◌, if◌then◌else◌,
}
use k8s_eviction_controller.Cluster.{Err, message}
use k8s_eviction_controller.Config.{Made, made, not_made, and_then}

-- rest.Config, with the fields that the code reads or sets; `Other` are all others.
pub record RestConfig (Limiter Qps Codec Other : Type 0) : Type 0 where
  pub user_agent : String
  pub rate_limiter : Option Limiter
  pub qps : Qps
  pub burst : ℤ
  pub group_version : Option (String × String)
  pub api_path : String
  pub negotiated_serializer : Option Codec
  pub other : Other

-- What client-go provides; `is_positive` is the test `QPS > 0` of a float32.
pub record Rest : Type 1 where
  pub Limiter : Type 0
  pub Qps : Type 0
  pub Codec : Type 0
  pub Other : Type 0
  pub HttpClient : Type 0
  pub RestClient : Type 0
  pub Discovery : Type 0
  pub ParameterCodec : Type 0
  pub is_positive : Qps → Bool
  pub default_user_agent : String
  pub codec : Codec
  pub parameter_codec : ParameterCodec
  pub new_limiter : Qps → ℤ → Limiter
  pub http_client_for : RestConfig Limiter Qps Codec Other → Made HttpClient
  pub rest_client_for : RestConfig Limiter Qps Codec Other → HttpClient → Made RestClient
  pub discovery_for : RestConfig Limiter Qps Codec Other → HttpClient → Made Discovery
  pub discovery_of : RestClient → Discovery

abbrev pub scheme_group_version : String × String
scheme_group_version = ("evictionrequest.coordination.uber.com", "v1alpha1")

abbrev pub burst_required : Err
burst_required =
    message
      "burst is required to be greater than 0 when RateLimiter is not set and QPS is set to greater than 0"

-- A panic on an error.
abbrev pub or_die : {A : Type 0} → Made A → Option A
or_die (made a) = some a
or_die (not_made e) = none

module _ (r : Rest) where
  open r use {RestClient, HttpClient, Discovery}

  abbrev pub RestSettings : Type 0
  RestSettings = RestConfig r.Limiter r.Qps r.Codec r.Other

  abbrev pub with_user_agent : RestSettings → RestSettings
  with_user_agent c = record c {
    user_agent = if c.user_agent == "" then r.default_user_agent else c.user_agent;
  }

  unfoldable pub set_config_defaults : RestSettings → RestSettings
  set_config_defaults c = with_user_agent (record c {
    group_version = some scheme_group_version;
    api_path = "/apis";
    negotiated_serializer = some r.codec;
  })

  -- EvictionrequestV1alpha1Client.
  pub record TypedClient : Type 0 where
    pub rest_client : RestClient

  unfoldable pub typed_for_config_and_client : RestSettings → HttpClient → Made TypedClient
  unfolding set_config_defaults
  typed_for_config_and_client c h =
      and_then (r.rest_client_for (set_config_defaults c) h)
        λ client. made (record { rest_client = client })

  unfoldable pub typed_for_config : RestSettings → Made TypedClient
  unfolding typed_for_config_and_client
  typed_for_config c =
      and_then (r.http_client_for (set_config_defaults c))
        (typed_for_config_and_client (set_config_defaults c))

  abbrev pub typed_for_config_or_die : RestSettings → Option TypedClient
  typed_for_config_or_die c = or_die (typed_for_config c)

  abbrev pub new_typed : RestClient → TypedClient
  new_typed c = record { rest_client = c }

  -- client-go's client of one resource, as newEvictionRequests makes it; its calls are client-go's.
  pub record EvictionRequests : Type 0 where
    pub resource : String
    pub rest_client : RestClient
    pub parameter_codec : r.ParameterCodec
    pub namespace : String

  abbrev pub new_eviction_requests : TypedClient → String → EvictionRequests
  new_eviction_requests c namespace = record {
    resource = "evictionrequests";
    rest_client = c.rest_client;
    parameter_codec = r.parameter_codec;
    namespace = namespace;
  }

  pub record Clientset : Type 0 where
    pub discovery_client : Discovery
    pub evictionrequest_v1alpha1 : TypedClient

  -- The rate limiter that is made when there is none and QPS is positive, or the error.
  unfoldable pub with_rate_limiter : RestSettings → Made RestSettings
  with_rate_limiter c = elim c.rate_limiter [
    | some limiter ↦ made c
    | none ↦
        if r.is_positive c.qps
        then (if ltb_ℤ (pos 0) c.burst
            then made (record c { rate_limiter = some (r.new_limiter c.qps c.burst) })
            else not_made burst_required)
        else made c
  ]

  unfoldable pub new_for_config_and_client : RestSettings → HttpClient → Made Clientset
  unfolding with_rate_limiter
  new_for_config_and_client c h = and_then (with_rate_limiter c) λ config.
      and_then (typed_for_config_and_client config h) λ typed.
        and_then (r.discovery_for config h) λ discovery.
          made (record { discovery_client = discovery; evictionrequest_v1alpha1 = typed })

  unfoldable pub new_for_config : RestSettings → Made Clientset
  unfolding new_for_config_and_client
  new_for_config c =
      and_then (r.http_client_for (with_user_agent c))
        (new_for_config_and_client (with_user_agent c))

  abbrev pub new_for_config_or_die : RestSettings → Option Clientset
  new_for_config_or_die c = or_die (new_for_config c)

  abbrev pub new_clientset : RestClient → Clientset
  new_clientset c = record {
    discovery_client = r.discovery_of c;
    evictionrequest_v1alpha1 = new_typed c;
  }

  -- The interfaces that the clients give. `Discovery` and `RESTClient` of a nil pointer are nil.
  abbrev pub clientset_discovery : Option Clientset → Option Discovery
  clientset_discovery none = none
  clientset_discovery (some c) = some c.discovery_client

  abbrev pub clientset_typed : Clientset → TypedClient
  clientset_typed c = c.evictionrequest_v1alpha1

  abbrev pub typed_rest_client : Option TypedClient → Option RestClient
  typed_rest_client none = none
  typed_rest_client (some c) = some c.rest_client

  abbrev pub eviction_requests : TypedClient → String → EvictionRequests
  eviction_requests c namespace = new_eviction_requests c namespace
