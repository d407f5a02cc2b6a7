-- ===== src/Tests/Clients.antt =====
-- The theorems on the clientset at concrete values.
use k8s_eviction_controller.Prelude.{
  ℕ, ℤ, pos, ltb, ◌≡◌, ◌↔◌, refl, String, ◌==◌, Option, none, some, if◌then◌else◌,
}
use k8s_eviction_controller.Cluster.{message}
use k8s_eviction_controller.Config.{made, not_made}
use k8s_eviction_controller.Clientset.{
  Rest, RestSettings, with_user_agent, set_config_defaults, Clientset, new_for_config,
  burst_required,
}
use k8s_eviction_controller.Clientset.Creation.{IsLimited, new_for_config_iff}

-- The number of a QPS in thousandths. A client is named by the path and the user agent of its
-- configuration, and by the burst of its limiter.
abbrev pub local : Rest
local = record {
  Limiter = ℤ;
  Qps = ℕ;
  Codec = String;
  Other = String;
  HttpClient = String;
  RestClient = String × String × Option ℤ;
  Discovery = String × Option ℤ;
  is_positive = λ q. ltb 0 q;
  default_user_agent = "controller/v0";
  ParameterCodec = String;
  parameter_codec = "query";
  codec = "json";
  new_limiter = λ q burst. burst;
  http_client_for = λ c. if c.other == "" then not_made (message "no host") else made c.other;
  rest_client_for = λ c h. made (c.api_path, c.user_agent, c.rate_limiter);
  discovery_for = λ c h. made (h, c.rate_limiter);
  discovery_of = λ (path, agent, limiter). (path, limiter);
}

abbrev pub settings : RestSettings local
settings = record {
  user_agent = "drainer";
  rate_limiter = none;
  qps = 5000;
  burst = pos 10;
  group_version = none;
  api_path = "";
  negotiated_serializer = none;
  other = "localhost";
}

abbrev made_clientset : Clientset local
made_clientset = record {
  discovery_client = ("localhost", some (pos 10));
  evictionrequest_v1alpha1 = record { rest_client = ("/apis", "drainer", some (pos 10)) };
}

no_burst : new_for_config local (record settings { burst = pos 0 }) ≡ not_made burst_required
unfolding new_for_config
no_burst = refl

new_for_config_iff_example : (new_for_config local settings ≡ made made_clientset) ↔ (
    (h : String) × (limited : RestSettings local) × (local.http_client_for
        (with_user_agent local settings)
      ≡ made h)
    × IsLimited local (with_user_agent local settings) limited
    × (local.rest_client_for (set_config_defaults local limited) h
        ≡ made made_clientset.evictionrequest_v1alpha1.rest_client)
    × (local.discovery_for limited h ≡ made made_clientset.discovery_client))
new_for_config_iff_example = new_for_config_iff local settings made_clientset
