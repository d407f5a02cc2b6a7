-- ===== src/Config.antt =====
-- pkg/config/clients.go: the clients, from KUBECONFIG. The three constructors are the function
-- variables of the package; their values, and the value of the environment variable, are arguments.
use k8s_eviction_controller.Prelude.{◌≡◌, ◌≢◌, ◌↔◌, String, ◌==◌, eq_iff, arith, if◌then◌else◌}
use k8s_eviction_controller.Cluster.{Err, message}

-- What a constructor returns: a value and a nil error, or an error.
pub data Made (A : Type 0) : Type 0 where
  made : A → Made A
  not_made : Err → Made A

abbrev missing_kubeconfig : Err
missing_kubeconfig = message "KUBECONFIG environment variable is not set"

abbrev pub and_then : {A B : Type 0} → Made A → (A → Made B) → Made B
and_then (made a) f = f a
and_then (not_made e) f = not_made e

module _ {Config Client KubeClient : Type 0} (build_config : String → Made Config)
    (new_client : Config → Made Client) (new_kube_client : Config → Made KubeClient) where
  -- The fields of `Result`.
  pub record Clients : Type 0 where
    pub kube_client : KubeClient
    pub eviction_request_client : Client
    pub config : Config

  unfoldable pub new_clients : String → Made Clients
  new_clients path =
      if path == ""
      then not_made missing_kubeconfig
      else and_then (build_config path) λ config. and_then (new_client config) λ client.
        and_then (new_kube_client config) λ kube.
          made (record { kube_client = kube; eviction_request_client = client; config = config })

  -- The clients are made exactly when the path is not empty and all three constructors succeed,
  -- both clients on the configuration that was built.
  pub new_clients_iff :
      (path : String) (c : Clients)
      → (new_clients path ≡ made c) ↔ (
          (path ≢ "")
          × (build_config path ≡ made c.config)
          × (new_client c.config ≡ made c.eviction_request_client)
          × (new_kube_client c.config ≡ made c.kube_client))
  unfolding new_clients
  new_clients_iff path c = ground (arith, eq_iff path "")
