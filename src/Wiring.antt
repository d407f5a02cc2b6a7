-- ===== src/Wiring.antt =====
-- The constructors `New` of the packages of pkg, with newKubeInformerFactory and newPodLister of
-- cmd/main.go, which fx calls to put the program together. Their parameters are records, as in the source; what comes from
-- outside the repository is a Kit. Which value fx passes where is decided by fx, and not modelled.
use k8s_eviction_controller.Prelude.{ℕ, String}
use k8s_eviction_controller.Api.Constants.{default_resync_interval}
use k8s_eviction_controller.Factory.{Types}
use k8s_eviction_controller.Informers.{Machinery, Factory}

-- `Kube` is client-go's informer factory; asking it for the pod lister makes its pod informer.
pub record Kit : Type 1 where
  pub KubeClient : Type 0
  pub Kube : Type 0
  pub PodLister : Type 0
  pub Queue : Type 0
  pub Logger : Type 0
  pub Lifecycle : Type 0
  pub new_kube_factory : KubeClient → ℕ → Kube
  pub pod_lister : Kube → PodLister × Kube
  pub new_queue : String → Queue

module _ (types : Types) (k : Machinery types) (kit : Kit) where
  open types use {Client}
  open kit use {KubeClient, Kube, PodLister, Queue, Logger, Lifecycle}

  abbrev pub new_kube_informer_factory : KubeClient → Kube
  new_kube_informer_factory kube_client = kit.new_kube_factory kube_client default_resync_interval

  abbrev pub new_pod_lister : Kube → PodLister × Kube
  new_pod_lister kube = kit.pod_lister kube

  pub record StatusParams : Type 0 where
    pub eviction_request_client : Client
    pub logger : Logger

  pub record StatusHandler : Type 0 where
    pub eviction_request_client : Client
    pub logger : Logger

  abbrev pub new_status_handler : StatusParams → StatusHandler
  new_status_handler params = record {
    eviction_request_client = params.eviction_request_client;
    logger = params.logger;
  }

  pub record PerformerParams : Type 0 where
    pub pod_lister : PodLister
    pub eviction_request_client : Client
    pub kube_client : KubeClient
    pub status_handler : StatusHandler
    pub logger : Logger

  pub record EvictionPerformer : Type 0 where
    pub pod_lister : PodLister
    pub eviction_request_client : Client
    pub kube_client : KubeClient
    pub status_handler : StatusHandler
    pub logger : Logger

  abbrev pub new_eviction_performer : PerformerParams → EvictionPerformer
  new_eviction_performer params = record {
    pod_lister = params.pod_lister;
    eviction_request_client = params.eviction_request_client;
    kube_client = params.kube_client;
    status_handler = params.status_handler;
    logger = params.logger;
  }

  pub record HandlerParams : Type 0 where
    pub pod_lister : PodLister
    pub eviction_request_client : Client
    pub kube_client : KubeClient
    pub logger : Logger
    pub eviction_performer : EvictionPerformer

  pub record InterceptorHandler : Type 0 where
    pub pod_lister : PodLister
    pub eviction_request_client : Client
    pub kube_client : KubeClient
    pub logger : Logger
    pub eviction_performer : EvictionPerformer

  abbrev pub new_interceptor_handler : HandlerParams → InterceptorHandler
  new_interceptor_handler params = record {
    pod_lister = params.pod_lister;
    eviction_request_client = params.eviction_request_client;
    kube_client = params.kube_client;
    logger = params.logger;
    eviction_performer = params.eviction_performer;
  }

  pub record ReconcilerParams : Type 0 where
    pub pod_lister : PodLister
    pub eviction_request_client : Client
    pub kube_client : KubeClient
    pub logger : Logger
    pub interceptor_handler : InterceptorHandler
    pub eviction_performer : EvictionPerformer

  pub record EvictionReconciler : Type 0 where
    pub pod_lister : PodLister
    pub eviction_request_client : Client
    pub kube_client : KubeClient
    pub logger : Logger
    pub interceptor_handler : InterceptorHandler
    pub eviction_performer : EvictionPerformer

  abbrev pub new_reconciler : ReconcilerParams → EvictionReconciler
  new_reconciler params = record {
    pod_lister = params.pod_lister;
    eviction_request_client = params.eviction_request_client;
    kube_client = params.kube_client;
    logger = params.logger;
    interceptor_handler = params.interceptor_handler;
    eviction_performer = params.eviction_performer;
  }

  pub record WorkerParams : Type 0 where
    pub reconciler : EvictionReconciler
    pub logger : Logger

  pub record WorkerPool : Type 0 where
    pub workqueue : Queue
    pub reconciler : EvictionReconciler
    pub logger : Logger

  abbrev pub new_worker_pool : WorkerParams → WorkerPool
  new_worker_pool params = record {
    workqueue = kit.new_queue "eviction-requests";
    reconciler = params.reconciler;
    logger = params.logger;
  }

  pub record ControllerParams : Type 0 where
    pub lifecycle : Lifecycle
    pub reconciler : EvictionReconciler
    pub worker : WorkerPool
    pub kube_client : KubeClient
    pub eviction_request_client : Client
    pub logger : Logger
    pub eviction_request_informer_factory : Factory types k
    pub kube_informer_factory : Kube

  -- Beside the stop channel, which Controller has.
  pub record EvictionController : Type 0 where
    pub lc : Lifecycle
    pub kube_client : KubeClient
    pub eviction_request_client : Client
    pub logger : Logger
    pub reconciler : EvictionReconciler
    pub worker : WorkerPool
    pub eviction_request_informer_factory : Factory types k
    pub kube_informer_factory : Kube

  abbrev pub new_eviction_controller : ControllerParams → EvictionController
  new_eviction_controller params = record {
    lc = params.lifecycle;
    kube_client = params.kube_client;
    eviction_request_client = params.eviction_request_client;
    reconciler = params.reconciler;
    logger = params.logger;
    worker = params.worker;
    eviction_request_informer_factory = params.eviction_request_informer_factory;
    kube_informer_factory = params.kube_informer_factory;
  }
