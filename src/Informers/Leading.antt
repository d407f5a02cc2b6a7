-- ===== src/Informers/Leading.antt =====
-- `onStartedLeading` of pkg/controller/controller.go on the two informer factories themselves:
-- Controller has what the factories report as an argument, here the factory of the repository
-- reports it. client-go's factory is an interface, and a new channel is the next number.
use k8s_eviction_controller.Prelude.{ℕ, suc, String, Bool, List, [], ◌∷◌, if◌then◌else◌}
use k8s_eviction_controller.Controller.{
  Controller, setup_event_handlers, start_informers, start_worker,
}
use k8s_eviction_controller.Factory.{Types, start, wait_for_cache_sync}
use k8s_eviction_controller.Informers.{Machinery, Factory, eviction_request_informer}

-- client-go's informers.SharedInformerFactory.
pub record KubeFactories : Type 1 where
  pub Kube : Type 0
  pub start : ℕ → Kube → Kube
  pub wait_for_cache_sync : ℕ → Kube → List (String × Bool)

module _ (types : Types) (k : Machinery types) (kube : KubeFactories) where
  open types use {Informer}

  -- The controller with what it points to; `handled` are the informers that took its
  -- handlers, newest first.
  pub record Leader : Type 0 where
    pub controller : Controller
    pub kube_factory : kube.Kube
    pub factory : Factory types k
    pub handled : List Informer
    pub next_channel : ℕ

  -- What client-go answers in one term: whether AddEventHandler of an informer gives no error, and
  -- what cache.WaitForCacheSync says of each informer.
  pub record Answers : Type 0 where
    pub accepts : Informer → Bool
    pub synced : Informer → Bool

  unfoldable pub add_handlers : (Informer → Bool) → Leader → Leader
  add_handlers accepts p =
      let (informer, f) = eviction_request_informer types k p.factory in
      record p {
        controller = setup_event_handlers (accepts informer) p.controller;
        factory = f;
        handled = if accepts informer then informer ∷ p.handled else p.handled;
      }

  unfoldable pub start_factories : (Informer → Bool) → Leader → Bool × Leader
  start_factories synced p =
      let kube_factory = kube.start p.next_channel p.kube_factory in
      let f = start types p.next_channel p.factory in
      let (all_synced, c) =
        start_informers
          (record {
            kube = kube.wait_for_cache_sync p.next_channel kube_factory;
            eviction_request = wait_for_cache_sync types synced f;
          })
          p.controller in
      (
        all_synced,
        record p {
          controller = c;
          kube_factory = kube_factory;
          factory = f;
          next_channel = suc p.next_channel;
        },
      )

  -- A term of leadership begins; the flag is whether all informers have synced.
  unfoldable pub lead : Answers → Leader → Bool × Leader
  unfolding add_handlers start_factories
  lead answers p =
      let (all_synced, q) = start_factories answers.synced (add_handlers answers.accepts p) in
      (all_synced, record q { controller = start_worker q.controller })

  -- One term after the other.
  unfoldable pub lead_terms : List Answers → Leader → Leader
  unfolding lead
  lead_terms [] p = p
  lead_terms (answers ∷ terms) p = lead_terms terms (lead answers p).1
