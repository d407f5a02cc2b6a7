-- ===== src/Informers/Terms.antt =====
-- Which informers run, and with which handlers, over the terms of leadership.
use k8s_eviction_controller.Prelude.{
  if◌then◌else◌, ℕ, ◌≡◌, ◌↔◌, refl, ap, ◌∙◌, sym, subst, inl, inr, String, eq_iff, Bool, true,
  false, Option-cases, none, some, List, [], ◌∷◌, map, All, arith,
}
use k8s_eviction_controller.Api.Constants.{default_resync_interval}
use k8s_eviction_controller.Controller.{Controller, start_informers}
use k8s_eviction_controller.Controller.Lifecycle.{start_informers_iff}
use k8s_eviction_controller.Factory.{
  Types, entry, informer_for, start, start_each, all_ended, shutdown,
  new_shared_informer_factory_with_options,
}
use k8s_eviction_controller.Factory.Starting.{wait_for_cache_sync-start}
use k8s_eviction_controller.Informers.{
  Machinery, Factory, eviction_request_type, eviction_request_informer,
  new_filtered_eviction_request_informer, new_eviction_request_informer_factory,
}
use k8s_eviction_controller.Informers.Leading.{
  KubeFactories, Leader, Answers, add_handlers, start_factories, lead, lead_terms,
}

All-map :
    {A : Type 0} (synced : A → Bool) (xs : List (String × A))
    → All (λ (e : String × Bool). e.1 ≡ true) (map (λ (e : String × A). (e.0, synced e.1)) xs)
      ↔ All (λ (e : String × A). synced e.1 ≡ true) xs
All-map synced [] = (λ x. x, λ x. x)
All-map synced ((n, a) ∷ xs) =
    let (to, from) = All-map synced xs in (λ (h, hs). (h, to hs), λ (h, hs). (h, from hs))

synced_iff :
    {A : Type 0} (kube_map : List (String × Bool)) (synced : A → Bool) (xs : List (String × A))
    (c : Controller)
    → ((start_informers
          (record {
            kube = kube_map;
            eviction_request = map (λ (e : String × A). (e.0, synced e.1)) xs;
          })
          c).0
        ≡ true)
      ↔ (All (λ (e : String × Bool). e.1 ≡ true) kube_map
          × All (λ (e : String × A). synced e.1 ≡ true) xs)
synced_iff kube_map synced xs c =
    let (all_iff, opened) =
      start_informers_iff
        (record {
          kube = kube_map;
          eviction_request = map (λ (e : String × _). (e.0, synced e.1)) xs;
        })
        c in
    let (to, from) = All-map synced xs in
    (λ e. let (a, b) = all_iff.0 e in (a, to b), λ (a, b). all_iff.1 (a, from b))

module _ (types : Types) (k : Machinery types) (kube : KubeFactories) where
  open types use {Client, Informer}

  -- The informer is shared and runs on channel `ch`, the only one that does.
  pub record Runs (shared : Informer) (ch : ℕ) (f : Factory types k) : Type 0 where
    pub all : f.informers ≡ (eviction_request_type, shared) ∷ []
    pub started : f.started_informers eviction_request_type ≡ true
    pub runs : f.runs ≡ (shared, ch) ∷ []

  ask-Runs :
      (shared : Informer) (ch : ℕ) (f : Factory types k)
      → Runs shared ch f
      → eviction_request_informer types k f ≡ (shared, f)
  unfolding eviction_request_informer informer_for
  ask-Runs shared ch f r = ground (arith, eq_iff eviction_request_type eviction_request_type)

  start-Runs :
      (shared : Informer) (ch other_ch : ℕ) (f : Factory types k)
      → Runs shared ch f
      → start types other_ch f ≡ f
  unfolding start start_each
  start-Runs shared ch other_ch f r = ground arith

  -- What the handlers are added to in further terms: the informer, where it accepts them.
  abbrev pub added : Informer → List (Answers types k kube) → List Informer → List Informer
  added shared [] handled = handled
  added shared (answers ∷ terms) handled =
      added shared terms (if answers.accepts shared then shared ∷ handled else handled)

  lead-Runs :
      (shared : Informer) (ch : ℕ) (answers : Answers types k kube) (p : Leader types k kube)
      → Runs shared ch p.factory
      → let q = (lead types k kube answers p).1 in
        (q.factory ≡ p.factory)
        × (q.handled ≡ (if answers.accepts shared then shared ∷ p.handled else p.handled))
  unfolding lead add_handlers start_factories
  lead-Runs shared ch answers p r =
      ground
        (arith, ask-Runs shared ch p.factory r, start-Runs shared ch p.next_channel p.factory r)

  lead_terms-Runs :
      (shared : Informer) (ch : ℕ) (terms : List (Answers types k kube)) (p : Leader types k kube)
      → Runs shared ch p.factory
      → let q = lead_terms types k kube terms p in
        (q.factory ≡ p.factory) × (q.handled ≡ added shared terms p.handled)
  unfolding lead_terms
  lead_terms-Runs shared ch [] p r = (refl, refl)
  lead_terms-Runs shared ch (answers ∷ terms) p r =
      let q = (lead types k kube answers p).1 in
      let (same, handled) = lead-Runs shared ch answers p r in
      let (later_same, later) =
        lead_terms-Runs shared ch terms q (subst (Runs shared ch) (sym same) r) in
      (later_same ∙ same, later ∙ ap (added shared terms) handled)

  -- Before the first term: the factory of main.go, which the lister may have been made from.
  abbrev pub shared_informer : Client → Informer
  shared_informer client = k.set_transform none (
      new_filtered_eviction_request_informer types k client "" default_resync_interval
        k.namespace_indexers none)

  one_ended : (b : Bool) → (if b then true else false) ≡ b
  one_ended b = ground arith

  first-Runs :
      (client : Client) (answers : Answers types k kube) (p : Leader types k kube)
      → p.factory ≡ new_eviction_request_informer_factory types k client
      → let q = (lead types k kube answers p).1 in
        let shared = shared_informer client in
        Runs shared p.next_channel q.factory
        × (q.handled ≡ (if answers.accepts shared then shared ∷ p.handled else p.handled))
  unfolding lead add_handlers start_factories start start_each eviction_request_informer
      informer_for new_shared_informer_factory_with_options
  first-Runs client answers p fresh =
      rw fresh (record { all = refl; started = refl; runs = refl }, refl)

  -- Over one or more terms, from the factory that main.go makes, one informer runs: that of all
  -- namespaces with the default resync period, on the channel of the first term; the handlers are
  -- added to it, and to nothing else, in those terms in which it accepts them; and Shutdown returns
  -- exactly when that channel is closed, after which no Start with any channel changes the factory.
  pub terms_run_one_informer :
      (client : Client) (answers : Answers types k kube) (terms : List (Answers types k kube))
      (p : Leader types k kube) (closed : ℕ → Bool) (other_ch : ℕ)
      → p.factory ≡ new_eviction_request_informer_factory types k client
      → let q = lead_terms types k kube (answers ∷ terms) p in
        let (returns, down) = shutdown types closed q.factory in
        (q.factory.runs ≡ (shared_informer client, p.next_channel) ∷ [])
        × (q.handled ≡ added (shared_informer client) (answers ∷ terms) p.handled)
        × (returns ≡ closed p.next_channel)
        × (start types other_ch down ≡ down)
  unfolding lead_terms shutdown start
  terms_run_one_informer client answers terms p closed other_ch fresh =
      let (runs, handled) = first-Runs client answers p fresh in
      let (same, later) = lead_terms-Runs (shared_informer client) p.next_channel terms _ runs in
      let one = ap (λ f. f.runs) same ∙ runs.runs in
      (
        one,
        later ∙ ap (added (shared_informer client) terms) handled,
        ap (all_ended types closed) one ∙ one_ended (closed p.next_channel),
        refl,
      )

  ask_lem :
      (f : Factory types k)
      → let (shared, g) = eviction_request_informer types k f in
        (entry eviction_request_type g.informers ≡ some shared)
        × (g.shutting_down ≡ f.shutting_down)
  unfolding eviction_request_informer informer_for
  ask_lem f = elim (Option-cases (entry eviction_request_type f.informers)) [
    | inl e ↦ ground (arith, eq_iff eviction_request_type eviction_request_type)
    | inr (i, e) ↦ ground arith
  ]

  -- Unless the factory is shutting down, a term reports that all informers have synced exactly when
  -- those of client-go's factory and all that this factory was asked for have, of which the
  -- informer that the handlers are to be added to is one; it has them if it accepts them.
  pub lead_iff :
      (answers : Answers types k kube) (p : Leader types k kube)
      → p.factory.shutting_down ≡ false
      → let (shared, f) = eviction_request_informer types k p.factory in
        let (all_synced, q) = lead types k kube answers p in
        ((all_synced ≡ true) ↔ (
          All
            (λ (e : String × Bool). e.1 ≡ true)
            (kube.wait_for_cache_sync p.next_channel (kube.start p.next_channel p.kube_factory))
          × All (λ (e : String × Informer). answers.synced e.1 ≡ true) f.informers))
        × (entry eviction_request_type f.informers ≡ some shared)
        × (q.handled ≡ (if answers.accepts shared then shared ∷ p.handled else p.handled))
  unfolding lead add_handlers start_factories
  lead_iff answers p up =
      let (shared, f) = eviction_request_informer types k p.factory in
      let (found, same) = ask_lem p.factory in
      let started = wait_for_cache_sync-start types answers.synced p.next_channel f (same ∙ up) in
      (rw started (synced_iff _ answers.synced f.informers _), found, refl)
