-- ===== src/Informers/Sharing.antt =====
-- The typed informer, the generic one and the lister share one informer.
use k8s_eviction_controller.Prelude.{
  ◌≡◌, ◌≢◌, ◌⊎◌, inl, inr, eq_iff, true, false, Option-cases, arith, Bool-cases,
}
use k8s_eviction_controller.Config.{made, not_made}
use k8s_eviction_controller.Factory.{Types, entry, informer_for}
use k8s_eviction_controller.Informers.{
  Machinery, Factory, GroupVersionResource, eviction_requests_resource, same_resource, no_informer,
  eviction_request_type, eviction_request_informer, for_resource, new_eviction_request_lister,
  new_lister,
}

same_resource_lem :
    (a b : GroupVersionResource)
    → (same_resource a b ≡ true) × (a ≡ b) ⊎ (same_resource a b ≡ false) × (a ≢ b)
same_resource_lem a b = elim (Bool-cases (same_resource a b)) [
  | inl e ↦ inl (
    e,
    ground
        (arith, eq_iff a.group b.group, eq_iff a.version b.version, eq_iff a.resource b.resource),
  )
  | inr e ↦ inr (
    e,
    λ h.
        ground
          (arith, eq_iff a.group b.group, eq_iff a.version b.version, eq_iff a.resource b.resource),
  )
]

module _ (types : Types) (k : Machinery types) where
  -- The generic informer of a resource is made exactly for evictionrequests of the registered group
  -- and version, and is then the informer that the typed path gives; any other resource is
  -- an error and leaves the factory as it was.
  pub for_resource_lem :
      (resource : GroupVersionResource) (f : Factory types k)
      → let (shared, g) = eviction_request_informer types k f in
        ((resource ≡ eviction_requests_resource)
          × (for_resource types k resource f ≡ (
            made (record { informer = shared; resource = (resource.group, resource.resource) }),
            g,
          )))
        ⊎ ((resource ≢ eviction_requests_resource)
            × (for_resource types k resource f ≡ (not_made no_informer, f)))
  unfolding for_resource
  for_resource_lem resource f = elim (same_resource_lem resource eviction_requests_resource) [
    | inl (b, e) ↦ inl (e, ground arith)
    | inr (b, e) ↦ inr (e, ground arith)
  ]

  -- The lister of main.go reads the indexer of the informer that the controller's handlers are
  -- added to, whichever of the two is asked for first.
  pub lister_shares :
      (f : Factory types k)
      → let (l, g) = new_eviction_request_lister types k f in
        let (shared, g') = eviction_request_informer types k g in
        (l ≡ new_lister types k (k.get_indexer shared))
        × (eviction_request_informer types k f ≡ (shared, g'))
        × (new_eviction_request_lister types k g' ≡ (l, g))
  unfolding new_eviction_request_lister eviction_request_informer informer_for
  lister_shares f = elim (Option-cases (entry eviction_request_type f.informers)) [
    | inl e ↦ ground arith
    | inr (i, e) ↦ ground arith
  ]
