-- ===== src/Clientset/Creation.antt =====
-- When the clients are made, and on which configuration.
use k8s_eviction_controller.Prelude.{
  ap, Option-cases, ◌≡◌, ◌≢◌, ◌↔◌, ◌⊎◌, ◌<ℤ◌, pos, refl, inl, inr, eq_iff, true, false, none, some,
  arith,
}
use k8s_eviction_controller.Config.{Made, made, not_made, and_then}
use k8s_eviction_controller.Clientset.{
  Rest, RestSettings, with_user_agent, set_config_defaults, typed_for_config_and_client,
  typed_for_config, Clientset, with_rate_limiter, new_for_config_and_client, new_for_config,
}

pub made-and_then :
    {A B : Type 0} (m : Made A) (f : A → Made B) (b : B)
    → and_then m f ≡ made b
    → (a : A) × (m ≡ made a) × (f a ≡ made b)
made-and_then (made a) f b e = (a, refl, e)
made-and_then (not_made err) f b e = cc

module _ (r : Rest) where
  open r use {HttpClient}

  defaults_again :
      (c : RestSettings r)
      → set_config_defaults r (set_config_defaults r c) ≡ set_config_defaults r c
  unfolding set_config_defaults
  defaults_again c = ground (arith, eq_iff c.user_agent "", eq_iff r.default_user_agent "")

  with_user_agent-named : (c : RestSettings r) → c.user_agent ≢ "" → with_user_agent r c ≡ c
  with_user_agent-named c named = ground (arith, eq_iff c.user_agent "")

  -- NewForConfig of the typed client is NewForConfigAndClient with the HTTP client of the
  -- configuration with its defaults; that of the clientset is NewForConfigAndClient with the HTTP
  -- client of the same configuration, if that names a user agent.
  pub new_for_config_equiv :
      (c : RestSettings r)
      → c.user_agent ≢ ""
      → (typed_for_config r c
          ≡ and_then
              (r.http_client_for (set_config_defaults r c))
              (typed_for_config_and_client r c))
        × (new_for_config r c ≡ and_then (r.http_client_for c) (new_for_config_and_client r c))
  unfolding new_for_config typed_for_config
  new_for_config_equiv c named = (
    ap
        (λ d.
          and_then (r.http_client_for (set_config_defaults r c))
            λ h. and_then (r.rest_client_for d h) λ client. made (record { rest_client = client }))
        (defaults_again c),
    ap (λ d. and_then (r.http_client_for d) (new_for_config_and_client r d))
        (with_user_agent-named c named),
  )

  -- `limited` is `c`, with a limiter where one has to be made.
  abbrev pub IsLimited : RestSettings r → RestSettings r → Type 0
  IsLimited c limited =
      ((l : _) × (c.rate_limiter ≡ some l) × (limited ≡ c))
      ⊎ ((c.rate_limiter ≡ none) × (r.is_positive c.qps ≡ false) × (limited ≡ c))
      ⊎ ((c.rate_limiter ≡ none)
          × (r.is_positive c.qps ≡ true)
          × (pos 0 <ℤ c.burst)
          × (limited ≡ record c { rate_limiter = some (r.new_limiter c.qps c.burst) }))

  with_rate_limiter_iff :
      (c limited : RestSettings r) → (with_rate_limiter r c ≡ made limited) ↔ IsLimited c limited
  unfolding with_rate_limiter
  with_rate_limiter_iff c limited = elim (Option-cases c.rate_limiter) [
    | inl e ↦ ground arith
    | inr (l, e) ↦ ground arith
  ]

  -- The clientset is made exactly when the HTTP client is, on the configuration with a user agent;
  -- the rate can be limited (a positive QPS without a limiter needs a positive burst); and the REST
  -- and discovery clients are, on the limited configuration, the first one with its defaults.
  pub new_for_config_iff :
      (c : RestSettings r) (cs : Clientset r)
      → (new_for_config r c ≡ made cs) ↔ (
          (h : HttpClient) × (limited : RestSettings r) × (r.http_client_for (with_user_agent r c)
            ≡ made h)
          × IsLimited (with_user_agent r c) limited
          × (r.rest_client_for (set_config_defaults r limited) h
              ≡ made cs.evictionrequest_v1alpha1.rest_client)
          × (r.discovery_for limited h ≡ made cs.discovery_client))
  unfolding new_for_config typed_for_config_and_client
  new_for_config_iff c cs = (
    λ e.
        let (h, http, e1) = made-and_then (r.http_client_for (with_user_agent r c)) _ cs e in
        let (limited, rate, e2) =
          made-and_then (with_rate_limiter r (with_user_agent r c)) _ cs e1 in
        let (typed, e3, e4) = made-and_then (typed_for_config_and_client r limited h) _ cs e2 in
        let (client, rest, e5) =
          made-and_then (r.rest_client_for (set_config_defaults r limited) h) _ typed e3 in
        let (discovery, disc, e6) = made-and_then (r.discovery_for limited h) _ cs e4 in
        (
          h,
          limited,
          http,
          (with_rate_limiter_iff (with_user_agent r c) limited).0 rate,
          ground (arith, rest),
          ground (arith, disc),
        ),
    λ (h, limited, http, rate, rest, disc).
        rw (http, (with_rate_limiter_iff (with_user_agent r c) limited).1 rate, rest, disc) refl,
  )
