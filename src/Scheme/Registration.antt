-- ===== src/Scheme/Registration.antt =====
-- When the packages initialise, and what their schemes know then.
use k8s_eviction_controller.Prelude.{
  ◌≡◌, ◌↔◌, ◌⊎◌, inl, inr, ◌∙◌, refl, String, none, some, List, [], ◌∷◌, arith, All,
}
use k8s_eviction_controller.Cluster.{Err}
use k8s_eviction_controller.Config.{Made, made, not_made, and_then}
use k8s_eviction_controller.Clientset.{
  Rest, RestSettings, scheme_group_version, set_config_defaults,
}
use k8s_eviction_controller.Scheme.{
  Apimachinery, scheme_builder, add_api_to_scheme, add_clientset_to_scheme, init_scheme,
  ClientScheme, client_scheme, init_fake_scheme, FakeScheme, fake_scheme,
}

-- What is documented of the libraries: a SchemeBuilder runs its functions in order and stops at the
-- first error; a Builder adds the types that were registered with it, under its group and version.
pub record RegistersTypes (a : Apimachinery) : Type 1 where
  pub Knows : a.Scheme → String × String → String → Type 0
  pub add_all-nil : (s : a.Scheme) → a.add_all [] s ≡ made s
  pub add_all-cons :
      (f : a.Scheme → Made a.Scheme) (fs : List (a.Scheme → Made a.Scheme)) (s : a.Scheme)
      → a.add_all (f ∷ fs) s ≡ and_then (f s) (a.add_all fs)
  pub added :
      (version : String × String) (objects : List String) (s t : a.Scheme)
      → a.add_to_scheme (a.register (a.new_builder version) objects) s ≡ made t
      → All (Knows t version) objects

Made-cases : {A : Type 0} (m : Made A) → ((x : A) × (m ≡ made x)) ⊎ ((e : Err) × (m ≡ not_made e))
Made-cases (made x) = inl (x, refl)
Made-cases (not_made e) = inr (e, refl)

module _ (a : Apimachinery) (laws : RegistersTypes a) where
  after_nothing : (m : Made a.Scheme) → and_then m (a.add_all []) ≡ m
  after_nothing (made s) = laws.add_all-nil s
  after_nothing (not_made e) = refl

  -- The scheme of v1's meta types.
  abbrev base : a.Scheme
  base = a.add_to_group_version a.new_scheme ("", "v1")

  inits : a.add_all (add_api_to_scheme a ∷ []) base ≡ add_api_to_scheme a base
  inits = laws.add_all-cons (add_api_to_scheme a) [] base ∙ after_nothing _

  abbrev pub KnowsBoth : a.Scheme → String × String → Type 0
  KnowsBoth s version =
      laws.Knows s version "EvictionRequest" × laws.Knows s version "EvictionRequestList"

  knows : (s : a.Scheme) → add_api_to_scheme a base ≡ made s → KnowsBoth s scheme_group_version
  unfolding add_api_to_scheme scheme_builder
  knows s e = let (one, (list, _)) = laws.added _ _ base s e in (one, list)

  abbrev client_of : a.Scheme → ClientScheme a
  client_of s = record {
    scheme = s;
    codecs = a.new_codecs s;
    parameter_codec = a.new_parameter_codec s;
  }

  abbrev fake_of : a.Scheme → FakeScheme a
  fake_of s = record { scheme = s; codecs = a.new_codecs s }

  schemes :
      (s : a.Scheme)
      → add_api_to_scheme a base ≡ made s
      → (client_scheme a ≡ some (client_of s)) × (fake_scheme a ≡ some (fake_of s))
  unfolding client_scheme init_scheme add_clientset_to_scheme fake_scheme init_fake_scheme
  schemes s e =
      let ran = inits ∙ e in
      (
        rw (client_scheme, init_scheme, add_clientset_to_scheme, ran) refl,
        rw (fake_scheme, init_fake_scheme, ran) refl,
      )

  no_scheme : (e : Err) → add_api_to_scheme a base ≡ not_made e → client_scheme a ≡ none
  unfolding client_scheme init_scheme add_clientset_to_scheme
  no_scheme err e =
      let ran = inits ∙ e in rw (client_scheme, init_scheme, add_clientset_to_scheme, ran) refl

  -- Both packages come up exactly when the builder's types can be added to a scheme with the meta
  -- types of v1; they then have schemes of the same contents and codecs for them, and those know
  -- both types under the group and the version that the typed client asks for.
  pub client_scheme_iff :
      (r : Rest) (c : RestSettings r) (v : ClientScheme a) (f : FakeScheme a)
      → ((client_scheme a ≡ some v) × (fake_scheme a ≡ some f)) ↔ (
          (add_api_to_scheme a (a.add_to_group_version a.new_scheme ("", "v1")) ≡ made v.scheme)
          × (f.scheme ≡ v.scheme)
          × (v.codecs ≡ a.new_codecs v.scheme)
          × (v.parameter_codec ≡ a.new_parameter_codec v.scheme)
          × (f.codecs ≡ a.new_codecs v.scheme)
          × ((version : String × String) × ((set_config_defaults r c).group_version ≡ some version)
              × KnowsBoth v.scheme version))
  unfolding set_config_defaults
  client_scheme_iff r c v f = elim (Made-cases (add_api_to_scheme a base)) [
    | inl (s, e) ↦
        let (client, fake) = schemes s e in
        (
          λ (h, h').
              let client_is : client_of s ≡ v = cc in
              let fake_is : fake_of s ≡ f = cc in
              rw (← client_is, ← fake_is)
                (e, refl, refl, refl, refl, (scheme_group_version, refl, knows s e)),
          λ (added, same, codecs, parameters, fake_codecs, known).
              let scheme_is : s ≡ v.scheme = cc in (ground arith, ground arith),
        )
    | inr (err, e) ↦ (
      λ (h, h'). absurd (let none_made = no_scheme err e in cc),
      λ h. let added = h.0 in absurd (cc),
    )
  ]
