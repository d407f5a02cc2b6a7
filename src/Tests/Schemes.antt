-- ===== src/Tests/Schemes.antt =====
-- The registration of the types on a scheme that keeps one group and version with its types.
use k8s_eviction_controller.Prelude.{
  ◌≡◌, ◌↔◌, ◌⊎◌, ◌++◌, inl, inr, refl, subst, String, some, List, [], ◌∷◌, All,
}
use k8s_eviction_controller.Config.{Made, made, and_then}
use k8s_eviction_controller.Clientset.{set_config_defaults, scheme_group_version}
use k8s_eviction_controller.Scheme.{
  Apimachinery, add_api_to_scheme, ClientScheme, client_scheme, FakeScheme, fake_scheme,
}
use k8s_eviction_controller.Scheme.Registration.{RegistersTypes, KnowsBoth, client_scheme_iff}
use k8s_eviction_controller.Tests.Clients.{local, settings}

abbrev TypeNames : Type 0
TypeNames = (String × String) × List String

abbrev run_all : List (TypeNames → Made TypeNames) → TypeNames → Made TypeNames
run_all [] s = made s
run_all (f ∷ fs) s = and_then (f s) (run_all fs)

abbrev apimachinery : Apimachinery
apimachinery = record {
  Scheme = TypeNames;
  Builder = TypeNames;
  Codecs = List String;
  ParameterCodec = String × String;
  new_scheme = (("", ""), []);
  new_builder = λ version. (version, []);
  register = λ (version, names) objects. (version, names ++ objects);
  add_to_scheme = λ builder scheme. made builder;
  add_all = run_all;
  add_to_group_version = λ (version, names) added. (added, names);
  new_codecs = λ (version, names). names;
  new_parameter_codec = λ (version, names). version;
}

abbrev IsIn : String → List String → Type 0
IsIn x [] = ⊥
IsIn x (y ∷ ys) = (y ≡ x) ⊎ IsIn x ys

abbrev Knows : TypeNames → String × String → String → Type 0
Knows (version, names) version' name = (version ≡ version') × IsIn name names

All-Knows :
    (version : String × String) (xs ys : List String)
    → ((x : String) → IsIn x xs → IsIn x ys)
    → All (Knows (version, ys) version) xs
All-Knows version [] ys f = tt
All-Knows version (x ∷ xs) ys f =
    ((refl, f x (inl refl)), All-Knows version xs ys (λ y h. f y (inr h)))

added_types :
    (version : String × String) (objects : List String) (s t : TypeNames)
    → made (version, objects) ≡ made t
    → All (Knows t version) objects
added_types version objects s t e =
    let same : (version, objects) ≡ t = cc in
    subst (λ u. All (Knows u version) objects) same (All-Knows version objects objects (λ x h. h))

apimachinery-RegistersTypes : RegistersTypes apimachinery
apimachinery-RegistersTypes = record {
  Knows = Knows;
  add_all-nil = λ s. refl;
  add_all-cons = λ f fs s. refl;
  added = added_types;
}

abbrev api_types : TypeNames
api_types = (scheme_group_version, "EvictionRequest" ∷ "EvictionRequestList" ∷ [])

abbrev made_scheme : ClientScheme apimachinery
made_scheme = record {
  scheme = api_types;
  codecs = "EvictionRequest" ∷ "EvictionRequestList" ∷ [];
  parameter_codec = scheme_group_version;
}

abbrev made_fake : FakeScheme apimachinery
made_fake = record { scheme = api_types; codecs = "EvictionRequest" ∷ "EvictionRequestList" ∷ [] }

scheme_made : client_scheme apimachinery ≡ some made_scheme
unfolding client_scheme
scheme_made = refl

client_scheme_iff_example :
    ((client_scheme apimachinery ≡ some made_scheme) × (fake_scheme apimachinery ≡ some made_fake))
    ↔ ((add_api_to_scheme apimachinery (("", "v1"), []) ≡ made api_types)
        × (made_fake.scheme ≡ api_types)
        × (made_scheme.codecs ≡ apimachinery.new_codecs api_types)
        × (made_scheme.parameter_codec ≡ scheme_group_version)
        × (made_fake.codecs ≡ made_scheme.codecs)
        × ((version : String × String) × ((set_config_defaults local settings).group_version
              ≡ some version)
            × KnowsBoth apimachinery apimachinery-RegistersTypes api_types version))
client_scheme_iff_example =
    client_scheme_iff apimachinery apimachinery-RegistersTypes local settings made_scheme made_fake
