-- ===== src/Tests/Programs.antt =====
-- The fake clientset on trackers of names.
use k8s_eviction_controller.Prelude.{
  ℕ, length, ◌≡◌, ◌↔◌, refl, String, ◌==◌, none, some, List, [], ◌∷◌, if◌then◌else◌,
}
use k8s_eviction_controller.Cluster.{message}
use k8s_eviction_controller.Config.{made, not_made}
use k8s_eviction_controller.Informers.{eviction_requests_resource}
use k8s_eviction_controller.Fakes.{
  Testing, FakeClientset, watch_reaction, add_each, new_simple_clientset,
}
use k8s_eviction_controller.Fakes.Objects.{Adds, new_simple_clientset_iff}

-- The memory is the names in the order of the trackers that they were added to: there is one. A
-- tracker refuses the empty name.
abbrev testing : Testing
testing = record {
  Object = String;
  Tracker = ℕ;
  Memory = List (ℕ × String);
  Reaction = ℕ;
  Action = String;
  ListOptions = String;
  Watching = String;
  new_tracker = λ m. (length m, m);
  add = λ o obj m. if obj == "" then not_made (message "no name") else made ((o, obj) ∷ m);
  object_reaction = λ o. o;
  no_options = "";
  options_of = λ action. none;
  resource_of = λ action. eviction_requests_resource;
  namespace_of = λ action. "prod";
  watch = λ o resource namespace options m. made namespace;
}

abbrev fake : FakeClientset testing
fake = record {
  tracker = 0;
  reactors = ("*", "*", 0) ∷ [];
  watch_reactors = ("*", watch_reaction testing 0) ∷ [];
}

nameless : new_simple_clientset testing ("drain-web" ∷ "" ∷ []) [] ≡ none
unfolding new_simple_clientset add_each
nameless = refl

abbrev added : List (ℕ × String)
added = (0, "drain-db") ∷ (0, "drain-web") ∷ []

new_simple_clientset_iff_example :
    (new_simple_clientset testing ("drain-web" ∷ "drain-db" ∷ []) [] ≡ some (fake, added)) ↔ (
      Adds testing 0 [] ("drain-web" ∷ "drain-db" ∷ []) added
      × (fake.tracker ≡ 0)
      × (fake.reactors ≡ ("*", "*", 0) ∷ [])
      × (fake.watch_reactors ≡ ("*", watch_reaction testing 0) ∷ []))
new_simple_clientset_iff_example =
    new_simple_clientset_iff testing ("drain-web" ∷ "drain-db" ∷ []) [] added fake
