-- ===== src/Examples/Failover.antt =====
-- A registry of two providers, and a chain of three drivers (provider/resolver.go and
-- provider/failover.go).
use go_hydaelyn.Prelude.{
  ℕ, ◌≡◌, refl, Option, none, some, List, [], ◌∷◌, Text, Result, ok, err, if◌then◌else◌, false, All,
  inl, inr,
}
use go_hydaelyn.Message.Content.{is_empty}
use go_hydaelyn.Provider.{Metadata}
use go_hydaelyn.Provider.Resolver.{resolve, as_resolver, new_registry}
use go_hydaelyn.Provider.Resolver.Lookup.{resolve_registry, last_such, serves, serves_named}
use go_hydaelyn.Provider.Failover.{
  ProviderStream, Backend, Place, FallbackError, selected, fallback_stream,
}
use go_hydaelyn.Provider.Failover.Choices.{Choice, fallback_opens}

abbrev small : Text
small = 115 ∷ []

abbrev large : Text
large = 108 ∷ []

abbrev vendor : Text → List Text → Metadata
vendor name models = record { name = name; models = models; version = [] }

abbrev first_vendor : Metadata
first_vendor = vendor (97 ∷ []) (small ∷ large ∷ [])

abbrev second_vendor : Metadata
second_vendor = vendor (98 ∷ []) (large ∷ [])

abbrev vendors : List (Option Metadata)
vendors = some first_vendor ∷ none ∷ some second_vendor ∷ []

abbrev same : Metadata → Metadata
same m = m

last_wins :
    resolve same (some (as_resolver same (new_registry same vendors))) [] large ≡ some second_vendor
unfolding resolve go_hydaelyn.Provider.Resolver.driver go_hydaelyn.Prelude.Assoc.get new_registry
    go_hydaelyn.Provider.Resolver.register_all go_hydaelyn.Provider.Resolver.register
    go_hydaelyn.Provider.Resolver.index_models go_hydaelyn.Prelude.Assoc.put
    go_hydaelyn.Prelude.text_eq
last_wins = refl

named_wins :
    resolve same (some (as_resolver same (new_registry same vendors))) (97 ∷ []) large
    ≡ some first_vendor
unfolding resolve go_hydaelyn.Provider.Resolver.driver_for go_hydaelyn.Prelude.Assoc.get
    new_registry go_hydaelyn.Provider.Resolver.register_all go_hydaelyn.Provider.Resolver.register
    go_hydaelyn.Provider.Resolver.index_models go_hydaelyn.Prelude.Assoc.put
    go_hydaelyn.Prelude.text_eq go_hydaelyn.Provider.Resolver.provider_model_key
named_wins = refl

resolve_registry_example :
    resolve same (some (as_resolver same (new_registry same vendors))) (97 ∷ []) large ≡ (
      if is_empty {A = ℕ} (97 ∷ [])
      then last_such (serves same large) vendors
      else last_such (serves_named same (97 ∷ []) large) vendors)
resolve_registry_example =
    resolve_registry same (97 ∷ []) refl vendors large (refl, (tt, (refl, tt)))

abbrev down : Metadata → Backend ℕ
down m = record { metadata = m; opens = λ model. err (100 ∷ []) }

abbrev up : Metadata → Backend ℕ
up m = record { metadata = m; opens = λ model. ok (record { body = 7; identity = none }) }

abbrev chain : List (Place ℕ)
chain =
    record { ctx = none; backend = some (down first_vendor) }
    ∷ record { ctx = none; backend = none }
    ∷ record { ctx = none; backend = some (up second_vendor) }
    ∷ []

second_serves :
    fallback_stream large chain
    ≡ ok (record { body = 7; identity = some (record { provider = second_vendor; model = large }) })
unfolding fallback_stream go_hydaelyn.Provider.Failover.try_drivers
    go_hydaelyn.Provider.Failover.identify_stream
second_serves = refl

fallback_opens_example :
    (c : Choice large chain) × (fallback_stream large chain
      ≡ ok (selected c.backend large c.stream))
fallback_opens_example =
    fallback_opens large chain (refl, (refl, (refl, tt)))
      (inr (inr (inl (up second_vendor, record { body = 7; identity = none }, refl, refl))))
