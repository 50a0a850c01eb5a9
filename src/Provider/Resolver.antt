-- ===== src/Provider/Resolver.antt =====
-- The registry of drivers and the resolution of a provider and a model (provider/resolver.go). What a
-- driver does is a parameter; its `Metadata` does not change.
pub mod Lookup
use go_hydaelyn.Prelude.{
  Bool, true, false, not, ◌&&◌, ◌||◌, Option, none, some, List, [], ◌∷◌, ◌++◌, Text, ◌==◌,
  text_eq_instance, if◌then◌else◌,
}
use go_hydaelyn.Prelude.Assoc.{Map, get, put}
use go_hydaelyn.Message.Content.{is_empty}
use go_hydaelyn.Provider.{Metadata}

-- `providerModelKey`
unfoldable pub provider_model_key : Text → Text → Text
provider_model_key provider_name model = provider_name ++ 0 ∷ model

module _ {D : Type 0} (metadata : D → Metadata) where
  pub record Registry : Type 0 where
    pub by_model : Map Text D
    pub by_provider_model : Map Text D

  abbrev pub empty_registry : Registry
  empty_registry = record { by_model = []; by_provider_model = [] }

  -- `for _, model := range d.Metadata().Models`
  unfoldable pub index_models : D → List Text → Registry → Registry
  index_models d [] r = r
  index_models d (model ∷ models) r = index_models d models record {
    by_model = put r.by_model model d;
    by_provider_model =
        if not (is_empty (metadata d).name)
        then put r.by_provider_model (provider_model_key (metadata d).name model) d
        else r.by_provider_model;
  }

  -- `Registry.Register`
  unfoldable pub register : Option D → Registry → Registry
  register none r = r
  register (some d) r = index_models d (metadata d).models r

  -- `for _, d := range drivers`
  unfoldable pub register_all : List (Option D) → Registry → Registry
  register_all [] r = r
  register_all (d ∷ ds) r = register_all ds (register d r)

  -- `NewRegistry`
  unfoldable pub new_registry : List (Option D) → Registry
  new_registry ds = register_all ds empty_registry

  -- `Registry.Driver`; none is `ErrNoDriverForModel`
  unfoldable pub driver : Registry → Text → Option D
  driver r model = get r.by_model model

  -- `Registry.DriverFor`
  unfoldable pub driver_for : Registry → Text → Text → Option D
  driver_for r provider_name model =
      get r.by_provider_model (provider_model_key provider_name model)

  -- `Single(d).Driver`
  unfoldable pub single_driver : Option D → Text → Option D
  single_driver d model = d

-- A `Resolver`, with `DriverFor` if it is a `NamedResolver`.
pub record Resolves (D : Type 0) : Type 0 where
  pub driver_of : Text → Option D
  pub named : Option (Text → Text → Option D)

module _ {D : Type 0} (metadata : D → Metadata) where
  abbrev pub named_or_checked : Option (Text → Text → Option D) → Option D → Text → Text → Option D
  named_or_checked (some driver_for) found provider_name model = driver_for provider_name model
  named_or_checked none none provider_name model = none
  named_or_checked none (some d) provider_name model =
      if not ((metadata d).name == provider_name) then none else some d

  -- `Resolve`; none is `ErrNoDriverForModel`
  unfoldable pub resolve : Option (Resolves D) → Text → Text → Option D
  resolve none provider_name model = none
  resolve (some r) provider_name model =
      if is_empty provider_name
      then r.driver_of model
      else named_or_checked r.named (r.driver_of model) provider_name model

  abbrev pub as_resolver : Registry metadata → Resolves D
  as_resolver r = record { driver_of = driver metadata r; named = some (driver_for metadata r) }

  abbrev pub as_single : Option D → Resolves D
  as_single d = record { driver_of = single_driver metadata d; named = none }
