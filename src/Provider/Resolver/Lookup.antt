-- ===== src/Provider/Resolver/Lookup.antt =====
-- A lookup in a registry finds the driver that was registered last (provider/resolver.go).
use go_hydaelyn.Prelude.{
  ◌≡◌, refl, ◌∙◌, Bool, true, false, not, ◌&&◌, ◌||◌, Option, none, some, List, [], ◌∷◌, Text, ◌==◌,
  text_eq_instance, text_eq, nat_eq, arith, if◌then◌else◌, All,
}
use go_hydaelyn.Prelude.Assoc.{get, get-put}
use go_hydaelyn.Message.Content.{is_empty}
use go_hydaelyn.Provider.{Metadata}
use go_hydaelyn.Provider.Resolver.{
  provider_model_key, Registry, empty_registry, index_models, register, register_all, new_registry,
  driver, driver_for, resolve, as_resolver,
}

-- `text` has the byte that ends a provider's name in a key
abbrev pub has_nul : Text → Bool
has_nul [] = false
has_nul (c ∷ text) = c == 0 || has_nul text

abbrev pub declares : List Text → Text → Bool
declares [] model = false
declares (m ∷ models) model = m == model || declares models model

key_beq :
    (name provider_name m model : Text)
    → has_nul name ≡ false
    → has_nul provider_name ≡ false
    → text_eq (provider_model_key name m) (provider_model_key provider_name model)
      ≡ (text_eq name provider_name && text_eq m model)
unfolding text_eq provider_model_key
key_beq [] [] m model h k = refl
key_beq [] (d ∷ p) m model h k = ground arith
key_beq (c ∷ n) [] m model h k = ground arith
key_beq (c ∷ n) (d ∷ p) m model h k =
    let rest = key_beq n p m model (ground arith) (ground arith) in ground (arith, rest)

abbrev prefer : {A : Type 0} → Option A → Option A → Option A
prefer (some a) o = some a
prefer none o = o

prefer-if :
    {A : Type 0} (o p : Option A) (test : Bool) (a : A)
    → prefer o (if test then some a else p) ≡ prefer (prefer o (if test then some a else none)) p
prefer-if (some b) p test a = refl
prefer-if none p true a = refl
prefer-if none p false a = refl

prefer-none : {A : Type 0} (o : Option A) → prefer o none ≡ o
prefer-none none = refl
prefer-none (some a) = refl

-- The last of the drivers that are not nil for which the test holds.
abbrev pub last_such : {D : Type 0} → (D → Bool) → List (Option D) → Option D
last_such test [] = none
last_such test (none ∷ ds) = last_such test ds
last_such test (some d ∷ ds) = prefer (last_such test ds) (if test d then some d else none)

module _ {D : Type 0} (metadata : D → Metadata) where
  indexed_model :
      (d : D) (models : List Text) (r : Registry metadata) (model : Text)
      → get (index_models metadata d models r).by_model model
        ≡ (if declares models model then some d else get r.by_model model)
  unfolding index_models
  indexed_model d [] r model = refl
  indexed_model d (m ∷ models) r model =
      let r' = index_models metadata d (m ∷ []) r in
      rw (indexed_model d models r' model, get-put r.by_model m model d) (ground arith)

  abbrev pub serves : Text → D → Bool
  serves model d = declares (metadata d).models model

  -- The driver has a name, which is the provider's, and declares the model.
  abbrev pub serves_named : Text → Text → D → Bool
  serves_named provider_name model d =
      not (is_empty (metadata d).name)
      && (metadata d).name == provider_name
      && declares (metadata d).models model

  registered_model :
      (ds : List (Option D)) (r : Registry metadata) (model : Text)
      → get (register_all metadata ds r).by_model model
        ≡ prefer (last_such (serves model) ds) (get r.by_model model)
  unfolding register_all register
  registered_model [] r model = refl
  registered_model (none ∷ ds) r model = registered_model ds r model
  registered_model (some d ∷ ds) r model =
      rw
        (
          registered_model ds (index_models metadata d (metadata d).models r) model,
          indexed_model d (metadata d).models r model,
        )
        (prefer-if (last_such (serves model) ds) (get r.by_model model) (serves model d) d)

  pub new_registry-driver :
      (ds : List (Option D)) (model : Text)
      → driver metadata (new_registry metadata ds) model ≡ last_such (serves model) ds
  unfolding driver new_registry get
  new_registry-driver ds model =
      registered_model ds (empty_registry metadata) model
      ∙ prefer-none (last_such (serves model) ds)

  -- The driver's name has no NUL byte.
  abbrev pub Plain : Option D → Type 0
  Plain none = Unit
  Plain (some d) = has_nul (metadata d).name ≡ false

  module _ (provider_name : Text) (plain : has_nul provider_name ≡ false) where
    indexed_pair :
        (d : D) (models : List Text) (r : Registry metadata) (model : Text)
        → has_nul (metadata d).name ≡ false
        → get
            (index_models metadata d models r).by_provider_model
            (provider_model_key provider_name model)
          ≡ (if not (is_empty (metadata d).name)
                && (metadata d).name == provider_name
                && declares models model
              then some d
              else get r.by_provider_model (provider_model_key provider_name model))
    unfolding index_models
    indexed_pair d [] r model named = ground arith
    indexed_pair d (m ∷ models) r model named =
        let r' = index_models metadata d (m ∷ []) r in
        let key = key_beq (metadata d).name provider_name m model named plain in
        rw (indexed_pair d models r' model named) (
          ground (
            arith,
            key,
            get-put r.by_provider_model (provider_model_key (metadata d).name m)
                (provider_model_key provider_name model) d,
          ))

    registered_pair :
        (ds : List (Option D)) (r : Registry metadata) (model : Text)
        → All Plain ds
        → get
            (register_all metadata ds r).by_provider_model
            (provider_model_key provider_name model)
          ≡ prefer
              (last_such (serves_named provider_name model) ds)
              (get r.by_provider_model (provider_model_key provider_name model))
    unfolding register_all register
    registered_pair [] r model all = refl
    registered_pair (none ∷ ds) r model all = registered_pair ds r model all.1
    registered_pair (some d ∷ ds) r model all =
        rw
          (
            registered_pair ds (index_models metadata d (metadata d).models r) model all.1,
            indexed_pair d (metadata d).models r model all.0,
          )
          (prefer-if (last_such (serves_named provider_name model) ds) _
            (serves_named provider_name model d) d)

    -- Let no provider's name have a NUL byte. A registry resolves a model to the driver that was
    -- registered last among those that declare it; with a provider's name that is not empty, to the
    -- last among those that have that name and declare the model; and to none if there is none.
    pub resolve_registry :
        (ds : List (Option D)) (model : Text)
        → All Plain ds
        → resolve metadata
            (some (as_resolver metadata (new_registry metadata ds)))
            provider_name
            model
          ≡ (if is_empty provider_name
              then last_such (serves model) ds
              else last_such (serves_named provider_name model) ds)
    unfolding resolve driver_for new_registry get
    resolve_registry ds model all =
        rw
          (
            new_registry-driver ds model,
            registered_pair ds (empty_registry metadata) model all,
            prefer-none (last_such (serves_named provider_name model) ds),
          )
          refl
