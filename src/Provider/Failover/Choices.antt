-- ===== src/Provider/Failover/Choices.antt =====
-- Which driver serves a request after failover (provider/failover.go).
use go_hydaelyn.Prelude.{
  ◌≡◌, refl, ◌≢◌, Option, none, some, List, [], ◌∷◌, ◌++◌, Text, Result, ok, err, All, arith, ap,
  inl, inr, ◌⊎◌,
}
use go_hydaelyn.Provider.Failover.{
  ProviderStream, Backend, Place, FallbackFailure, driver_failed, selected, try_drivers,
  fallback_stream,
}

module _ {A : Type 0} where
  -- A place that opens no stream for the model.
  abbrev pub Fails : Text → Place A → Type 0
  Fails model p = (b : Backend A) (s : ProviderStream A) → p.backend ≡ some b → b.opens model ≢ ok s

  -- The first place of the chain that opens a stream.
  pub record Choice (model : Text) (places : List (Place A)) : Type 0 where
    pub before : List (Place A)
    pub chosen : Place A
    pub after : List (Place A)
    pub backend : Backend A
    pub stream : ProviderStream A
    pub in_order : places ≡ before ++ chosen ∷ after
    pub is_set : chosen.backend ≡ some backend
    pub opened : backend.opens model ≡ ok stream
    pub earlier : All (Fails model) before

  abbrev Serves : Text → List (Place A) → List FallbackFailure → Type 0
  Serves model places errs =
      (c : Choice model places) × (try_drivers model places errs
        ≡ ok (selected c.backend model c.stream))

  later :
      (model : Text) (p : Place A) (places : List (Place A)) (errs : List FallbackFailure)
      (c : Choice model places)
      → Fails model p
      → Choice model (p ∷ places)
  later model p places errs c fails = record {
    before = p ∷ c.before;
    chosen = c.chosen;
    after = c.after;
    backend = c.backend;
    stream = c.stream;
    in_order = ap (λ l. p ∷ l) c.in_order;
    is_set = c.is_set;
    opened = c.opened;
    earlier = (fails, c.earlier);
  }

  first :
      (model : Text) (p : Place A) (places : List (Place A)) (b : Backend A) (s : ProviderStream A)
      → p.backend ≡ some b
      → b.opens model ≡ ok s
      → Choice model (p ∷ places)
  first model p places b s is_set opened = record {
    before = [];
    chosen = p;
    after = places;
    backend = b;
    stream = s;
    in_order = refl;
    is_set = is_set;
    opened = opened;
    earlier = tt;
  }

  -- Some place of a chain opens a stream.
  abbrev pub Some : Text → List (Place A) → Type 0
  Some model [] = ⊥
  Some model (p ∷ places) =
      ((b : Backend A) × (s : ProviderStream A) × (p.backend ≡ some b) × (b.opens model ≡ ok s))
      ⊎ Some model places

  serving :
      (model : Text) (places : List (Place A)) (errs : List FallbackFailure)
      → All (λ p. p.ctx ≡ none) places
      → Some model places
      → Serves model places errs
  unfolding try_drivers first later
  serving model [] errs live some_one = absurd some_one
  serving model (p ∷ places) errs live some_one =
      reached (λ e. serving model places e live.1) p.backend refl some_one
    where
      opened_here :
          ((e : List FallbackFailure) → Some model places → Serves model places e)
          → (b : Backend A) → p.backend ≡ some b
          → (o : Result Text (ProviderStream A)) → b.opens model ≡ o
          → Some model (p ∷ places)
          → Serves model (p ∷ places) errs
      opened_here rest b is_set (ok s) opened some_one =
          (first model p places b s is_set opened, rw (live.0, is_set, opened) refl)
      opened_here rest b is_set (err e) opened (inl (b', s, set', opened')) =
          let is : b ≡ b' = ground arith in let no_it : b.opens model ≡ ok s = rw is opened' in cc
      opened_here rest b is_set (err e) opened (inr some_one) =
          let (c, goes) = rest (errs ++ driver_failed b.metadata.name e ∷ []) some_one in
          (
            later model p places errs c (λ b' s set' opened'.
                let is : b ≡ b' = ground arith in
                let no_it : b.opens model ≡ ok s = rw is opened' in cc),
            rw (live.0, is_set, opened) goes,
          )

      reached :
          ((e : List FallbackFailure) → Some model places → Serves model places e)
          → (o : Option (Backend A)) → p.backend ≡ o
          → Some model (p ∷ places)
          → Serves model (p ∷ places) errs
      reached rest none nil (inl (b, s, is_set, opened)) = cc
      reached rest none nil (inr some_one) =
          let (c, goes) = rest errs some_one in
          (later model p places errs c (λ b s is_set opened. cc), rw nil goes)
      reached rest (some b) is_set some_one =
          opened_here rest b is_set (b.opens model) refl some_one

  -- While the context is live and some driver of the chain opens a stream for the model, failover
  -- returns a stream: the one of the first such driver, identified by that driver and the model unless
  -- it has an identity of its own.
  pub fallback_opens :
      (model : Text) (places : List (Place A))
      → All (λ p. p.ctx ≡ none) places
      → Some model places
      → (c : Choice model places) × (fallback_stream model places
          ≡ ok (selected c.backend model c.stream))
  unfolding fallback_stream
  fallback_opens model places live some_one = serving model places [] live some_one
