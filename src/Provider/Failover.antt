-- ===== src/Provider/Failover.antt =====
-- Failover between drivers (provider/failover.go) and the identity of a stream (provider/provider.go).
-- Each place in the chain has what the context and the driver's `Stream` answer when it is reached.
pub mod Choices
use go_hydaelyn.Prelude.{
  Bool, true, false, not, ◌||◌, Option, none, some, List, [], ◌∷◌, ◌++◌, Text, Result, ok, err,
  if◌then◌else◌,
}
use go_hydaelyn.Message.Content.{is_empty}
use go_hydaelyn.Provider.{Metadata, StreamIdentity}

-- A stream, with its identity if it is an `IdentifiedStream`.
pub record ProviderStream (A : Type 0) : Type 0 where
  pub body : A
  pub identity : Option StreamIdentity

abbrev is_identified : Option StreamIdentity → Bool
is_identified none = false
is_identified (some current) = not (is_empty current.provider.name) || not (is_empty current.model)

-- `identifyStream`
unfoldable pub identify_stream : {A : Type 0} → ProviderStream A → StreamIdentity → ProviderStream A
identify_stream stream identity =
    if is_identified stream.identity
    then stream
    else record { body = stream.body; identity = some identity }

-- A driver: `opens` is what its `Stream` returns for a model.
pub record Backend (A : Type 0) : Type 0 where
  pub metadata : Metadata
  pub opens : Text → Result Text (ProviderStream A)

-- A place in the chain: `ctx.Err()` when it is reached, and the driver, which may be nil.
pub record Place (A : Type 0) : Type 0 where
  pub ctx : Option Text
  pub backend : Option (Backend A)

pub data FallbackFailure : Type 0 where
  context_done : Text → FallbackFailure
  driver_failed : Text → Text → FallbackFailure

pub data FallbackError : Type 0 where
  no_drivers incomplete : FallbackError
  all_failed : List FallbackFailure → FallbackError
  models_failed : Text → Text → List Text → FallbackError
  canceled_after : Text → Text → FallbackError

abbrev pub selected : {A : Type 0} → Backend A → Text → ProviderStream A → ProviderStream A
selected b model stream = identify_stream stream (record { provider = b.metadata; model = model })

abbrev fallback_error : List FallbackFailure → FallbackError
fallback_error [] = no_drivers
fallback_error (e ∷ errs) = all_failed (e ∷ errs)

-- One place whose driver and context are given; `rest` goes on with the errors.
abbrev try_backend :
    {A : Type 0}
    → Text
    → List FallbackFailure
    → (List FallbackFailure → Result FallbackError (ProviderStream A))
    → Option Text
    → Option (Backend A)
    → Result FallbackError (ProviderStream A)
try_backend model errs rest ctx none = rest errs
try_backend model errs rest (some reason) (some b) =
    err (fallback_error (errs ++ context_done reason ∷ []))
try_backend model errs rest none (some b) = elim (b.opens model) [
  | ok stream ↦ ok (selected b model stream)
  | err e ↦ rest (errs ++ driver_failed b.metadata.name e ∷ [])
]

-- `for _, driver := range d.drivers`, with the errors so far
unfoldable pub try_drivers :
    {A : Type 0}
    → Text
    → List (Place A)
    → List FallbackFailure
    → Result FallbackError (ProviderStream A)
try_drivers model [] errs = err (fallback_error errs)
try_drivers model (p ∷ places) errs =
    try_backend model errs (try_drivers model places) p.ctx p.backend

-- `fallbackDriver.Stream`
unfoldable pub fallback_stream :
    {A : Type 0} → Text → List (Place A) → Result FallbackError (ProviderStream A)
fallback_stream model places = try_drivers model places []

-- `modelFallbackDriver.Stream` once the primary failed
unfoldable pub switch_model :
    {A : Type 0}
    → Text
    → Text
    → Backend A
    → Text
    → Option Text
    → Result FallbackError (ProviderStream A)
switch_model model primary_error fallback fallback_model (some reason) =
    err (canceled_after primary_error reason)
switch_model model primary_error fallback fallback_model none =
    elim (fallback.opens fallback_model) [
      | ok stream ↦ ok (selected fallback fallback_model stream)
      | err e ↦ err (models_failed model fallback_model (primary_error ∷ e ∷ []))
    ]

-- `modelFallbackDriver.Stream`; `ctx` is `ctx.Err()` after the primary failed
unfoldable pub model_fallback_stream :
    {A : Type 0}
    → Text
    → Option (Backend A)
    → Option (Backend A)
    → Text
    → Option Text
    → Result FallbackError (ProviderStream A)
model_fallback_stream model (some primary) (some fallback) fallback_model ctx =
    if is_empty fallback_model then err incomplete else elim (primary.opens model) [
      | ok stream ↦ ok (selected primary model stream)
      | err e ↦ switch_model model e fallback fallback_model ctx
    ]
model_fallback_stream model _ _ fallback_model ctx = err incomplete
