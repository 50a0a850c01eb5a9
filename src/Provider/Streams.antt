-- ===== src/Provider/Streams.antt =====
-- What surrounds a retried stream, and the approval of a retry (provider/retry_stream.go, and the
-- events and `IsRetryableError` of provider/provider.go). Of an error the model has what `errors.Is`
-- and `errors.As` find in its chain; of an event, its kind and its error, and the rest as it is.
-- What opening, receiving and the context give depends on how often they were asked.
use go_hydaelyn.Prelude.{ℕ, Bool, false, not, Option, none, some, List, Text, if◌then◌else◌}
use go_hydaelyn.Prelude.Int.{ℤ, pos, int_ltb}

-- `stops`: a canceled or exceeded context is in the chain. `marked`: the answer of a
-- `RetryableError`. `transient`: a system, URL or network error that may pass.
pub record Failure : Type 0 where
  pub reason : Text
  pub stops : Bool
  pub marked : Option Bool
  pub transient : Bool
  pub suggested_delay : ℤ

pub data EventKind : Type 0 where
  no_kind done error : EventKind
  content : Text → EventKind

pub record Event : Type 0 where
  pub kind : EventKind
  pub fields : List ℕ
  pub err : Option Failure

pub record RetryProgress : Type 0 where
  pub attempt : ℕ
  pub max_retries : ℕ
  pub delay : ℤ
  pub cause : Failure

-- The normalized options, and what opening, receiving and the context give.
pub record World : Type 0 where
  pub max_retries : ℕ
  pub max_delay : ℤ
  pub delay : ℕ → ℤ
  pub should_retry : Option (RetryProgress → Bool)
  pub observer : Option (RetryProgress → Option Failure)
  pub opened : ℕ → Option Failure
  pub next_event : ℕ → ℕ → Event × Option Failure
  pub ctx_before : ℕ → Option Failure
  pub ctx_during : ℕ → Option Failure

unfoldable pub is_retryable_error : Failure → Bool
is_retryable_error f = if f.stops then false else elim f.marked [ none ↦ f.transient | some b ↦ b ]

abbrev max_int : ℤ → ℤ → ℤ
max_int a b = if int_ltb a b then b else a

abbrev min_int : ℤ → ℤ → ℤ
min_int a b = if int_ltb b a then b else a

abbrev pub progress_of : World → ℕ → Failure → RetryProgress
progress_of w attempt cause = record {
  attempt = attempt;
  max_retries = w.max_retries;
  delay =
      min_int (max_int (max_int (pos 0) (w.delay attempt)) (max_int (pos 0) cause.suggested_delay))
        w.max_delay;
  cause = cause;
}

pub data Approval : Type 0 where
  approved declined : Approval
  vetoed : Failure → Approval

abbrev vetoed_or : Option Failure → Approval → Approval
vetoed_or (some e) k = vetoed e
vetoed_or none k = k

abbrev allows : Option (RetryProgress → Bool) → RetryProgress → Bool → Bool
allows none p retryable = retryable
allows (some f) p retryable = f p

abbrev observed : Option (RetryProgress → Option Failure) → RetryProgress → Option Failure
observed none p = none
observed (some f) p = f p

-- `approveStreamRetryAndWait`; `ask` counts its calls
unfoldable pub approve_stream_retry : World → ℕ → ℕ → Failure → Approval
unfolding is_retryable_error
approve_stream_retry w ask attempt cause = vetoed_or (w.ctx_before ask) (
    let progress = progress_of w attempt cause in
    if cause.stops
    then declined
    else if not (allows w.should_retry progress (is_retryable_error cause))
    then declined
    else vetoed_or (observed w.observer progress) (
        if not (int_ltb (pos 0) progress.delay)
        then approved
        else vetoed_or (w.ctx_during ask) approved))
