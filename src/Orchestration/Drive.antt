-- ===== src/Orchestration/Drive.antt =====
-- `Drive` (orchestration/drive.go). The scheduler is a function of the state, as its interface
-- says; the context and the batches are given by the round that asks. A nil scheduler or executor
-- is out of the model, the value types have none.
use go_hydaelyn.Prelude.{
  ℕ, zero, suc, ◌||◌, Option, none, some, List, [], ◌∷◌, Text, ◌==◌, Result, ok, err, if◌then◌else◌,
  Bool,
}
use go_hydaelyn.Prelude.Int.{ℤ, pos, negsuc, next_int, int_eq}
use go_hydaelyn.Durable.{ContextError}
use go_hydaelyn.Orchestration.{
  Dispatch, State, DispatchExecution, DriveError, invalid_argument, context_error, scheduler_error,
  max_ticks_reached, scheduler_failed, invalid_batch, negative_limit,
}
use go_hydaelyn.Orchestration.Validation.{is_negative, validate_batch, validate_initial_state}
use go_hydaelyn.Orchestration.Batch.{fold_batch}

pub record DriveOptions : Type 0 where
  pub max_ticks : ℤ
  pub max_concurrency : ℤ
  pub unlimited_concurrency : Bool
  pub initial_state : Option State

-- What surrounds a drive; a round is one pass of the loop. `batch` gives the reports of a batch in
-- the order of the channel and the context's error after the wait; its third argument is the
-- capacity of the permits.
pub record World : Type 0 where
  pub json_valid : List ℕ → Bool
  pub ctx : ℕ → Option ContextError
  pub scheduler : State → Result Text (List Dispatch)
  pub batch : ℕ → State → Option ℤ → List Dispatch → List DispatchExecution × Option ContextError

abbrev pub default_max_ticks : ℕ
default_max_ticks = 64

abbrev pub default_max_concurrency : ℤ
default_max_concurrency = pos 4

abbrev pub tick_limit : ℤ → ℕ
tick_limit (pos zero) = default_max_ticks
tick_limit (pos (suc n)) = suc n
tick_limit (negsuc n) = 0

-- the capacity of `permits`, none if it is nil
unfoldable pub permits : DriveOptions → Option ℤ
permits o =
    if o.unlimited_concurrency
    then none
    else some (if o.max_concurrency == pos 0 then default_max_concurrency else o.max_concurrency)

-- What `Drive` returns: the state, and the error, if any.
abbrev pub Driven : Type 0
Driven = State × Option DriveError

-- What a round's scheduler call decides.
pub data Scheduled : Type 0 where
  stopped : DriveError → Scheduled
  finished : Scheduled
  batch_of : Dispatch → List Dispatch → Scheduled

abbrev pub accepted : List Dispatch → Scheduled
accepted [] = finished
accepted (d ∷ ds) = batch_of d ds

unfoldable pub schedule : World → ℕ → State → Scheduled
unfolding validate_batch
schedule w round s = elim (w.ctx round) [
  | some e ↦ stopped (context_error e)
  | none ↦ elim (w.scheduler s) [
    | err e ↦ stopped (scheduler_error s.tick (scheduler_failed e))
    | ok ds ↦ elim (validate_batch w.json_valid s ds) [
      | err e ↦ stopped (scheduler_error s.tick (invalid_batch e))
      | ok valid ↦ accepted valid
    ]
  ]
]

-- the end of a round: a failed batch ends the drive, else the tick moves
abbrev pub after_batch : State × Option DriveError → (State → Driven) → Driven
after_batch (s, some e) k = (s, some e)
after_batch (s, none) k = k (record s { tick = next_int s.tick })

-- a round without a batch returns
abbrev pub ended_or : State → Scheduled → (Dispatch → List Dispatch → Driven) → Driven
ended_or s (stopped e) k = (s, some e)
ended_or s finished k = (s, none)
ended_or s (batch_of d ds) k = k d ds

-- The loop with the ticks that are left, `maxTicks - completedTicks`.
unfoldable pub drive_loop : World → Option ℤ → ℕ → ℕ → State → Driven
unfolding schedule fold_batch
drive_loop w limit zero round s =
    ended_or s (schedule w round s) (λ d ds. (s, some max_ticks_reached))
drive_loop w limit (suc left) round s = ended_or s (schedule w round s) (λ d ds.
    let (records, ctx_error) = w.batch round s limit (d ∷ ds) in
    after_batch (fold_batch s records ctx_error) (drive_loop w limit left (suc round)))

abbrev pub empty_state : State
empty_state = record { tick = pos 0; outcomes = [] }

abbrev pub initial : World → DriveOptions → Result DriveError State
initial w o = elim o.initial_state [
  | none ↦ ok empty_state
  | some s ↦ elim (validate_initial_state w.json_valid s) [
    | none ↦ ok s
    | some e ↦ err (invalid_argument e)
  ]
]

unfoldable pub drive : World → DriveOptions → Driven
unfolding permits drive_loop validate_initial_state
drive w o =
    if is_negative o.max_ticks || is_negative o.max_concurrency
    then (empty_state, some (invalid_argument negative_limit))
    else elim (initial w o) [
      | err e ↦ (empty_state, some e)
      | ok s ↦ drive_loop w (permits o) (tick_limit o.max_ticks) 0 s
    ]
