-- ===== src/Orchestration.antt =====
-- Dispatches, outcomes and the state of a drive (orchestration/scheduler.go, orchestration/drive.go).
-- An error of the application's scheduler or executor, a contained panic included, is its text.
pub mod Validation
pub mod Batch
pub mod Drive
pub mod Valid
use go_hydaelyn.Prelude.{ℕ, Bool, Option, List, Text}
use go_hydaelyn.Prelude.Int.{ℤ}
use go_hydaelyn.Prelude.Assoc.{Map}
use go_hydaelyn.Agent.{Request, OutputPolicy, AgentResult}
use go_hydaelyn.Durable.{ContextError}

pub record Handoff : Type 0 where
  pub from : Text
  pub to : Text
  pub reason : Text
  pub payload : List ℕ

pub record Dispatch : Type 0 where
  pub id : Text
  pub route : Text
  pub request : Request
  pub output_policy : OutputPolicy
  pub handoff : Option Handoff
  pub metadata : Map Text Text

pub record Outcome : Type 0 where
  pub tick : ℤ
  pub dispatch : Dispatch
  pub result : AgentResult

pub record State : Type 0 where
  pub tick : ℤ
  pub outcomes : List Outcome

-- What the executor returned for one dispatch.
pub record DispatchExecution : Type 0 where
  pub dispatch : Dispatch
  pub result : AgentResult
  pub error : Option Text

-- Why a value does not satisfy the contract; each is `ErrInvalidArgument`.
pub data Invalid : Type 0 where
  empty_id empty_route negative_budget negative_repair_limit : Invalid
  invalid_schema invalid_payload handoff_conflict : Invalid
  negative_tick tick_out_of_range duplicate_id unsorted : Invalid
  negative_limit : Invalid

pub record DispatchError : Type 0 where
  pub dispatch : Dispatch
  pub result : AgentResult
  pub error : Text

pub data SchedulerFailure : Type 0 where
  scheduler_failed : Text → SchedulerFailure
  invalid_batch : Invalid → SchedulerFailure

-- What `Drive` returns with its state; `joined` is what `errors.Join` joins.
pub data DriveError : Type 0 where
  invalid_argument : Invalid → DriveError
  context_error : ContextError → DriveError
  scheduler_error : ℤ → SchedulerFailure → DriveError
  max_ticks_reached : DriveError
  joined : List DispatchError → Option ContextError → DriveError
