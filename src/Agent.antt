-- ===== src/Agent.antt =====
-- Agent values: the request, the step trace, the result and the continuation of one Engine run
-- (agent/request.go, agent/step.go, agent/failure.go, agent/result.go, agent/output_policy.go,
-- agent/continuation.go). Durations and Go's `int` are integers.
pub mod Operations
pub mod Analysis
pub mod Scalars
pub mod StepChecks
pub mod Validation
pub mod Resumption
use go_hydaelyn.Prelude.{ℕ, Bool, Option, List, Text}
use go_hydaelyn.Prelude.Int.{ℤ}
use go_hydaelyn.Message.{Message}
use go_hydaelyn.Provider.{StopReason, Usage}

pub record Budget : Type 0 where
  pub max_tokens : ℤ
  pub max_tool_calls : ℤ
  pub max_steps : ℤ
  pub max_wall_clock : ℤ

pub record Request : Type 0 where
  pub prompt : Text
  pub budget : Option Budget

pub record OutputPolicy : Type 0 where
  pub schema : List ℕ
  pub validate : Bool
  pub repair : Bool
  pub max_repair_attempts : ℤ

pub data FailureKind : Type 0 where
  budget_exhausted tool_unavailable schema_invalid repair_failed output_blocked : FailureKind
  context_build_failed engine_error step_aborted : FailureKind

-- The cause is for `errors.Is` in the process, and is not part of the stored value.
pub record AgentFailure : Type 0 where
  pub kind : FailureKind
  pub reason : Text

pub record ModelCall : Type 0 where
  pub provider : Text
  pub model : Text
  pub usage : Usage
  pub stop_reason : StopReason

pub record ToolCallTrace : Type 0 where
  pub id : Text
  pub name : Text
  pub arguments : List ℕ
  pub output : List ℕ
  pub error : Text

pub record Observation : Type 0 where
  pub kind : Text
  pub message : Text

pub data StepDecision : Type 0 where
  undecided continue finish fail : StepDecision
  other_decision : Text → StepDecision

pub record BudgetUsage : Type 0 where
  pub tokens : ℤ
  pub tool_calls : ℤ
  pub wall_clock : ℤ

pub record Step : Type 0 where
  pub index : ℤ
  pub model_call : Option ModelCall
  pub tool_calls : List ToolCallTrace
  pub observations : List Observation
  pub decision : StepDecision
  pub budget_used : BudgetUsage

pub record AgentResult : Type 0 where
  pub text : Text
  pub structured : List ℕ
  pub valid : Bool
  pub repair_count : ℤ
  pub failure : Option AgentFailure
  pub steps : List Step
  pub usage : Usage
  pub tool_calls_used : ℤ
  pub stop_reason : StopReason
  pub messages : List Message
  pub thinking : Text

pub data ContinuationPhase : Type 0 where
  ready model_complete tools_complete validating_output : ContinuationPhase
  other_phase : Text → ContinuationPhase

pub record Continuation : Type 0 where
  pub schema_version : ℤ
  pub request : Request
  pub output_policy : OutputPolicy
  pub messages : List Message
  pub usage : Usage
  pub steps : List Step
  pub tool_calls_used : ℤ
  pub repair_count : ℤ
  pub active_elapsed : ℤ
  pub next_operation_turn : ℤ
  pub phase : ContinuationPhase
