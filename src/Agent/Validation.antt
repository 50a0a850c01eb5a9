-- ===== src/Agent/Validation.antt =====
-- `ValidateContinuation` (agent/continuation.go).
pub mod Accepted
pub mod Fresh
use mathlib.Core.Bool.{not}
use go_hydaelyn.Prelude.{
  ℕ, ◌==◌, nat_eq, text_eq_instance, ok, err, Result, Bool, true, false, ◌&&◌, ◌||◌, Option, none,
  some, List, [], ◌∷◌, if◌then◌else◌,
}
use go_hydaelyn.Prelude.Int.{ℤ, pos, int_leb, int_eq}
use go_hydaelyn.Message.{Message}
use go_hydaelyn.Message.Content.{is_empty}
use go_hydaelyn.Message.History.{is_assistant, or_else}
use go_hydaelyn.Provider.{Usage}
use go_hydaelyn.Agent.{
  StepDecision, continue, finish, fail, Step, Continuation, ContinuationPhase, ready,
  model_complete, tools_complete, validating_output, other_phase,
}
use go_hydaelyn.Agent.Analysis.{TranscriptError, TranscriptAnalysis, analyze_transcript}
use go_hydaelyn.Agent.Scalars.{
  ContinuationError, unsupported_version, ready_with_pending, no_pending_call, tools_incomplete,
  output_incomplete, output_not_last, unknown_phase, invalid_transcript, tool_calls_mismatch,
  tokens_mismatch, usage_below_steps, turn_not_next, no_model_step, no_tool_step, ready_after_end,
  no_output_step, output_after_continue, invalid_decision, refuse_if, validate_scalars,
}
use go_hydaelyn.Agent.StepChecks.{is_continue, StepTotals, validate_steps}

-- `messages[len(messages)-1]`
unfoldable pub last_of {ℓ} : {A : Type ℓ} → List A → Option A
last_of [] = none
last_of (x ∷ []) = some x
last_of (x ∷ y ∷ xs) = last_of (y ∷ xs)

abbrev ends_with_output : Option Message → Bool
ends_with_output none = false
ends_with_output (some m) = is_assistant m.role && is_empty m.tool_calls

-- `validateContinuationPhaseTranscript`
unfoldable pub phase_transcript :
    ContinuationPhase → List Message → TranscriptAnalysis → Option ContinuationError
phase_transcript ready ms a = refuse_if a.pending ready_with_pending
phase_transcript model_complete ms a = refuse_if (not a.pending) no_pending_call
phase_transcript tools_complete ms a =
    refuse_if (a.pending || not a.ends_with_tool_results) tools_incomplete
phase_transcript validating_output ms a =
    if a.pending || is_empty ms
    then some output_incomplete
    else refuse_if (not (ends_with_output (last_of ms))) output_not_last
phase_transcript (other_phase p) ms a = some (unknown_phase p)

unfoldable pub usage_contains : Usage → Usage → Bool
usage_contains total least =
    int_leb least.input_tokens total.input_tokens
    && int_leb least.cached_input_tokens total.cached_input_tokens
    && (not least.cached_input_tokens_reported || total.cached_input_tokens_reported)
    && int_leb least.cache_write_input_tokens total.cache_write_input_tokens
    && (not least.cache_write_input_tokens_reported || total.cache_write_input_tokens_reported)
    && int_leb least.output_tokens total.output_tokens
    && int_leb least.reasoning_tokens total.reasoning_tokens
    && int_leb least.total_tokens total.total_tokens

abbrev pub tokens_of : Option Step → ℤ
tokens_of none = pos 0
tokens_of (some s) = s.budget_used.tokens

-- `validateContinuationTotals`
unfoldable pub validate_totals :
    Continuation → TranscriptAnalysis → StepTotals → Option ContinuationError
unfolding usage_contains last_of
validate_totals c a p =
    if not (c.tool_calls_used == pos p.completed)
    then some tool_calls_mismatch
    else if not (c.usage.total_tokens == tokens_of (last_of c.steps))
    then some tokens_mismatch
    else if not (usage_contains c.usage p.usage)
    then some usage_below_steps
    else refuse_if (int_leb c.next_operation_turn a.max_operation_turn) turn_not_next

abbrev valid_completed_decision : StepDecision → Bool
valid_completed_decision continue = true
valid_completed_decision finish = true
valid_completed_decision fail = true
valid_completed_decision _ = false

abbrev is_finish : StepDecision → Bool
is_finish finish = true
is_finish _ = false

-- `validateContinuationPhaseSteps`, given the last step
unfoldable pub phase_steps :
    ContinuationPhase → Option Step → TranscriptAnalysis → Option ContinuationError
phase_steps model_complete none a = some no_model_step
phase_steps model_complete (some s) a = refuse_if (is_empty a.pending_calls) no_model_step
phase_steps tools_complete none a = some no_tool_step
phase_steps tools_complete (some s) a =
    if is_empty s.tool_calls
    then some no_tool_step
    else refuse_if (not (valid_completed_decision s.decision)) (invalid_decision s.decision)
phase_steps ready none a = none
phase_steps ready (some s) a = refuse_if (not (is_continue s.decision)) ready_after_end
phase_steps validating_output none a = some no_output_step
phase_steps validating_output (some s) a =
    refuse_if (not (is_finish s.decision)) output_after_continue
phase_steps (other_phase p) s a = none

-- `return` on an error, with what an analysis or the steps give otherwise
abbrev pub or_return {ℓ} :
    {A : Type ℓ}
    → Result ContinuationError A
    → (A → Option ContinuationError)
    → Option ContinuationError
or_return (err e) k = some e
or_return (ok a) k = k a

abbrev pub analyzed :
    Result TranscriptError TranscriptAnalysis → Result ContinuationError TranscriptAnalysis
analyzed (err e) = err (invalid_transcript e)
analyzed (ok a) = ok a

-- the rest of it, from the steps on
unfoldable pub validate_counts : Continuation → TranscriptAnalysis → Option ContinuationError
validate_counts c a =
    or_return (validate_steps c a)
      (λ p. or_else (validate_totals c a p) (phase_steps c.phase (last_of c.steps) a))

-- the rest of it, from the scalars on
unfoldable pub validate_contents : (List ℕ → Bool) → Continuation → Option ContinuationError
unfolding validate_counts
validate_contents valid_json c = or_else (validate_scalars valid_json c) (
    or_return (analyzed (analyze_transcript c.messages))
      (λ a. or_else (phase_transcript c.phase c.messages a) (validate_counts c a)))

-- `ValidateContinuation`; `none` is a nil error
unfoldable pub validate_continuation : (List ℕ → Bool) → Continuation → Option ContinuationError
unfolding validate_contents
validate_continuation valid_json c =
    if not (c.schema_version == pos 1)
    then some (unsupported_version c.schema_version)
    else validate_contents valid_json c
