-- ===== src/Agent/Scalars.antt =====
-- The errors of `ValidateContinuation` and its checks of counters, budget, policy and usage
-- (agent/continuation.go). JSON validity is a parameter. A slice that is indexed out of range, at
-- which the code panics, is `index_panic`.
use mathlib.Core.Bool.{not}
use go_hydaelyn.Prelude.{
  ℕ, nat_eq, text_eq_instance, Bool, true, false, ◌&&◌, ◌||◌, Option, none, some, List, Text,
  if◌then◌else◌,
}
use go_hydaelyn.Prelude.Int.{ℤ, pos, int_ltb, int_eq, add_int}
use go_hydaelyn.Message.Content.{is_empty}
use go_hydaelyn.Message.History.{or_else}
use go_hydaelyn.Provider.{Usage}
use go_hydaelyn.Agent.{Budget, OutputPolicy, ModelCall, StepDecision, Continuation}
use go_hydaelyn.Agent.Analysis.{TranscriptError}

-- `ErrInvalidContinuation` with its reason
pub data ContinuationError : Type 0 where
  unsupported_version : ℤ → ContinuationError
  negative_counter negative_budget negative_repair_limit invalid_schema : ContinuationError
  negative_usage inconsistent_usage index_panic : ContinuationError
  invalid_transcript : TranscriptError → ContinuationError
  ready_with_pending no_pending_call tools_incomplete output_incomplete output_not_last :
      ContinuationError
  unknown_phase : Text → ContinuationError
  turn_precedes_steps too_few_assistants : ContinuationError
  step_index step_negative step_usage step_terminal step_finalized : ℕ → ContinuationError
  step_operation trace_mismatch : ℕ → ℕ → ContinuationError
  trace_count tool_call_snapshot token_snapshot token_below_usage : ℕ → ContinuationError
  tool_calls_mismatch tokens_mismatch usage_below_steps turn_not_next : ContinuationError
  no_model_step no_tool_step ready_after_end no_output_step output_after_continue :
      ContinuationError
  invalid_decision : StepDecision → ContinuationError

abbrev pub refuse_if : Bool → ContinuationError → Option ContinuationError
refuse_if true e = some e
refuse_if false e = none

abbrev pub negative : ℤ → Bool
negative n = int_ltb n (pos 0)

unfoldable pub has_negative_usage : Usage → Bool
has_negative_usage u =
    negative u.input_tokens
    || negative u.cached_input_tokens
    || negative u.cache_write_input_tokens
    || negative u.output_tokens
    || negative u.reasoning_tokens
    || negative u.total_tokens

unfoldable pub has_inconsistent_usage : Usage → Bool
unfolding add_int
has_inconsistent_usage u =
    int_ltb u.input_tokens u.cached_input_tokens
    || int_ltb u.input_tokens u.cache_write_input_tokens
    || int_ltb u.output_tokens u.reasoning_tokens
    || int_ltb u.total_tokens (add_int u.input_tokens u.output_tokens)

unfoldable pub validate_usage : Usage → Option ContinuationError
unfolding has_negative_usage has_inconsistent_usage
validate_usage u =
    if has_negative_usage u
    then some negative_usage
    else refuse_if (has_inconsistent_usage u) inconsistent_usage

-- `validModelCallUsage`
unfoldable pub valid_model_call_usage : ModelCall → Bool
unfolding has_negative_usage has_inconsistent_usage
valid_model_call_usage call =
    not (has_negative_usage call.usage) && not (has_inconsistent_usage call.usage)

unfoldable pub validate_budget : Option Budget → Option ContinuationError
validate_budget none = none
validate_budget (some b) =
    refuse_if
      (negative b.max_tokens
        || negative b.max_tool_calls
        || negative b.max_steps
        || negative b.max_wall_clock)
      negative_budget

unfoldable pub validate_output_policy : (List ℕ → Bool) → OutputPolicy → Option ContinuationError
validate_output_policy valid_json p =
    if negative p.max_repair_attempts
    then some negative_repair_limit
    else refuse_if (not (is_empty p.schema) && not (valid_json p.schema)) invalid_schema

-- `validateContinuationScalars`
unfoldable pub validate_scalars : (List ℕ → Bool) → Continuation → Option ContinuationError
unfolding validate_budget validate_output_policy validate_usage
validate_scalars valid_json c =
    if negative c.tool_calls_used
      || negative c.repair_count
      || negative c.active_elapsed
      || negative c.next_operation_turn
    then some negative_counter
    else or_else (validate_budget c.request.budget)
        (or_else (validate_output_policy valid_json c.output_policy) (validate_usage c.usage))
