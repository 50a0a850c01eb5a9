-- ===== src/Agent/StepChecks.antt =====
-- `validateContinuationSteps` and what it calls (agent/continuation.go).
pub mod Counting
use mathlib.Core.Bool.{not}
use go_hydaelyn.Prelude.{
  ℕ, suc, ◌+◌, ◌-◌, ltb, ◌==◌, nat_eq, text_eq_instance, ok, err, Result, Bool, true, false, ◌&&◌,
  ◌||◌, Option, none, some, List, [], ◌∷◌, Text, length, get_elem?, if◌then◌else◌,
}
use go_hydaelyn.Prelude.Int.{ℤ, pos, negsuc, int_ltb, int_leb, int_max_of, int_eq, add_int}
use go_hydaelyn.Message.{ToolCall, Message}
use go_hydaelyn.Message.Content.{is_empty, is_none}
use go_hydaelyn.Message.History.{is_assistant, or_else}
use go_hydaelyn.Provider.{Usage}
use go_hydaelyn.Provider.Usages.{add}
use go_hydaelyn.Agent.{
  Budget, OutputPolicy, ModelCall, ToolCallTrace, StepDecision, undecided, continue, finish, fail,
  other_decision, Step, Continuation, ContinuationPhase, ready, model_complete, tools_complete,
  validating_output, other_phase,
}
use go_hydaelyn.Agent.Operations.{operation_id}
use go_hydaelyn.Agent.Analysis.{TranscriptError, TranscriptAnalysis, analyze_transcript, and_then}
use go_hydaelyn.Agent.Scalars.{
  ContinuationError, unsupported_version, ready_with_pending, no_pending_call, tools_incomplete,
  output_incomplete, output_not_last, unknown_phase, index_panic, invalid_transcript,
  turn_precedes_steps, too_few_assistants, step_index, step_negative, step_usage, step_terminal,
  step_finalized, step_operation, trace_mismatch, trace_count, tool_call_snapshot, token_snapshot,
  token_below_usage, tool_calls_mismatch, tokens_mismatch, usage_below_steps, turn_not_next,
  no_model_step, no_tool_step, ready_after_end, no_output_step, output_after_continue,
  invalid_decision, refuse_if, negative, valid_model_call_usage, validate_scalars,
}

abbrev pub is_model_complete : ContinuationPhase → Bool
is_model_complete model_complete = true
is_model_complete _ = false

abbrev pub is_continue : StepDecision → Bool
is_continue continue = true
is_continue _ = false

-- the operation IDs of the calls from `slot` on, in `validateContinuationStep`
unfoldable pub check_operations : ℕ → ℕ → ℕ → List ToolCall → Option ContinuationError
check_operations index turn slot [] = none
check_operations index turn slot (call ∷ calls) =
    or_else
      (refuse_if (not (call.operation_id == operation_id turn slot)) (step_operation index slot))
      (check_operations index turn (suc slot) calls)

-- the loop of `validateStepToolCalls`
unfoldable pub match_traces : ℕ → ℕ → List ToolCallTrace → List ToolCall → Option ContinuationError
match_traces index slot [] [] = none
match_traces index slot (t ∷ ts) (call ∷ calls) =
    or_else
      (refuse_if
        (not (t.id == call.id) || not (t.name == call.name) || not (t.arguments == call.arguments))
        (trace_mismatch index slot))
      (match_traces index (suc slot) ts calls)
match_traces index slot ts calls = some index_panic

unfoldable pub validate_step_tool_calls :
    ℕ → List ToolCallTrace → List ToolCall → Option ContinuationError
unfolding match_traces
validate_step_tool_calls index traces calls =
    if not (length traces == length calls)
    then some (trace_count index)
    else match_traces index 0 traces calls

-- What the steps before have done: `previous` is `Steps[index-1]`.
pub record StepTotals : Type 0 where
  pub completed : ℕ
  pub usage : Usage
  pub previous : Option Step

-- `minimumTokens`
abbrev pub minimum_tokens : Option Step → ℤ → ℤ → ℤ
unfolding add_int
minimum_tokens none total current = total
minimum_tokens (some p) total current = int_max_of total (add_int p.budget_used.tokens current)

-- `validateContinuationStepBudget`
unfoldable pub validate_step_budget :
    ℕ → Step → Message → Bool → StepTotals → ℤ → Option ContinuationError
unfolding minimum_tokens
validate_step_budget index step assistant pending_step p current =
    let least = minimum_tokens p.previous p.usage.total_tokens current in
    if not (step.budget_used.tool_calls == pos p.completed)
    then some (tool_call_snapshot index)
    else if pending_step || is_empty assistant.tool_calls
    then refuse_if (not (step.budget_used.tokens == least)) (token_snapshot index)
    else refuse_if (int_ltb step.budget_used.tokens least) (token_below_usage index)

-- The checks of `validateContinuationStep` up to the operation IDs.
unfoldable pub check_step : ℕ → Bool → Step → Option ContinuationError
unfolding valid_model_call_usage
check_step index is_last step =
    if not (step.index == pos index)
    then some (step_index index)
    else if negative step.budget_used.tokens
        || negative step.budget_used.tool_calls
        || negative step.budget_used.wall_clock
    then some (step_negative index)
    else elim step.model_call [
      | none ↦ some (step_usage index)
      | some call ↦
          if not (valid_model_call_usage call)
          then some (step_usage index)
          else refuse_if (not is_last && not (is_continue step.decision)) (step_terminal index)
    ]

-- the tool calls of a step that waits for them, or of one that has them
unfoldable pub check_tool_calls : ℕ → Bool → Step → Message → Option ContinuationError
unfolding validate_step_tool_calls
check_tool_calls index pending_step step assistant =
    if pending_step
    then refuse_if (not (is_empty step.tool_calls) || not (is_continue step.decision))
        (step_finalized index)
    else validate_step_tool_calls index step.tool_calls assistant.tool_calls

-- `provider.Usage{}`
abbrev pub no_usage : Usage
no_usage = record {
  input_tokens = pos 0;
  cached_input_tokens = pos 0;
  cached_input_tokens_reported = false;
  cache_write_input_tokens = pos 0;
  cache_write_input_tokens_reported = false;
  output_tokens = pos 0;
  reasoning_tokens = pos 0;
  total_tokens = pos 0;
}

-- The usage of a step's model call; `check_step` has refused a step without one.
abbrev pub usage_of : Step → Usage
usage_of step = elim step.model_call [ none ↦ no_usage | some call ↦ call.usage ]

unfoldable pub progress_after : Bool → Step → Message → StepTotals → StepTotals
unfolding add
progress_after pending_step step assistant p = record {
  completed = if pending_step then p.completed else p.completed + length assistant.tool_calls;
  usage = add p.usage (usage_of step);
  previous = p.previous;
}

abbrev pub and_ok {ℓ} : {A : Type ℓ} → Option ContinuationError → A → Result ContinuationError A
and_ok none a = ok a
and_ok (some e) a = err e

-- `validateContinuationStep`
unfoldable pub validate_step :
    ContinuationPhase
    → ℕ
    → Bool
    → ℕ
    → Step
    → Message
    → StepTotals
    → Result ContinuationError StepTotals
unfolding check_step check_operations check_tool_calls progress_after validate_step_budget
validate_step phase index is_last turn step assistant p =
    let pending_step = is_model_complete phase && is_last in
    let p' = progress_after pending_step step assistant p in
    and_ok
      (or_else (check_step index is_last step) (
        or_else (check_operations index turn 0 assistant.tool_calls) (
          or_else (check_tool_calls index pending_step step assistant) (
            validate_step_budget index step assistant pending_step p'
              (usage_of step).total_tokens))))
      (record p' { previous = some step })

-- `continuation.Messages[analysis.assistantIndices[i]]`
abbrev pub assistant_at : List Message → List ℕ → ℕ → Option Message
assistant_at ms indices i = elim (get_elem? indices i) [ none ↦ none | some j ↦ get_elem? ms j ]

abbrev pub or_panic {ℓ} : {A : Type ℓ} → Option A → Result ContinuationError A
or_panic none = err index_panic
or_panic (some a) = ok a

-- The loop of `validateContinuationSteps` from the step `index` on: `turn` and `at` are
-- `firstOperationTurn+index` and `firstGeneratedAssistant+index`.
unfoldable pub validate_steps_from :
    ContinuationPhase
    → List Message
    → List ℕ
    → ℕ
    → ℕ
    → ℕ
    → List Step
    → StepTotals
    → Result ContinuationError StepTotals
unfolding validate_step
validate_steps_from phase ms indices index turn at [] p = ok p
validate_steps_from phase ms indices index turn at (step ∷ steps) p =
    and_then
      (and_then (or_panic (assistant_at ms indices at))
        (λ assistant. validate_step phase index (is_empty steps) turn step assistant p))
      (validate_steps_from phase ms indices (suc index) (suc turn) (suc at) steps)

abbrev pub no_progress : StepTotals
no_progress = record { completed = 0; usage = no_usage; previous = none }

abbrev pub magnitude : ℤ → ℕ
magnitude (pos n) = n
magnitude (negsuc n) = 0

-- `validateContinuationSteps`; the turn is not negative, by the scalar checks
unfoldable pub validate_steps :
    Continuation → TranscriptAnalysis → Result ContinuationError StepTotals
unfolding validate_steps_from
validate_steps c a =
    let n = length c.steps in
    if int_ltb c.next_operation_turn (pos n)
    then err turn_precedes_steps
    else if ltb (length a.assistant_indices) n
    then err too_few_assistants
    else validate_steps_from c.phase c.messages a.assistant_indices 0
        (magnitude c.next_operation_turn - n) (length a.assistant_indices - n) c.steps no_progress
