-- ===== src/Examples/Continuations.antt =====
-- A continuation whose last turn made two calls, run through agent/continuation.go and
-- agent/resume.go.
use go_hydaelyn.Prelude.{
  ℕ, Bool, true, false, none, some, List, [], ◌∷◌, ◌≡◌, refl, Text, ok, All, arith, inr,
}
use go_hydaelyn.Prelude.{not}
use go_hydaelyn.Prelude.Int.{pos}
use go_hydaelyn.Message.{Message, ToolCall, ToolResult, Role, empty_message}
use go_hydaelyn.Message.Content.{is_empty}
use go_hydaelyn.Message.History.{is_assistant, is_tool}
use go_hydaelyn.Provider.{Usage, tool_use}
use go_hydaelyn.Agent.{Continuation, Step, StepDecision, model_complete}
use go_hydaelyn.Agent.Operations.{operation_id, scan_operation_id, scan-operation_id, decimal}
use go_hydaelyn.Agent.Analysis.{
  TranscriptAnalysis, analyze_transcript, scan_from, scan_step, scan_message, check_calls,
  check_call, operation_turn,
}
use go_hydaelyn.Agent.Scalars.{
  validate_scalars, valid_model_call_usage, validate_usage, validate_budget, validate_output_policy,
}
use go_hydaelyn.Provider.Usages.{add}
use go_hydaelyn.Prelude.{text_eq, lit}
use go_hydaelyn.Prelude.Distinct.{member}
use go_hydaelyn.Agent.Analysis.Grammar.{Exchanges, ended, quiet, call, IsCalling, Replies}
use go_hydaelyn.Agent.Analysis.Exchanges.{analyze_iff_Exchanges}
use go_hydaelyn.Agent.StepChecks.{
  magnitude, validate_steps, validate_step, validate_steps_from, check_operations, check_step,
  check_tool_calls, validate_step_budget, progress_after,
}
use go_hydaelyn.Agent.Validation.{
  validate_continuation, last_of, phase_transcript, validate_totals, phase_steps, usage_contains,
  validate_contents, validate_counts,
}
use go_hydaelyn.Agent.Validation.Fresh.{IsFresh, next_turns-IsFresh}
use go_hydaelyn.Agent.Resumption.{resume_model_complete}
use go_hydaelyn.Agent.Resumption.Partial.{with_reply, partial_answer_panics}

scan-operation_id_example : scan_operation_id (operation_id 3 1) ≡ some (3, 1)
scan-operation_id_example = scan-operation_id 3 1 (omega arith) (omega arith)

abbrev question : Message
question = record (empty_message Role.user) { text = 63 ∷ [] }

abbrev call_a : ToolCall
call_a = record { id = 97 ∷ []; name = 116 ∷ []; arguments = []; operation_id = operation_id 0 0 }

abbrev call_b : ToolCall
call_b = record { id = 98 ∷ []; name = 116 ∷ []; arguments = []; operation_id = operation_id 0 1 }

abbrev asking : Message
asking = record (empty_message Role.assistant) { tool_calls = call_a ∷ call_b ∷ [] }

abbrev result_of : Text → ToolResult
result_of id = record {
  tool_call_id = id;
  name = 116 ∷ [];
  content = [];
  parts = [];
  structured = [];
  is_error = false;
}

abbrev answer_a : Message
answer_a = record (empty_message Role.tool) { tool_result = some (result_of (97 ∷ [])) }

abbrev answer_b : Message
answer_b = record (empty_message Role.tool) { tool_result = some (result_of (98 ∷ [])) }

abbrev used : Usage
used = record {
  input_tokens = pos 5;
  cached_input_tokens = pos 0;
  cached_input_tokens_reported = false;
  cache_write_input_tokens = pos 0;
  cache_write_input_tokens_reported = false;
  output_tokens = pos 2;
  reasoning_tokens = pos 0;
  total_tokens = pos 7;
}

abbrev first_step : Step
first_step = record {
  index = pos 0;
  model_call =
      some (record { provider = []; model = 109 ∷ []; usage = used; stop_reason = tool_use });
  tool_calls = [];
  observations = [];
  decision = StepDecision.continue;
  budget_used = record { tokens = pos 7; tool_calls = pos 0; wall_clock = pos 0 };
}

abbrev waiting : Continuation
waiting = record {
  schema_version = pos 1;
  request = record { prompt = []; budget = none };
  output_policy = record {
    schema = [];
    validate = false;
    repair = false;
    max_repair_attempts = pos 0;
  };
  messages = question ∷ asking ∷ [];
  usage = used;
  steps = first_step ∷ [];
  tool_calls_used = pos 0;
  repair_count = pos 0;
  active_elapsed = pos 0;
  next_operation_turn = pos 1;
  phase = model_complete;
}

abbrev no_json : List ℕ → Bool
no_json s = false

waiting_accepted : validate_continuation no_json waiting ≡ none
unfolding validate_continuation validate_scalars analyze_transcript scan_from scan_step scan_message
    is_tool is_assistant check_calls check_call member operation_turn scan_operation_id decimal
    text_eq phase_transcript validate_steps operation_id validate_step validate_steps_from
    validate_totals lit check_operations check_step check_tool_calls validate_step_budget
    progress_after last_of phase_steps usage_contains valid_model_call_usage validate_usage
    validate_budget validate_output_policy add validate_contents validate_counts
waiting_accepted = refl

-- Both calls wait, and then one.
asked : IsCalling asking
unfolding is_assistant member text_eq
asked = record {
  from_assistant = refl;
  calls_made = refl;
  named = (
    record {
      id_given = refl;
      name_given = refl;
      fresh = refl;
      operation = inr (0, omega arith, omega arith, refl);
    },
    (
      record {
        id_given = refl;
        name_given = refl;
        fresh = refl;
        operation = inr (0, omega arith, omega arith, refl);
      },
      tt,
    ),
  );
}

both_wait : Exchanges (question ∷ asking ∷ []) (call_a ∷ call_b ∷ [])
unfolding is_tool is_assistant
both_wait =
    quiet question (asking ∷ []) (call_a ∷ call_b ∷ [])
      (record { no_result = refl; no_call = refl })
      (call asking [] (call_a ∷ call_b ∷ []) asked (ended (call_a ∷ call_b ∷ [])))

answer_a-Replies : Replies call_a answer_a
unfolding is_tool
answer_a-Replies = record {
  from_tool = refl;
  result = result_of (97 ∷ []);
  given = refl;
  to_call = refl;
}

partial_answer_panics_example :
    (validate_continuation no_json (with_reply waiting answer_a) ≡ none)
    × (resume_model_complete (with_reply waiting answer_a) ≡ none)
partial_answer_panics_example =
    partial_answer_panics no_json waiting answer_a call_a call_b [] waiting_accepted refl both_wait
      answer_a-Replies refl

next_turns-IsFresh_example :
    All
      (λ m.
        is_assistant m.role ≡ true
        → All (IsFresh (magnitude waiting.next_operation_turn)) m.tool_calls)
      waiting.messages
next_turns-IsFresh_example = next_turns-IsFresh no_json waiting waiting_accepted

abbrev answered_turn : List Message
answered_turn = question ∷ asking ∷ answer_a ∷ answer_b ∷ []

analyze_iff_Exchanges_example :
    ((a : TranscriptAnalysis)
      → analyze_transcript answered_turn ≡ ok a
      → (open_calls : List ToolCall) × Exchanges answered_turn open_calls
        × (a.pending ≡ not (is_empty open_calls)))
    × ((open_calls : List ToolCall)
        → Exchanges answered_turn open_calls
        → (a : TranscriptAnalysis) × (analyze_transcript answered_turn ≡ ok a)
          × (a.pending ≡ not (is_empty open_calls)))
analyze_iff_Exchanges_example = analyze_iff_Exchanges answered_turn

abbrev answered_analysis : TranscriptAnalysis
answered_analysis = record {
  pending = false;
  ends_with_tool_results = true;
  pending_calls = [];
  assistant_indices = 1 ∷ [];
  max_operation_turn = pos 0;
}
