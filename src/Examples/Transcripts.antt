-- ===== src/Examples/Transcripts.antt =====
-- A transcript with one tool exchange, run through the functions of message/history.go.
use go_hydaelyn.Prelude.{
  ℕ, Bool, true, false, Option, none, some, List, [], ◌∷◌, ◌++◌, ◌≡◌, refl, Text, ok, All, drop,
  replicate, length,
}
use go_hydaelyn.Prelude.Int.{pos}
use go_hydaelyn.Message.{Message, ToolCall, ToolResult, Role, empty_message}
use go_hydaelyn.Message.History.{
  validate_complete_turns, complete_turn_boundary, cache_prefix_boundary, validate_group,
}
use go_hydaelyn.Message.History.Turns.{Turns}
use go_hydaelyn.Message.History.Boundary.{
  CutsTurns, IsUnmarked, complete_turn_boundary-CutsTurns, cache_prefix_boundary-CutsTurns,
}
use go_hydaelyn.Message.History.Matching.{Answers, validate_group-Answers}

abbrev call_id : Text
call_id = 99 ∷ 49 ∷ []

abbrev tool_name : Text
tool_name = 116 ∷ []

abbrev question : Message
question = record (empty_message Role.user) { text = 63 ∷ []; cache_boundary = true }

abbrev call : ToolCall
call = record { id = call_id; name = tool_name; arguments = []; operation_id = [] }

abbrev asking : Message
asking = record (empty_message Role.assistant) { tool_calls = call ∷ [] }

abbrev answer : ToolResult
answer = record {
  tool_call_id = call_id;
  name = tool_name;
  content = 52 ∷ [];
  parts = [];
  structured = [];
  is_error = false;
}

abbrev answering : Message
answering = record (empty_message Role.tool) { tool_result = some answer }

abbrev exchange : List Message
exchange = question ∷ asking ∷ answering ∷ []

exchange_accepted : validate_complete_turns exchange ≡ none
unfolding validate_complete_turns validate_group go_hydaelyn.Prelude.Assoc.get
    go_hydaelyn.Message.History.match_reply go_hydaelyn.Message.History.unmatched_call_index
    go_hydaelyn.Prelude.Assoc.put go_hydaelyn.Prelude.text_eq
exchange_accepted = refl

-- A cut between the call and its answer is moved to the call.
cut_moved : complete_turn_boundary exchange (pos 2) ≡ ok 1
unfolding complete_turn_boundary validate_complete_turns validate_group
    go_hydaelyn.Prelude.Assoc.get go_hydaelyn.Message.History.match_reply
    go_hydaelyn.Message.History.unmatched_call_index go_hydaelyn.Prelude.Assoc.put
    go_hydaelyn.Prelude.text_eq
cut_moved = refl

complete_turn_boundary-CutsTurns_example :
    (s : ℕ) × (complete_turn_boundary exchange (pos 2) ≡ ok s) × CutsTurns exchange s
complete_turn_boundary-CutsTurns_example =
    complete_turn_boundary-CutsTurns exchange (pos 2) exchange_accepted

cache_prefix_boundary-CutsTurns_example :
    (s : ℕ) × (cache_prefix_boundary exchange ≡ ok s)
    × CutsTurns exchange s
    × All IsUnmarked (drop s exchange)
cache_prefix_boundary-CutsTurns_example = cache_prefix_boundary-CutsTurns exchange exchange_accepted

group_accepted : validate_group 0 (call ∷ []) (answering ∷ []) ≡ none
unfolding validate_group go_hydaelyn.Prelude.Assoc.get go_hydaelyn.Message.History.match_reply
    go_hydaelyn.Message.History.unmatched_call_index go_hydaelyn.Prelude.Assoc.put
    go_hydaelyn.Prelude.text_eq
group_accepted = refl

validate_group-Answers_example :
    Answers (call ∷ []) (replicate 1 false) (answering ∷ []) (replicate 1 true)
validate_group-Answers_example =
    validate_group-Answers 0 (call ∷ []) (answering ∷ []) refl group_accepted
