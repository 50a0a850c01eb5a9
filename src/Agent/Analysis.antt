-- ===== src/Agent/Analysis.antt =====
-- `analyzeTranscript` (agent/continuation.go): which calls of a transcript wait for results, where
-- its assistant turns are, and the latest operation turn.
pub mod Naming
pub mod Grammar
pub mod Exchanges
pub mod Latest
pub mod Ordered
pub mod Turns
use mathlib.Core.Bool.{not}
use go_hydaelyn.Prelude.{
  ℕ, suc, ltb, ◌==◌, nat_eq, text_eq_instance, Result, ok, err, Bool, true, false, ◌&&◌, ◌||◌,
  Option, none, some, List, [], ◌∷◌, ◌++◌, Text, length, get_elem?, if◌then◌else◌,
}
use go_hydaelyn.Prelude.Distinct.{member}
use go_hydaelyn.Prelude.Int.{ℤ, pos, negsuc, int_ltb}
use go_hydaelyn.Message.{ToolCall, ToolResult, Message}
use go_hydaelyn.Message.Content.{is_empty}
use go_hydaelyn.Message.History.{is_assistant, is_tool}
use go_hydaelyn.Agent.Operations.{operation_id, scan_operation_id}

-- The reasons that `continuationError` is given here, with the message's index.
pub data TranscriptError : Type 0 where
  splits_results wrong_answer orphan_result unnamed_call : ℕ → TranscriptError
  repeated_id invalid_operation : ℕ → Text → TranscriptError
  index_panic : TranscriptError

pub record TranscriptAnalysis : Type 0 where
  pub pending : Bool
  pub ends_with_tool_results : Bool
  pub pending_calls : List ToolCall
  pub assistant_indices : List ℕ
  pub max_operation_turn : ℤ

-- The loop's variables: of the analysis, the fields that the loop writes.
pub record Scan : Type 0 where
  pub ends_with_tool_results : Bool
  pub assistant_indices : List ℕ
  pub max_operation_turn : ℤ
  pub pending : List ToolCall
  pub pending_index : ℕ

abbrev pub unscanned : Scan
unscanned = record {
  ends_with_tool_results = false;
  assistant_indices = [];
  max_operation_turn = negsuc 0;
  pending = [];
  pending_index = 0;
}

abbrev pub max_turn : ℤ → ℕ → ℤ
max_turn m turn = if int_ltb m (pos turn) then pos turn else m

-- the checks of an operation ID that is not empty; `none` is an invalid one
unfoldable pub operation_turn : ℕ → Text → Option ℕ
operation_turn slot id = elim (scan_operation_id id) [
  | none ↦ none
  | some (turn, n) ↦ if id == operation_id turn n && n == slot then some turn else none
]

-- the body of the loop over an assistant's calls: the latest turn after the call
unfoldable pub check_call : ℕ → ℕ → List Text → ToolCall → ℤ → Result TranscriptError ℤ
check_call index slot seen c latest =
    if is_empty c.id || is_empty c.name
    then err (unnamed_call index)
    else if member seen c.id
    then err (repeated_id index c.id)
    else if is_empty c.operation_id
    then ok latest
    else elim (operation_turn slot c.operation_id) [
      | none ↦ err (invalid_operation index c.operation_id)
      | some turn ↦ ok (max_turn latest turn)
    ]

abbrev pub and_then {ℓ κ μ} :
    {E : Type ℓ} {A : Type κ} {B : Type μ} → Result E A → (A → Result E B) → Result E B
and_then (err e) k = err e
and_then (ok a) k = k a

-- `for callIndex, call := range current.ToolCalls`
unfoldable pub check_calls : ℕ → ℕ → List Text → List ToolCall → ℤ → Result TranscriptError ℤ
check_calls index slot seen [] latest = ok latest
check_calls index slot seen (c ∷ cs) latest =
    and_then (check_call index slot seen c latest) (check_calls index (suc slot) (c.id ∷ seen) cs)

-- a message while calls are pending
unfoldable pub scan_result : ℕ → ToolCall → Message → Option TranscriptError
scan_result index expected m =
    if not (is_tool m.role) then some (splits_results index) else elim m.tool_result [
      | none ↦ some (splits_results index)
      | some r ↦ if r.tool_call_id == expected.id then none else some (wrong_answer index)
    ]

-- the scan after a result
abbrev pub answered : Scan → Scan
answered s =
    if suc s.pending_index == length s.pending
    then (record s { ends_with_tool_results = true; pending = []; pending_index = 0 })
    else (record s { ends_with_tool_results = true; pending_index = suc s.pending_index })

abbrev pub or_fail {ℓ} : {A : Type ℓ} → Option TranscriptError → A → Result TranscriptError A
or_fail none a = ok a
or_fail (some e) a = err e

unfoldable pub scan_pending : ℕ → Message → Scan → Result TranscriptError Scan
scan_pending index m s = elim (get_elem? s.pending s.pending_index) [
  | none ↦ err index_panic
  | some expected ↦ or_fail (scan_result index expected m) (answered s)
]

-- the scan after a message that is no result
abbrev pub quieted : Scan → Scan
quieted s = record s { ends_with_tool_results = false }

-- after an assistant's message
abbrev pub seen_at : ℕ → Scan → Scan
seen_at index s = record (quieted s) { assistant_indices = s.assistant_indices ++ index ∷ [] }

-- after one that makes calls
abbrev pub called : ℕ → Message → Scan → ℤ → Scan
called index m s latest = record (seen_at index s) {
  max_operation_turn = latest;
  pending = m.tool_calls;
}

-- a message while no calls are pending
unfoldable pub scan_message : ℕ → Message → Scan → Result TranscriptError Scan
scan_message index m s =
    if is_tool m.role
    then err (orphan_result index)
    else if not (is_assistant m.role)
    then ok (quieted s)
    else if is_empty m.tool_calls
    then ok (seen_at index s)
    else and_then (check_calls index 0 [] m.tool_calls s.max_operation_turn)
        (λ latest. ok (called index m s latest))

unfoldable pub scan_step : ℕ → Message → Scan → Result TranscriptError Scan
scan_step index m s = if is_empty s.pending then scan_message index m s else scan_pending index m s

-- `for messageIndex, current := range messages`
unfoldable pub scan_from : ℕ → List Message → Scan → Result TranscriptError Scan
scan_from index [] s = ok s
scan_from index (m ∷ ms) s = and_then (scan_step index m s) (scan_from (suc index) ms)

abbrev pub analysis_of : Scan → TranscriptAnalysis
analysis_of s = record {
  pending = not (is_empty s.pending);
  ends_with_tool_results = s.ends_with_tool_results;
  pending_calls = s.pending;
  assistant_indices = s.assistant_indices;
  max_operation_turn = s.max_operation_turn;
}

unfoldable pub analyze_transcript : List Message → Result TranscriptError TranscriptAnalysis
analyze_transcript messages = and_then (scan_from 0 messages unscanned) (λ s. ok (analysis_of s))
