-- ===== src/Examples/Updates.antt =====
-- One tool call that streams its output (tool/update.go).
use go_hydaelyn.Prelude.{false, none, some, [], ◌∷◌}
use go_hydaelyn.Message.{ContentPart, ToolCall, ToolResult, ContentKind, empty_part}
use go_hydaelyn.Tool.{UpdateKind, Update, UpdateError}
use go_hydaelyn.Tool.Updates.{Sink, UpdateState, new_state}
use go_hydaelyn.Tool.Updates.Accepted.{emit_all, StreamSound, emitted-StreamSound}

abbrev lookup : ToolCall
lookup = record { id = 99 ∷ []; name = 108 ∷ []; arguments = []; operation_id = [] }

abbrev chunk : ContentPart
chunk = record (empty_part ContentKind.text) { text = 104 ∷ 105 ∷ [] }

abbrev said : Update
said = record {
  kind = UpdateKind.output;
  tool_call_id = [];
  operation_id = [];
  sequence = 9;
  message = [];
  data_fields = [];
  parts = chunk ∷ [];
}

-- a progress update may not carry parts
abbrev malformed : Update
malformed = record said { kind = UpdateKind.progress }

abbrev listening : Sink
listening u = none

abbrev bare : ToolResult
bare = record {
  tool_call_id = [];
  name = [];
  content = [];
  parts = [];
  structured = [];
  is_error = false;
}

emitted-StreamSound_example :
    StreamSound lookup
      (emit_all lookup (some listening) new_state (said ∷ malformed ∷ [])).0
      (emit_all lookup (some listening) new_state (said ∷ malformed ∷ [])).1
emitted-StreamSound_example = emitted-StreamSound lookup listening (said ∷ malformed ∷ [])

abbrev failed_state : UpdateState
failed_state = record new_state { failure = some UpdateError.count_limit }
