-- ===== src/Tool/Updates.antt =====
-- The update stream of one tool call (tool/update.go). The mutex makes each `emit` one step. The
-- sink is a function of the update, none if there is no sink; since every update has its own
-- sequence number, it may answer each differently. A panic of the sink is its error.
pub mod Accepted
pub mod Results
pub mod Driver
use go_hydaelyn.Prelude.{
  ℕ, ◌+◌, ◌-◌, ◌*◌, ◌^◌, ltb, leb, Bool, true, false, not, ◌&&◌, ◌||◌, Option, none, some, List, [],
  ◌∷◌, ◌++◌, Text, length, ◌==◌, text_eq_instance, if◌then◌else◌,
}
use go_hydaelyn.Prelude.Assoc.{Map}
use go_hydaelyn.Message.{
  ContentKind, text, commentary, final_answer, reasoning, redacted_reasoning, image, audio, file,
  source, provider_data, other_content, Source, ContentPart, ToolCall, ToolResult, kind_eq,
}
use go_hydaelyn.Message.Content.{is_empty, is_none, sync_result}
use go_hydaelyn.Tool.{
  UpdateKind, progress, output, other_update, Update, UpdateError, emitted_after_return,
  progress_with_parts, output_without_parts, unknown_kind, count_limit, byte_limit, result_differs,
  sink_error,
}

abbrev pub max_updates : ℕ
max_updates = 65536

abbrev pub max_update_bytes : ℕ
max_update_bytes = 64 * 2 ^ 20

abbrev pub Sink : Type 0
Sink = Update → Option Text

pub record UpdateState : Type 0 where
  pub closed : Bool
  pub count : ℕ
  pub size : ℕ
  pub content : List ContentPart
  pub failure : Option UpdateError

abbrev pub new_state : UpdateState
new_state = record { closed = false; count = 0; size = 0; content = []; failure = none }

-- `validateUpdate`; `none` is a nil error
unfoldable pub validate_update : Update → Option UpdateError
validate_update u = elim u.kind [
  | progress ↦ if not (is_empty u.parts) then some progress_with_parts else none
  | output ↦ if is_empty u.parts then some output_without_parts else none
  | other_update k ↦ some unknown_kind
]

abbrev kind_length : UpdateKind → ℕ
kind_length progress = 8
kind_length output = 6
kind_length (other_update k) = length k

-- the bytes of a content kind's constant
abbrev content_kind_length : ContentKind → ℕ
content_kind_length text = 4
content_kind_length commentary = 10
content_kind_length final_answer = 12
content_kind_length reasoning = 9
content_kind_length redacted_reasoning = 18
content_kind_length image = 5
content_kind_length audio = 5
content_kind_length file = 4
content_kind_length source = 6
content_kind_length provider_data = 13
content_kind_length (other_content k) = length k

source_bytes : Option Source → ℕ
source_bytes none = 0
source_bytes (some s) =
    length s.id + length s.url + length s.title + length s.media_type + length s.filename

data_bytes : Map Text Text → ℕ
data_bytes [] = 0
data_bytes ((k, v) ∷ m) = (length k + length v) + data_bytes m

part_bytes : List ContentPart → ℕ
unfolding source_bytes
part_bytes [] = 0
part_bytes (p ∷ ps) =
    (length p.id
      + content_kind_length p.kind
      + length p.text
      + length p.bytes
      + length p.media_type
      + length p.uri
      + length p.filename
      + length p.signature
      + length p.provider_data
      + source_bytes p.source)
    + part_bytes ps

unfoldable pub decoded_update_bytes : Update → ℕ
unfolding data_bytes part_bytes
decoded_update_bytes u =
    8
    + kind_length u.kind
    + length u.tool_call_id
    + length u.operation_id
    + length u.message
    + data_bytes u.data_fields
    + part_bytes u.parts

-- What `emit` returns, the state it leaves, and the update that went to the sink, if one did.
pub record Emitted : Type 0 where
  pub error : Option UpdateError
  pub state : UpdateState
  pub sent : Option Update

-- `failLocked` where there is no error yet, and the return
abbrev pub fails : UpdateError → UpdateState → Option Update → Emitted
fails e s sent = record { error = some e; state = record s { failure = some e }; sent = sent }

-- the fields that `emit` fills in
abbrev pub stamped : ToolCall → ℕ → Update → Update
stamped call n u = record u {
  tool_call_id = call.id;
  operation_id = call.operation_id;
  sequence = n + 1;
}

abbrev pub is_output : UpdateKind → Bool
is_output output = true
is_output _ = false

-- the counters and the output behind the two limits
unfoldable pub count_update : UpdateState → Update → UpdateState
unfolding decoded_update_bytes
count_update s u = record s {
  count = s.count + 1;
  size = s.size + decoded_update_bytes u;
  content = if is_output u.kind then s.content ++ u.parts else s.content;
}

abbrev pub answered : UpdateState → Update → Option Text → Emitted
answered s u none = record { error = none; state = s; sent = some u }
answered s u (some e) = fails (sink_error e) s (some u)

unfoldable pub deliver : Option Sink → UpdateState → Update → Emitted
deliver none s u = record { error = none; state = s; sent = none }
deliver (some sink) s u = answered s u (sink u)

-- the two limits, and what follows
unfoldable pub emit_valid : ToolCall → Option Sink → UpdateState → Update → Emitted
unfolding count_update deliver decoded_update_bytes
emit_valid call sink s u =
    if leb max_updates s.count
    then fails count_limit s none
    else let filled = stamped call s.count u in
      if ltb (max_update_bytes - s.size) (decoded_update_bytes filled)
      then fails byte_limit s none
      else deliver sink (count_update s filled) filled

abbrev pub checked_emit : Option UpdateError → UpdateState → Emitted → Emitted
checked_emit (some e) s k = fails e s none
checked_emit none s k = k

abbrev pub unless_failed : Option UpdateError → UpdateState → Emitted → Emitted
unless_failed (some e) s k = record { error = some e; state = s; sent = none }
unless_failed none s k = k

unfoldable pub emit : ToolCall → Option Sink → UpdateState → Update → Emitted
unfolding validate_update emit_valid
emit call sink s u =
    if s.closed
    then record { error = some emitted_after_return; state = s; sent = none }
    else unless_failed s.failure s (checked_emit (validate_update u) s (emit_valid call sink s u))

-- `finish`
unfoldable pub finish : UpdateState → UpdateState
finish s = record s { closed = true }

unfoldable pub same_source : Option Source → Option Source → Bool
same_source none none = true
same_source none (some b) = false
same_source (some a) none = false
same_source (some a) (some b) =
    a.id == b.id
    && a.url == b.url
    && a.title == b.title
    && a.media_type == b.media_type
    && a.filename == b.filename

unfoldable pub equal_content_part : ContentPart → ContentPart → Bool
unfolding same_source
equal_content_part a b =
    a.id == b.id
    && a.kind == b.kind
    && a.text == b.text
    && a.media_type == b.media_type
    && a.uri == b.uri
    && a.filename == b.filename
    && a.signature == b.signature
    && a.bytes == b.bytes
    && a.provider_data == b.provider_data
    && same_source a.source b.source

unfoldable pub equal_content : List ContentPart → List ContentPart → Bool
unfolding equal_content_part
equal_content [] [] = true
equal_content [] (b ∷ bs) = false
equal_content (a ∷ rest) [] = false
equal_content (a ∷ rest) (b ∷ bs) = equal_content_part a b && equal_content rest bs

abbrev pub only_parts : List ContentPart → ToolResult
only_parts ps = record {
  tool_call_id = [];
  name = [];
  content = [];
  parts = ps;
  structured = [];
  is_error = false;
}

-- `normalizeUpdatedResult`: the result, and whether it is that of the stream
unfoldable pub normalize_updated_result :
    ToolCall → ToolResult → List ContentPart → ToolResult × Option UpdateError
unfolding sync_result equal_content
normalize_updated_result call r streamed =
    let named = record r { tool_call_id = call.id; name = call.name } in
    if is_empty streamed
    then (sync_result named, none)
    else if is_empty named.parts
    then (sync_result (record named { parts = streamed }), none)
    else let synced = sync_result named in
      let expected = sync_result (only_parts streamed) in
      if not (synced.content == expected.content) || not (equal_content synced.parts expected.parts)
      then (synced, some result_differs)
      else (synced, none)
