-- ===== src/Message/Content.antt =====
-- Text views of ordered content and the legacy scalar fields (message/content.go, and the two
-- constructors of message/message.go).
use mathlib.Core.Bool.{not}
use mathlib.Core.Option.{some}
use go_hydaelyn.Prelude.{
  Bool, true, false, ◌&&◌, ◌||◌, Option, none, List, [], ◌∷◌, ◌++◌, Text, ◌==◌, nat_eq,
  text_eq_instance, if◌then◌else◌,
}
use go_hydaelyn.Message.{
  Role, tool, ContentKind, ContentPart, ToolResult, Message, empty_part, empty_message, kind_eq,
}

abbrev pub is_empty {ℓ} : {A : Type ℓ} → List A → Bool
is_empty [] = true
is_empty (x ∷ xs) = false

abbrev pub is_none {ℓ} : {A : Type ℓ} → Option A → Bool
is_none none = true
is_none (some x) = false

unfoldable pub text_part : Text → ContentPart
text_part t = record (empty_part ContentKind.text) { text = t }

unfoldable pub reasoning_part : Text → Text → ContentPart
reasoning_part t s = record (empty_part ContentKind.reasoning) { text = t; signature = s }

-- the inner loop of `textForKinds`, with its `break`
kind_among : ContentKind → List ContentKind → Bool
kind_among k [] = false
kind_among k (j ∷ ks) = k == j || kind_among k ks

unfoldable pub text_for_kinds : List ContentPart → List ContentKind → Text
unfolding kind_among
text_for_kinds [] kinds = []
text_for_kinds (p ∷ ps) kinds =
    (if kind_among p.kind kinds then p.text else []) ++ text_for_kinds ps kinds

abbrev pub text_kinds : List ContentKind
text_kinds = ContentKind.text ∷ ContentKind.commentary ∷ ContentKind.final_answer ∷ []

abbrev pub final_answer_kinds : List ContentKind
final_answer_kinds = ContentKind.text ∷ ContentKind.final_answer ∷ []

abbrev pub reasoning_kinds : List ContentKind
reasoning_kinds = ContentKind.reasoning ∷ []

-- `Message.CanonicalContent`
unfoldable pub canonical_content : Message → List ContentPart
unfolding text_part reasoning_part
canonical_content m =
    if not (is_empty m.content)
    then m.content
    else (if not (is_empty m.thinking) || not (is_empty m.thinking_signature)
        then reasoning_part m.thinking m.thinking_signature ∷ []
        else [])
      ++ (if not (is_empty m.redacted_thinking)
          then record (empty_part ContentKind.redacted_reasoning) { bytes = m.redacted_thinking }
            ∷ []
          else [])
      ++ (if not (is_empty m.text) then text_part m.text ∷ [] else [])

unfoldable pub text_content : Message → Text
unfolding canonical_content text_for_kinds
text_content m = text_for_kinds (canonical_content m) text_kinds

unfoldable pub final_answer_content : Message → Text
unfolding canonical_content text_for_kinds
final_answer_content m = text_for_kinds (canonical_content m) final_answer_kinds

unfoldable pub reasoning_content : Message → Text
unfolding canonical_content text_for_kinds
reasoning_content m = text_for_kinds (canonical_content m) reasoning_kinds

unfoldable pub has_content : Message → Bool
unfolding canonical_content
has_content m =
    not (is_empty (canonical_content m))
    || not (is_empty m.tool_calls)
    || not (is_none m.tool_result)
    || not (is_empty m.provider_state)

-- the loop over `m.Content` in `SyncLegacyContent`: the last match counts
last_signature : List ContentPart → Text → Text
last_signature [] s = s
last_signature (p ∷ ps) s =
    last_signature ps
      (if p.kind == ContentKind.reasoning && not (is_empty p.signature) then p.signature else s)

last_redacted : List ContentPart → Text → Text
last_redacted [] s = s
last_redacted (p ∷ ps) s =
    last_redacted ps
      (if p.kind == ContentKind.redacted_reasoning && not (is_empty p.bytes) then p.bytes else s)

-- `(*Message).SyncLegacyContent`
unfoldable pub sync_legacy : Message → Message
unfolding canonical_content text_for_kinds last_signature last_redacted
sync_legacy m =
    if is_empty m.content then record m { content = canonical_content m } else record m {
      text = text_for_kinds m.content text_kinds;
      thinking = text_for_kinds m.content reasoning_kinds;
      thinking_signature = last_signature m.content [];
      redacted_thinking = last_redacted m.content [];
    }

-- `ToolResult.CanonicalContent`
unfoldable pub canonical_result : ToolResult → List ContentPart
unfolding text_part
canonical_result r =
    if not (is_empty r.parts)
    then r.parts
    else if is_empty r.content
    then []
    else text_part r.content ∷ []

unfoldable pub result_text : ToolResult → Text
unfolding canonical_result text_for_kinds
result_text r = text_for_kinds (canonical_result r) text_kinds

-- `(*ToolResult).SyncLegacyContent`
unfoldable pub sync_result : ToolResult → ToolResult
unfolding canonical_result text_for_kinds
sync_result r =
    if is_empty r.parts
    then record r { parts = canonical_result r }
    else record r { content = text_for_kinds r.parts text_kinds }

unfoldable pub new_text : Role → Text → Message
unfolding text_part
new_text r t = record (empty_message r) { text = t; content = text_part t ∷ [] }

unfoldable pub new_tool_result : ToolResult → Message
unfolding sync_result
new_tool_result r = record (empty_message tool) {
  name = r.name;
  tool_result = some (sync_result r);
}
