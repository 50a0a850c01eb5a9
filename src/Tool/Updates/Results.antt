-- ===== src/Tool/Updates/Results.antt =====
-- The result of a tool call that streamed its output (`normalizeUpdatedResult` of tool/update.go).
use go_hydaelyn.Prelude.{true, List, ◌≡◌, text_eq_instance}
use go_hydaelyn.Message.{ContentPart, ToolCall, ToolResult, kind_eq}
use go_hydaelyn.Message.Content.{text_for_kinds, text_kinds}
use go_hydaelyn.Tool.Updates.{equal_content}

-- A result of the call whose parts are those that were streamed, and whose text is theirs.
pub record Delivers (call : ToolCall) (streamed : List ContentPart) (r : ToolResult) : Type 0 where
  pub id : r.tool_call_id ≡ call.id
  pub name : r.name ≡ call.name
  pub parts : equal_content r.parts streamed ≡ true
  pub text : r.content ≡ text_for_kinds streamed text_kinds
