-- ===== src/Durable/Runtime/Codec.antt =====
-- The envelope of a tool attempt and the record of a failure (durable/codec.go).
use mathlib.Core.Bool.{not}
use go_hydaelyn.Prelude.{ℕ, Bool, Option, none, some, List, Text, lit, ◌==◌, if◌then◌else◌}
use go_hydaelyn.Prelude.Int.{ℤ, pos, int_eq}
use go_hydaelyn.Message.{ToolResult}
use go_hydaelyn.Durable.{FailureRecord}

-- A driver's error: its text, and what `errors.Is` finds in it.
pub record ToolError : Type 0 where
  pub message : Text
  pub not_started : Bool
  pub not_executed : Bool
  pub canceled : Bool
  pub deadline_exceeded : Bool

-- `failureFromError`
unfoldable pub failure_from_error : Option ToolError → Option FailureRecord
unfolding lit
failure_from_error none = none
failure_from_error (some e) = some (record {
  code =
      if e.not_started
      then lit "provider_not_started"
      else if e.not_executed
      then lit "tool_not_executed"
      else if e.canceled
      then lit "context_canceled"
      else if e.deadline_exceeded
      then lit "deadline_exceeded"
      else lit "error";
  message = e.message;
})

-- `toolAttemptEnvelope`
pub record ToolEnvelope : Type 0 where
  pub version : ℤ
  pub result : ToolResult
  pub failure : Option FailureRecord

-- JSON of an envelope; none is an error of `json.Marshal` or `json.Unmarshal`
pub record Json : Type 0 where
  pub marshal : ToolEnvelope → Option (List ℕ)
  pub unmarshal : List ℕ → Option ToolEnvelope

abbrev pub tool_envelope : ToolResult → Option FailureRecord → ToolEnvelope
tool_envelope result failure = record { version = pos 1; result = result; failure = failure }

unfoldable pub encode_tool_attempt : Json → ToolResult → Option FailureRecord → Option (List ℕ)
encode_tool_attempt json result failure = json.marshal (tool_envelope result failure)

abbrev envelope_content : Option ToolEnvelope → Option (ToolResult × Option FailureRecord)
envelope_content none = none
envelope_content (some e) = if not (e.version == pos 1) then none else some (e.result, e.failure)

unfoldable pub decode_tool_attempt : Json → List ℕ → Option (ToolResult × Option FailureRecord)
decode_tool_attempt json payload = envelope_content (json.unmarshal payload)
