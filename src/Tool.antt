-- ===== src/Tool.antt =====
-- Tool calls, updates and the errors of the update protocol (tool/tool.go, tool/update.go).
pub mod Interceptors
pub mod Updates
use go_hydaelyn.Prelude.{ℕ, List, Text}
use go_hydaelyn.Prelude.Assoc.{Map}
use go_hydaelyn.Message.{ContentPart}

pub data UpdateKind : Type 0 where
  progress output : UpdateKind
  other_update : Text → UpdateKind

pub record Update : Type 0 where
  pub kind : UpdateKind
  pub tool_call_id : Text
  pub operation_id : Text
  pub sequence : ℕ
  pub message : Text
  pub data_fields : Map Text Text
  pub parts : List ContentPart

-- The error of an update: of the protocol, of a limit, or of the sink, with its text.
pub data UpdateError : Type 0 where
  emitted_after_return progress_with_parts output_without_parts unknown_kind : UpdateError
  count_limit byte_limit result_differs : UpdateError
  sink_error : Text → UpdateError
