-- ===== src/Agent/Resumption.antt =====
-- How a continuation with pending calls is taken up: the start of `resumeModelComplete`
-- (agent/resume.go). An index out of range, at which the code panics, is `none`.
pub mod Partial
use go_hydaelyn.Prelude.{ℕ, Option, none, some, List, [], ◌∷◌}
use go_hydaelyn.Message.{ToolCall, Message}
use go_hydaelyn.Agent.{Step, Continuation}
use go_hydaelyn.Agent.Operations.{scan_operation_id}
use go_hydaelyn.Agent.Validation.{last_of}

abbrev then_some {ℓ κ} : {A : Type ℓ} {B : Type κ} → Option A → (A → Option B) → Option B
then_some none k = none
then_some (some a) k = k a

abbrev pub first_call : List ToolCall → Option ToolCall
first_call [] = none
first_call (call ∷ calls) = some call

-- the turn that `Sscanf` leaves, 0 where it fails
abbrev pub turn_of : ToolCall → ℕ
unfolding scan_operation_id
turn_of call = elim (scan_operation_id call.operation_id) [ none ↦ 0 | some (turn, slot) ↦ turn ]

-- The message whose calls are executed, the step that is finished, and the operation turn.
unfoldable pub resume_model_complete : Continuation → Option (Message × Step × ℕ)
unfolding last_of turn_of
resume_model_complete c = then_some (last_of c.messages) (λ assistant.
    then_some (last_of c.steps) (λ step.
      then_some (first_call assistant.tool_calls) (λ call. some (assistant, step, turn_of call))))
