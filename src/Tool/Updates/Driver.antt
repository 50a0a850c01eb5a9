-- ===== src/Tool/Updates/Driver.antt =====
-- `toolUpdateDriver.Execute` (tool/update.go): the driver's updates, then its terminal result.
use go_hydaelyn.Prelude.{ℕ, ltb, Bool, ◌&&◌, Option, none, some, List, Text, if◌then◌else◌}
use go_hydaelyn.Message.{ToolCall, ToolResult}
use go_hydaelyn.Tool.{Update, UpdateError}
use go_hydaelyn.Tool.Updates.{Sink, new_state, finish, normalize_updated_result}
use go_hydaelyn.Tool.Updates.Accepted.{emit_all}

-- An error of the driver below, and whether `ErrNotExecuted` is in its chain.
pub record DriverError : Type 0 where
  pub reason : Text
  pub not_executed : Bool

pub data ExecuteError : Type 0 where
  update_failed : UpdateError → ExecuteError
  update_and_result_failed : UpdateError → UpdateError → ExecuteError
  updates_not_executed : ℕ → ExecuteError
  driver_failed : DriverError → ExecuteError

-- the driver's own error, which must not deny an execution that emitted updates
abbrev pub driver_error : ℕ → Option DriverError → Option ExecuteError
driver_error count none = none
driver_error count (some e) =
    if ltb 0 count && e.not_executed
    then some (updates_not_executed count)
    else some (driver_failed e)

-- the order of the three errors
abbrev pub execute_error :
    Option UpdateError → Option UpdateError → Option ExecuteError → Option ExecuteError
execute_error (some u) (some p) d = some (update_and_result_failed u p)
execute_error (some u) none d = some (update_failed u)
execute_error none (some p) d = some (update_failed p)
execute_error none none d = d

-- `Execute` where the driver below emits `inputs` and returns `r` and `e`. What it emits later is
-- refused, as the state is closed.
unfoldable pub execute :
    ToolCall
    → Option Sink
    → List Update
    → ToolResult
    → Option DriverError
    → ToolResult × Option ExecuteError
unfolding emit_all finish normalize_updated_result
execute call sink inputs r e =
    let s = finish (emit_all call sink new_state inputs).0 in
    let (result, differs) = normalize_updated_result call r s.content in
    (result, execute_error s.failure differs (driver_error s.count e))
