-- ===== src/Agent/Analysis/Turns.antt =====
-- What `analyzeTranscript` (agent/continuation.go) accepts against what `ValidateCompleteTurns`
-- (message/history.go) accepts.
use go_hydaelyn.Prelude.{nat_eq, text_eq_instance}
use go_hydaelyn.Message.{Message}
use go_hydaelyn.Message.History.Turns.{Turns}
