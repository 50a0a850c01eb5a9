-- ===== src/Durable/Testbackend/Calls.antt =====
-- Any sequence of Backend calls over a store (durable/internal/testbackend), in the order in which
-- the store's mutex admits them, each with its context, its clock reading and its request.
pub mod Reachable
pub mod Methods
pub mod Invariant
pub mod Kept
pub mod Endings
pub mod Effects
pub mod Fencing
pub mod Retries
pub mod Claims
use go_hydaelyn.Prelude.{ℕ, Option, List, [], ◌∷◌, Text}
use go_hydaelyn.Durable.{
  ContextError, StartExecutionRequest, ResumeExecutionRequest, RenewExecutionRequest,
  SaveCheckpointRequest, SuspendExecutionRequest, FinishExecutionRequest, ReleaseExecutionRequest,
  StartAttemptRequest, SettleAttemptRequest, ReconcileAttemptRequest,
}
use go_hydaelyn.Durable.Testbackend.Store.{Store, advance}
use go_hydaelyn.Durable.Testbackend.Executions.{Hashes, start_execution}
use go_hydaelyn.Durable.Testbackend.Resumption.{resume_execution}
use go_hydaelyn.Durable.Testbackend.Lifecycle.{load_execution, renew_execution, save_checkpoint}
use go_hydaelyn.Durable.Testbackend.Endings.{suspend_execution, finish_execution, release_execution}
use go_hydaelyn.Durable.Testbackend.Attempts.{start_attempt, finish_attempt, mark_attempt_unknown}
use go_hydaelyn.Durable.Testbackend.Reconciliation.{reconcile_attempt}

-- The methods of `Backend`, and `Advance`.
pub data Method : Type 0 where
  advances : ℕ → Method
  starts : StartExecutionRequest → Method
  resumes : ResumeExecutionRequest → Method
  loads : Text → Method
  renews_lease : RenewExecutionRequest → Method
  saves_checkpoint : SaveCheckpointRequest → Method
  suspends_execution : SuspendExecutionRequest → Method
  finishes_execution : FinishExecutionRequest → Method
  releases_execution : ReleaseExecutionRequest → Method
  starts_attempt : StartAttemptRequest → Method
  finishes_attempt : SettleAttemptRequest → Method
  marks_unknown : SettleAttemptRequest → Method
  reconciles : ReconcileAttemptRequest → Method

pub record Call : Type 0 where
  pub ctx : Option ContextError
  pub clock : ℕ
  pub method : Method

unfoldable pub perform : Hashes → Option ContextError → ℕ → Method → Store → Store
perform h ctx clock (advances d) s = advance d s
perform h ctx clock (starts q) s = (start_execution h ctx clock q s).1
perform h ctx clock (resumes q) s = (resume_execution ctx clock q s).1
perform h ctx clock (loads id) s = (load_execution h ctx clock id s).1
perform h ctx clock (renews_lease q) s = (renew_execution ctx clock q s).1
perform h ctx clock (saves_checkpoint q) s = (save_checkpoint h ctx clock q s).1
perform h ctx clock (suspends_execution q) s = (suspend_execution ctx clock q s).1
perform h ctx clock (finishes_execution q) s = (finish_execution h ctx clock q s).1
perform h ctx clock (releases_execution q) s = (release_execution ctx clock q s).1
perform h ctx clock (starts_attempt q) s = (start_attempt ctx clock q s).1
perform h ctx clock (finishes_attempt q) s = (finish_attempt ctx clock q s).1
perform h ctx clock (marks_unknown q) s = (mark_attempt_unknown ctx clock q s).1
perform h ctx clock (reconciles q) s = (reconcile_attempt ctx clock q s).1

unfoldable pub run : Hashes → List Call → Store → Store
run h [] s = s
run h (c ∷ cs) s = run h cs (perform h c.ctx c.clock c.method s)
