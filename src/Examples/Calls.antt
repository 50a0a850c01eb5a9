-- ===== src/Examples/Calls.antt =====
-- Sequences of Backend calls on one execution (durable/internal/testbackend).
use go_hydaelyn.Prelude.{
  ℕ, Bool, true, false, Option, none, some, List, [], ◌∷◌, ◌≡◌, refl, Text, Result, ok, err,
  text_eq_instance, arith, ltb→lt, ◌<◌,
}
use go_hydaelyn.Prelude.Assoc.{get}
use go_hydaelyn.Durable.{
  Execution, Attempt, StartResult, ResumeResult, ReleaseResult, ExecutionStatus, LeaseRef,
  DurableError,
}
use go_hydaelyn.Durable.Testbackend.Store.{
  ExecutionRecord, empty_store, trusted_now, terminal, attempts_of, lease_matches, holds_lease,
}
use go_hydaelyn.Durable.Testbackend.Executions.{start_existing}
use go_hydaelyn.Durable.Testbackend.Resumption.{resume_record}
use go_hydaelyn.Durable.Testbackend.Endings.{finish_record, suspend_record, release_record}
use go_hydaelyn.Durable.Testbackend.Attempts.{start_attempt_record, last_attempt, new_attempt}
use go_hydaelyn.Durable.Testbackend.Soundness.{IsSound}
use go_hydaelyn.Durable.Testbackend.Calls.{run, perform, starts}
use go_hydaelyn.Durable.Testbackend.Calls.Reachable.{Steps}
use go_hydaelyn.Durable.Testbackend.Calls.Methods.{creates, perform-Steps}
use go_hydaelyn.Durable.Testbackend.Calls.Invariant.{reached-IsSound}
use go_hydaelyn.Durable.Testbackend.Calls.Effects.{settled_effect_replays, replay_answer}
use go_hydaelyn.Durable.Testbackend.Calls.Endings.{ended_stays}
use go_hydaelyn.Durable.Testbackend.Calls.Fencing.{superseded_stays}
use go_hydaelyn.Durable.Testbackend.Calls.Retries.{finish_retry, suspend_retry, release_retry}
use go_hydaelyn.Examples.Executions.{
  job, step, hashes, claimed, worked, completed_job, reclaimed, takes_over, job_in, claim_start,
  claim_resume, lease_of, begin_step, finish_job, suspend_job, release_job,
}

abbrev claimed_job : ExecutionRecord
claimed_job = job_in (run hashes claimed empty_store)

abbrev worked_job : ExecutionRecord
worked_job = job_in (run hashes worked empty_store)

abbrev ended_job : ExecutionRecord
ended_job = job_in (run hashes completed_job empty_store)

abbrev reclaimed_job : ExecutionRecord
reclaimed_job = job_in (run hashes reclaimed empty_store)

worked_found : get (run hashes worked empty_store).executions job ≡ some worked_job
unfolding get run perform go_hydaelyn.Durable.Testbackend.Attempts.finish_attempt
    go_hydaelyn.Prelude.is_blank go_hydaelyn.Durable.Testbackend.Attempts.start_attempt
    go_hydaelyn.Prelude.text_eq go_hydaelyn.Durable.Testbackend.Executions.start_execution
    go_hydaelyn.Prelude.Assoc.put job_in
worked_found = refl

ended_found : get (run hashes completed_job empty_store).executions job ≡ some ended_job
unfolding get run perform go_hydaelyn.Durable.Testbackend.Endings.finish_execution
    go_hydaelyn.Prelude.is_blank go_hydaelyn.Prelude.text_eq
    go_hydaelyn.Durable.Testbackend.Executions.start_execution go_hydaelyn.Prelude.Assoc.put job_in
ended_found = refl

reclaimed_found : get (run hashes reclaimed empty_store).executions job ≡ some reclaimed_job
unfolding get run perform go_hydaelyn.Durable.Testbackend.Resumption.resume_execution
    go_hydaelyn.Prelude.is_blank go_hydaelyn.Prelude.text_eq
    go_hydaelyn.Durable.Testbackend.Executions.start_execution go_hydaelyn.Prelude.Assoc.put job_in
reclaimed_found = refl

reclaimed_above : (lease_of 1).token < reclaimed_job.next_token
unfolding job_in run perform go_hydaelyn.Durable.Testbackend.Resumption.resume_execution
    go_hydaelyn.Prelude.is_blank go_hydaelyn.Prelude.text_eq
    go_hydaelyn.Durable.Testbackend.Executions.start_execution go_hydaelyn.Prelude.Assoc.put
reclaimed_above = ltb→lt 1 reclaimed_job.next_token refl

ended_terminal : terminal ended_job.execution.status ≡ true
unfolding job_in run perform go_hydaelyn.Durable.Testbackend.Endings.finish_execution
    go_hydaelyn.Prelude.is_blank go_hydaelyn.Prelude.text_eq
    go_hydaelyn.Durable.Testbackend.Executions.start_execution go_hydaelyn.Prelude.Assoc.put
ended_terminal = refl

reached-IsSound_example : IsSound worked_job
reached-IsSound_example = reached-IsSound hashes worked job worked_job worked_found

perform-Steps_example :
    Steps
      (creates (starts (claim_start 1)))
      (trusted_now 0 empty_store)
      empty_store
      (perform hashes none 0 (starts (claim_start 1)) empty_store)
perform-Steps_example = perform-Steps hashes none 0 (starts (claim_start 1)) empty_store

-- The attempt that the step ended with.
abbrev done_step : Attempt
done_step = elim (last_attempt (attempts_of worked_job step)) [
  | none ↦ new_attempt (begin_step 1) 0
  | some a ↦ a
]

worked_last : last_attempt (attempts_of worked_job step) ≡ some done_step
unfolding attempts_of get job_in run perform go_hydaelyn.Durable.Testbackend.Attempts.finish_attempt
    go_hydaelyn.Prelude.is_blank go_hydaelyn.Durable.Testbackend.Attempts.start_attempt
    go_hydaelyn.Prelude.text_eq go_hydaelyn.Durable.Testbackend.Executions.start_execution
    go_hydaelyn.Prelude.Assoc.put
worked_last = refl

settled_effect_replays_example :
    (r' : ExecutionRecord) × (get
        (run hashes takes_over (run hashes worked empty_store)).executions
        job
      ≡ some r')
    × (start_attempt_record (begin_step 2) r' 21
        ≡ (replay_answer (begin_step 2) done_step (holds_lease r' (lease_of 2) 21), r'))
unfolding attempts_of get job_in run perform go_hydaelyn.Durable.Testbackend.Attempts.finish_attempt
    go_hydaelyn.Prelude.is_blank go_hydaelyn.Durable.Testbackend.Attempts.start_attempt
    go_hydaelyn.Prelude.text_eq go_hydaelyn.Durable.Testbackend.Executions.start_execution
    go_hydaelyn.Prelude.Assoc.put
settled_effect_replays_example =
    settled_effect_replays hashes worked takes_over (begin_step 2) 21 worked_job done_step
      worked_found worked_last refl

superseded_stays_example :
    (r' : ExecutionRecord) × (get
        (run hashes takes_over (run hashes reclaimed empty_store)).executions
        job
      ≡ some r')
    × (lease_matches r'.execution.lease (lease_of 1) ≡ false)
superseded_stays_example =
    superseded_stays hashes reclaimed takes_over job reclaimed_job (lease_of 1) (omega arith)
      reclaimed_found reclaimed_above

ended_stays_example :
    (r' : ExecutionRecord) × (get
        (run hashes takes_over (run hashes completed_job empty_store)).executions
        job
      ≡ some r')
    × (r'.execution ≡ ended_job.execution)
ended_stays_example =
    ended_stays hashes completed_job takes_over job ended_job ended_found ended_terminal

abbrev restarted : StartResult
restarted = elim (start_existing claimed_job (claim_start 2) 20).0 [
  | ok a ↦ a
  | err e ↦ record { execution = claimed_job.execution; created = false; reconcile = [] }
]

abbrev resumed : ResumeResult
resumed = elim (resume_record (claim_resume 2) claimed_job 20).0 [
  | ok a ↦ a
  | err e ↦ record { execution = claimed_job.execution; reconcile = [] }
]

abbrev execution_or : ExecutionRecord → Result DurableError Execution → Execution
execution_or r (ok e) = e
execution_or r (err x) = r.execution

abbrev finished : Execution
finished = execution_or claimed_job (finish_record finish_job claimed_job 1).0

finishes : (finish_record finish_job claimed_job 1).0 ≡ ok finished
unfolding finish_record job_in run perform
    go_hydaelyn.Durable.Testbackend.Executions.start_execution go_hydaelyn.Prelude.is_blank
    go_hydaelyn.Prelude.text_eq go_hydaelyn.Prelude.Assoc.put
finishes = refl

finish_retry_example :
    finish_record finish_job (finish_record finish_job claimed_job 1).1 30
    ≡ (ok finished, (finish_record finish_job claimed_job 1).1)
finish_retry_example = finish_retry finish_job claimed_job 1 30 finished finishes

abbrev suspended_job : Execution
suspended_job = execution_or claimed_job (suspend_record suspend_job claimed_job 1).0

suspends : (suspend_record suspend_job claimed_job 1).0 ≡ ok suspended_job
unfolding suspend_record job_in run perform
    go_hydaelyn.Durable.Testbackend.Executions.start_execution go_hydaelyn.Prelude.is_blank
    go_hydaelyn.Prelude.text_eq go_hydaelyn.Prelude.Assoc.put
suspends = refl

suspend_retry_example :
    suspend_record suspend_job (suspend_record suspend_job claimed_job 1).1 30
    ≡ (ok suspended_job, (suspend_record suspend_job claimed_job 1).1)
suspend_retry_example = suspend_retry suspend_job claimed_job 1 30 suspended_job suspends

abbrev released : ReleaseResult
released = elim (release_record release_job claimed_job 1).0 [
  | ok a ↦ a
  | err e ↦ record { execution = claimed_job.execution; reconcile = [] }
]

releases : (release_record release_job claimed_job 1).0 ≡ ok released
unfolding release_record job_in run perform
    go_hydaelyn.Durable.Testbackend.Executions.start_execution go_hydaelyn.Prelude.is_blank
    go_hydaelyn.Prelude.text_eq go_hydaelyn.Prelude.Assoc.put
releases = refl

release_retry_example :
    release_record release_job (release_record release_job claimed_job 1).1 30
    ≡ (ok released, (release_record release_job claimed_job 1).1)
release_retry_example = release_retry release_job claimed_job 1 30 released releases
