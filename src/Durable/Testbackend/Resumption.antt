-- ===== src/Durable/Testbackend/Resumption.antt =====
-- `ResumeExecution` (durable/internal/testbackend/execution.go).
use mathlib.Core.Bool.{not}
use go_hydaelyn.Prelude.{
  ℕ, ltb, ◌&&◌, ◌||◌, Option, none, some, [], ◌==◌, nat_eq, text_eq_instance, Result, ok, err,
  if◌then◌else◌,
}
use go_hydaelyn.Prelude.Assoc.{get, put}
use go_hydaelyn.Prelude.Int.{int_eq}
use go_hydaelyn.Durable.{
  zero_hash, ResumeResult, DurableError, execution_error, ContextError, invalid_argument, conflict,
  busy, lease_lost, ResumeExecutionRequest,
}
use go_hydaelyn.Durable.Testbackend.Store.{
  resume, ExecutionRecord, Store, Outcome, lease_key_eq, suspend_key_eq, finish_key_eq, with_record,
  context_or_validation, valid_execution_id, valid_lease_input, lease_active, terminal,
  reconcile_for_claim, decided_or,
}
use go_hydaelyn.Durable.Testbackend.Executions.{claim, is_start, active_claim}

unfoldable pub prior_resume :
    ExecutionRecord → ResumeExecutionRequest → ℕ → Option (Result DurableError ResumeResult)
unfolding lease_active
prior_resume r q now = elim (get r.claims q.claim_id) [
  | none ↦ none
  | some p ↦
      if is_start p.mode || not (p.owner_id == q.owner_id) || not (p.lease_ttl == q.lease_ttl)
      then some (err (execution_error q.execution_id conflict))
      else if ltb p.token r.next_token
      then some (err (execution_error q.execution_id lease_lost))
      else if lease_active r.execution.lease now && active_claim r.execution.lease q.claim_id
      then elim p.resumed [ none ↦ none | some s ↦ some (ok s) ]
      else none
]

unfoldable pub claim_for_resume :
    ExecutionRecord → ResumeExecutionRequest → ℕ → Outcome ResumeResult
unfolding prior_resume lease_active claim reconcile_for_claim
claim_for_resume r q now = decided_or (prior_resume r q now) r (
    if lease_active r.execution.lease now
    then (err (execution_error q.execution_id busy), r)
    else let claimed = claim r q.owner_id q.claim_id q.lease_ttl now in
      let result : ResumeResult = record {
        execution = claimed.execution;
        reconcile = reconcile_for_claim r;
      } in
      (
        ok result,
        record claimed {
          claims = put r.claims q.claim_id (record {
            mode = resume;
            owner_id = q.owner_id;
            lease_ttl = q.lease_ttl;
            spec_hash = zero_hash;
            token = claimed.next_token;
            started = none;
            resumed = some result;
          });
        },
      ))

-- the closure of `ResumeExecution`
unfoldable pub resume_record : ResumeExecutionRequest → ExecutionRecord → ℕ → Outcome ResumeResult
unfolding claim_for_resume
resume_record q r now =
    if terminal r.execution.status
    then (ok (record { execution = r.execution; reconcile = [] }), r)
    else claim_for_resume r q now

unfoldable pub resume_execution :
    Option ContextError
    → ℕ
    → ResumeExecutionRequest
    → Store
    → Result DurableError ResumeResult × Store
unfolding valid_execution_id valid_lease_input resume_record with_record context_or_validation
resume_execution ctx clock q s =
    if not (valid_execution_id q.execution_id)
      || not (valid_lease_input q.owner_id q.claim_id q.lease_ttl)
    then context_or_validation ctx (execution_error q.execution_id invalid_argument) s
    else with_record ctx clock q.execution_id [] (resume_record q) s
