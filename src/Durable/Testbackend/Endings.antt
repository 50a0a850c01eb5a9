-- ===== src/Durable/Testbackend/Endings.antt =====
-- The operations on a claimed execution (durable/internal/testbackend/execution.go): suspend,
-- finish and release.
use mathlib.Core.Bool.{not}
use go_hydaelyn.Prelude.{
  ℕ, ltb, Bool, false, ◌||◌, Option, none, some, List, [], ◌∷◌, Text, ◌==◌, nat_eq,
  text_eq_instance, Result, ok, err, if◌then◌else◌,
}
use go_hydaelyn.Prelude.Assoc.{Map, get, put}
use go_hydaelyn.Agent.{AgentResult}
use go_hydaelyn.Message.Content.{is_none}
use go_hydaelyn.Durable.{
  next_u64, ExecutionStatus, suspended, completed, failed, LeaseRef, Execution, Attempt,
  ReleaseResult, DurableError, execution_error, ContextError, invalid_argument, conflict,
  lease_lost, reconcile_required, SuspendExecutionRequest, FinishExecutionRequest,
  ReleaseExecutionRequest, Hash,
}
use go_hydaelyn.Durable.Testbackend.Store.{
  LeaseKey, SuspendKey, FinishKey, ExecutionRecord, Store, Outcome, lease_key_eq, suspend_key_eq,
  finish_key_eq, with_record, context_or_validation, valid_execution_id, lease_matches, holds_lease,
  terminal, reconcile_running, reconciled, bad_reference, is_running, is_unknown, replayed_or,
}
use go_hydaelyn.Durable.Testbackend.Executions.{Hashes}

abbrev pub lease_key : LeaseRef → LeaseKey
lease_key l = record { owner_id = l.owner_id; token = l.token }

abbrev pub suspend_key : SuspendExecutionRequest → SuspendKey
suspend_key q = record { lease = lease_key q.lease; expected_version = q.expected_version }

unfoldable pub suspend_record : SuspendExecutionRequest → ExecutionRecord → ℕ → Outcome Execution
unfolding holds_lease reconcile_running
suspend_record q r now =
    if ltb q.lease.token r.next_token
    then (err (execution_error q.execution_id lease_lost), r)
    else replayed_or (get r.suspends (suspend_key q)) r (
        if not (holds_lease r q.lease now)
        then (err (execution_error q.execution_id lease_lost), r)
        else if not (r.execution.version == q.expected_version)
        then (err (execution_error q.execution_id conflict), r)
        else let execution = record r.execution {
          status = suspended;
          lease = none;
          version = next_u64 r.execution.version;
        } in
          (
            ok execution,
            record (reconcile_running r q.lease.token) {
              execution = execution;
              suspends = put r.suspends (suspend_key q) execution;
            },
          ))

unfoldable pub suspend_execution :
    Option ContextError
    → ℕ
    → SuspendExecutionRequest
    → Store
    → Result DurableError Execution × Store
unfolding valid_execution_id suspend_record with_record context_or_validation
suspend_execution ctx clock q s =
    if not (valid_execution_id q.execution_id) || bad_reference q.lease
    then context_or_validation ctx (execution_error q.execution_id invalid_argument) s
    else with_record ctx clock q.execution_id [] (suspend_record q) s

-- `hasUncertainAttempts`
unfoldable pub uncertain_among : List Attempt → Bool
uncertain_among [] = false
uncertain_among (a ∷ rest) = (is_running a.status || is_unknown a.status) || uncertain_among rest

unfoldable pub has_uncertain : Map Text (List Attempt) → Bool
unfolding uncertain_among
has_uncertain [] = false
has_uncertain ((op, l) ∷ m) = uncertain_among l || has_uncertain m

abbrev pub finish_key : FinishExecutionRequest → FinishKey
finish_key q = record {
  lease = lease_key q.lease;
  expected_version = q.expected_version;
  result_hash = q.result_hash;
}

abbrev pub outcome_status : AgentResult → ExecutionStatus
outcome_status result = if is_none result.failure then completed else failed

unfoldable pub finish_record : FinishExecutionRequest → ExecutionRecord → ℕ → Outcome Execution
unfolding holds_lease has_uncertain
finish_record q r now =
    if ltb q.lease.token r.next_token
    then (err (execution_error q.execution_id lease_lost), r)
    else replayed_or (get r.finishes (finish_key q)) r (
        if terminal r.execution.status
        then (err (execution_error q.execution_id conflict), r)
        else if not (holds_lease r q.lease now)
        then (err (execution_error q.execution_id lease_lost), r)
        else if not (r.execution.version == q.expected_version)
        then (err (execution_error q.execution_id conflict), r)
        else if has_uncertain r.attempts
        then (err (execution_error q.execution_id reconcile_required), r)
        else let execution = record r.execution {
          result = some q.result;
          result_hash = q.result_hash;
          status = outcome_status q.result;
          lease = none;
          version = next_u64 r.execution.version;
        } in
          (
            ok execution,
            record r { execution = execution; finishes = put r.finishes (finish_key q) execution },
          ))

-- the comparison with the request's hash
abbrev pub finish_hashed :
    Option Hash
    → Option ContextError
    → ℕ
    → FinishExecutionRequest
    → Store
    → Result DurableError Execution × Store
finish_hashed none ctx clock q s =
    context_or_validation ctx (execution_error q.execution_id invalid_argument) s
finish_hashed (some hash) ctx clock q s =
    if not (hash == q.result_hash)
    then context_or_validation ctx (execution_error q.execution_id conflict) s
    else with_record ctx clock q.execution_id [] (finish_record q) s

unfoldable pub finish_execution :
    Hashes
    → Option ContextError
    → ℕ
    → FinishExecutionRequest
    → Store
    → Result DurableError Execution × Store
unfolding valid_execution_id finish_record with_record context_or_validation
finish_execution h ctx clock q s =
    if not (valid_execution_id q.execution_id) || bad_reference q.lease
    then context_or_validation ctx (execution_error q.execution_id invalid_argument) s
    else finish_hashed (h.hash_result q.result) ctx clock q s

unfoldable pub release_record :
    ReleaseExecutionRequest → ExecutionRecord → ℕ → Outcome ReleaseResult
unfolding lease_matches reconcile_running reconciled
release_record q r now =
    if ltb q.lease.token r.next_token
    then (err (execution_error q.execution_id lease_lost), r)
    else replayed_or (get r.releases (lease_key q.lease)) r (
        if not (lease_matches r.execution.lease q.lease)
        then (err (execution_error q.execution_id lease_lost), r)
        else let execution = record r.execution { lease = none } in
          let result : ReleaseResult = record {
            execution = execution;
            reconcile = reconciled r q.lease.token;
          } in
          (
            ok result,
            record (reconcile_running r q.lease.token) {
              execution = execution;
              releases = put r.releases (lease_key q.lease) result;
            },
          ))

unfoldable pub release_execution :
    Option ContextError
    → ℕ
    → ReleaseExecutionRequest
    → Store
    → Result DurableError ReleaseResult × Store
unfolding valid_execution_id release_record with_record context_or_validation
release_execution ctx clock q s =
    if not (valid_execution_id q.execution_id) || bad_reference q.lease
    then context_or_validation ctx (execution_error q.execution_id invalid_argument) s
    else with_record ctx clock q.execution_id [] (release_record q) s
