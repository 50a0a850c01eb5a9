-- ===== src/Durable/Testbackend/Lifecycle.antt =====
-- The operations on a claimed execution (durable/internal/testbackend/execution.go): load, renew and
-- checkpoint.
use mathlib.Core.Bool.{not}
use go_hydaelyn.Prelude.{
  ℕ, ◌+◌, ltb, ◌||◌, Option, none, some, [], Text, ◌==◌, nat_eq, text_eq_instance, Result, ok, err,
  if◌then◌else◌,
}
use go_hydaelyn.Durable.{
  next_u64, Lease, Execution, DurableError, execution_error, ContextError, invalid_argument,
  conflict, lease_lost, corrupt_checkpoint, RenewExecutionRequest, SaveCheckpointRequest,
}
use go_hydaelyn.Durable.Testbackend.Store.{
  ExecutionRecord, Store, Outcome, lease_key_eq, suspend_key_eq, finish_key_eq, with_record,
  context_or_validation, valid_execution_id, duration, is_positive, holds_lease, bad_reference,
  decided_or,
}
use go_hydaelyn.Durable.Testbackend.Executions.{Hashes, valid_checkpoint}

-- the closure of `LoadExecution`
unfoldable pub load_record : Hashes → Text → ExecutionRecord → ℕ → Outcome Execution
unfolding valid_checkpoint
load_record h id r now = elim r.execution.checkpoint [
  | none ↦ (ok r.execution, r)
  | some c ↦
      if valid_checkpoint h c
      then (ok r.execution, r)
      else (err (execution_error id corrupt_checkpoint), r)
]

unfoldable pub load_execution :
    Hashes → Option ContextError → ℕ → Text → Store → Result DurableError Execution × Store
unfolding valid_execution_id load_record with_record context_or_validation
load_execution h ctx clock id s =
    if not (valid_execution_id id)
    then context_or_validation ctx (execution_error id invalid_argument) s
    else with_record ctx clock id [] (load_record h id) s

-- `record.execution.Lease.ExpiresAt = now.Add(ttl)`
abbrev pub extend : Option Lease → ℕ → Option Lease
extend none t = none
extend (some l) t = some (record l { expires_at = t })

abbrev pub lease_or_lost : Text → Option Lease → Result DurableError Lease
lease_or_lost id none = err (execution_error id lease_lost)
lease_or_lost id (some l) = ok l

unfoldable pub renew_record : RenewExecutionRequest → ExecutionRecord → ℕ → Outcome Lease
unfolding holds_lease
renew_record q r now =
    if not (holds_lease r q.lease now)
    then (err (execution_error q.execution_id lease_lost), r)
    else let lease = extend r.execution.lease (now + duration q.lease_ttl) in
      (
        lease_or_lost q.execution_id lease,
        record r { execution = record r.execution { lease = lease } },
      )

unfoldable pub renew_execution :
    Option ContextError → ℕ → RenewExecutionRequest → Store → Result DurableError Lease × Store
unfolding valid_execution_id renew_record with_record context_or_validation
renew_execution ctx clock q s =
    if not (valid_execution_id q.execution_id)
      || bad_reference q.lease
      || not (is_positive q.lease_ttl)
    then context_or_validation ctx (execution_error q.execution_id invalid_argument) s
    else with_record ctx clock q.execution_id [] (renew_record q) s

-- What the checkpoint that is there decides: `none` goes on to the version check.
unfoldable pub prior_checkpoint :
    SaveCheckpointRequest → Execution → Option (Result DurableError Execution)
prior_checkpoint q e = elim e.checkpoint [
  | none ↦ none
  | some c ↦
      if c.sequence == q.checkpoint.sequence
      then (if c.continuation_hash == q.checkpoint.continuation_hash
          then some (ok e)
          else some (err (execution_error q.execution_id conflict)))
      else if ltb q.checkpoint.sequence c.sequence
      then some (err (execution_error q.execution_id conflict))
      else none
]

unfoldable pub save_record : SaveCheckpointRequest → ExecutionRecord → ℕ → Outcome Execution
unfolding holds_lease prior_checkpoint
save_record q r now =
    if not (holds_lease r q.lease now)
    then (err (execution_error q.execution_id lease_lost), r)
    else decided_or (prior_checkpoint q r.execution) r (
        if not (r.execution.version == q.expected_version)
        then (err (execution_error q.execution_id conflict), r)
        else let saved = record r.execution {
          checkpoint = some q.checkpoint;
          version = next_u64 r.execution.version;
        } in
          (ok saved, record r { execution = saved }))

unfoldable pub save_checkpoint :
    Hashes
    → Option ContextError
    → ℕ
    → SaveCheckpointRequest
    → Store
    → Result DurableError Execution × Store
unfolding valid_execution_id save_record valid_checkpoint with_record context_or_validation
save_checkpoint h ctx clock q s =
    if not (valid_execution_id q.execution_id) || bad_reference q.lease
    then context_or_validation ctx (execution_error q.execution_id invalid_argument) s
    else if not (valid_checkpoint h q.checkpoint)
    then context_or_validation ctx (execution_error q.execution_id corrupt_checkpoint) s
    else with_record ctx clock q.execution_id [] (save_record q) s
