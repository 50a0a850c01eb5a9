-- ===== src/Durable/Testbackend/Reconciliation.antt =====
-- `ReconcileAttempt` (durable/internal/testbackend/attempt.go).
use mathlib.Core.Bool.{not}
use go_hydaelyn.Prelude.{
  ℕ, Bool, true, false, ◌&&◌, ◌||◌, Option, none, some, [], ◌==◌, nat_eq, text_eq_instance, Result,
  ok, err, if◌then◌else◌,
}
use go_hydaelyn.Message.Content.{is_empty, is_none}
use go_hydaelyn.Durable.{
  next_u64, AttemptStatus, succeeded, failed, abandoned, Attempt, DurableError, attempt_error,
  ContextError, invalid_argument, not_found, conflict, busy, ReconcileAttemptRequest,
  ReconcileResolution, succeed, fail, retry, other_resolution, Sentinel,
}
use go_hydaelyn.Durable.Testbackend.Store.{
  ExecutionRecord, Store, Outcome, with_record, context_or_validation, lease_active, same_failure,
  attempt_by_number, write_attempt, valid_attempt_identity, is_unknown,
}

-- the `switch` of `validateReconcileRequest`; true is a nil error
unfoldable pub valid_resolution : ReconcileResolution → ReconcileAttemptRequest → Bool
valid_resolution succeed q = not (is_empty q.payload || not (is_none q.failure))
valid_resolution fail q = not (is_none q.failure)
valid_resolution retry q = not (not (is_empty q.payload) || not (is_none q.failure))
valid_resolution (other_resolution t) q = false

unfoldable pub valid_reconcile : ReconcileAttemptRequest → Bool
unfolding valid_attempt_identity valid_resolution
valid_reconcile q =
    valid_attempt_identity q.execution_id q.operation_id q.attempt_number
    && not (q.expected_attempt_version == 0)
    && valid_resolution q.resolution q

abbrev is_succeeded : AttemptStatus → Bool
is_succeeded succeeded = true
is_succeeded _ = false

abbrev is_failed : AttemptStatus → Bool
is_failed failed = true
is_failed _ = false

abbrev is_abandoned : AttemptStatus → Bool
is_abandoned abandoned = true
is_abandoned _ = false

-- the `switch` of `reconcileExact`
unfoldable pub exact_resolution : ReconcileResolution → Attempt → ReconcileAttemptRequest → Bool
unfolding same_failure
exact_resolution succeed a q = is_succeeded a.status && a.payload == q.payload && is_none a.failure
exact_resolution fail a q =
    is_failed a.status && a.payload == q.payload && same_failure a.failure q.failure
exact_resolution retry a q = is_abandoned a.status && is_empty a.payload && is_none a.failure
exact_resolution (other_resolution t) a q = false

-- `reconcileExact`: an earlier call with this request resolved the attempt.
unfoldable pub reconcile_exact : Attempt → ReconcileAttemptRequest → Bool
unfolding exact_resolution
reconcile_exact a q =
    a.version == next_u64 q.expected_attempt_version && exact_resolution q.resolution a q

-- the `switch` of `ReconcileAttempt`, and the two writes behind it
unfoldable pub resolve : ReconcileResolution → Attempt → ReconcileAttemptRequest → Attempt
resolve succeed a q = record a {
  status = succeeded;
  payload = q.payload;
  failure = none;
  lease = none;
  version = next_u64 a.version;
}
resolve fail a q = record a {
  status = failed;
  payload = q.payload;
  failure = q.failure;
  lease = none;
  version = next_u64 a.version;
}
resolve retry a q = record a {
  status = abandoned;
  payload = [];
  failure = none;
  lease = none;
  version = next_u64 a.version;
}
resolve (other_resolution t) a q = record a { lease = none; version = next_u64 a.version }

abbrev pub reconcile_error : ReconcileAttemptRequest → Sentinel → DurableError
reconcile_error q s = attempt_error q.execution_id q.operation_id q.attempt_number s

unfoldable pub reconcile_found :
    ReconcileAttemptRequest → Attempt → ExecutionRecord → Outcome Attempt
unfolding reconcile_exact resolve write_attempt
reconcile_found q a r =
    if reconcile_exact a q
    then (ok a, r)
    else if not (is_unknown a.status) || not (a.version == q.expected_attempt_version)
    then (err (reconcile_error q conflict), r)
    else let resolved = resolve q.resolution a q in
      (ok resolved, write_attempt r q.operation_id q.attempt_number resolved)

abbrev pub reconcile_number :
    ReconcileAttemptRequest → ExecutionRecord → Option Attempt → Outcome Attempt
reconcile_number q r none = (err (reconcile_error q not_found), r)
reconcile_number q r (some a) = reconcile_found q a r

-- the closure of `ReconcileAttempt`
unfoldable pub reconcile_record : ReconcileAttemptRequest → ExecutionRecord → ℕ → Outcome Attempt
unfolding lease_active attempt_by_number reconcile_found
reconcile_record q r now =
    if lease_active r.execution.lease now
    then (err (reconcile_error q busy), r)
    else reconcile_number q r (attempt_by_number r q.operation_id q.attempt_number)

unfoldable pub reconcile_attempt :
    Option ContextError → ℕ → ReconcileAttemptRequest → Store → Result DurableError Attempt × Store
unfolding valid_reconcile reconcile_record with_record context_or_validation
reconcile_attempt ctx clock q s =
    if not (valid_reconcile q)
    then context_or_validation ctx (reconcile_error q invalid_argument) s
    else with_record ctx clock q.execution_id q.operation_id (reconcile_record q) s
