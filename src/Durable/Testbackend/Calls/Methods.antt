-- ===== src/Durable/Testbackend/Calls/Methods.antt =====
-- Every Backend method steps the store (durable/internal/testbackend).
use go_hydaelyn.Prelude.{
  ℕ, ◌≡◌, Bool, true, false, not, ◌||◌, Option, none, some, [], Text, ◌==◌, nat_eq,
  text_eq_instance, arith, if◌then◌else◌,
}
use go_hydaelyn.Message.Content.{is_empty}
use go_hydaelyn.Durable.{
  Hash, zero_hash, ContextError, DurableError, StartExecutionRequest, FinishExecutionRequest,
  ReconcileAttemptRequest,
}
use go_hydaelyn.Durable.Testbackend.Store.{
  ExecutionRecord, Store, Outcome, with_record, context_or_validation, trusted_now, advance,
  valid_execution_id, valid_lease_input, bad_reference, is_positive,
}
use go_hydaelyn.Durable.Testbackend.Executions.{Hashes, valid_checkpoint}
use go_hydaelyn.Durable.Testbackend.Resumption.{resume_execution}
use go_hydaelyn.Durable.Testbackend.Lifecycle.{load_execution, renew_execution, save_checkpoint}
use go_hydaelyn.Durable.Testbackend.Endings.{
  suspend_execution, finish_execution, finish_hashed, finish_record, release_execution,
}
use go_hydaelyn.Durable.Testbackend.Attempts.{
  start_attempt, finish_attempt, mark_attempt_unknown, known_kind, valid_mutation,
}
use go_hydaelyn.Durable.Testbackend.Reconciliation.{
  reconcile_attempt, valid_reconcile, valid_resolution,
}
use go_hydaelyn.Durable.Testbackend.Change.{Makes}
use go_hydaelyn.Durable.Testbackend.Change.Refinement.{
  resume_record-Makes, load_record-Makes, renew_record-Makes, save_record-Makes,
  suspend_record-Makes, finish_record-Makes, release_record-Makes, start_attempt_record-Makes,
  not-not,
}
use go_hydaelyn.Durable.Testbackend.Change.Settling.{
  finish_attempt_record-Makes, mark_unknown_record-Makes, reconcile_record-Makes,
}
use go_hydaelyn.Durable.Testbackend.Calls.{
  Method, advances, starts, resumes, loads, renews_lease, saves_checkpoint, suspends_execution,
  finishes_execution, releases_execution, starts_attempt, finishes_attempt, marks_unknown,
  reconciles, perform,
}
use go_hydaelyn.Durable.Testbackend.Calls.Reachable.{
  Steps, kept, Steps-context_or_validation, Steps-with_record, Steps-if, start_execution-Steps,
}

-- A validation, then the closure on the record.
module _ {A : Type 0} (ctx : Option ContextError) (clock : ℕ) (s : Store) where
  guarded :
      (bad : Bool) (e : DurableError) (id op : Text) (call : ExecutionRecord → ℕ → Outcome A)
      → (bad ≡ false
          → (r : ExecutionRecord) → Makes r (trusted_now clock s) (call r (trusted_now clock s)))
      → Steps none
          (trusted_now clock s)
          s
          (if bad then context_or_validation ctx e s else with_record ctx clock id op call s).1
  guarded bad e id op call makes =
      Steps-if none (trusted_now clock s) s bad _ _ (Steps-context_or_validation none A _ ctx e s)
        (λ good. Steps-with_record none ctx clock id op call s (makes good))

finish_hashed-Steps :
    (o : Option Hash) (ctx : Option ContextError) (clock : ℕ) (q : FinishExecutionRequest)
    (s : Store)
    → Steps none (trusted_now clock s) s (finish_hashed o ctx clock q s).1
finish_hashed-Steps none ctx clock q s = Steps-context_or_validation none _ _ ctx _ s
finish_hashed-Steps (some hash) ctx clock q s =
    guarded ctx clock s (not (hash == q.result_hash)) _ q.execution_id [] (finish_record q)
      (λ _ r. finish_record-Makes q r _)

resolution_of_valid :
    (q : ReconcileAttemptRequest)
    → valid_reconcile q ≡ true
    → valid_resolution q.resolution q ≡ true
unfolding valid_reconcile
resolution_of_valid q h = ground arith

-- The request of a call that may create an execution.
abbrev pub creates : Method → Option StartExecutionRequest
creates (starts q) = some q
creates _ = none

-- Every method changes each record of the store by at most one change, and removes none; only a
-- start adds a record, and only the one that it creates.
pub perform-Steps :
    (h : Hashes) (ctx : Option ContextError) (clock : ℕ) (m : Method) (s : Store)
    → Steps (creates m) (trusted_now clock s) s (perform h ctx clock m s)
unfolding perform advance resume_execution load_execution renew_execution save_checkpoint
    suspend_execution finish_execution release_execution start_attempt finish_attempt
    mark_attempt_unknown reconcile_attempt
perform-Steps h ctx clock (advances d) s = record { at_key = λ id. kept }
perform-Steps h ctx clock (starts q) s = start_execution-Steps h ctx clock q s
perform-Steps h ctx clock (resumes q) s =
    guarded ctx clock s
      (not (valid_execution_id q.execution_id)
        || not (valid_lease_input q.owner_id q.claim_id q.lease_ttl))
      _ q.execution_id [] _ (λ _ r. resume_record-Makes q r _)
perform-Steps h ctx clock (loads id) s =
    guarded ctx clock s (not (valid_execution_id id)) _ id [] _ (λ _ r. load_record-Makes h id r _)
perform-Steps h ctx clock (renews_lease q) s =
    guarded ctx clock s
      (not (valid_execution_id q.execution_id)
        || bad_reference q.lease
        || not (is_positive q.lease_ttl))
      _ q.execution_id [] _ (λ _ r. renew_record-Makes q r _)
perform-Steps h ctx clock (saves_checkpoint q) s =
    Steps-if none (trusted_now clock s) s
      (not (valid_execution_id q.execution_id) || bad_reference q.lease) _ _
      (Steps-context_or_validation none _ _ ctx _ s)
      (λ _.
        guarded ctx clock s (not (valid_checkpoint h q.checkpoint)) _ q.execution_id [] _
          (λ _ r. save_record-Makes q r _))
perform-Steps h ctx clock (suspends_execution q) s =
    guarded ctx clock s (not (valid_execution_id q.execution_id) || bad_reference q.lease) _
      q.execution_id [] _ (λ _ r. suspend_record-Makes q r _)
perform-Steps h ctx clock (finishes_execution q) s =
    Steps-if none (trusted_now clock s) s
      (not (valid_execution_id q.execution_id) || bad_reference q.lease) _ _
      (Steps-context_or_validation none _ _ ctx _ s)
      (λ _. finish_hashed-Steps (h.hash_result q.result) ctx clock q s)
perform-Steps h ctx clock (releases_execution q) s =
    guarded ctx clock s (not (valid_execution_id q.execution_id) || bad_reference q.lease) _
      q.execution_id [] _ (λ _ r. release_record-Makes q r _)
perform-Steps h ctx clock (starts_attempt q) s =
    guarded ctx clock s
      (not (valid_execution_id q.execution_id)
        || bad_reference q.lease
        || is_empty q.operation_id
        || q.input_hash == zero_hash
        || not (known_kind q.kind))
      _ q.execution_id q.operation_id _ (λ _ r. start_attempt_record-Makes q r _)
perform-Steps h ctx clock (finishes_attempt q) s =
    guarded ctx clock s (not (valid_mutation q)) _ q.execution_id q.operation_id _
      (λ _ r. finish_attempt_record-Makes q r _)
perform-Steps h ctx clock (marks_unknown q) s =
    guarded ctx clock s (not (valid_mutation q)) _ q.execution_id q.operation_id _
      (λ _ r. mark_unknown_record-Makes q r _)
perform-Steps h ctx clock (reconciles q) s =
    guarded ctx clock s (not (valid_reconcile q)) _ q.execution_id q.operation_id _
      (λ good r. reconcile_record-Makes q r _ (resolution_of_valid q (not-not _ good)))
