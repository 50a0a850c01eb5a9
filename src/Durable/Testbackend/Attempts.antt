-- ===== src/Durable/Testbackend/Attempts.antt =====
-- The effect-attempt operations (durable/internal/testbackend/attempt.go).
use mathlib.Core.Bool.{not}
use go_hydaelyn.Prelude.{
  ℕ, ◌+◌, Bool, true, false, ◌&&◌, ◌||◌, Option, none, some, List, [], ◌∷◌, ◌++◌, Text, ◌==◌,
  nat_eq, text_eq_instance, Result, ok, err, if◌then◌else◌,
}
use go_hydaelyn.Prelude.Assoc.{put}
use go_hydaelyn.Message.Content.{is_empty, is_none}
use go_hydaelyn.Durable.{
  zero_hash, next_u64, AttemptStatus, running, succeeded, failed, unknown, abandoned, AttemptKind,
  model, tool, other_kind, execute, replay, reconcile, Attempt, AttemptStart, LeaseRef,
  DurableError, attempt_error, ContextError, invalid_argument, not_found, conflict, lease_lost,
  StartAttemptRequest, SettleAttemptRequest,
}
use go_hydaelyn.Durable.Testbackend.Store.{
  ExecutionRecord, Store, Outcome, with_record, context_or_validation, valid_execution_id,
  holds_lease, lease_ref_beq, same_failure, attempts_of, attempt_by_number, write_attempt,
  valid_attempt_identity, bad_reference, is_running, is_unknown,
}

unfoldable pub kind_beq : AttemptKind → AttemptKind → Bool
kind_beq model model = true
kind_beq tool tool = true
kind_beq (other_kind a) (other_kind b) = a == b
kind_beq _ _ = false

abbrev pub known_kind : AttemptKind → Bool
known_kind (other_kind k) = false
known_kind _ = true

unfoldable pub new_attempt : StartAttemptRequest → ℕ → Attempt
new_attempt q number = record {
  execution_id = q.execution_id;
  operation_id = q.operation_id;
  kind = q.kind;
  number = number;
  input_hash = q.input_hash;
  status = running;
  lease = some q.lease;
  version = 1;
  payload = [];
  failure = none;
}

-- `&attempts[len(attempts)-1]`, and a write through it
abbrev pub last_attempt : List Attempt → Option Attempt
last_attempt [] = none
last_attempt (a ∷ []) = some a
last_attempt (a ∷ b ∷ rest) = last_attempt (b ∷ rest)

abbrev pub write_last : Attempt → List Attempt → List Attempt
write_last c [] = []
write_last c (a ∷ []) = c ∷ []
write_last c (a ∷ b ∷ rest) = a ∷ write_last c (b ∷ rest)

unfoldable pub with_attempts : ExecutionRecord → Text → List Attempt → ExecutionRecord
with_attempts r op l = record r { attempts = put r.attempts op l }

abbrev pub held_by : Option LeaseRef → LeaseRef → Bool
held_by none q = false
held_by (some l) q = lease_ref_beq l q

-- `latest.Status = unknown; latest.Lease = nil; latest.Version++`
abbrev pub uncertain : Attempt → Attempt
uncertain a = record a { status = unknown; lease = none; version = next_u64 a.version }

-- the `switch` on the latest attempt's status
unfoldable pub restart :
    StartAttemptRequest
    → ExecutionRecord
    → List Attempt
    → Attempt
    → AttemptStatus
    → Outcome AttemptStart
unfolding new_attempt with_attempts
restart q r l latest succeeded = (ok (record { attempt = latest; decision = replay }), r)
restart q r l latest failed = (ok (record { attempt = latest; decision = replay }), r)
restart q r l latest unknown = (ok (record { attempt = latest; decision = reconcile }), r)
restart q r l latest running =
    if held_by latest.lease q.lease
    then (ok (record { attempt = latest; decision = execute }), r)
    else (
      ok (record { attempt = uncertain latest; decision = reconcile }),
      with_attempts r q.operation_id (write_last (uncertain latest) l),
    )
restart q r l latest abandoned =
    let attempt = new_attempt q (latest.number + 1) in
    (
      ok (record { attempt = attempt; decision = execute }),
      with_attempts r q.operation_id (l ++ attempt ∷ []),
    )

-- no attempt yet, or the latest one, which must be of the same effect
abbrev pub started : StartAttemptRequest → ExecutionRecord → Option Attempt → Outcome AttemptStart
started q r none = (
  ok (record { attempt = new_attempt q 1; decision = execute }),
  with_attempts r q.operation_id (new_attempt q 1 ∷ []),
)
started q r (some latest) =
    if not (kind_beq latest.kind q.kind) || not (latest.input_hash == q.input_hash)
    then (err (attempt_error q.execution_id q.operation_id latest.number conflict), r)
    else restart q r (attempts_of r q.operation_id) latest latest.status

-- the closure of `StartAttempt`
unfoldable pub start_attempt_record :
    StartAttemptRequest → ExecutionRecord → ℕ → Outcome AttemptStart
unfolding holds_lease attempts_of kind_beq restart
start_attempt_record q r now =
    if not (holds_lease r q.lease now)
    then (err (attempt_error q.execution_id q.operation_id 0 lease_lost), r)
    else started q r (last_attempt (attempts_of r q.operation_id))

-- the test of `StartAttempt` on the request
abbrev pub bad_start : StartAttemptRequest → Bool
bad_start q =
    not (valid_execution_id q.execution_id)
    || bad_reference q.lease
    || is_empty q.operation_id
    || q.input_hash == zero_hash
    || not (known_kind q.kind)

unfoldable pub start_attempt :
    Option ContextError → ℕ → StartAttemptRequest → Store → Result DurableError AttemptStart × Store
unfolding valid_execution_id start_attempt_record with_record context_or_validation
start_attempt ctx clock q s =
    if bad_start q
    then context_or_validation ctx (attempt_error q.execution_id q.operation_id 0 invalid_argument)
        s
    else with_record ctx clock q.execution_id q.operation_id (start_attempt_record q) s

abbrev pub settle_error : SettleAttemptRequest → DurableError
settle_error q = attempt_error q.execution_id q.operation_id q.attempt_number conflict

-- An earlier call with this request settled the attempt.
unfoldable pub settled_before : SettleAttemptRequest → Attempt → Bool
unfolding same_failure
settled_before q a =
    a.version == next_u64 q.expected_attempt_version
    && a.payload == q.payload
    && same_failure a.failure q.failure

-- `attempt.Status`, version and lease are what the request expects.
unfoldable pub expected : SettleAttemptRequest → Attempt → Bool
unfolding lease_ref_beq
expected q a =
    is_running a.status && a.version == q.expected_attempt_version && held_by a.lease q.lease

abbrev pub settle : SettleAttemptRequest → AttemptStatus → Attempt → Attempt
settle q status a = record a {
  status = status;
  lease = none;
  payload = q.payload;
  failure = q.failure;
  version = next_u64 a.version;
}

abbrev pub finished_status : SettleAttemptRequest → AttemptStatus
finished_status q = if is_none q.failure then succeeded else failed

abbrev pub is_settled : AttemptStatus → Bool
is_settled succeeded = true
is_settled failed = true
is_settled _ = false

-- The common end of the closures of `FinishAttempt` and `MarkAttemptUnknown`: `done` is the test on
-- a status that is the wanted one already.
unfoldable pub settle_found :
    SettleAttemptRequest → Bool → AttemptStatus → Attempt → ExecutionRecord → Outcome Attempt
unfolding settled_before expected write_attempt
settle_found q done status a r =
    if done
    then (if settled_before q a then (ok a, r) else (err (settle_error q), r))
    else if not (expected q a)
    then (err (settle_error q), r)
    else (
      ok (settle q status a),
      write_attempt r q.operation_id q.attempt_number (settle q status a),
    )

abbrev pub settle_number :
    (Attempt → Bool)
    → AttemptStatus
    → SettleAttemptRequest
    → ExecutionRecord
    → Option Attempt
    → Outcome Attempt
settle_number done status q r none =
    (err (attempt_error q.execution_id q.operation_id q.attempt_number not_found), r)
settle_number done status q r (some a) = settle_found q (done a) status a r

unfoldable pub settle_record :
    (Attempt → Bool) → AttemptStatus → SettleAttemptRequest → ExecutionRecord → ℕ → Outcome Attempt
unfolding holds_lease attempt_by_number settle_found
settle_record done status q r now =
    if not (holds_lease r q.lease now)
    then (err (attempt_error q.execution_id q.operation_id q.attempt_number lease_lost), r)
    else settle_number done status q r (attempt_by_number r q.operation_id q.attempt_number)

-- the closure of `FinishAttempt`
abbrev pub finish_attempt_record : SettleAttemptRequest → ExecutionRecord → ℕ → Outcome Attempt
finish_attempt_record q = settle_record (λ a. is_settled a.status) (finished_status q) q

-- the closure of `MarkAttemptUnknown`
abbrev pub mark_unknown_record : SettleAttemptRequest → ExecutionRecord → ℕ → Outcome Attempt
mark_unknown_record q = settle_record (λ a. is_unknown a.status) unknown q

-- `validateAttemptMutation`; true is a nil error
unfoldable pub valid_mutation : SettleAttemptRequest → Bool
unfolding valid_attempt_identity
valid_mutation q =
    valid_attempt_identity q.execution_id q.operation_id q.attempt_number
    && not (bad_reference q.lease || q.expected_attempt_version == 0)

unfoldable pub finish_attempt :
    Option ContextError → ℕ → SettleAttemptRequest → Store → Result DurableError Attempt × Store
unfolding valid_mutation settle_record with_record context_or_validation
finish_attempt ctx clock q s =
    if not (valid_mutation q)
    then context_or_validation ctx
        (attempt_error q.execution_id q.operation_id q.attempt_number invalid_argument) s
    else with_record ctx clock q.execution_id q.operation_id (finish_attempt_record q) s

unfoldable pub mark_attempt_unknown :
    Option ContextError → ℕ → SettleAttemptRequest → Store → Result DurableError Attempt × Store
unfolding valid_mutation settle_record with_record context_or_validation
mark_attempt_unknown ctx clock q s =
    if not (valid_mutation q)
    then context_or_validation ctx
        (attempt_error q.execution_id q.operation_id q.attempt_number invalid_argument) s
    else with_record ctx clock q.execution_id q.operation_id (mark_unknown_record q) s
