-- ===== src/Durable/Runtime/Stored.antt =====
-- What the store holds after an attempt was started or finished (durable/internal/testbackend).
use mathlib.Core.Bool.{not}
use go_hydaelyn.Prelude.{
  ℕ, ◌≡◌, refl, Option, none, some, List, [], ◌∷◌, Text, ◌==◌, text_eq_instance, nat_eq, arith,
  Result, ok, ◌||◌, All, ◌≢◌, subst,
}
use go_hydaelyn.Prelude.Assoc.{get, get-put_self}
use go_hydaelyn.Durable.{
  ContextError, DurableError, Attempt, AttemptStart, AttemptStatus, running, succeeded, failed,
  unknown, abandoned, StartAttemptRequest, SettleAttemptRequest, attempt_error, invalid_argument,
}
use go_hydaelyn.Durable.Testbackend.Store.{
  Store, ExecutionRecord, Outcome, with_record, found_record, context_or_validation, attempts_of,
  holds_lease, trusted_now,
}
use go_hydaelyn.Durable.Testbackend.Executions.{Hashes}
use go_hydaelyn.Durable.Testbackend.Attempts.{
  start_attempt, start_attempt_record, finish_attempt, finish_attempt_record, last_attempt,
  kind_beq, bad_start, valid_mutation, restart, started, new_attempt, held_by,
}
use go_hydaelyn.Durable.Testbackend.Soundness.{IsSound, AttemptSound}
use go_hydaelyn.Durable.Testbackend.Soundness.Writes.{attempts_of-Sound}
use go_hydaelyn.Durable.Testbackend.Calls.{starts_attempt, run, perform}
use go_hydaelyn.Durable.Testbackend.Calls.Invariant.{AllSound, run-AllSound}
use go_hydaelyn.Durable.Testbackend.Calls.Kept.{Found}
use go_hydaelyn.Durable.Testbackend.Calls.Retries.{Leaves, Leaves-refused, Leaves-done, Leaves-if}
use go_hydaelyn.Durable.Runtime.Recorded.{Recorded, finish_record-Leaves}
use go_hydaelyn.Durable.Runtime.Replays.{if-holds}

-- Where a store operation succeeds, it leaves such a record.
with_record-Leaves :
    {A : Type 0} (P : A → ExecutionRecord → Type 0) (ctx : Option ContextError) (clock : ℕ)
    (id op : Text) (call : ExecutionRecord → ℕ → Outcome A) (s : Store)
    → ((r : ExecutionRecord)
        → get s.executions id ≡ some r
        → Leaves P (call r (trusted_now clock s)))
    → (a : A) → (with_record ctx clock id op call s).0 ≡ ok a
    → Found (P a) (get (with_record ctx clock id op call s).1.executions id)
unfolding with_record
with_record-Leaves P (some e) clock id op call s leaves a done = cc
with_record-Leaves P none clock id op call s leaves a done = found (get s.executions id) refl done
  where
    found :
        (o : Option ExecutionRecord)
        → get s.executions id ≡ o
        → (found_record id op call clock s o).0 ≡ ok a
        → Found (P a) (get (found_record id op call clock s o).1.executions id)
    found none e done = cc
    found (some r) e done = record {
      value = (call r (trusted_now clock s)).1;
      is_there = get-put_self s.executions id (call r (trusted_now clock s)).1;
      holds = (leaves r e).each a done;
    }

context_never :
    {A : Type 0} (ctx : Option ContextError) (v : DurableError) (s : Store) (a : A)
    → (context_or_validation ctx v s).0 ≢ ok a
unfolding context_or_validation
context_never none v s a e = cc
context_never (some x) v s a e = cc

pub finish_attempt-Recorded :
    (ctx : Option ContextError) (clock : ℕ) (q : SettleAttemptRequest) (s : Store) (b : Attempt)
    → AllSound s
    → (finish_attempt ctx clock q s).0 ≡ ok b
    → Found (Recorded q b) (get (finish_attempt ctx clock q s).1.executions q.execution_id)
unfolding finish_attempt
finish_attempt-Recorded ctx clock q s b sound =
    if-holds
      (λ (o : Result DurableError Attempt × Store).
        o.0 ≡ ok b → Found (Recorded q b) (get o.1.executions q.execution_id))
      (not (valid_mutation q))
      (context_or_validation ctx
        (attempt_error q.execution_id q.operation_id q.attempt_number invalid_argument) s)
      (with_record ctx clock q.execution_id q.operation_id (finish_attempt_record q) s)
      (λ done. absurd (
        context_never ctx
          (attempt_error q.execution_id q.operation_id q.attempt_number invalid_argument) s b done))
      (with_record-Leaves (Recorded q) ctx clock q.execution_id q.operation_id
        (finish_attempt_record q) s
        (λ r there.
          finish_record-Leaves q r (trusted_now clock s) (sound.each q.execution_id r there))
        b)

-- The attempt that a start returns is one of the operation.
last-every :
    (P : Attempt → Type 0) (l : List Attempt) (a : Attempt)
    → All P l
    → last_attempt l ≡ some a
    → P a
last-every P [] a h e = cc
last-every P (x ∷ []) a h e = let is : x ≡ a = ground arith in subst P is h.0
last-every P (x ∷ y ∷ l) a h e = last-every P (y ∷ l) a h.1 e

abbrev SameOperation : Text → AttemptStart → ExecutionRecord → Type 0
SameOperation op x r = x.attempt.operation_id ≡ op

restart-SameOperation :
    (q : StartAttemptRequest) (r : ExecutionRecord) (l : List Attempt) (a : Attempt)
    (status : AttemptStatus)
    → a.operation_id ≡ q.operation_id
    → Leaves (SameOperation q.operation_id) (restart q r l a status)
unfolding restart new_attempt
restart-SameOperation q r l a running e =
    if-holds (Leaves (SameOperation q.operation_id)) (held_by a.lease q.lease) _ _
      (Leaves-done (SameOperation q.operation_id) _ r e)
      (Leaves-done (SameOperation q.operation_id) _ _ e)
restart-SameOperation q r l a succeeded e = Leaves-done (SameOperation q.operation_id) _ r e
restart-SameOperation q r l a failed e = Leaves-done (SameOperation q.operation_id) _ r e
restart-SameOperation q r l a unknown e = Leaves-done (SameOperation q.operation_id) _ r e
restart-SameOperation q r l a abandoned e = Leaves-done (SameOperation q.operation_id) _ _ refl

start_record-SameOperation :
    (q : StartAttemptRequest) (r : ExecutionRecord) (now : ℕ)
    → IsSound r
    → Leaves (SameOperation q.operation_id) (start_attempt_record q r now)
unfolding start_attempt_record new_attempt
start_record-SameOperation q r now sound =
    Leaves-if (SameOperation q.operation_id) (not (holds_lease r q.lease now)) _ _
      (Leaves-refused (SameOperation q.operation_id) _ r)
      (λ _. latest (last_attempt (attempts_of r q.operation_id)) refl)
  where
    latest :
        (o : Option Attempt)
        → last_attempt (attempts_of r q.operation_id) ≡ o
        → Leaves (SameOperation q.operation_id) (started q r o)
    latest none e = Leaves-done (SameOperation q.operation_id) _ _ refl
    latest (some a) e =
        let slots = attempts_of-Sound r.execution.lease r q.operation_id sound.slots in
        Leaves-if (SameOperation q.operation_id)
          (not (kind_beq a.kind q.kind) || not (a.input_hash == q.input_hash)) _ _
          (Leaves-refused (SameOperation q.operation_id) _ r)
          (λ _.
            restart-SameOperation q r (attempts_of r q.operation_id) a a.status
              (last-every (AttemptSound r.execution.lease q.operation_id)
                (attempts_of r q.operation_id) a slots.1 e).slot)

pub start_attempt-SameOperation :
    (ctx : Option ContextError) (clock : ℕ) (q : StartAttemptRequest) (s : Store) (x : AttemptStart)
    → AllSound s
    → (start_attempt ctx clock q s).0 ≡ ok x
    → x.attempt.operation_id ≡ q.operation_id
unfolding start_attempt
start_attempt-SameOperation ctx clock q s x sound =
    if-holds
      (λ (o : Result DurableError AttemptStart × Store).
        o.0 ≡ ok x → x.attempt.operation_id ≡ q.operation_id)
      (bad_start q)
      (context_or_validation ctx (attempt_error q.execution_id q.operation_id 0 invalid_argument) s)
      (with_record ctx clock q.execution_id q.operation_id (start_attempt_record q) s)
      (λ done. absurd (
        context_never ctx (attempt_error q.execution_id q.operation_id 0 invalid_argument) s x
          done))
      (λ done.
        (with_record-Leaves (SameOperation q.operation_id) ctx clock q.execution_id q.operation_id
          (start_attempt_record q) s
          (λ r there.
            start_record-SameOperation q r (trusted_now clock s)
              (sound.each q.execution_id r there))
          x done).holds)

pub start_attempt-AllSound :
    (h : Hashes) (ctx : Option ContextError) (clock : ℕ) (q : StartAttemptRequest) (s : Store)
    → AllSound s
    → AllSound (start_attempt ctx clock q s).1
unfolding run perform
start_attempt-AllSound h ctx clock q s sound =
    run-AllSound h (record { ctx = ctx; clock = clock; method = starts_attempt q } ∷ []) s sound
