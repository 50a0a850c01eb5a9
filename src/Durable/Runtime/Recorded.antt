-- ===== src/Durable/Runtime/Recorded.antt =====
-- What a finished attempt leaves in its record (durable/internal/testbackend).
use mathlib.Core.Bool.{not}
use go_hydaelyn.Prelude.{
  ℕ, suc, ◌≡◌, ◌≢◌, refl, sym, ◌∙◌, ap, true, Option, none, some, List, [], ◌∷◌, Text, ◌==◌,
  text_eq_instance, text_eq_iff, nat_eq, arith, inl, inr, Bool-cases,
}
use go_hydaelyn.Prelude.Assoc.{get-put_self}
use go_hydaelyn.Durable.{
  Attempt, AttemptStatus, running, succeeded, failed, unknown, abandoned, SettleAttemptRequest,
}
use go_hydaelyn.Durable.Testbackend.Store.{
  ExecutionRecord, attempts_of, attempt_by_number, find_number, write_number, write_attempt,
  holds_lease, is_running,
}
use go_hydaelyn.Durable.Testbackend.Attempts.{
  finish_attempt_record, settle_record, settle_number, settle_found, settled_before, expected,
  settle, finished_status, is_settled, last_attempt,
}
use go_hydaelyn.Durable.Testbackend.Soundness.{IsSound, Chain}
use go_hydaelyn.Durable.Testbackend.Soundness.Writes.{attempts_of-Sound}
use go_hydaelyn.Durable.Testbackend.Calls.Effects.{Chain-find_last}
use go_hydaelyn.Durable.Testbackend.Calls.Retries.{Leaves, Leaves-refused, Leaves-done, Leaves-if}

-- The last attempt, found by its number and replaced.
write_number-last :
    (n k : ℕ) (l : List Attempt) (a b : Attempt)
    → find_number n l ≡ some a
    → a.status ≢ abandoned
    → Chain k l
    → last_attempt (write_number n b l) ≡ some b
unfolding find_number write_number
write_number-last n k [] a b found alive c = cc
write_number-last n k (x ∷ []) a b found alive c = ground arith
write_number-last n k (x ∷ y ∷ l) a b found alive c = elim (Bool-cases (x.number == n)) [
  | inl here ↦
      let is : x ≡ a = ground arith in
      absurd (alive (ap (λ (z : Attempt). z.status) (sym is) ∙ c.1))
  | inr other ↦
      rw other
        (last-cons x y l n b (write_number-last n (suc k) (y ∷ l) a b (ground arith) alive c.2))
]
  where
    last-cons :
        (x y : Attempt) (l : List Attempt) (n : ℕ) (b : Attempt)
        → last_attempt (write_number n b (y ∷ l)) ≡ some b
        → last_attempt (x ∷ write_number n b (y ∷ l)) ≡ some b
    last-cons x y l n b h = elim (Bool-cases (y.number == n)) [
      | inl e ↦ rw e (rw e at h)
      | inr e ↦ rw e (rw e at h)
    ]

-- What a finished attempt leaves in the record: it is the last one, with its outcome.
abbrev pub Recorded : SettleAttemptRequest → Attempt → ExecutionRecord → Type 0
Recorded q b r =
    (last_attempt (attempts_of r q.operation_id) ≡ some b)
    × (is_settled b.status ≡ true)
    × (b.payload ≡ q.payload)

settled_alive : (s : AttemptStatus) → is_settled s ≡ true → s ≢ abandoned
settled_alive running h e = cc
settled_alive succeeded h e = cc
settled_alive failed h e = cc
settled_alive unknown h e = cc
settled_alive abandoned h e = cc

running_alive : (s : AttemptStatus) → is_running s ≡ true → s ≢ abandoned
running_alive running h e = cc
running_alive succeeded h e = cc
running_alive failed h e = cc
running_alive unknown h e = cc
running_alive abandoned h e = cc

listed : Option (List Attempt) → List Attempt
listed o = elim o [ none ↦ [] | some l ↦ l ]

attempts_of-write_attempt :
    (r : ExecutionRecord) (op : Text) (n : ℕ) (b : Attempt)
    → attempts_of (write_attempt r op n b) op ≡ write_number n b (attempts_of r op)
unfolding attempts_of write_attempt listed
attempts_of-write_attempt r op n b =
    ap listed (get-put_self r.attempts op (write_number n b (attempts_of r op)))

finished-IsSettled : (q : SettleAttemptRequest) → is_settled (finished_status q) ≡ true
finished-IsSettled q = ground arith

module _ (q : SettleAttemptRequest) (r : ExecutionRecord) (sound : IsSound r) (a : Attempt)
    (found : attempt_by_number r q.operation_id q.attempt_number ≡ some a) where
  chained : Chain 1 (attempts_of r q.operation_id)
  chained = (attempts_of-Sound r.execution.lease r q.operation_id sound.slots).0

  repeated-Recorded : is_settled a.status ≡ true → settled_before q a ≡ true → Recorded q a r
  unfolding attempt_by_number settled_before
  repeated-Recorded s h = (
    Chain-find_last q.attempt_number 1 (attempts_of r q.operation_id) a found
        (settled_alive a.status s) chained,
    s,
    ground (arith, text_eq_iff a.payload q.payload),
  )

  written-Recorded :
      expected q a ≡ true
      → Recorded q
          (settle q (finished_status q) a)
          (write_attempt r q.operation_id q.attempt_number (settle q (finished_status q) a))
  unfolding attempt_by_number expected
  written-Recorded h =
      let b = settle q (finished_status q) a in
      let runs : is_running a.status ≡ true = ground arith in
      let last =
        write_number-last q.attempt_number 1 (attempts_of r q.operation_id) a b found
          (running_alive a.status runs) chained in
      (
        rw (attempts_of-write_attempt r q.operation_id q.attempt_number b) last,
        finished-IsSettled q,
        refl,
      )

  settle_found-Leaves :
      Leaves (Recorded q) (settle_found q (is_settled a.status) (finished_status q) a r)
  unfolding settle_found
  settle_found-Leaves = elim (Bool-cases (is_settled a.status)) [
    | inl s ↦ rw s (elim (Bool-cases (settled_before q a)) [
      | inl same ↦ rw same (Leaves-done (Recorded q) a r (repeated-Recorded s same))
      | inr other ↦ rw other (Leaves-refused (Recorded q) _ r)
    ])
    | inr open_one ↦ rw open_one (
        Leaves-if (Recorded q) (not (expected q a)) _ _ (Leaves-refused (Recorded q) _ r)
          (λ e. Leaves-done (Recorded q) _ _ (written-Recorded (ground arith))))
  ]

pub finish_record-Leaves :
    (q : SettleAttemptRequest) (r : ExecutionRecord) (now : ℕ)
    → IsSound r
    → Leaves (Recorded q) (finish_attempt_record q r now)
unfolding settle_record
finish_record-Leaves q r now sound =
    Leaves-if (Recorded q) (not (holds_lease r q.lease now)) _ _ (Leaves-refused (Recorded q) _ r)
      (λ _. numbered (attempt_by_number r q.operation_id q.attempt_number) refl)
  where
    numbered :
        (o : Option Attempt)
        → attempt_by_number r q.operation_id q.attempt_number ≡ o
        → Leaves (Recorded q) (settle_number (λ a. is_settled a.status) (finished_status q) q r o)
    numbered none e = Leaves-refused (Recorded q) _ r
    numbered (some a) e = settle_found-Leaves q r sound a e
