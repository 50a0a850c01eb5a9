-- ===== src/Durable/Testbackend/Calls/Effects.antt =====
-- An effect with a recorded outcome is never executed again (durable/internal/testbackend).
use go_hydaelyn.Prelude.{
  ℕ, suc, ◌≡◌, ◌≢◌, refl, sym, ◌∙◌, ap, true, false, not, Bool, Option, none, some, List, [], ◌∷◌,
  ◌++◌, map, Text, ◌==◌, text_eq_instance, text_eq_iff, nat_eq, arith, inl, inr, Bool-cases,
  if◌then◌else◌, Result, ok, err, ◌||◌, ◌&&◌,
}
use go_hydaelyn.Prelude.Assoc.{Map, get, put, get-put}
use go_hydaelyn.Durable.{
  Attempt, AttemptStatus, running, succeeded, failed, unknown, abandoned, AttemptStart, replay,
  DurableError, attempt_error, lease_lost, conflict, StartAttemptRequest,
}
use go_hydaelyn.Durable.Testbackend.Store.{
  ExecutionRecord, Outcome, empty_store, reconcile_running, write_attempt, expire, expire_all,
  is_expiring, attempts_of, attempt_by_number, find_number, holds_lease,
}
use go_hydaelyn.Durable.Testbackend.Attempts.{
  with_attempts, last_attempt, is_settled, start_attempt_record, restart, kind_beq,
}
use go_hydaelyn.Durable.Testbackend.Executions.{Hashes, claim}
use go_hydaelyn.Durable.Testbackend.Change.{
  Change, same, claims, renews, saves, suspends, finishes, releases, opens, reopens, doubts,
  settles, resolves,
}
use go_hydaelyn.Durable.Testbackend.Soundness.{IsSound, Chain}
use go_hydaelyn.Durable.Testbackend.Soundness.Writes.{attempts_of-Sound}
use go_hydaelyn.Durable.Testbackend.Calls.{Call, run}
use go_hydaelyn.Durable.Testbackend.Calls.Invariant.{run-AllSound, empty_store-AllSound}
use go_hydaelyn.Durable.Testbackend.Calls.Kept.{Persists, run-Found}

-- An attempt that was found by number and is not abandoned is the last one.
pub Chain-find_last :
    (n k : ℕ) (l : List Attempt) (a : Attempt)
    → find_number n l ≡ some a
    → a.status ≢ abandoned
    → Chain k l
    → last_attempt l ≡ some a
unfolding find_number
Chain-find_last n k [] a found alive c = cc
Chain-find_last n k (x ∷ []) a found alive c = ground arith
Chain-find_last n k (x ∷ y ∷ l) a found alive c = elim (Bool-cases (x.number == n)) [
  | inl here ↦
      let is : x ≡ a = ground arith in
      absurd (alive (ap (λ (z : Attempt). z.status) (sym is) ∙ c.1))
  | inr other ↦ Chain-find_last n (suc k) (y ∷ l) a (ground arith) alive c.2
]

-- The attempts of one operation, after a sweep and after a write of another operation's.
attempts_of-expire :
    (token : ℕ) (m : Map Text (List Attempt)) (op : Text)
    → elim (get (expire_all token m) op) [ none ↦ [] | some l ↦ l ]
      ≡ map (expire token) (elim (get m op) [ none ↦ [] | some l ↦ l ])
unfolding get expire_all
attempts_of-expire token [] op = refl
attempts_of-expire token ((j, l) ∷ m) op = elim (Bool-cases (j == op)) [
  | inl here ↦ rw here refl
  | inr other ↦ rw other (attempts_of-expire token m op)
]

last_attempt-expire :
    (token : ℕ) (l : List Attempt) (a : Attempt)
    → is_settled a.status ≡ true
    → last_attempt l ≡ some a
    → last_attempt (map (expire token) l) ≡ some a
unfolding expire is_expiring
last_attempt-expire token [] a s e = cc
last_attempt-expire token (x ∷ []) a s e = ground arith
last_attempt-expire token (x ∷ y ∷ l) a s e = last_attempt-expire token (y ∷ l) a s e

swept_settled :
    (r : ExecutionRecord) (token : ℕ) (op : Text) (a : Attempt)
    → is_settled a.status ≡ true
    → last_attempt (attempts_of r op) ≡ some a
    → last_attempt (attempts_of (reconcile_running r token) op) ≡ some a
unfolding attempts_of reconcile_running
swept_settled r token op a s e =
    rw (attempts_of-expire token r.attempts op) (last_attempt-expire token (attempts_of r op) a s e)

slot : Option (List Attempt) → List Attempt
slot o = elim o [ none ↦ [] | some l ↦ l ]

written_other :
    (r : ExecutionRecord) (op other : Text) (l : List Attempt)
    → (other ≡ op → ⊥)
    → attempts_of (with_attempts r other l) op ≡ attempts_of r op
unfolding attempts_of with_attempts slot
written_other r op other l apart = elim (Bool-cases (other == op)) [
  | inl here ↦ absurd (apart ((text_eq_iff other op).0 here))
  | inr no_it ↦
      let same : get (put r.attempts other l) op ≡ get r.attempts op =
        rw (get-put r.attempts other op l, no_it) refl in
      ap slot same
]

attempts_along :
    {r r' : ExecutionRecord} (op : Text) → r' ≡ r → attempts_of r' op ≡ attempts_of r op
attempts_along op e = ap (λ (x : ExecutionRecord). attempts_of x op) e

-- A change of another operation's attempts, or one that this operation's outcome rules out.
module _ (r : ExecutionRecord) (op : Text) (a : Attempt) (s : is_settled a.status ≡ true)
    (last : last_attempt (attempts_of r op) ≡ some a) where
  elsewhere :
      (other : Text) (l : List Attempt)
      → (other ≡ op → ⊥)
      → last_attempt (attempts_of (with_attempts r other l) op) ≡ some a
  elsewhere other l apart = rw (written_other r op other l apart) last

  -- The last attempt of another status is another operation's.
  apart_last :
      (other : Text) (b : Attempt)
      → last_attempt (attempts_of r other) ≡ some b
      → is_settled b.status ≡ false
      → other ≡ op
      → ⊥
  apart_last other b is_last open_one here =
      let also : last_attempt (attempts_of r op) ≡ some b = rw (← here) is_last in
      let is : a ≡ b = ground arith in let settled : is_settled b.status ≡ true = rw (← is) s in cc

  apart_found :
      IsSound r
      → (other : Text) (n : ℕ) (b : Attempt) → attempt_by_number r other n ≡ some b
      → b.status ≢ abandoned
      → is_settled b.status ≡ false
      → other ≡ op
      → ⊥
  unfolding attempt_by_number
  apart_found sound other n b found alive open_one here =
      let slots = attempts_of-Sound r.execution.lease r other sound.slots in
      apart_last other b (Chain-find_last n 1 (attempts_of r other) b found alive slots.0) open_one
        here

  apart_none : (other : Text) → last_attempt (attempts_of r other) ≡ none → other ≡ op → ⊥
  apart_none other e here = let also : last_attempt (attempts_of r op) ≡ none = rw (← here) e in cc

  along :
      {r' r'' : ExecutionRecord}
      → r' ≡ r''
      → last_attempt (attempts_of r'' op) ≡ some a
      → last_attempt (attempts_of r' op) ≡ some a
  along e h = rw (attempts_along op e) h

  pub Change-settled :
      {r' : ExecutionRecord} {now : ℕ}
      → IsSound r
      → Change r now r'
      → last_attempt (attempts_of r' op) ≡ some a
  unfolding with_attempts write_attempt claim attempts_of
  Change-settled sound (same e) = along e last
  Change-settled sound (claims owner id ttl m live free e) = along e (swept_settled r 0 op a s last)
  Change-settled sound (renews ref t held e) = along e last
  Change-settled sound (saves ref c held e) = along e last
  Change-settled sound (suspends ref m held e) = along e (swept_settled r ref.token op a s last)
  Change-settled sound (finishes ref result hash m held live clear e) = along e last
  Change-settled sound (releases ref m held e) = along e (swept_settled r ref.token op a s last)
  Change-settled sound (opens ref other b held fresh g e) =
      along e (elsewhere other (b ∷ []) (apart_none other fresh))
  Change-settled sound (reopens ref other x b held is_last gone g e) =
      along e (
        elsewhere other (attempts_of r other ++ b ∷ []) (apart_last other x is_last (rw gone refl)))
  Change-settled sound (doubts ref other x held is_last run e) =
      along e (elsewhere other _ (apart_last other x is_last (rw run refl)))
  Change-settled sound (settles ref other n x b held found run o e) =
      along e (elsewhere other _ (apart_found sound other n x found (λ h. cc) (rw run refl)))
  Change-settled sound (resolves other n x b free found unsure o e) =
      along e (elsewhere other _ (apart_found sound other n x found (λ h. cc) (rw unsure refl)))

pub settled-Persists :
    (op : Text) (a : Attempt)
    → is_settled a.status ≡ true
    → Persists (λ n r. last_attempt (attempts_of r op) ≡ some a)
settled-Persists op a s = record {
  idle = λ n r e. e;
  step = λ n now r r' sound c e. Change-settled r op a s e sound c;
}

-- The answer to a start of the effect whose attempt `a` has an outcome.
unfoldable pub replay_answer :
    StartAttemptRequest → Attempt → Bool → Result DurableError AttemptStart
unfolding kind_beq
replay_answer q a held =
    if not held
    then err (attempt_error q.execution_id q.operation_id 0 lease_lost)
    else if kind_beq a.kind q.kind && a.input_hash == q.input_hash
    then ok (record { attempt = a; decision = replay })
    else err (attempt_error q.execution_id q.operation_id a.number conflict)

restart_settled :
    (q : StartAttemptRequest) (r : ExecutionRecord) (l : List Attempt) (a : Attempt)
    (status : AttemptStatus)
    → is_settled status ≡ true
    → restart q r l a status ≡ (ok (record { attempt = a; decision = replay }), r)
unfolding restart
restart_settled q r l a succeeded s = refl
restart_settled q r l a failed s = refl
restart_settled q r l a running s = cc
restart_settled q r l a unknown s = cc
restart_settled q r l a abandoned s = cc

-- The three refusals and the replay, whichever tests hold.
start_branches :
    (x y z : Result DurableError AttemptStart) (r : ExecutionRecord) (held kind hash : Bool)
    → ◌≡◌ {A = Outcome AttemptStart}
        (if not held then (x, r) else if not kind || not hash then (y, r) else (z, r))
        (if not held then x else if kind && hash then z else y, r)
start_branches x y z r false kind hash = refl
start_branches x y z r true false hash = refl
start_branches x y z r true true false = refl
start_branches x y z r true true true = refl

pub start_settled :
    (q : StartAttemptRequest) (r : ExecutionRecord) (now : ℕ) (a : Attempt)
    → is_settled a.status ≡ true
    → last_attempt (attempts_of r q.operation_id) ≡ some a
    → start_attempt_record q r now ≡ (replay_answer q a (holds_lease r q.lease now), r)
unfolding start_attempt_record replay_answer
start_settled q r now a s e =
    rw (e, restart_settled q r (attempts_of r q.operation_id) a a.status s)
      (start_branches _ _ _ r (holds_lease r q.lease now) (kind_beq a.kind q.kind)
        (a.input_hash == q.input_hash))

-- Once the last attempt of an operation has succeeded or failed, no later sequence of calls makes
-- the backend run that effect again: a start of the operation is refused as `ErrLeaseLost` without
-- the lease, as `ErrConflict` for another kind or input, and otherwise replays that very attempt;
-- the start writes nothing.
pub settled_effect_replays :
    (h : Hashes) (before after : List Call) (q : StartAttemptRequest) (now : ℕ)
    (r : ExecutionRecord) (a : Attempt)
    → get (run h before empty_store).executions q.execution_id ≡ some r
    → last_attempt (attempts_of r q.operation_id) ≡ some a
    → is_settled a.status ≡ true
    → (r' : ExecutionRecord) × (get
          (run h after (run h before empty_store)).executions
          q.execution_id
        ≡ some r')
      × (start_attempt_record q r' now ≡ (replay_answer q a (holds_lease r' q.lease now), r'))
settled_effect_replays h before after q now r a there last s =
    let f =
      run-Found (λ n x. last_attempt (attempts_of x q.operation_id) ≡ some a)
        (settled-Persists q.operation_id a s) h after (run h before empty_store) 0 q.execution_id r
        (run-AllSound h before empty_store empty_store-AllSound) there last in
    (f.value, f.is_there, start_settled q f.value now a s f.holds)
