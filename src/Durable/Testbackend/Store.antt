-- ===== src/Durable/Testbackend/Store.antt =====
-- The store, its records and the helpers of durable/internal/testbackend/store.go. A clone of a
-- value is the value. The mutex makes each operation one step; the clock is an argument.
use mathlib.Core.Bool.{not}
use go_hydaelyn.Prelude.{
  ℕ, ◌+◌, ltb, Bool, true, false, ◌&&◌, ◌||◌, Option, none, some, List, [], ◌∷◌, ◌++◌, ◌≡◌, ◌↔◌,
  map, Text, is_blank, text_ltb, text_eq_iff, Eq, ◌==◌, nat_eq, text_eq_instance, Result, err,
  if◌then◌else◌, arith, ok,
}
use go_hydaelyn.Prelude.Assoc.{Map, get, put}
use go_hydaelyn.Prelude.Int.{ℤ, pos, negsuc}
use go_hydaelyn.Prelude.Sort.{sort_slice}
use go_hydaelyn.Message.Content.{is_empty}
use go_hydaelyn.Durable.{
  Hash, ClaimId, zero_claim, next_u64, ExecutionStatus, completed, failed, Lease, LeaseRef,
  Execution, Attempt, AttemptStatus, running, unknown, FailureRecord, StartResult, ResumeResult,
  ReleaseResult, DurableError, context_error, execution_error, attempt_error, ContextError,
  not_found,
}

pub data ClaimMode : Type 0 where
  start resume : ClaimMode

pub record ClaimRecord : Type 0 where
  pub mode : ClaimMode
  pub owner_id : Text
  pub lease_ttl : ℤ
  pub spec_hash : Hash
  pub token : ℕ
  pub started : Option StartResult
  pub resumed : Option ResumeResult

pub record LeaseKey : Type 0 where
  pub owner_id : Text
  pub token : ℕ

pub record SuspendKey : Type 0 where
  pub lease : LeaseKey
  pub expected_version : ℕ

pub record FinishKey : Type 0 where
  pub lease : LeaseKey
  pub expected_version : ℕ
  pub result_hash : Hash

pub record ExecutionRecord : Type 0 where
  pub execution : Execution
  pub attempts : Map Text (List Attempt)
  pub claims : Map ClaimId ClaimRecord
  pub releases : Map LeaseKey ReleaseResult
  pub suspends : Map SuspendKey Execution
  pub finishes : Map FinishKey Execution
  pub next_token : ℕ

pub record Store : Type 0 where
  pub offset : ℕ
  pub executions : Map Text ExecutionRecord

-- Go's `==` on the key structs
unfoldable pub lease_key_beq : LeaseKey → LeaseKey → Bool
lease_key_beq a b = a.owner_id == b.owner_id && a.token == b.token

pub lease_key_beq_iff : (a b : LeaseKey) → (lease_key_beq a b ≡ true) ↔ (a ≡ b)
unfolding lease_key_beq
lease_key_beq_iff a b = ground (arith, text_eq_iff a.owner_id b.owner_id)

instance abbrev pub lease_key_eq : Eq LeaseKey
lease_key_eq = record { eqb = lease_key_beq; eqb_iff = lease_key_beq_iff }

unfoldable pub suspend_key_beq : SuspendKey → SuspendKey → Bool
suspend_key_beq a b = a.lease == b.lease && a.expected_version == b.expected_version

pub suspend_key_beq_iff : (a b : SuspendKey) → (suspend_key_beq a b ≡ true) ↔ (a ≡ b)
unfolding suspend_key_beq
suspend_key_beq_iff a b = ground (arith, lease_key_beq_iff a.lease b.lease)

instance abbrev pub suspend_key_eq : Eq SuspendKey
suspend_key_eq = record { eqb = suspend_key_beq; eqb_iff = suspend_key_beq_iff }

unfoldable pub finish_key_beq : FinishKey → FinishKey → Bool
finish_key_beq a b =
    a.lease == b.lease && a.expected_version == b.expected_version && a.result_hash == b.result_hash

pub finish_key_beq_iff : (a b : FinishKey) → (finish_key_beq a b ≡ true) ↔ (a ≡ b)
unfolding finish_key_beq
finish_key_beq_iff a b =
    ground (arith, lease_key_beq_iff a.lease b.lease, text_eq_iff a.result_hash b.result_hash)

instance abbrev pub finish_key_eq : Eq FinishKey
finish_key_eq = record { eqb = finish_key_beq; eqb_iff = finish_key_beq_iff }

-- `New` and `Advance`
abbrev pub empty_store : Store
empty_store = record { offset = 0; executions = [] }

unfoldable pub advance : ℕ → Store → Store
advance duration s = record s { offset = s.offset + duration }

abbrev pub trusted_now : ℕ → Store → ℕ
trusted_now clock s = clock + s.offset

-- What an operation on a record returns, with the record rest it leaves it.
abbrev pub Outcome : Type 0 → Type 0
Outcome A = Result DurableError A × ExecutionRecord

-- An answer that was decided before is returned, and the record is left; `none` goes on.
abbrev pub decided_or :
    {A : Type 0} → Option (Result DurableError A) → ExecutionRecord → Outcome A → Outcome A
decided_or (some d) r k = (d, r)
decided_or none r k = k

-- A stored result is replayed, and the record is left; `none` goes on.
abbrev pub replayed_or : {A : Type 0} → Option A → ExecutionRecord → Outcome A → Outcome A
replayed_or (some a) r k = (ok a, r)
replayed_or none r k = k

-- the record that the lookup finds, written back as the closure leaves it
abbrev pub found_record :
    {A : Type 0}
    → Text
    → Text
    → (ExecutionRecord → ℕ → Outcome A)
    → ℕ
    → Store
    → Option ExecutionRecord
    → Result DurableError A × Store
found_record id operation_id call clock s none = (
  err (
      if is_empty operation_id
      then execution_error id not_found
      else attempt_error id operation_id 0 not_found),
  s,
)
found_record id operation_id call clock s (some r) =
    let (result, r') = call r (trusted_now clock s) in
    (result, record s { executions = put s.executions id r' })

unfoldable pub with_record :
    {A : Type 0}
    → Option ContextError
    → ℕ
    → Text
    → Text
    → (ExecutionRecord → ℕ → Outcome A)
    → Store
    → Result DurableError A × Store
with_record (some e) clock id operation_id call s = (err (context_error e), s)
with_record none clock id operation_id call s =
    found_record id operation_id call clock s (get s.executions id)

unfoldable pub context_or_validation :
    {A : Type 0} → Option ContextError → DurableError → Store → Result DurableError A × Store
context_or_validation (some e) v s = (err (context_error e), s)
context_or_validation none v s = (err v, s)

unfoldable pub valid_execution_id : Text → Bool
valid_execution_id id = not (is_blank id)

abbrev pub is_positive : ℤ → Bool
is_positive (pos n) = ltb 0 n
is_positive (negsuc n) = false

-- A duration that was found positive.
abbrev pub duration : ℤ → ℕ
duration (pos n) = n
duration (negsuc n) = 0

unfoldable pub valid_lease_input : Text → ClaimId → ℤ → Bool
valid_lease_input owner claim ttl =
    not (is_blank owner) && not (claim == zero_claim) && is_positive ttl

unfoldable pub lease_matches : Option Lease → LeaseRef → Bool
lease_matches none reference = false
lease_matches (some l) reference = l.owner_id == reference.owner_id && l.token == reference.token

unfoldable pub lease_active : Option Lease → ℕ → Bool
lease_active none now = false
lease_active (some l) now = ltb now l.expires_at

-- `requireActiveLease`; true is a nil error, false `ErrLeaseLost`
unfoldable pub holds_lease : ExecutionRecord → LeaseRef → ℕ → Bool
unfolding lease_matches lease_active
holds_lease r reference now =
    lease_matches r.execution.lease reference && lease_active r.execution.lease now

abbrev pub terminal : ExecutionStatus → Bool
terminal completed = true
terminal failed = true
terminal _ = false

unfoldable pub same_failure : Option FailureRecord → Option FailureRecord → Bool
same_failure none none = true
same_failure none (some g) = false
same_failure (some f) none = false
same_failure (some f) (some g) = f.code == g.code && f.message == g.message

unfoldable pub lease_ref_beq : LeaseRef → LeaseRef → Bool
lease_ref_beq a b = a.owner_id == b.owner_id && a.token == b.token

abbrev pub is_running : AttemptStatus → Bool
is_running running = true
is_running _ = false

abbrev pub is_unknown : AttemptStatus → Bool
is_unknown unknown = true
is_unknown _ = false

-- The condition in `reconcileRunning`, negated: the attempt is made uncertain.
unfoldable pub is_expiring : ℕ → Attempt → Bool
is_expiring token a =
    is_running a.status && elim a.lease [ none ↦ false | some l ↦ token == 0 || l.token == token ]

unfoldable pub expire : ℕ → Attempt → Attempt
unfolding is_expiring
expire token a =
    if is_expiring token a
    then record a { status = unknown; lease = none; version = next_u64 a.version }
    else a

-- The attempts of one operation that pass, in order.
unfoldable pub select : (Attempt → Bool) → List Attempt → List Attempt
select p [] = []
select p (a ∷ rest) = if p a then a ∷ select p rest else select p rest

unfoldable pub select_all : (Attempt → Bool) → Map Text (List Attempt) → List Attempt
unfolding select
select_all p [] = []
select_all p ((op, rest) ∷ m) = select p rest ++ select_all p m

unfoldable pub attempt_less : Attempt → Attempt → Bool
attempt_less a b =
    if a.operation_id == b.operation_id
    then ltb a.number b.number
    else text_ltb a.operation_id b.operation_id

unfoldable pub sort_attempts : List Attempt → List Attempt
unfolding attempt_less
sort_attempts = sort_slice attempt_less

unfoldable pub expire_all : ℕ → Map Text (List Attempt) → Map Text (List Attempt)
unfolding expire
expire_all token [] = []
expire_all token ((op, rest) ∷ m) = (op, map (expire token) rest) ∷ expire_all token m

-- The record that `reconcileRunning` leaves, and what it returns.
unfoldable pub reconcile_running : ExecutionRecord → ℕ → ExecutionRecord
unfolding expire_all
reconcile_running r token = record r { attempts = expire_all token r.attempts }

unfoldable pub reconciled : ExecutionRecord → ℕ → List Attempt
unfolding select_all is_expiring expire sort_attempts
reconciled r token = sort_attempts (map (expire token) (select_all (is_expiring token) r.attempts))

-- What `reconcileForClaim` returns; the record is that of `reconcile_running r 0`.
unfoldable pub reconcile_for_claim : ExecutionRecord → List Attempt
unfolding reconcile_running select_all sort_attempts
reconcile_for_claim r =
    sort_attempts (select_all (λ a. is_unknown a.status) (reconcile_running r 0).attempts)

unfoldable pub find_number : ℕ → List Attempt → Option Attempt
find_number n [] = none
find_number n (a ∷ rest) = if a.number == n then some a else find_number n rest

-- `record.attempts[operationID]`, nil on a missing key
unfoldable pub attempts_of : ExecutionRecord → Text → List Attempt
attempts_of r op = elim (get r.attempts op) [ none ↦ [] | some rest ↦ rest ]

unfoldable pub attempt_by_number : ExecutionRecord → Text → ℕ → Option Attempt
unfolding find_number attempts_of
attempt_by_number r op n = find_number n (attempts_of r op)

-- A write through the pointer that `attemptByNumber` returns.
unfoldable pub write_number : ℕ → Attempt → List Attempt → List Attempt
write_number n b [] = []
write_number n b (a ∷ rest) = if a.number == n then b ∷ rest else a ∷ write_number n b rest

unfoldable pub write_attempt : ExecutionRecord → Text → ℕ → Attempt → ExecutionRecord
unfolding write_number attempts_of
write_attempt r op n b = record r {
  attempts = put r.attempts op (write_number n b (attempts_of r op));
}

-- `validateAttemptIdentity`; true is a nil error
unfoldable pub valid_attempt_identity : Text → Text → ℕ → Bool
unfolding valid_execution_id
valid_attempt_identity id op n = valid_execution_id id && not (is_blank op) && ltb 0 n

abbrev pub bad_reference : LeaseRef → Bool
bad_reference l = is_empty l.owner_id || l.token == 0
