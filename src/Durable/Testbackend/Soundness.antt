-- ===== src/Durable/Testbackend/Soundness.antt =====
-- The invariant of an execution record (durable/internal/testbackend), and the lemmas on lists of
-- attempts that its preservation rests on.
pub mod Writes
pub mod Leases
pub mod Preservation
use go_hydaelyn.Prelude.{
  ℕ, zero, suc, ◌+◌, ◌≤◌, ◌<◌, ltb, ◌≡◌, refl, ap, sym, Bool, true, false, ◌&&◌, ◌||◌, Option, none,
  some, List, [], ◌∷◌, ◌++◌, ◌⊎◌, inl, inr, map, Text, ◌==◌, nat_eq, text_eq_instance, text_eq_iff,
  arith, All, Bool-cases, if◌then◌else◌, All-append, Option-cases, ◌≢◌, ◌∙◌,
}
use go_hydaelyn.Prelude.Assoc.{Map, get, put, Entries, Entries-put, Entries-get}
use go_hydaelyn.Agent.{AgentResult}
use go_hydaelyn.Durable.{
  ExecutionStatus, completed, Lease, LeaseRef, Attempt, AttemptStatus, running, succeeded, failed,
  unknown, abandoned, next_u64, u64_mod,
}
use go_hydaelyn.Durable.Testbackend.Store.{
  ExecutionRecord, terminal, is_running, is_unknown, is_expiring, expire, expire_all, attempts_of,
  find_number, write_number, lease_matches,
}
use go_hydaelyn.Durable.Testbackend.Attempts.{last_attempt, write_last}

-- The lease in force is the newest claim's, and its execution runs.
abbrev pub LeaseSound : Option Lease → ℕ → ExecutionStatus → Type 0
LeaseSound none next status = Unit
LeaseSound (some l) next status = (l.token ≡ next) × (status ≡ ExecutionStatus.running)

-- The attempt's lease is the one in force.
abbrev pub Held : Option LeaseRef → Option Lease → Type 0
Held none l = ⊥
Held (some q) none = ⊥
Held (some q) (some l) = (q.owner_id ≡ l.owner_id) × (q.token ≡ l.token)

-- An attempt runs only under the lease in force, and holds no lease otherwise.
abbrev pub StatusSound : AttemptStatus → Option LeaseRef → Option Lease → Type 0
StatusSound running q l = Held q l
StatusSound _ q l = q ≡ none

pub record AttemptSound (lease : Option Lease) (op : Text) (a : Attempt) : Type 0 where
  pub slot : a.operation_id ≡ op
  pub leased : StatusSound a.status a.lease lease

-- Attempts of one operation are numbered one after another, and all before the last are abandoned.
abbrev pub Superseded : Attempt → List Attempt → Type 0
Superseded a [] = Unit
Superseded a (b ∷ rest) = a.status ≡ abandoned

abbrev pub Chain : ℕ → List Attempt → Type 0
Chain n [] = Unit
Chain n (a ∷ rest) = (a.number ≡ n) × Superseded a rest × Chain (suc n) rest

abbrev pub SlotSound : Option Lease → Text → List Attempt → Type 0
SlotSound lease op l = Chain 1 l × All (AttemptSound lease op) l

-- An execution that ended has a result.
abbrev pub HasResult : ExecutionStatus → Option AgentResult → Type 0
HasResult completed o = o ≢ none
HasResult ExecutionStatus.failed o = o ≢ none
HasResult _ o = Unit

pub record IsSound (r : ExecutionRecord) : Type 0 where
  pub lease : LeaseSound r.execution.lease r.next_token r.execution.status
  pub finished : HasResult r.execution.status r.execution.result
  pub slots : Entries (SlotSound r.execution.lease) r.attempts

-- A sweep that reaches every running attempt.
abbrev pub Reaches : ℕ → Option Lease → Type 0
Reaches token none = Unit
Reaches token (some l) = (token ≡ 0) ⊎ (l.token ≡ token)

-- The sweep's test on the two fields that it reads.
abbrev swept : ℕ → AttemptStatus → Option LeaseRef → Bool
swept token status q =
    is_running status && elim q [ none ↦ false | some l ↦ token == 0 || l.token == token ]

swept_running :
    (token : ℕ) (q : Option LeaseRef) (lease : Option Lease)
    → Reaches token lease
    → Held q lease
    → swept token running q ≡ true
swept_running token none lease reach h = absurd h
swept_running token (some q) none reach h = absurd h
swept_running token (some q) (some l) reach h = ground arith

swept-StatusSound :
    (token : ℕ) (status : AttemptStatus) (q : Option LeaseRef) (lease lease' : Option Lease)
    (b : Bool)
    → Reaches token lease
    → StatusSound status q lease
    → swept token status q ≡ b
    → StatusSound (if b then unknown else status) (if b then none else q) lease'
swept-StatusSound token status q lease lease' true reach s e = refl
swept-StatusSound token running q lease lease' false reach s e =
    absurd (cc (swept_running token q lease reach s))
swept-StatusSound token _ q lease lease' false reach s e = s

expire_fields :
    (token : ℕ) (a : Attempt) (b : Bool)
    → swept token a.status a.lease ≡ b
    → ((expire token a).status ≡ (if b then unknown else a.status))
      × ((expire token a).lease ≡ (if b then none else a.lease))
      × ((expire token a).operation_id ≡ a.operation_id)
unfolding expire
expire_fields token a b e = ground arith

expire-AttemptSound :
    (token : ℕ) (lease lease' : Option Lease) (op : Text) (a : Attempt)
    → Reaches token lease
    → AttemptSound lease op a
    → AttemptSound lease' op (expire token a)
expire-AttemptSound token lease lease' op a reach s =
    let (status, held, slot) = expire_fields token a (swept token a.status a.lease) refl in
    record {
      slot = slot ∙ s.slot;
      leased =
          rw (status, held)
            (swept-StatusSound token a.status a.lease lease lease' _ reach s.leased refl);
    }

expire_number : (token : ℕ) (a : Attempt) → (expire token a).number ≡ a.number
unfolding expire
expire_number token a = ground arith

expire_abandoned :
    (token : ℕ) (a : Attempt) → a.status ≡ abandoned → (expire token a).status ≡ abandoned
unfolding expire
expire_abandoned token a h = ground arith

Superseded-expire :
    (token : ℕ) (a : Attempt) (l : List Attempt)
    → Superseded a l
    → Superseded (expire token a) (map (expire token) l)
Superseded-expire token a [] h = tt
Superseded-expire token a (b ∷ l) h = expire_abandoned token a h

Chain-expire : (token n : ℕ) (l : List Attempt) → Chain n l → Chain n (map (expire token) l)
Chain-expire token n [] c = tt
Chain-expire token n (a ∷ l) c = (
  rw (expire_number token a) c.0,
  Superseded-expire token a l c.1,
  Chain-expire token (suc n) l c.2,
)

All-expire :
    (token : ℕ) (lease lease' : Option Lease) (op : Text) (l : List Attempt)
    → Reaches token lease
    → All (AttemptSound lease op) l
    → All (AttemptSound lease' op) (map (expire token) l)
All-expire token lease lease' op [] reach s = tt
All-expire token lease lease' op (a ∷ l) reach s = (
  expire-AttemptSound token lease lease' op a reach s.0,
  All-expire token lease lease' op l reach s.1,
)

-- A sweep leaves nothing that runs, so the attempts are sound under any lease.
pub expire_all-Sound :
    (token : ℕ) (lease lease' : Option Lease) (m : Map Text (List Attempt))
    → Reaches token lease
    → Entries (SlotSound lease) m
    → Entries (SlotSound lease') (expire_all token m)
unfolding expire_all
expire_all-Sound token lease lease' [] reach s = tt
expire_all-Sound token lease lease' ((op, l) ∷ m) reach s = (
  (Chain-expire token 1 l s.0.0, All-expire token lease lease' op l reach s.0.1),
  expire_all-Sound token lease lease' m reach s.1,
)
