-- ===== src/Durable/Testbackend/Change.antt =====
-- The changes that an operation of durable/internal/testbackend may make to an execution record, as
-- a relation: the abstract machine that the operations implement.
pub mod Refinement
pub mod Settling
use go_hydaelyn.Prelude.{
  ℕ, ◌+◌, ltb, ◌≡◌, ◌≢◌, ◌⊎◌, refl, Bool, true, false, Option, none, some, List, [], ◌∷◌, ◌++◌,
  Text, Result, if◌then◌else◌, inl, inr,
}
use go_hydaelyn.Prelude.Int.{ℤ}
use go_hydaelyn.Prelude.Assoc.{Map}
use go_hydaelyn.Agent.{AgentResult}
use go_hydaelyn.Durable.{
  Hash, next_u64, ExecutionStatus, suspended, Checkpoint, Execution, Lease, LeaseRef, Attempt,
  AttemptStatus, running, unknown, abandoned, ReleaseResult, DurableError,
}
use go_hydaelyn.Durable.Testbackend.Store.{
  ClaimRecord, LeaseKey, SuspendKey, FinishKey, ExecutionRecord, Outcome, lease_matches,
  lease_active, holds_lease, terminal, reconcile_running, attempts_of, attempt_by_number,
  write_attempt,
}
use go_hydaelyn.Durable.Testbackend.Executions.{claim}
use go_hydaelyn.Durable.Testbackend.Lifecycle.{extend}
use go_hydaelyn.Durable.Testbackend.Endings.{has_uncertain, outcome_status}
use go_hydaelyn.Durable.Testbackend.Attempts.{last_attempt, write_last, with_attempts, uncertain}

-- `b` is `a` after an outcome was recorded: it holds no lease and is one version on.
pub record Outlives (a b : Attempt) : Type 0 where
  pub slot : b.operation_id ≡ a.operation_id
  pub number : b.number ≡ a.number
  pub version : b.version ≡ next_u64 a.version
  pub status : b.status ≢ running
  pub lease : b.lease ≡ none

-- A new attempt under the lease `ref`.
pub record Begins (op : Text) (ref : LeaseRef) (n : ℕ) (b : Attempt) : Type 0 where
  pub slot : b.operation_id ≡ op
  pub number : b.number ≡ n
  pub status : b.status ≡ running
  pub lease : b.lease ≡ some ref

pub data Change (r : ExecutionRecord) (now : ℕ) (r' : ExecutionRecord) : Type 0 where
  same : r' ≡ r → Change r now r'
  claims :
      (owner : Text) (id : List ℕ) (ttl : ℤ) (m : Map (List ℕ) ClaimRecord)
      → terminal r.execution.status ≡ false
      → lease_active r.execution.lease now ≡ false
      → r' ≡ record (claim r owner id ttl now) { claims = m }
      → Change r now r'
  renews :
      (ref : LeaseRef) (t : ℕ)
      → holds_lease r ref now ≡ true
      → r' ≡ record r { execution = record r.execution { lease = extend r.execution.lease t } }
      → Change r now r'
  saves :
      (ref : LeaseRef) (c : Checkpoint)
      → holds_lease r ref now ≡ true
      → r' ≡ record r {
        execution = record r.execution {
          checkpoint = some c;
          version = next_u64 r.execution.version;
        };
      }
      → Change r now r'
  suspends :
      (ref : LeaseRef) (m : Map SuspendKey Execution)
      → holds_lease r ref now ≡ true
      → r' ≡ record (reconcile_running r ref.token) {
        execution = record r.execution {
          status = suspended;
          lease = none;
          version = next_u64 r.execution.version;
        };
        suspends = m;
      }
      → Change r now r'
  finishes :
      (ref : LeaseRef) (result : AgentResult) (hash : Hash) (m : Map FinishKey Execution)
      → holds_lease r ref now ≡ true
      → terminal r.execution.status ≡ false
      → has_uncertain r.attempts ≡ false
      → r' ≡ record r {
        execution = record r.execution {
          result = some result;
          result_hash = hash;
          status = outcome_status result;
          lease = none;
          version = next_u64 r.execution.version;
        };
        finishes = m;
      }
      → Change r now r'
  releases :
      (ref : LeaseRef) (m : Map LeaseKey ReleaseResult)
      → lease_matches r.execution.lease ref ≡ true
      → r' ≡ record (reconcile_running r ref.token) {
        execution = record r.execution { lease = none };
        releases = m;
      }
      → Change r now r'
  opens :
      (ref : LeaseRef) (op : Text) (b : Attempt)
      → holds_lease r ref now ≡ true
      → last_attempt (attempts_of r op) ≡ none
      → Begins op ref 1 b
      → r' ≡ with_attempts r op (b ∷ [])
      → Change r now r'
  reopens :
      (ref : LeaseRef) (op : Text) (a b : Attempt)
      → holds_lease r ref now ≡ true
      → last_attempt (attempts_of r op) ≡ some a
      → a.status ≡ abandoned
      → Begins op ref (a.number + 1) b
      → r' ≡ with_attempts r op (attempts_of r op ++ b ∷ [])
      → Change r now r'
  doubts :
      (ref : LeaseRef) (op : Text) (a : Attempt)
      → holds_lease r ref now ≡ true
      → last_attempt (attempts_of r op) ≡ some a
      → a.status ≡ running
      → r' ≡ with_attempts r op (write_last (uncertain a) (attempts_of r op))
      → Change r now r'
  settles :
      (ref : LeaseRef) (op : Text) (n : ℕ) (a b : Attempt)
      → holds_lease r ref now ≡ true
      → attempt_by_number r op n ≡ some a
      → a.status ≡ running
      → Outlives a b
      → r' ≡ write_attempt r op n b
      → Change r now r'
  resolves :
      (op : Text) (n : ℕ) (a b : Attempt)
      → lease_active r.execution.lease now ≡ false
      → attempt_by_number r op n ≡ some a
      → a.status ≡ unknown
      → Outlives a b
      → r' ≡ write_attempt r op n b
      → Change r now r'

-- An operation's closure makes one change.
pub record Makes {A : Type 0} (r : ExecutionRecord) (now : ℕ) (o : Outcome A) : Type 0 where
  pub change : Change r now o.1
