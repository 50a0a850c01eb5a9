-- ===== src/Durable/Testbackend/Executions.antt =====
-- The execution operations (durable/internal/testbackend/execution.go, and `ValidateCheckpoint` of
-- durable/hash.go). Canonical JSON and SHA-256 are parameters: a hash, or none for an encode error.
use mathlib.Core.Bool.{not}
use go_hydaelyn.Prelude.{
  ℕ, ◌+◌, ltb, Bool, true, false, ◌&&◌, ◌||◌, Option, none, some, List, [], Text, ◌==◌, nat_eq,
  text_eq_instance, Result, ok, err, if◌then◌else◌,
}
use go_hydaelyn.Prelude.Assoc.{get, put}
use go_hydaelyn.Prelude.Int.{ℤ, int_eq}
use go_hydaelyn.Agent.{AgentResult, Continuation}
use go_hydaelyn.Durable.{
  Hash, zero_hash, next_u64, running, ExecutionSpec, Lease, Checkpoint, StartResult, DurableError,
  execution_error, context_error, ContextError, invalid_argument, conflict, busy, lease_lost,
  StartExecutionRequest,
}
use go_hydaelyn.Durable.Testbackend.Store.{
  ClaimMode, start, resume, ExecutionRecord, Store, Outcome, lease_key_eq, suspend_key_eq,
  finish_key_eq, trusted_now, valid_execution_id, valid_lease_input, duration, lease_active,
  terminal, reconcile_running, reconcile_for_claim, decided_or,
}

pub record Hashes : Type 0 where
  pub hash_spec : ExecutionSpec → Option Hash
  pub hash_continuation : Continuation → Option Hash
  pub hash_result : AgentResult → Option Hash

-- `hash == want` where there is a hash
abbrev pub hashes_to : Option Hash → Hash → Bool
hashes_to none want = false
hashes_to (some h) want = h == want

-- `ValidateCheckpoint`; true is a nil error, false `ErrCorruptCheckpoint`
unfoldable pub valid_checkpoint : Hashes → Checkpoint → Bool
valid_checkpoint h c =
    not (c.sequence == 0) && hashes_to (h.hash_continuation c.continuation) c.continuation_hash

-- A claim that has this ID was made before: its mode, owner, TTL and spec.
unfoldable pub claim_lease : ExecutionRecord → Text → List ℕ → ℤ → ℕ → Lease
claim_lease r owner claim ttl now = record {
  owner_id = owner;
  claim_id = claim;
  token = r.next_token;
  expires_at = now + duration ttl;
}

-- `record.nextToken++`, the status and the lease of a claim that succeeds
unfoldable pub claim : ExecutionRecord → Text → List ℕ → ℤ → ℕ → ExecutionRecord
unfolding claim_lease reconcile_running
claim r owner claim_id ttl now =
    let swept = reconcile_running r 0 in
    let numbered = record swept { next_token = next_u64 r.next_token } in
    record numbered {
      execution = record r.execution {
        status = running;
        lease = some (claim_lease numbered owner claim_id ttl now);
      };
    }

abbrev pub is_start : ClaimMode → Bool
is_start start = true
is_start resume = false

abbrev pub active_claim : Option Lease → List ℕ → Bool
active_claim none id = false
active_claim (some l) id = l.claim_id == id

-- What a prior claim with the same ID decides; `none` goes on to claim.
unfoldable pub prior_start :
    ExecutionRecord → StartExecutionRequest → ℕ → Option (Result DurableError StartResult)
unfolding lease_active
prior_start r q now = elim (get r.claims q.claim_id) [
  | none ↦ none
  | some p ↦
      if not (is_start p.mode)
        || not (p.owner_id == q.owner_id)
        || not (p.lease_ttl == q.lease_ttl)
        || not (p.spec_hash == q.spec_hash)
      then some (err (execution_error q.execution_id conflict))
      else if ltb p.token r.next_token
      then some (err (execution_error q.execution_id lease_lost))
      else if lease_active r.execution.lease now && active_claim r.execution.lease q.claim_id
      then elim p.started [ none ↦ none | some s ↦ some (ok s) ]
      else none
]

-- `claimForStart`
unfoldable pub claim_for_start : ExecutionRecord → StartExecutionRequest → ℕ → Outcome StartResult
unfolding prior_start lease_active claim reconcile_for_claim
claim_for_start r q now = decided_or (prior_start r q now) r (
    if lease_active r.execution.lease now
    then (err (execution_error q.execution_id busy), r)
    else let claimed = claim r q.owner_id q.claim_id q.lease_ttl now in
      let result : StartResult = record {
        execution = claimed.execution;
        created = false;
        reconcile = reconcile_for_claim r;
      } in
      (
        ok result,
        record claimed {
          claims = put r.claims q.claim_id (record {
            mode = start;
            owner_id = q.owner_id;
            lease_ttl = q.lease_ttl;
            spec_hash = q.spec_hash;
            token = claimed.next_token;
            started = some result;
            resumed = none;
          });
        },
      ))

-- the branch of `StartExecution` for an execution that exists
unfoldable pub start_existing : ExecutionRecord → StartExecutionRequest → ℕ → Outcome StartResult
unfolding claim_for_start
start_existing r q now =
    if not (r.execution.spec_hash == q.spec_hash)
    then (err (execution_error q.execution_id conflict), r)
    else if terminal r.execution.status
    then (ok (record { execution = r.execution; created = false; reconcile = [] }), r)
    else claim_for_start r q now

-- the record of a new execution, and its start result
unfoldable pub create : StartExecutionRequest → ℕ → Outcome StartResult
unfolding claim_lease
create q now =
    let fresh : ExecutionRecord = record {
      execution = record {
        id = q.execution_id;
        spec = q.spec;
        spec_hash = q.spec_hash;
        status = running;
        version = 1;
        lease = none;
        checkpoint = none;
        result = none;
        result_hash = zero_hash;
      };
      attempts = [];
      claims = [];
      releases = [];
      suspends = [];
      finishes = [];
      next_token = 1;
    } in
    let execution = record fresh.execution {
      lease = some (claim_lease fresh q.owner_id q.claim_id q.lease_ttl now);
    } in
    let result : StartResult = record { execution = execution; created = true; reconcile = [] } in
    (
      ok result,
      record fresh {
        execution = execution;
        claims = put [] q.claim_id (record {
          mode = start;
          owner_id = q.owner_id;
          lease_ttl = q.lease_ttl;
          spec_hash = q.spec_hash;
          token = 1;
          started = some result;
          resumed = none;
        });
      },
    )

abbrev pub start_or_create :
    Option ExecutionRecord → StartExecutionRequest → ℕ → Outcome StartResult
start_or_create none q now = create q now
start_or_create (some r) q now = start_existing r q now

-- under the mutex: the record is created or claimed, and stored
unfoldable pub start_stored :
    ℕ → StartExecutionRequest → Store → Result DurableError StartResult × Store
unfolding start_existing create
start_stored clock q s =
    let (result, r) = start_or_create (get s.executions q.execution_id) q (trusted_now clock s) in
    (result, record s { executions = put s.executions q.execution_id r })

-- the comparison with the request's hash
abbrev pub start_hashed :
    Option Hash → ℕ → StartExecutionRequest → Store → Result DurableError StartResult × Store
start_hashed none clock q s = (err (execution_error q.execution_id invalid_argument), s)
start_hashed (some hash) clock q s =
    if not (hash == q.spec_hash)
    then (err (execution_error q.execution_id conflict), s)
    else start_stored clock q s

unfoldable pub start_execution :
    Hashes
    → Option ContextError
    → ℕ
    → StartExecutionRequest
    → Store
    → Result DurableError StartResult × Store
unfolding valid_execution_id valid_lease_input start_stored
start_execution h (some e) clock q s = (err (context_error e), s)
start_execution h none clock q s =
    if not (valid_execution_id q.execution_id)
      || not (valid_lease_input q.owner_id q.claim_id q.lease_ttl)
    then (err (execution_error q.execution_id invalid_argument), s)
    else start_hashed (h.hash_spec q.spec) clock q s
