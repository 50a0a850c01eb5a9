-- ===== src/Durable/Testbackend/Calls/Fencing.antt =====
-- Fencing tokens (durable/internal/testbackend): they only grow, and a lease that a later claim
-- superseded is refused everywhere.
use go_hydaelyn.Prelude.{
  ℕ, suc, ◌+◌, ◌≤◌, ◌<◌, ◌⊎◌, ◌≡◌, refl, ap, false, Option, some, List, Text, text_eq_instance,
  arith, length, err, Bool-cases, inl, inr,
}
use go_hydaelyn.Prelude.Assoc.{get}
use go_hydaelyn.Prelude.Int.{ℤ}
use go_hydaelyn.Agent.{AgentResult}
use go_hydaelyn.Durable.{
  LeaseRef, u64_mod, next_u64, StartExecutionRequest, execution_error, attempt_error, lease_lost,
  Checkpoint, Hash, AttemptKind, FailureRecord, SettleAttemptRequest,
}
use go_hydaelyn.Durable.Testbackend.Store.{
  ExecutionRecord, empty_store, lease_matches, reconcile_running, write_attempt,
}
use go_hydaelyn.Durable.Testbackend.Lifecycle.{renew_record, save_record}
use go_hydaelyn.Durable.Testbackend.Endings.{suspend_record, finish_record, release_record}
use go_hydaelyn.Durable.Testbackend.Attempts.{
  with_attempts, start_attempt_record, finish_attempt_record, mark_unknown_record,
}
use go_hydaelyn.Durable.Testbackend.Executions.{Hashes, claim, create}
use go_hydaelyn.Durable.Testbackend.Change.{
  Change, same, claims, renews, saves, suspends, finishes, releases, opens, reopens, doubts,
  settles, resolves,
}
use go_hydaelyn.Durable.Testbackend.Soundness.{IsSound}
use go_hydaelyn.Durable.Testbackend.Soundness.Leases.{matched_running}
use go_hydaelyn.Durable.Testbackend.Calls.{Call, run}
use go_hydaelyn.Durable.Testbackend.Calls.Invariant.{run-AllSound, empty_store-AllSound}
use go_hydaelyn.Durable.Testbackend.Calls.Kept.{Persists, run-Found, run-Every}

-- A change keeps the token counter, or a claim moves it by one.
Change-token :
    {r r' : ExecutionRecord} {now : ℕ}
    → Change r now r'
    → (r'.next_token ≡ r.next_token) ⊎ (r'.next_token ≡ next_u64 r.next_token)
unfolding with_attempts write_attempt reconcile_running claim
Change-token (same e) = inl (ap (λ (x : ExecutionRecord). x.next_token) e)
Change-token (claims owner id ttl m live free e) =
    inr (ap (λ (x : ExecutionRecord). x.next_token) e)
Change-token (renews ref t held e) = inl (ap (λ (x : ExecutionRecord). x.next_token) e)
Change-token (saves ref c held e) = inl (ap (λ (x : ExecutionRecord). x.next_token) e)
Change-token (suspends ref m held e) = inl (ap (λ (x : ExecutionRecord). x.next_token) e)
Change-token (finishes ref result hash m held live clear e) =
    inl (ap (λ (x : ExecutionRecord). x.next_token) e)
Change-token (releases ref m held e) = inl (ap (λ (x : ExecutionRecord). x.next_token) e)
Change-token (opens ref op b held last g e) = inl (ap (λ (x : ExecutionRecord). x.next_token) e)
Change-token (reopens ref op a b held last gone g e) =
    inl (ap (λ (x : ExecutionRecord). x.next_token) e)
Change-token (doubts ref op a held last run e) = inl (ap (λ (x : ExecutionRecord). x.next_token) e)
Change-token (settles ref op n a b held found run o e) =
    inl (ap (λ (x : ExecutionRecord). x.next_token) e)
Change-token (resolves op n a b free found unsure o e) =
    inl (ap (λ (x : ExecutionRecord). x.next_token) e)

-- After `n` calls the counter is above `t` and has not wrapped.
abbrev Above : ℕ → ℕ → ExecutionRecord → Type 0
Above t n r = suc n < u64_mod → (t < r.next_token) × (r.next_token ≤ suc n)

above_step :
    (t n k k' : ℕ)
    → (k' ≡ k) ⊎ (k' ≡ next_u64 k)
    → (suc n < u64_mod → (t < k) × (k ≤ suc n))
    → suc (suc n) < u64_mod
    → (t < k') × (k' ≤ suc (suc n))
above_step t n k k' (inl e) h small =
    let b = h (omega (arith, small)) in (omega (arith, e, b.0, b.1), omega (arith, e, b.0, b.1))
above_step t n k k' (inr e) h small =
    let b = h (omega (arith, small)) in
    let plain : k' ≡ k + 1 = omega (arith, e, b.1, small) in
    (omega (arith, plain, b.0), omega (arith, plain, b.1))

Above-Persists : (t : ℕ) → Persists (Above t)
Above-Persists t = record {
  idle = λ n r h small. above_step t n r.next_token r.next_token (inl refl) h small;
  step =
      λ n now r r' s c h small. above_step t n r.next_token r'.next_token (Change-token c) h small;
}

create-Above : (n now : ℕ) (q : StartExecutionRequest) → Above 0 (suc n) (create q now).1
unfolding create
create-Above n now q small = (omega arith, omega arith)

-- In a sound record the lease in force is the newest claim's.
below_unmatched :
    (x : ExecutionRecord) (ref : LeaseRef)
    → IsSound x
    → ref.token < x.next_token
    → lease_matches x.execution.lease ref ≡ false
below_unmatched x ref s below = elim (Bool-cases (lease_matches x.execution.lease ref)) [
  | inl yes_it ↦
      let newest =
        (matched_running x.execution.lease x.next_token x.execution.status ref s.lease yes_it).1 in
      absurd (omega (arith, newest, below))
  | inr no_it ↦ no_it
]

none_there : (id : Text) (x : ExecutionRecord) → get empty_store.executions id ≡ some x → ⊥
unfolding get
none_there id x found = cc

-- With fewer than 2^64 calls in all, a fencing token that is below the newest one stays below it:
-- whatever is called later, the lease that carries it is neither in force nor matched again.
pub superseded_stays :
    (h : Hashes) (before after : List Call) (id : Text) (r : ExecutionRecord) (ref : LeaseRef)
    → suc (length before + length after) < u64_mod
    → get (run h before empty_store).executions id ≡ some r
    → ref.token < r.next_token
    → (r' : ExecutionRecord) × (get (run h after (run h before empty_store)).executions id
        ≡ some r')
      × (lease_matches r'.execution.lease ref ≡ false)
superseded_stays h before after id r ref small e old =
    let sound = run-AllSound h before empty_store empty_store-AllSound in
    let bound =
      (run-Every (Above 0) (Above-Persists 0) create-Above h before empty_store 0
        empty_store-AllSound (λ i x found small'. absurd (none_there i x found)) id r e
        (omega (arith, small))).1 in
    let started : Above ref.token (length before) r = λ s. (old, omega (arith, bound)) in
    let f =
      run-Found (Above ref.token) (Above-Persists ref.token) h after (run h before empty_store)
        (length before) id r sound e started in
    let later =
      (run-AllSound h after (run h before empty_store) sound).each id f.value f.is_there in
    (f.value, f.is_there, below_unmatched f.value ref later (f.holds small).0)

-- A call that must hold the lease `ref` of the record `r` at `now` is refused with `ErrLeaseLost`
-- and leaves the record as it is.
pub record Refused (r : ExecutionRecord) (now : ℕ) (ref : LeaseRef) : Type 0 where
  pub renewing :
      (id : Text) (ttl : ℤ)
      → renew_record (record { execution_id = id; lease = ref; lease_ttl = ttl }) r now
        ≡ (err (execution_error id lease_lost), r)
  pub saving :
      (id : Text) (v : ℕ) (c : Checkpoint)
      → save_record
          (record { execution_id = id; lease = ref; expected_version = v; checkpoint = c })
          r
          now
        ≡ (err (execution_error id lease_lost), r)
  pub suspending :
      (id : Text) (v : ℕ)
      → suspend_record (record { execution_id = id; lease = ref; expected_version = v }) r now
        ≡ (err (execution_error id lease_lost), r)
  pub finishing :
      (id : Text) (v : ℕ) (result : AgentResult) (hash : Hash)
      → finish_record
          (record {
            execution_id = id;
            lease = ref;
            expected_version = v;
            result = result;
            result_hash = hash;
          })
          r
          now
        ≡ (err (execution_error id lease_lost), r)
  pub releasing :
      (id : Text)
      → release_record (record { execution_id = id; lease = ref }) r now
        ≡ (err (execution_error id lease_lost), r)
  pub starting :
      (id op : Text) (kind : AttemptKind) (hash : Hash)
      → start_attempt_record
          (record {
            execution_id = id;
            lease = ref;
            operation_id = op;
            kind = kind;
            input_hash = hash;
          })
          r
          now
        ≡ (err (attempt_error id op 0 lease_lost), r)
  pub settling :
      (id op : Text) (n v : ℕ) (payload : List ℕ) (failure : Option FailureRecord)
      → let q : SettleAttemptRequest = record {
        execution_id = id;
        lease = ref;
        operation_id = op;
        attempt_number = n;
        expected_attempt_version = v;
        payload = payload;
        failure = failure;
      } in
        (finish_attempt_record q r now ≡ (err (attempt_error id op n lease_lost), r))
        × (mark_unknown_record q r now ≡ (err (attempt_error id op n lease_lost), r))
