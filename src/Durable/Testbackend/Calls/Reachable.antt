-- ===== src/Durable/Testbackend/Calls/Reachable.antt =====
-- One call changes one record of the store by one change, or adds a record
-- (durable/internal/testbackend).
use go_hydaelyn.Prelude.{
  ℕ, ◌≡◌, refl, inl, inr, Bool, true, false, not, ◌||◌, Option, none, some, Text, ◌==◌,
  text_eq_instance, text_eq_iff, Result, if◌then◌else◌, Bool-cases,
}
use go_hydaelyn.Prelude.Assoc.{Map, get, put, get-put}
use go_hydaelyn.Durable.{ContextError, DurableError, StartExecutionRequest, Hash}
use go_hydaelyn.Durable.Testbackend.Store.{
  ExecutionRecord, Store, Outcome, with_record, context_or_validation, trusted_now,
  valid_execution_id, valid_lease_input, found_record,
}
use go_hydaelyn.Durable.Testbackend.Executions.{
  Hashes, start_execution, start_or_create, create, start_stored, start_hashed,
}
use go_hydaelyn.Durable.Testbackend.Change.{Change, Makes}
use go_hydaelyn.Durable.Testbackend.Change.Refinement.{start_existing-Makes}

-- The store at `id` afterwards: untouched, one change on, or just created.
pub data At (q : Option StartExecutionRequest) (now : ℕ)
    : Option ExecutionRecord → Option ExecutionRecord → Type 0 where
  kept : {o : Option ExecutionRecord} → At q now o o
  changed : {r r' : ExecutionRecord} → Change r now r' → At q now (some r) (some r')
  created : (p : StartExecutionRequest) → q ≡ some p → At q now none (some (create p now).1)

-- What a call makes of the store, whatever the key.
pub record Steps (q : Option StartExecutionRequest) (now : ℕ) (s s' : Store) : Type 0 where
  pub at_key : (id : Text) → At q now (get s.executions id) (get s'.executions id)

module _ (q : Option StartExecutionRequest) where
  pub Steps-refused : (now : ℕ) (s : Store) → Steps q now s s
  Steps-refused now s = record { at_key = λ id. kept }

  pub Steps-context_or_validation :
      (A : Type 0) (now : ℕ) (ctx : Option ContextError) (e : DurableError) (s : Store)
      → Steps q now s (context_or_validation {A = A} ctx e s).1
  unfolding context_or_validation
  Steps-context_or_validation A now none e s = Steps-refused now s
  Steps-context_or_validation A now (some c) e s = Steps-refused now s

  -- A write of the record at `id`.
  put-At :
      (now : ℕ) (m : Map Text ExecutionRecord) (id : Text) (r' : ExecutionRecord)
      → At q now (get m id) (some r')
      → (j : Text) → At q now (get m j) (get (put m id r') j)
  put-At now m id r' a j = elim (Bool-cases (id == j)) [
    | inl here ↦
        let key : id ≡ j = (text_eq_iff id j).0 here in rw (get-put m id j r', here) (rw (← key) a)
    | inr other ↦ rw (get-put m id j r', other) kept
  ]

  pub Steps-with_record :
      {A : Type 0} (ctx : Option ContextError) (clock : ℕ) (id op : Text)
      (call : ExecutionRecord → ℕ → Outcome A) (s : Store)
      → ((r : ExecutionRecord) → Makes r (trusted_now clock s) (call r (trusted_now clock s)))
      → Steps q (trusted_now clock s) s (with_record ctx clock id op call s).1
  unfolding with_record
  Steps-with_record {A} (some e) clock id op call s makes = Steps-refused (trusted_now clock s) s
  Steps-with_record {A} none clock id op call s makes = go (get s.executions id) refl
    where
      go :
          (o : Option ExecutionRecord)
          → get s.executions id ≡ o
          → Steps q (trusted_now clock s) s (found_record id op call clock s o).1
      go none e = Steps-refused (trusted_now clock s) s
      go (some r) e = record {
        at_key = put-At (trusted_now clock s) s.executions id _ (rw e (changed (makes r).change));
      }

  pub Steps-if :
      {A : Type 0} (now : ℕ) (s : Store) (b : Bool) (o k : Result DurableError A × Store)
      → Steps q now s o.1
      → (b ≡ false → Steps q now s k.1)
      → Steps q now s (if b then o else k).1
  Steps-if now s true o k p t = p
  Steps-if now s false o k p t = t refl

start_stored-Steps :
    (clock : ℕ) (q : StartExecutionRequest) (s : Store)
    → Steps (some q) (trusted_now clock s) s (start_stored clock q s).1
unfolding start_stored
start_stored-Steps clock q s = record {
  at_key =
      put-At (some q) (trusted_now clock s) s.executions q.execution_id _
        (go (get s.executions q.execution_id));
}
  where
    go :
        (o : Option ExecutionRecord)
        → At (some q) (trusted_now clock s) o (some (start_or_create o q (trusted_now clock s)).1)
    go none = created q refl
    go (some r) = changed (start_existing-Makes q r (trusted_now clock s)).change

start_hashed-Steps :
    (o : Option Hash) (clock : ℕ) (q : StartExecutionRequest) (s : Store)
    → Steps (some q) (trusted_now clock s) s (start_hashed o clock q s).1
start_hashed-Steps none clock q s = Steps-refused (some q) (trusted_now clock s) s
start_hashed-Steps (some hash) clock q s =
    Steps-if (some q) (trusted_now clock s) s (not (hash == q.spec_hash)) _ _
      (Steps-refused (some q) _ s) (λ _. start_stored-Steps clock q s)

pub start_execution-Steps :
    (h : Hashes) (ctx : Option ContextError) (clock : ℕ) (q : StartExecutionRequest) (s : Store)
    → Steps (some q) (trusted_now clock s) s (start_execution h ctx clock q s).1
unfolding start_execution
start_execution-Steps h (some e) clock q s = Steps-refused (some q) _ s
start_execution-Steps h none clock q s =
    Steps-if (some q) (trusted_now clock s) s
      (not (valid_execution_id q.execution_id)
        || not (valid_lease_input q.owner_id q.claim_id q.lease_ttl))
      _ _ (Steps-refused (some q) _ s) (λ _. start_hashed-Steps (h.hash_spec q.spec) clock q s)
