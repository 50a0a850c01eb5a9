-- ===== src/Durable/Testbackend/Calls/Kept.antt =====
-- What every change of a sound record keeps holds after any calls (durable/internal/testbackend).
use go_hydaelyn.Prelude.{
  ℕ, suc, ◌+◌, ◌≡◌, refl, Option, some, List, [], ◌∷◌, Text, text_eq_instance, arith, length, subst,
}
use go_hydaelyn.Prelude.Assoc.{get}
use go_hydaelyn.Durable.{StartExecutionRequest}
use go_hydaelyn.Durable.Testbackend.Store.{ExecutionRecord, Store}
use go_hydaelyn.Durable.Testbackend.Executions.{Hashes, create}
use go_hydaelyn.Durable.Testbackend.Change.{Change}
use go_hydaelyn.Durable.Testbackend.Soundness.{IsSound}
use go_hydaelyn.Durable.Testbackend.Calls.{Call, perform, run}
use go_hydaelyn.Durable.Testbackend.Calls.Reachable.{At, kept, changed, created}
use go_hydaelyn.Durable.Testbackend.Calls.Methods.{perform-Steps}
use go_hydaelyn.Durable.Testbackend.Calls.Invariant.{AllSound, run-AllSound}

-- A predicate on a record and the number of calls that were made.
pub record Persists (P : ℕ → ExecutionRecord → Type 0) : Type 0 where
  pub idle : (n : ℕ) (r : ExecutionRecord) → P n r → P (suc n) r
  pub step :
      (n now : ℕ) (r r' : ExecutionRecord) → IsSound r → Change r now r' → P n r → P (suc n) r'

-- A record that is in the store stays there, as some record for which the predicate holds.
pub record Found (P : ExecutionRecord → Type 0) (o : Option ExecutionRecord) : Type 0 where
  pub value : ExecutionRecord
  pub is_there : o ≡ some value
  pub holds : P value

no_more : (n : ℕ) → n ≡ n + 0
no_more n = omega arith

one_more : (n k : ℕ) → suc n + k ≡ n + suc k
one_more n k = omega arith

module _ (P : ℕ → ExecutionRecord → Type 0) (p : Persists P) where
  At-Found :
      {q : Option StartExecutionRequest} {now n : ℕ} {o o' : Option ExecutionRecord}
      (r : ExecutionRecord)
      → At q now o o'
      → o ≡ some r
      → IsSound r
      → P n r
      → Found (P (suc n)) o'
  At-Found {n = n} r kept e s h = record { value = r; is_there = e; holds = p.idle n r h }
  At-Found {now = now} {n = n} r (changed {r = x} {r' = r'} c) e s h =
      let is : x ≡ r = ground arith in
      record { value = r'; is_there = refl; holds = p.step n now r r' s (rw (← is) c) h }
  At-Found r (created q asked) e s h = cc

  At-every :
      {q : Option StartExecutionRequest} {now n : ℕ} {o o' : Option ExecutionRecord}
      → ((n now : ℕ) (q : StartExecutionRequest) → P (suc n) (create q now).1)
      → At q now o o'
      → ((r : ExecutionRecord) → o ≡ some r → P n r)
      → ((r : ExecutionRecord) → o ≡ some r → IsSound r)
      → (r' : ExecutionRecord) → o' ≡ some r'
      → P (suc n) r'
  At-every {n = n} fresh kept before sound r' e = p.idle n r' (before r' e)
  At-every {now = now} {n = n} fresh (changed {r = r} {r' = x} c) before sound r' e =
      let is : x ≡ r' = ground arith in
      rw (← is) (p.step n now r x (sound r refl) c (before r refl))
  At-every {now = now} {n = n} fresh (created q asked) before sound r' e =
      let is : (create q now).1 ≡ r' = ground arith in rw (← is) (fresh n now q)

  pub run-Found :
      (h : Hashes) (calls : List Call) (s : Store) (n : ℕ) (id : Text) (r : ExecutionRecord)
      → AllSound s
      → get s.executions id ≡ some r
      → P n r
      → Found (P (n + length calls)) (get (run h calls s).executions id)
  unfolding run
  run-Found h [] s n id r a e pr = record {
    value = r;
    is_there = e;
    holds = subst (λ m. P m r) (no_more n) pr;
  }
  run-Found h (c ∷ calls) s n id r a e pr =
      let s' = perform h c.ctx c.clock c.method s in
      let sound = run-AllSound h (c ∷ []) s a in
      let f =
        At-Found {n = n} r ((perform-Steps h c.ctx c.clock c.method s).at_key id) e (a.each id r e)
          pr in
      let rest = run-Found h calls s' (suc n) id f.value sound f.is_there f.holds in
      record {
        value = rest.value;
        is_there = rest.is_there;
        holds = subst (λ m. P m rest.value) (one_more n (length calls)) rest.holds;
      }

  -- The same of every record, those that a call creates included.
  pub run-Every :
      ((n now : ℕ) (q : StartExecutionRequest) → P (suc n) (create q now).1)
      → (h : Hashes) (calls : List Call) (s : Store) (n : ℕ) → AllSound s
      → ((id : Text) (r : ExecutionRecord) → get s.executions id ≡ some r → P n r)
      → (id : Text) (r : ExecutionRecord) → get (run h calls s).executions id ≡ some r
      → P (n + length calls) r
  unfolding run
  run-Every fresh h [] s n a each id r e = subst (λ m. P m r) (no_more n) (each id r e)
  run-Every fresh h (c ∷ calls) s n a each id r e =
      let s' = perform h c.ctx c.clock c.method s in
      subst (λ m. P m r) (one_more n (length calls))
        (run-Every fresh h calls s' (suc n) (run-AllSound h (c ∷ []) s a)
          (λ j.
            At-every fresh ((perform-Steps h c.ctx c.clock c.method s).at_key j) (each j)
              (a.each j))
          id r e)
