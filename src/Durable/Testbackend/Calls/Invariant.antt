-- ===== src/Durable/Testbackend/Calls/Invariant.antt =====
-- Every record of a store is sound after any sequence of calls (durable/internal/testbackend).
use go_hydaelyn.Prelude.{arith, ℕ, ◌≡◌, refl, Option, some, List, [], ◌∷◌, Text, text_eq_instance}
use go_hydaelyn.Prelude.Assoc.{get}
use go_hydaelyn.Durable.{StartExecutionRequest}
use go_hydaelyn.Durable.Testbackend.Store.{ExecutionRecord, Store, empty_store}
use go_hydaelyn.Durable.Testbackend.Executions.{Hashes, create}
use go_hydaelyn.Durable.Testbackend.Soundness.{IsSound}
use go_hydaelyn.Durable.Testbackend.Soundness.Preservation.{Change-IsSound}
use go_hydaelyn.Durable.Testbackend.Calls.{Call, perform, run}
use go_hydaelyn.Durable.Testbackend.Calls.Reachable.{At, kept, changed, created}
use go_hydaelyn.Durable.Testbackend.Calls.Methods.{perform-Steps}

-- Every record of the store is sound.
pub record AllSound (s : Store) : Type 0 where
  pub each : (id : Text) (r : ExecutionRecord) → get s.executions id ≡ some r → IsSound r

create-IsSound : (q : StartExecutionRequest) (now : ℕ) → IsSound (create q now).1
unfolding create
create-IsSound q now = record { lease = (refl, refl); finished = tt; slots = tt }

At-IsSound :
    {p : Option StartExecutionRequest} {now : ℕ} {o o' : Option ExecutionRecord}
    → At p now o o'
    → ((r : ExecutionRecord) → o ≡ some r → IsSound r)
    → (r' : ExecutionRecord) → o' ≡ some r'
    → IsSound r'
At-IsSound kept before r' e = before r' e
At-IsSound (changed {r = r} {r' = x} c) before r' e =
    let is : x ≡ r' = ground arith in rw (← is) (Change-IsSound c (before r refl))
At-IsSound {now = now} (created q asked) before r' e =
    let is : (create q now).1 ≡ r' = ground arith in rw (← is) (create-IsSound q now)

pub run-AllSound :
    (h : Hashes) (calls : List Call) (s : Store) → AllSound s → AllSound (run h calls s)
unfolding run
run-AllSound h [] s a = a
run-AllSound h (c ∷ calls) s a = run-AllSound h calls (perform h c.ctx c.clock c.method s) record {
  each = λ id. At-IsSound ((perform-Steps h c.ctx c.clock c.method s).at_key id) (a.each id);
}

pub empty_store-AllSound : AllSound empty_store
unfolding get
empty_store-AllSound = record { each = λ id r e. cc }

-- From an empty store, any sequence of backend calls, at any clock readings, leaves every execution
-- record sound: a lease is the newest claim's and its execution runs, an execution that ended has a
-- result, the attempts of an operation are numbered from 1 with every one before the last
-- abandoned, and an attempt runs only under the lease in force.
pub reached-IsSound :
    (h : Hashes) (calls : List Call) (id : Text) (r : ExecutionRecord)
    → get (run h calls empty_store).executions id ≡ some r
    → IsSound r
reached-IsSound h calls = (run-AllSound h calls empty_store empty_store-AllSound).each
