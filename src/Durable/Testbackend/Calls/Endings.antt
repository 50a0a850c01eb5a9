-- ===== src/Durable/Testbackend/Calls/Endings.antt =====
-- An execution that ended stays as it ended (durable/internal/testbackend).
use go_hydaelyn.Prelude.{ℕ, ◌≡◌, refl, ◌∙◌, ap, true, false, some, List, Text, text_eq_instance}
use go_hydaelyn.Prelude.Assoc.{get}
use go_hydaelyn.Durable.{Execution, LeaseRef}
use go_hydaelyn.Durable.Testbackend.Store.{
  ExecutionRecord, empty_store, terminal, holds_lease, lease_matches, write_attempt,
}
use go_hydaelyn.Durable.Testbackend.Attempts.{with_attempts}
use go_hydaelyn.Durable.Testbackend.Executions.{Hashes}
use go_hydaelyn.Durable.Testbackend.Change.{
  Change, same, claims, renews, saves, suspends, finishes, releases, opens, reopens, doubts,
  settles, resolves,
}
use go_hydaelyn.Durable.Testbackend.Soundness.{IsSound}
use go_hydaelyn.Durable.Testbackend.Soundness.Leases.{holds_matches, matched_running}
use go_hydaelyn.Durable.Testbackend.Calls.{Call, run}
use go_hydaelyn.Durable.Testbackend.Calls.Invariant.{run-AllSound, empty_store-AllSound}
use go_hydaelyn.Durable.Testbackend.Calls.Kept.{Persists, run-Found}

-- No lease is in force where the execution ended.
ended_unmatched :
    (r : ExecutionRecord) (ref : LeaseRef)
    → IsSound r
    → terminal r.execution.status ≡ true
    → lease_matches r.execution.lease ref ≡ true
    → ⊥
ended_unmatched r ref s ended h =
    let running =
      (matched_running r.execution.lease r.next_token r.execution.status ref s.lease h).0 in
    let still : terminal r.execution.status ≡ false = rw running refl in cc

ended_unheld :
    (r : ExecutionRecord) (ref : LeaseRef) (now : ℕ)
    → IsSound r
    → terminal r.execution.status ≡ true
    → holds_lease r ref now ≡ true
    → ⊥
ended_unheld r ref now s ended h = ended_unmatched r ref s ended (holds_matches r ref now h)

execution_of : ExecutionRecord → Execution
execution_of r = r.execution

Change-ended :
    {r r' : ExecutionRecord} {now : ℕ}
    → IsSound r
    → terminal r.execution.status ≡ true
    → Change r now r'
    → r'.execution ≡ r.execution
unfolding with_attempts write_attempt
Change-ended s ended (same e) = ap (λ (x : ExecutionRecord). x.execution) e
Change-ended s ended (claims owner id ttl m live free e) = cc
Change-ended {r} {r'} {now} s ended (renews ref t held e) =
    absurd (ended_unheld r ref now s ended held)
Change-ended {r} {r'} {now} s ended (saves ref c held e) =
    absurd (ended_unheld r ref now s ended held)
Change-ended {r} {r'} {now} s ended (suspends ref m held e) =
    absurd (ended_unheld r ref now s ended held)
Change-ended s ended (finishes ref result hash m held live clear e) = cc
Change-ended {r} s ended (releases ref m held e) = absurd (ended_unmatched r ref s ended held)
Change-ended s ended (opens ref op b held last g e) = ap (λ (x : ExecutionRecord). x.execution) e
Change-ended s ended (reopens ref op a b held last gone g e) =
    ap (λ (x : ExecutionRecord). x.execution) e
Change-ended s ended (doubts ref op a held last run e) = ap (λ (x : ExecutionRecord). x.execution) e
Change-ended s ended (settles ref op n a b held found run o e) =
    ap (λ (x : ExecutionRecord). x.execution) e
Change-ended s ended (resolves op n a b free found unsure o e) =
    ap (λ (x : ExecutionRecord). x.execution) e

ended-Persists : (x : Execution) → terminal x.status ≡ true → Persists (λ n r. r.execution ≡ x)
ended-Persists x ended = record {
  idle = λ n r e. e;
  step = λ n now r r' s c e.
      Change-ended s (ap (λ (y : Execution). terminal y.status) e ∙ ended) c ∙ e;
}

-- Once an execution is completed or failed, every later sequence of calls, claims and saves and
-- releases included, leaves it in the store exactly as it ended: status, version, result and all.
pub ended_stays :
    (h : Hashes) (before after : List Call) (id : Text) (r : ExecutionRecord)
    → get (run h before empty_store).executions id ≡ some r
    → terminal r.execution.status ≡ true
    → (r' : ExecutionRecord) × (get (run h after (run h before empty_store)).executions id
        ≡ some r')
      × (r'.execution ≡ r.execution)
ended_stays h before after id r e ended =
    let f =
      run-Found (λ n x. x.execution ≡ r.execution) (ended-Persists r.execution ended) h after
        (run h before empty_store) 0 id r (run-AllSound h before empty_store empty_store-AllSound) e
        refl in
    (f.value, f.is_there, f.holds)
