-- ===== src/Durable/Testbackend/Soundness/Preservation.antt =====
-- Every change keeps an execution record sound (durable/internal/testbackend).
use go_hydaelyn.Prelude.{
  ℕ, ◌+◌, ◌≡◌, ◌≢◌, refl, ◌∙◌, Bool, true, false, Option, none, some, List, [], ◌∷◌, ◌++◌, Text,
  All-append, text_eq_instance, if◌then◌else◌,
}
use go_hydaelyn.Prelude.Assoc.{Entries-put}
use go_hydaelyn.Agent.{AgentResult}
use go_hydaelyn.Message.Content.{is_none}
use go_hydaelyn.Durable.{
  LeaseRef, Attempt, AttemptStatus, running, abandoned, ExecutionStatus, completed,
}
use go_hydaelyn.Durable.Testbackend.Store.{
  ExecutionRecord, holds_lease, attempts_of, attempt_by_number, write_number, write_attempt,
  reconcile_running,
}
use go_hydaelyn.Durable.Testbackend.Attempts.{last_attempt, write_last, with_attempts, uncertain}
use go_hydaelyn.Durable.Testbackend.Change.{
  Change, same, claims, renews, saves, suspends, finishes, releases, opens, reopens, doubts,
  settles, resolves, Outlives, Begins,
}
use go_hydaelyn.Durable.Testbackend.Soundness.{
  IsSound, HasResult, SlotSound, AttemptSound, StatusSound, expire_all-Sound,
}
use go_hydaelyn.Durable.Testbackend.Soundness.Writes.{
  Chain-write_number, All-write_number, Chain-write_last, All-write_last, Chain-append,
  last_attempt-All, find_number-All, attempts_of-Sound,
}
use go_hydaelyn.Durable.Testbackend.Soundness.Leases.{
  claim-IsSound, Reaches-matched, Held-matched, holds_matches, extend-Sound, extend-LeaseSound,
  quiet-Sound,
}

-- Only the attempts of one operation are written.
module _ (r : ExecutionRecord) (s : IsSound r) (op : Text) where
  slot_sound : SlotSound r.execution.lease op (attempts_of r op)
  slot_sound = attempts_of-Sound r.execution.lease r op s.slots

  with_attempts-IsSound :
      (l : List Attempt) → SlotSound r.execution.lease op l → IsSound (with_attempts r op l)
  unfolding with_attempts
  with_attempts-IsSound l p = record {
    lease = s.lease;
    finished = s.finished;
    slots = Entries-put (SlotSound r.execution.lease) r.attempts op l s.slots p;
  }

  begun :
      (ref : LeaseRef) (now n : ℕ) (b : Attempt)
      → holds_lease r ref now ≡ true
      → Begins op ref n b
      → AttemptSound r.execution.lease op b
  begun ref now n b held g = record {
    slot = g.slot;
    leased =
        rw (g.status, g.lease) (Held-matched r.execution.lease ref (holds_matches r ref now held));
  }

  ended :
      (status : AttemptStatus) (q : Option LeaseRef)
      → status ≢ running
      → q ≡ none
      → StatusSound status q r.execution.lease
  ended running q no_more e = absurd (no_more refl)
  ended _ q no_more e = e

  outlived :
      (a b : Attempt)
      → Outlives a b
      → AttemptSound r.execution.lease op a
      → AttemptSound r.execution.lease op b
  outlived a b o p = record {
    slot = o.slot ∙ p.slot;
    leased = ended b.status b.lease o.status o.lease;
  }

  write_attempt-IsSound :
      (n : ℕ) (a b : Attempt)
      → attempt_by_number r op n ≡ some a
      → a.status ≢ abandoned
      → Outlives a b
      → IsSound (write_attempt r op n b)
  unfolding write_attempt attempt_by_number with_attempts
  write_attempt-IsSound n a b found open_one o =
      with_attempts-IsSound (write_number n b (attempts_of r op)) (
        Chain-write_number b n 1 (attempts_of r op) a found open_one o.number slot_sound.0,
        All-write_number b r.execution.lease op n (attempts_of r op)
            (outlived a b o
              (find_number-All (AttemptSound r.execution.lease op) n _ a found slot_sound.1))
            slot_sound.1,
      )

  doubted :
      (a : Attempt)
      → last_attempt (attempts_of r op) ≡ some a
      → IsSound (with_attempts r op (write_last (uncertain a) (attempts_of r op)))
  doubted a last =
      let before =
        last_attempt-All (AttemptSound r.execution.lease op) (attempts_of r op) a last
          slot_sound.1 in
      with_attempts-IsSound (write_last (uncertain a) (attempts_of r op)) (
        Chain-write_last (uncertain a) 1 (attempts_of r op) a last refl slot_sound.0,
        All-write_last (uncertain a) (AttemptSound r.execution.lease op) (attempts_of r op)
            (record { slot = before.slot; leased = refl }) slot_sound.1,
      )

outcome-HasResult :
    (result : AgentResult) (b : Bool)
    → HasResult (if b then completed else ExecutionStatus.failed) (some result)
outcome-HasResult result true = λ h. cc
outcome-HasResult result false = λ h. cc

-- A sound record stays sound under every change.
pub Change-IsSound : {r r' : ExecutionRecord} {now : ℕ} → Change r now r' → IsSound r → IsSound r'
unfolding reconcile_running
Change-IsSound (same e) s = rw e s
Change-IsSound {r} {now} (claims owner id ttl m live free e) s =
    let c = claim-IsSound r owner id ttl now s in
    rw e (record { lease = c.lease; finished = c.finished; slots = c.slots })
Change-IsSound {r} (renews ref t held e) s = rw e (record {
  lease = extend-LeaseSound r.execution.lease t r.next_token r.execution.status s.lease;
  finished = s.finished;
  slots = extend-Sound r.execution.lease t r.attempts s.slots;
})
Change-IsSound (saves ref c held e) s =
    rw e (record { lease = s.lease; finished = s.finished; slots = s.slots })
Change-IsSound {r} {now} (suspends ref m held e) s = rw e (record {
  lease = tt;
  finished = tt;
  slots =
      expire_all-Sound ref.token r.execution.lease none r.attempts
        (Reaches-matched r.execution.lease ref (holds_matches r ref now held)) s.slots;
})
Change-IsSound {r} (finishes ref result hash m held live clear e) s = rw e (record {
  lease = tt;
  finished = outcome-HasResult result (is_none result.failure);
  slots = quiet-Sound r.execution.lease none r.attempts clear s.slots;
})
Change-IsSound {r} (releases ref m held e) s = rw e (record {
  lease = tt;
  finished = s.finished;
  slots =
      expire_all-Sound ref.token r.execution.lease none r.attempts
        (Reaches-matched r.execution.lease ref held) s.slots;
})
Change-IsSound {r} {now} (opens ref op b held last g e) s = rw e (
    with_attempts-IsSound r s op (b ∷ [])
      ((g.number, tt, tt), (begun r s op ref now 1 b held g, tt)))
Change-IsSound {r} {now} (reopens ref op a b held last gone g e) s =
    let slot = slot_sound r s op in
    rw e (
      with_attempts-IsSound r s op (attempts_of r op ++ b ∷ []) (
        Chain-append b 1 (attempts_of r op) a last gone g.number slot.0,
        All-append (AttemptSound r.execution.lease op) (attempts_of r op) (b ∷ []) slot.1
            (begun r s op ref now (a.number + 1) b held g, tt),
      ))
Change-IsSound {r} (doubts ref op a held last run e) s = rw e (doubted r s op a last)
Change-IsSound {r} (settles ref op n a b held found run o e) s =
    rw e (write_attempt-IsSound r s op n a b found (λ h. cc) o)
Change-IsSound {r} (resolves op n a b free found open_one o e) s =
    rw e (write_attempt-IsSound r s op n a b found (λ h. cc) o)
