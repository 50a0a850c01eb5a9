-- ===== src/Durable/Testbackend/Change/Refinement.antt =====
-- Each operation of durable/internal/testbackend makes one of the changes, and no other.
use go_hydaelyn.Prelude.{
  ℕ, ltb, ◌≡◌, refl, Bool, true, false, Option, none, some, Text, Result, ok, if◌then◌else◌, arith,
  not, ◌==◌, ◌||◌, nat_eq, text_eq_instance,
}
use go_hydaelyn.Prelude.Assoc.{get}
use go_hydaelyn.Durable.{
  Attempt, DurableError, StartExecutionRequest, ResumeExecutionRequest, RenewExecutionRequest,
  SaveCheckpointRequest, SuspendExecutionRequest, FinishExecutionRequest, ReleaseExecutionRequest,
  StartAttemptRequest, running, succeeded, failed, unknown, abandoned, AttemptStatus,
}
use go_hydaelyn.Durable.Testbackend.Store.{
  ExecutionRecord, Outcome, decided_or, replayed_or, holds_lease, terminal, lease_active,
  lease_matches, attempts_of, suspend_key_eq, finish_key_eq, lease_key_eq,
}
use go_hydaelyn.Durable.Testbackend.Executions.{
  claim_for_start, start_existing, prior_start, Hashes,
}
use go_hydaelyn.Durable.Testbackend.Resumption.{resume_record, prior_resume}
use go_hydaelyn.Durable.Testbackend.Lifecycle.{
  load_record, renew_record, save_record, prior_checkpoint,
}
use go_hydaelyn.Durable.Testbackend.Endings.{
  suspend_record, finish_record, release_record, suspend_key, finish_key, has_uncertain, lease_key,
}
use go_hydaelyn.Durable.Testbackend.Attempts.{
  start_attempt_record, restart, last_attempt, started, held_by, new_attempt, kind_beq,
}
use go_hydaelyn.Durable.Testbackend.Change.{
  Makes, same, claims, renews, saves, suspends, finishes, releases, opens, reopens, doubts,
}

module _ {A : Type 0} {r : ExecutionRecord} {now : ℕ} where
  pub keeps : (x : Result DurableError A) → Makes r now (x, r)
  keeps x = record { change = same refl }

  pub Makes-if :
      (b : Bool) (o k : Outcome A)
      → (b ≡ true → Makes r now o)
      → (b ≡ false → Makes r now k)
      → Makes r now (if b then o else k)
  Makes-if true o k yes_case no_case = yes_case refl
  Makes-if false o k yes_case no_case = no_case refl

  Makes-decided :
      (o : Option (Result DurableError A)) (k : Outcome A)
      → Makes r now k
      → Makes r now (decided_or o r k)
  Makes-decided none k m = m
  Makes-decided (some d) k m = keeps d

  Makes-replayed : (o : Option A) (k : Outcome A) → Makes r now k → Makes r now (replayed_or o r k)
  Makes-replayed none k m = m
  Makes-replayed (some a) k m = keeps (ok a)

pub not-not : (b : Bool) → not b ≡ false → b ≡ true
not-not true h = refl
not-not false h = cc

pub claim_for_start-Makes :
    (r : ExecutionRecord) (q : StartExecutionRequest) (now : ℕ)
    → terminal r.execution.status ≡ false
    → Makes r now (claim_for_start r q now)
unfolding claim_for_start
claim_for_start-Makes r q now live = Makes-decided (prior_start r q now) _ (
    Makes-if (lease_active r.execution.lease now) _ _ (λ _. keeps _)
      (λ free. record { change = claims q.owner_id q.claim_id q.lease_ttl _ live free refl }))

pub start_existing-Makes :
    (q : StartExecutionRequest) (r : ExecutionRecord) (now : ℕ)
    → Makes r now (start_existing r q now)
unfolding start_existing
start_existing-Makes q r now =
    Makes-if (not (r.execution.spec_hash == q.spec_hash)) _ _ (λ _. keeps _)
      (λ _.
        Makes-if (terminal r.execution.status) _ _ (λ _. keeps _)
          (λ live. claim_for_start-Makes r q now live))

pub resume_record-Makes :
    (q : ResumeExecutionRequest) (r : ExecutionRecord) (now : ℕ)
    → Makes r now (resume_record q r now)
unfolding resume_record
resume_record-Makes q r now =
    Makes-if (terminal r.execution.status) _ _ (λ _. keeps _)
      (λ live. Makes-decided (prior_resume r q now) _ (
        Makes-if (lease_active r.execution.lease now) _ _ (λ _. keeps _)
          (λ free. record { change = claims q.owner_id q.claim_id q.lease_ttl _ live free refl })))

pub load_record-Makes :
    (h : Hashes) (id : Text) (r : ExecutionRecord) (now : ℕ) → Makes r now (load_record h id r now)
unfolding load_record
load_record-Makes h id r now = record { change = same (ground arith) }

pub renew_record-Makes :
    (q : RenewExecutionRequest) (r : ExecutionRecord) (now : ℕ) → Makes r now (renew_record q r now)
unfolding renew_record
renew_record-Makes q r now =
    Makes-if (not (holds_lease r q.lease now)) _ _ (λ _. keeps _)
      (λ held. record { change = renews q.lease _ (not-not _ held) refl })

pub save_record-Makes :
    (q : SaveCheckpointRequest) (r : ExecutionRecord) (now : ℕ) → Makes r now (save_record q r now)
unfolding save_record
save_record-Makes q r now =
    Makes-if (not (holds_lease r q.lease now)) _ _ (λ _. keeps _)
      (λ held. Makes-decided (prior_checkpoint q r.execution) _ (
        Makes-if (not (r.execution.version == q.expected_version)) _ _ (λ _. keeps _)
          (λ _. record { change = saves q.lease q.checkpoint (not-not _ held) refl })))

pub suspend_record-Makes :
    (q : SuspendExecutionRequest) (r : ExecutionRecord) (now : ℕ)
    → Makes r now (suspend_record q r now)
unfolding suspend_record
suspend_record-Makes q r now =
    Makes-if (ltb q.lease.token r.next_token) _ _ (λ _. keeps _)
      (λ _. Makes-replayed (get r.suspends (suspend_key q)) _ (
        Makes-if (not (holds_lease r q.lease now)) _ _ (λ _. keeps _)
          (λ held.
            Makes-if (not (r.execution.version == q.expected_version)) _ _ (λ _. keeps _)
              (λ _. record { change = suspends q.lease _ (not-not _ held) refl }))))

pub finish_record-Makes :
    (q : FinishExecutionRequest) (r : ExecutionRecord) (now : ℕ)
    → Makes r now (finish_record q r now)
unfolding finish_record
finish_record-Makes q r now =
    Makes-if (ltb q.lease.token r.next_token) _ _ (λ _. keeps _)
      (λ _. Makes-replayed (get r.finishes (finish_key q)) _ (
        Makes-if (terminal r.execution.status) _ _ (λ _. keeps _)
          (λ live.
            Makes-if (not (holds_lease r q.lease now)) _ _ (λ _. keeps _)
              (λ held.
                Makes-if (not (r.execution.version == q.expected_version)) _ _ (λ _. keeps _)
                  (λ _.
                    Makes-if (has_uncertain r.attempts) _ _ (λ _. keeps _)
                      (λ clear. record {
                        change =
                            finishes q.lease q.result q.result_hash _ (not-not _ held) live clear
                              refl;
                      }))))))

pub release_record-Makes :
    (q : ReleaseExecutionRequest) (r : ExecutionRecord) (now : ℕ)
    → Makes r now (release_record q r now)
unfolding release_record
release_record-Makes q r now =
    Makes-if (ltb q.lease.token r.next_token) _ _ (λ _. keeps _)
      (λ _. Makes-replayed (get r.releases (lease_key q.lease)) _ (
        Makes-if (not (lease_matches r.execution.lease q.lease)) _ _ (λ _. keeps _)
          (λ held. record { change = releases q.lease _ (not-not _ held) refl })))

restart-Makes :
    (q : StartAttemptRequest) (r : ExecutionRecord) (now : ℕ) (a : Attempt) (s : AttemptStatus)
    → holds_lease r q.lease now ≡ true
    → last_attempt (attempts_of r q.operation_id) ≡ some a
    → a.status ≡ s
    → Makes r now (restart q r (attempts_of r q.operation_id) a s)
unfolding restart
restart-Makes q r now a succeeded held last e = keeps _
restart-Makes q r now a failed held last e = keeps _
restart-Makes q r now a unknown held last e = keeps _
restart-Makes q r now a running held last e =
    Makes-if (held_by a.lease q.lease) _ _ (λ _. keeps _)
      (λ _. record { change = doubts q.lease q.operation_id a held last e refl })
restart-Makes q r now a abandoned held last e = record {
  change =
      reopens q.lease q.operation_id a _ held last e
        (record { slot = refl; number = refl; status = refl; lease = refl }) refl;
}

pub start_attempt_record-Makes :
    (q : StartAttemptRequest) (r : ExecutionRecord) (now : ℕ)
    → Makes r now (start_attempt_record q r now)
unfolding start_attempt_record
start_attempt_record-Makes q r now =
    Makes-if (not (holds_lease r q.lease now)) _ _ (λ _. keeps _)
      (λ free. latest (not-not _ free) (last_attempt (attempts_of r q.operation_id)) refl)
  where
    latest :
        holds_lease r q.lease now ≡ true
        → (o : Option Attempt) → last_attempt (attempts_of r q.operation_id) ≡ o
        → Makes r now (started q r o)
    latest held none e = record {
      change =
          opens q.lease q.operation_id (new_attempt q 1) held e
            (record { slot = refl; number = refl; status = refl; lease = refl }) refl;
    }
    latest held (some a) e =
        Makes-if (not (kind_beq a.kind q.kind) || not (a.input_hash == q.input_hash)) _ _
          (λ _. keeps _) (λ _. restart-Makes q r now a a.status held e refl)
