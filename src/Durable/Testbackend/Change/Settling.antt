-- ===== src/Durable/Testbackend/Change/Settling.antt =====
-- Settling and reconciling an attempt make one change (durable/internal/testbackend/attempt.go).
use go_hydaelyn.Prelude.{
  ℕ, ◌≡◌, ◌≢◌, refl, Bool, true, false, not, ◌||◌, Option, none, some, ◌==◌, nat_eq, arith,
}
use go_hydaelyn.Durable.{
  Attempt, AttemptStatus, running, unknown, SettleAttemptRequest, ReconcileAttemptRequest,
  ReconcileResolution, succeed, fail, retry, other_resolution,
}
use go_hydaelyn.Durable.Testbackend.Store.{
  ExecutionRecord, holds_lease, lease_active, attempt_by_number, is_unknown,
}
use go_hydaelyn.Durable.Testbackend.Attempts.{
  settle_record, settle_number, settle_found, settled_before, expected, settle, finished_status,
  finish_attempt_record, mark_unknown_record,
}
use go_hydaelyn.Durable.Testbackend.Reconciliation.{
  valid_resolution, reconcile_record, reconcile_number, reconcile_found, reconcile_exact, resolve,
}
use go_hydaelyn.Durable.Testbackend.Change.{Makes, settles, resolves, Outlives}
use go_hydaelyn.Durable.Testbackend.Change.Refinement.{keeps, Makes-if, not-not}

expected_running :
    (q : SettleAttemptRequest) (a : Attempt) → expected q a ≡ true → a.status ≡ running
unfolding expected
expected_running q a h = ground arith

settle_found-Makes :
    (q : SettleAttemptRequest) (done : Bool) (status : AttemptStatus) (a : Attempt)
    (r : ExecutionRecord) (now : ℕ)
    → status ≢ running
    → holds_lease r q.lease now ≡ true
    → attempt_by_number r q.operation_id q.attempt_number ≡ some a
    → Makes r now (settle_found q done status a r)
unfolding settle_found
settle_found-Makes q done status a r now ended held found =
    Makes-if done _ _ (λ _. Makes-if (settled_before q a) _ _ (λ _. keeps _) (λ _. keeps _))
      (λ _.
        Makes-if (not (expected q a)) _ _ (λ _. keeps _)
          (λ ready. record {
            change =
                settles q.lease q.operation_id q.attempt_number a (settle q status a) held found
                  (expected_running q a (not-not _ ready))
                  (record {
                    slot = refl;
                    number = refl;
                    version = refl;
                    status = ended;
                    lease = refl;
                  })
                  refl;
          }))

settle_record-Makes :
    (done : Attempt → Bool) (status : AttemptStatus) (q : SettleAttemptRequest)
    (r : ExecutionRecord) (now : ℕ)
    → status ≢ running
    → Makes r now (settle_record done status q r now)
unfolding settle_record
settle_record-Makes done status q r now ended =
    Makes-if (not (holds_lease r q.lease now)) _ _ (λ _. keeps _)
      (λ held. number (not-not _ held) (attempt_by_number r q.operation_id q.attempt_number) refl)
  where
    number :
        holds_lease r q.lease now ≡ true
        → (o : Option Attempt) → attempt_by_number r q.operation_id q.attempt_number ≡ o
        → Makes r now (settle_number done status q r o)
    number held none e = keeps _
    number held (some a) e = settle_found-Makes q (done a) status a r now ended held e

finished_ended : (q : SettleAttemptRequest) → finished_status q ≢ running
finished_ended q e = ground arith

pub finish_attempt_record-Makes :
    (q : SettleAttemptRequest) (r : ExecutionRecord) (now : ℕ)
    → Makes r now (finish_attempt_record q r now)
finish_attempt_record-Makes q r now = settle_record-Makes _ _ q r now (finished_ended q)

pub mark_unknown_record-Makes :
    (q : SettleAttemptRequest) (r : ExecutionRecord) (now : ℕ)
    → Makes r now (mark_unknown_record q r now)
mark_unknown_record-Makes q r now = settle_record-Makes _ _ q r now (λ e. cc)

-- A valid request carries one of the three resolutions.
resolve-Outlives :
    (k : ReconcileResolution) (a : Attempt) (q : ReconcileAttemptRequest)
    → valid_resolution k q ≡ true
    → Outlives a (resolve k a q)
unfolding resolve valid_resolution
resolve-Outlives succeed a q v = record {
  slot = refl;
  number = refl;
  version = refl;
  status = λ e. cc;
  lease = refl;
}
resolve-Outlives fail a q v = record {
  slot = refl;
  number = refl;
  version = refl;
  status = λ e. cc;
  lease = refl;
}
resolve-Outlives retry a q v = record {
  slot = refl;
  number = refl;
  version = refl;
  status = λ e. cc;
  lease = refl;
}
resolve-Outlives (other_resolution t) a q v = cc

reconcile_ready :
    (q : ReconcileAttemptRequest) (a : Attempt)
    → not (is_unknown a.status) || not (a.version == q.expected_attempt_version) ≡ false
    → a.status ≡ unknown
reconcile_ready q a h = ground arith

reconcile_found-Makes :
    (q : ReconcileAttemptRequest) (a : Attempt) (r : ExecutionRecord) (now : ℕ)
    → valid_resolution q.resolution q ≡ true
    → lease_active r.execution.lease now ≡ false
    → attempt_by_number r q.operation_id q.attempt_number ≡ some a
    → Makes r now (reconcile_found q a r)
unfolding reconcile_found
reconcile_found-Makes q a r now valid free found =
    Makes-if (reconcile_exact a q) _ _ (λ _. keeps _)
      (λ _.
        Makes-if (not (is_unknown a.status) || not (a.version == q.expected_attempt_version)) _ _
          (λ _. keeps _)
          (λ ready. record {
            change =
                resolves q.operation_id q.attempt_number a (resolve q.resolution a q) free found
                  (reconcile_ready q a ready) (resolve-Outlives q.resolution a q valid) refl;
          }))

pub reconcile_record-Makes :
    (q : ReconcileAttemptRequest) (r : ExecutionRecord) (now : ℕ)
    → valid_resolution q.resolution q ≡ true
    → Makes r now (reconcile_record q r now)
unfolding reconcile_record
reconcile_record-Makes q r now valid =
    Makes-if (lease_active r.execution.lease now) _ _ (λ _. keeps _)
      (λ free. number free (attempt_by_number r q.operation_id q.attempt_number) refl)
  where
    number :
        lease_active r.execution.lease now ≡ false
        → (o : Option Attempt) → attempt_by_number r q.operation_id q.attempt_number ≡ o
        → Makes r now (reconcile_number q r o)
    number free none e = keeps _
    number free (some a) e = reconcile_found-Makes q a r now valid free e
