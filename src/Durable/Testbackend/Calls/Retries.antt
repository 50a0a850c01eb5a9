-- ===== src/Durable/Testbackend/Calls/Retries.antt =====
-- A call that is made again, with its request unchanged (durable/internal/testbackend).
use go_hydaelyn.Prelude.{
  ℕ, ◌≡◌, refl, true, false, not, Bool, Option, none, some, ◌==◌, text_eq_instance, nat_eq, arith,
  if◌then◌else◌, ok, err, ltb,
}
use go_hydaelyn.Prelude.Assoc.{get, get-put_self}
use go_hydaelyn.Durable.{
  Execution, DurableError, FinishExecutionRequest, SuspendExecutionRequest, ReleaseExecutionRequest,
  ReleaseResult,
}
use go_hydaelyn.Durable.Testbackend.Store.{
  ExecutionRecord, Outcome, finish_key_eq, suspend_key_eq, lease_key_eq, reconcile_running,
  replayed_or, terminal, holds_lease, lease_matches,
}
use go_hydaelyn.Durable.Testbackend.Endings.{
  finish_record, finish_key, suspend_record, suspend_key, release_record, lease_key, has_uncertain,
}

-- Where a closure succeeds, its answer and the record that it leaves are so related.
pub record Leaves {A : Type 0} (P : A → ExecutionRecord → Type 0) (o : Outcome A) : Type 0 where
  pub each : (a : A) → o.0 ≡ ok a → P a o.1

module _ {A : Type 0} (P : A → ExecutionRecord → Type 0) where
  pub Leaves-refused : (x : DurableError) (r : ExecutionRecord) → Leaves P (err x, r)
  Leaves-refused x r = record { each = λ a e. cc }

  pub Leaves-done : (a : A) (r : ExecutionRecord) → P a r → Leaves P (ok a, r)
  Leaves-done a r p = record { each = λ b e. let is : a ≡ b = ground arith in rw (← is) p }

  pub Leaves-if :
      (b : Bool) (o k : Outcome A)
      → Leaves P o
      → (b ≡ false → Leaves P k)
      → Leaves P (if b then o else k)
  Leaves-if true o k p t = p
  Leaves-if false o k p t = t refl

  pub Leaves-replayed :
      (o : Option A) (r : ExecutionRecord) (k : Outcome A)
      → ((a : A) → o ≡ some a → P a r)
      → (o ≡ none → Leaves P k)
      → Leaves P (replayed_or o r k)
  Leaves-replayed none r k p t = t refl
  Leaves-replayed (some a) r k p t = Leaves-done a r (p a refl)

-- The answer is stored where the same request finds it, and the lease is not superseded.
abbrev StoredFinish : FinishExecutionRequest → Execution → ExecutionRecord → Type 0
StoredFinish q e r =
    (ltb q.lease.token r.next_token ≡ false) × (get r.finishes (finish_key q) ≡ some e)

finish_record-Leaves :
    (q : FinishExecutionRequest) (r : ExecutionRecord) (now : ℕ)
    → Leaves (StoredFinish q) (finish_record q r now)
unfolding finish_record
finish_record-Leaves q r now =
    Leaves-if (StoredFinish q) (ltb q.lease.token r.next_token) _ _
      (Leaves-refused (StoredFinish q) _ r)
      (λ newest.
        Leaves-replayed (StoredFinish q) (get r.finishes (finish_key q)) r _
          (λ a there. (newest, there))
          (λ _.
            Leaves-if (StoredFinish q) (terminal r.execution.status) _ _
              (Leaves-refused (StoredFinish q) _ r)
              (λ _.
                Leaves-if (StoredFinish q) (not (holds_lease r q.lease now)) _ _
                  (Leaves-refused (StoredFinish q) _ r)
                  (λ _.
                    Leaves-if (StoredFinish q) (not (r.execution.version == q.expected_version)) _ _
                      (Leaves-refused (StoredFinish q) _ r)
                      (λ _.
                        Leaves-if (StoredFinish q) (has_uncertain r.attempts) _ _
                          (Leaves-refused (StoredFinish q) _ r)
                          (λ _.
                            Leaves-done (StoredFinish q) _ _
                              (newest, get-put_self r.finishes (finish_key q) _)))))))

finish_replays :
    (q : FinishExecutionRequest) (r : ExecutionRecord) (now : ℕ) (e : Execution)
    → StoredFinish q e r
    → finish_record q r now ≡ (ok e, r)
unfolding finish_record
finish_replays q r now e (newest, stored) = rw (newest, stored) refl

-- A finish that succeeded gives the same execution again and changes nothing, at any later time.
pub finish_retry :
    (q : FinishExecutionRequest) (r : ExecutionRecord) (now now' : ℕ) (e : Execution)
    → (finish_record q r now).0 ≡ ok e
    → finish_record q (finish_record q r now).1 now' ≡ (ok e, (finish_record q r now).1)
finish_retry q r now now' e done =
    finish_replays q (finish_record q r now).1 now' e ((finish_record-Leaves q r now).each e done)

abbrev StoredSuspend : SuspendExecutionRequest → Execution → ExecutionRecord → Type 0
StoredSuspend q e r =
    (ltb q.lease.token r.next_token ≡ false) × (get r.suspends (suspend_key q) ≡ some e)

suspend_record-Leaves :
    (q : SuspendExecutionRequest) (r : ExecutionRecord) (now : ℕ)
    → Leaves (StoredSuspend q) (suspend_record q r now)
unfolding suspend_record reconcile_running
suspend_record-Leaves q r now =
    Leaves-if (StoredSuspend q) (ltb q.lease.token r.next_token) _ _
      (Leaves-refused (StoredSuspend q) _ r)
      (λ newest.
        Leaves-replayed (StoredSuspend q) (get r.suspends (suspend_key q)) r _
          (λ a there. (newest, there))
          (λ _.
            Leaves-if (StoredSuspend q) (not (holds_lease r q.lease now)) _ _
              (Leaves-refused (StoredSuspend q) _ r)
              (λ _.
                Leaves-if (StoredSuspend q) (not (r.execution.version == q.expected_version)) _ _
                  (Leaves-refused (StoredSuspend q) _ r)
                  (λ _.
                    Leaves-done (StoredSuspend q) _ _
                      (newest, get-put_self r.suspends (suspend_key q) _)))))

suspend_replays :
    (q : SuspendExecutionRequest) (r : ExecutionRecord) (now : ℕ) (e : Execution)
    → StoredSuspend q e r
    → suspend_record q r now ≡ (ok e, r)
unfolding suspend_record
suspend_replays q r now e (newest, stored) = rw (newest, stored) refl

-- A suspension that succeeded gives the same execution again and changes nothing.
pub suspend_retry :
    (q : SuspendExecutionRequest) (r : ExecutionRecord) (now now' : ℕ) (e : Execution)
    → (suspend_record q r now).0 ≡ ok e
    → suspend_record q (suspend_record q r now).1 now' ≡ (ok e, (suspend_record q r now).1)
suspend_retry q r now now' e done =
    suspend_replays q (suspend_record q r now).1 now' e
      ((suspend_record-Leaves q r now).each e done)

abbrev StoredRelease : ReleaseExecutionRequest → ReleaseResult → ExecutionRecord → Type 0
StoredRelease q e r =
    (ltb q.lease.token r.next_token ≡ false) × (get r.releases (lease_key q.lease) ≡ some e)

release_record-Leaves :
    (q : ReleaseExecutionRequest) (r : ExecutionRecord) (now : ℕ)
    → Leaves (StoredRelease q) (release_record q r now)
unfolding release_record reconcile_running
release_record-Leaves q r now =
    Leaves-if (StoredRelease q) (ltb q.lease.token r.next_token) _ _
      (Leaves-refused (StoredRelease q) _ r)
      (λ newest.
        Leaves-replayed (StoredRelease q) (get r.releases (lease_key q.lease)) r _
          (λ a there. (newest, there))
          (λ _.
            Leaves-if (StoredRelease q) (not (lease_matches r.execution.lease q.lease)) _ _
              (Leaves-refused (StoredRelease q) _ r)
              (λ _.
                Leaves-done (StoredRelease q) _ _
                  (newest, get-put_self r.releases (lease_key q.lease) _))))

release_replays :
    (q : ReleaseExecutionRequest) (r : ExecutionRecord) (now : ℕ) (e : ReleaseResult)
    → StoredRelease q e r
    → release_record q r now ≡ (ok e, r)
unfolding release_record
release_replays q r now e (newest, stored) = rw (newest, stored) refl

-- A release that succeeded gives the same result again, the attempts to reconcile included, and
-- changes nothing.
pub release_retry :
    (q : ReleaseExecutionRequest) (r : ExecutionRecord) (now now' : ℕ) (e : ReleaseResult)
    → (release_record q r now).0 ≡ ok e
    → release_record q (release_record q r now).1 now' ≡ (ok e, (release_record q r now).1)
release_retry q r now now' e done =
    release_replays q (release_record q r now).1 now' e
      ((release_record-Leaves q r now).each e done)
