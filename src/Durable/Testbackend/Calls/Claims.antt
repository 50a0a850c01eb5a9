-- ===== src/Durable/Testbackend/Calls/Claims.antt =====
-- What a claim guarantees (durable/internal/testbackend): one owner at a time, and all that is
-- uncertain handed over.
use mathlib.Core.List.{Perm}
use go_hydaelyn.Prelude.{
  ℕ, ◌≡◌, true, false, List, [], text_eq_instance, text_eq_iff, nat_eq, arith, text_ltb-asym,
  text_ltb-total, text_ltb-not_less_trans,
}
use go_hydaelyn.Prelude.Sort.{StrictOrder, IsSorted}
use go_hydaelyn.Prelude.Int.{int_eq}
use go_hydaelyn.Durable.{
  Attempt, next_u64, StartExecutionRequest, ResumeExecutionRequest, StartResult, ResumeResult,
}
use go_hydaelyn.Durable.Testbackend.Store.{
  ExecutionRecord, attempt_less, select_all, is_unknown, is_running, terminal, lease_active,
}
use go_hydaelyn.Durable.Testbackend.Executions.{active_claim}

pub attempt_less-StrictOrder : StrictOrder attempt_less
unfolding attempt_less
attempt_less-StrictOrder = record {
  asym = λ x y h. ground (
    arith,
    text_eq_iff x.operation_id y.operation_id,
    text_eq_iff y.operation_id x.operation_id,
    text_ltb-asym x.operation_id y.operation_id,
  );
  not_less_trans = λ x y z h k. ground (
    arith,
    text_eq_iff x.operation_id y.operation_id,
    text_eq_iff y.operation_id z.operation_id,
    text_eq_iff x.operation_id z.operation_id,
    text_ltb-not_less_trans x.operation_id y.operation_id z.operation_id,
    text_ltb-total x.operation_id y.operation_id,
    text_ltb-total y.operation_id z.operation_id,
    text_eq_iff y.operation_id x.operation_id,
    text_eq_iff z.operation_id y.operation_id,
  );
}

-- What a claim hands over: every attempt that nobody knows the outcome of, in order, and nothing
-- that runs is left.
pub record HandsOver (r' : ExecutionRecord) (l : List Attempt) : Type 0 where
  pub all : Perm l (select_all (λ a. is_unknown a.status) r'.attempts)
  pub sorted : IsSorted attempt_less l
  pub idle : select_all (λ a. is_running a.status) r'.attempts ≡ []

-- How a claim with the ID `id` succeeds on the record `r`, with the attempts `l` to reconcile.
pub data Claimed (r : ExecutionRecord) (now : ℕ) (id : List ℕ) (l : List Attempt)
    (r' : ExecutionRecord) : Type 0 where
  ended : terminal r.execution.status ≡ true → r' ≡ r → Claimed r now id l r'
  replayed :
      lease_active r.execution.lease now ≡ true
      → active_claim r.execution.lease id ≡ true
      → r' ≡ r
      → Claimed r now id l r'
  took :
      terminal r.execution.status ≡ false
      → lease_active r.execution.lease now ≡ false
      → active_claim r'.execution.lease id ≡ true
      → r'.next_token ≡ next_u64 r.next_token
      → HandsOver r' l
      → Claimed r now id l r'

abbrev StartClaimed :
    ExecutionRecord → ℕ → StartExecutionRequest → StartResult → ExecutionRecord → Type 0
StartClaimed r now q a r' = Claimed r now q.claim_id a.reconcile r'

abbrev ResumeClaimed :
    ExecutionRecord → ℕ → ResumeExecutionRequest → ResumeResult → ExecutionRecord → Type 0
ResumeClaimed r now q a r' = Claimed r now q.claim_id a.reconcile r'
