-- ===== src/Examples/Executions.antt =====
-- Requests on one execution, and the records that they lead to, for
-- durable/internal/testbackend.
use go_hydaelyn.Prelude.{
  ℕ, true, false, none, some, List, [], ◌∷◌, Text, replicate, text_eq_instance,
}
use go_hydaelyn.Prelude.Int.{pos}
use go_hydaelyn.Prelude.Assoc.{get}
use go_hydaelyn.Provider.{StopReason, Usage}
use go_hydaelyn.Agent.{AgentResult}
use go_hydaelyn.Durable.{
  Hash, ExecutionSpec, LeaseRef, AttemptKind, StartExecutionRequest, ResumeExecutionRequest,
  FinishExecutionRequest, SuspendExecutionRequest, ReleaseExecutionRequest, StartAttemptRequest,
  SettleAttemptRequest,
}
use go_hydaelyn.Durable.Testbackend.Store.{ExecutionRecord, Store}
use go_hydaelyn.Durable.Testbackend.Executions.{Hashes, create}
use go_hydaelyn.Durable.Testbackend.Calls.{
  Call, starts, resumes, starts_attempt, finishes_attempt, finishes_execution,
}

abbrev pub job : Text
job = 106 ∷ []

abbrev pub step : Text
step = 115 ∷ []

abbrev first_owner : Text
first_owner = 97 ∷ []

abbrev pub some_hash : Hash
some_hash = replicate 32 1

abbrev pub hashes : Hashes
hashes = record {
  hash_spec = λ x. some some_hash;
  hash_continuation = λ x. some some_hash;
  hash_result = λ x. some some_hash;
}

abbrev spec : ExecutionSpec
spec = record {
  request = record { prompt = []; budget = none };
  output_policy = record {
    schema = [];
    validate = false;
    repair = false;
    max_repair_attempts = pos 0;
  };
}

abbrev usage : Usage
usage = record {
  input_tokens = pos 1;
  cached_input_tokens = pos 0;
  cached_input_tokens_reported = false;
  cache_write_input_tokens = pos 0;
  cache_write_input_tokens_reported = false;
  output_tokens = pos 1;
  reasoning_tokens = pos 0;
  total_tokens = pos 2;
}

abbrev pub result : AgentResult
result = record {
  text = 111 ∷ [];
  structured = [];
  valid = true;
  repair_count = pos 0;
  failure = none;
  steps = [];
  usage = usage;
  tool_calls_used = pos 0;
  stop_reason = StopReason.complete;
  messages = [];
  thinking = [];
}

abbrev pub claim_start : ℕ → StartExecutionRequest
claim_start n = record {
  execution_id = job;
  owner_id = first_owner;
  claim_id = replicate 16 n;
  lease_ttl = pos 10;
  spec = spec;
  spec_hash = some_hash;
}

abbrev pub claim_resume : ℕ → ResumeExecutionRequest
claim_resume n = record {
  execution_id = job;
  owner_id = first_owner;
  claim_id = replicate 16 n;
  lease_ttl = pos 10;
}

abbrev pub lease_of : ℕ → LeaseRef
lease_of n = record { owner_id = first_owner; token = n }

abbrev pub begin_step : ℕ → StartAttemptRequest
begin_step n = record {
  execution_id = job;
  lease = lease_of n;
  operation_id = step;
  kind = AttemptKind.tool;
  input_hash = some_hash;
}

abbrev end_step : SettleAttemptRequest
end_step = record {
  execution_id = job;
  lease = lease_of 1;
  operation_id = step;
  attempt_number = 1;
  expected_attempt_version = 1;
  payload = 49 ∷ [];
  failure = none;
}

abbrev pub finish_job : FinishExecutionRequest
finish_job = record {
  execution_id = job;
  lease = lease_of 1;
  expected_version = 1;
  result = result;
  result_hash = some_hash;
}

abbrev pub suspend_job : SuspendExecutionRequest
suspend_job = record { execution_id = job; lease = lease_of 1; expected_version = 1 }

abbrev pub release_job : ReleaseExecutionRequest
release_job = record { execution_id = job; lease = lease_of 1 }

abbrev pub claimed : List Call
claimed = record { ctx = none; clock = 0; method = starts (claim_start 1) } ∷ []

-- claimed, and one effect executed
abbrev pub worked : List Call
worked =
    record { ctx = none; clock = 0; method = starts (claim_start 1) }
    ∷ record { ctx = none; clock = 1; method = starts_attempt (begin_step 1) }
    ∷ record { ctx = none; clock = 2; method = finishes_attempt end_step }
    ∷ []

abbrev pub completed_job : List Call
completed_job =
    record { ctx = none; clock = 0; method = starts (claim_start 1) }
    ∷ record { ctx = none; clock = 1; method = finishes_execution finish_job }
    ∷ []

-- claimed again when the lease has expired
abbrev pub reclaimed : List Call
reclaimed =
    record { ctx = none; clock = 0; method = starts (claim_start 1) }
    ∷ record { ctx = none; clock = 20; method = resumes (claim_resume 2) }
    ∷ []

abbrev pub takes_over : List Call
takes_over = record { ctx = none; clock = 20; method = resumes (claim_resume 2) } ∷ []

-- The record of the job in a store.
unfoldable pub job_in : Store → ExecutionRecord
unfolding get create
job_in s = elim (get s.executions job) [ none ↦ (create (claim_start 0) 0).1 | some r ↦ r ]
