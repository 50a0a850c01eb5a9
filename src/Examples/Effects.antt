-- ===== src/Examples/Effects.antt =====
-- A tool call that is made twice in one execution (durable/interceptor.go).
use go_hydaelyn.Prelude.{
  ℕ, Bool, true, false, Option, none, some, List, [], Text, ◌∷◌, ◌≡◌, refl, text_eq_instance, arith,
  ok, err,
}
use go_hydaelyn.Prelude.Assoc.{get}
use go_hydaelyn.Message.{ToolCall, ToolResult}
use go_hydaelyn.Durable.{Hash, Lease}
use go_hydaelyn.Durable.Testbackend.Store.{empty_store}
use go_hydaelyn.Durable.Testbackend.Calls.{run}
use go_hydaelyn.Durable.Runtime.{
  Answer, Outside, Json, ToolEnvelope, Driven, returned, tool_envelope, tool_effect, no_result,
}
use go_hydaelyn.Durable.Testbackend.Store.{Store}
use go_hydaelyn.Durable.Runtime.Replays.{Replays}
use go_hydaelyn.Durable.Runtime.Once.{tool_effect_once}
use go_hydaelyn.Examples.Executions.{job, step, some_hash, hashes, claimed, takes_over, job_in}

-- JSON that keeps the content of a result and nothing else.
abbrev content_json : Json
content_json = record {
  marshal = λ e. some e.result.content;
  unmarshal = λ p. some (tool_envelope (record no_result { content = p }) none);
}

abbrev hash_call : Text → List ℕ → Option Hash
hash_call name arguments = some some_hash

abbrev stepping : ToolCall
stepping = record { id = []; name = []; arguments = []; operation_id = step }

abbrev claimed_lease : Option Lease
claimed_lease = (job_in (run hashes claimed empty_store)).execution.lease

-- The tool answers with its own number.
abbrev answering : ℕ → Outside
answering n = record {
  begun = none;
  lease_at_start = claimed_lease;
  lease_at_end = claimed_lease;
  ctx = none;
  clock = 1;
  settlement_ctx = none;
  settlement_clock = 2;
  during = [];
  driver = λ call. returned (record no_result { content = n ∷ [] }) none;
}

abbrev first_call : Answer × Store
first_call =
    tool_effect hashes content_json hash_call (answering 5) job stepping
      (run hashes claimed empty_store)

first_ran : first_call.0.ran ≡ true
unfolding tool_effect go_hydaelyn.Durable.Runtime.start_effect job_in run
    go_hydaelyn.Durable.Testbackend.Calls.perform
    go_hydaelyn.Durable.Testbackend.Executions.start_execution go_hydaelyn.Prelude.is_blank
    go_hydaelyn.Prelude.text_eq go_hydaelyn.Prelude.Assoc.put get
    go_hydaelyn.Durable.Testbackend.Attempts.start_attempt go_hydaelyn.Durable.Runtime.decide_effect
    go_hydaelyn.Durable.Runtime.run_effect go_hydaelyn.Durable.Runtime.settle_effect
    go_hydaelyn.Durable.Runtime.execute_tool_driver go_hydaelyn.Durable.Runtime.encode_tool_attempt
    go_hydaelyn.Durable.Runtime.finish_effect
    go_hydaelyn.Durable.Testbackend.Attempts.finish_attempt
first_ran = refl

first_clean : first_call.0.errors ≡ []
unfolding tool_effect go_hydaelyn.Durable.Runtime.start_effect job_in run
    go_hydaelyn.Durable.Testbackend.Calls.perform
    go_hydaelyn.Durable.Testbackend.Executions.start_execution go_hydaelyn.Prelude.is_blank
    go_hydaelyn.Prelude.text_eq go_hydaelyn.Prelude.Assoc.put get
    go_hydaelyn.Durable.Testbackend.Attempts.start_attempt go_hydaelyn.Durable.Runtime.decide_effect
    go_hydaelyn.Durable.Runtime.run_effect go_hydaelyn.Durable.Runtime.settle_effect
    go_hydaelyn.Durable.Runtime.execute_tool_driver go_hydaelyn.Durable.Runtime.encode_tool_attempt
    go_hydaelyn.Durable.Runtime.finish_effect
    go_hydaelyn.Durable.Testbackend.Attempts.finish_attempt
first_clean = refl

abbrev five : ToolResult
five = record no_result { content = 5 ∷ [] }

first_result : first_call.0.result ≡ five
unfolding tool_effect go_hydaelyn.Durable.Runtime.start_effect job_in run
    go_hydaelyn.Durable.Testbackend.Calls.perform
    go_hydaelyn.Durable.Testbackend.Executions.start_execution go_hydaelyn.Prelude.is_blank
    go_hydaelyn.Prelude.text_eq go_hydaelyn.Prelude.Assoc.put get
    go_hydaelyn.Durable.Testbackend.Attempts.start_attempt go_hydaelyn.Durable.Runtime.decide_effect
    go_hydaelyn.Durable.Runtime.run_effect go_hydaelyn.Durable.Runtime.settle_effect
    go_hydaelyn.Durable.Runtime.execute_tool_driver go_hydaelyn.Durable.Runtime.encode_tool_attempt
    go_hydaelyn.Durable.Runtime.finish_effect
    go_hydaelyn.Durable.Testbackend.Attempts.finish_attempt
first_result = refl

second_call :
    (tool_effect hashes content_json hash_call (answering 6) job stepping first_call.1).0
    ≡ record { result = five; errors = []; ran = false }
unfolding tool_effect go_hydaelyn.Durable.Runtime.start_effect job_in run
    go_hydaelyn.Durable.Testbackend.Calls.perform
    go_hydaelyn.Durable.Testbackend.Executions.start_execution go_hydaelyn.Prelude.is_blank
    go_hydaelyn.Prelude.text_eq go_hydaelyn.Prelude.Assoc.put get
    go_hydaelyn.Durable.Testbackend.Attempts.start_attempt go_hydaelyn.Durable.Runtime.decide_effect
    go_hydaelyn.Durable.Runtime.run_effect go_hydaelyn.Durable.Runtime.settle_effect
    go_hydaelyn.Durable.Runtime.execute_tool_driver go_hydaelyn.Durable.Runtime.encode_tool_attempt
    go_hydaelyn.Durable.Runtime.finish_effect
    go_hydaelyn.Durable.Testbackend.Attempts.finish_attempt
    go_hydaelyn.Durable.Runtime.replay_effect go_hydaelyn.Durable.Runtime.decode_tool_attempt
second_call = refl

reads_back :
    (p : List ℕ)
    → content_json.marshal (tool_envelope first_call.0.result none) ≡ some p
    → content_json.unmarshal p ≡ some (tool_envelope first_call.0.result none)
reads_back p e =
    let written : some (five.content) ≡ some p = rw first_result at e in
    let is : five.content ≡ p = ground arith in rw (first_result, ← is) refl

tool_effect_once_example :
    Replays first_call.0.result
      (tool_effect hashes content_json hash_call
        (answering 6)
        job
        stepping
        (run hashes takes_over first_call.1)).0
tool_effect_once_example =
    tool_effect_once hashes content_json hash_call claimed takes_over (answering 5) (answering 6)
      job stepping stepping first_call refl first_ran first_clean refl reads_back
