-- ===== src/Durable/Runtime.antt =====
-- A tool call as a durable effect: `toolAttemptInterceptor.Execute` with its settlement
-- (durable/interceptor.go), over the reference store; Codec is its envelope (durable/codec.go). What the
-- call finds outside is a parameter: the tool's driver, the snapshots of the lease, the contexts,
-- the clock readings, and the calls of others on the store while the tool runs.
mod Codec
pub mod Recorded
pub mod Replays
pub mod Stored
pub mod Client
pub mod Once
pub use Codec.{ToolError, ToolEnvelope, Json, tool_envelope}
unfoldable pub use Codec.{failure_from_error, encode_tool_attempt, decode_tool_attempt}
use mathlib.Core.Bool.{not}
use go_hydaelyn.Prelude.{
  ℕ, Bool, true, false, Option, none, some, List, [], ◌∷◌, ◌++◌, Text, lit, ◌==◌, nat_eq, Result,
  ok, err, if◌then◌else◌,
}
use go_hydaelyn.Message.{ToolCall, ToolResult}
use go_hydaelyn.Message.Content.{is_empty}
use go_hydaelyn.Durable.{
  Hash, Lease, LeaseRef, ContextError, DurableError, Attempt, AttemptStart, AttemptDecision,
  execute, replay, reconcile, FailureRecord, StartAttemptRequest, SettleAttemptRequest, AttemptKind,
}
use go_hydaelyn.Durable.Testbackend.Store.{Store}
use go_hydaelyn.Durable.Testbackend.Executions.{Hashes}
use go_hydaelyn.Durable.Testbackend.Attempts.{start_attempt, finish_attempt, mark_attempt_unknown}
use go_hydaelyn.Durable.Testbackend.Calls.{Call, run}

pub data EffectError : Type 0 where
  stopped : Text → EffectError
  no_operation_id unhashable no_lease undecodable unencodable : EffectError
  backend_error : DurableError → EffectError
  reconcile_required : Attempt → EffectError
  recorded_failure : FailureRecord → EffectError
  tool_error : ToolError → EffectError

-- What `Execute` returns, the joined errors as a list, and whether it ran the driver.
pub record Answer : Type 0 where
  pub result : ToolResult
  pub errors : List EffectError
  pub ran : Bool

-- `tool.Result{}`
abbrev pub no_result : ToolResult
no_result = record {
  tool_call_id = [];
  name = [];
  content = [];
  parts = [];
  structured = [];
  is_error = false;
}

abbrev pub refused : EffectError → Answer
refused e = record { result = no_result; errors = e ∷ []; ran = false }

abbrev pub ran_with : ToolResult → List EffectError → Answer
ran_with result errors = record { result = result; errors = errors; ran = true }

-- How a driver's `Execute` ends; the text of a panic is its message as an error.
pub data Driven : Type 0 where
  returned : ToolResult → Option ToolError → Driven
  panicked : Text → Driven

-- `executeToolDriver`
unfoldable pub execute_tool_driver : Driven → ToolResult × Option ToolError
execute_tool_driver (returned result e) = (result, e)
execute_tool_driver (panicked message) = (
  no_result,
  some record {
    message = message;
    not_started = false;
    not_executed = false;
    canceled = false;
    deadline_exceeded = false;
  },
)

pub record Outside : Type 0 where
  pub begun : Option Text
  pub lease_at_start : Option Lease
  pub lease_at_end : Option Lease
  pub ctx : Option ContextError
  pub clock : ℕ
  pub settlement_ctx : Option ContextError
  pub settlement_clock : ℕ
  pub during : List Call
  pub driver : ToolCall → Driven

abbrev pub lease_reference : Lease → LeaseRef
lease_reference l = record { owner_id = l.owner_id; token = l.token }

abbrev pub settlement :
    Text → LeaseRef → Attempt → List ℕ → Option FailureRecord → SettleAttemptRequest
settlement id lease a payload failure = record {
  execution_id = id;
  lease = lease;
  operation_id = a.operation_id;
  attempt_number = a.number;
  expected_attempt_version = a.version;
  payload = payload;
  failure = failure;
}

abbrev pub error_of {ℓ} : {A : Type ℓ} → Result DurableError A → List EffectError
error_of (ok a) = []
error_of (err e) = backend_error e ∷ []

-- `finishAttempt`, given the snapshot's lease
unfoldable pub finish_effect :
    Outside
    → Option Lease
    → Text
    → Attempt
    → List ℕ
    → Option FailureRecord
    → Store
    → List EffectError × Store
finish_effect w none id a payload failure s = (no_lease ∷ [], s)
finish_effect w (some l) id a payload failure s =
    let (r, s') =
      finish_attempt w.settlement_ctx w.settlement_clock
        (settlement id (lease_reference l) a payload failure) s in
    (error_of r, s')

abbrev doubt_of : Result DurableError Attempt → List EffectError
doubt_of (ok a) = reconcile_required a ∷ []
doubt_of (err e) = backend_error e ∷ []

-- `markAttemptUnknown`, and the reconciliation that it asks for
unfoldable pub doubt_effect :
    Outside
    → Option Lease
    → Text
    → Attempt
    → List ℕ
    → Option FailureRecord
    → Store
    → List EffectError × Store
doubt_effect w none id a payload failure s = (no_lease ∷ [], s)
doubt_effect w (some l) id a payload failure s =
    let (r, s') =
      mark_attempt_unknown w.settlement_ctx w.settlement_clock
        (settlement id (lease_reference l) a payload failure) s in
    (doubt_of r, s')

abbrev pub answered : ToolResult → List EffectError → List EffectError × Store → Answer × Store
answered result errors (more, s) = (ran_with result (errors ++ more), s)

-- What follows the driver, by its error and the encoded envelope.
unfoldable pub settle_effect :
    Outside
    → Text
    → Attempt
    → ToolResult
    → Option ToolError
    → Option (List ℕ)
    → Store
    → Answer × Store
settle_effect w id a result none (some payload) s =
    answered result [] (finish_effect w w.lease_at_end id a payload none s)
settle_effect w id a result (some e) (some payload) s =
    let failure = failure_from_error (some e) in
    if e.not_executed
    then answered result (tool_error e ∷ []) (finish_effect w w.lease_at_end id a payload failure s)
    else answered result (tool_error e ∷ []) (doubt_effect w w.lease_at_end id a payload failure s)
settle_effect w id a result none none s =
    answered result (unencodable ∷ []) (doubt_effect w w.lease_at_end id a [] none s)
settle_effect w id a result (some e) none s =
    answered result (tool_error e ∷ unencodable ∷ [])
      (doubt_effect w w.lease_at_end id a [] (failure_from_error (some e)) s)

-- the replay of a recorded outcome
unfoldable pub replay_effect : Option (ToolResult × Option FailureRecord) → Answer
replay_effect none = refused undecodable
replay_effect (some (result, none)) = record { result = result; errors = []; ran = false }
replay_effect (some (result, some f)) = record {
  result = result;
  errors = recorded_failure f ∷ [];
  ran = false;
}

module _ (h : Hashes) (json : Json) (hash_input : Text → List ℕ → Option Hash) where
  -- the driver runs, while others call the store
  unfoldable pub run_effect : Outside → Text → ToolCall → Attempt → Store → Answer × Store
  run_effect w id call a s =
      let (result, e) = execute_tool_driver (w.driver call) in
      settle_effect w id a result e (encode_tool_attempt json result (failure_from_error e))
        (run h w.during s)

  unfoldable pub decide_effect :
      Outside → Text → ToolCall → AttemptDecision → Attempt → Store → Answer × Store
  decide_effect w id call execute a s = run_effect w id call a s
  decide_effect w id call replay a s = (replay_effect (decode_tool_attempt json a.payload), s)
  decide_effect w id call reconcile a s = (refused (reconcile_required a), s)

  abbrev pub started_effect :
      Outside → Text → ToolCall → Result DurableError AttemptStart → Store → Answer × Store
  started_effect w id call (err e) s = (refused (backend_error e), s)
  started_effect w id call (ok x) s = decide_effect w id call x.decision x.attempt s

  abbrev pub attempt_request : Text → LeaseRef → ToolCall → Hash → StartAttemptRequest
  attempt_request id lease call hash = record {
    execution_id = id;
    lease = lease;
    operation_id = call.operation_id;
    kind = AttemptKind.tool;
    input_hash = hash;
  }

  -- with the hash and the lease of the call, if they are there
  unfoldable pub start_effect :
      Outside → Text → ToolCall → Option Hash → Option Lease → Store → Answer × Store
  start_effect w id call none l s = (refused unhashable, s)
  start_effect w id call (some hash) none s = (refused no_lease, s)
  start_effect w id call (some hash) (some l) s =
      let (x, s') =
        start_attempt w.ctx w.clock (attempt_request id (lease_reference l) call hash) s in
      started_effect w id call x s'

  -- with the reason why the execution is stopped, if it is
  abbrev pub begun_effect : Outside → Text → ToolCall → Option Text → Store → Answer × Store
  begun_effect w id call (some reason) s = (refused (stopped reason), s)
  begun_effect w id call none s =
      if is_empty call.operation_id
      then (refused no_operation_id, s)
      else start_effect w id call (hash_input call.name call.arguments) w.lease_at_start s

  -- `toolAttemptInterceptor.Execute`
  unfoldable pub tool_effect : Outside → Text → ToolCall → Store → Answer × Store
  tool_effect w id call s = begun_effect w id call w.begun s
