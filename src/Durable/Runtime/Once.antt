-- ===== src/Durable/Runtime/Once.antt =====
-- A tool call that ran and whose outcome was recorded is not run again (durable/interceptor.go over
-- durable/internal/testbackend).
use go_hydaelyn.Prelude.{
  ℕ, ◌≡◌, refl, true, false, Option, none, some, List, [], ◌∷◌, Text, text_eq_instance, nat_eq,
  Result, ok, err, subst,
}
use go_hydaelyn.Message.{ToolCall, ToolResult}
use go_hydaelyn.Message.Content.{is_empty}
use go_hydaelyn.Durable.{
  Hash, Lease, DurableError, Attempt, AttemptStart, AttemptDecision, execute, replay, reconcile,
  FailureRecord, StartAttemptRequest, SettleAttemptRequest,
}
use go_hydaelyn.Durable.Testbackend.Store.{Store, attempts_of, empty_store}
use go_hydaelyn.Durable.Testbackend.Executions.{Hashes}
use go_hydaelyn.Durable.Testbackend.Attempts.{start_attempt, finish_attempt, last_attempt}
use go_hydaelyn.Durable.Testbackend.Calls.{Call, run}
use go_hydaelyn.Durable.Testbackend.Calls.Invariant.{AllSound, run-AllSound, empty_store-AllSound}
use go_hydaelyn.Durable.Testbackend.Calls.Kept.{run-Found}
use go_hydaelyn.Durable.Testbackend.Calls.Effects.{settled-Persists}
use go_hydaelyn.Durable.Runtime.{
  Answer, Outside, Json, tool_envelope, EffectError, unencodable, error_of, begun_effect, ToolError,
  refused, decode_tool_attempt, encode_tool_attempt, replay_effect, decide_effect, started_effect,
  start_effect, tool_effect, attempt_request, lease_reference, settlement, finish_effect,
  settle_effect, run_effect, execute_tool_driver, answered, failure_from_error,
}
use go_hydaelyn.Durable.Runtime.Stored.{
  finish_attempt-Recorded, start_attempt-SameOperation, start_attempt-AllSound,
}
use go_hydaelyn.Durable.Runtime.Client.{tool_effect-AllSound}
use go_hydaelyn.Durable.Runtime.Replays.{Settled, Replays, tool_effect-Replays, if-holds}

-- The result went into the payload of the effect's attempt, which has succeeded or failed.
pub record Keeps (json : Json) (id op : Text) (result : ToolResult) (s : Store) : Type 0 where
  pub attempt : Attempt
  pub settled : Settled id op attempt s
  pub encoded : encode_tool_attempt json result none ≡ some attempt.payload

-- If the driver ran and nothing failed, the store keeps the result.
abbrev Concludes : Json → Text → Text → Answer × Store → Type 0
Concludes json id op o = o.0.ran ≡ true → o.0.errors ≡ [] → Keeps json id op o.0.result o.1

Concludes-refused :
    (json : Json) (id op : Text) (e : EffectError) (s : Store) → Concludes json id op (refused e, s)
Concludes-refused json id op e s ran clean = cc

module _ (json : Json) (w : Outside) (id : Text) (a : Attempt) (result : ToolResult) where
  -- The settlement's answer is looked at.
  finished-Keeps :
      (q : SettleAttemptRequest) (s : Store) (x : Result DurableError Attempt)
      → AllSound s
      → encode_tool_attempt json result none ≡ some q.payload
      → (finish_attempt w.settlement_ctx w.settlement_clock q s).0 ≡ x
      → error_of x ≡ []
      → Keeps json q.execution_id q.operation_id result
          (finish_attempt w.settlement_ctx w.settlement_clock q s).1
  finished-Keeps q s (err e) sound encoded is clean = cc
  finished-Keeps q s (ok b) sound encoded is clean =
      let f = finish_attempt-Recorded w.settlement_ctx w.settlement_clock q s b sound is in
      record {
        attempt = b;
        settled = record {
          kept = f.value;
          is_there = f.is_there;
          last = f.holds.0;
          settled = f.holds.1;
        };
        encoded = rw f.holds.2 encoded;
      }

  finish_effect-Keeps :
      (l : Option Lease) (payload : List ℕ) (s : Store)
      → AllSound s
      → encode_tool_attempt json result none ≡ some payload
      → (finish_effect w l id a payload none s).0 ≡ []
      → Keeps json id a.operation_id result (finish_effect w l id a payload none s).1
  unfolding finish_effect
  finish_effect-Keeps none payload s sound encoded clean = cc
  finish_effect-Keeps (some l) payload s sound encoded clean =
      let q = settlement id (lease_reference l) a payload none in
      finished-Keeps q s (finish_attempt w.settlement_ctx w.settlement_clock q s).0 sound encoded
        refl clean

  answered-failed :
      (e : EffectError) (errors : List EffectError) (o : List EffectError × Store)
      → Concludes json id a.operation_id (answered result (e ∷ errors) o)
  answered-failed e errors o ran clean = cc

  settle_effect-Concludes :
      (e : Option ToolError) (payload : Option (List ℕ)) (s : Store)
      → AllSound s
      → encode_tool_attempt json result (failure_from_error e) ≡ payload
      → Concludes json id a.operation_id (settle_effect w id a result e payload s)
  unfolding settle_effect failure_from_error
  settle_effect-Concludes none (some payload) s sound encoded =
      λ ran clean. finish_effect-Keeps w.lease_at_end payload s sound encoded clean
  settle_effect-Concludes (some e) (some payload) s sound encoded =
      if-holds (Concludes json id a.operation_id) e.not_executed _ _ (answered-failed _ [] _)
        (answered-failed _ [] _)
  settle_effect-Concludes none none s sound encoded = answered-failed _ [] _
  settle_effect-Concludes (some e) none s sound encoded = answered-failed _ (unencodable ∷ []) _

replayed_idle : (o : Option (ToolResult × Option FailureRecord)) → (replay_effect o).ran ≡ false
unfolding replay_effect
replayed_idle none = refl
replayed_idle (some (result, none)) = refl
replayed_idle (some (result, some f)) = refl

module _ (h : Hashes) (json : Json) (hash_input : Text → List ℕ → Option Hash) (w : Outside)
    (id : Text) (call : ToolCall) where
  decide_effect-Concludes :
      (d : AttemptDecision) (a : Attempt) (s : Store)
      → AllSound s
      → Concludes json id a.operation_id (decide_effect h json hash_input w id call d a s)
  unfolding decide_effect run_effect
  decide_effect-Concludes execute a s sound =
      settle_effect-Concludes json w id a (execute_tool_driver (w.driver call)).0
        (execute_tool_driver (w.driver call)).1 _ (run h w.during s)
        (run-AllSound h w.during s sound) refl
  decide_effect-Concludes replay a s sound =
      λ ran clean. let idle = replayed_idle (decode_tool_attempt json a.payload) in cc
  decide_effect-Concludes reconcile a s sound = Concludes-refused json id a.operation_id _ s

  started_effect-Concludes :
      (q : StartAttemptRequest) (s : Store) (x : Result DurableError AttemptStart)
      → AllSound s
      → (start_attempt w.ctx w.clock q s).0 ≡ x
      → Concludes json id q.operation_id
          (started_effect h json hash_input w id call x (start_attempt w.ctx w.clock q s).1)
  started_effect-Concludes q s (err e) sound is = Concludes-refused json id q.operation_id _ _
  started_effect-Concludes q s (ok x) sound is =
      let s' = (start_attempt w.ctx w.clock q s).1 in
      subst
        (λ op.
          Concludes json id op (decide_effect h json hash_input w id call x.decision x.attempt s'))
        (start_attempt-SameOperation w.ctx w.clock q s x sound is)
        (decide_effect-Concludes x.decision x.attempt s'
          (start_attempt-AllSound h w.ctx w.clock q s sound))

  start_effect-Concludes :
      (hash : Option Hash) (l : Option Lease) (s : Store)
      → AllSound s
      → Concludes json id call.operation_id (start_effect h json hash_input w id call hash l s)
  unfolding start_effect
  start_effect-Concludes none l s sound = Concludes-refused json id call.operation_id _ s
  start_effect-Concludes (some hash) none s sound = Concludes-refused json id call.operation_id _ s
  start_effect-Concludes (some hash) (some l) s sound =
      let q = attempt_request h json hash_input id (lease_reference l) call hash in
      started_effect-Concludes q s (start_attempt w.ctx w.clock q s).0 sound refl

  tool_effect-Concludes :
      (s : Store)
      → AllSound s
      → Concludes json id call.operation_id (tool_effect h json hash_input w id call s)
  unfolding tool_effect
  tool_effect-Concludes s sound = begun w.begun
    where
      begun :
          (o : Option Text)
          → Concludes json id call.operation_id (begun_effect h json hash_input w id call o s)
      begun (some reason) = Concludes-refused json id call.operation_id _ s
      begun none =
          if-holds (Concludes json id call.operation_id) (is_empty call.operation_id) _ _
            (Concludes-refused json id call.operation_id _ s)
            (start_effect-Concludes (hash_input call.name call.arguments) w.lease_at_start s sound)

Settled-run :
    (h : Hashes) (after : List Call) (id op : Text) (a : Attempt) (s : Store)
    → AllSound s
    → Settled id op a s
    → Settled id op a (run h after s)
Settled-run h after id op a s sound t =
    let f =
      run-Found (λ n x. last_attempt (attempts_of x op) ≡ some a) (settled-Persists op a t.settled)
        h after s 0 id t.kept sound t.is_there t.last in
    record { kept = f.value; is_there = f.is_there; last = f.holds; settled = t.settled }

decoded :
    (json : Json) (id op : Text) (result : ToolResult) (s : Store)
    → ((p : List ℕ)
        → json.marshal (tool_envelope result none) ≡ some p
        → json.unmarshal p ≡ some (tool_envelope result none))
    → (k : Keeps json id op result s)
    → decode_tool_attempt json k.attempt.payload ≡ some (result, none)
unfolding decode_tool_attempt encode_tool_attempt
decoded json id op result s trip k = rw (trip k.attempt.payload k.encoded) refl

-- Let a tool call run its driver over a store that Backend calls reached, and return no error, while
-- others may call the store. Whatever calls follow, a later tool call of the same execution and
-- operation ID does not run its driver: it returns one error and no result, or it returns the result
-- of the first call. Assumed is that JSON reads the envelope of that result back as it was written.
pub tool_effect_once :
    (h : Hashes) (json : Json) (hash_input : Text → List ℕ → Option Hash) (before after : List Call)
    (w later : Outside) (id : Text) (call again : ToolCall) (o : Answer × Store)
    → tool_effect h json hash_input w id call (run h before empty_store) ≡ o
    → o.0.ran ≡ true
    → o.0.errors ≡ []
    → again.operation_id ≡ call.operation_id
    → ((p : List ℕ)
        → json.marshal (tool_envelope o.0.result none) ≡ some p
        → json.unmarshal p ≡ some (tool_envelope o.0.result none))
    → Replays o.0.result (tool_effect h json hash_input later id again (run h after o.1)).0
tool_effect_once h json hash_input before after w later id call again o is ran clean op trip =
    let s = run h before empty_store in
    let sound = run-AllSound h before empty_store empty_store-AllSound in
    let keeps : Keeps json id again.operation_id o.0.result o.1 =
      rw (op, ← is)
        (tool_effect-Concludes h json hash_input w id call s sound (rw is ran) (rw is clean)) in
    let sound' : AllSound o.1 =
      rw (← is) (tool_effect-AllSound h json hash_input w id call s sound) in
    tool_effect-Replays h json hash_input o.0.result keeps.attempt
      (decoded json id again.operation_id o.0.result o.1 trip keeps) later id again
      (run h after o.1)
      (Settled-run h after id again.operation_id keeps.attempt o.1 sound' keeps.settled)
