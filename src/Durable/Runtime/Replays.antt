-- ===== src/Durable/Runtime/Replays.antt =====
-- A started effect whose outcome was recorded (durable/interceptor.go).
use go_hydaelyn.Prelude.{
  ℕ, ◌≡◌, refl, Bool, true, false, Option, none, some, List, [], Text, ◌==◌, text_eq_instance,
  nat_eq, inl, inr, Bool-cases, if◌then◌else◌, Result, ok, err, ◌&&◌, ◌⊎◌,
}
use go_hydaelyn.Prelude.Assoc.{get}
use go_hydaelyn.Message.{ToolCall, ToolResult}
use go_hydaelyn.Durable.{
  Hash, Lease, ContextError, DurableError, Attempt, AttemptStart, replay, StartAttemptRequest,
}
use go_hydaelyn.Durable.Testbackend.Store.{
  Store, ExecutionRecord, with_record, context_or_validation, attempts_of, holds_lease, trusted_now,
}
use go_hydaelyn.Durable.Testbackend.Executions.{Hashes}
use go_hydaelyn.Durable.Testbackend.Attempts.{
  start_attempt, start_attempt_record, last_attempt, is_settled, kind_beq,
}
use go_hydaelyn.Durable.Testbackend.Calls.Effects.{start_settled, replay_answer}
use go_hydaelyn.Durable.Runtime.{
  Answer, Outside, Json, EffectError, refused, decode_tool_attempt, replay_effect, decide_effect,
  started_effect, start_effect, begun_effect, tool_effect, attempt_request, lease_reference,
}

-- The recorded result, without running the driver.
abbrev pub replayed : ToolResult → Answer
replayed result = record { result = result; errors = []; ran = false }

-- The answer is a refusal with one error, or the recorded result; the driver was not run.
abbrev pub Replays : ToolResult → Answer → Type 0
Replays result o = ((e : EffectError) × (o ≡ refused e)) ⊎ (o ≡ replayed result)

Replays-refused : (result : ToolResult) (e : EffectError) → Replays result (refused e)
Replays-refused result e = inl (e, refl)

-- What a start of the effect returns once its outcome is recorded.
abbrev ReplaysOnly : Attempt → Result DurableError AttemptStart → Type 0
ReplaysOnly a (err e) = Unit
ReplaysOnly a (ok x) = x ≡ record { attempt = a; decision = replay }

replay_answer-ReplaysOnly :
    (q : StartAttemptRequest) (a : Attempt) (held : Bool) → ReplaysOnly a (replay_answer q a held)
unfolding replay_answer
replay_answer-ReplaysOnly q a false = tt
replay_answer-ReplaysOnly q a true =
    elim (Bool-cases (kind_beq a.kind q.kind && a.input_hash == q.input_hash)) [
      | inl e ↦ rw e refl
      | inr e ↦ rw e tt
    ]

-- The effect is in the store with its outcome.
pub record Settled (id op : Text) (a : Attempt) (s : Store) : Type 0 where
  pub kept : ExecutionRecord
  pub is_there : get s.executions id ≡ some kept
  pub last : last_attempt (attempts_of kept op) ≡ some a
  pub settled : is_settled a.status ≡ true

context-ReplaysOnly :
    (ctx : Option ContextError) (v : DurableError) (s : Store) (a : Attempt)
    → ReplaysOnly a (context_or_validation ctx v s).0
unfolding context_or_validation
context-ReplaysOnly none v s a = tt
context-ReplaysOnly (some e) v s a = tt

found-ReplaysOnly :
    (ctx : Option ContextError) (clock : ℕ) (q : StartAttemptRequest) (s : Store) (a : Attempt)
    → Settled q.execution_id q.operation_id a s
    → ReplaysOnly a
        (with_record ctx clock q.execution_id q.operation_id (start_attempt_record q) s).0
unfolding with_record
found-ReplaysOnly (some e) clock q s a t = tt
found-ReplaysOnly none clock q s a t =
    rw (t.is_there, start_settled q t.kept (trusted_now clock s) a t.settled t.last)
      (replay_answer-ReplaysOnly q a (holds_lease t.kept q.lease (trusted_now clock s)))

pub if-holds {ℓ κ} :
    {A : Type ℓ} (P : A → Type κ) (b : Bool) (x y : A) → P x → P y → P (if b then x else y)
if-holds P true x y p q = p
if-holds P false x y p q = q

start_attempt-ReplaysOnly :
    (ctx : Option ContextError) (clock : ℕ) (q : StartAttemptRequest) (s : Store) (a : Attempt)
    → Settled q.execution_id q.operation_id a s
    → ReplaysOnly a (start_attempt ctx clock q s).0
unfolding start_attempt
start_attempt-ReplaysOnly ctx clock q s a t =
    if-holds (λ (o : Result DurableError AttemptStart × Store). ReplaysOnly a o.0) _ _ _
      (context-ReplaysOnly ctx _ s a) (found-ReplaysOnly ctx clock q s a t)

module _ (h : Hashes) (json : Json) (hash_input : Text → List ℕ → Option Hash) (result : ToolResult)
    (a : Attempt) (recorded : decode_tool_attempt json a.payload ≡ some (result, none)) where
  started-Replays :
      (w : Outside) (id : Text) (call : ToolCall) (x : Result DurableError AttemptStart) (s : Store)
      → ReplaysOnly a x
      → Replays result (started_effect h json hash_input w id call x s).0
  unfolding decide_effect replay_effect
  started-Replays w id call (err e) s only = Replays-refused result _
  started-Replays w id call (ok x) s only = rw (only, recorded) (inr refl)

  start-Replays :
      (w : Outside) (id : Text) (call : ToolCall) (hash : Option Hash) (l : Option Lease)
      (s : Store)
      → Settled id call.operation_id a s
      → Replays result (start_effect h json hash_input w id call hash l s).0
  unfolding start_effect
  start-Replays w id call none l s t = Replays-refused result _
  start-Replays w id call (some hash) none s t = Replays-refused result _
  start-Replays w id call (some hash) (some l) s t =
      let q = attempt_request h json hash_input id (lease_reference l) call hash in
      started-Replays w id call (start_attempt w.ctx w.clock q s).0
        (start_attempt w.ctx w.clock q s).1 (start_attempt-ReplaysOnly w.ctx w.clock q s a t)

  pub tool_effect-Replays :
      (w : Outside) (id : Text) (call : ToolCall) (s : Store)
      → Settled id call.operation_id a s
      → Replays result (tool_effect h json hash_input w id call s).0
  unfolding tool_effect
  tool_effect-Replays w id call s t = begun w.begun
    where
      begun : (o : Option Text) → Replays result (begun_effect h json hash_input w id call o s).0
      begun (some reason) = Replays-refused result _
      begun none =
          if-holds (λ (x : Answer × Store). Replays result x.0) _ _ _ (Replays-refused result _)
            (start-Replays w id call (hash_input call.name call.arguments) w.lease_at_start s t)
