-- ===== src/Durable/Runtime/Client.antt =====
-- The effect changes the store only by the calls of `Backend` (durable/interceptor.go).
use go_hydaelyn.Prelude.{
  ℕ, ◌≡◌, refl, Option, none, some, List, [], ◌∷◌, ◌++◌, Text, Result, ok, err,
}
use go_hydaelyn.Message.{ToolCall, ToolResult}
use go_hydaelyn.Message.Content.{is_empty}
use go_hydaelyn.Durable.{
  Hash, Lease, ContextError, DurableError, Attempt, AttemptStart, AttemptDecision, execute, replay,
  reconcile, FailureRecord,
}
use go_hydaelyn.Durable.Testbackend.Store.{Store}
use go_hydaelyn.Durable.Testbackend.Executions.{Hashes}
use go_hydaelyn.Durable.Testbackend.Attempts.{start_attempt}
use go_hydaelyn.Durable.Testbackend.Calls.{
  Call, Method, starts_attempt, finishes_attempt, marks_unknown, run, perform,
}
use go_hydaelyn.Durable.Testbackend.Calls.Invariant.{AllSound, run-AllSound}
use go_hydaelyn.Durable.Runtime.{
  Answer, Outside, Json, ToolError, begun_effect, run_effect, decide_effect, settle_effect,
  started_effect, start_effect, tool_effect, execute_tool_driver, attempt_request, lease_reference,
  settlement, finish_effect, doubt_effect,
}
use go_hydaelyn.Durable.Runtime.Replays.{if-holds}

module _ (h : Hashes) where
  pub record Client (s s' : Store) : Type 0 where
    pub calls : List Call
    pub is_run : s' ≡ run h calls s

  run-append : (l k : List Call) (s : Store) → run h (l ++ k) s ≡ run h k (run h l s)
  unfolding run
  run-append [] k s = refl
  run-append (c ∷ l) k s = run-append l k (perform h c.ctx c.clock c.method s)

  Client-idle : (s : Store) → Client s s
  unfolding run
  Client-idle s = record { calls = []; is_run = refl }

  Client-then : (s s' s'' : Store) → Client s s' → Client s' s'' → Client s s''
  Client-then s s' s'' c d = record {
    calls = c.calls ++ d.calls;
    is_run = rw (run-append c.calls d.calls s, ← c.is_run) d.is_run;
  }

  Client-call :
      (ctx : Option ContextError) (clock : ℕ) (m : Method) (s : Store)
      → Client s (perform h ctx clock m s)
  unfolding run
  Client-call ctx clock m s = record {
    calls = record { ctx = ctx; clock = clock; method = m } ∷ [];
    is_run = refl;
  }

  Client-AllSound : (s s' : Store) → Client s s' → AllSound s → AllSound s'
  Client-AllSound s s' c sound = rw c.is_run (run-AllSound h c.calls s sound)

  module _ (w : Outside) (id : Text) (a : Attempt) where
    finish_effect-Client :
        (l : Option Lease) (payload : List ℕ) (failure : Option FailureRecord) (s : Store)
        → Client s (finish_effect w l id a payload failure s).1
    unfolding finish_effect perform
    finish_effect-Client none payload failure s = Client-idle s
    finish_effect-Client (some l) payload failure s =
        Client-call w.settlement_ctx w.settlement_clock
          (finishes_attempt (settlement id (lease_reference l) a payload failure)) s

    doubt_effect-Client :
        (l : Option Lease) (payload : List ℕ) (failure : Option FailureRecord) (s : Store)
        → Client s (doubt_effect w l id a payload failure s).1
    unfolding doubt_effect perform
    doubt_effect-Client none payload failure s = Client-idle s
    doubt_effect-Client (some l) payload failure s =
        Client-call w.settlement_ctx w.settlement_clock
          (marks_unknown (settlement id (lease_reference l) a payload failure)) s

    settle_effect-Client :
        (result : ToolResult) (e : Option ToolError) (payload : Option (List ℕ)) (s : Store)
        → Client s (settle_effect w id a result e payload s).1
    unfolding settle_effect
    settle_effect-Client result none (some p) s = finish_effect-Client w.lease_at_end p _ s
    settle_effect-Client result (some e) (some p) s =
        if-holds (λ (o : Answer × Store). Client s o.1) e.not_executed _ _
          (finish_effect-Client w.lease_at_end p _ s) (doubt_effect-Client w.lease_at_end p _ s)
    settle_effect-Client result none none s = doubt_effect-Client w.lease_at_end [] _ s
    settle_effect-Client result (some e) none s = doubt_effect-Client w.lease_at_end [] _ s

  module _ (json : Json) (hash_input : Text → List ℕ → Option Hash) (w : Outside) (id : Text)
      (call : ToolCall) where
    decide_effect-Client :
        (d : AttemptDecision) (a : Attempt) (s : Store)
        → Client s (decide_effect h json hash_input w id call d a s).1
    unfolding decide_effect run_effect
    decide_effect-Client execute a s =
        Client-then s (run h w.during s) _ record { calls = w.during; is_run = refl }
          (settle_effect-Client w id a (execute_tool_driver (w.driver call)).0
            (execute_tool_driver (w.driver call)).1 _ (run h w.during s))
    decide_effect-Client replay a s = Client-idle s
    decide_effect-Client reconcile a s = Client-idle s

    started_effect-Client :
        (x : Result DurableError AttemptStart) (s : Store)
        → Client s (started_effect h json hash_input w id call x s).1
    started_effect-Client (err e) s = Client-idle s
    started_effect-Client (ok x) s = decide_effect-Client x.decision x.attempt s

    start_effect-Client :
        (hash : Option Hash) (l : Option Lease) (s : Store)
        → Client s (start_effect h json hash_input w id call hash l s).1
    unfolding start_effect perform
    start_effect-Client none l s = Client-idle s
    start_effect-Client (some hash) none s = Client-idle s
    start_effect-Client (some hash) (some l) s =
        let q = attempt_request h json hash_input id (lease_reference l) call hash in
        Client-then s (start_attempt w.ctx w.clock q s).1 _
          (Client-call w.ctx w.clock (starts_attempt q) s)
          (started_effect-Client (start_attempt w.ctx w.clock q s).0
            (start_attempt w.ctx w.clock q s).1)

    begun_effect-Client :
        (o : Option Text) (s : Store) → Client s (begun_effect h json hash_input w id call o s).1
    begun_effect-Client (some reason) s = Client-idle s
    begun_effect-Client none s =
        if-holds (λ (o : Answer × Store). Client s o.1) (is_empty call.operation_id) _ _
          (Client-idle s)
          (start_effect-Client (hash_input call.name call.arguments) w.lease_at_start s)

    pub tool_effect-AllSound :
        (s : Store) → AllSound s → AllSound (tool_effect h json hash_input w id call s).1
    unfolding tool_effect
    tool_effect-AllSound s sound = Client-AllSound s _ (begun_effect-Client w.begun s) sound
