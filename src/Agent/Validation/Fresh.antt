-- ===== src/Agent/Validation/Fresh.antt =====
-- The operation IDs of an accepted continuation against those of the turns to come
-- (agent/continuation.go).
use go_hydaelyn.Prelude.{
  ℕ, ◌≤◌, nat_eq, Bool, true, false, none, List, [], ◌∷◌, ◌≡◌, ◌≢◌, arith, All,
}
use go_hydaelyn.Prelude.Int.{ℤ, pos, negsuc, int_leb, int_max}
use go_hydaelyn.Message.{ToolCall, Message}
use go_hydaelyn.Message.History.{is_assistant}
use go_hydaelyn.Agent.{Continuation}
use go_hydaelyn.Agent.Operations.{operation_id}
use go_hydaelyn.Agent.StepChecks.{magnitude}
use go_hydaelyn.Agent.Validation.{validate_continuation}
use go_hydaelyn.Agent.Validation.Accepted.{validate-Accepts, totals-split}
use go_hydaelyn.Agent.Analysis.Latest.{AtMost, Below, AllBelow, analyzed-AllBelow}

-- the calls have no operation ID of a turn from `next` on
abbrev pub IsFresh : ℕ → ToolCall → Type 0
IsFresh next c =
    (turn slot : ℕ)
    → next ≤ turn
    → turn ≤ int_max
    → slot ≤ int_max
    → c.operation_id ≢ operation_id turn slot

no_turn :
    (next latest : ℤ) (turn : ℕ)
    → int_leb next latest ≡ false
    → magnitude next ≤ turn
    → AtMost (pos turn) latest
    → ⊥
no_turn (pos n) (pos l) turn h from bound = absurd (ground arith)
no_turn (pos n) (negsuc l) turn h from bound = cc
no_turn (negsuc n) (pos l) turn h from bound = cc
no_turn (negsuc n) (negsuc l) turn h from bound = cc

Below-IsFresh :
    (next : ℤ) (latest : ℤ)
    → int_leb next latest ≡ false
    → (cs : List ToolCall) → All (Below latest) cs
    → All (IsFresh (magnitude next)) cs
Below-IsFresh next latest h [] all = tt
Below-IsFresh next latest h (c ∷ cs) all = (
  λ turn slot from ht hs e. no_turn next latest turn h from (all.0 turn slot ht hs e),
  Below-IsFresh next latest h cs all.1,
)

AllBelow-IsFresh :
    (next latest : ℤ)
    → int_leb next latest ≡ false
    → (ms : List Message) → AllBelow latest ms
    → All (λ m. is_assistant m.role ≡ true → All (IsFresh (magnitude next)) m.tool_calls) ms
AllBelow-IsFresh next latest h [] all = tt
AllBelow-IsFresh next latest h (m ∷ ms) all = (
  λ talks. Below-IsFresh next latest h m.tool_calls (all.0 talks),
  AllBelow-IsFresh next latest h ms all.1,
)

-- The operation IDs that an accepted continuation's next turns will print are new: no call of an
-- assistant's message has one, as long as the turn and the slot fit an int.
pub next_turns-IsFresh :
    (valid_json : List ℕ → Bool) (c : Continuation)
    → validate_continuation valid_json c ≡ none
    → All
        (λ m.
          is_assistant m.role ≡ true → All (IsFresh (magnitude c.next_operation_turn)) m.tool_calls)
        c.messages
next_turns-IsFresh valid_json c h =
    let a = validate-Accepts valid_json c h in
    let (_, _, behind) = totals-split c a.analysis a.progress a.totals in
    AllBelow-IsFresh c.next_operation_turn a.analysis.max_operation_turn behind c.messages
      (analyzed-AllBelow c.messages a.analysis a.transcript)
