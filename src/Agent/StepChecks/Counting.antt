-- ===== src/Agent/StepChecks/Counting.antt =====
-- How the steps that `validateContinuationSteps` accepts count tool calls (agent/continuation.go).
use go_hydaelyn.Prelude.{
  ℕ, suc, ◌+◌, ok, Bool, true, false, ◌&&◌, Option, none, some, List, [], ◌∷◌, length, ◌≡◌, refl,
  sym, ◌∙◌, ap, arith,
}
use go_hydaelyn.Prelude.Int.{ℤ, pos, int_beq_iff}
use go_hydaelyn.Message.{ToolCall, Message}
use go_hydaelyn.Message.Content.{is_empty}
use go_hydaelyn.Message.History.{or_else}
use go_hydaelyn.Agent.{Step, ToolCallTrace, ContinuationPhase}
use go_hydaelyn.Agent.Analysis.{and_then}
use go_hydaelyn.Agent.Analysis.Naming.{and_then-eq-ok}
use go_hydaelyn.Agent.Scalars.{ContinuationError, refuse_if}
use go_hydaelyn.Agent.StepChecks.{
  StepTotals, check_step, check_operations, check_tool_calls, validate_step_tool_calls,
  validate_step_budget, progress_after, validate_step, validate_steps_from, and_ok, or_panic,
  assistant_at, usage_of, is_model_complete,
}

-- The steps are numbered from `index` on, and each one's snapshot counts the tool calls that were
-- executed up to it, `used` of them before.
abbrev pub Counted : ℕ → ℕ → List Step → Type 0
Counted index used [] = Unit
Counted index used (s ∷ ss) =
    (s.index ≡ pos index)
    × (s.budget_used.tool_calls ≡ pos (used + length s.tool_calls))
    × Counted (suc index) (used + length s.tool_calls) ss

abbrev pub executed : List Step → ℕ
executed [] = 0
executed (s ∷ ss) = length s.tool_calls + executed ss

pub or_else-eq-none {ℓ} :
    {A : Type ℓ} (a b : Option A) → or_else a b ≡ none → (a ≡ none) × (b ≡ none)
or_else-eq-none none b h = (refl, h)
or_else-eq-none (some e) b h = cc

pub and_ok-eq-ok {ℓ} :
    {A : Type ℓ} (o : Option ContinuationError) (a : A) {b : A}
    → and_ok o a ≡ ok b
    → (o ≡ none) × (a ≡ b)
and_ok-eq-ok none a h = (refl, ground arith)
and_ok-eq-ok (some e) a h = cc

pub refuse_if-eq-none : (b : Bool) (e : ContinuationError) → refuse_if b e ≡ none → b ≡ false
refuse_if-eq-none true e h = cc
refuse_if-eq-none false e h = refl

-- The parts of an accepted step.
record Accepts (phase : ContinuationPhase) (index : ℕ) (is_last : Bool) (turn : ℕ) (step : Step)
    (m : Message) (p p' : StepTotals) : Type 0 where
  checked : check_step index is_last step ≡ none
  operations : check_operations index turn 0 m.tool_calls ≡ none
  calls : check_tool_calls index (is_model_complete phase && is_last) step m ≡ none
  budget :
      validate_step_budget index step m
        (is_model_complete phase && is_last)
        (progress_after (is_model_complete phase && is_last) step m p)
        (usage_of step).total_tokens
      ≡ none
  after :
      record (progress_after (is_model_complete phase && is_last) step m p) { previous = some step }
      ≡ p'

validate_step-Accepts :
    (phase : ContinuationPhase) (index : ℕ) (is_last : Bool) (turn : ℕ) (step : Step) (m : Message)
    (p p' : StepTotals)
    → validate_step phase index is_last turn step m p ≡ ok p'
    → Accepts phase index is_last turn step m p p'
unfolding validate_step
validate_step-Accepts phase index is_last turn step m p p' h =
    let (passes, after) = and_ok-eq-ok _ _ h in
    let (a, r1) = or_else-eq-none (check_step index is_last step) _ passes in
    let (b, r2) = or_else-eq-none (check_operations index turn 0 m.tool_calls) _ r1 in
    let (c, d) =
      or_else-eq-none (check_tool_calls index (is_model_complete phase && is_last) step m) _ r2 in
    record { checked = a; operations = b; calls = c; budget = d; after = after }

check_step-index :
    (index : ℕ) (is_last : Bool) (s : Step)
    → check_step index is_last s ≡ none
    → s.index ≡ pos index
unfolding check_step
check_step-index index is_last s h = ground (arith, int_beq_iff s.index (pos index))

empty-length {ℓ} : {A : Type ℓ} (xs : List A) → is_empty xs ≡ true → length xs ≡ 0
empty-length [] h = refl
empty-length (x ∷ xs) h = cc

traces-length :
    (index : ℕ) (traces : List ToolCallTrace) (calls : List ToolCall)
    → validate_step_tool_calls index traces calls ≡ none
    → length traces ≡ length calls
unfolding validate_step_tool_calls
traces-length index traces calls h = ground arith

completed-after :
    (index : ℕ) (pending : Bool) (s : Step) (m : Message) (p : StepTotals)
    → check_tool_calls index pending s m ≡ none
    → (progress_after pending s m p).completed ≡ p.completed + length s.tool_calls
unfolding check_tool_calls progress_after
completed-after index true s m p h =
    let empty : is_empty s.tool_calls ≡ true = ground arith in
    omega (arith, empty-length s.tool_calls empty)
completed-after index false s m p h = omega (arith, traces-length index s.tool_calls m.tool_calls h)

budget-snapshot :
    (index : ℕ) (s : Step) (m : Message) (pending : Bool) (p : StepTotals) (current : ℤ)
    → validate_step_budget index s m pending p current ≡ none
    → s.budget_used.tool_calls ≡ pos p.completed
unfolding validate_step_budget
budget-snapshot index s m pending p current h =
    ground (arith, int_beq_iff s.budget_used.tool_calls (pos p.completed))

Accepts-Counted :
    (phase : ContinuationPhase) (index : ℕ) (is_last : Bool) (turn : ℕ) (s : Step) (m : Message)
    (p p' : StepTotals)
    → Accepts phase index is_last turn s m p p'
    → (s.index ≡ pos index)
      × (s.budget_used.tool_calls ≡ pos (p.completed + length s.tool_calls))
      × (p'.completed ≡ p.completed + length s.tool_calls)
Accepts-Counted phase index is_last turn s m p p' a =
    let pending = is_model_complete phase && is_last in
    let count = completed-after index pending s m p a.calls in
    (
      check_step-index index is_last s a.checked,
      budget-snapshot index s m pending (progress_after pending s m p) (usage_of s).total_tokens
            a.budget
          ∙ ap pos count,
      ap (λ q. q.completed) (sym a.after) ∙ count,
    )

or_panic-eq-ok {ℓ} : {A : Type ℓ} (o : Option A) {a : A} → or_panic o ≡ ok a → o ≡ some a
or_panic-eq-ok none h = cc
or_panic-eq-ok (some b) h = ap some (ground arith)

-- The assistant's message of a step, and the step's progress.
pub step-split :
    (phase : ContinuationPhase) (ms : List Message) (indices : List ℕ) (index turn at : ℕ)
    (s : Step) (steps : List Step) (p p' : StepTotals)
    → validate_steps_from phase ms indices index turn at (s ∷ steps) p ≡ ok p'
    → (m : Message) × (q : StepTotals) × (assistant_at ms indices at ≡ some m)
      × (validate_step phase index (is_empty steps) turn s m p ≡ ok q)
      × (validate_steps_from phase ms indices (suc index) (suc turn) (suc at) steps q ≡ ok p')
unfolding validate_steps_from
step-split phase ms indices index turn at s steps p p' h =
    let (q, first, later) =
      and_then-eq-ok
        (and_then (or_panic (assistant_at ms indices at))
          (λ m. validate_step phase index (is_empty steps) turn s m p))
        (validate_steps_from phase ms indices (suc index) (suc turn) (suc at) steps) h in
    let (m, found, here) =
      and_then-eq-ok (or_panic (assistant_at ms indices at))
        (λ m. validate_step phase index (is_empty steps) turn s m p) first in
    (m, q, or_panic-eq-ok (assistant_at ms indices at) found, here, later)

pub validate_steps_from-Counted :
    (phase : ContinuationPhase) (ms : List Message) (indices : List ℕ) (index turn at : ℕ)
    (steps : List Step) (p p' : StepTotals)
    → validate_steps_from phase ms indices index turn at steps p ≡ ok p'
    → Counted index p.completed steps × (p'.completed ≡ p.completed + executed steps)
unfolding validate_steps_from
validate_steps_from-Counted phase ms indices index turn at [] p p' h =
    (tt, let same : p ≡ p' = ground arith in rw (← same) (omega arith))
validate_steps_from-Counted phase ms indices index turn at (s ∷ steps) p p' h =
    let (m, q, _, here, later) = step-split phase ms indices index turn at s steps p p' h in
    let (numbered, snapshot, count) =
      Accepts-Counted phase index (is_empty steps) turn s m p q
        (validate_step-Accepts phase index (is_empty steps) turn s m p q here) in
    let (rest, total) =
      validate_steps_from-Counted phase ms indices (suc index) (suc turn) (suc at) steps q p'
        later in
    ((numbered, snapshot, rw count at rest), omega arith)
