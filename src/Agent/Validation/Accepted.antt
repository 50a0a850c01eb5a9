-- ===== src/Agent/Validation/Accepted.antt =====
-- What an accepted continuation says of its counters (agent/continuation.go).
use mathlib.Core.Bool.{not}
use go_hydaelyn.Prelude.{
  ℕ, ◌==◌, ok, err, Result, Bool, true, false, Option, none, some, List, ◌≡◌, ◌-◌, length, refl, ap,
  arith, if◌then◌else◌,
}
use go_hydaelyn.Prelude.Int.{pos, int_eq, int_beq_iff, int_leb}
use go_hydaelyn.Message.{Message}
use go_hydaelyn.Agent.{Continuation}
use go_hydaelyn.Agent.Analysis.{TranscriptAnalysis, TranscriptError, analyze_transcript}
use go_hydaelyn.Agent.Scalars.{ContinuationError, validate_scalars}
use go_hydaelyn.Agent.StepChecks.{
  StepTotals, validate_steps, validate_steps_from, no_progress, magnitude,
}
use go_hydaelyn.Agent.StepChecks.Counting.{or_else-eq-none}
use go_hydaelyn.Agent.Validation.{
  validate_continuation, validate_contents, validate_counts, validate_totals, phase_transcript,
  phase_steps, last_of, tokens_of, or_return, analyzed,
}

-- The parts that `validate_continuation` has passed.
pub record Accepts (valid_json : List ℕ → Bool) (c : Continuation) : Type 0 where
  pub version : c.schema_version ≡ pos 1
  pub scalars : validate_scalars valid_json c ≡ none
  pub analysis : TranscriptAnalysis
  pub transcript : analyze_transcript c.messages ≡ ok analysis
  pub phase_fits : phase_transcript c.phase c.messages analysis ≡ none
  pub progress : StepTotals
  pub steps : validate_steps c analysis ≡ ok progress
  pub totals : validate_totals c analysis progress ≡ none
  pub phase_step : phase_steps c.phase (last_of c.steps) analysis ≡ none

or_return-eq-none {ℓ} :
    {A : Type ℓ} (r : Result ContinuationError A) (k : A → Option ContinuationError)
    → or_return r k ≡ none
    → (a : A) × (r ≡ ok a) × (k a ≡ none)
or_return-eq-none (err e) k h = cc
or_return-eq-none (ok a) k h = (a, refl, h)

analyzed-eq-ok :
    (r : Result TranscriptError TranscriptAnalysis) (a : TranscriptAnalysis)
    → analyzed r ≡ ok a
    → r ≡ ok a
analyzed-eq-ok (err e) a h = cc
analyzed-eq-ok (ok b) a h = ap ok (ground arith)

refuse_unless-eq-none :
    (b : Bool) (e : ContinuationError) (o : Option ContinuationError)
    → (if not b then some e else o) ≡ none
    → (b ≡ true) × (o ≡ none)
refuse_unless-eq-none true e o h = (refl, h)
refuse_unless-eq-none false e o h = cc

contents-Accepts :
    (valid_json : List ℕ → Bool) (c : Continuation)
    → c.schema_version ≡ pos 1
    → validate_contents valid_json c ≡ none
    → Accepts valid_json c
unfolding validate_contents validate_counts
contents-Accepts valid_json c version h =
    let (scalars, r1) = or_else-eq-none (validate_scalars valid_json c) _ h in
    let (a, analysis, r2) = or_return-eq-none (analyzed (analyze_transcript c.messages)) _ r1 in
    let (fits, r3) = or_else-eq-none (phase_transcript c.phase c.messages a) _ r2 in
    let (p, steps, r4) = or_return-eq-none (validate_steps c a) _ r3 in
    let (totals, last) = or_else-eq-none (validate_totals c a p) _ r4 in
    record {
      version = version;
      scalars = scalars;
      analysis = a;
      transcript = analyzed-eq-ok (analyze_transcript c.messages) a analysis;
      phase_fits = fits;
      progress = p;
      steps = steps;
      totals = totals;
      phase_step = last;
    }

pub validate-Accepts :
    (valid_json : List ℕ → Bool) (c : Continuation)
    → validate_continuation valid_json c ≡ none
    → Accepts valid_json c
unfolding validate_continuation
validate-Accepts valid_json c h =
    let (version, rest) =
      refuse_unless-eq-none (c.schema_version == pos 1) _ (validate_contents valid_json c) h in
    contents-Accepts valid_json c ((int_beq_iff c.schema_version (pos 1)).0 version) rest

pub Accepts-validate :
    (valid_json : List ℕ → Bool) (c : Continuation)
    → Accepts valid_json c
    → validate_continuation valid_json c ≡ none
unfolding validate_continuation validate_contents validate_counts
Accepts-validate valid_json c a =
    rw ((int_beq_iff c.schema_version (pos 1)).1 a.version, a.scalars)
      (rw a.transcript (rw a.phase_fits (rw a.steps (rw a.totals a.phase_step))))

pub totals-split :
    (c : Continuation) (a : TranscriptAnalysis) (p : StepTotals)
    → validate_totals c a p ≡ none
    → (c.tool_calls_used ≡ pos p.completed)
      × (c.usage.total_tokens ≡ tokens_of (last_of c.steps))
      × (int_leb c.next_operation_turn a.max_operation_turn ≡ false)
unfolding validate_totals
totals-split c a p h = (
  ground (arith, int_beq_iff c.tool_calls_used (pos p.completed)),
  ground (arith, int_beq_iff c.usage.total_tokens (tokens_of (last_of c.steps))),
  ground arith,
)

-- the loop over the steps, as `validate_steps` starts it
abbrev pub steps_loop :
    Continuation → List Message → TranscriptAnalysis → Result ContinuationError StepTotals
steps_loop c ms a =
    validate_steps_from c.phase ms a.assistant_indices 0
      (magnitude c.next_operation_turn - length c.steps)
      (length a.assistant_indices - length c.steps) c.steps no_progress

pub steps-loop :
    (c : Continuation) (a : TranscriptAnalysis) (p : StepTotals)
    → validate_steps c a ≡ ok p
    → steps_loop c c.messages a ≡ ok p
unfolding validate_steps
steps-loop c a p h = ground arith
