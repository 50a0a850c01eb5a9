-- ===== src/Agent/Resumption/Partial.antt =====
-- A continuation whose pending calls are answered in part (agent/continuation.go, agent/resume.go).
use go_hydaelyn.Prelude.{
  ℕ, zero, suc, ◌+◌, ◌==◌, nat_eq, ok, Result, Bool, true, Option, none, some, List, [], ◌∷◌, ◌++◌,
  length, get_elem?, ◌≡◌, refl, ◌∙◌, ap, arith, Bool-cases, Option-cases, inl, inr,
}
use go_hydaelyn.Message.{ToolCall, Message}
use go_hydaelyn.Agent.{Step, Continuation, ContinuationPhase, model_complete}
use go_hydaelyn.Agent.Analysis.{
  TranscriptAnalysis, TranscriptError, Scan, unscanned, answered, analysis_of, scan_step, scan_from,
  analyze_transcript,
}
use go_hydaelyn.Agent.Analysis.Naming.{and_then-eq-ok}
use go_hydaelyn.Agent.Analysis.Grammar.{Exchanges, Replies, remaining}
use go_hydaelyn.Agent.Analysis.Exchanges.{Waits-scan_from, reply_step}
use go_hydaelyn.Agent.Scalars.{validate_scalars}
use go_hydaelyn.Agent.StepChecks.{StepTotals, validate_steps, validate_steps_from, assistant_at}
use go_hydaelyn.Agent.StepChecks.Counting.{step-split}
use go_hydaelyn.Agent.Validation.{
  validate_continuation, validate_totals, phase_transcript, phase_steps, last_of,
}
use go_hydaelyn.Agent.Validation.Accepted.{validate-Accepts, Accepts-validate, steps-loop}
use go_hydaelyn.Agent.Resumption.{resume_model_complete}

scan_from-append :
    (i : ℕ) (xs ys : List Message) (s s1 s2 : Scan)
    → scan_from i xs s ≡ ok s1
    → scan_from (i + length xs) ys s1 ≡ ok s2
    → scan_from i (xs ++ ys) s ≡ ok s2
unfolding scan_from
scan_from-append i [] ys s s1 s2 h k =
    let same : s ≡ s1 = ground arith in let at : i + 0 ≡ i = omega arith in rw same (rw at at k)
scan_from-append i (x ∷ xs) ys s s1 s2 h k =
    let (t, here, later) = and_then-eq-ok (scan_step i x s) (scan_from (suc i) xs) h in
    let at : i + suc (length xs) ≡ suc i + length xs = omega arith in
    rw here (scan_from-append (suc i) xs ys t s1 s2 later (rw at at k))

-- The first of several pending calls is answered: the others stay.
answered-pending :
    (s : Scan) (c : ToolCall) (left : List ToolCall)
    → remaining (answered s) ≡ c ∷ left
    → answered s ≡ record s { ends_with_tool_results = true; pending_index = suc s.pending_index }
answered-pending s c left h = elim (Bool-cases (suc s.pending_index == length s.pending)) [
  | inl last ↦ absurd (ground arith)
  | inr more ↦ rw more
]

get_elem?-append {ℓ} :
    {A : Type ℓ} (xs ys : List A) (i : ℕ) (x : A)
    → get_elem? xs i ≡ some x
    → get_elem? (xs ++ ys) i ≡ some x
get_elem?-append [] ys i x h = cc
get_elem?-append (y ∷ xs) ys zero x h = h
get_elem?-append (y ∷ xs) ys (suc i) x h = get_elem?-append xs ys i x h

assistant_at-append :
    (ms ys : List Message) (indices : List ℕ) (at : ℕ) (m : Message)
    → assistant_at ms indices at ≡ some m
    → assistant_at (ms ++ ys) indices at ≡ some m
assistant_at-append ms ys indices at m h = go (get_elem? indices at) h
  where
    go :
        (o : Option ℕ)
        → elim o as (λ _. Option Message) [ none ↦ none | some j ↦ get_elem? ms j ] ≡ some m
        → elim o as (λ _. Option Message) [ none ↦ none | some j ↦ get_elem? (ms ++ ys) j ] ≡ some m
    go none e = cc
    go (some j) e = get_elem?-append ms ys j m e

steps-append :
    (phase : ContinuationPhase) (ms ys : List Message) (indices : List ℕ) (index turn at : ℕ)
    (steps : List Step) (p p' : StepTotals)
    → validate_steps_from phase ms indices index turn at steps p ≡ ok p'
    → validate_steps_from phase (ms ++ ys) indices index turn at steps p ≡ ok p'
unfolding validate_steps_from
steps-append phase ms ys indices index turn at [] p p' h = h
steps-append phase ms ys indices index turn at (s ∷ steps) p p' h =
    let (m, q, found, here, later) = step-split phase ms indices index turn at s steps p p' h in
    rw (assistant_at-append ms ys indices at m found)
      (rw here (steps-append phase ms ys indices (suc index) (suc turn) (suc at) steps q p' later))

-- the continuation with one more message
abbrev pub with_reply : Continuation → Message → Continuation
with_reply c r = record c { messages = c.messages ++ r ∷ [] }

abbrev ended_by_result : TranscriptAnalysis → TranscriptAnalysis
ended_by_result a = record a { ends_with_tool_results = true }

abbrev analyzed_ok : TranscriptAnalysis → Result TranscriptError TranscriptAnalysis
analyzed_ok a = ok a

analysis-is :
    (s : Scan) (a : TranscriptAnalysis) → analyzed_ok (analysis_of s) ≡ ok a → analysis_of s ≡ a
analysis-is s a h = cc

scan_from-one :
    (i : ℕ) (r : Message) (s s' : Scan) → scan_step i r s ≡ ok s' → scan_from i (r ∷ []) s ≡ ok s'
unfolding scan_from
scan_from-one i r s s' e = rw e

-- The analysis of the longer transcript is the same but for its end.
analyze-reply :
    (ms : List Message) (r : Message) (c0 c1 : ToolCall) (left : List ToolCall)
    (a : TranscriptAnalysis)
    → analyze_transcript ms ≡ ok a
    → Exchanges ms (c0 ∷ c1 ∷ left)
    → Replies c0 r
    → analyze_transcript (ms ++ r ∷ []) ≡ ok (ended_by_result a)
unfolding analyze_transcript
analyze-reply ms r c0 c1 left a h w reply_to =
    let (s, scanned, live, rest) = Waits-scan_from w 0 unscanned (omega arith) refl in
    let (step, _, rest') = reply_step (0 + length ms) r s c0 (c1 ∷ left) reply_to rest in
    let longer =
      scan_from-append 0 ms (r ∷ []) unscanned s (answered s) scanned
        (scan_from-one (0 + length ms) r s (answered s) step) in
    let same : analysis_of s ≡ a = analysis-is s a (rw scanned at h) in
    rw (longer, answered-pending s c1 left rest') (ap (λ x. analyzed_ok (ended_by_result x)) same)

steps-reply :
    (c : Continuation) (r : Message) (a : TranscriptAnalysis) (p : StepTotals)
    → validate_steps c a ≡ ok p
    → validate_steps (with_reply c r) (ended_by_result a) ≡ ok p
unfolding validate_steps
steps-reply c r a p h =
    let loop =
      steps-append c.phase c.messages (r ∷ []) a.assistant_indices 0 _ _ c.steps _ p
        (steps-loop c a p h) in
    ground arith

last-append {ℓ} : {A : Type ℓ} (xs : List A) (x : A) → last_of (xs ++ x ∷ []) ≡ some x
unfolding last_of
last-append [] x = refl
last-append (y ∷ []) x = refl
last-append (y ∷ z ∷ xs) x = last-append (z ∷ xs) x

-- The checks that read neither the messages nor the transcript's end.
scalars-reply :
    (valid_json : List ℕ → Bool) (c : Continuation) (r : Message)
    → validate_scalars valid_json (with_reply c r) ≡ validate_scalars valid_json c
unfolding validate_scalars
scalars-reply valid_json c r = refl

totals-reply :
    (c : Continuation) (r : Message) (a : TranscriptAnalysis) (p : StepTotals)
    → validate_totals (with_reply c r) (ended_by_result a) p ≡ validate_totals c a p
unfolding validate_totals
totals-reply c r a p = refl

phase_transcript-reply :
    (phase : ContinuationPhase) (ms ms' : List Message) (a : TranscriptAnalysis)
    → phase ≡ model_complete
    → phase_transcript phase ms' (ended_by_result a) ≡ phase_transcript phase ms a
unfolding phase_transcript
phase_transcript-reply phase ms ms' a e = rw e refl

phase_steps-reply :
    (phase : ContinuationPhase) (s : Option Step) (a : TranscriptAnalysis)
    → phase ≡ model_complete
    → phase_steps phase s (ended_by_result a) ≡ phase_steps phase s a
unfolding phase_steps
phase_steps-reply phase none a e = rw e refl
phase_steps-reply phase (some s) a e = rw e refl

no_call_panics :
    (c : Continuation) (m : Message)
    → last_of c.messages ≡ some m
    → m.tool_calls ≡ []
    → resume_model_complete c ≡ none
unfolding resume_model_complete
no_call_panics c m e no_calls = elim (Option-cases (last_of c.steps)) [
  | inl no_step ↦ rw (e, no_step) refl
  | inr (step, found) ↦ rw (e, found, no_calls) refl
]

-- An accepted continuation in the phase `model_complete` with two calls or more pending is still
-- accepted when the first of them has its result, but resuming it panics: the last message, whose
-- calls are executed, is then a result and makes no call.
pub partial_answer_panics :
    (valid_json : List ℕ → Bool) (c : Continuation) (r : Message) (c0 c1 : ToolCall)
    (left : List ToolCall)
    → validate_continuation valid_json c ≡ none
    → c.phase ≡ model_complete
    → Exchanges c.messages (c0 ∷ c1 ∷ left)
    → Replies c0 r
    → r.tool_calls ≡ []
    → (validate_continuation valid_json (with_reply c r) ≡ none)
      × (resume_model_complete (with_reply c r) ≡ none)
partial_answer_panics valid_json c r c0 c1 left h phase w reply_to no_calls =
    let a = validate-Accepts valid_json c h in
    (
      Accepts-validate valid_json (with_reply c r) (record {
        version = a.version;
        scalars = scalars-reply valid_json c r ∙ a.scalars;
        analysis = ended_by_result a.analysis;
        transcript = analyze-reply c.messages r c0 c1 left a.analysis a.transcript w reply_to;
        phase_fits =
            phase_transcript-reply c.phase c.messages (c.messages ++ r ∷ []) a.analysis phase
            ∙ a.phase_fits;
        progress = a.progress;
        steps = steps-reply c r a.analysis a.progress a.steps;
        totals = totals-reply c r a.analysis a.progress ∙ a.totals;
        phase_step = phase_steps-reply c.phase (last_of c.steps) a.analysis phase ∙ a.phase_step;
      }),
      no_call_panics (with_reply c r) r (last-append c.messages r) no_calls,
    )
