-- ===== src/Agent/Analysis/Latest.antt =====
-- The latest operation turn that `analyzeTranscript` finds (agent/continuation.go).
use go_hydaelyn.Prelude.{
  ℕ, suc, ◌≤◌, ◌==◌, nat_eq, ok, true, false, some, List, [], ◌∷◌, length, get_elem?, ◌≡◌, ◌≢◌,
  refl, sym, ◌∙◌, ap, arith, Bool-cases, Option-cases, inl, inr, Text, lit, All,
}
use go_hydaelyn.Prelude.Int.{ℤ, pos, negsuc, int_ltb, int_max}
use go_hydaelyn.Message.{ToolCall, Message}
use go_hydaelyn.Message.Content.{is_empty}
use go_hydaelyn.Message.History.{is_assistant, is_tool}
use go_hydaelyn.Agent.Operations.{operation_id, scan_operation_id, scan-operation_id}
use go_hydaelyn.Agent.Analysis.{
  TranscriptAnalysis, Scan, unscanned, answered, analysis_of, scan_step, scan_from, scan_pending,
  scan_message, analyze_transcript, and_then, check_call, check_calls, operation_turn, max_turn,
  scan_result, called,
}
use go_hydaelyn.Agent.Analysis.Naming.{and_then-eq-ok, empty_of_is_empty, operation_turn-printed}
use go_hydaelyn.Agent.Analysis.Grammar.{or_fail-eq-ok, scan_result-Replies}
use go_hydaelyn.Agent.Analysis.Exchanges.{tool_is_no_assistant}

abbrev pub AtMost : ℤ → ℤ → Type 0
AtMost a b = int_ltb b a ≡ false

AtMost-trans : (a b c : ℤ) → AtMost a b → AtMost b c → AtMost a c
AtMost-trans (pos a) (pos b) (pos c) h k = ground arith
AtMost-trans (pos a) (pos b) (negsuc c) h k = cc
AtMost-trans (pos a) (negsuc b) c h k = cc
AtMost-trans (negsuc a) b (pos c) h k = refl
AtMost-trans (negsuc a) (pos b) (negsuc c) h k = cc
AtMost-trans (negsuc a) (negsuc b) (negsuc c) h k = ground arith

AtMost-refl : (a : ℤ) → AtMost a a
AtMost-refl (pos a) = ground arith
AtMost-refl (negsuc a) = ground arith

max_turn-AtMost : (m : ℤ) (t : ℕ) → AtMost m (max_turn m t) × AtMost (pos t) (max_turn m t)
max_turn-AtMost (pos m) t = ground arith
max_turn-AtMost (negsuc m) t = (refl, AtMost-refl (pos t))

-- the call has the operation ID of no later turn
abbrev pub Below : ℤ → ToolCall → Type 0
Below latest c =
    (turn slot : ℕ)
    → turn ≤ int_max
    → slot ≤ int_max
    → c.operation_id ≡ operation_id turn slot
    → AtMost (pos turn) latest

Below-later : (a b : ℤ) → AtMost a b → (cs : List ToolCall) → All (Below a) cs → All (Below b) cs
Below-later a b h [] all = tt
Below-later a b h (c ∷ cs) all = (
  λ turn slot ht hs e. AtMost-trans (pos turn) a b (all.0 turn slot ht hs e) h,
  Below-later a b h cs all.1,
)

operation_id-injective :
    (t n t' n' : ℕ)
    → t ≤ int_max
    → n ≤ int_max
    → t' ≤ int_max
    → n' ≤ int_max
    → operation_id t n ≡ operation_id t' n'
    → t ≡ t'
operation_id-injective t n t' n' a b a' b' e =
    let one = scan-operation_id t n a b in
    let two = scan-operation_id t' n' a' b' in
    let both : scan_operation_id (operation_id t n) ≡ some (t', n') = rw e two in ground arith

operation_id-given : (t n : ℕ) → operation_id t n ≢ []
unfolding operation_id lit
operation_id-given t n e = cc

check_call-Below :
    (index slot : ℕ) (seen : List Text) (c : ToolCall) (latest latest' : ℤ)
    → check_call index slot seen c latest ≡ ok latest'
    → AtMost latest latest' × Below latest' c
unfolding check_call
check_call-Below index slot seen c latest latest' h = elim (Bool-cases (is_empty c.operation_id)) [
  | inl none_given ↦
      let same : latest ≡ latest' = ground arith in
      rw (← same) (
        AtMost-refl latest,
        λ turn n ht hn e.
            absurd
              (operation_id-given turn n (sym e ∙ empty_of_is_empty c.operation_id none_given)),
      )
  | inr given ↦ elim (Option-cases (operation_turn slot c.operation_id)) [
    | inl invalid ↦ absurd (ground arith)
    | inr (t, read) ↦
        let (ht, hs, e) = operation_turn-printed slot c.operation_id t read in
        let same : max_turn latest t ≡ latest' = ground arith in
        let (up, at) = max_turn-AtMost latest t in
        rw (← same) (
          up,
          λ turn n ht' hn' e'.
              let is : t ≡ turn = operation_id-injective t slot turn n ht hs ht' hn' (sym e ∙ e') in
              rw (← is) at,
        )
  ]
]

check_calls-Below :
    (index slot : ℕ) (seen : List Text) (cs : List ToolCall) (latest latest' : ℤ)
    → check_calls index slot seen cs latest ≡ ok latest'
    → AtMost latest latest' × All (Below latest') cs
unfolding check_calls
check_calls-Below index slot seen [] latest latest' h =
    let same : latest ≡ latest' = ground arith in rw (← same) (AtMost-refl latest, tt)
check_calls-Below index slot seen (c ∷ cs) latest latest' h =
    let (next, here, later) =
      and_then-eq-ok (check_call index slot seen c latest)
        (check_calls index (suc slot) (c.id ∷ seen) cs) h in
    let (up, below) = check_call-Below index slot seen c latest next here in
    let (up', all) = check_calls-Below index (suc slot) (c.id ∷ seen) cs next latest' later in
    (
      AtMost-trans latest next latest' up up',
      (λ turn n ht hn e. AtMost-trans (pos turn) next latest' (below turn n ht hn e) up', all),
    )

-- What a step does to the latest turn.
record Covers (m : Message) (s s' : Scan) : Type 0 where
  up : AtMost s.max_operation_turn s'.max_operation_turn
  below : is_assistant m.role ≡ true → All (Below s'.max_operation_turn) m.tool_calls

answered-turn : (s : Scan) → (answered s).max_operation_turn ≡ s.max_operation_turn
answered-turn s = elim (Bool-cases (suc s.pending_index == length s.pending)) [
  | inl last ↦ rw last
  | inr more ↦ rw more
]

no_assistant-Covers :
    (m : Message) (s s' : Scan)
    → is_assistant m.role ≡ false
    → s.max_operation_turn ≡ s'.max_operation_turn
    → Covers m s s'
no_assistant-Covers m s s' other same = record {
  up = rw same (AtMost-refl s'.max_operation_turn);
  below = λ talks. absurd (ground arith);
}

tool_talks_not : (m : Message) → is_tool m.role ≡ true → is_assistant m.role ≡ false
tool_talks_not m h = elim (Bool-cases (is_assistant m.role)) [
  | inl talks ↦ let no_tool = tool_is_no_assistant m talks in cc
  | inr other ↦ other
]

scan_pending-Covers :
    (index : ℕ) (m : Message) (s s' : Scan) → scan_pending index m s ≡ ok s' → Covers m s s'
unfolding scan_pending
scan_pending-Covers index m s s' h = elim (Option-cases (get_elem? s.pending s.pending_index)) [
  | inl out ↦ absurd (ground arith)
  | inr (c, found) ↦
      let (passes, e) =
        or_fail-eq-ok (scan_result index c m) (answered s) (rw (found, scan_pending) at h) in
      let reply_to = scan_result-Replies index c m passes in
      no_assistant-Covers m s s' (tool_talks_not m reply_to.from_tool)
        (sym (answered-turn s) ∙ ap (λ x. x.max_operation_turn) e)
]

All-empty : (latest : ℤ) (cs : List ToolCall) → is_empty cs ≡ true → All (Below latest) cs
All-empty latest [] h = tt
All-empty latest (c ∷ cs) h = cc

scan_message-Covers :
    (index : ℕ) (m : Message) (s s' : Scan) → scan_message index m s ≡ ok s' → Covers m s s'
unfolding scan_message
scan_message-Covers index m s s' h = elim (Bool-cases (is_assistant m.role)) [
  | inr other ↦ no_assistant-Covers m s s' other (ground arith)
  | inl talks ↦ elim (Bool-cases (is_empty m.tool_calls)) [
    | inl quiet ↦
        let same : s.max_operation_turn ≡ s'.max_operation_turn = ground arith in
        record {
          up = rw same (AtMost-refl s'.max_operation_turn);
          below = λ _. All-empty _ m.tool_calls quiet;
        }
    | inr calls ↦
        let checked : and_then (check_calls index 0 [] m.tool_calls s.max_operation_turn)
              (λ latest. ok (called index m s latest))
            ≡ ok s' =
          ground arith in
        let (latest, named, last) =
          and_then-eq-ok (check_calls index 0 [] m.tool_calls s.max_operation_turn)
            (λ latest. ok (called index m s latest)) checked in
        let after : latest ≡ s'.max_operation_turn = ground arith in
        let (up, all) =
          check_calls-Below index 0 [] m.tool_calls s.max_operation_turn latest named in
        record { up = rw (← after) up; below = λ _. rw (← after) all }
  ]
]

scan_step-Covers :
    (index : ℕ) (m : Message) (s s' : Scan) → scan_step index m s ≡ ok s' → Covers m s s'
unfolding scan_step
scan_step-Covers index m s s' h = elim (Bool-cases (is_empty s.pending)) [
  | inl idle ↦ scan_message-Covers index m s s' (rw (idle, scan_step) at h)
  | inr busy ↦ scan_pending-Covers index m s s' (rw (busy, scan_step) at h)
]

-- the calls of all assistants' messages
abbrev pub AllBelow : ℤ → List Message → Type 0
AllBelow latest = All (λ m. is_assistant m.role ≡ true → All (Below latest) m.tool_calls)

scan_from-Covers :
    (index : ℕ) (ms : List Message) (s s' : Scan)
    → scan_from index ms s ≡ ok s'
    → AtMost s.max_operation_turn s'.max_operation_turn × AllBelow s'.max_operation_turn ms
unfolding scan_from
scan_from-Covers index [] s s' h =
    let same : s ≡ s' = ground arith in rw (← same) (AtMost-refl s.max_operation_turn, tt)
scan_from-Covers index (m ∷ ms) s s' h =
    let (s1, here, later) = and_then-eq-ok (scan_step index m s) (scan_from (suc index) ms) h in
    let step = scan_step-Covers index m s s1 here in
    let (up, all) = scan_from-Covers (suc index) ms s1 s' later in
    (
      AtMost-trans _ s1.max_operation_turn _ step.up up,
      (
        λ talks.
            Below-later s1.max_operation_turn s'.max_operation_turn up m.tool_calls
              (step.below talks),
        all,
      ),
    )

pub analyzed-AllBelow :
    (ms : List Message) (a : TranscriptAnalysis)
    → analyze_transcript ms ≡ ok a
    → AllBelow a.max_operation_turn ms
unfolding analyze_transcript
analyzed-AllBelow ms a h =
    let (s, scanned, e) = and_then-eq-ok (scan_from 0 ms unscanned) (λ s. ok (analysis_of s)) h in
    let latest : s.max_operation_turn ≡ a.max_operation_turn = ground arith in
    rw (← latest) (scan_from-Covers 0 ms unscanned s scanned).1
