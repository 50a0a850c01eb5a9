-- ===== src/Agent/Analysis/Exchanges.antt =====
-- `analyzeTranscript` (agent/continuation.go) accepts the grammar of exchanges and nothing else.
use mathlib.Core.Bool.{not}
use go_hydaelyn.Prelude.{
  ℕ, zero, suc, ◌-◌, ◌≤◌, ◌<◌, nat_eq, text_eq_instance, Result, ok, true, false, some, List, [],
  ◌∷◌, length, get_elem?, drop, ◌≡◌, refl, sym, ap, ◌∙◌, inl, inr, Bool-cases, arith,
}
use go_hydaelyn.Message.{Role, ToolCall, Message}
use go_hydaelyn.Message.Content.{is_empty}
use go_hydaelyn.Message.History.{is_assistant, is_tool}
use go_hydaelyn.Agent.Analysis.{
  TranscriptError, TranscriptAnalysis, Scan, unscanned, scan_pending, scan_message, scan_step,
  scan_from, analyze_transcript, answered, quieted, seen_at, called, analysis_of,
}
use go_hydaelyn.Agent.Analysis.Naming.{and_then-eq-ok, empty_of_is_empty, AreNamed-check_calls}
use go_hydaelyn.Agent.Analysis.Grammar.{
  IsCalling, IsQuiet, Replies, Waits, ended, reply, quiet, call, Exchanges, remaining, IsLive,
  remaining-answered, Replies-scan_result, idle-remaining, scan_from-Waits,
}

-- The converse: a transcript of the grammar is scanned to its end.
abbrev pub Scanned : ℕ → List Message → Scan → List ToolCall → Type 0
Scanned index ms s open_calls =
    (s' : Scan) × (scan_from index ms s ≡ ok s') × IsLive s' × (remaining s' ≡ open_calls)

busy_of_remaining :
    (s : Scan) (c : ToolCall) (cs : List ToolCall)
    → remaining s ≡ c ∷ cs
    → (is_empty s.pending ≡ false)
      × (get_elem? s.pending s.pending_index ≡ some c)
      × (drop (suc s.pending_index) s.pending ≡ cs)
busy_of_remaining s c cs h = go s.pending s.pending_index h
  where
    go :
        (l : List ToolCall) (i : ℕ)
        → drop i l ≡ c ∷ cs
        → (is_empty l ≡ false) × (get_elem? l i ≡ some c) × (drop (suc i) l ≡ cs)
    go [] zero e = cc
    go [] (suc i) e = cc
    go (d ∷ l) zero e = (refl, ground arith, ground arith)
    go (d ∷ l) (suc i) e = let rest = go l i e in (refl, rest.1, rest.2)

drop-left : (l : List ToolCall) (i : ℕ) → i < length l → is_empty (drop i l) ≡ false
drop-left [] i b = absurd (omega arith)
drop-left (d ∷ l) zero b = refl
drop-left (d ∷ l) (suc i) b = drop-left l i (omega arith)

live_empty : (s : Scan) → IsLive s → is_empty s.pending ≡ is_empty (remaining s)
live_empty s live = go s.pending s.pending_index live
  where
    go : (l : List ToolCall) (i : ℕ) → i ≤ length l - 1 → is_empty l ≡ is_empty (drop i l)
    go [] zero b = refl
    go [] (suc i) b = refl
    go (d ∷ l) zero b = refl
    go (d ∷ l) (suc i) b = rw (drop-left l i (omega arith))

idle_of_remaining : (s : Scan) → IsLive s → remaining s ≡ [] → s.pending ≡ []
idle_of_remaining s live h = empty_of_is_empty s.pending (live_empty s live ∙ ap is_empty h)

step_from :
    (index : ℕ) (m : Message) (ms : List Message) (s s1 : Scan) (open_calls : List ToolCall)
    → scan_step index m s ≡ ok s1
    → Scanned (suc index) ms s1 open_calls
    → Scanned index (m ∷ ms) s open_calls
unfolding scan_from
step_from index m ms s s1 open_calls step (s', later, live, rest) = (s', rw step later, live, rest)

pending_step :
    (index : ℕ) (m : Message) (s : Scan) (c : ToolCall)
    → Replies c m
    → get_elem? s.pending s.pending_index ≡ some c
    → scan_pending index m s ≡ ok (answered s)
unfolding scan_pending
pending_step index m s c r found =
    rw (found, scan_pending) (rw (Replies-scan_result index c m r) refl)

pub reply_step :
    (index : ℕ) (m : Message) (s : Scan) (c : ToolCall) (cs : List ToolCall)
    → Replies c m
    → remaining s ≡ c ∷ cs
    → (scan_step index m s ≡ ok (answered s)) × IsLive (answered s) × (remaining (answered s) ≡ cs)
unfolding scan_step
reply_step index m s c cs r h =
    let (busy, found, rest) = busy_of_remaining s c cs h in
    let (live, e) = remaining-answered s c found in
    (rw busy (pending_step index m s c r found), live, rw e rest)

quiet_step :
    (index : ℕ) (m : Message) (s : Scan)
    → IsQuiet m
    → s.pending ≡ []
    → (s1 : Scan) × (scan_step index m s ≡ ok s1)
      × (s1.pending ≡ s.pending)
      × (s1.pending_index ≡ s.pending_index)
unfolding scan_step scan_message
quiet_step index m s q idle =
    let no_call = q.no_call in
    elim (Bool-cases (is_assistant m.role)) [
      | inl talks ↦ (
        seen_at index s,
        let none_made : is_empty m.tool_calls ≡ true = ground arith in
            rw (idle, q.no_result, talks, none_made),
        refl,
        refl,
      )
      | inr other ↦ (quieted s, rw (idle, q.no_result, other), refl, refl)
    ]

pub tool_is_no_assistant : (m : Message) → is_assistant m.role ≡ true → is_tool m.role ≡ false
unfolding is_tool is_assistant
tool_is_no_assistant m h = go m.role h
  where
    go : (r : Role) → is_assistant r ≡ true → is_tool r ≡ false
    go Role.system e = refl
    go Role.user e = refl
    go Role.assistant e = refl
    go Role.tool e = cc
    go Role.custom e = refl
    go (Role.other_role t) e = refl

call_step :
    (index : ℕ) (m : Message) (s : Scan)
    → IsCalling m
    → s.pending ≡ []
    → (s1 : Scan) × (scan_step index m s ≡ ok s1)
      × (s1.pending ≡ m.tool_calls)
      × (s1.pending_index ≡ s.pending_index)
unfolding scan_step scan_message
call_step index m s q idle =
    let (latest, named) =
      AreNamed-check_calls index 0 [] m.tool_calls s.max_operation_turn q.named in
    (
      called index m s latest,
      rw (idle, tool_is_no_assistant m q.from_assistant, q.from_assistant, q.calls_made, named),
      refl,
      refl,
    )

pub Waits-scan_from :
    {cs : List ToolCall} {ms : List Message} {open_calls : List ToolCall}
    → Waits cs ms open_calls
    → (index : ℕ) (s : Scan) → IsLive s
    → remaining s ≡ cs
    → Scanned index ms s open_calls
unfolding scan_from
Waits-scan_from (ended cs) index s live h = (s, refl, live, h)
Waits-scan_from (reply c cs m ms open_calls r w) index s live h =
    let (step, live', rest) = reply_step index m s c cs r h in
    step_from index m ms s (answered s) open_calls step
      (Waits-scan_from w (suc index) (answered s) live' rest)
Waits-scan_from (quiet m ms open_calls q w) index s live h =
    let idle = idle_of_remaining s live h in
    let (s1, step, same, at) = quiet_step index m s q idle in
    let idle1 : s1.pending ≡ [] = rw same idle in
    step_from index m ms s s1 open_calls step
      (Waits-scan_from w (suc index) s1 (rw (same, at) live) (idle-remaining s1 idle1))
Waits-scan_from (call m ms open_calls q w) index s live h =
    let idle = idle_of_remaining s live h in
    let (s1, step, calls, at) = call_step index m s q idle in
    let start : s1.pending_index ≡ 0 = ground arith in
    step_from index m ms s s1 open_calls step
      (Waits-scan_from w (suc index) s1 (omega arith) (rw (calls, start)))

ok_inj :
    {a b : TranscriptAnalysis}
    → ◌≡◌ {A = Result TranscriptError TranscriptAnalysis} (ok a) (ok b)
    → a ≡ b
ok_inj h = cc

-- `analyze_transcript` accepts exactly the transcripts of the grammar, and says whether they leave
-- calls without a result: an accepted transcript is one of complete exchanges up to the calls
-- that wait, and every transcript of complete exchanges is accepted.
pub analyze_iff_Exchanges :
    (ms : List Message)
    → ((a : TranscriptAnalysis)
        → analyze_transcript ms ≡ ok a
        → (open_calls : List ToolCall) × Exchanges ms open_calls
          × (a.pending ≡ not (is_empty open_calls)))
      × ((open_calls : List ToolCall)
          → Exchanges ms open_calls
          → (a : TranscriptAnalysis) × (analyze_transcript ms ≡ ok a)
            × (a.pending ≡ not (is_empty open_calls)))
unfolding analyze_transcript
analyze_iff_Exchanges ms = (
  λ a h.
      let (s, scanned, e) = and_then-eq-ok (scan_from 0 ms unscanned) (λ s. ok (analysis_of s)) h in
      let (live, w) = scan_from-Waits 0 ms unscanned s (omega arith) scanned in
      (remaining s, w, ap (λ x. x.pending) (sym (ok_inj e)) ∙ ap not (live_empty s live)),
  λ open_calls w.
      let (s, scanned, live, e) = Waits-scan_from w 0 unscanned (omega arith) refl in
      (analysis_of s, rw scanned refl, ap not (live_empty s live ∙ ap is_empty e)),
)
