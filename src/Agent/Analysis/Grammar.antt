-- ===== src/Agent/Analysis/Grammar.antt =====
-- The transcripts that `analyzeTranscript` (agent/continuation.go) accepts, as a grammar: the
-- results of a turn's calls follow at once and in the order of the calls.
use mathlib.Core.Bool.{not}
use go_hydaelyn.Prelude.{
  ℕ, zero, suc, ◌-◌, ◌≤◌, ◌<◌, ◌==◌, nat_eq, text_eq_instance, text_eq_iff, ok, true, false, ◌&&◌,
  Option, none, some, List, [], ◌∷◌, length, get_elem?, drop, ◌≡◌, refl, inl, inr, Bool-cases,
  Option-cases, arith,
}
use go_hydaelyn.Message.{ToolCall, ToolResult, Message}
use go_hydaelyn.Message.Content.{is_empty}
use go_hydaelyn.Message.History.{is_assistant, is_tool}
use go_hydaelyn.Agent.Analysis.{
  TranscriptError, Scan, check_calls, scan_result, scan_pending, scan_message, scan_step, scan_from,
  and_then, answered, or_fail, called,
}
use go_hydaelyn.Agent.Analysis.Naming.{
  AreNamed, and_then-eq-ok, empty_of_is_empty, check_calls-AreNamed,
}

-- an assistant's turn that makes calls
pub record IsCalling (m : Message) : Type 0 where
  pub from_assistant : is_assistant m.role ≡ true
  pub calls_made : is_empty m.tool_calls ≡ false
  pub named : AreNamed 0 [] m.tool_calls

-- a message that makes no call and is no result
pub record IsQuiet (m : Message) : Type 0 where
  pub no_result : is_tool m.role ≡ false
  pub no_call : is_assistant m.role && not (is_empty m.tool_calls) ≡ false

-- a result for the call
pub record Replies (c : ToolCall) (m : Message) : Type 0 where
  pub from_tool : is_tool m.role ≡ true
  pub result : ToolResult
  pub given : m.tool_result ≡ some result
  pub to_call : result.tool_call_id ≡ c.id

-- `Waits calls ms open`: the results of `calls` come first in `ms`, and after `ms` those of `open`
-- are still to come.
pub data Waits : List ToolCall → List Message → List ToolCall → Type 0 where
  ended : (calls : List ToolCall) → Waits calls [] calls
  reply :
      (c : ToolCall) (calls : List ToolCall) (m : Message) (ms : List Message)
      (open_calls : List ToolCall)
      → Replies c m
      → Waits calls ms open_calls
      → Waits (c ∷ calls) (m ∷ ms) open_calls
  quiet :
      (m : Message) (ms : List Message) (open_calls : List ToolCall)
      → IsQuiet m
      → Waits [] ms open_calls
      → Waits [] (m ∷ ms) open_calls
  call :
      (m : Message) (ms : List Message) (open_calls : List ToolCall)
      → IsCalling m
      → Waits m.tool_calls ms open_calls
      → Waits [] (m ∷ ms) open_calls

-- A transcript whose last turn leaves these calls without a result.
abbrev pub Exchanges : List Message → List ToolCall → Type 0
Exchanges ms open_calls = Waits [] ms open_calls

-- the calls whose results are still to come
abbrev pub remaining : Scan → List ToolCall
remaining s = drop s.pending_index s.pending

-- The index stands at a call, if there are any.
abbrev pub IsLive : Scan → Type 0
IsLive s = s.pending_index ≤ length s.pending - 1

drop-at :
    (cs : List ToolCall) (i : ℕ) (c : ToolCall)
    → get_elem? cs i ≡ some c
    → drop i cs ≡ c ∷ drop (suc i) cs
drop-at [] i c h = cc
drop-at (d ∷ cs) zero c h = cc
drop-at (d ∷ cs) (suc i) c h = drop-at cs i c h

drop-all : (cs : List ToolCall) (i : ℕ) → length cs ≡ i → drop i cs ≡ []
drop-all [] zero h = refl
drop-all [] (suc i) h = refl
drop-all (c ∷ cs) zero h = absurd (omega arith)
drop-all (c ∷ cs) (suc i) h = drop-all cs i (omega arith)

get_elem?-lt : (cs : List ToolCall) (i : ℕ) (c : ToolCall) → get_elem? cs i ≡ some c → i < length cs
get_elem?-lt [] i c h = cc
get_elem?-lt (d ∷ cs) zero c h = omega arith
get_elem?-lt (d ∷ cs) (suc i) c h = omega (arith, get_elem?-lt cs i c h)

pub remaining-answered :
    (s : Scan) (c : ToolCall)
    → get_elem? s.pending s.pending_index ≡ some c
    → IsLive (answered s) × (remaining (answered s) ≡ drop (suc s.pending_index) s.pending)
remaining-answered s c found =
    let below = get_elem?-lt s.pending s.pending_index c found in
    elim (Bool-cases (suc s.pending_index == length s.pending)) [
      | inl last ↦
          let full : length s.pending ≡ suc s.pending_index = ground arith in
          rw last (omega arith, rw (drop-all s.pending (suc s.pending_index) full))
      | inr more ↦ rw more (ground arith, refl)
    ]

pub scan_result-Replies :
    (index : ℕ) (c : ToolCall) (m : Message) → scan_result index c m ≡ none → Replies c m
unfolding scan_result
scan_result-Replies index c m h = elim (Option-cases m.tool_result) [
  | inl absent ↦ absurd (ground arith)
  | inr (r, given) ↦ record {
    from_tool = ground arith;
    result = r;
    given = given;
    to_call = ground (arith, text_eq_iff r.tool_call_id c.id);
  }
]

pub Replies-scan_result :
    (index : ℕ) (c : ToolCall) (m : Message) → Replies c m → scan_result index c m ≡ none
unfolding scan_result
Replies-scan_result index c m r =
    rw (r.from_tool, r.given, (text_eq_iff r.result.tool_call_id c.id).1 r.to_call)

pub or_fail-eq-ok {ℓ} :
    {A : Type ℓ} (o : Option TranscriptError) (a : A) {b : A}
    → or_fail o a ≡ ok b
    → (o ≡ none) × (a ≡ b)
or_fail-eq-ok none a h = (refl, ground arith)
or_fail-eq-ok (some e) a h = cc

-- What a step does to the calls that wait.
record Goes (m : Message) (s s' : Scan) : Type 0 where
  live : IsLive s'
  waits :
      (ms : List Message) (open_calls : List ToolCall)
      → Waits (remaining s') ms open_calls
      → Waits (remaining s) (m ∷ ms) open_calls

scan_pending-Goes :
    (index : ℕ) (m : Message) (s s' : Scan) → scan_pending index m s ≡ ok s' → Goes m s s'
unfolding scan_pending
scan_pending-Goes index m s s' h = elim (Option-cases (get_elem? s.pending s.pending_index)) [
  | inl out ↦ absurd (ground arith)
  | inr (c, found) ↦
      let (passes, e) =
        or_fail-eq-ok (scan_result index c m) (answered s) (rw (found, scan_pending) at h) in
      let (live, rest) = remaining-answered s c found in
      rw (← e) (record {
        live = live;
        waits = λ ms open_calls w.
            rw (drop-at s.pending s.pending_index c found)
              (reply c _ m ms open_calls (scan_result-Replies index c m passes) (rw rest at w));
      })
]

abbrev no_calls : List ToolCall
no_calls = []

drop-nil : (i : ℕ) → drop i no_calls ≡ []
drop-nil zero = refl
drop-nil (suc i) = refl

pub idle-remaining : (s : Scan) → s.pending ≡ [] → remaining s ≡ []
idle-remaining s idle = rw idle (drop-nil s.pending_index)

quiet-Goes :
    (m : Message) (s s' : Scan)
    → IsQuiet m
    → s.pending ≡ []
    → s'.pending ≡ []
    → s'.pending_index ≡ 0
    → Goes m s s'
quiet-Goes m s s' q idle idle' start = record {
  live = omega arith;
  waits = λ ms open_calls w.
      rw (idle-remaining s idle) (quiet m ms open_calls q (rw (idle-remaining s' idle') at w));
}

calling-Goes :
    (m : Message) (s s' : Scan)
    → IsCalling m
    → s.pending ≡ []
    → s'.pending ≡ m.tool_calls
    → s'.pending_index ≡ 0
    → Goes m s s'
calling-Goes m s s' q idle calls start =
    let all : remaining s' ≡ m.tool_calls = rw (calls, start) in
    record {
      live = omega arith;
      waits = λ ms open_calls w. rw (idle-remaining s idle) (call m ms open_calls q (rw all at w));
    }

-- a message between the exchanges
scan_message-Goes :
    (index : ℕ) (m : Message) (s s' : Scan)
    → s.pending ≡ []
    → IsLive s
    → scan_message index m s ≡ ok s'
    → Goes m s s'
unfolding scan_message
scan_message-Goes index m s s' idle live h =
    let start : s.pending_index ≡ 0 = ground arith in
    elim (Bool-cases (is_assistant m.role && not (is_empty m.tool_calls))) [
      | inr plain ↦
          quiet-Goes m s s' (record { no_result = ground arith; no_call = plain }) idle
            (ground arith) (ground arith)
      | inl calls ↦
          let checked : and_then (check_calls index 0 [] m.tool_calls s.max_operation_turn)
                (λ latest. ok (called index m s latest))
              ≡ ok s' =
            ground arith in
          let (latest, named, last) =
            and_then-eq-ok (check_calls index 0 [] m.tool_calls s.max_operation_turn)
              (λ latest. ok (called index m s latest)) checked in
          let after : called index m s latest ≡ s' = ground arith in
          calling-Goes m s s'
            (record {
              from_assistant = ground arith;
              calls_made = ground arith;
              named =
                  check_calls-AreNamed index 0 [] m.tool_calls s.max_operation_turn latest named;
            })
            idle (rw (← after) refl) (rw (← after) start)
    ]

scan_step-Goes :
    (index : ℕ) (m : Message) (s s' : Scan) → IsLive s → scan_step index m s ≡ ok s' → Goes m s s'
unfolding scan_step
scan_step-Goes index m s s' live h = elim (Bool-cases (is_empty s.pending)) [
  | inl idle ↦
      scan_message-Goes index m s s' (empty_of_is_empty s.pending idle) live
        (rw (idle, scan_step) at h)
  | inr busy ↦ scan_pending-Goes index m s s' (rw (busy, scan_step) at h)
]

pub scan_from-Waits :
    (index : ℕ) (ms : List Message) (s s' : Scan)
    → IsLive s
    → scan_from index ms s ≡ ok s'
    → IsLive s' × Waits (remaining s) ms (remaining s')
unfolding scan_from
scan_from-Waits index [] s s' live h =
    let e : s ≡ s' = ground arith in rw (← e) (live, ended (remaining s))
scan_from-Waits index (m ∷ ms) s s' live h =
    let (s1, here, later) = and_then-eq-ok (scan_step index m s) (scan_from (suc index) ms) h in
    let step = scan_step-Goes index m s s1 live here in
    let (live', w) = scan_from-Waits (suc index) ms s1 s' step.live later in
    (live', step.waits ms (remaining s') w)
