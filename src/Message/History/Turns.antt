-- ===== src/Message/History/Turns.antt =====
-- A transcript as a sequence of turns: what `validate_complete_turns` accepts
-- (message/history.go).
use go_hydaelyn.Prelude.{
  Result, ok, err, ℕ, zero, suc, ◌≤◌, ◌≡◌, refl, ap, ◌↔◌, Bool, true, false, Option, none, some,
  List, [], ◌∷◌, ◌++◌, arith, length, take, drop, set, replicate, Text, append_assoc,
  take-append-drop, length-take, append-nil, sym, take-length,
}
use go_hydaelyn.Prelude.Assoc.{Map}
use go_hydaelyn.Message.{ToolCall, Message}
use go_hydaelyn.Message.History.{
  match_results, validate_group, check_message, validate_from, validate_complete_turns, match_reply,
  TurnError, after_reply, index_calls, Indexed, duplicate, indexed, index_result, or_else,
  group_result,
}

-- One message with the tool results that answer its calls; none, if it makes no call.
pub record IsTurn (m : Message) (results : List Message) : Type 0 where
  pub checked : check_message 0 m ≡ none
  pub answered : length results ≡ length m.tool_calls
  pub matched : validate_group 0 m.tool_calls results ≡ none

pub data Turns : List Message → Type 0 where
  done : Turns []
  turn :
      (m : Message) (results rest ms : List Message)
      → IsTurn m results
      → Turns rest
      → ms ≡ m ∷ results ++ rest
      → Turns ms

match_reply-position :
    (calls : List ToolCall) (cm : Map Text ℕ) (p p' : ℕ) (matched : List Bool) (r : Message) (i : ℕ)
    → match_reply calls cm p matched r ≡ ok i
    → match_reply calls cm p' matched r ≡ ok i
unfolding match_reply
match_reply-position calls cm p p' matched r i h = ground arith

pub after_reply-eq-none :
    (x : Result TurnError ℕ) (rest : ℕ → Option TurnError)
    → after_reply x rest ≡ none
    → (i : ℕ) × (x ≡ ok i) × (rest i ≡ none)
after_reply-eq-none (err e) rest h = cc
after_reply-eq-none (ok i) rest h = (i, refl, h)

-- A group that is matched is matched wherever it stands and whatever follows it.
match_results-prefix :
    (calls : List ToolCall) (cm : Map Text ℕ) (g g' n p p' : ℕ) (matched : List Bool)
    (ms ys : List Message)
    → match_results calls cm g n p matched ms ≡ none
    → (n ≤ length ms) × (match_results calls cm g' n p' matched (take n ms ++ ys) ≡ none)
unfolding match_results
match_results-prefix calls cm g g' zero p p' matched ms ys h = (omega arith, refl)
match_results-prefix calls cm g g' (suc n) p p' matched [] ys h = cc
match_results-prefix calls cm g g' (suc n) p p' matched (r ∷ ms) ys h =
    let (i, replied, rest) = after_reply-eq-none (match_reply calls cm p matched r) _ h in
    let (fits, again) =
      match_results-prefix calls cm g g' n (suc p) (suc p') (set matched i true) ms ys rest in
    (omega arith, rw (match_reply-position calls cm p p' matched r i replied) again)

validate_group-prefix :
    (i j : ℕ) (calls : List ToolCall) (ms ys : List Message)
    → validate_group i calls ms ≡ none
    → (length calls ≤ length ms) × (validate_group j calls (take (length calls) ms ++ ys) ≡ none)
unfolding validate_group
validate_group-prefix i j calls ms ys h = go (index_calls 0 calls []) h
  where
    go :
        (m : Indexed)
        → index_result i calls ms m ≡ none
        → (length calls ≤ length ms)
          × (index_result j calls (take (length calls) ms ++ ys) m ≡ none)
    go (duplicate id) e = cc
    go (indexed m) e =
        match_results-prefix calls m i j (length calls) (suc i) (suc j)
          (replicate (length calls) false) ms ys e

check_message-position :
    (i j : ℕ) (m : Message) → check_message i m ≡ none → check_message j m ≡ none
unfolding check_message
check_message-position i j m h = ground arith

or_else-eq-none : (a b : Option TurnError) → or_else a b ≡ none → (a ≡ none) × (b ≡ none)
or_else-eq-none none b h = (refl, h)
or_else-eq-none (some e) b h = cc

group_result-eq-none :
    (i : ℕ) (calls : List ToolCall) (ms : List Message) (rest : Option TurnError)
    → group_result i calls ms rest ≡ none
    → (validate_group i calls ms ≡ none) × (rest ≡ none)
unfolding validate_group
group_result-eq-none i [] ms rest h = (refl, h)
group_result-eq-none i (c ∷ cs) ms rest h = or_else-eq-none (validate_group i (c ∷ cs) ms) rest h

-- A message that passes, its group and the turns behind it.
turn-cons :
    (i : ℕ) (m : Message) (ms : List Message)
    → check_message 0 m ≡ none
    → (validate_from (length m.tool_calls) (suc i) ms ≡ none
        → Turns (drop (length m.tool_calls) ms))
    → group_result i m.tool_calls ms (validate_from (length m.tool_calls) (suc i) ms) ≡ none
    → Turns (m ∷ ms)
turn-cons i m ms checked behind h =
    let (grouped, walked) = group_result-eq-none i m.tool_calls ms _ h in
    let (fits, matched) = validate_group-prefix i 0 m.tool_calls ms [] grouped in
    turn m (take (length m.tool_calls) ms) (drop (length m.tool_calls) ms) (m ∷ ms)
      (record {
        checked = checked;
        answered = length-take (length m.tool_calls) ms fits;
        matched = rw append-nil at matched;
      })
      (behind walked) (ap (◌∷◌ m) (sym (take-append-drop (length m.tool_calls) ms)))

-- The walk below: from a message boundary, or with the rest of a group to pass over.
Turns-of_validate :
    (skip i : ℕ) (ms : List Message) → validate_from skip i ms ≡ none → Turns (drop skip ms)
unfolding validate_from
Turns-of_validate zero i [] h = done
Turns-of_validate (suc skip) i [] h = done
Turns-of_validate (suc skip) i (m ∷ ms) h = Turns-of_validate skip (suc i) ms h
Turns-of_validate zero i (m ∷ ms) h =
    let (checked, later) = or_else-eq-none (check_message i m) _ h in
    turn-cons i m ms (check_message-position i 0 m checked)
      (Turns-of_validate (length m.tool_calls) (suc i) ms) later

-- A group's results are passed over.
validate_from-skip :
    (results rest : List Message) (i : ℕ)
    → ((j : ℕ) → validate_from 0 j rest ≡ none)
    → validate_from (length results) i (results ++ rest) ≡ none
unfolding validate_from
validate_from-skip [] rest i h = h i
validate_from-skip (r ∷ results) rest i h = validate_from-skip results rest (suc i) h

validate_group-append :
    (i : ℕ) (m : Message) (results rest : List Message)
    → IsTurn m results
    → validate_group i m.tool_calls (results ++ rest) ≡ none
validate_group-append i m results rest t =
    let whole : take (length m.tool_calls) results ≡ results =
      rw (← t.answered) (take-length results) in
    rw whole at (validate_group-prefix 0 i m.tool_calls results rest t.matched).1

group_result-of :
    (i : ℕ) (calls : List ToolCall) (ms : List Message) {rest : Option TurnError}
    → validate_group i calls ms ≡ none
    → rest ≡ none
    → group_result i calls ms rest ≡ none
group_result-of i [] ms g r = r
group_result-of i (c ∷ cs) ms g r = rw g r

-- Turns are accepted, at any index.
validate_of_Turns : {ms : List Message} → Turns ms → (i : ℕ) → validate_from 0 i ms ≡ none
unfolding validate_from
validate_of_Turns done i = refl
validate_of_Turns (turn m results rest ms t behind e) i =
    rw (e, check_message-position 0 i m t.checked)
      (group_result-of i m.tool_calls (results ++ rest) (validate_group-append i m results rest t) (
        rw (← t.answered)
          (validate_from-skip results rest (suc i) (λ j. validate_of_Turns behind j))))

pub validate_iff_Turns : (ms : List Message) → (validate_complete_turns ms ≡ none) ↔ Turns ms
unfolding validate_complete_turns
validate_iff_Turns ms = (Turns-of_validate 0 0 ms, λ t. validate_of_Turns t 0)

pub Turns-append : {xs ys : List Message} → Turns xs → Turns ys → Turns (xs ++ ys)
Turns-append done u = u
Turns-append {ys} (turn m results rest ms t behind e) u =
    turn m results (rest ++ ys) _ t (Turns-append behind u) (rw (e, append_assoc))

-- Two accepted transcripts are accepted one after the other.
validate-append :
    (xs ys : List Message)
    → validate_complete_turns xs ≡ none
    → validate_complete_turns ys ≡ none
    → validate_complete_turns (xs ++ ys) ≡ none
validate-append xs ys hx hy =
    (validate_iff_Turns (xs ++ ys)).1
      (Turns-append ((validate_iff_Turns xs).0 hx) ((validate_iff_Turns ys).0 hy))
