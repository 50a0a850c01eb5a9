-- ===== src/Message/History.antt =====
-- Transcript validation and cut points (message/history.go). A loop `for index := 0; index <
-- len(messages);` walks the list with its index; `skip` counts the messages that the last
-- `index += n` passes over.
pub mod Turns
pub mod Matching
pub mod Boundary
use mathlib.Core.Bool.{not}
use go_hydaelyn.Prelude.{
  ℕ, zero, suc, ◌+◌, ltb, ◌==◌, nat_eq, Result, ok, err, Bool, true, false, ◌&&◌, Option, none,
  some, List, [], ◌∷◌, Text, nat_eq, text_eq_instance, length, replicate, get_or, set,
  if◌then◌else◌,
}
use go_hydaelyn.Prelude.Assoc.{Map, get, put}
use go_hydaelyn.Prelude.Int.{ℤ, pos, negsuc}
use go_hydaelyn.Message.{Role, assistant, tool, ToolCall, Message}
use go_hydaelyn.Message.Content.{is_empty, is_none}

-- The reasons that `incompleteToolTurn` is given.
pub data Reason : Type 0 where
  calls_require_assistant results_require_tool no_result orphan_result : Reason
  incomplete_suffix non_tool_message unmatched_result : Reason
  duplicate_call : Text → Reason

-- `ErrIncompleteToolTurn` with the message's index
pub record TurnError : Type 0 where
  pub index : ℕ
  pub reason : Reason

abbrev pub incomplete_tool_turn : ℕ → Reason → Option TurnError
incomplete_tool_turn i r = some (record { index = i; reason = r })

unfoldable pub is_assistant : Role → Bool
is_assistant assistant = true
is_assistant _ = false

unfoldable pub is_tool : Role → Bool
is_tool tool = true
is_tool _ = false

-- The first index from `i` on whose call is not matched and passes the test: the two loops of
-- `unmatchedCallIndex`. `none` is the source's -1.
unfoldable pub first_unmatched : (ToolCall → Bool) → ℕ → List ToolCall → List Bool → Option ℕ
first_unmatched p i [] matched = none
first_unmatched p i (c ∷ cs) [] = none
first_unmatched p i (c ∷ cs) (b ∷ bs) =
    if not b && p c then some i else first_unmatched p (suc i) cs bs

-- `resultID != ""`
unfoldable pub id_index : List ToolCall → List Bool → Map Text ℕ → Text → Option ℕ
unfolding first_unmatched
id_index calls matched call_indexes result_id = elim (get call_indexes result_id) [
  | none ↦ first_unmatched (λ c. is_empty c.id) 0 calls matched
  | some i ↦
      if get_or matched i true then first_unmatched (λ c. is_empty c.id) 0 calls matched else some i
]

unfoldable pub unmatched_call_index : List ToolCall → List Bool → Map Text ℕ → Text → Option ℕ
unfolding id_index
unmatched_call_index calls matched call_indexes result_id =
    if is_empty result_id
    then first_unmatched (λ c. true) 0 calls matched
    else id_index calls matched call_indexes result_id

-- The loop that fills `callIndexes`; the left side is a duplicate ID.
pub data Indexed : Type 0 where
  duplicate : Text → Indexed
  indexed : Map Text ℕ → Indexed

unfoldable pub index_calls : ℕ → List ToolCall → Map Text ℕ → Indexed
index_calls i [] m = indexed m
index_calls i (c ∷ cs) m =
    let present = get m c.id in
    let next = index_calls (suc i) cs (if is_empty c.id then m else put m c.id i) in
    if is_empty c.id then next else elim present [ none ↦ next | some j ↦ duplicate c.id ]

-- The checks on the message `next` in place of a result, and the call that it answers.
unfoldable pub match_reply :
    List ToolCall → Map Text ℕ → ℕ → List Bool → Message → Result TurnError ℕ
unfolding is_tool
match_reply calls m next matched r =
    if not (is_empty r.tool_calls)
    then err (record { index = next; reason = calls_require_assistant })
    else if not (is_tool r.role)
    then err (record { index = next; reason = non_tool_message })
    else elim r.tool_result [
      | none ↦ err (record { index = next; reason = no_result })
      | some result ↦ elim (unmatched_call_index calls matched m result.tool_call_id) [
        | none ↦ err (record { index = next; reason = unmatched_result })
        | some i ↦ ok i
      ]
    ]

-- `return` on an error; the loop goes on with the call's index.
abbrev pub after_reply : Result TurnError ℕ → (ℕ → Option TurnError) → Option TurnError
after_reply (err e) rest = some e
after_reply (ok i) rest = rest i

-- The loop `for resultOffset := range msg.ToolCalls`: `n` results are left, the first one is
-- message `next`.
unfoldable pub match_results :
    List ToolCall → Map Text ℕ → ℕ → ℕ → ℕ → List Bool → List Message → Option TurnError
match_results calls m group zero next matched ms = none
match_results calls m group (suc n) next matched [] = incomplete_tool_turn group incomplete_suffix
match_results calls m group (suc n) next matched (r ∷ ms) =
    let rest = λ (i : ℕ). match_results calls m group n (suc next) (set matched i true) ms in
    after_reply (match_reply calls m next matched r) rest

-- The body of one group: `callIndexes`, then `matched` and the inner loop.
unfoldable pub index_result : ℕ → List ToolCall → List Message → Indexed → Option TurnError
unfolding match_results
index_result index calls ms (duplicate id) = incomplete_tool_turn index (duplicate_call id)
index_result index calls ms (indexed m) =
    match_results calls m index (length calls) (suc index) (replicate (length calls) false) ms

unfoldable pub validate_group : ℕ → List ToolCall → List Message → Option TurnError
unfolding index_calls index_result
validate_group index calls ms = index_result index calls ms (index_calls 0 calls [])

-- The checks that a message passes by itself, before its group is read; `none` passes.
unfoldable pub check_message : ℕ → Message → Option TurnError
unfolding is_assistant is_tool
check_message index msg =
    if not (is_empty msg.tool_calls) && not (is_assistant msg.role)
    then incomplete_tool_turn index calls_require_assistant
    else if not (is_none msg.tool_result) && not (is_tool msg.role)
    then incomplete_tool_turn index results_require_tool
    else if is_tool msg.role
    then incomplete_tool_turn index (if is_none msg.tool_result then no_result else orphan_result)
    else none

abbrev pub or_else {ℓ} : {A : Type ℓ} → Option A → Option A → Option A
or_else none k = k
or_else (some e) k = some e

-- `continue` without calls, else the group and then the rest.
abbrev pub group_result : ℕ → List ToolCall → List Message → Option TurnError → Option TurnError
group_result index [] ms rest = rest
group_result index (c ∷ cs) ms rest = or_else (validate_group index (c ∷ cs) ms) rest

unfoldable pub validate_from : ℕ → ℕ → List Message → Option TurnError
unfolding check_message
validate_from skip index [] = none
validate_from (suc skip) index (msg ∷ ms) = validate_from skip (suc index) ms
validate_from zero index (msg ∷ ms) =
    let rest = validate_from (length msg.tool_calls) (suc index) ms in
    or_else (check_message index msg) (group_result index msg.tool_calls ms rest)

-- `ValidateCompleteTurns`; `none` is a nil error
unfoldable pub validate_complete_turns : List Message → Option TurnError
unfolding validate_from
validate_complete_turns messages = validate_from 0 0 messages

-- `start` clamped to the transcript, as `CompleteTurnBoundary` begins.
unfoldable pub clamp_start : ℤ → ℕ → ℕ
clamp_start (negsuc n) len = 0
clamp_start (pos n) len = if ltb len n then len else n

-- The loop of `CompleteTurnBoundary`: `len` is `len(messages)`.
unfoldable pub boundary_from : ℕ → ℕ → ℕ → ℕ → List Message → ℕ
boundary_from start len skip index [] = start
boundary_from start len (suc skip) index (msg ∷ ms) = boundary_from start len skip (suc index) ms
boundary_from start len zero index (msg ∷ ms) =
    let call_count = length msg.tool_calls in
    let rest = boundary_from start len call_count (suc index) ms in
    let group_end = index + call_count + 1 in
    if is_empty msg.tool_calls
    then rest
    else if ltb index start && ltb start group_end
    then (if ltb group_end len then group_end else index)
    else rest

unfoldable pub complete_turn_boundary : List Message → ℤ → Result TurnError ℕ
unfolding boundary_from clamp_start
complete_turn_boundary messages preferred = elim (validate_complete_turns messages) [
  | some e ↦ err e
  | none ↦
      ok (boundary_from (clamp_start preferred (length messages)) (length messages) 0 0 messages)
]

-- The first loop of `CachePrefixBoundary`: one past the last marker.
unfoldable pub marker_boundary : ℕ → ℕ → List Message → ℕ
marker_boundary index boundary [] = boundary
marker_boundary index boundary (msg ∷ ms) =
    marker_boundary (suc index) (if msg.cache_boundary then index + 1 else boundary) ms

-- Its second loop.
unfoldable pub protect_from : ℕ → ℕ → ℕ → List Message → ℕ
protect_from boundary skip index [] = boundary
protect_from boundary (suc skip) index (msg ∷ ms) = protect_from boundary skip (suc index) ms
protect_from boundary zero index (msg ∷ ms) =
    let call_count = length msg.tool_calls in
    let rest = protect_from boundary call_count (suc index) ms in
    let group_end = index + call_count + 1 in
    if is_empty msg.tool_calls
    then rest
    else if ltb index boundary && ltb boundary group_end
    then group_end
    else rest

unfoldable pub cache_prefix_boundary : List Message → Result TurnError ℕ
unfolding marker_boundary protect_from
cache_prefix_boundary messages = elim (validate_complete_turns messages) [
  | some e ↦ err e
  | none ↦
      let boundary = marker_boundary 0 0 messages in
      if boundary == 0 then ok 0 else ok (protect_from boundary 0 0 messages)
]
