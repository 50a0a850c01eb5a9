-- ===== src/Orchestration/Validation.antt =====
-- `ValidateDispatch` (orchestration/scheduler.go), `validateInitialState`, `validateBatch` and
-- `outcomeLess` (orchestration/drive.go). `json.Valid` is a parameter: the language's JSON grammar
-- plays no part. A clone of a value is the value.
use go_hydaelyn.Prelude.{
  ℕ, Bool, false, not, ◌&&◌, ◌||◌, Option, none, some, List, [], ◌∷◌, map, Text, is_blank, text_ltb,
  ◌==◌, text_eq_instance, Result, ok, err, if◌then◌else◌,
}
use go_hydaelyn.Prelude.Int.{ℤ, pos, int_ltb, int_eq}
use go_hydaelyn.Prelude.Distinct.{member}
use go_hydaelyn.Message.Content.{is_empty}
use go_hydaelyn.Agent.{Budget}
use go_hydaelyn.Orchestration.{
  Handoff, Dispatch, Outcome, State, Invalid, empty_id, empty_route, negative_budget,
  negative_repair_limit, invalid_schema, invalid_payload, handoff_conflict, negative_tick,
  tick_out_of_range, duplicate_id, unsorted,
}

abbrev pub is_negative : ℤ → Bool
is_negative i = int_ltb i (pos 0)

unfoldable pub has_negative : Option Budget → Bool
has_negative none = false
has_negative (some b) =
    is_negative b.max_tokens
    || is_negative b.max_tool_calls
    || is_negative b.max_steps
    || is_negative b.max_wall_clock

-- `len(document) > 0 && !json.Valid(document)`
unfoldable pub bad_json : (List ℕ → Bool) → List ℕ → Bool
bad_json json_valid document = not (is_empty document) && not (json_valid document)

-- the checks of the handoff; `none` is a nil error
unfoldable pub validate_handoff : (List ℕ → Bool) → Text → Option Handoff → Option Invalid
unfolding bad_json
validate_handoff json_valid route none = none
validate_handoff json_valid route (some h) =
    if bad_json json_valid h.payload
    then some invalid_payload
    else if not (is_empty h.to) && not (h.to == route)
    then some handoff_conflict
    else none

unfoldable pub validate_dispatch : (List ℕ → Bool) → Dispatch → Option Invalid
unfolding has_negative bad_json validate_handoff
validate_dispatch json_valid d =
    if is_blank d.id
    then some empty_id
    else if is_blank d.route
    then some empty_route
    else if has_negative d.request.budget
    then some negative_budget
    else if is_negative d.output_policy.max_repair_attempts
    then some negative_repair_limit
    else if bad_json json_valid d.output_policy.schema
    then some invalid_schema
    else validate_handoff json_valid d.route d.handoff

unfoldable pub outcome_less : Outcome → Outcome → Bool
outcome_less a b =
    if not (a.tick == b.tick) then int_ltb a.tick b.tick else text_ltb a.dispatch.id b.dispatch.id

-- `index > 0 && !outcomeLess(outcomes[index-1], outcome)`
abbrev pub out_of_order : Option Outcome → Outcome → Bool
out_of_order none o = false
out_of_order (some before) o = not (outcome_less before o)

-- A check whose error ends the caller; `none` goes on.
abbrev pub checked_or : Option Invalid → Option Invalid → Option Invalid
checked_or (some e) k = some e
checked_or none k = k

-- the loop of `validateInitialState`
unfoldable pub validate_outcomes :
    (List ℕ → Bool) → ℤ → List Text → Option Outcome → List Outcome → Option Invalid
unfolding validate_dispatch member outcome_less
validate_outcomes json_valid tick seen before [] = none
validate_outcomes json_valid tick seen before (o ∷ rest) =
    if int_ltb o.tick (pos 1) || int_ltb tick o.tick
    then some tick_out_of_range
    else checked_or (validate_dispatch json_valid o.dispatch) (
        if member seen o.dispatch.id
        then some duplicate_id
        else if out_of_order before o
        then some unsorted
        else validate_outcomes json_valid tick (o.dispatch.id ∷ seen) (some o) rest)

unfoldable pub validate_initial_state : (List ℕ → Bool) → State → Option Invalid
unfolding validate_outcomes
validate_initial_state json_valid s =
    if is_negative s.tick
    then some negative_tick
    else validate_outcomes json_valid s.tick [] none s.outcomes

abbrev pub outcome_id : Outcome → Text
outcome_id o = o.dispatch.id

-- the loop of `validateBatch`
unfoldable pub validate_dispatches : (List ℕ → Bool) → List Text → List Dispatch → Option Invalid
unfolding validate_dispatch member
validate_dispatches json_valid seen [] = none
validate_dispatches json_valid seen (d ∷ rest) = checked_or (validate_dispatch json_valid d) (
    if member seen d.id
    then some duplicate_id
    else validate_dispatches json_valid (d.id ∷ seen) rest)

-- The dispatches, or the first error.
unfoldable pub validate_batch :
    (List ℕ → Bool) → State → List Dispatch → Result Invalid (List Dispatch)
unfolding validate_dispatches
validate_batch json_valid s dispatches =
    elim (validate_dispatches json_valid (map outcome_id s.outcomes) dispatches) [
      | none ↦ ok dispatches
      | some e ↦ err e
    ]
