-- ===== src/Message/History/Matching.antt =====
-- What the greedy matching of results to calls establishes (`unmatchedCallIndex` and the inner loop
-- of `ValidateCompleteTurns`, message/history.go).
use go_hydaelyn.Prelude.{
  ℕ, zero, suc, ◌+◌, ◌≡◌, refl, ap, ◌⊎◌, inl, inr, Bool, true, false, none, some, List, [], ◌∷◌,
  arith, length, get_elem?, get_or, set, replicate, Text, ok, if◌then◌else◌, Bool-cases, ◌==◌,
  nat_eq, text_eq_instance, text_eq_iff, length-replicate, length-set, ◌∙◌, subst,
}
use go_hydaelyn.Prelude.Assoc.{Map, get, put, get-put}
use go_hydaelyn.Message.{ToolCall, ToolResult, Message}
use go_hydaelyn.Message.Content.{is_empty}
use go_hydaelyn.Message.History.{
  is_tool, first_unmatched, unmatched_call_index, index_calls, Indexed, duplicate, indexed,
  match_reply, match_results, validate_group, index_result, id_index,
}
use go_hydaelyn.Message.History.Turns.{after_reply-eq-none}
use native.Mathlib.Nat.{add-zero, zero-add}

-- The call `i` is free, and a result with this ID may answer it.
pub record Free (p : ToolCall → Type 0) (calls : List ToolCall) (matched : List Bool) (i : ℕ)
    : Type 0 where
  pub call : ToolCall
  pub found : get_elem? calls i ≡ some call
  pub open_slot : get_or matched i true ≡ false
  pub fits : p call

first_unmatched-Free :
    (p : ToolCall → Bool) (off : ℕ) (calls : List ToolCall) (matched : List Bool) (i : ℕ)
    → first_unmatched p off calls matched ≡ some i
    → (k : ℕ) × (i ≡ off + k) × Free (λ c. p c ≡ true) calls matched k
unfolding first_unmatched
first_unmatched-Free p off [] matched i h = cc
first_unmatched-Free p off (c ∷ cs) [] i h = cc
first_unmatched-Free p off (c ∷ cs) (true ∷ bs) i h =
    let (k, e, f) = first_unmatched-Free p (suc off) cs bs i h in
    (
      suc k,
      omega arith,
      record { call = f.call; found = f.found; open_slot = f.open_slot; fits = f.fits },
    )
first_unmatched-Free p off (c ∷ cs) (false ∷ bs) i h = elim (Bool-cases (p c)) [
  | inl fit ↦ (0, ground arith, record { call = c; found = refl; open_slot = refl; fits = fit })
  | inr other ↦
      let (k, e, f) = first_unmatched-Free p (suc off) cs bs i (ground arith) in
      (
        suc k,
        omega arith,
        record { call = f.call; found = f.found; open_slot = f.open_slot; fits = f.fits },
      )
]

-- The result's ID is the call's, or one of the two is left empty.
abbrev pub MayAnswer : Text → ToolCall → Type 0
MayAnswer id c = (id ≡ []) ⊎ (c.id ≡ []) ⊎ (c.id ≡ id)

-- The map leads from an ID to a call that has it.
abbrev Leads : List ToolCall → Map Text ℕ → Type 0
Leads calls m =
    (id : Text) (i : ℕ)
    → get m id ≡ some i
    → (c : ToolCall) × (get_elem? calls i ≡ some c) × (c.id ≡ id)

Leads-put :
    (calls : List ToolCall) (m : Map Text ℕ) (i : ℕ) (c : ToolCall)
    → get_elem? calls i ≡ some c
    → Leads calls m
    → Leads calls (put m c.id i)
Leads-put calls m i c at leads id j h = go (Bool-cases (c.id == id)) (rw (get-put m c.id id i) at h)
  where
    go :
        ((c.id == id) ≡ true) ⊎ ((c.id == id) ≡ false)
        → (if c.id == id then some i else get m id) ≡ some j
        → (d : ToolCall) × (get_elem? calls j ≡ some d) × (d.id ≡ id)
    go (inl same) e = (c, ground arith, (text_eq_iff c.id id).0 same)
    go (inr other) e = leads id j (ground arith)

index_calls-step :
    (i : ℕ) (c : ToolCall) (cs : List ToolCall) (m m' : Map Text ℕ)
    → index_calls i (c ∷ cs) m ≡ indexed m'
    → index_calls (suc i) cs (if is_empty c.id then m else put m c.id i) ≡ indexed m'
unfolding index_calls
index_calls-step i c cs m m' h = ground arith

index_calls-Leads :
    (calls : List ToolCall) (i : ℕ) (cs : List ToolCall) (m m' : Map Text ℕ)
    → ((k : ℕ) (c : ToolCall) → get_elem? cs k ≡ some c → get_elem? calls (i + k) ≡ some c)
    → Leads calls m
    → index_calls i cs m ≡ indexed m'
    → Leads calls m'
unfolding index_calls
index_calls-Leads calls i [] m m' part leads h =
    let same : m ≡ m' = ground arith in rw (← same) leads
index_calls-Leads calls i (c ∷ cs) m m' part leads h =
    index_calls-Leads calls (suc i) cs _ m' (λ k d found. rw (← shift i k) (part (suc k) d found))
      (kept (is_empty c.id)) (index_calls-step i c cs m m' h)
  where
    shift : (a b : ℕ) → a + suc b ≡ suc a + b
    shift a b = omega arith

    here : get_elem? calls i ≡ some c
    here = rw add-zero at (part 0 c refl)

    kept : (b : Bool) → Leads calls (if b then m else put m c.id i)
    kept true = leads
    kept false = Leads-put calls m i c here leads

empty_of_is_empty {ℓ} : {A : Type ℓ} (xs : List A) → is_empty xs ≡ true → xs ≡ []
empty_of_is_empty [] h = refl
empty_of_is_empty (x ∷ xs) h = cc

identified :
    (calls : List ToolCall) (matched : List Bool) (m : Map Text ℕ) (id : Text) (i : ℕ)
    → id_index calls matched m id ≡ some i
    → (first_unmatched (λ c. is_empty c.id) 0 calls matched ≡ some i)
      ⊎ ((get m id ≡ some i) × (get_or matched i true ≡ false))
unfolding id_index
identified calls matched m id i h = ground arith

unmatched_call_index-Free :
    (calls : List ToolCall) (matched : List Bool) (m : Map Text ℕ) (id : Text) (i : ℕ)
    → Leads calls m
    → unmatched_call_index calls matched m id ≡ some i
    → Free (MayAnswer id) calls matched i
unfolding unmatched_call_index
unmatched_call_index-Free calls matched m [] i leads h =
    let (k, e, f) = first_unmatched-Free (λ c. true) 0 calls matched i h in
    let same : i ≡ k = omega arith in
    rw same (record { call = f.call; found = f.found; open_slot = f.open_slot; fits = inl refl })
unmatched_call_index-Free calls matched m (b ∷ id) i leads h =
    elim (identified calls matched m (b ∷ id) i (ground arith)) [
      | inl anonymous ↦
          let (k, e, f) = first_unmatched-Free (λ c. is_empty c.id) 0 calls matched i anonymous in
          let same : i ≡ k = omega arith in
          rw same (record {
            call = f.call;
            found = f.found;
            open_slot = f.open_slot;
            fits = inr (inl (empty_of_is_empty f.call.id f.fits));
          })
      | inr (led, free) ↦
          let (c, found, e) = leads (b ∷ id) i led in
          record { call = c; found = found; open_slot = free; fits = inr (inr e) }
    ]

-- What one answered call leaves: the slot was open, a result that may answer it is there, and the
-- slot is closed.
pub record Answered (calls : List ToolCall) (matched : List Bool) (i : ℕ) (r : Message)
    : Type 0 where
  pub result : ToolResult
  pub holds : r.tool_result ≡ some result
  pub role : is_tool r.role ≡ true
  pub no_calls : r.tool_calls ≡ []
  pub slot : Free (MayAnswer result.tool_call_id) calls matched i

pub data Answers (calls : List ToolCall) : List Bool → List Message → List Bool → Type 0 where
  none_left : {matched : List Bool} → Answers calls matched [] matched
  answer :
      {matched end : List Bool} {r : Message} {rs : List Message}
      → (i : ℕ) → Answered calls matched i r
      → Answers calls (set matched i true) rs end
      → Answers calls matched (r ∷ rs) end

reply_fields :
    (calls : List ToolCall) (cm : Map Text ℕ) (p : ℕ) (matched : List Bool) (r : Message) (i : ℕ)
    → match_reply calls cm p matched r ≡ ok i
    → (result : ToolResult) × (r.tool_result ≡ some result)
      × (is_tool r.role ≡ true)
      × (is_empty r.tool_calls ≡ true)
      × (unmatched_call_index calls matched cm result.tool_call_id ≡ some i)
unfolding match_reply
reply_fields calls cm p matched r i h = ground arith

match_reply-Answered :
    (calls : List ToolCall) (cm : Map Text ℕ) (p : ℕ) (matched : List Bool) (r : Message) (i : ℕ)
    → Leads calls cm
    → match_reply calls cm p matched r ≡ ok i
    → Answered calls matched i r
match_reply-Answered calls cm p matched r i leads h =
    let (result, holds, role, none_made, slot) = reply_fields calls cm p matched r i h in
    record {
      result = result;
      holds = holds;
      role = role;
      no_calls = empty_of_is_empty r.tool_calls none_made;
      slot = unmatched_call_index-Free calls matched cm result.tool_call_id i leads slot;
    }

match_results-Answers :
    (calls : List ToolCall) (cm : Map Text ℕ) (g n p : ℕ) (matched : List Bool) (rs : List Message)
    → Leads calls cm
    → length rs ≡ n
    → match_results calls cm g n p matched rs ≡ none
    → (end : List Bool) × Answers calls matched rs end
unfolding match_results
match_results-Answers calls cm g zero p matched [] leads e h = (matched, none_left)
match_results-Answers calls cm g zero p matched (r ∷ rs) leads e h = absurd (omega arith)
match_results-Answers calls cm g (suc n) p matched [] leads e h = cc
match_results-Answers calls cm g (suc n) p matched (r ∷ rs) leads e h =
    let (i, replied, rest) = after_reply-eq-none (match_reply calls cm p matched r) _ h in
    let (end, more) =
      match_results-Answers calls cm g n (suc p) (set matched i true) rs leads (omega arith) rest in
    (end, answer i (match_reply-Answered calls cm p matched r i leads replied) more)

-- How many slots are open.
abbrev open_slots : List Bool → ℕ
open_slots [] = 0
open_slots (true ∷ bs) = open_slots bs
open_slots (false ∷ bs) = suc (open_slots bs)

open_slots-set :
    (bs : List Bool) (i : ℕ)
    → get_or bs i true ≡ false
    → suc (open_slots (set bs i true)) ≡ open_slots bs
open_slots-set [] i h = cc
open_slots-set (true ∷ bs) zero h = cc
open_slots-set (false ∷ bs) zero h = refl
open_slots-set (true ∷ bs) (suc i) h = open_slots-set bs i h
open_slots-set (false ∷ bs) (suc i) h = ap suc (open_slots-set bs i h)

Answers-count :
    {calls : List ToolCall} {matched end : List Bool} {rs : List Message}
    → Answers calls matched rs end
    → open_slots end + length rs ≡ open_slots matched
Answers-count none_left = omega arith
Answers-count (answer {matched} i a more) =
    omega (arith, Answers-count more, open_slots-set matched i a.slot.open_slot)

Answers-length :
    {calls : List ToolCall} {matched end : List Bool} {rs : List Message}
    → Answers calls matched rs end
    → length end ≡ length matched
Answers-length none_left = refl
Answers-length (answer {matched} i a more) = Answers-length more ∙ length-set matched i true

open_slots-replicate : (n : ℕ) → open_slots (replicate n false) ≡ n
open_slots-replicate zero = refl
open_slots-replicate (suc n) = ap suc (open_slots-replicate n)

all_closed : (bs : List Bool) → open_slots bs ≡ 0 → bs ≡ replicate (length bs) true
all_closed [] h = refl
all_closed (true ∷ bs) h = ap (◌∷◌ true) (all_closed bs h)
all_closed (false ∷ bs) h = absurd (omega arith)

Answers-all :
    {calls : List ToolCall} {end : List Bool} {rs : List Message}
    → length rs ≡ length calls
    → Answers calls (replicate (length calls) false) rs end
    → end ≡ replicate (length calls) true
Answers-all {calls} {end} {rs} e a =
    let n = length calls in
    let long : length end ≡ n = Answers-length a ∙ length-replicate n false in
    rw (← long) (all_closed end (omega (arith, Answers-count a, open_slots-replicate n)))

-- If a group of as many results as calls is accepted, every result is a tool message that may
-- answer the call it is matched to, no call is matched twice, and at the end every call is matched.
pub validate_group-Answers :
    (i : ℕ) (calls : List ToolCall) (results : List Message)
    → length results ≡ length calls
    → validate_group i calls results ≡ none
    → Answers calls (replicate (length calls) false) results (replicate (length calls) true)
unfolding validate_group get
validate_group-Answers i calls results e h = go (index_calls 0 calls []) refl h
  where
    go :
        (m : Indexed)
        → index_calls 0 calls [] ≡ m
        → index_result i calls results m ≡ none
        → Answers calls (replicate (length calls) false) results (replicate (length calls) true)
    go (duplicate id) made k = cc
    go (indexed m) made k =
        let leads =
          index_calls-Leads calls 0 calls [] m (λ k c found. rw zero-add found)
            (λ id j none_there. cc) made in
        let (end, a) =
          match_results-Answers calls m i (length calls) (suc i) (replicate (length calls) false)
            results leads e k in
        subst (λ b. Answers calls (replicate (length calls) false) results b) (Answers-all e a) a
