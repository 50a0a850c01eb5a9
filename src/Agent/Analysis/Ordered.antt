-- ===== src/Agent/Analysis/Ordered.antt =====
-- Results in the order of their calls, which `validate_group` matches (message/history.go): each
-- result answers the first call that has none.
use go_hydaelyn.Prelude.{
  ℕ, zero, suc, ◌+◌, ◌<◌, ◌≢◌, ◌==◌, nat_eq, text_eq_instance, text_eq_iff, ok, Bool, true, false,
  ◌||◌, none, some, List, [], ◌∷◌, Text, length, get_or, set, replicate, ◌≡◌, refl, ap, ◌∙◌, arith,
}
use go_hydaelyn.Prelude.Assoc.{Map, get, put, get-put, get-put_self}
use go_hydaelyn.Prelude.Distinct.{member}
use go_hydaelyn.Message.{ToolCall, Message, Role}
use go_hydaelyn.Message.Content.{is_empty, is_none}
use go_hydaelyn.Message.History.{
  is_assistant, is_tool, index_calls, indexed, match_reply, match_results, validate_group,
  index_result, unmatched_call_index, id_index,
}
use go_hydaelyn.Agent.Analysis.Naming.{AreNamed}
use go_hydaelyn.Agent.Analysis.Grammar.{Replies}

-- Only an assistant makes calls, and only a tool gives a result.
pub record IsTidy (m : Message) : Type 0 where
  pub calls_by_assistant : is_empty m.tool_calls || is_assistant m.role ≡ true
  pub result_by_tool : is_none m.tool_result || is_tool m.role ≡ true

-- the map has no ID but those seen
abbrev Knows : List Text → Map Text ℕ → Type 0
Knows seen m = (id : Text) → member seen id ≡ false → get m id ≡ none

-- the map leads from each call's ID to its place
abbrev Points : ℕ → List ToolCall → Map Text ℕ → Type 0
Points i [] m = Unit
Points i (c ∷ cs) m = (get m c.id ≡ some i) × Points (suc i) cs m

abbrev Keeps : List Text → Map Text ℕ → Map Text ℕ → Type 0
Keeps seen m m' =
    (id : Text) (j : ℕ) → member seen id ≡ true → get m id ≡ some j → get m' id ≡ some j

Knows-put :
    (seen : List Text) (m : Map Text ℕ) (id : Text) (i : ℕ)
    → Knows seen m
    → Knows (id ∷ seen) (put m id i)
unfolding member
Knows-put seen m id i k other h =
    let fresh = k other (ground arith) in
    let apart : (id == other) ≡ false = ground arith in rw (get-put m id other i) (rw apart fresh)

Keeps-put :
    (seen : List Text) (m m' : Map Text ℕ) (id : Text) (i : ℕ)
    → member seen id ≡ false
    → Keeps (id ∷ seen) (put m id i) m'
    → Keeps seen m m'
unfolding member
Keeps-put seen m m' id i fresh keeps other j h e =
    let apart : (id == other) ≡ false = ground (arith, text_eq_iff id other) in
    keeps other j (ground arith) (rw (get-put m id other i) (rw apart e))

member_head : (id : Text) (seen : List Text) → member (id ∷ seen) id ≡ true
unfolding member
member_head id seen = let same = (text_eq_iff id id).1 refl in ground arith

index_calls-step :
    (i : ℕ) (c : ToolCall) (cs : List ToolCall) (m : Map Text ℕ)
    → is_empty c.id ≡ false
    → get m c.id ≡ none
    → index_calls i (c ∷ cs) m ≡ index_calls (suc i) cs (put m c.id i)
unfolding index_calls
index_calls-step i c cs m given fresh = ground arith

-- Named calls have distinct IDs, and each is indexed.
index_calls-Points :
    (i slot : ℕ) (seen : List Text) (cs : List ToolCall) (m : Map Text ℕ)
    → AreNamed slot seen cs
    → Knows seen m
    → (m' : Map Text ℕ) × (index_calls i cs m ≡ indexed m') × Keeps seen m m' × Points i cs m'
unfolding index_calls
index_calls-Points i slot seen [] m n k = (m, refl, (λ id j h e. e), tt)
index_calls-Points i slot seen (c ∷ cs) m n k =
    let (m', e, keeps, points) =
      index_calls-Points (suc i) (suc slot) (c.id ∷ seen) cs (put m c.id i) n.1
        (Knows-put seen m c.id i k) in
    (
      m',
      index_calls-step i c cs m n.0.id_given (k c.id n.0.fresh) ∙ e,
      Keeps-put seen m m' c.id i n.0.fresh keeps,
      (keeps c.id i (member_head c.id seen) (get-put_self m c.id i), points),
    )

-- the calls from `k` on have no result
abbrev Opens : ℕ → ℕ → List Bool → Type 0
Opens k n matched = (j : ℕ) → j < n → get_or matched (k + j) true ≡ false

get_or-set : (bs : List Bool) (i j : ℕ) → i ≢ j → get_or (set bs i true) j true ≡ get_or bs j true
get_or-set [] i j ne = refl
get_or-set (b ∷ bs) zero zero ne = absurd (ne refl)
get_or-set (b ∷ bs) zero (suc j) ne = refl
get_or-set (b ∷ bs) (suc i) zero ne = refl
get_or-set (b ∷ bs) (suc i) (suc j) ne = get_or-set bs i j (λ e. ne (ap suc e))

Opens-set :
    (k n : ℕ) (matched : List Bool) → Opens k (suc n) matched → Opens (suc k) n (set matched k true)
Opens-set k n matched h j b =
    let moved : suc k + j ≡ k + suc j = omega arith in
    rw moved (get_or-set matched k (k + suc j) (λ e. omega arith) ∙ h (suc j) (omega arith))

Opens-replicate : (n : ℕ) → Opens 0 n (replicate n false)
Opens-replicate n j b = let at : 0 + j ≡ j = omega arith in rw at (go n j b)
  where
    go : (n j : ℕ) → j < n → get_or (replicate n false) j true ≡ false
    go zero j b = absurd (omega arith)
    go (suc n) zero b = refl
    go (suc n) (suc j) b = go n j (omega arith)

-- a tool's message makes no call
tool_calls-none : (m : Message) → is_tool m.role ≡ true → IsTidy m → is_empty m.tool_calls ≡ true
unfolding is_tool is_assistant
tool_calls-none m h t = go m.role h (t.calls_by_assistant)
  where
    go :
        (r : Role)
        → is_tool r ≡ true
        → is_empty m.tool_calls || is_assistant r ≡ true
        → is_empty m.tool_calls ≡ true
    go Role.tool e o = ground arith
    go Role.system e o = cc
    go Role.user e o = cc
    go Role.assistant e o = cc
    go Role.custom e o = cc
    go (Role.other_role x) e o = cc

unmatched-position :
    (calls : List ToolCall) (m : Map Text ℕ) (k : ℕ) (matched : List Bool) (id : Text)
    → is_empty id ≡ false
    → get m id ≡ some k
    → get_or matched k true ≡ false
    → unmatched_call_index calls matched m id ≡ some k
unfolding unmatched_call_index id_index
unmatched-position calls m k matched id given points free =
    rw given (rw (points, id_index) (rw free))

match_reply-position :
    (calls : List ToolCall) (m : Map Text ℕ) (next k : ℕ) (matched : List Bool) (c : ToolCall)
    (r : Message)
    → is_empty c.id ≡ false
    → get m c.id ≡ some k
    → get_or matched k true ≡ false
    → Replies c r
    → IsTidy r
    → match_reply calls m next matched r ≡ ok k
unfolding match_reply
match_reply-position calls m next k matched c r given points free reply_to tidy =
    let at = unmatched-position calls m k matched c.id given points free in
    let at' = rw (← reply_to.to_call) at at in
    rw (tool_calls-none r reply_to.from_tool tidy, reply_to.from_tool)
      (rw (reply_to.given, match_reply) (rw at'))

abbrev pub Answered : List ToolCall → List Message → Type 0
Answered [] [] = Unit
Answered [] (r ∷ rs) = ⊥
Answered (c ∷ cs) [] = ⊥
Answered (c ∷ cs) (r ∷ rs) = Replies c r × IsTidy r × Answered cs rs

Answered-matched :
    (calls : List ToolCall) (m : Map Text ℕ) (group next k slot : ℕ) (seen : List Text)
    (cs : List ToolCall) (rs : List Message) (matched : List Bool)
    → AreNamed slot seen cs
    → Points k cs m
    → Opens k (length cs) matched
    → Answered cs rs
    → match_results calls m group (length cs) next matched rs ≡ none
unfolding match_results
Answered-matched calls m group next k slot seen [] [] matched n p o a = refl
Answered-matched calls m group next k slot seen [] (r ∷ rs) matched n p o a = absurd a
Answered-matched calls m group next k slot seen (c ∷ cs) [] matched n p o a = absurd a
Answered-matched calls m group next k slot seen (c ∷ cs) (r ∷ rs) matched n p o a =
    let at : k + 0 ≡ k = omega arith in
    let free : get_or matched k true ≡ false = rw at at (o 0 (omega arith)) in
    rw (match_reply-position calls m next k matched c r n.0.id_given p.0 free a.0 a.1) (
      Answered-matched calls m group (suc next) (suc k) (suc slot) (c.id ∷ seen) cs rs
        (set matched k true) n.1 p.1 (Opens-set k (length cs) matched o) a.2)

pub validate_group-Answered :
    (calls : List ToolCall) (rs : List Message)
    → AreNamed 0 [] calls
    → Answered calls rs
    → validate_group 0 calls rs ≡ none
unfolding validate_group index_result get
validate_group-Answered calls rs n a =
    let (m, e, _, points) = index_calls-Points 0 0 [] calls [] n (λ id h. refl) in
    rw e (
      Answered-matched calls m 0 1 0 0 [] calls rs (replicate (length calls) false) n points
        (Opens-replicate (length calls)) a)
