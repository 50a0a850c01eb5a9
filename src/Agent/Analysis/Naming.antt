-- ===== src/Agent/Analysis/Naming.antt =====
-- The calls that the inner loop of `analyzeTranscript` (agent/continuation.go) lets pass.
use go_hydaelyn.Prelude.{
  ℕ, suc, ◌≤◌, ◌==◌, nat_eq, text_eq_instance, text_eq_iff, Result, ok, err, true, false, ◌&&◌,
  none, some, List, [], ◌∷◌, Text, ◌≡◌, refl, ◌⊎◌, inl, inr, if◌then◌else◌, Bool-cases,
  Option-cases, arith,
}
use go_hydaelyn.Prelude.Distinct.{member}
use go_hydaelyn.Prelude.Int.{ℤ, int_max}
use go_hydaelyn.Message.{ToolCall}
use go_hydaelyn.Message.Content.{is_empty}
use go_hydaelyn.Agent.Operations.{
  operation_id, scan_operation_id, scan-operation_id, scan_operation_id-fits,
}
use go_hydaelyn.Agent.Analysis.{operation_turn, check_call, check_calls, and_then, max_turn}

-- A call with an ID of its own, a name, and no operation ID or one of this slot, with
-- numbers that an int holds.
pub record IsNamed (slot : ℕ) (seen : List Text) (c : ToolCall) : Type 0 where
  pub id_given : is_empty c.id ≡ false
  pub name_given : is_empty c.name ≡ false
  pub fresh : member seen c.id ≡ false
  pub operation :
      (c.operation_id ≡ [])
      ⊎ ((turn : ℕ) × (turn ≤ int_max)
          × (slot ≤ int_max)
          × (c.operation_id ≡ operation_id turn slot))

abbrev pub AreNamed : ℕ → List Text → List ToolCall → Type 0
AreNamed slot seen [] = Unit
AreNamed slot seen (c ∷ cs) = IsNamed slot seen c × AreNamed (suc slot) (c.id ∷ seen) cs

pub and_then-eq-ok {ℓ κ μ} :
    {E : Type ℓ} {A : Type κ} {B : Type μ} (r : Result E A) (k : A → Result E B) {b : B}
    → and_then r k ≡ ok b
    → (a : A) × (r ≡ ok a) × (k a ≡ ok b)
and_then-eq-ok (err e) k h = cc
and_then-eq-ok (ok a) k h = (a, refl, h)

pub empty_of_is_empty {ℓ} : {A : Type ℓ} (xs : List A) → is_empty xs ≡ true → xs ≡ []
empty_of_is_empty [] h = refl
empty_of_is_empty (x ∷ xs) h = cc

pub operation_turn-printed :
    (slot : ℕ) (id : Text) (turn : ℕ)
    → operation_turn slot id ≡ some turn
    → (turn ≤ int_max) × (slot ≤ int_max) × (id ≡ operation_id turn slot)
unfolding operation_turn
operation_turn-printed slot id turn h = elim (Option-cases (scan_operation_id id)) [
  | inl failed ↦ cc (rw (failed, operation_turn) at h)
  | inr ((t, n), read) ↦
      let fits = scan_operation_id-fits id t n read in
      let h' : (if id == operation_id t n && n == slot then some t else none) ≡ some turn =
        ground arith in
      ground (arith, text_eq_iff id (operation_id t n))
]

printed-operation_turn :
    (slot turn : ℕ)
    → turn ≤ int_max
    → slot ≤ int_max
    → operation_turn slot (operation_id turn slot) ≡ some turn
unfolding operation_turn
printed-operation_turn slot turn ht hs =
    let read = scan-operation_id turn slot ht hs in
    let same = (text_eq_iff (operation_id turn slot) (operation_id turn slot)).1 refl in
    ground arith

check_call-IsNamed :
    (index slot : ℕ) (seen : List Text) (c : ToolCall) (latest latest' : ℤ)
    → check_call index slot seen c latest ≡ ok latest'
    → IsNamed slot seen c
unfolding check_call
check_call-IsNamed index slot seen c latest latest' h = record {
  id_given = ground arith;
  name_given = ground arith;
  fresh = ground arith;
  operation = operated (Bool-cases (is_empty c.operation_id));
}
  where
    operated :
        (is_empty c.operation_id ≡ true) ⊎ (is_empty c.operation_id ≡ false)
        → (c.operation_id ≡ [])
          ⊎ ((turn : ℕ) × (turn ≤ int_max)
              × (slot ≤ int_max)
              × (c.operation_id ≡ operation_id turn slot))
    operated (inl none_given) = inl (empty_of_is_empty c.operation_id none_given)
    operated (inr given) = elim (Option-cases (operation_turn slot c.operation_id)) [
      | inl invalid ↦ absurd (ground arith)
      | inr (turn, read) ↦
          let (ht, hs, e) = operation_turn-printed slot c.operation_id turn read in
          inr (turn, ht, hs, e)
    ]

IsNamed-check_call :
    (index slot : ℕ) (seen : List Text) (c : ToolCall) (latest : ℤ)
    → IsNamed slot seen c
    → (latest' : ℤ) × (check_call index slot seen c latest ≡ ok latest')
unfolding check_call
IsNamed-check_call index slot seen c latest n = elim n.operation [
  | inl unnamed ↦ (latest, ground arith)
  | inr (turn, ht, hs, e) ↦
      let read = printed-operation_turn slot turn ht hs in
      elim (Bool-cases (is_empty c.operation_id)) [
        | inl empty ↦ (latest, ground arith)
        | inr given ↦ (max_turn latest turn, ground arith)
      ]
]

pub check_calls-AreNamed :
    (index slot : ℕ) (seen : List Text) (cs : List ToolCall) (latest latest' : ℤ)
    → check_calls index slot seen cs latest ≡ ok latest'
    → AreNamed slot seen cs
unfolding check_calls
check_calls-AreNamed index slot seen [] latest latest' h = tt
check_calls-AreNamed index slot seen (c ∷ cs) latest latest' h =
    let (next, here, later) =
      and_then-eq-ok (check_call index slot seen c latest)
        (check_calls index (suc slot) (c.id ∷ seen) cs) h in
    (
      check_call-IsNamed index slot seen c latest next here,
      check_calls-AreNamed index (suc slot) (c.id ∷ seen) cs next latest' later,
    )

pub AreNamed-check_calls :
    (index slot : ℕ) (seen : List Text) (cs : List ToolCall) (latest : ℤ)
    → AreNamed slot seen cs
    → (latest' : ℤ) × (check_calls index slot seen cs latest ≡ ok latest')
unfolding check_calls
AreNamed-check_calls index slot seen [] latest n = (latest, refl)
AreNamed-check_calls index slot seen (c ∷ cs) latest n =
    let (next, here) = IsNamed-check_call index slot seen c latest n.0 in
    let (last, later) = AreNamed-check_calls index (suc slot) (c.id ∷ seen) cs next n.1 in
    (last, rw here later)
