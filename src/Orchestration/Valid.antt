-- ===== src/Orchestration/Valid.antt =====
-- What `validateInitialState` accepts (orchestration/drive.go): its loop and an independent
-- description of a clean state agree.
pub mod Batches
pub mod Drives
use mathlib.Core.List.{Perm, Mem, Nodup, Nodup-cons, Nodup-nil, mem-cons_self, mem-cons_of_mem}
use go_hydaelyn.Prelude.{
  ℕ, Bool, true, false, not, ◌&&◌, ◌||◌, Option, none, some, List, [], ◌∷◌, map, Text, ◌≡◌, ◌↔◌,
  refl, sym, subst, ◌==◌, text_eq_instance, text_eq_iff, text_ltb-asym, text_ltb-total,
  text_ltb-not_less_trans, arith, inl, inr, Bool-cases, All, if◌then◌else◌,
}
use go_hydaelyn.Prelude.Int.{ℤ, pos, int_ltb, int_eq}
use go_hydaelyn.Prelude.Sort.{StrictOrder, IsSorted, All-map}
use go_hydaelyn.Prelude.Distinct.{member, apart_ids, member-absent, absent-member, Mem-All, All-Mem}
use go_hydaelyn.Message.Content.{is_none}
use go_hydaelyn.Orchestration.{Dispatch, Outcome, State, Invalid}
use go_hydaelyn.Orchestration.Validation.{
  validate_dispatch, outcome_less, out_of_order, validate_outcomes, validate_initial_state,
  is_negative, outcome_id, checked_or,
}

abbrev pub in_range : ℤ → Outcome → Bool
in_range tick o = not (int_ltb o.tick (pos 1) || int_ltb tick o.tick)

abbrev pub is_valid : (List ℕ → Bool) → Dispatch → Bool
is_valid json_valid d = is_none (validate_dispatch json_valid d)

abbrev pub is_clean : (List ℕ → Bool) → ℤ → Outcome → Bool
is_clean json_valid tick o = in_range tick o && is_valid json_valid o.dispatch

-- Every outcome is of a valid dispatch and a tick in [1, tick]; the IDs differ; the order is that of
-- `outcomeLess`.
pub record CleanState (json_valid : List ℕ → Bool) (s : State) : Type 0 where
  pub counted : is_negative s.tick ≡ false
  pub clean : All (λ o. is_clean json_valid s.tick o ≡ true) s.outcomes
  pub distinct : Nodup (map outcome_id s.outcomes)
  pub sorted : IsSorted outcome_less s.outcomes

pub outcome_less-StrictOrder : StrictOrder outcome_less
unfolding outcome_less
outcome_less-StrictOrder = record {
  asym = λ x y h. ground (arith, text_ltb-asym x.dispatch.id y.dispatch.id);
  not_less_trans = λ x y z h k.
      ground (arith, text_ltb-not_less_trans x.dispatch.id y.dispatch.id z.dispatch.id);
}

outcome_less-total :
    (a b : Outcome)
    → outcome_less a b ≡ false
    → outcome_less b a ≡ false
    → a.dispatch.id ≡ b.dispatch.id
unfolding outcome_less
outcome_less-total a b h k = ground (arith, text_ltb-total a.dispatch.id b.dispatch.id)

-- The outcomes that may follow `before`.
abbrev Follow : Option Outcome → List Outcome → Type 0
Follow none l = Unit
Follow (some b) l = All (λ o. outcome_less o b ≡ false) l

-- The outcome before is one that was seen.
abbrev Within : List Text → Option Outcome → Type 0
Within seen none = Unit
Within seen (some b) = member seen b.dispatch.id ≡ true

module _ (json_valid : List ℕ → Bool) (tick : ℤ) where
  -- What the loop has checked when it ends without an error.
  record Loop (seen : List Text) (before : Option Outcome) (l : List Outcome) : Type 0 where
    pub clean : All (λ o. is_clean json_valid tick o ≡ true) l
    pub distinct : Nodup (map outcome_id l)
    pub fresh : All (λ o. member seen o.dispatch.id ≡ false) l
    pub sorted : IsSorted outcome_less l
    pub follow : Follow before l

  -- One round of the loop that went on.
  passed :
      (seen : List Text) (before : Option Outcome) (o : Outcome) (l : List Outcome)
      → validate_outcomes json_valid tick seen before (o ∷ l) ≡ none
      → (is_clean json_valid tick o ≡ true)
        × (member seen o.dispatch.id ≡ false)
        × (out_of_order before o ≡ false)
        × (validate_outcomes json_valid tick (o.dispatch.id ∷ seen) (some o) l ≡ none)
  unfolding validate_outcomes
  passed seen before o l h = ground arith

  follows :
      (before : Option Outcome) (o : Outcome) (l : List Outcome)
      → out_of_order before o ≡ false
      → All (λ x. outcome_less x o ≡ false) l
      → Follow before (o ∷ l)
  follows none o l h a = tt
  follows (some b) o l h a =
      let less : outcome_less b o ≡ true = ground arith in
      let back = outcome_less-StrictOrder.asym b o less in
      (back, All-map _ _ l (λ x k. outcome_less-StrictOrder.not_less_trans x o b k back) a)

  validate_outcomes-Loop :
      (seen : List Text) (before : Option Outcome) (l : List Outcome)
      → validate_outcomes json_valid tick seen before l ≡ none
      → Loop seen before l
  validate_outcomes-Loop seen before [] h = record {
    clean = tt;
    distinct = Nodup-nil;
    fresh = tt;
    sorted = tt;
    follow = nothing before;
  }
    where
      nothing : (b : Option Outcome) → Follow b []
      nothing none = tt
      nothing (some b) = tt
  validate_outcomes-Loop seen before (o ∷ l) h =
      let p = passed seen before o l h in
      let rest = validate_outcomes-Loop (o.dispatch.id ∷ seen) (some o) l p.3 in
      let ids = apart_ids outcome_id o.dispatch.id seen l rest.fresh in
      record {
        clean = (p.0, rest.clean);
        distinct = Nodup-cons.1 (ids.0, rest.distinct);
        fresh = (p.1, ids.1);
        sorted = (rest.follow, rest.sorted);
        follow = follows before o l p.2 rest.follow;
      }

  -- The other way, round by round.
  goes_on :
      (seen : List Text) (before : Option Outcome) (o : Outcome) (l : List Outcome)
      → is_clean json_valid tick o ≡ true
      → member seen o.dispatch.id ≡ false
      → out_of_order before o ≡ false
      → validate_outcomes json_valid tick (o.dispatch.id ∷ seen) (some o) l ≡ none
      → validate_outcomes json_valid tick seen before (o ∷ l) ≡ none
  unfolding validate_outcomes
  goes_on seen before o l clean fresh order rest = ground arith

  -- An outcome that follows in the order and has another ID is strictly greater.
  in_order :
      (seen : List Text) (before : Option Outcome) (o : Outcome) (l : List Outcome)
      → Follow before (o ∷ l)
      → Within seen before
      → member seen o.dispatch.id ≡ false
      → out_of_order before o ≡ false
  in_order seen none o l f w fresh = refl
  in_order seen (some b) o l f w fresh = elim (Bool-cases (outcome_less b o)) [
    | inl less ↦ rw less refl
    | inr no_it ↦ let is = outcome_less-total b o no_it f.0 in cc
  ]

  fresh_cons :
      (o : Outcome) (seen : List Text) (l : List Outcome)
      → (¬ Mem o.dispatch.id (map outcome_id l))
      → All (λ x. member seen x.dispatch.id ≡ false) l
      → All (λ x. member (o.dispatch.id ∷ seen) x.dispatch.id ≡ false) l
  unfolding member
  fresh_cons o seen [] n a = tt
  fresh_cons o seen (x ∷ l) n a = (
    ground (arith, differ, a.0),
    fresh_cons o seen l (λ m. n (mem-cons_of_mem x.dispatch.id m)) a.1,
  )
    where
      differ : (o.dispatch.id == x.dispatch.id) ≡ false
      differ = elim (Bool-cases (o.dispatch.id == x.dispatch.id)) [
        | inl same ↦ absurd (
            n (
              subst (λ z. Mem z (x.dispatch.id ∷ map outcome_id l))
                (sym ((text_eq_iff o.dispatch.id x.dispatch.id).0 same)) mem-cons_self))
        | inr other ↦ other
      ]

  own_member : (o : Outcome) (seen : List Text) → Within (o.dispatch.id ∷ seen) (some o)
  unfolding member
  own_member o seen = ground (arith, text_eq_iff o.dispatch.id o.dispatch.id)

  Loop-validate_outcomes :
      (seen : List Text) (before : Option Outcome) (l : List Outcome)
      → Within seen before
      → Loop seen before l
      → validate_outcomes json_valid tick seen before l ≡ none
  unfolding validate_outcomes
  Loop-validate_outcomes seen before [] w c = refl
  Loop-validate_outcomes seen before (o ∷ l) w c =
      let ids = Nodup-cons.0 c.distinct in
      goes_on seen before o l c.clean.0 c.fresh.0 (in_order seen before o l c.follow w c.fresh.0) (
        Loop-validate_outcomes (o.dispatch.id ∷ seen) (some o) l (own_member o seen) (record {
          clean = c.clean.1;
          distinct = ids.1;
          fresh = fresh_cons o seen l ids.0 c.fresh.1;
          sorted = c.sorted.1;
          follow = c.sorted.0;
        }))

All-fresh : (l : List Outcome) → All (λ x. member [] x.dispatch.id ≡ false) l
unfolding member
All-fresh [] = tt
All-fresh (x ∷ l) = (refl, All-fresh l)

pub CleanState-accepted :
    (json_valid : List ℕ → Bool) (s : State)
    → CleanState json_valid s
    → validate_initial_state json_valid s ≡ none
unfolding validate_initial_state
CleanState-accepted json_valid s c = rw c.counted (
    Loop-validate_outcomes json_valid s.tick [] none s.outcomes tt (record {
      clean = c.clean;
      distinct = c.distinct;
      fresh = All-fresh s.outcomes;
      sorted = c.sorted;
      follow = tt;
    }))

pub accepted-CleanState :
    (json_valid : List ℕ → Bool) (s : State)
    → validate_initial_state json_valid s ≡ none
    → CleanState json_valid s
unfolding validate_initial_state
accepted-CleanState json_valid s h =
    let counted : is_negative s.tick ≡ false = ground arith in
    let rest : validate_outcomes json_valid s.tick [] none s.outcomes ≡ none = ground arith in
    let l = validate_outcomes-Loop json_valid s.tick [] none s.outcomes rest in
    record { counted = counted; clean = l.clean; distinct = l.distinct; sorted = l.sorted }

-- `validateInitialState` accepts exactly the clean states: the tick is not negative, every outcome
-- is of a valid dispatch and of a tick in [1, tick], no dispatch ID comes twice, and the outcomes
-- stand in the order of tick and dispatch ID.
pub validate_initial_state_iff :
    (json_valid : List ℕ → Bool) (s : State)
    → (validate_initial_state json_valid s ≡ none) ↔ CleanState json_valid s
validate_initial_state_iff json_valid s =
    (accepted-CleanState json_valid s, CleanState-accepted json_valid s)
