-- ===== src/Orchestration/Valid/Batches.antt =====
-- A batch keeps the state clean (`validateBatch` and `executeBatch` of orchestration/drive.go).
use mathlib.Core.List.{Perm, Nodup, Nodup-cons, Nodup-nil, Nodup-append, perm_middle}
use mathlib.Core.List.Perm
use go_hydaelyn.Prelude.{
  ℕ, Bool, true, false, Option, none, List, [], ◌∷◌, ◌++◌, map, Text, ◌≡◌, refl, sym, ap, subst,
  arith, inl, inr, Option-cases, All, All-append, append_assoc,
}
use go_hydaelyn.Prelude.Int.{ℤ, pos, int_ltb, int_eq, next_int, int_max}
use go_hydaelyn.Prelude.Sort.{All-map, sort_slice, sort_slice-Perm, sort_slice-IsSorted}
use go_hydaelyn.Prelude.Distinct.{member, apart_ids, unseen-Disjoint, All-Perm}
use go_hydaelyn.Durable.{ContextError}
use go_hydaelyn.Orchestration.{Dispatch, Outcome, State, DispatchExecution, DispatchError}
use go_hydaelyn.Orchestration.Validation.{
  outcome_less, validate_dispatches, is_negative, outcome_id,
}
use go_hydaelyn.Orchestration.Batch.{failures_of, successes_of, id_less, fold_batch}
use go_hydaelyn.Orchestration.Batch.Launching.{reported}
use go_hydaelyn.Orchestration.Valid.{CleanState, is_clean, is_valid, outcome_less-StrictOrder}

abbrev pub dispatch_id : Dispatch → Text
dispatch_id d = d.id

-- What `validateBatch` has checked of a batch that it accepts.
pub record CleanBatch (json_valid : List ℕ → Bool) (seen : List Text) (ds : List Dispatch)
    : Type 0 where
  pub clean : All (λ d. is_valid json_valid d ≡ true) ds
  pub distinct : Nodup (map dispatch_id ds)
  pub fresh : All (λ d. member seen d.id ≡ false) ds

dispatch_passed :
    (json_valid : List ℕ → Bool) (seen : List Text) (d : Dispatch) (ds : List Dispatch)
    → validate_dispatches json_valid seen (d ∷ ds) ≡ none
    → (is_valid json_valid d ≡ true)
      × (member seen d.id ≡ false)
      × (validate_dispatches json_valid (d.id ∷ seen) ds ≡ none)
unfolding validate_dispatches
dispatch_passed json_valid seen d ds h = ground arith

pub validate_dispatches-CleanBatch :
    (json_valid : List ℕ → Bool) (seen : List Text) (ds : List Dispatch)
    → validate_dispatches json_valid seen ds ≡ none
    → CleanBatch json_valid seen ds
validate_dispatches-CleanBatch json_valid seen [] h = record {
  clean = tt;
  distinct = Nodup-nil;
  fresh = tt;
}
validate_dispatches-CleanBatch json_valid seen (d ∷ ds) h =
    let p = dispatch_passed json_valid seen d ds h in
    let rest = validate_dispatches-CleanBatch json_valid (d.id ∷ seen) ds p.2 in
    let ids = apart_ids dispatch_id d.id seen ds rest.fresh in
    record {
      clean = (p.0, rest.clean);
      distinct = Nodup-cons.1 (ids.0, rest.distinct);
      fresh = (p.1, ids.1);
    }

-- The next tick is one on, short of the end of the integers.
pub next_tick :
    (t : ℤ)
    → is_negative t ≡ false
    → int_ltb t (pos int_max) ≡ true
    → (is_negative (next_int t) ≡ false)
      × (int_ltb (next_int t) (pos 1) ≡ false)
      × (int_ltb t (next_int t) ≡ true)
next_tick t h k = ground arith

failure_id : DispatchError → Text
failure_id f = f.dispatch.id

report_id : DispatchExecution → Text
report_id x = x.dispatch.id

map-append : {A : Type 0} (f : A → Text) (l l' : List A) → map f (l ++ l') ≡ map f l ++ map f l'
map-append f [] l' = refl
map-append f (x ∷ l) l' = ap (◌∷◌ (f x)) (map-append f l l')

reassociate : (a b c d : List Text) → a ++ ((b ++ c) ++ d) ≡ (a ++ b) ++ (c ++ d)
reassociate a b c d = rw (append_assoc a b (c ++ d), append_assoc b c d) refl

All-split : {A : Type 0} (P : A → Type 0) (l l' : List A) → All P (l ++ l') → All P l
All-split P [] l' a = tt
All-split P (x ∷ l) l' a = (a.0, All-split P l l' a.1)

module _ (json_valid : List ℕ → Bool) where
  clean_success :
      (tick : ℤ) (x : DispatchExecution)
      → int_ltb tick (pos 1) ≡ false
      → is_valid json_valid x.dispatch ≡ true
      → is_clean json_valid tick (record { tick = tick; dispatch = x.dispatch; result = x.result })
        ≡ true
  clean_success tick x h k = ground arith

  later :
      (t t' : ℤ) (o : Outcome)
      → int_ltb t t' ≡ true
      → is_clean json_valid t o ≡ true
      → is_clean json_valid t' o ≡ true
  later t t' o h k = ground arith

  -- The reports are split into successes and failures.
  split_ids :
      (tick : ℤ) (rs : List DispatchExecution)
      → Perm
          (map outcome_id (successes_of tick rs) ++ map failure_id (failures_of rs))
          (map report_id rs)
  unfolding successes_of failures_of failure_id report_id
  split_ids tick [] = Perm.refl []
  split_ids tick (x ∷ rs) = elim (Option-cases x.error) [
    | inl h ↦ rw h (Perm.cons x.dispatch.id (split_ids tick rs))
    | inr (e, h) ↦ rw h (
        Perm.trans
          (perm_middle (map outcome_id (successes_of tick rs)) (map failure_id (failures_of rs)))
          (Perm.cons x.dispatch.id (split_ids tick rs)))
  ]

  successes-clean :
      (tick : ℤ) (rs : List DispatchExecution)
      → int_ltb tick (pos 1) ≡ false
      → All (λ d. is_valid json_valid d ≡ true) (map reported rs)
      → All (λ o. is_clean json_valid tick o ≡ true) (successes_of tick rs)
  unfolding successes_of
  successes-clean tick [] h a = tt
  successes-clean tick (x ∷ rs) h a = elim (Option-cases x.error) [
    | inl e ↦ rw e (clean_success tick x h a.0, successes-clean tick rs h a.1)
    | inr (f, e) ↦ rw e (successes-clean tick rs h a.1)
  ]

  -- A tick that moved on still bounds the outcomes there are.
  still-clean :
      (t t' : ℤ) (l : List Outcome)
      → int_ltb t t' ≡ true
      → All (λ o. is_clean json_valid t o ≡ true) l
      → All (λ o. is_clean json_valid t' o ≡ true) l
  still-clean t t' l h a = All-map _ _ l (λ o k. later t t' o h k) a

  -- The reports are of dispatches of the batch, none twice.
  pub record Reports (ds : List Dispatch) (rs : List DispatchExecution) : Type 0 where
    pub unlaunched : List Dispatch
    pub all : Perm (map reported rs ++ unlaunched) ds

  map_ids : (rs : List DispatchExecution) → map dispatch_id (map reported rs) ≡ map report_id rs
  unfolding report_id
  map_ids [] = refl
  map_ids (x ∷ rs) = ap (◌∷◌ x.dispatch.id) (map_ids rs)

  -- The IDs of the successes and of the outcomes before are distinct.
  ids_distinct :
      (s : State) (ds : List Dispatch) (rs : List DispatchExecution) (tick : ℤ)
      → CleanState json_valid s
      → CleanBatch json_valid (map outcome_id s.outcomes) ds
      → Reports ds rs
      → Nodup (map outcome_id s.outcomes ++ map outcome_id (successes_of tick rs))
  ids_distinct s ds rs tick c b r =
      let seen = map outcome_id s.outcomes in
      let whole : Nodup (seen ++ map dispatch_id ds) =
        Nodup-append.1 (c.distinct, b.distinct, unseen-Disjoint dispatch_id seen ds b.fresh) in
      let named : Perm (map dispatch_id ds) (map report_id rs ++ map dispatch_id r.unlaunched) =
        subst (λ l. Perm (map dispatch_id ds) (l ++ map dispatch_id r.unlaunched)) (map_ids rs)
          (subst (Perm (map dispatch_id ds)) (map-append dispatch_id (map reported rs) r.unlaunched)
            (Perm.map dispatch_id (Perm.symm r.all))) in
      let sides =
        Perm.trans named
          (Perm.append_right (map dispatch_id r.unlaunched) (Perm.symm (split_ids tick rs))) in
      let all = Perm.nodup (Perm.append_left seen sides) whole in
      let one = map outcome_id (successes_of tick rs) in
      let two = map failure_id (failures_of rs) in
      let shaped : Nodup ((seen ++ one) ++ (two ++ map dispatch_id r.unlaunched)) =
        subst Nodup (reassociate seen one two (map dispatch_id r.unlaunched)) all in
      (Nodup-append.0 shaped).0

  pub folded-CleanState :
      (s : State) (ds : List Dispatch) (rs : List DispatchExecution) (e : Option ContextError)
      → CleanState json_valid s
      → int_ltb s.tick (pos int_max) ≡ true
      → CleanBatch json_valid (map outcome_id s.outcomes) ds
      → Reports ds rs
      → CleanState json_valid (record (fold_batch s rs e).0 { tick = next_int s.tick })
  unfolding fold_batch
  folded-CleanState s ds rs e c small b r =
      let t = next_tick s.tick c.counted small in
      let wins = successes_of (next_int s.tick) rs in
      let valid =
        (All-split (λ d. is_valid json_valid d ≡ true) (map reported rs) r.unlaunched
          (All-Perm (is_valid json_valid) true (Perm.symm r.all) b.clean)) in
      let ordered = sort_slice-Perm id_less wins in
      let shuffled : Perm (sort_slice outcome_less (s.outcomes ++ sort_slice id_less wins))
          (s.outcomes ++ wins) =
        Perm.trans (sort_slice-Perm outcome_less _) (Perm.append_left s.outcomes ordered) in
      record {
        counted = t.0;
        clean = All-Perm (is_clean json_valid (next_int s.tick)) true (Perm.symm shuffled) (
            All-append _ s.outcomes wins (still-clean s.tick _ s.outcomes t.2 c.clean)
              (successes-clean (next_int s.tick) rs t.1 valid));
        distinct = Perm.nodup (Perm.symm (Perm.map outcome_id shuffled)) (
            subst Nodup (sym (map-append outcome_id s.outcomes wins))
              (ids_distinct s ds rs (next_int s.tick) c b r));
        sorted =
            sort_slice-IsSorted outcome_less-StrictOrder (s.outcomes ++ sort_slice id_less wins);
      }
