-- ===== src/Orchestration/Valid/Drives.antt =====
-- What `Drive` returns (orchestration/drive.go): how far it goes, and that a drive that was not
-- broken off in a batch can be taken up from its state.
use mathlib.Core.List.{Perm}
use mathlib.Core.List.Perm
use go_hydaelyn.Prelude.{
  ℕ, zero, suc, ◌+◌, ◌≤◌, ◌<◌, ◌≡◌, refl, sym, ap, subst, Bool, true, false, ◌||◌, Option, none,
  some, List, [], ◌∷◌, ◌++◌, map, ◌≢◌, ◌==◌, ok, arith, inl, inr, Option-cases, All,
}
use go_hydaelyn.Prelude.Int.{ℤ, pos, int_ltb, next_int, int_max, int_eq}
use go_hydaelyn.Prelude.Sort.{sort_slice, sort_slice-Perm}
use go_hydaelyn.Prelude.Distinct.{All-Perm}
use go_hydaelyn.Durable.{ContextError}
use go_hydaelyn.Orchestration.{
  Dispatch, Outcome, State, DispatchExecution, DispatchError, DriveError, joined, max_ticks_reached,
}
use go_hydaelyn.Orchestration.Validation.{
  is_negative, outcome_id, validate_batch, validate_dispatches, validate_initial_state,
  validate_outcomes, outcome_less,
}
use go_hydaelyn.Orchestration.Batch.{
  fold_batch, join_errors, failures_of, failure_less, successes_of, id_less,
}
use go_hydaelyn.Orchestration.Drive.{
  World, DriveOptions, Driven, Scheduled, stopped, finished, batch_of, accepted, schedule,
  after_batch, ended_or, drive_loop, drive, initial, empty_state, tick_limit, permits,
}
use go_hydaelyn.Orchestration.Valid.{CleanState, CleanState-accepted, accepted-CleanState, is_clean}
use go_hydaelyn.Orchestration.Valid.Batches.{
  CleanBatch, validate_dispatches-CleanBatch, Reports, folded-CleanState, next_tick,
}

-- The executions that a batch reports are of its dispatches, none twice, as `batch_bounded` of the
-- launch loop shows.
pub record FairWorld (w : World) : Type 0 where
  pub batches :
      (round : ℕ) (s : State) (limit : Option ℤ) (ds : List Dispatch)
      → Reports w.json_valid ds (w.batch round s limit ds).0

-- The drive was broken off in a batch.
abbrev pub broke_off : Option DriveError → Bool
broke_off (some (joined fs e)) = true
broke_off _ = false

-- What a drive returned that began at tick `count` and was allowed `left` ticks.
pub record Resumes (w : World) (count left : ℕ) (o : Driven) : Type 0 where
  pub clean : broke_off o.1 ≡ false → CleanState w.json_valid o.0
  pub ticks : ℕ
  pub within : ticks ≤ left
  pub is_tick : o.0.tick ≡ pos (count + ticks)

accepted_batch :
    (ds : List Dispatch) (d : Dispatch) (rest : List Dispatch)
    → accepted ds ≡ batch_of d rest
    → ds ≡ d ∷ rest
accepted_batch [] d rest h = cc
accepted_batch (x ∷ ds) d rest h = ground arith

schedule_batch :
    (w : World) (round : ℕ) (s : State) (d : Dispatch) (rest : List Dispatch)
    → schedule w round s ≡ batch_of d rest
    → CleanBatch w.json_valid (map outcome_id s.outcomes) (d ∷ rest)
unfolding schedule validate_batch
schedule_batch w round s d rest h =
    let passed : validate_dispatches w.json_valid (map outcome_id s.outcomes) (d ∷ rest) ≡ none =
      ground arith in
    validate_dispatches-CleanBatch w.json_valid (map outcome_id s.outcomes) (d ∷ rest) passed

schedule_stop :
    (w : World) (round : ℕ) (s : State) (e : DriveError)
    → schedule w round s ≡ stopped e
    → broke_off (some e) ≡ false
unfolding schedule validate_batch
schedule_stop w round s e h = ground arith

no_tick :
    (w : World) (s : State) (count left : ℕ) (e : Option DriveError)
    → s.tick ≡ pos count
    → (broke_off e ≡ false → CleanState w.json_valid s)
    → Resumes w count left (s, e)
no_tick w s count left e at c = record {
  clean = c;
  ticks = 0;
  within = omega arith;
  is_tick = rw at (ap pos (omega arith));
}

ended-Resumes :
    (w : World) (round : ℕ) (s : State) (count left : ℕ) (x : Scheduled)
    (k : Dispatch → List Dispatch → Driven)
    → CleanState w.json_valid s
    → s.tick ≡ pos count
    → schedule w round s ≡ x
    → ((d : Dispatch) (ds : List Dispatch)
        → CleanBatch w.json_valid (map outcome_id s.outcomes) (d ∷ ds)
        → Resumes w count left (k d ds))
    → Resumes w count left (ended_or s x k)
ended-Resumes w round s count left (stopped e) k c at h rest =
    no_tick w s count left (some e) at (λ b. c)
ended-Resumes w round s count left finished k c at h rest = no_tick w s count left none at (λ b. c)
ended-Resumes w round s count left (batch_of d ds) k c at h rest =
    rest d ds (schedule_batch w round s d ds h)

joined_breaks :
    (fs : List DispatchError) (e : Option ContextError) (x : DriveError)
    → join_errors fs e ≡ some x
    → broke_off (some x) ≡ true
joined_breaks fs e x h = ground arith

after-Resumes :
    (w : World) (count left : ℕ) (s : State) (o : Option DriveError) (k : State → Driven)
    → s.tick ≡ pos count
    → count < int_max
    → ((x : DriveError) → o ≡ some x → broke_off (some x) ≡ true)
    → Resumes w (suc count) left (k (record s { tick = next_int s.tick }))
    → Resumes w count (suc left) (after_batch (s, o) k)
after-Resumes w count left s (some x) k at small breaks rest =
    no_tick w s count (suc left) (some x) at (λ b. let t = breaks x refl in cc)
after-Resumes w count left s none k at small breaks rest = record {
  clean = rest.clean;
  ticks = suc rest.ticks;
  within = omega (arith, rest.within);
  is_tick = rw rest.is_tick (ap pos (omega arith));
}

tick_small : (t : ℤ) (count : ℕ) → t ≡ pos count → count < int_max → int_ltb t (pos int_max) ≡ true
tick_small t count at small = ground arith

tick_next : (t : ℤ) (count : ℕ) → t ≡ pos count → count < int_max → next_int t ≡ pos (suc count)
tick_next t count at small = ground arith

folded-Resumes :
    (w : World) (limit : Option ℤ) (count left round : ℕ) (s : State) (rs : List DispatchExecution)
    (e : Option ContextError)
    → s.tick ≡ pos count
    → count < int_max
    → Resumes w (suc count) left (
        drive_loop w limit left
          (suc round)
          (record (fold_batch s rs e).0 { tick = next_int s.tick }))
    → Resumes w count
        (suc left)
        (after_batch (fold_batch s rs e) (drive_loop w limit left (suc round)))
unfolding fold_batch
folded-Resumes w limit count left round s rs e at small rest =
    after-Resumes w count left (fold_batch s rs e).0 (fold_batch s rs e).1
      (drive_loop w limit left (suc round)) at small
      (joined_breaks (sort_slice failure_less (failures_of rs)) e) rest

pub drive_loop-Resumes :
    (w : World)
    → FairWorld w
    → (limit : Option ℤ) (left round count : ℕ) (s : State) → CleanState w.json_valid s
    → s.tick ≡ pos count
    → count + left ≤ int_max
    → Resumes w count left (drive_loop w limit left round s)
unfolding drive_loop
drive_loop-Resumes w fair limit zero round count s c at room =
    ended-Resumes w round s count 0 (schedule w round s) _ c at refl
      (λ d ds b. no_tick w s count 0 (some max_ticks_reached) at (λ h. c))
drive_loop-Resumes w fair limit (suc left) round count s c at room =
    let small : count < int_max = omega (arith, room) in
    ended-Resumes w round s count (suc left) (schedule w round s) _ c at refl (λ d ds b.
      let rs = (w.batch round s limit (d ∷ ds)).0 in
      let e = (w.batch round s limit (d ∷ ds)).1 in
      let folded =
        folded-CleanState w.json_valid s (d ∷ ds) rs e c (tick_small s.tick count at small) b
          (fair.batches round s limit (d ∷ ds)) in
      folded-Resumes w limit count left round s rs e at small (
        drive_loop-Resumes w fair limit left (suc round) (suc count)
          (record (fold_batch s rs e).0 { tick = next_int s.tick }) folded
          (tick_next s.tick count at small) (omega (arith, room))))

empty_accepted : (json_valid : List ℕ → Bool) → validate_initial_state json_valid empty_state ≡ none
unfolding validate_initial_state validate_outcomes
empty_accepted json_valid = refl

started-Clean :
    (w : World) (o : DriveOptions) (s : State) → initial w o ≡ ok s → CleanState w.json_valid s
started-Clean w o s h = elim (Option-cases o.initial_state) [
  | inl fresh ↦
      let is : empty_state ≡ s = ground arith in
      subst (CleanState w.json_valid) is
        (accepted-CleanState w.json_valid empty_state (empty_accepted w.json_valid))
  | inr (s0, given) ↦
      let valid : validate_initial_state w.json_valid s0 ≡ none = ground arith in
      let is : s0 ≡ s = ground arith in
      subst (CleanState w.json_valid) is (accepted-CleanState w.json_valid s0 valid)
]

drive-Resumes :
    (w : World)
    → FairWorld w
    → (o : DriveOptions) (s : State) (count : ℕ)
    → is_negative o.max_ticks || is_negative o.max_concurrency ≡ false
    → initial w o ≡ ok s
    → s.tick ≡ pos count
    → count + tick_limit o.max_ticks ≤ int_max
    → Resumes w count (tick_limit o.max_ticks) (drive w o)
unfolding drive
drive-Resumes w fair o s count limits h at room =
    rw (limits, h)
      (drive_loop-Resumes w fair (permits o) (tick_limit o.max_ticks) 0 count s
        (started-Clean w o s h) at room)

-- Where such a drive does not end in a failed or canceled batch, the state that it returns, with
-- its error or without, is accepted as the initial state of another drive.
pub drive_resumable :
    (w : World)
    → FairWorld w
    → (o : DriveOptions) (s : State) (count : ℕ)
    → is_negative o.max_ticks || is_negative o.max_concurrency ≡ false
    → initial w o ≡ ok s
    → s.tick ≡ pos count
    → count + tick_limit o.max_ticks ≤ int_max
    → broke_off (drive w o).1 ≡ false
    → validate_initial_state w.json_valid (drive w o).0 ≡ none
drive_resumable w fair o s count limits h at room b =
    CleanState-accepted w.json_valid (drive w o).0
      ((drive-Resumes w fair o s count limits h at room).clean b)

success_tick :
    (tick : ℤ) (rs : List DispatchExecution)
    → All (λ o. (o.tick == tick) ≡ true) (successes_of tick rs)
unfolding successes_of
success_tick tick [] = tt
success_tick tick (x ∷ rs) = elim (Option-cases x.error) [
  | inl e ↦ rw e ((int_eq.eqb_iff tick tick).1 refl, success_tick tick rs)
  | inr (f, e) ↦ rw e (success_tick tick rs)
]

-- A success of the next tick is out of range for this one.
late_outcome :
    (t : ℤ)
    → int_ltb t (next_int t) ≡ true
    → (rs : List DispatchExecution) (won : Outcome) (more : List Outcome)
    → successes_of (next_int t) rs ≡ won ∷ more
    → int_ltb t won.tick ≡ true
late_outcome t up rs won more wins =
    let ticks =
      subst (All (λ o. (o.tick == next_int t) ≡ true)) wins (success_tick (next_int t) rs) in
    let is : won.tick ≡ next_int t = (int_eq.eqb_iff won.tick (next_int t)).0 ticks.0 in
    subst (λ z. int_ltb t z ≡ true) (sym is) up

shuffled :
    (s : State) (wins : List Outcome)
    → Perm (sort_slice outcome_less (s.outcomes ++ sort_slice id_less wins)) (s.outcomes ++ wins)
shuffled s wins =
    Perm.trans (sort_slice-Perm outcome_less (s.outcomes ++ sort_slice id_less wins))
      (Perm.append_left s.outcomes (sort_slice-Perm id_less wins))

All-second : {A : Type 0} (P : A → Type 0) (l l' : List A) → All P (l ++ l') → All P l'
All-second P [] l' a = a
All-second P (x ∷ l) l' a = All-second P l l' a.1

-- A state that a batch with an error left, some of whose dispatches succeeded, is refused as an
-- initial state: it holds outcomes of a tick that was not completed.
pub partial_state_refused :
    (json_valid : List ℕ → Bool) (s : State) (rs : List DispatchExecution) (e : Option ContextError)
    (won : Outcome) (more : List Outcome)
    → is_negative s.tick ≡ false
    → int_ltb s.tick (pos int_max) ≡ true
    → successes_of (next_int s.tick) rs ≡ won ∷ more
    → validate_initial_state json_valid (fold_batch s rs e).0 ≢ none
unfolding fold_batch
partial_state_refused json_valid s rs e won more counted small wins h =
    let c = accepted-CleanState json_valid (fold_batch s rs e).0 h in
    let late = late_outcome s.tick (next_tick s.tick counted small).2 rs won more wins in
    let all =
      All-Perm (is_clean json_valid s.tick) true (shuffled s (successes_of (next_int s.tick) rs))
        c.clean in
    let kept = All-second (λ o. is_clean json_valid s.tick o ≡ true) s.outcomes _ all in
    let head : All (λ o. is_clean json_valid s.tick o ≡ true) (won ∷ more) =
      subst (All (λ o. is_clean json_valid s.tick o ≡ true)) wins kept in
    ground (arith, head.0, late)
