-- ===== src/Examples/Drives.antt =====
-- A drive of one dispatch, and its batch step by step (orchestration/drive.go).
use mathlib.Core.List.{Perm}
use mathlib.Core.List.Perm
use go_hydaelyn.Prelude.{
  ℕ, suc, ◌≤◌, ◌≢◌, Bool, true, false, Option, none, some, List, [], ◌∷◌, ◌++◌, ◌≡◌, ◌↔◌, ◌⊎◌, refl,
  sym, ap, subst, map, Text, Result, ok, err, arith, length, append-nil, inl,
}
use go_hydaelyn.Prelude.Int.{pos}
use go_hydaelyn.Orchestration.{Dispatch, Outcome, State, DispatchExecution}
use go_hydaelyn.Orchestration.Validation.{validate_initial_state}
use go_hydaelyn.Orchestration.Batch.{
  Progress, launched_batch, BatchRun, stay, next, launches, reports, returns, any_failed,
  fold_batch, successes_of,
}
use go_hydaelyn.Orchestration.Batch.Launching.{reported, batch_bounded, batch_complete}
use go_hydaelyn.Orchestration.Drive.{World, DriveOptions, drive, empty_state}
use go_hydaelyn.Orchestration.Valid.{CleanState, validate_initial_state_iff}
use go_hydaelyn.Orchestration.Valid.Drives.{
  FairWorld, broke_off, drive_resumable, partial_state_refused,
}
use go_hydaelyn.Examples.Executions.{result}

abbrev named : ℕ → Dispatch
named n = record {
  id = n ∷ [];
  route = 114 ∷ [];
  request = record { prompt = []; budget = none };
  output_policy = record {
    schema = [];
    validate = false;
    repair = false;
    max_repair_attempts = pos 0;
  };
  handoff = none;
  metadata = [];
}

abbrev one_batch : List Dispatch
one_batch = named 97 ∷ []

abbrev executed : Dispatch → DispatchExecution
executed d = record { dispatch = d; result = result; error = none }

abbrev crashed : Dispatch → DispatchExecution
crashed d = record { dispatch = d; result = result; error = some (33 ∷ []) }

abbrev unlimited : Option ℕ
unlimited = none

abbrev schedule_once : State → Result Text (List Dispatch)
schedule_once s = elim s.outcomes [ [] ↦ ok one_batch | o ∷ os ↦ ok [] ]

-- Every batch is executed in order, without an error.
abbrev quiet_world : World
quiet_world = record {
  json_valid = λ document. true;
  ctx = λ round. none;
  scheduler = schedule_once;
  batch = λ round s limit ds. (map executed ds, none);
}

reported-executed : (ds : List Dispatch) → map reported (map executed ds) ≡ ds
reported-executed [] = refl
reported-executed (d ∷ ds) = ap (◌∷◌ d) (reported-executed ds)

quiet_world-FairWorld : FairWorld quiet_world
quiet_world-FairWorld = record {
  batches = λ round s limit ds. record {
    unlaunched = [];
    all =
        subst (λ l. Perm l ds) (sym (append-nil (map reported (map executed ds))))
          (subst (λ l. Perm l ds) (sym (reported-executed ds)) (Perm.refl ds));
  };
}

abbrev options : DriveOptions
options = record {
  max_ticks = pos 2;
  max_concurrency = pos 1;
  unlimited_concurrency = false;
  initial_state = none;
}

unbroken : broke_off (drive quiet_world options).1 ≡ false
unfolding drive go_hydaelyn.Prelude.is_blank
unbroken = refl

drive_resumable_example :
    validate_initial_state quiet_world.json_valid (drive quiet_world options).0 ≡ none
drive_resumable_example =
    drive_resumable quiet_world quiet_world-FairWorld options empty_state 0 refl refl refl
      (omega arith) unbroken

-- The drive runs the one dispatch and is done.
one_tick : (drive quiet_world options).0.tick ≡ pos 1
unfolding drive go_hydaelyn.Prelude.is_blank
one_tick = refl

validate_initial_state_iff_example :
    (validate_initial_state quiet_world.json_valid empty_state ≡ none)
    ↔ CleanState quiet_world.json_valid empty_state
validate_initial_state_iff_example = validate_initial_state_iff quiet_world.json_valid empty_state

abbrev mixed : List DispatchExecution
mixed = executed (named 97) ∷ crashed (named 98) ∷ []

abbrev won : Outcome
won = record { tick = pos 1; dispatch = named 97; result = result }

mixed_wins : successes_of (pos 1) mixed ≡ won ∷ []
unfolding successes_of
mixed_wins = refl

partial_state_refused_example :
    validate_initial_state quiet_world.json_valid (fold_batch empty_state mixed none).0 ≢ none
partial_state_refused_example =
    partial_state_refused quiet_world.json_valid empty_state mixed none won [] refl refl mixed_wins

abbrev after_launch : Progress
after_launch = record (launched_batch one_batch) { pending = []; running = one_batch; held = 1 }

abbrev after_report : Progress
after_report = record after_launch { running = []; sent = executed (named 97) ∷ [] }

abbrev after_return : Progress
after_return = record after_report { held = 0 }

launch_run : BatchRun (some 1) (launched_batch one_batch) after_launch
launch_run = next stay (launches (named 97) [] refl refl (omega arith) refl)

whole_run : BatchRun (some 1) (launched_batch one_batch) after_return
whole_run =
    next (next launch_run (reports [] [] (executed (named 97)) refl refl))
      (returns 0 refl (omega arith) refl)

batch_bounded_example :
    (length after_launch.running ≤ 1)
    × Perm
        (map reported after_launch.sent ++ (after_launch.running ++ after_launch.pending))
        one_batch
batch_bounded_example = batch_bounded 1 one_batch after_launch launch_run

batch_complete_example :
    Perm (map reported after_return.sent) one_batch
    ⊎ ((after_return.external ≡ true) ⊎ (any_failed after_return.sent ≡ true))
batch_complete_example =
    batch_complete (some 1) one_batch after_return whole_run
      (record { idle = refl; left = inl refl })
