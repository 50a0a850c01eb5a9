-- ===== src/Orchestration/Batch.antt =====
-- `executeBatch` (orchestration/drive.go). The launch loop and its goroutines are a step relation on
-- what waits, runs and has reported; the fold of the reports into the state is a function. A
-- goroutine's send, its cancel and the release of its permit are separate steps, in any order that
-- the code allows, and more.
pub mod Launching
use go_hydaelyn.Prelude.{
  ℕ, suc, ◌≤◌, ◌<◌, not, length, Bool, true, false, ◌||◌, Option, none, some, List, [], ◌∷◌, ◌++◌,
  ◌≡◌, text_ltb, if◌then◌else◌, Text, ◌⊎◌,
}
use go_hydaelyn.Prelude.Int.{ℤ, next_int}
use go_hydaelyn.Prelude.Sort.{sort_slice}
use go_hydaelyn.Message.Content.{is_none}
use go_hydaelyn.Agent.{AgentResult}
use go_hydaelyn.Durable.{ContextError}
use go_hydaelyn.Orchestration.{
  Dispatch, Outcome, State, DispatchExecution, DispatchError, DriveError, joined,
}
use go_hydaelyn.Orchestration.Validation.{outcome_less}

-- The batch while it runs: `held` counts the permits taken, `sent` the reports in the channel.
pub record Progress : Type 0 where
  pub pending : List Dispatch
  pub running : List Dispatch
  pub sent : List DispatchExecution
  pub held : ℕ
  pub external : Bool
  pub canceled : Bool

abbrev pub launched_batch : List Dispatch → Progress
launched_batch ds = record {
  pending = ds;
  running = [];
  sent = [];
  held = 0;
  external = false;
  canceled = false;
}

-- A permit is free; without a limit it always is.
abbrev pub Permit : Option ℕ → ℕ → Type 0
Permit none held = Unit
Permit (some limit) held = held < limit

unfoldable pub any_failed : List DispatchExecution → Bool
any_failed [] = false
any_failed (x ∷ rest) = not (is_none x.error) || any_failed rest

-- One step of the loop, of a goroutine, or of the caller's context. The permits are of a channel of
-- capacity `limit`, none if concurrency is unlimited.
pub data BatchStep (limit : Option ℕ) (p : Progress) (p' : Progress) : Type 0 where
  launches :
      (d : Dispatch) (rest : List Dispatch)
      → p.pending ≡ d ∷ rest
      → p.canceled ≡ false
      → Permit limit p.held
      → p' ≡ record p { pending = rest; running = d ∷ p.running; held = suc p.held }
      → BatchStep limit p p'
  reports :
      (before after : List Dispatch) (x : DispatchExecution)
      → p.running ≡ before ++ x.dispatch ∷ after
      → p' ≡ record p { running = before ++ after; sent = p.sent ++ x ∷ [] }
      → BatchStep limit p p'
  aborts : any_failed p.sent ≡ true → p' ≡ record p { canceled = true } → BatchStep limit p p'
  returns :
      (k : ℕ)
      → p.held ≡ suc k
      → length p.running ≤ k
      → p' ≡ record p { held = k }
      → BatchStep limit p p'
  cancels : p' ≡ record p { external = true; canceled = true } → BatchStep limit p p'

-- The batch after any number of steps.
pub data BatchRun (limit : Option ℕ) (p : Progress) : Progress → Type 0 where
  stay : BatchRun limit p p
  next :
      {before after : Progress}
      → BatchRun limit p before
      → BatchStep limit before after
      → BatchRun limit p after

-- `wait.Wait()` has returned after the loop.
pub record Ended (p : Progress) : Type 0 where
  pub idle : p.running ≡ []
  pub left : (p.pending ≡ []) ⊎ (p.canceled ≡ true)

-- `DispatchError`s and `Outcome`s of the reports, in the order of the channel.
unfoldable pub failures_of : List DispatchExecution → List DispatchError
failures_of [] = []
failures_of (x ∷ rest) = elim x.error [
  | none ↦ failures_of rest
  | some e ↦ record { dispatch = x.dispatch; result = x.result; error = e } ∷ failures_of rest
]

unfoldable pub successes_of : ℤ → List DispatchExecution → List Outcome
successes_of tick [] = []
successes_of tick (x ∷ rest) = elim x.error [
  | none ↦ record { tick = tick; dispatch = x.dispatch; result = x.result } ∷ successes_of tick rest
  | some e ↦ successes_of tick rest
]

abbrev pub id_less : Outcome → Outcome → Bool
id_less a b = text_ltb a.dispatch.id b.dispatch.id

abbrev pub failure_less : DispatchError → DispatchError → Bool
failure_less a b = text_ltb a.dispatch.id b.dispatch.id

-- `errors.Join`, nil if there is nothing to join
abbrev pub join_errors : List DispatchError → Option ContextError → Option DriveError
join_errors [] none = none
join_errors [] (some e) = some (joined [] (some e))
join_errors (f ∷ fs) e = some (joined (f ∷ fs) e)

-- From the closed channel to the return.
unfoldable pub fold_batch :
    State → List DispatchExecution → Option ContextError → State × Option DriveError
unfolding failures_of successes_of sort_slice outcome_less
fold_batch s records ctx_error =
    let successes = sort_slice id_less (successes_of (next_int s.tick) records) in
    (
      record s { outcomes = sort_slice outcome_less (s.outcomes ++ successes) },
      join_errors (sort_slice failure_less (failures_of records)) ctx_error,
    )
