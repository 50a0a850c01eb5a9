-- ===== src/Tool/Interceptors/Once.antt =====
-- Interceptors let a tool run at most once, on the call it was given (tool/interceptor.go).
use go_hydaelyn.Prelude.{
  ℕ, suc, ltb, ◌≡◌, refl, true, false, not, ◌||◌, Option, none, some, List, [], ◌∷◌, ◌==◌,
  text_eq_instance, text_eq_iff, ◌⊎◌, inl, inr, Bool-cases, arith, ◌∙◌, sym, ap, lt→ltb, subst,
}
use go_hydaelyn.Message.{ToolCall}
use go_hydaelyn.Tool.Interceptors.{
  Program, calls_next, returns, panics, Interceptor, Trace, Driver, tool_driver, Guard, guarded,
  late_calls, run_program, wrap_interceptor, wrap_all, chain_interceptors, is_changed, differs,
  Outcome, chain_of, wrapped, set_ones,
}

module _ (fingerprint : ToolCall → Option (List ℕ)) where
  -- The same operation ID and the same encoding.
  abbrev pub Same : ToolCall → ToolCall → Type 0
  Same call c = (c.operation_id ≡ call.operation_id) × (fingerprint c ≡ fingerprint call)

  -- The tool was not executed, or once and on this call.
  abbrev pub RunsOnce : ToolCall → Trace → Trace → Type 0
  RunsOnce call trace after = (after ≡ trace) ⊎ ((c : ToolCall) × Same call c × (after ≡ c ∷ trace))

  abbrev GuardedDriver : Driver → Type 0
  GuardedDriver d = (call : ToolCall) (trace : Trace) → RunsOnce call trace (d call trace).1

  unchanged-Same :
      (call : ToolCall) (expected : List ℕ) (candidate : ToolCall)
      → fingerprint call ≡ some expected
      → is_changed fingerprint call expected candidate ≡ false
      → Same call candidate
  unfolding is_changed
  unchanged-Same call expected candidate e h = same (fingerprint candidate) refl h
    where
      same :
          (o : Option (List ℕ))
          → fingerprint candidate ≡ o
          → (not (candidate.operation_id == call.operation_id) || differs expected o) ≡ false
          → Same call candidate
      same none is h = ground arith
      same (some bytes) is h = (
        (text_eq_iff candidate.operation_id call.operation_id).0 (ground arith),
        is ∙ ap (λ b. some b) ((text_eq_iff bytes expected).0 (ground arith)) ∙ sym e,
      )

  along :
      {call c : ToolCall} {trace after : Trace}
      → Same call c
      → RunsOnce c trace after
      → RunsOnce call trace after
  along same (inl idle) = inl idle
  along same (inr (d, of_c, ran)) = inr (d, (of_c.0 ∙ same.0, of_c.1 ∙ same.1), ran)

  module _ (index : ℕ) (next : Driver) (call : ToolCall) (expected : List ℕ) where
    guarded-closed :
        (c : ToolCall) (g : Guard) (trace : Trace)
        → g.closed ≡ true
        → ((guarded fingerprint index next call expected c g trace).1 ≡ g)
          × ((guarded fingerprint index next call expected c g trace).2 ≡ trace)
    unfolding guarded
    guarded-closed c g trace shut = rw shut (refl, refl)

    pub late_calls-trace :
        (later : List ToolCall) (g : Guard) (trace : Trace)
        → g.closed ≡ true
        → late_calls fingerprint index next call expected later g trace ≡ trace
    unfolding late_calls
    late_calls-trace [] g trace shut = refl
    late_calls-trace (c ∷ later) g trace shut =
        let same = guarded-closed c g trace shut in
        rw (same.0, same.1) (late_calls-trace later g trace shut)

    -- Once the next driver was called, it is not called again.
    pub guarded-again :
        (c : ToolCall) (g : Guard) (trace : Trace) (n : ℕ)
        → g.closed ≡ false
        → g.calls ≡ suc n
        → ((guarded fingerprint index next call expected c g trace).1.closed ≡ false)
          × ((guarded fingerprint index next call expected c g trace).1.calls ≡ suc (suc n))
          × ((guarded fingerprint index next call expected c g trace).2 ≡ trace)
    unfolding guarded
    guarded-again c g trace n live used =
        let second : ltb 1 (suc g.calls) ≡ true = lt→ltb 1 (suc g.calls) (omega arith) in
        rw (live, second) (refl, omega arith, refl)

    run-again :
        (p : Program) (g : Guard) (trace : Trace) (n : ℕ)
        → g.closed ≡ false
        → g.calls ≡ suc n
        → (run_program fingerprint index next call expected p g trace).1 ≡ trace
    unfolding run_program
    run-again (calls_next c k) g trace n live used =
        let again = guarded-again c g trace n live used in
        run-again (k (guarded fingerprint index next call expected c g trace).0)
          (guarded fingerprint index next call expected c g trace).1
          (guarded fingerprint index next call expected c g trace).2 (suc n) again.0 again.1
        ∙ again.2
    run-again (returns result causes later) g trace n live used =
        late_calls-trace later (record g { closed = true }) trace refl
    run-again (panics reason) g trace n live used = refl

    -- The first call reaches the next driver only unchanged.
    guarded-first :
        (c : ToolCall) (g : Guard) (trace : Trace)
        → GuardedDriver next
        → fingerprint call ≡ some expected
        → g.closed ≡ false
        → g.calls ≡ 0
        → ((guarded fingerprint index next call expected c g trace).1.closed ≡ false)
          × ((guarded fingerprint index next call expected c g trace).1.calls ≡ 1)
          × RunsOnce call trace (guarded fingerprint index next call expected c g trace).2
    unfolding guarded
    guarded-first c g trace safe e live fresh =
        elim (Bool-cases (is_changed fingerprint call expected c)) [
          | inl changed ↦ rw (live, fresh, changed) (refl, refl, inl refl)
          | inr same ↦
              rw (live, fresh, same)
                (refl, refl, along (unchanged-Same call expected c e same) (safe c trace))
        ]

    run-first :
        (p : Program) (g : Guard) (trace : Trace)
        → GuardedDriver next
        → fingerprint call ≡ some expected
        → g.closed ≡ false
        → g.calls ≡ 0
        → RunsOnce call trace (run_program fingerprint index next call expected p g trace).1
    unfolding run_program
    run-first (calls_next c k) g trace safe e live fresh =
        let first = guarded-first c g trace safe e live fresh in
        let o = guarded fingerprint index next call expected c g trace in
        rw (run-again (k o.0) o.1 o.2 0 first.0 first.1) first.2
    run-first (returns result causes later) g trace safe e live fresh =
        inl (late_calls-trace later (record g { closed = true }) trace refl)
    run-first (panics reason) g trace safe e live fresh = inl refl

  wrapped-GuardedDriver :
      (index : ℕ) (x : Interceptor) (next : Driver)
      → GuardedDriver next
      → GuardedDriver (wrap_interceptor fingerprint index x next)
  unfolding wrap_interceptor
  wrapped-GuardedDriver index x next safe call trace = by_encoding (fingerprint call) refl
    where
      by_encoding :
          (o : Option (List ℕ))
          → fingerprint call ≡ o
          → RunsOnce call trace (wrapped fingerprint index x next call o trace).1
      by_encoding none e = inl refl
      by_encoding (some expected) e =
          run-first index next call expected (x call) _ trace safe e refl refl

  wrap_all-GuardedDriver :
      (index : ℕ) (filtered : List Interceptor) (driver : Driver)
      → GuardedDriver driver
      → GuardedDriver (wrap_all fingerprint index filtered driver)
  unfolding wrap_all
  wrap_all-GuardedDriver index [] driver safe = safe
  wrap_all-GuardedDriver index (x ∷ filtered) driver safe =
      wrapped-GuardedDriver index x (wrap_all fingerprint (suc index) filtered driver)
        (wrap_all-GuardedDriver (suc index) filtered driver safe)

  tool-GuardedDriver : (answer : ToolCall → Trace → Outcome) → GuardedDriver (tool_driver answer)
  tool-GuardedDriver answer call trace = inr (call, (refl, refl), refl)

  -- Whatever the interceptors of a chain do, later calls included, the chain executes the tool at most
  -- once, on a call of the same operation ID and the same encoding as the one it was given.
  pub chain-RunsOnce :
      (interceptors : List (Option Interceptor)) (chain : Driver → Driver)
      (answer : ToolCall → Trace → Outcome) (call : ToolCall) (trace : Trace)
      → chain_interceptors fingerprint interceptors ≡ some chain
      → RunsOnce call trace (chain (tool_driver answer) call trace).1
  unfolding chain_interceptors
  chain-RunsOnce interceptors chain answer call trace is = by_filtered (set_ones interceptors) is
    where
      by_filtered :
          (filtered : List Interceptor)
          → chain_of fingerprint filtered ≡ some chain
          → RunsOnce call trace (chain (tool_driver answer) call trace).1
      by_filtered [] is = cc
      by_filtered (x ∷ filtered) is =
          let made : wrap_all fingerprint 0 (x ∷ filtered) ≡ chain = ground arith in
          subst (λ (f : Driver → Driver). RunsOnce call trace (f (tool_driver answer) call trace).1)
            made
            (wrap_all-GuardedDriver 0 (x ∷ filtered) (tool_driver answer)
              (tool-GuardedDriver answer) call trace)
