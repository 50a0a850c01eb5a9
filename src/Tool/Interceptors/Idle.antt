-- ===== src/Tool/Interceptors/Idle.antt =====
-- An error that says that the tool was not executed is true (tool/interceptor.go).
use go_hydaelyn.Prelude.{
  ℕ, zero, suc, ltb, ◌≡◌, refl, Bool, true, false, not, ◌&&◌, ◌||◌, Option, none, some, List, [],
  ◌∷◌, ◌++◌, Text, text_eq_instance, nat_eq, ◌⊎◌, inl, inr, Bool-cases, arith, ◌∙◌, sym, ap, lt→ltb,
  subst, All,
}
use go_hydaelyn.Message.{ToolCall, ToolResult}
use go_hydaelyn.Tool.Interceptors.{
  Program, calls_next, returns, panics, Interceptor, Trace, Driver, tool_driver, Guard, guarded,
  Cause, run_program, wrap_interceptor, wrap_all, chain_interceptors, is_changed, Outcome, wrapped,
  set_ones, chain_of, returned, panicked, wraps_not_executed, checked, checked_return,
  recovered_panic,
}
use go_hydaelyn.Tool.Interceptors.Once.{late_calls-trace}

-- The outcome says that the tool was not executed.
abbrev pub denies : Outcome → Bool
denies (returned result causes) = wraps_not_executed causes
denies (panicked reason) = false

-- An interceptor says so only where all its calls of the next driver said so; `heard` is that one of
-- them did not.
abbrev pub HonestProgram : Bool → Program → Type 0
HonestProgram heard (calls_next c k) = (o : Outcome) → HonestProgram (heard || not (denies o)) (k o)
HonestProgram heard (returns result causes later) = (heard && wraps_not_executed causes) ≡ false
HonestProgram heard (panics reason) = Unit

abbrev pub Honest : Interceptor → Type 0
Honest x = (call : ToolCall) → HonestProgram false (x call)

-- Where the driver says so, nothing was executed.
abbrev Truthful : Driver → Type 0
Truthful d =
    (call : ToolCall) (trace : Trace) → denies (d call trace).0 ≡ true → (d call trace).1 ≡ trace

wraps-append :
    (a b : List Cause)
    → wraps_not_executed (a ++ b) ≡ (wraps_not_executed a || wraps_not_executed b)
unfolding wraps_not_executed
wraps-append [] b = refl
wraps-append (c ∷ a) b = ground (arith, wraps-append a b)

-- What holds between two calls of the next driver.
record Between (start trace : Trace) (g : Guard) (heard : Bool) : Type 0 where
  live : g.closed ≡ false
  unheard : heard ≡ false → trace ≡ start
  unused : g.calls ≡ 0 → (trace ≡ start) × (g.protocol_err ≡ [])
  violation : wraps_not_executed g.protocol_err ≡ true → trace ≡ start

-- Why a returned outcome says that the tool was not executed.
checked-reasons :
    (v : List Cause) (n : ℕ) (result : ToolResult) (causes : List Cause)
    → denies (checked v n result causes) ≡ true
    → (wraps_not_executed v ≡ true) ⊎ ((wraps_not_executed causes ≡ true) ⊎ (n ≡ 0))
unfolding wraps_not_executed
checked-reasons (c ∷ v) n result causes said =
    let both = wraps-append causes (c ∷ v) in ground (arith, both)
checked-reasons [] n result [] said = cc
checked-reasons [] n result (c ∷ causes) said = ground arith

module _ (start : Trace) where
  returned-Truthful :
      (g : Guard) (trace : Trace) (heard : Bool) (result : ToolResult) (causes : List Cause)
      → Between start trace g heard
      → (heard && wraps_not_executed causes) ≡ false
      → denies (checked_return g result causes) ≡ true
      → trace ≡ start
  unfolding checked_return
  returned-Truthful g trace heard result causes b honest said =
      elim (checked-reasons g.protocol_err g.calls result causes said) [
        | inl broken ↦ b.violation broken
        | inr (inl told) ↦ b.unheard (ground arith)
        | inr (inr none_of) ↦ (b.unused none_of).0
      ]

  panicked-Truthful :
      (index : ℕ) (g : Guard) (trace : Trace) (heard : Bool) (reason : Text)
      → Between start trace g heard
      → denies (recovered_panic index g reason) ≡ true
      → trace ≡ start
  unfolding recovered_panic wraps_not_executed
  panicked-Truthful index g trace heard reason b said = (b.unused (ground arith)).0

module _ (fingerprint : ToolCall → Option (List ℕ)) (index : ℕ) (next : Driver) (call : ToolCall)
    (expected : List ℕ) (start : Trace) where
  -- The next call of the next driver.
  abbrev After : ToolCall → Guard → Trace → Bool → Type 0
  After c g trace heard =
      let o = guarded fingerprint index next call expected c g trace in
      Between start o.2 o.1 (heard || not (denies o.0))

  first-Between :
      (c : ToolCall) (g : Guard) (trace : Trace) (heard : Bool)
      → Truthful next
      → Between start trace g heard
      → g.calls ≡ 0
      → After c g trace heard
  unfolding guarded wraps_not_executed
  first-Between c g trace heard truthful b fresh =
      elim (Bool-cases (is_changed fingerprint call expected c)) [
        | inl changed ↦
            rw (b.live, fresh, changed)
              record {
                live = refl;
                unheard = λ quiet. (b.unused fresh).0;
                unused = λ e. absurd (omega arith);
                violation = λ e. (b.unused fresh).0;
              }
        | inr same ↦
            rw (b.live, fresh, same)
              record {
                live = refl;
                unheard = λ quiet. truthful c trace (ground arith) ∙ (b.unused fresh).0;
                unused = λ e. absurd (omega arith);
                violation = λ e.
                    let told : wraps_not_executed [] ≡ true =
                      sym (ap wraps_not_executed (b.unused fresh).1) ∙ e in
                    cc;
              }
      ]

  again-Between :
      (c : ToolCall) (g : Guard) (trace : Trace) (heard : Bool) (n : ℕ)
      → Between start trace g heard
      → g.calls ≡ suc n
      → After c g trace heard
  unfolding guarded wraps_not_executed
  again-Between c g trace heard n b used =
      let second : ltb 1 (suc g.calls) ≡ true = lt→ltb 1 (suc g.calls) (omega arith) in
      rw (b.live, second)
        record {
          live = refl;
          unheard = λ quiet. absurd (ground arith);
          unused = λ e. absurd (omega arith);
          violation = λ e. cc;
        }

  next-Between :
      (c : ToolCall) (g : Guard) (trace : Trace) (heard : Bool)
      → Truthful next
      → Between start trace g heard
      → After c g trace heard
  next-Between c g trace heard truthful b = by_calls g.calls refl
    where
      by_calls : (n : ℕ) → g.calls ≡ n → After c g trace heard
      by_calls zero fresh = first-Between c g trace heard truthful b fresh
      by_calls (suc n) used = again-Between c g trace heard n b used

  run-Truthful :
      (p : Program) (g : Guard) (trace : Trace) (heard : Bool)
      → Truthful next
      → Between start trace g heard
      → HonestProgram heard p
      → denies (run_program fingerprint index next call expected p g trace).0 ≡ true
      → (run_program fingerprint index next call expected p g trace).1 ≡ start
  unfolding run_program
  run-Truthful (calls_next c k) g trace heard truthful b honest said =
      let o = guarded fingerprint index next call expected c g trace in
      run-Truthful (k o.0) o.1 o.2 (heard || not (denies o.0)) truthful
        (next-Between c g trace heard truthful b) (honest o.0) said
  run-Truthful (returns result causes later) g trace heard truthful b honest said =
      late_calls-trace fingerprint index next call expected later (record g { closed = true }) trace
        refl
      ∙ returned-Truthful start g trace heard result causes b honest said
  run-Truthful (panics reason) g trace heard truthful b honest said =
      panicked-Truthful start index g trace heard reason b said

module _ (fingerprint : ToolCall → Option (List ℕ)) where
  wrapped-Truthful :
      (index : ℕ) (x : Interceptor) (next : Driver)
      → Honest x
      → Truthful next
      → Truthful (wrap_interceptor fingerprint index x next)
  unfolding wrap_interceptor
  wrapped-Truthful index x next honest truthful call trace = by_encoding (fingerprint call)
    where
      by_encoding :
          (o : Option (List ℕ))
          → denies (wrapped fingerprint index x next call o trace).0 ≡ true
          → (wrapped fingerprint index x next call o trace).1 ≡ trace
      by_encoding none said = refl
      by_encoding (some expected) said =
          run-Truthful fingerprint index next call expected trace (x call) _ trace false truthful
            (record {
              live = refl;
              unheard = λ e. refl;
              unused = λ e. (refl, refl);
              violation = λ e. refl;
            })
            (honest call) said

  wrap_all-Truthful :
      (index : ℕ) (filtered : List Interceptor) (driver : Driver)
      → All Honest filtered
      → Truthful driver
      → Truthful (wrap_all fingerprint index filtered driver)
  unfolding wrap_all
  wrap_all-Truthful index [] driver honest truthful = truthful
  wrap_all-Truthful index (x ∷ filtered) driver honest truthful =
      wrapped-Truthful index x (wrap_all fingerprint (suc index) filtered driver) honest.0
        (wrap_all-Truthful (suc index) filtered driver honest.1 truthful)

  -- Let no interceptor claim that the tool was not executed unless all its calls of the next driver
  -- claimed it, and let the tool itself never claim it. When the chain returns an error that wraps
  -- `ErrNotExecuted`, the tool was not executed.
  pub denied_unexecuted :
      (interceptors : List (Option Interceptor)) (chain : Driver → Driver)
      (answer : ToolCall → Trace → Outcome) (call : ToolCall) (trace : Trace)
      → chain_interceptors fingerprint interceptors ≡ some chain
      → All Honest (set_ones interceptors)
      → ((c : ToolCall) (t : Trace) → denies (answer c t) ≡ false)
      → denies (chain (tool_driver answer) call trace).0 ≡ true
      → (chain (tool_driver answer) call trace).1 ≡ trace
  unfolding chain_interceptors
  denied_unexecuted interceptors chain answer call trace is honest never said =
      by_filtered (set_ones interceptors) honest is
    where
      by_filtered :
          (filtered : List Interceptor)
          → All Honest filtered
          → chain_of fingerprint filtered ≡ some chain
          → (chain (tool_driver answer) call trace).1 ≡ trace
      by_filtered [] honest is = cc
      by_filtered (x ∷ filtered) honest is =
          let made : wrap_all fingerprint 0 (x ∷ filtered) ≡ chain = ground arith in
          subst
            (λ (f : Driver → Driver).
              denies (f (tool_driver answer) call trace).0 ≡ true
              → (f (tool_driver answer) call trace).1 ≡ trace)
            made
            (wrap_all-Truthful 0 (x ∷ filtered) (tool_driver answer) honest
              (λ c t said. let no_it = never c t in cc) call trace)
            said
