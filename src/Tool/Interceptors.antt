-- ===== src/Tool/Interceptors.antt =====
-- Chains of tool interceptors (tool/interceptor.go). An interceptor is any program that may call the
-- driver that it is given; a driver is a function on the trace of the calls that the tool executed.
pub mod Once
pub mod Idle
use go_hydaelyn.Prelude.{
  ℕ, suc, ltb, Bool, true, false, not, ◌&&◌, ◌||◌, Option, none, some, List, [], ◌∷◌, ◌++◌, Text,
  ◌==◌, text_eq_instance, nat_eq, if◌then◌else◌,
}
use go_hydaelyn.Message.{ToolCall, ToolResult}

pub data ProtocolReason : Type 0 where
  after_return twice modified unencodable : ProtocolReason
  recovered : Text → ProtocolReason

-- What `errors.Is` and `errors.As` find in an error; `errors.Join` appends.
pub data Cause : Type 0 where
  not_executed : Cause
  protocol : ℕ → ProtocolReason → Cause
  other_cause : Text → Cause

abbrev is_not_executed : Cause → Bool
is_not_executed not_executed = true
is_not_executed _ = false

-- `errors.Is(err, ErrNotExecuted)`
unfoldable pub wraps_not_executed : List Cause → Bool
wraps_not_executed [] = false
wraps_not_executed (c ∷ causes) = is_not_executed c || wraps_not_executed causes

-- How a call of `Execute` ends; no causes are a nil error.
pub data Outcome : Type 0 where
  returned : ToolResult → List Cause → Outcome
  panicked : Text → Outcome

-- `Result{}`
abbrev zero_result : ToolResult
zero_result = record {
  tool_call_id = [];
  name = [];
  content = [];
  parts = [];
  structured = [];
  is_error = false;
}

abbrev pub failed : List Cause → Outcome
failed causes = returned zero_result causes

-- What an interceptor does with a call: it calls the next driver and goes on with the outcome, or
-- returns, after which others may still call the next driver, or panics.
pub data Program : Type 0 where
  calls_next : ToolCall → (Outcome → Program) → Program
  returns : ToolResult → List Cause → List ToolCall → Program
  panics : Text → Program

abbrev pub Interceptor : Type 0
Interceptor = ToolCall → Program

-- The calls that the tool executed, the latest first.
abbrev pub Trace : Type 0
Trace = List ToolCall

abbrev pub Driver : Type 0
Driver = ToolCall → Trace → Outcome × Trace

-- A tool: what it answers may depend on all earlier calls.
abbrev pub tool_driver : (ToolCall → Trace → Outcome) → Driver
tool_driver answer call trace = (answer call trace, call ∷ trace)

-- `calls`, `closed` and `protocolErr` of `wrapInterceptor`
pub record Guard : Type 0 where
  pub calls : ℕ
  pub closed : Bool
  pub protocol_err : List Cause

abbrev pub differs : List ℕ → Option (List ℕ) → Bool
differs expected none = true
differs expected (some candidate) = not (candidate == expected)

abbrev reason_of : Option (List ℕ) → ProtocolReason
reason_of none = unencodable
reason_of (some candidate) = modified

-- what the interceptor returned, given the violation and the number of calls
abbrev pub checked : List Cause → ℕ → ToolResult → List Cause → Outcome
checked (c ∷ violation) calls result causes = failed (causes ++ c ∷ violation)
checked [] calls result [] = returned result []
checked [] calls result (c ∷ causes) =
    if calls == 0 && not (wraps_not_executed (c ∷ causes))
    then returned result (not_executed ∷ c ∷ causes)
    else returned result (c ∷ causes)

-- the deferred function, when the interceptor returned
unfoldable pub checked_return : Guard → ToolResult → List Cause → Outcome
checked_return g result causes = checked g.protocol_err g.calls result causes

-- the deferred function, when the interceptor panicked
unfoldable pub recovered_panic : ℕ → Guard → Text → Outcome
recovered_panic index g reason = failed (
    if g.calls == 0
    then protocol index (recovered reason) ∷ not_executed ∷ []
    else protocol index (recovered reason) ∷ [])

module _ (fingerprint : ToolCall → Option (List ℕ)) where
  -- the candidate is not the call that the interceptor was given
  unfoldable pub is_changed : ToolCall → List ℕ → ToolCall → Bool
  is_changed call expected candidate =
      not (candidate.operation_id == call.operation_id) || differs expected (fingerprint candidate)

  -- `guarded.execute`
  unfoldable pub guarded :
      ℕ → Driver → ToolCall → List ℕ → ToolCall → Guard → Trace → Outcome × Guard × Trace
  guarded index next call expected candidate g trace =
      let counted = record g { calls = suc g.calls } in
      let twice_causes = protocol index twice ∷ [] in
      let changed = not_executed ∷ protocol index (reason_of (fingerprint candidate)) ∷ [] in
      let (outcome, trace') = next candidate trace in
      if g.closed
      then (failed (not_executed ∷ protocol index after_return ∷ []), g, trace)
      else if ltb 1 counted.calls
      then (failed twice_causes, record counted { protocol_err = twice_causes }, trace)
      else if is_changed call expected candidate
      then (failed changed, record counted { protocol_err = changed }, trace)
      else (outcome, counted, trace')

  -- the calls of `guarded.execute` after the interceptor returned
  unfoldable pub late_calls : ℕ → Driver → ToolCall → List ℕ → List ToolCall → Guard → Trace → Trace
  late_calls index next call expected [] g trace = trace
  late_calls index next call expected (c ∷ later) g trace =
      let (o, g', trace') = guarded index next call expected c g trace in
      late_calls index next call expected later g' trace'

  -- `interceptor.Execute` with the guarded driver
  unfoldable pub run_program :
      ℕ → Driver → ToolCall → List ℕ → Program → Guard → Trace → Outcome × Trace
  run_program index next call expected (calls_next candidate k) g trace =
      let (o, g', trace') = guarded index next call expected candidate g trace in
      run_program index next call expected (k o) g' trace'
  run_program index next call expected (returns result causes later) g trace = (
    checked_return g result causes,
    late_calls index next call expected later (record g { closed = true }) trace,
  )
  run_program index next call expected (panics reason) g trace =
      (recovered_panic index g reason, trace)

  -- with the fingerprint of the call
  abbrev pub wrapped :
      ℕ → Interceptor → Driver → ToolCall → Option (List ℕ) → Trace → Outcome × Trace
  wrapped index interceptor next call none trace = (failed (protocol index unencodable ∷ []), trace)
  wrapped index interceptor next call (some expected) trace =
      run_program index next call expected (interceptor call)
        (record { calls = 0; closed = false; protocol_err = [] }) trace

  -- `wrapInterceptor`
  unfoldable pub wrap_interceptor : ℕ → Interceptor → Driver → Driver
  wrap_interceptor index interceptor next call trace =
      wrapped index interceptor next call (fingerprint call) trace

  -- `for index := len(filtered) - 1; index >= 0; index--`
  unfoldable pub wrap_all : ℕ → List Interceptor → Driver → Driver
  wrap_all index [] driver = driver
  wrap_all index (x ∷ filtered) driver =
      wrap_interceptor index x (wrap_all (suc index) filtered driver)

abbrev pub set_ones : List (Option Interceptor) → List Interceptor
set_ones [] = []
set_ones (none ∷ interceptors) = set_ones interceptors
set_ones (some x ∷ interceptors) = x ∷ set_ones interceptors

abbrev pub chain_of : (ToolCall → Option (List ℕ)) → List Interceptor → Option (Driver → Driver)
chain_of fingerprint [] = none
chain_of fingerprint (x ∷ filtered) = some (wrap_all fingerprint 0 (x ∷ filtered))

-- `ChainInterceptors`
unfoldable pub chain_interceptors :
    (ToolCall → Option (List ℕ)) → List (Option Interceptor) → Option (Driver → Driver)
chain_interceptors fingerprint interceptors = chain_of fingerprint (set_ones interceptors)
