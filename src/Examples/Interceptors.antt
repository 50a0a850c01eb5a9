-- ===== src/Examples/Interceptors.antt =====
-- A chain of two interceptors, one of which calls the tool twice (tool/interceptor.go).
use go_hydaelyn.Prelude.{
  ℕ, Bool, true, false, not, ◌&&◌, ◌≡◌, refl, Option, none, some, List, [], ◌∷◌, ◌++◌, Text,
  text_eq_instance, nat_eq,
}
use go_hydaelyn.Message.{ToolCall}
use go_hydaelyn.Durable.Runtime.{no_result}
use go_hydaelyn.Tool.Interceptors.{
  not_executed, wraps_not_executed, Program, calls_next, returns, panics, Interceptor, Driver,
  Trace, Outcome, returned, panicked, tool_driver, wrap_all, chain_interceptors, failed, protocol,
  twice, chain_of,
}
use go_hydaelyn.Tool.Interceptors.Idle.{Honest, denied_unexecuted}
use go_hydaelyn.Tool.Interceptors.Once.{RunsOnce, chain-RunsOnce}

abbrev encoding : ToolCall → Option (List ℕ)
encoding call = some call.arguments

abbrev ends_with : Outcome → Program
ends_with (returned result causes) = returns result causes []
ends_with (panicked reason) = panics reason

abbrev passes : Interceptor
passes call = calls_next call ends_with

abbrev repeats : Interceptor
repeats call = calls_next call (λ first. calls_next call ends_with)

abbrev answer : ToolCall → Trace → Outcome
answer call trace = returned no_result []

abbrev read_file : ToolCall
read_file = record { id = 1 ∷ []; name = 2 ∷ []; arguments = 3 ∷ []; operation_id = 4 ∷ [] }

abbrev chain : Driver → Driver
chain = wrap_all encoding 0 (passes ∷ repeats ∷ [])

repeated_refused :
    chain (tool_driver answer) read_file []
    ≡ (failed (protocol 1 twice ∷ protocol 1 twice ∷ []), read_file ∷ [])
unfolding wrap_all go_hydaelyn.Tool.Interceptors.wrap_interceptor
    go_hydaelyn.Tool.Interceptors.run_program go_hydaelyn.Tool.Interceptors.guarded
    go_hydaelyn.Tool.Interceptors.is_changed go_hydaelyn.Prelude.text_eq
    go_hydaelyn.Tool.Interceptors.checked_return go_hydaelyn.Tool.Interceptors.late_calls
repeated_refused = refl

chain-RunsOnce_example : RunsOnce encoding read_file [] (chain (tool_driver answer) read_file []).1
unfolding chain_interceptors
chain-RunsOnce_example =
    chain-RunsOnce encoding (some passes ∷ none ∷ some repeats ∷ []) chain answer read_file [] refl

abbrev refuses : Interceptor
refuses call = returns no_result (not_executed ∷ []) []

never_both : (b : Bool) → (not b && b) ≡ false
never_both true = refl
never_both false = refl

passes-Honest : Honest passes
passes-Honest call (returned result causes) = never_both (wraps_not_executed causes)
passes-Honest call (panicked reason) = tt

abbrev refusing : Driver → Driver
refusing = wrap_all encoding 0 (passes ∷ refuses ∷ [])

refused_idle :
    refusing (tool_driver answer) read_file [] ≡ (returned no_result (not_executed ∷ []), [])
unfolding wrap_all go_hydaelyn.Tool.Interceptors.wrap_interceptor
    go_hydaelyn.Tool.Interceptors.run_program go_hydaelyn.Tool.Interceptors.guarded
    go_hydaelyn.Tool.Interceptors.is_changed go_hydaelyn.Prelude.text_eq
    go_hydaelyn.Tool.Interceptors.checked_return wraps_not_executed
    go_hydaelyn.Tool.Interceptors.late_calls
refused_idle = refl

denied_unexecuted_example : (refusing (tool_driver answer) read_file []).1 ≡ []
unfolding chain_interceptors wraps_not_executed wrap_all
    go_hydaelyn.Tool.Interceptors.wrap_interceptor go_hydaelyn.Tool.Interceptors.run_program
    go_hydaelyn.Tool.Interceptors.guarded go_hydaelyn.Tool.Interceptors.is_changed
    go_hydaelyn.Prelude.text_eq go_hydaelyn.Tool.Interceptors.checked_return
denied_unexecuted_example =
    denied_unexecuted encoding (some passes ∷ some refuses ∷ []) refusing answer read_file [] refl
      (passes-Honest, ((λ call. refl), tt)) (λ c t. refl) refl
