-- ===== src/Examples/Retries.antt =====
-- A stream whose first open fails, and which fails again after content (provider/retry_stream.go).
use go_hydaelyn.Prelude.{ℕ, suc, ◌≤◌, true, false, Option, none, some, [], ◌∷◌, ◌≡◌, refl, zero}
use go_hydaelyn.Prelude.Int.{pos}
use go_hydaelyn.Provider.Streams.{Failure, EventKind, Event, World}
use go_hydaelyn.Provider.Retries.{Answer, RetryState, recv, open_retrying_stream}
use go_hydaelyn.Provider.Retries.Uses.{receives, use_stream, stream_opens_bounded}

abbrev dropped : Failure
dropped = record {
  reason = 120 ∷ [];
  stops = false;
  marked = some true;
  transient = false;
  suggested_delay = pos 0;
}

abbrev fails_first : ℕ → Option Failure
fails_first zero = some dropped
fails_first (suc n) = none

abbrev says_then_drops : ℕ → Event × Option Failure
says_then_drops zero =
    (record { kind = EventKind.content (116 ∷ []); fields = []; err = none }, none)
says_then_drops (suc n) = (record { kind = EventKind.error; fields = []; err = some dropped }, none)

abbrev flaky : World
flaky = record {
  max_retries = 2;
  max_delay = pos 30;
  delay = λ attempt. pos 0;
  should_retry = none;
  observer = none;
  opened = fails_first;
  next_event = λ stream. says_then_drops;
  ctx_before = λ ask. none;
  ctx_during = λ ask. none;
}

abbrev talking : RetryState
talking = use_stream flaky (receives ∷ []) (open_retrying_stream flaky).1

opened_twice : talking.opens ≡ 2
unfolding use_stream go_hydaelyn.Provider.Retries.receive
opened_twice = refl

stream_opens_bounded_example :
    ((use_stream flaky (receives ∷ receives ∷ []) (open_retrying_stream flaky).1).opens ≤ 3)
    × ((a : Answer) × ((recv flaky
            (use_stream flaky (receives ∷ receives ∷ []) (open_retrying_stream flaky).1)).0
          ≡ some a))
stream_opens_bounded_example = stream_opens_bounded flaky (receives ∷ receives ∷ [])
