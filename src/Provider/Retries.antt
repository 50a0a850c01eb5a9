-- ===== src/Provider/Retries.antt =====
-- A stream that is reopened until it has emitted (provider/retry_stream.go).
pub mod Bounds
pub mod Uses
use go_hydaelyn.Prelude.{
  ℕ, zero, suc, ◌+◌, ◌-◌, leb, Bool, true, false, not, ◌&&◌, ◌||◌, Option, none, some, List, Text,
  if◌then◌else◌,
}
use go_hydaelyn.Prelude.Int.{ℤ, pos, negsuc, int_ltb}
use go_hydaelyn.Message.Content.{is_none}
use go_hydaelyn.Provider.Streams.{
  Failure, EventKind, no_kind, done, error, content, Event, RetryProgress, World,
  is_retryable_error, progress_of, Approval, approved, declined, vetoed, approve_stream_retry,
}

pub data StreamError : Type 0 where
  plain : Failure → StreamError
  exhausted : Failure → StreamError
  partial : Option Failure → StreamError
  stream_closed : StreamError

-- What `Recv` returns: the event with an error or none, the event with its `Err` replaced and a
-- nil error, or `Event{}` with an error.
pub data Answer : Type 0 where
  received : Event → Option StreamError → Answer
  replaced : Event → StreamError → Answer
  failed : StreamError → Answer

-- `opens` and `asks` count the calls of `open` and of the approval.
pub record RetryState : Type 0 where
  pub stream : ℕ
  pub reads : ℕ
  pub retries : ℕ
  pub emitted : Bool
  pub is_terminal : Bool
  pub closed : Bool
  pub opens : ℕ
  pub asks : ℕ

-- The error that `openStreamWithRetry` returns, if any, and the counters it leaves.
abbrev pub Opened : Type 0
Opened = Option StreamError × RetryState

-- a failed open, given the rest of the loop
abbrev pub after_open : Failure → RetryState → Approval → Opened → Opened
after_open e s (vetoed f) k = (some (plain f), s)
after_open e s declined k = (some (plain e), s)
after_open e s approved k = k

abbrev pub open_once : RetryState → RetryState
open_once s = record s { opens = s.opens + 1 }

abbrev pub switched : RetryState → RetryState
switched s = record s { stream = s.opens; reads = 0 }

-- what `open` returned: a stream, or an error
abbrev pub opened_or : Option Failure → Opened → (Failure → Opened) → Opened
opened_or none o k = o
opened_or (some e) o k = k e

-- `openStreamWithRetry`, with the retries that are left; a stream that opens is the current one.
unfoldable pub open_stream_with_retry : World → ℕ → RetryState → Opened
unfolding approve_stream_retry
open_stream_with_retry w zero s =
    opened_or (w.opened s.opens) (none, open_once (switched s))
      (λ e. (some (if e.stops then plain e else exhausted e), open_once s))
open_stream_with_retry w (suc left) s =
    let tried = record (open_once s) { asks = s.asks + 1 } in
    let again = open_stream_with_retry w left (record tried { retries = s.retries + 1 }) in
    opened_or (w.opened s.opens) (none, open_once (switched s))
      (λ e.
        if e.stops
        then (some (plain e), open_once s)
        else after_open e tried (approve_stream_retry w s.asks (s.retries + 1) e) again)

abbrev pub is_error : EventKind → Bool
is_error error = true
is_error _ = false

-- `cause` in `classifyReceived`
abbrev pub cause_of : Event → Option Failure → Option Failure
cause_of e recv_err = if is_error e.kind && not (is_none e.err) then e.err else recv_err

-- What `classifyReceived` decides: an answer and the state, or a retry for a cause.
pub data Classified : Type 0 where
  answers : Answer → RetryState → Classified
  retries_for : Failure → Classified

abbrev plain_error : Option Failure → Option StreamError
plain_error none = none
plain_error (some e) = some (plain e)

-- an error behind content or the end of the stream
abbrev pub partial_error : Option Failure → Option StreamError
partial_error none = none
partial_error (some e) = some (partial (some e))

-- `classifyPartialFailure`
unfoldable pub classify_partial_failure : Event → Option Failure → RetryState → Classified
classify_partial_failure e cause s =
    if is_none cause && not (is_error e.kind)
    then answers (received e none) s
    else answers
        (if is_error e.kind then failed (partial cause) else received e (some (partial cause)))
        (record s { is_terminal = true })

-- an event without a kind or of an error, before and after content
abbrev pub classify_failure : Event → Option Failure → Option Failure → RetryState → Classified
classify_failure e recv_err none s =
    answers (received e (plain_error recv_err))
      (record s { is_terminal = s.is_terminal || is_error e.kind })
classify_failure e recv_err (some cause) s = retries_for cause

abbrev pub unkinded : Event → Option Failure → RetryState → Classified
unfolding classify_partial_failure
unkinded e recv_err s =
    if s.emitted
    then classify_partial_failure e (cause_of e recv_err) s
    else classify_failure e recv_err (cause_of e recv_err) s

abbrev pub end_answer : Event → Option Failure → Answer
end_answer e none = received e none
end_answer e (some f) = failed (partial (some f))

-- by the kind of the event
abbrev pub classify_kind : EventKind → Event → Option Failure → RetryState → Classified
unfolding unkinded
classify_kind done e recv_err s = answers (end_answer e recv_err) (record s { is_terminal = true })
classify_kind (content k) e recv_err s =
    answers (received e (partial_error recv_err))
      (record s { emitted = true; is_terminal = s.is_terminal || not (is_none recv_err) })
classify_kind no_kind e recv_err s = unkinded e recv_err s
classify_kind error e recv_err s = unkinded e recv_err s

-- `classifyReceived`
unfoldable pub classify_received : Event → Option Failure → RetryState → Classified
unfolding classify_kind
classify_received e recv_err s = classify_kind e.kind e recv_err s

-- `streamRetryFailure`
unfoldable pub stream_retry_failure : Event → StreamError → Answer
stream_retry_failure e f = if is_error e.kind then replaced e f else received e (some f)

abbrev pub Received : Type 0
Received = Option Answer × RetryState

-- the end of a round: the stream was reopened, or not
abbrev pub reopened : Event → Opened → (RetryState → Received) → Received
unfolding stream_retry_failure
reopened e (some f, s) k = (some (stream_retry_failure e f), s)
reopened e (none, s) k = k s

-- what follows the approval
abbrev pub after_approval :
    Event → Option Failure → Failure → RetryState → Approval → Received → Received
after_approval e recv_err cause s (vetoed f) k = (some (failed (plain f)), s)
after_approval e recv_err cause s declined k =
    if is_error e.kind
    then (some (received e (plain_error recv_err)), record s { is_terminal = true })
    else (some (received e (some (plain cause))), s)
after_approval e recv_err cause s approved k = k

-- a retry that the classification asks for; `left` are the retries that are left
unfoldable pub retry :
    World → Event → Option Failure → Failure → RetryState → (RetryState → Received) → Received
unfolding approve_stream_retry open_stream_with_retry stream_retry_failure
retry w e recv_err cause s k =
    if cause.stops
    then (some (failed (plain cause)), s)
    else if leb w.max_retries s.retries
    then (some (stream_retry_failure e (exhausted cause)), s)
    else let asked = record s { asks = s.asks + 1 } in
      let counting = record asked { retries = s.retries + 1 } in
      after_approval e recv_err cause asked (approve_stream_retry w s.asks (s.retries + 1) cause)
        (reopened e (open_stream_with_retry w (w.max_retries - counting.retries) counting) k)

abbrev pub classified_or : Classified → RetryState → (Failure → Received) → Received
classified_or (answers a s') s k = (some a, s')
classified_or (retries_for cause) s k = k cause

abbrev pub read_once : RetryState → RetryState
read_once s = record s { reads = s.reads + 1 }

-- One round of `Recv`, given the next round.
unfoldable pub receive_round : World → RetryState → (RetryState → Received) → Received
unfolding classify_received retry
receive_round w s k =
    if s.closed
    then (some (failed stream_closed), s)
    else let (e, recv_err) = w.next_event s.stream s.reads in
      let s' = read_once s in
      if s.is_terminal
      then (some (received e (plain_error recv_err)), s')
      else classified_or (classify_received e recv_err s') s'
          (λ cause. retry w e recv_err cause s' k)

-- `Recv` with fuel for the rounds; none is out of fuel.
unfoldable pub receive : World → ℕ → RetryState → Received
unfolding receive_round
receive w zero s = (none, s)
receive w (suc fuel) s = receive_round w s (receive w fuel)

-- enough fuel: every round but the last takes a retry
abbrev pub recv : World → RetryState → Received
recv w s = receive w (suc (w.max_retries - s.retries)) s

abbrev pub unopened : RetryState
unopened = record {
  stream = 0;
  reads = 0;
  retries = 0;
  emitted = false;
  is_terminal = false;
  closed = false;
  opens = 0;
  asks = 0;
}

-- `OpenRetryingStream`
abbrev pub open_retrying_stream : World → Opened
open_retrying_stream w = open_stream_with_retry w w.max_retries unopened

abbrev pub close : RetryState → RetryState
close s = record s { closed = true }
