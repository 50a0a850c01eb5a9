-- ===== src/Provider/Retries/Bounds.antt =====
-- How often a retrying stream is opened (provider/retry_stream.go).
use go_hydaelyn.Prelude.{
  ℕ, zero, suc, ◌+◌, ◌-◌, ◌≤◌, ◌<◌, leb, Bool, true, false, not, ◌&&◌, Option, none, some, ◌≡◌,
  refl, if◌then◌else◌, arith,
}
use go_hydaelyn.Message.Content.{is_none}
use go_hydaelyn.Provider.Streams.{
  Failure, EventKind, no_kind, done, error, content, Event, World, Approval, approved, declined,
  vetoed, approve_stream_retry,
}
use go_hydaelyn.Provider.Retries.{
  Answer, RetryState, Opened, after_open, opened_or, open_once, open_stream_with_retry, is_error,
  cause_of, Classified, answers, retries_for, classify_partial_failure, classify_failure, unkinded,
  classify_kind, classify_received, stream_retry_failure, Received, reopened, after_approval, retry,
  classified_or, read_once, receive_round, receive,
}

-- Every open but the first was a retry, and the retries are within the limit.
pub record Bounded (w : World) (s : RetryState) : Type 0 where
  pub opens : s.opens ≤ suc s.retries
  pub retries : s.retries ≤ w.max_retries

-- What opening with retries makes of the counters.
pub record Opens (w : World) (s : RetryState) (o : Opened) : Type 0 where
  pub bounded : Bounded w o.1
  pub grows : s.retries ≤ o.1.retries

module _ (w : World) where
  first_open :
      (s : RetryState) → s.opens ≤ s.retries → s.retries ≤ w.max_retries → Bounded w (open_once s)
  first_open s o r = record { opens = omega (arith, o); retries = r }

  after_open-Opens :
      (s tried : RetryState) (e : Failure) (a : Approval) (k : Opened)
      → Bounded w tried
      → s.retries ≤ tried.retries
      → Opens w s k
      → Opens w s (after_open e tried a k)
  after_open-Opens s tried e approved k b g h = h
  after_open-Opens s tried e declined k b g h = record { bounded = b; grows = g }
  after_open-Opens s tried e (vetoed f) k b g h = record { bounded = b; grows = g }

  Opens-if :
      (s : RetryState) (b : Bool) (o k : Opened)
      → Opens w s o
      → Opens w s k
      → Opens w s (if b then o else k)
  Opens-if s true o k p t = p
  Opens-if s false o k p t = t

  Opens-opened :
      (s : RetryState) (o : Option Failure) (p : Opened) (k : Failure → Opened)
      → Opens w s p
      → ((e : Failure) → Opens w s (k e))
      → Opens w s (opened_or o p k)
  Opens-opened s none p k h t = h
  Opens-opened s (some e) p k h t = t e

  pub open-Opens :
      (left : ℕ) (s : RetryState)
      → s.opens ≤ s.retries
      → s.retries + left ≤ w.max_retries
      → Opens w s (open_stream_with_retry w left s)
  unfolding open_stream_with_retry
  open-Opens zero s o r =
      let once : Bounded w (open_once s) = record {
        opens = omega (arith, o);
        retries = omega (arith, r);
      } in
      Opens-opened s (w.opened s.opens) _ _
        (record {
          bounded = record { opens = once.opens; retries = once.retries };
          grows = omega arith;
        })
        (λ f. record { bounded = once; grows = omega arith })
  open-Opens (suc left) s o r =
      let tried = record (open_once s) { asks = s.asks + 1 } in
      let retried = record tried { retries = s.retries + 1 } in
      let again = open-Opens left retried (omega (arith, o)) (omega (arith, r)) in
      let rest : Opens w s (open_stream_with_retry w left retried) = record {
        bounded = again.bounded;
        grows = omega (arith, again.grows);
      } in
      let once : Bounded w (open_once s) = record {
        opens = omega (arith, o);
        retries = omega (arith, r);
      } in
      let asked : Bounded w tried = record { opens = once.opens; retries = once.retries } in
      Opens-opened s (w.opened s.opens) _ _
        (record {
          bounded = record { opens = once.opens; retries = once.retries };
          grows = omega arith;
        })
        (λ f.
          Opens-if s f.stops _ _ (record { bounded = once; grows = omega arith })
            (after_open-Opens s tried f (approve_stream_retry w s.asks (s.retries + 1) f) _ asked
              (omega arith) rest))

  -- The call returns, and leaves the counters bounded.
  pub record Settles (r : Received) : Type 0 where
    pub answer : Answer
    pub is_answer : r.0 ≡ some answer
    pub bounded : Bounded w r.1

  settled : (a : Answer) (s : RetryState) → Bounded w s → Settles (some a, s)
  settled a s b = record { answer = a; is_answer = refl; bounded = b }

  Settles-if :
      (b : Bool) (o k : Received)
      → Settles o
      → (b ≡ false → Settles k)
      → Settles (if b then o else k)
  Settles-if true o k p t = p
  Settles-if false o k p t = t refl

  reopened-Settles :
      (e : Event) (s : RetryState) (o : Opened) (k : RetryState → Received)
      → Opens w s o
      → ((s' : RetryState) → Bounded w s' → s.retries ≤ s'.retries → Settles (k s'))
      → Settles (reopened e o k)
  unfolding reopened
  reopened-Settles e s (some f, s') k h rest = settled (stream_retry_failure e f) s' h.bounded
  reopened-Settles e s (none, s') k h rest = rest s' h.bounded h.grows

  after_approval-Settles :
      (e : Event) (recv_err : Option Failure) (cause : Failure) (s : RetryState) (a : Approval)
      (k : Received)
      → Bounded w s
      → Settles k
      → Settles (after_approval e recv_err cause s a k)
  after_approval-Settles e recv_err cause s approved k b h = h
  after_approval-Settles e recv_err cause s (vetoed f) k b h = settled _ s b
  after_approval-Settles e recv_err cause s declined k b h =
      Settles-if (is_error e.kind) _ _
        (settled _ _ (record { opens = b.opens; retries = b.retries })) (λ _. settled _ s b)

  retry-Settles :
      (e : Event) (recv_err : Option Failure) (cause : Failure) (s : RetryState)
      (k : RetryState → Received)
      → Bounded w s
      → ((s' : RetryState) → Bounded w s' → s.retries < s'.retries → Settles (k s'))
      → Settles (retry w e recv_err cause s k)
  unfolding retry
  retry-Settles e recv_err cause s k b rest = Settles-if cause.stops _ _ (settled _ s b) (λ _.
      Settles-if (leb w.max_retries s.retries) _ _ (settled _ s b) (λ more.
        let asked = record s { asks = s.asks + 1 } in
        let counting = record asked { retries = s.retries + 1 } in
        let below : s.retries < w.max_retries = ground arith in
        after_approval-Settles e recv_err cause asked
          (approve_stream_retry w s.asks (s.retries + 1) cause) _
          (record { opens = b.opens; retries = b.retries })
          (reopened-Settles e counting
            (open_stream_with_retry w (w.max_retries - counting.retries) counting) k
            (open-Opens (w.max_retries - counting.retries) counting (omega (arith, b.opens))
              (omega (arith, below)))
            (λ s' b' g. rest s' b' (omega (arith, g))))))

  -- A classification that answers leaves the counters.
  abbrev Keeps : RetryState → Classified → Type 0
  Keeps s (answers a s') = (s'.opens ≡ s.opens) × (s'.retries ≡ s.retries)
  Keeps s (retries_for cause) = Unit

  Keeps-if :
      (s : RetryState) (b : Bool) (o k : Classified)
      → Keeps s o
      → Keeps s k
      → Keeps s (if b then o else k)
  Keeps-if s true o k p t = p
  Keeps-if s false o k p t = t

  failure-Keeps :
      (e : Event) (recv_err cause : Option Failure) (s : RetryState)
      → Keeps s (classify_failure e recv_err cause s)
  failure-Keeps e recv_err none s = (refl, refl)
  failure-Keeps e recv_err (some f) s = tt

  unkinded-Keeps :
      (e : Event) (recv_err : Option Failure) (s : RetryState) → Keeps s (unkinded e recv_err s)
  unfolding unkinded classify_partial_failure
  unkinded-Keeps e recv_err s =
      Keeps-if s s.emitted _ _
        (Keeps-if s (is_none (cause_of e recv_err) && not (is_error e.kind)) _ _ (refl, refl)
          (refl, refl))
        (failure-Keeps e recv_err (cause_of e recv_err) s)

  kind-Keeps :
      (kind : EventKind) (e : Event) (recv_err : Option Failure) (s : RetryState)
      → Keeps s (classify_kind kind e recv_err s)
  unfolding classify_kind
  kind-Keeps done e recv_err s = (refl, refl)
  kind-Keeps (content k) e recv_err s = (refl, refl)
  kind-Keeps no_kind e recv_err s = unkinded-Keeps e recv_err s
  kind-Keeps error e recv_err s = unkinded-Keeps e recv_err s

  classified-Settles :
      (s : RetryState) (c : Classified) (k : Failure → Received)
      → Bounded w s
      → Keeps s c
      → ((cause : Failure) → Settles (k cause))
      → Settles (classified_or c s k)
  classified-Settles s (answers a s') k b h rest =
      settled a s' (record {
        opens = omega (arith, h.0, h.1, b.opens);
        retries = omega (arith, h.1, b.retries);
      })
  classified-Settles s (retries_for cause) k b h rest = rest cause

  round-Settles :
      (s : RetryState) (k : RetryState → Received)
      → Bounded w s
      → ((s' : RetryState) → Bounded w s' → s.retries < s'.retries → Settles (k s'))
      → Settles (receive_round w s k)
  unfolding receive_round classify_received
  round-Settles s k b rest =
      let (e, recv_err) = w.next_event s.stream s.reads in
      let read : Bounded w (read_once s) = record { opens = b.opens; retries = b.retries } in
      Settles-if s.closed _ _ (settled _ s b) (λ _.
        Settles-if s.is_terminal _ _ (settled _ _ read) (λ _.
          classified-Settles (read_once s) (classify_kind e.kind e recv_err (read_once s)) _ read
            (kind-Keeps e.kind e recv_err (read_once s))
            (λ cause. retry-Settles e recv_err cause (read_once s) k read rest)))

  pub receive-Settles :
      (fuel : ℕ) (s : RetryState)
      → Bounded w s
      → w.max_retries - s.retries < fuel
      → Settles (receive w fuel s)
  unfolding receive
  receive-Settles zero s b h = absurd (omega (arith, h))
  receive-Settles (suc fuel) s b h =
      round-Settles s (receive w fuel) b
        (λ s' b' g. receive-Settles fuel s' b' (omega (arith, h, g, b'.retries)))
