-- ===== src/Provider/Retries/Uses.antt =====
-- The life of a retrying stream (provider/retry_stream.go): any sequence of `Recv` and `Close`.
use go_hydaelyn.Prelude.{suc, ◌-◌, ◌≤◌, true, some, List, [], ◌∷◌, ◌≡◌, arith}
use go_hydaelyn.Provider.Streams.{World}
use go_hydaelyn.Provider.Retries.{
  Answer, RetryState, Classified, answers, retries_for, Received, recv, unopened,
  open_retrying_stream, close,
}
use go_hydaelyn.Provider.Retries.Bounds.{Bounded, open-Opens, Settles, receive-Settles}

pub data StreamCall : Type 0 where
  receives closes : StreamCall

-- The state after the calls, whatever they returned.
unfoldable pub use_stream : World → List StreamCall → RetryState → RetryState
use_stream w [] s = s
use_stream w (receives ∷ calls) s = use_stream w calls (recv w s).1
use_stream w (closes ∷ calls) s = use_stream w calls (close s)

recv-Settles : (w : World) (s : RetryState) → Bounded w s → Settles w (recv w s)
recv-Settles w s b = receive-Settles w (suc (w.max_retries - s.retries)) s b (omega arith)

use_stream-Bounded :
    (w : World) (calls : List StreamCall) (s : RetryState)
    → Bounded w s
    → Bounded w (use_stream w calls s)
unfolding use_stream
use_stream-Bounded w [] s b = b
use_stream-Bounded w (receives ∷ calls) s b =
    use_stream-Bounded w calls (recv w s).1 (recv-Settles w s b).bounded
use_stream-Bounded w (closes ∷ calls) s b =
    use_stream-Bounded w calls (close s) (record { opens = b.opens; retries = b.retries })

opened-Bounded : (w : World) → Bounded w (open_retrying_stream w).1
opened-Bounded w = (open-Opens w w.max_retries unopened (omega arith) (omega arith)).bounded

-- Whatever the provider, the policy and the context answer, and however the stream is used, it is
-- opened at most once more than the retry limit, and every `Recv` returns.
pub stream_opens_bounded :
    (w : World) (calls : List StreamCall)
    → ((use_stream w calls (open_retrying_stream w).1).opens ≤ suc w.max_retries)
      × ((a : Answer) × ((recv w (use_stream w calls (open_retrying_stream w).1)).0 ≡ some a))
stream_opens_bounded w calls =
    let b = use_stream-Bounded w calls (open_retrying_stream w).1 (opened-Bounded w) in
    let r = recv-Settles w (use_stream w calls (open_retrying_stream w).1) b in
    (omega (arith, b.opens, b.retries), (r.answer, r.is_answer))

-- After content, a classification answers.
abbrev Final : RetryState → Classified → Type 0
Final s (answers a s') = (s'.opens ≡ s.opens) × (s'.emitted ≡ true)
Final s (retries_for cause) = ⊥

-- The stream was not reopened, and has emitted.
record Fixed (s : RetryState) (r : Received) : Type 0 where
  opens : r.1.opens ≡ s.opens
  emitted : r.1.emitted ≡ true
