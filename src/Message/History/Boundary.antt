-- ===== src/Message/History/Boundary.antt =====
-- Cut points never split a tool exchange (`CompleteTurnBoundary` and `CachePrefixBoundary` of
-- message/history.go).
use native.Mathlib.Decide.{dec_lt}
use go_hydaelyn.Prelude.{
  ℕ, zero, suc, ◌+◌, ◌≤◌, ◌<◌, ◌≡◌, refl, false, none, List, [], ◌∷◌, ◌++◌, arith, ltb, length,
  take, drop, ok, if◌then◌else◌, take-add-append, drop-add-append, length-append, Bool-cases, inl,
  inr, All, All-drop, ◌-◌, ◌==◌, nat_eq,
}
use go_hydaelyn.Prelude.Int.{ℤ, pos, negsuc}
use go_hydaelyn.Message.{Message}
use go_hydaelyn.Message.History.{
  validate_complete_turns, boundary_from, clamp_start, complete_turn_boundary, marker_boundary,
  protect_from, cache_prefix_boundary,
}
use go_hydaelyn.Message.History.Turns.{IsTurn, Turns, done, turn, validate_iff_Turns}
use native.Mathlib.Nat.{add-zero, add-suc, suc-add}

-- A cut after `k` messages with whole turns on both sides.
record Splits (ms : List Message) (k : ℕ) : Type 0 where
  fits : k ≤ length ms
  before : Turns (take k ms)
  after : Turns (drop k ms)

Splits-zero : {ms : List Message} → Turns ms → Splits ms 0
Splits-zero t = record { fits = omega arith; before = done; after = t }

Splits-turn :
    (m : Message) (results rest : List Message) (k : ℕ)
    → IsTurn m results
    → Splits rest k
    → Splits (m ∷ results ++ rest) (suc (length results) + k)
Splits-turn m results rest k t s = record {
  fits = omega (arith, s.fits, length-append results rest);
  before =
      rw (take-add-append (m ∷ results) rest k) (turn m results (take k rest) _ t s.before refl);
  after = rw (drop-add-append (m ∷ results) rest k) s.after;
}

boundary_from-before :
    (start len skip i : ℕ) (ms : List Message)
    → start ≤ i
    → boundary_from start len skip i ms ≡ start
unfolding boundary_from
boundary_from-before start len skip i [] h = refl
boundary_from-before start len (suc skip) i (m ∷ ms) h =
    boundary_from-before start len skip (suc i) ms (omega arith)
boundary_from-before start len zero i (m ∷ ms) h =
    ground (arith, boundary_from-before start len (length m.tool_calls) (suc i) ms)

boundary_from-skip :
    (start len i : ℕ) (results rest : List Message)
    → boundary_from start len (length results) i (results ++ rest)
      ≡ boundary_from start len 0 (i + length results) rest
unfolding boundary_from
boundary_from-skip start len i [] rest = rw add-zero
boundary_from-skip start len i (r ∷ results) rest =
    rw (boundary_from-skip start len (suc i) results rest, add-suc, suc-add)

boundary_from-group :
    (start len i : ℕ) (m : Message) (ms : List Message)
    → i < start
    → boundary_from start len 0 i (m ∷ ms) ≡ (
        if ltb start (i + length m.tool_calls + 1)
        then (if ltb (i + length m.tool_calls + 1) len then i + length m.tool_calls + 1 else i)
        else boundary_from start len (length m.tool_calls) (suc i) ms)
unfolding boundary_from
boundary_from-group start len i m ms h = ground arith

-- What the loop returns from index `i`, as an offset into the messages that are left.
abbrev Cuts : ℕ → ℕ → List Message → Type 0
Cuts start i ms = (k : ℕ) × (start ≡ i + k) × Splits ms k

-- The loop goes on behind a group.
Cuts-behind :
    (start i : ℕ) (m : Message) (results rest : List Message)
    → IsTurn m results
    → Cuts start (suc i + length results) rest
    → Cuts start i (m ∷ results ++ rest)
Cuts-behind start i m results rest t (k, found, splits) =
    (suc (length results) + k, omega arith, Splits-turn m results rest k t splits)

-- A group that the wanted start falls into, or that the loop passes.
boundary_from-turn :
    (start len i : ℕ) (m : Message) (results rest : List Message)
    → IsTurn m results
    → Turns rest
    → (i + length m.tool_calls + 1 ≤ start
        → Cuts
            (boundary_from start len 0 (suc i + length results) rest)
            (suc i + length results)
            rest)
    → i < start
    → Cuts (boundary_from start len 0 i (m ∷ results ++ rest)) i (m ∷ results ++ rest)
boundary_from-turn start len i m results rest t behind later past =
    rw (boundary_from-group start len i m (results ++ rest) past)
      (elim (Bool-cases (ltb start (i + length m.tool_calls + 1))) [
        | inl inside ↦ rw inside (elim (Bool-cases (ltb (i + length m.tool_calls + 1) len)) [
          | inl room ↦ rw room (
            suc (length results) + 0,
            omega (arith, t.answered),
            Splits-turn m results rest 0 t (Splits-zero behind),
          )
          | inr full ↦ rw full (0, omega arith, Splits-zero (turn m results rest _ t behind refl))
        ])
        | inr beyond ↦
            rw (beyond, ← t.answered, boundary_from-skip start len (suc i) results rest)
              (Cuts-behind _ i m results rest t (later (ground arith)))
      ])

boundary_from-Cuts :
    {ms : List Message}
    → Turns ms
    → (start len i : ℕ) → i ≤ start
    → start ≤ i + length ms
    → Cuts (boundary_from start len 0 i ms) i ms
boundary_from-Cuts done start len i low high =
    (0, rw (boundary_from-before start len 0 i [] (omega arith)) (omega arith), Splits-zero done)
boundary_from-Cuts (turn m results rest ms t behind e) start len i low high =
    let high' : start ≤ i + length (m ∷ results ++ rest) = rw e at high in
    rw e (elim (dec_lt i start) [
      | no here ↦ (
        0,
        rw (boundary_from-before start len 0 i (m ∷ results ++ rest) (omega arith)) (omega arith),
        Splits-zero (turn m results rest _ t behind refl),
      )
      | yes past ↦
          boundary_from-turn start len i m results rest t behind
            (λ p.
              boundary_from-Cuts behind start len (suc i + length results)
                (omega (arith, t.answered)) (omega (arith, length-append results rest)))
            past
    ])

clamp_start-le : (p : ℤ) (len : ℕ) → clamp_start p len ≤ len
unfolding clamp_start
clamp_start-le (pos n) len = ground arith
clamp_start-le (negsuc n) len = omega arith

-- A cut as a client sees it: both parts are accepted by themselves.
pub record CutsTurns (ms : List Message) (k : ℕ) : Type 0 where
  pub within : k ≤ length ms
  pub kept : validate_complete_turns (take k ms) ≡ none
  pub dropped : validate_complete_turns (drop k ms) ≡ none

Splits-CutsTurns : (ms : List Message) (k : ℕ) → Splits ms k → CutsTurns ms k
Splits-CutsTurns ms k s = record {
  within = s.fits;
  kept = (validate_iff_Turns (take k ms)).1 s.before;
  dropped = (validate_iff_Turns (drop k ms)).1 s.after;
}

answered :
    (ms : List Message) (p : ℤ)
    → validate_complete_turns ms ≡ none
    → complete_turn_boundary ms p
      ≡ ok (boundary_from (clamp_start p (length ms)) (length ms) 0 0 ms)
unfolding complete_turn_boundary
answered ms p h = rw (h, complete_turn_boundary) refl

-- On every accepted transcript `complete_turn_boundary` returns a cut point, whatever start is
-- asked for: it lies in the transcript, and the messages before it and those from it on are both
-- accepted, so that no tool exchange is split.
pub complete_turn_boundary-CutsTurns :
    (ms : List Message) (preferred : ℤ)
    → validate_complete_turns ms ≡ none
    → (s : ℕ) × (complete_turn_boundary ms preferred ≡ ok s) × CutsTurns ms s
complete_turn_boundary-CutsTurns ms preferred valid =
    let (k, e, splits) =
      boundary_from-Cuts ((validate_iff_Turns ms).0 valid) (clamp_start preferred (length ms))
        (length ms) 0 (omega arith) (omega (arith, clamp_start-le preferred (length ms))) in
    let same : boundary_from (clamp_start preferred (length ms)) (length ms) 0 0 ms ≡ k =
      omega (arith, e) in
    (k, rw (answered ms preferred valid, same) refl, Splits-CutsTurns ms k splits)

-- With a length that no group reaches, the loop of `complete_turn_boundary` is that of
-- `cache_prefix_boundary`.
protect_from-boundary_from :
    (b skip i : ℕ) (ms : List Message)
    → (bound : ℕ) × ((len : ℕ)
        → bound ≤ len
        → protect_from b skip i ms ≡ boundary_from b len skip i ms)
unfolding protect_from boundary_from
protect_from-boundary_from b skip i [] = (0, λ len h. refl)
protect_from-boundary_from b (suc skip) i (m ∷ ms) = protect_from-boundary_from b skip (suc i) ms
protect_from-boundary_from b zero i (m ∷ ms) =
    let n = length m.tool_calls in
    let (bound, same) = protect_from-boundary_from b n (suc i) ms in
    (i + n + 2 + bound, λ len h. ground (arith, same len (omega arith)))

le-protect_from : (b skip i : ℕ) (ms : List Message) → b ≤ protect_from b skip i ms
unfolding protect_from
le-protect_from b skip i [] = omega arith
le-protect_from b (suc skip) i (m ∷ ms) = le-protect_from b skip (suc i) ms
le-protect_from b zero i (m ∷ ms) =
    ground (arith, le-protect_from b (length m.tool_calls) (suc i) ms)

abbrev pub IsUnmarked : Message → Type 0
IsUnmarked m = m.cache_boundary ≡ false

-- The markers behind the last one.
record Marked (i acc r : ℕ) (ms : List Message) : Type 0 where
  low : acc ≤ r
  high : r ≤ i + length ms
  behind : All IsUnmarked (drop (r - i) ms)

marker-cons :
    (i acc r : ℕ) (m : Message) (ms : List Message)
    → acc ≤ i
    → Marked (suc i) (if m.cache_boundary then i + 1 else acc) r ms
    → Marked i acc r (m ∷ ms)
marker-cons i acc r m ms h k = elim (dec_lt i r) [
  | yes past ↦ record {
    low = ground (arith, k.low);
    high = omega (arith, k.high);
    behind = let e : r - i ≡ suc (r - suc i) = omega arith in rw e k.behind;
  }
  | no here ↦
      let e : r - i ≡ 0 = omega arith in
      let e' : r - suc i ≡ 0 = omega arith in
      record {
        low = ground (arith, k.low);
        high = omega (arith, k.high);
        behind = rw e (ground (arith, k.low), rw e' at k.behind);
      }
]

marker_boundary-Marked :
    (i acc : ℕ) (ms : List Message) → acc ≤ i → Marked i acc (marker_boundary i acc ms) ms
unfolding marker_boundary
marker_boundary-Marked i acc [] h = record {
  low = omega arith;
  high = omega arith;
  behind = ground arith;
}
marker_boundary-Marked i acc (m ∷ ms) h =
    marker-cons i acc _ m ms h
      (marker_boundary-Marked (suc i) (if m.cache_boundary then i + 1 else acc) ms (ground arith))

cache_answered :
    (ms : List Message)
    → validate_complete_turns ms ≡ none
    → cache_prefix_boundary ms ≡ (
        if marker_boundary 0 0 ms == 0
        then ok 0
        else ok (protect_from (marker_boundary 0 0 ms) 0 0 ms))
unfolding cache_prefix_boundary
cache_answered ms h = rw (h, cache_prefix_boundary) refl

protected-Splits :
    (ms : List Message) (b : ℕ) → Turns ms → b ≤ length ms → Splits ms (protect_from b 0 0 ms)
protected-Splits ms b t h =
    let (bound, same) = protect_from-boundary_from b 0 0 ms in
    let (k, e, splits) = boundary_from-Cuts t b bound 0 (omega arith) (omega arith) in
    let e' : protect_from b 0 0 ms ≡ k = omega (arith, same bound (omega arith)) in rw e' splits

-- On every accepted transcript `cache_prefix_boundary` returns the length of a prefix: the prefix
-- and the rest are both accepted, and no message behind the prefix carries a cache marker.
pub cache_prefix_boundary-CutsTurns :
    (ms : List Message)
    → validate_complete_turns ms ≡ none
    → (s : ℕ) × (cache_prefix_boundary ms ≡ ok s) × CutsTurns ms s × All IsUnmarked (drop s ms)
cache_prefix_boundary-CutsTurns ms valid =
    let turns = (validate_iff_Turns ms).0 valid in
    let marks = marker_boundary-Marked 0 0 ms (omega arith) in
    let d = marker_boundary 0 0 ms in
    elim (Bool-cases (d == 0)) [
      | inr other ↦ (
        protect_from d 0 0 ms,
        rw (cache_answered ms valid, other) refl,
        Splits-CutsTurns ms _ (protected-Splits ms d turns (omega (arith, marks.high))),
        All-drop IsUnmarked ms (d - 0) _ (omega (arith, le-protect_from d 0 0 ms)) marks.behind,
      )
      | inl none_marked ↦
          let no_mark : d ≡ 0 = ground arith in
          (
            0,
            rw (cache_answered ms valid, none_marked) refl,
            Splits-CutsTurns ms 0 (Splits-zero turns),
            All-drop IsUnmarked ms (d - 0) 0 (omega arith) marks.behind,
          )
    ]
