-- ===== src/Agent/Operations.antt =====
-- The operation IDs "turn:%d:call:%d" of tool calls (agent/agent.go and agent/continuation.go):
-- how they are printed, and what `fmt.Sscanf` reads of one. A scan here stops at a sign or a space:
-- what `Sscanf` would read behind it never equals the ID that is printed again.
use go_hydaelyn.Prelude.{
  ℕ, zero, suc, ◌+◌, ◌-◌, ◌*◌, ◌/◌, ◌%◌, ◌≤◌, ◌<◌, ltb, leb, ◌==◌, nat_eq, ◌≡◌, refl, ap, ◌∙◌, Bool,
  true, false, ◌&&◌, Option, none, some, [], ◌∷◌, ◌++◌, append_assoc, append-nil, Text, lit, arith,
  if◌then◌else◌, Bool-cases, ltb→lt, lt→ltb, inl, inr,
}
use go_hydaelyn.Prelude.Int.{int_max}

-- `%d` of a number that is not negative; the fuel is at least the number of digits
decimal_of : ℕ → ℕ → Text
decimal_of zero n = []
decimal_of (suc fuel) n =
    let front = decimal_of fuel (n / 10) in
    if ltb n 10 then (b'0' + n) ∷ [] else front ++ (b'0' + n % 10) ∷ []

unfoldable pub decimal : ℕ → Text
unfolding decimal_of
decimal n = decimal_of (suc n) n

-- `fmt.Sprintf("turn:%d:call:%d", turn, slot)`
unfoldable pub operation_id : ℕ → ℕ → Text
unfolding lit
operation_id turn slot = lit "turn:" ++ (decimal turn ++ (lit ":call:" ++ decimal slot))

is_digit : ℕ → Bool
is_digit c = leb b'0' c && leb c b'9'

-- the digits in front, read behind `n`, and what follows them
scan_digits : ℕ → Text → ℕ × Text
unfolding is_digit
scan_digits n [] = (n, [])
scan_digits n (c ∷ s) =
    let rest = scan_digits (n * 10 + (c - b'0')) s in if is_digit c then rest else (n, c ∷ s)

-- a number without a digit is refused, and one that an int does not hold
scan_number : Text → Option (ℕ × Text)
unfolding scan_digits is_digit
scan_number [] = none
scan_number (c ∷ s) =
    let (n, rest) = scan_digits 0 (c ∷ s) in
    if is_digit c && leb n int_max then some (n, rest) else none

scan_literal : Text → Text → Option Text
scan_literal [] s = some s
scan_literal (c ∷ l) [] = none
scan_literal (c ∷ l) (d ∷ s) = if c == d then scan_literal l s else none

abbrev bind : {A B : Type 0} → Option A → (A → Option B) → Option B
bind none k = none
bind (some a) k = k a

bind-eq-some :
    {A B : Type 0} (o : Option A) (k : A → Option B) {b : B}
    → bind o k ≡ some b
    → (a : A) × (o ≡ some a) × (k a ≡ some b)
bind-eq-some none k h = cc
bind-eq-some (some a) k h = (a, refl, h)

scan_slot : ℕ → Text → Option (ℕ × ℕ)
unfolding scan_number scan_literal lit
scan_slot turn s =
    bind (scan_literal (lit ":call:") s) (λ t. bind (scan_number t) (λ r. some (turn, r.0)))

-- `fmt.Sscanf(id, "turn:%d:call:%d", &turn, &slot)`, which leaves what follows
unfoldable pub scan_operation_id : Text → Option (ℕ × ℕ)
unfolding scan_slot
scan_operation_id id =
    bind (scan_literal (lit "turn:") id) (λ s. bind (scan_number s) (λ r. scan_slot r.0 r.1))

scanned : scan_operation_id (lit "turn:12:call:305") ≡ some (12, 305)
unfolding scan_operation_id
scanned = refl

printed : operation_id 12 305 ≡ lit "turn:12:call:305"
unfolding operation_id decimal
printed = refl

-- The digits in front are read back; what follows them decides where the number ends.
scan_digits-decimal_of :
    (fuel n : ℕ) (s : Text) → n < fuel → scan_digits 0 (decimal_of fuel n ++ s) ≡ scan_digits n s
unfolding scan_digits decimal_of is_digit
scan_digits-decimal_of zero n s h = absurd (omega arith)
scan_digits-decimal_of (suc fuel) n s h = elim (Bool-cases (ltb n 10)) [
  | inl small ↦
      let bound = ltb→lt n 10 small in
      let low = lt→ltb n 10 bound in
      let digit : leb b'0' (b'0' + n) && leb (b'0' + n) b'9' ≡ true = ground arith in
      rw small (rw digit (ap (λ k. scan_digits k s) (omega arith)))
  | inr big ↦
      let wide : ltb n 10 ≡ false = big in
      let digit : leb b'0' (b'0' + n % 10) && leb (b'0' + n % 10) b'9' ≡ true = ground arith in
      rw big (
        rw append_assoc (
          scan_digits-decimal_of fuel (n / 10) ((b'0' + n % 10) ∷ s) (ground arith)
          ∙ rw digit (ap (λ k. scan_digits k s) (omega arith))))
]

-- what follows is no digit
abbrev Ends : Text → Type 0
Ends [] = Unit
Ends (c ∷ s) = is_digit c ≡ false

scan_digits-Ends : (n : ℕ) (s : Text) → Ends s → scan_digits n s ≡ (n, s)
unfolding scan_digits
scan_digits-Ends n [] h = refl
scan_digits-Ends n (c ∷ s) h = rw h

-- a printed number starts with a digit
decimal_of-head :
    (fuel n : ℕ)
    → n < fuel
    → (c : ℕ) × (s : Text) × (decimal_of fuel n ≡ c ∷ s) × (is_digit c ≡ true)
unfolding decimal_of is_digit
decimal_of-head zero n h = absurd (omega arith)
decimal_of-head (suc fuel) n h = elim (Bool-cases (ltb n 10)) [
  | inl small ↦ (b'0' + n, [], rw small, ground arith)
  | inr big ↦
      let (c, s, e, d) = decimal_of-head fuel (n / 10) (ground arith) in
      (c, s ++ (b'0' + n % 10) ∷ [], rw (big, e), d)
]

scan_number-read :
    (c : ℕ) (t : Text) (n : ℕ) (s : Text)
    → is_digit c ≡ true
    → n ≤ int_max
    → scan_digits 0 (c ∷ t) ≡ (n, s)
    → scan_number (c ∷ t) ≡ some (n, s)
unfolding scan_number
scan_number-read c t n s digit fits read =
    let fitting : leb n int_max ≡ true = ground arith in rw (read, digit, fitting)

scan_number-decimal :
    (n : ℕ) (s : Text) → n ≤ int_max → Ends s → scan_number (decimal n ++ s) ≡ some (n, s)
unfolding decimal
scan_number-decimal n s fits ends =
    let (c, t, e, digit) = decimal_of-head (suc n) n (omega arith) in
    let read = scan_digits-decimal_of (suc n) n s (omega arith) ∙ scan_digits-Ends n s ends in
    let read' : scan_digits 0 (c ∷ t ++ s) ≡ (n, s) = rw e at read in
    rw e (scan_number-read c (t ++ s) n s digit fits read')

scan_slot-read :
    (turn slot : ℕ) (s : Text)
    → scan_number s ≡ some (slot, [])
    → scan_slot turn (lit ":call:" ++ s) ≡ some (turn, slot)
unfolding scan_slot scan_literal lit
scan_slot-read turn slot s e = rw (e, scan_slot)

scan_operation_id-read :
    (turn slot : ℕ) (s t : Text)
    → scan_number s ≡ some (turn, t)
    → scan_slot turn t ≡ some (turn, slot)
    → scan_operation_id (lit "turn:" ++ s) ≡ some (turn, slot)
unfolding scan_operation_id lit
scan_operation_id-read turn slot s t e f = rw (e, scan_operation_id) f

-- A printed operation ID is scanned as the turn and the slot that it was printed from.
pub scan-operation_id :
    (turn slot : ℕ)
    → turn ≤ int_max
    → slot ≤ int_max
    → scan_operation_id (operation_id turn slot) ≡ some (turn, slot)
unfolding operation_id is_digit lit
scan-operation_id turn slot ht hs =
    let last = rw append-nil at (scan_number-decimal slot [] hs tt) in
    scan_operation_id-read turn slot _ (lit ":call:" ++ decimal slot)
      (scan_number-decimal turn (lit ":call:" ++ decimal slot) ht refl)
      (scan_slot-read turn slot (decimal slot) last)

scan_number-fits : (s : Text) (n : ℕ) (rest : Text) → scan_number s ≡ some (n, rest) → n ≤ int_max
unfolding scan_number
scan_number-fits [] n rest h = cc
scan_number-fits (c ∷ s) n rest h = ground arith

scan_slot-fits :
    (turn : ℕ) (s : Text) (t n : ℕ) → scan_slot turn s ≡ some (t, n) → (turn ≡ t) × (n ≤ int_max)
unfolding scan_slot
scan_slot-fits turn s t n h =
    let (s', _, after) =
      bind-eq-some (scan_literal (lit ":call:") s)
        (λ u. bind (scan_number u) (λ r. some (turn, r.0))) h in
    let ((m, rest), read, last) = bind-eq-some (scan_number s') (λ r. some (turn, r.0)) after in
    let fits = scan_number-fits s' m rest read in ground arith

-- The numbers that are scanned fit an int.
pub scan_operation_id-fits :
    (id : Text) (turn slot : ℕ)
    → scan_operation_id id ≡ some (turn, slot)
    → (turn ≤ int_max) × (slot ≤ int_max)
unfolding scan_operation_id
scan_operation_id-fits id turn slot h =
    let (s, _, after) =
      bind-eq-some (scan_literal (lit "turn:") id)
        (λ u. bind (scan_number u) (λ r. scan_slot r.0 r.1)) h in
    let ((t, rest), read, last) = bind-eq-some (scan_number s) (λ r. scan_slot r.0 r.1) after in
    let fits = scan_number-fits s t rest read in
    let slots = scan_slot-fits t rest turn slot last in ground arith
