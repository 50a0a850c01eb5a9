-- ===== src/Prelude/Int.antt =====
-- Go's `int` and `time.Duration` where a negative value is possible; `negsuc n` is -(n + 1).
use Prim.Native.Nat.{ℕ, zero, suc, ◌+◌, ◌-◌, ◌^◌}
use mathlib.Core.Path.{◌≡◌}
use mathlib.Core.Logic.{◌↔◌}
use mathlib.Core.Bool.{Bool, true, false}
use native.Mathlib.Omega.{arith}
use go_hydaelyn.Prelude.Tests.{Eq, nat_beq, ltb, if◌then◌else◌}

pub data ℤ : Type 0 where
  pos : ℕ → ℤ
  negsuc : ℕ → ℤ

abbrev pub int_beq : ℤ → ℤ → Bool
int_beq (pos m) (pos n) = nat_beq m n
int_beq (pos m) (negsuc n) = false
int_beq (negsuc m) (pos n) = false
int_beq (negsuc m) (negsuc n) = nat_beq m n

pub int_beq_iff : (a b : ℤ) → (int_beq a b ≡ Bool.true) ↔ (a ≡ b)
int_beq_iff a b = ground arith

instance abbrev pub int_eq : Eq ℤ
int_eq = record { eqb = int_beq; eqb_iff = int_beq_iff }

abbrev pub int_ltb : ℤ → ℤ → Bool
int_ltb (pos m) (pos n) = ltb m n
int_ltb (pos m) (negsuc n) = false
int_ltb (negsuc m) (pos n) = true
int_ltb (negsuc m) (negsuc n) = ltb n m

-- `i++` on an int64, which wraps from 2^63 - 1 to -2^63.
abbrev pub int_max : ℕ
int_max = 2 ^ 63 - 1

abbrev pub next_int : ℤ → ℤ
next_int (pos n) = if nat_beq n int_max then negsuc int_max else pos (n + 1)
next_int (negsuc zero) = pos 0
next_int (negsuc (suc n)) = negsuc n

abbrev pub int_leb : ℤ → ℤ → Bool
int_leb a b = if int_ltb b a then false else true

abbrev pub int_max_of : ℤ → ℤ → ℤ
int_max_of a b = if int_ltb a b then b else a

abbrev difference : ℕ → ℕ → ℤ
difference a b = if ltb a b then negsuc (b - a - 1) else pos (a - b)

-- `a + b` of two values that an int64 holds, which wraps at 2^63
unfoldable pub add_int : ℤ → ℤ → ℤ
add_int (pos a) (pos b) = if ltb int_max (a + b) then negsuc (2 ^ 64 - 1 - (a + b)) else pos (a + b)
add_int (pos a) (negsuc b) = difference a (b + 1)
add_int (negsuc a) (pos b) = difference b (a + 1)
add_int (negsuc a) (negsuc b) =
    if ltb int_max (a + b + 1) then pos (2 ^ 64 - 2 - (a + b)) else negsuc (a + b + 1)
