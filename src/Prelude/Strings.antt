-- ===== src/Prelude/Strings.antt =====
-- Go strings: sequences of bytes, with `==`, `<` and the blank test of `strings.TrimSpace`.
use Prim.Native.Char.{code}
use Prim.Native.Nat.{ℕ}
use Prim.Native.String.{String}
use mathlib.Core.Path.{◌≡◌, refl}
use mathlib.Core.Logic.{◌↔◌, inl, inr}
use mathlib.Core.Bool.{Bool, true, false, ◌&&◌, ◌||◌}
use mathlib.Core.List.{List, [], ◌∷◌}
use native.Mathlib.Omega.{arith}
use go_hydaelyn.Prelude.Tests.{ltb, leb, Eq, ◌==◌, nat_eq, if◌then◌else◌, Bool-cases}

abbrev pub Text : Type 0
Text = List ℕ

-- A literal, whose characters are all ASCII here.
unfoldable pub lit : String → Text
lit String.[] = []
lit (String.◌∷◌ c s) = code c ∷ lit s

unfoldable pub text_eq : Text → Text → Bool
text_eq [] [] = true
text_eq [] (y ∷ t) = false
text_eq (x ∷ s) [] = false
text_eq (x ∷ s) (y ∷ t) = x == y && text_eq s t

pub text_eq_iff : (s t : Text) → (text_eq s t ≡ true) ↔ (s ≡ t)
unfolding text_eq
text_eq_iff [] [] = (λ _. refl, λ _. refl)
text_eq_iff [] (y ∷ t) = (λ h. cc, λ h. cc)
text_eq_iff (x ∷ s) [] = (λ h. cc, λ h. cc)
text_eq_iff (x ∷ s) (y ∷ t) = ground (arith, text_eq_iff s t)

pub text_eq_refl : (s : Text) → text_eq s s ≡ true
text_eq_refl s = (text_eq_iff s s).1 refl

instance abbrev pub text_eq_instance : Eq Text
text_eq_instance = record { eqb = text_eq; eqb_iff = text_eq_iff }

-- `s < t`, byte by byte.
unfoldable pub text_ltb : Text → Text → Bool
text_ltb [] [] = false
text_ltb [] (y ∷ t) = true
text_ltb (x ∷ s) [] = false
text_ltb (x ∷ s) (y ∷ t) = if x == y then text_ltb s t else ltb x y

pub text_ltb_irrefl : (s : Text) → text_ltb s s ≡ false
unfolding text_ltb
text_ltb_irrefl [] = refl
text_ltb_irrefl (x ∷ s) = ground (arith, text_ltb_irrefl s)

pub text_ltb_trans :
    (s t u : Text) → text_ltb s t ≡ true → text_ltb t u ≡ true → text_ltb s u ≡ true
unfolding text_ltb
text_ltb_trans [] [] u h k = cc
text_ltb_trans [] (y ∷ t) [] h k = cc
text_ltb_trans [] (y ∷ t) (z ∷ u) h k = refl
text_ltb_trans (x ∷ s) [] u h k = cc
text_ltb_trans (x ∷ s) (y ∷ t) [] h k = cc
text_ltb_trans (x ∷ s) (y ∷ t) (z ∷ u) h k = ground (arith, text_ltb_trans s t u)

pub text_ltb-total : (s t : Text) → text_ltb s t ≡ false → text_ltb t s ≡ false → s ≡ t
unfolding text_ltb
text_ltb-total [] [] h k = refl
text_ltb-total [] (y ∷ t) h k = cc
text_ltb-total (x ∷ s) [] h k = cc
text_ltb-total (x ∷ s) (y ∷ t) h k = ground (arith, text_ltb-total s t)

pub text_ltb-asym : (s t : Text) → text_ltb s t ≡ true → text_ltb t s ≡ false
text_ltb-asym s t h = elim (Bool-cases (text_ltb t s)) [
  | inl back ↦ let loop = text_ltb_trans s t s h back in cc (text_ltb_irrefl s)
  | inr no_it ↦ no_it
]

pub text_ltb-not_less_trans :
    (s t u : Text) → text_ltb s t ≡ false → text_ltb t u ≡ false → text_ltb s u ≡ false
text_ltb-not_less_trans s t u h k = elim (Bool-cases (text_ltb s u)) [
  | inr no_it ↦ no_it
  | inl less ↦ elim (Bool-cases (text_ltb t s)) [
    | inl before ↦ let less' = text_ltb_trans t s u before less in cc
    | inr same ↦ let is = text_ltb-total s t h same in cc
  ]
]

-- `strings.TrimSpace(s) == ""`: every rune is in Unicode's White_Space, in UTF-8. Bytes that
-- encode no rune are no space.
space2 : ℕ → ℕ → Bool
space2 a b = a == 0xc2 && (b == 0x85 || b == 0xa0)

space3 : ℕ → ℕ → ℕ → Bool
space3 a b c =
    (a == 0xe1 && b == 0x9a && c == 0x80)
    || (a == 0xe2
        && b == 0x80
        && ((leb 0x80 c && leb c 0x8a) || c == 0xa8 || c == 0xa9 || c == 0xaf))
    || (a == 0xe2 && b == 0x81 && c == 0x9f)
    || (a == 0xe3 && b == 0x80 && c == 0x80)

space1 : ℕ → Bool
space1 a = (leb 9 a && leb a 13) || a == 32

unfoldable pub is_blank : Text → Bool
unfolding space1 space2 space3
is_blank [] = true
is_blank (a ∷ []) = space1 a
is_blank (a ∷ b ∷ []) = (space1 a && space1 b) || space2 a b
is_blank (a ∷ b ∷ c ∷ s) =
    let after1 = is_blank (b ∷ c ∷ s) in
    let after2 = is_blank (c ∷ s) in
    let after3 = is_blank s in
    if space1 a
    then after1
    else if space2 a b
    then after2
    else if space3 a b c
    then after3
    else false

-- `strings.TrimSpace`
unfoldable trim_left : Text → Text
unfolding space1 space2 space3
trim_left [] = []
trim_left (a ∷ []) = if space1 a then [] else a ∷ []
trim_left (a ∷ b ∷ []) =
    let after1 = trim_left (b ∷ []) in
    if space1 a then after1 else if space2 a b then [] else a ∷ b ∷ []
trim_left (a ∷ b ∷ c ∷ s) =
    let after1 = trim_left (b ∷ c ∷ s) in
    let after2 = trim_left (c ∷ s) in
    let after3 = trim_left s in
    if space1 a
    then after1
    else if space2 a b
    then after2
    else if space3 a b c
    then after3
    else a ∷ b ∷ c ∷ s

unfoldable trim_right : Text → Text
unfolding is_blank
trim_right [] = []
trim_right (c ∷ s) = if is_blank (c ∷ s) then [] else c ∷ trim_right s

unfoldable pub trim_space : Text → Text
unfolding trim_left trim_right
trim_space s = trim_right (trim_left s)
