-- ===== src/Prelude/Distinct.antt =====
-- Sets of strings kept as lists, and what a permutation keeps of a list.
use mathlib.Core.Path.{◌≡◌, refl, subst}
use mathlib.Core.Logic.{inl, inr}
use mathlib.Core.Bool.{Bool, false, ◌||◌, Bool-set}
use mathlib.Core.List.{
  List, [], ◌∷◌, map, Perm, Mem, not-mem-nil, forall_mem-cons, mem-cons_self, mem-cons_of_mem,
}
use mathlib.Core.List.Perm
use native.Mathlib.Omega.{arith}
use go_hydaelyn.Prelude.Tests.{◌==◌, Bool-cases}
use go_hydaelyn.Prelude.Lists.{All}
use go_hydaelyn.Prelude.Strings.{Text, text_eq_iff, text_eq_instance}

-- `_, ok := seen[x]`
unfoldable pub member : List Text → Text → Bool
member [] x = false
member (y ∷ l) x = y == x || member l x

module _ {ℓ} {A : Type ℓ} (p : A → Bool) where
  pub All-Mem : (b : Bool) (l : List A) → All (λ x. p x ≡ b) l → (x : A) → Mem x l → p x ≡ b
  All-Mem b [] a x m = absurd (not-mem-nil m)
  All-Mem b (y ∷ l) a x m =
      (forall_mem-cons {p = λ z. p z ≡ b} (λ z. Bool-set (p z) b)).1 (a.0, All-Mem b l a.1) x m

  pub Mem-All : (b : Bool) (l : List A) → ((x : A) → Mem x l → p x ≡ b) → All (λ x. p x ≡ b) l
  Mem-All b [] f = tt
  Mem-All b (y ∷ l) f = (f y mem-cons_self, Mem-All b l (λ x m. f x (mem-cons_of_mem y m)))

  pub All-Perm :
      (b : Bool) {l l' : List A} → Perm l l' → All (λ x. p x ≡ b) l → All (λ x. p x ≡ b) l'
  All-Perm b {l} {l'} q a = Mem-All b l' (λ x m. All-Mem b l a x ((Perm.mem_iff q).1 m))

member-All : (l : List Text) (x : Text) → member l x ≡ false → All (λ y. (y == x) ≡ false) l
unfolding member
member-All [] x h = tt
member-All (y ∷ l) x h = (ground arith, member-All l x (ground arith))

pub member-absent : (l : List Text) (x : Text) → member l x ≡ false → ¬ Mem x l
member-absent l x h m =
    let differ = All-Mem (λ y. y == x) false l (member-All l x h) x m in
    let alike = (text_eq_iff x x).1 refl in cc

pub absent-member : (l : List Text) (x : Text) → ¬ Mem x l → member l x ≡ false
unfolding member
absent-member [] x h = refl
absent-member (y ∷ l) x h = elim (Bool-cases (y == x)) [
  | inl here ↦
      let is : y ≡ x = (text_eq_iff y x).0 here in
      absurd (h (subst (λ z. Mem z (y ∷ l)) is mem-cons_self))
  | inr other ↦ rw other (absent-member l x (λ m. h (mem-cons_of_mem y m)))
]

-- Items whose names were not seen, `id` among those that were.
module _ {ℓ} {A : Type ℓ} (name : A → Text) where
  absent_among :
      (id : Text) (seen : List Text) (l : List A)
      → All (λ x. member (id ∷ seen) (name x) ≡ false) l
      → member (map name l) id ≡ false
  unfolding member
  absent_among id seen [] a = refl
  absent_among id seen (x ∷ l) a =
      let rest = absent_among id seen l a.1 in
      let head = a.0 in ground (arith, text_eq_iff id (name x), text_eq_iff (name x) id)

  still_absent :
      (id : Text) (seen : List Text) (l : List A)
      → All (λ x. member (id ∷ seen) (name x) ≡ false) l
      → All (λ x. member seen (name x) ≡ false) l
  unfolding member
  still_absent id seen [] a = tt
  still_absent id seen (x ∷ l) a = let head = a.0 in (ground arith, still_absent id seen l a.1)

  pub apart_ids :
      (id : Text) (seen : List Text) (l : List A)
      → All (λ x. member (id ∷ seen) (name x) ≡ false) l
      → (¬ Mem id (map name l)) × All (λ x. member seen (name x) ≡ false) l
  apart_ids id seen l a =
      (member-absent (map name l) id (absent_among id seen l a), still_absent id seen l a)

  names-All :
      (p : Text → Bool) (b : Bool) (l : List A)
      → All (λ x. p (name x) ≡ b) l
      → All (λ y. p y ≡ b) (map name l)
  names-All p b [] a = tt
  names-All p b (x ∷ l) a = (a.0, names-All p b l a.1)

  -- Names of a list that has none that was seen.
  pub unseen-Disjoint :
      (seen : List Text) (l : List A)
      → All (λ x. member seen (name x) ≡ false) l
      → (y : Text) → Mem y seen
      → Mem y (map name l)
      → ⊥
  unseen-Disjoint seen l a y m n =
      member-absent seen y
        (All-Mem (member seen) false (map name l) (names-All (member seen) false l a) y n) m
