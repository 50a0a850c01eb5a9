-- ===== src/Durable/Testbackend/Soundness/Writes.antt =====
-- Writing an attempt back keeps its operation's attempts in order (durable/internal/testbackend).
use go_hydaelyn.Prelude.{
  ℕ, suc, ◌+◌, ◌≡◌, refl, ap, sym, ◌∙◌, Option, none, some, List, [], ◌∷◌, ◌++◌, inl, inr, Text,
  ◌==◌, nat_eq, arith, All, Bool-cases, ◌≢◌, text_eq_instance,
}
use go_hydaelyn.Prelude.Assoc.{get, Entries, Entries-get}
use go_hydaelyn.Durable.{Lease, Attempt, abandoned}
use go_hydaelyn.Durable.Testbackend.Store.{ExecutionRecord, attempts_of, find_number, write_number}
use go_hydaelyn.Durable.Testbackend.Attempts.{last_attempt, write_last}
use go_hydaelyn.Durable.Testbackend.Soundness.{AttemptSound, Superseded, Chain, SlotSound}

-- An attempt that may be replaced is the last one, and the replacement takes its number.
module _ (b : Attempt) where
  Superseded-write_number :
      (n : ℕ) (a : Attempt) (l : List Attempt) → Superseded a l → Superseded a (write_number n b l)
  unfolding write_number
  Superseded-write_number n a [] h = tt
  Superseded-write_number n a (x ∷ l) h = elim (Bool-cases (x.number == n)) [
    | inl here ↦ rw here h
    | inr other ↦ rw other h
  ]

  pub Chain-write_number :
      (n k : ℕ) (l : List Attempt) (a : Attempt)
      → find_number n l ≡ some a
      → a.status ≢ abandoned
      → b.number ≡ a.number
      → Chain k l
      → Chain k (write_number n b l)
  unfolding find_number write_number
  Chain-write_number n k [] a found open_one same c = tt
  Chain-write_number n k (x ∷ l) a found open_one same c = elim (Bool-cases (x.number == n)) [
    | inl here ↦
        let is : x ≡ a = ground arith in
        rw here (
          same ∙ ap (λ (y : Attempt). y.number) (sym is) ∙ c.0,
          only l (λ e. open_one (ap (λ (y : Attempt). y.status) (sym is) ∙ e)) c.1,
          c.2,
        )
    | inr other ↦ rw other (
      c.0,
      Superseded-write_number n x l c.1,
      Chain-write_number n (suc k) l a (ground arith) open_one same c.2,
    )
  ]
    where
      only :
          (rest : List Attempt) → (x.status ≡ abandoned → ⊥) → Superseded x rest → Superseded b rest
      only [] no_more h = tt
      only (y ∷ rest) no_more h = absurd (no_more h)

  pub All-write_number :
      (lease : Option Lease) (op : Text) (n : ℕ) (l : List Attempt)
      → AttemptSound lease op b
      → All (AttemptSound lease op) l
      → All (AttemptSound lease op) (write_number n b l)
  unfolding write_number
  All-write_number lease op n [] p s = tt
  All-write_number lease op n (x ∷ l) p s = elim (Bool-cases (x.number == n)) [
    | inl here ↦ rw here (p, s.1)
    | inr other ↦ rw other (s.0, All-write_number lease op n l p s.1)
  ]

  pub Chain-write_last :
      (k : ℕ) (l : List Attempt) (a : Attempt)
      → last_attempt l ≡ some a
      → b.number ≡ a.number
      → Chain k l
      → Chain k (write_last b l)
  Chain-write_last k [] a last same c = tt
  Chain-write_last k (x ∷ []) a last same c = (ground arith, tt, tt)
  Chain-write_last k (x ∷ y ∷ []) a last same c =
      (c.0, c.1, Chain-write_last (suc k) (y ∷ []) a last same c.2)
  Chain-write_last k (x ∷ y ∷ z ∷ l) a last same c =
      (c.0, c.1, Chain-write_last (suc k) (y ∷ z ∷ l) a last same c.2)

  pub All-write_last {ℓ} :
      (P : Attempt → Type ℓ) (l : List Attempt) → P b → All P l → All P (write_last b l)
  All-write_last P [] p s = tt
  All-write_last P (x ∷ []) p s = (p, tt)
  All-write_last P (x ∷ y ∷ l) p s = (s.0, All-write_last P (y ∷ l) p s.1)

  pub Chain-append :
      (k : ℕ) (l : List Attempt) (a : Attempt)
      → last_attempt l ≡ some a
      → a.status ≡ abandoned
      → b.number ≡ a.number + 1
      → Chain k l
      → Chain k (l ++ b ∷ [])
  Chain-append k [] a last gone next c = cc
  Chain-append k (x ∷ []) a last gone next c =
      let is : x ≡ a = ground arith in
      (c.0, ap (λ (y : Attempt). y.status) is ∙ gone, (ground arith, tt, tt))
  Chain-append k (x ∷ y ∷ l) a last gone next c =
      (c.0, c.1, Chain-append (suc k) (y ∷ l) a last gone next c.2)

pub last_attempt-All {ℓ} :
    (P : Attempt → Type ℓ) (l : List Attempt) (a : Attempt)
    → last_attempt l ≡ some a
    → All P l
    → P a
last_attempt-All P [] a last s = cc
last_attempt-All P (x ∷ []) a last s = let is : x ≡ a = ground arith in rw (← is) s.0
last_attempt-All P (x ∷ y ∷ l) a last s = last_attempt-All P (y ∷ l) a last s.1

pub find_number-All {ℓ} :
    (P : Attempt → Type ℓ) (n : ℕ) (l : List Attempt) (a : Attempt)
    → find_number n l ≡ some a
    → All P l
    → P a
unfolding find_number
find_number-All P n [] a found s = cc
find_number-All P n (x ∷ l) a found s = elim (Bool-cases (x.number == n)) [
  | inl here ↦ let is : x ≡ a = ground arith in rw (← is) s.0
  | inr other ↦ find_number-All P n l a (ground arith) s.1
]

pub find_number_lem :
    (n : ℕ) (l : List Attempt) (a : Attempt) → find_number n l ≡ some a → a.number ≡ n
unfolding find_number
find_number_lem n [] a found = cc
find_number_lem n (x ∷ l) a found = ground (arith, find_number_lem n l a)

-- The attempts of an operation in a sound map.
pub attempts_of-Sound :
    (lease : Option Lease) (r : ExecutionRecord) (op : Text)
    → Entries (SlotSound lease) r.attempts
    → SlotSound lease op (attempts_of r op)
unfolding attempts_of
attempts_of-Sound lease r op s = go (get r.attempts op) refl
  where
    go :
        (o : Option (List Attempt))
        → get r.attempts op ≡ o
        → SlotSound lease op (elim o [ none ↦ [] | some l ↦ l ])
    go none e = (tt, tt)
    go (some l) e = Entries-get (SlotSound lease) r.attempts op l s e
