-- ===== src/Prelude/Assoc.antt =====
-- Go maps as association lists: the first entry of a key counts.
use mathlib.Core.Path.{◌≡◌, refl, subst}
use mathlib.Core.Option.{Option, none, some}
use mathlib.Core.List.{List, [], ◌∷◌}
use native.Mathlib.Omega.{arith}
use go_hydaelyn.Prelude.Tests.{Eq, ◌==◌, if◌then◌else◌, Bool-cases}
use mathlib.Core.Logic.{inl, inr}

abbrev pub Map {ℓ κ} : Type ℓ → Type κ → Type (ℓ ⊔ κ)
Map K V = List (K × V)

module _ {ℓ κ} {K : Type ℓ} {V : Type κ} ⦃e : Eq K⦄ where
  -- v, ok := m[k]
  unfoldable pub get : Map K V → K → Option V
  get [] k = none
  get ((j, v) ∷ m) k = if j == k then some v else get m k

  -- m[k] = v
  unfoldable pub put : Map K V → K → V → Map K V
  put [] k v = (k, v) ∷ []
  put ((j, w) ∷ m) k v = if j == k then (k, v) ∷ m else (j, w) ∷ put m k v

  pub get-put :
      (m : Map K V) (k j : K) (v : V) → get (put m k v) j ≡ (if k == j then some v else get m j)
  unfolding get put
  get-put [] k j v = refl
  get-put ((i, w) ∷ m) k j v =
      ground (arith, get-put m k j v, e.eqb_iff i k, e.eqb_iff i j, e.eqb_iff k j)

-- A predicate on the entries of a map.
abbrev pub Entries {ℓ κ μ} : {K : Type ℓ} {V : Type κ} → (K → V → Type μ) → Map K V → Type μ
Entries P [] = Unit
Entries P ((k, v) ∷ m) = P k v × Entries P m

module _ {ℓ κ μ} {K : Type ℓ} {V : Type κ} ⦃e : Eq K⦄ (P : K → V → Type μ) where
  pub Entries-put : (m : Map K V) (k : K) (v : V) → Entries P m → P k v → Entries P (put m k v)
  unfolding put
  Entries-put [] k v h p = (p, tt)
  Entries-put ((j, w) ∷ m) k v h p = elim (Bool-cases (j == k)) [
    | inl here ↦ rw here (p, h.1)
    | inr other ↦ rw other (h.0, Entries-put m k v h.1 p)
  ]

  pub Entries-get : (m : Map K V) (k : K) (v : V) → Entries P m → get m k ≡ some v → P k v
  unfolding get
  Entries-get [] k v h found = cc
  Entries-get ((j, w) ∷ m) k v h found = elim (Bool-cases (j == k)) [
    | inl here ↦
        let same : w ≡ v = ground arith in
        let key : j ≡ k = (e.eqb_iff j k).0 here in
        subst (λ x. P x v) key (subst (λ y. P j y) same h.0)
    | inr other ↦ Entries-get m k v h.1 (ground arith)
  ]

pub get-put_self {ℓ κ} :
    {K : Type ℓ} {V : Type κ} ⦃e : Eq K⦄ (m : Map K V) (k : K) (v : V) → get (put m k v) k ≡ some v
get-put_self ⦃e⦄ m k v = rw (get-put m k k v) (rw ((e.eqb_iff k k).1 refl))
