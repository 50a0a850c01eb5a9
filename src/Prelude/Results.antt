-- ===== src/Prelude/Results.antt =====
-- A Go result pair `(A, error)` of which the caller reads one half.
pub data Result {ℓ κ} (E : Type ℓ) (A : Type κ) : Type (ℓ ⊔ κ) where
  ok : A → Result E A
  err : E → Result E A
