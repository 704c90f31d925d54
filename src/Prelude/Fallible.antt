-- ===== src/Prelude/Fallible.antt =====
-- A Python call that may raise: its value, or the error it raised.
pub data Result {ℓ κ} (E : Type ℓ) (A : Type κ) : Type (ℓ ⊔ κ) where
  ok : A → Result E A
  err : E → Result E A
