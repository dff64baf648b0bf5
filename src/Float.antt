-- ===== src/Float.antt =====
-- Go's float64 and the few operations on it that the program uses; there are no floats in the model.
use ovpn.Prelude.{ℕ, ℤ, Bool}

pub record Float64 : Type 1 where
  pub F : Type 0
  pub of_int64 : ℤ → F
  pub mul : F → F → F
  pub div : F → F → F
  pub at_most : F → F → Bool
  -- `literal m k` is the literal m / 10^k.
  pub literal : ℕ → ℕ → F
  -- time.Duration.Hours
  pub hours : ℤ → F
