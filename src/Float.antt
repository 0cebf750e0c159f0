-- ===== src/Float.antt =====
-- Go's `float64`, of which antt has no model: the values that the program's probabilities take, with
-- their order. A probability is a quotient of counts or a constant of the model, so no value is a
-- NaN or a negative zero, and the order is a linear one.
use naabu.Prelude.{ℕ, ◌≡◌, Bool, true, false}

pub record Float64 : Type 1 where
  pub Float : Type 0
  pub zero_value : Float
  pub lt : Float → Float → Bool
  -- `float64(a) / float64(b)`
  pub ratio : ℕ → ℕ → Float
  pub lt_irrefl : (a : Float) → lt a a ≡ false
  pub lt_trans : (a b c : Float) → lt a b ≡ true → lt b c ≡ true → lt a c ≡ true
  pub lt_total : (a b : Float) → lt a b ≡ false → lt b a ≡ false → a ≡ b
