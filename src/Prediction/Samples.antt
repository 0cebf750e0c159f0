-- ===== src/Prediction/Samples.antt =====
-- Test data: probabilities in tenths of a percent, and a model.
use naabu.Prelude.{ℕ, ◌*◌, ◌/◌, ◌≡◌, true, false, [], ◌∷◌, ltb, arith}
use naabu.Prelude.Int.{pos}
use naabu.Float.{Float64}
use naabu.Prediction.{Model}

pub ltb_irrefl : (a : ℕ) → ltb a a ≡ false
ltb_irrefl a = ground arith

pub ltb_trans : (a b c : ℕ) → ltb a b ≡ true → ltb b c ≡ true → ltb a c ≡ true
ltb_trans a b c h k = ground arith

pub ltb_total : (a b : ℕ) → ltb a b ≡ false → ltb b a ≡ false → a ≡ b
ltb_total a b h k = ground arith

abbrev pub tenths : Float64
tenths = record {
  Float = ℕ;
  zero_value = 0;
  lt = ltb;
  ratio = λ a b. a * 1000 / b;
  lt_irrefl = ltb_irrefl;
  lt_trans = ltb_trans;
  lt_total = ltb_total;
}

-- A host with port 80 has port 443 with 70 percent and port 22 with 40 percent.
abbrev pub web : Model tenths
web = record { correlations = (pos 80, (pos 443, 700) ∷ (pos 22, 400) ∷ []) ∷ [] }
