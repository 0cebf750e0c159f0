-- ===== src/Prelude/Decimal.antt =====
-- Go's `strconv.Atoi` and the decimal print of an `int` (`%d`, `strconv.Itoa`).
use Prim.Native.Nat.{ℕ, zero, suc, ◌+◌, ◌-◌, ◌*◌, ◌/◌, ◌%◌, ◌^◌, ◌≤◌, ◌<◌}
use mathlib.Core.Path.{◌≡◌, refl, sym, ap, ◌∙◌, subst}
use mathlib.Core.Logic.{◌≢◌, inl, inr}
use mathlib.Core.Bool.{Bool, true, false, ◌&&◌}
use mathlib.Core.Option.{Option, none, some}
use mathlib.Core.List.{[], ◌∷◌, ◌++◌, cons-ne-nil, concat-ne-nil}
use native.Mathlib.Omega.{arith}
use naabu.Prelude.Tests.{◌==◌, ltb, leb, if◌then◌else◌, Bool-cases, and_then}
use naabu.Prelude.Lists.{All, All-append, All-map}
use naabu.Prelude.Int.{ℤ, pos, negsuc, pos_part}
use naabu.Prelude.Text.{Text, Lacks}

abbrev pub is_digit : ℕ → Bool
is_digit c = leb b'0' c && leb c b'9'

abbrev pub IsDigit : ℕ → Type 0
IsDigit c = (b'0' ≤ c) × (c ≤ b'9')

-- The digits after the value `n` of those before them; `none` at any other character.
unfoldable pub digits_value : ℕ → Text → Option ℕ
digits_value n [] = some n
digits_value n (c ∷ s) = if is_digit c then digits_value (n * 10 + (c - b'0')) s else none

-- One digit at least.
unfoldable pub unsigned : Text → Option ℕ
unfolding digits_value
unsigned [] = none
unsigned (c ∷ s) = digits_value 0 (c ∷ s)

-- A value in range, as `int`: errors are a syntax error or one of range, both an `err`.
unfoldable pub signed : Bool → ℕ → Option ℤ
signed true n =
    if n == 0 then some (pos 0) else if leb n (2 ^ 63) then some (negsuc (n - 1)) else none
signed false n = if ltb n (2 ^ 63) then some (pos n) else none

unfoldable pub atoi : Text → Option ℤ
unfolding unsigned signed
atoi [] = none
atoi (c ∷ s) =
    if c == b'-'
    then and_then (unsigned s) (signed true)
    else if c == b'+'
    then and_then (unsigned s) (signed false)
    else and_then (unsigned (c ∷ s)) (signed false)

-- The digits of `n`, with fuel above `n`.
unfoldable pub print_fuel : ℕ → ℕ → Text
print_fuel zero n = []
print_fuel (suc f) n =
    let above = print_fuel f (n / 10) ++ (b'0' + n % 10) ∷ [] in
    if ltb n 10 then (b'0' + n) ∷ [] else above

unfoldable pub print : ℕ → Text
unfolding print_fuel
print n = print_fuel (suc n) n

unfoldable pub itoa : ℤ → Text
itoa (pos n) = print n
itoa (negsuc n) = b'-' ∷ print (suc n)

pub digits_value-append :
    (s t : Text) (n m : ℕ) → digits_value n s ≡ some m → digits_value n (s ++ t) ≡ digits_value m t
unfolding digits_value
digits_value-append [] t n m h = ground arith
digits_value-append (c ∷ s) t n m h =
    ground (arith, digits_value-append s t (n * 10 + (c - b'0')) m)

pub print_fuel-value : (f n : ℕ) → n < f → digits_value 0 (print_fuel f n) ≡ some n
unfolding print_fuel
print_fuel-value zero n h = absurd (omega arith)
print_fuel-value (suc f) n h = elim (Bool-cases (ltb n 10)) [
  | inl small ↦ rw small (unfold digits_value in ground arith)
  | inr big ↦ rw big (
      digits_value-append (print_fuel f (n / 10)) _ 0 (n / 10)
        (print_fuel-value f (n / 10) (ground arith))
      ∙ (unfold digits_value in ground arith))
]

print_fuel-IsDigit : (f n : ℕ) → All IsDigit (print_fuel f n)
unfolding print_fuel
print_fuel-IsDigit zero n = tt
print_fuel-IsDigit (suc f) n = elim (Bool-cases (ltb n 10)) [
  | inl small ↦ rw small (ground arith)
  | inr big ↦
      rw big
        (All-append IsDigit (print_fuel f (n / 10)) _ (print_fuel-IsDigit f (n / 10)) (omega arith))
]

pub print-IsDigit : (n : ℕ) → All IsDigit (print n)
unfolding print
print-IsDigit n = print_fuel-IsDigit (suc n) n

pub print-value : (n : ℕ) → digits_value 0 (print n) ≡ some n
unfolding print
print-value n = print_fuel-value (suc n) n (omega arith)

pub print-ne-nil : (n : ℕ) → print n ≢ []
unfolding print print_fuel
print-ne-nil n =
    ground (arith, concat-ne-nil (b'0' + n % 10) (print_fuel n (n / 10)), cons-ne-nil (b'0' + n) [])

pub print-injective : (n m : ℕ) → print n ≡ print m → n ≡ m
print-injective n m h = ground (arith, print-value n, print-value m)

-- A print holds no character that is no digit.
pub print-Lacks : (c n : ℕ) → is_digit c ≡ false → Lacks c (print n)
print-Lacks c n h = All-map (print n) (λ d p e. ground arith) (print-IsDigit n)

atoi_unsigned :
    (s : Text) → s ≢ [] → All IsDigit s → atoi s ≡ and_then (digits_value 0 s) (signed false)
unfolding atoi
atoi_unsigned [] ne ds = absurd (ne refl)
atoi_unsigned (c ∷ s) ne ds = ground arith

pub atoi_digits :
    (s : Text) (n : ℕ)
    → s ≢ []
    → All IsDigit s
    → digits_value 0 s ≡ some n
    → n < 2 ^ 63
    → atoi s ≡ some (pos n)
unfolding signed
atoi_digits s n ne ds v h = rw (atoi_unsigned s ne ds, v) (ground arith)

pub atoi-print : (n : ℕ) → n < 2 ^ 63 → atoi (print n) ≡ some (pos n)
atoi-print n h = atoi_digits (print n) n (print-ne-nil n) (print-IsDigit n) (print-value n) h

print-ne-minus : (n : ℕ) (s : Text) → print n ≢ b'-' ∷ s
print-ne-minus n s e = let d = subst (All IsDigit) e (print-IsDigit n) in omega arith

pub itoa-injective : (a b : ℤ) → itoa a ≡ itoa b → a ≡ b
unfolding itoa
itoa-injective (pos n) (pos m) h = ap pos (print-injective n m h)
itoa-injective (pos n) (negsuc m) h = absurd (print-ne-minus n _ h)
itoa-injective (negsuc n) (pos m) h = absurd (print-ne-minus m _ (sym h))
itoa-injective (negsuc n) (negsuc m) h = ground (arith, print-injective (suc n) (suc m))

signed_nonneg : (o : Option ℕ) (z : ℤ) → and_then o (signed false) ≡ some z → z ≡ pos (pos_part z)
unfolding signed
signed_nonneg none z h = cc
signed_nonneg (some n) z h = ground arith

-- Without a minus sign the number is not negative.
pub atoi_nonneg : (s : Text) (z : ℤ) → Lacks b'-' s → atoi s ≡ some z → z ≡ pos (pos_part z)
unfolding atoi
atoi_nonneg [] z l h = cc
atoi_nonneg (c ∷ s) z l h =
    ground (arith, signed_nonneg (unsigned s) z, signed_nonneg (unsigned (c ∷ s)) z)
