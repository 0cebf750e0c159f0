-- ===== src/Prelude/Search.antt =====
-- What the program uses of Go's `strings` to look into texts.
use Prim.Native.Nat.{ℕ, zero, suc, ◌+◌}
use mathlib.Core.Bool.{Bool, true, false, ◌&&◌, ◌||◌}
use mathlib.Core.Path.{◌≡◌, refl}
use mathlib.Core.List.{List, [], ◌∷◌, ◌++◌, map}
use native.Mathlib.Omega.{arith}
use mathlib.Core.Option.{Option, none, some}
use naabu.Prelude.Tests.{◌==◌, ltb, leb, if◌then◌else◌}
use naabu.Prelude.Keys.{elem, nat_eq}
use naabu.Prelude.Text.{Text, has_prefix, Lacks}

-- strings.ToLower, as far as its result holds characters of ASCII: beside the capitals, the dotted I
-- and the sign of Kelvin become such ones. No other letter is lowered.
unfoldable pub lower_char : ℕ → ℕ
lower_char c =
    if leb b'A' c && leb c b'Z'
    then c + 32
    else if c == 0x130
    then b'i'
    else if c == 0x212a
    then b'k'
    else c

unfoldable pub to_lower : Text → Text
unfolding lower_char
to_lower = map lower_char

-- strings.Contains
unfoldable pub contains_text : Text → Text → Bool
unfolding has_prefix
contains_text sub [] = has_prefix sub []
contains_text sub (c ∷ s) = has_prefix sub (c ∷ s) || contains_text sub s

-- strings.Index
unfoldable pub index_of : Text → Text → Option ℕ
unfolding has_prefix
index_of sub [] = if has_prefix sub [] then some 0 else none
index_of sub (c ∷ s) =
    let rest = index_of sub s in
    if has_prefix sub (c ∷ s) then some 0 else elim rest [ none ↦ none | some i ↦ some (suc i) ]

-- The order of strings.
unfoldable pub text_lt : Text → Text → Bool
text_lt s [] = false
text_lt [] (d ∷ t) = true
text_lt (c ∷ s) (d ∷ t) = ltb c d || (c == d) && text_lt s t

-- The parts before and behind the first `c`: strings.SplitN with 2 where there are two.
unfoldable pub split_first : ℕ → Text → Option (Text × Text)
split_first c [] = none
split_first c (d ∷ s) =
    let rest = split_first c s in
    if d == c then some ([], s) else elim rest [ none ↦ none | some (a, b) ↦ some (d ∷ a, b) ]

-- strings.SplitN
unfoldable pub split_n : ℕ → ℕ → Text → List Text
unfolding split_first
split_n c zero s = []
split_n c (suc zero) s = s ∷ []
split_n c (suc (suc n)) s = elim (split_first c s) [
  | none ↦ s ∷ []
  | some (a, b) ↦ a ∷ split_n c (suc n) b
]

-- Up to the first character of the list: strings.IndexAny and a slice.
unfoldable pub before_any : List ℕ → Text → Text
before_any cs [] = []
before_any cs (d ∷ s) = let rest = d ∷ before_any cs s in if elem d cs then [] else rest

-- A slice from an index on.
abbrev pub drop : ℕ → Text → Text
drop zero s = s
drop (suc n) [] = []
drop (suc n) (c ∷ s) = drop n s

-- The separator that no character before it is.
pub split_first_lem : (c : ℕ) (p s : Text) → Lacks c p → split_first c (p ++ c ∷ s) ≡ some (p, s)
unfolding split_first
split_first_lem c [] s h = ground arith
split_first_lem c (d ∷ p) s (h, hs) = rw (split_first_lem c p s hs) (ground arith)

pub split_first-none : (c : ℕ) (s : Text) → Lacks c s → split_first c s ≡ none
unfolding split_first
split_first-none c [] h = refl
split_first-none c (d ∷ s) (h, hs) = rw (split_first-none c s hs) (ground arith)
