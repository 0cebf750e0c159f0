-- ===== src/Prelude/Text.antt =====
-- Texts as lists of code points, with what the program uses of Go's `strings`.
use Prim.Native.Char.{code}
use Prim.Native.String.{String}
use Prim.Native.Nat.{ℕ}
use mathlib.Core.Path.{◌≡◌, refl}
use mathlib.Core.Logic.{◌↔◌, ◌≢◌, inl, inr}
use mathlib.Core.Bool.{Bool, true, false, ◌&&◌, ◌||◌}
use mathlib.Core.List.{List, [], ◌∷◌, ◌++◌, append-nil, append_assoc}
use native.Mathlib.Omega.{arith}
use naabu.Prelude.Tests.{◌==◌, leb, if◌then◌else◌, Bool-cases}
use naabu.Prelude.Lists.{All, All-append}
use naabu.Prelude.Keys.{Eq, elem, nat_eq}

abbrev pub Text : Type 0
Text = List ℕ

abbrev pub codes : String → Text
codes String.[] = []
codes (String.◌∷◌ c s) = code c ∷ codes s

abbrev pub text_beq : Text → Text → Bool
text_beq [] [] = true
text_beq [] (_ ∷ _) = false
text_beq (_ ∷ _) [] = false
text_beq (a ∷ s) (b ∷ t) = (a == b) && text_beq s t

text_beq_sound : (s t : Text) → text_beq s t ≡ true → s ≡ t
text_beq_sound [] [] h = refl
text_beq_sound [] (_ ∷ _) h = cc
text_beq_sound (_ ∷ _) [] h = cc
text_beq_sound (a ∷ s) (b ∷ t) h = ground (arith, text_beq_sound s t)

text_beq_refl : (s : Text) → text_beq s s ≡ true
text_beq_refl [] = refl
text_beq_refl (a ∷ s) = ground (arith, text_beq_refl s)

pub text_beq_iff : (s t : Text) → (text_beq s t ≡ true) ↔ (s ≡ t)
text_beq_iff s t = (text_beq_sound s t, λ p. rw (← p) (text_beq_refl s))

instance abbrev pub text_eq : Eq Text
text_eq = record { same = text_beq; same_iff = text_beq_iff }

-- unicode.IsSpace
unfoldable pub is_space : ℕ → Bool
is_space c =
    (leb 9 c && leb c 13)
    || elem c (32 ∷ 0x85 ∷ 0xa0 ∷ 0x1680 ∷ 0x2028 ∷ 0x2029 ∷ 0x202f ∷ 0x205f ∷ 0x3000 ∷ [])
    || (leb 0x2000 c && leb c 0x200a)

-- strings.TrimLeftFunc with unicode.IsSpace
unfoldable pub trim_left : Text → Text
unfolding is_space
trim_left [] = []
trim_left (c ∷ s) = if is_space c then trim_left s else c ∷ s

-- strings.TrimRightFunc with unicode.IsSpace: a space is dropped if nothing is left behind it
unfoldable pub trim_right : Text → Text
unfolding is_space
trim_right [] = []
trim_right (c ∷ s) = elim (trim_right s) [
  | [] ↦ if is_space c then [] else c ∷ []
  | d ∷ r ↦ c ∷ d ∷ r
]

-- strings.TrimSpace
unfoldable pub trim_space : Text → Text
unfolding trim_left trim_right
trim_space s = trim_right (trim_left s)

-- strings.Contains for a text of one character
unfoldable pub contains : ℕ → Text → Bool
contains c [] = false
contains c (d ∷ s) = (d == c) || contains c s

-- strings.HasPrefix and strings.TrimPrefix
unfoldable pub has_prefix : Text → Text → Bool
has_prefix [] s = true
has_prefix (c ∷ p) [] = false
has_prefix (c ∷ p) (d ∷ s) = (c == d) && has_prefix p s

unfoldable pub drop_prefix : Text → Text → Text
drop_prefix [] s = s
drop_prefix (c ∷ p) [] = []
drop_prefix (c ∷ p) (d ∷ s) = drop_prefix p s

unfoldable pub trim_prefix : Text → Text → Text
unfolding has_prefix drop_prefix
trim_prefix p s = if has_prefix p s then drop_prefix p s else s

-- strings.Split at a separator of one character: the parts behind the part `cur`
unfoldable pub split_from : ℕ → Text → Text → List Text
split_from sep cur [] = cur ∷ []
split_from sep cur (c ∷ s) =
    let cut = cur ∷ split_from sep [] s in
    let keep = split_from sep (cur ++ c ∷ []) s in if c == sep then cut else keep

unfoldable pub split : ℕ → Text → List Text
unfolding split_from
split sep s = split_from sep [] s

abbrev pub Lacks : ℕ → Text → Type 0
Lacks c = All (λ d. d ≢ c)

split_from-append :
    (sep : ℕ) (cur p s : Text)
    → Lacks sep p
    → split_from sep cur (p ++ s) ≡ split_from sep (cur ++ p) s
unfolding split_from
split_from-append sep cur [] s h = rw append-nil
split_from-append sep cur (c ∷ p) s h =
    ground (arith, split_from-append sep (cur ++ c ∷ []) p s, append_assoc cur (c ∷ []) p)

-- A text with no separator in it is one part.
pub split_whole : (sep : ℕ) (p : Text) → Lacks sep p → split sep p ≡ p ∷ []
unfolding split split_from
split_whole sep p h = rw (← append-nil p) (rw (split_from-append sep [] p [] h) (rw append-nil))

-- The first part ends at the first separator.
pub split_step : (sep : ℕ) (p s : Text) → Lacks sep p → split sep (p ++ sep ∷ s) ≡ p ∷ split sep s
unfolding split split_from
split_step sep p s h = rw (split_from-append sep [] p (sep ∷ s) h) (ground arith)

split_from-Lacks : (sep : ℕ) (cur s : Text) → Lacks sep cur → All (Lacks sep) (split_from sep cur s)
unfolding split_from
split_from-Lacks sep cur [] h = (h, tt)
split_from-Lacks sep cur (c ∷ s) h = elim (Bool-cases (c == sep)) [
  | inl e ↦ rw e (h, split_from-Lacks sep [] s tt)
  | inr e ↦
      rw e (split_from-Lacks sep (cur ++ c ∷ []) s (All-append _ cur (c ∷ []) h (ground arith)))
]

-- No part holds the separator.
pub split-Lacks : (sep : ℕ) (s : Text) → All (Lacks sep) (split sep s)
unfolding split
split-Lacks sep s = split_from-Lacks sep [] s tt

pub contains-Lacks : (c : ℕ) (s : Text) → contains c s ≡ false → Lacks c s
unfolding contains
contains-Lacks c [] h = tt
contains-Lacks c (d ∷ s) h = ground (arith, contains-Lacks c s)

pub Lacks-contains : (c : ℕ) (s : Text) → Lacks c s → contains c s ≡ false
unfolding contains
Lacks-contains c [] h = refl
Lacks-contains c (d ∷ s) h = ground (arith, Lacks-contains c s)

trim_left_id : (s : Text) → All (λ c. is_space c ≡ false) s → trim_left s ≡ s
unfolding trim_left
trim_left_id [] h = refl
trim_left_id (c ∷ s) (h, hs) = rw h

trim_right_id : (s : Text) → All (λ c. is_space c ≡ false) s → trim_right s ≡ s
unfolding trim_right
trim_right_id [] h = refl
trim_right_id (c ∷ []) (h, hs) = rw h
trim_right_id (c ∷ d ∷ s) (h, hs) = rw (trim_right_id (d ∷ s) hs, trim_right)

-- A text without spaces is left as it is.
pub trim_space_id : (s : Text) → All (λ c. is_space c ≡ false) s → trim_space s ≡ s
unfolding trim_space
trim_space_id s h = rw (trim_left_id s h) (trim_right_id s h)
