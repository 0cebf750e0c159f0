-- ===== src/Vuln/Summary.antt =====
-- pkg/vuln/scanner.go: the order and the counts of `PrintSummary`, and the lines of a description.
use naabu.Prelude.{
  ℕ, ◌+◌, ◌≤◌, ◌<◌, ◌≡◌, refl, inl, inr, arith, Bool, true, false, List, [], ◌∷◌, ◌++◌,
  if◌then◌else◌, ltb, length, length-append, filter, All, Bool-cases, ◌==◌,
}
use naabu.Prelude.Text.{Text, codes}
use naabu.Vuln.Signature.{Severity, sev_info, sev_low, sev_medium, sev_high, sev_critical}
use naabu.Vuln.Exposure.{Finding}

-- `Severity.String`
unfoldable pub severity_string : Severity → Text
severity_string sev_info = codes "INFO"
severity_string sev_low = codes "LOW"
severity_string sev_medium = codes "MEDIUM"
severity_string sev_high = codes "HIGH"
severity_string sev_critical = codes "CRITICAL"

abbrev pub rank : Severity → ℕ
rank sev_info = 0
rank sev_low = 1
rank sev_medium = 2
rank sev_high = 3
rank sev_critical = 4

abbrev pub same_severity : Severity → Severity → Bool
same_severity s t = rank s == rank t

abbrev pub is_severity : Severity → Finding → Bool
is_severity s f = same_severity s f.severity

unfoldable pub count_severity : Severity → List Finding → ℕ
count_severity s [] = 0
count_severity s (f ∷ all) = (if is_severity s f then 1 else 0) + count_severity s all

-- The findings in the order in which they are printed.
unfoldable pub printed : List Finding → List Finding
unfolding filter
printed all =
    filter (is_severity sev_critical) all
    ++ (filter (is_severity sev_high) all
        ++ (filter (is_severity sev_medium) all
            ++ (filter (is_severity sev_low) all ++ filter (is_severity sev_info) all)))

-- The bytes of a text.
unfoldable pub byte_length : Text → ℕ
byte_length [] = 0
byte_length (c ∷ s) =
    (if ltb c 0x80 then 1 else if ltb c 0x800 then 2 else if ltb c 0x10000 then 3 else 4)
    + byte_length s

abbrev pub indent : Text
indent = codes "    "

-- The lines that are printed from the line so far on; `empty` tells whether it is the indent.
unfoldable pub wrap_words : Text → Bool → List Text → List Text
unfolding byte_length
wrap_words line empty [] = if empty then [] else line ∷ []
wrap_words line empty (w ∷ words) =
    let full = ltb 82 (byte_length line + byte_length w + 1) in
    let next = if full then indent ++ w else if empty then line ++ w else line ++ b' ' ∷ w in
    let rest = wrap_words next false words in if full then line ∷ rest else rest

byte_length-append : (s t : Text) → byte_length (s ++ t) ≡ byte_length s + byte_length t
unfolding byte_length
byte_length-append [] t = omega arith
byte_length-append (c ∷ s) t = omega (arith, byte_length-append s t)

-- With words of at most 78 bytes no line is longer than 82.
pub wrap_words-IsShort :
    (line : Text) (empty : Bool) (words : List Text)
    → byte_length line ≤ 82
    → All (λ w. byte_length w ≤ 78) words
    → All (λ l. byte_length l ≤ 82) (wrap_words line empty words)
unfolding wrap_words
wrap_words-IsShort line true [] short fit = tt
wrap_words-IsShort line false [] short fit = (short, tt)
wrap_words-IsShort line empty (w ∷ words) short (fit, fits) =
    elim (Bool-cases (ltb 82 (byte_length line + byte_length w + 1))) [
      | inl full ↦ rw full (
        short,
        wrap_words-IsShort (indent ++ w) false words (unfold byte_length in omega arith) fits,
      )
      | inr room ↦ rw room (
          wrap_words-IsShort (if empty then line ++ w else line ++ b' ' ∷ w) false words
            (joined empty (ground arith)) fits)
    ]
  where
    joined :
        (e : Bool)
        → byte_length line + byte_length w < 82
        → byte_length (if e then line ++ w else line ++ b' ' ∷ w) ≤ 82
    joined true h = omega (arith, byte_length-append line w)
    joined false h = unfold byte_length in omega (arith, byte_length-append line (b' ' ∷ w))

length-filter-count :
    (s : Severity) (all : List Finding) → length (filter (is_severity s) all) ≡ count_severity s all
unfolding filter count_severity
length-filter-count s [] = refl
length-filter-count s (f ∷ all) = ground (arith, length-filter-count s all)

abbrev tally : Severity → Severity → ℕ
tally s t = if same_severity s t then 1 else 0

one_each :
    (t : Severity)
    → tally sev_critical t
        + (tally sev_high t + (tally sev_medium t + (tally sev_low t + tally sev_info t)))
      ≡ 1
one_each sev_info = refl
one_each sev_low = refl
one_each sev_medium = refl
one_each sev_high = refl
one_each sev_critical = refl

-- The totals are those of all findings.
pub totals :
    (all : List Finding)
    → count_severity sev_critical all
        + (count_severity sev_high all
            + (count_severity sev_medium all
                + (count_severity sev_low all + count_severity sev_info all)))
      ≡ length all
unfolding count_severity
totals [] = refl
totals (f ∷ all) = omega (arith, totals all, one_each f.severity)

-- Every finding is printed once.
pub length-printed : (all : List Finding) → length (printed all) ≡ length all
unfolding printed
length-printed all =
    rw
      (
        length-append,
        length-append,
        length-append,
        length-append,
        length-filter-count sev_critical all,
        length-filter-count sev_high all,
        length-filter-count sev_medium all,
        length-filter-count sev_low all,
        length-filter-count sev_info all,
      )
      (totals all)
