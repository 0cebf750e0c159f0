-- ===== src/Runner/Ports/Written.antt =====
-- Port lists that are written out and parsed.
use naabu.Prelude.{
  ℕ, zero, suc, ◌+◌, ◌-◌, ◌≤◌, ◌≡◌, ◌≢◌, refl, ap, ◌∙◌, true, false, List, [], ◌∷◌, ◌++◌, arith, ok,
  All, All-append, All-map, ne-=?, =?_refl, elem,
}
use mathlib.Core.List.{cons-ne-nil}
use naabu.Prelude.Int.{pos, int_eq, pos-+ℤ}
use naabu.Prelude.Text.{
  Text, codes, text_eq, Lacks, split, split_whole, split_step, contains, Lacks-contains, is_space,
  trim_space_id, has_prefix,
}
use naabu.Prelude.Decimal.{
  itoa, print, print-injective, print-Lacks, print-IsDigit, print-ne-nil, atoi-print, IsDigit,
  is_digit,
}
use naabu.Net.Protocol.{Protocol, tcp, udp}
use naabu.Net.Port
use naabu.Net.Port.{Port}
use naabu.Runner.Ports.{
  bare, range, parse_ends, parse_range, parse_single, parse_numbers, parse_trimmed, parse_segment,
  parse_segments, dedupe, parse_ports_slice,
}

digit-space : (c : ℕ) → IsDigit c → is_space c ≡ false
unfolding is_space
digit-space c h = ground arith

print-space : (n : ℕ) → All (λ c. is_space c ≡ false) (print n)
print-space n = All-map (print n) digit-space (print-IsDigit n)

-- A list as `lo-hi` for TCP.
abbrev pub written : ℕ → ℕ → Text
written lo hi = print lo ++ b'-' ∷ print hi

written-Lacks : (c lo hi : ℕ) → is_digit c ≡ false → c ≢ b'-' → Lacks c (written lo hi)
written-Lacks c lo hi h ne =
    All-append _ (print lo) _ (print-Lacks c lo h) (ground arith, print-Lacks c hi h)

written-space : (lo hi : ℕ) → All (λ c. is_space c ≡ false) (written lo hi)
unfolding is_space
written-space lo hi = All-append _ (print lo) _ (print-space lo) (refl, print-space hi)

written-ne-nil : (lo hi : ℕ) → written lo hi ≢ []
written-ne-nil lo hi = go (print lo)
  where
    go : (s : Text) → s ++ b'-' ∷ print hi ≢ []
    go [] = cons-ne-nil _ _
    go (c ∷ s) = cons-ne-nil _ _

split-written : (lo hi : ℕ) → split b'-' (written lo hi) ≡ print lo ∷ print hi ∷ []
split-written lo hi =
    split_step b'-' (print lo) (print hi) (print-Lacks b'-' lo refl)
    ∙ ap (◌∷◌ (print lo)) (split_whole b'-' (print hi) (print-Lacks b'-' hi refl))

contains-written : (lo hi : ℕ) → contains b'-' (written lo hi) ≡ true
unfolding contains
contains-written lo hi = go (print lo)
  where
    go : (s : Text) → contains b'-' (s ++ b'-' ∷ print hi) ≡ true
    go [] = refl
    go (c ∷ s) = ground (arith, go s)

digit-ne-u : (s t : Text) → s ≢ [] → All IsDigit s → has_prefix (codes "u:") (s ++ t) ≡ false
unfolding has_prefix
digit-ne-u [] t ne h = absurd (ne refl)
digit-ne-u (c ∷ s) t ne h = ground arith

-- A segment that is no space, not empty and has no "u:" in front is read as it stands.
parse_segment_tcp :
    (s : Text)
    → s ≢ []
    → All (λ c. is_space c ≡ false) s
    → has_prefix (codes "u:") s ≡ false
    → parse_segment s ≡ parse_numbers tcp s
unfolding parse_segment parse_trimmed
parse_segment_tcp s ne sp pre = ap parse_trimmed (trim_space_id s sp) ∙ rw (ne-=? s [] ne, pre) refl

-- One with "u:" in front is read behind it, as UDP.
parse_segment_udp :
    (s : Text)
    → All (λ c. is_space c ≡ false) s
    → parse_segment (b'u' ∷ b':' ∷ s) ≡ parse_numbers udp s
unfolding parse_segment parse_trimmed is_space
parse_segment_udp s sp = ap parse_trimmed (trim_space_id (b'u' ∷ b':' ∷ s) (refl, (refl, sp)))

parse_ends-print :
    (proto : Protocol) (lo hi : ℕ)
    → lo ≤ hi
    → hi ≤ 65535
    → parse_ends proto (print lo) (print hi) ≡ ok (range proto (pos lo) (hi + 1 - lo))
unfolding parse_ends
parse_ends-print proto lo hi h b =
    rw (atoi-print lo (omega arith), atoi-print hi (omega arith), parse_ends) (ground arith)

parse_segment-written :
    (lo hi : ℕ)
    → lo ≤ hi
    → hi ≤ 65535
    → parse_segment (written lo hi) ≡ ok (range tcp (pos lo) (hi + 1 - lo))
unfolding parse_numbers parse_range
parse_segment-written lo hi h b =
    rw
      (
        parse_segment_tcp (written lo hi) (written-ne-nil lo hi) (written-space lo hi)
            (digit-ne-u (print lo) _ (print-ne-nil lo) (print-IsDigit lo)),
        contains-written lo hi,
        split-written lo hi,
      )
      (parse_ends-print tcp lo hi h b)

string-bare : (proto : Protocol) (n : ℕ) → Port.string (bare proto (pos n)) ≡ print n
unfolding itoa
string-bare proto n = Port.string-itoa (bare proto (pos n))

-- Nothing of a range is dropped if no number from its start on is seen.
dedupe-range :
    (proto : Protocol) (n k : ℕ) (seen : List Text)
    → ((j : ℕ) → k ≤ j → elem (print j) seen ≡ false)
    → dedupe seen (range proto (pos k) n) ≡ range proto (pos k) n
unfolding dedupe range
dedupe-range proto zero k seen h = refl
dedupe-range proto (suc n) k seen h =
    rw (pos-+ℤ k 1, string-bare proto k, h k (omega arith))
      (ap (◌∷◌ (bare proto (pos k))) (
        dedupe-range proto n (k + 1) (print k ∷ seen) λ j le.
          rw (ne-=? (print j) (print k) (λ e. absurd (omega (arith, print-injective j k e))))
            (h j (omega arith))))

-- A written range is parsed as exactly its ports, in order.
pub parse_ports_slice-written :
    (lo hi : ℕ)
    → lo ≤ hi
    → hi ≤ 65535
    → parse_ports_slice (written lo hi ∷ []) ≡ ok (range tcp (pos lo) (hi + 1 - lo))
unfolding parse_ports_slice parse_segments
parse_ports_slice-written lo hi h b =
    rw
      (
        split_whole b',' (written lo hi) (written-Lacks b',' lo hi refl (omega arith)),
        parse_segment-written lo hi h b,
      )
      (ap ok (dedupe-range tcp (hi + 1 - lo) lo [] (λ j le. refl)))

no_minus : (n : ℕ) → contains b'-' (print n) ≡ false
no_minus n = Lacks-contains b'-' (print n) (print-Lacks b'-' n refl)

parse_numbers-print :
    (proto : Protocol) (n : ℕ)
    → n ≤ 65535
    → parse_numbers proto (print n) ≡ ok (bare proto (pos n) ∷ [])
unfolding parse_numbers parse_single
parse_numbers-print proto n h =
    rw (no_minus n, atoi-print n (omega arith), parse_single) (ground arith)

parse_segment-print : (n : ℕ) → n ≤ 65535 → parse_segment (print n) ≡ ok (bare tcp (pos n) ∷ [])
unfolding has_prefix
parse_segment-print n h =
    parse_segment_tcp (print n) (print-ne-nil n) (print-space n)
      (no_prefix (print n) (print-IsDigit n))
    ∙ parse_numbers-print tcp n h
  where
    no_prefix : (s : Text) → All IsDigit s → has_prefix (codes "u:") s ≡ false
    no_prefix [] d = refl
    no_prefix (c ∷ s) d = ground arith

-- A number as a UDP port.
abbrev pub udp_written : ℕ → Text
udp_written n = b'u' ∷ b':' ∷ print n

parse_segment-udp_written :
    (n : ℕ) → n ≤ 65535 → parse_segment (udp_written n) ≡ ok (bare udp (pos n) ∷ [])
parse_segment-udp_written n h =
    parse_segment_udp (print n) (print-space n) ∙ parse_numbers-print udp n h

-- A UDP port alone is kept. Behind the TCP port of that number it is dropped.
pub parse_ports_slice-udp_written :
    (n : ℕ)
    → n ≤ 65535
    → (parse_ports_slice (udp_written n ∷ []) ≡ ok (bare udp (pos n) ∷ []))
      × (parse_ports_slice (print n ∷ udp_written n ∷ []) ≡ ok (bare tcp (pos n) ∷ []))
unfolding parse_ports_slice parse_segments
parse_ports_slice-udp_written n h = (
  rw (whole, parse_segment-udp_written n h) refl,
  rw
      (
        split_whole b',' (print n) comma,
        parse_segment-print n h,
        whole,
        parse_segment-udp_written n h,
      )
      (rw (string-bare tcp n, string-bare udp n, =?_refl (print n)) refl),
)
  where
    comma : Lacks b',' (print n)
    comma = print-Lacks b',' n refl

    whole : split b',' (udp_written n) ≡ udp_written n ∷ []
    whole = split_whole b',' (udp_written n) (omega arith, (omega arith, comma))
