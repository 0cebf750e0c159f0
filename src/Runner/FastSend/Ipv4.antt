-- ===== src/Runner/FastSend/Ipv4.antt =====
-- pkg/runner/fastsend.go: `parseIPv4Fast` and `formatIPv4`.
use naabu.Prelude.{
  ℕ, ◌+◌, ◌-◌, ◌*◌, ◌/◌, ◌%◌, ◌≤◌, ◌<◌, ◌≡◌, refl, sym, ap, ◌∙◌, Bool, true, false, [], ◌∷◌, ◌++◌,
  arith, ◌==◌, ltb, leb, if◌then◌else◌, length, length-append, append-nil, passes_below,
  passes_below_lem,
}
use naabu.Prelude.Text.{Text, codes, text_beq, text_beq_iff}
use naabu.Prelude.Decimal.{is_digit, print}

-- `[4]byte`
pub record Ipv4 : Type 0 where
  pub a : ℕ
  pub b : ℕ
  pub c : ℕ
  pub d : ℕ

abbrev pub ipv4 : ℕ → ℕ → ℕ → ℕ → Ipv4
ipv4 a b c d = record { a = a; b = b; c = c; d = d }

pub record IsBytes (ip : Ipv4) : Type 0 where
  pub a : ip.a < 256
  pub b : ip.b < 256
  pub c : ip.c < 256
  pub d : ip.d < 256

-- `ip[i] = v`; an index above 3, which would panic, does not occur.
abbrev set_octet : Ipv4 → ℕ → ℕ → Ipv4
set_octet ip i v =
    if i == 0
    then record ip { a = v }
    else if i == 1
    then record ip { b = v }
    else if i == 2
    then record ip { c = v }
    else record ip { d = v }

-- The loop, with what is returned behind it: the address so far, and whether the text is one.
scan_ip : Text → Ipv4 → ℕ → ℕ → Ipv4 × Bool
scan_ip [] ip octet dots = if dots == 3 then (set_octet ip 3 (octet % 256), true) else (ip, false)
scan_ip (ch ∷ s) ip octet dots =
    let grown = octet * 10 + (ch - b'0') in
    let digit = if ltb 255 grown then (ip, false) else scan_ip s ip grown dots in
    let dot =
      if leb 3 dots
      then (ip, false)
      else scan_ip s (set_octet ip dots (octet % 256)) 0 (dots + 1) in
    if is_digit ch then digit else if ch == b'.' then dot else (ip, false)

unfoldable pub parse_ipv4_fast : Text → Ipv4 × Bool
unfolding scan_ip
parse_ipv4_fast s = scan_ip s (ipv4 0 0 0 0) 0 0

-- What a round of the loop writes for the byte `v`.
pub octet_text : ℕ → Text
octet_text v =
    (if leb 100 v
      then (v / 100 + b'0') ∷ (v / 10 % 10 + b'0') ∷ []
      else if leb 10 v
      then (v / 10 + b'0') ∷ []
      else [])
    ++ (v % 10 + b'0') ∷ []

unfoldable pub format_ipv4 : Ipv4 → Text
unfolding octet_text
format_ipv4 ip =
    octet_text ip.a
    ++ b'.' ∷ (octet_text ip.b ++ b'.' ∷ (octet_text ip.c ++ b'.' ∷ octet_text ip.d))

scan_ip-octet_text :
    (v : ℕ) (s : Text) (ip : Ipv4) (dots : ℕ)
    → v < 256
    → scan_ip (octet_text v ++ s) ip 0 dots ≡ scan_ip s ip v dots
unfolding scan_ip octet_text
scan_ip-octet_text v s ip dots h = ground arith

scan_ip-dot :
    (s : Text) (ip : Ipv4) (octet dots : ℕ)
    → dots < 3
    → octet < 256
    → scan_ip (b'.' ∷ s) ip octet dots ≡ scan_ip s (set_octet ip dots octet) 0 (dots + 1)
unfolding scan_ip
scan_ip-dot s ip octet dots h k = ground arith

scan_ip_last :
    (v : ℕ) (ip : Ipv4) → v < 256 → scan_ip (octet_text v) ip 0 3 ≡ (record ip { d = v }, true)
unfolding scan_ip
scan_ip_last v ip h =
    ap (λ (s : Text). scan_ip s ip 0 3) (sym (append-nil (octet_text v)))
    ∙ scan_ip-octet_text v [] ip 3 h
    ∙ ap (λ (n : ℕ). (record ip { d = n }, true)) (omega arith)

-- Every address is read back from its text.
pub parse_ipv4_fast-format_ipv4 :
    (ip : Ipv4) → IsBytes ip → parse_ipv4_fast (format_ipv4 ip) ≡ (ip, true)
unfolding parse_ipv4_fast format_ipv4
parse_ipv4_fast-format_ipv4 ip h =
    rw
      (
        scan_ip-octet_text ip.a _ _ 0 h.a,
        scan_ip-dot _ _ ip.a 0 (omega arith) h.a,
        scan_ip-octet_text ip.b _ _ 1 h.b,
        scan_ip-dot _ _ ip.b 1 (omega arith) h.b,
        scan_ip-octet_text ip.c _ _ 2 h.c,
        scan_ip-dot _ _ ip.c 2 (omega arith) h.c,
        scan_ip_last ip.d _ h.d,
      )
      refl

octet_table : passes_below (λ v. text_beq (octet_text v) (print v)) 256 ≡ true
unfolding octet_text print passes_below
octet_table = refl

octet_text-print : (v : ℕ) → v < 256 → octet_text v ≡ print v
octet_text-print v h =
    (text_beq_iff _ _).0
      (passes_below_lem (λ n. text_beq (octet_text n) (print n)) 256 octet_table v h)

-- The dotted decimal form, with the numbers as `%d` prints them.
abbrev pub dotted : Ipv4 → Text
dotted ip = print ip.a ++ b'.' ∷ (print ip.b ++ b'.' ∷ (print ip.c ++ b'.' ∷ print ip.d))

octet_text-length : (v : ℕ) → v < 256 → (1 ≤ length (octet_text v)) × (length (octet_text v) ≤ 3)
unfolding octet_text
octet_text-length v h = ground arith

four_parts :
    (p q r s : Text)
    → length (p ++ b'.' ∷ (q ++ b'.' ∷ (r ++ b'.' ∷ s)))
      ≡ length p + length q + length r + length s + 3
four_parts p q r s = omega (
  arith,
  length-append p (b'.' ∷ (q ++ b'.' ∷ (r ++ b'.' ∷ s))),
  length-append q (b'.' ∷ (r ++ b'.' ∷ s)),
  length-append r (b'.' ∷ s),
)

format_ipv4-length :
    (ip : Ipv4)
    → length (format_ipv4 ip)
      ≡ length (octet_text ip.a)
        + length (octet_text ip.b)
        + length (octet_text ip.c)
        + length (octet_text ip.d)
        + 3
unfolding format_ipv4
format_ipv4-length ip =
    four_parts (octet_text ip.a) (octet_text ip.b) (octet_text ip.c) (octet_text ip.d)

format_ipv4_bounds :
    (ip : Ipv4) → IsBytes ip → (7 ≤ length (format_ipv4 ip)) × (length (format_ipv4 ip) ≤ 15)
format_ipv4_bounds ip h = omega (
  arith,
  format_ipv4-length ip,
  octet_text-length ip.a h.a,
  octet_text-length ip.b h.b,
  octet_text-length ip.c h.c,
  octet_text-length ip.d h.d,
)

-- The text of an address is its dotted decimal form, and fits the buffer of 15 bytes.
pub format_ipv4-dotted :
    (ip : Ipv4)
    → IsBytes ip
    → (format_ipv4 ip ≡ dotted ip) × (7 ≤ length (format_ipv4 ip)) × (length (format_ipv4 ip) ≤ 15)
unfolding format_ipv4
format_ipv4-dotted ip h = (
  rw
      (
        octet_text-print ip.a h.a,
        octet_text-print ip.b h.b,
        octet_text-print ip.c h.c,
        octet_text-print ip.d h.d,
      )
      refl,
  (format_ipv4_bounds ip h).0,
  (format_ipv4_bounds ip h).1,
)

scan_ip-IsBytes :
    (s : Text) (ip : Ipv4) (octet dots : ℕ) {r : Ipv4}
    → IsBytes ip
    → octet < 256
    → scan_ip s ip octet dots ≡ (r, true)
    → IsBytes r
unfolding scan_ip
scan_ip-IsBytes [] ip octet dots h k e = ground arith
scan_ip-IsBytes (ch ∷ s) ip octet dots {r} h k e = ground (
  arith,
  scan_ip-IsBytes s ip (octet * 10 + (ch - b'0')) dots {r = r},
  scan_ip-IsBytes s (set_octet ip dots (octet % 256)) 0 (dots + 1) {r = r},
)

-- Three dots stand for the address 0.0.0.0, and the number behind them for its last part.
pub parse_ipv4_fast-dots :
    (v : ℕ) → v < 256 → parse_ipv4_fast (codes "..." ++ octet_text v) ≡ (ipv4 0 0 0 v, true)
unfolding parse_ipv4_fast
parse_ipv4_fast-dots v h =
    scan_ip-dot (b'.' ∷ b'.' ∷ octet_text v) (ipv4 0 0 0 0) 0 0 (omega arith) (omega arith)
    ∙ scan_ip-dot (b'.' ∷ octet_text v) (ipv4 0 0 0 0) 0 1 (omega arith) (omega arith)
    ∙ scan_ip-dot (octet_text v) (ipv4 0 0 0 0) 0 2 (omega arith) (omega arith)
    ∙ scan_ip_last v (ipv4 0 0 0 0) h

-- An accepted text gives four bytes.
pub parse_ipv4_fast-IsBytes : (s : Text) {ip : Ipv4} → parse_ipv4_fast s ≡ (ip, true) → IsBytes ip
unfolding parse_ipv4_fast
parse_ipv4_fast-IsBytes s h = scan_ip-IsBytes s (ipv4 0 0 0 0) 0 0 (omega arith) (omega arith) h
