-- ===== src/Runner/Ports/Distinct.antt =====
-- The removal of duplicates at the end of `parsePortsSlice`, which compares numbers only.
use naabu.Prelude.{
  ◌≡◌, ◌≢◌, refl, sym, ap, ◌∙◌, =?_ne, >>=-eq-ok, ok-injective, Bool, true, false, ◌||◌, List, [],
  ◌∷◌, arith, ok, inl, inr, Bool-cases, All, All-map, ◌=?◌, =?_refl, ne-=?, elem,
}
use naabu.Prelude.Int.{ℤ, int_eq}
use naabu.Prelude.Text.{Text, text_eq}
use naabu.Prelude.Decimal.{itoa, itoa-injective}
use mathlib.Core.Path.{subst}
use naabu.Net.Port
use naabu.Net.Port.{Port}
use naabu.Runner.Ports.{parse_ranges, dedupe, parse_ports_slice}

-- No two ports of the list have one number.
abbrev pub IsDistinct : List Port → Type 0
IsDistinct [] = Unit {0}
IsDistinct (p ∷ ps) = All (λ q. q.port ≢ p.port) ps × IsDistinct ps

-- Some port of the list has the number.
unfoldable pub has_number : ℤ → List Port → Bool
has_number n [] = false
has_number n (p ∷ ps) = (p.port =? n) || has_number n ps

-- What is seen is not let through again.
dedupe-avoids :
    (k : Text) (seen : List Text) (ports : List Port)
    → elem k seen ≡ true
    → All (λ p. Port.string p ≢ k) (dedupe seen ports)
unfolding dedupe
dedupe-avoids k seen [] h = tt
dedupe-avoids k seen (p ∷ ps) h = elim (Bool-cases (elem (Port.string p) seen)) [
  | inl e ↦ rw e (dedupe-avoids k seen ps h)
  | inr e ↦ rw e (
    λ q. cc (sym e, h, ap (λ (t : Text). elem t seen) q),
    dedupe-avoids k (Port.string p ∷ seen) ps (rw h (ground arith)),
  )
]

dedupe-IsDistinct : (seen : List Text) (ports : List Port) → IsDistinct (dedupe seen ports)
unfolding dedupe
dedupe-IsDistinct seen [] = tt
dedupe-IsDistinct seen (p ∷ ps) = elim (Bool-cases (elem (Port.string p) seen)) [
  | inl e ↦ rw e (dedupe-IsDistinct seen ps)
  | inr e ↦ rw e (
    All-map (dedupe (Port.string p ∷ seen) ps) (λ q d s. d (Port.string_congr q p s))
        (dedupe-avoids (Port.string p) (Port.string p ∷ seen) ps
          (ground (arith, =?_refl (Port.string p)))),
    dedupe-IsDistinct (Port.string p ∷ seen) ps,
  )
]

-- A number that is dropped has been seen.
dedupe-has_number :
    (n : ℤ) (seen : List Text) (ports : List Port)
    → elem (itoa n) seen ≡ false
    → has_number n (dedupe seen ports) ≡ has_number n ports
unfolding dedupe has_number
dedupe-has_number n seen [] h = refl
dedupe-has_number n seen (p ∷ ps) h = elim (Bool-cases (elem (Port.string p) seen)) [
  | inl e ↦ rw (e, ne-=? p.port n (other e)) (dedupe-has_number n seen ps h)
  | inr e ↦ elim (Bool-cases (p.port =? n)) [
    | inl same ↦ rw (e, same) refl
    | inr diff ↦ rw (e, diff) (dedupe-has_number n (Port.string p ∷ seen) ps (rw (unlike diff) h))
  ]
]
  where
    other : elem (Port.string p) seen ≡ true → p.port ≢ n
    other e q = cc (e, h, ap (λ (t : Text). elem t seen) (Port.string-itoa p ∙ ap itoa q))

    unlike : (p.port =? n) ≡ false → (itoa n =? Port.string p) ≡ false
    unlike d =
        ne-=? (itoa n) (Port.string p)
          λ q. =?_ne p.port n d (sym (itoa-injective n p.port (q ∙ Port.string-itoa p)))

-- Parsed ports have pairwise different numbers, and a number is among them exactly if some segment
-- gives it: nothing but repetitions of a number is dropped.
pub parse_ports_slice-IsDistinct :
    (rs : List Text) {ps : List Port}
    → parse_ports_slice rs ≡ ok ps
    → IsDistinct ps
      × ((all : List Port) × (parse_ranges rs [] ≡ ok all)
          × ((n : ℤ) → has_number n ps ≡ has_number n all))
unfolding parse_ports_slice
parse_ports_slice-IsDistinct rs h =
    let (all, parsed, e) = >>=-eq-ok (parse_ranges rs []) (λ ports. ok (dedupe [] ports)) h in
    let done = ok-injective e in
    (
      subst IsDistinct done (dedupe-IsDistinct [] all),
      (all, parsed, λ n. sym (ap (has_number n) done) ∙ dedupe-has_number n [] all refl),
    )
