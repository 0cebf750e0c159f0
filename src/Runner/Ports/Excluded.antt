-- ===== src/Runner/Ports/Excluded.antt =====
-- `excludePorts`: which ports are left.
use naabu.Prelude.{
  Bool, ◌||◌, ◌≡◌, refl, sym, ap, ◌∙◌, false, ◌&&◌, not, List, [], ◌∷◌, arith, ok, inl, inr,
  Bool-cases, >>=-eq-ok, ok-injective, wrap, wrap-eq-ok, ◌==◌, ◌=?◌, length,
}
use naabu.Prelude.Text.{Text}
use naabu.Prelude.Int.{ℤ, int_eq}
use naabu.Net.Protocol.{Protocol, protocol_eq}
use naabu.Net.Port.{Port}
use naabu.Runner.Options.{Options}
use naabu.Runner.Ports.{
  found, remove, parse_ports_slice, exclude_listed, exclude_ports, read_exclusion,
}

-- A port of the list has this number and this protocol.
unfoldable pub has_port : ℤ → Protocol → List Port → Bool
has_port n t [] = false
has_port n t (q ∷ qs) = (q.port =? n) && (q.protocol =? t) || has_port n t qs

found_lem : (p : Port) (qs : List Port) → found p qs ≡ has_port p.port p.protocol qs
unfolding found has_port
found_lem p [] = refl
found_lem p (q ∷ qs) = ground (arith, found_lem p qs)

has_port-remove :
    (n : ℤ) (t : Protocol) (excluded ports : List Port)
    → has_port n t (remove excluded ports) ≡ (has_port n t ports && not (has_port n t excluded))
unfolding remove has_port
has_port-remove n t excluded [] = refl
has_port-remove n t excluded (q ∷ qs) = elim (Bool-cases ((q.port =? n) && (q.protocol =? t))) [
  | inl same ↦
      let number : q.port ≡ n = ground (arith, int_eq.same_iff q.port n) in
      let protocol : q.protocol ≡ t = ground (arith, protocol_eq.same_iff q.protocol t) in
      let member : found q excluded ≡ has_port n t excluded =
        found_lem q excluded
        ∙ ap (λ (m : ℤ). has_port m q.protocol excluded) number
        ∙ ap (λ (u : Protocol). has_port n u excluded) protocol in
      ground (arith, member, has_port-remove n t excluded qs)
  | inr other ↦ ground (arith, has_port-remove n t excluded qs)
]

exclude_listed_exact :
    (listed : List Text) (ports kept : List Port)
    → exclude_listed listed ports ≡ ok kept
    → (excluded : List Port) × (parse_ports_slice listed ≡ ok excluded)
      × ((n : ℤ) (t : Protocol)
          → has_port n t kept ≡ (has_port n t ports && not (has_port n t excluded)))
unfolding exclude_listed has_port
exclude_listed_exact [] ports kept h = ([], refl, λ n t. kept_all n t)
  where
    kept_all :
        (n : ℤ) (t : Protocol) → has_port n t kept ≡ (has_port n t ports && not (has_port n t []))
    kept_all n t = ground (arith, ap (has_port n t) (ok-injective h))
exclude_listed_exact (r ∷ rs) ports kept h =
    let some_listed : (length (r ∷ rs) == 0) ≡ false = ground arith in
    let (excluded, parsed, e) =
      >>=-eq-ok (wrap read_exclusion (parse_ports_slice (r ∷ rs))) (λ x. ok (remove x ports))
        (rw some_listed at h) in
    (
      excluded,
      wrap-eq-ok read_exclusion _ parsed,
      λ n t. sym (ap (has_port n t) (ok-injective e)) ∙ has_port-remove n t excluded ports,
    )

-- Where the exclusion list is read, the ports that are left have a number and a protocol exactly if a
-- port of the list has both and no excluded port has both.
pub has_port-exclude_ports :
    (options : Options) (ports kept : List Port)
    → exclude_ports options ports ≡ ok kept
    → (excluded : List Port) × (parse_ports_slice options.exclude_ports ≡ ok excluded)
      × ((n : ℤ) (t : Protocol)
          → has_port n t kept ≡ (has_port n t ports && not (has_port n t excluded)))
unfolding exclude_ports
has_port-exclude_ports options ports kept h =
    exclude_listed_exact options.exclude_ports ports kept h
