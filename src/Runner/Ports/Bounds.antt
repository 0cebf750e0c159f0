-- ===== src/Runner/Ports/Bounds.antt =====
-- The numbers and protocols of parsed ports.
use naabu.Prelude.{
  ℕ, zero, suc, ◌+◌, ◌≤◌, ◌≡◌, ◌⊎◌, refl, ◌||◌, List, [], ◌∷◌, ◌++◌, arith, Outcome, ok, err, inl,
  inr, Option-cases, Bool-cases, All, All-append, Ensures, returned, failed, Ensures-bind,
  Ensures-wrap, Ensures-if, ◌=?◌, ◌==◌, length, if◌then◌else◌, elem,
}
use naabu.Prelude.Int.{ℤ, pos, pos_part, ◌≤ℤ◌, lt_int, pos-+ℤ}
use naabu.Prelude.Text.{
  Text, codes, Lacks, split, split-Lacks, contains, contains-Lacks, trim_space, has_prefix,
  trim_prefix, text_eq,
}
use naabu.Prelude.Search.{to_lower}
use naabu.Prelude.Decimal.{atoi, atoi_nonneg}
use naabu.Net.Protocol.{Protocol, tcp, udp}
use naabu.Net.Port
use naabu.Net.Port.{Port}
use naabu.Runner.Options.{Options}
use naabu.Runner.Ports.{
  max_port, rounds, range, parse_ends, parse_range, parse_single, parse_numbers, parse_trimmed,
  parse_segment, parse_segments, parse_ranges, dedupe, parse_ports_slice, parse_ports_list, found,
  remove, exclude_ports, read_source, top_ports_source, ports_source, file_source, merge,
  or_default, expand_ports, parse_ports, PortsError, collect, invalid_range, read_exclusion,
  read_ports, full, nmap_top_100, nmap_top_1000,
}

-- A port that a scan can send to.
pub record IsScannable (p : Port) : Type 0 where
  pub low : pos 0 ≤ℤ p.port
  pub high : p.port ≤ℤ max_port
  pub proto : (p.protocol ≡ tcp) ⊎ (p.protocol ≡ udp)

range-IsScannable :
    (proto : Protocol) (k n : ℕ)
    → (proto ≡ tcp) ⊎ (proto ≡ udp)
    → k + n ≤ 65536
    → All IsScannable (range proto (pos k) n)
unfolding range
range-IsScannable proto k zero t h = tt
range-IsScannable proto k (suc n) t h = (
  record { low = omega arith; high = omega arith; proto = t },
  rw (pos-+ℤ k 1) (range-IsScannable proto (k + 1) n t (omega arith)),
)

module _ (proto : Protocol) (t : (proto ≡ tcp) ⊎ (proto ≡ udp)) where
  parse_ends-IsScannable :
      (a b : Text) → Lacks b'-' a → Lacks b'-' b → Ensures (All IsScannable) (parse_ends proto a b)
  unfolding parse_ends
  parse_ends-IsScannable a b la lb = elim (Option-cases (atoi a)) [
    | inl e ↦ rw (e, parse_ends) failed
    | inr (p1, e1) ↦ elim (Option-cases (atoi b)) [
      | inl e ↦ rw (e1, e, parse_ends) failed
      | inr (p2, e2) ↦
          rw (e1, e2, parse_ends)
            (bounded (pos_part p1) (pos_part p2) p1 p2 (atoi_nonneg a p1 la e1)
              (atoi_nonneg b p2 lb e2))
    ]
  ]
    where
      bounded :
          (n1 n2 : ℕ) (p1 p2 : ℤ)
          → p1 ≡ pos n1
          → p2 ≡ pos n2
          → Ensures (All IsScannable) (
              if lt_int p2 p1 || lt_int max_port p2
              then err (invalid_range p1 p2)
              else ok (range proto p1 (rounds p1 p2)))
      bounded n1 n2 p1 p2 q1 q2 =
          Ensures-if (lt_int p2 p1 || lt_int max_port p2) (λ _. failed)
            λ c.
              rw q1 (
                returned (range-IsScannable proto n1 (rounds (pos n1) p2) t (rw q2 (ground arith))))

  parse_single-IsScannable :
      (s : Text) → Lacks b'-' s → Ensures (All IsScannable) (parse_single proto s)
  unfolding parse_single
  parse_single-IsScannable s l = elim (Option-cases (atoi s)) [
    | inl e ↦ rw (e, parse_single) failed
    | inr (n, e) ↦
        rw (e, parse_single)
          (Ensures-if (lt_int max_port n) (λ _. failed)
            λ c. returned (
              record { low = ground (arith, atoi_nonneg s n l e); high = ground arith; proto = t },
              tt,
            ))
  ]

  parse_range-IsScannable :
      (s : Text) (parts : List Text)
      → All (Lacks b'-') parts
      → Ensures (All IsScannable) (parse_range proto s parts)
  unfolding parse_range
  parse_range-IsScannable s [] l = failed
  parse_range-IsScannable s (a ∷ []) l = failed
  parse_range-IsScannable s (a ∷ b ∷ []) (la, (lb, _)) = parse_ends-IsScannable a b la lb
  parse_range-IsScannable s (a ∷ b ∷ c ∷ parts) l = failed

  parse_numbers-IsScannable : (s : Text) → Ensures (All IsScannable) (parse_numbers proto s)
  unfolding parse_numbers
  parse_numbers-IsScannable s = elim (Bool-cases (contains b'-' s)) [
    | inl e ↦ rw e (parse_range-IsScannable s (split b'-' s) (split-Lacks b'-' s))
    | inr e ↦ rw e (parse_single-IsScannable s (contains-Lacks b'-' s e))
  ]

parse_trimmed-IsScannable : (segment : Text) → Ensures (All IsScannable) (parse_trimmed segment)
unfolding parse_trimmed
parse_trimmed-IsScannable segment =
    Ensures-if (segment =? []) (λ _. returned tt)
      λ _.
        Ensures-if (has_prefix (codes "u:") segment)
          (λ _. parse_numbers-IsScannable udp (inr refl) (trim_prefix (codes "u:") segment))
          λ _. parse_numbers-IsScannable tcp (inl refl) segment

parse_segment-IsScannable : (s : Text) → Ensures (All IsScannable) (parse_segment s)
unfolding parse_segment
parse_segment-IsScannable s = parse_trimmed-IsScannable (trim_space s)

parse_segments-IsScannable :
    (ss : List Text) (ports : List Port)
    → All IsScannable ports
    → Ensures (All IsScannable) (parse_segments ss ports)
unfolding parse_segments
parse_segments-IsScannable [] ports h = returned h
parse_segments-IsScannable (s ∷ ss) ports h =
    Ensures-bind (parse_segment-IsScannable s)
      λ new p. parse_segments-IsScannable ss (ports ++ new) (All-append IsScannable ports new h p)

parse_ranges-IsScannable :
    (rs : List Text) (ports : List Port)
    → All IsScannable ports
    → Ensures (All IsScannable) (parse_ranges rs ports)
unfolding parse_ranges
parse_ranges-IsScannable [] ports h = returned h
parse_ranges-IsScannable (r ∷ rs) ports h =
    Ensures-bind (parse_segments-IsScannable (split b',' r) ports h) (parse_ranges-IsScannable rs)

dedupe-All {κ} :
    (P : Port → Type κ) (seen : List Text) (ports : List Port)
    → All P ports
    → All P (dedupe seen ports)
unfolding dedupe
dedupe-All P seen [] h = tt
dedupe-All P seen (p ∷ ps) (hp, hps) = elim (Bool-cases (elem (Port.string p) seen)) [
  | inl e ↦ rw e (dedupe-All P seen ps hps)
  | inr e ↦ rw e (hp, dedupe-All P (Port.string p ∷ seen) ps hps)
]

pub parse_ports_slice-IsScannable :
    (rs : List Text) → Ensures (All IsScannable) (parse_ports_slice rs)
unfolding parse_ports_slice
parse_ports_slice-IsScannable rs =
    Ensures-bind (parse_ranges-IsScannable rs [] tt)
      λ ports h. returned (dedupe-All IsScannable [] ports h)

remove-All {κ} :
    (P : Port → Type κ) (excluded ports : List Port) → All P ports → All P (remove excluded ports)
unfolding remove
remove-All P excluded [] h = tt
remove-All P excluded (p ∷ ps) (hp, hps) = elim (Bool-cases (found p excluded)) [
  | inl e ↦ rw e (remove-All P excluded ps hps)
  | inr e ↦ rw e (hp, remove-All P excluded ps hps)
]

module _ (options : Options) where
  exclude_ports-IsScannable :
      (ports : List Port)
      → All IsScannable ports
      → Ensures (All IsScannable) (exclude_ports options ports)
  unfolding exclude_ports
  exclude_ports-IsScannable ports h =
      Ensures-if (length options.exclude_ports == 0) (λ _. returned h)
        λ _.
          Ensures-bind
            (Ensures-wrap read_exclusion (parse_ports_slice-IsScannable options.exclude_ports))
            λ excluded _. returned (remove-All IsScannable excluded ports h)

  read_source-IsScannable :
      (parsed : Outcome PortsError (List Port))
      → Ensures (All IsScannable) parsed
      → Ensures (All IsScannable) (read_source options parsed)
  unfolding read_source
  read_source-IsScannable parsed h =
      Ensures-bind (Ensures-wrap read_ports h)
        λ ports p. Ensures-wrap read_ports (exclude_ports-IsScannable ports p)

  parse_ports_list-IsScannable : (t : Text) → Ensures (All IsScannable) (parse_ports_list t)
  unfolding parse_ports_list
  parse_ports_list-IsScannable t = parse_ports_slice-IsScannable (split b',' t)

  top_ports_source-IsScannable : Ensures (All IsScannable) (top_ports_source options)
  unfolding top_ports_source
  top_ports_source-IsScannable =
      let name = to_lower options.top_ports in
      Ensures-if (options.top_ports =? []) (λ _. returned tt)
        λ _.
          Ensures-if (name =? codes "full") (λ _. listed full)
            λ _.
              Ensures-if (name =? codes "100") (λ _. listed nmap_top_100)
                λ _. Ensures-if (name =? codes "1000") (λ _. listed nmap_top_1000) λ _. failed
    where
      listed : (t : Text) → Ensures (All IsScannable) (read_source options (parse_ports_list t))
      listed t = read_source-IsScannable (parse_ports_list t) (parse_ports_list-IsScannable t)

  ports_source-IsScannable : Ensures (All IsScannable) (ports_source options)
  unfolding ports_source
  ports_source-IsScannable =
      Ensures-if (options.ports =? []) (λ _. returned tt)
        λ _. read_source-IsScannable _ (parse_ports_list-IsScannable options.ports)

  file_source-IsScannable : Ensures (All IsScannable) (file_source options)
  unfolding file_source
  file_source-IsScannable =
      Ensures-if (length options.ports_file == 0) (λ _. returned tt)
        λ _. read_source-IsScannable _ (parse_ports_slice-IsScannable options.ports_file)

  or_default-IsScannable :
      (ports : List Port)
      → All IsScannable ports
      → Ensures (All IsScannable) (or_default options ports)
  unfolding or_default
  or_default-IsScannable ports h =
      Ensures-if (length ports == 0)
        (λ _.
          Ensures-bind (Ensures-wrap read_ports (parse_ports_list-IsScannable nmap_top_100))
            exclude_ports-IsScannable)
        λ _. returned h

collect-IsScannable :
    (options : Options) {f t : Outcome PortsError (List Port)}
    → Ensures (All IsScannable) f
    → Ensures (All IsScannable) t
    → Ensures (All IsScannable) ((collect options f t).1)
unfolding collect merge
collect-IsScannable options failed ht = failed
collect-IsScannable options (returned hf) failed = failed
collect-IsScannable options (returned {a = f} hf) (returned {a = t} ht) =
    let expanded = expand_ports options in
    Ensures-bind (ports_source-IsScannable expanded) λ c hc.
      or_default-IsScannable expanded (f ++ (c ++ (t ++ ([] ++ [])))) (
        All-append IsScannable _ _ hf
          (All-append IsScannable _ _ hc (All-append IsScannable _ _ ht tt)))

-- Every port that a run is given has a number from 0 to 65535 and is a TCP or UDP port.
pub parse_ports_bounds : (options : Options) → Ensures (All IsScannable) ((parse_ports options).1)
unfolding parse_ports
parse_ports_bounds options =
    collect-IsScannable options (file_source-IsScannable options)
      (top_ports_source-IsScannable options)
