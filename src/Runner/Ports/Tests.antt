-- ===== src/Runner/Ports/Tests.antt =====
-- Runs of the parser of port lists.
use naabu.Prelude.{ℕ, List, [], ◌∷◌, ◌≡◌, refl, Outcome, ok, err, length}
use naabu.Prelude.Int.{ℤ, pos}
use naabu.Prelude.{arith}
use naabu.Prelude.Decimal.{print}
use naabu.Prelude.Text.{codes}
use naabu.Net.Protocol.{Protocol, tcp, udp}
use naabu.Net.Port.{Port}
use naabu.Runner.Options.{Options, no_options}
use naabu.Prelude.{All, Ensures, not, ◌&&◌}
use naabu.Runner.Ports.Bounds.{parse_ports_bounds, IsScannable}
use naabu.Runner.Ports.Distinct.{parse_ports_slice-IsDistinct, IsDistinct, has_number}
use naabu.Runner.Ports.Written.{
  parse_ports_slice-written, parse_ports_slice-udp_written, written, udp_written,
}
use naabu.Runner.Ports.Excluded.{has_port, has_port-exclude_ports}
use naabu.Runner.Ports.{
  parse_ranges, exclude_ports, range, parse_ports, parse_ports_slice, parse_ports_list, bare,
  nmap_top_100, nmap_top_1000, PortsError,
}

test1 :
    parse_ports_slice (codes " 53, u:54 ,70-71" ∷ [])
    ≡ ok (bare tcp (pos 53) ∷ bare udp (pos 54) ∷ bare tcp (pos 70) ∷ bare tcp (pos 71) ∷ [])
unfolding parse_ports_slice
test1 = refl

abbrev size : Outcome PortsError (List Port) → ℕ
size (ok ps) = length ps
size (err e) = 0

hundred : size (parse_ports_list nmap_top_100) ≡ 100
unfolding parse_ports_list nmap_top_100
hundred = refl

thousand : size (parse_ports_list nmap_top_1000) ≡ 1000
unfolding parse_ports_list nmap_top_1000
thousand = refl

default_ports : size ((parse_ports no_options).1) ≡ 100
unfolding parse_ports nmap_top_100
default_ports = refl

abbrev some_options : Options
some_options = record no_options {
  ports = codes "80,u:53,8000-8002";
  exclude_ports = codes "8001" ∷ [];
}

parse_ports_bounds_example : Ensures (All IsScannable) ((parse_ports some_options).1)
parse_ports_bounds_example = parse_ports_bounds some_options

parsed_twice :
    parse_ports_slice (codes "80-81,80" ∷ []) ≡ ok (bare tcp (pos 80) ∷ bare tcp (pos 81) ∷ [])
unfolding parse_ports_slice
parsed_twice = refl

parse_ports_slice-IsDistinct_example :
    IsDistinct (bare tcp (pos 80) ∷ bare tcp (pos 81) ∷ [])
    × ((all : List Port) × (parse_ranges (codes "80-81,80" ∷ []) [] ≡ ok all)
        × ((n : ℤ) → has_number n (bare tcp (pos 80) ∷ bare tcp (pos 81) ∷ []) ≡ has_number n all))
parse_ports_slice-IsDistinct_example =
    parse_ports_slice-IsDistinct (codes "80-81,80" ∷ []) parsed_twice

parse_ports_slice-written_example :
    parse_ports_slice (written 20 22 ∷ []) ≡ ok (range tcp (pos 20) 3)
parse_ports_slice-written_example = parse_ports_slice-written 20 22 (omega arith) (omega arith)

parse_ports_slice-udp_written_example :
    (parse_ports_slice (udp_written 53 ∷ []) ≡ ok (bare udp (pos 53) ∷ []))
    × (parse_ports_slice (print 53 ∷ udp_written 53 ∷ []) ≡ ok (bare tcp (pos 53) ∷ []))
parse_ports_slice-udp_written_example = parse_ports_slice-udp_written 53 (omega arith)

abbrev three : List Port
three = bare tcp (pos 8000) ∷ bare tcp (pos 8001) ∷ bare tcp (pos 8002) ∷ []

abbrev two : List Port
two = bare tcp (pos 8000) ∷ bare tcp (pos 8002) ∷ []

excluded_one : exclude_ports some_options three ≡ ok two
unfolding exclude_ports
excluded_one = refl

has_port-exclude_ports_example :
    (excluded : List Port) × (parse_ports_slice some_options.exclude_ports ≡ ok excluded)
    × ((n : ℤ) (t : Protocol)
        → has_port n t two ≡ (has_port n t three && not (has_port n t excluded)))
has_port-exclude_ports_example = has_port-exclude_ports some_options three two excluded_one
