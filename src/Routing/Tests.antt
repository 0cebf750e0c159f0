-- ===== src/Routing/Tests.antt =====
-- Runs of the choice of a route.
use naabu.Prelude.{ℕ, ◌≤◌, ◌≡◌, refl, true, false, List, [], ◌∷◌, Option, none, some, ok}
use naabu.Net.Cidr.{v4}
use naabu.Routing.{cidr, Route, ipv4, find_route_for_ip}
use naabu.Prelude.Text.{codes, text_beq}
use naabu.Net.Cidr.{v6}
use naabu.Routing.{Interface, find_source_ip_for_ip, find_route_with_hw_and_ip}
use naabu.Routing.Longest.{Takes, find_route_for_ip-longest}

abbrev default_route : Route
default_route = record {
  type = ipv4;
  is_default = true;
  destination = cidr (record { ip = v4 0; ones = 0 });
  gateway = none;
  network_interface = none;
  default_source_ip = none;
}

-- 10.0.0.0/8 and 10.0.0.0/24
abbrev wide : Route
wide = record default_route {
  is_default = false;
  destination = cidr (record { ip = v4 167772160; ones = 8 });
}

abbrev narrow : Route
narrow = record wide { destination = cidr (record { ip = v4 167772160; ones = 24 }) }

abbrev table : List (Option Route)
table = some default_route ∷ none ∷ some narrow ∷ some wide ∷ []

-- 10.0.0.7
route_found : find_route_for_ip (v4 167772167) table ≡ ok narrow
unfolding find_route_for_ip
route_found = refl

find_route_for_ip-longest_example :
    (best : ℕ) × Takes (v4 167772167) narrow.destination best × (8 ≤ best)
find_route_for_ip-longest_example =
    find_route_for_ip-longest (v4 167772167) table 3 8 wide route_found refl (refl, refl)

abbrev lan : Interface
lan = record {
  name = codes "eth0";
  hardware_addr = 2 ∷ 0 ∷ [];
  addrs = some (
      none
      ∷ some (record { ip = v6 1; ones = 64 })
      ∷ some (record { ip = v4 167772161; ones = 24 })
      ∷ []);
}

source_found : find_source_ip_for_ip lan (v4 167772167) ≡ ok (v4 167772161)
unfolding find_source_ip_for_ip
source_found = refl

abbrev lan_route : Route
lan_route = record narrow { network_interface = some lan }

by_hardware :
    find_route_with_hw_and_ip text_beq
      (2 ∷ 0 ∷ [])
      (some (v4 167772161))
      (some narrow ∷ some lan_route ∷ [])
    ≡ ok lan_route
unfolding find_route_with_hw_and_ip
by_hardware = refl
