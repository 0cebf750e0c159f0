-- ===== src/Routing.antt =====
-- pkg/routing/router.go: the choice of a route.

mod Tests
pub mod Longest
pub mod Suitable
pub mod Source
use naabu.Prelude.{
  not, ◌||◌, ◌>>=◌, length, ℕ, ◌+◌, ◌-◌, ◌/◌, ◌^◌, ◌==◌, ◌≡◌, Bool, true, false, ◌&&◌, List, [],
  ◌∷◌, Option, none, some, if◌then◌else◌, ltb, Outcome, ok, err,
}
use naabu.Prelude.Text.{Text}
use naabu.Net.Cidr.{Ip, v4, v6, IpNet}

-- `Destination` as `net.ParseIP` and `net.ParseCIDR` read it; `other` is a text that neither reads.
-- `mapped` is an IPv4-mapped network with 96 bits or more: an IPv4 network whose mask has 96 bits more.
pub data Destination : Type 0 where
  host : Ip → Destination
  cidr : IpNet → Destination
  mapped : IpNet → Destination
  other : Destination

pub data RouteType : Type 0 where
  ipv4 : RouteType
  ipv6 : RouteType

-- An interface: its addresses are `none` where they cannot be read, and an entry is `none` where it is
-- no network.
pub record Interface : Type 0 where
  pub name : Text
  pub hardware_addr : List ℕ
  pub addrs : Option (List (Option IpNet))

-- The gateway is parsed.
pub record Route : Type 0 where
  pub type : RouteType
  pub is_default : Bool
  pub network_interface : Option Interface
  pub destination : Destination
  pub gateway : Option Ip
  pub default_source_ip : Option Ip

-- `Equal`: a mapped IPv4 address is a `v4` here.
abbrev pub ip_equal : Ip → Ip → Bool
ip_equal (v4 m) (v4 n) = m == n
ip_equal (v6 m) (v6 n) = m == n
ip_equal _ _ = false

-- `Contains`: the same family and the same bits under the mask.
abbrev pub in_net : Ip → ℕ → Ip → Bool
in_net (v4 m) ones (v4 n) = m / 2 ^ (32 - ones) == n / 2 ^ (32 - ones)
in_net (v6 m) ones (v6 n) = m / 2 ^ (128 - ones) == n / 2 ^ (128 - ones)
in_net _ ones _ = false

abbrev pub contains : IpNet → Ip → Bool
contains net ip = in_net net.ip net.ones ip

abbrev pub host_bits : Ip → ℕ
host_bits (v4 n) = 32
host_bits (v6 n) = 128

-- The length of the prefix with which a destination takes an address, if it does.
pub match_destination : Ip → Destination → Option ℕ
match_destination ip (host h) = if ip_equal h ip then some (host_bits h) else none
match_destination ip (cidr net) = if contains net ip then some net.ones else none
match_destination ip (mapped net) = if contains net ip then some (96 + net.ones) else none
match_destination ip other = none

-- The variables of the loop. `best` is the best route with its length, where there is one; without
-- one the length is -1.
pub record Search : Type 0 where
  pub default_route4 : Option Route
  pub default_route6 : Option Route
  pub best : Option (Route × ℕ)

abbrev pub start : Search
start = record { default_route4 = none; default_route6 = none; best = none }

-- The first default route of a type stays.
note : Bool → Route → Option Route → Option Route
note is_default r (some old) = some old
note true r none = some r
note false r none = none

note_of : RouteType → Route → Search → Search
unfolding note
note_of ipv4 r s = record s { default_route4 = note r.is_default r s.default_route4 }
note_of ipv6 r s = record s { default_route6 = note r.is_default r s.default_route6 }

note_default : Route → Search → Search
unfolding note_of
note_default r s = note_of r.type r s

pub improve : Route → Option ℕ → Option (Route × ℕ) → Option (Route × ℕ)
improve r none best = best
improve r (some size) none = some (r, size)
improve r (some size) (some (old, old_size)) =
    if ltb old_size size then some (r, size) else some (old, old_size)

pub search : Ip → List (Option Route) → Search → Search
unfolding note_default improve match_destination
search ip [] s = s
search ip (none ∷ routes) s = search ip routes s
search ip (some r ∷ routes) s =
    let noted = note_default r s in
    search ip routes
      (record noted { best = improve r (match_destination ip r.destination) noted.best })

pub data RouteError : Type 0 where
  route_not_found : Ip → RouteError
  no_interface : RouteError
  addresses_unreadable : RouteError
  no_source_ip : RouteError
  nothing_given : RouteError
  no_such_route : RouteError

-- The default route of the address's family.
fall_back : Ip → Search → Outcome RouteError Route
fall_back (v4 n) s = elim s.default_route4 [ none ↦ err (route_not_found (v4 n)) | some r ↦ ok r ]
fall_back (v6 n) s = elim s.default_route6 [ none ↦ err (route_not_found (v6 n)) | some r ↦ ok r ]

pub chosen : Ip → Search → Option (Route × ℕ) → Outcome RouteError Route
unfolding fall_back
chosen ip s (some (r, size)) = ok r
chosen ip s none = fall_back ip s

unfoldable pub find_route_for_ip : Ip → List (Option Route) → Outcome RouteError Route
unfolding search chosen
find_route_for_ip ip routes = let s = search ip routes start in chosen ip s s.best

-- `IsLinkLocalUnicast` of an IPv6 address: fe80::/10
abbrev pub is_link_local : ℕ → Bool
is_link_local n = n / 2 ^ 118 == 0x3fa

-- An address of an interface that can reach `ip`.
unfoldable pub serves : Ip → Ip → Bool
serves (v4 n) (v4 m) = true
serves (v6 n) (v6 m) = not (is_link_local m)
serves _ _ = false

first_serving : Ip → List (Option IpNet) → Outcome RouteError Ip
unfolding serves
first_serving ip [] = err no_source_ip
first_serving ip (none ∷ addresses) = first_serving ip addresses
first_serving ip (some net ∷ addresses) =
    if serves ip net.ip then ok net.ip else first_serving ip addresses

unfoldable pub find_source_ip_for_ip : Interface → Ip → Outcome RouteError Ip
unfolding first_serving
find_source_ip_for_ip itf ip = elim itf.addrs [
  | none ↦ err addresses_unreadable
  | some addresses ↦ first_serving ip addresses
]

-- What `Route` returns besides an error.
pub record Hop : Type 0 where
  pub iface : Option Interface
  pub gateway : Option Ip
  pub preferred_src : Option Ip

through_interface : Route → Ip → Option Interface → Outcome RouteError Hop
unfolding find_source_ip_for_ip
through_interface r dst none = err no_interface
through_interface r dst (some itf) = find_source_ip_for_ip itf dst >>= λ src.
    ok (record { iface = some itf; gateway = r.gateway; preferred_src = some src })

-- The source address that the route brings, or one of its interface.
hop_of : Route → Ip → Option Ip → Outcome RouteError Hop
unfolding through_interface
hop_of r dst (some src) = ok (record { iface = none; gateway = none; preferred_src = some src })
hop_of r dst none = through_interface r dst r.network_interface

unfoldable pub route : List (Option Route) → Ip → Outcome RouteError Hop
unfolding find_route_for_ip hop_of
route routes dst = find_route_for_ip dst routes >>= λ r. hop_of r dst r.default_source_ip

-- `bytes.EqualFold` and the test of `FindRouteWithHwAndIp` on the addresses of an interface.
abbrev pub has_address : Ip → List (Option IpNet) → Bool
has_address src [] = false
has_address src (none ∷ addresses) = has_address src addresses
has_address src (some net ∷ addresses) = ip_equal net.ip src || has_address src addresses

module _ (equal_fold : List ℕ → List ℕ → Bool) where
  abbrev pub has_hardware : List ℕ → Interface → Bool
  has_hardware hardware_addr itf =
      (length hardware_addr == 0) || equal_fold itf.hardware_addr hardware_addr

  search_hw : List ℕ → Option Ip → List (Option Route) → Outcome RouteError Route
  search_hw hw src [] = err no_such_route
  search_hw hw src (none ∷ routes) = search_hw hw src routes
  search_hw hw src (some r ∷ routes) =
      let rest = search_hw hw src routes in
      elim r.network_interface [
        | none ↦ rest
        | some itf ↦ if not (has_hardware hw itf) then rest else elim src [
          | none ↦ ok r
          | some ip ↦ elim itf.addrs [
            | none ↦ err addresses_unreadable
            | some addresses ↦ if has_address ip addresses then ok r else rest
          ]
        ]
      ]

  unfoldable pub find_route_with_hw_and_ip :
      List ℕ → Option Ip → List (Option Route) → Outcome RouteError Route
  unfolding search_hw
  find_route_with_hw_and_ip [] none routes = err nothing_given
  find_route_with_hw_and_ip hw src routes = search_hw hw src routes

  -- The interface and the gateway of a route, with the source address that was asked for.
  given_source : Option Ip → Route → Outcome RouteError Hop
  given_source src r = elim r.network_interface [
    | none ↦ err no_interface
    | some itf ↦ ok (record { iface = some itf; gateway = r.gateway; preferred_src = src })
  ]

  unfoldable pub route_with_src :
      List (Option Route) → List ℕ → Option Ip → Ip → Outcome RouteError Hop
  unfolding route find_route_for_ip find_route_with_hw_and_ip given_source
  route_with_src routes [] none dst = route routes dst
  route_with_src routes [] (some src) dst = find_route_for_ip dst routes >>= given_source (some src)
  route_with_src routes (b ∷ hw) src dst =
      find_route_with_hw_and_ip (b ∷ hw) src routes >>= given_source src
