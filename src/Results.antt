-- ===== src/Results.antt =====
-- pkg/result/results.go: what a scan has found. The lock is not modelled: each operation is a step.

mod Tests
pub mod Queries
pub mod Reached
use naabu.Prelude.{
  ℕ, zero, suc, ◌+◌, ◌<◌, ◌≡◌, Bool, true, false, List, [], ◌∷◌, map, Option, none, some,
  if◌then◌else◌, lookup, insert, has_key, length, ltb, elem, ◌==◌,
}
use naabu.Prelude.Int.{ℤ, int_eq}
use naabu.Prelude.Text.{Text, text_eq}
use naabu.Prelude.Decimal.{itoa}
use naabu.Net.Port
use naabu.Net.Port.{Port}

-- `map[string]struct{}`
abbrev pub Names : Type 0
Names = List (Text × Unit {0})

abbrev pub PortMap : Type 0
PortMap = List (Text × Port)

pub record Result : Type 0 where
  pub ip_ports : List (Text × PortMap)
  pub ips : Names
  pub skipped : Names

abbrev pub new_result : Result
new_result = record { ip_ports = []; ips = []; skipped = [] }

-- `r.ipPorts[ip]`; a missing entry reads as the empty map.
abbrev pub ports_of : Text → Result → PortMap
ports_of ip r = elim (lookup ip r.ip_ports) [ none ↦ [] | some ports ↦ ports ]

unfoldable pub has_ips : Result → Bool
has_ips r = ltb 0 (length r.ips)

unfoldable pub has_ips_ports : Result → Bool
has_ips_ports r = ltb 0 (length r.ip_ports)

-- `AddPort`
unfoldable pub add_port : Text → Port → Result → Result
unfolding insert lookup Port.string
add_port ip p r = record r {
  ip_ports = insert ip (insert (Port.string p) p (ports_of ip r)) r.ip_ports;
  ips = insert ip tt r.ips;
}

-- The loop of `SetPorts`.
pub put_all : List Port → PortMap → PortMap
unfolding insert Port.string
put_all [] m = m
put_all (p ∷ ps) m = put_all ps (insert (Port.string p) p m)

unfoldable pub set_ports : Text → List Port → Result → Result
unfolding put_all lookup insert
set_ports ip ports r = record r {
  ip_ports = insert ip (put_all ports (ports_of ip r)) r.ip_ports;
  ips = insert ip tt r.ips;
}

unfoldable pub ip_has_port : Text → Port → Result → Bool
unfolding lookup has_key Port.string
ip_has_port ip p r = elim (lookup ip r.ip_ports) [
  | none ↦ false
  | some ports ↦ has_key (Port.string p) ports
]

unfoldable pub add_ip : Text → Result → Result
unfolding insert
add_ip ip r = record r { ips = insert ip tt r.ips }

unfoldable pub has_ip : Text → Result → Bool
unfolding has_key
has_ip ip r = has_key ip r.ips

unfoldable pub len : Result → ℕ
len r = length r.ips

unfoldable pub is_empty : Result → Bool
unfolding len
is_empty r = len r == 0

-- The set `seen` of `GetOpenPortNumbers`, over the ports of a host and over the hosts.
see_ports : PortMap → List ℤ → List ℤ
see_ports [] seen = seen
see_ports ((key, p) ∷ m) seen = see_ports m (if elem p.port seen then seen else p.port ∷ seen)

see_hosts : List (Text × PortMap) → List ℤ → List ℤ
unfolding see_ports
see_hosts [] seen = seen
see_hosts ((ip, m) ∷ hosts) seen = see_hosts hosts (see_ports m seen)

unfoldable pub get_open_port_numbers : Result → List ℤ
unfolding see_hosts
get_open_port_numbers r = see_hosts r.ip_ports []

count_key : Text → List (Text × PortMap) → ℕ
unfolding has_key
count_key key [] = 0
count_key key ((ip, m) ∷ hosts) = (if has_key key m then 1 else 0) + count_key key hosts

unfoldable pub get_host_count_for_port : ℤ → Result → ℕ
unfolding count_key itoa
get_host_count_for_port port_num r = count_key (itoa port_num) r.ip_ports

unfoldable pub get_port_count : Text → Result → ℕ
unfolding lookup
get_port_count host r = length (ports_of host r)

unfoldable pub add_skipped : Text → Result → Result
unfolding insert
add_skipped ip r = record r { skipped = insert ip tt r.skipped }

unfoldable pub has_skipped : Text → Result → Bool
unfolding has_key
has_skipped ip r = has_key ip r.skipped

pub data ConfidenceLevel : Type 0 where
  normal : ConfidenceLevel
  low : ConfidenceLevel

-- What `GetIPsPorts` fills of a `HostResult`.
pub record HostResult : Type 0 where
  pub ip : Text
  pub ports : List Port
  pub confidence : ConfidenceLevel
  pub mac_address : Text

-- Every value of a map.
abbrev pub values : PortMap → List Port
values m = map (λ (e : Text × Port). e.1) m

-- `isPrivateIP` and `GetMacAddress` ask the system: they are parameters, `none` is an error.
module _ (is_private_ip : Text → Bool) (get_mac_address : Text → Option Text) where
  abbrev mac_of : Text → Text
  mac_of ip =
      if is_private_ip ip then elim (get_mac_address ip) [ none ↦ [] | some mac ↦ mac ] else []

  host_results : Result → List (Text × PortMap) → List HostResult
  unfolding has_skipped
  host_results r [] = []
  host_results r ((ip, m) ∷ hosts) =
      record {
        ip = ip;
        ports = values m;
        confidence = if has_skipped ip r then low else normal;
        mac_address = mac_of ip;
      }
      ∷ host_results r hosts

  -- The values that `GetIPsPorts` sends, in their order.
  unfoldable pub get_ips_ports : Result → List HostResult
  unfolding host_results
  get_ips_ports r = host_results r r.ip_ports
