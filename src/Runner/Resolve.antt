-- ===== src/Runner/Resolve.antt =====
-- pkg/runner/util.go and targets.go: the addresses of a name. What other packages and the network give
-- is an argument.
pub mod Excluded
pub mod Samples
mod Tests
use naabu.Prelude.{
  ℕ, Bool, true, false, not, ◌&&◌, ◌||◌, List, [], ◌∷◌, ◌++◌, Option, none, some, if◌then◌else◌,
  ◌==◌, ltb, length, filter, Outcome, ok, err,
}
use naabu.Prelude.Text.{Text, codes}
use naabu.Net.HostPort.{split_host_port}
use naabu.Scan.Ping.{Ping, ping_hosts, get_fastest_host}
use naabu.Runner.Options
use naabu.Runner.Options.{Options}

-- `dnsData` (its A and AAAA records) and whether the error is set.
pub record Answer : Type 0 where
  pub dns_data : Option (List Text × List Text)
  pub failed : Bool

-- A `net.IP` of the system's resolver: nil, of 4 bytes, of 16 bytes, or of another length.
pub data SystemIp : Type 0 where
  nil_ip : SystemIp
  ip4 : Text → SystemIp
  ip16 : Text → SystemIp
  odd_ip : SystemIp

-- The functions of other packages: of `iputil`, of `sliceutil`, the two DNS clients (`none` is nil), the
-- system's resolver, `ValidateAddress` of the network policy, and the exchange of one ping.
pub record Network : Type 0 where
  pub is_ip : Text → Bool
  pub is_ipv4 : Text → Bool
  pub is_ipv6 : Text → Bool
  pub is_port : Text → Bool
  pub contains : List Text → Text → Bool
  pub dnsclient : Option (Text → Answer)
  pub dnsclient_proxy : Option (Text → Answer)
  pub lookup_ip_addr : Text → Option (List SystemIp)
  pub validate_address : Text → Bool
  pub exchange : Text → Option ℕ
  pub is_privileged : Bool

pub data ResolveError : Type 0 where
  dns_failed : ResolveError
  no_addresses : Text → ResolveError
  no_active_host : ResolveError

-- `getPort`
unfoldable pub get_port : Network → Text → Text × Text × Bool
unfolding split_host_port
get_port net target = elim (split_host_port target) [
  | none ↦ (target, [], false)
  | some (host, port) ↦ if net.is_port port then (host, port, true) else (target, [], false)
]

abbrev pub no_address : List Text × List Text → Bool
no_address ([], []) = true
no_address ([], v ∷ v6) = false
no_address (v ∷ v4, v6) = false

-- The first address of each version.
unfoldable pub firsts : List Text → List Text → List Text
firsts [] [] = []
firsts [] (b ∷ v6) = b ∷ []
firsts (a ∷ v4) [] = a ∷ []
firsts (a ∷ v4) (b ∷ v6) = a ∷ b ∷ []

-- `if err != nil { return nil, err }`
abbrev pub unless_error :
    Option ResolveError → Outcome ResolveError (List Text) → Outcome ResolveError (List Text)
unless_error none m = m
unless_error (some e) m = err e

abbrev pub pinged : Option Ping → Outcome ResolveError (List Text)
pinged none = err no_active_host
pinged (some p) = ok (p.host ∷ [])

module _ (net : Network) (o : Options) where
  -- The client that a letter of the order asks for.
  unfoldable pub client_of : ℕ → Option (Text → Answer)
  client_of order =
      if order == b'l' then net.dnsclient else if order == b'p' then net.dnsclient_proxy else none

  -- A client that answers ends the loop; the answer of the last one that is asked stays.
  unfoldable pub query : Text → Answer → Text → Answer
  unfolding client_of
  query target last [] = last
  query target last (order ∷ orders) = elim (client_of order) [
    | none ↦ query target last orders
    | some client ↦
        let a = client target in
        let next = query target a orders in
        elim a.dns_data [ none ↦ next | some d ↦ if a.failed then next else a ]
  ]

  -- Whether addresses of a version are wanted.
  unfoldable pub wants : Text → Bool
  wants version = elim o.ip_version [ [] ↦ true | v ∷ vs ↦ net.contains (v ∷ vs) version ]

  unfoldable pub records : Option (List Text × List Text) → List Text × List Text
  unfolding wants
  records none = ([], [])
  records (some (a, aaaa)) =
      (if wants (codes "4") then a else [], if wants (codes "6") then aaaa else [])

  unfoldable pub of_system : List SystemIp → List Text × List Text
  unfolding wants
  of_system [] = ([], [])
  of_system (addr ∷ addrs) =
      let (v4, v6) = of_system addrs in
      elim addr [
        | nil_ip ↦ (v4, v6)
        | ip4 s ↦ (if wants (codes "4") then s ∷ v4 else v4, v6)
        | ip16 s ↦ (v4, if wants (codes "6") then s ∷ v6 else v6)
        | odd_ip ↦ (v4, v6)
      ]

  -- The system's resolver is asked where DNS gave no address.
  unfoldable pub or_system : Text → List Text × List Text → List Text × List Text
  unfolding of_system
  or_system target found =
      if no_address found && o.system_resolver
      then elim (net.lookup_ip_addr target) [ none ↦ found | some addrs ↦ of_system addrs ]
      else found

  -- `host2ips` of a name: the addresses and the error, both as they are returned.
  unfoldable pub resolve_name : Text → (List Text × List Text) × Option ResolveError
  unfolding query records or_system
  resolve_name target =
      let a = query target (record { dns_data = none; failed = false }) o.dns_order in
      let found = or_system target (records a.dns_data) in
      if no_address found
      then (found, some (if a.failed then dns_failed else no_addresses target))
      else (found, if a.failed then some dns_failed else none)

  unfoldable pub host2ips : Text → (List Text × List Text) × Option ResolveError
  unfolding resolve_name
  host2ips target =
      if net.is_ip target
      then if net.is_ipv4 target
        then ((target ∷ [], []), none)
        else if net.is_ipv6 target
        then (([], target ∷ []), none)
        else (([], []), none)
      else resolve_name target

  -- The choice among the addresses that are not excluded.
  unfoldable pub choose : List Text → List Text → Outcome ResolveError (List Text)
  unfolding firsts ping_hosts get_fastest_host
  choose v4 v6 =
      if no_address (v4, v6)
      then ok []
      else if net.is_privileged && o.ping && ltb 1 (length v4)
      then pinged (get_fastest_host (ping_hosts net.exchange v4))
      else if o.scan_all_ips
      then ok (v4 ++ v6)
      else ok (firsts v4 v6)

  unfoldable pub resolve_fqdn : Text → Outcome ResolveError (List Text)
  unfolding host2ips choose filter
  resolve_fqdn target =
      let ((v4, v6), error) = host2ips target in
      unless_error error (choose (filter net.validate_address v4) (filter net.validate_address v6))
