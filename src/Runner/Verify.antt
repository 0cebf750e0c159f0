-- ===== src/Runner/Verify.antt =====
-- pkg/runner/runner.go and pkg/scan/connect.go: what the runner asks of one host, and the check of the
-- found ports by a connection. Connections are arguments.
mod Verified
mod Tests
use naabu.Prelude.{
  ℕ, Bool, true, false, not, ◌&&◌, ◌||◌, List, [], ◌∷◌, ◌++◌, Option, none, some, if◌then◌else◌,
  ◌=?◌, length, ltb, filter, Outcome, ok, err,
}
use naabu.Prelude.Int.{ℤ}
use naabu.Prelude.Text.{Text, codes, text_eq}
use naabu.Prelude.Decimal.{itoa}
use naabu.Net.Protocol
use naabu.Net.Port
use naabu.Net.Port.{Port}
use naabu.Net.HostPort.{join_host_port}
use naabu.Net.Cidr.{IpNet}
use naabu.Results
use naabu.Results.{
  Result, HostResult, ConfidenceLevel, normal, low, new_result, add_port, set_ports, ip_has_port,
  get_ips_ports,
}
use naabu.Runner.Options
use naabu.Runner.Options.{Options, should_scan_ipv4, should_scan_ipv6}
use naabu.Runner.Ports.{parse_ports_slice}
use naabu.Runner.SmartScan.{Outside, can_i_scan_if_cdn}

-- `net.DialTimeout` on a network and an address: whether there is a connection.
abbrev pub Dial : Type 0
Dial = Text → Text → Bool

-- `ConnectVerify`
unfoldable pub connect_verify : Dial → Text → List Port → List Port
unfolding filter join_host_port itoa
connect_verify dial host ports =
    filter (λ p. dial (Protocol.string p.protocol) (join_host_port host (itoa p.port))) ports

abbrev pub is_low : ConfidenceLevel → Bool
is_low normal = false
is_low low = true

-- The hosts in the order in which their goroutines store.
unfoldable pub verify_hosts : Dial → List HostResult → Result → Result
unfolding connect_verify set_ports
verify_hosts dial [] verified = verified
verify_hosts dial (h ∷ hosts) verified = verify_hosts dial hosts (
    if is_low h.confidence
    then verified
    else set_ports h.ip (connect_verify dial h.ip h.ports) verified)

-- `ConnectVerification`: the results that replace those of the scan.
unfoldable pub connect_verification : Dial → (Text → Bool) → (Text → Option Text) → Result → Result
unfolding verify_hosts get_ips_ports
connect_verification dial is_private_ip get_mac_address results =
    verify_hosts dial (get_ips_ports is_private_ip get_mac_address results) new_result

-- What `handleHostPort` calls: `ConnectPort` gives whether the port is open and whether there is an
-- error; the second part is whether the receiver is told. `done` tells whether the context is done.
unfoldable pub handle_host_port :
    Outside → Options → (Text → Port → Bool × Bool) → Bool → Text → Port → Result → Result × Bool
unfolding can_i_scan_if_cdn ip_has_port add_port
handle_host_port o options connect_port done host p results =
    let (is_open, failed) = connect_port host p in
    if done
      || not (can_i_scan_if_cdn o options host p)
      || ip_has_port host p results
      || not (is_open && not failed)
    then (results, false)
    else (add_port host p results, not options.verify)

-- What `handleHostDiscovery` enqueues.
pub data HostProbe : Type 0 where
  icmp_echo_request icmp_timestamp_request icmp_address_mask_request arp : Text → HostProbe
  tcp_syn tcp_ack : Text → List Port → HostProbe
  ndp : Text → HostProbe

abbrev pub on : Bool → HostProbe → List HostProbe
on true probe = probe ∷ []
on false probe = []

-- The ports of the probes; with an error there are none.
unfoldable pub probe_ports : List Text → List Port
unfolding parse_ports_slice
probe_ports probes = elim (parse_ports_slice probes) [ ok ports ↦ ports | err e ↦ [] ]

unfoldable pub handle_host_discovery : Options → Text → List HostProbe
unfolding probe_ports
handle_host_discovery o host =
    on o.icmp_echo_request_probe (icmp_echo_request host)
    ++ on o.icmp_timestamp_request_probe (icmp_timestamp_request host)
    ++ on o.icmp_address_mask_request_probe (icmp_address_mask_request host)
    ++ on o.arp_ping (arp host)
    ++ on (ltb 0 (length o.tcp_syn_ping_probes)) (tcp_syn host (probe_ports o.tcp_syn_ping_probes))
    ++ on (ltb 0 (length o.tcp_ack_ping_probes)) (tcp_ack host (probe_ports o.tcp_ack_ping_probes))
    ++ on o.ipv6_neighbor_discovery_ping (ndp (codes "ff02::1"))

-- The results of `GetTargetIps` without an error.
pub record TargetIps : Type 0 where
  pub targets : List IpNet
  pub targets_v4 : List IpNet
  pub targets_v6 : List IpNet
  pub targets_with_port : List Text

abbrev pub is_nil {ℓ} : {A : Type ℓ} → List A → Bool
is_nil [] = true
is_nil (x ∷ xs) = false

-- `coalesce` is `mapcidr.CoalesceCIDRs`, and `contains` is `sliceutil.Contains`.
unfoldable pub get_target_ips :
    (List IpNet → List IpNet × List IpNet)
    → (List Text → Text → Bool)
    → Options
    → List IpNet
    → List Text
    → Option TargetIps
unfolding should_scan_ipv4 should_scan_ipv6
get_target_ips coalesce contains o targets targets_with_port =
    let (v4, v6) = coalesce targets in
    let targets_v4 = if should_scan_ipv4 contains o then v4 else [] in
    let targets_v6 = if should_scan_ipv6 contains o then v6 else [] in
    if is_nil v4 && is_nil v6 && is_nil targets_with_port
    then none
    else some (record {
      targets = targets_v4 ++ targets_v6;
      targets_v4 = targets_v4;
      targets_v6 = targets_v6;
      targets_with_port = targets_with_port;
    })

unfoldable pub ip_matches_ip_versions : (Text → Bool) → (Text → Bool) → Text → List Text → Bool
ip_matches_ip_versions is_ipv4 is_ipv6 ip [] = false
ip_matches_ip_versions is_ipv4 is_ipv6 ip (v ∷ versions) =
    (v =? codes "4") && is_ipv4 ip
    || (v =? codes "6") && is_ipv6 ip
    || ip_matches_ip_versions is_ipv4 is_ipv6 ip versions
