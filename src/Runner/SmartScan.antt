-- ===== src/Runner/SmartScan.antt =====
-- pkg/runner/smartscan.go: `scanSinglePortOnTargets`, the loop that sends the probes of one port.
mod Tests
pub mod Checked
pub mod Sent
use naabu.Prelude.{
  ℕ, zero, suc, ◌+◌, ◌%◌, ◌==◌, ◌≡◌, Bool, true, false, not, ◌&&◌, ◌||◌, List, [], ◌∷◌, Option,
  none, some, if◌then◌else◌, ◌=?◌,
}
use naabu.Prelude.Int.{ℤ, pos, pos_part, lt_int, eq_int, to_int64, to_uint16}
use naabu.Prelude.Text.{Text, text_eq}
use naabu.Net.Protocol.{Protocol, tcp, udp, arp, protocol_eq}
use naabu.Net.Port.{Port}
use naabu.Net.Cidr.{IpNet, Mapcidr}
use naabu.Results.{add_port, Result, has_skipped, get_port_count, add_skipped, ip_has_port}
use naabu.Runner.Options.{Options}
use naabu.Runner.FastSend.Ipv4.{Ipv4}
use naabu.Runner.FastSend.Index.{TargetIndex, pick_ipv4, pick_ip}
use naabu.Runner.FastSend.Sender.{Packet, SynSender, send}

-- What the loop calls outside of the repository: the packages of the addresses, of the exclusion
-- list (`none` where it is nil), of the CDN ranges (`none` is an error) and of the permutation.
pub record Outside : Type 0 where
  pub mapcidr : Mapcidr
  pub v6_string : ℕ → Text
  pub validate_address : Option (Text → Bool)
  pub cdn_check : Text → Option Bool
  pub shuffle : ℤ → ℤ

-- What leaves the loop: a packet with the address to which the socket sends it, what is enqueued, and
-- `connect` for `handleHostPort`: in this loop its start, just behind the same tests, in
-- Runner.Enumerate its call of `ConnectPort`.
pub data Probe : Type 0 where
  syn : Ipv4 → Packet → Probe
  enqueue_tcp : Text → Port → Probe
  enqueue_udp : Text → Port → Probe
  connect : Text → Port → Probe

-- The probes so far, with the latest first.
pub record ScanState : Type 0 where
  pub results : Result
  pub sender : Option SynSender
  pub probes : List Probe

unfoldable pub receive : List (Text × Port) → Result → Result
unfolding add_port
receive [] r = r
receive ((ip, p) ∷ found) r = receive found (add_port ip p r)

module _ (o : Outside) (options : Options) where
  unfoldable pub can_i_scan_if_cdn : Text → Port → Bool
  can_i_scan_if_cdn host p = if not options.exclude_cdn then true else elim (o.cdn_check host) [
    | none ↦ eq_int p.port (pos 80) || eq_int p.port (pos 443)
    | some is_cdn ↦ not is_cdn || eq_int p.port (pos 80) || eq_int p.port (pos 443)
  ]

  unfoldable pub excluded : Text → Bool
  excluded ip = elim o.validate_address [ none ↦ false | some valid ↦ not (valid ip) ]

  unfoldable pub threshold_reached : Text → Result → Bool
  unfolding get_port_count
  threshold_reached ip r =
      lt_int (pos 0) options.port_threshold
      && not (lt_int (pos (get_port_count ip r)) options.port_threshold)

  -- The tests before a probe, and the results after them.
  unfoldable pub admit : Text → Port → Result → Bool × Result
  unfolding excluded has_skipped threshold_reached add_skipped ip_has_port can_i_scan_if_cdn
  admit ip p r =
      if excluded ip
      then (false, r)
      else if has_skipped ip r
      then (false, r)
      else if threshold_reached ip r
      then (false, add_skipped ip r)
      else if ip_has_port ip p r
      then (false, r)
      else (can_i_scan_if_cdn ip p, r)

  module _ (targets : List IpNet) (tgt_idx : TargetIndex) (p : Port) (raw_packets : Bool) where
    -- The probe of the standard path; there is none for another protocol.
    unfoldable pub standard_probe : Text → List Probe → List Probe
    standard_probe ip probes =
        if raw_packets
        then if p.protocol =? tcp
          then enqueue_tcp ip p ∷ probes
          else if p.protocol =? udp
          then enqueue_udp ip p ∷ probes
          else probes
        else connect ip p ∷ probes

    standard_checked : Text → Bool × Result → ScanState → ScanState
    unfolding standard_probe
    standard_checked ip (false, r) s = record s { results = r }
    standard_checked ip (true, r) s = record s { results = r; probes = standard_probe ip s.probes }

    standard : Text → ScanState → ScanState
    unfolding standard_checked admit
    standard ip s = if ip =? [] then s else standard_checked ip (admit ip p s.results) s

    -- An index without an IPv4 address, where there is a fast sender.
    fallback : Text → ScanState → ScanState
    fallback ip s = if ip =? [] then s else record s { probes = enqueue_tcp ip p ∷ s.probes }

    fast_checked : SynSender → Ipv4 → Text → Bool × Result → ScanState → ScanState
    unfolding send
    fast_checked sender dst_ip ip (false, r) s = record s { results = r }
    fast_checked sender dst_ip ip (true, r) s =
        let out = send sender dst_ip (to_uint16 p.port) in
        record s { results = r; sender = some out.1; probes = syn dst_ip out.0 ∷ s.probes }

    -- The fast path: what `pickIPv4` gave, and the index.
    fast : SynSender → ℤ → Option (Ipv4 × Text) → ScanState → ScanState
    unfolding fallback fast_checked admit pick_ip
    fast sender ip_index none s = fallback (pick_ip o.mapcidr o.v6_string targets ip_index) s
    fast sender ip_index (some (dst_ip, ip)) s =
        fast_checked sender dst_ip ip (admit ip p s.results) s

    dispatch : Option SynSender → ℤ → ScanState → ScanState
    unfolding fast standard pick_ip pick_ipv4
    dispatch none ip_index s = standard (pick_ip o.mapcidr o.v6_string targets ip_index) s
    dispatch (some sender) ip_index s =
        if p.protocol =? tcp
        then fast sender ip_index (pick_ipv4 tgt_idx ip_index) s
        else standard (pick_ip o.mapcidr o.v6_string targets ip_index) s

    -- One round of the loop, for an index that is shuffled already.
    unfoldable pub scan_index : ℤ → ScanState → ScanState
    unfolding dispatch
    scan_index ip_index s = dispatch s.sender ip_index s

    -- The loop from `i` on, for `n` rounds. `cancelled` tells at which `i` the context is done, where
    -- the loop looks: at the multiples of 1024. `arrivals` are the ports that the receiver adds
    -- before a round.
    pub scan_from : (ℕ → Bool) → (ℕ → List (Text × Port)) → ℕ → ℕ → ScanState → ScanState
    unfolding scan_index receive
    scan_from cancelled arrivals i zero s = s
    scan_from cancelled arrivals i (suc n) s =
        let ready = record s { results = receive (arrivals i) s.results } in
        let next = scan_index (o.shuffle (pos i)) ready in
        let rest = scan_from cancelled arrivals (i + 1) n next in
        if (i % 1024 == 0) && cancelled i then s else rest

    unfoldable pub scan_single_port_on_targets :
        (ℕ → Bool) → (ℕ → List (Text × Port)) → ℕ → ScanState → ScanState
    unfolding scan_from to_int64
    scan_single_port_on_targets cancelled arrivals targets_count s =
        scan_from cancelled arrivals 0 (pos_part (to_int64 targets_count)) s
