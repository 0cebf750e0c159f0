-- ===== src/Runner/Enumerate.antt =====
-- pkg/runner/runner.go: the scan of all addresses and ports in shuffled order, with its retries and
-- the point from which it resumes.
mod Tests
pub mod Resumed
pub mod Covered
use naabu.Prelude.{
  ℕ, zero, suc, ◌+◌, ◌*◌, ◌/◌, ◌%◌, ◌^◌, ◌<◌, ◌≡◌, Bool, true, false, not, ◌&&◌, ◌||◌, List, [],
  ◌∷◌, Option, none, some, if◌then◌else◌, ◌=?◌, length, get_elem?, ltb,
}
use naabu.Prelude.Int.{ℤ, pos, pos_part, lt_int, to_int64}
use naabu.Prelude.Text.{Text}
use naabu.Prelude.Decimal.{atoi}
use naabu.Net.Protocol.{Protocol, tcp, udp, protocol_eq}
use naabu.Net.Port.{Port}
use naabu.Net.Cidr.{IpNet, Mapcidr}
use naabu.Net.HostPort.{split_host_port}
use naabu.Results.{Result, add_port, has_skipped, add_skipped, ip_has_port}
use naabu.Runner.Options.{Options}
use naabu.Runner.Ports.{bare}
use naabu.Runner.FastSend.Index.{pick_ip}
use naabu.Runner.SmartScan.{
  Outside, Probe, enqueue_tcp, enqueue_udp, connect, receive, can_i_scan_if_cdn, excluded,
  threshold_reached,
}

-- pkg/runner/resume.go: `ResumeCfg`
pub record ResumeCfg : Type 0 where
  pub retry : ℤ
  pub seed : ℤ
  pub index : ℤ

-- The probes so far, with the latest first.
pub record Enumeration : Type 0 where
  pub results : Result
  pub resume_cfg : ResumeCfg
  pub probes : List Probe

-- `int64(Range)`, as the count of rounds; the count of addresses and the product have 64 bits.
unfoldable pub targets_count : Mapcidr → List IpNet → ℕ
targets_count lib [] = 0
targets_count lib (t ∷ ts) = (lib.address_count t + targets_count lib ts) % 2 ^ 64

unfoldable pub rounds_of : Mapcidr → List IpNet → List Port → ℕ
unfolding targets_count to_int64
rounds_of lib targets ports =
    pos_part (to_int64 (targets_count lib targets * length ports % 2 ^ 64))

module _ (o : Outside) (options : Options) (raw_packets : Bool) where
  -- `RawSocketEnumeration`; `done` tells whether the context is done.
  unfoldable pub raw_socket_enumeration : Bool → Text → Port → Result → List Probe → List Probe
  unfolding can_i_scan_if_cdn ip_has_port
  raw_socket_enumeration done ip p results probes =
      if done
      then probes
      else if not (can_i_scan_if_cdn o options ip p)
      then probes
      else if ip_has_port ip p results
      then probes
      else if p.protocol =? tcp
      then enqueue_tcp ip p ∷ probes
      else if p.protocol =? udp
      then enqueue_udp ip p ∷ probes
      else probes

  -- The goroutine of `handleHostPort` up to `ConnectPort`, at the time of its start: `Runner.Verify`
  -- has the rest.
  unfoldable pub start_connect : Bool → Text → Port → Result → List Probe → List Probe
  unfolding can_i_scan_if_cdn ip_has_port
  start_connect done ip p results probes =
      if done
      then probes
      else if not (can_i_scan_if_cdn o options ip p)
      then probes
      else if ip_has_port ip p results
      then probes
      else connect ip p ∷ probes

  -- The probe of the raw or of the connect scan.
  unfoldable pub start_probe : Bool → Text → Port → Enumeration → Enumeration
  unfolding raw_socket_enumeration start_connect
  start_probe done ip p s = record s {
    probes =
        if raw_packets
        then raw_socket_enumeration done ip p s.results s.probes
        else start_connect done ip p s.results s.probes;
  }

  -- The tests on the host before its probe.
  probe_host : Bool → Text → Port → Enumeration → Enumeration
  unfolding start_probe has_skipped threshold_reached add_skipped
  probe_host done ip p s =
      if has_skipped ip s.results
      then s
      else if threshold_reached o options ip s.results
      then record s { results = add_skipped ip s.results }
      else start_probe done ip p s

  -- The rounds below the index of the last run are skipped; the others are noted.
  resume_at : Bool → ℕ → Text → Port → Enumeration → Enumeration
  unfolding probe_host
  resume_at done index ip p s =
      if lt_int (pos index) s.resume_cfg.index
      then s
      else probe_host done ip p
          (record s { resume_cfg = record (s.resume_cfg) { index = pos index } })

  module _ (targets : List IpNet) (ports : List Port) where
    -- A shuffled index names an address and a port. No port at its index would be a panic; it does
    -- not occur, since the index is below the count of ports.
    enumerate_at : Bool → ℕ → ℕ → Enumeration → Enumeration
    unfolding resume_at excluded pick_ip
    enumerate_at done index xxx s =
        let ip = pick_ip o.mapcidr o.v6_string targets (pos (xxx / length ports)) in
        if excluded o options ip then s else elim (get_elem? ports (xxx % length ports)) [
          | none ↦ s
          | some p ↦ resume_at done index ip p s
        ]

    -- The rounds from `index` on, in the order that `shuffle` gives. `arrivals` are the ports that
    -- are found before a round.
    pub enumerate_from :
        (ℕ → Bool) → (ℕ → List (Text × Port)) → (ℕ → ℕ) → ℕ → ℕ → Enumeration → Enumeration
    unfolding enumerate_at
    enumerate_from cancelled arrivals shuffle index zero s = s
    enumerate_from cancelled arrivals shuffle index (suc n) s =
        let ready = record s { results = receive (arrivals index) s.results } in
        enumerate_from cancelled arrivals shuffle (index + 1) n
          (enumerate_at (cancelled index) index (shuffle index) ready)

    -- A target that is given with its port.
    probe_target : Bool → Option (Text × Text) → Enumeration → Enumeration
    unfolding start_probe atoi
    probe_target done none s = s
    probe_target done (some (ip, p)) s = elim (atoi p) [
      | none ↦ s
      | some pp ↦ start_probe done ip (bare tcp pp) s
    ]

    probe_targets : Bool → List Text → Enumeration → Enumeration
    unfolding probe_target split_host_port
    probe_targets done [] s = s
    probe_targets done (t ∷ ts) s = probe_targets done ts (probe_target done (split_host_port t) s)

    -- A retry that ends leaves no seed and no index behind.
    abbrev reset : ResumeCfg → ResumeCfg
    reset cfg = record cfg {
      seed = if lt_int (pos 0) cfg.seed then pos 0 else cfg.seed;
      index = if lt_int (pos 0) cfg.index then pos 0 else cfg.index;
    }

    -- What the retries depend on outside: the context, the arrivals, the clock and the permutation
    -- that the package blackrock makes of a count of rounds and a seed.
    pub record Run : Type 0 where
      pub cancelled : ℕ → ℕ → Bool
      pub done : ℕ → Bool
      pub arrivals : ℕ → ℕ → List (Text × Port)
      pub now : ℕ → ℤ
      pub shuffle : ℕ → ℤ → ℕ → ℕ

    abbrev seed_of : ResumeCfg → ℤ → ℤ
    seed_of cfg now = if lt_int (pos 0) cfg.seed then cfg.seed else now

    unfoldable pub run_retry : Run → List Text → ℕ → Enumeration → Enumeration
    unfolding rounds_of enumerate_from probe_targets
    run_retry run targets_with_port retry s =
        let n = rounds_of o.mapcidr targets ports in
        let seed = seed_of s.resume_cfg (run.now retry) in
        let started = record s {
          resume_cfg = record (s.resume_cfg) { retry = pos retry; seed = seed };
        } in
        let scanned =
          enumerate_from (run.cancelled retry) (run.arrivals retry) (run.shuffle n seed) 0 n
            started in
        let probed = probe_targets (run.done retry) targets_with_port scanned in
        record probed { resume_cfg = reset probed.resume_cfg }

    run_retries : Run → List Text → ℕ → ℕ → Enumeration → Enumeration
    unfolding run_retry
    run_retries run targets_with_port retry zero s = s
    run_retries run targets_with_port retry (suc n) s =
        let next = run_retry run targets_with_port retry s in
        run_retries run targets_with_port (retry + 1) n
          (if lt_int (pos retry) s.resume_cfg.retry then s else next)

    -- The loop over the retries of `RunEnumeration`.
    unfoldable pub run_enumeration : Run → List Text → Enumeration → Enumeration
    unfolding run_retries
    run_enumeration run targets_with_port s =
        run_retries run targets_with_port 0 (pos_part options.retries) s
