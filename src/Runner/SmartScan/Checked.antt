-- ===== src/Runner/SmartScan/Checked.antt =====
-- Which probes the loop over the targets sends.
use naabu.Prelude.{
  ℕ, zero, suc, ◌+◌, ◌%◌, ◌==◌, ◌≡◌, ◌⊎◌, Bool, true, false, ◌&&◌, List, Option, none, some, inl,
  inr, Bool-cases, All,
}
use naabu.Prelude.Int.{ℤ, pos}
use naabu.Prelude.Text.{Text, text_eq}
use naabu.Net.Protocol.{protocol_eq}
use naabu.Net.Port.{Port}
use naabu.Net.Cidr.{IpNet}
use naabu.Runner.Options.{Options}
use naabu.Runner.FastSend.Ipv4.{Ipv4, dotted}
use naabu.Runner.FastSend.Index.{TargetIndex}
use naabu.Runner.SmartScan.{
  Outside, Probe, syn, enqueue_tcp, enqueue_udp, connect, ScanState, receive, scan_index, scan_from,
}

-- The address to which a probe goes; that of a packet is the text of its destination.
abbrev pub host_of : Probe → Text
host_of (syn dst pkt) = dotted dst
host_of (enqueue_tcp ip p) = ip
host_of (enqueue_udp ip p) = ip
host_of (connect ip p) = ip

-- What is enqueued or connected to is the port; a packet has its port in its bytes.
abbrev pub IsFor : Port → Probe → Type 0
IsFor p (syn dst pkt) = Unit {0}
IsFor p (enqueue_tcp ip q) = q ≡ p
IsFor p (enqueue_udp ip q) = q ≡ p
IsFor p (connect ip q) = q ≡ p

-- What the exclusion list says of an address, where there is one.
abbrev pub Accepts : Option (Text → Bool) → Text → Type 0
Accepts none ip = Unit {0}
Accepts (some valid) ip = valid ip ≡ true

-- The CDN filter is off, the address is known to be outside of the CDNs, or the port is 80 or 443.
abbrev pub IsOutsideCdn : Bool → Option Bool → ℤ → Type 0
IsOutsideCdn exclude_cdn is_cdn port =
    (exclude_cdn ≡ false) ⊎ ((is_cdn ≡ some false) ⊎ ((port ≡ pos 80) ⊎ (port ≡ pos 443)))

module _ (o : Outside) (options : Options) where
  -- A probe of a port that the exclusion list and the CDN filter allow.
  pub record IsAllowed (p : Port) (probe : Probe) : Type 0 where
    pub right_port : IsFor p probe
    pub not_excluded : Accepts o.validate_address (host_of probe)
    pub not_filtered : IsOutsideCdn options.exclude_cdn (o.cdn_check (host_of probe)) p.port

  module _ (targets : List IpNet) (tgt_idx : TargetIndex) (p : Port) (raw_packets : Bool) where
    -- What every round and every arrival keeps, the loop keeps.
    pub scan_from-keeps {κ} :
        (P : ScanState → Type κ)
        → ((found : List (Text × Port)) (s : ScanState)
            → P s
            → P (record s { results = receive found s.results }))
        → ((j : ℤ) (s : ScanState)
            → P s
            → P (scan_index o options targets tgt_idx p raw_packets j s))
        → (cancelled : ℕ → Bool) (arrivals : ℕ → List (Text × Port)) (i n : ℕ) (s : ScanState) → P s
        → P (scan_from o options targets tgt_idx p raw_packets cancelled arrivals i n s)
    unfolding scan_from
    scan_from-keeps P arrive step cancelled arrivals i zero s h = h
    scan_from-keeps P arrive step cancelled arrivals i (suc n) s h =
        let ready = record s { results = receive (arrivals i) s.results } in
        let next = scan_index o options targets tgt_idx p raw_packets (o.shuffle (pos i)) ready in
        let rest =
          scan_from-keeps P arrive step cancelled arrivals (i + 1) n next
            (step (o.shuffle (pos i)) ready (arrive (arrivals i) s h)) in
        elim (Bool-cases ((i % 1024 == 0) && cancelled i)) [ inl e ↦ rw e h | inr e ↦ rw e rest ]

    abbrev AllAllowed : ScanState → Type 0
    AllAllowed s = All (IsAllowed p) s.probes
