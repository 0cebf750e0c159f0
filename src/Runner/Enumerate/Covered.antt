-- ===== src/Runner/Enumerate/Covered.antt =====
-- A scan reaches every address and port.
use naabu.Prelude.{
  ℕ, zero, suc, ◌+◌, ◌/◌, ◌%◌, ◌<◌, ◌≡◌, refl, ap, ◌∙◌, Bool, true, false, ◌⊎◌, List, [], ◌∷◌, some,
  arith, inl, inr, Bool-cases, Option-cases, length, get_elem?,
}
use mathlib.Core.Path.{subst}
use naabu.Prelude.Int.{pos, lt_int}
use naabu.Prelude.Text.{Text}
use naabu.Net.Port.{Port}
use naabu.Net.Cidr.{IpNet}
use naabu.Results.{Result, add_port, has_skipped, ip_has_port}
use naabu.Results.Queries.{ip_has_port-add_port}
use naabu.Runner.Options.{Options}
use naabu.Runner.FastSend.Index.{pick_ip}
use naabu.Runner.SmartScan.{
  Outside, Probe, connect, receive, excluded, threshold_reached, can_i_scan_if_cdn,
}
use naabu.Runner.Enumerate.{
  Enumeration, start_connect, start_probe, probe_host, resume_at, enumerate_at, enumerate_from,
}

-- A connection to the port of the address was started.
pub data IsTried (ip : Text) (p : Port) : List Probe → Type 0 where
  here : {probes : List Probe} → IsTried ip p (connect ip p ∷ probes)
  later :
      {probe : Probe} {probes : List Probe} → IsTried ip p probes → IsTried ip p (probe ∷ probes)

receive-has_skipped :
    (found : List (Text × Port)) (ip : Text) (r : Result)
    → has_skipped ip (receive found r) ≡ has_skipped ip r
unfolding receive
receive-has_skipped [] ip r = refl
receive-has_skipped ((h, p) ∷ found) ip r =
    receive-has_skipped found ip (add_port h p r) ∙ (unfold has_skipped add_port in refl)

receive-ip_has_port :
    (found : List (Text × Port)) (ip : Text) (q : Port) (r : Result)
    → ip_has_port ip q r ≡ true
    → ip_has_port ip q (receive found r) ≡ true
unfolding receive
receive-ip_has_port [] ip q r h = h
receive-ip_has_port ((a, p) ∷ found) ip q r h =
    receive-ip_has_port found ip q (add_port a p r)
      (ground (arith, ip_has_port-add_port a ip p q r))

-- A connection to the port of the address was started, or the port is among the results.
abbrev pub IsCovered : Text → Port → Enumeration → Type 0
IsCovered ip p s = IsTried ip p s.probes ⊎ (ip_has_port ip p s.results ≡ true)

-- No host is skipped, and no round from `i` on is one of an earlier run.
pub record IsFresh (i : ℕ) (s : Enumeration) : Type 0 where
  pub no_skips : (ip : Text) → has_skipped ip s.results ≡ false
  pub ahead : lt_int (pos i) s.resume_cfg.index ≡ false

module _ (o : Outside) (options : Options) (unfiltered : options.exclude_cdn ≡ false)
    (unlimited : lt_int (pos 0) options.port_threshold ≡ false)
    (allowed : (ip : Text) → excluded o options ip ≡ false) where
  no_threshold : (ip : Text) (r : Result) → threshold_reached o options ip r ≡ false
  unfolding threshold_reached
  no_threshold ip r = rw unlimited refl

  open_cdn : (ip : Text) (p : Port) → can_i_scan_if_cdn o options ip p ≡ true
  unfolding can_i_scan_if_cdn
  open_cdn ip p = rw unfiltered refl

  start_connect_cases :
      (ip : Text) (p : Port) (r : Result) (probes : List Probe)
      → (start_connect o options false false ip p r probes ≡ connect ip p ∷ probes)
        ⊎ ((ip_has_port ip p r ≡ true)
            × (start_connect o options false false ip p r probes ≡ probes))
  unfolding start_connect
  start_connect_cases ip p r probes = elim (Bool-cases (ip_has_port ip p r)) [
    | inl known ↦ inr (known, rw (open_cdn ip p, known) refl)
    | inr new ↦ inl (rw (open_cdn ip p, new) refl)
  ]

  start_probe-keeps :
      (ip h : Text) (p q : Port) (s : Enumeration)
      → IsCovered h q s
      → IsCovered h q (start_probe o options false false ip p s)
  unfolding start_probe
  start_probe-keeps ip h p q s (inr known) = inr known
  start_probe-keeps ip h p q s (inl t) = elim (start_connect_cases ip p s.results s.probes) [
    | inl new ↦ rw new (inl (later t))
    | inr (known, same) ↦ rw same (inl t)
  ]

  start_probe-hits :
      (ip : Text) (p : Port) (s : Enumeration)
      → IsCovered ip p (start_probe o options false false ip p s)
  unfolding start_probe
  start_probe-hits ip p s = elim (start_connect_cases ip p s.results s.probes) [
    | inl new ↦ rw new (inl here)
    | inr (known, same) ↦ inr known
  ]

  probe_host-keeps :
      (ip h : Text) (p q : Port) (s : Enumeration)
      → IsCovered h q s
      → IsCovered h q (probe_host o options false false ip p s)
  unfolding probe_host
  probe_host-keeps ip h p q s t = elim (Bool-cases (has_skipped ip s.results)) [
    | inl e ↦ rw e t
    | inr e ↦ rw (e, no_threshold ip s.results) (start_probe-keeps ip h p q s t)
  ]

  probe_host-hits :
      (ip : Text) (p : Port) (s : Enumeration)
      → has_skipped ip s.results ≡ false
      → IsCovered ip p (probe_host o options false false ip p s)
  unfolding probe_host
  probe_host-hits ip p s e = rw (e, no_threshold ip s.results) (start_probe-hits ip p s)

  probe_host-same :
      (done : Bool) (ip : Text) (p : Port) (s : Enumeration)
      → ((probe_host o options false done ip p s).results ≡ s.results)
        × ((probe_host o options false done ip p s).resume_cfg ≡ s.resume_cfg)
  unfolding probe_host start_probe
  probe_host-same done ip p s = elim (Bool-cases (has_skipped ip s.results)) [
    | inl e ↦ rw e (refl, refl)
    | inr e ↦ rw (e, no_threshold ip s.results) (refl, refl)
  ]

  resume_at-keeps :
      (i : ℕ) (ip h : Text) (p q : Port) (s : Enumeration)
      → IsCovered h q s
      → IsCovered h q (resume_at o options false false i ip p s)
  unfolding resume_at
  resume_at-keeps i ip h p q s t = elim (Bool-cases (lt_int (pos i) s.resume_cfg.index)) [
    | inl e ↦ rw e t
    | inr e ↦ rw e (probe_host-keeps ip h p q _ t)
  ]

  resume_at-hits :
      (i : ℕ) (ip : Text) (p : Port) (s : Enumeration)
      → IsFresh i s
      → IsCovered ip p (resume_at o options false false i ip p s)
  unfolding resume_at
  resume_at-hits i ip p s f = rw f.ahead (probe_host-hits ip p _ (f.no_skips ip))

  resume_at-IsFresh :
      (done : Bool) (i : ℕ) (ip : Text) (p : Port) (s : Enumeration)
      → IsFresh i s
      → IsFresh (i + 1) (resume_at o options false done i ip p s)
  unfolding resume_at
  resume_at-IsFresh done i ip p s f =
      let noted = record s { resume_cfg = record (s.resume_cfg) { index = pos i } } in
      let (results, cfg) = probe_host-same done ip p noted in
      rw f.ahead (record {
        no_skips = λ h. ap (has_skipped h) results ∙ f.no_skips h;
        ahead = rw cfg (ground arith);
      })

  module _ (targets : List IpNet) (ports : List Port) where
    enumerate_at-keeps :
        (i xxx : ℕ) (h : Text) (q : Port) (s : Enumeration)
        → IsCovered h q s
        → IsCovered h q (enumerate_at o options false targets ports false i xxx s)
    unfolding enumerate_at
    enumerate_at-keeps i xxx h q s t =
        let ip = pick_ip o.mapcidr o.v6_string targets (pos (xxx / length ports)) in
        rw (allowed ip) (elim (Option-cases (get_elem? ports (xxx % length ports))) [
          | inl e ↦ rw e t
          | inr (p, e) ↦ rw e (resume_at-keeps i ip h p q s t)
        ])

    enumerate_at-IsFresh :
        (done : Bool) (i xxx : ℕ) (s : Enumeration)
        → IsFresh i s
        → IsFresh (i + 1) (enumerate_at o options false targets ports done i xxx s)
    unfolding enumerate_at
    enumerate_at-IsFresh done i xxx s f =
        let ip = pick_ip o.mapcidr o.v6_string targets (pos (xxx / length ports)) in
        rw (allowed ip) (elim (Option-cases (get_elem? ports (xxx % length ports))) [
          | inl e ↦ rw e (record { no_skips = f.no_skips; ahead = ground (arith, f.ahead) })
          | inr (p, e) ↦ rw e (resume_at-IsFresh done i ip p s f)
        ])

    enumerate_at-hits :
        (i xxx : ℕ) (p : Port) (s : Enumeration)
        → IsFresh i s
        → get_elem? ports (xxx % length ports) ≡ some p
        → IsCovered
            (pick_ip o.mapcidr o.v6_string targets (pos (xxx / length ports)))
            p
            (enumerate_at o options false targets ports false i xxx s)
    unfolding enumerate_at
    enumerate_at-hits i xxx p s f e =
        let ip = pick_ip o.mapcidr o.v6_string targets (pos (xxx / length ports)) in
        rw (allowed ip, e) (resume_at-hits i ip p s f)

    module _ (arrivals : ℕ → List (Text × Port)) (shuffle : ℕ → ℕ) where
      received : ℕ → Enumeration → Enumeration
      received i s = record s { results = receive (arrivals i) s.results }

      received-IsFresh : (i : ℕ) (s : Enumeration) → IsFresh i s → IsFresh i (received i s)
      unfolding received
      received-IsFresh i s f = record {
        no_skips = λ ip. receive-has_skipped (arrivals i) ip s.results ∙ f.no_skips ip;
        ahead = f.ahead;
      }

      received-IsCovered :
          (i : ℕ) (h : Text) (q : Port) (s : Enumeration)
          → IsCovered h q s
          → IsCovered h q (received i s)
      unfolding received
      received-IsCovered i h q s (inl t) = inl t
      received-IsCovered i h q s (inr known) =
          inr (receive-ip_has_port (arrivals i) h q s.results known)

      abbrev scan : ℕ → ℕ → Enumeration → Enumeration
      scan i n s = enumerate_from o options false targets ports (λ i. false) arrivals shuffle i n s

      enumerate_from-keeps :
          (i n : ℕ) (h : Text) (q : Port) (s : Enumeration)
          → IsCovered h q s
          → IsCovered h q (scan i n s)
      unfolding enumerate_from received
      enumerate_from-keeps i zero h q s t = t
      enumerate_from-keeps i (suc n) h q s t =
          enumerate_from-keeps (i + 1) n h q _
            (enumerate_at-keeps i (shuffle i) h q _ (received-IsCovered i h q s t))

      -- Round `j` covers its address and port.
      enumerate_from-reaches :
          (k i n j : ℕ) (p : Port) (s : Enumeration)
          → i + k ≡ j
          → k < n
          → IsFresh i s
          → get_elem? ports (shuffle j % length ports) ≡ some p
          → IsCovered
              (pick_ip o.mapcidr o.v6_string targets (pos (shuffle j / length ports)))
              p
              (scan i n s)
      unfolding enumerate_from received
      enumerate_from-reaches k i zero j p s at lt f e = absurd (omega arith)
      enumerate_from-reaches zero i (suc n) j p s at lt f e =
          let same : i ≡ j = omega arith in
          let at_i : get_elem? ports (shuffle i % length ports) ≡ some p = rw same e in
          rw (← same) (
            enumerate_from-keeps (i + 1) n _ p _
              (enumerate_at-hits i (shuffle i) p _ (received-IsFresh i s f) at_i))
      enumerate_from-reaches (suc k) i (suc n) j p s at lt f e =
          enumerate_from-reaches k (i + 1) n j p _ (omega arith) (omega arith)
            (enumerate_at-IsFresh false i (shuffle i) _ (received-IsFresh i s f)) e

      -- A connect scan whose context is not done, with the CDN filter off and no excluded address, no
      -- limit on the ports of a host, no skipped host and no earlier run: if the shuffled indices take
      -- every value below the count of rounds, then for every address with every port a connection was
      -- started or the port is among the results.
      pub enumerate_from-covers :
          (n : ℕ) (s : Enumeration)
          → ((k : ℕ) → k < n → (j : ℕ) × (j < n) × (shuffle j ≡ k))
          → IsFresh 0 s
          → (k : ℕ) (p : Port) → k < n
          → get_elem? ports (k % length ports) ≡ some p
          → IsCovered
              (pick_ip o.mapcidr o.v6_string targets (pos (k / length ports)))
              p
              (enumerate_from o options false targets ports (λ i. false) arrivals shuffle 0 n s)
      enumerate_from-covers n s onto f k p lt e =
          let (j, below, same) = onto k lt in
          subst
            (λ (x : ℕ).
              IsCovered (pick_ip o.mapcidr o.v6_string targets (pos (x / length ports))) p
                (scan 0 n s))
            same (enumerate_from-reaches j 0 n j p s (omega arith) below f (rw same e))
