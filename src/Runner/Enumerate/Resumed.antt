-- ===== src/Runner/Enumerate/Resumed.antt =====
-- A scan that resumes.
use naabu.Prelude.{
  ℕ, zero, suc, ◌+◌, ◌/◌, ◌%◌, ◌<◌, ◌≡◌, refl, ap, ◌∙◌, Bool, true, false, List, [], arith, Option,
  none, some, if◌then◌else◌, length, get_elem?, inl, inr, Bool-cases, Option-cases,
}
use naabu.Prelude.Int.{pos, lt_int}
use naabu.Prelude.Text.{Text}
use naabu.Net.Port.{Port}
use naabu.Net.Cidr.{IpNet}
use naabu.Runner.Options.{Options}
use naabu.Runner.SmartScan.{Outside, receive, excluded, threshold_reached}
use naabu.Runner.FastSend.Index.{pick_ip}
use naabu.Results.{has_skipped}
use naabu.Runner.Enumerate.{
  Enumeration, start_probe, probe_host, resume_at, enumerate_at, enumerate_from,
}

module _ (o : Outside) (options : Options) (raw_packets : Bool) (targets : List IpNet)
    (ports : List Port) where
  -- A round that is done: its index is noted and its address and port go through the tests on the host,
  -- where the address is not excluded.
  abbrev perform : Bool → ℕ → Text → Option Port → Enumeration → Enumeration
  perform done index ip none s = s
  perform done index ip (some p) s =
      if excluded o options ip
      then s
      else probe_host o options raw_packets done ip p
          (record s { resume_cfg = record (s.resume_cfg) { index = pos index } })

  -- What the rounds from `index` on do, all of them.
  pub perform_from :
      (ℕ → Bool) → (ℕ → List (Text × Port)) → (ℕ → ℕ) → ℕ → ℕ → Enumeration → Enumeration
  perform_from cancelled arrivals shuffle index zero s = s
  perform_from cancelled arrivals shuffle index (suc n) s =
      perform_from cancelled arrivals shuffle (index + 1) n (
        perform (cancelled index) index
          (pick_ip o.mapcidr o.v6_string targets (pos (shuffle index / length ports)))
          (get_elem? ports (shuffle index % length ports))
          (record s { results = receive (arrivals index) s.results }))

  enumerate_at-skips :
      (done : Bool) (index xxx : ℕ) (s : Enumeration)
      → lt_int (pos index) s.resume_cfg.index ≡ true
      → enumerate_at o options raw_packets targets ports done index xxx s ≡ s
  unfolding enumerate_at resume_at
  enumerate_at-skips done index xxx s h = ground arith

  module _ (cancelled : ℕ → Bool) (arrivals : ℕ → List (Text × Port)) (shuffle : ℕ → ℕ) (m : ℕ)
      (quiet : (i : ℕ) → i < m → arrivals i ≡ []) where
    round_skips :
        (i : ℕ) (s : Enumeration)
        → i < m
        → s.resume_cfg.index ≡ pos m
        → enumerate_at o options raw_packets targets ports
            (cancelled i)
            i
            (shuffle i)
            (record s { results = receive (arrivals i) s.results })
          ≡ s
    unfolding receive
    round_skips i s lt at =
        enumerate_at-skips (cancelled i) i (shuffle i) _ (rw at (ground arith))
        ∙ ap (λ (found : List (Text × Port)). record s { results = receive found s.results })
            (quiet i lt)

    skip_rounds :
        (k n i t : ℕ) (s : Enumeration)
        → i + k ≡ m
        → k + n ≡ t
        → s.resume_cfg.index ≡ pos m
        → enumerate_from o options raw_packets targets ports cancelled arrivals shuffle i t s
          ≡ enumerate_from o options raw_packets targets ports cancelled arrivals shuffle m n s
    unfolding enumerate_from
    skip_rounds zero n i t s e r at =
        let start : i ≡ m = omega arith in let count : n ≡ t = omega arith in rw (start, count) refl
    skip_rounds (suc k) n i zero s e r at = absurd (omega arith)
    skip_rounds (suc k) n i (suc t) s e r at =
        ap
          (λ (x : Enumeration).
            enumerate_from o options raw_packets targets ports cancelled arrivals shuffle (i + 1) t
              x)
          (round_skips i s (omega arith) at)
        ∙ skip_rounds k n (i + 1) t s (omega arith) (omega arith) at

  probe_host-resume_cfg :
      (done : Bool) (ip : Text) (p : Port) (s : Enumeration)
      → (probe_host o options raw_packets done ip p s).resume_cfg ≡ s.resume_cfg
  unfolding probe_host start_probe
  probe_host-resume_cfg done ip p s = elim (Bool-cases (has_skipped ip s.results)) [
    | inl e ↦ rw e refl
    | inr e ↦ rw e (elim (Bool-cases (threshold_reached o options ip s.results)) [
      | inl t ↦ rw t refl
      | inr t ↦ rw t refl
    ])
  ]

  perform-ahead :
      (done : Bool) (i : ℕ) (ip : Text) (found : Option Port) (s : Enumeration)
      → lt_int (pos i) s.resume_cfg.index ≡ false
      → lt_int (pos (i + 1)) (perform done i ip found s).resume_cfg.index ≡ false
  perform-ahead done i ip none s h = ground (arith, h)
  perform-ahead done i ip (some p) s h = elim (Bool-cases (excluded o options ip)) [
    | inl e ↦ rw e (ground (arith, h))
    | inr e ↦
        rw
          (
            e,
            probe_host-resume_cfg done ip p
                (record s { resume_cfg = record (s.resume_cfg) { index = pos i } }),
          )
          (ground arith)
  ]

  enumerate_at-performs :
      (done : Bool) (i xxx : ℕ) (s : Enumeration)
      → lt_int (pos i) s.resume_cfg.index ≡ false
      → enumerate_at o options raw_packets targets ports done i xxx s
        ≡ perform done i
            (pick_ip o.mapcidr o.v6_string targets (pos (xxx / length ports)))
            (get_elem? ports (xxx % length ports))
            s
  unfolding enumerate_at resume_at
  enumerate_at-performs done i xxx s h =
      let ip = pick_ip o.mapcidr o.v6_string targets (pos (xxx / length ports)) in
      elim (Option-cases (get_elem? ports (xxx % length ports))) [
        | inl e ↦
            rw e
              (elim (Bool-cases (excluded o options ip)) [ inl x ↦ rw x refl | inr x ↦ rw x refl ])
        | inr (p, e) ↦ rw (e, h) refl
      ]

  -- Rounds that are not behind the saved index are done.
  enumerate_from-performs :
      (cancelled : ℕ → Bool) (arrivals : ℕ → List (Text × Port)) (shuffle : ℕ → ℕ) (i n : ℕ)
      (s : Enumeration)
      → lt_int (pos i) s.resume_cfg.index ≡ false
      → enumerate_from o options raw_packets targets ports cancelled arrivals shuffle i n s
        ≡ perform_from cancelled arrivals shuffle i n s
  unfolding enumerate_from perform_from
  enumerate_from-performs cancelled arrivals shuffle i zero s h = refl
  enumerate_from-performs cancelled arrivals shuffle i (suc n) s h =
      let ready = record s { results = receive (arrivals i) s.results } in
      ap
        (λ (x : Enumeration).
          enumerate_from o options raw_packets targets ports cancelled arrivals shuffle (i + 1) n x)
        (enumerate_at-performs (cancelled i) i (shuffle i) ready h)
      ∙ enumerate_from-performs cancelled arrivals shuffle (i + 1) n _
          (perform-ahead (cancelled i) i _ _ ready h)

  -- From a saved index `m`, with nothing found before its round, the scan skips every round before `m`
  -- without a trace and does the round `m` and every round behind it.
  pub enumerate_from-resumes :
      (cancelled : ℕ → Bool) (arrivals : ℕ → List (Text × Port)) (shuffle : ℕ → ℕ) (m : ℕ)
      → ((i : ℕ) → i < m → arrivals i ≡ [])
      → (n : ℕ) (s : Enumeration) → s.resume_cfg.index ≡ pos m
      → enumerate_from o options raw_packets targets ports cancelled arrivals shuffle 0 (m + n) s
        ≡ perform_from cancelled arrivals shuffle m n s
  enumerate_from-resumes cancelled arrivals shuffle m quiet n s at =
      skip_rounds cancelled arrivals shuffle m quiet m n 0 (m + n) s (omega arith) refl at
      ∙ enumerate_from-performs cancelled arrivals shuffle m n s (rw at (ground arith))
