-- ===== src/Runner/SmartScan/Sent.antt =====
-- The packets that the loop over the targets sends itself.
use naabu.Prelude.{
  ℕ, ◌+◌, ◌<◌, ◌++◌, ◌∷◌, map, map-append, ◌≡◌, refl, ap, ◌∙◌, Bool, true, false, List, [], Option,
  none, some, ◌=?◌, inl, inr, Bool-cases, All,
}
use naabu.Prelude.Int.{ℤ, pos, to_uint16, to_uint16_bound}
use naabu.Prelude.Text.{Text, text_eq}
use naabu.Net.Protocol.{tcp, udp, protocol_eq}
use naabu.Net.Port.{Port}
use naabu.Net.Cidr.{IpNet, Mapcidr, v6}
use naabu.Results.{Result}
use naabu.Runner.Options.{Options}
use naabu.Runner.FastSend.Ipv4.{Ipv4, IsBytes}
use naabu.Runner.FastSend.Index.{
  IndexEntry, TargetIndex, IsTarget, span, build_entry, build_target_index, pick_from, pick_from-v6,
  pick_from-skip, build_target_index-entries, pick_ipv4, pick_ip,
}
use naabu.Runner.FastSend.Index.Bytes.{pick_ipv4-IsBytes}
use naabu.Runner.FastSend.Sender.{SynSender}
use naabu.Runner.FastSend.Sender.Checksum.{IsReady, Verifies, send-Verifies}
use naabu.Runner.SmartScan.{
  Outside, Probe, syn, enqueue_tcp, enqueue_udp, connect, ScanState, admit, standard_probe,
  standard_checked, standard, fallback, fast_checked, fast, dispatch, scan_index,
  scan_single_port_on_targets,
}
use naabu.Runner.SmartScan.Checked.{scan_from-keeps}

-- A packet of the loop passes the checksum test at its receiver. The other probes are not packets yet.
abbrev pub IsSound : ℕ → Probe → Type 0
IsSound src4 (syn dst pkt) = Verifies src4 dst pkt
IsSound src4 (enqueue_tcp ip p) = Unit {0}
IsSound src4 (enqueue_udp ip p) = Unit {0}
IsSound src4 (connect ip p) = Unit {0}

abbrev pub IsArmed : ℕ → Option SynSender → Type 0
IsArmed src4 none = Unit {0}
IsArmed src4 (some sender) = IsReady src4 sender

-- The sender, if there is one, is ready, and what was sent is sound.
abbrev pub IsSending : ℕ → ScanState → Type 0
IsSending src4 s = IsArmed src4 s.sender × All (IsSound src4) s.probes

module _ (o : Outside) (options : Options) (src4 : ℕ) (targets : List IpNet) (tgt_idx : TargetIndex)
    (p : Port) (raw_packets : Bool) where
  standard_probe-IsSound :
      (ip : Text) (probes : List Probe)
      → All (IsSound src4) probes
      → All (IsSound src4) (standard_probe o options targets tgt_idx p raw_packets ip probes)
  unfolding standard_probe
  standard_probe-IsSound ip probes h = elim (Bool-cases raw_packets) [
    | inr raw ↦ rw raw (tt, h)
    | inl raw ↦ rw raw (elim (Bool-cases (p.protocol =? tcp)) [
      | inl t ↦ rw t (tt, h)
      | inr t ↦
          rw t (elim (Bool-cases (p.protocol =? udp)) [ inl u ↦ rw u (tt, h) | inr u ↦ rw u h ])
    ])
  ]

  standard_checked-IsSending :
      (ip : Text) (tested : Bool × Result) (s : ScanState)
      → IsSending src4 s
      → IsSending src4 (standard_checked o options targets tgt_idx p raw_packets ip tested s)
  unfolding standard_checked
  standard_checked-IsSending ip (false, r) s h = h
  standard_checked-IsSending ip (true, r) s (armed, sound) =
      (armed, standard_probe-IsSound ip s.probes sound)

  standard-IsSending :
      (ip : Text) (s : ScanState)
      → IsSending src4 s
      → IsSending src4 (standard o options targets tgt_idx p raw_packets ip s)
  unfolding standard
  standard-IsSending ip s h = elim (Bool-cases (ip =? [])) [
    | inl e ↦ rw e h
    | inr e ↦ rw e (standard_checked-IsSending ip (admit o options ip p s.results) s h)
  ]

  fallback-IsSending :
      (ip : Text) (s : ScanState)
      → IsSending src4 s
      → IsSending src4 (fallback o options targets tgt_idx p raw_packets ip s)
  unfolding fallback
  fallback-IsSending ip s (armed, sound) = elim (Bool-cases (ip =? [])) [
    | inl e ↦ rw e (armed, sound)
    | inr e ↦ rw e (armed, (tt, sound))
  ]

  fast_checked-IsSending :
      (sender : SynSender) (dst : Ipv4) (ip : Text) (tested : Bool × Result) (s : ScanState)
      → IsReady src4 sender
      → IsBytes dst
      → IsSending src4 s
      → IsSending src4 (fast_checked o options targets tgt_idx p raw_packets sender dst ip tested s)
  unfolding fast_checked
  fast_checked-IsSending sender dst ip (false, r) s ready bytes h = h
  fast_checked-IsSending sender dst ip (true, r) s ready bytes (armed, sound) =
      let (fields, verifies, next) =
        send-Verifies src4 sender dst (to_uint16 p.port) ready bytes (to_uint16_bound p.port) in
      (next, (verifies, sound))

  fast-IsSending :
      (sender : SynSender) (j : ℤ) (found : Option (Ipv4 × Text)) (s : ScanState)
      → IsReady src4 sender
      → pick_ipv4 tgt_idx j ≡ found
      → IsSending src4 s
      → IsSending src4 (fast o options targets tgt_idx p raw_packets sender j found s)
  unfolding fast
  fast-IsSending sender j none s ready e h =
      fallback-IsSending (pick_ip o.mapcidr o.v6_string targets j) s h
  fast-IsSending sender j (some (dst, ip)) s ready e h =
      fast_checked-IsSending sender dst ip (admit o options ip p s.results) s ready
        (pick_ipv4-IsBytes tgt_idx j e) h

  dispatch-IsSending :
      (sender : Option SynSender) (j : ℤ) (s : ScanState)
      → IsArmed src4 sender
      → IsSending src4 s
      → IsSending src4 (dispatch o options targets tgt_idx p raw_packets sender j s)
  unfolding dispatch
  dispatch-IsSending none j s armed h =
      standard-IsSending (pick_ip o.mapcidr o.v6_string targets j) s h
  dispatch-IsSending (some sender) j s armed h = elim (Bool-cases (p.protocol =? tcp)) [
    | inl t ↦ rw t (fast-IsSending sender j (pick_ipv4 tgt_idx j) s armed refl h)
    | inr t ↦ rw t (standard-IsSending (pick_ip o.mapcidr o.v6_string targets j) s h)
  ]

  scan_index-IsSending :
      (j : ℤ) (s : ScanState)
      → IsSending src4 s
      → IsSending src4 (scan_index o options targets tgt_idx p raw_packets j s)
  unfolding scan_index
  scan_index-IsSending j s h = dispatch-IsSending s.sender j s h.0 h

  -- Whatever the targets, the port and the arrivals: from a ready sender, every packet that the loop
  -- sends passes the checksum test at its receiver, and the sender stays ready.
  pub scan_single_port_on_targets-IsSending :
      (cancelled : ℕ → Bool) (arrivals : ℕ → List (Text × Port)) (targets_count : ℕ) (s : ScanState)
      → IsSending src4 s
      → IsSending src4 (
          scan_single_port_on_targets o options targets tgt_idx p raw_packets cancelled arrivals
            targets_count s)
  unfolding scan_single_port_on_targets
  scan_single_port_on_targets-IsSending cancelled arrivals targets_count s h =
      scan_from-keeps o options targets tgt_idx p raw_packets (IsSending src4) (λ found t k. k)
        scan_index-IsSending cancelled arrivals 0 _ s h

-- Wherever an index of an IPv6 target stands, the fast index has nothing.
pick_ipv4-v6 :
    (lib : Mapcidr) (before after : List IpNet) (t : IpNet) (n i : ℕ)
    → All (IsTarget lib) before
    → IsTarget lib t
    → t.ip ≡ v6 n
    → i < lib.address_count t
    → pick_ipv4 (build_target_index lib (before ++ t ∷ after)) (pos (span lib before + i)) ≡ none
unfolding pick_ipv4
pick_ipv4-v6 lib before after t n i hb ht is_v6 lt =
    ap (λ (es : List IndexEntry). pick_from es (pos (span lib before + i)))
      (build_target_index-entries lib (before ++ t ∷ after)
        ∙ map-append (build_entry lib) before (t ∷ after))
    ∙ pick_from-skip lib before (map (build_entry lib) (t ∷ after)) i hb
    ∙ pick_from-v6 lib t ht (map (build_entry lib) after) i n is_v6 lt

dispatch-fallback :
    (o : Outside) (options : Options) (targets : List IpNet) (tgt_idx : TargetIndex)
    (raw_packets : Bool) (j : ℤ) (sender : SynSender) (p : Port) (s : ScanState)
    → p.protocol ≡ tcp
    → pick_ipv4 tgt_idx j ≡ none
    → (pick_ip o.mapcidr o.v6_string targets j =? []) ≡ false
    → dispatch o options targets tgt_idx p raw_packets (some sender) j s
      ≡ record s { probes = enqueue_tcp (pick_ip o.mapcidr o.v6_string targets j) p ∷ s.probes }
unfolding dispatch fast fallback
dispatch-fallback o options targets tgt_idx raw_packets j sender p s is_tcp missing named =
    rw ((protocol_eq.same_iff p.protocol tcp).1 is_tcp, missing, named) refl

-- With a fast sender and a TCP port, a round for an index of an IPv6 target enqueues the port at the
-- address of this index, even where the exclusion list refuses every address and the CDN check says of
-- every address that it is one of a CDN, whatever the options and the results are.
pub scan_index-unchecked :
    (o : Outside) (options : Options) (before after : List IpNet) (t : IpNet) (n i : ℕ)
    (raw_packets : Bool) (sender : SynSender) (p : Port) (s : ScanState)
    → s.sender ≡ some sender
    → p.protocol ≡ tcp
    → All (IsTarget o.mapcidr) before
    → IsTarget o.mapcidr t
    → t.ip ≡ v6 n
    → i < o.mapcidr.address_count t
    → (pick_ip o.mapcidr o.v6_string (before ++ t ∷ after) (pos (span o.mapcidr before + i)) =? [])
      ≡ false
    → scan_index
        (record o { validate_address = some (λ ip. false); cdn_check = λ ip. some true })
        options
        (before ++ t ∷ after)
        (build_target_index o.mapcidr (before ++ t ∷ after))
        p
        raw_packets
        (pos (span o.mapcidr before + i))
        s
      ≡ record s {
        probes =
            enqueue_tcp
              (pick_ip o.mapcidr o.v6_string
                (before ++ t ∷ after)
                (pos (span o.mapcidr before + i)))
              p
            ∷ s.probes;
      }
unfolding scan_index
scan_index-unchecked o options before after t n i raw_packets sender p s has is_tcp hb ht is_v6 lt
      named =
    let strict : Outside = record o {
      validate_address = some (λ ip. false);
      cdn_check = λ ip. some true;
    } in
    let targets = before ++ t ∷ after in
    let idx = build_target_index o.mapcidr targets in
    let j : ℤ = pos (span o.mapcidr before + i) in
    ap (λ (x : Option SynSender). dispatch strict options targets idx p raw_packets x j s) has
    ∙ dispatch-fallback strict options targets idx raw_packets j sender p s is_tcp
        (pick_ipv4-v6 o.mapcidr before after t n i hb ht is_v6 lt) named
