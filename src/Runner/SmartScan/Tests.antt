-- ===== src/Runner/SmartScan/Tests.antt =====
-- Runs of the loop over the targets of one port.
use naabu.Prelude.{
  ℕ, ◌+◌, ◌-◌, ◌^◌, ◌==◌, if◌then◌else◌, arith, ◌≡◌, refl, Bool, true, false, List, [], ◌∷◌, some,
  ◌=?◌, not, length,
}
use naabu.Prelude.Int.{pos, ◌-ℤ◌, ◌+ℤ◌, to_int64}
use naabu.Prelude.Text.{Text, codes, text_eq}
use naabu.Net.Protocol.{tcp}
use naabu.Net.Port.{Port}
use naabu.Net.Cidr.{IpNet, Mapcidr, v4, v6}
use naabu.Results.{new_result}
use naabu.Runner.Options.{Options, no_options}
use naabu.Runner.Ports.{bare}
use naabu.Runner.FastSend.Ipv4.{format_ipv4}
use naabu.Runner.FastSend.Index.{
  build_target_index, pick_ip, pick_subnet_ip, ip_string, span, IsTarget,
}
use naabu.Runner.FastSend.Samples.{blocks, four, two, new_sender, new_sender-IsReady}
use naabu.Runner.SmartScan.{
  enqueue_tcp, Outside, ScanState, scan_index, scan_single_port_on_targets,
}
use naabu.Runner.SmartScan.Sent.{
  IsSending, scan_single_port_on_targets-IsSending, scan_index-unchecked,
}

-- 10.0.0.2 is excluded, 10.0.0.3 is of a CDN, and the order is kept.
abbrev outside : Outside
outside = record {
  mapcidr = blocks;
  v6_string = λ n. codes "::1";
  validate_address = some (λ ip. not (ip =? codes "10.0.0.2"));
  cdn_check = λ ip. some (ip =? codes "10.0.0.3");
  shuffle = λ i. i;
}

abbrev web : Port
web = bare tcp (pos 80)

abbrev start : ScanState
start = record { results = new_result; sender = some new_sender; probes = [] }

abbrev never : ℕ → Bool
never i = false

abbrev nothing : ℕ → List (Text × Port)
nothing i = []

abbrev no_cdn : Options
no_cdn = record no_options { exclude_cdn = true }

scan_single_port_on_targets-IsSending_example : IsSending 3232235527 (
    scan_single_port_on_targets outside no_options
      (four ∷ two ∷ [])
      (build_target_index blocks (four ∷ two ∷ []))
      web
      true
      never
      nothing
      6
      start)
scan_single_port_on_targets-IsSending_example =
    scan_single_port_on_targets-IsSending outside no_options 3232235527 (four ∷ two ∷ [])
      (build_target_index blocks (four ∷ two ∷ [])) web true never nothing 6 start
      (new_sender-IsReady, tt)

-- Six addresses, and one of them is excluded.
five_probes :
    length
      (scan_single_port_on_targets outside no_options
        (four ∷ two ∷ [])
        (build_target_index blocks (four ∷ two ∷ []))
        web
        true
        never
        nothing
        6
        start).probes
    ≡ 5
unfolding scan_single_port_on_targets build_target_index format_ipv4 ◌-ℤ◌
five_probes = refl

-- The package for blocks of addresses of both families.
abbrev both_blocks : Mapcidr
both_blocks = record {
  address_count = λ n. elim n.ip [ v4 a ↦ 2 ^ (32 - n.ones) | v6 a ↦ 2 ^ (128 - n.ones) ];
  ip_to_integer = λ ip. elim ip [ v4 n ↦ some (n, 32) | v6 n ↦ some (n, 128) ];
  integer_to_ip = λ n bits. if bits == 32 then v4 n else v6 n;
  ip_to_integer_v4 = λ n. refl;
  integer_to_ip_v4 = λ n h. refl;
}

abbrev outside6 : Outside
outside6 = record outside { mapcidr = both_blocks }

-- ::2 and ::3
abbrev v6_net : IpNet
v6_net = record { ip = v6 2; ones = 127 }

v6_net-IsTarget : IsTarget both_blocks v6_net
v6_net-IsTarget = record { some_address = omega arith; counted = omega arith; fits = λ base e. cc }

four-IsTarget : IsTarget both_blocks four
four-IsTarget = record {
  some_address = omega arith;
  counted = omega arith;
  fits = λ base e. ground arith;
}

has_name :
    (pick_ip both_blocks
        (λ n. codes "::1")
        (four ∷ v6_net ∷ [])
        (pos (span both_blocks (four ∷ []) + 1))
      =? [])
    ≡ false
unfolding pick_ip pick_subnet_ip ip_string to_int64 ◌-ℤ◌ ◌+ℤ◌
has_name = refl

scan_index-unchecked_example :
    scan_index
      (record outside6 { validate_address = some (λ ip. false); cdn_check = λ ip. some true })
      no_cdn
      (four ∷ v6_net ∷ [])
      (build_target_index both_blocks (four ∷ v6_net ∷ []))
      web
      true
      (pos (span both_blocks (four ∷ []) + 1))
      start
    ≡ record start {
      probes =
          enqueue_tcp
            (pick_ip both_blocks
              (λ n. codes "::1")
              (four ∷ v6_net ∷ [])
              (pos (span both_blocks (four ∷ []) + 1)))
            web
          ∷ [];
    }
scan_index-unchecked_example =
    scan_index-unchecked outside6 no_cdn (four ∷ []) [] v6_net 2 1 true new_sender web start refl
      refl (four-IsTarget, tt) v6_net-IsTarget refl (omega arith) has_name
