-- ===== src/Runner/Verify/Verified.antt =====
-- pkg/runner/runner.go: what is left of the results after `ConnectVerification`.
use naabu.Prelude.{
  ◌≡◌, refl, ◌∙◌, inl, inr, arith, Bool, true, false, not, ◌&&◌, ◌||◌, List, [], ◌∷◌, Option, map,
  elem, lookup, ◌=?◌, Bool-cases,
}
use naabu.Prelude.Int.{ℤ, int_eq}
use naabu.Prelude.Text.{Text, text_eq}
use naabu.Prelude.Decimal.{itoa}
use naabu.Net.Protocol
use naabu.Net.Port.{Port}
use naabu.Net.HostPort.{join_host_port}
use naabu.Results.{
  Result, HostResult, ConfidenceLevel, normal, low, new_result, set_ports, ip_has_port,
  get_ips_ports,
}
use naabu.Results.Queries.{ip_has_port-set_ports}
use naabu.Runner.Verify.{Dial, connect_verify, is_low, verify_hosts, connect_verification}

-- A port of this number in the list takes a connection of its protocol at the address.
abbrev pub takes_connection : Dial → Text → List Port → ℤ → Bool
takes_connection dial host [] n = false
takes_connection dial host (p ∷ ps) n =
    (p.port =? n) && dial (Protocol.string p.protocol) (join_host_port host (itoa p.port))
    || takes_connection dial host ps n

abbrev pub is_normal : ConfidenceLevel → Bool
is_normal normal = true
is_normal low = false

-- Some host of normal confidence with the address has a port of this number that takes a connection.
unfoldable pub confirmed : Dial → List HostResult → Text → ℤ → Bool
confirmed dial [] ip n = false
confirmed dial (h ∷ hosts) ip n =
    is_normal h.confidence && (h.ip =? ip) && takes_connection dial h.ip h.ports n
    || confirmed dial hosts ip n

is_low_lem : (c : ConfidenceLevel) → is_normal c ≡ not (is_low c)
is_low_lem normal = refl
is_low_lem low = refl

elem-connect_verify :
    (dial : Dial) (host : Text) (ps : List Port) (n : ℤ)
    → elem n (map (λ (p : Port). p.port) (connect_verify dial host ps))
      ≡ takes_connection dial host ps n
unfolding connect_verify
elem-connect_verify dial host [] n = refl
elem-connect_verify dial host (p ∷ ps) n =
    ground (
      arith,
      elem-connect_verify dial host ps n,
      int_eq.same_iff p.port n,
      int_eq.same_iff n p.port,
    )

verify_hosts-exact :
    (dial : Dial) (hosts : List HostResult) (ip : Text) (q : Port) (r : Result)
    → ip_has_port ip q (verify_hosts dial hosts r)
      ≡ (confirmed dial hosts ip q.port || ip_has_port ip q r)
unfolding verify_hosts confirmed
verify_hosts-exact dial [] ip q r = refl
verify_hosts-exact dial (h ∷ hosts) ip q r = elim (Bool-cases (is_low h.confidence)) [
  | inl refused ↦ rw (is_low_lem h.confidence, refused) (verify_hosts-exact dial hosts ip q r)
  | inr kept ↦
      rw (is_low_lem h.confidence, kept)
        (verify_hosts-exact dial hosts ip q (set_ports h.ip (connect_verify dial h.ip h.ports) r)
          ∙ ground (
            arith,
            ip_has_port-set_ports h.ip ip (connect_verify dial h.ip h.ports) q r,
            elem-connect_verify dial h.ip h.ports q.port,
          ))
]

none_found : (ip : Text) (q : Port) → ip_has_port ip q new_result ≡ false
unfolding ip_has_port lookup
none_found ip q = refl

-- After ConnectVerification a host has a port exactly if a host of the results with this address, and
-- of normal confidence, has a port of its number for which a connection of the port's protocol to the
-- address and this number is made.
pub ip_has_port-connect_verification :
    (dial : Dial) (is_private_ip : Text → Bool) (get_mac_address : Text → Option Text)
    (results : Result) (ip : Text) (q : Port)
    → ip_has_port ip q (connect_verification dial is_private_ip get_mac_address results)
      ≡ confirmed dial (get_ips_ports is_private_ip get_mac_address results) ip q.port
unfolding connect_verification
ip_has_port-connect_verification dial is_private_ip get_mac_address results ip q = ground (
  arith,
  verify_hosts-exact dial (get_ips_ports is_private_ip get_mac_address results) ip q new_result,
  none_found ip q,
)
