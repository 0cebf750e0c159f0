-- ===== src/Runner/Verify/Tests.antt =====
-- Results that are verified, and the probes of a host.
use naabu.Prelude.{◌≡◌, refl, true, false, [], ◌∷◌, Option, none, ◌=?◌, Bool}
use naabu.Prelude.Int.{pos}
use naabu.Prelude.Text.{Text, codes, text_eq}
use naabu.Net.Protocol.{tcp}
use naabu.Results.{Result, new_result, add_port, ip_has_port, get_ips_ports}
use naabu.Runner.Options.{no_options}
use naabu.Runner.Ports.{bare}
use naabu.Runner.Verify.{Dial, connect_verification, handle_host_discovery, icmp_echo_request, arp}
use naabu.Runner.Verify.Verified.{confirmed, ip_has_port-connect_verification}

-- Only port 80 takes connections.
abbrev web_only : Dial
web_only network address = address =? codes "10.0.0.1:80"

abbrev public : Text → Bool
public ip = false

abbrev no_mac : Text → Option Text
no_mac ip = none

abbrev open_ports : Result
open_ports =
    add_port (codes "10.0.0.1") (bare tcp (pos 22))
      (add_port (codes "10.0.0.1") (bare tcp (pos 80)) new_result)

ip_has_port-connect_verification_example :
    ip_has_port
      (codes "10.0.0.1")
      (bare tcp (pos 22))
      (connect_verification web_only public no_mac open_ports)
    ≡ confirmed web_only (get_ips_ports public no_mac open_ports) (codes "10.0.0.1") (pos 22)
ip_has_port-connect_verification_example =
    ip_has_port-connect_verification web_only public no_mac open_ports (codes "10.0.0.1")
      (bare tcp (pos 22))

two_probes :
    handle_host_discovery
      (record no_options { icmp_echo_request_probe = true; arp_ping = true })
      (codes "10.0.0.1")
    ≡ icmp_echo_request (codes "10.0.0.1") ∷ arp (codes "10.0.0.1") ∷ []
unfolding handle_host_discovery
two_probes = refl
