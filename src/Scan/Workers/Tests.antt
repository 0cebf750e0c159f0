-- ===== src/Scan/Workers/Tests.antt =====
-- Runs of the workers.
use naabu.Prelude.{◌≡◌, refl, Bool, true, false, ◌||◌, List, [], ◌∷◌, ◌=?◌}
use naabu.Prelude.Int.{pos}
use naabu.Prelude.Text.{Text, codes, text_eq}
use naabu.Net.Protocol.{tcp}
use naabu.Net.Port.{Port}
use naabu.Results.{new_result, ip_has_port}
use naabu.Runner.Ports.{bare}
use naabu.Scan.Workers.{PkgResult, Scanner, Event, set_phase, init, host_discovery, scan, run}
use naabu.Scan.Workers
use naabu.Scan.Workers.Answers.{is_answered, ip_has_port-run}

-- The only target.
abbrev only : Text → Text → Text → Text → Bool
only with_port4 with_port6 ip4 ip6 = ip4 =? codes "10.0.0.1"

abbrev web : Port
web = bare tcp (pos 80)

abbrev answer : Text → Event
answer ip = Workers.tcp (record { ipv4 = ip; ipv6 = []; port = web })

abbrev start : Scanner
start = record {
  phase = init;
  stream = false;
  scan_results = new_result;
  host_discovery_results = new_result;
  received = [];
}

-- An answer during the discovery, one of no target, and one that counts.
abbrev events : List Event
events =
    set_phase host_discovery
    ∷ answer (codes "10.0.0.1")
    ∷ set_phase scan
    ∷ answer (codes "10.0.0.9")
    ∷ answer (codes "10.0.0.1")
    ∷ []

port_found : ip_has_port (codes "10.0.0.1") web (run only true events start).scan_results ≡ true
unfolding run ip_has_port
port_found = refl

other_host : ip_has_port (codes "10.0.0.9") web (run only true events start).scan_results ≡ false
unfolding run ip_has_port
other_host = refl

ip_has_port-run_example :
    ip_has_port (codes "10.0.0.1") web (run only true events start).scan_results ≡ (
      is_answered only true (codes "10.0.0.1") web events start
      || ip_has_port (codes "10.0.0.1") web start.scan_results)
ip_has_port-run_example = ip_has_port-run only true events start (codes "10.0.0.1") web
