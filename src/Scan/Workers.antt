-- ===== src/Scan/Workers.antt =====
-- pkg/scan/scan.go: the phases of a scan, and the workers that take the responses of the hosts.
mod Tests
pub mod Answers
use naabu.Prelude.{ℕ, ◌≡◌, Bool, true, false, not, ◌&&◌, ◌||◌, List, [], ◌∷◌, if◌then◌else◌, ◌=?◌}
use naabu.Prelude.Text.{Text, text_eq}
use naabu.Prelude.Decimal.{itoa}
use naabu.Net.Port
use naabu.Net.Port.{Port}
use naabu.Net.HostPort.{join_host_port}
use naabu.Results.{Result, add_ip, add_port}

pub data State : Type 0 where
  init host_discovery scan done guard : State

-- `phase.Is`
unfoldable pub is : State → State → Bool
is init init = true
is host_discovery host_discovery = true
is scan scan = true
is done done = true
is guard guard = true
is _ _ = false

-- A response of a host: the address in one of the families, the other one empty.
pub record PkgResult : Type 0 where
  pub ipv4 : Text
  pub ipv6 : Text
  pub port : Port

-- `received` are the calls of `OnReceive`, with the latest first.
pub record Scanner : Type 0 where
  pub phase : State
  pub stream : Bool
  pub scan_results : Result
  pub host_discovery_results : Result
  pub received : List (Text × Port)

unfoldable pub add_ip_given : Text → Result → Result
unfolding add_ip
add_ip_given ip r = if ip =? [] then r else add_ip ip r

unfoldable pub add_port_given : Text → Port → Result → Result
unfolding add_port
add_port_given ip p r = if ip =? [] then r else add_port ip p r

unfoldable pub receive_given : Text → Port → List (Text × Port) → List (Text × Port)
receive_given ip p received = if ip =? [] then received else (ip, p) ∷ received

-- What the workers and the runner do, one after the other.
pub data Event : Type 0 where
  icmp : Text → Text → Event
  tcp udp : PkgResult → Event
  set_phase : State → Event

-- `contains_any` is that of the set of targets, and `on_receive` tells whether there is a callback.
module _ (contains_any : Text → Text → Text → Text → Bool) (on_receive : Bool) where
  unfoldable pub in_range : PkgResult → Bool
  unfolding join_host_port
  in_range ip =
      contains_any (join_host_port ip.ipv4 (Port.string ip.port))
        (join_host_port ip.ipv6 (Port.string ip.port)) ip.ipv4 ip.ipv6

  -- `ICMPResultWorker`
  unfoldable pub icmp_result : Text → Text → Scanner → Scanner
  unfolding add_ip_given is
  icmp_result ipv4 ipv6 s =
      if is s.phase host_discovery
      then record s {
        host_discovery_results = add_ip_given ipv6 (add_ip_given ipv4 s.host_discovery_results);
      }
      else s

  -- What both other workers do with a response of a target.
  unfoldable pub store : PkgResult → Scanner → Scanner
  unfolding add_ip_given add_port_given is
  store ip s =
      if is s.phase host_discovery
      then record s {
        host_discovery_results =
            add_ip_given ip.ipv6 (add_ip_given ip.ipv4 s.host_discovery_results);
      }
      else if is s.phase scan || s.stream
      then record s {
        scan_results =
            add_port_given ip.ipv6 ip.port (add_port_given ip.ipv4 ip.port s.scan_results);
      }
      else s

  -- The call of `OnReceive` in `TCPResultWorker`
  unfoldable pub notify : PkgResult → Scanner → Scanner
  unfolding receive_given
  notify ip s =
      if on_receive
      then record s {
        received = receive_given ip.ipv6 ip.port (receive_given ip.ipv4 ip.port s.received);
      }
      else s

  -- `TCPResultWorker` and `UDPResultWorker`
  unfoldable pub tcp_result : PkgResult → Scanner → Scanner
  unfolding store notify in_range
  tcp_result ip s = if in_range ip then store ip (notify ip s) else s

  unfoldable pub udp_result : PkgResult → Scanner → Scanner
  unfolding store in_range
  udp_result ip s = if in_range ip then store ip s else s

  unfoldable pub step : Event → Scanner → Scanner
  unfolding icmp_result tcp_result udp_result
  step (icmp ipv4 ipv6) s = icmp_result ipv4 ipv6 s
  step (tcp ip) s = tcp_result ip s
  step (udp ip) s = udp_result ip s
  step (set_phase phase) s = record s { phase = phase }

  unfoldable pub run : List Event → Scanner → Scanner
  unfolding step
  run [] s = s
  run (e ∷ events) s = run events (step e s)
