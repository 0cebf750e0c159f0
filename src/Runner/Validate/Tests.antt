-- ===== src/Runner/Validate/Tests.antt =====
-- Runs of the checks of the options.
use naabu.Prelude.{◌≡◌, refl, true, false, not, ◌&&◌, List, [], ◌∷◌, none, some, length, leb}
use naabu.Prelude.Int.{pos}
use naabu.Prelude.Text.{codes}
use naabu.Net.Protocol.{tcp}
use naabu.Net.Port.{Port}
use naabu.Net.HostPort.{split_host_port}
use naabu.Runner.Ports.{bare}
use naabu.Runner.Options.{Options, no_options, has_probes, should_discover_hosts}
use naabu.Runner.Validate.{
  System, pass, fail, smart_scan_in_stream, validate_options, configure_host_discovery,
}
use naabu.Runner.Validate.Valid.{
  Passes, IsValid, validate_options-IsValid, configure_host_discovery-has_probes,
}

-- Root on a machine with a router and no files.
abbrev root : System
root = record {
  args = 0;
  is_privileged = true;
  is_windows = false;
  has_interface = λ name. false;
  file_exists = λ name. false;
  read_file = λ name. none;
  is_ip = λ text. false;
  contains_items = λ items some_items. true;
  has_router = true;
}

abbrev syn_options : Options
syn_options = record no_options {
  stdin = true;
  rate = pos 1000;
  scan_type = codes "s";
  source_ip = codes "10.0.0.1:4000";
  dns_order = codes "l";
}

validated :
    validate_options root syn_options
    ≡ pass (record syn_options {
      source_ip = codes "10.0.0.1";
      source_port = codes "4000";
      warm_up_time = pos 2;
    })
unfolding validate_options split_host_port has_probes
validated = refl

refused :
    validate_options root (record syn_options { smart_scan = true; passive = true })
    ≡ fail smart_scan_in_stream (record syn_options {
      source_ip = codes "10.0.0.1";
      source_port = codes "4000";
      warm_up_time = pos 2;
      smart_scan = true;
      passive = true;
      stream = true;
    })
unfolding validate_options split_host_port has_probes
refused = refl

bracketed : split_host_port (codes "[::1]:80") ≡ some (codes "::1", codes "80")
unfolding split_host_port
bracketed = refl

unbracketed : split_host_port (codes "::1:80") ≡ none
unfolding split_host_port
unbracketed = refl

validate_options-IsValid_example : Passes (IsValid root) (validate_options root syn_options)
validate_options-IsValid_example = validate_options-IsValid root syn_options

abbrev three_ports : List Port
three_ports = bare tcp (pos 1) ∷ bare tcp (pos 2) ∷ bare tcp (pos 3) ∷ []

abbrev discovering : Options
discovering = record syn_options { with_host_discovery = true }

discovers :
    should_discover_hosts true (configure_host_discovery root three_ports discovering) ≡ true
unfolding should_discover_hosts configure_host_discovery
discovers = refl

configure_host_discovery-has_probes_example :
    (has_probes (configure_host_discovery root three_ports discovering) ≡ true)
    × ((leb (length three_ports) 2 && not discovering.only_host_discovery) ≡ false)
configure_host_discovery-has_probes_example =
    configure_host_discovery-has_probes root three_ports discovering discovers
