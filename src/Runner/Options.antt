-- ===== src/Runner/Options.antt =====
-- pkg/runner/options.go: the options of a run but the callbacks, the network policy and the resume
-- point, and the questions about them.
use naabu.Prelude.{
  Bool, false, not, ◌&&◌, ◌||◌, List, [], Option, none, if◌then◌else◌, ltb, length, ◌=?◌,
}
use naabu.Prelude.Int.{ℤ, pos, lt_int}
use naabu.Prelude.Text.{Text, codes, text_eq}

pub record Options : Type 0 where
  pub verbose : Bool
  pub no_color : Bool
  pub json : Bool
  pub silent : Bool
  pub disable_stdout : Bool
  pub stdin : Bool
  pub verify : Bool
  pub version : Bool
  pub ping : Bool
  pub debug : Bool
  pub exclude_cdn : Bool
  pub nmap : Bool
  pub interfaces_list : Bool
  pub retries : ℤ
  pub rate : ℤ
  pub timeout : ℤ
  pub warm_up_time : ℤ
  pub host : Option (List Text)
  pub hosts_file : Text
  pub output : Text
  pub list_output_fields : Bool
  pub exclude_output_fields : List Text
  pub ports : Text
  pub ports_file : List Text
  pub exclude_ports : List Text
  pub exclude_ips : Text
  pub exclude_ips_file : Text
  pub top_ports : Text
  pub port_threshold : ℤ
  pub source_ip : Text
  pub source_port : Text
  pub interface : Text
  pub config_file : Text
  pub nmap_cli : Text
  pub threads : ℤ
  pub enable_progress_bar : Bool
  pub stats_interval : ℤ
  pub scan_all_ips : Bool
  pub ip_version : List Text
  pub scan_type : Text
  pub connect_payload : Text
  pub proxy : Text
  pub proxy_auth : Text
  pub resolvers : Text
  pub base_resolvers : List Text
  pub dns_order : Text
  pub system_resolver : Bool
  pub csv : Bool
  pub resume : Bool
  pub stream : Bool
  pub passive : Bool
  pub output_cdn : Bool
  pub health_check : Bool
  pub only_host_discovery : Bool
  pub skip_host_discovery : Bool
  pub with_host_discovery : Bool
  pub tcp_syn_ping_probes : List Text
  pub tcp_ack_ping_probes : List Text
  pub icmp_echo_request_probe : Bool
  pub icmp_timestamp_request_probe : Bool
  pub icmp_address_mask_request_probe : Bool
  pub arp_ping : Bool
  pub ipv6_neighbor_discovery_ping : Bool
  pub input_read_timeout : ℤ
  pub disable_stdin : Bool
  pub service_discovery : Bool
  pub service_version : Bool
  pub reverse_ptr : Bool
  pub disable_update_check : Bool
  pub metrics_port : ℤ
  pub pdcp_auth : Text
  pub pdcp_auth_cred_file : Text
  pub asset_upload : Bool
  pub team_id : Text
  pub asset_id : Text
  pub asset_name : Text
  pub asset_file_upload : Text
  pub smart_scan : Bool
  pub prediction_threshold : ℤ
  pub banner_grab : Bool

-- No option given: Go's zero values.
abbrev pub no_options : Options
no_options = record {
  verbose = false;
  no_color = false;
  json = false;
  silent = false;
  disable_stdout = false;
  stdin = false;
  verify = false;
  version = false;
  ping = false;
  debug = false;
  exclude_cdn = false;
  nmap = false;
  interfaces_list = false;
  retries = pos 0;
  rate = pos 0;
  timeout = pos 0;
  warm_up_time = pos 0;
  host = none;
  hosts_file = [];
  output = [];
  list_output_fields = false;
  exclude_output_fields = [];
  ports = [];
  ports_file = [];
  exclude_ports = [];
  exclude_ips = [];
  exclude_ips_file = [];
  top_ports = [];
  port_threshold = pos 0;
  source_ip = [];
  source_port = [];
  interface = [];
  config_file = [];
  nmap_cli = [];
  threads = pos 0;
  enable_progress_bar = false;
  stats_interval = pos 0;
  scan_all_ips = false;
  ip_version = [];
  scan_type = [];
  connect_payload = [];
  proxy = [];
  proxy_auth = [];
  resolvers = [];
  base_resolvers = [];
  dns_order = [];
  system_resolver = false;
  csv = false;
  resume = false;
  stream = false;
  passive = false;
  output_cdn = false;
  health_check = false;
  only_host_discovery = false;
  skip_host_discovery = false;
  with_host_discovery = false;
  tcp_syn_ping_probes = [];
  tcp_ack_ping_probes = [];
  icmp_echo_request_probe = false;
  icmp_timestamp_request_probe = false;
  icmp_address_mask_request_probe = false;
  arp_ping = false;
  ipv6_neighbor_discovery_ping = false;
  input_read_timeout = pos 0;
  disable_stdin = false;
  service_discovery = false;
  service_version = false;
  reverse_ptr = false;
  disable_update_check = false;
  metrics_port = pos 0;
  pdcp_auth = [];
  pdcp_auth_cred_file = [];
  asset_upload = false;
  team_id = [];
  asset_id = [];
  asset_name = [];
  asset_file_upload = [];
  smart_scan = false;
  prediction_threshold = pos 0;
  banner_grab = false;
}

-- The scan types, and the defaults of pkg/runner/default.go.
abbrev pub syn_scan : Text
syn_scan = codes "s"

abbrev pub connect_scan : Text
connect_scan = codes "c"

abbrev pub default_rate_syn_scan : ℤ
default_rate_syn_scan = pos 1000

abbrev pub default_rate_connect_scan : ℤ
default_rate_connect_scan = pos 1500

abbrev pub default_retries_syn_scan : ℤ
default_retries_syn_scan = pos 3

abbrev pub default_retries_connect_scan : ℤ
default_retries_connect_scan = pos 3

-- In nanoseconds.
abbrev pub default_port_timeout_syn_scan : ℤ
default_port_timeout_syn_scan = pos 1000000000

abbrev pub default_port_timeout_connect_scan : ℤ
default_port_timeout_connect_scan = pos 3000000000

-- `has_router` tells whether `scan.PkgRouter` is set.
unfoldable pub should_discover_hosts : Bool → Options → Bool
should_discover_hosts has_router o =
    (o.only_host_discovery || o.with_host_discovery) && not o.passive && has_router

unfoldable pub has_probes : Options → Bool
has_probes o =
    o.arp_ping
    || o.ipv6_neighbor_discovery_ping
    || o.icmp_address_mask_request_probe
    || o.icmp_echo_request_probe
    || o.icmp_timestamp_request_probe
    || ltb 0 (length o.tcp_ack_ping_probes)
    || ltb 0 (length o.tcp_syn_ping_probes)

-- Whether the system can send raw packets is a parameter: its kind and the privileges.
unfoldable pub should_use_raw_packets : Bool → Bool → Bool → Options → Bool
should_use_raw_packets is_os_supported is_privileged has_router o =
    is_os_supported && is_privileged && (o.scan_type =? syn_scan) && has_router

-- `contains` is `sliceutil.Contains`.
unfoldable pub should_scan_ipv4 : (List Text → Text → Bool) → Options → Bool
should_scan_ipv4 contains o = contains o.ip_version (codes "4")

unfoldable pub should_scan_ipv6 : (List Text → Text → Bool) → Options → Bool
should_scan_ipv6 contains o = contains o.ip_version (codes "6")

unfoldable pub get_timeout : Options → ℤ
get_timeout o =
    if lt_int o.timeout (pos 500000000)
    then if o.scan_type =? syn_scan
      then default_port_timeout_syn_scan
      else default_port_timeout_connect_scan
    else o.timeout
