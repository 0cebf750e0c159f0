-- ===== src/Runner/Validate.antt =====
-- pkg/runner/validate.go: the checks of the options, and the defaults that they set.

mod Tests
pub mod Valid
use naabu.Prelude.{
  ℕ, Bool, true, false, not, ◌&&◌, ◌||◌, List, [], ◌∷◌, ◌++◌, map, Option, none, some,
  if◌then◌else◌, ◌=?◌, ◌==◌, elem, length, leb,
}
use naabu.Prelude.Int.{ℤ, pos, lt_int, eq_int}
use naabu.Prelude.Text.{Text, codes, text_eq, split, trim_space}
use naabu.Net.HostPort.{split_host_port}
use naabu.Net.Port.{Port}
use naabu.Runner.Options.{
  Options, syn_scan, connect_scan, default_rate_syn_scan, default_rate_connect_scan,
  default_retries_syn_scan, default_retries_connect_scan, has_probes, should_discover_hosts,
}

pub data OptionsError : Type 0 where
  no_input_list output_mode two_output_mode zero_rate resolvers_unreadable invalid_source_ip :
      OptionsError
  interface_not_found : Text → OptionsError
  resume_in_stream stats_in_stream nmap_in_stream verify_in_stream : OptionsError
  invalid_ip_version discovery_disabled discovery_on_windows discovery_unprivileged : OptionsError
  port_threshold_range payload_without_connect invalid_dns_order dns_order_without_proxy :
      OptionsError
  not_implemented smart_scan_in_stream smart_scan_in_passive prediction_threshold_range :
      OptionsError

-- What the checks ask the system and other packages: the count of arguments of the command line, the
-- privileges, the interfaces, the files, `iputil.IsIP`, `sliceutil.ContainsItems` and the router. An unreadable file is `none`.
pub record System : Type 0 where
  pub args : ℕ
  pub is_privileged : Bool
  pub is_windows : Bool
  pub has_interface : Text → Bool
  pub file_exists : Text → Bool
  pub read_file : Text → Option (List Text)
  pub is_ip : Text → Bool
  pub contains_items : List Text → List Text → Bool
  pub has_router : Bool

-- The options are changed in place, so a check that fails leaves them as they are at that point.
pub data Checked : Type 0 where
  pass : Options → Checked
  fail : OptionsError → Options → Checked

infixl 5 ◌then◌
abbrev pub ◌then◌ : Checked → (Options → Checked) → Checked
pass o then next = next o
fail e o then next = fail e o

-- A row of `if … { return errors.New(…) }`: the first test that holds refuses the options.
abbrev pub refuse : List (Bool × OptionsError) → Options → Checked
refuse [] o = pass o
refuse ((true, e) ∷ tests) o = fail e o
refuse ((false, e) ∷ tests) o = refuse tests o

module _ (sys : System) where
  abbrev input_tests : Options → List (Bool × OptionsError)
  input_tests o =
      ((
        elim o.host [ none ↦ true | some _ ↦ false ]
            && (o.hosts_file =? [])
            && not o.stdin
            && (sys.args == 0),
        no_input_list,
      )
        ∷ [])

  check_input : Options → Checked
  check_input o = refuse (input_tests o) o

  switch_to_syn : Options → Options
  switch_to_syn o =
      if (o.with_host_discovery || o.only_host_discovery) && not (o.scan_type =? syn_scan)
      then record o { scan_type = syn_scan }
      else o

  abbrev output_tests : Options → List (Bool × OptionsError)
  output_tests o = ((o.verbose && o.silent, output_mode) ∷ (o.json && o.csv, two_output_mode) ∷ [])

  check_output : Options → Checked
  check_output o = refuse (output_tests o) o

  set_rate : Options → Checked
  set_rate o =
      if eq_int o.rate (pos 0)
      then fail zero_rate o
      else if not sys.is_privileged && eq_int o.rate default_rate_syn_scan
      then pass (record o { rate = default_rate_connect_scan })
      else pass o

  set_retries : Options → Options
  set_retries o =
      if not sys.is_privileged && eq_int o.retries default_retries_syn_scan
      then record o { retries = default_retries_connect_scan }
      else o

  abbrev interface_tests : Options → List (Bool × OptionsError)
  interface_tests o =
      ((
        not (o.interface =? []) && not (sys.has_interface o.interface),
        interface_not_found o.interface,
      )
        ∷ [])

  check_interface : Options → Checked
  check_interface o = refuse (interface_tests o) o

  set_resolvers : Options → Checked
  set_resolvers o =
      if sys.file_exists o.resolvers
      then elim (sys.read_file o.resolvers) [
        | none ↦ fail resolvers_unreadable o
        | some lines ↦ pass (record o { base_resolvers = o.base_resolvers ++ lines })
      ]
      else if o.resolvers =? []
      then pass o
      else pass (record o {
        base_resolvers = o.base_resolvers ++ map trim_space (split b',' o.resolvers);
      })

  passive_streams : Options → Options
  passive_streams o = if o.passive then record o { stream = true } else o

  abbrev stream_tests : Options → List (Bool × OptionsError)
  stream_tests o =
      ((o.stream && o.resume, resume_in_stream)
        ∷ (o.stream && o.enable_progress_bar, stats_in_stream)
        ∷ (o.stream && o.nmap, nmap_in_stream)
        ∷ (o.verify && o.stream && not o.passive, verify_in_stream)
        ∷ [])

  check_stream : Options → Checked
  check_stream o = refuse (stream_tests o) o

  set_source : Options → Checked
  set_source o =
      if not (o.source_ip =? []) && not (sys.is_ip o.source_ip)
      then elim (split_host_port o.source_ip) [
        | none ↦ fail invalid_source_ip o
        | some (ip, port) ↦ pass (record o { source_ip = ip; source_port = port })
      ]
      else pass o

  abbrev discovery_tests : Options → List (Bool × OptionsError)
  discovery_tests o =
      ((
        not (length o.ip_version == 0)
            && not (sys.contains_items (codes "4" ∷ codes "6" ∷ []) o.ip_version),
        invalid_ip_version,
      )
        ∷ (not o.with_host_discovery && has_probes o, discovery_disabled)
        ∷ (
          o.only_host_discovery && not sys.is_privileged,
          if sys.is_windows then discovery_on_windows else discovery_unprivileged,
        )
        ∷ (
          lt_int o.port_threshold (pos 0) || lt_int (pos 65535) o.port_threshold,
          port_threshold_range,
        )
        ∷ [])

  check_discovery : Options → Checked
  check_discovery o = refuse (discovery_tests o) o

  proxy_connects : Options → Options
  proxy_connects o =
      if not (o.proxy =? []) && (o.scan_type =? syn_scan)
      then record o { scan_type = connect_scan }
      else o

  abbrev payload_tests : Options → List (Bool × OptionsError)
  payload_tests o =
      ((not (o.connect_payload =? []) && not (o.scan_type =? connect_scan), payload_without_connect)
        ∷ (
          not (elem o.dns_order (codes "p" ∷ codes "l" ∷ codes "lp" ∷ codes "pl" ∷ [])),
          invalid_dns_order,
        )
        ∷ ((o.dns_order =? codes "p") && (o.proxy =? []), dns_order_without_proxy)
        ∷ [])

  check_payload : Options → Checked
  check_payload o = refuse (payload_tests o) o

  unrouted_connects : Options → Options
  unrouted_connects o =
      if (o.scan_type =? syn_scan) && not sys.has_router
      then record o { scan_type = connect_scan }
      else o

  abbrev services_tests : Options → List (Bool × OptionsError)
  services_tests o = ((o.service_discovery || o.service_version, not_implemented) ∷ [])

  check_services : Options → Checked
  check_services o = refuse (services_tests o) o

  set_warm_up : Options → Options
  set_warm_up o = if lt_int (pos 0) o.warm_up_time then o else record o { warm_up_time = pos 2 }

  abbrev smart_scan_tests : Options → List (Bool × OptionsError)
  smart_scan_tests o =
      ((o.smart_scan && o.stream, smart_scan_in_stream)
        ∷ (o.smart_scan && o.passive, smart_scan_in_passive)
        ∷ (
          lt_int o.prediction_threshold (pos 0) || lt_int (pos 100) o.prediction_threshold,
          prediction_threshold_range,
        )
        ∷ [])

  check_smart_scan : Options → Checked
  check_smart_scan o = refuse (smart_scan_tests o) o

  unfoldable pub validate_options : Options → Checked
  unfolding check_input switch_to_syn check_output set_rate set_retries check_interface
      set_resolvers passive_streams check_stream set_source check_discovery proxy_connects
      check_payload unrouted_connects check_services set_warm_up check_smart_scan
  validate_options o =
      check_input o
      then (λ o. check_output (switch_to_syn o))
      then set_rate
      then (λ o. check_interface (set_retries o))
      then set_resolvers
      then (λ o. check_stream (passive_streams o))
      then set_source
      then check_discovery
      then (λ o. check_payload (proxy_connects o))
      then (λ o. check_services (unrouted_connects o))
      then (λ o. check_smart_scan (set_warm_up o))

  -- `configureHostDiscovery`
  unfoldable pub configure_host_discovery : List Port → Options → Options
  unfolding has_probes should_discover_hosts
  configure_host_discovery ports options =
      let o =
        if leb (length ports) 2 then record options { with_host_discovery = false } else options in
      if should_discover_hosts sys.has_router o && not (has_probes o)
      then record o {
        icmp_echo_request_probe = true;
        icmp_timestamp_request_probe = true;
        tcp_syn_ping_probes = o.tcp_syn_ping_probes ++ codes "80" ∷ codes "443" ∷ [];
        tcp_ack_ping_probes = o.tcp_ack_ping_probes ++ codes "80" ∷ codes "443" ∷ [];
      }
      else o
