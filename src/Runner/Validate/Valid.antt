-- ===== src/Runner/Validate/Valid.antt =====
-- What holds of options that pass the checks.
use naabu.Prelude.{
  ◌≡◌, refl, Bool, true, false, not, ◌&&◌, ◌||◌, List, [], ◌∷◌, ◌++◌, Option, none, some,
  if◌then◌else◌, ◌=?◌, elem, length, arith,
}
use naabu.Prelude.Int.{pos, lt_int, eq_int}
use naabu.Prelude.Text.{Text, codes, text_eq}
use naabu.Net.HostPort.{split_host_port}
use naabu.Runner.Options.{Options, syn_scan, connect_scan, has_probes, should_discover_hosts}
use naabu.Prelude.{All}
use naabu.Prelude.{leb}
use naabu.Net.Port.{Port}
use naabu.Runner.Validate.{
  configure_host_discovery, OptionsError, resolvers_unreadable, invalid_source_ip, System, Checked,
  pass, fail, ◌then◌, refuse, input_tests, output_tests, interface_tests, stream_tests,
  discovery_tests, payload_tests, services_tests, smart_scan_tests, check_input, switch_to_syn,
  check_output, set_rate, set_retries, check_interface, set_resolvers, passive_streams,
  check_stream, set_source, check_discovery, proxy_connects, check_payload, unrouted_connects,
  check_services, set_warm_up, check_smart_scan, validate_options,
}

-- What holds of the options, if they pass.
pub data Passes {ℓ} (P : Options → Type ℓ) : Checked → Type ℓ where
  passed : {o : Options} → P o → Passes P (pass o)
  failed : {e : OptionsError} {o : Options} → Passes P (fail e o)

module _ {ℓ} {P : Options → Type ℓ} where
  Passes-then {κ} :
      {Q : Options → Type κ} {m : Checked} {next : Options → Checked}
      → Passes P m
      → ((o : Options) → P o → Passes Q (next o))
      → Passes Q (m then next)
  Passes-then (passed p) k = k _ p
  Passes-then failed k = failed

  -- A row of checks adds that all its tests failed.
  Passes-refuse :
      (tests : List (Bool × OptionsError)) (o : Options)
      → (All (λ t. t.0 ≡ false) tests → P o)
      → Passes P (refuse tests o)
  Passes-refuse [] o k = passed (k tt)
  Passes-refuse ((true, e) ∷ tests) o k = failed
  Passes-refuse ((false, e) ∷ tests) o k = Passes-refuse tests o (λ h. k (refl, h))

  Passes-if :
      (b : Bool) {x y : Checked}
      → (b ≡ true → Passes P x)
      → (b ≡ false → Passes P y)
      → Passes P (if b then x else y)
  Passes-if true x y = x refl
  Passes-if false x y = y refl

  -- A default changes the options and refuses none.
  Passes-default :
      (b : Bool) {o p : Options} (next : Options → Checked)
      → (b ≡ true → Passes P (next p))
      → (b ≡ false → Passes P (next o))
      → Passes P (next (if b then p else o))
  Passes-default true next x y = x refl
  Passes-default false next x y = y refl

module _ (sys : System) where
  -- No two modes that exclude each other, and numbers in their ranges.
  pub record IsValid (o : Options) : Type 0 where
    pub one_output : (o.verbose && o.silent) ≡ false
    pub one_format : (o.json && o.csv) ≡ false
    pub some_rate : eq_int o.rate (pos 0) ≡ false
    pub known_interface : ((o.interface =? []) || sys.has_interface o.interface) ≡ true
    pub passive_stream : (o.passive && not o.stream) ≡ false
    pub plain_stream : (o.stream && (o.resume || o.enable_progress_bar || o.nmap)) ≡ false
    pub verified_stream : (o.verify && o.stream && not o.passive) ≡ false
    pub probes : (not o.with_host_discovery && has_probes o) ≡ false
    pub privileged : (o.only_host_discovery && not sys.is_privileged) ≡ false
    pub threshold : (lt_int o.port_threshold (pos 0) || lt_int (pos 65535) o.port_threshold) ≡ false
    pub proxied : (not (o.proxy =? []) && (o.scan_type =? syn_scan)) ≡ false
    pub payload : (not (o.connect_payload =? []) && not (o.scan_type =? connect_scan)) ≡ false
    pub dns_order : elem o.dns_order (codes "p" ∷ codes "l" ∷ codes "lp" ∷ codes "pl" ∷ []) ≡ true
    pub dns_proxy : ((o.dns_order =? codes "p") && (o.proxy =? [])) ≡ false
    pub routed : ((o.scan_type =? syn_scan) && not sys.has_router) ≡ false
    pub warm_up : lt_int (pos 0) o.warm_up_time ≡ true
    pub smart : (o.smart_scan && (o.stream || o.passive)) ≡ false
    pub prediction :
        (lt_int o.prediction_threshold (pos 0) || lt_int (pos 100) o.prediction_threshold) ≡ false

  abbrev Outputs : Options → Type 0
  Outputs o = ((o.verbose && o.silent) ≡ false) × ((o.json && o.csv) ≡ false)

  input-Passes : (o : Options) → Passes (λ q. Unit {0}) (check_input sys o)
  unfolding check_input
  input-Passes o = Passes-refuse (input_tests sys o) o (λ t. tt)

  output-Passes : (o : Options) → Passes Outputs (check_output sys o)
  unfolding check_output
  output-Passes o = Passes-refuse (output_tests sys o) o (λ t. (t.0, t.1.0))

  abbrev Rated : Options → Type 0
  Rated o = Outputs o × (eq_int o.rate (pos 0) ≡ false)

  rate-Passes : (o : Options) → Outputs o → Passes Rated (set_rate sys o)
  unfolding set_rate
  rate-Passes o h =
      Passes-if (eq_int o.rate (pos 0)) (λ e. failed)
        λ e.
          Passes-if (not sys.is_privileged && eq_int o.rate (pos 1000)) (λ d. passed (h, refl))
            (λ d. passed (h, e))

  abbrev Connected : Options → Type 0
  Connected o = Rated o × (((o.interface =? []) || sys.has_interface o.interface) ≡ true)

  interface-Passes : (o : Options) → Rated o → Passes Connected (check_interface sys o)
  unfolding check_interface
  interface-Passes o h = Passes-refuse (interface_tests sys o) o (λ t. (h, ground (arith, t.0)))

  retries-Passes :
      (o : Options) → Rated o → Passes Connected (check_interface sys (set_retries sys o))
  unfolding set_retries
  retries-Passes o h =
      Passes-default (not sys.is_privileged && eq_int o.retries (pos 3)) (check_interface sys)
        (λ e. interface-Passes _ h) (λ e. interface-Passes o h)

  resolvers-Passes : (o : Options) → Connected o → Passes Connected (set_resolvers sys o)
  unfolding set_resolvers
  resolvers-Passes o h =
      Passes-if (sys.file_exists o.resolvers) (λ e. file (sys.read_file o.resolvers))
        λ e. Passes-if (o.resolvers =? []) (λ d. passed h) (λ d. passed h)
    where
      file :
          (lines : Option (List Text))
          → Passes Connected (elim lines [
            | none ↦ fail resolvers_unreadable o
            | some ls ↦ pass (record o { base_resolvers = o.base_resolvers ++ ls })
          ])
      file none = failed
      file (some ls) = passed h

  abbrev Streamed : Options → Type 0
  Streamed o =
      Connected o
      × ((o.passive && not o.stream) ≡ false)
      × ((o.stream && (o.resume || o.enable_progress_bar || o.nmap)) ≡ false)
      × ((o.verify && o.stream && not o.passive) ≡ false)

  stream-Passes :
      (o : Options)
      → Connected o
      → (o.passive && not o.stream) ≡ false
      → Passes Streamed (check_stream sys o)
  unfolding check_stream
  stream-Passes o h k =
      Passes-refuse (stream_tests sys o) o
        (λ t. (h, k, ground (arith, t.0, t.1.0, t.1.1.0), t.1.1.1.0))

  passive-Passes :
      (o : Options) → Connected o → Passes Streamed (check_stream sys (passive_streams sys o))
  unfolding passive_streams
  passive-Passes o h =
      Passes-default o.passive (check_stream sys) (λ e. stream-Passes _ h (ground arith))
        (λ e. stream-Passes o h (ground arith))

  source-Passes : (o : Options) → Streamed o → Passes Streamed (set_source sys o)
  unfolding set_source
  source-Passes o h =
      Passes-if (not (o.source_ip =? []) && not (sys.is_ip o.source_ip))
        (λ e. parts (split_host_port o.source_ip)) (λ e. passed h)
    where
      parts :
          (found : Option (Text × Text))
          → Passes Streamed (elim found [
            | none ↦ fail invalid_source_ip o
            | some (ip, port) ↦ pass (record o { source_ip = ip; source_port = port })
          ])
      parts none = failed
      parts (some (ip, port)) = passed h

  abbrev Discovered : Options → Type 0
  Discovered o =
      Streamed o
      × ((not o.with_host_discovery && has_probes o) ≡ false)
      × ((o.only_host_discovery && not sys.is_privileged) ≡ false)
      × ((lt_int o.port_threshold (pos 0) || lt_int (pos 65535) o.port_threshold) ≡ false)

  discovery-Passes : (o : Options) → Streamed o → Passes Discovered (check_discovery sys o)
  unfolding check_discovery
  discovery-Passes o h =
      Passes-refuse (discovery_tests sys o) o (λ t. (h, t.1.0, t.1.1.0, t.1.1.1.0))

  abbrev Resolved : Options → Type 0
  Resolved o =
      Discovered o
      × ((not (o.proxy =? []) && (o.scan_type =? syn_scan)) ≡ false)
      × ((not (o.connect_payload =? []) && not (o.scan_type =? connect_scan)) ≡ false)
      × (elem o.dns_order (codes "p" ∷ codes "l" ∷ codes "lp" ∷ codes "pl" ∷ []) ≡ true)
      × (((o.dns_order =? codes "p") && (o.proxy =? [])) ≡ false)

  payload-Passes :
      (o : Options)
      → Discovered o
      → (not (o.proxy =? []) && (o.scan_type =? syn_scan)) ≡ false
      → Passes Resolved (check_payload sys o)
  unfolding check_payload
  payload-Passes o h p =
      Passes-refuse (payload_tests sys o) o (λ t. (h, p, t.0, ground (arith, t.1.0), t.1.1.0))

  proxy-Passes :
      (o : Options) → Discovered o → Passes Resolved (check_payload sys (proxy_connects sys o))
  unfolding proxy_connects has_probes
  proxy-Passes o h =
      Passes-default (not (o.proxy =? []) && (o.scan_type =? syn_scan)) (check_payload sys)
        (λ e. payload-Passes _ h (ground arith)) (λ e. payload-Passes o h e)

  abbrev Routed : Options → Type 0
  Routed o = Resolved o × (((o.scan_type =? syn_scan) && not sys.has_router) ≡ false)

  services-Passes : (o : Options) → Routed o → Passes Routed (check_services sys o)
  unfolding check_services
  services-Passes o h = Passes-refuse (services_tests sys o) o (λ t. h)

  unrouted-Passes :
      (o : Options) → Resolved o → Passes Routed (check_services sys (unrouted_connects sys o))
  unfolding unrouted_connects has_probes
  unrouted-Passes o (h, p, c, d, n) =
      Passes-default ((o.scan_type =? syn_scan) && not sys.has_router) (check_services sys)
        (λ e. services-Passes _ ((h, ground arith, ground arith, d, n), refl))
        (λ e. services-Passes o ((h, p, c, d, n), e))

  smart-Passes :
      (o : Options)
      → Routed o
      → lt_int (pos 0) o.warm_up_time ≡ true
      → Passes IsValid (check_smart_scan sys o)
  unfolding check_smart_scan
  smart-Passes o
        (
          (
            ((((outputs, rated), known), passive, plain, verified), probed, privileged, bounds),
            proxied,
            payload,
            order,
            resolved,
          ),
          routed,
        )
        w =
      Passes-refuse (smart_scan_tests sys o) o λ t. record {
        one_output = outputs.0;
        one_format = outputs.1;
        some_rate = rated;
        known_interface = known;
        passive_stream = passive;
        plain_stream = plain;
        verified_stream = verified;
        probes = probed;
        privileged = privileged;
        threshold = bounds;
        proxied = proxied;
        payload = payload;
        dns_order = order;
        dns_proxy = resolved;
        routed = routed;
        warm_up = w;
        smart = ground (arith, t.0, t.1.0);
        prediction = t.1.1.0;
      }

  warm-Passes : (o : Options) → Routed o → Passes IsValid (check_smart_scan sys (set_warm_up sys o))
  unfolding set_warm_up has_probes
  warm-Passes o h =
      Passes-default (lt_int (pos 0) o.warm_up_time) (check_smart_scan sys)
        (λ e. smart-Passes o h e) (λ e. smart-Passes _ h refl)

  -- Options that pass the checks have no modes that exclude each other, numbers in their ranges, and a
  -- scan type that fits the proxy, the payload and the router.
  pub validate_options-IsValid : (o : Options) → Passes IsValid (validate_options sys o)
  unfolding validate_options
  validate_options-IsValid o =
      let p0 = input-Passes o in
      let p1 = Passes-then {Q = Outputs} p0 (λ q h. output-Passes (switch_to_syn sys q)) in
      let p2 = Passes-then {Q = Rated} p1 rate-Passes in
      let p3 = Passes-then {Q = Connected} p2 retries-Passes in
      let p4 = Passes-then {Q = Connected} p3 resolvers-Passes in
      let p5 = Passes-then {Q = Streamed} p4 passive-Passes in
      let p6 = Passes-then {Q = Streamed} p5 source-Passes in
      let p7 = Passes-then {Q = Discovered} p6 discovery-Passes in
      let p8 = Passes-then {Q = Resolved} p7 proxy-Passes in
      let p9 = Passes-then {Q = Routed} p8 unrouted-Passes in Passes-then p9 warm-Passes

  -- With the default probes set, a run that discovers hosts has a probe to do so, and one with at most
  -- two ports discovers hosts only if that is all it is to do.
  pub configure_host_discovery-has_probes :
      (ports : List Port) (o : Options)
      → should_discover_hosts sys.has_router (configure_host_discovery sys ports o) ≡ true
      → (has_probes (configure_host_discovery sys ports o) ≡ true)
        × ((leb (length ports) 2 && not o.only_host_discovery) ≡ false)
  unfolding configure_host_discovery should_discover_hosts has_probes
  configure_host_discovery-has_probes ports o h = (ground arith, ground arith)
