-- ===== src/Scan/Workers/Answers.antt =====
-- Which responses are found ports.
use naabu.Prelude.{
  ◌≡◌, refl, Bool, false, not, ◌&&◌, ◌||◌, ◌∙◌, List, [], ◌∷◌, ◌=?◌, arith, inl, inr, Bool-cases,
}
use naabu.Prelude.Int.{int_eq}
use naabu.Prelude.Text.{Text, text_eq}
use naabu.Net.Port.{Port}
use naabu.Results.{Result, ip_has_port}
use naabu.Results.Queries.{ip_has_port-add_port}
use naabu.Scan.Workers.{
  is, host_discovery, scan, PkgResult, Scanner, add_port_given, in_range, icmp_result, store,
  notify, tcp_result, udp_result, Event, icmp, tcp, udp, set_phase, step, run,
}

-- A response has the address and the port.
abbrev pub is_from : Text → Port → PkgResult → Bool
is_from host q ip =
    (ip.port.port =? q.port) && not (host =? []) && ((ip.ipv4 =? host) || (ip.ipv6 =? host))

-- Whether responses are stored as found ports.
abbrev pub is_scanning : Scanner → Bool
is_scanning s = not (is s.phase host_discovery) && (is s.phase scan || s.stream)

ip_has_port-add_port_given :
    (ip : Text) (p : Port) (r : Result) (host : Text) (q : Port)
    → ip_has_port host q (add_port_given ip p r)
      ≡ ((not (ip =? []) && (ip =? host) && (p.port =? q.port)) || ip_has_port host q r)
unfolding add_port_given
ip_has_port-add_port_given ip p r host q = elim (Bool-cases (ip =? [])) [
  | inl e ↦ ground (arith, e)
  | inr e ↦ ground (arith, e, ip_has_port-add_port ip host p q r)
]

module _ (contains_any : Text → Text → Text → Text → Bool) (on_receive : Bool) where
  abbrev pub is_answer : Text → Port → Scanner → Event → Bool
  is_answer host q s (tcp ip) =
      in_range contains_any on_receive ip && is_scanning s && is_from host q ip
  is_answer host q s (udp ip) =
      in_range contains_any on_receive ip && is_scanning s && is_from host q ip
  is_answer host q s (icmp _ _) = false
  is_answer host q s (set_phase _) = false

  store_found :
      (ip : PkgResult) (s : Scanner) (host : Text) (q : Port)
      → ip_has_port host q (store contains_any on_receive ip s).scan_results
        ≡ ((is_scanning s && is_from host q ip) || ip_has_port host q s.scan_results)
  unfolding store
  store_found ip s host q = ground (
    arith,
    ip_has_port-add_port_given ip.ipv6 ip.port (add_port_given ip.ipv4 ip.port s.scan_results) host
        q,
    ip_has_port-add_port_given ip.ipv4 ip.port s.scan_results host q,
    text_eq.same_iff ip.ipv4 [],
    text_eq.same_iff ip.ipv6 [],
    text_eq.same_iff host [],
    text_eq.same_iff ip.ipv4 host,
    text_eq.same_iff ip.ipv6 host,
  )

  step_found :
      (e : Event) (s : Scanner) (host : Text) (q : Port)
      → ip_has_port host q (step contains_any on_receive e s).scan_results
        ≡ (is_answer host q s e || ip_has_port host q s.scan_results)
  unfolding step icmp_result tcp_result udp_result notify
  step_found (icmp a b) s host q = ground arith
  step_found (tcp ip) s host q =
      ground (arith, store_found ip (notify contains_any on_receive ip s) host q)
  step_found (udp ip) s host q = ground (arith, store_found ip s host q)
  step_found (set_phase phase) s host q = refl

  -- Whether some response of a target with the address and the port comes while responses are stored.
  pub is_answered : Text → Port → List Event → Scanner → Bool
  is_answered host q [] s = false
  is_answered host q (e ∷ events) s =
      is_answer host q s e || is_answered host q events (step contains_any on_receive e s)

  -- After any sequence of responses and phases, a port is found exactly if it was found before, or a
  -- target's response by TCP or UDP had its number and a nonempty address while the phase was that of
  -- the scan, or a stream's phase other than the discovery of hosts.
  pub ip_has_port-run :
      (events : List Event) (s : Scanner) (host : Text) (q : Port)
      → ip_has_port host q (run contains_any on_receive events s).scan_results
        ≡ (is_answered host q events s || ip_has_port host q s.scan_results)
  unfolding run is_answered
  ip_has_port-run [] s host q = refl
  ip_has_port-run (e ∷ events) s host q =
      ip_has_port-run events (step contains_any on_receive e s) host q
      ∙ ground (arith, step_found e s host q)
