-- ===== src/Runner/Nmap/Updated.antt =====
-- pkg/runner/nmap.go: what nmap's results change.
use naabu.Prelude.{
  ◌≡◌, refl, ap, ◌∙◌, inl, inr, arith, Bool, false, ◌&&◌, ◌||◌, List, [], ◌∷◌, none, some,
  if◌then◌else◌, ◌=?◌, All, Bool-cases, Option-cases, lookup, has_key,
}
use naabu.Prelude.Int.{int_eq}
use naabu.Prelude.Text.{Text, codes, text_eq}
use naabu.Net.Port
use naabu.Net.Port.{Port}
use naabu.Results.{Result, PortMap, ip_has_port}
use naabu.Results.Queries.{ip_has_port-add_port}
use naabu.Runner.Nmap.{filter_args, update_first, update_hosts, update_port_with_service_info}

-- No argument that is left asks for a file of XML.
pub filter_args-Lacks :
    (args : List Text) (output_file : Text)
    → All (λ a. (a =? codes "-oX") ≡ false) ((filter_args args output_file).0)
unfolding filter_args
filter_args-Lacks [] file = tt
filter_args-Lacks (a ∷ []) file = elim (Bool-cases (a =? codes "-oX")) [
  | inl x ↦ rw x tt
  | inr other ↦ rw other (other, tt)
]
filter_args-Lacks (a ∷ next ∷ args) file = elim (Bool-cases (a =? codes "-oX")) [
  | inl x ↦ rw x (filter_args-Lacks args (if next =? codes "-" then file else next))
  | inr other ↦ rw other (other, filter_args-Lacks (next ∷ args) file)
]

has_key-update_first :
    (key : Text) (p : Port) (m : PortMap) → has_key key (update_first p m) ≡ has_key key m
unfolding update_first has_key
has_key-update_first key p [] = refl
has_key-update_first key p ((k, q) ∷ m) = ground (arith, has_key-update_first key p m)

lookup-update_hosts :
    (ip h : Text) (p : Port) (hosts : List (Text × PortMap))
    → lookup h (update_hosts ip p hosts) ≡ elim (lookup h hosts) [
      | none ↦ none
      | some m ↦ some (if h =? ip then update_first p m else m)
    ]
unfolding update_hosts lookup
lookup-update_hosts ip h p [] = refl
lookup-update_hosts ip h p ((j, m) ∷ hosts) =
    ground (arith, text_eq.same_iff j h, lookup-update_hosts ip h p hosts)

ip_has_port-update_hosts :
    (ip h : Text) (p q : Port) (r : Result)
    → ip_has_port h q (record r { ip_ports = update_hosts ip p r.ip_ports }) ≡ ip_has_port h q r
unfolding ip_has_port
ip_has_port-update_hosts ip h p q r = elim (Option-cases (lookup h r.ip_ports)) [
  | inl new ↦ rw (ip_has_port, lookup-update_hosts ip h p r.ip_ports, new) refl
  | inr (m, old) ↦ elim (Bool-cases (h =? ip)) [
    | inl same ↦
        rw (ip_has_port, lookup-update_hosts ip h p r.ip_ports, old, same)
          (has_key-update_first (Port.string q) p m)
    | inr other ↦ rw (ip_has_port, lookup-update_hosts ip h p r.ip_ports, old, other) refl
  ]
]

ip_has_port-congr :
    (ip h : Text) (p q : Port) (r : Result)
    → ip ≡ h
    → p.port ≡ q.port
    → ip_has_port ip p r ≡ ip_has_port h q r
unfolding ip_has_port
ip_has_port-congr ip h p q r host number =
    ap (λ (i : Text). ip_has_port i p r) host
    ∙ ap
        (λ (k : Text). elim (lookup h r.ip_ports) as (λ _. Bool) [
          | none ↦ false
          | some ports ↦ has_key k ports
        ])
        (Port.string_congr p q number)

-- After an open port of nmap is taken over, a port is found exactly if it was before or it is the
-- number that nmap has found on the host.
pub ip_has_port-update_port :
    (ip h : Text) (p q : Port) (r : Result)
    → ip_has_port h q (update_port_with_service_info ip p r)
      ≡ ((ip =? h) && (p.port =? q.port) || ip_has_port h q r)
unfolding update_port_with_service_info
ip_has_port-update_port ip h p q r = elim (Bool-cases (ip_has_port ip p r)) [
  | inl there ↦ rw there (
      ground (
        arith,
        ip_has_port-update_hosts ip h p q r,
        ip_has_port-congr ip h p q r,
        text_eq.same_iff ip h,
        int_eq.same_iff p.port q.port,
        there,
      ))
  | inr new ↦ rw new (ip_has_port-add_port ip h p q r)
]
