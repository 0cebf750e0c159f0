-- ===== src/Runner/Nmap.antt =====
-- pkg/runner/nmap.go: the call of nmap and its results. What nmap reports is an argument, as records of
-- the fields that are read.
mod Updated
mod Tests
use naabu.Prelude.{
  ℕ, Bool, true, false, not, ◌&&◌, ◌||◌, List, [], ◌∷◌, ◌++◌, Option, none, some, if◌then◌else◌,
  ◌=?◌, length, ltb, leb, lookup, map,
}
use naabu.Prelude.Int.{ℤ, pos, int_eq}
use naabu.Prelude.Text.{Text, codes, text_eq, is_space}
use naabu.Net.Protocol.{Protocol, tcp, udp, protocol_eq}
use naabu.Net.Port
use naabu.Net.Port.{Port, Service}
use naabu.Results
use naabu.Results.{Result, PortMap, add_port, ip_has_port}

-- `nmap.OSClass`, `nmap.OSMatch` and `nmap.Host`.
pub record OsClass : Type 0 where
  pub type : Text
  pub vendor : Text
  pub os_generation : Text
  pub cpes : List Text

pub record OsMatch : Type 0 where
  pub name : Text
  pub classes : List OsClass

pub record NmapPort : Type 0 where
  pub id : ℕ
  pub protocol : Text
  pub state : Text
  pub service : Service

pub record NmapHost : Type 0 where
  pub addresses : List Text
  pub os_matches : List OsMatch
  pub ports : List NmapPort

-- pkg/result/results.go: `OSFingerprint`
pub record OsFingerprint : Type 0 where
  pub target : Text
  pub device_type : Text
  pub running : Text
  pub os_cpe : Text
  pub os_details : Text

-- The group of a host by the count of its ports.
unfoldable pub range_index : ℕ → ℕ
range_index n =
    if ltb 100 n && ltb n 1000
    then 1
    else if leb 1000 n && ltb n 10000
    then 2
    else if leb 10000 n
    then 3
    else 0

-- strings.Fields: the word at the head and those behind it.
unfoldable pub text_words : Text → Text × List Text
unfolding is_space
text_words [] = ([], [])
text_words (c ∷ s) =
    let (w, ws) = text_words s in
    if is_space c then ([], if w =? [] then ws else w ∷ ws) else (c ∷ w, ws)

unfoldable pub text_fields : Text → List Text
unfolding text_words
text_fields s = let (w, ws) = text_words s in if w =? [] then ws else w ∷ ws

-- The name of the program at the front is dropped.
unfoldable pub drop_program : List Text → List Text
drop_program [] = []
drop_program (a ∷ args) = if (a =? codes "nmap") || (a =? codes "nmap.exe") then args else a ∷ args

-- The loop over the arguments: those that are left, and the file behind the last `-oX` that names one.
unfoldable pub filter_args : List Text → Text → List Text × Text
filter_args [] output_file = ([], output_file)
filter_args (a ∷ []) output_file = (if a =? codes "-oX" then [] else a ∷ [], output_file)
filter_args (a ∷ next ∷ args) output_file =
    let (rest, file) = filter_args (next ∷ args) output_file in
    let skipped = filter_args args (if next =? codes "-" then output_file else next) in
    if a =? codes "-oX" then skipped else (a ∷ rest, file)

-- `nmapOS2Fingerprint` of a host with an address.
unfoldable pub nmap_os2_fingerprint : Text → List OsMatch → Option OsFingerprint
nmap_os2_fingerprint addr [] = none
nmap_os2_fingerprint addr (best ∷ matches) = some (elim best.classes [
  | [] ↦ record {
    target = addr;
    device_type = [];
    running = best.name;
    os_cpe = [];
    os_details = best.name;
  }
  | c ∷ cs ↦ record {
    target = addr;
    device_type = c.type;
    running = best.name;
    os_cpe = elim c.cpes as (λ _. Text) [ [] ↦ [] | cpe ∷ cpes ↦ cpe ];
    os_details = c.vendor ++ b' ' ∷ c.os_generation;
  }
])

unfoldable pub convert_nmap_port_to_naabu_port : NmapPort → Port
convert_nmap_port_to_naabu_port p = record {
  port = pos p.id;
  protocol = if p.protocol =? codes "udp" then udp else tcp;
  banner = [];
  tls = false;
  service = if p.service.name =? [] then none else some (record p.service { confidence = pos 0 });
}

-- A port is that of the number and the protocol.
abbrev pub is_same_port : Port → Port → Bool
is_same_port p q = (q.port =? p.port) && (q.protocol =? p.protocol)

-- The stored port itself is changed, if the new one has a service.
unfoldable pub with_service : Port → Port → Port
with_service p q = elim p.service [ none ↦ q | some s ↦ record q { service = some s } ]

unfoldable pub update_first : Port → PortMap → PortMap
unfolding with_service
update_first p [] = []
update_first p ((key, q) ∷ m) =
    let rest = (key, q) ∷ update_first p m in
    if is_same_port p q then (key, with_service p q) ∷ m else rest

unfoldable pub update_hosts : Text → Port → List (Text × PortMap) → List (Text × PortMap)
unfolding update_first
update_hosts ip p [] = []
update_hosts ip p ((h, m) ∷ hosts) =
    let rest = update_hosts ip p hosts in (h, if h =? ip then update_first p m else m) ∷ rest

-- A host stands once in the results, so what is behind it has no other.
unfoldable pub update_port_with_service_info : Text → Port → Result → Result
unfolding update_hosts ip_has_port add_port
update_port_with_service_info ip p r =
    if ip_has_port ip p r
    then record r { ip_ports = update_hosts ip p r.ip_ports }
    else add_port ip p r

unfoldable pub integrate_ports : Text → List NmapPort → Result → Result
unfolding update_port_with_service_info convert_nmap_port_to_naabu_port
integrate_ports ip [] r = r
integrate_ports ip (p ∷ ps) r =
    let updated = update_port_with_service_info ip (convert_nmap_port_to_naabu_port p) r in
    integrate_ports ip ps (if p.state =? codes "open" then updated else r)

-- `UpdateHostOS` at the end of a host stores nothing.
unfoldable pub integrate_nmap_results : List NmapHost → Result → Result
unfolding integrate_ports
integrate_nmap_results [] r = r
integrate_nmap_results (host ∷ hosts) r =
    integrate_nmap_results hosts
      (elim host.addresses [ [] ↦ r | ip ∷ ips ↦ integrate_ports ip host.ports r ])
