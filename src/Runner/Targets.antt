-- ===== src/Runner/Targets.antt =====
-- pkg/runner/targets.go and ips.go: the targets of a scan and the addresses that it excludes.
pub mod Resolved
mod Tests
use naabu.Prelude.{
  ℕ, Bool, true, false, not, ◌&&◌, ◌||◌, List, [], ◌∷◌, ◌++◌, Option, none, some, if◌then◌else◌,
  ◌=?◌, ltb, length, Outcome, ok, err, ◌>>=◌,
}
use naabu.Prelude.Text.{Text, codes, text_eq, trim_space, split}
use naabu.Net.HostPort
use naabu.Runner.Options
use naabu.Runner.Options.{Options}
use naabu.Runner.Resolve
use naabu.Runner.Resolve.{Network, ResolveError, get_port, host2ips, resolve_fqdn}

-- `Target` of pkg/runner/runner.go, as it goes through the stream channel.
pub record StreamTarget : Type 0 where
  pub ip : Text
  pub cidr : Text
  pub fqdn : Text
  pub port : Text

abbrev pub of_cidr : Text → StreamTarget
of_cidr cidr = record { ip = []; cidr = cidr; fqdn = []; port = [] }

abbrev pub of_ip_port : Text → Text → StreamTarget
of_ip_port ip port = record { ip = ip; cidr = []; fqdn = []; port = port }

-- What has gone to the ranger, with its metadata, and through the channel. The ranger's own errors are
-- only logged.
pub record Tracked : Type 0 where
  pub added : List (Text × Text)
  pub sent : List StreamTarget

-- The functions of other packages: of `asn`, of `iputil`, `net.ParseIP` with `To4` (the address of 4
-- bytes as a text) and the first name of a reverse lookup without its dots. `ranged` is the ranger's
-- `Contains` after what has gone to it.
pub record Lookups : Type 0 where
  pub network : Network
  pub is_asn : Text → Bool
  pub cidrs_for_asn : Text → Option (List Text)
  pub is_cidr : Text → Bool
  pub to4 : Text → Option Text
  pub to_cidr : Text → Text
  pub to_fqdn : Text → Option Text
  pub ranged : List (Text × Text) → Text → Bool

pub data TargetError : Type 0 where
  asn_failed : TargetError
  not_resolved : ResolveError → TargetError
  file_not_read : TargetError

-- The file's own `joinHostPort`.
unfoldable pub join_host_port : Text → Text → Text
unfolding HostPort.join_host_port
join_host_port host port = if port =? [] then host else HostPort.join_host_port host port

abbrev pub track : Text → Text → Tracked → Tracked
track host metadata s = record s { added = s.added ++ (host, metadata) ∷ [] }

abbrev pub send_target : StreamTarget → Tracked → Tracked
send_target t s = record s { sent = s.sent ++ t ∷ [] }

module _ (l : Lookups) (o : Options) where
  -- A block, in one of the two ways.
  unfoldable pub add_cidr : Text → Tracked → Tracked
  add_cidr cidr s = if o.stream then send_target (of_cidr cidr) s else track cidr (codes "cidr") s

  unfoldable pub add_cidrs : List Text → Tracked → Tracked
  unfolding add_cidr
  add_cidrs [] s = s
  add_cidrs (cidr ∷ cidrs) s = add_cidrs cidrs (add_cidr cidr s)

  -- An address; one of 4 bytes is written as such.
  unfoldable pub add_address : Text → Tracked → Tracked
  add_address target s =
      let ip = elim (l.to4 target) as (λ _. Text) [ none ↦ target | some v4 ↦ v4 ] in
      let name = elim (l.to_fqdn ip) as (λ _. Text) [ none ↦ codes "ip" | some fqdn ↦ fqdn ] in
      if o.stream
      then send_target (of_cidr (l.to_cidr ip)) s
      else track ip (if o.reverse_ptr then name else codes "ip") s

  -- One address of a resolved name, with the port that the target names.
  unfoldable pub stream_resolved : Text → Text → Bool → Text → Tracked → Tracked
  unfolding join_host_port
  stream_resolved target port has_port ip s =
      if not has_port
      then track (join_host_port ip port) target (send_target (of_cidr (l.to_cidr ip)) s)
      else if ltb 0 (length o.ports)
      then track (join_host_port ip []) target
          (send_target (of_cidr (l.to_cidr ip)) (send_target (of_ip_port ip port) s))
      else send_target (of_ip_port ip port) s

  unfoldable pub add_resolved : Text → Text → Bool → Text → Tracked → Tracked
  unfolding join_host_port stream_resolved
  add_resolved target port has_port ip s =
      if o.stream
      then stream_resolved target port has_port ip s
      else if not has_port
      then track ip target s
      else if ltb 0 (length o.ports)
      then track (join_host_port ip []) target s
      else track (join_host_port ip port) target s

  unfoldable pub add_each_resolved : Text → Text → Bool → List Text → Tracked → Tracked
  unfolding add_resolved
  add_each_resolved target port has_port [] s = s
  add_each_resolved target port has_port (ip ∷ ips) s =
      add_each_resolved target port has_port ips (add_resolved target port has_port ip s)

  -- A name, with or without a port.
  unfoldable pub add_name : Text → Tracked → Outcome TargetError Tracked
  unfolding get_port resolve_fqdn add_each_resolved
  add_name target s =
      let (host, port, has_port) = get_port l.network target in
      elim (resolve_fqdn l.network o (if has_port then host else target)) [
        | err e ↦ err (not_resolved e)
        | ok ips ↦ ok (add_each_resolved target port has_port ips s)
      ]

  -- `AddTarget`: with an error nothing is added.
  unfoldable pub add_target : Text → Tracked → Outcome TargetError Tracked
  unfolding trim_space add_cidr add_cidrs add_address add_name
  add_target text s =
      let target = trim_space text in
      if target =? []
      then ok s
      else if l.is_asn target
      then elim (l.cidrs_for_asn target) [
        | none ↦ err asn_failed
        | some cidrs ↦ ok (add_cidrs cidrs s)
      ]
      else if l.is_cidr target
      then ok (add_cidr target s)
      else if l.network.is_ip target && not (l.ranged s.added target)
      then ok (add_address target s)
      else add_name target s

  -- `PreProcessTargets`: the lines in the order in which their goroutines add; errors are logged.
  unfoldable pub pre_process_targets : List Text → Tracked → Tracked
  unfolding add_target
  pre_process_targets [] s = s
  pre_process_targets (line ∷ lines) s = elim (add_target line s) [
    | err e ↦ pre_process_targets lines s
    | ok next ↦ pre_process_targets lines next
  ]

  unfoldable pub is_ip_or_cidr : Text → Bool
  is_ip_or_cidr s = l.network.is_ip s || l.is_cidr s

  -- `getExcludeItems`
  unfoldable pub get_exclude_items : Text → Outcome TargetError (List Text)
  unfolding is_ip_or_cidr host2ips
  get_exclude_items s =
      let ((v4, v6), error) = host2ips l.network o s in
      if is_ip_or_cidr s
      then ok (s ∷ [])
      else elim error [ some e ↦ err (not_resolved e) | none ↦ ok (v4 ++ v6) ]

  unfoldable pub exclude_each : List Text → List Text → Outcome TargetError (List Text)
  unfolding get_exclude_items
  exclude_each [] ips = ok ips
  exclude_each (host ∷ hosts) ips =
      get_exclude_items host >>= λ items. exclude_each hosts (ips ++ items)

  unfoldable pub exclude_file : Option (List Text) → List Text → Outcome TargetError (List Text)
  unfolding exclude_each
  exclude_file none ips = err file_not_read
  exclude_file (some lines) ips = exclude_each lines ips

  -- `parseExcludedIps`; `lines` are those of the file of excluded addresses. With an error the
  -- addresses so far are dropped, as its caller does.
  unfoldable pub parse_excluded_ips : Option (List Text) → Outcome TargetError (List Text)
  unfolding exclude_each exclude_file split
  parse_excluded_ips lines =
      (if o.exclude_ips =? [] then ok [] else exclude_each (split b',' o.exclude_ips) []) >>= λ ips.
      if o.exclude_ips_file =? [] then ok ips else exclude_file lines ips
