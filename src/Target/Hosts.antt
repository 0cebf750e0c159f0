-- ===== src/Target/Hosts.antt =====
-- cmd/naabu/main.go: the hosts of the options before the runner is made.
use naabu.Prelude.{Bool, List, [], ◌∷◌, ◌++◌, Option, none, some, if◌then◌else◌, ◌=?◌, map}
use naabu.Prelude.Int.{pos, lt_int}
use naabu.Prelude.Text.{Text, text_eq}
use naabu.Prelude.Decimal.{itoa}
use naabu.Target.{Target, Url, parse_all}
use naabu.Runner.Options.{Options}

-- The ports of the targets behind those of the options.
unfoldable pub derive_ports : List Target → Text → Text
unfolding itoa
derive_ports [] ports = ports
derive_ports (t ∷ ts) ports = derive_ports ts (
    if lt_int (pos 0) t.port
    then if ports =? [] then itoa t.port else ports ++ b',' ∷ itoa t.port
    else ports)

abbrev pub clean_hosts : List Target → Option (List Text) → Option (List Text)
clean_hosts [] hosts = hosts
clean_hosts (t ∷ ts) hosts = some (map (λ (t : Target). t.host) (t ∷ ts))

unfoldable pub derive_hosts : (Text → Bool) → (Text → Option Url) → Options → Options
unfolding derive_ports parse_all
derive_hosts parse_cidr parse_url o = elim o.host [
  | none ↦ o
  | some [] ↦ o
  | some (h ∷ hosts) ↦
      (let (targets, errs) = parse_all parse_cidr parse_url (h ∷ hosts) in
        record o { host = clean_hosts targets o.host; ports = derive_ports targets o.ports })
]
