-- ===== src/Runner/Targets/Tests.antt =====
-- Targets that are added.
use naabu.Prelude.{◌≡◌, refl, false, [], ◌∷◌, ok, none, filter}
use naabu.Prelude.Text.{codes}
use naabu.Runner.Options.{Options, no_options}
use naabu.Runner.Resolve.{
  client_of, query, wants, records, or_system, of_system, resolve_name, host2ips, firsts, choose,
  resolve_fqdn, get_port,
}
use naabu.Runner.Resolve.Samples.{network}
use naabu.Runner.Targets.{
  Tracked, Lookups, add_name, add_each_resolved, add_resolved, join_host_port,
}
use naabu.Runner.Targets.Resolved.{Extends, add_name-Extends}

abbrev lookups : Lookups
lookups = record {
  network = network;
  is_asn = λ s. false;
  cidrs_for_asn = λ s. none;
  is_cidr = λ s. false;
  to4 = λ s. none;
  to_cidr = λ s. s;
  to_fqdn = λ s. none;
  ranged = λ added s. false;
}

abbrev options : Options
options = record no_options { dns_order = codes "l" }

abbrev empty : Tracked
empty = record { added = []; sent = [] }

abbrev reached : Tracked
reached = record { added = (codes "10.0.0.1:80", codes "host:80") ∷ []; sent = [] }

with_port : add_name lookups options (codes "host:80") empty ≡ ok reached
unfolding add_name get_port resolve_fqdn host2ips resolve_name query client_of records wants
    or_system of_system choose firsts filter add_each_resolved add_resolved join_host_port
with_port = refl

add_name-Extends_example :
    Extends network (codes "host:80") ((get_port network (codes "host:80")).1) empty reached
add_name-Extends_example = add_name-Extends lookups options (codes "host:80") empty with_port
