-- ===== src/Runner/Enhance/Tests.antt =====
-- The map of a scan.
use naabu.Prelude.{◌≡◌, refl, false, List, [], ◌∷◌, ◌++◌, lookup, insert}
use naabu.Prelude.Int.{pos}
use naabu.Prelude.Text.{Text, codes, text_eq}
use naabu.Banner.Service.{ServiceInfo}
use naabu.Vuln.Exposure.{Finding}
use naabu.Runner.Enhance.{new_scan_map, entry_of, add}
use naabu.Runner.Enhance.Mapped.{
  add_each, services_in, findings_in, services_brought, findings_brought, add_each-exact,
}

abbrev service_of : Text → Text → ServiceInfo
service_of host name = record {
  host = host;
  ip = codes "10.0.0.1";
  port = pos 22;
  protocol = codes "tcp";
  tls = false;
  service_name = name;
  product = [];
  version = [];
  os = [];
  raw_banner = [];
  extra_info = [];
  confidence = 20;
  grab_time = 0;
}

abbrev calls : List (ServiceInfo × List Finding)
calls =
    (service_of (codes "a") (codes "SSH"), [])
    ∷ (service_of (codes "b") (codes "FTP"), [])
    ∷ (service_of (codes "a") (codes "HTTP"), [])
    ∷ []

add_each-exact_example :
    (services_in (lookup (codes "a") (add_each calls new_scan_map))
      ≡ services_in (lookup (codes "a") new_scan_map) ++ services_brought (codes "a") calls)
    × (findings_in (lookup (codes "a") (add_each calls new_scan_map))
        ≡ findings_in (lookup (codes "a") new_scan_map) ++ findings_brought (codes "a") calls)
add_each-exact_example = add_each-exact calls (codes "a") new_scan_map

two_services :
    services_in (lookup (codes "a") (add_each calls new_scan_map))
    ≡ service_of (codes "a") (codes "SSH") ∷ service_of (codes "a") (codes "HTTP") ∷ []
unfolding add_each add entry_of lookup insert
two_services = refl
