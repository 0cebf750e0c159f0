-- ===== src/Runner/Resolve/Tests.antt =====
-- Names that are resolved.
use naabu.Prelude.{◌≡◌, refl, true, [], ◌∷◌, ok, err, filter}
use naabu.Prelude.Text.{codes}
use naabu.Runner.Options.{Options, no_options}
use naabu.Runner.Resolve.{
  ResolveError, client_of, query, wants, records, or_system, of_system, resolve_name, host2ips,
  firsts, choose, resolve_fqdn,
}
use naabu.Runner.Resolve.Samples.{network}
use naabu.Runner.Resolve.Excluded.{resolve_fqdn-failed}

-- With the system's resolver as a fallback.
abbrev options : Options
options = record no_options { dns_order = codes "l"; system_resolver = true }

resolve_fqdn-failed_example :
    (e : ResolveError) × (resolve_fqdn network options (codes "other") ≡ err e)
unfolding query client_of
resolve_fqdn-failed_example = resolve_fqdn-failed network options (codes "other") refl refl

second : resolve_fqdn network options (codes "host") ≡ ok (codes "10.0.0.1" ∷ [])
unfolding resolve_fqdn host2ips resolve_name query client_of records wants or_system of_system
    choose firsts filter
second = refl
