-- ===== src/Runner/Enhance/Mapped.antt =====
-- pkg/runner/enhance.go: what the map of the whole scan holds after any calls of `Add`.
use naabu.Prelude.{
  ◌≡◌, refl, sym, ap, ◌∙◌, inl, inr, true, false, List, [], ◌∷◌, ◌++◌, append-nil, append_assoc,
  Option, none, some, if◌then◌else◌, ◌=?◌, lookup, lookup-insert, Bool-cases, Option-cases,
}
use naabu.Prelude.Text.{Text, text_eq}
use naabu.Banner.Service.{ServiceInfo}
use naabu.Vuln.Exposure.{Finding}
use naabu.Runner.Enhance.{HostScanResult, ScanMap, entry_of, add}

-- A sequence of calls.
unfoldable pub add_each : List (ServiceInfo × List Finding) → ScanMap → ScanMap
add_each [] m = m
add_each ((si, fs) ∷ calls) m = add_each calls (add si fs m)

abbrev pub services_in : Option HostScanResult → List ServiceInfo
services_in none = []
services_in (some e) = e.services

abbrev pub findings_in : Option HostScanResult → List Finding
findings_in none = []
findings_in (some e) = e.findings

-- The services and the findings that the calls bring for a host, in their order.
unfoldable pub services_brought : Text → List (ServiceInfo × List Finding) → List ServiceInfo
services_brought host [] = []
services_brought host ((si, fs) ∷ calls) =
    let rest = services_brought host calls in if si.host =? host then si ∷ rest else rest

unfoldable pub findings_brought : Text → List (ServiceInfo × List Finding) → List Finding
findings_brought host [] = []
findings_brought host ((si, fs) ∷ calls) =
    let rest = findings_brought host calls in if si.host =? host then fs ++ rest else rest

entry_of-lookup :
    (si : ServiceInfo) (m : ScanMap)
    → ((entry_of si m).services ≡ services_in (lookup si.host m))
      × ((entry_of si m).findings ≡ findings_in (lookup si.host m))
unfolding entry_of
entry_of-lookup si m = elim (Option-cases (lookup si.host m)) [
  | inl new ↦ rw (entry_of, new) (refl, refl)
  | inr (e, old) ↦ rw (entry_of, old) (refl, refl)
]

lookup-add :
    (host : Text) (si : ServiceInfo) (fs : List Finding) (m : ScanMap)
    → lookup host (add si fs m) ≡ (
        if si.host =? host
        then some (record (entry_of si m) {
          services = (entry_of si m).services ++ si ∷ [];
          findings = (entry_of si m).findings ++ fs;
        })
        else lookup host m)
unfolding add
lookup-add host si fs m = lookup-insert si.host host _ m

module _ (host : Text) (si : ServiceInfo) (fs : List Finding) (m : ScanMap) where
  other-add : (si.host =? host) ≡ false → lookup host (add si fs m) ≡ lookup host m
  other-add other = lookup-add host si fs m ∙ rw other refl

  same-lookup :
      (si.host =? host) ≡ true
      → lookup host (add si fs m)
        ≡ some (record (entry_of si m) {
          services = (entry_of si m).services ++ si ∷ [];
          findings = (entry_of si m).findings ++ fs;
        })
  same-lookup same = lookup-add host si fs m ∙ rw same refl

  same-add :
      (si.host =? host) ≡ true
      → (services_in (lookup host (add si fs m)) ≡ services_in (lookup host m) ++ si ∷ [])
        × (findings_in (lookup host (add si fs m)) ≡ findings_in (lookup host m) ++ fs)
  same-add same =
      let p = (text_eq.same_iff si.host host).0 same in
      let (s, f) = entry_of-lookup si m in
      let e = same-lookup same in
      (
        ap services_in e
            ∙ ap (λ (t : List ServiceInfo). t ++ si ∷ [])
                (s ∙ ap (λ (h : Text). services_in (lookup h m)) p),
        ap findings_in e
            ∙ ap (λ (t : List Finding). t ++ fs)
                (f ∙ ap (λ (h : Text). findings_in (lookup h m)) p),
      )

-- After any calls of Add, the entry of a host holds the services and the findings that the calls
-- brought for this host, in their order, behind those that it had.
pub add_each-exact :
    (calls : List (ServiceInfo × List Finding)) (host : Text) (m : ScanMap)
    → (services_in (lookup host (add_each calls m))
        ≡ services_in (lookup host m) ++ services_brought host calls)
      × (findings_in (lookup host (add_each calls m))
          ≡ findings_in (lookup host m) ++ findings_brought host calls)
unfolding add_each services_brought findings_brought
add_each-exact [] host m = (sym (append-nil _), sym (append-nil _))
add_each-exact ((si, fs) ∷ calls) host m =
    let (ss, more) = add_each-exact calls host (add si fs m) in
    elim (Bool-cases (si.host =? host)) [
      | inl same ↦
          let (s, f) = same-add host si fs m same in
          rw same (
            ss
                ∙ ap (λ (t : List ServiceInfo). t ++ services_brought host calls) s
                ∙ append_assoc _ (si ∷ []) _,
            more
                ∙ ap (λ (t : List Finding). t ++ findings_brought host calls) f
                ∙ append_assoc _ fs _,
          )
      | inr other ↦
          let o = other-add host si fs m other in
          rw other (
            ss ∙ ap (λ (e : Option HostScanResult). services_in e ++ services_brought host calls) o,
            more
                ∙ ap (λ (e : Option HostScanResult). findings_in e ++ findings_brought host calls)
                    o,
          )
    ]
