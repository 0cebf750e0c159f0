-- ===== src/Runner/Enhance.antt =====
-- pkg/runner/enhance.go: the callback that grabs banners and scans them, and the map of the whole scan.
-- The lock makes each operation one step.
mod Mapped
mod Tests
use naabu.Prelude.{
  ℕ, suc, Bool, true, false, List, [], ◌∷◌, ◌++◌, Option, none, some, if◌then◌else◌, ◌=?◌, map,
  lookup, insert, length, filter,
}
use naabu.Prelude.Int.{ℤ, pos, lt_int, int_eq}
use naabu.Prelude.Text.{Text, text_eq}
use naabu.Net.Protocol
use naabu.Net.Port
use naabu.Net.Port.{Port}
use naabu.Banner.Service
use naabu.Banner.Service.{ServiceInfo}
use naabu.Banner.Grab.{Response, grab}
use naabu.Vuln.Exposure
use naabu.Vuln.Exposure.{Finding}
use naabu.Vuln.Scan.{scan}

unfoldable pub add_findings : List Finding → List Finding → List Finding
add_findings all f = all ++ f

unfoldable pub grab_timeout : ℤ → ℤ
grab_timeout timeout = if lt_int (pos 0) timeout then timeout else pos 5000000000

-- What one goroutine does. The network's answers are those within the timeout.
unfoldable pub enhance_port :
    (Text → Option Response)
    → (Text → Bool → Option (List Text))
    → ℕ
    → Text
    → Text
    → Port
    → List Finding
    → List Finding
unfolding grab scan add_findings
enhance_port get dial elapsed host ip p all =
    let si = grab get dial elapsed host ip p.port (Protocol.string p.protocol) p.tls in
    add_findings all (scan si)

-- The ports in the order in which their goroutines add.
unfoldable pub enhance_ports :
    (Text → Option Response)
    → (Text → Bool → Option (List Text))
    → ℕ
    → Text
    → Text
    → List Port
    → List Finding
    → List Finding
unfolding enhance_port
enhance_ports get dial elapsed host ip [] all = all
enhance_ports get dial elapsed host ip (p ∷ ps) all =
    enhance_ports get dial elapsed host ip ps (enhance_port get dial elapsed host ip p all)

pub record HostScanResult : Type 0 where
  pub host : Text
  pub ip : Text
  pub services : List ServiceInfo
  pub findings : List Finding

abbrev pub ScanMap : Type 0
ScanMap = List (Text × HostScanResult)

abbrev pub new_scan_map : ScanMap
new_scan_map = []

-- The entry of a service's host, made where there is none.
unfoldable pub entry_of : ServiceInfo → ScanMap → HostScanResult
unfolding lookup
entry_of si m = elim (lookup si.host m) [
  | none ↦ record { host = si.host; ip = si.ip; services = []; findings = [] }
  | some e ↦ e
]

unfoldable pub add : ServiceInfo → List Finding → ScanMap → ScanMap
unfolding entry_of insert
add si fs m =
    let e = entry_of si m in
    insert si.host (record e { services = e.services ++ si ∷ []; findings = e.findings ++ fs }) m

unfoldable pub all : ScanMap → List HostScanResult
all = map (λ (e : Text × HostScanResult). e.1)

-- The number that `PrintMap` prints behind a service.
unfoldable pub vuln_count : HostScanResult → ServiceInfo → ℕ
unfolding filter
vuln_count r svc = length (filter (λ (f : Finding). f.port =? svc.port) r.findings)
