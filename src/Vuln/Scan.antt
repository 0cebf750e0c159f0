-- ===== src/Vuln/Scan.antt =====
-- pkg/vuln/scanner.go: `Scan`, with the findings it keeps.
use naabu.Prelude.{Bool, List, [], ◌∷◌, ◌++◌, if◌then◌else◌}
use naabu.Prelude.Text.{Text, codes, text_eq}
use naabu.Prelude.Decimal.{itoa}
use naabu.Prelude.Search.{to_lower}
use naabu.Prelude.Unseen.{add_unseen, add_all}
use naabu.Banner.Service.{ServiceInfo}
use naabu.Vuln.Signature.{SigEntry, match_sig}
use naabu.Vuln.SigDb.{sig_db}
use naabu.Vuln.Exposure.{Finding, exposure_checks}

-- Two findings with one key are one.
unfoldable pub key : Finding → Text
unfolding itoa
key f = f.cve ++ codes "|" ++ f.title ++ codes "|" ++ itoa f.port

unfoldable pub sig_finding : ServiceInfo → SigEntry → Finding
sig_finding si sig = record {
  cve = sig.cve;
  cwe = sig.cwe;
  title = sig.title;
  description = sig.description;
  severity = sig.severity;
  cvss = sig.cvss;
  epss = sig.epss;
  references = sig.references;
  fixed_in = sig.fixed_in;
  mitigation = sig.mitigation;
  exploit_avail = sig.exploit_avail;
  service = si.service_name;
  port = si.port;
  host = si.host;
}

unfoldable pub matches : ServiceInfo → SigEntry → Bool
unfolding match_sig to_lower
matches si sig =
    match_sig sig (to_lower si.service_name) (to_lower si.product) si.version
      (to_lower si.raw_banner) si.port

-- The loop over the signatures, on the keys that are seen and the findings so far.
unfoldable pub scan_sigs :
    ServiceInfo → List SigEntry → List Text × List Finding → List Text × List Finding
unfolding matches sig_finding key add_unseen
scan_sigs si [] st = st
scan_sigs si (sig ∷ sigs) st =
    scan_sigs si sigs (if matches si sig then add_unseen key st (sig_finding si sig) else st)

-- `Scan` on a table of signatures.
unfoldable pub scan_with : List SigEntry → ServiceInfo → List Finding
unfolding scan_sigs add_all exposure_checks
scan_with db si = (add_all key (scan_sigs si db ([], [])) (exposure_checks si)).1

unfoldable pub scan : ServiceInfo → List Finding
unfolding scan_with sig_db
scan si = scan_with sig_db si
