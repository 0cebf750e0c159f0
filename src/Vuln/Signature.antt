-- ===== src/Vuln/Signature.antt =====
-- pkg/vuln/scanner.go: the signatures and what matches them.
use naabu.Prelude.{ℕ, Bool, true, false, not, ◌&&◌, List, [], if◌then◌else◌, ◌=?◌}
use naabu.Prelude.Int.{ℤ, pos, int_eq}
use naabu.Prelude.Text.{Text, text_eq}
use naabu.Prelude.Search.{contains_text, text_lt}

pub data Severity : Type 0 where
  sev_info sev_low sev_medium sev_high sev_critical : Severity

-- A CVSS score is in tenths, an EPSS one in hundredths.
pub record SigEntry : Type 0 where
  pub cve : Text
  pub cwe : Text
  pub title : Text
  pub description : Text
  pub severity : Severity
  pub cvss : ℕ
  pub epss : ℕ
  pub references : List Text
  pub fixed_in : Text
  pub mitigation : Text
  pub exploit_avail : Bool
  pub match_service : Text
  pub match_product : Text
  pub match_banner : Text
  pub port : ℤ
  pub min_version : Text
  pub max_version : Text

-- Go's zero values, which an entry has where it says nothing.
abbrev pub no_sig : SigEntry
no_sig = record {
  cve = [];
  cwe = [];
  title = [];
  description = [];
  severity = sev_info;
  cvss = 0;
  epss = 0;
  references = [];
  fixed_in = [];
  mitigation = [];
  exploit_avail = false;
  match_service = [];
  match_product = [];
  match_banner = [];
  port = pos 0;
  min_version = [];
  max_version = [];
}

unfoldable pub match_sig : SigEntry → Text → Text → Text → Text → ℤ → Bool
unfolding contains_text text_lt
match_sig sig svc prod ver raw_banner port =
    if not (sig.port =? pos 0) && not (sig.port =? port)
    then false
    else if not (sig.match_service =? []) && not (contains_text sig.match_service svc)
    then false
    else if not (sig.match_product =? []) && not (contains_text sig.match_product prod)
    then false
    else if not (sig.match_banner =? []) && not (contains_text sig.match_banner raw_banner)
    then false
    else if ver =? []
    then true
    else if not (sig.min_version =? []) && text_lt ver sig.min_version
    then false
    else if not (sig.max_version =? []) && text_lt sig.max_version ver
    then false
    else true
