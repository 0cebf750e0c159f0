-- ===== src/Vuln/Tests.antt =====
-- Scans of services.
use naabu.Prelude.{inl, ◌≡◌, refl, true, false, [], ◌∷◌, map, elem, arith, All}
use naabu.Prelude.Int.{pos}
use naabu.Prelude.Text.{Text, codes, text_eq, has_prefix}
use naabu.Prelude.Decimal.{itoa, print, print_fuel}
use naabu.Prelude.Search.{to_lower, lower_char, contains_text, text_lt}
use naabu.Prelude.Unseen.{IsDistinct}
use naabu.Banner.Service.{ServiceInfo}
use naabu.Banner.Raw.{parse_raw_banner}
use naabu.Vuln.Signature.{match_sig}
use naabu.Vuln.SigDb.{sig_db, ssh_sigs}
use naabu.Vuln.Exposure.{Finding, exposure_checks}
use naabu.Vuln.Scan.{key, matches, sig_finding, scan_with}
use naabu.Vuln.Scanned.{applying, scan_with-exact}
use naabu.Vuln.Versions.{
  unversioned, scan_with-unversioned, scan_with-at, scan_with-first_character,
}
use naabu.Vuln.Greeting.{exposure_checks-220}

abbrev openssh : Text → ServiceInfo
openssh version = record {
  host = codes "host";
  ip = codes "10.0.0.1";
  port = pos 22;
  protocol = codes "tcp";
  tls = false;
  service_name = codes "SSH";
  product = codes "OpenSSH";
  version = version;
  os = [];
  raw_banner = [];
  extra_info = [];
  confidence = 95;
  grab_time = 0;
}

abbrev agent_key : Text
agent_key = codes "CVE-2023-38408|OpenSSH ssh-agent PKCS#11 remote code execution|22"

scan_with-exact_example :
    IsDistinct (map key (scan_with sig_db (openssh (codes "9.6p1"))))
    × ((k : Text)
        → elem k (map key (scan_with sig_db (openssh (codes "9.6p1"))))
          ≡ elem k (map key (applying sig_db (openssh (codes "9.6p1")))))
    × ((P : Finding → Type 0)
        → All P (applying sig_db (openssh (codes "9.6p1")))
        → All P (scan_with sig_db (openssh (codes "9.6p1"))))
scan_with-exact_example = scan_with-exact sig_db (openssh (codes "9.6p1"))

scan_with-first_character_example :
    elem agent_key (map key (scan_with ssh_sigs (openssh (codes "10.0p1")))) ≡ true
unfolding ssh_sigs key itoa print print_fuel sig_finding matches match_sig to_lower lower_char
    contains_text has_prefix
scan_with-first_character_example =
    scan_with-first_character ssh_sigs (openssh (codes "10.0p1")) 2 _ b'9' b'1' (codes ".3p1")
      (codes "0.0p1") refl refl refl (omega arith) refl refl

scan_with-unversioned_example :
    elem agent_key (map key (scan_with ssh_sigs (unversioned (openssh (codes "9.2p1"))))) ≡ true
unfolding ssh_sigs key itoa print print_fuel sig_finding matches match_sig to_lower lower_char
    contains_text has_prefix text_lt
scan_with-unversioned_example =
    scan_with-unversioned ssh_sigs (openssh (codes "9.2p1")) agent_key
      (scan_with-at ssh_sigs (openssh (codes "9.2p1")) 2 _ refl refl)

exposure_checks-220_example :
    map
      (λ (f : Finding). f.title)
      (exposure_checks
        (record (openssh []) { service_name = (parse_raw_banner (codes "220 mx") (pos 25)).svc }))
    ≡ codes "FTP — plaintext credential transmission" ∷ []
exposure_checks-220_example =
    exposure_checks-220 b' ' (inl refl) (codes "mx") (pos 25)
      (record (openssh []) { service_name = (parse_raw_banner (codes "220 mx") (pos 25)).svc }) refl
