-- ===== src/Vuln/Greeting.antt =====
-- pkg/banner/grabber.go and pkg/vuln/scanner.go together: mail servers.
use naabu.Prelude.{ℕ, ◌≡◌, ◌⊎◌, refl, ◌∙◌, inl, inr, arith, [], ◌∷◌, ◌++◌, map, switch, Bool-cases}
use naabu.Prelude.Int.{ℤ}
use naabu.Prelude.Text.{Text, codes, has_prefix}
use naabu.Prelude.Search.{to_lower, lower_char, contains_text}
use naabu.Banner.Service.{ServiceInfo}
use naabu.Banner.Raw.{Parsed, parse_raw_banner, recognize, raw_cases, or_service}
use naabu.Vuln.Exposure.{Finding, exposure, exposure_cases, exposure_checks}

or_service-svc : (p : Parsed) → (or_service p).svc ≡ p.svc
unfolding or_service
or_service-svc p = ground arith

module _ (c : ℕ) (sep : (c ≡ b' ') ⊎ (c ≡ b'-')) where
  recognize-220 :
      (s : Text) (port : ℤ)
      → ((recognize (codes "220" ++ c ∷ s) port).svc ≡ codes "FTP")
        ⊎ ((recognize (codes "220" ++ c ∷ s) port).svc ≡ codes "FTP/SMTP")
  unfolding recognize raw_cases switch has_prefix
  recognize-220 s port = elim sep [
    | inl blank ↦
        rw blank (elim (Bool-cases (contains_text (codes "ftp") (to_lower (codes "220 " ++ s)))) [
          | inl ftp ↦ rw ftp (inl refl)
          | inr other ↦ rw other (inr refl)
        ])
    | inr dash ↦ rw dash (inr refl)
  ]

  -- Every greeting that begins with 220 and a blank or a dash, as those of FTP and of mail servers do,
  -- makes a service whose one exposure is that of FTP.
  pub exposure_checks-220 :
      (s : Text) (port : ℤ) (si : ServiceInfo)
      → si.service_name ≡ (parse_raw_banner (codes "220" ++ c ∷ s) port).svc
      → map (λ (f : Finding). f.title) (exposure_checks si)
        ≡ codes "FTP — plaintext credential transmission" ∷ []
  unfolding parse_raw_banner exposure_checks exposure_cases exposure switch to_lower lower_char
      contains_text has_prefix
  exposure_checks-220 s port si named =
      let name = named ∙ or_service-svc (recognize (codes "220" ++ c ∷ s) port) in
      elim (recognize-220 s port) [
        | inl ftp ↦ rw (name ∙ ftp) refl
        | inr both ↦ rw (name ∙ both) refl
      ]
