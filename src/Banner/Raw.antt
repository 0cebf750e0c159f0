-- ===== src/Banner/Raw.antt =====
-- pkg/banner/grabber.go: `parseRawBanner` and `parseServerHeader`.
use naabu.Prelude.{
  ℕ, ◌+◌, Bool, ◌&&◌, ◌||◌, List, [], ◌∷◌, none, some, if◌then◌else◌, ◌=?◌, length, switch,
}
use naabu.Prelude.Int.{ℤ, pos, int_eq}
use naabu.Prelude.Text.{Text, codes, text_eq, trim_space, has_prefix}
use naabu.Prelude.Search.{to_lower, contains_text, index_of, split_first, split_n, before_any, drop}
use naabu.Banner.Service.{guess_service_name}

-- The named results of `parseRawBanner`.
pub record Parsed : Type 0 where
  pub svc : Text
  pub product : Text
  pub version : Text
  pub os : Text
  pub extra : Text
  pub confidence : ℕ

abbrev pub service : Text → ℕ → Parsed
service name sure = record {
  svc = name;
  product = [];
  version = [];
  os = [];
  extra = [];
  confidence = sure;
}

unfoldable pub extract_after : Text → Text → Text
unfolding index_of before_any
extract_after s prefix = elim (index_of prefix s) [
  | none ↦ s
  | some i ↦ before_any (13 ∷ 10 ∷ []) (drop (i + length prefix) s)
]

-- The product's name before its first underscore, the version behind it.
unfoldable pub cut_version : Parsed → Parsed
unfolding split_first
cut_version p = elim (split_first b'_' p.product) [
  | none ↦ p
  | some (name, version) ↦ record p { product = name; version = version }
]

-- What stands behind the second dash of an SSH greeting.
unfoldable pub ssh_software : Text → Parsed
unfolding split_first cut_version
ssh_software rest = cut_version (elim (split_first b' ' rest) [
  | none ↦ record (service (codes "SSH") 95) { product = rest }
  | some (software, comment) ↦ record (service (codes "SSH") 95) {
    product = software;
    os = comment;
    extra = comment;
  }
])

unfoldable pub ssh_parts : List Text → Parsed
unfolding ssh_software
ssh_parts [] = service (codes "SSH") 95
ssh_parts (a ∷ []) = service (codes "SSH") 95
ssh_parts (a ∷ b ∷ []) = service (codes "SSH") 95
ssh_parts (a ∷ b ∷ rest ∷ more) = ssh_software rest

unfoldable pub parse_ssh : Text → Parsed
unfolding split_n ssh_parts
parse_ssh raw = ssh_parts (split_n b'-' 3 raw)

-- The cases of the switch behind that of SSH, each with its test.
unfoldable pub raw_cases : Text → List (Bool × Parsed)
unfolding has_prefix to_lower contains_text extract_after
raw_cases raw =
    let lower = to_lower raw in
    (
      has_prefix (codes "220 ") raw && contains_text (codes "ftp") lower,
      record (service (codes "FTP") 85) { product = extract_after raw (codes "220 ") },
    )
    ∷ (
      has_prefix (codes "220-") raw || has_prefix (codes "220 ") raw,
      record (service (codes "FTP/SMTP") 60) { product = extract_after raw (codes "220 ") },
    )
    ∷ (
      contains_text (codes "smtp") lower || contains_text (codes "esmtp") lower,
      record (service (codes "SMTP") 90) { product = extract_after raw (codes "220 ") },
    )
    ∷ (
      has_prefix (codes "-ERR") raw || contains_text (codes "redis") lower,
      service (codes "Redis") 80,
    )
    ∷ (
      contains_text (codes "mongodb") lower || contains_text (codes "ismaster") lower,
      service (codes "MongoDB") 75,
    )
    ∷ (
      contains_text (codes "mysql") lower || contains_text (codes "mariadb") lower,
      service (codes "MySQL/MariaDB") 80,
    )
    ∷ (contains_text (codes "postgresql") lower, service (codes "PostgreSQL") 75)
    ∷ (
      contains_text (codes "elasticsearch") lower || contains_text (codes "\"cluster_name\"") lower,
      service (codes "Elasticsearch") 85,
    )
    ∷ (
      has_prefix (codes "RFB ") raw,
      record (service (codes "VNC") 95) { version = extract_after raw (codes "RFB ") },
    )
    ∷ []

unfoldable pub recognize : Text → ℤ → Parsed
unfolding raw_cases parse_ssh has_prefix guess_service_name switch
recognize raw port = switch ((has_prefix (codes "SSH-") raw, parse_ssh raw) ∷ raw_cases raw) (
    if port =? pos 23
    then service (codes "Telnet") 50
    else service (guess_service_name port raw) 30)

unfoldable pub or_service : Parsed → Parsed
or_service p = if p.product =? [] then record p { product = p.svc } else p

unfoldable pub parse_raw_banner : Text → ℤ → Parsed
unfolding recognize or_service
parse_raw_banner raw port = or_service (recognize raw port)

-- The product and the version of a Server header.
unfoldable pub parse_server_header : Text → Text × Text
unfolding trim_space split_first
parse_server_header s =
    let header = trim_space s in
    elim (split_first b'/' header) [
      | none ↦ (header, [])
      | some (product, rest) ↦ elim (split_first b' ' rest) [
        | none ↦ (product, rest)
        | some (version, _) ↦ (product, version)
      ]
    ]
