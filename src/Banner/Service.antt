-- ===== src/Banner/Service.antt =====
-- pkg/banner/grabber.go: the record of a service, the services by port, and the texts of the network.
use naabu.Prelude.{
  ℕ, Bool, ◌&&◌, ◌||◌, List, [], ◌∷◌, none, some, if◌then◌else◌, ◌==◌, leb, ltb, length, take, map,
  lookup,
}
use naabu.Prelude.Int.{ℤ, pos, int_eq}
use naabu.Prelude.Text.{Text, codes}

-- `GrabTime` is in nanoseconds.
pub record ServiceInfo : Type 0 where
  pub host : Text
  pub ip : Text
  pub port : ℤ
  pub protocol : Text
  pub tls : Bool
  pub service_name : Text
  pub product : Text
  pub version : Text
  pub os : Text
  pub raw_banner : Text
  pub extra_info : Text
  pub confidence : ℕ
  pub grab_time : ℕ

abbrev pub well_known : List (ℤ × Text)
well_known =
    (pos 21, codes "FTP")
    ∷ (pos 22, codes "SSH")
    ∷ (pos 23, codes "Telnet")
    ∷ (pos 25, codes "SMTP")
    ∷ (pos 53, codes "DNS")
    ∷ (pos 80, codes "HTTP")
    ∷ (pos 110, codes "POP3")
    ∷ (pos 143, codes "IMAP")
    ∷ (pos 443, codes "HTTPS")
    ∷ (pos 465, codes "SMTPS")
    ∷ (pos 587, codes "SMTP")
    ∷ (pos 993, codes "IMAPS")
    ∷ (pos 995, codes "POP3S")
    ∷ (pos 1433, codes "MSSQL")
    ∷ (pos 1521, codes "Oracle")
    ∷ (pos 2375, codes "DockerHTTP")
    ∷ (pos 2376, codes "DockerHTTPS")
    ∷ (pos 3306, codes "MySQL")
    ∷ (pos 3389, codes "RDP")
    ∷ (pos 5432, codes "PostgreSQL")
    ∷ (pos 5900, codes "VNC")
    ∷ (pos 5984, codes "CouchDB")
    ∷ (pos 6379, codes "Redis")
    ∷ (pos 6443, codes "K8sAPI")
    ∷ (pos 8080, codes "HTTP")
    ∷ (pos 8443, codes "HTTPS")
    ∷ (pos 8888, codes "HTTP")
    ∷ (pos 9200, codes "Elasticsearch")
    ∷ (pos 9300, codes "Elasticsearch")
    ∷ (pos 27017, codes "MongoDB")
    ∷ []

unfoldable pub guess_service_name : ℤ → Text → Text
unfolding lookup
guess_service_name port raw = elim (lookup port well_known) [
  | none ↦ codes "Unknown"
  | some name ↦ name
]

-- Printable characters of ASCII and the breaks of lines.
abbrev pub is_printable : ℕ → Bool
is_printable c = leb 32 c && ltb c 127 || c == 10 || c == 13 || c == 9

-- A character of an invalid encoding is U+FFFD, as in a loop over a Go string.
unfoldable pub sanitize : Text → Text
sanitize s =
    let result = map (λ c. if is_printable c then c else b'.') s in
    if ltb 512 (length result) then take 512 result else result
