-- ===== src/Vuln/Exposure.antt =====
-- pkg/vuln/scanner.go: the exposure checks, which a service's name alone decides. A score is in tenths.
use naabu.Prelude.{ℕ, Bool, false, ◌&&◌, ◌||◌, List, [], ◌∷◌, ◌=?◌, switch}
use naabu.Prelude.Int.{ℤ, pos, int_eq}
use naabu.Prelude.Text.{Text, codes}
use naabu.Prelude.Search.{to_lower, contains_text}
use naabu.Banner.Service.{ServiceInfo}
use naabu.Vuln.Signature.{Severity, sev_medium, sev_high, sev_critical}

-- A CVSS score is in tenths, an EPSS one in hundredths.
pub record Finding : Type 0 where
  pub cve : Text
  pub cwe : Text
  pub title : Text
  pub description : Text
  pub severity : Severity
  pub cvss : ℕ
  pub epss : ℕ
  pub references : List Text
  pub fixed_in : Text
  pub mitigation : Text
  pub exploit_avail : Bool
  pub service : Text
  pub port : ℤ
  pub host : Text

unfoldable pub exposure : ServiceInfo → Text → Text → Text → Severity → ℕ → List Text → Finding
exposure si title desc mitigation sev cvss refs = record {
  cve = [];
  cwe = [];
  title = title;
  description = desc;
  severity = sev;
  cvss = cvss;
  epss = 0;
  references = refs;
  fixed_in = [];
  mitigation = mitigation;
  exploit_avail = false;
  service = si.service_name;
  port = si.port;
  host = si.host;
}

-- The cases of the switch, each with its test.
unfoldable pub exposure_cases : ServiceInfo → List (Bool × List Finding)
unfolding to_lower contains_text exposure
exposure_cases si =
    let svc = to_lower si.service_name in
    (
      contains_text (codes "redis") svc,
      exposure si (codes "Redis exposed without authentication")
            (codes
              "Redis is reachable on the network with its default configuration. No password is required. An attacker can read/write all data, execute Lua via EVAL, and pivot to the host.")
            (codes "Set requirepass in redis.conf; bind to 127.0.0.1 or use firewall rules.")
            sev_critical 98 (codes "https://redis.io/docs/management/security/" ∷ [])
          ∷ [],
    )
    ∷ (
      contains_text (codes "mongodb") svc,
      exposure si (codes "MongoDB exposed without authentication")
            (codes
              "MongoDB is listening on a network interface with no authentication configured. All databases are publicly readable and writable.")
            (codes "Enable --auth; use network-level access controls.") sev_critical 98
            (codes "https://www.mongodb.com/docs/manual/security/" ∷ [])
          ∷ [],
    )
    ∷ (
      contains_text (codes "elasticsearch") svc,
      exposure si (codes "Elasticsearch exposed without authentication")
            (codes
              "Elasticsearch cluster is accessible without credentials. Indices, cluster config, and mappings are readable by anyone.")
            (codes "Enable X-Pack Security; restrict with firewall.") sev_high 75
            (codes
                "https://www.elastic.co/guide/en/elasticsearch/reference/current/security-minimal-setup.html"
              ∷ [])
          ∷ [],
    )
    ∷ (
      contains_text (codes "couchdb") svc,
      exposure si (codes "CouchDB exposed (check for admin party mode)")
            (codes
              "CouchDB in default 'admin party' mode allows anyone to perform admin operations.")
            (codes "Create an admin user immediately after installation.") sev_critical 98
            (codes "https://docs.couchdb.org/en/stable/intro/security.html" ∷ [])
          ∷ [],
    )
    ∷ (
      contains_text (codes "vnc") svc,
      exposure si (codes "VNC service exposed")
            (codes
              "VNC remote desktop is reachable over the network. Weak or absent authentication allows full desktop takeover.")
            (codes "Restrict VNC to loopback and tunnel through SSH; enforce strong passwords.")
            sev_high 75 (codes "https://attack.mitre.org/techniques/T1021/005/" ∷ [])
          ∷ [],
    )
    ∷ (
      contains_text (codes "telnet") svc,
      exposure si (codes "Telnet — plaintext credential transmission")
            (codes
              "Telnet sends all data including credentials in cleartext, trivially intercepted on shared networks.")
            (codes "Replace with SSH immediately.") sev_high 73
            (codes "https://cwe.mitre.org/data/definitions/319.html" ∷ [])
          ∷ [],
    )
    ∷ (
      contains_text (codes "ftp") svc,
      exposure si (codes "FTP — plaintext credential transmission")
            (codes
              "FTP transmits usernames and passwords in cleartext. Credentials can be sniffed from the same LAN or MITM path.")
            (codes "Replace with SFTP or FTPS.") sev_medium 59
            (codes "https://cwe.mitre.org/data/definitions/319.html" ∷ [])
          ∷ [],
    )
    ∷ (
      (si.port =? pos 2375)
          && (contains_text (codes "docker") svc || contains_text (codes "http") svc),
      exposure si (codes "Docker daemon API exposed without TLS (port 2375)")
            (codes
              "The Docker API on port 2375 has no TLS and no authentication. An attacker can create privileged containers and escape to the host OS.")
            (codes "Migrate to port 2376 with TLS client certificates; block 2375 in firewall.")
            sev_critical 98 (codes "https://docs.docker.com/engine/security/protect-access/" ∷ [])
          ∷ [],
    )
    ∷ (
      (si.port =? pos 6443)
          && (contains_text (codes "k8s") svc || contains_text (codes "http") svc),
      exposure si (codes "Kubernetes API server exposed")
            (codes
              "The Kubernetes API server is reachable. If RBAC is misconfigured or anonymous access is enabled, an attacker can control the cluster.")
            (codes "Disable anonymous auth; enforce RBAC; restrict API access.") sev_high 80
            (codes "https://kubernetes.io/docs/concepts/security/" ∷ [])
          ∷ [],
    )
    ∷ (
      contains_text (codes "smtp") svc,
      exposure si (codes "SMTP open relay check recommended")
            (codes
              "An exposed SMTP server may be misconfigured as an open relay, allowing spam or phishing abuse.")
            (codes "Restrict relay to authenticated users only; enable SPF/DKIM/DMARC.") sev_medium
            53 (codes "https://www.rfc-editor.org/rfc/rfc5321" ∷ [])
          ∷ [],
    )
    ∷ []

unfoldable pub exposure_checks : ServiceInfo → List Finding
unfolding exposure_cases switch
exposure_checks si = switch (exposure_cases si) []
