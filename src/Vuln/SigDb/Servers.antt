-- ===== src/Vuln/SigDb/Servers.antt =====
-- pkg/vuln/scanner.go: signatures of known vulnerabilities. A CVSS score is in tenths, an EPSS one in
-- hundredths.
use naabu.Prelude.{true, List, [], ◌∷◌}
use naabu.Prelude.Text.{codes}
use naabu.Vuln.Signature.{SigEntry, no_sig, sev_medium, sev_high, sev_critical}

unfoldable pub tls_sigs : List SigEntry
tls_sigs =
    record no_sig {
      cve = codes "CVE-2014-0160";
      cwe = codes "CWE-125";
      title = codes "Heartbleed — OpenSSL memory disclosure";
      description =
          codes
            "The TLS heartbeat extension in OpenSSL 1.0.1 through 1.0.1f allows attackers to read up to 64 KB of process memory per request, potentially exposing private keys, passwords, and session tokens.";
      severity = sev_critical;
      cvss = 75;
      epss = 97;
      references =
          codes "https://nvd.nist.gov/vuln/detail/CVE-2014-0160"
          ∷ codes "https://heartbleed.com"
          ∷ [];
      fixed_in = codes "OpenSSL 1.0.1g";
      mitigation =
          codes "Upgrade OpenSSL; regenerate all keys and certificates; invalidate sessions.";
      exploit_avail = true;
      match_banner = codes "openssl/1.0.1";
    }
    ∷ record no_sig {
      cve = codes "CVE-2022-0778";
      cwe = codes "CWE-835";
      title = codes "OpenSSL infinite loop in BN_mod_sqrt() — DoS";
      description =
          codes
            "A crafted certificate with invalid elliptic curve parameters causes OpenSSL < 3.0.2 / 1.1.1n / 1.0.2zd to loop indefinitely, causing DoS.";
      severity = sev_high;
      cvss = 75;
      references = codes "https://nvd.nist.gov/vuln/detail/CVE-2022-0778" ∷ [];
      fixed_in = codes "OpenSSL 3.0.2 / 1.1.1n";
      match_banner = codes "openssl";
    }
    ∷ []

unfoldable pub ftp_sigs : List SigEntry
ftp_sigs =
    record no_sig {
      cve = codes "CVE-2011-2523";
      cwe = codes "CWE-78";
      title = codes "vsftpd 2.3.4 backdoor — unauthenticated shell on port 6200";
      description =
          codes
            "Trojanised vsftpd 2.3.4 distributed via certain mirrors contains a backdoor: entering a username containing ':)' triggers a bind shell on port 6200.";
      severity = sev_critical;
      cvss = 100;
      epss = 95;
      references = codes "https://nvd.nist.gov/vuln/detail/CVE-2011-2523" ∷ [];
      fixed_in = codes "2.3.5";
      mitigation = codes "Replace vsftpd immediately; verify binary checksum.";
      exploit_avail = true;
      match_banner = codes "vsftpd 2.3.4";
    }
    ∷ record no_sig {
      cve = codes "CVE-2010-4221";
      cwe = codes "CWE-121";
      title = codes "ProFTPD 1.3.2rc3 – 1.3.3b Telnet IAC stack overflow";
      description =
          codes
            "A stack-based buffer overflow via Telnet IAC commands in the ProFTPD daemon allows unauthenticated RCE.";
      severity = sev_critical;
      cvss = 100;
      references = codes "https://nvd.nist.gov/vuln/detail/CVE-2010-4221" ∷ [];
      fixed_in = codes "1.3.3c";
      exploit_avail = true;
      match_banner = codes "proftpd";
    }
    ∷ []

unfoldable pub smtp_sigs : List SigEntry
smtp_sigs =
    record no_sig {
      cve = codes "CVE-2010-4344";
      cwe = codes "CWE-122";
      title = codes "Exim 4.69 heap overflow — unauthenticated RCE as root";
      description =
          codes
            "A heap buffer overflow in Exim 4.69's string_vformat() allows a remote attacker to execute arbitrary code as root.";
      severity = sev_critical;
      cvss = 93;
      references = codes "https://nvd.nist.gov/vuln/detail/CVE-2010-4344" ∷ [];
      fixed_in = codes "4.70";
      exploit_avail = true;
      match_banner = codes "exim 4.69";
    }
    ∷ record no_sig {
      cve = codes "CVE-2019-10149";
      cwe = codes "CWE-78";
      title = codes "Exim 4.87–4.91 — local/remote command execution ('The Return of the WIZard')";
      description =
          codes
            "A flaw in deliver_message() allows command injection via the RCPT TO address in Exim 4.87–4.91, leading to root code execution.";
      severity = sev_critical;
      cvss = 98;
      epss = 97;
      references = codes "https://nvd.nist.gov/vuln/detail/CVE-2019-10149" ∷ [];
      fixed_in = codes "4.92";
      exploit_avail = true;
      match_banner = codes "exim";
      min_version = codes "4.87";
      max_version = codes "4.91";
    }
    ∷ record no_sig {
      cve = codes "CVE-2020-28017";
      cwe = codes "CWE-190";
      title = codes "Exim 21Nails — integer overflow in receive_add_recipient (< 4.94.2)";
      description =
          codes
            "One of 21 Qualys-discovered flaws in Exim. Integer overflow allows heap corruption and RCE.";
      severity = sev_critical;
      cvss = 98;
      references =
          codes "https://nvd.nist.gov/vuln/detail/CVE-2020-28017"
          ∷ codes "https://www.qualys.com/2021/05/04/21nails/21nails.txt"
          ∷ [];
      fixed_in = codes "4.94.2";
      exploit_avail = true;
      match_banner = codes "exim";
      max_version = codes "4.94.1";
    }
    ∷ []

unfoldable pub memcached_sigs : List SigEntry
memcached_sigs =
    record no_sig {
      cve = codes "CVE-2011-4971";
      cwe = codes "CWE-189";
      title = codes "Memcached < 1.4.15 — integer overflow DoS";
      description =
          codes
            "An integer overflow in Memcached < 1.4.15 allows remote DoS via crafted binary protocol packets.";
      severity = sev_medium;
      cvss = 50;
      references = codes "https://nvd.nist.gov/vuln/detail/CVE-2011-4971" ∷ [];
      fixed_in = codes "1.4.15";
      match_banner = codes "memcached";
      max_version = codes "1.4.14";
    }
    ∷ []
