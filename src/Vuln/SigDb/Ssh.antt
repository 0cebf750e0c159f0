-- ===== src/Vuln/SigDb/Ssh.antt =====
-- pkg/vuln/scanner.go: signatures of known vulnerabilities. A CVSS score is in tenths, an EPSS one in
-- hundredths.
use naabu.Prelude.{true, false, List, [], ◌∷◌}
use naabu.Prelude.Text.{codes}
use naabu.Vuln.Signature.{SigEntry, no_sig, sev_medium, sev_high, sev_critical}

unfoldable pub ssh_sigs : List SigEntry
ssh_sigs =
    record no_sig {
      cve = codes "CVE-2024-6387";
      cwe = codes "CWE-364";
      title = codes "OpenSSH regreSSHion — unauthenticated RCE as root (glibc Linux)";
      description =
          codes
            "Signal handler race condition in sshd allows unauthenticated remote code execution with root privileges on glibc-based Linux systems. Affects 8.5p1–9.7p1 and versions < 4.4p1 not patched for CVE-2006-5051.";
      severity = sev_high;
      cvss = 81;
      epss = 41;
      references =
          codes "https://nvd.nist.gov/vuln/detail/CVE-2024-6387"
          ∷ codes "https://www.qualys.com/regresshion-cve-2024-6387"
          ∷ [];
      fixed_in = codes "9.8p1";
      mitigation = codes "Upgrade to OpenSSH 9.8p1+; set LoginGraceTime 0 as temporary mitigation.";
      exploit_avail = true;
      match_product = codes "openssh";
      min_version = codes "8.5p1";
      max_version = codes "9.7p1";
    }
    ∷ record no_sig {
      cve = codes "CVE-2024-6409";
      cwe = codes "CWE-364";
      title = codes "OpenSSH signal-handler race condition RCE — RHEL/Fedora variant (< 9.8p1)";
      description =
          codes
            "A race condition in the privilege-separated child process of OpenSSH on Red Hat Enterprise Linux and Fedora allows a remote unauthenticated attacker to execute arbitrary code. This is a vendor-specific variant of the regreSSHion signal-handler class of bug, tracked separately from CVE-2024-6387.";
      severity = sev_high;
      cvss = 70;
      epss = 10;
      references =
          codes "https://nvd.nist.gov/vuln/detail/CVE-2024-6409"
          ∷ codes "https://access.redhat.com/security/cve/CVE-2024-6409"
          ∷ [];
      fixed_in = codes "9.8p1";
      mitigation =
          codes "Apply Red Hat / Fedora update; set LoginGraceTime 0 as temporary mitigation.";
      exploit_avail = false;
      match_product = codes "openssh";
      min_version = codes "8.5p1";
      max_version = codes "9.7p1";
    }
    ∷ record no_sig {
      cve = codes "CVE-2023-38408";
      cwe = codes "CWE-426";
      title = codes "OpenSSH ssh-agent PKCS#11 remote code execution";
      description =
          codes
            "The PKCS#11 feature in OpenSSH ssh-agent before 9.3p2 is susceptible to remote code execution via a forwarded agent connection to a malicious server.";
      severity = sev_critical;
      cvss = 98;
      epss = 8;
      references = codes "https://nvd.nist.gov/vuln/detail/CVE-2023-38408" ∷ [];
      fixed_in = codes "9.3p2";
      mitigation =
          codes "Upgrade to OpenSSH 9.3p2+; avoid forwarding ssh-agent to untrusted hosts.";
      exploit_avail = true;
      match_product = codes "openssh";
      max_version = codes "9.3p1";
    }
    ∷ record no_sig {
      cve = codes "CVE-2025-32433";
      cwe = codes "CWE-287";
      title = codes "Erlang/OTP SSH — unauthenticated pre-auth RCE (CVSS 10)";
      description =
          codes
            "Improper handling of SSH connection protocol messages in Erlang/OTP allows an unauthenticated attacker to send crafted packets before authentication, achieving arbitrary code execution — potentially as root. Added to CISA KEV in June 2025; active exploitation observed in the wild, particularly targeting OT/ICS firewalls.";
      severity = sev_critical;
      cvss = 100;
      epss = 67;
      references =
          codes "https://nvd.nist.gov/vuln/detail/CVE-2025-32433"
          ∷ codes "https://www.cybereason.com/blog/rce-vulnerability-erlang-otp"
          ∷ [];
      fixed_in = codes "OTP-27.3.3 / OTP-26.2.5.11 / OTP-25.3.2.20";
      mitigation = codes "Patch immediately; restrict SSH access at firewall level.";
      exploit_avail = true;
      match_banner = codes "erlang";
      match_service = codes "ssh";
    }
    ∷ record no_sig {
      cve = codes "CVE-2025-26465";
      cwe = codes "CWE-390";
      title = codes "OpenSSH client MITM via VerifyHostKeyDNS error mishandling (6.8p1–9.9p1)";
      description =
          codes
            "A machine-in-the-middle attack can be performed against OpenSSH clients with VerifyHostKeyDNS enabled (set to 'yes' or 'ask'). OpenSSH mishandles error codes during host key verification, allowing a malicious server to be accepted as legitimate. Requires the attacker to exhaust client memory first, raising attack complexity. Introduced in December 2014 (OpenSSH 6.8p1).";
      severity = sev_medium;
      cvss = 68;
      epss = 4;
      references =
          codes "https://nvd.nist.gov/vuln/detail/CVE-2025-26465"
          ∷ codes
              "https://blog.qualys.com/vulnerabilities-threat-research/2025/02/18/qualys-tru-discovers-two-vulnerabilities-in-openssh-cve-2025-26465-cve-2025-26466"
          ∷ [];
      fixed_in = codes "9.9p2";
      mitigation = codes "Upgrade to 9.9p2+; ensure VerifyHostKeyDNS is set to 'no' (default).";
      exploit_avail = false;
      match_product = codes "openssh";
      min_version = codes "6.8p1";
      max_version = codes "9.9p1";
    }
    ∷ record no_sig {
      cve = codes "CVE-2025-26466";
      cwe = codes "CWE-400";
      title = codes "OpenSSH pre-auth denial-of-service via memory exhaustion (9.5p1–9.9p1)";
      description =
          codes
            "For each ping packet the SSH server receives before key exchange completes, a pong response is allocated in memory and queued. A malicious unauthenticated client can send continuous pings, causing unbounded memory growth and rendering the server unavailable. Affects both sshd server and ssh client.";
      severity = sev_medium;
      cvss = 59;
      epss = 3;
      references =
          codes "https://nvd.nist.gov/vuln/detail/CVE-2025-26466"
          ∷ codes
              "https://blog.qualys.com/vulnerabilities-threat-research/2025/02/18/qualys-tru-discovers-two-vulnerabilities-in-openssh-cve-2025-26465-cve-2025-26466"
          ∷ [];
      fixed_in = codes "9.9p2";
      mitigation = codes "Upgrade to 9.9p2+; rate-limit SSH connections at firewall level.";
      exploit_avail = false;
      match_product = codes "openssh";
      min_version = codes "9.5p1";
      max_version = codes "9.9p1";
    }
    ∷ record no_sig {
      cve = codes "CVE-2016-0777";
      cwe = codes "CWE-200";
      title = codes "OpenSSH roaming — heap memory disclosure (≤ 7.1p1)";
      description =
          codes
            "The undocumented roaming feature in OpenSSH client ≤ 7.1p1 leaks heap memory to a rogue server via the resume connection feature.";
      severity = sev_medium;
      cvss = 64;
      references = codes "https://nvd.nist.gov/vuln/detail/CVE-2016-0777" ∷ [];
      fixed_in = codes "7.1p2";
      mitigation = codes "Upgrade; add 'UseRoaming no' in ssh_config as workaround.";
      match_product = codes "openssh";
      max_version = codes "7.1p1";
    }
    ∷ record no_sig {
      cve = codes "CVE-2018-15473";
      cwe = codes "CWE-200";
      title = codes "OpenSSH username enumeration (≤ 7.7)";
      description =
          codes
            "OpenSSH through 7.7 allows user enumeration; sshd responds differently to valid vs invalid usernames, enabling brute-force pre-auth reconnaissance.";
      severity = sev_medium;
      cvss = 53;
      references = codes "https://nvd.nist.gov/vuln/detail/CVE-2018-15473" ∷ [];
      fixed_in = codes "7.8";
      mitigation = codes "Upgrade to OpenSSH 7.8+.";
      exploit_avail = true;
      match_product = codes "openssh";
      max_version = codes "7.7";
    }
    ∷ []
