-- ===== src/Vuln/SigDb/Remote.antt =====
-- pkg/vuln/scanner.go: signatures of known vulnerabilities. A CVSS score is in tenths, an EPSS one in
-- hundredths.
use naabu.Prelude.{true, List, [], ◌∷◌}
use naabu.Prelude.Int.{pos}
use naabu.Prelude.Text.{codes}
use naabu.Vuln.Signature.{SigEntry, no_sig, sev_high, sev_critical}

unfoldable pub docker_sigs : List SigEntry
docker_sigs =
    record no_sig {
      cve = codes "CVE-2019-5736";
      cwe = codes "CWE-78";
      title = codes "runc container escape — host binary overwrite (< 1.0-rc6)";
      description =
          codes
            "A malicious container can overwrite the host's runc binary and gain root access on the host. Affects Docker, Kubernetes, containerd using runc < 1.0-rc6.";
      severity = sev_critical;
      cvss = 86;
      epss = 97;
      references = codes "https://nvd.nist.gov/vuln/detail/CVE-2019-5736" ∷ [];
      fixed_in = codes "runc 1.0-rc6";
      exploit_avail = true;
      match_service = codes "docker";
    }
    ∷ record no_sig {
      cve = codes "CVE-2020-15257";
      cwe = codes "CWE-269";
      title = codes "containerd Shim API access — privilege escalation from container";
      description =
          codes
            "The containerd-shim API, when exposed on an abstract UNIX socket with improper permissions, allows host privilege escalation from within a container.";
      severity = sev_high;
      cvss = 52;
      references = codes "https://nvd.nist.gov/vuln/detail/CVE-2020-15257" ∷ [];
      fixed_in = codes "containerd 1.3.9 / 1.4.3";
      match_service = codes "docker";
    }
    ∷ []

unfoldable pub kubernetes_sigs : List SigEntry
kubernetes_sigs =
    record no_sig {
      cve = codes "CVE-2018-1002105";
      cwe = codes "CWE-305";
      title = codes "Kubernetes API server privilege escalation — unauthenticated access";
      description =
          codes
            "A flaw allows an unauthenticated attacker to proxy arbitrary requests to cluster internal services via an established websocket connection to the API server.";
      severity = sev_critical;
      cvss = 98;
      epss = 94;
      references = codes "https://nvd.nist.gov/vuln/detail/CVE-2018-1002105" ∷ [];
      fixed_in = codes "1.10.11 / 1.11.5 / 1.12.3";
      exploit_avail = true;
      match_service = codes "k8s";
      port = pos 6443;
    }
    ∷ record no_sig {
      cve = codes "CVE-2022-3294";
      cwe = codes "CWE-601";
      title = codes "Kubernetes API server node address SSRF";
      description =
          codes
            "Node address not validated in Kubernetes API server allows SSRF, routing requests to unintended internal services.";
      severity = sev_high;
      cvss = 88;
      references = codes "https://nvd.nist.gov/vuln/detail/CVE-2022-3294" ∷ [];
      fixed_in = codes "1.25.4 / 1.24.8";
      match_service = codes "k8s";
      port = pos 6443;
    }
    ∷ []

unfoldable pub rdp_sigs : List SigEntry
rdp_sigs =
    record no_sig {
      cve = codes "CVE-2019-0708";
      cwe = codes "CWE-416";
      title = codes "BlueKeep — pre-auth RCE in Windows RDP (wormable)";
      description =
          codes
            "A use-after-free in the Windows Remote Desktop Services component allows unauthenticated code execution. The vulnerability is wormable (no user interaction). Affects XP, 7, Server 2003, 2008.";
      severity = sev_critical;
      cvss = 98;
      epss = 97;
      references = codes "https://nvd.nist.gov/vuln/detail/CVE-2019-0708" ∷ [];
      fixed_in = codes "Windows June 2019 Patch Tuesday";
      mitigation = codes "Apply MS patch; enable NLA; block port 3389 from internet.";
      exploit_avail = true;
      match_service = codes "rdp";
      port = pos 3389;
    }
    ∷ record no_sig {
      cve = codes "CVE-2020-0609";
      cwe = codes "CWE-122";
      title = codes "Windows RD Gateway — pre-auth RCE (wormable)";
      description =
          codes
            "Heap overflow in Windows Remote Desktop Gateway allows unauthenticated code execution with no user interaction.";
      severity = sev_critical;
      cvss = 98;
      references = codes "https://nvd.nist.gov/vuln/detail/CVE-2020-0609" ∷ [];
      fixed_in = codes "Windows January 2020 Patch Tuesday";
      match_service = codes "rdp";
    }
    ∷ []

unfoldable pub smb_sigs : List SigEntry
smb_sigs =
    record no_sig {
      cve = codes "CVE-2017-0144";
      cwe = codes "CWE-119";
      title = codes "EternalBlue — SMB buffer overflow RCE (WannaCry / NotPetya)";
      description =
          codes
            "Buffer overflow in the SMBv1 transaction request handler allows unauthenticated code execution. Used by WannaCry and NotPetya ransomware campaigns.";
      severity = sev_critical;
      cvss = 81;
      epss = 97;
      references = codes "https://nvd.nist.gov/vuln/detail/CVE-2017-0144" ∷ [];
      fixed_in = codes "Windows MS17-010 patch";
      mitigation = codes "Apply MS17-010; disable SMBv1; block port 445 at perimeter.";
      exploit_avail = true;
      match_service = codes "smb";
      port = pos 445;
    }
    ∷ record no_sig {
      cve = codes "CVE-2017-7494";
      cwe = codes "CWE-20";
      title = codes "Samba SambaCry — unauthenticated RCE (7 years of Samba versions)";
      description =
          codes
            "A shared library loading flaw in Samba 3.5.0–4.6.4 allows an authenticated (or guest) user with write access to upload a shared library and execute it on the server.";
      severity = sev_critical;
      cvss = 98;
      epss = 97;
      references = codes "https://nvd.nist.gov/vuln/detail/CVE-2017-7494" ∷ [];
      fixed_in = codes "4.6.4";
      mitigation = codes "Upgrade Samba; add 'nt pipe support = no' to smb.conf.";
      exploit_avail = true;
      match_banner = codes "samba";
      min_version = codes "3.5.0";
      max_version = codes "4.6.3";
    }
    ∷ []

unfoldable pub vnc_sigs : List SigEntry
vnc_sigs =
    record no_sig {
      cve = codes "CVE-2019-15681";
      cwe = codes "CWE-401";
      title = codes "LibVNCServer memory leak — info disclosure";
      description =
          codes
            "LibVNCServer ≤ 0.9.12 has a memory leak in the VNC server handler that allows remote info disclosure.";
      severity = sev_high;
      cvss = 75;
      references = codes "https://nvd.nist.gov/vuln/detail/CVE-2019-15681" ∷ [];
      fixed_in = codes "0.9.13";
      match_service = codes "vnc";
    }
    ∷ record no_sig {
      cve = codes "CVE-2006-2369";
      cwe = codes "CWE-287";
      title = codes "RealVNC 4.1.1 authentication bypass";
      description =
          codes
            "RealVNC 4.1.1 allows connection with None authentication type even when server requires VNC authentication.";
      severity = sev_critical;
      cvss = 75;
      references = codes "https://nvd.nist.gov/vuln/detail/CVE-2006-2369" ∷ [];
      fixed_in = codes "4.1.2";
      exploit_avail = true;
      match_banner = codes "rfb 003.008";
    }
    ∷ []
