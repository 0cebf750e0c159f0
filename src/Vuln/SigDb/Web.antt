-- ===== src/Vuln/SigDb/Web.antt =====
-- pkg/vuln/scanner.go: signatures of known vulnerabilities. A CVSS score is in tenths, an EPSS one in
-- hundredths.
use naabu.Prelude.{true, false, List, [], ◌∷◌}
use naabu.Prelude.Text.{codes}
use naabu.Vuln.Signature.{SigEntry, no_sig, sev_medium, sev_high, sev_critical}

unfoldable pub apache_sigs : List SigEntry
apache_sigs =
    record no_sig {
      cve = codes "CVE-2021-41773";
      cwe = codes "CWE-22";
      title = codes "Apache httpd 2.4.49 — path traversal / RCE";
      description =
          codes
            "A flaw in path normalisation in Apache 2.4.49 allows path traversal outside the web root. If mod_cgi is enabled, unauthenticated RCE is possible.";
      severity = sev_critical;
      cvss = 98;
      epss = 97;
      references = codes "https://nvd.nist.gov/vuln/detail/CVE-2021-41773" ∷ [];
      fixed_in = codes "2.4.51";
      mitigation = codes "Upgrade immediately; disable mod_cgi; set 'Require all denied'.";
      exploit_avail = true;
      match_product = codes "apache";
      min_version = codes "2.4.49";
      max_version = codes "2.4.49";
    }
    ∷ record no_sig {
      cve = codes "CVE-2021-42013";
      cwe = codes "CWE-22";
      title = codes "Apache httpd 2.4.49–2.4.50 — path traversal / RCE (incomplete fix)";
      description =
          codes
            "The fix for CVE-2021-41773 in 2.4.50 was incomplete. Attackers can still traverse outside the document root and achieve RCE via mod_cgi.";
      severity = sev_critical;
      cvss = 98;
      epss = 97;
      references = codes "https://nvd.nist.gov/vuln/detail/CVE-2021-42013" ∷ [];
      fixed_in = codes "2.4.51";
      mitigation = codes "Upgrade to 2.4.51+.";
      exploit_avail = true;
      match_product = codes "apache";
      min_version = codes "2.4.49";
      max_version = codes "2.4.50";
    }
    ∷ record no_sig {
      cve = codes "CVE-2017-7679";
      cwe = codes "CWE-787";
      title = codes "Apache httpd mod_mime buffer overread (≤ 2.2.32 / ≤ 2.4.25)";
      description =
          codes
            "mod_mime in Apache 2.2.32 and 2.4.25 can read one byte past end of heap-allocated buffer when sending malicious Content-Type responses.";
      severity = sev_critical;
      cvss = 98;
      references = codes "https://nvd.nist.gov/vuln/detail/CVE-2017-7679" ∷ [];
      fixed_in = codes "2.4.26";
      match_product = codes "apache";
      max_version = codes "2.4.25";
    }
    ∷ record no_sig {
      cve = codes "CVE-2022-31813";
      cwe = codes "CWE-348";
      title = codes "Apache httpd mod_proxy X-Forwarded-For header bypass (≤ 2.4.53)";
      description =
          codes
            "Apache mod_proxy may not send the X-Forwarded-For header to the backend, allowing authentication bypass when backends rely on that header.";
      severity = sev_high;
      cvss = 98;
      references = codes "https://nvd.nist.gov/vuln/detail/CVE-2022-31813" ∷ [];
      fixed_in = codes "2.4.54";
      match_product = codes "apache";
      max_version = codes "2.4.53";
    }
    ∷ []

unfoldable pub tomcat_sigs : List SigEntry
tomcat_sigs =
    record no_sig {
      cve = codes "CVE-2025-24813";
      cwe = codes "CWE-502";
      title = codes "Apache Tomcat — RCE via partial PUT deserialization (actively exploited)";
      description =
          codes
            "Improper handling of file paths during partial PUT requests in Tomcat 9.0.0.M1–9.0.98, 10.1.0-M1–10.1.34, 11.0.0-M1–11.0.2 allows RCE via unsafe deserialization. Exploited in the wild within 30h of disclosure.";
      severity = sev_critical;
      cvss = 98;
      epss = 89;
      references =
          codes "https://nvd.nist.gov/vuln/detail/CVE-2025-24813"
          ∷ codes
              "https://www.sonicwall.com/blog/critical-apache-tomcat-rce-vulnerability-cve-2025-24813-under-active-exploitation"
          ∷ [];
      fixed_in = codes "11.0.3 / 10.1.35 / 9.0.99";
      mitigation =
          codes
            "Upgrade; disable partial PUT (set allowPartialPut=false); disable file-based session persistence.";
      exploit_avail = true;
      match_product = codes "tomcat";
      max_version = codes "9.0.98";
    }
    ∷ record no_sig {
      cve = codes "CVE-2024-50379";
      cwe = codes "CWE-367";
      title = codes "Apache Tomcat — TOCTOU race condition RCE on case-insensitive FS";
      description =
          codes
            "Time-of-check-time-of-use race condition during JSP compilation on case-insensitive file systems (e.g. Windows) when default servlet write is enabled allows RCE.";
      severity = sev_critical;
      cvss = 98;
      references = codes "https://nvd.nist.gov/vuln/detail/CVE-2024-50379" ∷ [];
      fixed_in = codes "11.0.2 / 10.1.34 / 9.0.98";
      mitigation =
          codes
            "Upgrade; disable write on default servlet; set sun.io.useCanonCaches=false on Java 8/11.";
      exploit_avail = false;
      match_product = codes "tomcat";
      max_version = codes "9.0.97";
    }
    ∷ record no_sig {
      cve = codes "CVE-2024-56337";
      cwe = codes "CWE-367";
      title = codes "Apache Tomcat — incomplete fix for CVE-2024-50379 TOCTOU RCE";
      description =
          codes
            "The mitigation for CVE-2024-50379 was incomplete. Tomcat 9.0–11.0 on case-insensitive file systems still vulnerable without additional Java system property configuration.";
      severity = sev_critical;
      cvss = 98;
      references = codes "https://nvd.nist.gov/vuln/detail/CVE-2024-56337" ∷ [];
      fixed_in = codes "11.0.2 / 10.1.34 / 9.0.98 + config";
      mitigation =
          codes "Upgrade; additionally set sun.io.useCanonCaches=false if using Java 8/11.";
      match_product = codes "tomcat";
      max_version = codes "9.0.97";
    }
    ∷ record no_sig {
      cve = codes "CVE-2020-1938";
      cwe = codes "CWE-276";
      title = codes "Apache Tomcat Ghostcat — AJP file read / RCE (≤ 9.0.30)";
      description =
          codes
            "The AJP connector in Tomcat ≤ 9.0.30 allows an attacker with access to port 8009 to read arbitrary files or achieve RCE by including a malicious JSP file.";
      severity = sev_critical;
      cvss = 98;
      epss = 95;
      references = codes "https://nvd.nist.gov/vuln/detail/CVE-2020-1938" ∷ [];
      fixed_in = codes "9.0.31 / 8.5.51";
      mitigation =
          codes "Upgrade; disable AJP connector (comment out in server.xml) or set requiredSecret.";
      exploit_avail = true;
      match_product = codes "tomcat";
      max_version = codes "9.0.30";
    }
    ∷ record no_sig {
      cve = codes "CVE-2019-0232";
      cwe = codes "CWE-78";
      title = codes "Apache Tomcat CGI RCE on Windows (≤ 9.0.17)";
      description =
          codes
            "When the CGI Servlet is enabled on Windows, Tomcat ≤ 9.0.17 incorrectly handles batch file paths allowing OS command injection.";
      severity = sev_critical;
      cvss = 81;
      references = codes "https://nvd.nist.gov/vuln/detail/CVE-2019-0232" ∷ [];
      fixed_in = codes "9.0.18";
      mitigation = codes "Upgrade; disable CGI Servlet.";
      exploit_avail = true;
      match_product = codes "tomcat";
      max_version = codes "9.0.17";
    }
    ∷ []

unfoldable pub nginx_sigs : List SigEntry
nginx_sigs =
    record no_sig {
      cve = codes "CVE-2021-23017";
      cwe = codes "CWE-193";
      title = codes "nginx DNS resolver 1-byte heap overflow (< 1.20.1)";
      description =
          codes
            "A 1-byte heap overwrite in the nginx DNS resolver (off-by-one) can crash the worker process or lead to code execution when resolver is enabled.";
      severity = sev_high;
      cvss = 77;
      references = codes "https://nvd.nist.gov/vuln/detail/CVE-2021-23017" ∷ [];
      fixed_in = codes "1.20.1";
      mitigation = codes "Upgrade; avoid using nginx as DNS resolver.";
      exploit_avail = false;
      match_product = codes "nginx";
      max_version = codes "1.20.0";
    }
    ∷ record no_sig {
      cve = codes "CVE-2019-9511";
      cwe = codes "CWE-400";
      title = codes "nginx HTTP/2 Data Dribble DoS";
      description =
          codes
            "Attackers can send small HTTP/2 windows to force nginx to buffer unlimited data, exhausting server memory.";
      severity = sev_high;
      cvss = 75;
      references = codes "https://nvd.nist.gov/vuln/detail/CVE-2019-9511" ∷ [];
      fixed_in = codes "1.17.3";
      match_product = codes "nginx";
      max_version = codes "1.17.2";
    }
    ∷ record no_sig {
      cve = codes "CVE-2017-7529";
      cwe = codes "CWE-190";
      title = codes "nginx integer overflow — memory info-leak via Range requests (< 1.13.3)";
      description =
          codes
            "A specially crafted Range request can cause nginx to return uninitialized memory from cache files, leaking sensitive data.";
      severity = sev_medium;
      cvss = 75;
      references = codes "https://nvd.nist.gov/vuln/detail/CVE-2017-7529" ∷ [];
      fixed_in = codes "1.13.3";
      mitigation = codes "Upgrade; disable proxy caching as temporary workaround.";
      match_product = codes "nginx";
      max_version = codes "1.13.2";
    }
    ∷ []

unfoldable pub log4shell_sigs : List SigEntry
log4shell_sigs =
    record no_sig {
      cve = codes "CVE-2021-44228";
      cwe = codes "CWE-917";
      title = codes "Log4Shell — JNDI injection RCE in Log4j 2 (< 2.15.0)";
      description =
          codes
            "A critical JNDI injection vulnerability in Apache Log4j 2 allows unauthenticated RCE when user-controlled input is logged. Affects any Java application using Log4j2 < 2.15.0.";
      severity = sev_critical;
      cvss = 100;
      epss = 97;
      references =
          codes "https://nvd.nist.gov/vuln/detail/CVE-2021-44228"
          ∷ codes "https://logging.apache.org/log4j/2.x/security.html"
          ∷ [];
      fixed_in = codes "Log4j 2.15.0 (disable lookup: 2.16.0)";
      mitigation = codes "Upgrade Log4j; set log4j2.formatMsgNoLookups=true as workaround.";
      exploit_avail = true;
      match_banner = codes "java";
      match_service = codes "http";
    }
    ∷ record no_sig {
      cve = codes "CVE-2021-45046";
      cwe = codes "CWE-917";
      title = codes "Log4Shell bypass — Log4j 2.15.0 incomplete fix";
      description =
          codes
            "The fix for CVE-2021-44228 in Log4j 2.15.0 was incomplete. Certain non-default configurations are still exploitable. Fixed in 2.16.0.";
      severity = sev_critical;
      cvss = 90;
      references = codes "https://nvd.nist.gov/vuln/detail/CVE-2021-45046" ∷ [];
      fixed_in = codes "Log4j 2.16.0";
      exploit_avail = true;
      match_banner = codes "java";
      max_version = codes "2.15.0";
    }
    ∷ []
