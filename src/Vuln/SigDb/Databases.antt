-- ===== src/Vuln/SigDb/Databases.antt =====
-- pkg/vuln/scanner.go: signatures of known vulnerabilities. A CVSS score is in tenths, an EPSS one in
-- hundredths.
use naabu.Prelude.{true, List, [], ◌∷◌}
use naabu.Prelude.Int.{pos}
use naabu.Prelude.Text.{codes}
use naabu.Vuln.Signature.{SigEntry, no_sig, sev_high, sev_critical}

unfoldable pub redis_sigs : List SigEntry
redis_sigs =
    record no_sig {
      cve = codes "CVE-2025-49844";
      cwe = codes "CWE-416";
      title = codes "Redis RediShell — use-after-free Lua sandbox escape RCE (CVSS 9.9)";
      description =
          codes
            "A use-after-free (UAF) in Redis's Lua scripting subsystem allows an authenticated attacker to manipulate the garbage collector with a specially crafted Lua script, escape the sandbox, and execute arbitrary native code on the host. Affects all Redis versions with Lua scripting enabled (the default). First Redis CVE ever rated Critical. Requires authenticated access — ensure Redis is not exposed without authentication.";
      severity = sev_critical;
      cvss = 99;
      epss = 21;
      references =
          codes "https://nvd.nist.gov/vuln/detail/CVE-2025-49844"
          ∷ codes "https://www.wiz.io/blog/wiz-research-redis-rce-cve-2025-49844"
          ∷ codes "https://redis.io/blog/security-advisory-cve-2025-49844/"
          ∷ [];
      fixed_in = codes "8.2.2 / 8.0.x / 7.4.x / 7.2.x (see vendor advisory)";
      mitigation =
          codes
            "Patch immediately; disable Lua scripting if not needed (rename EVAL); enable Redis authentication.";
      exploit_avail = true;
      match_service = codes "redis";
    }
    ∷ record no_sig {
      cve = codes "CVE-2022-0543";
      cwe = codes "CWE-862";
      title = codes "Redis Lua sandbox escape (< 6.2.7 / < 7.0.1) — Debian/Ubuntu packages";
      description =
          codes
            "Debian/Ubuntu Redis packages expose a package table in the Lua environment allowing sandbox escape and arbitrary code execution via EVAL.";
      severity = sev_critical;
      cvss = 100;
      epss = 97;
      references = codes "https://nvd.nist.gov/vuln/detail/CVE-2022-0543" ∷ [];
      fixed_in = codes "6.2.7 / 7.0.1";
      mitigation = codes "Upgrade Redis; rename or disable EVAL command.";
      exploit_avail = true;
      match_service = codes "redis";
      max_version = codes "6.2.6";
    }
    ∷ record no_sig {
      cve = codes "CVE-2015-8080";
      cwe = codes "CWE-190";
      title = codes "Redis Lua integer overflow (< 3.0.5) — stack corruption";
      description =
          codes
            "Integer overflow in the Lua garbage collection in Redis < 3.0.5 can lead to denial of service or arbitrary code execution.";
      severity = sev_high;
      cvss = 75;
      references = codes "https://nvd.nist.gov/vuln/detail/CVE-2015-8080" ∷ [];
      fixed_in = codes "3.0.5";
      match_service = codes "redis";
      max_version = codes "3.0.4";
    }
    ∷ []

unfoldable pub mongodb_sigs : List SigEntry
mongodb_sigs =
    record no_sig {
      cve = codes "CVE-2025-14847";
      cwe = codes "CWE-130";
      title =
          codes
            "MongoDB MongoBleed — unauthenticated heap memory read via zlib header (actively exploited)";
      description =
          codes
            "Mismatched length fields in zlib-compressed MongoDB wire protocol headers allow an unauthenticated remote client to read uninitialized heap memory. The server returns allocated buffer length instead of actual decompressed length, exposing adjacent heap contents — potentially including credentials, API keys, and authentication tokens. Similar in class to Heartbleed. NOT an RCE vulnerability. PoC published Dec 26 2025; active exploitation observed in the wild.";
      severity = sev_high;
      cvss = 75;
      epss = 25;
      references =
          codes "https://nvd.nist.gov/vuln/detail/CVE-2025-14847"
          ∷ codes "https://www.varonis.com/blog/mongobleed-cve-2025-14847-memory-leak-vulnerability"
          ∷ [];
      fixed_in = codes "8.2.3 / 8.0.17 / 7.0.28 / 6.0.27 / 5.0.32 / 4.4.30";
      mitigation =
          codes
            "Upgrade immediately; disable zlib compression (--networkMessageCompressors=disabled); rotate exposed credentials.";
      exploit_avail = true;
      match_service = codes "mongodb";
    }
    ∷ record no_sig {
      cve = codes "CVE-2021-32040";
      cwe = codes "CWE-400";
      title = codes "MongoDB Server < 5.0.4 — DoS via crafted aggregation query";
      description =
          codes
            "A crafted aggregation pipeline can cause MongoDB to exhaust available memory, leading to denial of service.";
      severity = sev_high;
      cvss = 75;
      references = codes "https://nvd.nist.gov/vuln/detail/CVE-2021-32040" ∷ [];
      fixed_in = codes "5.0.4";
      match_service = codes "mongodb";
      max_version = codes "5.0.3";
    }
    ∷ []

unfoldable pub mysql_sigs : List SigEntry
mysql_sigs =
    record no_sig {
      cve = codes "CVE-2016-6662";
      cwe = codes "CWE-264";
      title = codes "MySQL ≤ 5.7.14 — config file injection RCE as root";
      description =
          codes
            "An authenticated MySQL user can create/overwrite the MySQL config file, leading to arbitrary command execution on the next MySQL restart.";
      severity = sev_critical;
      cvss = 98;
      references = codes "https://nvd.nist.gov/vuln/detail/CVE-2016-6662" ∷ [];
      fixed_in = codes "5.7.15";
      exploit_avail = true;
      match_service = codes "mysql";
      max_version = codes "5.7.14";
    }
    ∷ record no_sig {
      cve = codes "CVE-2012-2122";
      cwe = codes "CWE-697";
      title = codes "MySQL / MariaDB authentication bypass via timing attack";
      description =
          codes
            "Due to a memcmp() result comparison bug, ~1 in 256 authentication attempts succeeds regardless of password. Brute-forceable in seconds.";
      severity = sev_critical;
      cvss = 100;
      references = codes "https://nvd.nist.gov/vuln/detail/CVE-2012-2122" ∷ [];
      fixed_in = codes "MySQL 5.1.63 / MariaDB 5.1.62";
      exploit_avail = true;
      match_service = codes "mysql";
      max_version = codes "5.5.23";
    }
    ∷ []

unfoldable pub postgresql_sigs : List SigEntry
postgresql_sigs =
    record no_sig {
      cve = codes "CVE-2019-9193";
      cwe = codes "CWE-78";
      title = codes "PostgreSQL COPY TO/FROM PROGRAM — RCE for superusers";
      description =
          codes
            "The COPY TO/FROM PROGRAM feature allows superusers (and users with pg_execute_server_program role) to execute arbitrary OS commands.";
      severity = sev_high;
      cvss = 72;
      references = codes "https://nvd.nist.gov/vuln/detail/CVE-2019-9193" ∷ [];
      fixed_in = codes "Mitigate via access controls";
      mitigation = codes "Restrict superuser access; revoke pg_execute_server_program role.";
      exploit_avail = true;
      match_service = codes "postgresql";
    }
    ∷ record no_sig {
      cve = codes "CVE-2024-32655";
      cwe = codes "CWE-89";
      title = codes "Npgsql SQL injection via parameter sniffing (< 8.0.3)";
      description =
          codes
            "Npgsql ≤ 8.0.2 is vulnerable to SQL injection via specially crafted SQL parameter names under certain conditions.";
      severity = sev_high;
      cvss = 81;
      references = codes "https://nvd.nist.gov/vuln/detail/CVE-2024-32655" ∷ [];
      fixed_in = codes "8.0.3";
      match_service = codes "postgresql";
    }
    ∷ []

unfoldable pub elasticsearch_sigs : List SigEntry
elasticsearch_sigs =
    record no_sig {
      cve = codes "CVE-2015-1427";
      cwe = codes "CWE-94";
      title = codes "Elasticsearch Groovy sandbox escape — unauthenticated RCE (< 1.4.3)";
      description =
          codes
            "The Groovy scripting engine in Elasticsearch < 1.4.3 allows sandbox escape, enabling unauthenticated remote code execution.";
      severity = sev_critical;
      cvss = 100;
      epss = 97;
      references = codes "https://nvd.nist.gov/vuln/detail/CVE-2015-1427" ∷ [];
      fixed_in = codes "1.4.3";
      exploit_avail = true;
      match_service = codes "elasticsearch";
      max_version = codes "1.4.2";
    }
    ∷ record no_sig {
      cve = codes "CVE-2014-3120";
      cwe = codes "CWE-94";
      title = codes "Elasticsearch dynamic script RCE (< 1.3.8)";
      description =
          codes
            "Dynamic scripting is enabled by default in Elasticsearch < 1.3.8, allowing unauthenticated code execution via crafted search queries.";
      severity = sev_critical;
      cvss = 100;
      references = codes "https://nvd.nist.gov/vuln/detail/CVE-2014-3120" ∷ [];
      fixed_in = codes "1.3.8";
      exploit_avail = true;
      match_service = codes "elasticsearch";
      max_version = codes "1.3.7";
    }
    ∷ []

unfoldable pub mssql_sigs : List SigEntry
mssql_sigs =
    record no_sig {
      cve = codes "CVE-2020-0618";
      cwe = codes "CWE-502";
      title = codes "SQL Server Reporting Services RCE — authenticated deserialization";
      description =
          codes
            "A deserialization vulnerability in SQL Server Reporting Services allows an authenticated attacker to execute code on the server.";
      severity = sev_high;
      cvss = 88;
      references = codes "https://nvd.nist.gov/vuln/detail/CVE-2020-0618" ∷ [];
      fixed_in = codes "February 2020 Patch Tuesday";
      exploit_avail = true;
      match_service = codes "mssql";
    }
    ∷ []

unfoldable pub oracle_sigs : List SigEntry
oracle_sigs =
    record no_sig {
      cve = codes "CVE-2012-1675";
      cwe = codes "CWE-264";
      title = codes "Oracle TNS Poison — remote hijack of DB connections";
      description =
          codes
            "The Oracle TNS Listener in 11g R1 and earlier allows remote attackers to intercept/redirect client-to-DB sessions (CVE-2012-1675, 'TNS Poison').";
      severity = sev_high;
      cvss = 75;
      references = codes "https://nvd.nist.gov/vuln/detail/CVE-2012-1675" ∷ [];
      fixed_in = codes "Oracle CPU April 2012";
      match_service = codes "oracle";
      port = pos 1521;
    }
    ∷ []
