-- ===== src/Vuln/SigDb.antt =====
-- pkg/vuln/scanner.go: all signatures, in the order of the source.
mod Ssh
mod Web
mod Servers
mod Databases
mod Remote
use naabu.Prelude.{List, ◌++◌}
use naabu.Vuln.Signature.{SigEntry}
unfoldable pub use Ssh.{ssh_sigs}
unfoldable pub use Web.{apache_sigs, tomcat_sigs, nginx_sigs, log4shell_sigs}
unfoldable pub use Servers.{tls_sigs, ftp_sigs, smtp_sigs, memcached_sigs}
unfoldable pub use Databases.{
  redis_sigs, mongodb_sigs, mysql_sigs, postgresql_sigs, elasticsearch_sigs, mssql_sigs,
  oracle_sigs,
}
unfoldable pub use Remote.{docker_sigs, kubernetes_sigs, rdp_sigs, smb_sigs, vnc_sigs}

unfoldable pub sig_db : List SigEntry
unfolding ssh_sigs apache_sigs tomcat_sigs nginx_sigs tls_sigs ftp_sigs smtp_sigs redis_sigs
    mongodb_sigs mysql_sigs postgresql_sigs elasticsearch_sigs docker_sigs kubernetes_sigs rdp_sigs
    smb_sigs vnc_sigs mssql_sigs oracle_sigs log4shell_sigs memcached_sigs
sig_db =
    ssh_sigs ++ apache_sigs ++ tomcat_sigs ++ nginx_sigs ++ tls_sigs ++ ftp_sigs ++ smtp_sigs
    ++ redis_sigs ++ mongodb_sigs ++ mysql_sigs ++ postgresql_sigs ++ elasticsearch_sigs
    ++ docker_sigs ++ kubernetes_sigs ++ rdp_sigs ++ smb_sigs ++ vnc_sigs ++ mssql_sigs
    ++ oracle_sigs ++ log4shell_sigs ++ memcached_sigs
