-- ===== src/Banner/Ssh.antt =====
-- pkg/banner/grabber.go: what `parseRawBanner` reads from the greeting of an SSH server.
use naabu.Prelude.{◌≡◌, ◌≢◌, refl, ap, ◌∙◌, List, [], ◌∷◌, ◌++◌, ne-=?, switch}
use naabu.Prelude.Int.{ℤ}
use naabu.Prelude.Text.{Text, codes, Lacks, text_eq, has_prefix}
use naabu.Prelude.Search.{split_n, split_first, split_first_lem}
use naabu.Banner.Raw.{
  service, cut_version, ssh_software, parse_ssh, ssh_parts, recognize, or_service, parse_raw_banner,
}

-- The greeting of RFC 4253 with a version behind the name of the software.
abbrev pub greeting : Text → Text → Text → Text → Text
greeting proto name version comment =
    codes "SSH-" ++ (proto ++ b'-' ∷ ((name ++ b'_' ∷ version) ++ b' ' ∷ comment))

ssh_software-parts :
    (name version comment : Text)
    → Lacks b' ' (name ++ b'_' ∷ version)
    → Lacks b'_' name
    → ssh_software ((name ++ b'_' ∷ version) ++ b' ' ∷ comment)
      ≡ record (service (codes "SSH") 95) {
        product = name;
        version = version;
        os = comment;
        extra = comment;
      }
unfolding ssh_software cut_version
ssh_software-parts name version comment spaces dashes =
    rw (split_first_lem b' ' (name ++ b'_' ∷ version) comment spaces)
      (rw (cut_version, split_first_lem b'_' name version dashes) refl)

split_n-greeting :
    (proto rest : Text)
    → Lacks b'-' proto
    → split_n b'-' 3 (codes "SSH-" ++ proto ++ b'-' ∷ rest) ≡ codes "SSH" ∷ proto ∷ rest ∷ []
unfolding split_n split_first
split_n-greeting proto rest dashes = rw (split_first_lem b'-' proto rest dashes) refl

parse_ssh-parts :
    (raw : Text) (parts : List Text) → split_n b'-' 3 raw ≡ parts → parse_ssh raw ≡ ssh_parts parts
unfolding parse_ssh
parse_ssh-parts raw parts h = ap ssh_parts h

parse_ssh-greeting :
    (proto name version comment : Text)
    → Lacks b'-' proto
    → Lacks b' ' (name ++ b'_' ∷ version)
    → Lacks b'_' name
    → parse_ssh (greeting proto name version comment) ≡ record (service (codes "SSH") 95) {
      product = name;
      version = version;
      os = comment;
      extra = comment;
    }
unfolding ssh_parts
parse_ssh-greeting proto name version comment dashes spaces underscores =
    parse_ssh-parts (greeting proto name version comment) _
      (split_n-greeting proto ((name ++ b'_' ∷ version) ++ b' ' ∷ comment) dashes)
    ∙ ssh_software-parts name version comment spaces underscores

recognize-ssh :
    (t : Text) (port : ℤ) → recognize (codes "SSH-" ++ t) port ≡ parse_ssh (codes "SSH-" ++ t)
unfolding recognize has_prefix switch
recognize-ssh t port = refl

-- The parts of the greeting of an SSH server are read back, whatever the port: the name and the version
-- of the software and the comment, if the protocol's version has no dash, the software no blank and its
-- name no underscore.
pub parse_raw_banner-greeting :
    (proto name version comment : Text) (port : ℤ)
    → Lacks b'-' proto
    → Lacks b' ' (name ++ b'_' ∷ version)
    → Lacks b'_' name
    → name ≢ []
    → parse_raw_banner (greeting proto name version comment) port
      ≡ record (service (codes "SSH") 95) {
        product = name;
        version = version;
        os = comment;
        extra = comment;
      }
unfolding parse_raw_banner or_service
parse_raw_banner-greeting proto name version comment port dashes spaces underscores ne =
    ap or_service (
      recognize-ssh (proto ++ b'-' ∷ ((name ++ b'_' ∷ version) ++ b' ' ∷ comment)) port
      ∙ parse_ssh-greeting proto name version comment dashes spaces underscores)
    ∙ rw (ne-=? name [] ne) refl
