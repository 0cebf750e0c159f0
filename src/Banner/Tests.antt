-- ===== src/Banner/Tests.antt =====
-- Banners that are grabbed and parsed.
use naabu.Prelude.{◌≡◌, refl, Bool, false, List, [], ◌∷◌, Option, none, some, arith, switch}
use naabu.Prelude.Int.{pos}
use naabu.Prelude.Text.{Text, codes, has_prefix}
use naabu.Prelude.Search.{to_lower, lower_char, contains_text, index_of, before_any}
use naabu.Banner.Raw.{service, extract_after, raw_cases, recognize, or_service, parse_raw_banner}
use naabu.Banner.Grab.{Response, grab}
use naabu.Banner.Grabbed.{IsGrabbed, grab-IsGrabbed}
use naabu.Banner.Ssh.{greeting, parse_raw_banner-greeting}

abbrev silent : Text → Option Response
silent url = none

-- A server that sends one line.
abbrev ssh_line : Text → Bool → Option (List Text)
ssh_line addr use_tls = some (codes "SSH-2.0-OpenSSH_8.9p1 Ubuntu-3ubuntu0.1" ∷ [])

grab-IsGrabbed_example :
    IsGrabbed
      (grab silent ssh_line 7 (codes "host") (codes "10.0.0.1") (pos 22) (codes "tcp") false)
grab-IsGrabbed_example =
    grab-IsGrabbed silent ssh_line 7 (codes "host") (codes "10.0.0.1") (pos 22) (codes "tcp") false

parse_raw_banner-greeting_example :
    parse_raw_banner
      (greeting (codes "2.0") (codes "OpenSSH") (codes "8.9p1") (codes "Ubuntu-3ubuntu0.1"))
      (pos 22)
    ≡ record (service (codes "SSH") 95) {
      product = codes "OpenSSH";
      version = codes "8.9p1";
      os = codes "Ubuntu-3ubuntu0.1";
      extra = codes "Ubuntu-3ubuntu0.1";
    }
parse_raw_banner-greeting_example =
    parse_raw_banner-greeting (codes "2.0") (codes "OpenSSH") (codes "8.9p1")
      (codes "Ubuntu-3ubuntu0.1") (pos 22) (omega arith) (omega arith) (omega arith) (λ e. cc)

redis_error : (parse_raw_banner (codes "-ERR unknown command") (pos 6379)).svc ≡ codes "Redis"
unfolding parse_raw_banner or_service recognize raw_cases switch has_prefix to_lower lower_char
    contains_text
redis_error = refl

mail_server :
    (parse_raw_banner (codes "220 mail.example.org ESMTP") (pos 25)).svc ≡ codes "FTP/SMTP"
unfolding parse_raw_banner or_service recognize raw_cases switch has_prefix to_lower lower_char
    contains_text extract_after index_of before_any
mail_server = refl

rfb : (parse_raw_banner (codes "RFB 003.008\n") (pos 5900)).version ≡ codes "003.008"
unfolding parse_raw_banner or_service recognize raw_cases switch has_prefix to_lower lower_char
    contains_text extract_after index_of before_any
rfb = refl
