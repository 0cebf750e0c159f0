-- ===== src/Target.antt =====
-- pkg/target/parser.go: targets as the user writes them. Go's `net.ParseCIDR` and `url.Parse` are
-- arguments: whether a text is a block, and the scheme, the host and the port of a URL.
pub mod Parsed
pub mod Hosts
mod Tests
use naabu.Prelude.{
  ℕ, ◌≡◌, Bool, true, false, ◌&&◌, ◌||◌, List, [], ◌∷◌, ◌++◌, Option, none, some, if◌then◌else◌,
  ◌=?◌, Outcome, ok, err, switch, lookup,
}
use naabu.Prelude.Int.{ℤ, pos, int_eq}
use naabu.Prelude.Text.{Text, codes, text_eq, trim_space}
use naabu.Prelude.Search.{to_lower, contains_text}
use naabu.Prelude.Decimal.{atoi, itoa}
use naabu.Prelude.Unseen.{add_unseen}
use naabu.Net.HostPort.{split_host_port}

pub record Target : Type 0 where
  pub raw : Text
  pub host : Text
  pub ip : Text
  pub port : ℤ
  pub scheme : Text
  pub is_cidr : Bool

pub data TargetError : Type 0 where
  empty_target : TargetError
  invalid_url : Text → TargetError
  invalid_port : Text → TargetError

unfoldable pub default_port_for_scheme : Text → ℤ
unfolding to_lower switch
default_port_for_scheme scheme =
    let s = to_lower scheme in
    switch
      ((s =? codes "https", pos 443)
        ∷ (s =? codes "http", pos 80)
        ∷ (s =? codes "ftp", pos 21)
        ∷ (s =? codes "ftps", pos 990)
        ∷ (s =? codes "ssh", pos 22)
        ∷ (s =? codes "smtp", pos 25)
        ∷ (s =? codes "smtps", pos 465)
        ∷ [])
      (pos 0)

-- The parts of a URL that are read: `Scheme`, `Hostname()` and `Port()`.
pub record Url : Type 0 where
  pub scheme : Text
  pub hostname : Text
  pub port : Text

abbrev pub plain : Text → Text → Target
plain raw host = record {
  raw = raw;
  host = host;
  ip = [];
  port = pos 0;
  scheme = [];
  is_cidr = false;
}

abbrev pub at_port : Target → Option ℤ → Outcome TargetError Target
at_port t none = err (invalid_port t.raw)
at_port t (some p) = ok (record t { port = p })

unfoldable pub of_url : Text → Option Url → Outcome TargetError Target
unfolding default_port_for_scheme atoi
of_url raw none = err (invalid_url raw)
of_url raw (some u) =
    let t = record (plain raw u.hostname) { scheme = u.scheme } in
    if u.port =? []
    then ok (record t { port = default_port_for_scheme u.scheme })
    else at_port t (atoi u.port)

unfoldable pub of_host_port : Text → Option (Text × Text) → Outcome TargetError Target
unfolding atoi
of_host_port raw none = ok (plain raw raw)
of_host_port raw (some (h, p)) = at_port (plain raw h) (atoi p)

-- Two targets with one key are one.
unfoldable pub key : Target → Text
unfolding itoa
key t = t.host ++ b':' ∷ itoa t.port

module _ (parse_cidr : Text → Bool) (parse_url : Text → Option Url) where
  unfoldable pub parse : Text → Outcome TargetError Target
  unfolding trim_space contains_text of_url of_host_port split_host_port
  parse text =
      let raw = trim_space text in
      if raw =? []
      then err empty_target
      else if parse_cidr raw
      then ok (record (plain raw raw) { is_cidr = true })
      else if contains_text (codes "://") raw
      then of_url raw (parse_url raw)
      else of_host_port raw (split_host_port raw)

  -- The keys that are seen, the targets, and the errors.
  unfoldable pub parse_each :
      List Text
      → List Text × List Target
      → List TargetError
      → (List Text × List Target) × List TargetError
  unfolding parse key add_unseen
  parse_each [] st errs = (st, errs)
  parse_each (r ∷ raws) st errs = elim (parse r) [
    | err e ↦ parse_each raws st (errs ++ e ∷ [])
    | ok t ↦ parse_each raws (add_unseen key st t) errs
  ]

  unfoldable pub parse_all : List Text → List Target × List TargetError
  unfolding parse_each
  parse_all raws = let ((seen, targets), errs) = parse_each raws ([], []) [] in (targets, errs)
