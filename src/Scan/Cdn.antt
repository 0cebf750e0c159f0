-- ===== src/Scan/Cdn.antt =====
-- pkg/scan/cdn.go: whether an address is one of a CDN. An error is `none`.
use naabu.Prelude.{Bool, false, [], Option, none, some, if◌then◌else◌, ◌=?◌}
use naabu.Prelude.Text.{Text, codes, text_eq}

-- What the package cdncheck answers: a match, its provider, its type, and whether there is an error.
pub record CdnAnswer : Type 0 where
  pub matched : Bool
  pub value : Text
  pub item_type : Text
  pub failed : Bool

abbrev answer : CdnAnswer → Option (Bool × Text)
answer c =
    if c.failed
    then none
    else if c.item_type =? codes "cloud"
    then some (false, [])
    else some (c.matched, c.value)

-- `client` is `none` where it is not initialized; `is_ip` is that of the package iputil.
unfoldable pub cdn_check : Option (Text → CdnAnswer) → (Text → Bool) → Text → Option (Bool × Text)
cdn_check none is_ip ip = none
cdn_check (some client) is_ip ip = if is_ip ip then answer (client ip) else none
