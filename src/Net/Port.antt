-- ===== src/Net/Port.antt =====
-- pkg/port/port.go: a port of a host, with what is known of the service behind it.
use naabu.Prelude.{Bool, List, Option, ◌≡◌, refl, ap, ◌++◌, ◌∷◌, [], if◌then◌else◌, ◌=?◌, arith}
use naabu.Prelude.Int.{ℤ, int_eq}
use naabu.Prelude.Text.{Text, codes, text_eq}
use naabu.Prelude.Decimal.{itoa, print, itoa-injective}
use naabu.Net.Protocol
use naabu.Net.Protocol.{Protocol}

pub record Service : Type 0 where
  pub device_type : Text
  pub extra_info : Text
  pub high_version : Text
  pub hostname : Text
  pub low_version : Text
  pub method : Text
  pub name : Text
  pub os_type : Text
  pub product : Text
  pub proto : Text
  pub rpc_num : Text
  pub service_fp : Text
  pub tunnel : Text
  pub version : Text
  pub confidence : ℤ
  pub cpes : List Text

pub record Port : Type 0 where
  pub port : ℤ
  pub protocol : Protocol
  pub banner : Text
  pub tls : Bool
  pub service : Option Service

-- `(*Port).String`: the number, without the protocol.
unfoldable pub string : Port → Text
unfolding itoa print
string p = itoa p.port

unfoldable pub string_with_details : Port → Text
string_with_details p =
    itoa p.port
    ++ b'[' ∷ Protocol.string p.protocol
    ++ (if p.tls then codes "/tls" else [])
    ++ b']' ∷ []

-- Two ports have one name exactly when they have one number.
pub string-injective : (p q : Port) → string p ≡ string q → p.port ≡ q.port
unfolding string
string-injective p q h = itoa-injective p.port q.port h

pub string_congr : (p q : Port) → p.port ≡ q.port → string p ≡ string q
unfolding string
string_congr p q h = ap itoa h

pub string-itoa : (p : Port) → string p ≡ itoa p.port
unfolding string
string-itoa p = refl

pub string-=? : (p q : Port) → (string p =? string q) ≡ (p.port =? q.port)
string-=? p q = ground (
  arith,
  text_eq.same_iff (string p) (string q),
  int_eq.same_iff p.port q.port,
  string-injective p q,
  string_congr p q,
)
