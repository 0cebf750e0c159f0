-- ===== src/Banner/Grab.antt =====
-- pkg/banner/grabber.go: `Grab` with its two ways to ask a port. What the network answers is an argument:
-- the response of an HTTP client to a URL, and the lines that a connection to an address gives before
-- the scanner of lines stops (`none` where there is no connection).
use naabu.Prelude.{
  ℕ, Bool, ◌||◌, List, [], ◌∷◌, ◌++◌, Option, none, some, if◌then◌else◌, ◌=?◌, elem, take, lookup,
}
use naabu.Prelude.Int.{ℤ, pos, int_eq}
use naabu.Prelude.Text.{Text, codes, text_eq}
use naabu.Prelude.Decimal.{itoa}
use naabu.Net.HostPort.{join_host_port}
use naabu.Banner.Service.{ServiceInfo, well_known, guess_service_name, sanitize}
use naabu.Banner.Raw.{parse_raw_banner, parse_server_header}

-- What is read of an `http.Response`.
pub record Response : Type 0 where
  pub proto : Text
  pub status : Text
  pub status_code : ℤ
  pub server : Text
  pub x_powered_by : Text
  pub via : Text

pub record HttpResult : Type 0 where
  pub service_name : Text
  pub product : Text
  pub version : Text
  pub raw_banner : Text
  pub extra_info : Text
  pub confidence : ℕ

unfoldable pub http_result : Response → Bool → HttpResult
unfolding parse_server_header sanitize itoa
http_result resp use_tls =
    let (product, version) = parse_server_header resp.server in
    let extra =
      codes "Status: "
      ++ itoa resp.status_code
      ++ codes " | Title: (grab with full page read) | X-Powered-By: "
      ++ resp.x_powered_by in
    record {
      service_name = if use_tls then codes "HTTPS" else codes "HTTP";
      product = product;
      version = version;
      raw_banner = sanitize (
          resp.proto
          ++ b' ' ∷ resp.status
          ++ codes "\nServer: "
          ++ resp.server
          ++ codes "\nX-Powered-By: "
          ++ resp.x_powered_by
          ++ codes "\nVia: "
          ++ resp.via);
      extra_info = if resp.via =? [] then extra else extra ++ codes " | Via: " ++ resp.via;
      confidence = 85;
    }

unfoldable pub grab_http : (Text → Option Response) → Text → Bool → Option HttpResult
unfolding http_result
grab_http get addr use_tls =
    let scheme = if use_tls then codes "https" else codes "http" in
    elim (get (scheme ++ codes "://" ++ addr ++ codes "/")) [
      | none ↦ none
      | some resp ↦ some (http_result resp use_tls)
    ]

-- strings.Join with the break of a line
unfoldable pub join_lines : List Text → Text
join_lines [] = []
join_lines (l ∷ []) = l
join_lines (l ∷ m ∷ ls) = l ++ 10 ∷ join_lines (m ∷ ls)

unfoldable pub grab_tcp : (Text → Bool → Option (List Text)) → Text → Bool → Option Text
unfolding join_lines
grab_tcp dial addr use_tls = elim (dial addr use_tls) [
  | none ↦ none
  | some lines ↦ some (join_lines (take 5 lines))
]

-- The ports whose connections are encrypted in any case.
unfoldable pub is_tls_port : ℤ → Bool
is_tls_port port =
    elem port (pos 443 ∷ pos 8443 ∷ pos 465 ∷ pos 993 ∷ pos 995 ∷ pos 2376 ∷ pos 6443 ∷ [])

-- A lookup in the map gives the empty name for a port that it has not.
unfoldable pub known_name : ℤ → Text
unfolding lookup
known_name port = elim (lookup port well_known) [ none ↦ [] | some name ↦ name ]

unfoldable pub is_web_port : ℤ → Bool
unfolding known_name
is_web_port port =
    let guessed = known_name port in
    (guessed =? codes "HTTP")
    || (guessed =? codes "HTTPS")
    || elem port (pos 80 ∷ pos 443 ∷ pos 8080 ∷ pos 8443 ∷ pos 8888 ∷ [])

unfoldable pub with_http : ServiceInfo → HttpResult → ServiceInfo
with_http si h = record si {
  service_name = h.service_name;
  product = h.product;
  version = h.version;
  raw_banner = h.raw_banner;
  extra_info = h.extra_info;
  confidence = h.confidence;
}

-- The guess by the port where nothing is read.
unfoldable pub with_guess : ServiceInfo → ℕ → ServiceInfo
unfolding guess_service_name
with_guess si sure = record si { service_name = guess_service_name si.port []; confidence = sure }

unfoldable pub with_raw : ServiceInfo → Option Text → ServiceInfo
unfolding with_guess parse_raw_banner sanitize
with_raw si none = with_guess si 20
with_raw si (some []) = with_guess si 20
with_raw si (some (c ∷ raw)) =
    let banner = sanitize (c ∷ raw) in
    let p = parse_raw_banner banner si.port in
    record si {
      raw_banner = banner;
      service_name = p.svc;
      product = p.product;
      version = p.version;
      os = p.os;
      extra_info = p.extra;
      confidence = p.confidence;
    }

-- `elapsed` is the time since the start.
unfoldable pub new_info : ℕ → Text → Text → ℤ → Text → Bool → ServiceInfo
new_info elapsed host ip port proto is_tls = record {
  host = host;
  ip = ip;
  port = port;
  protocol = proto;
  tls = is_tls;
  service_name = [];
  product = [];
  version = [];
  os = [];
  raw_banner = [];
  extra_info = [];
  confidence = 0;
  grab_time = elapsed;
}

-- The probes of a TCP port.
unfoldable pub grab_open :
    (Text → Option Response) → (Text → Bool → Option (List Text)) → ServiceInfo → ServiceInfo
unfolding with_http with_raw grab_http grab_tcp is_web_port join_host_port itoa
grab_open get dial si =
    let addr = join_host_port si.ip (itoa si.port) in
    let by_raw = with_raw si (grab_tcp dial addr si.tls) in
    if is_web_port si.port
    then elim (grab_http get addr si.tls) [ none ↦ by_raw | some h ↦ with_http si h ]
    else by_raw

unfoldable pub grab :
    (Text → Option Response)
    → (Text → Bool → Option (List Text))
    → ℕ
    → Text
    → Text
    → ℤ
    → Text
    → Bool
    → ServiceInfo
unfolding new_info with_guess grab_open is_tls_port
grab get dial elapsed host ip port proto is_tls =
    if proto =? codes "udp"
    then with_guess (new_info elapsed host ip port proto is_tls) 30
    else grab_open get dial (new_info elapsed host ip port proto (is_tls_port port || is_tls))
