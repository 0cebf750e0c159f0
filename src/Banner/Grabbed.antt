-- ===== src/Banner/Grabbed.antt =====
-- pkg/banner/grabber.go: what holds of the record that `Grab` returns.
use naabu.Prelude.{
  ℕ, zero, suc, ◌≤◌, ◌≡◌, ◌≢◌, refl, inl, inr, arith, Bool, true, false, not, ◌&&◌, ◌||◌, List, [],
  ◌∷◌, ◌++◌, Option, none, some, if◌then◌else◌, ◌=?◌, leb, ltb, length, take, map, lookup,
  lookup-All, switch-All, All, length-take, Bool-cases, Option-cases,
}
use naabu.Prelude.Int.{ℤ, pos, int_eq}
use naabu.Prelude.Text.{Text, codes, text_eq, has_prefix}
use naabu.Prelude.Search.{split_first, split_n}
use naabu.Prelude.Decimal.{itoa}
use naabu.Net.HostPort.{join_host_port}
use naabu.Banner.Service.{ServiceInfo, well_known, guess_service_name, is_printable, sanitize}
use naabu.Banner.Raw.{
  Parsed, or_service, raw_cases, service, ssh_parts, cut_version, ssh_software, parse_ssh,
  recognize, parse_raw_banner,
}
use naabu.Banner.Grab.{
  Response, http_result, grab_http, is_tls_port, is_web_port, with_http, with_guess, with_raw,
  grab_open, new_info, grab,
}

-- At most 512 characters, all printable.
pub record IsClean (s : Text) : Type 0 where
  pub printable : All (λ c. is_printable c ≡ true) s
  pub short : length s ≤ 512

replaced :
    (s : Text) → All (λ c. is_printable c ≡ true) (map (λ c. if is_printable c then c else b'.') s)
replaced [] = tt
replaced (c ∷ s) = (ground arith, replaced s)

All-take : (P : ℕ → Type 0) (n : ℕ) (s : Text) → All P s → All P (take n s)
All-take P zero s h = tt
All-take P (suc n) [] h = tt
All-take P (suc n) (c ∷ s) (h, hs) = (h, All-take P n s hs)

sanitize-IsClean : (s : Text) → IsClean (sanitize s)
unfolding sanitize
sanitize-IsClean s =
    let r = map (λ c. if is_printable c then c else b'.') s in
    elim (Bool-cases (ltb 512 (length r))) [
      | inl long ↦ rw long (record {
        printable = All-take _ 512 r (replaced s);
        short = omega (arith, length-take 512 r (ground arith));
      })
      | inr fits ↦ rw fits (record { printable = replaced s; short = ground arith })
    ]

guess-ne-nil : (port : ℤ) (raw : Text) → guess_service_name port raw ≢ []
unfolding guess_service_name
guess-ne-nil port raw = elim (Option-cases (lookup port well_known)) [
  | inl unknown ↦ rw (guess_service_name, unknown) (λ e. cc)
  | inr (name, known) ↦
      rw (guess_service_name, known)
        (lookup-All (λ (v : Text). v ≢ []) port well_known (ground arith) known)
]

-- A name and a confidence that the code can give.
pub record IsNamed (p : Parsed) : Type 0 where
  pub named : p.svc ≢ []
  pub low : 20 ≤ p.confidence
  pub high : p.confidence ≤ 95

if-IsNamed : (b : Bool) (p q : Parsed) → IsNamed p → IsNamed q → IsNamed (if b then p else q)
if-IsNamed true p q hp hq = hp
if-IsNamed false p q hp hq = hq

tested :
    (p : Parsed)
    → (leb 20 p.confidence && leb p.confidence 95 && not (p.svc =? [])) ≡ true
    → IsNamed p
tested p h = record {
  named = λ e. ground (arith, text_eq.same_iff p.svc []);
  low = ground arith;
  high = ground arith;
}

cut_version-IsNamed : (p : Parsed) → IsNamed p → IsNamed (cut_version p)
unfolding cut_version
cut_version-IsNamed p h = elim (Option-cases (split_first b'_' p.product)) [
  | inl e ↦ rw (cut_version, e) h
  | inr (ab, e) ↦ rw (cut_version, e) (record { named = h.named; low = h.low; high = h.high })
]

ssh_software-IsNamed : (rest : Text) → IsNamed (ssh_software rest)
unfolding ssh_software
ssh_software-IsNamed rest = elim (Option-cases (split_first b' ' rest)) [
  | inl e ↦
      rw (ssh_software, e)
        (cut_version-IsNamed (record (service (codes "SSH") 95) { product = rest }) (tested _ refl))
  | inr ((a, b), e) ↦
      rw (ssh_software, e)
        (cut_version-IsNamed (record (service (codes "SSH") 95) { product = a; os = b; extra = b })
          (tested _ refl))
]

ssh_parts-IsNamed : (parts : List Text) → IsNamed (ssh_parts parts)
unfolding ssh_parts
ssh_parts-IsNamed [] = tested _ refl
ssh_parts-IsNamed (a ∷ []) = tested _ refl
ssh_parts-IsNamed (a ∷ b ∷ []) = tested _ refl
ssh_parts-IsNamed (a ∷ b ∷ rest ∷ more) = ssh_software-IsNamed rest

guessed-IsNamed :
    (raw : Text) (port : ℤ) (sure : ℕ)
    → 20 ≤ sure
    → sure ≤ 95
    → IsNamed (service (guess_service_name port raw) sure)
guessed-IsNamed raw port sure low high = record {
  named = guess-ne-nil port raw;
  low = low;
  high = high;
}

all_tested : List (Bool × Parsed) → Bool
all_tested [] = true
all_tested ((test, p) ∷ cases) =
    (leb 20 p.confidence && leb p.confidence 95 && not (p.svc =? [])) && all_tested cases

all_tested_lem :
    (cases : List (Bool × Parsed))
    → all_tested cases ≡ true
    → All (λ (c : Bool × Parsed). IsNamed c.1) cases
unfolding all_tested
all_tested_lem [] h = tt
all_tested_lem ((test, p) ∷ cases) h =
    (tested p (ground arith), all_tested_lem cases (ground arith))

recognize-IsNamed : (raw : Text) (port : ℤ) → IsNamed (recognize raw port)
unfolding recognize parse_ssh raw_cases all_tested
recognize-IsNamed raw port =
    switch-All IsNamed ((has_prefix (codes "SSH-") raw, parse_ssh raw) ∷ raw_cases raw)
      (if port =? pos 23
        then service (codes "Telnet") 50
        else service (guess_service_name port raw) 30)
      (ssh_parts-IsNamed (split_n b'-' 3 raw), all_tested_lem (raw_cases raw) refl)
      (if-IsNamed (port =? pos 23) (service (codes "Telnet") 50)
        (service (guess_service_name port raw) 30) (tested _ refl)
        (guessed-IsNamed raw port 30 (omega arith) (omega arith)))

parse_raw_banner-IsNamed : (raw : Text) (port : ℤ) → IsNamed (parse_raw_banner raw port)
unfolding parse_raw_banner or_service
parse_raw_banner-IsNamed raw port =
    let p = recognize-IsNamed raw port in
    if-IsNamed _ _ _ (record { named = p.named; low = p.low; high = p.high }) p

-- What `Grab` promises of a service.
pub record IsGrabbed (si : ServiceInfo) : Type 0 where
  pub named : si.service_name ≢ []
  pub low : 20 ≤ si.confidence
  pub high : si.confidence ≤ 95
  pub clean : IsClean si.raw_banner

with_guess-IsGrabbed :
    (si : ServiceInfo) (sure : ℕ)
    → IsClean si.raw_banner
    → 20 ≤ sure
    → sure ≤ 95
    → IsGrabbed (with_guess si sure)
unfolding with_guess
with_guess-IsGrabbed si sure c l h = record {
  named = guess-ne-nil si.port [];
  low = l;
  high = h;
  clean = c;
}

with_raw-IsGrabbed :
    (si : ServiceInfo) (raw : Option Text) → IsClean si.raw_banner → IsGrabbed (with_raw si raw)
unfolding with_raw
with_raw-IsGrabbed si none c = with_guess-IsGrabbed si 20 c (omega arith) (omega arith)
with_raw-IsGrabbed si (some []) c = with_guess-IsGrabbed si 20 c (omega arith) (omega arith)
with_raw-IsGrabbed si (some (d ∷ raw)) c =
    let n = parse_raw_banner-IsNamed (sanitize (d ∷ raw)) si.port in
    record { named = n.named; low = n.low; high = n.high; clean = sanitize-IsClean (d ∷ raw) }

http-IsGrabbed :
    (si : ServiceInfo) (resp : Response) (use_tls : Bool)
    → IsGrabbed (with_http si (http_result resp use_tls))
unfolding with_http http_result
http-IsGrabbed si resp true = record {
  named = λ e. cc;
  low = omega arith;
  high = omega arith;
  clean = sanitize-IsClean _;
}
http-IsGrabbed si resp false = record {
  named = λ e. cc;
  low = omega arith;
  high = omega arith;
  clean = sanitize-IsClean _;
}

module _ (get : Text → Option Response) (dial : Text → Bool → Option (List Text)) where
  grab_open-IsGrabbed :
      (si : ServiceInfo) → IsClean si.raw_banner → IsGrabbed (grab_open get dial si)
  unfolding grab_open grab_http
  grab_open-IsGrabbed si c =
      let addr = join_host_port si.ip (itoa si.port) in
      elim (Bool-cases (is_web_port si.port)) [
        | inr other ↦ rw (grab_open, other) (with_raw-IsGrabbed si _ c)
        | inl web ↦
            elim (Option-cases (
              get (
                (if si.tls then codes "https" else codes "http")
                ++ codes "://"
                ++ addr
                ++ codes "/"))) [
                  | inl silent ↦ rw (grab_open, web, grab_http, silent) (with_raw-IsGrabbed si _ c)
                  | inr (resp, answer) ↦
                      rw (grab_open, web, grab_http, answer) (http-IsGrabbed si resp si.tls)
                ]
      ]

  -- Whatever the network answers, Grab returns a service with a name, a confidence from 20 to 95, and a
  -- banner of at most 512 characters that are all printable.
  pub grab-IsGrabbed :
      (elapsed : ℕ) (host ip : Text) (port : ℤ) (proto : Text) (is_tls : Bool)
      → IsGrabbed (grab get dial elapsed host ip port proto is_tls)
  unfolding grab new_info
  grab-IsGrabbed elapsed host ip port proto is_tls = elim (Bool-cases (proto =? codes "udp")) [
    | inl udp ↦
        rw (grab, udp)
          (with_guess-IsGrabbed (new_info elapsed host ip port proto is_tls) 30
            (record { printable = tt; short = omega arith }) (omega arith) (omega arith))
    | inr tcp ↦
        rw (grab, tcp)
          (grab_open-IsGrabbed (new_info elapsed host ip port proto (is_tls_port port || is_tls))
            (record { printable = tt; short = omega arith }))
  ]
