-- ===== src/Scan/Ping.antt =====
-- pkg/scan/ping.go: the hosts that answer an echo request, and the fastest of them. What one exchange
-- gives is an argument: the time up to the echo reply, or `none` on any error and on any other answer.
mod Tests
use naabu.Prelude.{
  ℕ, ◌≤◌, ◌<◌, ◌≡◌, refl, ap, ◌∙◌, inl, inr, arith, Bool, true, false, ◌&&◌, ◌||◌, List, [], ◌∷◌,
  map, Option, none, some, if◌then◌else◌, ltb, Bool-cases, ◌⊎◌, ◌↔◌, All, All-map, ◌==◌,
}
use mathlib.Core.Option.{some-injective}
use mathlib.Core.Path.{subst}
use naabu.Prelude.Text.{Text}

pub record Ping : Type 0 where
  pub active : Bool
  pub latency : ℕ
  pub host : Text

-- `PingHosts`, with the socket open; an error's text is left out.
unfoldable pub ping_hosts : (Text → Option ℕ) → List Text → List Ping
ping_hosts exchange [] = []
ping_hosts exchange (addr ∷ addresses) =
    let rest = ping_hosts exchange addresses in
    elim (exchange addr) [
      | none ↦ record { active = false; latency = 0; host = addr } ∷ rest
      | some duration ↦ record { active = true; latency = duration; host = addr } ∷ rest
    ]

-- One round of the loop on the fastest host so far.
unfoldable pub faster : Ping → Ping → Ping
faster ping host =
    if (ltb host.latency ping.latency || ping.latency == 0) && host.active
    then record { active = true; latency = host.latency; host = host.host }
    else ping

unfoldable pub fastest_from : Ping → List Ping → Ping
unfolding faster
fastest_from ping [] = ping
fastest_from ping (host ∷ hosts) = fastest_from (faster ping host) hosts

abbrev pub nobody : Ping
nobody = record { active = false; latency = 0; host = [] }

-- An error is `none`.
unfoldable pub get_fastest_host : List Ping → Option Ping
unfolding fastest_from
get_fastest_host hosts =
    let ping = fastest_from nobody hosts in if ping.active then some ping else none

-- An active host has taken time.
abbrev pub Timed : Ping → Type 0
Timed p = p.active ≡ true → 0 < p.latency

-- No active host of the list is faster, and there is none if the ping is not active.
abbrev pub IsFastest : Ping → List Ping → Type 0
IsFastest ping = All (λ h. h.active ≡ true → (ping.active ≡ true) × (ping.latency ≤ h.latency))

-- What holds of the fastest host so far.
abbrev pub Chosen : Ping → Type 0
Chosen p = ((p.active ≡ true) × (0 < p.latency)) ⊎ ((p.active ≡ false) × (p.latency ≡ 0))

faster-Chosen : (ping host : Ping) → Chosen ping → Timed host → Chosen (faster ping host)
unfolding faster
faster-Chosen ping host c t = ground arith

faster-below :
    (ping host : Ping)
    → Chosen ping
    → Timed host
    → (host.active ≡ true
        → ((faster ping host).active ≡ true) × ((faster ping host).latency ≤ host.latency))
      × (ping.active ≡ true
          → ((faster ping host).active ≡ true) × ((faster ping host).latency ≤ ping.latency))
unfolding faster
faster-below ping host c t = ground arith

fastest_from-below :
    (ping : Ping) (hosts : List Ping)
    → Chosen ping
    → All Timed hosts
    → IsFastest (fastest_from ping hosts) (ping ∷ hosts)
unfolding fastest_from
fastest_from-below ping [] c t = (λ a. (a, omega arith), tt)
fastest_from-below ping (host ∷ hosts) c (t, ts) =
    let (below, rest) =
      fastest_from-below (faster ping host) hosts (faster-Chosen ping host c t) ts in
    let (by_host, by_ping) = faster-below ping host c t in
    (
      λ a. let (a1, l1) = by_ping a in let (a2, l2) = below a1 in (a2, omega arith),
      (λ a. let (a1, l1) = by_host a in let (a2, l2) = below a1 in (a2, omega arith), rest),
    )

-- One of the hosts of the list, with its address and its time, is active.
pub data IsAnswer (ping : Ping) : List Ping → Type 0 where
  here :
      {h : Ping} {hosts : List Ping}
      → h.active ≡ true
      → ping.host ≡ h.host
      → ping.latency ≡ h.latency
      → IsAnswer ping (h ∷ hosts)
  later : {h : Ping} {hosts : List Ping} → IsAnswer ping hosts → IsAnswer ping (h ∷ hosts)

faster_cases :
    (ping host : Ping)
    → (faster ping host ≡ ping)
      ⊎ (host.active ≡ true)
        × ((faster ping host).host ≡ host.host)
        × ((faster ping host).latency ≡ host.latency)
unfolding faster
faster_cases ping host =
    elim (Bool-cases ((ltb host.latency ping.latency || ping.latency == 0) && host.active)) [
      | inl better ↦ rw better (inr (ground arith, refl, refl))
      | inr worse ↦ rw worse (inl refl)
    ]

-- What the loop ends with is what it began with or one of the hosts.
fastest_from_cases :
    (ping : Ping) (hosts : List Ping)
    → (fastest_from ping hosts ≡ ping) ⊎ IsAnswer (fastest_from ping hosts) hosts
unfolding fastest_from
fastest_from_cases ping [] = inl refl
fastest_from_cases ping (host ∷ hosts) = elim (fastest_from_cases (faster ping host) hosts) [
  | inr found ↦ inr (later found)
  | inl same ↦ elim (faster_cases ping host) [
    | inl old ↦ inl (same ∙ old)
    | inr (on, name, time) ↦
        inr (
          here on (ap (λ (q : Ping). q.host) same ∙ name)
            (ap (λ (q : Ping). q.latency) same ∙ time))
  ]
]

fastest-IsAnswer :
    (hosts : List Ping)
    → (fastest_from nobody hosts).active ≡ true
    → IsAnswer (fastest_from nobody hosts) hosts
fastest-IsAnswer hosts on = elim (fastest_from_cases nobody hosts) [
  | inl same ↦ absurd (let off = ap (λ (q : Ping). q.active) same in cc)
  | inr found ↦ found
]

faster-silent : (ping host : Ping) → host.active ≡ false → faster ping host ≡ ping
unfolding faster
faster-silent ping host off = ground arith

no_fastest :
    (ping : Ping) (hosts : List Ping)
    → All (λ h. h.active ≡ false) hosts
    → fastest_from ping hosts ≡ ping
unfolding fastest_from
no_fastest ping [] h = refl
no_fastest ping (host ∷ hosts) (off, offs) =
    rw (faster-silent ping host off) (no_fastest ping hosts offs)

-- If every active host has taken time, the fastest host that is given is active, has the address and
-- the time of an active host of the list, and no active host is faster; none is given exactly if no
-- host is active.
pub get_fastest_host-exact :
    (hosts : List Ping)
    → All Timed hosts
    → ((p : Ping)
        → get_fastest_host hosts ≡ some p
        → (p.active ≡ true) × IsAnswer p hosts × IsFastest p hosts)
      × (get_fastest_host hosts ≡ none ↔ All (λ h. h.active ≡ false) hosts)
unfolding get_fastest_host
get_fastest_host-exact hosts timed =
    let (below, rest) = fastest_from-below nobody hosts (inr (refl, refl)) timed in
    elim (Bool-cases ((fastest_from nobody hosts).active)) [
      | inl found ↦
          rw (get_fastest_host, found)
            (
              λ p e.
                  subst (λ (q : Ping). (q.active ≡ true) × IsAnswer q hosts × IsFastest q hosts)
                    (some-injective _ p e) (found, fastest-IsAnswer hosts found, rest),
              (
                λ e. cc,
                λ off.
                    absurd
                      (let on = ap (λ (q : Ping). q.active) (no_fastest nobody hosts off) in cc),
              ),
            )
      | inr silent ↦
          rw (get_fastest_host, silent)
            (λ p e. cc, (λ e. All-map hosts (λ h f. quiet h silent f) rest, λ off. refl))
    ]
  where
    quiet :
        (h : Ping)
        → (fastest_from nobody hosts).active ≡ false
        → (h.active ≡ true
            → ((fastest_from nobody hosts).active ≡ true)
              × ((fastest_from nobody hosts).latency ≤ h.latency))
        → h.active ≡ false
    quiet h silent f = elim (Bool-cases h.active) [
      | inl on ↦ absurd (let (a, l) = f on in cc)
      | inr off ↦ off
    ]
