-- ===== src/Runner/Resolve/Excluded.antt =====
-- pkg/runner/targets.go and util.go: which addresses the resolution of a name can give.
use naabu.Prelude.{
  ℕ, ◌≡◌, refl, inl, inr, arith, true, false, ◌&&◌, ◌||◌, List, [], ◌∷◌, Option, none, some, ltb,
  length, filter, filter-All, All, All-append, Outcome, ok, err, Bool-cases, Option-cases, Ensures,
  returned, failed, Ensures-if, Ensures-ok, ◌==◌,
}
use mathlib.Core.Option.{some-injective}
use mathlib.Core.Path.{subst}
use naabu.Prelude.Text.{Text}
use naabu.Scan.Ping.{Ping, ping_hosts, faster, fastest_from, get_fastest_host, nobody}
use naabu.Runner.Options.{Options}
use naabu.Runner.Resolve.{
  Network, ResolveError, query, records, or_system, no_address, resolve_name, host2ips, firsts,
  pinged, unless_error, choose, resolve_fqdn, dns_failed,
}

module _ (P : Text → Type 0) where
  -- An active ping is that of a host with the property.
  Holds : Ping → Type 0
  Holds p = p.active ≡ true → P p.host

  faster-Holds : (ping host : Ping) → Holds ping → Holds host → Holds (faster ping host)
  unfolding faster Holds
  faster-Holds ping host h1 h2 =
      elim (Bool-cases ((ltb host.latency ping.latency || ping.latency == 0) && host.active)) [
        | inl taken ↦ rw taken (λ a. h2 (ground arith))
        | inr kept ↦ rw kept h1
      ]

  fastest_from-Holds :
      (ping : Ping) (hosts : List Ping)
      → Holds ping
      → All Holds hosts
      → Holds (fastest_from ping hosts)
  unfolding fastest_from
  fastest_from-Holds ping [] h hs = h
  fastest_from-Holds ping (host ∷ hosts) h (p, ps) =
      fastest_from-Holds (faster ping host) hosts (faster-Holds ping host h p) ps

  ping_hosts-Holds :
      (exchange : Text → Option ℕ) (addrs : List Text)
      → All P addrs
      → All Holds (ping_hosts exchange addrs)
  unfolding ping_hosts Holds
  ping_hosts-Holds exchange [] h = tt
  ping_hosts-Holds exchange (a ∷ addrs) (p, ps) = elim (Option-cases (exchange a)) [
    | inl lost ↦ rw (ping_hosts, lost) (λ e. cc, ping_hosts-Holds exchange addrs ps)
    | inr (d, reply) ↦ rw (ping_hosts, reply) (λ e. p, ping_hosts-Holds exchange addrs ps)
  ]

  fastest-Holds :
      (hosts : List Ping) {p : Ping} → All Holds hosts → get_fastest_host hosts ≡ some p → P p.host
  unfolding get_fastest_host Holds
  fastest-Holds hosts {p} hs e = elim (Bool-cases ((fastest_from nobody hosts).active)) [
    | inl on ↦
        subst (λ (q : Ping). P q.host)
          (some-injective (fastest_from nobody hosts) p (rw (on, get_fastest_host) at e))
          (fastest_from-Holds nobody hosts (λ a. cc) hs on)
    | inr off ↦ absurd (ground arith)
  ]

  firsts-All : (v4 v6 : List Text) → All P v4 → All P v6 → All P (firsts v4 v6)
  unfolding firsts
  firsts-All [] [] h k = tt
  firsts-All [] (b ∷ v6) h (k, ks) = (k, tt)
  firsts-All (a ∷ v4) [] (h, hs) k = (h, tt)
  firsts-All (a ∷ v4) (b ∷ v6) (h, hs) (k, ks) = (h, (k, tt))

  pinged-All : (o : Option Ping) → ((p : Ping) → o ≡ some p → P p.host) → Ensures (All P) (pinged o)
  pinged-All none h = failed
  pinged-All (some p) h = returned (h p refl, tt)

  choose-All :
      (net : Network) (o : Options) (v4 v6 : List Text)
      → All P v4
      → All P v6
      → Ensures (All P) (choose net o v4 v6)
  unfolding choose
  choose-All net o v4 v6 h k =
      Ensures-if (no_address (v4, v6)) (λ e. returned tt)
        λ e.
          Ensures-if (net.is_privileged && o.ping && ltb 1 (length v4))
            (λ several. pinged-All (get_fastest_host (ping_hosts net.exchange v4)) λ p e.
              fastest-Holds (ping_hosts net.exchange v4) (ping_hosts-Holds net.exchange v4 h) e)
            λ other.
              Ensures-if o.scan_all_ips (λ all. returned (All-append P v4 v6 h k))
                λ one. returned (firsts-All v4 v6 h k)

unless_error-Ensures :
    (P : List Text → Type 0) (error : Option ResolveError) (m : Outcome ResolveError (List Text))
    → Ensures P m
    → Ensures P (unless_error error m)
unless_error-Ensures P none m h = h
unless_error-Ensures P (some e) m h = failed

-- An address that ResolveFQDN gives is one that the network policy allows.
pub resolve_fqdn-IsValid :
    (net : Network) (o : Options) (target : Text) {ips : List Text}
    → resolve_fqdn net o target ≡ ok ips
    → All (λ ip. net.validate_address ip ≡ true) ips
unfolding resolve_fqdn
resolve_fqdn-IsValid net o target {ips} h =
    let ((v4, v6), error) = host2ips net o target in
    let Valid = λ (ip : Text). net.validate_address ip ≡ true in
    Ensures-ok
      (unless_error-Ensures (All Valid) error _ (
        choose-All Valid net o (filter net.validate_address v4) (filter net.validate_address v6)
          (filter-All net.validate_address v4) (filter-All net.validate_address v6)))
      h

failed_name :
    (net : Network) (o : Options) (target : Text)
    → (query net o target (record { dns_data = none; failed = false }) o.dns_order).failed ≡ true
    → (e : ResolveError) × ((resolve_name net o target).1 ≡ some e)
unfolding resolve_name
failed_name net o target f =
    let a = query net o target (record { dns_data = none; failed = false }) o.dns_order in
    elim (Bool-cases (no_address (or_system net o target (records net o a.dns_data)))) [
      | inl empty ↦ (dns_failed, rw (resolve_name, empty, f) refl)
      | inr found ↦ (dns_failed, rw (resolve_name, found, f) refl)
    ]

-- Where the error of the last DNS query stays, the resolution of a name fails, whatever the system's
-- resolver answers.
pub resolve_fqdn-failed :
    (net : Network) (o : Options) (target : Text)
    → net.is_ip target ≡ false
    → (query net o target (record { dns_data = none; failed = false }) o.dns_order).failed ≡ true
    → (e : ResolveError) × (resolve_fqdn net o target ≡ err e)
unfolding resolve_fqdn host2ips
resolve_fqdn-failed net o target name f =
    let (e, h) = failed_name net o target f in (e, rw (name, h) refl)
