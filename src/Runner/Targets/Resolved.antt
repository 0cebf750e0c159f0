-- ===== src/Runner/Targets/Resolved.antt =====
-- pkg/runner/targets.go: what a target adds.
use naabu.Prelude.{
  ◌≡◌, refl, sym, ap, ◌∙◌, inl, inr, Bool, true, false, ◌⊎◌, List, [], ◌∷◌, ◌++◌, if◌then◌else◌,
  ltb, length, All, All-append, ok, ok-injective, Bool-cases, Outcome-cases, append-nil,
  append_assoc,
}
use mathlib.Core.Path.{subst}
use naabu.Prelude.Text.{Text, text_eq}
use naabu.Runner.Options.{Options}
use naabu.Runner.Resolve.{Network, get_port, resolve_fqdn}
use naabu.Runner.Resolve.Excluded.{resolve_fqdn-IsValid}
use naabu.Runner.Targets.{
  Tracked, Lookups, join_host_port, track, add_each_resolved, add_resolved, stream_resolved,
  add_name,
}

-- An entry of the ranger for a target: an address that the network policy allows, as it is or with the
-- port, and the target as its metadata.
pub record IsPermitted (net : Network) (target port : Text) (entry : Text × Text) : Type 0 where
  pub ip : Text
  pub valid : net.validate_address ip ≡ true
  pub metadata : entry.1 ≡ target
  pub address : (entry.0 ≡ ip) ⊎ (entry.0 ≡ join_host_port ip port)

-- The entries of the one state are those of the other with permitted ones behind them.
pub record Extends (net : Network) (target port : Text) (s t : Tracked) : Type 0 where
  pub fresh : List (Text × Text)
  pub behind : t.added ≡ s.added ++ fresh
  pub permitted : All (IsPermitted net target port) fresh

module _ (net : Network) (target port : Text) where
  Extends-refl : (s : Tracked) → Extends net target port s s
  Extends-refl s = record { fresh = []; behind = sym (append-nil s.added); permitted = tt }

  Extends-trans :
      (s t u : Tracked)
      → Extends net target port s t
      → Extends net target port t u
      → Extends net target port s u
  Extends-trans s t u a b = record {
    fresh = a.fresh ++ b.fresh;
    behind =
        b.behind
        ∙ ap (λ (es : List (Text × Text)). es ++ b.fresh) a.behind
        ∙ append_assoc s.added a.fresh b.fresh;
    permitted = All-append (IsPermitted net target port) a.fresh b.fresh a.permitted b.permitted;
  }

  tracked :
      (s t : Tracked) (ip host : Text)
      → t.added ≡ s.added
      → net.validate_address ip ≡ true
      → (host ≡ ip) ⊎ (host ≡ join_host_port ip port)
      → Extends net target port s (track host target t)
  tracked s t ip host same valid address = record {
    fresh = (host, target) ∷ [];
    behind = ap (λ (es : List (Text × Text)). es ++ (host, target) ∷ []) same;
    permitted = (record { ip = ip; valid = valid; metadata = refl; address = address }, tt);
  }

  same-Extends : (s t : Tracked) → t.added ≡ s.added → Extends net target port s t
  same-Extends s t same = record {
    fresh = [];
    behind = same ∙ sym (append-nil s.added);
    permitted = tt;
  }

join_host_port-nil : (ip : Text) → join_host_port ip [] ≡ ip
unfolding join_host_port
join_host_port-nil ip = refl

module _ (l : Lookups) (o : Options) (target port : Text) where
  stream_resolved-Extends :
      (has_port : Bool) (ip : Text) (s : Tracked)
      → l.network.validate_address ip ≡ true
      → Extends l.network target port s (stream_resolved l o target port has_port ip s)
  unfolding stream_resolved
  stream_resolved-Extends false ip s valid =
      tracked l.network target port s _ ip _ refl valid (inr refl)
  stream_resolved-Extends true ip s valid = elim (Bool-cases (ltb 0 (length o.ports))) [
    | inl ports ↦
        rw ports (tracked l.network target port s _ ip _ refl valid (inl (join_host_port-nil ip)))
    | inr none_given ↦ rw none_given (same-Extends l.network target port s _ refl)
  ]

  plain_resolved-Extends :
      (has_port : Bool) (ip : Text) (s : Tracked)
      → o.stream ≡ false
      → l.network.validate_address ip ≡ true
      → Extends l.network target port s (add_resolved l o target port has_port ip s)
  unfolding add_resolved
  plain_resolved-Extends false ip s off valid =
      rw off (tracked l.network target port s _ ip _ refl valid (inl refl))
  plain_resolved-Extends true ip s off valid = elim (Bool-cases (ltb 0 (length o.ports))) [
    | inl ports ↦
        rw (off, ports)
          (tracked l.network target port s _ ip _ refl valid (inl (join_host_port-nil ip)))
    | inr none_given ↦
        rw (off, none_given) (tracked l.network target port s _ ip _ refl valid (inr refl))
  ]

  add_resolved-Extends :
      (has_port : Bool) (ip : Text) (s : Tracked)
      → l.network.validate_address ip ≡ true
      → Extends l.network target port s (add_resolved l o target port has_port ip s)
  unfolding add_resolved
  add_resolved-Extends has_port ip s valid = elim (Bool-cases o.stream) [
    | inl on ↦ rw (add_resolved, on) (stream_resolved-Extends has_port ip s valid)
    | inr off ↦ plain_resolved-Extends has_port ip s off valid
  ]

  add_each_resolved-Extends :
      (has_port : Bool) (ips : List Text) (s : Tracked)
      → All (λ ip. l.network.validate_address ip ≡ true) ips
      → Extends l.network target port s (add_each_resolved l o target port has_port ips s)
  unfolding add_each_resolved
  add_each_resolved-Extends has_port [] s valid = Extends-refl l.network target port s
  add_each_resolved-Extends has_port (ip ∷ ips) s (v, valid) =
      Extends-trans l.network target port s _ _ (add_resolved-Extends has_port ip s v)
        (add_each_resolved-Extends has_port ips (add_resolved l o target port has_port ip s) valid)

-- A target that is a name, with or without a port, adds to the ranger only entries of addresses that
-- the network policy allows, with the target as their metadata, and keeps those that are there.
pub add_name-Extends :
    (l : Lookups) (o : Options) (target : Text) (s : Tracked) {t : Tracked}
    → add_name l o target s ≡ ok t
    → Extends l.network target ((get_port l.network target).1) s t
unfolding add_name
add_name-Extends l o target s {t} h =
    let (host, port, has_port) = get_port l.network target in
    elim (Outcome-cases (resolve_fqdn l.network o (if has_port then host else target))) [
      | inl (ips, found) ↦
          subst (Extends l.network target port s) (ok-injective (rw (add_name, found) at h)) (
            add_each_resolved-Extends l o target port has_port ips s
              (resolve_fqdn-IsValid l.network o _ found))
      | inr (e, lost) ↦ absurd (let p = rw (add_name, lost) at h in cc)
    ]
