-- ===== src/Vuln/Versions.antt =====
-- pkg/vuln/scanner.go: how the version of a service decides what `Scan` reports.
use naabu.Prelude.{
  ◌≡◌, refl, ap, ◌∙◌, inl, inr, arith, Bool, true, ◌||◌, List, [], ◌∷◌, map, map-append, ◌=?◌,
  =?_refl, elem, filter, Bool-cases, ◌<◌, ℕ, zero, suc, get_elem?, some,
}
use mathlib.Core.Option.{some-injective}
use naabu.Prelude.Int.{ℤ, int_eq}
use naabu.Prelude.Text.{Text, text_eq}
use naabu.Prelude.Search.{to_lower, text_lt}
use naabu.Prelude.Unseen.{elem-append}
use naabu.Banner.Service.{ServiceInfo}
use naabu.Vuln.Signature.{SigEntry, match_sig}
use naabu.Vuln.Exposure.{Finding, exposure, exposure_cases, exposure_checks}
use naabu.Vuln.Scan.{key, sig_finding, matches, scan_with}
use naabu.Vuln.Scanned.{applying, elem-scan_with}

-- The service with nothing known about its version.
abbrev pub unversioned : ServiceInfo → ServiceInfo
unversioned si = record si { version = [] }

match_sig-unversioned :
    (sig : SigEntry) (svc prod ver raw : Text) (port : ℤ)
    → match_sig sig svc prod ver raw port ≡ true
    → match_sig sig svc prod [] raw port ≡ true
unfolding match_sig
match_sig-unversioned sig svc prod ver raw port h = ground arith

elem-filter :
    (f : SigEntry → Finding) (m n : SigEntry → Bool) (db : List SigEntry) (k : Text)
    → ((sig : SigEntry) → m sig ≡ true → n sig ≡ true)
    → elem k (map key (map f (filter m db))) ≡ true
    → elem k (map key (map f (filter n db))) ≡ true
unfolding filter
elem-filter f m n [] k weaker h = h
elem-filter f m n (sig ∷ db) k weaker h = elim (Bool-cases (m sig)) [
  | inl hit ↦ rw (weaker sig hit) (ground (arith, elem-filter f m n db k weaker))
  | inr miss ↦ elim (Bool-cases (n sig)) [
    | inl now ↦ rw now (ground (arith, elem-filter f m n db k weaker))
    | inr still ↦ rw still (elem-filter f m n db k weaker (ground arith))
  ]
]

-- A key of what applies is that of a matching signature or that of an exposure check.
elem-applying :
    (db : List SigEntry) (si : ServiceInfo) (k : Text)
    → elem k (map key (applying db si)) ≡ (
        elem k (map key (map (sig_finding si) (filter (matches si) db)))
        || elem k (map key (exposure_checks si)))
unfolding applying
elem-applying db si k =
    ap (λ (ks : List Text). elem k ks)
      (map-append key (map (sig_finding si) (filter (matches si) db)) (exposure_checks si))
    ∙ elem-append k _ (map key (exposure_checks si))

unversioned_same : (si : ServiceInfo) → exposure_checks (unversioned si) ≡ exposure_checks si
unfolding exposure_checks exposure_cases exposure
unversioned_same si = refl

-- Whatever Scan reports of a service whose version is known, it also reports of one of which it is not.
pub scan_with-unversioned :
    (db : List SigEntry) (si : ServiceInfo) (k : Text)
    → elem k (map key (scan_with db si)) ≡ true
    → elem k (map key (scan_with db (unversioned si))) ≡ true
unfolding matches sig_finding
scan_with-unversioned db si k h = ground (
  arith,
  elem-scan_with db si k,
  elem-scan_with db (unversioned si) k,
  elem-applying db si k,
  elem-applying db (unversioned si) k,
  unversioned_same si,
  elem-filter (sig_finding si) (matches si) (matches (unversioned si)) db k λ sig.
      match_sig-unversioned sig (to_lower si.service_name) (to_lower si.product) si.version
        (to_lower si.raw_banner) si.port,
)

elem-filter-at :
    (f : SigEntry → Finding) (m : SigEntry → Bool) (db : List SigEntry) (i : ℕ) (sig : SigEntry)
    → get_elem? db i ≡ some sig
    → m sig ≡ true
    → elem (key (f sig)) (map key (map f (filter m db))) ≡ true
unfolding filter
elem-filter-at f m [] i sig at h = cc
elem-filter-at f m (x ∷ db) zero sig at h =
    let same = some-injective x sig at in
    rw (ap m same ∙ h) (rw same (ground (arith, =?_refl (key (f sig)))))
elem-filter-at f m (x ∷ db) (suc i) sig at h = elim (Bool-cases (m x)) [
  | inl hit ↦ rw hit (ground (arith, elem-filter-at f m db i sig))
  | inr miss ↦ rw miss (elem-filter-at f m db i sig at h)
]

-- A signature of the table that matches is reported.
pub scan_with-at :
    (db : List SigEntry) (si : ServiceInfo) (i : ℕ) (sig : SigEntry)
    → get_elem? db i ≡ some sig
    → matches si sig ≡ true
    → elem (key (sig_finding si sig)) (map key (scan_with db si)) ≡ true
scan_with-at db si i sig at h = ground (
  arith,
  elem-scan_with db si (key (sig_finding si sig)),
  elem-applying db si (key (sig_finding si sig)),
  elem-filter-at (sig_finding si) (matches si) db i sig at h,
)

-- Versions are compared as texts.
match_sig-above :
    (sig : SigEntry) (svc prod raw rest m : Text) (c d : ℕ) (port : ℤ)
    → sig.min_version ≡ []
    → sig.max_version ≡ c ∷ m
    → d < c
    → match_sig sig svc prod [] raw port ≡ true
    → match_sig sig svc prod (d ∷ rest) raw port ≡ true
unfolding match_sig text_lt
match_sig-above sig svc prod raw rest m c d port lo hi less h =
    rw (lo, hi) (ground (arith, ap (λ (t : Text). t =? []) lo))

-- A signature without a lower bound whose upper bound begins with a character above d is reported of
-- every version that begins with d, if the service meets its other criteria: of OpenSSH 10.0 where the
-- last affected version is 9.3p1.
pub scan_with-first_character :
    (db : List SigEntry) (si : ServiceInfo) (i : ℕ) (sig : SigEntry) (c d : ℕ) (m rest : Text)
    → get_elem? db i ≡ some sig
    → sig.min_version ≡ []
    → sig.max_version ≡ c ∷ m
    → d < c
    → si.version ≡ d ∷ rest
    → matches (unversioned si) sig ≡ true
    → elem (key (sig_finding si sig)) (map key (scan_with db si)) ≡ true
scan_with-first_character db si i sig c d m rest at lo hi less ver h = scan_with-at db si i sig at (
    unfold matches in
    rw ver (
      match_sig-above sig (to_lower si.service_name) (to_lower si.product) (to_lower si.raw_banner)
        rest m c d si.port lo hi less h))
