-- ===== src/Vuln/Scanned.antt =====
-- pkg/vuln/scanner.go: what `Scan` reports, against the signatures and checks that apply.
use naabu.Prelude.{
  ◌≡◌, refl, sym, ap, ◌∙◌, inl, inr, List, [], ◌∷◌, ◌++◌, map, elem, filter, All, Bool-cases,
}
use naabu.Prelude.Int.{int_eq}
use naabu.Prelude.Text.{Text, text_eq}
use naabu.Prelude.Unseen.{
  add_unseen, add_all, IsDistinct, IsCollected, add_all-IsCollected, elem-add_all, add_all-All,
  add_all-append,
}
use naabu.Banner.Service.{ServiceInfo}
use naabu.Vuln.Signature.{SigEntry}
use naabu.Vuln.Exposure.{Finding, exposure_checks}
use naabu.Vuln.Scan.{key, sig_finding, matches, scan_sigs, scan_with}

-- All that applies to a service: what the matching signatures say, and the exposures.
unfoldable pub applying : List SigEntry → ServiceInfo → List Finding
applying db si = map (sig_finding si) (filter (matches si) db) ++ exposure_checks si

scan_sigs-add_all :
    (si : ServiceInfo) (db : List SigEntry) (st : List Text × List Finding)
    → scan_sigs si db st ≡ add_all key st (map (sig_finding si) (filter (matches si) db))
unfolding scan_sigs filter add_all
scan_sigs-add_all si [] st = refl
scan_sigs-add_all si (sig ∷ db) st = elim (Bool-cases (matches si sig)) [
  | inl hit ↦ rw hit (scan_sigs-add_all si db (add_unseen key st (sig_finding si sig)))
  | inr miss ↦ rw miss (scan_sigs-add_all si db st)
]

scan_with-add_all :
    (db : List SigEntry) (si : ServiceInfo)
    → scan_with db si ≡ (add_all key ([], []) (applying db si)).1
unfolding scan_with applying
scan_with-add_all db si =
    ap (λ (st : List Text × List Finding). (add_all key st (exposure_checks si)).1)
      (scan_sigs-add_all si db ([], []))
    ∙ ap (λ (st : List Text × List Finding). st.1)
        (sym (
          add_all-append key ([], []) (map (sig_finding si) (filter (matches si) db))
            (exposure_checks si)))

-- The keys that are seen are those reported.
module _ (db : List SigEntry) (si : ServiceInfo) where
  collected : IsCollected key (add_all key ([], []) (applying db si))
  collected = add_all-IsCollected key ([], []) (applying db si) (refl, tt)

  reported : map key (scan_with db si) ≡ (add_all key ([], []) (applying db si)).0
  reported = ap (map key) (scan_with-add_all db si) ∙ sym (collected.0)

  pub elem-scan_with :
      (k : Text) → elem k (map key (scan_with db si)) ≡ elem k (map key (applying db si))
  elem-scan_with k =
      ap (λ (ks : List Text). elem k ks) reported ∙ elem-add_all key k ([], []) (applying db si)

  -- The findings of Scan have pairwise different keys, exactly the keys of the matching signatures and
  -- of the exposure checks are among them, and what holds of all that these say holds of every finding.
  pub scan_with-exact :
      IsDistinct (map key (scan_with db si))
      × ((k : Text) → elem k (map key (scan_with db si)) ≡ elem k (map key (applying db si)))
      × ((P : Finding → Type 0) → All P (applying db si) → All P (scan_with db si))
  scan_with-exact = (
    rw reported (collected.1),
    elem-scan_with,
    λ P h. rw scan_with-add_all (add_all-All key P ([], []) (applying db si) tt h),
  )
