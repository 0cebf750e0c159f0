-- ===== src/Prelude/Unseen.antt =====
-- Go's loops `if seen[key] { continue }; seen[key] = true; out = append(out, x)`: the first value of
-- every key is kept.
use mathlib.Core.Path.{◌≡◌, refl, ap, ◌∙◌}
use mathlib.Core.Logic.{inl, inr}
use mathlib.Core.Bool.{false, ◌||◌}
use mathlib.Core.List.{List, [], ◌∷◌, ◌++◌, map, map-append}
use native.Mathlib.Omega.{arith}
use naabu.Prelude.Tests.{if◌then◌else◌, Bool-cases}
use naabu.Prelude.Lists.{All, All-append}
use naabu.Prelude.Keys.{Eq, elem, ◌=?◌}

module _ {ℓ} {K : Type ℓ} ⦃e : Eq K⦄ where
  -- No value stands twice.
  abbrev pub IsDistinct : List K → Type 0
  IsDistinct [] = Unit {0}
  IsDistinct (k ∷ ks) = (elem k ks ≡ false) × IsDistinct ks

  pub elem-append : (k : K) (ks js : List K) → elem k (ks ++ js) ≡ (elem k ks || elem k js)
  elem-append k [] js = refl
  elem-append k (x ∷ ks) js = ground (arith, elem-append k ks js)

  -- A value that is not there, put behind.
  IsDistinct-append :
      (ks : List K) (k : K) → IsDistinct ks → elem k ks ≡ false → IsDistinct (ks ++ k ∷ [])
  IsDistinct-append [] k d h = (refl, tt)
  IsDistinct-append (x ∷ ks) k (f, d) h = (
    elem-append x ks (k ∷ []) ∙ ground (arith, e.same_iff x k, e.same_iff k x),
    IsDistinct-append ks k d (ground arith),
  )

module _ {ℓ κ} {K : Type ℓ} ⦃e : Eq K⦄ {A : Type κ} (key : A → K) where
  unfoldable pub add_unseen : List K × List A → A → List K × List A
  add_unseen (seen, out) a =
      if elem (key a) seen then (seen, out) else (seen ++ key a ∷ [], out ++ a ∷ [])

  unfoldable pub add_all : List K × List A → List A → List K × List A
  unfolding add_unseen
  add_all st [] = st
  add_all st (a ∷ xs) = add_all (add_unseen st a) xs

  -- The values have pairwise different keys, those seen.
  abbrev pub IsCollected : List K × List A → Type ℓ
  IsCollected (seen, out) = (seen ≡ map key out) × IsDistinct seen

  add_unseen-IsCollected :
      (st : List K × List A) (a : A) → IsCollected st → IsCollected (add_unseen st a)
  unfolding add_unseen
  add_unseen-IsCollected (seen, out) a (keys, d) = elim (Bool-cases (elem (key a) seen)) [
    | inl old ↦ rw old (keys, d)
    | inr new ↦ rw new (
      ap (λ (ks : List K). ks ++ key a ∷ []) keys ∙ (rw (map-append key out (a ∷ [])) refl),
      IsDistinct-append seen (key a) d new,
    )
  ]

  pub add_all-IsCollected :
      (st : List K × List A) (xs : List A) → IsCollected st → IsCollected (add_all st xs)
  unfolding add_all
  add_all-IsCollected st [] h = h
  add_all-IsCollected st (a ∷ xs) h =
      add_all-IsCollected (add_unseen st a) xs (add_unseen-IsCollected st a h)

  elem-add_unseen :
      (k : K) (st : List K × List A) (a : A)
      → elem k ((add_unseen st a).0) ≡ (elem k (st.0) || (k =? key a))
  unfolding add_unseen
  elem-add_unseen k (seen, out) a = elim (Bool-cases (elem (key a) seen)) [
    | inl old ↦ rw old (elim (Bool-cases (k =? key a)) [
      | inl same ↦ rw (same, (e.same_iff k (key a)).0 same, old) refl
      | inr diff ↦ rw diff (ground arith)
    ])
    | inr new ↦ rw new (elem-append k seen (key a ∷ []) ∙ ground arith)
  ]

  -- Exactly the keys of the given values are seen, with those from before.
  pub elem-add_all :
      (k : K) (st : List K × List A) (xs : List A)
      → elem k ((add_all st xs).0) ≡ (elem k (st.0) || elem k (map key xs))
  unfolding add_all
  elem-add_all k st [] = ground arith
  elem-add_all k st (a ∷ xs) =
      ground (arith, elem-add_all k (add_unseen st a) xs, elem-add_unseen k st a)

  add_unseen-All {ι} :
      (P : A → Type ι) (st : List K × List A) (a : A)
      → All P (st.1)
      → P a
      → All P ((add_unseen st a).1)
  unfolding add_unseen
  add_unseen-All P (seen, out) a h p = elim (Bool-cases (elem (key a) seen)) [
    | inl old ↦ rw old h
    | inr new ↦ rw new (All-append P out (a ∷ []) h (p, tt))
  ]

  -- Nothing else is kept.
  pub add_all-All {ι} :
      (P : A → Type ι) (st : List K × List A) (xs : List A)
      → All P (st.1)
      → All P xs
      → All P ((add_all st xs).1)
  unfolding add_all
  add_all-All P st [] h hs = h
  add_all-All P st (a ∷ xs) h (p, ps) =
      add_all-All P (add_unseen st a) xs (add_unseen-All P st a h p) ps

  pub add_all-append :
      (st : List K × List A) (xs ys : List A) → add_all st (xs ++ ys) ≡ add_all (add_all st xs) ys
  unfolding add_all
  add_all-append st [] ys = refl
  add_all-append st (a ∷ xs) ys = add_all-append (add_unseen st a) xs ys
