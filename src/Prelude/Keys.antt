-- ===== src/Prelude/Keys.antt =====
-- Equality tests as an interface, and finite maps as association lists. A Go map has one entry
-- for a key: `insert` keeps that. The order of the entries stands for the order of iteration.
use Prim.Native.Nat.{◌+◌, ℕ}
use mathlib.Core.Path.{◌≡◌, refl, ◌∙◌}
use mathlib.Core.Logic.{◌↔◌, ◌≢◌, inl, inr}
use mathlib.Core.Bool.{Bool, true, false, ◌||◌}
use mathlib.Core.List.{List, [], ◌∷◌}
use mathlib.Core.Option.{Option, none, some}
use native.Mathlib.Omega.{arith}
use mathlib.Core.Path.{subst}
use naabu.Prelude.Lists.{All, length}
use naabu.Prelude.Tests.{if◌then◌else◌, Bool-cases, Option-cases, ◌==◌ as nat_beq, ==_iff}

pub record Eq {ℓ} (A : Type ℓ) : Type ℓ where
  pub same : A → A → Bool
  pub same_iff : (a b : A) → (same a b ≡ true) ↔ (a ≡ b)

instance abbrev pub nat_eq : Eq ℕ
nat_eq = record { same = nat_beq; same_iff = ==_iff }

module _ {ℓ} {K : Type ℓ} ⦃e : Eq K⦄ where
  infix 50 ◌=?◌
  abbrev pub ◌=?◌ : K → K → Bool
  ◌=?◌ = e.same

  pub =?_refl : (a : K) → (a =? a) ≡ true
  =?_refl a = (e.same_iff a a).1 refl

  pub =?_ne : (a b : K) → (a =? b) ≡ false → a ≢ b
  =?_ne a b h p = ground (arith, (e.same_iff a b).1 p)

  pub ne-=? : (a b : K) → a ≢ b → (a =? b) ≡ false
  ne-=? a b h = elim (Bool-cases (a =? b)) [ inl t ↦ absurd (h ((e.same_iff a b).0 t)) | inr f ↦ f ]

  abbrev pub elem : K → List K → Bool
  elem k [] = false
  elem k (x ∷ xs) = (k =? x) || elem k xs

  module _ {κ} {V : Type κ} where
    unfoldable pub lookup : K → List (K × V) → Option V
    lookup k [] = none
    lookup k ((j, v) ∷ m) = if j =? k then some v else lookup k m

    unfoldable pub insert : K → V → List (K × V) → List (K × V)
    insert k v [] = (k, v) ∷ []
    insert k v ((j, w) ∷ m) = if j =? k then (k, v) ∷ m else (j, w) ∷ insert k v m

    unfoldable pub has_key : K → List (K × V) → Bool
    has_key k [] = false
    has_key k ((j, v) ∷ m) = (j =? k) || has_key k m

    unfoldable pub delete : K → List (K × V) → List (K × V)
    delete k [] = []
    delete k ((j, v) ∷ m) = let rest = delete k m in if j =? k then rest else (j, v) ∷ rest

    pub lookup-delete :
        (k j : K) (m : List (K × V)) → lookup j (delete k m) ≡ (if k =? j then none else lookup j m)
    unfolding lookup delete
    lookup-delete k j [] = ground arith
    lookup-delete k j ((i, w) ∷ m) =
        ground (arith, e.same_iff k j, e.same_iff i k, e.same_iff i j, lookup-delete k j m)

    pub lookup-insert :
        (k j : K) (v : V) (m : List (K × V))
        → lookup j (insert k v m) ≡ (if k =? j then some v else lookup j m)
    unfolding lookup insert
    lookup-insert k j v [] = refl
    lookup-insert k j v ((i, w) ∷ m) =
        ground (arith, e.same_iff k j, e.same_iff i k, e.same_iff i j, lookup-insert k j v m)

    pub has_key-lookup :
        (k : K) (m : List (K × V))
        → has_key k m ≡ elim (lookup k m) [ none ↦ false | some _ ↦ true ]
    unfolding lookup has_key
    has_key-lookup k [] = refl
    has_key-lookup k ((j, v) ∷ m) = ground (arith, has_key-lookup k m)

    pub has_key-insert :
        (k j : K) (v : V) (m : List (K × V)) → has_key j (insert k v m) ≡ ((k =? j) || has_key j m)
    unfolding has_key insert
    has_key-insert k j v [] = refl
    has_key-insert k j v ((i, w) ∷ m) =
        ground (arith, e.same_iff k j, e.same_iff i k, e.same_iff i j, has_key-insert k j v m)

    -- One entry for a key.
    abbrev pub IsMap : List (K × V) → Type 0
    IsMap [] = Unit {0}
    IsMap ((k, v) ∷ m) = (has_key k m ≡ false) × IsMap m

    pub insert-IsMap : (k : K) (v : V) (m : List (K × V)) → IsMap m → IsMap (insert k v m)
    unfolding insert has_key
    insert-IsMap k v [] h = (refl, tt)
    insert-IsMap k v ((j, w) ∷ m) (h, hs) = elim (Bool-cases (j =? k)) [
      | inl same ↦ rw same (rw ((e.same_iff j k).0 same) at h, hs)
      | inr other ↦ rw other (
        has_key-insert k j v m ∙ ground (arith, e.same_iff j k, e.same_iff k j),
        insert-IsMap k v m hs,
      )
    ]

    pub lookup-fresh : (k : K) (m : List (K × V)) → has_key k m ≡ false → lookup k m ≡ none
    lookup-fresh k m h = elim (Option-cases (lookup k m)) [
      | inl n ↦ n
      | inr (v, s) ↦ ground (arith, has_key-lookup k m)
    ]

    pub insert-insert :
        (k : K) (v w : V) (m : List (K × V)) → insert k v (insert k w m) ≡ insert k v m
    unfolding insert
    insert-insert k v w [] = ground (arith, e.same_iff k k)
    insert-insert k v w ((j, u) ∷ m) =
        ground (arith, e.same_iff k k, e.same_iff j k, insert-insert k v w m)

    pub length-insert :
        (k : K) (v : V) (m : List (K × V))
        → length (insert k v m) ≡ (if has_key k m then 0 else 1) + length m
    unfolding insert has_key
    length-insert k v [] = refl
    length-insert k v ((j, u) ∷ m) = ground (arith, length-insert k v m)

    pub insert-All {ι} :
        (P : K × V → Type ι) (k : K) (v : V) (m : List (K × V))
        → P (k, v)
        → All P m
        → All P (insert k v m)
    unfolding insert
    insert-All P k v [] p ps = (p, tt)
    insert-All P k v ((j, u) ∷ m) p (q, qs) = elim (Bool-cases (j =? k)) [
      | inl same ↦ rw same (p, qs)
      | inr other ↦ rw other (q, insert-All P k v m p qs)
    ]

    pub lookup-All {ι} :
        (P : V → Type ι) (k : K) (m : List (K × V)) {v : V}
        → All (λ (e : K × V). P e.1) m
        → lookup k m ≡ some v
        → P v
    unfolding lookup
    lookup-All P k ((j, u) ∷ m) {v} (p, ps) h = elim (Bool-cases (j =? k)) [
      | inl same ↦ subst P (ground arith) p
      | inr other ↦ lookup-All P k m ps (ground arith)
    ]
    lookup-All P k [] ps h = cc
