-- ===== src/Prediction/Order.antt =====
-- The order of the predictions, and the ranking of `Prioritize`.
use naabu.Prelude.{◌≡◌, true, false, List, [], ◌∷◌, map, arith, inl, inr, Bool-cases, All, All-map}
use mathlib.Core.List.{Perm}
use mathlib.Core.List.Perm
use naabu.Prelude.Int.{ℤ, int_eq}
use naabu.Float.{Float64}
use naabu.Prediction.{
  PortPrediction, Model, candidates_of, reaching, insert_sorted, sort, predict, prioritize, score,
  less,
}

module _ (f : Float64) where
  open f use {Float, zero_value, lt, lt_irrefl, lt_trans, lt_total}

  -- Nothing behind an entry is to stand before it.
  abbrev pub IsSorted : List (PortPrediction f) → Type 0
  IsSorted [] = Unit {0}
  IsSorted (x ∷ xs) = All (λ y. less f y x ≡ false) xs × IsSorted xs

  pub lt_asym : (a b : Float) → lt a b ≡ true → lt b a ≡ false
  lt_asym a b h = ground (arith, lt_irrefl a, lt_trans a b a)

  pub lt_neg_trans : (a b c : Float) → lt a b ≡ false → lt b c ≡ false → lt a c ≡ false
  lt_neg_trans a b c h k = ground (arith, lt_trans b a c, lt_total a b, lt_trans a c b, lt_asym b a)

  pub less_asym : (x y : PortPrediction f) → less f x y ≡ true → less f y x ≡ false
  less_asym x y h =
      ground (arith, lt_asym x.confidence y.confidence, lt_asym y.confidence x.confidence)

  pub less_neg_trans :
      (x y z : PortPrediction f) → less f x y ≡ false → less f y z ≡ false → less f x z ≡ false
  less_neg_trans x y z h k =
      let a = x.confidence in
      let b = y.confidence in
      let c = z.confidence in
      ground (
        arith,
        lt_neg_trans a b c,
        lt_neg_trans c b a,
        lt_trans b a c,
        lt_trans c a b,
        lt_trans a b c,
        lt_trans c b a,
        lt_total a b,
        lt_total b c,
        lt_asym b a,
        lt_asym c b,
      )

  insert_sorted-All {κ} :
      (P : PortPrediction f → Type κ) (x : PortPrediction f) (ys : List (PortPrediction f))
      → P x
      → All P ys
      → All P (insert_sorted f x ys)
  unfolding insert_sorted
  insert_sorted-All P x [] p ps = (p, tt)
  insert_sorted-All P x (y ∷ ys) p (q, qs) = elim (Bool-cases (less f y x)) [
    | inl e ↦ rw e (q, insert_sorted-All P x ys p qs)
    | inr e ↦ rw e (p, (q, qs))
  ]

  insert_sorted-IsSorted :
      (x : PortPrediction f) (ys : List (PortPrediction f))
      → IsSorted ys
      → IsSorted (insert_sorted f x ys)
  unfolding insert_sorted
  insert_sorted-IsSorted x [] h = (tt, tt)
  insert_sorted-IsSorted x (y ∷ ys) (h, hs) = elim (Bool-cases (less f y x)) [
    | inl e ↦ rw e (
      insert_sorted-All (λ z. less f z y ≡ false) x ys (less_asym y x e) h,
      insert_sorted-IsSorted x ys hs,
    )
    | inr e ↦ rw e ((e, All-map ys (λ z n. less_neg_trans z y x n e) h), (h, hs))
  ]

  sort-IsSorted : (xs : List (PortPrediction f)) → IsSorted (sort f xs)
  unfolding sort
  sort-IsSorted [] = tt
  sort-IsSorted (x ∷ xs) = insert_sorted-IsSorted x (sort f xs) (sort-IsSorted xs)

  insert_sorted-perm :
      (x : PortPrediction f) (ys : List (PortPrediction f)) → Perm (insert_sorted f x ys) (x ∷ ys)
  unfolding insert_sorted
  insert_sorted-perm x [] = Perm.refl (x ∷ [])
  insert_sorted-perm x (y ∷ ys) = elim (Bool-cases (less f y x)) [
    | inl e ↦ rw e (Perm.trans (Perm.cons y (insert_sorted-perm x ys)) (Perm.swap x y ys))
    | inr e ↦ rw e (Perm.refl (x ∷ y ∷ ys))
  ]

  sort-perm : (xs : List (PortPrediction f)) → Perm (sort f xs) xs
  unfolding sort
  sort-perm [] = Perm.refl []
  sort-perm (x ∷ xs) = Perm.trans (insert_sorted-perm x (sort f xs)) (Perm.cons x (sort-perm xs))

  -- Predictions come with falling confidence, and those of one confidence with rising ports.
  pub predict-IsSorted :
      (m : Model f) (open_ports : List ℤ) (threshold : Float)
      → IsSorted (predict f m open_ports threshold)
  unfolding predict
  predict-IsSorted m open_ports threshold =
      sort-IsSorted (reaching f threshold (candidates_of f m open_ports open_ports []))

  -- `Prioritize` drops no candidate and adds none: it lists each with its score, in that order.
  pub prioritize_correct :
      (m : Model f) (candidates open_ports : List ℤ)
      → IsSorted (prioritize f m candidates open_ports)
        × Perm (prioritize f m candidates open_ports) (
            map
              (λ c. record { port = c; confidence = score f m c open_ports zero_value })
              candidates)
  unfolding prioritize
  prioritize_correct m candidates open_ports =
      let all =
        map {A = ℤ} {B = PortPrediction f}
          (λ c. record { port = c; confidence = score f m c open_ports zero_value }) candidates in
      (sort-IsSorted all, sort-perm all)
