-- ===== src/Prediction/Predict.antt =====
-- `Predict`: which ports it predicts, and with what confidence.
use naabu.Prelude.{
  ◌≡◌, refl, sym, ◌∙◌, true, not, ◌&&◌, List, [], ◌∷◌, Option, none, some, if◌then◌else◌, ◌=?◌,
  elem, lookup, insert, has_key, IsMap, lookup-insert, has_key-insert, has_key-lookup, insert-IsMap,
  lookup-fresh, arith, inl, inr, Bool-cases, Option-cases,
}
use naabu.Prelude.Int.{ℤ, int_eq}
use naabu.Float.{Float64}
use naabu.Prediction.{
  PortPrediction, Targets, Model, read, raise, raise_targets, raise_known, candidates_of, reaching,
  insert_sorted, sort, predict, less,
}

module _ (f : Float64) where
  open f use {Float, zero_value, lt, ratio, lt_irrefl, lt_trans}

  -- The larger of a confidence and a probability, if there is one.
  unfoldable pub raised : Float → Option Float → Float
  raised best none = best
  raised best (some p) = if lt best p then p else best

  -- P(target | given), if the model has it.
  unfoldable pub probability : Model f → ℤ → ℤ → Option Float
  probability m given target = elim (lookup given m.correlations) [
    | none ↦ none
    | some ts ↦ lookup target ts
  ]

  -- The largest probability of the target, given an open port of the list.
  pub best : Model f → ℤ → List ℤ → Float → Float
  best m target [] b = b
  best m target (k ∷ ks) b = best m target ks (raised b (probability m k target))

  -- Every list of targets has one entry for a port.
  pub record IsModel (m : Model f) : Type 0 where
    pub outer : IsMap m.correlations
    pub inner : (given : ℤ) (ts : Targets f) → lookup given m.correlations ≡ some ts → IsMap ts

  -- A candidate is kept exactly if its confidence is positive.
  abbrev Positive : Targets f → Type 0
  Positive c = IsMap c × ((t : ℤ) → has_key t c ≡ lt zero_value (read f c t))

  read-raise :
      (c : Targets f) (t u : ℤ) (p : Float)
      → read f (raise f c t p) u ≡ (if t =? u then raised (read f c u) (some p) else read f c u)
  unfolding raise raised
  read-raise c t u p = ground (arith, lookup-insert t u p c, int_eq.same_iff t u)

  raise-Positive : (c : Targets f) (t : ℤ) (p : Float) → Positive c → Positive (raise f c t p)
  unfolding raise
  raise-Positive c t p (m, pos) = elim (Bool-cases (lt (read f c t) p)) [
    | inl e ↦ rw e (insert-IsMap t p c m, λ u. kept u e)
    | inr e ↦ rw e (m, pos)
  ]
    where
      kept :
          (u : ℤ)
          → lt (read f c t) p ≡ true
          → has_key u (insert t p c) ≡ lt zero_value (read f (insert t p c) u)
      kept u e = ground (
        arith,
        has_key-insert t u p c,
        lookup-insert t u p c,
        pos t,
        pos u,
        lookup-fresh t c,
        lt_trans zero_value (read f c t) p,
        int_eq.same_iff t u,
      )

  raise_targets-Positive :
      (open_ports : List ℤ) (ts c : Targets f)
      → Positive c
      → Positive (raise_targets f open_ports ts c)
  unfolding raise_targets
  raise_targets-Positive open_ports [] c h = h
  raise_targets-Positive open_ports ((t, p) ∷ ts) c h = elim (Bool-cases (elem t open_ports)) [
    | inl e ↦ rw e (raise_targets-Positive open_ports ts c h)
    | inr e ↦ rw e (raise_targets-Positive open_ports ts (raise f c t p) (raise-Positive c t p h))
  ]

  read-raise_targets :
      (open_ports : List ℤ) (ts c : Targets f) (u : ℤ)
      → IsMap ts
      → read f (raise_targets f open_ports ts c) u
        ≡ (if elem u open_ports then read f c u else raised (read f c u) (lookup u ts))
  unfolding raise_targets lookup raised
  read-raise_targets open_ports [] c u h = ground arith
  read-raise_targets open_ports ((t, p) ∷ ts) c u (h, hs) = ground (
    arith,
    read-raise_targets open_ports ts c u hs,
    read-raise_targets open_ports ts (raise f c t p) u hs,
    read-raise c t u p,
    lookup-fresh t ts h,
    int_eq.same_iff t u,
  )

  module _ (m : Model f) (open_ports : List ℤ) where
    raise_known-Positive :
        (k : ℤ) (c : Targets f) → Positive c → Positive (raise_known f m open_ports k c)
    unfolding raise_known
    raise_known-Positive k c h = elim (Option-cases (lookup k m.correlations)) [
      | inl e ↦ rw (e, raise_known) h
      | inr (ts, e) ↦ rw (e, raise_known) (raise_targets-Positive open_ports ts c h)
    ]

    candidates_of-Positive :
        (ks : List ℤ) (c : Targets f) → Positive c → Positive (candidates_of f m open_ports ks c)
    unfolding candidates_of
    candidates_of-Positive [] c h = h
    candidates_of-Positive (k ∷ ks) c h =
        candidates_of-Positive ks (raise_known f m open_ports k c) (raise_known-Positive k c h)

    module _ (w : IsModel m) (u : ℤ) where
      read-raise_known :
          (k : ℤ) (c : Targets f)
          → read f (raise_known f m open_ports k c) u
            ≡ (if elem u open_ports then read f c u else raised (read f c u) (probability m k u))
      unfolding raise_known probability raised
      read-raise_known k c = elim (Option-cases (lookup k m.correlations)) [
        | inl e ↦ ground arith
        | inr (ts, e) ↦ ground (arith, read-raise_targets open_ports ts c u (w.inner k ts e))
      ]

      read-candidates_of :
          (ks : List ℤ) (c : Targets f)
          → read f (candidates_of f m open_ports ks c) u
            ≡ (if elem u open_ports then read f c u else best m u ks (read f c u))
      unfolding candidates_of best
      read-candidates_of [] c = ground arith
      read-candidates_of (k ∷ ks) c =
          ground
            (arith, read-candidates_of ks (raise_known f m open_ports k c), read-raise_known k c)

  -- What a list of predictions says of a port.
  pub confidence_of : ℤ → List (PortPrediction f) → Option Float
  confidence_of t [] = none
  confidence_of t (x ∷ xs) = if x.port =? t then some x.confidence else confidence_of t xs

  confidence_of-reaching :
      (threshold : Float) (c : Targets f) (t : ℤ)
      → IsMap c
      → confidence_of t (reaching f threshold c)
        ≡ elim (lookup t c) [ none ↦ none | some p ↦ if lt p threshold then none else some p ]
  unfolding confidence_of reaching lookup
  confidence_of-reaching threshold [] t h = refl
  confidence_of-reaching threshold ((p, conf) ∷ c) t (h, hs) =
      ground
        (arith, confidence_of-reaching threshold c t hs, lookup-fresh p c h, int_eq.same_iff p t)

  -- A sorted insertion of a port that is not in the list.
  confidence_of-insert_sorted :
      (x : PortPrediction f) (ys : List (PortPrediction f)) (t : ℤ)
      → confidence_of x.port ys ≡ none
      → confidence_of t (insert_sorted f x ys)
        ≡ (if x.port =? t then some x.confidence else confidence_of t ys)
  unfolding confidence_of insert_sorted
  confidence_of-insert_sorted x [] t h = refl
  confidence_of-insert_sorted x (y ∷ ys) t h = elim (Bool-cases (less f y x)) [
    | inl e ↦ rw e (
        ground (
          arith,
          confidence_of-insert_sorted x ys t,
          int_eq.same_iff x.port t,
          int_eq.same_iff y.port t,
          int_eq.same_iff y.port x.port,
        ))
    | inr e ↦ rw e refl
  ]

  -- No port twice.
  abbrev IsSingle : List (PortPrediction f) → Type 0
  IsSingle [] = Unit {0}
  IsSingle (x ∷ xs) = (confidence_of x.port xs ≡ none) × IsSingle xs

  confidence_of-sort :
      (xs : List (PortPrediction f)) (t : ℤ)
      → IsSingle xs
      → confidence_of t (sort f xs) ≡ confidence_of t xs
  unfolding sort confidence_of
  confidence_of-sort [] t h = refl
  confidence_of-sort (x ∷ xs) t (h, hs) =
      confidence_of-insert_sorted x (sort f xs) t (confidence_of-sort xs x.port hs ∙ h)
      ∙ ground (arith, confidence_of-sort xs t hs)

  reaching-IsSingle :
      (threshold : Float) (c : Targets f) → IsMap c → IsSingle (reaching f threshold c)
  unfolding reaching
  reaching-IsSingle threshold [] h = tt
  reaching-IsSingle threshold ((p, conf) ∷ c) (h, hs) =
      let rest = reaching-IsSingle threshold c hs in
      let fresh : confidence_of p (reaching f threshold c) ≡ none =
        ground (arith, confidence_of-reaching threshold c p hs, lookup-fresh p c h) in
      elim (Bool-cases (lt conf threshold)) [ inl e ↦ rw e rest | inr e ↦ rw e (fresh, rest) ]

  -- A port is predicted exactly if it is not open, and its largest probability given an open port is
  -- positive and reaches the threshold. Its confidence is that probability.
  pub predict_exact :
      (m : Model f) (open_ports : List ℤ) (threshold : Float) (t : ℤ)
      → IsModel m
      → confidence_of t (predict f m open_ports threshold) ≡ (
          let top = best m t open_ports zero_value in
          if not (elem t open_ports) && lt zero_value top && not (lt top threshold)
          then some top
          else none)
  unfolding predict lookup
  predict_exact m open_ports threshold t w =
      let found = candidates_of f m open_ports open_ports [] in
      let (one, positive) = candidates_of-Positive m open_ports open_ports [] start in
      confidence_of-sort (reaching f threshold found) t (reaching-IsSingle threshold found one)
      ∙ confidence_of-reaching threshold found t one
      ∙ ground (
        arith,
        positive t,
        has_key-lookup t found,
        lt_irrefl zero_value,
        read-candidates_of m open_ports w t open_ports [],
      )
    where
      start : Positive []
      start = (tt, λ u. unfold has_key lookup in sym (lt_irrefl zero_value))
