-- ===== src/Prediction/Merge.antt =====
-- `Set` and `Merge`: what the model holds afterwards.
use naabu.Prelude.{
  ◌≡◌, ◌&&◌, List, [], ◌∷◌, Option, none, some, if◌then◌else◌, ◌=?◌, lookup, insert, IsMap,
  lookup-insert, lookup-fresh, arith,
}
use naabu.Prelude.Int.{ℤ, int_eq}
use naabu.Float.{Float64}
use naabu.Prediction.{Model, Targets, targets_of, raise, set, merge_targets, merge_from, merge}
use naabu.Prediction.Predict.{IsModel, probability}

module _ (f : Float64) where
  open f use {Float, zero_value, lt}

  -- The probability of a pair after a merge: the other model's, if it is larger than this one's, and a
  -- missing one counts as zero.
  pub larger : Option Float → Option Float → Option Float
  larger old none = old
  larger none (some p) = if lt zero_value p then some p else none
  larger (some q) (some p) = if lt q p then some p else some q

  lookup-raise :
      (c : Targets f) (t u : ℤ) (p : Float)
      → lookup u (raise f c t p) ≡ (if t =? u then larger (lookup u c) (some p) else lookup u c)
  unfolding raise larger
  lookup-raise c t u p = ground (arith, lookup-insert t u p c, int_eq.same_iff t u)

  targets_of-insert :
      (g h : ℤ) (ts : Targets f) (c : List (ℤ × Targets f))
      → targets_of f (insert g ts c) h ≡ (if g =? h then ts else targets_of f c h)
  targets_of-insert g h ts c = ground (arith, lookup-insert g h ts c)

  lookup-merge_targets :
      (given : ℤ) (ts : Targets f) (c : List (ℤ × Targets f)) (g t : ℤ)
      → IsMap ts
      → lookup t (targets_of f (merge_targets f given ts c) g) ≡ (
          if given =? g
          then larger (lookup t (targets_of f c g)) (lookup t ts)
          else lookup t (targets_of f c g))
  unfolding merge_targets larger lookup
  lookup-merge_targets given [] c g t h = ground arith
  lookup-merge_targets given ((u, p) ∷ ts) c g t (h, hs) =
      let next = insert given (raise f (targets_of f c given) u p) c in
      ground (
        arith,
        lookup-merge_targets given ts next g t hs,
        targets_of-insert given g (raise f (targets_of f c given) u p) c,
        lookup-raise (targets_of f c given) u t p,
        lookup-fresh u ts h,
        int_eq.same_iff given g,
        int_eq.same_iff u t,
      )

  lookup-merge_from :
      (o c : List (ℤ × Targets f)) (g t : ℤ)
      → IsMap o
      → ((h : ℤ) (ts : Targets f) → lookup h o ≡ some ts → IsMap ts)
      → lookup t (targets_of f (merge_from f o c) g)
        ≡ larger (lookup t (targets_of f c g)) (lookup t (targets_of f o g))
  unfolding merge_from larger lookup
  lookup-merge_from [] c g t h w = ground arith
  lookup-merge_from ((given, ts) ∷ o) c g t (h, hs) w =
      let start = insert given (targets_of f c given) c in
      let inner = w given ts (ground (arith, int_eq.same_iff given given)) in
      let rest : (k : ℤ) (us : Targets f) → lookup k o ≡ some us → IsMap us =
        λ k us e. w k us (ground (arith, int_eq.same_iff given k, lookup-fresh given o h)) in
      ground (
        arith,
        lookup-merge_from o (merge_targets f given ts start) g t hs rest,
        lookup-merge_targets given ts start g t inner,
        targets_of-insert given g (targets_of f c given) c,
        lookup-fresh given o h,
        int_eq.same_iff given g,
      )

  -- `Set` stores the probability of its pair, and leaves all others.
  pub probability-set :
      (m : Model f) (given target : ℤ) (p : Float) (g t : ℤ)
      → probability f (set f m given target p) g t
        ≡ (if (given =? g) && (target =? t) then some p else probability f m g t)
  unfolding set probability
  probability-set m given target p g t =
      let c = m.correlations in
      let ts = targets_of f c given in
      ground (
        arith,
        lookup-insert given g (insert target p ts) c,
        lookup-insert target t p ts,
        int_eq.same_iff given g,
      )

  -- `Merge` keeps the larger of the two probabilities of every pair.
  pub probability-merge :
      (m other : Model f) (g t : ℤ)
      → IsModel f other
      → probability f (merge f m other) g t ≡ larger (probability f m g t) (probability f other g t)
  unfolding merge probability lookup
  probability-merge m other g t w =
      ground (arith, lookup-merge_from other.correlations m.correlations g t w.outer w.inner)
