-- ===== src/Prediction.antt =====
-- pkg/prediction/model.go: conditional probabilities of open ports.
mod Tests
pub mod Samples
pub mod Predict
pub mod Merge
pub mod Order
pub mod Train
pub mod Trained
use naabu.Prelude.{
  ℕ, suc, ◌+◌, ◌≡◌, refl, Bool, true, false, not, ◌&&◌, ◌||◌, List, [], ◌∷◌, ◌++◌, map, Option,
  none, some, if◌then◌else◌, ◌=?◌, elem, lookup, insert, has_key, length, ◌==◌, Eq,
}
use naabu.Prelude.Int.{ℤ, int_eq, lt_int}
use naabu.Float.{Float64}

module _ (f : Float64) where
  open f use {Float, zero_value, lt, ratio}

  pub record PortPrediction : Type 0 where
    pub port : ℤ
    pub confidence : Float

  -- P(target | given), by the given port and the target.
  abbrev pub Targets : Type 0
  Targets = List (ℤ × Float)

  pub record Model : Type 0 where
    pub correlations : List (ℤ × Targets)

  abbrev pub new_model : Model
  new_model = record { correlations = [] }

  -- `m.correlations[given]`, made if it is missing.
  abbrev pub targets_of : List (ℤ × Targets) → ℤ → Targets
  targets_of c given = elim (lookup given c) [ none ↦ [] | some ts ↦ ts ]

  -- A read of a `map[int]float64`: a missing entry reads as zero.
  abbrev pub read : Targets → ℤ → Float
  read ts t = elim (lookup t ts) [ none ↦ zero_value | some p ↦ p ]

  unfoldable pub set : Model → ℤ → ℤ → Float → Model
  unfolding insert lookup
  set m given target probability = record m {
    correlations =
        insert given (insert target probability (targets_of m.correlations given)) m.correlations;
  }

  unfoldable pub set_bidirectional : Model → ℤ → ℤ → Float → Float → Model
  unfolding set
  set_bidirectional m port_a port_b a_given_b b_given_a =
      set (set m port_b port_a a_given_b) port_a port_b b_given_a

  -- `if prob > candidates[targetPort] { candidates[targetPort] = prob }`
  unfoldable pub raise : Targets → ℤ → Float → Targets
  unfolding insert lookup
  raise c t p = if lt (read c t) p then insert t p c else c

  -- The loop over the targets of one open port.
  raise_targets : List ℤ → Targets → Targets → Targets
  unfolding raise
  raise_targets open_ports [] c = c
  raise_targets open_ports ((t, p) ∷ ts) c =
      raise_targets open_ports ts (if elem t open_ports then c else raise c t p)

  raise_known : Model → List ℤ → ℤ → Targets → Targets
  unfolding raise_targets lookup
  raise_known m open_ports known c = elim (lookup known m.correlations) [
    | none ↦ c
    | some ts ↦ raise_targets open_ports ts c
  ]

  -- The loop over the open ports.
  candidates_of : Model → List ℤ → List ℤ → Targets → Targets
  unfolding raise_known
  candidates_of m open_ports [] c = c
  candidates_of m open_ports (known ∷ ks) c =
      candidates_of m open_ports ks (raise_known m open_ports known c)

  -- The candidates whose probability reaches the threshold.
  reaching : Float → Targets → List PortPrediction
  reaching threshold [] = []
  reaching threshold ((p, conf) ∷ c) =
      if lt conf threshold
      then reaching threshold c
      else record { port = p; confidence = conf } ∷ reaching threshold c

  -- The order of the two sorts: by confidence downwards, then by port.
  abbrev pub less : PortPrediction → PortPrediction → Bool
  less a b =
      if lt a.confidence b.confidence || lt b.confidence a.confidence
      then lt b.confidence a.confidence
      else lt_int a.port b.port

  -- `sort.Slice`, by insertion: entries that `less` does not tell apart are equal.
  insert_sorted : PortPrediction → List PortPrediction → List PortPrediction
  insert_sorted x [] = x ∷ []
  insert_sorted x (y ∷ ys) = if less y x then y ∷ insert_sorted x ys else x ∷ y ∷ ys

  sort : List PortPrediction → List PortPrediction
  unfolding insert_sorted
  sort [] = []
  sort (x ∷ xs) = insert_sorted x (sort xs)

  unfoldable pub predict : Model → List ℤ → Float → List PortPrediction
  unfolding candidates_of reaching sort lookup
  predict m open_ports threshold =
      sort (reaching threshold (candidates_of m open_ports open_ports []))

  -- The inner loop of `Merge`, over the targets of one port.
  merge_targets : ℤ → Targets → List (ℤ × Targets) → List (ℤ × Targets)
  unfolding insert lookup raise
  merge_targets given [] c = c
  merge_targets given ((t, p) ∷ ts) c =
      merge_targets given ts (insert given (raise (targets_of c given) t p) c)

  merge_from : List (ℤ × Targets) → List (ℤ × Targets) → List (ℤ × Targets)
  unfolding merge_targets
  merge_from [] c = c
  merge_from ((given, ts) ∷ rest) c =
      merge_from rest (merge_targets given ts (insert given (targets_of c given) c))

  -- The other model is read before this one is changed.
  unfoldable pub merge : Model → Model → Model
  unfolding merge_from
  merge m other = record m { correlations = merge_from other.correlations m.correlations }

  -- The score of one candidate, over the open ports.
  pub score : Model → ℤ → List ℤ → Float → Float
  score m candidate [] best = best
  score m candidate (p ∷ ps) best = score m candidate ps (elim (lookup p m.correlations) [
    | none ↦ best
    | some ts ↦ elim (lookup candidate ts) [
      | none ↦ best
      | some prob ↦ if lt best prob then prob else best
    ]
  ])

  unfoldable pub prioritize : Model → List ℤ → List ℤ → List PortPrediction
  unfolding score sort lookup
  prioritize m candidates open_ports =
      sort (map (λ c. record { port = c; confidence = score m c open_ports zero_value }) candidates)

  -- `GetCorrelations`; `none` is nil.
  unfoldable pub get_correlations : Model → ℤ → Option Targets
  unfolding lookup
  get_correlations m given = lookup given m.correlations

  total_entries : List (ℤ × Targets) → ℕ
  total_entries [] = 0
  total_entries ((g, ts) ∷ c) = length ts + total_entries c

  unfoldable pub stats : Model → ℕ × ℕ
  unfolding total_entries
  stats m = (length m.correlations, total_entries m.correlations)
