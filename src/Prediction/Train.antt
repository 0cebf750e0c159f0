-- ===== src/Prediction/Train.antt =====
-- `Train` of pkg/prediction/model.go: conditional probabilities from the open ports of hosts.
use naabu.Prelude.{
  ℕ, ◌+◌, ◌≡◌, ◌↔◌, Bool, true, ◌&&◌, List, [], ◌∷◌, ◌++◌, none, some, if◌then◌else◌, ◌=?◌, elem,
  lookup, insert, Eq, arith,
}
use naabu.Prelude.Int.{ℤ, int_eq}
use naabu.Prelude.Text.{Text}
use naabu.Float.{Float64}
use naabu.Prediction.{Model, set}

abbrev pub pair_same : ℤ × ℤ → ℤ × ℤ → Bool
pair_same (a, b) (c, d) = (a =? c) && (b =? d)

pub pair_same_iff : (p q : ℤ × ℤ) → (pair_same p q ≡ true) ↔ (p ≡ q)
pair_same_iff (a, b) (c, d) = ground (arith, int_eq.same_iff a c, int_eq.same_iff b d)

-- The keys `[2]int`.
instance abbrev pub pair_eq : Eq (ℤ × ℤ)
pair_eq = record { same = pair_same; same_iff = pair_same_iff }

-- `counts[key]++`; a missing entry reads as zero.
module _ {K : Type 0} ⦃e : Eq K⦄ where
  unfoldable pub count_of : K → List (K × ℕ) → ℕ
  unfolding lookup
  count_of k counts = elim (lookup k counts) [ none ↦ 0 | some n ↦ n ]

  unfoldable pub increment : K → List (K × ℕ) → List (K × ℕ)
  unfolding count_of insert
  increment k counts = insert k (count_of k counts + 1) counts

-- The keys of `seen`: each port of a host once. The order of the first occurrences stands for that of
-- the map.
unfoldable pub port_list : List ℤ → List ℤ → List ℤ
port_list seen [] = []
port_list seen (p ∷ ports) =
    let rest = port_list seen ports in
    let others = port_list (p ∷ seen) ports in if elem p seen then rest else p ∷ others

unfoldable pub count_ports : List ℤ → List (ℤ × ℕ) → List (ℤ × ℕ)
unfolding increment
count_ports [] counts = counts
count_ports (p ∷ ports) counts = count_ports ports (increment p counts)

-- The loop over `j`: all ports of the list but the one at `i`.
unfoldable pub count_pairs : ℤ → List ℤ → List ((ℤ × ℤ) × ℕ) → List ((ℤ × ℤ) × ℕ)
unfolding increment
count_pairs p [] counts = counts
count_pairs p (q ∷ others) counts = count_pairs p others (increment (p, q) counts)

-- The loop over `i`, with the ports before it.
unfoldable pub pair_up : List ℤ → List ℤ → List ((ℤ × ℤ) × ℕ) → List ((ℤ × ℤ) × ℕ)
unfolding count_pairs
pair_up before [] counts = counts
pair_up before (p ∷ after) counts =
    pair_up (before ++ p ∷ []) after (count_pairs p (before ++ after) counts)

-- `portCount` and `cooccurrence`
pub record Counts : Type 0 where
  pub port_count : List (ℤ × ℕ)
  pub cooccurrence : List ((ℤ × ℤ) × ℕ)

unfoldable pub count_hosts : List (Text × List ℤ) → Counts → Counts
unfolding count_ports pair_up port_list
count_hosts [] c = c
count_hosts ((ip, ports) ∷ hosts) c = count_hosts hosts (record {
  port_count = count_ports ports c.port_count;
  cooccurrence = pair_up [] (port_list [] ports) c.cooccurrence;
})

module _ (f : Float64) where
  open f use {ratio}

  -- The loop over the pairs.
  unfoldable pub set_ratios : List (ℤ × ℕ) → List ((ℤ × ℤ) × ℕ) → Model f → Model f
  unfolding set count_of
  set_ratios port_count [] m = m
  set_ratios port_count (((given, target), count) ∷ pairs) m =
      set_ratios port_count pairs (set f m given target (ratio count (count_of given port_count)))

  unfoldable pub train : Model f → List (Text × List ℤ) → Model f
  unfolding set_ratios count_hosts
  train m host_ports =
      let c = count_hosts host_ports (record { port_count = []; cooccurrence = [] }) in
      set_ratios c.port_count c.cooccurrence m
