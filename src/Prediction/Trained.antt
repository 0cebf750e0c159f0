-- ===== src/Prediction/Trained.antt =====
-- What a model has learnt from a list of hosts.
use naabu.Prelude.{
  ℕ, ◌+◌, ◌*◌, ◌≡◌, ◌≢◌, refl, Bool, true, false, not, ◌&&◌, List, [], ◌∷◌, ◌++◌, Option, none,
  some, if◌then◌else◌, ◌==◌, ◌=?◌, ◌∙◌, elem, lookup, IsMap, Eq, lookup-insert, insert-IsMap,
  has_key-lookup, arith, inl, inr, Option-cases, sym, ap,
}
use naabu.Prelude.Int.{ℤ, int_eq}
use naabu.Prelude.Text.{Text}
use naabu.Float.{Float64}
use naabu.Prediction.{Model, set}
use naabu.Prediction.Predict.{probability}
use naabu.Prediction.Merge.{probability-set}
use naabu.Prediction.Train.{
  pair_eq, count_of, increment, port_list, count_ports, count_pairs, pair_up, Counts, count_hosts,
  set_ratios, train,
}

-- How often a port stands in a list.
abbrev pub occurs : ℤ → List ℤ → ℕ
occurs a [] = 0
occurs a (p ∷ ports) = (if p =? a then 1 else 0) + occurs a ports

-- On how many hosts both ports are open, and how often a port stands in the lists of all hosts.
abbrev pub hosts_with : ℤ → ℤ → List (Text × List ℤ) → ℕ
hosts_with a b [] = 0
hosts_with a b ((ip, ports) ∷ hosts) =
    (if elem a ports && elem b ports then 1 else 0) + hosts_with a b hosts

abbrev pub total_occurs : ℤ → List (Text × List ℤ) → ℕ
total_occurs a [] = 0
total_occurs a ((ip, ports) ∷ hosts) = occurs a ports + total_occurs a hosts

-- A count of zero has no entry.
abbrev as_count : ℕ → Option ℕ
as_count n = if n == 0 then none else some n

module _ {K : Type 0} ⦃e : Eq K⦄ where
  count_of-increment :
      (k j : K) (counts : List (K × ℕ))
      → count_of j (increment k counts) ≡ (if k =? j then 1 else 0) + count_of j counts
  unfolding count_of increment
  count_of-increment k j counts =
      ground (arith, lookup-insert k j (count_of k counts + 1) counts, e.same_iff k j)

  lookup-increment :
      (k j : K) (counts : List (K × ℕ)) (n : ℕ)
      → lookup j counts ≡ as_count n
      → lookup j (increment k counts) ≡ as_count ((if k =? j then 1 else 0) + n)
  unfolding count_of increment
  lookup-increment k j counts n h =
      ground (arith, lookup-insert k j (count_of k counts + 1) counts, e.same_iff k j, h)

lookup-count_pairs :
    (a b p : ℤ) (others : List ℤ) (counts : List ((ℤ × ℤ) × ℕ)) (n : ℕ)
    → lookup (a, b) counts ≡ as_count n
    → lookup (a, b) (count_pairs p others counts)
      ≡ as_count ((if p =? a then occurs b others else 0) + n)
unfolding count_pairs
lookup-count_pairs a b p [] counts n h = ground (arith, h)
lookup-count_pairs a b p (q ∷ others) counts n h =
    lookup-count_pairs a b p others (increment (p, q) counts)
      ((if (p =? a) && (q =? b) then 1 else 0) + n) (lookup-increment (p, q) (a, b) counts n h)
    ∙ ap as_count (ground arith)

occurs-append : (a : ℤ) (xs ys : List ℤ) → occurs a (xs ++ ys) ≡ occurs a xs + occurs a ys
occurs-append a [] ys = omega arith
occurs-append a (x ∷ xs) ys = omega (arith, occurs-append a xs ys)

pair_step :
    (is_a is_b : Bool) (o x y n : ℕ) {u v : ℕ}
    → (is_a ≡ true → is_b ≢ true)
    → u ≡ x + ((if is_b then 1 else 0) + 0)
    → v ≡ x + y
    → o * (u + y) + ((if is_a then v else 0) + n)
      ≡ ((if is_a then 1 else 0) + o) * (x + ((if is_b then 1 else 0) + y)) + n
pair_step true true o x y n d h k = absurd (d refl refl)
pair_step true false o x y n d h k = rw (h, k) (omega arith)
pair_step false is_b o x y n d h k = rw h (omega arith)

-- Every pair of two ports is counted as often as they stand in the list.
lookup-pair_up :
    (a b : ℤ) (before after : List ℤ) (counts : List ((ℤ × ℤ) × ℕ)) (n : ℕ)
    → a ≢ b
    → lookup (a, b) counts ≡ as_count n
    → lookup (a, b) (pair_up before after counts)
      ≡ as_count (occurs a after * (occurs b before + occurs b after) + n)
unfolding pair_up
lookup-pair_up a b before [] counts n d h = ground (arith, h)
lookup-pair_up a b before (p ∷ after) counts n d h =
    lookup-pair_up a b (before ++ p ∷ []) after (count_pairs p (before ++ after) counts)
      ((if p =? a then occurs b (before ++ after) else 0) + n) d
      (lookup-count_pairs a b p (before ++ after) counts n h)
    ∙ ap as_count (
        pair_step (p =? a) (p =? b) (occurs a after) (occurs b before) (occurs b after) n
          (λ h k. d (sym ((int_eq.same_iff p a).0 h) ∙ (int_eq.same_iff p b).0 k))
          (occurs-append b before (p ∷ [])) (occurs-append b before after))

-- The ports of a host are listed once each.
occurs-port_list :
    (a : ℤ) (seen ports : List ℤ)
    → occurs a (port_list seen ports) ≡ (if not (elem a seen) && elem a ports then 1 else 0)
unfolding port_list
occurs-port_list a seen [] = ground arith
occurs-port_list a seen (p ∷ ports) = ground (
  arith,
  occurs-port_list a seen ports,
  occurs-port_list a (p ∷ seen) ports,
  int_eq.same_iff p a,
  int_eq.same_iff a p,
)

count_of-count_ports :
    (a : ℤ) (ports : List ℤ) (counts : List (ℤ × ℕ))
    → count_of a (count_ports ports counts) ≡ occurs a ports + count_of a counts
unfolding count_ports
count_of-count_ports a [] counts = omega arith
count_of-count_ports a (p ∷ ports) counts =
    omega (arith, count_of-count_ports a ports (increment p counts), count_of-increment p a counts)

count_of-count_hosts :
    (a : ℤ) (hosts : List (Text × List ℤ)) (c : Counts)
    → count_of a (count_hosts hosts c).port_count ≡ total_occurs a hosts + count_of a c.port_count
unfolding count_hosts
count_of-count_hosts a [] c = omega arith
count_of-count_hosts a ((ip, ports) ∷ hosts) c = omega (
  arith,
  count_of-count_hosts a hosts (record {
    port_count = count_ports ports c.port_count;
    cooccurrence = pair_up [] (port_list [] ports) c.cooccurrence;
  }),
  count_of-count_ports a ports c.port_count,
)

lookup-count_hosts :
    (a b : ℤ) (hosts : List (Text × List ℤ)) (c : Counts) (n : ℕ)
    → a ≢ b
    → lookup (a, b) c.cooccurrence ≡ as_count n
    → lookup (a, b) (count_hosts hosts c).cooccurrence ≡ as_count (hosts_with a b hosts + n)
unfolding count_hosts
lookup-count_hosts a b [] c n d h = h ∙ ap as_count (omega arith)
lookup-count_hosts a b ((ip, ports) ∷ hosts) c n d h =
    lookup-count_hosts a b hosts
      (record {
        port_count = count_ports ports c.port_count;
        cooccurrence = pair_up [] (port_list [] ports) c.cooccurrence;
      })
      (occurs a (port_list [] ports) * (0 + occurs b (port_list [] ports)) + n) d
      (lookup-pair_up a b [] (port_list [] ports) c.cooccurrence n d h)
    ∙ ap as_count (rw (occurs-port_list a [] ports, occurs-port_list b [] ports) (ground arith))

count_pairs-IsMap :
    (p : ℤ) (others : List ℤ) (counts : List ((ℤ × ℤ) × ℕ))
    → IsMap counts
    → IsMap (count_pairs p others counts)
unfolding count_pairs increment
count_pairs-IsMap p [] counts h = h
count_pairs-IsMap p (q ∷ others) counts h =
    count_pairs-IsMap p others (increment (p, q) counts)
      (insert-IsMap (p, q) (count_of (p, q) counts + 1) counts h)

pair_up-IsMap :
    (before after : List ℤ) (counts : List ((ℤ × ℤ) × ℕ))
    → IsMap counts
    → IsMap (pair_up before after counts)
unfolding pair_up
pair_up-IsMap before [] counts h = h
pair_up-IsMap before (p ∷ after) counts h =
    pair_up-IsMap (before ++ p ∷ []) after (count_pairs p (before ++ after) counts)
      (count_pairs-IsMap p (before ++ after) counts h)

count_hosts-IsMap :
    (hosts : List (Text × List ℤ)) (c : Counts)
    → IsMap c.cooccurrence
    → IsMap (count_hosts hosts c).cooccurrence
unfolding count_hosts
count_hosts-IsMap [] c h = h
count_hosts-IsMap ((ip, ports) ∷ hosts) c h =
    count_hosts-IsMap hosts
      (record {
        port_count = count_ports ports c.port_count;
        cooccurrence = pair_up [] (port_list [] ports) c.cooccurrence;
      })
      (pair_up-IsMap [] (port_list [] ports) c.cooccurrence h)

module _ (f : Float64) where
  open f use {Float, ratio}

  -- The probability of a pair after the loop over the counts.
  abbrev learnt : List (ℤ × ℕ) → ℤ → Option ℕ → Option Float → Option Float
  learnt port_count a none old = old
  learnt port_count a (some n) old = some (ratio n (count_of a port_count))

  probability-set_ratios :
      (port_count : List (ℤ × ℕ)) (pairs : List ((ℤ × ℤ) × ℕ)) (m : Model f) (a b : ℤ)
      → IsMap pairs
      → probability f (set_ratios f port_count pairs m) a b
        ≡ learnt port_count a (lookup (a, b) pairs) (probability f m a b)
  unfolding set_ratios lookup
  probability-set_ratios port_count [] m a b h = refl
  probability-set_ratios port_count (((given, target), n) ∷ pairs) m a b (fresh, h) =
      let p = ratio n (count_of given port_count) in
      probability-set_ratios port_count pairs (set f m given target p) a b h
      ∙ elim (Option-cases (lookup (a, b) pairs)) [
        | inl e ↦ ground (arith, e, probability-set f m given target p a b, int_eq.same_iff given a)
        | inr (k, e) ↦ ground (
          arith,
          e,
          has_key-lookup (a, b) pairs,
          fresh,
          int_eq.same_iff given a,
          int_eq.same_iff target b,
        )
      ]

  -- After `Train`, the probability of one port given another is the count of hosts with both, divided by
  -- how often the other stands in the lists of all hosts. A pair on no host keeps its probability.
  pub probability-train :
      (m : Model f) (hosts : List (Text × List ℤ)) (given target : ℤ)
      → given ≢ target
      → probability f (train f m hosts) given target ≡ (
          if hosts_with given target hosts == 0
          then probability f m given target
          else some (ratio (hosts_with given target hosts) (total_occurs given hosts)))
  unfolding train
  probability-train m hosts given target d =
      let none_yet : Counts = record { port_count = []; cooccurrence = [] } in
      let c = count_hosts hosts none_yet in
      let none_counted : count_of given none_yet.port_count ≡ 0 = unfold count_of lookup in refl in
      probability-set_ratios c.port_count c.cooccurrence m given target
        (count_hosts-IsMap hosts none_yet tt)
      ∙ ground (
        arith,
        lookup-count_hosts given target hosts none_yet 0 d (unfold lookup in refl),
        count_of-count_hosts given hosts none_yet,
        none_counted,
      )
