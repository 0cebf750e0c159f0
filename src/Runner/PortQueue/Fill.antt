-- ===== src/Runner/PortQueue/Fill.antt =====
-- A new queue, and the boosts of all the ports that go with an open one.
use naabu.Prelude.{
  ℕ, ◌≡◌, ◌≢◌, refl, Bool, true, false, List, [], ◌∷◌, Option, none, some, if◌then◌else◌, ◌∙◌,
  lookup, All, arith, inl, inr, Option-cases,
}
use naabu.Prelude.Int.{ℤ, pos, int_eq}
use naabu.Float.{Float64}
use naabu.Prediction.{Model, Targets, get_correlations}
use naabu.Net.Port.{Port}
use naabu.Runner.Ports.Distinct.{IsDistinct, has_number}
use naabu.Runner.PortQueue.{
  PqItem, PortQueue, heap_push, boost, boost_all, boost_correlated, initial_priority, push_ports,
  new_port_queue, build_popularity_rank,
}
use naabu.Runner.PortQueue.Sift.{priority_of}
use naabu.Runner.PortQueue.Push.{heap_push-Refines}
use naabu.Runner.PortQueue.View.{IsQueue, View, Refines, Boosts, raise_priority, boost-Boosts}

module _ (f : Float64) where
  open f use {Float, lt}

  abbrev pub empty : PortQueue f
  empty = record { items = []; index = [] }

  -- Every port of the list has its priority raised where it is lower.
  pub raise_all : Targets f → View f → View f
  raise_all [] view = view
  raise_all ((t, p) ∷ corr) view = raise_all corr (raise_priority f t p view)

  raise_all-same :
      (corr : Targets f) (a b : View f)
      → ((p : ℤ) → a p ≡ b p)
      → (p : ℤ) → raise_all corr a p ≡ raise_all corr b p
  unfolding raise_all
  raise_all-same [] a b e p = e p
  raise_all-same ((t, prob) ∷ corr) a b e p =
      raise_all-same corr (raise_priority f t prob a) (raise_priority f t prob b)
        (λ q. rw (e q) refl) p

  pub boost_all-Boosts :
      (corr : Targets f) (pq : PortQueue f)
      → IsQueue f pq
      → Boosts f (raise_all corr (priority_of f pq)) pq (boost_all f corr pq)
  unfolding boost_all raise_all
  boost_all-Boosts [] pq v = record {
    refines = record { queue = v; same = λ p. refl };
    size = refl;
  }
  boost_all-Boosts ((t, prob) ∷ corr) pq v =
      let step = boost-Boosts f pq t prob v in
      let rest = boost_all-Boosts corr (boost f t prob pq) step.refines.queue in
      record {
        refines = record {
          queue = rest.refines.queue;
          same = λ p.
              rest.refines.same p
              ∙ raise_all-same corr (priority_of f (boost f t prob pq))
                  (raise_priority f t prob (priority_of f pq)) step.refines.same p;
        };
        size = rest.size ∙ step.size;
      }

  abbrev pub correlated : Option (Targets f) → Targets f
  correlated none = []
  correlated (some corr) = corr

  -- In a queue in order, a boost raises the lower priorities of the correlated ports of its map, changes
  -- no other, and leaves the queue in order with as many items.
  pub boost_correlated-Boosts :
      (open_port : ℤ) (model : Model f) (pq : PortQueue f)
      → IsQueue f pq
      → Boosts f
          (raise_all (correlated (get_correlations f model open_port)) (priority_of f pq))
          pq
          (boost_correlated f open_port model pq)
  unfolding boost_correlated boost_all
  boost_correlated-Boosts open_port model pq v =
      elim (Option-cases (get_correlations f model open_port)) [
        | inl n ↦ rw (boost_correlated, n) (boost_all-Boosts [] pq v)
        | inr (corr, n) ↦ rw (boost_correlated, n) (boost_all-Boosts corr pq v)
      ]

  abbrev pub is_some : Option Float → Bool
  is_some none = false
  is_some (some v) = true

  -- A boost takes no port out and brings none in.
  pub is_some-raise_all :
      (corr : Targets f) (view : View f) (p : ℤ)
      → is_some (raise_all corr view p) ≡ is_some (view p)
  unfolding raise_all
  is_some-raise_all [] view p = refl
  is_some-raise_all ((t, prob) ∷ corr) view p =
      is_some-raise_all corr (raise_priority f t prob view) p ∙ ground arith

  pub empty-IsQueue : IsQueue f empty
  empty-IsQueue = record {
    indexed = record { sound = λ p i h. (unfold lookup in cc); complete = λ i e h. cc };
    heap = λ c p q. absurd (omega arith);
  }

  avoids-has_number :
      (n : ℤ) (ports : List Port) → All (λ q. q.port ≢ n) ports → has_number n ports ≡ false
  unfolding has_number
  avoids-has_number n [] h = refl
  avoids-has_number n (q ∷ ports) (other, h) =
      ground (arith, int_eq.same_iff q.port n, other, avoids-has_number n ports h)

  -- The map with a first priority for each port of a list.
  abbrev pub fill : (ℤ → Float) → List Port → View f → View f
  fill first ports view p = if has_number p ports then some (first p) else view p

  pub push_ports-Refines :
      (rank : List (ℤ × ℕ)) (model : Model f) (known_open : List ℤ) (ports : List Port)
      (pq : PortQueue f)
      → IsQueue f pq
      → IsDistinct ports
      → ((p : ℤ) → has_number p ports ≡ true → priority_of f pq p ≡ none)
      → Refines f
          (fill (initial_priority f rank model known_open) ports (priority_of f pq))
          (push_ports f rank model known_open ports pq)
  unfolding push_ports has_number
  push_ports-Refines rank model known_open [] pq v d fresh = record { queue = v; same = λ p. refl }
  push_ports-Refines rank model known_open (q ∷ ports) pq v (new, d) fresh =
      let x : PqItem f = record {
        port = q;
        priority = initial_priority f rank model known_open q.port;
        heap_idx = pos 0;
      } in
      let step =
        heap_push-Refines f pq x v (fresh q.port (ground (arith, int_eq.same_iff q.port q.port))) in
      let rest =
        push_ports-Refines rank model known_open ports (heap_push f x pq) step.queue d (λ p h.
          ground (
            arith,
            step.same p,
            fresh p,
            h,
            avoids-has_number q.port ports new,
            int_eq.same_iff q.port p,
          )) in
      record {
        queue = rest.queue;
        same = λ p. rest.same p ∙ ground (arith, step.same p, int_eq.same_iff q.port p);
      }

  -- A new queue of ports with different numbers is in order, and its map gives each its initial
  -- priority.
  pub new_port_queue-Refines :
      (ports : List Port) (model : Model f) (known_open : List ℤ)
      → IsDistinct ports
      → Refines f
          (fill (initial_priority f build_popularity_rank model known_open) ports (λ p. none))
          (new_port_queue f ports model known_open)
  unfolding new_port_queue priority_of lookup
  new_port_queue-Refines ports model known_open d =
      push_ports-Refines build_popularity_rank model known_open ports empty empty-IsQueue d
        (λ p h. refl)
