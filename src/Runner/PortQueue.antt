-- ===== src/Runner/PortQueue.antt =====
-- pkg/runner/smartscan.go: the queue of ports by priority, a heap with an index from port numbers to
-- positions, on the functions of Go's container/heap.
mod Tests
pub mod Sift
pub mod Order
pub mod View
pub mod Push
pub mod Pop
pub mod Fill
use naabu.Prelude.{
  ℕ, zero, suc, ◌+◌, ◌*◌, ◌-◌, ◌/◌, ◌≡◌, Bool, true, false, not, ◌&&◌, ◌||◌, List, [], ◌∷◌, ◌++◌,
  Option, none, some, if◌then◌else◌, ltb, leb, ◌==◌, length, get_elem?, set as set_elem, lookup,
  insert, delete, take,
}
use naabu.Prelude.Int.{ℤ, pos, negsuc, pos_part, int_eq, ◌+ℤ◌}
use naabu.Prelude.Text.{Text, contains, split, trim_space}
use naabu.Prelude.Decimal.{atoi}
use naabu.Net.Port.{Port}
use naabu.Float.{Float64}
use naabu.Prediction
use naabu.Prediction.{PortPrediction, Model, Targets, get_correlations}
use naabu.Runner.PopularityRank.{build_popularity_rank}

abbrev pub parent : ℕ → ℕ
parent j = (j - 1) / 2

module _ (f : Float64) where
  open f use {Float, lt, ratio}

  pub record PqItem : Type 0 where
    pub port : Port
    pub priority : Float
    pub heap_idx : ℤ

  pub record PortQueue : Type 0 where
    pub items : List PqItem
    pub index : List (ℤ × ℕ)

  -- What the order reads of an item: its port number and its priority.
  abbrev pub entry : PqItem → PortPrediction f
  entry x = record { port = x.port.port; confidence = x.priority }

  abbrev pub entry_of : Option PqItem → Option (PortPrediction f)
  entry_of none = none
  entry_of (some x) = some (entry x)

  abbrev pub at : PortQueue → ℕ → Option (PortPrediction f)
  at pq i = entry_of (get_elem? pq.items i)

  -- The higher priority first, then the lower port.
  abbrev pub before : Option (PortPrediction f) → Option (PortPrediction f) → Bool
  before (some x) (some y) = Prediction.less f x y
  before _ _ = false

  -- `Less`. A position out of range would be a panic; none of the calls below has one.
  unfoldable pub less : PortQueue → ℕ → ℕ → Bool
  less pq i j = before (at pq i) (at pq j)

  swapped : ℕ → ℕ → Option PqItem → Option PqItem → PortQueue → PortQueue
  unfolding insert
  swapped i j (some x) (some y) pq = record {
    items =
        set_elem (set_elem pq.items i (record y { heap_idx = pos i })) j
          (record x { heap_idx = pos j });
    index = insert x.port.port j (insert y.port.port i pq.index);
  }
  swapped i j _ _ pq = pq

  unfoldable pub swap : ℕ → ℕ → PortQueue → PortQueue
  unfolding swapped
  swap i j pq = swapped i j (get_elem? pq.items i) (get_elem? pq.items j) pq

  unfoldable pub push : PqItem → PortQueue → PortQueue
  unfolding insert
  push x pq = record {
    items = pq.items ++ record x { heap_idx = pos (length pq.items) } ∷ [];
    index = insert x.port.port (length pq.items) pq.index;
  }

  -- `Pop` of the interface: the last item leaves. It is called on items only.
  unfoldable pub popped : Option PqItem → PortQueue → Option PqItem × PortQueue
  unfolding delete
  popped none pq = (none, pq)
  popped (some x) pq = (
    some (record x { heap_idx = negsuc 0 }),
    record { items = take (length pq.items - 1) pq.items; index = delete x.port.port pq.index },
  )

  unfoldable pub pop_last : PortQueue → Option PqItem × PortQueue
  unfolding popped
  pop_last pq = popped (get_elem? pq.items (length pq.items - 1)) pq

  -- `up` of container/heap. Each round more than halves the position.
  unfoldable pub up : ℕ → ℕ → PortQueue → PortQueue
  unfolding swap less
  up zero j pq = pq
  up (suc fuel) j pq =
      let rest = up fuel (parent j) (swap (parent j) j pq) in
      if (parent j == j) || not (less pq j (parent j)) then pq else rest

  -- The child of `i` that comes first.
  unfoldable pub child : ℕ → ℕ → PortQueue → ℕ
  unfolding less
  child n i pq =
      if ltb (2 * i + 2) n && less pq (2 * i + 2) (2 * i + 1) then 2 * i + 2 else 2 * i + 1

  -- `down`, with the position where it ends. Each round doubles the position.
  unfoldable pub down : ℕ → ℕ → ℕ → PortQueue → PortQueue × ℕ
  unfolding swap less child
  down zero n i pq = (pq, i)
  down (suc fuel) n i pq =
      let j = child n i pq in
      let rest = down fuel n j (swap i j pq) in
      if leb n (2 * i + 1) || not (less pq j i) then (pq, i) else rest

  -- `heap.Push`, `heap.Pop` and `heap.Fix`
  unfoldable pub heap_push : PqItem → PortQueue → PortQueue
  unfolding up push
  heap_push x pq = up (suc (length pq.items)) (length pq.items) (push x pq)

  unfoldable pub heap_pop : PortQueue → Option PqItem × PortQueue
  unfolding down pop_last swap
  heap_pop pq = let n = length pq.items - 1 in pop_last ((down (suc n) n 0 (swap 0 n pq)).0)

  unfoldable pub heap_fix : ℕ → PortQueue → PortQueue
  unfolding down up
  heap_fix i pq =
      let sunk = down (length pq.items) (length pq.items) i pq in
      if ltb i sunk.1 then sunk.0 else up (suc i) i sunk.0

  -- `none` where the source returns false.
  unfoldable pub pop : PortQueue → Option Port × PortQueue
  unfolding heap_pop
  pop pq =
      if length pq.items == 0
      then (none, pq)
      else let (item, rest) = heap_pop pq in
        (elim item [ none ↦ none | some x ↦ some x.port ], rest)

  unfoldable pub raise_at : ℕ → Float → Option PqItem → PortQueue → PortQueue
  unfolding heap_fix
  raise_at i prob none pq = pq
  raise_at i prob (some x) pq =
      let raised = record pq { items = set_elem pq.items i (record x { priority = prob }) } in
      if lt x.priority prob then heap_fix i raised else pq

  -- One round of the loop over the correlations.
  unfoldable pub boost : ℤ → Float → PortQueue → PortQueue
  unfolding raise_at lookup
  boost target_port prob pq = elim (lookup target_port pq.index) [
    | none ↦ pq
    | some i ↦ raise_at i prob (get_elem? pq.items i) pq
  ]

  unfoldable pub boost_all : Targets f → PortQueue → PortQueue
  unfolding boost
  boost_all [] pq = pq
  boost_all ((t, p) ∷ corr) pq = boost_all corr (boost t p pq)

  unfoldable pub boost_correlated : ℤ → Model f → PortQueue → PortQueue
  unfolding boost_all get_correlations
  boost_correlated open_port model pq = elim (get_correlations f model open_port) [
    | none ↦ pq
    | some corr ↦ boost_all corr pq
  ]

  -- The priority of a port: by its rank, or from a port that is known to be open.
  base_priority : List (ℤ × ℕ) → ℤ → Float
  unfolding lookup ◌+ℤ◌
  base_priority rank p =
      ratio 1 (elim (lookup p rank) [ none ↦ pos_part (pos 100000 +ℤ p) | some r ↦ r ])

  pub initial_priority : List (ℤ × ℕ) → Model f → List ℤ → ℤ → Float
  unfolding base_priority
  initial_priority rank model known_open p =
      Prediction.score f model p known_open (base_priority rank p)

  unfoldable pub push_ports : List (ℤ × ℕ) → Model f → List ℤ → List Port → PortQueue → PortQueue
  unfolding initial_priority heap_push
  push_ports rank model known_open [] pq = pq
  push_ports rank model known_open (p ∷ ports) pq = push_ports rank model known_open ports (
      heap_push
        (record {
          port = p;
          priority = initial_priority rank model known_open p.port;
          heap_idx = pos 0;
        })
        pq)

  unfoldable pub new_port_queue : List Port → Model f → List ℤ → PortQueue
  unfolding push_ports build_popularity_rank
  new_port_queue ports model known_open =
      push_ports build_popularity_rank model known_open ports (record { items = []; index = [] })
