-- ===== src/Runner/PortQueue/Pop.antt =====
-- The port that leaves the queue.
use naabu.Prelude.{
  ℕ, suc, ◌-◌, ◌<◌, ◌≡◌, ◌≢◌, refl, false, Option, none, some, if◌then◌else◌, ltb, ◌==◌, ◌=?◌, ◌∙◌,
  length, get_elem?, take, lookup, delete, arith, inl, inr, Bool-cases, Option-cases,
  get_elem?-take, length-take, lookup-delete, get_elem?-beyond,
}
use naabu.Prelude.Int.{ℤ, negsuc, int_eq}
use naabu.Float.{Float64}
use naabu.Prediction
use naabu.Prediction.{PortPrediction}
use naabu.Net.Port.{Port}
use naabu.Runner.PortQueue.{
  PqItem, PortQueue, entry, at, parent, swap, down, popped, pop_last, heap_pop, pop,
}
use naabu.Runner.PortQueue.Sift.{
  IsIndexed, priority_of, at-below, Rearranged, swap-Rearranged, down-Rearranged, at-swap_positions,
}
use naabu.Runner.PortQueue.Order.{IsHeapBelow, DownInv, down_restores, root_first}
use naabu.Runner.PortQueue.View.{IsQueue, Refines, take_priority}

module _ (f : Float64) where
  open f use {Float, lt}

  -- The last item leaves a queue that is in order but for it.
  module _ (q : PortQueue f) (n : ℕ) (z : PqItem f) (size : length q.items ≡ suc n)
      (v : IsIndexed f q) (h : IsHeapBelow f n q) (last : get_elem? q.items n ≡ some z) where
    abbrev rest : PortQueue f
    rest = record { items = take n q.items; index = delete z.port.port q.index }

    pop_last-rest : pop_last f q ≡ (some (record z { heap_idx = negsuc 0 }), rest)
    unfolding pop_last popped
    pop_last-rest =
        let same : length q.items - 1 ≡ n = omega arith in rw (same, last, popped, same) refl

    at-rest : (k : ℕ) → at f rest k ≡ (if ltb k n then at f q k else none)
    at-rest k = ground (arith, get_elem?-take n q.items k)

    inside : (k : ℕ) (e : PortPrediction f) → at f q k ≡ some e → e.port ≢ z.port.port → k < n
    inside k e at_k other = ground (arith, last, get_elem?-beyond q.items k)

    rest-IsIndexed : IsIndexed f rest
    rest-IsIndexed = record {
      sound = λ p k found.
          let other : z.port.port ≢ p =
            ground (arith, lookup-delete z.port.port p q.index, int_eq.same_iff z.port.port p) in
          let (e, at_k, same) = v.sound p k (ground (arith, lookup-delete z.port.port p q.index)) in
          (e, ground (arith, at-rest k, inside k e at_k (ground (arith, other, same)), at_k), same);
      complete = λ k e found. ground (
        arith,
        at-rest k,
        lookup-delete z.port.port e.port q.index,
        v.complete k e,
        v.complete n (entry f z),
        last,
        int_eq.same_iff z.port.port e.port,
      );
    }

    rest-IsHeapBelow : IsHeapBelow f n rest
    rest-IsHeapBelow = λ c p q. ground (arith, at-rest c, at-rest (parent c), h c)

    priority_of-rest :
        (p : ℤ) → priority_of f rest p ≡ take_priority f z.port.port (priority_of f q) p
    unfolding priority_of
    priority_of-rest p = elim (Option-cases (lookup p q.index)) [
      | inl none_there ↦ ground (arith, lookup-delete z.port.port p q.index, none_there)
      | inr (k, there) ↦
          let (e, at_k, same) = v.sound p k there in
          elim (Bool-cases (z.port.port =? p)) [
            | inl out ↦ ground (arith, lookup-delete z.port.port p q.index, out)
            | inr stays ↦
                let differs : e.port ≢ z.port.port =
                  ground (arith, same, stays, int_eq.same_iff z.port.port p) in
                ground (
                  arith,
                  lookup-delete z.port.port p q.index,
                  stays,
                  there,
                  at-rest k,
                  at_k,
                  inside k e at_k differs,
                )
          ]
    ]

    rest-Refines : Refines f (take_priority f z.port.port (priority_of f q)) rest
    rest-Refines = record {
      queue = record {
        indexed = rest-IsIndexed;
        heap = rw (length-take n q.items (omega arith)) rest-IsHeapBelow;
      };
      same = priority_of-rest;
    }

  -- A port leaves the queue: no port of the map comes before it, and the rest of the map stays.
  pub record IsPop (pq : PortQueue f) (result : Option Port × PortQueue f) : Type 0 where
    pub port : Port
    pub priority : Float
    pub taken : result.0 ≡ some port
    pub present : priority_of f pq port.port ≡ some priority
    pub first :
        (p : ℤ) (w : Float)
        → priority_of f pq p ≡ some w
        → Prediction.less f
            (record { port = p; confidence = w })
            (record { port = port.port; confidence = priority })
          ≡ false
    pub rest : Refines f (take_priority f port.port (priority_of f pq)) result.1
    pub size : suc (length result.1.items) ≡ length pq.items

  Refines-view :
      {view other : ℤ → Option Float} {q : PortQueue f}
      → ((p : ℤ) → view p ≡ other p)
      → Refines f view q
      → Refines f other q
  Refines-view e r = record { queue = r.queue; same = λ p. r.same p ∙ e p }

  module _ (pq : PortQueue f) (v : IsQueue f pq) (n : ℕ) (size : length pq.items ≡ suc n)
      (x : PqItem f) (top : get_elem? pq.items 0 ≡ some x) where
    -- The queue without its last position is sifted.
    abbrev sifted : PortQueue f
    sifted = (down f (suc n) n 0 (swap f 0 n pq)).0

    swapped_root : Rearranged f (suc n) pq (swap f 0 n pq)
    swapped_root =
        swap-Rearranged f (suc n) pq 0 n (omega arith) (omega arith) (omega (arith, size))

    swapped_root-DownInv : DownInv f n (swap f 0 n pq) 0
    swapped_root-DownInv =
        let moved = at-swap_positions f pq 0 n (omega (arith, size)) (omega (arith, size)) in
        record {
          edges = λ c p q r. ground (arith, moved c, moved (parent c), v.heap c, size);
          bridged = λ c p q r t. absurd (omega arith);
        }

    sunk : Rearranged f n (swap f 0 n pq) sifted
    sunk = down-Rearranged f (suc n) n 0 (swap f 0 n pq) (omega (arith, swapped_root.size, size))

    sifted-heap : IsHeapBelow f n sifted
    sifted-heap =
        down_restores f (suc n) n 0 (swap f 0 n pq) (omega arith)
          (omega (arith, swapped_root.size, size)) swapped_root-DownInv

    -- The root is last now.
    at-last : at f sifted n ≡ some (entry f x)
    at-last =
        let moved = at-swap_positions f pq 0 n (omega (arith, size)) (omega (arith, size)) n in
        ground (arith, sunk.beyond n, moved, top)

    root_before :
        (p : ℤ) (w : Float)
        → priority_of f pq p ≡ some w
        → Prediction.less f (record { port = p; confidence = w }) (entry f x) ≡ false
    unfolding priority_of
    root_before p w h = elim (Option-cases (lookup p pq.index)) [
      | inl n ↦ absurd (ground (arith, n))
      | inr (i, found) ↦
          let (e, at_i, same) = v.indexed.sound p i found in
          let inside : i < length pq.items = ground (arith, at_i, get_elem?-beyond pq.items i) in
          ground
            (arith, found, at_i, same, top, root_first f (suc i) i pq v.heap (omega arith) inside)
    ]

    present : priority_of f pq x.port.port ≡ some x.priority
    unfolding priority_of
    present = ground (arith, v.indexed.complete 0 (entry f x), top)

    module _ (z : PqItem f) (last : get_elem? sifted.items n ≡ some z) where
      last-is_root : entry f z ≡ entry f x
      last-is_root = ground (arith, at-last, last)

      sifted_size : length sifted.items ≡ suc n
      sifted_size = sunk.size ∙ swapped_root.size ∙ size

      sifted-IsIndexed : IsIndexed f sifted
      sifted-IsIndexed = sunk.indexed (swapped_root.indexed v.indexed)

      pop-popped :
          pop f pq ≡ (some z.port, rest sifted n z sifted_size sifted-IsIndexed sifted-heap last)
      unfolding pop heap_pop
      pop-popped =
          let before_last : length pq.items - 1 ≡ n = omega (arith, size) in
          let some_left : (length pq.items == 0) ≡ false = ground (arith, size) in
          rw
            (
              some_left,
              before_last,
              pop_last-rest sifted n z sifted_size sifted-IsIndexed sifted-heap last,
            )
            refl

      popped-IsPop :
          IsPop pq (some z.port, rest sifted n z sifted_size sifted-IsIndexed sifted-heap last)
      popped-IsPop =
          let port_same : z.port.port ≡ x.port.port = ground (arith, last-is_root) in
          record {
            port = z.port;
            priority = x.priority;
            taken = refl;
            present = rw port_same present;
            first = λ p w h. rw port_same (root_before p w h);
            rest =
                Refines-view
                  (λ p. ground (
                    arith,
                    sunk.view (swapped_root.indexed v.indexed) p,
                    swapped_root.view v.indexed p,
                  ))
                  (rest-Refines sifted n z sifted_size sifted-IsIndexed sifted-heap last);
            size = ground (arith, length-take n sifted.items (omega (arith, sifted_size)), size);
          }

  -- A queue in order that is not empty gives a port before which no port of its map comes, and what is
  -- left is a queue in order for the rest of the map.
  pub pop-IsPop : (pq : PortQueue f) → IsQueue f pq → 0 < length pq.items → IsPop pq (pop f pq)
  pop-IsPop pq v some_left =
      let n = length pq.items - 1 in
      let size : length pq.items ≡ suc n = omega arith in
      let (x, top) = at-below f pq 0 some_left in
      let (z, last) = at-below f (sifted pq v n size x top) n (
        omega
          (arith, (sunk pq v n size x top).size, (swapped_root pq v n size x top).size, size)) in
      rw (pop-popped pq v n size x top z last) (popped-IsPop pq v n size x top z last)
