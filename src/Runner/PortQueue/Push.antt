-- ===== src/Runner/PortQueue/Push.antt =====
-- A port that is added to the queue.
use naabu.Prelude.{
  ℕ, suc, ◌≡◌, [], ◌∷◌, none, some, if◌then◌else◌, ◌==◌, ◌=?◌, ◌∙◌, length, lookup, arith, inl, inr,
  Bool-cases, Option-cases, get_elem?-append, length-append, lookup-insert, get_elem?-beyond,
}
use naabu.Prelude.Int.{ℤ, pos, int_eq}
use naabu.Float.{Float64}
use naabu.Runner.PortQueue.{PqItem, PortQueue, entry, at, parent, push, heap_push}
use naabu.Runner.PortQueue.Sift.{IsIndexed, priority_of, up-Rearranged}
use naabu.Runner.PortQueue.Order.{UpInv, up_restores}
use naabu.Runner.PortQueue.View.{IsQueue, Refines, add_priority}

module _ (f : Float64) where
  -- A port without a priority is not in the index.
  not_indexed :
      (pq : PortQueue f) (p : ℤ)
      → IsIndexed f pq
      → priority_of f pq p ≡ none
      → lookup p pq.index ≡ none
  unfolding priority_of
  not_indexed pq p v h = elim (Option-cases (lookup p pq.index)) [
    | inl n ↦ n
    | inr (i, n) ↦ let (e, at_i, is_p) = v.sound p i n in absurd (ground (arith, n, at_i))
  ]

  module _ (pq : PortQueue f) (x : PqItem f) (v : IsQueue f pq)
      (fresh : priority_of f pq x.port.port ≡ none) where
    length-push : length (push f x pq).items ≡ suc (length pq.items)
    unfolding push
    length-push =
        omega (arith, length-append pq.items (record x { heap_idx = pos (length pq.items) } ∷ []))

    at-push :
        (k : ℕ)
        → at f (push f x pq) k ≡ (if k == length pq.items then some (entry f x) else at f pq k)
    unfolding push
    at-push k =
        ground (arith, get_elem?-append pq.items (record x { heap_idx = pos (length pq.items) }) k)

    lookup-push :
        (p : ℤ)
        → lookup p (push f x pq).index
          ≡ (if x.port.port =? p then some (length pq.items) else lookup p pq.index)
    unfolding push
    lookup-push p = lookup-insert x.port.port p (length pq.items) pq.index

    at-above : at f pq (length pq.items) ≡ none
    at-above = ground (arith, get_elem?-beyond pq.items (length pq.items) (omega arith))

    push-IsIndexed : IsIndexed f (push f x pq)
    push-IsIndexed = record {
      sound = λ p k h. elim (Bool-cases (x.port.port =? p)) [
        | inl e ↦ (
          entry f x,
          ground (arith, lookup-push p, at-push k),
          (int_eq.same_iff x.port.port p).0 e,
        )
        | inr e ↦
            let (r, at_k, same) = v.indexed.sound p k (ground (arith, lookup-push p)) in
            (r, ground (arith, at-push k, at_k, at-above), same)
      ];
      complete = λ k e h. ground (
        arith,
        at-push k,
        lookup-push e.port,
        v.indexed.complete k e,
        not_indexed pq x.port.port v.indexed fresh,
        int_eq.same_iff x.port.port e.port,
      );
    }

    push-UpInv : UpInv f (suc (length pq.items)) (push f x pq) (length pq.items)
    push-UpInv = record {
      edges = λ c p q r. ground (arith, at-push c, at-push (parent c), v.heap c);
      bridged = λ c p q r t. absurd (omega arith);
    }

    priority_of-push :
        (p : ℤ)
        → priority_of f (push f x pq) p ≡ add_priority f x.port.port x.priority (priority_of f pq) p
    unfolding priority_of
    priority_of-push p = elim (Option-cases (lookup p pq.index)) [
      | inl n ↦ ground (arith, lookup-push p, at-push (length pq.items), n)
      | inr (k, n) ↦
          let (e, at_k, same) = v.indexed.sound p k n in
          ground (arith, lookup-push p, at-push k, at-push (length pq.items), n, at_k, at-above)
    ]

    -- A port that is not in the queue is added to the map, and the queue is in order again.
    pub heap_push-Refines :
        Refines f (add_priority f x.port.port x.priority (priority_of f pq)) (heap_push f x pq)
    unfolding heap_push
    heap_push-Refines =
        let n = length pq.items in
        let sifted =
          up-Rearranged f (suc n) (suc n) n (push f x pq) (omega arith)
            (omega (arith, length-push)) in
        record {
          queue = record {
            indexed = sifted.indexed push-IsIndexed;
            heap = rw (sifted.size ∙ length-push) (
                up_restores f (suc n) (suc n) n (push f x pq) (omega arith) (omega arith)
                  (omega (arith, length-push)) push-UpInv);
          };
          same = λ p. sifted.view push-IsIndexed p ∙ priority_of-push p;
        }
