-- ===== src/Runner/PortQueue/View.antt =====
-- The queue as a map from port numbers to priorities: what its operations do to the map.
use naabu.Prelude.{
  ℕ, suc, ◌<◌, ◌≡◌, refl, true, Option, none, some, if◌then◌else◌, ◌==◌, ◌=?◌, ◌∙◌, length,
  get_elem?, set as set_elem, lookup, arith, inl, inr, Bool-cases, Option-cases, length-set,
  get_elem?-set, get_elem?-beyond,
}
use naabu.Prelude.Int.{ℤ, int_eq}
use naabu.Float.{Float64}
use naabu.Prediction
use naabu.Prediction.{PortPrediction}
use naabu.Prediction.Order.{lt_asym, less_asym}
use naabu.Runner.PortQueue.{PqItem, PortQueue, entry, at, parent, up, heap_fix, raise_at, boost}
use naabu.Runner.PortQueue.Sift.{IsIndexed, priority_of, Rearranged, up-Rearranged}
use naabu.Runner.PortQueue.Order.{before_neg_trans, IsHeapBelow, UpInv, up_restores, down_settled}

module _ (f : Float64) where
  open f use {Float, lt}

  -- The index is right, and no item comes before its parent.
  pub record IsQueue (pq : PortQueue f) : Type 0 where
    pub indexed : IsIndexed f pq
    pub heap : IsHeapBelow f (length pq.items) pq

  abbrev pub raised : Float → Option Float → Option Float
  raised prob none = none
  raised prob (some v) = some (if lt v prob then prob else v)

  -- The queue with a new priority at one position, which is not yet fixed.
  abbrev with_priority : PortQueue f → ℕ → PqItem f → Float → PortQueue f
  with_priority pq i x prob = record pq {
    items = set_elem pq.items i (record x { priority = prob });
  }

  module _ (pq : PortQueue f) (v : IsQueue pq) (i : ℕ) (x : PqItem f) (prob : Float)
      (hx : get_elem? pq.items i ≡ some x) (inside : i < length pq.items) where
    at-with_priority :
        (k : ℕ)
        → at f (with_priority pq i x prob) k
          ≡ (if k == i then some (record { port = x.port.port; confidence = prob }) else at f pq k)
    at-with_priority k =
        ground (arith, get_elem?-set pq.items i (record x { priority = prob }) k inside)

    with_priority-IsIndexed : IsIndexed f (with_priority pq i x prob)
    with_priority-IsIndexed = record {
      sound = λ p k h.
          let (e, at_k, same) = v.indexed.sound p k h in
          elim (Bool-cases (k == i)) [
            | inl here ↦ (
              record { port = x.port.port; confidence = prob },
              ground (arith, at-with_priority k),
              ground (arith, at_k, same, hx),
            )
            | inr there ↦ (e, ground (arith, at-with_priority k, at_k), same)
          ];
      complete = λ k e h.
          ground (
            arith,
            at-with_priority k,
            v.indexed.complete k e,
            v.indexed.complete i (entry f x),
            hx,
          );
    }

    module _ (higher : lt x.priority prob ≡ true) where
      -- A higher priority comes before the old one.
      higher_before :
          Prediction.less f (record { port = x.port.port; confidence = prob }) (entry f x) ≡ true
      higher_before = ground (arith, lt_asym f x.priority prob)

      with_priority-UpInv : UpInv f (length pq.items) (with_priority pq i x prob) i
      with_priority-UpInv = record {
        edges = λ c p q r. ground (
          arith,
          at-with_priority c,
          at-with_priority (parent c),
          v.heap c,
          before_neg_trans f (at f pq c) (entry f x)
              (some (record { port = x.port.port; confidence = prob })),
          less_asym f (record { port = x.port.port; confidence = prob }) (entry f x),
          higher_before,
          hx,
        );
        bridged = λ c p q r t. ground (
          arith,
          at-with_priority c,
          at-with_priority (parent i),
          v.heap c,
          v.heap i,
          before_neg_trans f (at f pq c) (entry f x) (at f pq (parent i)),
          hx,
        );
      }

      abbrev fixed : PortQueue f
      fixed = up f (suc i) i (with_priority pq i x prob)

      heap_fix-up : heap_fix f i (with_priority pq i x prob) ≡ fixed
      unfolding heap_fix
      heap_fix-up =
          let size = length-set pq.items i (record x { priority = prob }) in
          rw
            (
              size,
              down_settled f (length pq.items) (length pq.items) i (with_priority pq i x prob)
                  (omega (arith, size)) with_priority-UpInv,
            )
            (ground arith)

      fixed-Rearranged : Rearranged f (length pq.items) (with_priority pq i x prob) fixed
      fixed-Rearranged =
          up-Rearranged f (suc i) (length pq.items) i (with_priority pq i x prob) inside
            (omega (arith, length-set pq.items i (record x { priority = prob })))

      fixed-IsQueue : IsQueue fixed
      fixed-IsQueue =
          let size = length-set pq.items i (record x { priority = prob }) in
          record {
            indexed = fixed-Rearranged.indexed with_priority-IsIndexed;
            heap = rw (fixed-Rearranged.size ∙ size) (
                up_restores f (suc i) (length pq.items) i (with_priority pq i x prob) (omega arith)
                  inside (omega (arith, size)) with_priority-UpInv);
          }

      priority_of-fixed :
          (p : ℤ)
          → priority_of f fixed p ≡ (if x.port.port =? p then some prob else priority_of f pq p)
      unfolding priority_of
      priority_of-fixed p =
          fixed-Rearranged.view with_priority-IsIndexed p
          ∙ elim (Option-cases (lookup p pq.index)) [
            | inl n ↦
                ground
                  (arith, n, v.indexed.complete i (entry f x), hx, int_eq.same_iff x.port.port p)
            | inr (k, n) ↦
                let (e, at_k, same) = v.indexed.sound p k n in
                ground (
                  arith,
                  n,
                  at_k,
                  same,
                  at-with_priority k,
                  v.indexed.complete i (entry f x),
                  hx,
                  int_eq.same_iff x.port.port p,
                )
          ]

  -- The operations on the map: a priority is raised, a port is added, a port is taken out.
  abbrev pub View : Type 0
  View = ℤ → Option Float

  abbrev pub raise_priority : ℤ → Float → View → View
  raise_priority t prob view p = if t =? p then raised prob (view p) else view p

  abbrev pub add_priority : ℤ → Float → View → View
  add_priority t prob view p = if t =? p then some prob else view p

  abbrev pub take_priority : ℤ → View → View
  take_priority t view p = if t =? p then none else view p

  -- A queue in order whose map is `view`.
  pub record Refines (view : View) (pq : PortQueue f) : Type 0 where
    pub queue : IsQueue pq
    pub same : (p : ℤ) → priority_of f pq p ≡ view p

  -- A boost of a queue: the map that it makes, and as many items as before.
  pub record Boosts (view : View) (pq q : PortQueue f) : Type 0 where
    pub refines : Refines view q
    pub size : length q.items ≡ length pq.items

  raise_at-Boosts :
      (pq : PortQueue f) (t : ℤ) (prob : Float) (i : ℕ) (x : PqItem f)
      → IsQueue pq
      → get_elem? pq.items i ≡ some x
      → lookup t pq.index ≡ some i
      → Boosts (raise_priority t prob (priority_of f pq)) pq (raise_at f i prob (some x) pq)
  unfolding raise_at priority_of
  raise_at-Boosts pq t prob i x v hx ht =
      let inside : i < length pq.items = ground (arith, get_elem?-beyond pq.items i) in
      let (e, at_i, is_t) = v.indexed.sound t i ht in
      let is_x : x.port.port ≡ t = ground (arith, hx, at_i, is_t) in
      elim (Bool-cases (lt x.priority prob)) [
        | inl higher ↦
            rw (higher, heap_fix-up pq v i x prob hx inside higher)
              (record {
                refines = record {
                  queue = fixed-IsQueue pq v i x prob hx inside higher;
                  same = λ p.
                      priority_of-fixed pq v i x prob hx inside higher p
                      ∙ ground (arith, is_x, int_eq.same_iff t p, ht, hx, higher);
                };
                size =
                    (fixed-Rearranged pq v i x prob hx inside higher).size
                    ∙ length-set pq.items i (record x { priority = prob });
              })
        | inr lower ↦ rw lower (record {
          refines = record {
            queue = v;
            same = λ p. ground (arith, int_eq.same_iff t p, ht, hx, lower);
          };
          size = refl;
        })
      ]

  pub boost-Boosts :
      (pq : PortQueue f) (t : ℤ) (prob : Float)
      → IsQueue pq
      → Boosts (raise_priority t prob (priority_of f pq)) pq (boost f t prob pq)
  unfolding boost priority_of
  boost-Boosts pq t prob v = elim (Option-cases (lookup t pq.index)) [
    | inl n ↦
        rw (boost, n)
          (record {
            refines = record { queue = v; same = λ p. ground (arith, int_eq.same_iff t p, n) };
            size = refl;
          })
    | inr (i, n) ↦
        let (e, at_i, is_t) = v.indexed.sound t i n in
        elim (Option-cases (get_elem? pq.items i)) [
          | inl missing ↦ absurd (ground (arith, at_i, missing))
          | inr (x, hx) ↦ rw (boost, n, hx) (raise_at-Boosts pq t prob i x v hx n)
        ]
  ]
