-- ===== src/Runner/PortQueue/Sift.antt =====
-- What a swap of two items does, and what any sequence of swaps keeps.
use naabu.Prelude.{
  ℕ, zero, suc, ◌+◌, ◌*◌, ◌≤◌, ◌<◌, ◌≡◌, refl, not, ◌&&◌, ◌||◌, Option, none, some, if◌then◌else◌,
  ltb, leb, ◌==◌, ◌=?◌, ◌∙◌, length, get_elem?, set as set_elem, lookup, insert, lookup-insert,
  arith, inl, inr, Option-cases, Bool-cases, length-set, get_elem?-set, get_elem?-below,
}
use naabu.Prelude.Int.{ℤ, pos, int_eq}
use naabu.Float.{Float64}
use naabu.Prediction.{PortPrediction}
use naabu.Runner.PortQueue.{
  PqItem, PortQueue, entry, at, less, swapped, swap, parent, up, child, down,
}

module _ (f : Float64) where
  open f use {Float}

  -- The index has the position of each port.
  pub record IsIndexed (pq : PortQueue f) : Type 0 where
    pub sound :
        (p : ℤ) (i : ℕ)
        → lookup p pq.index ≡ some i
        → (e : PortPrediction f) × (at f pq i ≡ some e) × (e.port ≡ p)
    pub complete :
        (i : ℕ) (e : PortPrediction f) → at f pq i ≡ some e → lookup e.port pq.index ≡ some i

  -- The abstract view: the priority of a port that is in the queue.
  abbrev confidence_of : Option (PortPrediction f) → Option Float
  confidence_of none = none
  confidence_of (some e) = some e.confidence

  abbrev at_position : PortQueue f → Option ℕ → Option Float
  at_position pq none = none
  at_position pq (some i) = confidence_of (at f pq i)

  unfoldable pub priority_of : PortQueue f → ℤ → Option Float
  unfolding lookup
  priority_of pq p = at_position pq (lookup p pq.index)

  pub at-below :
      (pq : PortQueue f) (i : ℕ)
      → i < length pq.items
      → (x : PqItem f) × (get_elem? pq.items i ≡ some x)
  at-below pq i h = get_elem?-below pq.items i h

  module _ (pq : PortQueue f) (i j : ℕ) (x y : PqItem f) (hx : get_elem? pq.items i ≡ some x)
      (hy : get_elem? pq.items j ≡ some y) where
    swap-swapped : swap f i j pq ≡ swapped f i j (some x) (some y) pq
    unfolding swap
    swap-swapped = rw (hx, hy) refl

    module _ (hi : i < length pq.items) (hj : j < length pq.items) where
      pub length-swap : length (swap f i j pq).items ≡ length pq.items
      unfolding swapped
      length-swap = rw swap-swapped (
          length-set (set_elem pq.items i (record y { heap_idx = pos i })) j
            (record x { heap_idx = pos j })
          ∙ length-set pq.items i (record y { heap_idx = pos i }))

      pub at-swap :
          (k : ℕ)
          → at f (swap f i j pq) k
            ≡ (if k == j then some (entry f x) else if k == i then some (entry f y) else at f pq k)
      unfolding swapped
      at-swap k = rw swap-swapped (
          ground (
            arith,
            get_elem?-set (set_elem pq.items i (record y { heap_idx = pos i })) j
                (record x { heap_idx = pos j }) k
                (omega (arith, length-set pq.items i (record y { heap_idx = pos i }))),
            get_elem?-set pq.items i (record y { heap_idx = pos i }) k hi,
          ))

      pub lookup-swap :
          (p : ℤ)
          → lookup p (swap f i j pq).index ≡ (
              if x.port.port =? p
              then some j
              else if y.port.port =? p
              then some i
              else lookup p pq.index)
      unfolding swapped
      lookup-swap p = rw swap-swapped (
          lookup-insert x.port.port p j (insert y.port.port i pq.index)
          ∙ ground (arith, lookup-insert y.port.port p i pq.index))

      swap_sound :
          IsIndexed pq
          → (p : ℤ) (k : ℕ) → lookup p (swap f i j pq).index ≡ some k
          → (e : PortPrediction f) × (at f (swap f i j pq) k ≡ some e) × (e.port ≡ p)
      swap_sound v p k h = elim (Bool-cases (x.port.port =? p)) [
        | inl e ↦ (
          entry f x,
          ground (arith, lookup-swap p, at-swap k),
          (int_eq.same_iff x.port.port p).0 e,
        )
        | inr d ↦ elim (Bool-cases (y.port.port =? p)) [
          | inl e ↦ (
            entry f y,
            ground (
              arith,
              lookup-swap p,
              at-swap k,
              int_eq.same_iff x.port.port p,
              int_eq.same_iff y.port.port p,
            ),
            (int_eq.same_iff y.port.port p).0 e,
          )
          | inr e ↦
              let (r, at_k, same) = v.sound p k (ground (arith, lookup-swap p)) in
              (
                r,
                ground (
                  arith,
                  at-swap k,
                  at_k,
                  same,
                  int_eq.same_iff x.port.port p,
                  int_eq.same_iff y.port.port p,
                ),
                same,
              )
        ]
      ]

      swap_complete :
          IsIndexed pq
          → (k : ℕ) (e : PortPrediction f) → at f (swap f i j pq) k ≡ some e
          → lookup e.port (swap f i j pq).index ≡ some k
      swap_complete v k e h = ground (
        arith,
        at-swap k,
        lookup-swap e.port,
        v.complete k e,
        v.complete i (entry f x),
        v.complete j (entry f y),
        int_eq.same_iff x.port.port e.port,
        int_eq.same_iff y.port.port e.port,
      )

      pub swap-IsIndexed : IsIndexed pq → IsIndexed (swap f i j pq)
      swap-IsIndexed v = record { sound = swap_sound v; complete = swap_complete v }

      pub priority_of-swap :
          IsIndexed pq → (p : ℤ) → priority_of (swap f i j pq) p ≡ priority_of pq p
      unfolding priority_of
      priority_of-swap v p = elim (Bool-cases (x.port.port =? p)) [
        | inl e ↦
            let same = (int_eq.same_iff x.port.port p).0 e in
            ground (arith, lookup-swap p, at-swap j, e, same, v.complete i (entry f x), hx)
        | inr d ↦ elim (Bool-cases (y.port.port =? p)) [
          | inl e ↦
              let same = (int_eq.same_iff y.port.port p).0 e in
              ground (arith, lookup-swap p, at-swap i, d, e, same, v.complete j (entry f y), hx, hy)
          | inr e ↦ elim (Option-cases (lookup p pq.index)) [
            | inl n ↦ ground (arith, lookup-swap p, d, e, n)
            | inr (k, n) ↦
                let (r, at_k, same) = v.sound p k n in
                ground (
                  arith,
                  lookup-swap p,
                  at-swap k,
                  d,
                  e,
                  n,
                  at_k,
                  same,
                  hx,
                  hy,
                  int_eq.same_iff x.port.port p,
                  int_eq.same_iff y.port.port p,
                )
          ]
        ]
      ]

  -- The items stand in another order, but for those from `n` on.
  pub record Rearranged (n : ℕ) (pq q : PortQueue f) : Type 0 where
    pub size : length q.items ≡ length pq.items
    pub beyond : (k : ℕ) → n ≤ k → at f q k ≡ at f pq k
    pub indexed : IsIndexed pq → IsIndexed q
    pub view : IsIndexed pq → (p : ℤ) → priority_of q p ≡ priority_of pq p

  pub Rearranged-refl : (n : ℕ) (pq : PortQueue f) → Rearranged n pq pq
  Rearranged-refl n pq = record {
    size = refl;
    beyond = λ k h. refl;
    indexed = λ v. v;
    view = λ v p. refl;
  }

  pub Rearranged-trans :
      {n : ℕ} {a b c : PortQueue f} → Rearranged n a b → Rearranged n b c → Rearranged n a c
  Rearranged-trans r s = record {
    size = s.size ∙ r.size;
    beyond = λ k h. s.beyond k h ∙ r.beyond k h;
    indexed = λ v. s.indexed (r.indexed v);
    view = λ v p. s.view (r.indexed v) p ∙ r.view v p;
  }

  pub swap-Rearranged :
      (n : ℕ) (pq : PortQueue f) (i j : ℕ)
      → i < n
      → j < n
      → n ≤ length pq.items
      → Rearranged n pq (swap f i j pq)
  swap-Rearranged n pq i j hi hj hn =
      let li : i < length pq.items = omega arith in
      let lj : j < length pq.items = omega arith in
      let (x, hx) = at-below pq i li in
      let (y, hy) = at-below pq j lj in
      record {
        size = length-swap pq i j x y hx hy li lj;
        beyond = λ k h. ground (arith, at-swap pq i j x y hx hy li lj k);
        indexed = swap-IsIndexed pq i j x y hx hy li lj;
        view = priority_of-swap pq i j x y hx hy li lj;
      }

  pub up-Rearranged :
      (fuel n j : ℕ) (pq : PortQueue f)
      → j < n
      → n ≤ length pq.items
      → Rearranged n pq (up f fuel j pq)
  unfolding up
  up-Rearranged zero n j pq hj hn = Rearranged-refl n pq
  up-Rearranged (suc fuel) n j pq hj hn =
      elim (Bool-cases ((parent j == j) || not (less f pq j (parent j)))) [
        | inl e ↦ rw e (Rearranged-refl n pq)
        | inr e ↦
            let step = swap-Rearranged n pq (parent j) j (omega arith) hj hn in
            rw e (
              Rearranged-trans step (
                up-Rearranged fuel n (parent j) (swap f (parent j) j pq) (omega arith)
                  (omega (arith, step.size))))
      ]

  pub child-below :
      (n i : ℕ) (pq : PortQueue f)
      → 2 * i + 1 < n
      → (child f n i pq < n) × (parent (child f n i pq) ≡ i) × (i < child f n i pq)
  unfolding child
  child-below n i pq h =
      elim (Bool-cases (ltb (2 * i + 2) n && less f pq (2 * i + 2) (2 * i + 1))) [
        | inl e ↦ rw e (ground arith, omega arith, omega arith)
        | inr e ↦ rw e (h, omega arith, omega arith)
      ]

  pub down-Rearranged :
      (fuel n i : ℕ) (pq : PortQueue f)
      → n ≤ length pq.items
      → Rearranged n pq (down f fuel n i pq).0
  unfolding down
  down-Rearranged zero n i pq hn = Rearranged-refl n pq
  down-Rearranged (suc fuel) n i pq hn =
      elim (Bool-cases (leb n (2 * i + 1) || not (less f pq (child f n i pq) i))) [
        | inl e ↦ rw e (Rearranged-refl n pq)
        | inr e ↦
            let below = child-below n i pq (ground arith) in
            let step =
              swap-Rearranged n pq i (child f n i pq) (omega (arith, below.0, below.2)) below.0
                hn in
            rw e (
              Rearranged-trans step (
                down-Rearranged fuel n (child f n i pq) (swap f i (child f n i pq) pq)
                  (omega (arith, step.size))))
      ]

  pub at-swap_positions :
      (pq : PortQueue f) (i j : ℕ)
      → i < length pq.items
      → j < length pq.items
      → (k : ℕ)
      → at f (swap f i j pq) k
        ≡ (if k == j then at f pq i else if k == i then at f pq j else at f pq k)
  at-swap_positions pq i j hi hj k =
      let (x, hx) = at-below pq i hi in
      let (y, hy) = at-below pq j hj in at-swap pq i j x y hx hy hi hj k ∙ rw (hx, hy) refl
