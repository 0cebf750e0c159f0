-- ===== src/Runner/PortQueue/Order.antt =====
-- The heap order of the queue, and how sifting restores it.
use naabu.Prelude.{
  ℕ, zero, suc, ◌+◌, ◌*◌, ◌≤◌, ◌<◌, ◌≡◌, ◌≢◌, refl, true, false, not, ◌&&◌, ◌||◌, Option, none,
  some, ltb, leb, ◌==◌, length, arith, inl, inr, Bool-cases,
}
use naabu.Float.{Float64}
use naabu.Prediction.{PortPrediction}
use naabu.Prediction.Order.{less_asym, less_neg_trans}
use naabu.Runner.PortQueue.{PortQueue, at, before, less, swap, entry, parent, up, child, down}
use naabu.Runner.PortQueue.Sift.{at-below, swap-Rearranged, at-swap_positions, child-below}

module _ (f : Float64) where
  before_asym : (x y : Option (PortPrediction f)) → before f x y ≡ true → before f y x ≡ false
  before_asym (some x) (some y) h = less_asym f x y h
  before_asym none y h = cc
  before_asym (some x) none h = cc

  -- What does not come before `y`, which comes before `z` or beside it, does not come before `z`.
  pub before_neg_trans :
      (x : Option (PortPrediction f)) (y : PortPrediction f) (z : Option (PortPrediction f))
      → before f x (some y) ≡ false
      → before f (some y) z ≡ false
      → before f x z ≡ false
  before_neg_trans (some x) y (some z) h k = less_neg_trans f x y z h k
  before_neg_trans none y z h k = refl
  before_neg_trans (some x) y none h k = refl

  -- The same with a position of the queue in the middle.
  before_neg_trans_at :
      (pq : PortQueue f) (x z : Option (PortPrediction f)) (k : ℕ)
      → k < length pq.items
      → before f x (at f pq k) ≡ false
      → before f (at f pq k) z ≡ false
      → before f x z ≡ false
  before_neg_trans_at pq x z k h a b =
      let (y, e) = at-below f pq k h in before_neg_trans x (entry f y) z (rw e at a) (rw e at b)

  before_trans :
      (x y z : Option (PortPrediction f))
      → before f x y ≡ true
      → before f y z ≡ true
      → before f x z ≡ true
  before_trans none y z h k = cc
  before_trans (some x) none z h k = cc
  before_trans (some x) (some y) none h k = cc
  before_trans (some x) (some y) (some z) h k =
      ground (arith, less_neg_trans f x z y, less_asym f y z, less_asym f x y)

  -- No item comes before its parent, up to position `n`.
  abbrev pub IsHeapBelow : ℕ → PortQueue f → Type 0
  IsHeapBelow n pq = (c : ℕ) → 0 < c → c < n → before f (at f pq c) (at f pq (parent c)) ≡ false

  -- Only the edge above `i` may be out of order.
  pub record UpInv (n : ℕ) (pq : PortQueue f) (i : ℕ) : Type 0 where
    pub edges : (c : ℕ) → 0 < c → c < n → c ≢ i → before f (at f pq c) (at f pq (parent c)) ≡ false
    pub bridged :
        (c : ℕ)
        → 0 < c
        → c < n
        → parent c ≡ i
        → 0 < i
        → before f (at f pq c) (at f pq (parent i)) ≡ false

  -- Only the edges below `i` may be out of order.
  pub record DownInv (n : ℕ) (pq : PortQueue f) (i : ℕ) : Type 0 where
    pub edges :
        (c : ℕ) → 0 < c → c < n → parent c ≢ i → before f (at f pq c) (at f pq (parent c)) ≡ false
    pub bridged :
        (c : ℕ)
        → 0 < c
        → c < n
        → parent c ≡ i
        → 0 < i
        → before f (at f pq c) (at f pq (parent i)) ≡ false

  swap-UpInv :
      (n : ℕ) (pq : PortQueue f) (i : ℕ)
      → 0 < i
      → i < n
      → n ≤ length pq.items
      → UpInv n pq i
      → before f (at f pq i) (at f pq (parent i)) ≡ true
      → UpInv n (swap f (parent i) i pq) (parent i)
  swap-UpInv n pq i pos_i hi hn v rises =
      let moved = at-swap_positions f pq (parent i) i (omega arith) (omega arith) in
      record {
        edges = λ c p q r. ground (
          arith,
          moved c,
          moved (parent c),
          v.edges c,
          v.bridged c,
          before_asym (at f pq i) (at f pq (parent i)),
          before_trans (at f pq c) (at f pq i) (at f pq (parent i)),
        );
        bridged = λ c p q r t. ground (
          arith,
          moved c,
          moved (parent (parent i)),
          v.edges c,
          v.edges (parent i),
          before_neg_trans_at pq (at f pq c) (at f pq (parent (parent i))) (parent i) (omega arith),
        );
      }

  pub up_restores :
      (fuel n i : ℕ) (pq : PortQueue f)
      → i < fuel
      → i < n
      → n ≤ length pq.items
      → UpInv n pq i
      → IsHeapBelow n (up f fuel i pq)
  unfolding up less
  up_restores zero n i pq h hi hn v = absurd (omega arith)
  up_restores (suc fuel) n i pq h hi hn v =
      elim (Bool-cases ((parent i == i) || not (before f (at f pq i) (at f pq (parent i))))) [
        | inl e ↦ rw e (λ c p q. ground (arith, v.edges c p q))
        | inr e ↦
            let pos_i : 0 < i = ground arith in
            let rises : before f (at f pq i) (at f pq (parent i)) ≡ true = ground arith in
            let step = swap-Rearranged f n pq (parent i) i (omega arith) hi hn in
            rw e (
              up_restores fuel n (parent i) (swap f (parent i) i pq) (omega arith) (omega arith)
                (omega (arith, step.size)) (swap-UpInv n pq i pos_i hi hn v rises))
      ]

  -- Neither child of `i` comes before the chosen one.
  child-first :
      (n i : ℕ) (pq : PortQueue f)
      → n ≤ length pq.items
      → 2 * i + 1 < n
      → (c : ℕ) → 0 < c
      → c < n
      → parent c ≡ i
      → before f (at f pq c) (at f pq (child f n i pq)) ≡ false
  unfolding child less
  child-first n i pq hn h c p q r =
      let irrefl : before f (at f pq c) (at f pq c) ≡ false =
        ground (arith, before_asym (at f pq c) (at f pq c)) in
      elim (Bool-cases
        (ltb (2 * i + 2) n && before f (at f pq (2 * i + 2)) (at f pq (2 * i + 1)))) [
          | inl e ↦ elim (Bool-cases (c == 2 * i + 2)) [
            | inl same ↦ rw e (ground (arith, irrefl))
            | inr other ↦
                let left : c ≡ 2 * i + 1 = ground arith in
                rw (e, left)
                  (before_asym (at f pq (2 * i + 2)) (at f pq (2 * i + 1)) (ground arith))
          ]
          | inr e ↦ elim (Bool-cases (c == 2 * i + 1)) [
            | inl same ↦ let left : c ≡ 2 * i + 1 = ground arith in rw e (ground (arith, irrefl))
            | inr other ↦ let right : c ≡ 2 * i + 2 = ground arith in rw (e, right) (ground arith)
          ]
        ]

  swap-DownInv :
      (n : ℕ) (pq : PortQueue f) (i m : ℕ)
      → n ≤ length pq.items
      → DownInv n pq i
      → m < n
      → parent m ≡ i
      → 0 < m
      → ((c : ℕ) → 0 < c → c < n → parent c ≡ i → before f (at f pq c) (at f pq m) ≡ false)
      → before f (at f pq m) (at f pq i) ≡ true
      → DownInv n (swap f i m pq) m
  swap-DownInv n pq i m hn v hm up_m pos_m first sinks =
      let moved = at-swap_positions f pq i m (omega arith) (omega arith) in
      record {
        edges = λ c p q r. ground (
          arith,
          moved c,
          moved (parent c),
          v.edges c,
          v.bridged m,
          first c,
          before_asym (at f pq m) (at f pq i),
        );
        bridged = λ c p q r t. ground (arith, moved c, moved (parent m), v.edges c);
      }

  pub down_restores :
      (fuel n i : ℕ) (pq : PortQueue f)
      → n ≤ i + fuel
      → n ≤ length pq.items
      → DownInv n pq i
      → IsHeapBelow n (down f fuel n i pq).0
  unfolding down less
  down_restores zero n i pq h hn v = λ c p q. ground (arith, v.edges c p q)
  down_restores (suc fuel) n i pq h hn v =
      let m = child f n i pq in
      elim (Bool-cases (leb n (2 * i + 1) || not (before f (at f pq m) (at f pq i)))) [
        | inl e ↦ rw e (λ c p q. elim (Bool-cases (parent c == i)) [
          | inr other ↦ ground (arith, v.edges c p q)
          | inl same ↦
              let has_child : 2 * i + 1 < n = ground arith in
              let is_child : parent c ≡ i = ground arith in
              let below = child-below f n i pq has_child in
              rw is_child (
                before_neg_trans_at pq (at f pq c) (at f pq i) m (omega (arith, below.0))
                  (child-first n i pq hn has_child c p q is_child) (ground arith))
        ])
        | inr e ↦
            let has_child : 2 * i + 1 < n = ground arith in
            let below = child-below f n i pq has_child in
            let later : i < m = below.2 in
            let step = swap-Rearranged f n pq i m (omega (arith, below.0, later)) below.0 hn in
            rw e (
              down_restores fuel n m (swap f i m pq) (omega (arith, later))
                (omega (arith, step.size))
                (swap-DownInv n pq i m hn v below.0 below.1 (omega (arith, later))
                  (child-first n i pq hn has_child) (ground arith)))
      ]

  -- Where no child comes before its parent at `i`, `down` moves nothing.
  pub down_settled :
      (fuel n i : ℕ) (pq : PortQueue f)
      → n ≤ length pq.items
      → UpInv n pq i
      → down f fuel n i pq ≡ (pq, i)
  unfolding down less
  down_settled zero n i pq hn v = refl
  down_settled (suc fuel) n i pq hn v =
      let m = child f n i pq in
      elim (Bool-cases (leb n (2 * i + 1))) [
        | inl e ↦ rw e refl
        | inr e ↦
            let below = child-below f n i pq (ground arith) in
            let settled : before f (at f pq m) (at f pq i) ≡ false = ground (
              arith,
              v.edges m (omega (arith, below.2)) below.0 (omega (arith, below.2)),
              below.1,
            ) in
            rw (e, settled) refl
      ]

  -- Nothing comes before the root.
  pub root_first :
      (fuel i : ℕ) (pq : PortQueue f)
      → IsHeapBelow (length pq.items) pq
      → i < fuel
      → i < length pq.items
      → before f (at f pq i) (at f pq 0) ≡ false
  root_first zero i pq h hf hi = absurd (omega arith)
  root_first (suc fuel) zero pq h hf hi = ground (arith, before_asym (at f pq 0) (at f pq 0))
  root_first (suc fuel) (suc i) pq h hf hi =
      before_neg_trans_at pq (at f pq (suc i)) (at f pq 0) (parent (suc i)) (omega arith)
        (h (suc i) (omega arith) hi)
        (root_first fuel (parent (suc i)) pq h (omega arith) (omega arith))
