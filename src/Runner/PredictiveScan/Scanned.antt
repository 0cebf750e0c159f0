-- ===== src/Runner/PredictiveScan/Scanned.antt =====
-- Each port of the queue is scanned once, whatever is reported in between.
use naabu.Prelude.{
  ℕ, zero, suc, ◌+◌, ◌≡◌, refl, Bool, true, false, List, [], ◌∷◌, none, if◌then◌else◌, ◌=?◌, ◌∙◌,
  length, get_elem?-beyond, lookup, arith, inl, inr, Option-cases,
}
use naabu.Prelude.Int.{ℤ, int_eq}
use naabu.Net.Port.{Port}
use naabu.Net.Cidr.{IpNet}
use naabu.Float.{Float64}
use naabu.Prediction.{Model, get_correlations}
use naabu.Results.{get_open_port_numbers}
use naabu.Runner.Options.{Options}
use naabu.Runner.SmartScan.{Outside, receive}
use naabu.Runner.Ports.Distinct.{IsDistinct, has_number}
use naabu.Runner.PortQueue.{PortQueue, pop, boost_correlated, new_port_queue}
use naabu.Runner.PortQueue.Sift.{IsIndexed, priority_of}
use naabu.Runner.PortQueue.View.{IsQueue}
use naabu.Runner.PortQueue.Pop.{pop-IsPop}
use naabu.Runner.PortQueue.Fill.{
  new_port_queue-Refines, boost_correlated-Boosts, correlated, is_some, is_some-raise_all,
}
use naabu.Runner.PredictiveScan.{Predictive, Events, report, scan_popped, scan_queue, scan_retry}

-- How often a port of a number stands in a list.
abbrev pub times : ℤ → List Port → ℕ
times p [] = 0
times p (q ∷ ports) = (if q.port =? p then 1 else 0) + times p ports

abbrev pub one_if : Bool → ℕ
one_if true = 1
one_if false = 0

module _ (f : Float64) where
  no_items :
      (pq : PortQueue f) (p : ℤ) → IsIndexed f pq → length pq.items ≡ 0 → priority_of f pq p ≡ none
  unfolding priority_of
  no_items pq p v h = elim (Option-cases (lookup p pq.index)) [
    | inl n ↦ ground (arith, n)
    | inr (i, n) ↦
        let (e, at_i, same) = v.sound p i n in
        absurd (ground (arith, at_i, get_elem?-beyond pq.items i (omega (arith, h))))
  ]

  module _ (o : Outside) (options : Options) (raw_packets : Bool) (model : Model f)
      (targets : List IpNet) where
    -- The same ports with other priorities.
    record SamePorts (pq q : PortQueue f) : Type 0 where
      queue : IsQueue f q
      size : length q.items ≡ length pq.items
      present : (p : ℤ) → is_some f (priority_of f q p) ≡ is_some f (priority_of f pq p)

    report-SamePorts :
        (ports : List ℤ) (pq : PortQueue f)
        → IsQueue f pq
        → SamePorts pq (report f o options raw_packets model targets ports pq)
    unfolding report
    report-SamePorts [] pq v = record { queue = v; size = refl; present = λ p. refl }
    report-SamePorts (q ∷ ports) pq v =
        let step = boost_correlated-Boosts f q model pq v in
        let rest = report-SamePorts ports (boost_correlated f q model pq) step.refines.queue in
        record {
          queue = rest.queue;
          size = rest.size ∙ step.size;
          present = λ p.
              rest.present p
              ∙ ground (
                arith,
                step.refines.same p,
                is_some-raise_all f (correlated f (get_correlations f model q)) (priority_of f pq)
                    p,
              );
        }

    module _ (events : Events f o options raw_packets model targets) where
      pub record IsScanned (s e : Predictive f o options raw_packets model targets) : Type 0 where
        pub emptied : length e.queue.items ≡ 0
        pub once :
            (p : ℤ)
            → times p e.scanned ≡ one_if (is_some f (priority_of f s.queue p)) + times p s.scanned

      scan_queue-IsScanned :
          (n : ℕ) (s : Predictive f o options raw_packets model targets)
          → IsQueue f s.queue
          → length s.queue.items ≡ n
          → IsScanned s (scan_queue f o options raw_packets model targets events n s)
      unfolding scan_queue scan_popped
      scan_queue-IsScanned zero s v h = record {
        emptied = h;
        once = λ p. ground (arith, no_items s.queue p v.indexed h);
      }
      scan_queue-IsScanned (suc n) s v h =
          let popped = pop-IsPop f s.queue v (omega (arith, h)) in
          let left = popped.rest in
          let seed = s.br_seed + 1 in
          let reported = report-SamePorts (events.reported seed) (pop f s.queue).1 left.queue in
          let next =
            scan_popped f o options raw_packets model targets events popped.port (pop f s.queue).1
              s in
          let rest =
            scan_queue-IsScanned n next reported.queue
              (omega (arith, reported.size, popped.size, h)) in
          rw (scan_queue, popped.taken)
            (record {
              emptied = rest.emptied;
              once = λ p.
                  rest.once p
                  ∙ ground (
                    arith,
                    reported.present p,
                    left.same p,
                    popped.present,
                    int_eq.same_iff popped.port.port p,
                  );
            })

      -- A retry ends with an empty queue, and it scans each port of the list exactly once, in whatever
      -- order the reports of open ports bring about.
      pub scan_retry_once :
          (ports : List Port) (retry : ℕ) (s : Predictive f o options raw_packets model targets)
          → IsDistinct ports
          → let e = scan_retry f o options raw_packets model targets events ports retry s in
            (length e.queue.items ≡ 0)
            × ((p : ℤ) → times p e.scanned ≡ one_if (has_number p ports) + times p s.scanned)
      unfolding scan_retry
      scan_retry_once ports retry s d =
          let known_open = get_open_port_numbers (receive (events.late retry) s.scan.results) in
          let filled = new_port_queue-Refines f ports model known_open d in
          let pq = new_port_queue f ports model known_open in
          let scan = record (s.scan) { results = receive (events.late retry) s.scan.results } in
          let run =
            scan_queue-IsScanned (length pq.items) (record s { scan = scan; queue = pq })
              filled.queue refl in
          (run.emptied, λ p. run.once p ∙ ground (arith, filled.same p))
