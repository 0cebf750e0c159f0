-- ===== src/Runner/PredictiveScan.antt =====
-- pkg/runner/smartscan.go: `runPredictiveScan`, which scans the ports in the order of the queue, retry
-- after retry, and `scanTargetsWithPort`.

mod Tests
pub mod Scanned
use naabu.Prelude.{
  ℕ, zero, suc, ◌+◌, ◌≡◌, Bool, true, false, not, ◌&&◌, List, [], ◌∷◌, Option, none, some,
  if◌then◌else◌, length,
}
use naabu.Prelude.Int.{ℤ, pos, pos_part}
use naabu.Prelude.Text.{Text}
use naabu.Prelude.Decimal.{atoi}
use naabu.Net.Protocol.{tcp}
use naabu.Net.Port.{Port}
use naabu.Net.Cidr.{IpNet}
use naabu.Net.HostPort.{split_host_port}
use naabu.Float.{Float64}
use naabu.Prediction.{Model}
use naabu.Results.{Result, get_open_port_numbers}
use naabu.Runner.Options.{Options}
use naabu.Runner.Ports.{bare}
use naabu.Runner.FastSend.Index.{build_target_index}
use naabu.Runner.SmartScan.{
  Outside, Probe, connect, ScanState, receive, scan_single_port_on_targets,
}
use naabu.Runner.Enumerate.{raw_socket_enumeration, targets_count}
use naabu.Runner.PortQueue.{PortQueue, pop, boost_correlated, new_port_queue}

module _ (f : Float64) (o : Outside) (options : Options) (raw_packets : Bool) (model : Model f)
    (targets : List IpNet) where
  -- The scan, the seed of the next permutation, the queue, and the ports that were scanned so far, with
  -- the latest first.
  pub record Predictive : Type 0 where
    pub scan : ScanState
    pub br_seed : ℕ
    pub queue : PortQueue f
    pub scanned : List Port

  -- What happens outside while the scan of one port runs, which its seed names: at which rounds the
  -- context is done, the arrivals before each round, the open ports that `OnReceive` reports, and the
  -- permutation. `late` are the arrivals before a retry.
  pub record Events : Type 0 where
    pub cancelled : ℕ → ℕ → Bool
    pub arrivals : ℕ → ℕ → List (Text × Port)
    pub reported : ℕ → List ℤ
    pub shuffle : ℕ → ℤ → ℤ
    pub late : ℕ → List (Text × Port)

  -- `OnReceive` while the queue is the current one.
  unfoldable pub report : List ℤ → PortQueue f → PortQueue f
  unfolding boost_correlated
  report [] pq = pq
  report (p ∷ ports) pq = report ports (boost_correlated f p model pq)

  module _ (events : Events) where
    -- The body of the loop over the queue. The reports change the queue and nothing else that the scan
    -- of the port reads, so they are taken together behind it.
    unfoldable pub scan_popped : Port → PortQueue f → Predictive → Predictive
    unfolding scan_single_port_on_targets build_target_index targets_count
    scan_popped p rest s =
        let seed = s.br_seed + 1 in
        record {
          scan =
              scan_single_port_on_targets (record o { shuffle = events.shuffle seed }) options
                targets (build_target_index o.mapcidr targets) p raw_packets (events.cancelled seed)
                (events.arrivals seed) (targets_count o.mapcidr targets) s.scan;
          br_seed = seed;
          queue = report (events.reported seed) rest;
          scanned = p ∷ s.scanned;
        }

    -- The loop over the queue ends where the queue has no port; the fuel is its length.
    unfoldable pub scan_queue : ℕ → Predictive → Predictive
    scan_queue zero s = s
    scan_queue (suc fuel) s =
        let popped = pop f s.queue in
        elim popped.0 [ none ↦ s | some p ↦ scan_queue fuel (scan_popped p popped.1 s) ]

    -- One retry, with a new queue.
    unfoldable pub scan_retry : List Port → ℕ → Predictive → Predictive
    scan_retry ports retry s =
        let results = receive (events.late retry) s.scan.results in
        let pq = new_port_queue f ports model (get_open_port_numbers results) in
        let scan = record (s.scan) { results = results } in
        scan_queue (length pq.items) (record s { scan = scan; queue = pq })

    scan_retries : List Port → ℕ → ℕ → Predictive → Predictive
    unfolding scan_retry
    scan_retries ports retry zero s = s
    scan_retries ports retry (suc n) s = scan_retries ports (retry + 1) n (scan_retry ports retry s)

    -- A target that is given with its port; `done` tells whether the context is done.
    scan_target_with_port : Bool → Option (Text × Text) → ScanState → ScanState
    unfolding raw_socket_enumeration atoi
    scan_target_with_port done none s = s
    scan_target_with_port done (some (ip, p)) s = elim (atoi p) [
      | none ↦ s
      | some pp ↦ record s {
        probes =
            if raw_packets
            then raw_socket_enumeration o options raw_packets done ip (bare tcp pp) s.results
                s.probes
            else connect ip (bare tcp pp) ∷ s.probes;
      }
    ]

    unfoldable pub scan_targets_with_port : Bool → List Text → ScanState → ScanState
    unfolding scan_target_with_port split_host_port
    scan_targets_with_port done [] s = s
    scan_targets_with_port done (t ∷ ts) s =
        scan_targets_with_port done ts (scan_target_with_port done (split_host_port t) s)

    -- The sender is in the state before; `done` is the context at the end.
    unfoldable pub run_predictive_scan : List Port → List Text → Bool → Predictive → Predictive
    unfolding scan_retries scan_targets_with_port
    run_predictive_scan ports targets_with_port done s =
        let s = scan_retries ports 0 (pos_part options.retries) s in
        record s { scan = scan_targets_with_port done targets_with_port s.scan }
