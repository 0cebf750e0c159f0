-- ===== src/Runner/PredictiveScan/Tests.antt =====
-- Runs of the predictive scan.
use naabu.Prelude.{ℕ, zero, suc, ◌+◌, ◌≡◌, true, false, List, [], ◌∷◌, length, arith, none}
use naabu.Prelude.Int.{ℤ, pos, int_eq}
use naabu.Prelude.Text.{codes, text_eq}
use naabu.Net.Protocol.{tcp}
use naabu.Net.Port.{Port}
use naabu.Prediction.Samples.{tenths, web}
use naabu.Results.{new_result}
use naabu.Runner.Options.{no_options}
use naabu.Runner.Ports.{bare}
use naabu.Runner.Ports.Distinct.{IsDistinct, has_number}
use naabu.Runner.FastSend.Samples.{blocks, four}
use naabu.Runner.SmartScan.{Outside}
use naabu.Runner.PredictiveScan.{Predictive, Events, scan_retry}
use naabu.Runner.PredictiveScan.Scanned.{times, one_if, scan_retry_once}

abbrev outside : Outside
outside = record {
  mapcidr = blocks;
  v6_string = λ n. codes "::1";
  validate_address = none;
  cdn_check = λ ip. none;
  shuffle = λ i. i;
}

-- Port 80 is reported while the first port is scanned.
abbrev reports : ℕ → List ℤ
reports (suc zero) = pos 80 ∷ []
reports _ = []

abbrev events : Events tenths outside no_options true web (four ∷ [])
events = record {
  cancelled = λ seed i. false;
  arrivals = λ seed i. [];
  reported = reports;
  shuffle = λ seed i. i;
  late = λ retry. [];
}

abbrev start : Predictive tenths outside no_options true web (four ∷ [])
start = record {
  scan = record { results = new_result; sender = none; probes = [] };
  br_seed = 0;
  queue = record { items = []; index = [] };
  scanned = [];
}

abbrev two_ports : List Port
two_ports = bare tcp (pos 22) ∷ bare tcp (pos 443) ∷ []

two_ports-IsDistinct : IsDistinct two_ports
two_ports-IsDistinct = (((λ h. ground arith), tt), (tt, tt))

scan_retry_once_example :
    (length
        (scan_retry tenths outside no_options true web
          (four ∷ [])
          events
          two_ports
          0
          start).queue.items
      ≡ 0)
    × ((p : ℤ)
        → times p
            (scan_retry tenths outside no_options true web
              (four ∷ [])
              events
              two_ports
              0
              start).scanned
          ≡ one_if (has_number p two_ports) + times p start.scanned)
scan_retry_once_example =
    scan_retry_once tenths outside no_options true web (four ∷ []) events two_ports 0 start
      two_ports-IsDistinct
