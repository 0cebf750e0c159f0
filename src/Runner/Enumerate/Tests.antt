-- ===== src/Runner/Enumerate/Tests.antt =====
-- Runs of the scan of all addresses and ports.
use naabu.Prelude.{ℕ, ◌<◌, ◌-◌, ◌≡◌, refl, Bool, true, false, List, [], ◌∷◌, none, length, arith}
use naabu.Prelude.Int.{pos}
use naabu.Prelude.Text.{Text, codes}
use naabu.Net.Protocol.{tcp}
use naabu.Net.Port.{Port}
use naabu.Results.{new_result, has_skipped}
use naabu.Runner.Options.{Options, no_options}
use naabu.Runner.Ports.{bare}
use naabu.Runner.FastSend.Index.{pick_ip}
use naabu.Runner.FastSend.Samples.{blocks, four}
use naabu.Runner.SmartScan.{Outside, excluded, receive}
use naabu.Runner.Enumerate.{Enumeration, enumerate_from, Run, run_enumeration}
use naabu.Runner.Enumerate.Resumed.{perform_from, enumerate_from-resumes}
use naabu.Runner.Enumerate.Covered.{IsCovered, IsFresh, enumerate_from-covers}

abbrev outside : Outside
outside = record {
  mapcidr = blocks;
  v6_string = λ n. codes "::1";
  validate_address = none;
  cdn_check = λ ip. none;
  shuffle = λ i. i;
}

abbrev two_ports : List Port
two_ports = bare tcp (pos 22) ∷ bare tcp (pos 80) ∷ []

abbrev start : Enumeration
start = record {
  results = new_result;
  resume_cfg = record { retry = pos 0; seed = pos 0; index = pos 0 };
  probes = [];
}

abbrev never : ℕ → Bool
never i = false

abbrev nothing : ℕ → List (Text × Port)
nothing i = []

-- Eight rounds, from the last index to the first.
abbrev backwards : ℕ → ℕ
backwards i = 7 - i

nothing-nil : (i : ℕ) → i < 3 → nothing i ≡ []
nothing-nil i h = refl

enumerate_from-resumes_example :
    enumerate_from outside no_options true
      (four ∷ [])
      two_ports
      never
      nothing
      backwards
      0
      8
      (record start { resume_cfg = record { retry = pos 0; seed = pos 5; index = pos 3 } })
    ≡ perform_from outside no_options true
        (four ∷ [])
        two_ports
        never
        nothing
        backwards
        3
        5
        (record start { resume_cfg = record { retry = pos 0; seed = pos 5; index = pos 3 } })
enumerate_from-resumes_example =
    enumerate_from-resumes outside no_options true (four ∷ []) two_ports never nothing backwards 3
      nothing-nil 5
      (record start { resume_cfg = record { retry = pos 0; seed = pos 5; index = pos 3 } }) refl

all_allowed : (ip : Text) → excluded outside no_options ip ≡ false
unfolding excluded
all_allowed ip = refl

start-IsFresh : IsFresh 0 start
start-IsFresh = record { no_skips = λ ip. (unfold has_skipped in refl); ahead = refl }

backwards_onto : (k : ℕ) → k < 8 → (j : ℕ) × (j < 8) × (backwards j ≡ k)
backwards_onto k h = (7 - k, omega arith, omega arith)

enumerate_from-covers_example :
    IsCovered (pick_ip blocks (λ n. codes "::1") (four ∷ []) (pos 2)) (bare tcp (pos 80)) (
      enumerate_from outside no_options false
        (four ∷ [])
        two_ports
        never
        nothing
        backwards
        0
        8
        start)
enumerate_from-covers_example =
    enumerate_from-covers outside no_options refl refl all_allowed (four ∷ []) two_ports nothing
      backwards 8 start backwards_onto start-IsFresh 5 (bare tcp (pos 80)) (omega arith) refl

abbrev three_retries : Options
three_retries = record no_options { retries = pos 3 }

-- Three retries over eight rounds and one target with its port.
abbrev retrying : Run outside three_retries true (four ∷ []) two_ports
retrying = record {
  cancelled = λ r i. false;
  done = λ r. false;
  arrivals = λ r i. [];
  now = λ r. pos 9;
  shuffle = λ n seed i. backwards i;
}

probe_count :
    length
      (run_enumeration outside three_retries true
        (four ∷ [])
        two_ports
        retrying
        (codes "1.1.1.1:443" ∷ [])
        start).probes
    ≡ 27
unfolding run_enumeration receive
probe_count = refl
