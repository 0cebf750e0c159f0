-- ===== src/Runner/PortQueue/Tests.antt =====
-- Runs of the queue.
use naabu.Prelude.{ℕ, ◌≡◌, refl, List, [], ◌∷◌, some, ◌<◌, length, lookup, arith}
use naabu.Prelude.Int.{pos, int_eq}
use naabu.Net.Protocol.{tcp}
use naabu.Net.Port.{Port}
use naabu.Prediction.{get_correlations}
use naabu.Prediction.Samples.{tenths, web}
use naabu.Runner.Ports.{bare}
use naabu.Runner.Ports.Distinct.{IsDistinct}
use naabu.Runner.PortQueue.{PqItem, PortQueue, heap_push, pop, boost_correlated}
use naabu.Runner.PortQueue.Sift.{priority_of}
use naabu.Runner.PortQueue.Push.{heap_push-Refines}
use naabu.Runner.PortQueue.View.{IsQueue, Boosts}
use naabu.Runner.PortQueue.Pop.{IsPop, pop-IsPop}
use naabu.Runner.PortQueue.Fill.{
  empty, empty-IsQueue, raise_all, correlated, boost_correlated-Boosts,
}

abbrev item : ℕ → ℕ → PqItem tenths
item p priority = record { port = bare tcp (pos p); priority = priority; heap_idx = pos 0 }

abbrev one_port : PortQueue tenths
one_port = heap_push tenths (item 22 100) (empty tenths)

one_port-IsQueue : IsQueue tenths one_port
unfolding priority_of lookup
one_port-IsQueue =
    (heap_push-Refines tenths (empty tenths) (item 22 100) (empty-IsQueue tenths) refl).queue

abbrev two_ports : PortQueue tenths
two_ports = heap_push tenths (item 443 50) one_port

two_ports-IsQueue : IsQueue tenths two_ports
unfolding priority_of lookup heap_push
two_ports-IsQueue = (heap_push-Refines tenths one_port (item 443 50) one_port-IsQueue refl).queue

first_popped : (pop tenths two_ports).0 ≡ some (bare tcp (pos 22))
unfolding pop heap_push
first_popped = refl

-- Port 443 goes with the open port 80, so it comes first.
boosted_popped :
    (pop tenths (boost_correlated tenths (pos 80) web two_ports)).0 ≡ some (bare tcp (pos 443))
unfolding pop heap_push boost_correlated
boosted_popped = refl

two_items : 0 < length two_ports.items
unfolding heap_push
two_items = omega arith

pop-IsPop_example : IsPop tenths two_ports (pop tenths two_ports)
pop-IsPop_example = pop-IsPop tenths two_ports two_ports-IsQueue two_items

boost_correlated-Boosts_example :
    Boosts tenths
      (raise_all tenths
        (correlated tenths (get_correlations tenths web (pos 80)))
        (priority_of tenths two_ports))
      two_ports
      (boost_correlated tenths (pos 80) web two_ports)
boost_correlated-Boosts_example =
    boost_correlated-Boosts tenths (pos 80) web two_ports two_ports-IsQueue

abbrev three : List Port
three = bare tcp (pos 22) ∷ bare tcp (pos 80) ∷ bare tcp (pos 443) ∷ []

three-IsDistinct : IsDistinct three
three-IsDistinct =
    (((λ h. ground arith), ((λ h. ground arith), tt)), (((λ h. ground arith), tt), (tt, tt)))
