-- ===== src/Results/Tests.antt =====
-- Runs of the result store.
use naabu.Prelude.{◌≡◌, refl, [], ◌∷◌}
use naabu.Prelude.Int.{pos, int_eq}
use naabu.Prelude.Text.{Text, codes, text_eq}
use naabu.Net.Protocol.{tcp}
use naabu.Net.Port.{Port}
use naabu.Runner.Ports.{bare}
use naabu.Results.{Result, new_result, add_port, set_ports, get_port_count}
use naabu.Results.Reached.{at_start, by_add_port, IsResult, Reached-IsResult}

abbrev host : Text
host = codes "10.0.0.1"

abbrev web : Port
web = bare tcp (pos 80)

abbrev ssh : Port
ssh = bare tcp (pos 22)

abbrev one_port : Result
one_port = add_port host web new_result

Reached-IsResult_example : IsResult one_port
Reached-IsResult_example = Reached-IsResult one_port (by_add_port host web at_start)

counted : get_port_count host (set_ports host (ssh ∷ web ∷ ssh ∷ []) one_port) ≡ 2
unfolding get_port_count set_ports add_port
counted = refl
