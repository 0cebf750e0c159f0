-- ===== src/Scan/Ping/Tests.antt =====
-- Pings of three hosts.
use naabu.Prelude.{◌↔◌, ◌≡◌, refl, true, false, List, [], ◌∷◌, none, some, All, arith}
use naabu.Prelude.Text.{codes}
use naabu.Scan.Ping.{
  Ping, faster, fastest_from, get_fastest_host, IsAnswer, IsFastest, get_fastest_host-exact,
}

abbrev pings : List Ping
pings =
    record { active = true; latency = 9; host = codes "10.0.0.1" }
    ∷ record { active = false; latency = 0; host = codes "10.0.0.2" }
    ∷ record { active = true; latency = 4; host = codes "10.0.0.3" }
    ∷ []

get_fastest_host-exact_example :
    ((p : Ping)
      → get_fastest_host pings ≡ some p
      → (p.active ≡ true) × IsAnswer p pings × IsFastest p pings)
    × (get_fastest_host pings ≡ none ↔ All (λ h. h.active ≡ false) pings)
get_fastest_host-exact_example =
    get_fastest_host-exact pings (λ a. omega arith, (λ a. cc, (λ a. omega arith, tt)))

third :
    get_fastest_host pings ≡ some (record { active = true; latency = 4; host = codes "10.0.0.3" })
unfolding get_fastest_host fastest_from faster
third = refl
