-- ===== src/Runner/PopularityRank.antt =====
-- pkg/runner/smartscan.go: the ranks of the ports by the list of the 1000 most common ones.
use naabu.Prelude.{ℕ, zero, suc, ◌+◌, List, [], ◌∷◌, Option, none, some, if◌then◌else◌, insert}
use naabu.Prelude.Int.{ℤ, pos, int_eq, ◌+ℤ◌}
use naabu.Prelude.Text.{Text, contains, split, trim_space}
use naabu.Prelude.Decimal.{atoi}
use naabu.Runner.Ports.{nmap_top_1000, rounds}

-- The ranks of the ports `p`, `p + 1`, …, and the next rank.
rank_from : ℤ → ℕ → List (ℤ × ℕ) × ℕ → List (ℤ × ℕ) × ℕ
unfolding insert ◌+ℤ◌
rank_from p zero ranked = ranked
rank_from p (suc n) (rank, idx) = rank_from (p +ℤ pos 1) n (insert p idx rank, idx + 1)

rank_range : Option ℤ → Option ℤ → List (ℤ × ℕ) × ℕ → List (ℤ × ℕ) × ℕ
unfolding rank_from
rank_range (some start) (some end) ranked = rank_from start (rounds start end) ranked
rank_range _ _ ranked = ranked

-- A segment with a hyphen has two parts.
rank_parts : List Text → List (ℤ × ℕ) × ℕ → List (ℤ × ℕ) × ℕ
unfolding rank_range atoi
rank_parts (start ∷ end ∷ _) ranked = rank_range (atoi start) (atoi end) ranked
rank_parts _ ranked = ranked

rank_single : Option ℤ → List (ℤ × ℕ) × ℕ → List (ℤ × ℕ) × ℕ
unfolding insert
rank_single none ranked = ranked
rank_single (some p) (rank, idx) = (insert p idx rank, idx + 1)

rank_segment : Text → List (ℤ × ℕ) × ℕ → List (ℤ × ℕ) × ℕ
unfolding rank_parts rank_single contains split trim_space atoi
rank_segment segment ranked =
    let s = trim_space segment in
    if contains b'-' s then rank_parts (split b'-' s) ranked else rank_single (atoi s) ranked

rank_segments : List Text → List (ℤ × ℕ) × ℕ → List (ℤ × ℕ) × ℕ
unfolding rank_segment
rank_segments [] ranked = ranked
rank_segments (s ∷ segments) ranked = rank_segments segments (rank_segment s ranked)

unfoldable pub build_popularity_rank : List (ℤ × ℕ)
unfolding rank_segments split nmap_top_1000
build_popularity_rank = (rank_segments (split b',' nmap_top_1000) ([], 1)).0
