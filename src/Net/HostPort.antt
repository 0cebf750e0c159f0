-- ===== src/Net/HostPort.antt =====
-- `net.SplitHostPort` and `net.JoinHostPort` of Go, as the program calls them.
use naabu.Prelude.{ℕ, not, ◌&&◌, ◌||◌, [], ◌∷◌, ◌++◌, Option, none, some, if◌then◌else◌, ◌==◌}
use naabu.Prelude.Text.{Text, contains}
use naabu.Prelude.Search.{split_first}

-- The parts around the last `c`.
unfoldable pub split_last : ℕ → Text → Option (Text × Text)
split_last c [] = none
split_last c (d ∷ s) = elim (split_last c s) [
  | none ↦ if d == c then some ([], s) else none
  | some (a, b) ↦ some (d ∷ a, b)
]

-- What stands behind a bracket: the port, behind the last colon.
unfoldable pub behind_bracket : Text → Text → Option (Text × Text)
behind_bracket host [] = none
behind_bracket host (c ∷ port) =
    if (c == b':')
      && not (contains b':' port)
      && not (contains b'[' host)
      && not (contains b'[' port)
      && not (contains b']' port)
    then some (host, port)
    else none

unfoldable pub plain : Option (Text × Text) → Option (Text × Text)
plain none = none
plain (some (host, port)) =
    if contains b':' host
      || contains b'[' host
      || contains b'[' port
      || contains b']' host
      || contains b']' port
    then none
    else some (host, port)

-- An error is `none`.
unfoldable pub split_host_port : Text → Option (Text × Text)
unfolding split_first split_last behind_bracket plain contains
split_host_port [] = none
split_host_port (c ∷ s) =
    if c == b'['
    then elim (split_first b']' s) [ none ↦ none | some (host, rest) ↦ behind_bracket host rest ]
    else plain (split_last b':' (c ∷ s))

-- `JoinHostPort` brackets a host with a colon in it.
unfoldable pub join_host_port : Text → Text → Text
unfolding contains
join_host_port host port =
    if contains b':' host then b'[' ∷ (host ++ b']' ∷ b':' ∷ port) else host ++ b':' ∷ port
