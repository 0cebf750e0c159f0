-- ===== src/Target/Tests.antt =====
-- Targets that are parsed.
use naabu.Prelude.{◌≡◌, Bool, List, [], ◌∷◌, Option, none, ok, arith}
use naabu.Prelude.Int.{pos}
use naabu.Prelude.Text.{Text, codes, contains, Lacks-contains, is_space}
use naabu.Prelude.Decimal.{print}
use naabu.Net.HostPort.{join_host_port}
use naabu.Target.{Url, plain, parse, parse_all}
use naabu.Target.Parsed.{parse-join_host_port, IsParsed, parse_all-IsParsed}

-- A parser of blocks that looks for the slash only, and one of URLs that knows none.
abbrev slashed : Text → Bool
slashed = contains b'/'

abbrev no_url : Text → Option Url
no_url text = none

parse-join_host_port_example :
    parse slashed no_url (join_host_port (codes "2001:db8::1") (print 443))
    ≡ ok (record (plain (join_host_port (codes "2001:db8::1") (print 443)) (codes "2001:db8::1")) {
      port = pos 443;
    })
parse-join_host_port_example =
    parse-join_host_port slashed no_url (λ s h. Lacks-contains b'/' s h) (codes "2001:db8::1") 443
      (unfold is_space in ground arith) (omega arith) (omega arith) (omega arith)

abbrev three : List Text
three = codes "a:80" ∷ codes "" ∷ codes "a:80" ∷ []

parse_all-IsParsed_example :
    IsParsed slashed no_url three
      ((parse_all slashed no_url three).0)
      ((parse_all slashed no_url three).1)
parse_all-IsParsed_example = parse_all-IsParsed slashed no_url three
