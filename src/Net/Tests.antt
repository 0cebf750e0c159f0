-- ===== src/Net/Tests.antt =====
-- Runs of the protocol's names.
use naabu.Prelude.{◌≡◌, some}
use naabu.Net.Protocol.{
  tcp, string, parse_protocol, marshal_json, unmarshal_json, parse_protocol-string,
}

parse_protocol-string_example :
    (parse_protocol (string tcp) ≡ some tcp) × (unmarshal_json (marshal_json tcp) ≡ some tcp)
parse_protocol-string_example = parse_protocol-string tcp
