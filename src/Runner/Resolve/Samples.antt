-- ===== src/Runner/Resolve/Samples.antt =====
-- A network for runs: addresses are the texts that begin with a digit, `host` has two of them, and the
-- address 10.0.0.2 is excluded. The DNS client knows `host` only.
use naabu.Prelude.{
  Bool, true, false, not, ◌&&◌, [], ◌∷◌, none, some, if◌then◌else◌, ◌=?◌, elem, leb,
}
use naabu.Prelude.Text.{Text, codes, text_eq}
use naabu.Runner.Resolve.{Answer, Network, ip4}

abbrev pub starts_digit : Text → Bool
starts_digit [] = false
starts_digit (c ∷ s) = leb b'0' c && leb c b'9'

abbrev pub dns : Text → Answer
dns name =
    if name =? codes "host"
    then record { dns_data = some (codes "10.0.0.2" ∷ codes "10.0.0.1" ∷ [], []); failed = false }
    else record { dns_data = none; failed = true }

abbrev pub network : Network
network = record {
  is_ip = starts_digit;
  is_ipv4 = starts_digit;
  is_ipv6 = λ s. false;
  is_port = starts_digit;
  contains = λ vs v. elem v vs;
  dnsclient = some dns;
  dnsclient_proxy = none;
  lookup_ip_addr = λ s. some (ip4 (codes "10.0.0.9") ∷ []);
  validate_address = λ s. not (s =? codes "10.0.0.2");
  exchange = λ s. none;
  is_privileged = false;
}
