-- ===== src/Runner/FastSend/Samples.antt =====
-- Sample values: targets, an address and a sender.
use naabu.Prelude.{◌-◌, ◌^◌, refl, none, some, arith}
use naabu.Net.Cidr.{v4, v6, IpNet, Mapcidr}
use naabu.Runner.FastSend.Ipv4.{Ipv4, ipv4, IsBytes}
use naabu.Runner.FastSend.Index.{IsTarget}
use naabu.Runner.FastSend.Sender.{SynSender, template, base_sum_of}
use naabu.Runner.FastSend.Sender.Checksum.{IsReady}

abbrev pub private_ip : Ipv4
private_ip = ipv4 192 168 0 7

pub private_ip-IsBytes : IsBytes private_ip
private_ip-IsBytes = record { a = omega arith; b = omega arith; c = omega arith; d = omega arith }

-- The package for IPv4 blocks of 32 - `ones` bits. It takes every number for an IPv4 address.
abbrev pub blocks : Mapcidr
blocks = record {
  address_count = λ n. 2 ^ (32 - n.ones);
  ip_to_integer = λ ip. elim ip [ v4 n ↦ some (n, 32) | v6 n ↦ none ];
  integer_to_ip = λ n bits. v4 n;
  ip_to_integer_v4 = λ n. refl;
  integer_to_ip_v4 = λ n h. refl;
}

-- 10.0.0.0/30 and 10.1.0.0/31
abbrev pub four : IpNet
four = record { ip = v4 167772160; ones = 30 }

abbrev pub two : IpNet
two = record { ip = v4 167837696; ones = 31 }

pub four-IsTarget : IsTarget blocks four
four-IsTarget = record {
  some_address = omega arith;
  counted = omega arith;
  fits = λ base e. ground arith;
}

pub two-IsTarget : IsTarget blocks two
two-IsTarget = record {
  some_address = omega arith;
  counted = omega arith;
  fits = λ base e. ground arith;
}

abbrev pub new_sender : SynSender
new_sender = record {
  src_port = 40000;
  base_sum = base_sum_of 3232235527 40000;
  seq = 0;
  pkt = template 40000;
}

pub new_sender-IsReady : IsReady 3232235527 new_sender
unfolding template
new_sender-IsReady = record {
  src_bound = omega arith;
  port_bound = omega arith;
  base = refl;
  fields = (0, 0, 0, refl);
}
