-- ===== src/Runner/FastSend/Sender.antt =====
-- pkg/runner/fastsend.go: `SYNSender`, which builds a TCP SYN segment by patching a template.
pub mod Checksum
use naabu.Prelude.{
  ℕ, zero, suc, ◌+◌, ◌-◌, ◌*◌, ◌/◌, ◌%◌, ◌^◌, ◌≡◌, refl, Bool, true, false, ◌&&◌, List, [], ◌∷◌,
  Option, none, some, Outcome, ok, err, if◌then◌else◌, set, replicate,
}
use naabu.Net.Cidr.{Ip, v4, v6}
use naabu.Runner.FastSend.Ipv4.{Ipv4}

abbrev pub Packet : Type 0
Packet = List ℕ

-- `binary.BigEndian.PutUint16(pkt[i:i+2], v)` and `PutUint32`
abbrev pub put_uint16 : Packet → ℕ → ℕ → Packet
put_uint16 pkt i v = set (set pkt i (v / 2 ^ 8 % 256)) (i + 1) (v % 256)

abbrev pub put_uint32 : Packet → ℕ → ℕ → Packet
put_uint32 pkt i v =
    set
      (set (set (set pkt i (v / 2 ^ 24 % 256)) (i + 1) (v / 2 ^ 16 % 256)) (i + 2)
        (v / 2 ^ 8 % 256))
      (i + 3) (v % 256)

-- The sender without its socket and batch.
pub record SynSender : Type 0 where
  pub src_port : ℕ
  pub base_sum : ℕ
  pub seq : ℕ
  pub pkt : Packet

pub data SenderError : Type 0 where
  no_raw_conn : SenderError
  ethernet_path : SenderError
  no_source_ip : SenderError
  route_lookup_failed : SenderError
  raw_socket : SenderError

-- What `newSYNSender` reads of a `scan.ListenHandler`: whether there is a raw IPv4 connection, the
-- source address, whether a source hardware address is set, and the port.
pub record Handler : Type 0 where
  pub tcp_conn4 : Bool
  pub source_ip4 : Option Ip
  pub source_hw : Bool
  pub port : ℕ

abbrev is_some {ℓ} : {A : Type ℓ} → Option A → Bool
is_some none = false
is_some (some a) = true

-- The address that the packets carry: the handler's, or that of the route to 1.1.1.1. `route` is
-- `scan.PkgRouter`, if there is one: `none` in it is an error, `some none` a route without address.
unfoldable pub source_ip : Handler → Option (Option (Option Ip)) → Outcome SenderError (Option Ip)
source_ip handler route = elim handler.source_ip4 [
  | some ip ↦ ok (some ip)
  | none ↦ elim route [
    | none ↦ ok none
    | some none ↦ err route_lookup_failed
    | some (some ip) ↦ ok ip
  ]
]

unfoldable pub template : ℕ → Packet
template src_port =
    let pkt = put_uint16 (replicate 24 0) 0 src_port in
    let pkt = set (set pkt 12 0x60) 13 0x02 in
    let pkt = put_uint16 pkt 14 1024 in put_uint16 (set (set pkt 20 2) 21 4) 22 1460

-- The halves of the source address, the rest of the pseudo-header and the fixed fields.
pub base_sum_of : ℕ → ℕ → ℕ
base_sum_of src4 src_port =
    (src4 / 2 ^ 16 + src4 % 2 ^ 16 + 6 + 24 + src_port + 0x6002 + 0x0400 + 0x0204 + 0x05B4) % 2 ^ 32

-- A sender for the address `src4`. `raw_ok` tells whether `rawsend.NewFromIPConn` succeeds.
build_sender : Handler → Bool → Option Ip → Outcome SenderError SynSender
unfolding template base_sum_of
build_sender handler raw_ok (some (v4 src4)) =
    let port = handler.port % 2 ^ 16 in
    if raw_ok
    then ok
        (record { src_port = port; base_sum = base_sum_of src4 port; seq = 0; pkt = template port })
    else err raw_socket
build_sender handler raw_ok _ = err no_source_ip

connect : Handler → Bool → Outcome SenderError (Option Ip) → Outcome SenderError SynSender
unfolding build_sender
connect handler raw_ok (err e) = err e
connect handler raw_ok (ok src) = build_sender handler raw_ok src

-- `newSYNSender`; a nil handler is `none`.
unfoldable pub new_syn_sender :
    Option Handler → Option (Option (Option Ip)) → Bool → Outcome SenderError SynSender
unfolding source_ip connect
new_syn_sender none route raw_ok = err no_raw_conn
new_syn_sender (some handler) route raw_ok =
    if handler.tcp_conn4
    then if is_some handler.source_ip4 && handler.source_hw
      then err ethernet_path
      else connect handler raw_ok (source_ip handler route)
    else err no_raw_conn

-- The two folds of a sum of 32 bits, and the complement of its low half.
unfoldable pub fold_sum : ℕ → ℕ
fold_sum sum =
    let once = (sum / 2 ^ 16 + sum % 2 ^ 16) % 2 ^ 32 in
    let twice = (once + once / 2 ^ 16) % 2 ^ 32 in 2 ^ 16 - 1 - twice % 2 ^ 16

-- `send`: the segment that goes out to `dst_ip`, and the sender afterwards.
unfoldable pub send : SynSender → Ipv4 → ℕ → Packet × SynSender
unfolding fold_sum
send s dst_ip dst_port =
    let seq = (s.seq + 1) % 2 ^ 32 in
    let pkt = put_uint32 (put_uint16 s.pkt 2 dst_port) 4 seq in
    let sum =
      (s.base_sum
        + (dst_ip.a * 256 + dst_ip.b)
        + (dst_ip.c * 256 + dst_ip.d)
        + dst_port
        + seq / 2 ^ 16
        + seq % 2 ^ 16)
      % 2 ^ 32 in
    let out = put_uint16 pkt 16 (fold_sum sum) in (out, record s { seq = seq; pkt = out })
