-- ===== src/Scan/Icmp.antt =====
-- pkg/scan/icmp.go: the bodies of the timestamp and of the address mask messages. Bytes are numbers
-- below 256; `byte(x >> 8)` and `byte(x)` of an `int` depend on its lowest 16 bits only.
mod Tests
pub mod Marshalled
use naabu.Prelude.{
  ℕ, ◌+◌, ◌*◌, ◌/◌, ◌%◌, ◌^◌, ◌≡◌, List, [], ◌∷◌, ◌++◌, Option, none, some, if◌then◌else◌, ◌==◌,
  length, get_elem?,
}
use naabu.Prelude.Int.{ℤ, pos, to_uint16}

pub record Timestamp : Type 0 where
  pub id : ℤ
  pub seq : ℤ
  pub origin_timestamp : ℕ
  pub receive_timestamp : ℕ
  pub transmit_timestamp : ℕ

abbrev pub marshalled_timestamp_len : ℕ
marshalled_timestamp_len = 16

-- `byte(x >> bits)` of an `int`, for at most 8 bits.
abbrev pub byte_of : ℤ → ℕ → ℕ
byte_of x bits = to_uint16 x / 2 ^ bits % 256

-- The closure `unparseInt`: the four bytes of an `uint32`, with the highest first.
abbrev pub unparse_int : ℕ → List ℕ
unparse_int i = i / 2 ^ 24 % 256 ∷ i / 2 ^ 16 % 256 ∷ i / 2 ^ 8 % 256 ∷ i % 256 ∷ []

unfoldable pub marshal_timestamp : Timestamp → List ℕ
unfolding to_uint16
marshal_timestamp t =
    let b_size = marshalled_timestamp_len / 2 in
    byte_of t.id b_size
    ∷ byte_of t.id 0
    ∷ byte_of t.seq b_size
    ∷ byte_of t.seq 0
    ∷ (unparse_int t.origin_timestamp
        ++ unparse_int t.receive_timestamp
        ++ unparse_int t.transmit_timestamp)

-- `b[i]`; the length is checked before.
abbrev pub byte_at : List ℕ → ℕ → ℕ
byte_at b i = elim (get_elem? b i) [ none ↦ 0 | some n ↦ n ]

-- The shifted bytes have no bit in common, so their `|` is a sum.
abbrev pub parse_int : List ℕ → ℕ → ℕ
parse_int b start =
    byte_at b start * 2 ^ 24
    + byte_at b (start + 1) * 2 ^ 16
    + byte_at b (start + 2) * 2 ^ 8
    + byte_at b (start + 3)

-- An error is `none`.
unfoldable pub parse_timestamp : List ℕ → Option Timestamp
parse_timestamp b =
    if length b == marshalled_timestamp_len
    then some (record {
      id = pos (byte_at b 0 * 2 ^ 8 + byte_at b 1);
      seq = pos (byte_at b 2 * 2 ^ 8 + byte_at b 3);
      origin_timestamp = parse_int b 4;
      receive_timestamp = parse_int b 8;
      transmit_timestamp = parse_int b 12;
    })
    else none

pub record AddressMask : Type 0 where
  pub id : ℤ
  pub seq : ℤ
  pub address_mask : ℕ

abbrev pub marshalled_address_mask_len : ℕ
marshalled_address_mask_len = 8

unfoldable pub marshal_address_mask : AddressMask → List ℕ
unfolding to_uint16
marshal_address_mask a =
    let b_size = marshalled_address_mask_len / 2 in
    byte_of a.id b_size
    ∷ byte_of a.id 0
    ∷ byte_of a.seq b_size
    ∷ byte_of a.seq 0
    ∷ unparse_int a.address_mask
