-- ===== src/Scan/Icmp/Marshalled.antt =====
-- What a receiver reads from the bodies.
use naabu.Prelude.{ℕ, ◌+◌, ◌*◌, ◌/◌, ◌%◌, ◌^◌, ◌<◌, ◌≡◌, ◌↔◌, refl, some, arith}
use naabu.Prelude.Int.{ℤ, pos, to_uint16}
use naabu.Scan.Icmp.{Timestamp, marshal_timestamp, parse_timestamp, byte_at, marshal_address_mask}

-- The value of four bytes.
joined :
    (n : ℕ)
    → n < 2 ^ 32
    → n / 2 ^ 24 % 256 * 2 ^ 24 + n / 2 ^ 16 % 256 * 2 ^ 16 + n / 2 ^ 8 % 256 * 2 ^ 8 + n % 256 ≡ n
joined n h = omega arith

-- The value of two bytes.
joined_16 : (n : ℕ) → n < 2 ^ 16 → n % 2 ^ 16 / 2 ^ 8 % 256 * 2 ^ 8 + n % 2 ^ 16 / 2 ^ 0 % 256 ≡ n
joined_16 n h = omega arith

-- A timestamp whose identifier and sequence number have 16 bits and whose times have 32 is read back
-- from its 16 bytes.
pub parse_timestamp-marshal_timestamp :
    (id seq origin receive transmit : ℕ)
    → id < 2 ^ 16
    → seq < 2 ^ 16
    → origin < 2 ^ 32
    → receive < 2 ^ 32
    → transmit < 2 ^ 32
    → let t : Timestamp = record {
      id = pos id;
      seq = pos seq;
      origin_timestamp = origin;
      receive_timestamp = receive;
      transmit_timestamp = transmit;
    } in
      parse_timestamp (marshal_timestamp t) ≡ some t
unfolding parse_timestamp marshal_timestamp to_uint16
parse_timestamp-marshal_timestamp id seq origin receive transmit h k o r t =
    rw (joined_16 id h, joined_16 seq k, joined origin o, joined receive r, joined transmit t) refl

-- A receiver reads the identifier of an address mask request as it was given exactly if its bits 4 to
-- 11 are its bits 8 to 15: the first byte is shifted by 4 bits.
pub marshal_address_mask-id :
    (id : ℕ) (seq : ℤ) (mask : ℕ)
    → id < 2 ^ 16
    → let b = marshal_address_mask (record { id = pos id; seq = seq; address_mask = mask }) in
      (byte_at b 0 * 2 ^ 8 + byte_at b 1 ≡ id) ↔ (id / 2 ^ 4 % 256 ≡ id / 2 ^ 8)
unfolding marshal_address_mask to_uint16
marshal_address_mask-id id seq mask h = (λ e. omega arith, λ e. omega arith)
