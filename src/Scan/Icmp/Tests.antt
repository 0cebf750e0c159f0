-- ===== src/Scan/Icmp/Tests.antt =====
-- Runs of the messages.
use naabu.Prelude.{◌+◌, ◌*◌, ◌/◌, ◌%◌, ◌^◌, ◌≡◌, ◌↔◌, refl, [], ◌∷◌, arith}
use naabu.Prelude.Int.{pos}
use naabu.Scan.Icmp.{Timestamp, byte_at, marshal_address_mask}
use naabu.Scan.Icmp.Marshalled.{marshal_address_mask-id}

-- The identifier 0x1234 is sent as 0x2334.
wrong_id :
    marshal_address_mask (record { id = pos 0x1234; seq = pos 0; address_mask = 0 })
    ≡ 0x23 ∷ 0x34 ∷ 0 ∷ 0 ∷ 0 ∷ 0 ∷ 0 ∷ 0 ∷ []
unfolding marshal_address_mask
wrong_id = refl

abbrev noon : Timestamp
noon = record {
  id = pos 0x1234;
  seq = pos 1;
  origin_timestamp = 43200000;
  receive_timestamp = 0;
  transmit_timestamp = 0;
}

marshal_address_mask-id_example :
    (byte_at (marshal_address_mask (record { id = pos 0x1234; seq = pos 0; address_mask = 0 })) 0
          * 2 ^ 8
        + byte_at
            (marshal_address_mask (record { id = pos 0x1234; seq = pos 0; address_mask = 0 }))
            1
      ≡ 0x1234)
    ↔ (0x1234 / 2 ^ 4 % 256 ≡ 0x1234 / 2 ^ 8)
marshal_address_mask-id_example = marshal_address_mask-id 0x1234 (pos 0) 0 (omega arith)
