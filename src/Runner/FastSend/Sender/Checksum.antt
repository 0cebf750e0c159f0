-- ===== src/Runner/FastSend/Sender/Checksum.antt =====
-- The segments of `SYNSender.send` carry the checksum of RFC 9293 (RFC 1071).
use naabu.Prelude.{
  ℕ, ◌+◌, ◌-◌, ◌*◌, ◌/◌, ◌%◌, ◌^◌, ◌<◌, ◌≡◌, refl, ap, ◌∙◌, Bool, true, false, List, [], ◌∷◌, ◌++◌,
  Option, none, some, Outcome, ok, err, ok-injective, arith, if◌then◌else◌, ltb, All,
}
use mathlib.Core.Path.{subst}
use naabu.Net.Cidr.{Ip, v4, v6}
use naabu.Runner.FastSend.Ipv4.{Ipv4, IsBytes}
use naabu.Runner.FastSend.Sender.{
  Packet, SynSender, Handler, put_uint16, put_uint32, SenderError, connect, build_sender, source_ip,
  template, base_sum_of, fold_sum, new_syn_sender, send,
}

-- Addition with end-around carry.
abbrev pub ones_add : ℕ → ℕ → ℕ
ones_add a b = if ltb (a + b) 65536 then a + b else a + b - 65535

-- The ones' complement sum of 16-bit words, and the words of bytes in pairs.
pub ones_sum : List ℕ → ℕ
ones_sum [] = 0
ones_sum (w ∷ ws) = ones_add w (ones_sum ws)

pub words : Packet → List ℕ
words [] = []
words (a ∷ []) = a * 256 ∷ []
words (a ∷ b ∷ r) = (a * 256 + b) ∷ words r

-- The pseudo-header of a segment of `n` bytes between two addresses.
pub pseudo_header : ℕ → Ipv4 → ℕ → List ℕ
pseudo_header src4 dst n =
    (src4 / 2 ^ 16) ∷ (src4 % 2 ^ 16) ∷ (dst.a * 256 + dst.b) ∷ (dst.c * 256 + dst.d) ∷ 6 ∷ n ∷ []

-- The receiver's test.
abbrev pub Verifies : ℕ → Ipv4 → Packet → Type 0
Verifies src4 dst pkt = ones_sum (pseudo_header src4 dst 24 ++ words pkt) ≡ 65535

plain_sum : List ℕ → ℕ
plain_sum [] = 0
plain_sum (w ∷ ws) = w + plain_sum ws

ones_sum-mod :
    (ws : List ℕ)
    → All (λ w. w < 65536) ws
    → (ones_sum ws % 65535 ≡ plain_sum ws % 65535) × (ones_sum ws < 65536)
unfolding ones_sum plain_sum
ones_sum-mod [] h = (omega arith, omega arith)
ones_sum-mod (w ∷ ws) (h, hs) =
    let (same, bound) = ones_sum-mod ws hs in (ground arith, ground arith)

ones_sum-pos : (ws : List ℕ) → All (λ w. w < 65536) ws → 0 < plain_sum ws → 0 < ones_sum ws
unfolding ones_sum plain_sum
ones_sum-pos [] h p = absurd (omega arith)
ones_sum-pos (w ∷ ws) (h, hs) p = ground (arith, ones_sum-pos ws hs, ones_sum-mod ws hs)

-- A positive sum that 65535 divides is 65535 in ones' complement.
ones_sum_full :
    (ws : List ℕ)
    → All (λ w. w < 65536) ws
    → 0 < plain_sum ws
    → plain_sum ws % 65535 ≡ 0
    → ones_sum ws ≡ 65535
ones_sum_full ws h p m = omega (arith, ones_sum-mod ws h, ones_sum-pos ws h p)

fold_sum_lem :
    (sum : ℕ) → sum < 2 ^ 32 → ((sum + fold_sum sum) % 65535 ≡ 0) × (fold_sum sum < 65536)
unfolding fold_sum
fold_sum_lem sum h = omega arith

-- The segment as a list of its fields.
abbrev pub segment : ℕ → ℕ → ℕ → ℕ → Packet
segment src_port dst_port seq sum =
    (src_port / 2 ^ 8 % 256)
    ∷ (src_port % 256)
    ∷ (dst_port / 2 ^ 8 % 256)
    ∷ (dst_port % 256)
    ∷ (seq / 2 ^ 24 % 256)
    ∷ (seq / 2 ^ 16 % 256)
    ∷ (seq / 2 ^ 8 % 256)
    ∷ (seq % 256)
    ∷ 0
    ∷ 0
    ∷ 0
    ∷ 0
    ∷ 0x60
    ∷ 0x02
    ∷ 4
    ∷ 0
    ∷ (sum / 2 ^ 8 % 256)
    ∷ (sum % 256)
    ∷ 0
    ∷ 0
    ∷ 2
    ∷ 4
    ∷ 5
    ∷ 0xb4
    ∷ []

-- A sender for `src4`: its packet has the fixed fields, whatever was sent before.
pub record IsReady (src4 : ℕ) (s : SynSender) : Type 0 where
  pub src_bound : src4 < 2 ^ 32
  pub port_bound : s.src_port < 2 ^ 16
  pub base : s.base_sum ≡ base_sum_of src4 s.src_port
  pub fields : (dst : ℕ) × (seq : ℕ) × (sum : ℕ) × (s.pkt ≡ segment s.src_port dst seq sum)

-- What `send` sums up, without the conversions to 32 bits.
abbrev unfolded_sum : ℕ → ℕ → ℕ → ℕ → ℕ → ℕ → ℕ → ℕ → ℕ
unfolded_sum src4 port a b c d dst_port seq =
    src4 / 2 ^ 16
    + src4 % 2 ^ 16
    + 27608
    + port
    + (a * 256 + b)
    + (c * 256 + d)
    + dst_port
    + seq / 2 ^ 16
    + seq % 2 ^ 16

patched :
    (port d0 q0 c0 d q c : ℕ)
    → put_uint16 (put_uint32 (put_uint16 (segment port d0 q0 c0) 2 d) 4 q) 16 c ≡ segment port d q c
patched port d0 q0 c0 d q c = refl

module _ (src4 : ℕ) (s : SynSender) (dst : Ipv4) (dst_port : ℕ) where
  abbrev next_seq : ℕ
  next_seq = (s.seq + 1) % 2 ^ 32

  abbrev sent_sum : ℕ
  sent_sum = unfolded_sum src4 s.src_port dst.a dst.b dst.c dst.d dst_port next_seq

  module _ (r : IsReady src4 s) (bytes : IsBytes dst) (h : dst_port < 2 ^ 16) where
    -- The segment that goes out is the template with the destination's port, the next sequence
    -- number and the checksum.
    send-segment :
        (send s dst dst_port).0 ≡ segment s.src_port dst_port next_seq (fold_sum sent_sum)
    unfolding send
    send-segment =
        let (d0, q0, c0, template) = r.fields in
        rw (r.base, template)
          (patched s.src_port d0 q0 c0 dst_port next_seq _
            ∙ ap (λ (n : ℕ). segment s.src_port dst_port next_seq (fold_sum n)) sums)
      where
        sums :
            (base_sum_of src4 s.src_port
                + (dst.a * 256 + dst.b)
                + (dst.c * 256 + dst.d)
                + dst_port
                + next_seq / 2 ^ 16
                + next_seq % 2 ^ 16)
              % 2 ^ 32
            ≡ sent_sum
        sums =
            unfold base_sum_of in
            omega (arith, r.src_bound, r.port_bound, bytes.a, bytes.b, bytes.c, bytes.d)

    segment_sum :
        (q c : ℕ)
        → q < 2 ^ 32
        → c < 2 ^ 16
        → plain_sum (pseudo_header src4 dst 24 ++ words (segment s.src_port dst_port q c))
          ≡ unfolded_sum src4 s.src_port dst.a dst.b dst.c dst.d dst_port q + c
    unfolding pseudo_header words plain_sum
    segment_sum q c hq hc =
        let port : s.src_port / 256 % 256 * 256 + s.src_port % 256 ≡ s.src_port =
          omega (arith, r.port_bound) in
        let to_port : dst_port / 256 % 256 * 256 + dst_port % 256 ≡ dst_port = omega arith in
        let high : q / 16777216 % 256 * 256 + q / 65536 % 256 ≡ q / 65536 = omega arith in
        let low : q / 256 % 256 * 256 + q % 256 ≡ q % 65536 = omega arith in
        let check : c / 256 % 256 * 256 + c % 256 ≡ c = omega arith in
        omega (arith, port, to_port, high, low, check)

    segment-Verifies :
        (q c : ℕ)
        → q < 2 ^ 32
        → c < 2 ^ 16
        → (unfolded_sum src4 s.src_port dst.a dst.b dst.c dst.d dst_port q + c) % 65535 ≡ 0
        → Verifies src4 dst (segment s.src_port dst_port q c)
    unfolding pseudo_header words
    segment-Verifies q c hq hc m =
        ones_sum_full _ (omega (arith, r.src_bound, bytes.a, bytes.b, bytes.c, bytes.d))
          (omega (arith, segment_sum q c hq hc))
          (ap (λ (n : ℕ). n % 65535) (segment_sum q c hq hc) ∙ m)

    sent_bound : sent_sum < 2 ^ 32
    sent_bound = omega (arith, r.src_bound, r.port_bound, bytes.a, bytes.b, bytes.c, bytes.d)

    send-IsReady : IsReady src4 (send s dst dst_port).1
    send-IsReady = record {
      src_bound = r.src_bound;
      port_bound = unfold send in r.port_bound;
      base = unfold send in r.base;
      fields = (dst_port, next_seq, fold_sum sent_sum, unfold send in send-segment);
    }

    -- Whatever a ready sender sent before, the segment has the fields of a SYN packet with the next
    -- sequence number, it passes the receiver's checksum test, and the sender is ready for the next one.
    pub send-Verifies :
        ((c : ℕ) × ((send s dst dst_port).0 ≡ segment s.src_port dst_port ((s.seq + 1) % 2 ^ 32) c))
        × Verifies src4 dst (send s dst dst_port).0
        × IsReady src4 (send s dst dst_port).1
    send-Verifies = (
      (fold_sum sent_sum, send-segment),
      rw send-segment (
          segment-Verifies next_seq (fold_sum sent_sum) (omega arith)
            (fold_sum_lem sent_sum sent_bound).1 (fold_sum_lem sent_sum sent_bound).0),
      send-IsReady,
    )

template-segment : (port : ℕ) → template port ≡ segment port 0 0 0
unfolding template
template-segment port = refl

build_sender-IsReady :
    (handler : Handler) (raw_ok : Bool) (src4 : ℕ) (s : SynSender)
    → src4 < 2 ^ 32
    → build_sender handler raw_ok (some (v4 src4)) ≡ ok s
    → IsReady src4 s
unfolding build_sender
build_sender-IsReady handler false src4 s h e = cc
build_sender-IsReady handler true src4 s h e = subst (IsReady src4) (ok-injective e) (record {
  src_bound = h;
  port_bound = omega arith;
  base = refl;
  fields = (0, 0, 0, template-segment (handler.port % 2 ^ 16));
})

connect-IsReady :
    (handler : Handler) (raw_ok : Bool) (src : Outcome SenderError (Option Ip)) (s : SynSender)
    → connect handler raw_ok src ≡ ok s
    → (src4 : ℕ) × (src ≡ ok (some (v4 src4))) × (src4 < 2 ^ 32 → IsReady src4 s)
unfolding connect
connect-IsReady handler raw_ok (err x) s e = cc
connect-IsReady handler raw_ok (ok none) s e = cc
connect-IsReady handler raw_ok (ok (some (v6 n))) s e = cc
connect-IsReady handler raw_ok (ok (some (v4 n))) s e =
    (n, refl, λ h. build_sender-IsReady handler raw_ok n s h e)

-- A new sender is ready to send from the IPv4 address that it found, which has 32 bits.
pub new_syn_sender-IsReady :
    (handler : Handler) (route : Option (Option (Option Ip))) (raw_ok : Bool) {s : SynSender}
    → ((n : ℕ) → source_ip handler route ≡ ok (some (v4 n)) → n < 2 ^ 32)
    → new_syn_sender (some handler) route raw_ok ≡ ok s
    → (src4 : ℕ) × (source_ip handler route ≡ ok (some (v4 src4))) × IsReady src4 s
unfolding new_syn_sender
new_syn_sender-IsReady handler route raw_ok {s} bound done =
    let (n, found, ready) =
      connect-IsReady handler raw_ok (source_ip handler route) s (ground arith) in
    (n, found, ready (bound n found))
