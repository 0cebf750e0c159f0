-- ===== src/Runner/FastSend/Index.antt =====
-- pkg/runner/fastsend.go: the index of the targets, and pkg/runner/runner.go: `PickIP`, which it
-- replaces.
pub mod Bytes
use naabu.Prelude.{
  ℕ, ◌+◌, ◌-◌, ◌/◌, ◌%◌, ◌^◌, ◌≤◌, ◌<◌, ◌≡◌, refl, sym, ap, ◌∙◌, Bool, true, false, List, [], ◌∷◌,
  ◌++◌, map, Option, none, some, arith, inl, inr, if◌then◌else◌, All, append-nil, append_assoc,
  map-append,
}
use native.Mathlib.Decide.{dec_lt}
use naabu.Prelude.Int.{
  ℤ, pos, pos_part, lt_int, ◌+ℤ◌, ◌-ℤ◌, to_int64, to_uint32, to_int64_small, pos--ℤ, pos-+ℤ,
}
use naabu.Prelude.Text.{Text}
use naabu.Net.Cidr.{Ip-cases, Ip, v4, v6, IpNet, Mapcidr}
use naabu.Runner.FastSend.Ipv4.{Ipv4, ipv4, format_ipv4, format_ipv4-dotted, dotted}

pub record IndexEntry : Type 0 where
  pub is_v4 : Bool
  pub base_ipv4 : ℕ
  pub count : ℤ
  pub network : IpNet

-- `binary.BigEndian.Uint32(ip4)`, where `To4` gives an address.
abbrev pub base_of : Ip → Bool × ℕ
base_of (v4 n) = (true, n)
base_of (v6 n) = (false, 0)

pub record TargetIndex : Type 0 where
  pub entries : List IndexEntry
  pub total : ℤ

-- The four bytes of a number of 32 bits, from the first.
abbrev pub bytes_of : ℕ → Ipv4
bytes_of val = ipv4 (val / 2 ^ 24 % 256) (val / 2 ^ 16 % 256) (val / 2 ^ 8 % 256) (val % 256)

pub pick_from : List IndexEntry → ℤ → Option (Ipv4 × Text)
pick_from [] index = none
pick_from (e ∷ es) index =
    let val = (e.base_ipv4 + to_uint32 index) % 2 ^ 32 in
    let here = if e.is_v4 then some (bytes_of val, format_ipv4 (bytes_of val)) else none in
    let later = pick_from es (index -ℤ e.count) in if lt_int index e.count then here else later

-- `pickIPv4`: the address and its text; `none` where the result says that it is no IPv4 address.
unfoldable pub pick_ipv4 : TargetIndex → ℤ → Option (Ipv4 × Text)
unfolding pick_from to_uint32
pick_ipv4 idx index = pick_from idx.entries index

-- `ip.String()` of an IPv4 address. The text of the others is a parameter.
unfoldable pub ip_string : (ℕ → Text) → Ip → Text
ip_string v6_string (v4 n) = dotted (bytes_of n)
ip_string v6_string (v6 n) = v6_string n

module _ (lib : Mapcidr) where
  unfoldable pub build_entry : IpNet → IndexEntry
  build_entry t = record {
    is_v4 = (base_of t.ip).0;
    base_ipv4 = (base_of t.ip).1;
    count = to_int64 (lib.address_count t);
    network = t;
  }

  build_from : List IpNet → TargetIndex → TargetIndex
  build_from [] idx = idx
  build_from (t ∷ ts) idx =
      let e = build_entry t in
      build_from ts (record idx { entries = idx.entries ++ e ∷ []; total = idx.total +ℤ e.count })

  -- `buildTargetIndex`
  unfoldable pub build_target_index : List IpNet → TargetIndex
  unfolding build_from build_entry
  build_target_index targets = build_from targets (record { entries = []; total = pos 0 })

  module _ (v6_string : ℕ → Text) where
    -- `PickSubnetIP`; the text is empty on an error.
    unfoldable pub pick_subnet_ip : IpNet → ℤ → Text
    pick_subnet_ip network index = elim (lib.ip_to_integer network.ip) [
      | none ↦ []
      | some (n, bits) ↦ ip_string v6_string (lib.integer_to_ip (pos_part (pos n +ℤ index)) bits)
    ]

    -- `PickIP`
    unfoldable pub pick_ip : List IpNet → ℤ → Text
    pick_ip [] index = []
    pick_ip (t ∷ ts) index =
        let count = to_int64 (lib.address_count t) in
        let here = pick_subnet_ip t index in
        let later = pick_ip ts (index -ℤ count) in if lt_int index count then here else later

  -- What a target is: a block of addresses, of which IPv4 has 2 ^ 32.
  pub record IsTarget (t : IpNet) : Type 0 where
    pub some_address : 0 < lib.address_count t
    pub counted : lib.address_count t < 2 ^ 63
    pub fits : (base : ℕ) → t.ip ≡ v4 base → base + lib.address_count t ≤ 2 ^ 32

  -- The number of addresses of all targets.
  abbrev pub span : List IpNet → ℕ
  span [] = 0
  span (t ∷ ts) = lib.address_count t + span ts

  build_from-entries :
      (ts : List IpNet) (idx : TargetIndex)
      → (build_from ts idx).entries ≡ idx.entries ++ map build_entry ts
  unfolding build_from
  build_from-entries [] idx = sym (append-nil idx.entries)
  build_from-entries (t ∷ ts) idx = build_from-entries ts _ ∙ append_assoc idx.entries _ _

  pub build_target_index-entries :
      (ts : List IpNet) → (build_target_index ts).entries ≡ map build_entry ts
  unfolding build_target_index
  build_target_index-entries ts = build_from-entries ts _

  module _ (t : IpNet) (h : IsTarget t) (es : List IndexEntry) (i : ℕ) where
    pick_from-above :
        lib.address_count t ≤ i
        → pick_from (build_entry t ∷ es) (pos i) ≡ pick_from es (pos (i - lib.address_count t))
    unfolding pick_from build_entry
    pick_from-above le =
        rw (to_int64_small (lib.address_count t) h.counted, pos--ℤ i (lib.address_count t) le)
          (ground arith)

    pick_from-below :
        (base : ℕ)
        → t.ip ≡ v4 base
        → i < lib.address_count t
        → pick_from (build_entry t ∷ es) (pos i)
          ≡ some (bytes_of (base + i), format_ipv4 (bytes_of (base + i)))
    unfolding pick_from build_entry to_uint32
    pick_from-below base e lt =
        let whole : (base + i % 2 ^ 32) % 2 ^ 32 ≡ base + i = omega (arith, h.fits base e) in
        rw (to_int64_small (lib.address_count t) h.counted, e, whole) (ground arith)

    pub pick_from-v6 :
        (n : ℕ)
        → t.ip ≡ v6 n
        → i < lib.address_count t
        → pick_from (build_entry t ∷ es) (pos i) ≡ none
    unfolding pick_from build_entry
    pick_from-v6 n e lt = rw (to_int64_small (lib.address_count t) h.counted, e) (ground arith)

  pub pick_from-skip :
      (before : List IpNet) (rest : List IndexEntry) (j : ℕ)
      → All IsTarget before
      → pick_from (map build_entry before ++ rest) (pos (span before + j)) ≡ pick_from rest (pos j)
  pick_from-skip [] rest j h = ap (λ (n : ℕ). pick_from rest (pos n)) (omega arith)
  pick_from-skip (t ∷ ts) rest j (h, hs) =
      pick_from-above t h (map build_entry ts ++ rest) (span (t ∷ ts) + j) (omega arith)
      ∙ ap (λ (n : ℕ). pick_from (map build_entry ts ++ rest) (pos n)) (omega arith)
      ∙ pick_from-skip ts rest j hs

  -- The index runs through the targets in order: behind the addresses of the targets before an IPv4
  -- block, its `j`-th address is picked, with its dotted decimal text.
  pub pick_ipv4_exact :
      (before after : List IpNet) (t : IpNet) (base j : ℕ)
      → All IsTarget before
      → IsTarget t
      → t.ip ≡ v4 base
      → j < lib.address_count t
      → pick_ipv4 (build_target_index (before ++ t ∷ after)) (pos (span before + j))
        ≡ some (bytes_of (base + j), dotted (bytes_of (base + j)))
  unfolding pick_ipv4
  pick_ipv4_exact before after t base j hb ht e lt =
      ap (λ (es : List IndexEntry). pick_from es (pos (span before + j)))
        (build_target_index-entries (before ++ t ∷ after)
          ∙ map-append build_entry before (t ∷ after))
      ∙ pick_from-skip before (map build_entry (t ∷ after)) j hb
      ∙ pick_from-below t ht (map build_entry after) j base e lt
      ∙ ap (λ (s : Text). some (bytes_of (base + j), s))
          (format_ipv4-dotted (bytes_of (base + j)) (omega arith)).0

  module _ (v6_string : ℕ → Text) where
    pick_ip-above :
        (t : IpNet) (ts : List IpNet) (i : ℕ)
        → IsTarget t
        → lib.address_count t ≤ i
        → pick_ip v6_string (t ∷ ts) (pos i) ≡ pick_ip v6_string ts (pos (i - lib.address_count t))
    unfolding pick_ip
    pick_ip-above t ts i h le =
        rw (to_int64_small (lib.address_count t) h.counted, pos--ℤ i (lib.address_count t) le)
          (ground arith)

    module _ (t : IpNet) (i base : ℕ) (h : IsTarget t) (e : t.ip ≡ v4 base)
        (lt : i < lib.address_count t) where
      pick_subnet_ip-v4 : pick_subnet_ip v6_string t (pos i) ≡ dotted (bytes_of (base + i))
      unfolding pick_subnet_ip ip_string
      pick_subnet_ip-v4 =
          let read : lib.ip_to_integer t.ip ≡ some (base, 32) =
            ap lib.ip_to_integer e ∙ lib.ip_to_integer_v4 base in
          let back = lib.integer_to_ip_v4 (base + i) (omega (arith, h.fits base e)) in
          rw (read, pick_subnet_ip) (rw (pos-+ℤ base i, back) refl)

      pick_ip-below :
          (ts : List IpNet) → pick_ip v6_string (t ∷ ts) (pos i) ≡ dotted (bytes_of (base + i))
      unfolding pick_ip
      pick_ip-below ts =
          rw (to_int64_small (lib.address_count t) h.counted) (ground (arith, pick_subnet_ip-v4))

    picks_agree :
        (ts : List IpNet) (i : ℕ) (ip : Ipv4) (s : Text)
        → All IsTarget ts
        → pick_from (map build_entry ts) (pos i) ≡ some (ip, s)
        → pick_ip v6_string ts (pos i) ≡ s
    picks_agree [] i ip s hs e = unfold pick_from in cc
    picks_agree (t ∷ ts) i ip s (h, hs) e = elim (dec_lt i (lib.address_count t)) [
      | yes below ↦ elim (Ip-cases t.ip) [
        | inl (base, is_v4) ↦
            pick_ip-below t i base h is_v4 below ts
            ∙ sym (format_ipv4-dotted (bytes_of (base + i)) (omega arith)).0
            ∙ ground (arith, e, pick_from-below t h (map build_entry ts) i base is_v4 below)
        | inr (n, is_v6) ↦ cc (e, pick_from-v6 t h (map build_entry ts) i n is_v6 below)
      ]
      | no above ↦
          let le : lib.address_count t ≤ i = omega arith in
          pick_ip-above t ts i h le
          ∙ picks_agree ts (i - lib.address_count t) ip s hs
              (sym (pick_from-above t h (map build_entry ts) i le) ∙ e)
    ]

    -- Wherever the fast index gives an address, `PickIP` gives the text of that address.
    pub pick_ipv4-pick_ip :
        (ts : List IpNet) (i : ℕ) {ip : Ipv4} {s : Text}
        → All IsTarget ts
        → pick_ipv4 (build_target_index ts) (pos i) ≡ some (ip, s)
        → pick_ip v6_string ts (pos i) ≡ s
    unfolding pick_ipv4
    pick_ipv4-pick_ip ts i {ip} {s} hs e = picks_agree ts i ip s hs (
        ap (λ (es : List IndexEntry). pick_from es (pos i)) (sym (build_target_index-entries ts))
        ∙ e)
