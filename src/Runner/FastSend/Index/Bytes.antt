-- ===== src/Runner/FastSend/Index/Bytes.antt =====
-- What the index of the targets gives is an address.
use naabu.Net.Cidr.{IpNet, Mapcidr}
use naabu.Prelude.{
  All, map, none, true, refl, sym, ap, ◌∙◌, ℕ, ◌+◌, ◌%◌, ◌^◌, ◌≡◌, List, [], ◌∷◌, some, inl, inr,
  Bool-cases, arith,
}
use mathlib.Core.Path.{subst}
use naabu.Prelude.Int.{ℤ, lt_int, ◌-ℤ◌, to_uint32, to_int64}
use naabu.Prelude.Text.{Text}
use naabu.Runner.FastSend.Ipv4.{Ipv4, IsBytes, format_ipv4, dotted, format_ipv4-dotted}
use naabu.Runner.FastSend.Index.{
  IndexEntry, TargetIndex, bytes_of, pick_from, pick_ipv4, base_of, build_entry, build_target_index,
  build_target_index-entries, pick_ip,
}

bytes_of-IsBytes : (n : ℕ) → IsBytes (bytes_of n)
bytes_of-IsBytes n = record { a = omega arith; b = omega arith; c = omega arith; d = omega arith }

pick_from-IsBytes :
    (es : List IndexEntry) (i : ℤ) {ip : Ipv4} {s : Text}
    → pick_from es i ≡ some (ip, s)
    → IsBytes ip
unfolding pick_from
pick_from-IsBytes [] i h = cc
pick_from-IsBytes (e ∷ es) i {ip} {s} h = elim (Bool-cases (lt_int i e.count)) [
  | inl here ↦
      subst IsBytes (ground arith) (bytes_of-IsBytes ((e.base_ipv4 + to_uint32 i) % 2 ^ 32))
  | inr later ↦ pick_from-IsBytes es (i -ℤ e.count) {ip = ip} {s = s} (ground arith)
]

-- A picked address has four bytes.
pub pick_ipv4-IsBytes :
    (idx : TargetIndex) (i : ℤ) {ip : Ipv4} {s : Text} → pick_ipv4 idx i ≡ some (ip, s) → IsBytes ip
unfolding pick_ipv4
pick_ipv4-IsBytes idx i h = pick_from-IsBytes idx.entries i h

pick_from-text :
    (es : List IndexEntry) (i : ℤ) {ip : Ipv4} {s : Text}
    → pick_from es i ≡ some (ip, s)
    → s ≡ format_ipv4 ip
unfolding pick_from
pick_from-text [] i h = cc
pick_from-text (e ∷ es) i {ip} {s} h = elim (Bool-cases (lt_int i e.count)) [
  | inl here ↦ ground arith
  | inr later ↦ pick_from-text es (i -ℤ e.count) {ip = ip} {s = s} (ground arith)
]

-- The text of a picked address is its dotted decimal form.
pub pick_ipv4-text :
    (idx : TargetIndex) (i : ℤ) {ip : Ipv4} {s : Text}
    → pick_ipv4 idx i ≡ some (ip, s)
    → s ≡ dotted ip
unfolding pick_ipv4
pick_ipv4-text idx i {ip} {s} h =
    pick_from-text idx.entries i {ip = ip} {s = s} h
    ∙ (format_ipv4-dotted ip (pick_ipv4-IsBytes idx i {ip = ip} {s = s} h)).0

-- An address for which `To4` is not nil.
abbrev pub IsV4 : IpNet → Type 0
IsV4 t = (base_of t.ip).0 ≡ true

module _ (lib : Mapcidr) (v6_string : ℕ → Text) where
  pick_from-none :
      (ts : List IpNet) (j : ℤ)
      → All IsV4 ts
      → pick_from (map (build_entry lib) ts) j ≡ none
      → pick_ip lib v6_string ts j ≡ []
  unfolding pick_from build_entry pick_ip
  pick_from-none [] j h e = refl
  pick_from-none (t ∷ ts) j (h, hs) e =
      ground (arith, pick_from-none ts (j -ℤ to_int64 (lib.address_count t)) hs)

  -- With IPv4 targets, the index gives nothing only where `PickIP` gives no address.
  pub pick_ipv4-none :
      (ts : List IpNet) (j : ℤ)
      → All IsV4 ts
      → pick_ipv4 (build_target_index lib ts) j ≡ none
      → pick_ip lib v6_string ts j ≡ []
  unfolding pick_ipv4
  pick_ipv4-none ts j h e =
      pick_from-none ts j h (
        ap (λ (es : List IndexEntry). pick_from es j) (sym (build_target_index-entries lib ts)) ∙ e)
