-- ===== src/Net/Cidr.antt =====
-- Go's `net.IP` and `*net.IPNet`, and the functions of github.com/projectdiscovery/mapcidr that
-- pkg/runner calls on them, as a parameter.
use naabu.Prelude.{ℕ, ◌^◌, ◌<◌, ◌≡◌, Option, some, ◌⊎◌, inl, inr, refl}

-- An address as a number. `v4` is an address for which `To4` is not nil.
pub data Ip : Type 0 where
  v4 : ℕ → Ip
  v6 : ℕ → Ip

-- A network: its first address and the length of its mask.
pub record IpNet : Type 0 where
  pub ip : Ip
  pub ones : ℕ

-- `AddressCountIpnet`, `IPToInteger` (with the width in bits; `none` is its error) and `IntegerToIP`.
-- The laws: an IPv4 address is a number of 32 bits, and is that number's address.
pub record Mapcidr : Type 0 where
  pub address_count : IpNet → ℕ
  pub ip_to_integer : Ip → Option (ℕ × ℕ)
  pub integer_to_ip : ℕ → ℕ → Ip
  pub ip_to_integer_v4 : (n : ℕ) → ip_to_integer (v4 n) ≡ some (n, 32)
  pub integer_to_ip_v4 : (n : ℕ) → n < 2 ^ 32 → integer_to_ip n 32 ≡ v4 n

pub Ip-cases : (ip : Ip) → ((n : ℕ) × (ip ≡ v4 n)) ⊎ ((n : ℕ) × (ip ≡ v6 n))
Ip-cases (v4 n) = inl (n, refl)
Ip-cases (v6 n) = inr (n, refl)
