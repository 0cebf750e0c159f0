-- ===== src/Routing/Source.antt =====
-- The source address and the interface of a packet.
use naabu.Prelude.{
  ℕ, ◌≡◌, refl, Bool, true, false, ◌||◌, List, [], ◌∷◌, Option, none, some, ok, ok-injective, arith,
  inl, inr, Bool-cases, Option-cases,
}
use mathlib.Core.Path.{subst}
use naabu.Net.Cidr.{Ip, v4, v6, IpNet}
use naabu.Routing.{
  Interface, Route, serves, first_serving, find_source_ip_for_ip, has_address, has_hardware,
  search_hw, find_route_with_hw_and_ip, ip_equal,
}

ip_equal_refl : (ip : Ip) → ip_equal ip ip ≡ true
ip_equal_refl (v4 n) = ground arith
ip_equal_refl (v6 n) = ground arith

first_serving_sound :
    (ip src : Ip) (addresses : List (Option IpNet))
    → first_serving ip addresses ≡ ok src
    → (serves ip src ≡ true) × (has_address src addresses ≡ true)
unfolding first_serving
first_serving_sound ip src [] h = cc
first_serving_sound ip src (none ∷ addresses) h = first_serving_sound ip src addresses h
first_serving_sound ip src (some net ∷ addresses) h = elim (Bool-cases (serves ip net.ip)) [
  | inl e ↦
      subst (λ a. (serves ip a ≡ true) × ((ip_equal net.ip a || has_address a addresses) ≡ true))
        (ok-injective (rw e at h)) (e, rw (ip_equal_refl net.ip) refl)
  | inr e ↦
      let rest = first_serving_sound ip src addresses (rw e at h) in
      (rest.0, ground (arith, rest.1))
]

-- The source address is one of the interface, of the family of the target and not link-local.
pub find_source_ip_for_ip-serves :
    (itf : Interface) (ip : Ip) {src : Ip}
    → find_source_ip_for_ip itf ip ≡ ok src
    → (addresses : List (Option IpNet)) × (itf.addrs ≡ some addresses)
      × (serves ip src ≡ true)
      × (has_address src addresses ≡ true)
unfolding find_source_ip_for_ip
find_source_ip_for_ip-serves itf ip {src} h = elim (Option-cases itf.addrs) [
  | inl e ↦ absurd (ground arith)
  | inr (addresses, e) ↦
      let sound = first_serving_sound ip src addresses (ground (arith, e)) in
      (addresses, e, sound.0, sound.1)
]

-- Whether an interface has the address that was asked for.
pub has_source : Option Ip → Interface → Bool
has_source none itf = true
has_source (some ip) itf = elim itf.addrs [
  | none ↦ false
  | some addresses ↦ has_address ip addresses
]

module _ (equal_fold : List ℕ → List ℕ → Bool) where
  pub record IsMatch (hw : List ℕ) (src : Option Ip) (r : Route) : Type 0 where
    pub itf : Interface
    pub interface : r.network_interface ≡ some itf
    pub hardware : has_hardware equal_fold hw itf ≡ true
    pub source : has_source src itf ≡ true

  search_hw-IsMatch :
      (hw : List ℕ) (src : Option Ip) (routes : List (Option Route)) {r : Route}
      → search_hw equal_fold hw src routes ≡ ok r
      → IsMatch hw src r
  unfolding search_hw has_source
  search_hw-IsMatch hw src [] h = cc
  search_hw-IsMatch hw src (none ∷ routes) h = search_hw-IsMatch hw src routes h
  search_hw-IsMatch hw src (some q ∷ routes) {r} h = elim (Option-cases q.network_interface) [
    | inl e ↦ search_hw-IsMatch hw src routes (ground (arith, e))
    | inr (itf, e) ↦ elim (Bool-cases (has_hardware equal_fold hw itf)) [
      | inr other ↦ search_hw-IsMatch hw src routes (ground (arith, e, other))
      | inl same ↦ elim (Bool-cases (has_source src itf)) [
        | inl found ↦
            let this : q ≡ r = ground (arith, e, same, found) in
            subst (IsMatch hw src) this
              (record { itf = itf; interface = e; hardware = same; source = found })
        | inr missing ↦ search_hw-IsMatch hw src routes (ground (arith, e, same, missing))
      ]
    ]
  ]

  -- A route that is found by a hardware address and a source address has an interface with both,
  -- where they are given.
  pub find_route_with_hw_and_ip-IsMatch :
      (hw : List ℕ) (src : Option Ip) (routes : List (Option Route)) {r : Route}
      → find_route_with_hw_and_ip equal_fold hw src routes ≡ ok r
      → IsMatch hw src r
  unfolding find_route_with_hw_and_ip
  find_route_with_hw_and_ip-IsMatch [] none routes h = cc
  find_route_with_hw_and_ip-IsMatch [] (some ip) routes h = search_hw-IsMatch [] (some ip) routes h
  find_route_with_hw_and_ip-IsMatch (b ∷ hw) src routes h = search_hw-IsMatch (b ∷ hw) src routes h
