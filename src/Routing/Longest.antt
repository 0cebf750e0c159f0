-- ===== src/Routing/Longest.antt =====
-- The route with the longest prefix.
use naabu.Prelude.{
  zero, suc, get_elem?, ℕ, ◌-◌, ◌/◌, ◌^◌, ◌↔◌, if◌then◌else◌, Option-cases, ◌≤◌, ◌<◌, ◌≡◌, refl,
  sym, ap, Bool, true, false, List, [], ◌∷◌, Option, none, some, ltb, ok, arith, inl, inr,
  Bool-cases, ok-injective, All, ◌+◌,
}
use mathlib.Core.Path.{subst}
use mathlib.Core.Option.{some-injective}
use naabu.Net.Cidr.{Ip, v4, v6}
use naabu.Routing.{
  Destination, host, cidr, mapped, other, ip_equal, in_net, contains, host_bits, Route, RouteType,
  ipv4, ipv6, Search, start, match_destination, note_of, note_default, improve, search, chosen,
  find_route_for_ip,
}

-- How well a route fits: one more than the length of the prefix that takes the address, or 0.
unfoldable pub fit : Ip → Option Route → ℕ
fit ip none = 0
fit ip (some r) = elim (match_destination ip r.destination) [ none ↦ 0 | some size ↦ size + 1 ]

-- Two addresses of one family with the same first bits, `ones` of them.
abbrev pub Agree : ℕ → Ip → Ip → Type 0
Agree ones (v4 m) (v4 n) = m / 2 ^ (32 - ones) ≡ n / 2 ^ (32 - ones)
Agree ones (v6 m) (v6 n) = m / 2 ^ (128 - ones) ≡ n / 2 ^ (128 - ones)
Agree ones (v4 m) (v6 n) = ⊥
Agree ones (v6 m) (v4 n) = ⊥

abbrev pub width : Ip → ℕ
width (v4 n) = 32
width (v6 n) = 128

-- A destination takes an address with a prefix of `size` bits: it is the address itself, with all of
-- its bits, or a network whose first bits the address has.
abbrev pub Takes : Ip → Destination → ℕ → Type 0
Takes ip (host h) size = (h ≡ ip) × (size ≡ width h)
Takes ip (cidr net) size = Agree net.ones net.ip ip × (size ≡ net.ones)
Takes ip (mapped net) size = Agree net.ones net.ip ip × (size ≡ 96 + net.ones)
Takes ip other size = ⊥

number : Ip → ℕ
number (v4 n) = n
number (v6 n) = n

same_ip : (h ip : Ip) → ip_equal h ip ≡ true ↔ h ≡ ip
unfolding number
same_ip (v4 m) (v4 n) = (λ e. ap v4 (ground arith), λ e. (let f = ap number e in ground arith))
same_ip (v6 m) (v6 n) = (λ e. ap v6 (ground arith), λ e. (let f = ap number e in ground arith))
same_ip (v4 m) (v6 n) = (λ e. cc, λ e. cc)
same_ip (v6 m) (v4 n) = (λ e. cc, λ e. cc)

Agree_lem : (ones : ℕ) (a ip : Ip) → in_net a ones ip ≡ true ↔ Agree ones a ip
Agree_lem ones (v4 m) (v4 n) = (λ e. ground arith, λ e. ground arith)
Agree_lem ones (v6 m) (v6 n) = (λ e. ground arith, λ e. ground arith)
Agree_lem ones (v4 m) (v6 n) = (λ e. cc, λ e. absurd e)
Agree_lem ones (v6 m) (v4 n) = (λ e. cc, λ e. absurd e)

width_lem : (ip : Ip) → width ip ≡ host_bits ip
width_lem (v4 n) = refl
width_lem (v6 n) = refl

match_if :
    {P : Type 0} (b : Bool) (size bits : ℕ)
    → b ≡ true ↔ P
    → (P × (size ≡ bits)) ↔ ((if b then some bits else none) ≡ some size)
match_if true size bits h = (λ (p, e). ap some (sym e), λ e. (h.0 refl, sym (some-injective _ _ e)))
match_if false size bits h = (λ (p, e). absurd (let f = h.1 p in cc), λ e. cc)

Takes-match :
    (ip : Ip) (d : Destination) (size : ℕ) → Takes ip d size ↔ (match_destination ip d ≡ some size)
unfolding match_destination
Takes-match ip (host h) size =
    rw (width_lem h) (match_if (ip_equal h ip) size (host_bits h) (same_ip h ip))
Takes-match ip (cidr net) size =
    match_if (contains net ip) size net.ones (Agree_lem net.ones net.ip ip)
Takes-match ip (mapped net) size =
    match_if (contains net ip) size (96 + net.ones) (Agree_lem net.ones net.ip ip)
Takes-match ip other size = (λ e. absurd e, λ e. cc)

pub top : Option (Route × ℕ) → ℕ
top none = 0
top (some (r, size)) = size + 1

abbrev pub IsFound : Ip → Option (Route × ℕ) → Type 0
IsFound ip none = Unit {0}
IsFound ip (some (r, size)) = match_destination ip r.destination ≡ some size

note_of-best : (t : RouteType) (r : Route) (s : Search) → (note_of t r s).best ≡ s.best
unfolding note_of
note_of-best ipv4 r s = refl
note_of-best ipv6 r s = refl

note_default-best : (r : Route) (s : Search) → (note_default r s).best ≡ s.best
unfolding note_default
note_default-best r s = note_of-best r.type r s

top-improve :
    (ip : Ip) (r : Route) (best : Option (Route × ℕ))
    → (fit ip (some r) ≤ top (improve r (match_destination ip r.destination) best))
      × (top best ≤ top (improve r (match_destination ip r.destination) best))
unfolding top improve fit
top-improve ip r none = ground arith
top-improve ip r (some (old, size)) = ground arith

improve-IsFound :
    (ip : Ip) (r : Route) (found : Option ℕ) (best : Option (Route × ℕ))
    → match_destination ip r.destination ≡ found
    → IsFound ip best
    → IsFound ip (improve r found best)
unfolding improve
improve-IsFound ip r none best e h = h
improve-IsFound ip r (some size) none e h = e
improve-IsFound ip r (some size) (some (old, old_size)) e h =
    elim (Bool-cases (ltb old_size size)) [ inl more ↦ rw more e | inr less ↦ rw less h ]

-- After the loop no route fits better than the best one, and that one fits.
pub search_lem :
    (ip : Ip) (routes : List (Option Route)) (s : Search)
    → IsFound ip s.best
    → All (λ o. fit ip o ≤ top (search ip routes s).best) routes
      × (top s.best ≤ top (search ip routes s).best)
      × IsFound ip (search ip routes s).best
unfolding search
search_lem ip [] s h = (tt, omega arith, h)
search_lem ip (none ∷ routes) s h =
    let (all, more, found) = search_lem ip routes s h in
    ((unfold fit in omega arith, all), more, found)
search_lem ip (some r ∷ routes) s h =
    let found = match_destination ip r.destination in
    let noted = note_default r s in
    let next = record noted { best = improve r found noted.best } in
    let same = note_default-best r s in
    let good : IsFound ip next.best =
      improve-IsFound ip r found noted.best refl (subst (IsFound ip) (sym same) h) in
    let (all, more, last) = search_lem ip routes next good in
    let (here, kept) = top-improve ip r noted.best in
    ((omega (arith, here, more), all), omega (arith, ap top same, kept, more), last)

chosen_lem :
    (ip : Ip) (s : Search) (best : Option (Route × ℕ)) (r : Route)
    → IsFound ip best
    → chosen ip s best ≡ ok r
    → top best ≤ fit ip (some r)
unfolding chosen top fit
chosen_lem ip s none r h e = omega arith
chosen_lem ip s (some (q, size)) r h e =
    subst (λ x. size + 1 ≤ fit ip (some x)) (ok-injective e) (ground arith)

Takes-fit :
    (ip : Ip) (r : Route) (size : ℕ) → Takes ip r.destination size → fit ip (some r) ≡ size + 1
unfolding fit
Takes-fit ip r size h = let e = (Takes-match ip r.destination size).0 h in rw (fit, e) refl

pub fit-Takes :
    (ip : Ip) (r : Route)
    → 0 < fit ip (some r)
    → (size : ℕ) × Takes ip r.destination size × (fit ip (some r) ≡ size + 1)
unfolding fit
fit-Takes ip r h = elim (Option-cases (match_destination ip r.destination)) [
  | inl e ↦ absurd (ground arith)
  | inr (size, e) ↦ (size, (Takes-match ip r.destination size).1 e, ground arith)
]

fit-at :
    (ip : Ip) (n i : ℕ) (routes : List (Option Route)) (o : Option Route)
    → All (λ x. fit ip x ≤ n) routes
    → get_elem? routes i ≡ some o
    → fit ip o ≤ n
fit-at ip n i [] o h e = cc
fit-at ip n zero (x ∷ routes) o (h, hs) e = subst (λ y. fit ip y ≤ n) (some-injective _ _ e) h
fit-at ip n (suc i) (x ∷ routes) o (h, hs) e = fit-at ip n i routes o hs e

-- Where a route is found, each route of the table that takes the address does so with a prefix that is
-- at most as long as that with which the found route takes it.
pub find_route_for_ip-longest :
    (ip : Ip) (routes : List (Option Route)) {found : Route} (i size : ℕ) (r : Route)
    → find_route_for_ip ip routes ≡ ok found
    → get_elem? routes i ≡ some (some r)
    → Takes ip r.destination size
    → (best : ℕ) × Takes ip found.destination best × (size ≤ best)
unfolding find_route_for_ip
find_route_for_ip-longest ip routes {found} i size r e at t =
    let (all, more, kept) = search_lem ip routes start tt in
    let last = chosen_lem ip (search ip routes start) (search ip routes start).best found kept e in
    let here = fit-at ip _ i routes (some r) all at in
    let as_long = Takes-fit ip r size t in
    let (best, takes, fits) = fit-Takes ip found (omega (arith, here, last, as_long)) in
    (best, takes, omega (arith, here, last, as_long, fits))
