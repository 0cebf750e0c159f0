-- ===== src/Routing/Suitable.antt =====
-- The route that is found takes the address or is a default route.
use naabu.Prelude.{
  ℕ, ◌<◌, ◌≡◌, refl, Bool, true, false, List, [], ◌∷◌, Option, none, some, Outcome, ok, err, arith,
  inl, inr, ◌⊎◌, ok-injective,
}
use mathlib.Core.Path.{subst}
use naabu.Net.Cidr.{Ip, v4, v6}
use naabu.Routing.{
  Route, RouteType, ipv4, ipv6, Search, start, note, note_of, note_default, search, fall_back,
  chosen, find_route_for_ip, RouteError, route_not_found,
}
use naabu.Routing.Longest.{fit, IsFound, Takes, search_lem, fit-Takes}

abbrev pub family : Ip → RouteType
family (v4 n) = ipv4
family (v6 n) = ipv6

-- A default route for a type of addresses.
abbrev IsDefault : RouteType → Option Route → Type 0
IsDefault t none = Unit {0}
IsDefault t (some r) = (r.is_default ≡ true) × (r.type ≡ t)

abbrev AreDefaults : Search → Type 0
AreDefaults s = IsDefault ipv4 s.default_route4 × IsDefault ipv6 s.default_route6

note-IsDefault :
    (b : Bool) (t : RouteType) (r : Route) (old : Option Route)
    → r.is_default ≡ b
    → r.type ≡ t
    → IsDefault t old
    → IsDefault t (note b r old)
unfolding note
note-IsDefault b t r (some q) d e h = h
note-IsDefault true t r none d e h = (d, e)
note-IsDefault false t r none d e h = tt

note_of-AreDefaults :
    (t : RouteType) (r : Route) (s : Search)
    → r.type ≡ t
    → AreDefaults s
    → AreDefaults (note_of t r s)
unfolding note_of
note_of-AreDefaults ipv4 r s e (h4, h6) =
    (note-IsDefault r.is_default ipv4 r s.default_route4 refl e h4, h6)
note_of-AreDefaults ipv6 r s e (h4, h6) =
    (h4, note-IsDefault r.is_default ipv6 r s.default_route6 refl e h6)

search-AreDefaults :
    (ip : Ip) (routes : List (Option Route)) (s : Search)
    → AreDefaults s
    → AreDefaults (search ip routes s)
unfolding search note_default
search-AreDefaults ip [] s h = h
search-AreDefaults ip (none ∷ routes) s h = search-AreDefaults ip routes s h
search-AreDefaults ip (some r ∷ routes) s h =
    search-AreDefaults ip routes _ (note_of-AreDefaults r.type r s refl h)

ok-IsDefault :
    (ip : Ip) (t : RouteType) (o : Option Route) (r : Route)
    → IsDefault t o
    → ◌≡◌ {A = Outcome RouteError Route}
        (elim o [ none ↦ err (route_not_found ip) | some q ↦ ok q ])
        (ok r)
    → IsDefault t (some r)
ok-IsDefault ip t none r h e = cc
ok-IsDefault ip t (some q) r h e = subst (λ x. IsDefault t (some x)) (ok-injective e) h

fall_back-IsDefault :
    (ip : Ip) (s : Search) (r : Route)
    → AreDefaults s
    → fall_back ip s ≡ ok r
    → IsDefault (family ip) (some r)
unfolding fall_back
fall_back-IsDefault (v4 n) s r (h4, h6) e = ok-IsDefault (v4 n) ipv4 s.default_route4 r h4 e
fall_back-IsDefault (v6 n) s r (h4, h6) e = ok-IsDefault (v6 n) ipv6 s.default_route6 r h6 e

chosen-IsSuitable :
    (ip : Ip) (s : Search) (best : Option (Route × ℕ)) (r : Route)
    → IsFound ip best
    → AreDefaults s
    → chosen ip s best ≡ ok r
    → ((size : ℕ) × Takes ip r.destination size) ⊎ IsDefault (family ip) (some r)
unfolding chosen fit
chosen-IsSuitable ip s none r h d e = inr (fall_back-IsDefault ip s r d e)
chosen-IsSuitable ip s (some (q, size)) r h d e =
    let (bits, takes, fits) =
      fit-Takes ip r (subst (λ x. 0 < fit ip (some x)) (ok-injective e) (ground arith)) in
    inl (bits, takes)

-- The route that is found takes the address or is a default route of the address's family.
pub find_route_for_ip-IsSuitable :
    (ip : Ip) (routes : List (Option Route)) {r : Route}
    → find_route_for_ip ip routes ≡ ok r
    → ((size : ℕ) × Takes ip r.destination size) ⊎ ((r.is_default ≡ true) × (r.type ≡ family ip))
unfolding find_route_for_ip
find_route_for_ip-IsSuitable ip routes {r} e =
    let (all, more, found) = search_lem ip routes start tt in
    chosen-IsSuitable ip (search ip routes start) (search ip routes start).best r found
      (search-AreDefaults ip routes start (tt, tt)) e
