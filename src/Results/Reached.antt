-- ===== src/Results/Reached.antt =====
-- The results that a scan can reach, and what holds of all of them.
use naabu.Prelude.{
  ◌≡◌, refl, true, ◌||◌, List, [], ◌∷◌, elem, lookup, insert, has_key, ltb, IsMap, insert-IsMap,
  insert-All, lookup-All, has_key-insert, All, arith, inl, inr, Option-cases,
}
use naabu.Prelude.Int.{ℤ, int_eq}
use naabu.Prelude.Text.{Text, text_eq}
use naabu.Prelude.Decimal.{itoa}
use naabu.Net.Port
use naabu.Net.Port.{Port}
use naabu.Results.{
  Result, PortMap, new_result, ports_of, add_port, put_all, set_ports, add_ip, add_skipped,
  count_key, get_host_count_for_port, see_ports, see_hosts, get_open_port_numbers,
}
use naabu.Results.Queries.{string-=?-itoa}

-- The results of any sequence of operations.
pub data Reached : Result → Type 0 where
  at_start : Reached new_result
  by_add_port : {r : Result} (ip : Text) (p : Port) → Reached r → Reached (add_port ip p r)
  by_set_ports : {r : Result} (ip : Text) (ps : List Port) → Reached r → Reached (set_ports ip ps r)
  by_add_ip : {r : Result} (ip : Text) → Reached r → Reached (add_ip ip r)
  by_add_skipped : {r : Result} (ip : Text) → Reached r → Reached (add_skipped ip r)

-- Every port stands once, under its own name.
pub record IsPortMap (m : PortMap) : Type 0 where
  pub once : IsMap m
  pub keyed : All (λ (e : Text × Port). e.0 ≡ Port.string e.1) m

-- Every host stands once, with a map of ports, and is known as a host that has been seen.
pub record IsResult (r : Result) : Type 0 where
  pub once : IsMap r.ip_ports
  pub hosts : All (λ (e : Text × PortMap). IsPortMap e.1) r.ip_ports
  pub addresses : IsMap r.ips
  pub skips : IsMap r.skipped
  pub seen : (ip : Text) → has_key ip r.ip_ports ≡ true → has_key ip r.ips ≡ true

empty-IsPortMap : IsPortMap []
empty-IsPortMap = record { once = tt; keyed = tt }

ports_of-IsPortMap : (ip : Text) (r : Result) → IsResult r → IsPortMap (ports_of ip r)
ports_of-IsPortMap ip r h = elim (Option-cases (lookup ip r.ip_ports)) [
  | inl e ↦ rw (e, ports_of) empty-IsPortMap
  | inr (m, e) ↦ rw (e, ports_of) (lookup-All IsPortMap ip r.ip_ports h.hosts e)
]

insert-IsPortMap : (p : Port) (m : PortMap) → IsPortMap m → IsPortMap (insert (Port.string p) p m)
insert-IsPortMap p m h = record {
  once = insert-IsMap (Port.string p) p m h.once;
  keyed = insert-All (λ (e : Text × Port). e.0 ≡ Port.string e.1) (Port.string p) p m refl h.keyed;
}

put_all-IsPortMap : (ps : List Port) (m : PortMap) → IsPortMap m → IsPortMap (put_all ps m)
unfolding put_all
put_all-IsPortMap [] m h = h
put_all-IsPortMap (p ∷ ps) m h =
    put_all-IsPortMap ps (insert (Port.string p) p m) (insert-IsPortMap p m h)

-- Both `AddPort` and `SetPorts` store a map of ports for a host and the host.
stored-IsResult :
    (ip : Text) (m : PortMap) (r : Result)
    → IsPortMap m
    → IsResult r
    → IsResult (record r { ip_ports = insert ip m r.ip_ports; ips = insert ip tt r.ips })
stored-IsResult ip m r good h = record {
  once = insert-IsMap ip m r.ip_ports h.once;
  hosts = insert-All (λ (e : Text × PortMap). IsPortMap e.1) ip m r.ip_ports good h.hosts;
  addresses = insert-IsMap ip tt r.ips h.addresses;
  skips = h.skips;
  seen = λ host known.
      ground
        (arith, has_key-insert ip host m r.ip_ports, has_key-insert ip host tt r.ips, h.seen host);
}

-- Whatever the scan has done, the invariant holds of its result.
pub Reached-IsResult : (r : Result) → Reached r → IsResult r
unfolding add_port set_ports add_ip add_skipped
Reached-IsResult _ at_start = record {
  once = tt;
  hosts = tt;
  addresses = tt;
  skips = tt;
  seen = λ ip known. unfold has_key in ground arith;
}
Reached-IsResult _ (by_add_port {r} ip p before) =
    let h = Reached-IsResult r before in
    stored-IsResult ip _ r (insert-IsPortMap p (ports_of ip r) (ports_of-IsPortMap ip r h)) h
Reached-IsResult _ (by_set_ports {r} ip ps before) =
    let h = Reached-IsResult r before in
    stored-IsResult ip _ r (put_all-IsPortMap ps (ports_of ip r) (ports_of-IsPortMap ip r h)) h
Reached-IsResult _ (by_add_ip {r} ip before) =
    let h = Reached-IsResult r before in
    record {
      once = h.once;
      hosts = h.hosts;
      addresses = insert-IsMap ip tt r.ips h.addresses;
      skips = h.skips;
      seen = λ host known. ground (arith, has_key-insert ip host tt r.ips, h.seen host);
    }
Reached-IsResult _ (by_add_skipped {r} ip before) =
    let h = Reached-IsResult r before in
    record {
      once = h.once;
      hosts = h.hosts;
      addresses = h.addresses;
      skips = insert-IsMap ip tt r.skipped h.skips;
      seen = h.seen;
    }

elem-see_ports :
    (n : ℤ) (m : PortMap) (seen : List ℤ)
    → All (λ (e : Text × Port). e.0 ≡ Port.string e.1) m
    → elem n (see_ports m seen) ≡ (has_key (itoa n) m || elem n seen)
unfolding see_ports has_key
elem-see_ports n [] seen h = refl
elem-see_ports n ((key, p) ∷ m) seen (h, hs) = ground (
  arith,
  elem-see_ports n m seen hs,
  elem-see_ports n m (p.port ∷ seen) hs,
  string-=?-itoa p n,
  int_eq.same_iff p.port n,
  int_eq.same_iff n p.port,
)

elem-see_hosts :
    (n : ℤ) (hosts : List (Text × PortMap)) (seen : List ℤ)
    → All (λ (e : Text × PortMap). IsPortMap e.1) hosts
    → elem n (see_hosts hosts seen) ≡ (ltb 0 (count_key (itoa n) hosts) || elem n seen)
unfolding see_hosts count_key
elem-see_hosts n [] seen h = ground arith
elem-see_hosts n ((ip, m) ∷ hosts) seen (h, hs) =
    ground (arith, elem-see_hosts n hosts (see_ports m seen) hs, elem-see_ports n m seen h.keyed)

-- Of a result that a scan reaches, the open port numbers are those that some host has.
pub elem-get_open_port_numbers :
    (r : Result) (n : ℤ)
    → Reached r
    → elem n (get_open_port_numbers r) ≡ ltb 0 (get_host_count_for_port n r)
unfolding get_open_port_numbers get_host_count_for_port
elem-get_open_port_numbers r n steps =
    let h = Reached-IsResult r steps in ground (arith, elem-see_hosts n r.ip_ports [] h.hosts)
