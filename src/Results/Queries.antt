-- ===== src/Results/Queries.antt =====
-- What the queries of a `Result` answer after its operations.
use naabu.Prelude.{
  ◌+◌, ◌≡◌, refl, sym, ◌∙◌, not, ◌&&◌, ◌||◌, List, [], ◌∷◌, map, none, some, if◌then◌else◌, ◌=?◌,
  elem, lookup, insert, has_key, =?_refl, lookup-insert, has_key-insert, insert-insert,
  length-insert, arith,
}
use naabu.Prelude.Int.{ℤ, int_eq}
use naabu.Prelude.Text.{Text, text_eq}
use naabu.Prelude.Decimal.{itoa, itoa-injective}
use naabu.Net.Port
use naabu.Net.Port.{Port}
use naabu.Results.{
  Result, PortMap, ports_of, add_port, put_all, set_ports, ip_has_port, count_key,
  get_host_count_for_port, get_port_count,
}

ip_has_port-ports_of :
    (ip : Text) (p : Port) (r : Result)
    → ip_has_port ip p r ≡ has_key (Port.string p) (ports_of ip r)
unfolding ip_has_port has_key
ip_has_port-ports_of ip p r = ground arith

ports_of-insert :
    (ip h : Text) (m : PortMap) (r : Result)
    → elim (lookup h (insert ip m r.ip_ports)) [ none ↦ [] | some ports ↦ ports ]
      ≡ (if ip =? h then m else ports_of h r)
ports_of-insert ip h m r = ground (arith, lookup-insert ip h m r.ip_ports)

-- A port is found afterwards exactly if it was before, or it has the number that was added to the host.
pub ip_has_port-add_port :
    (ip h : Text) (p q : Port) (r : Result)
    → ip_has_port h q (add_port ip p r) ≡ ((ip =? h) && (p.port =? q.port) || ip_has_port h q r)
unfolding add_port
ip_has_port-add_port ip h p q r =
    let m = insert (Port.string p) p (ports_of ip r) in
    ip_has_port-ports_of h q (add_port ip p r)
    ∙ ground (
      arith,
      ports_of-insert ip h m r,
      has_key-insert (Port.string p) (Port.string q) p (ports_of ip r),
      Port.string-=? p q,
      ip_has_port-ports_of h q r,
      text_eq.same_iff ip h,
    )

has_key-put_all :
    (ps : List Port) (q : Port) (m : PortMap)
    → has_key (Port.string q) (put_all ps m)
      ≡ (elem q.port (map (λ (p : Port). p.port) ps) || has_key (Port.string q) m)
unfolding put_all
has_key-put_all [] q m = refl
has_key-put_all (p ∷ ps) q m = ground (
  arith,
  has_key-put_all ps q (insert (Port.string p) p m),
  has_key-insert (Port.string p) (Port.string q) p m,
  Port.string-=? p q,
  int_eq.same_iff p.port q.port,
  int_eq.same_iff q.port p.port,
)

-- A port is found afterwards exactly if it was before, or the host is the one whose ports were set and
-- its number is among theirs.
pub ip_has_port-set_ports :
    (ip h : Text) (ps : List Port) (q : Port) (r : Result)
    → ip_has_port h q (set_ports ip ps r)
      ≡ ((ip =? h) && elem q.port (map (λ (p : Port). p.port) ps) || ip_has_port h q r)
unfolding set_ports
ip_has_port-set_ports ip h ps q r =
    ip_has_port-ports_of h q (set_ports ip ps r)
    ∙ ground (
      arith,
      ports_of-insert ip h (put_all ps (ports_of ip r)) r,
      has_key-put_all ps q (ports_of ip r),
      ip_has_port-ports_of h q r,
      text_eq.same_iff ip h,
    )

pub add_all : Text → List Port → Result → Result
unfolding add_port
add_all ip [] r = r
add_all ip (p ∷ ps) r = add_all ip ps (add_port ip p r)

set_ports-add_port :
    (ip : Text) (p : Port) (ps : List Port) (r : Result)
    → set_ports ip ps (add_port ip p r) ≡ set_ports ip (p ∷ ps) r
unfolding set_ports add_port put_all
set_ports-add_port ip p ps r =
    let m = insert (Port.string p) p (ports_of ip r) in
    rw
      (
        ports_of-insert ip ip m r,
        =?_refl ip,
        insert-insert ip (put_all ps m) m r.ip_ports,
        insert-insert ip tt tt r.ips,
      )
      refl

-- To set the ports of a host is to add them one by one, if there are any.
pub set_ports-add_all :
    (ip : Text) (p : Port) (ps : List Port) (r : Result)
    → set_ports ip (p ∷ ps) r ≡ add_all ip (p ∷ ps) r
unfolding add_all
set_ports-add_all ip p [] r = unfold set_ports put_all add_port in refl
set_ports-add_all ip p (q ∷ qs) r =
    sym (set_ports-add_port ip p (q ∷ qs) r) ∙ set_ports-add_all ip q qs (add_port ip p r)

-- A host's count grows by one exactly if its port had not been found before.
pub get_port_count-add_port :
    (ip h : Text) (p : Port) (r : Result)
    → get_port_count h (add_port ip p r)
      ≡ (if (ip =? h) && not (ip_has_port ip p r) then 1 else 0) + get_port_count h r
unfolding get_port_count add_port
get_port_count-add_port ip h p r =
    let m = insert (Port.string p) p (ports_of ip r) in
    ground (
      arith,
      ports_of-insert ip h m r,
      length-insert (Port.string p) p (ports_of ip r),
      ip_has_port-ports_of ip p r,
      text_eq.same_iff ip h,
    )

count_key-insert :
    (key ip : Text) (m : PortMap) (hosts : List (Text × PortMap))
    → count_key key (insert ip m hosts)
        + (if has_key key (elim (lookup ip hosts) [ none ↦ [] | some ports ↦ ports ]) then 1 else 0)
      ≡ count_key key hosts + (if has_key key m then 1 else 0)
unfolding count_key insert lookup has_key
count_key-insert key ip m [] = ground arith
count_key-insert key ip m ((j, n) ∷ hosts) = ground (arith, count_key-insert key ip m hosts)

pub string-=?-itoa : (p : Port) (n : ℤ) → (Port.string p =? itoa n) ≡ (p.port =? n)
string-=?-itoa p n = ground (
  arith,
  text_eq.same_iff (Port.string p) (itoa n),
  int_eq.same_iff p.port n,
  Port.string-itoa p,
  itoa-injective p.port n,
)

-- The number of hosts with a port grows by one exactly if that port is added to a host without it.
pub get_host_count_for_port-add_port :
    (ip : Text) (p : Port) (n : ℤ) (r : Result)
    → get_host_count_for_port n (add_port ip p r)
      ≡ (if (p.port =? n) && not (ip_has_port ip p r) then 1 else 0) + get_host_count_for_port n r
unfolding get_host_count_for_port add_port
get_host_count_for_port-add_port ip p n r =
    let m = insert (Port.string p) p (ports_of ip r) in
    ground (
      arith,
      count_key-insert (itoa n) ip m r.ip_ports,
      has_key-insert (Port.string p) (itoa n) p (ports_of ip r),
      string-=?-itoa p n,
      ip_has_port-ports_of ip p r,
      Port.string-itoa p,
      int_eq.same_iff p.port n,
    )
