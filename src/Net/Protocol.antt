-- ===== src/Net/Protocol.antt =====
-- pkg/protocol/protocol.go: the protocols, their names, and their JSON form.
use naabu.Prelude.{
  ℕ, Bool, true, false, ◌||◌, not, [], ◌∷◌, ◌++◌, Option, none, some, ◌≡◌, refl, ◌↔◌, arith, ltb,
  ◌==◌, if◌then◌else◌, length, Eq, ◌=?◌, Option-cases, inl, inr,
}
use naabu.Prelude.Text.{Text, codes, text_eq}

pub data Protocol : Type 0 where
  tcp udp arp : Protocol

abbrev pub protocol_beq : Protocol → Protocol → Bool
protocol_beq Protocol.tcp Protocol.tcp = true
protocol_beq Protocol.udp Protocol.udp = true
protocol_beq Protocol.arp Protocol.arp = true
protocol_beq _ _ = false

pub protocol_beq_iff : (a b : Protocol) → (protocol_beq a b ≡ true) ↔ (a ≡ b)
protocol_beq_iff a b = (ground arith, ground arith)

instance abbrev pub protocol_eq : Eq Protocol
protocol_eq = record { same = protocol_beq; same_iff = protocol_beq_iff }

-- `String`; the panic of the default case is for numbers that are no protocol.
unfoldable pub string : Protocol → Text
string Protocol.tcp = codes "tcp"
string Protocol.udp = codes "udp"
string Protocol.arp = codes "arp"

-- The three cases that the parsers share; `none` is their default case.
of_name : Text → Option Protocol
of_name s =
    if s =? codes "tcp"
    then some Protocol.tcp
    else if s =? codes "udp"
    then some Protocol.udp
    else if s =? codes "arp"
    then some Protocol.arp
    else none

-- `ParseProtocol`; `none` is its panic.
unfoldable pub parse_protocol : Text → Option Protocol
unfolding of_name
parse_protocol s = of_name s

unfoldable pub marshal_json : Protocol → Text
marshal_json p = b'"' ∷ string p ++ b'"' ∷ []

last_is : ℕ → Text → Bool
last_is c [] = false
last_is c (d ∷ []) = d == c
last_is c (d ∷ e ∷ s) = last_is c (e ∷ s)

drop_last : Text → Text
drop_last [] = []
drop_last (d ∷ []) = []
drop_last (d ∷ e ∷ s) = d ∷ drop_last (e ∷ s)

-- What is left of `s[1 : len(s)-1]` behind the test of the quotes.
unquote : Text → Option Text
unfolding last_is drop_last
unquote [] = none
unquote (c ∷ s) =
    if ltb (length (c ∷ s)) 2 || not (c == b'"') || not (last_is b'"' (c ∷ s))
    then none
    else some (drop_last s)

-- `UnmarshalJSON`: the protocol that is stored, `none` where an error is returned.
unfoldable pub unmarshal_json : Text → Option Protocol
unfolding unquote of_name
unmarshal_json s = elim (unquote s) [ none ↦ none | some t ↦ of_name t ]

-- The name of a protocol is parsed to it, and its JSON form is read back to it.
pub parse_protocol-string :
    (p : Protocol)
    → (parse_protocol (string p) ≡ some p) × (unmarshal_json (marshal_json p) ≡ some p)
unfolding parse_protocol string unmarshal_json marshal_json
parse_protocol-string Protocol.tcp = (refl, refl)
parse_protocol-string Protocol.udp = (refl, refl)
parse_protocol-string Protocol.arp = (refl, refl)

of_name_sound : (s : Text) (p : Protocol) → of_name s ≡ some p → s ≡ string p
unfolding of_name string
of_name_sound s p h = ground (
  arith,
  text_eq.same_iff s (codes "tcp"),
  text_eq.same_iff s (codes "udp"),
  text_eq.same_iff s (codes "arp"),
)

unquote_inv : (c : ℕ) (s : Text) → last_is c s ≡ true → s ≡ drop_last s ++ c ∷ []
unfolding last_is drop_last
unquote_inv c [] h = cc
unquote_inv c (d ∷ []) h = ground arith
unquote_inv c (d ∷ e ∷ s) h = ground (arith, unquote_inv c (e ∷ s) h)

unquote_sound : (s t : Text) → unquote s ≡ some t → s ≡ b'"' ∷ t ++ b'"' ∷ []
unfolding unquote
unquote_sound [] t h = cc
unquote_sound (c ∷ []) t h = ground arith
unquote_sound (c ∷ d ∷ s) t h = ground (arith, unquote_inv b'"' (d ∷ s))

unmarshal_json_sound : (s : Text) (p : Protocol) → unmarshal_json s ≡ some p → s ≡ marshal_json p
unfolding unmarshal_json marshal_json
unmarshal_json_sound s p h = elim (Option-cases (unquote s)) [
  | inl e ↦ ground arith
  | inr (t, e) ↦ ground (arith, unquote_sound s t, of_name_sound t p)
]

-- A text is read as a protocol exactly when it is the JSON form of that protocol.
pub unmarshal_json_exact :
    (s : Text) (p : Protocol) → (unmarshal_json s ≡ some p) ↔ (s ≡ marshal_json p)
unmarshal_json_exact s p = (unmarshal_json_sound s p, λ e. rw e ((parse_protocol-string p).1))
