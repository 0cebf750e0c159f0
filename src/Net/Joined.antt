-- ===== src/Net/Joined.antt =====
-- What `net.SplitHostPort` reads of what `net.JoinHostPort` writes.
use naabu.Prelude.{ℕ, ◌≡◌, refl, inl, inr, arith, [], ◌∷◌, ◌++◌, none, some, Bool-cases}
use naabu.Prelude.Text.{Text, Lacks, contains, contains-Lacks, Lacks-contains}
use naabu.Prelude.Search.{split_first_lem}
use naabu.Net.HostPort.{split_last, behind_bracket, plain, split_host_port, join_host_port}

split_last-none : (c : ℕ) (s : Text) → Lacks c s → split_last c s ≡ none
unfolding split_last
split_last-none c [] h = refl
split_last-none c (d ∷ s) (h, hs) = rw (split_last-none c s hs) (ground arith)

split_last_lem : (c : ℕ) (s t : Text) → Lacks c t → split_last c (s ++ c ∷ t) ≡ some (s, t)
unfolding split_last
split_last_lem c [] t h = rw (split_last-none c t h) (ground arith)
split_last_lem c (d ∷ s) t h = rw (split_last_lem c s t h) refl

-- No bracket stands in the text.
abbrev pub Unbracketed : Text → Type 0
Unbracketed s = Lacks b'[' s × Lacks b']' s

bracketed :
    (h p : Text)
    → Unbracketed h
    → Unbracketed p
    → Lacks b':' p
    → split_host_port (b'[' ∷ (h ++ b']' ∷ b':' ∷ p)) ≡ some (h, p)
unfolding split_host_port behind_bracket
bracketed h p (h1, h2) (p1, p2) colon = rw (split_first_lem b']' h (b':' ∷ p) h2) (
    rw
      (
        Lacks-contains b':' p colon,
        Lacks-contains b'[' h h1,
        Lacks-contains b'[' p p1,
        Lacks-contains b']' p p2,
      )
      refl)

unbracketed :
    (h p : Text)
    → Unbracketed h
    → Unbracketed p
    → Lacks b':' p
    → Lacks b':' h
    → plain (split_last b':' (h ++ b':' ∷ p)) ≡ some (h, p)
unfolding plain
unbracketed h p (h1, h2) (p1, p2) colon bare = rw (split_last_lem b':' h p colon) (
    rw
      (
        Lacks-contains b':' h bare,
        Lacks-contains b'[' h h1,
        Lacks-contains b'[' p p1,
        Lacks-contains b']' h h2,
        Lacks-contains b']' p p2,
      )
      refl)

plain_first :
    (h p : Text)
    → Lacks b'[' h
    → split_host_port (h ++ b':' ∷ p) ≡ plain (split_last b':' (h ++ b':' ∷ p))
unfolding split_host_port
plain_first [] p h = refl
plain_first (c ∷ s) p (h, hs) = ground arith

pub split_host_port-join_host_port :
    (h p : Text)
    → Unbracketed h
    → Unbracketed p
    → Lacks b':' p
    → split_host_port (join_host_port h p) ≡ some (h, p)
unfolding join_host_port
split_host_port-join_host_port h p (h1, h2) ps colon = elim (Bool-cases (contains b':' h)) [
  | inl v6 ↦ rw v6 (bracketed h p (h1, h2) ps colon)
  | inr v4 ↦
      rw (v4, plain_first h p h1) (unbracketed h p (h1, h2) ps colon (contains-Lacks b':' h v4))
]
