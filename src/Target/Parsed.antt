-- ===== src/Target/Parsed.antt =====
-- pkg/target/parser.go: what `Parse` and `ParseAll` return.
use naabu.Prelude.{
  ℕ, ◌<◌, ◌^◌, ◌≡◌, ◌≢◌, refl, sym, ap, ◌∙◌, inl, inr, arith, Bool, false, List, [], ◌∷◌, ◌++◌, map,
  Option, ne-=?, ok, err, All, All-append, All-map, Bool-cases, elem, Outcome-cases, append-nil,
  append_assoc,
}
use mathlib.Core.Path.{subst}
use naabu.Prelude.Int.{pos}
use naabu.Prelude.Text.{Text, codes, Lacks, is_space, trim_space_id, text_eq, has_prefix, contains}
use naabu.Prelude.Search.{contains_text}
use naabu.Prelude.Decimal.{atoi-print, print, print-IsDigit, print-Lacks}
use naabu.Prelude.Unseen.{
  add_unseen, add_all, IsDistinct, add_all-IsCollected, elem-add_all, add_all-All,
}
use naabu.Net.HostPort.{join_host_port}
use naabu.Net.Joined.{Unbracketed, split_host_port-join_host_port}
use naabu.Target.{Target, TargetError, Url, plain, of_host_port, key, parse, parse_each, parse_all}

-- A text without a slash is no URL.
contains_text_slash : (s : Text) → Lacks b'/' s → contains_text (codes "://") s ≡ false
unfolding contains_text has_prefix
contains_text_slash [] h = refl
contains_text_slash (c ∷ []) (h, hs) = ground arith
contains_text_slash (c ∷ d ∷ s) (h, hs) = ground (arith, contains_text_slash (d ∷ s) hs)

Visible : Text → Type 0
Visible = All (λ c. is_space c ≡ false)

print-Visible : (n : ℕ) → All (λ c. is_space c ≡ false) (print n)
unfolding is_space
print-Visible n = All-map (print n) (λ c d. ground arith) (print-IsDigit n)

join-All :
    (P : ℕ → Type 0) (h p : Text)
    → All P h
    → All P p
    → P b':'
    → P b'['
    → P b']'
    → All P (join_host_port h p)
unfolding join_host_port
join-All P h p ph pp colon left right = elim (Bool-cases (contains b':' h)) [
  | inl v6 ↦ rw v6 (left, All-append P h (b']' ∷ b':' ∷ p) ph (right, (colon, pp)))
  | inr v4 ↦ rw v4 (All-append P h (b':' ∷ p) ph (colon, pp))
]

append-ne-nil : (h : Text) (c : ℕ) (p : Text) → h ++ c ∷ p ≢ []
append-ne-nil [] c p e = cc
append-ne-nil (d ∷ h) c p e = cc

join-ne-nil : (h p : Text) → join_host_port h p ≢ []
unfolding join_host_port
join-ne-nil h p = elim (Bool-cases (contains b':' h)) [
  | inl v6 ↦ rw v6 (λ e. cc)
  | inr v4 ↦ rw v4 (append-ne-nil h b':' p)
]

module _ (parse_cidr : Text → Bool) (parse_url : Text → Option Url) where
  -- If no text without a slash is a block, a host without brackets, blanks and slashes, an IPv6 address
  -- among them, and a port from 0 on are read back from the text that joins them.
  pub parse-join_host_port :
      ((s : Text) → Lacks b'/' s → parse_cidr s ≡ false)
      → (h : Text) (n : ℕ) → All (λ c. is_space c ≡ false) h
      → Lacks b'/' h
      → Unbracketed h
      → n < 2 ^ 63
      → parse parse_cidr parse_url (join_host_port h (print n))
        ≡ ok (record (plain (join_host_port h (print n)) h) { port = pos n })
  unfolding parse of_host_port
  parse-join_host_port bare h n visible slash brackets small =
      let raw = join_host_port h (print n) in
      let no_slash =
        join-All _ h (print n) slash (print-Lacks b'/' n refl) (omega arith) (omega arith)
          (omega arith) in
      rw
        (
          trim_space_id raw
              (unfold is_space in join-All _ h (print n) visible (print-Visible n) refl refl refl),
          ne-=? raw [] (join-ne-nil h (print n)),
          bare raw no_slash,
          contains_text_slash raw no_slash,
          split_host_port-join_host_port h (print n) brackets
              (print-Lacks b'[' n refl, print-Lacks b']' n refl) (print-Lacks b':' n refl),
          atoi-print n small,
        )
        refl

  -- The targets and the errors of the texts one by one.
  abbrev pub parsed : List Text → List Target
  parsed [] = []
  parsed (r ∷ raws) = elim (parse parse_cidr parse_url r) [
    | ok t ↦ t ∷ parsed raws
    | err e ↦ parsed raws
  ]

  abbrev pub failures : List Text → List TargetError
  failures [] = []
  failures (r ∷ raws) = elim (parse parse_cidr parse_url r) [
    | ok t ↦ failures raws
    | err e ↦ e ∷ failures raws
  ]

  parse_each-exact :
      (raws : List Text) (st : List Text × List Target) (errs : List TargetError)
      → parse_each parse_cidr parse_url raws st errs
        ≡ (add_all key st (parsed raws), errs ++ failures raws)
  unfolding parse_each add_all
  parse_each-exact [] st errs = rw append-nil refl
  parse_each-exact (r ∷ raws) st errs = elim (Outcome-cases (parse parse_cidr parse_url r)) [
    | inl (t, e) ↦
        rw (parse_each, parsed, failures, e) (parse_each-exact raws (add_unseen key st t) errs)
    | inr (e, h) ↦
        rw (parse_each, parsed, failures, h)
          (parse_each-exact raws st (errs ++ e ∷ [])
            ∙ ap (λ (es : List TargetError). (add_all key st (parsed raws), es))
                (append_assoc errs (e ∷ []) (failures raws)))
  ]

  -- What `ParseAll` promises: the errors of the texts that do not parse, in their order, and of the
  -- texts that parse one target for a key.
  pub record IsParsed (raws : List Text) (targets : List Target) (errs : List TargetError)
      : Type 1 where
    pub errors : errs ≡ failures raws
    pub distinct : IsDistinct (map key targets)
    pub keys : (k : Text) → elem k (map key targets) ≡ elem k (map key (parsed raws))
    pub sound : (P : Target → Type 0) → All P (parsed raws) → All P targets

  -- ParseAll returns the errors of the texts that do not parse, in their order, and targets with pairwise
  -- different keys: exactly the keys of the texts that parse, and what holds of all these targets
  -- holds of the returned ones.
  pub parse_all-IsParsed :
      (raws : List Text)
      → IsParsed raws
          ((parse_all parse_cidr parse_url raws).0)
          ((parse_all parse_cidr parse_url raws).1)
  unfolding parse_all
  parse_all-IsParsed raws =
      let (keys, distinct) = add_all-IsCollected key ([], []) (parsed raws) (refl, tt) in
      subst
        (λ (out : (List Text × List Target) × List TargetError). IsParsed raws (out.0.1) (out.1))
        (sym (parse_each-exact raws ([], []) []))
        (record {
          errors = refl;
          distinct = subst IsDistinct keys distinct;
          keys = λ k.
              ap (λ (ks : List Text). elem k ks) (sym keys)
              ∙ elem-add_all key k ([], []) (parsed raws);
          sound = λ P h. add_all-All key P ([], []) (parsed raws) tt h;
        })
