-- ===== src/Web/ValidateEmail/Shape.antt =====
-- Which addresses match the pattern.
use sd_flash_sale.Prelude.{
  ℕ, ◌≡◌, ◌↔◌, refl, sym, ap, ◌∙◌, Bool, true, [], ◌∷◌, ◌++◌, Text, All, arith, Bool-cases, inl,
  inr,
}
use sd_flash_sale.Web.ValidateEmail.{
  trim_start, trim_end, is_plain, one_or_more, char, at_end, email_pattern, is_valid_email,
}

-- A text of at least one plain character
pub record IsPart (s : Text) : Type 0 where
  pub first : ℕ
  pub others : Text
  pub whole : s ≡ first ∷ others
  pub plain : All (λ c. is_plain c ≡ true) s

abbrev Matches : (Text → Bool) → Text → Type 0
Matches next s = (a : Text) × (rest : Text) × IsPart a × (s ≡ a ++ rest) × (next rest ≡ true)

one_or_more-Matches :
    (next : Text → Bool) (s : Text) → one_or_more is_plain next s ≡ true → Matches next s
one_or_more-Matches next [] h = absurd (cc h)
one_or_more-Matches next (c ∷ s) h =
    let plain : is_plain c ≡ true = ground (arith, h) in
    elim (Bool-cases (one_or_more is_plain next s)) [
      | inl more ↦
          let (a, rest, part, split, follows) = one_or_more-Matches next s more in
          (
            c ∷ a,
            rest,
            record { first = c; others = a; whole = refl; plain = (plain, part.plain) },
            ap (λ (t : Text). c ∷ t) split,
            follows,
          )
      | inr last ↦ (
        c ∷ [],
        s,
        record { first = c; others = []; whole = refl; plain = (plain, tt) },
        refl,
        ground (arith, h, last),
      )
    ]

Matches-one_or_more :
    (next : Text → Bool) (a rest : Text)
    → IsPart a
    → next rest ≡ true
    → one_or_more is_plain next (a ++ rest) ≡ true
Matches-one_or_more next [] rest part h = absurd (cc part.whole)
Matches-one_or_more next (c ∷ []) rest part h = ground (arith, part.plain.0, h)
Matches-one_or_more next (c ∷ d ∷ s) rest part h =
    let later =
      Matches-one_or_more next (d ∷ s) rest
        (record { first = d; others = s; whole = refl; plain = part.plain.1 }) h in
    ground (arith, part.plain.0, later)

char-cases :
    (c : ℕ) (next : Text → Bool) (s : Text)
    → char c next s ≡ true
    → (t : Text) × (s ≡ c ∷ t) × (next t ≡ true)
char-cases c next [] h = absurd (cc h)
char-cases c next (d ∷ s) h =
    let same : d ≡ c = ground (arith, h) in (s, ap (λ e. e ∷ s) same, ground (arith, h))

at_end-nil : (s : Text) → at_end s ≡ true → s ≡ []
at_end-nil [] h = refl
at_end-nil (c ∷ s) h = absurd (cc h)

-- name@domain.tld, each part of characters that are neither white space nor @
abbrev pub IsAddress : Text → Type 0
IsAddress s =
    (name : Text) × (domain : Text) × (tld : Text) × IsPart name
    × IsPart domain
    × IsPart tld
    × (s ≡ name ++ b'@' ∷ (domain ++ b'.' ∷ tld))

append_nil : (s : Text) → s ++ [] ≡ s
append_nil [] = refl
append_nil (c ∷ s) = ap (λ (t : Text). c ∷ t) (append_nil s)

-- An address is valid exactly if, with white space removed at both ends, it is a name, an @, a domain, a
-- point and a last part, each of at least one character that is neither white space nor an @.
pub is_valid_email-shape :
    (email : Text) → (is_valid_email email ≡ true) ↔ IsAddress (trim_end (trim_start email))
unfolding is_valid_email email_pattern
is_valid_email-shape email = (
  λ h.
      let (name, rest, is_name, split, follows) =
        one_or_more-Matches _ (trim_end (trim_start email)) h in
      let (after, at_sign, then_domain) = char-cases b'@' _ rest follows in
      let (domain, rest', is_domain, split', follows') = one_or_more-Matches _ after then_domain in
      let (after', point, then_tld) = char-cases b'.' _ rest' follows' in
      let (tld, nothing, is_tld, split'', ends) = one_or_more-Matches at_end after' then_tld in
      let whole : after' ≡ tld =
        split'' ∙ (ap (λ (t : Text). tld ++ t) (at_end-nil nothing ends) ∙ append_nil tld) in
      (
        name,
        domain,
        tld,
        is_name,
        is_domain,
        is_tld,
        split
            ∙ ap (λ (t : Text). name ++ t)
                (at_sign
                  ∙ ap (λ (t : Text). b'@' ∷ t)
                      (split'
                        ∙ ap (λ (t : Text). domain ++ t)
                            (point ∙ ap (λ (t : Text). b'.' ∷ t) whole))),
      ),
  λ (name, domain, tld, is_name, is_domain, is_tld, split).
      let last : one_or_more is_plain at_end tld ≡ true =
        ap (one_or_more is_plain at_end) (sym (append_nil tld))
        ∙ Matches-one_or_more at_end tld [] is_tld refl in
      let middle =
        Matches-one_or_more (char b'.' (one_or_more is_plain at_end)) domain (b'.' ∷ tld) is_domain
          last in
      rw split (Matches-one_or_more _ name (b'@' ∷ (domain ++ b'.' ∷ tld)) is_name middle),
)
