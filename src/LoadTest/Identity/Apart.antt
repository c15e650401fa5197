-- ===== src/LoadTest/Identity/Apart.antt =====
-- Which calls of purchaseEmail share an address.
use sd_flash_sale.Prelude.{
  ℕ, zero, suc, [], ◌⊎◌, ◌≢◌, arith, ◌∷◌, ◌++◌, Text, ◌≡◌, refl, sym, ap, ◌∙◌, true, false,
  Bool-cases, inl, inr, to_string, to_string-IsDigit, to_string-value, split-at, before, after,
  value_from,
}
use sd_flash_sale.LoadTest.Identity.{
  Settings, Call, unique_email, is_fresh, slot_of, repeat_email, purchase_email,
}

-- A text without its first `n` characters
abbrev skip : ℕ → Text → Text
skip zero s = s
skip (suc n) [] = []
skip (suc n) (c ∷ s) = skip n s

to_string_prefix :
    (m n : ℕ) (s t : Text) → to_string m ++ b'-' ∷ s ≡ to_string n ++ b'-' ∷ t → (m ≡ n) × (s ≡ t)
to_string_prefix m n s t same =
    let (m_first, s_last) = split-at b'-' (to_string m) s refl (to_string-IsDigit m) in
    let (n_first, t_last) = split-at b'-' (to_string n) t refl (to_string-IsDigit n) in
    let digits_same : to_string m ≡ to_string n = sym m_first ∙ ap (before b'-') same ∙ n_first in
    (
      sym (to_string-value m) ∙ ap (value_from 0) digits_same ∙ to_string-value n,
      sym s_last ∙ ap (after b'-') same ∙ t_last,
    )

pub unique_email_injective :
    (settings : Settings) (a b : Call)
    → unique_email settings a ≡ unique_email settings b
    → (a.vu ≡ b.vu) × (a.iter ≡ b.iter)
unfolding unique_email
unique_email_injective settings a b same =
    let (vu, rest) = to_string_prefix a.vu b.vu _ _ (ap (skip 2) same) in
    let (iter, tail) = to_string_prefix a.iter b.iter _ _ (ap (skip 4) rest) in (vu, iter)

repeat_email_injective :
    (scale : ℕ) (settings : Settings) (a b : Call)
    → repeat_email scale settings a ≡ repeat_email scale settings b
    → slot_of scale settings a ≡ slot_of scale settings b
unfolding repeat_email
repeat_email_injective scale settings a b same =
    let (slot, tail) =
      to_string_prefix (slot_of scale settings a) (slot_of scale settings b) _ _
        (ap (skip 6) same) in
    slot

abbrev first : Text → ℕ
first [] = 0
first (c ∷ s) = c

unique_email-repeat_email :
    (scale : ℕ) (settings : Settings) (a b : Call)
    → unique_email settings a ≢ repeat_email scale settings b
unfolding unique_email repeat_email
unique_email-repeat_email scale settings a b same = absurd (omega (arith, ap first same))

-- Within one run, two calls of purchaseEmail give the same address only if both are fresh and of the
-- same iteration of the same virtual user, or both are repeats that drew the same slot of the pool.
pub purchase_email_apart :
    (scale : ℕ) (settings : Settings) (a b : Call)
    → purchase_email scale settings a ≡ purchase_email scale settings b
    → ((is_fresh scale settings a ≡ true)
        × (is_fresh scale settings b ≡ true)
        × (a.vu ≡ b.vu)
        × (a.iter ≡ b.iter))
      ⊎ ((is_fresh scale settings a ≡ false)
          × (is_fresh scale settings b ≡ false)
          × (slot_of scale settings a ≡ slot_of scale settings b))
unfolding purchase_email
purchase_email_apart scale settings a b = elim (Bool-cases (is_fresh scale settings a)) [
  | inl fresh_a ↦ elim (Bool-cases (is_fresh scale settings b)) [
    | inl fresh_b ↦
        rw (fresh_a, fresh_b)
          (λ same.
            let (vu, iter) = unique_email_injective settings a b same in inl (refl, refl, vu, iter))
    | inr repeats_b ↦
        rw (fresh_a, repeats_b) (λ same. absurd (unique_email-repeat_email scale settings a b same))
  ]
  | inr repeats_a ↦ elim (Bool-cases (is_fresh scale settings b)) [
    | inl fresh_b ↦
        rw (repeats_a, fresh_b)
          (λ same. absurd (unique_email-repeat_email scale settings b a (sym same)))
    | inr repeats_b ↦
        rw (repeats_a, repeats_b)
          (λ same. inr (refl, refl, repeat_email_injective scale settings a b same))
  ]
]
