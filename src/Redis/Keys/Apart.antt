-- ===== src/Redis/Keys/Apart.antt =====
-- The keys of packages/redis/src/keys.ts do not collide.
use sd_flash_sale.Prelude.{
  ℕ, ◌≡◌, refl, ap, sym, ◌≢◌, false, [], ◌∷◌, ◌++◌, arith, inl, inr, Bool-cases, Text, codes,
  text_eq, text_eq_iff, length, length-append, Bool-ext, text_eq_comm, ◌∙◌,
}
use sd_flash_sale.Redis.Keys.{
  namespace, sale_stock, sale_meta, sale_buyers, KeyKind, stock, meta, buyers, sale_key,
}

last_or : ℕ → Text → ℕ
last_or d [] = d
last_or d (a ∷ s) = last_or a s

last_or-append : (d : ℕ) (s : Text) (a : ℕ) (t : Text) → last_or d (s ++ a ∷ t) ≡ last_or a t
unfolding last_or
last_or-append d [] a t = refl
last_or-append d (c ∷ s) a t = last_or-append c s a t

append_cancel_right : (s t u : Text) → s ++ u ≡ t ++ u → s ≡ t
append_cancel_right [] [] u h = refl
append_cancel_right [] (b ∷ t) u h = absurd (omega (arith, ap length h, length-append t u))
append_cancel_right (a ∷ s) [] u h = absurd (omega (arith, ap length h, length-append s u))
append_cancel_right (a ∷ s) (b ∷ t) u h =
    let rest : s ++ u ≡ t ++ u = cc in cc (append_cancel_right s t u rest)

prefix_cancel : (p s t : Text) → p ++ s ≡ p ++ t → s ≡ t
prefix_cancel [] s t h = h
prefix_cancel (a ∷ p) s t h = prefix_cancel p s t (cc)

-- The two prefixes, and then the sale's id before one suffix.
id_of_key :
    (suffix s t : Text)
    → namespace ++ (codes ":sale:" ++ (s ++ suffix))
      ≡ namespace ++ (codes ":sale:" ++ (t ++ suffix))
    → s ≡ t
id_of_key suffix s t h =
    append_cancel_right s t suffix
      (prefix_cancel (codes ":sale:") _ _ (prefix_cancel namespace _ _ h))

pub sale_stock-injective : (s t : Text) → sale_stock s ≡ sale_stock t → s ≡ t
unfolding sale_stock
sale_stock-injective = id_of_key (codes ":stock")

pub sale_meta-injective : (s t : Text) → sale_meta s ≡ sale_meta t → s ≡ t
unfolding sale_meta
sale_meta-injective = id_of_key (codes ":meta")

pub sale_buyers-injective : (s t : Text) → sale_buyers s ≡ sale_buyers t → s ≡ t
unfolding sale_buyers
sale_buyers-injective = id_of_key (codes ":buyers")

-- The last letters k, a and s tell the three kinds of key apart.
last_of_key :
    (a : ℕ) (id t : Text) → last_or 0 (namespace ++ (codes ":sale:" ++ (id ++ a ∷ t))) ≡ last_or a t
unfolding last_or
last_of_key a id t = last_or-append _ id a t

apart :
    (a b : ℕ) (s t u v : Text)
    → last_or a u ≢ last_or b v
    → text_eq
        (namespace ++ (codes ":sale:" ++ (s ++ a ∷ u)))
        (namespace ++ (codes ":sale:" ++ (t ++ b ∷ v)))
      ≡ false
apart a b s t u v h =
    elim (Bool-cases (
      text_eq (namespace ++ (codes ":sale:" ++ (s ++ a ∷ u)))
        (namespace ++ (codes ":sale:" ++ (t ++ b ∷ v))))) [
          | inl e ↦ absurd (h (cc ((text_eq_iff _ _).0 e, last_of_key a s u, last_of_key b t v)))
          | inr e ↦ e
        ]

pub stock-ne-meta : (s t : Text) → text_eq (sale_stock s) (sale_meta t) ≡ false
unfolding sale_stock sale_meta last_or
stock-ne-meta s t = apart 58 58 s t (codes "stock") (codes "meta") (omega arith)

pub stock-ne-buyers : (s t : Text) → text_eq (sale_stock s) (sale_buyers t) ≡ false
unfolding sale_stock sale_buyers last_or
stock-ne-buyers s t = apart 58 58 s t (codes "stock") (codes "buyers") (omega arith)

pub meta-ne-buyers : (s t : Text) → text_eq (sale_meta s) (sale_buyers t) ≡ false
unfolding sale_meta sale_buyers last_or
meta-ne-buyers s t = apart 58 58 s t (codes "meta") (codes "buyers") (omega arith)

pub buyers-ne-stock : (s t : Text) → text_eq (sale_buyers s) (sale_stock t) ≡ false
buyers-ne-stock s t = text_eq_comm _ _ ∙ stock-ne-buyers t s

pub buyers-ne-meta : (s t : Text) → text_eq (sale_buyers s) (sale_meta t) ≡ false
buyers-ne-meta s t = text_eq_comm _ _ ∙ meta-ne-buyers t s

pub meta-ne-stock : (s t : Text) → text_eq (sale_meta s) (sale_stock t) ≡ false
meta-ne-stock s t = text_eq_comm _ _ ∙ stock-ne-meta t s

ne_of_test : (s t : Text) → text_eq s t ≡ false → s ≢ t
ne_of_test s t h e = cc ((text_eq_iff s t).1 e)

-- One text is the key of one sale and one kind only.
pub sale_key-injective :
    (k l : KeyKind) (s t : Text) → sale_key k s ≡ sale_key l t → (k ≡ l) × (s ≡ t)
sale_key-injective stock stock s t h = (refl, sale_stock-injective s t h)
sale_key-injective meta meta s t h = (refl, sale_meta-injective s t h)
sale_key-injective buyers buyers s t h = (refl, sale_buyers-injective s t h)
sale_key-injective stock meta s t h = absurd (ne_of_test _ _ (stock-ne-meta s t) h)
sale_key-injective stock buyers s t h = absurd (ne_of_test _ _ (stock-ne-buyers s t) h)
sale_key-injective meta buyers s t h = absurd (ne_of_test _ _ (meta-ne-buyers s t) h)
sale_key-injective meta stock s t h = absurd (ne_of_test _ _ (stock-ne-meta t s) (sym h))
sale_key-injective buyers stock s t h = absurd (ne_of_test _ _ (stock-ne-buyers t s) (sym h))
sale_key-injective buyers meta s t h = absurd (ne_of_test _ _ (meta-ne-buyers t s) (sym h))

-- So a test on keys tells kinds apart, and is the test on the sales' ids for one kind.
pub text_eq-sale_key :
    (k : KeyKind) (s t : Text) → text_eq (sale_key k s) (sale_key k t) ≡ text_eq s t
text_eq-sale_key k s t = Bool-ext _ _ (
  λ h. (text_eq_iff s t).1 (sale_key-injective k k s t ((text_eq_iff _ _).0 h)).1,
  λ h. (text_eq_iff _ _).1 (ap (sale_key k) ((text_eq_iff s t).0 h)),
)

-- The keys of two sales are apart, whatever their kinds.
pub sale_key-apart :
    (k l : KeyKind) (s t : Text)
    → text_eq s t ≡ false
    → text_eq (sale_key k s) (sale_key l t) ≡ false
sale_key-apart k l s t h = elim (Bool-cases (text_eq (sale_key k s) (sale_key l t))) [
  | inl e ↦ absurd (ne_of_test s t h (sale_key-injective k l s t ((text_eq_iff _ _).0 e)).1)
  | inr e ↦ e
]
