-- ===== src/Redis/Gate/Stock.antt =====
-- No overselling and one unit per buyer, in whatever order attempts on any sales reach Redis.
use sd_flash_sale.Prelude.{
  ℕ, ◌+◌, ◌≤◌, ◌≡◌, refl, sym, Bool, true, false, ◌&&◌, List, [], ◌∷◌, arith, Text, inl, inr,
  Bool-cases, if◌then◌else◌, text_eq, text_eq_iff, contains, count, count-eq-zero, count-append,
  length, length-append, ◌∙◌, ◌++◌, subst,
}
use sd_flash_sale.Redis.Keys.{normalize_email, stock, meta, buyers}
use sd_flash_sale.Redis.Server.{RedisServer}
use sd_flash_sale.Redis.Reserve.{ReservationCode, reserved, reserve_purchase}
use sd_flash_sale.Redis.Gate.{Gate, decide, take_unit, settle, attempt, IsWarm}
use sd_flash_sale.Redis.Gate.Refine.{reserve_purchase-refines-attempt, reserve_purchase-frame}

pub record Attempt : Type 0 where
  pub sale_id : Text
  pub email : Text
  pub now : ℕ

abbrev pub is_reserved : ReservationCode → Bool
is_reserved reserved = true
is_reserved _ = false

-- The buyers, in the stored form, to whom a unit of the sale was given.
abbrev won_one : Text → Attempt → ReservationCode → List Text
won_one id a code =
    if is_reserved code && text_eq a.sale_id id then normalize_email a.email ∷ [] else []

unfoldable pub won : Text → List (Attempt × ReservationCode) → List Text
won id [] = []
won id ((a, code) ∷ log) = won_one id a code ++ won id log

abbrev pub AtMostOnce : List Text → Type 0
AtMostOnce bs = (b : Text) → count (text_eq b) bs ≤ 1

-- One abstract attempt: a unit for `reserved`, of which there was one left and the buyer had none.
abbrev pub wins : Text → ReservationCode → List Text
wins buyer code = if is_reserved code then buyer ∷ [] else []

pub record Given (g g' : Gate) (ws : List Text) : Type 0 where
  pub stock_given : g'.stock + length ws ≡ g.stock
  pub buyers_given :
      (b : Text) → count (text_eq b) g'.buyers ≡ count (text_eq b) ws + count (text_eq b) g.buyers
  pub once_given : AtMostOnce g.buyers → AtMostOnce g'.buyers
  pub starts_same : g'.starts_at ≡ g.starts_at
  pub ends_same : g'.ends_at ≡ g.ends_at

take_unit-once :
    (g : Gate) (buyer : Text)
    → contains g.buyers buyer ≡ false
    → AtMostOnce g.buyers
    → AtMostOnce (take_unit g buyer).buyers
unfolding take_unit contains
take_unit-once g buyer h once b = elim (Bool-cases (text_eq b buyer)) [
  | inl same ↦
      rw (same, count-eq-zero (text_eq b) g.buyers (rw ((text_eq_iff b buyer).0 same) h))
        (omega arith)
  | inr differ ↦ rw differ (once b)
]

settle-Given :
    (g : Gate) (buyer : Text) (now : ℕ) (code : ReservationCode)
    → decide g buyer now ≡ code
    → Given g (settle g buyer code).1 (wins buyer code)
unfolding decide
settle-Given g buyer now reserved e = record {
  stock_given = unfold take_unit in ground arith;
  buyers_given = λ b. unfold take_unit in ground arith;
  once_given = take_unit-once g buyer (ground arith);
  starts_same = unfold take_unit in refl;
  ends_same = unfold take_unit in refl;
}
settle-Given g buyer now _ e = record {
  stock_given = omega arith;
  buyers_given = λ b. omega arith;
  once_given = λ once. once;
  starts_same = refl;
  ends_same = refl;
}

pub settle-code :
    (g : Gate) (buyer : Text) (code : ReservationCode) → (settle g buyer code).0 ≡ code
settle-code g buyer reserved = refl
settle-code g buyer _ = refl

pub attempt-Given :
    (g : Gate) (buyer : Text) (now : ℕ)
    → Given g (attempt g buyer now).1 (wins buyer (attempt g buyer now).0)
unfolding attempt
attempt-Given g buyer now =
    rw (settle-code g buyer (decide g buyer now)) (settle-Given g buyer now _ refl)

won_one-same :
    (id : Text) (a : Attempt) (code : ReservationCode)
    → text_eq a.sale_id id ≡ true
    → won_one id a code ≡ wins (normalize_email a.email) code
won_one-same id a code h = rw h (ground arith)

won_one-other :
    (id : Text) (a : Attempt) (code : ReservationCode)
    → text_eq a.sale_id id ≡ false
    → won_one id a code ≡ []
won_one-other id a code h = rw h (ground arith)

Given-trans :
    {f g h : Gate} {us vs : List Text} → Given f g us → Given g h vs → Given f h (us ++ vs)
Given-trans {us = us} {vs = vs} p q = record {
  stock_given = omega (arith, p.stock_given, q.stock_given, length-append us vs);
  buyers_given =
      λ b. omega (arith, p.buyers_given b, q.buyers_given b, count-append (text_eq b) us vs);
  once_given = λ once. q.once_given (p.once_given once);
  starts_same = q.starts_same ∙ p.starts_same;
  ends_same = q.ends_same ∙ p.ends_same;
}

pub Given-refl : (g : Gate) → Given g g []
Given-refl g = record {
  stock_given = omega arith;
  buyers_given = λ b. omega arith;
  once_given = λ once. once;
  starts_same = refl;
  ends_same = refl;
}

module _ (r : RedisServer) where
  open r use {Store}

  -- Attempts in the order in which Redis runs their scripts, with its answers.
  pub serve : List Attempt → Store → List (Attempt × ReservationCode) × Store
  serve [] s = ([], s)
  serve (a ∷ rest) s =
      let (code, s') = reserve_purchase r a.sale_id a.email a.now s in
      let (log, t) = serve rest s' in ((a, code) ∷ log, t)

  record Served (id : Text) (g : Gate) (log : List (Attempt × ReservationCode)) (t : Store)
      : Type 0 where
    gate : Gate
    warm : IsWarm r id gate t
    given : Given g gate (won id log)

  pub serve-other :
      (id : Text) (a : Attempt) (g : Gate) (s : Store)
      → text_eq a.sale_id id ≡ false
      → IsWarm r id g s
      → IsWarm r id g (reserve_purchase r a.sale_id a.email a.now s).1
  serve-other id a g s ne w = record {
    stock_key = reserve_purchase-frame r a.sale_id a.email a.now s stock id ne ∙ w.stock_key;
    meta_key = reserve_purchase-frame r a.sale_id a.email a.now s meta id ne ∙ w.meta_key;
    buyers_key = reserve_purchase-frame r a.sale_id a.email a.now s buyers id ne ∙ w.buyers_key;
  }

  -- One attempt, on this sale or on another, by the gate's state before.
  step-Given :
      (id : Text) (a : Attempt) (g : Gate) (s : Store)
      → IsWarm r id g s
      → let (code, t) = reserve_purchase r a.sale_id a.email a.now s in
        (g' : Gate) × IsWarm r id g' t × Given g g' (won_one id a code)
  step-Given id a g s w = elim (Bool-cases (text_eq a.sale_id id)) [
    | inl same ↦
        let e : id ≡ a.sale_id = sym ((text_eq_iff _ _).0 same) in
        let buyer = normalize_email a.email in
        let (code_eq, warm) =
          reserve_purchase-refines-attempt r a.sale_id a.email a.now g s
            (subst (λ i. IsWarm r i g s) e w) in
        (
          (attempt g buyer a.now).1,
          subst
              (λ i.
                IsWarm r i (attempt g buyer a.now).1
                  (reserve_purchase r a.sale_id a.email a.now s).1)
              (sym e) warm,
          rw (won_one-same id a _ same, code_eq) (attempt-Given g buyer a.now),
        )
    | inr differ ↦ (
      g,
      serve-other id a g s differ w,
      rw (won_one-other id a (reserve_purchase r a.sale_id a.email a.now s).0 differ)
          (Given-refl g),
    )
  ]

  serve-Served :
      (id : Text) (rest : List Attempt) (g : Gate) (s : Store)
      → IsWarm r id g s
      → Served id g (serve rest s).0 (serve rest s).1
  unfolding serve won
  serve-Served id [] g s w = record { gate = g; warm = w; given = Given-refl g }
  serve-Served id (a ∷ rest) g s w =
      let (g', w', given) = step-Given id a g s w in
      let later = serve-Served id rest g' _ w' in
      record { gate = later.gate; warm = later.warm; given = Given-trans given later.given }

  -- From a warmed sale, whatever attempts on any sales follow: the units given to buyers of this sale
  -- are at most its stock, and those left and those given make up the stock.
  pub serve_never_oversells :
      (id : Text) (rest : List Attempt) (g : Gate) (s : Store)
      → IsWarm r id g s
      → let (log, t) = serve rest s in
        (g' : Gate) × IsWarm r id g' t × (g'.stock + length (won id log) ≡ g.stock)
  serve_never_oversells id rest g s w =
      let end = serve-Served id rest g s w in (end.gate, end.warm, end.given.stock_given)

  -- From a warmed sale whose buyers are each listed once, whatever attempts follow: no buyer, told
  -- apart without regard to letter case, is given a second unit of the sale, nor a first one if
  -- the sale was warmed with that buyer in it.
  pub serve_once_per_buyer :
      (id : Text) (rest : List Attempt) (g : Gate) (s : Store) (email : Text)
      → IsWarm r id g s
      → AtMostOnce g.buyers
      → count (text_eq (normalize_email email)) (won id (serve rest s).0)
          + count (text_eq (normalize_email email)) g.buyers
        ≤ 1
  serve_once_per_buyer id rest g s email w once =
      let end = serve-Served id rest g s w in
      omega (
        arith,
        end.given.buyers_given (normalize_email email),
        end.given.once_given once (normalize_email email),
      )
