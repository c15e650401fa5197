-- ===== src/LoadTest/Verify/Holds.antt =====
-- That the checks of packages/load-test/scripts/verify.ts hold of the tables that the program leaves.
use sd_flash_sale.Prelude.{
  ◌+◌, ◌≤◌, ◌≡◌, refl, true, List, [], ◌∷◌, map, some, Text, text_eq, contains, length, select,
  ◌==◌, arith, count, length-select, Bool-cases, inl, inr, text_eq_iff, text_eq_refl, to_lower_case,
}
use sd_flash_sale.Prelude.Result.{ok}
use sd_flash_sale.Database.Schema.{SaleRow, PurchaseRow, Tables, find_sale, is_purchase_of}
use sd_flash_sale.Database.Invariant.{IsConsistent}
use sd_flash_sale.LoadTest.Verify.{VerifyResult, distinct, every, checks_of, verify_found, verify}

abbrev emails_of : Text → List PurchaseRow → List Text
emails_of id ps = map (λ p. p.email) (select (λ p. text_eq p.sale_id id) ps)

-- An address among a sale's purchases has a purchase of the sale.
count-emails_of :
    (id e : Text) (ps : List PurchaseRow)
    → contains (emails_of id ps) e ≡ true
    → 1 ≤ count (is_purchase_of id e) ps
unfolding contains
count-emails_of id e [] h = absurd (ground arith)
count-emails_of id e (p ∷ ps) h =
    ground (arith, text_eq_iff e p.email, text_eq_refl (to_lower_case e), count-emails_of id e ps)

distinct-emails_of :
    (id : Text) (ps : List PurchaseRow)
    → ((e : Text) → count (is_purchase_of id e) ps ≤ 1)
    → length (distinct (emails_of id ps)) ≡ length (select (λ p. text_eq p.sale_id id) ps)
unfolding distinct
distinct-emails_of id [] one = refl
distinct-emails_of id (p ∷ ps) one =
    let rest = distinct-emails_of id ps (λ e. ground (arith, one e)) in
    elim (Bool-cases (text_eq p.sale_id id)) [
      | inl t ↦ elim (Bool-cases (contains (emails_of id ps) p.email)) [
        | inl again ↦ absurd (
            ground (
              arith,
              t,
              one p.email,
              count-emails_of id p.email ps again,
              text_eq_refl (to_lower_case p.email),
            ))
        | inr new ↦ rw (t, new) (ground (arith, rest))
      ]
      | inr f ↦ rw f rest
    ]

checks_of-every :
    (sale : SaleRow) (rows : List PurchaseRow)
    → sale.remaining_stock + length rows ≡ sale.total_stock
    → length (distinct (map (λ p. p.email) rows)) ≡ length rows
    → every (checks_of sale rows) ≡ true
checks_of-every sale rows balanced unique = elim (Bool-cases (sale.remaining_stock == 0)) [
  | inl t ↦ rw (t, unique) (ground arith)
  | inr f ↦ rw (f, unique) (ground arith)
]

-- On tables that are consistent, `verify` answers for every sale that is there, and all of its checks
-- pass.
pub verify-IsConsistent :
    (id : Text) (sale : SaleRow) (t : Tables)
    → IsConsistent t
    → find_sale id t.sales ≡ some sale
    → (result : VerifyResult) × (verify id t ≡ ok result) × (result.all_passed ≡ true)
unfolding verify verify_found
verify-IsConsistent id sale t c found =
    let rows = select (λ p. text_eq p.sale_id id) t.purchases in
    (
      record { all_passed = every (checks_of sale rows); checks = checks_of sale rows },
      rw found refl,
      checks_of-every sale rows
          (omega (
            arith,
            c.balanced id sale found,
            length-select (λ p. text_eq p.sale_id id) t.purchases,
          ))
          (distinct-emails_of id t.purchases (c.once id)),
    )
