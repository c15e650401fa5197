-- ===== src/Api/Purchases/Write/Outcomes.antt =====
-- `writePurchase` of apps/api/src/purchases/purchases.service.ts, on every branch.
use sd_flash_sale.Prelude.{
  ℕ, ◌-◌, ◌≡◌, ◌⊎◌, refl, ap, ◌∙◌, Bool, true, false, ◌∷◌, Option, none, some, Text, text_eq, any,
  ltb, if◌then◌else◌, if-cases, arith, inl, inr, Bool-cases, Option-cases,
}
use sd_flash_sale.Prelude.Result.{Result, ok, throws, Result-cases}
use sd_flash_sale.Contract.{PurchaseResult, PurchaseOutcome}
use sd_flash_sale.Database.Schema.{
  SaleRow, PurchaseRow, Tables, find_sale, is_purchase_of, outside_period, refusal,
  unique_violation, purchase_outside_sale_window,
}
use sd_flash_sale.Database.Server.{
  Postgres, Thrown, CommitFault, rolled_back, unanswered, is_unanswered, query_error, inserted,
  add_purchase, set_stock, decremented,
}
use sd_flash_sale.Database.Invariant.{
  IsConsistent, add_purchase-IsConsistentBy, set_stock-IsConsistentBy,
}
use sd_flash_sale.Api.PgError.{is_pg_error_with_code}
use sd_flash_sale.Api.Purchases.Write.{
  success_result, already_purchased_result, sold_out_result, sale_not_active_result, WriteError,
  sold_out_error, database, caught, purchase_row, take_one, write_body, write_purchase,
}

module _ (pg : Postgres) where
  -- The tables behind a purchase that went through.
  abbrev pub recorded : ℕ → Text → Text → SaleRow → Tables → Tables
  recorded now sale_id email sale t = record t {
    sales = set_stock sale_id (sale.remaining_stock - 1) t.sales;
    purchases = purchase_row pg sale_id email now ∷ t.purchases;
  }

  -- What the body of the transaction does on a sale that is there.
  body_of : ℕ → Text → Text → SaleRow → Tables → Result WriteError (Unit {0} × Tables)
  body_of now sale_id email sale t =
      if outside_period (some sale) now
      then throws (database (query_error purchase_outside_sale_window))
      else if any (is_purchase_of sale_id email) t.purchases
      then throws (database (query_error unique_violation))
      else if ltb 0 sale.remaining_stock
      then ok (tt, recorded now sale_id email sale t)
      else throws sold_out_error

  refusal-found :
      (now : ℕ) (sale_id email : Text) (sale : SaleRow) (t : Tables)
      → find_sale sale_id t.sales ≡ some sale
      → refusal t (purchase_row pg sale_id email now) ≡ (
          if outside_period (some sale) now
          then some purchase_outside_sale_window
          else if any (is_purchase_of sale_id email) t.purchases
          then some unique_violation
          else none)
  unfolding refusal
  refusal-found now sale_id email sale t found = rw found refl

  take_one-found :
      (now : ℕ) (sale_id email : Text) (sale : SaleRow) (t : Tables)
      → find_sale sale_id t.sales ≡ some sale
      → take_one pg sale_id (ok (add_purchase t (purchase_row pg sale_id email now))) ≡ (
          if ltb 0 sale.remaining_stock
          then ok (tt, recorded now sale_id email sale t)
          else throws sold_out_error)
  unfolding take_one decremented
  take_one-found now sale_id email sale t found =
      rw
        (pg.decrement_law (add_purchase t (purchase_row pg sale_id email now)) sale_id
          (λ stock. ltb 0 stock) 1)
        (rw (found, decremented) (ground arith))

  write_body-body_of :
      (now : ℕ) (sale_id email : Text) (sale : SaleRow) (t : Tables)
      → find_sale sale_id t.sales ≡ some sale
      → write_body pg sale_id email now t ≡ body_of now sale_id email sale t
  unfolding write_body inserted body_of
  write_body-body_of now sale_id email sale t found =
      rw
        (
          pg.insert_law t (purchase_row pg sale_id email now),
          refusal-found now sale_id email sale t found,
          inserted,
        )
        (ground (arith, take_one-found now sale_id email sale t found))

  write_purchase-throws :
      (commit : Option CommitFault) (now : ℕ) (sale_id email : Text) (t : Tables) (e : WriteError)
      → write_body pg sale_id email now t ≡ throws e
      → write_purchase pg commit now sale_id email t ≡ caught (throws e, t)
  unfolding write_purchase
  write_purchase-throws commit now sale_id email t e h = ap caught (
      pg.transaction_throws WriteError (Unit {0}) database commit (write_body pg sale_id email now)
        t e h)

  write_purchase-ok :
      (now : ℕ) (sale_id email : Text) (t u : Tables)
      → write_body pg sale_id email now t ≡ ok (tt, u)
      → write_purchase pg none now sale_id email t ≡ (ok success_result, u)
  unfolding write_purchase
  write_purchase-ok now sale_id email t u h =
      ap caught (
        pg.transaction_ok WriteError (Unit {0}) database (write_body pg sale_id email now) t u tt h)

  -- On a sale that is there, with COMMIT succeeding: outside the period (its ends belong to it) the
  -- answer is "not active", a second purchase is "already purchased", with nothing left it is "sold
  -- out", and the tables are as before; else the purchase is stored and one unit taken.
  pub write_purchase_lem :
      (now : ℕ) (sale_id email : Text) (sale : SaleRow) (t : Tables)
      → find_sale sale_id t.sales ≡ some sale
      → write_purchase pg none now sale_id email t ≡ (
          if outside_period (some sale) now
          then (ok sale_not_active_result, t)
          else if any (is_purchase_of sale_id email) t.purchases
          then (ok already_purchased_result, t)
          else if ltb 0 sale.remaining_stock
          then (ok success_result, recorded now sale_id email sale t)
          else (ok sold_out_result, t))
  unfolding body_of caught is_pg_error_with_code text_eq
  write_purchase_lem now sale_id email sale t found =
      let body = write_body-body_of now sale_id email sale t found in
      elim (Bool-cases (outside_period (some sale) now)) [
        | inl early ↦
            rw
              (
                early,
                write_purchase-throws none now sale_id email t
                    (database (query_error purchase_outside_sale_window)) (body ∙ ground arith),
              )
              refl
        | inr on_time ↦ elim (Bool-cases (any (is_purchase_of sale_id email) t.purchases)) [
          | inl known ↦
              rw
                (
                  on_time,
                  known,
                  write_purchase-throws none now sale_id email t
                      (database (query_error unique_violation)) (body ∙ ground arith),
                )
                refl
          | inr fresh ↦ elim (Bool-cases (ltb 0 sale.remaining_stock)) [
            | inl left ↦
                rw
                  (
                    on_time,
                    fresh,
                    left,
                    write_purchase-ok now sale_id email t (recorded now sale_id email sale t)
                        (body ∙ ground arith),
                  )
                  refl
            | inr gone ↦
                rw
                  (
                    on_time,
                    fresh,
                    gone,
                    write_purchase-throws none now sale_id email t sold_out_error
                        (body ∙ ground arith),
                  )
                  refl
          ]
        ]
      ]

abbrev pub is_success : {E : Type 0} → Result E PurchaseResult → Bool
is_success (ok result) = elim result.status [ PurchaseOutcome.success ↦ true | _ ↦ false ]
is_success (throws e) = false

-- Whatever the transaction throws, the answer is no success, and the tables are those handed on.
caught-throws :
    (e : WriteError) (t : Tables)
    → (is_success (caught (throws e, t)).0 ≡ false) × ((caught (throws e, t)).1 ≡ t)
unfolding caught
caught-throws sold_out_error t = (refl, refl)
caught-throws (database e) t = (ground arith, ground arith)

module _ (pg : Postgres) where
  abbrev IfPurchased : PurchaseRow → Tables → Result WriteError (Unit {0} × Tables) → Type 0
  IfPurchased p t (ok (done, u)) = IsConsistent u × (u.purchases ≡ p ∷ t.purchases)
  IfPurchased p t (throws e) = Unit {0}

  write_body-IfPurchased :
      (now : ℕ) (sale_id email : Text) (t : Tables)
      → IsConsistent t
      → IfPurchased (purchase_row pg sale_id email now) t (write_body pg sale_id email now t)
  unfolding write_body inserted take_one refusal decremented
  write_body-IfPurchased now sale_id email t c =
      let p = purchase_row pg sale_id email now in
      rw (pg.insert_law t p) (elim (Option-cases (refusal t p)) [
        | inr (code, refused) ↦ rw (refused, inserted) tt
        | inl accepted ↦
            rw (accepted, inserted)
              (rw (pg.decrement_law (add_purchase t p) sale_id (λ stock. ltb 0 stock) 1)
                (elim (Option-cases (find_sale sale_id t.sales)) [
                  | inl missing ↦ rw (missing, decremented) tt
                  | inr (sale, found) ↦ elim (Bool-cases (ltb 0 sale.remaining_stock)) [
                    | inl left ↦
                        rw (found, left, decremented)
                          (
                            set_stock-IsConsistentBy (λ j. 0) (add_purchase t p) sale_id 1 sale
                                found (ground arith)
                                (add_purchase-IsConsistentBy (λ j. 0) t p (ground arith) c),
                            refl,
                          )
                    | inr gone ↦ rw (found, gone, decremented) tt
                  ]
                ]))
      ])

  -- What a write leaves, by how it ended.
  abbrev pub Recorded :
      Option CommitFault → PurchaseRow → Tables → Result Thrown PurchaseResult × Tables → Type 0
  Recorded commit p t (answer, u) =
      IsConsistent u
      × (is_success answer ≡ true → u.purchases ≡ p ∷ t.purchases)
      × (is_success answer ≡ false
          → (u ≡ t) ⊎ ((is_unanswered commit ≡ true) × (u.purchases ≡ p ∷ t.purchases)))

  caught-Recorded :
      (commit : Option CommitFault) (p : PurchaseRow) (e : WriteError) (t : Tables)
      → IsConsistent t
      → Recorded commit p t (caught (throws e, t))
  caught-Recorded commit p e t c =
      let (answer, same) = caught-throws e t in (rw same c, λ h. cc, λ h. inl same)

  -- The row was stored, and COMMIT's reply was lost.
  unanswered-Recorded :
      (x : Thrown) (p : PurchaseRow) (e : WriteError) (t u : Tables)
      → IsConsistent u
      → u.purchases ≡ p ∷ t.purchases
      → Recorded (some (unanswered x)) p t (caught (throws e, u))
  unanswered-Recorded x p e t u c stored =
      let (answer, same) = caught-throws e u in
      (rw same c, λ h. cc, λ h. inr (refl, ap (λ (v : Tables). v.purchases) same ∙ stored))

  pub write_purchase-Recorded :
      (commit : Option CommitFault) (now : ℕ) (sale_id email : Text) (t : Tables)
      → IsConsistent t
      → Recorded commit
          (purchase_row pg sale_id email now)
          t
          (write_purchase pg commit now sale_id email t)
  unfolding write_purchase
  write_purchase-Recorded commit now sale_id email t c =
      let body = write_body pg sale_id email now in
      elim (Result-cases (body t)) [
        | inr (e, threw) ↦
            rw (pg.transaction_throws WriteError (Unit {0}) database commit body t e threw)
              (caught-Recorded commit (purchase_row pg sale_id email now) e t c)
        | inl ((done, u), did) ↦
            ended commit done u did (rw did at (write_body-IfPurchased now sale_id email t c))
      ]
    where
      ended :
          (commit : Option CommitFault) (done : Unit {0}) (u : Tables)
          → write_body pg sale_id email now t ≡ ok (done, u)
          → IsConsistent u × (u.purchases ≡ purchase_row pg sale_id email now ∷ t.purchases)
          → Recorded commit (purchase_row pg sale_id email now) t (
              caught (
                pg.transaction WriteError
                  (Unit {0})
                  database
                  commit
                  (write_body pg sale_id email now)
                  t))
      ended none done u did h =
          rw
            (pg.transaction_ok WriteError (Unit {0}) database (write_body pg sale_id email now) t u
              done did)
            (h.0, λ e. h.1, λ e. cc)
      ended (some (rolled_back x)) done u did h =
          rw
            (pg.transaction_fails WriteError (Unit {0}) database x (write_body pg sale_id email now)
              t u done did)
            (caught-Recorded (some (rolled_back x)) (purchase_row pg sale_id email now) (database x)
              t c)
      ended (some (unanswered x)) done u did h =
          rw
            (pg.transaction_unanswered WriteError (Unit {0}) database x
              (write_body pg sale_id email now) t u done did)
            (unanswered-Recorded x (purchase_row pg sale_id email now) (database x) t u h.0 h.1)

  -- On consistent tables, whatever happens to COMMIT: a success has stored this one purchase and
  -- no other; any other answer, a rethrown error included, has left the tables as they were, or COMMIT's
  -- reply was lost and the purchase is stored; they stay consistent.
  pub write_purchase-stores :
      (commit : Option CommitFault) (now : ℕ) (sale_id email : Text) (t : Tables)
      → IsConsistent t
      → let (answer, u) = write_purchase pg commit now sale_id email t in
        IsConsistent u
        × (if is_success answer
            then (u.purchases ≡ purchase_row pg sale_id email now ∷ t.purchases)
            else ((u ≡ t)
                ⊎ ((is_unanswered commit ≡ true)
                    × (u.purchases ≡ purchase_row pg sale_id email now ∷ t.purchases))))
  write_purchase-stores commit now sale_id email t c =
      let (kept, stored, same) = write_purchase-Recorded commit now sale_id email t c in
      (
        kept,
        if-cases (λ (T : Type 0). T) (is_success (write_purchase pg commit now sale_id email t).0)
            stored same,
      )
