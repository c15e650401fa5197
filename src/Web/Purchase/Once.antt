-- ===== src/Web/Purchase/Once.antt =====
-- That apps/web/src/hooks/usePurchase/usePurchase.ts never has two posts out, and what it shows.
use sd_flash_sale.Prelude.{
  ◌≡◌, refl, false, ◌&&◌, List, [], ◌∷◌, is_some, ◌==◌, if◌then◌else◌, if-cases, arith,
}
use sd_flash_sale.Web.Purchase.{
  PurchaseState, Event, submits, answers, fails, use_purchase, submit, finish, succeed, fail, step,
  run,
}

module _ (E : Type 0) where
  -- One post while submitting and none else; never a result or a new post beside an error.
  abbrev pub IsOnce : PurchaseState E → Type 0
  IsOnce s =
      (s.posts ≡ (if s.is_submitting then 1 else 0))
      × (s.in_flight ≡ s.is_submitting)
      × ((s.is_submitting && is_some s.error) ≡ false)
      × ((is_some s.result && is_some s.error) ≡ false)

  step-IsOnce : (e : Event E) (s : PurchaseState E) → IsOnce s → IsOnce (step e s)
  unfolding step submit succeed fail finish
  step-IsOnce submits s h =
      if-cases IsOnce s.in_flight (λ _. h)
        (λ free. (ground (arith, h, free), refl, refl, ground arith))
  step-IsOnce (answers outcome) s h =
      if-cases IsOnce (s.posts == 0) (λ _. h)
        (λ out. (ground (arith, h, out), refl, refl, ground (arith, h, out)))
  step-IsOnce (fails cause) s h =
      if-cases IsOnce (s.posts == 0) (λ _. h) (λ out. (ground (arith, h, out), refl, refl, refl))

  run-IsOnce : (es : List (Event E)) (s : PurchaseState E) → IsOnce s → IsOnce (run es s)
  unfolding run
  run-IsOnce [] s h = h
  run-IsOnce (e ∷ es) s h = run-IsOnce es (step e s) (step-IsOnce e s h)

  -- However often the form is submitted: one post is out exactly while the form is submitting and never
  -- a second, the guard agrees with what is shown, and an error stands neither beside a submission nor
  -- beside a result.
  pub run-use_purchase-IsOnce : (es : List (Event E)) → IsOnce (run es use_purchase)
  unfolding use_purchase
  run-use_purchase-IsOnce es = run-IsOnce es use_purchase (refl, refl, refl, refl)
