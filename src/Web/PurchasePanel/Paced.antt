-- ===== src/Web/PurchasePanel/Paced.antt =====
-- What a buyer can count on in the panel.
use sd_flash_sale.Prelude.{
  ℕ, ◌+◌, ◌-◌, ◌≤◌, ◌≡◌, refl, true, false, List, [], ◌∷◌, All, leb, ltb, if-cases, arith, ◌⊎◌, inl,
  inr,
}
use sd_flash_sale.Contract.{SalePhase}
use sd_flash_sale.Web.Purchase.{PurchaseState, use_purchase, submit, succeed, fail, finish}
use sd_flash_sale.Web.PurchasePanel.{
  min_loading_ms, Stage, idle, posting, sleeping, Panel, disabled, Event, clicks, answers, fails,
  wakes, refreshes, finish_buy, after_submit, handle_buy, settled, woken, step, run, opened,
}

abbrev pub IsLong : ℕ × ℕ → Type 0
IsLong (clicked, called) = clicked + min_loading_ms ≤ called

module _ {E : Type 0} where
  -- No post is out but one that `handleBuy` waits for.
  abbrev IsIn : Stage → Panel E → Type 0
  IsIn idle p =
      (p.is_busy ≡ false)
      × (p.hook.is_submitting ≡ false)
      × (p.hook.in_flight ≡ false)
      × (p.hook.posts ≡ 0)
  IsIn (posting started_at) p = (p.is_busy ≡ true) × (p.hook.posts ≡ 1)
  IsIn (sleeping started_at until) p =
      (p.is_busy ≡ true)
      × (p.hook.is_submitting ≡ false)
      × (p.hook.in_flight ≡ false)
      × (p.hook.posts ≡ 0)
      × (started_at + min_loading_ms ≤ until)

  record IsPaced (p : Panel E) : Type 0 where
    inside : IsIn p.stage p
    long : All IsLong p.purchased

  after_submit-IsPaced :
      (started_at now : ℕ) (p : Panel E)
      → p.is_busy ≡ true
      → p.hook.is_submitting ≡ false
      → p.hook.in_flight ≡ false
      → p.hook.posts ≡ 0
      → All IsLong p.purchased
      → IsPaced (after_submit started_at now p)
  unfolding after_submit finish_buy
  after_submit-IsPaced started_at now p busy quiet free posts long =
      if-cases IsPaced (ltb 0 ((min_loading_ms + started_at) - now))
        (λ early. record { inside = (busy, quiet, free, posts, ground arith); long = long })
        (λ late. record { inside = (refl, quiet, free, posts); long = (ground arith, long) })

  handle_buy-IsPaced :
      (now : ℕ) (stage : Stage) (p : Panel E)
      → IsIn stage p
      → IsPaced p
      → IsPaced (handle_buy now p)
  unfolding handle_buy submit
  handle_buy-IsPaced now idle p (calm, quiet, free, posts) h =
      if-cases IsPaced (disabled p) (λ off. h)
        (λ ready. record { inside = (refl, rw free (omega (arith, posts))); long = h.long })
  handle_buy-IsPaced now (posting started_at) p inside h =
      if-cases IsPaced (disabled p) (λ off. h) (λ ready. absurd (ground (arith, inside.0)))
  handle_buy-IsPaced now (sleeping started_at until) p inside h =
      if-cases IsPaced (disabled p) (λ off. h) (λ ready. absurd (ground (arith, inside.0)))

  -- An answer or a failure ends the post.
  record IsEnd (settle : PurchaseState E → PurchaseState E) : Type 0 where
    quiet : (s : PurchaseState E) → (settle s).is_submitting ≡ false
    free : (s : PurchaseState E) → (settle s).in_flight ≡ false
    one_less : (s : PurchaseState E) → (settle s).posts ≡ s.posts - 1

  settled-IsPaced :
      (settle : PurchaseState E → PurchaseState E) (now : ℕ) (stage : Stage) (p : Panel E)
      → IsEnd settle
      → IsIn stage p
      → IsPaced p
      → IsPaced (settled settle now stage p)
  settled-IsPaced settle now idle p end inside h = h
  settled-IsPaced settle now (sleeping started_at until) p end inside h = h
  settled-IsPaced settle now (posting started_at) p end inside h =
      after_submit-IsPaced started_at now (record p { hook = settle p.hook }) inside.0
        (end.quiet p.hook) (end.free p.hook) (omega (arith, end.one_less p.hook, inside.1)) h.long

  woken-IsPaced :
      (now : ℕ) (stage : Stage) (p : Panel E)
      → IsIn stage p
      → IsPaced p
      → IsPaced (woken now stage p)
  unfolding finish_buy
  woken-IsPaced now idle p inside h = h
  woken-IsPaced now (posting started_at) p inside h = h
  woken-IsPaced now (sleeping started_at until) p (busy, quiet, free, posts, long) h =
      if-cases IsPaced (leb until now)
        (λ due. record {
          inside = (refl, quiet, free, posts);
          long = (ground (arith, long), h.long);
        })
        (λ early. h)

  refreshed-IsPaced :
      (phase : SalePhase) (stage : Stage) (p : Panel E)
      → IsIn stage p
      → IsIn stage (record p { phase = phase })
  refreshed-IsPaced phase idle p inside = inside
  refreshed-IsPaced phase (posting started_at) p inside = inside
  refreshed-IsPaced phase (sleeping started_at until) p inside = inside

  step-IsPaced : (e : Event E) (p : Panel E) → IsPaced p → IsPaced (step e p)
  unfolding step succeed fail finish
  step-IsPaced (clicks now) p h = handle_buy-IsPaced now p.stage p h.inside h
  step-IsPaced (answers outcome now) p h =
      settled-IsPaced (succeed outcome) now p.stage p
        (record { quiet = λ s. refl; free = λ s. refl; one_less = λ s. refl }) h.inside h
  step-IsPaced (fails cause now) p h =
      settled-IsPaced (fail cause) now p.stage p
        (record { quiet = λ s. refl; free = λ s. refl; one_less = λ s. refl }) h.inside h
  step-IsPaced (wakes now) p h = woken-IsPaced now p.stage p h.inside h
  step-IsPaced (refreshes phase) p h = record {
    inside = refreshed-IsPaced phase p.stage p h.inside;
    long = h.long;
  }

  run-IsPaced : (es : List (Event E)) (p : Panel E) → IsPaced p → IsPaced (run es p)
  unfolding run
  run-IsPaced [] p h = h
  run-IsPaced (e ∷ es) p h = run-IsPaced es (step e p) (step-IsPaced e p h)

  posts-le :
      (stage : Stage) (p : Panel E)
      → IsIn stage p
      → (p.hook.posts ≤ 1) × ((p.hook.posts ≡ 0) ⊎ (disabled p ≡ true))
  posts-le idle p inside = (omega (arith, inside.3), inl inside.3)
  posts-le (posting started_at) p inside = (omega (arith, inside.1), inr (ground (arith, inside.0)))
  posts-le (sleeping started_at until) p inside = (omega (arith, inside.3), inl inside.3)

  -- Whatever is clicked, answered, and refreshed, in whatever order: there is never more than one post of the
  -- panel out, the button is disabled while there is one, and the card is refreshed after a click at the
  -- earliest when min_loading_ms have passed since.
  pub run-paces :
      (es : List (Event E)) (phase : SalePhase)
      → let p = run es (opened phase) in
        (p.hook.posts ≤ 1) × ((p.hook.posts ≡ 0) ⊎ (disabled p ≡ true)) × All IsLong p.purchased
  unfolding opened use_purchase
  run-paces es phase =
      let h =
        run-IsPaced es (opened phase) (record { inside = (refl, refl, refl, refl); long = tt }) in
      let (one, off) = posts-le (run es (opened phase)).stage (run es (opened phase)) h.inside in
      (one, off, h.long)
