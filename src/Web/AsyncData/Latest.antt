-- ===== src/Web/AsyncData/Latest.antt =====
-- That the hook of apps/web/src/hooks/useAsyncData/useAsyncData.ts shows the newest attempt only.
use sd_flash_sale.Prelude.{
  ℕ, ◌+◌, ◌≡◌, refl, Bool, true, false, ◌&&◌, ◌||◌, List, [], ◌∷◌, Option, none, some, is_some,
  ◌==◌, if◌then◌else◌, if-cases, arith, ltb, ap, ◌∙◌,
}
use sd_flash_sale.Web.AsyncData.{
  Hook, Reply, Event, resolved, rejected, render, refetch, unmount, reply, same_fetcher, is_current,
  adjust, start, rendered, accept, replied, step, run, use_async_data,
}

module _ (T E : Type 0) where
  -- Loading exactly while an attempt is awaited, and not while an error is shown
  abbrev pub IsSettledHook : Hook T E → Type 0
  IsSettledHook h = (h.is_loading ≡ is_some h.current) × ((h.is_loading && is_some h.error) ≡ false)

  start-IsSettledHook : (f : Option ℕ) (h : Hook T E) → IsSettledHook (start f (adjust f h))
  unfolding start adjust
  start-IsSettledHook none h = (refl, refl)
  start-IsSettledHook (some f) h = (refl, refl)

  accept-IsSettledHook : (r : Reply T E) (h : Hook T E) → IsSettledHook (accept r h)
  unfolding accept
  accept-IsSettledHook (resolved result) h = (refl, refl)
  accept-IsSettledHook (rejected cause) h = (refl, refl)

  abbrev is_unmount : Event T E → Bool
  is_unmount unmount = true
  is_unmount _ = false

  rendered-IsSettledHook :
      (f : Option ℕ) (h : Hook T E) → IsSettledHook h → IsSettledHook (rendered f h)
  unfolding rendered
  rendered-IsSettledHook f h s =
      if-cases IsSettledHook (same_fetcher h.prev_fetcher f && h.prev_token == h.reload_token)
        (λ _. s) (λ _. start-IsSettledHook f _)

  step-IsSettledHook :
      (e : Event T E) (h : Hook T E)
      → is_unmount e ≡ false
      → IsSettledHook h
      → IsSettledHook (step e h)
  unfolding step replied
  step-IsSettledHook (render f) h mounted s = rendered-IsSettledHook f h s
  step-IsSettledHook refetch h mounted s = rendered-IsSettledHook h.prev_fetcher _ s
  step-IsSettledHook unmount h mounted s = absurd (ground arith)
  step-IsSettledHook (reply k r) h mounted s =
      if-cases IsSettledHook (is_current h.current k) (λ _. accept-IsSettledHook r h) (λ _. s)

  abbrev pub has_unmount : List (Event T E) → Bool
  has_unmount [] = false
  has_unmount (e ∷ es) = is_unmount e || has_unmount es

  run-IsSettledHook :
      (es : List (Event T E)) (h : Hook T E)
      → has_unmount es ≡ false
      → IsSettledHook h
      → IsSettledHook (run es h)
  unfolding run
  run-IsSettledHook [] h mounted s = s
  run-IsSettledHook (e ∷ es) h mounted s =
      run-IsSettledHook es (step e h) (ground arith) (step-IsSettledHook e h (ground arith) s)

  first-IsSettledHook : (f : Option ℕ) → IsSettledHook (use_async_data f)
  unfolding use_async_data start
  first-IsSettledHook none = (refl, refl)
  first-IsSettledHook (some f) = (refl, refl)

  -- While the component is mounted, whatever renders, refetches and replies came: it is loading exactly
  -- while the newest attempt is unanswered, and it never shows an error while it is loading.
  pub run-loads_current :
      (f : Option ℕ) (es : List (Event T E))
      → has_unmount es ≡ false
      → let h = run es (use_async_data f) in
        (h.is_loading ≡ is_some h.current) × ((h.is_loading && is_some h.error) ≡ false)
  run-loads_current f es mounted =
      run-IsSettledHook es (use_async_data f) mounted (first-IsSettledHook f)

  abbrev pub replies : List (ℕ × Reply T E) → List (Event T E)
  replies [] = []
  replies ((k, r) ∷ rs) = reply k r ∷ replies rs

  abbrev pub all_before : ℕ → List (ℕ × Reply T E) → Bool
  all_before n [] = true
  all_before n ((k, r) ∷ rs) = ltb k n && all_before n rs

  replies-stale :
      (rs : List (ℕ × Reply T E)) (h : Hook T E) (n : ℕ)
      → h.current ≡ some n
      → all_before n rs ≡ true
      → run (replies rs) h ≡ h
  unfolding run step replied
  replies-stale [] h n e old = refl
  replies-stale ((k, r) ∷ rs) h n e old =
      ap (run (replies rs)) (keep h.current e) ∙ replies-stale rs h n e (ground arith)
    where
      keep : (c : Option ℕ) → c ≡ some n → (if is_current c k then accept r h else h) ≡ h
      keep c ce = let other : (n == k) ≡ false = ground (arith, old) in rw (ce, other) refl

  abbrev InStep : Hook T E → Type 0
  InStep h = h.prev_token ≡ h.reload_token

  rendered-InStep : (f : Option ℕ) (h : Hook T E) → InStep (rendered f h)
  unfolding rendered start adjust
  rendered-InStep none h =
      if-cases InStep (same_fetcher h.prev_fetcher none && h.prev_token == h.reload_token)
        (λ same. ground arith) (λ _. refl)
  rendered-InStep (some f) h =
      if-cases InStep (same_fetcher h.prev_fetcher (some f) && h.prev_token == h.reload_token)
        (λ same. ground arith) (λ _. refl)

  step-InStep : (e : Event T E) (h : Hook T E) → InStep h → InStep (step e h)
  unfolding step replied accept
  step-InStep (render f) h s = rendered-InStep f h
  step-InStep refetch h s = rendered-InStep h.prev_fetcher _
  step-InStep unmount h s = s
  step-InStep (reply k (resolved result)) h s =
      if-cases InStep (is_current h.current k) (λ _. s) (λ _. s)
  step-InStep (reply k (rejected cause)) h s =
      if-cases InStep (is_current h.current k) (λ _. s) (λ _. s)

  run-InStep : (es : List (Event T E)) (h : Hook T E) → InStep h → InStep (run es h)
  unfolding run
  run-InStep [] h s = s
  run-InStep (e ∷ es) h s = run-InStep es (step e h) (step-InStep e h s)

  first-InStep : (f : Option ℕ) → InStep (use_async_data f)
  unfolding use_async_data start
  first-InStep none = refl
  first-InStep (some f) = refl

  refetch-current :
      (g : ℕ) (h : Hook T E)
      → InStep h
      → h.prev_fetcher ≡ some g
      → (step refetch h).current ≡ some h.next_attempt
  unfolding step rendered start adjust
  refetch-current g h s e = rw e (
      if-cases (λ (x : Hook T E). x.current ≡ some h.next_attempt)
        (same_fetcher (some g) (some g) && h.prev_token == h.reload_token + 1)
        (λ same. absurd (ground (arith, s))) (λ _. refl))

  -- After a refetch with a fetcher, the replies to the attempts before it, whichever and in
  -- whatever order they come, change nothing.
  pub refetch-ignores_older :
      (f : Option ℕ) (es : List (Event T E)) (g : ℕ) (rs : List (ℕ × Reply T E))
      → (run es (use_async_data f)).prev_fetcher ≡ some g
      → all_before (run es (use_async_data f)).next_attempt rs ≡ true
      → run (replies rs) (step refetch (run es (use_async_data f)))
        ≡ step refetch (run es (use_async_data f))
  refetch-ignores_older f es g rs e old =
      let h = run es (use_async_data f) in
      replies-stale rs (step refetch h) h.next_attempt
        (refetch-current g h (run-InStep es (use_async_data f) (first-InStep f)) e) old
