-- ===== src/Web/AsyncData.antt =====
-- apps/web/src/hooks/useAsyncData/useAsyncData.ts. A fetcher is named by a number, as React compares it by
-- its identity; a render whose fetcher or token has changed runs the clean-up and the effect again.
pub mod Latest
use sd_flash_sale.Prelude.{
  ℕ, zero, suc, ◌+◌, Bool, true, false, ◌&&◌, List, [], ◌∷◌, Option, none, some, is_some, ◌==◌,
  if◌then◌else◌,
}

-- `next_attempt` numbers the controllers; `current` is the one that is neither aborted nor answered.
pub record Hook (T E : Type 0) : Type 0 where
  pub content : Option T
  pub error : Option E
  pub is_loading : Bool
  pub reload_token : ℕ
  pub prev_fetcher : Option ℕ
  pub prev_token : ℕ
  pub current : Option ℕ
  pub next_attempt : ℕ

abbrev pub same_fetcher : Option ℕ → Option ℕ → Bool
same_fetcher none none = true
same_fetcher (some f) (some g) = f == g
same_fetcher _ _ = false

abbrev pub is_current : Option ℕ → ℕ → Bool
is_current none k = false
is_current (some c) k = c == k

pub data Reply (T E : Type 0) : Type 0 where
  resolved : T → Reply T E
  rejected : E → Reply T E

pub data Event (T E : Type 0) : Type 0 where
  -- a render with this fetcher
  render : Option ℕ → Event T E
  refetch unmount : Event T E
  -- the reply to the attempt with this number
  reply : ℕ → Reply T E → Event T E

module _ {T E : Type 0} where
  -- The state that is adjusted while rendering
  unfoldable pub adjust : Option ℕ → Hook T E → Hook T E
  adjust (some f) h = record h { is_loading = true; error = none }
  adjust none h = record h { is_loading = false; content = none; error = none }

  -- The effect, behind the clean-up of the one before
  unfoldable pub start : Option ℕ → Hook T E → Hook T E
  start (some f) h = record h { current = some h.next_attempt; next_attempt = h.next_attempt + 1 }
  start none h = record h { current = none }

  unfoldable pub rendered : Option ℕ → Hook T E → Hook T E
  unfolding adjust start
  rendered fetcher h =
      if same_fetcher h.prev_fetcher fetcher && h.prev_token == h.reload_token
      then h
      else start fetcher
          (adjust fetcher (record h { prev_fetcher = fetcher; prev_token = h.reload_token }))

  unfoldable pub accept : Reply T E → Hook T E → Hook T E
  accept (resolved result) h = record h {
    content = some result;
    is_loading = false;
    current = none;
  }
  accept (rejected cause) h = record h { error = some cause; is_loading = false; current = none }

  -- `if (controller.signal.aborted) return`
  unfoldable pub replied : ℕ → Reply T E → Hook T E → Hook T E
  unfolding accept
  replied k r h = if is_current h.current k then accept r h else h

  unfoldable pub step : Event T E → Hook T E → Hook T E
  step (render fetcher) h = rendered fetcher h
  step refetch h = rendered h.prev_fetcher (record h { reload_token = h.reload_token + 1 })
  step unmount h = record h { current = none }
  step (reply k r) h = replied k r h

  unfoldable pub run : List (Event T E) → Hook T E → Hook T E
  run [] h = h
  run (e ∷ es) h = run es (step e h)

  -- The first render, and its effect
  unfoldable pub use_async_data : Option ℕ → Hook T E
  unfolding start
  use_async_data fetcher = start fetcher (record {
    content = none;
    error = none;
    is_loading = is_some fetcher;
    reload_token = 0;
    prev_fetcher = fetcher;
    prev_token = 0;
    current = none;
    next_attempt = 0;
  })
