-- ===== src/Api/Outage/Swept.antt =====
-- When Redis is swept.
use sd_flash_sale.Prelude.{
  ◌≡◌, refl, ap, ◌∙◌, Bool, true, false, List, [], ◌∷◌, Text, if◌then◌else◌, Bool-cases, inl, inr,
}
use sd_flash_sale.Redis.Keys.{KeyKind, sale_key}
use sd_flash_sale.Redis.Server.{RedisServer, absent_entry}
use sd_flash_sale.Redis.Sync.{ScanPage}
use sd_flash_sale.Redis.Sync.Flush.{IsFullScan, flush_sale_keys-sweeps}
use sd_flash_sale.Api.Outage.{
  ClientEvent, errs, closes, readies, Client, on_ready, on_event, observe, redis_provider,
}

module _ (r : RedisServer) where
  -- Whether the connection has closed since it was last ready
  abbrev pub closed_since : List (ClientEvent r) → Bool → Bool
  closed_since [] down = down
  closed_since (errs ∷ es) down = closed_since es down
  closed_since (closes ∷ es) down = closed_since es true
  closed_since (readies pages s ∷ es) down = closed_since es false

  observe-was_down :
      (es : List (ClientEvent r)) (client : Client r)
      → (observe r es client).was_down ≡ closed_since es client.was_down
  unfolding observe on_event on_ready
  observe-was_down [] client = refl
  observe-was_down (errs ∷ es) client = observe-was_down es client
  observe-was_down (closes ∷ es) client = observe-was_down es (record client { was_down = true })
  observe-was_down (readies pages s ∷ es) client =
      observe-was_down es (on_ready r pages s client)
      ∙ ap (closed_since es) (ready-up client.was_down refl)
    where
      ready-up :
          (down : Bool) → client.was_down ≡ down → (on_ready r pages s client).was_down ≡ false
      ready-up true h = rw h refl
      ready-up false h = rw h refl

  -- Whatever the connection has been through since the process started: when it is ready and a scan of
  -- Redis is complete, then, of every sale, Redis holds nothing if the connection has closed since
  -- it was last ready, and what it held otherwise.
  pub on_ready-sweeps :
      (es : List (ClientEvent r)) (first s : r.Store) (pages : List ScanPage) (k : KeyKind)
      (id : Text)
      → IsFullScan r pages s
      → r.read (on_ready r pages s (observe r es (redis_provider r first))).store (sale_key k id)
        ≡ (if closed_since es false then absent_entry else r.read s (sale_key k id))
  unfolding on_ready
  on_ready-sweeps es first s pages k id full =
      let down = observe-was_down es (redis_provider r first) in
      let (total, t, done, gone, _) = flush_sale_keys-sweeps r pages s full in
      elim (Bool-cases (closed_since es false)) [
        | inl closed ↦ rw (down, closed, done) (gone k id)
        | inr ready ↦ rw (down, ready) refl
      ]
