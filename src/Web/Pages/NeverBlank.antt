-- ===== src/Web/Pages/NeverBlank.antt =====
-- A list page always says something, and never two things at once.
use sd_flash_sale.Prelude.{
  ℕ, ◌+◌, ◌≤◌, ◌≡◌, refl, false, ◌&&◌, List, [], ◌∷◌, Option, is_some, length, if◌then◌else◌, arith,
}
use sd_flash_sale.Web.AsyncData.{Hook, Event, run, use_async_data}
use sd_flash_sale.Web.AsyncData.Latest.{has_unmount, run-loads_current}
use sd_flash_sale.Web.Pages.{ListView, list_view, rows_of}

-- How many status messages are shown
abbrev pub messages : {T E : Type 0} → ListView T E → ℕ
messages v =
    (if v.is_loading then 1 else 0)
    + (if is_some v.error then 1 else 0)
    + (if v.is_empty then 1 else 0)

messages-rows :
    {S T E : Type 0} (show_row : S → T) (h : Hook (List S) E)
    → (h.is_loading && is_some h.error) ≡ false
    → (messages (list_view show_row h) ≤ 1)
      × (1 ≤ messages (list_view show_row h) + length (list_view show_row h).rows)
unfolding list_view
messages-rows {S = S} show_row h apart = by_rows (rows_of h.content) refl
  where
    by_rows :
        (rows : List S)
        → rows_of h.content ≡ rows
        → (messages (list_view show_row h) ≤ 1)
          × (1 ≤ messages (list_view show_row h) + length (list_view show_row h).rows)
    by_rows [] e = rw e (ground (arith, apart), ground (arith, apart))
    by_rows (row ∷ rows) e = rw e (ground (arith, apart), ground (arith, apart))

-- While a page is mounted, whatever renders, refetches and replies came: it shows at most one of the messages that
-- it is loading, that it has failed, and that there is nothing; and where it shows none, it lists something.
pub run-list_view :
    (S T E : Type 0) (show_row : S → T) (f : Option ℕ) (es : List (Event (List S) E))
    → has_unmount (List S) E es ≡ false
    → let v = list_view show_row (run es (use_async_data f)) in
      (messages v ≤ 1) × (1 ≤ messages v + length v.rows)
run-list_view S T E show_row f es mounted =
    messages-rows show_row (run es (use_async_data f)) (run-loads_current (List S) E f es mounted).1
