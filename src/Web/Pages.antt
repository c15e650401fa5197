-- ===== src/Web/Pages.antt =====
-- apps/web/src/pages and the cards on them: what a list page shows of useAsyncData's state. Styles are left out;
-- `Number` and the format of a currency are parameters.
pub mod NeverBlank
use sd_flash_sale.Prelude.{
  ℕ, Bool, true, false, not, ◌&&◌, List, [], ◌∷◌, ◌++◌, map, Option, none, some, Text, codes,
  text_eq, is_some, to_string, length, ◌==◌, if◌then◌else◌,
}
use sd_flash_sale.Prelude.Result.{Result, ok, throws}
use sd_flash_sale.Contract.{SalePhase, upcoming, active, ended, sold_out, Sale, PurchaseRecord}
use sd_flash_sale.Web.AsyncData.{Hook}

-- The status messages of a page, and what it lists
pub record ListView (T E : Type 0) : Type 0 where
  pub is_loading : Bool
  pub error : Option E
  pub is_empty : Bool
  pub rows : List T

abbrev pub rows_of : {T : Type 0} → Option (List T) → List T
rows_of none = []
rows_of (some rows) = rows

abbrev pub no_rows : {T : Type 0} → List T → Bool
no_rows [] = true
no_rows (row ∷ rows) = false

-- What `LiveSalePage`, `UpcomingPage` and `OrdersPage` have in common
unfoldable pub list_view : {S T E : Type 0} → (S → T) → Hook (List S) E → ListView T E
list_view show_row h = record {
  is_loading = h.is_loading;
  error = h.error;
  is_empty = not h.is_loading && not (is_some h.error) && no_rows (rows_of h.content);
  rows = map show_row (rows_of h.content);
}

module _ (N : Type 0) (number : Text → Option N) (currency : N → Text) where
  abbrev money : Text → Option N → Text
  money amount none = amount
  money amount (some parsed) = currency parsed

  unfoldable pub format_money : Text → Text
  format_money amount = money amount (number amount)

  abbrev pub phase_label : SalePhase → Text
  phase_label upcoming = codes "Upcoming"
  phase_label active = codes "Active"
  phase_label ended = codes "Ended"
  phase_label sold_out = codes "Sold out"

  -- `SaleCard`
  pub record SaleCard : Type 0 where
    pub image : Option Text
    pub name : Text
    pub phase : Text
    pub description : Option Text
    pub sale_price : Text
    pub price : Text
    pub left : Text

  unfoldable pub sale_card : Sale → SaleCard
  unfolding format_money
  sale_card sale = record {
    image = sale.product.image_url;
    name = sale.product.name;
    phase = phase_label sale.phase;
    description = sale.product.description;
    sale_price = format_money sale.sale_price;
    price = format_money sale.product.price;
    left =
        to_string sale.remaining_stock
        ++ (codes " of " ++ (to_string sale.total_stock ++ codes " left"));
  }

  -- An order, with the regular price where it is another
  pub record OrderRow : Type 0 where
    pub image : Option Text
    pub name : Text
    pub purchased_at : ℕ
    pub price : Text
    pub regular_price : Option Text

  unfoldable pub order_row : PurchaseRecord → OrderRow
  unfolding format_money
  order_row p = record {
    image = p.product.image_url;
    name = p.product.name;
    purchased_at = p.purchased_at;
    price = format_money p.price;
    regular_price =
        if text_eq p.product.price p.price then none else some (format_money p.product.price);
  }

  -- The count in the heading of the orders
  unfoldable pub item_count : List PurchaseRecord → Option Text
  item_count [] = none
  item_count (p ∷ []) = some (codes "1 item")
  item_count (p ∷ q ∷ ps) = some (to_string (length (p ∷ q ∷ ps)) ++ codes " items")

  unfoldable pub orders_page : {E : Type 0} → Hook (List PurchaseRecord) E → ListView OrderRow E
  orders_page h = list_view order_row h

  unfoldable pub live_sale_page : {E : Type 0} → Hook (List Sale) E → ListView Sale E
  live_sale_page h = list_view (λ sale. sale) h

  unfoldable pub upcoming_page : {E : Type 0} → Hook (List Sale) E → ListView SaleCard E
  upcoming_page h = list_view sale_card h

-- `refreshSale` of `LiveSaleCard`: a card that cannot be refreshed stays as it is.
unfoldable pub refresh_sale : {E : Type 0} → Result E Sale → Sale → Sale
refresh_sale (ok fresh) sale = fresh
refresh_sale (throws e) sale = sale
