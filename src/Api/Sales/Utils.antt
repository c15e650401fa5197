-- ===== src/Api/Sales/Utils.antt =====
-- apps/api/src/sales/sales.types.ts and sales.utils.ts.
use sd_flash_sale.Prelude.{ℕ, Bool, ◌&&◌, not, Option, Text, ltb, leb, is_some, if◌then◌else◌}
use sd_flash_sale.Contract.{SalePhase, upcoming, ended, Sale, Product}
use sd_flash_sale.Contract
use sd_flash_sale.Database.Server.{JoinedSale}

-- `SaleRow`, the row that SALE_COLUMNS selects
pub record SaleRow : Type 0 where
  pub id : Text
  pub sale_price : Text
  pub total_stock : ℕ
  pub remaining_stock : ℕ
  pub starts_at : ℕ
  pub ends_at : ℕ
  pub cancelled_at : Option ℕ
  pub product_id : Text
  pub product_name : Text
  pub product_description : Option Text
  pub product_image_url : Option Text
  pub product_price : Text

-- SALE_COLUMNS
abbrev pub sale_columns : JoinedSale → SaleRow
sale_columns j = record {
  id = j.sale.id;
  sale_price = j.sale.sale_price;
  total_stock = j.sale.total_stock;
  remaining_stock = j.sale.remaining_stock;
  starts_at = j.sale.starts_at;
  ends_at = j.sale.ends_at;
  cancelled_at = j.sale.cancelled_at;
  product_id = j.product.id;
  product_name = j.product.name;
  product_description = j.product.description;
  product_image_url = j.product.image_url;
  product_price = j.product.price;
}

unfoldable pub derive_phase : SaleRow → ℕ → SalePhase
derive_phase row now =
    if ltb now row.starts_at
    then upcoming
    else if leb row.ends_at now
    then ended
    else if leb row.remaining_stock 0
    then Contract.SalePhase.sold_out
    else Contract.SalePhase.active

unfoldable pub is_sale_open : SaleRow → ℕ → Bool
is_sale_open row now =
    not (is_some row.cancelled_at) && leb row.starts_at now && ltb now row.ends_at

unfoldable pub map_row_to_sale : SaleRow → ℕ → Sale
unfolding derive_phase
map_row_to_sale row now = record {
  id = row.id;
  product = record {
    id = row.product_id;
    name = row.product_name;
    description = row.product_description;
    image_url = row.product_image_url;
    price = row.product_price;
  };
  phase = derive_phase row now;
  sale_price = row.sale_price;
  total_stock = row.total_stock;
  remaining_stock = row.remaining_stock;
  starts_at = row.starts_at;
  ends_at = row.ends_at;
  server_time = now;
}
