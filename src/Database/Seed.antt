-- ===== src/Database/Seed.antt =====
-- packages/database/src/scripts/seed.ts: the rows that the script inserts into the emptied tables. The
-- database makes the ids; `now` is at least two days after the epoch, so that no subtraction stops at 0.
pub mod Listed
use sd_flash_sale.Prelude.{
  ℕ, ◌+◌, ◌-◌, ◌*◌, List, [], ◌∷◌, Option, none, some, Text, codes, text_eq, if◌then◌else◌,
}
use sd_flash_sale.Database.Schema.{ProductRow, SaleRow, PurchaseRow}

abbrev pub minute : ℕ
minute = 60 * 1000

abbrev pub hour : ℕ
hour = 60 * minute

abbrev pub day : ℕ
day = 24 * hour

abbrev pub is_named : Text → List ProductRow → Option ProductRow
is_named name [] = none
is_named name (row ∷ rows) = if text_eq row.name name then some row else is_named name rows

-- Without the product the script throws.
abbrev pub sale_of : Text → Option ProductRow → ℕ → ℕ → Text → ℕ → ℕ → Option SaleRow
sale_of id none total remaining price starts ends = none
sale_of id (some product) total remaining price starts ends = some (record {
  id = id;
  product_id = product.id;
  total_stock = total;
  remaining_stock = remaining;
  sale_price = price;
  starts_at = starts;
  ends_at = ends;
  cancelled_at = none;
})

abbrev pub add_sale : Option SaleRow → Option (List SaleRow) → Option (List SaleRow)
add_sale none rest = none
add_sale (some sale) none = none
add_sale (some sale) (some rest) = some (sale ∷ rest)

module _ (new_id : Text → Text) where
  unfoldable pub seed_products : List ProductRow
  seed_products =
      record {
        id = new_id (codes "Apple AirPods Pro (2nd Generation)");
        name = codes "Apple AirPods Pro (2nd Generation)";
        description = some (
            codes
              "Wireless earbuds with Active Noise Cancellation, Adaptive Transparency, and a USB-C charging case.");
        image_url = some (
            codes
              "https://images.unsplash.com/photo-1606220945770-b5b6c2c55bf1?w=600&h=600&fit=contain&bg=ffffff");
        price = codes "139.90";
      }
      ∷ record {
        id = new_id (codes "Sony WH-1000XM5");
        name = codes "Sony WH-1000XM5";
        description = some (
            codes
              "Premium wireless over-ear headphones with advanced noise cancellation and up to 30 hours of battery life.");
        image_url = some (
            codes
              "https://images.unsplash.com/photo-1546435770-a3e426bf472b?w=600&h=600&fit=contain&bg=ffffff");
        price = codes "189.90";
      }
      ∷ record {
        id = new_id (codes "Apple Watch Series 10");
        name = codes "Apple Watch Series 10";
        description = some (
            codes
              "Advanced smartwatch with fitness tracking, health features, sleep tracking, and a wide-angle OLED display.");
        image_url = some (
            codes
              "https://images.unsplash.com/photo-1551816230-ef5deaed4a26?w=600&h=600&fit=contain&bg=ffffff");
        price = codes "269.90";
      }
      ∷ record {
        id = new_id (codes "Nike Air Max 270");
        name = codes "Nike Air Max 270";
        description = some (
            codes
              "Lifestyle sneakers featuring a breathable upper and responsive Max Air cushioning for everyday comfort.");
        image_url = some (
            codes
              "https://images.unsplash.com/photo-1542291026-7eec264c27ff?w=600&h=600&fit=contain&bg=ffffff");
        price = codes "74.95";
      }
      ∷ record {
        id = new_id (codes "Nintendo Switch OLED");
        name = codes "Nintendo Switch OLED";
        description = some (
            codes
              "Hybrid gaming console with a 7-inch OLED screen, enhanced audio, and an adjustable stand.");
        image_url = some (
            codes
              "https://images.unsplash.com/photo-1578303512597-81e6cc155b3e?w=600&h=600&fit=contain&bg=ffffff");
        price = codes "199.90";
      }
      ∷ record {
        id = new_id (codes "JBL Flip 6");
        name = codes "JBL Flip 6";
        description = some (
            codes
              "Portable waterproof Bluetooth speaker delivering powerful sound with up to 12 hours of playtime.");
        image_url = some (
            codes
              "https://images.unsplash.com/photo-1608156639585-b3a032ef9689?w=600&h=600&fit=contain&bg=ffffff");
        price = codes "69.99";
      }
      ∷ record {
        id = new_id (codes "Logitech MX Master 3S");
        name = codes "Logitech MX Master 3S";
        description = some (
            codes
              "Advanced wireless mouse with an 8,000 DPI sensor, quiet clicks, and MagSpeed electromagnetic scrolling.");
        image_url = some (
            codes
              "https://images.unsplash.com/photo-1527814050087-3793815479db?w=600&h=600&fit=contain&bg=ffffff");
        price = codes "59.95";
      }
      ∷ []

  unfoldable pub product_by_name : Text → Option ProductRow
  unfolding seed_products
  product_by_name name = is_named name seed_products

  unfoldable pub seed_sales : ℕ → Option (List SaleRow)
  unfolding product_by_name
  seed_sales now =
      add_sale
        (sale_of (new_id (codes "past_sale")) (product_by_name (codes "Sony WH-1000XM5")) 30 27
          (codes "159.90") (now - 2 * day) (now - 1 * day))
        (add_sale
          (sale_of (new_id (codes "low_stock_sale"))
            (product_by_name (codes "Apple AirPods Pro (2nd Generation)")) 50 2 (codes "119.90")
            (now - 2 * hour) (now + 2 * hour))
          (add_sale
            (sale_of (new_id (codes "ending_soon_sale"))
              (product_by_name (codes "Nintendo Switch OLED")) 40 15 (codes "169.90")
              (now - 1 * hour) (now + 4 * minute))
            (add_sale
              (sale_of (new_id (codes "flip_sale")) (product_by_name (codes "JBL Flip 6")) 35 20
                (codes "54.90") (now - 3 * hour) (now + 3 * hour))
              (add_sale
                (sale_of (new_id (codes "watch_sale"))
                  (product_by_name (codes "Apple Watch Series 10")) 40 40 (codes "229.90")
                  (now + 1 * day) (now + 2 * day))
                (add_sale
                  (sale_of (new_id (codes "sneaker_sale"))
                    (product_by_name (codes "Nike Air Max 270")) 45 45 (codes "59.90")
                    (now + 2 * day) (now + 3 * day))
                  (add_sale
                    (sale_of (new_id (codes "mouse_sale"))
                      (product_by_name (codes "Logitech MX Master 3S")) 25 25 (codes "47.90")
                      (now + 3 * day) (now + 4 * day))
                    (some [])))))))
