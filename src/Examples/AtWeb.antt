-- ===== src/Examples/AtWeb.antt =====
-- The theorems about apps/web at concrete inputs.
use sd_flash_sale.Prelude.{
  ◌/◌, ◌≤◌, ◌≡◌, ◌↔◌, ◌⊎◌, refl, true, Bool, List, [], ◌∷◌, none, some, codes, All,
}
use sd_flash_sale.Prelude.Result.{Result, ok}
use sd_flash_sale.Contract.{active, success}
use sd_flash_sale.Prelude.Json.{Value, other, member}
use sd_flash_sale.Api.Common.{intercept}
use sd_flash_sale.Web.ApiFetch.{
  ApiFetchOptions, Request, request_of, Response, payload_of, is_ok, api_fetch,
}
use sd_flash_sale.Web.ApiFetch.Envelope.{api_fetch-ok}
use sd_flash_sale.Web.Duration.{pos, clamp, format_duration}
use sd_flash_sale.Web.Duration.ReadBack.{read_duration, read_duration-format_duration}
use sd_flash_sale.Web.ValidateEmail.{trim_start, trim_end, is_valid_email}
use sd_flash_sale.Web.ValidateEmail.Shape.{IsAddress, is_valid_email-shape}
use sd_flash_sale.Web.PurchasePanel
use sd_flash_sale.Web.PurchasePanel.{clicks, answers, wakes, opened, disabled}
use sd_flash_sale.Web.PurchasePanel.Paced.{IsLong, run-paces}
use sd_flash_sale.Web.Session
use sd_flash_sale.Web.AsyncData
use sd_flash_sale.Web.Pages.{list_view}
use sd_flash_sale.Web.Pages.NeverBlank.{messages, run-list_view}
use sd_flash_sale.Prelude.{ℕ, length, false, ◌+◌}
use sd_flash_sale.Web.Session.{types, submits, toggles, signs_out, login, visited}
use sd_flash_sale.Web.Session.SignedIn.{IsSignedIn, run-IsSignedIn}
use sd_flash_sale.Examples.DatabaseStub.{ann}

abbrev options : ApiFetchOptions
options = record { method = none; body = none; query = [] }

abbrev fetch : Request → Result Value Response
fetch request = ok (record { status = 200; json = some (intercept none 200 (other 7)) })

api_fetch-ok_example : (api_fetch fetch none (codes "/sales") options ≡ ok (other 7)) ↔ (
    (response : Response) × (fetch (request_of none (codes "/sales") options) ≡ ok response)
    × (is_ok response.status ≡ true)
    × (member (codes "data") (payload_of response.json) ≡ some (other 7)))
api_fetch-ok_example = api_fetch-ok fetch none (codes "/sales") options (other 7)

read_duration-format_duration_example :
    read_duration (format_duration (pos 3725999)) ≡ clamp (pos 3725999) / 1000
read_duration-format_duration_example = read_duration-format_duration (pos 3725999)

is_valid_email-shape_example :
    (is_valid_email (codes " a@b.io ") ≡ true)
    ↔ IsAddress (trim_end (trim_start (codes " a@b.io ")))
is_valid_email-shape_example = is_valid_email-shape (codes " a@b.io ")

abbrev buys_once : List (PurchasePanel.Event Bool)
buys_once =
    clicks 10
    ∷ clicks 11
    ∷ answers (record { status = success; message = [] }) 60
    ∷ wakes 900
    ∷ wakes 1010
    ∷ []

run-paces_example :
    let p = PurchasePanel.run buys_once (opened active) in
    (p.hook.posts ≤ 1) × ((p.hook.posts ≡ 0) ⊎ (disabled p ≡ true)) × All IsLong p.purchased
run-paces_example = run-paces buys_once active

abbrev signs_in : List Session.Event
signs_in = types (codes "nobody") ∷ submits ∷ types ann ∷ submits ∷ toggles ∷ signs_out ∷ []

run-IsSignedIn_example : IsSignedIn (Session.run signs_in (visited login))
run-IsSignedIn_example = run-IsSignedIn signs_in login

-- A load that fails, and its retry
abbrev retried : List (AsyncData.Event (List ℕ) Bool)
retried =
    AsyncData.reply 0 (AsyncData.rejected false)
    ∷ AsyncData.refetch
    ∷ AsyncData.reply 1 (AsyncData.resolved (7 ∷ []))
    ∷ []

run-list_view_example :
    let v = list_view (λ (n : ℕ). n) (AsyncData.run retried (AsyncData.use_async_data (some 5))) in
    (messages v ≤ 1) × (1 ≤ messages v + length v.rows)
run-list_view_example = run-list_view ℕ ℕ Bool (λ n. n) (some 5) retried refl
