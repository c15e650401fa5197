-- ===== src/Web/ApiFetch/Envelope.antt =====
-- When a request succeeds.
use sd_flash_sale.Prelude.{
  ℕ, ◌≡◌, ◌↔◌, refl, true, Option, none, some, Text, codes, Bool-cases, inl, inr,
}
use sd_flash_sale.Prelude.Result.{Result, ok, Result-cases}
use sd_flash_sale.Prelude.Json.{Value, member}
use sd_flash_sale.Web.ApiFetch.{
  ApiFetchOptions, Request, request_of, Response, payload_of, is_ok, content_of, api_fetch,
  is_abort_error,
}

content_of-ok :
    (status : ℕ) (found : Option Value) (content : Value)
    → content_of status found ≡ ok content
    → found ≡ some content
content_of-ok status none content h = absurd (cc h)
content_of-ok status (some x) content h = cc h

-- A request gives a value exactly if the reply comes, with a status of success and a JSON object whose `data` is
-- that value: nothing else that fetch does is taken for one.
pub api_fetch-ok :
    (fetch : Request → Result Value Response) (env : Option Text) (path : Text)
    (options : ApiFetchOptions) (content : Value)
    → (api_fetch fetch env path options ≡ ok content) ↔ (
        (response : Response) × (fetch (request_of env path options) ≡ ok response)
        × (is_ok response.status ≡ true)
        × (member (codes "data") (payload_of response.json) ≡ some content))
unfolding api_fetch
api_fetch-ok fetch env path options content = (
  λ h. elim (Result-cases (fetch (request_of env path options))) [
    | inl (response, replied) ↦ elim (Bool-cases (is_ok response.status)) [
      | inl success ↦ (
        response,
        replied,
        success,
        content_of-ok response.status _ content (rw (api_fetch, replied, success) at h),
      )
      | inr failure ↦ absurd (cc (rw (api_fetch, replied, failure) at h))
    ]
    | inr (cause, thrown) ↦ elim (Bool-cases (is_abort_error cause)) [
      | inl aborted ↦ absurd (cc (rw (api_fetch, thrown, aborted) at h))
      | inr lost ↦ absurd (cc (rw (api_fetch, thrown, lost) at h))
    ]
  ],
  λ (response, replied, success, found). rw (api_fetch, replied, success, found) refl,
)
