-- ===== src/Web/ApiFetch.antt =====
-- apps/web/src/api/apiFetch: a request to the API and what becomes of its reply. `fetch`, `URL` and JSON
-- texts are left out: a reply is what fetch throws, or a status with the value of its JSON.
pub mod Envelope
use sd_flash_sale.Prelude.{
  ℕ, Bool, true, false, not, ◌&&◌, List, [], ◌∷◌, ◌++◌, Option, none, some, Text, codes, text_eq,
  leb, ltb, ◌==◌, if◌then◌else◌,
}
use sd_flash_sale.Prelude.Json.{Value, null, text, array, object, Elements, last, element, member}
use sd_flash_sale.Prelude.Result.{Result, ok, throws}

abbrev pub default_base_url : Text
default_base_url = codes "http://localhost:3000/api"

abbrev pub network_error_status : ℕ
network_error_status = 0

abbrev pub network_error_message : Text
network_error_message = codes "Could not reach the server. Check your connection and try again."

abbrev pub unexpected_error_message : Text
unexpected_error_message = codes "Something went wrong. Please try again."

pub record ApiError : Type 0 where
  pub status : ℕ
  pub message : Text
  pub details : List Text

abbrev pub without_slash : Text → Text
without_slash [] = []
without_slash (c ∷ []) = if c == b'/' then [] else c ∷ []
without_slash (c ∷ d ∷ s) = c ∷ without_slash (d ∷ s)

unfoldable pub base_url : Option Text → Text
base_url none = without_slash default_base_url
base_url (some url) = without_slash url

-- `typeof value === "object" && value !== null`, which a list is too
abbrev pub is_record : Value → Bool
is_record (object fields) = true
is_record (array elements) = true
is_record _ = false

abbrev pub is_text : Text → Option Value → Bool
is_text s (some (text t)) = text_eq t s
is_text s _ = false

unfoldable pub is_abort_error : Value → Bool
is_abort_error cause = is_record cause && is_text (codes "AbortError") (member (codes "name") cause)

abbrev pub text_or : Text → Option Value → Text
text_or default (some (text t)) = t
text_or default _ = default

abbrev pub issue_of : Option Value → List Text → List Text
issue_of (some (text t)) later = t ∷ later
issue_of _ later = later

-- The texts of the issues that have one
abbrev pub issues_of : Elements → List Text
issues_of last = []
issues_of (element issue issues) = issue_of (member (codes "message") issue) (issues_of issues)

abbrev pub details_of : Option Value → List Text
details_of (some (array issues)) = issues_of issues
details_of _ = []

unfoldable pub to_api_error : ℕ → Value → ApiError
to_api_error status payload = record {
  status = status;
  message = text_or unexpected_error_message (member (codes "message") payload);
  details = details_of (member (codes "errors") payload);
}

-- What is thrown: an ApiError, or another value
pub data Failure : Type 0 where
  api_error : ApiError → Failure
  foreign : Value → Failure

unfoldable pub as_api_error : Failure → ApiError
as_api_error (api_error e) = e
as_api_error (foreign cause) = record {
  status = 0;
  message = unexpected_error_message;
  details = [];
}

pub record ApiFetchOptions : Type 0 where
  pub method : Option Text
  pub body : Option Value
  pub query : List (Text × Option Text)

-- The parameters that are set on the URL
unfoldable pub search_params : List (Text × Option Text) → List (Text × Text)
search_params [] = []
search_params ((key, none) ∷ query) = search_params query
search_params ((key, some value) ∷ query) = (key, value) ∷ search_params query

pub record Request : Type 0 where
  pub url : Text
  pub params : List (Text × Text)
  pub method : Text
  pub body : Option Value

abbrev pub method_of : Option Text → Text
method_of none = codes "GET"
method_of (some method) = method

unfoldable pub request_of : Option Text → Text → ApiFetchOptions → Request
unfolding base_url search_params
request_of env path options = record {
  url = base_url env ++ path;
  params = search_params options.query;
  method = method_of options.method;
  body = options.body;
}

-- A reply's status, and its JSON, if it is one
pub record Response : Type 0 where
  pub status : ℕ
  pub json : Option Value

abbrev pub payload_of : Option Value → Value
payload_of none = null
payload_of (some value) = value

abbrev pub is_ok : ℕ → Bool
is_ok status = leb 200 status && ltb status 300

abbrev pub content_of : ℕ → Option Value → Result Failure Value
content_of status none =
    throws
      (api_error (record { status = status; message = unexpected_error_message; details = [] }))
content_of status (some content) = ok content

-- `apiFetch`, from what `fetch` answers the request with
unfoldable pub api_fetch :
    (Request → Result Value Response) → Option Text → Text → ApiFetchOptions → Result Failure Value
unfolding is_abort_error to_api_error request_of
api_fetch fetch env path options = elim (fetch (request_of env path options)) [
  | throws cause ↦
      if is_abort_error cause
      then throws (foreign cause)
      else throws (
          api_error (record {
            status = network_error_status;
            message = network_error_message;
            details = [];
          }))
  | ok response ↦
      let payload = payload_of response.json in
      if not (is_ok response.status)
      then throws (api_error (to_api_error response.status payload))
      else content_of response.status (member (codes "data") payload)
]
