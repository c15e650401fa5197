-- ===== src/Web/Session/SignedIn.antt =====
-- A buyer who is signed in has an address, and only such a buyer sees orders.
use sd_flash_sale.Prelude.{
  ◌≡◌, refl, Bool, true, false, not, ◌&&◌, List, [], ◌∷◌, Option, none, some, Text, if-cases,
  Bool-cases, inl, inr,
}
use sd_flash_sale.Web.ValidateEmail.{trim_start, trim_end, is_valid_email}
use sd_flash_sale.Web.ValidateEmail.Shape.{IsAddress, is_valid_email-shape}
use sd_flash_sale.Web.Session.{
  Route, live_sale, upcoming, login, orders, Session, is_present, require_auth, navigate, logout,
  handle_submit, handle_sign_out, Event, types, submits, toggles, clicks_outside, opens_orders,
  signs_out, goes, in_form, step, run, visited,
}

abbrev pub HasAddress : Option Text → Type 0
HasAddress none = Unit
HasAddress (some email) = IsAddress email

-- Where only a buyer who is signed in may be
abbrev pub IsAllowed : Route → Option Text → Type 0
IsAllowed orders email = is_present email ≡ true
IsAllowed _ email = Unit

abbrev pub IsMenuFor : Bool → Option Text → Type 0
IsMenuFor true email = is_present email ≡ true
IsMenuFor false email = Unit

pub record IsSignedIn (s : Session) : Type 0 where
  pub address : HasAddress s.email
  pub allowed : IsAllowed s.route s.email
  pub menu : IsMenuFor s.is_menu_open s.email

require_auth-IsAllowed :
    (email : Option Text) (route : Route) → IsAllowed (require_auth email route) email
unfolding require_auth
require_auth-IsAllowed email orders =
    if-cases (λ (shown : Route). IsAllowed shown email) (is_present email) (λ present. present)
      (λ absent. tt)
require_auth-IsAllowed email live_sale = tt
require_auth-IsAllowed email upcoming = tt
require_auth-IsAllowed email login = tt

navigate-IsSignedIn :
    (route : Route) (s : Session)
    → HasAddress s.email
    → IsMenuFor s.is_menu_open s.email
    → IsSignedIn (navigate route s)
unfolding navigate
navigate-IsSignedIn route s address menu = record {
  address = address;
  allowed = require_auth-IsAllowed s.email route;
  menu = menu;
}

IsAddress-is_present : (email : Text) → IsAddress email → is_present (some email) ≡ true
IsAddress-is_present [] (name, domain, tld, is_name, is_domain, is_tld, split) =
    absurd (cc (rw is_name.whole at split))
IsAddress-is_present (c ∷ s) h = refl

IsMenuFor-address :
    (open_menu : Bool) (email : Text) → IsAddress email → IsMenuFor open_menu (some email)
IsMenuFor-address true email h = IsAddress-is_present email h
IsMenuFor-address false email h = tt

handle_submit-IsSignedIn : (s : Session) → IsSignedIn s → IsSignedIn (handle_submit s)
unfolding handle_submit
handle_submit-IsSignedIn s h = elim (Bool-cases (is_valid_email s.draft)) [
  | inl valid ↦
      let address = (is_valid_email-shape s.draft).0 valid in
      rw valid (
        navigate-IsSignedIn live_sale
          (record s { error = none; email = some (trim_end (trim_start s.draft)) }) address
          (IsMenuFor-address s.is_menu_open (trim_end (trim_start s.draft)) address))
  | inr invalid ↦ rw invalid (record { address = h.address; allowed = h.allowed; menu = h.menu })
]

in_form-IsSignedIn :
    (route : Route) (s t : Session) → IsSignedIn s → IsSignedIn t → IsSignedIn (in_form route s t)
in_form-IsSignedIn login s t h k = k
in_form-IsSignedIn live_sale s t h k = h
in_form-IsSignedIn upcoming s t h k = h
in_form-IsSignedIn orders s t h k = h

toggled : (b : Bool) (email : Option Text) → is_present email ≡ true → IsMenuFor b email
toggled true email h = h
toggled false email h = tt

step-IsSignedIn : (e : Event) (s : Session) → IsSignedIn s → IsSignedIn (step e s)
unfolding step handle_sign_out logout
step-IsSignedIn (types draft) s h =
    in_form-IsSignedIn s.route s _ h
      (record { address = h.address; allowed = h.allowed; menu = h.menu })
step-IsSignedIn submits s h = in_form-IsSignedIn s.route s _ h (handle_submit-IsSignedIn s h)
step-IsSignedIn toggles s h =
    if-cases IsSignedIn (is_present s.email)
      (λ present. record {
        address = h.address;
        allowed = h.allowed;
        menu = toggled (not s.is_menu_open) s.email present;
      })
      (λ absent. h)
step-IsSignedIn clicks_outside s h = record { address = h.address; allowed = h.allowed; menu = tt }
step-IsSignedIn opens_orders s h =
    if-cases IsSignedIn (is_present s.email && s.is_menu_open)
      (λ there. navigate-IsSignedIn orders (record s { is_menu_open = false }) h.address tt)
      (λ hidden. h)
step-IsSignedIn signs_out s h =
    if-cases IsSignedIn (is_present s.email && s.is_menu_open)
      (λ there. record { address = tt; allowed = require_auth-IsAllowed none s.route; menu = tt })
      (λ hidden. h)
step-IsSignedIn (goes route) s h = navigate-IsSignedIn route s h.address h.menu

run-IsSignedIn_from : (es : List Event) (s : Session) → IsSignedIn s → IsSignedIn (run es s)
unfolding run
run-IsSignedIn_from [] s h = h
run-IsSignedIn_from (e ∷ es) s h = run-IsSignedIn_from es (step e s) (step-IsSignedIn e s h)

-- Whatever page is opened first and whatever is typed, submitted and clicked: who is signed in has an address
-- of the form name@domain.tld, without white space; the orders and the open menu are shown only to who is.
pub run-IsSignedIn : (es : List Event) (route : Route) → IsSignedIn (run es (visited route))
unfolding visited
run-IsSignedIn es route =
    run-IsSignedIn_from es (visited route)
      (record { address = tt; allowed = require_auth-IsAllowed none route; menu = tt })
