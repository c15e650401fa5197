-- ===== src/Web/Session.antt =====
-- Who is signed in to the web application: context/UserContext, pages/login/LoginPage.tsx,
-- components/NavBar/NavBar.tsx and components/RequireAuth, under the routes of main.tsx.
pub mod SignedIn
use sd_flash_sale.Prelude.{
  Bool, true, false, not, ◌&&◌, List, [], ◌∷◌, Option, none, some, Text, codes, is_some,
  if◌then◌else◌,
}
use sd_flash_sale.Web.ValidateEmail.{trim_start, trim_end, is_valid_email}

pub data Route : Type 0 where
  live_sale upcoming login orders : Route

pub record Session : Type 0 where
  -- `UserProvider`
  pub email : Option Text
  -- `NavBar`
  pub is_menu_open : Bool
  -- The form of `LoginPage`, which is made anew when the page is opened
  pub draft : Text
  pub error : Option Text
  pub route : Route

abbrev pub is_present : Option Text → Bool
is_present none = false
is_present (some []) = false
is_present (some (c ∷ s)) = true

-- The route that the router shows: `RequireAuth` stands before the orders.
unfoldable pub require_auth : Option Text → Route → Route
require_auth email orders = if is_present email then orders else login
require_auth email route = route

-- The form stays while its page is not left.
abbrev pub kept_form {ℓ} : {A : Type ℓ} → Route → Route → A → A → A
kept_form login login old fresh = old
kept_form _ _ old fresh = fresh

unfoldable pub navigate : Route → Session → Session
unfolding require_auth
navigate route s = record s {
  route = require_auth s.email route;
  draft = kept_form s.route route s.draft [];
  error = kept_form s.route route s.error none;
}

unfoldable pub logout : Session → Session
unfolding require_auth
logout s = record s { email = none; route = require_auth none s.route }

unfoldable pub handle_submit : Session → Session
unfolding navigate
handle_submit s =
    if not (is_valid_email s.draft)
    then record s { error = some (codes "Enter a valid email address.") }
    else navigate live_sale
        (record s { error = none; email = some (trim_end (trim_start s.draft)) })

unfoldable pub handle_sign_out : Session → Session
unfolding logout
handle_sign_out s = logout (record s { is_menu_open = false })

-- What a visitor does: in the form, which is on the login page, and in the bar, whose menu is there for a
-- buyer who is signed in.
pub data Event : Type 0 where
  types : Text → Event
  submits toggles clicks_outside opens_orders signs_out : Event
  goes : Route → Event

abbrev pub in_form : Route → Session → Session → Session
in_form login s t = t
in_form _ s t = s

unfoldable pub step : Event → Session → Session
unfolding navigate handle_sign_out handle_submit
step (types text) s = in_form s.route s (record s { draft = text })
step submits s = in_form s.route s (handle_submit s)
step toggles s = if is_present s.email then record s { is_menu_open = not s.is_menu_open } else s
step clicks_outside s = record s { is_menu_open = false }
step opens_orders s =
    if is_present s.email && s.is_menu_open
    then navigate orders (record s { is_menu_open = false })
    else s
step signs_out s = if is_present s.email && s.is_menu_open then handle_sign_out s else s
step (goes route) s = navigate route s

unfoldable pub run : List Event → Session → Session
unfolding step
run [] s = s
run (e ∷ es) s = run es (step e s)

unfoldable pub visited : Route → Session
unfolding require_auth
visited route = record {
  email = none;
  is_menu_open = false;
  draft = [];
  error = none;
  route = require_auth none route;
}
