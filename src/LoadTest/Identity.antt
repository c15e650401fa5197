-- ===== src/LoadTest/Identity.antt =====
-- packages/load-test/k6/lib/identity.ts: the addresses that simulated buyers use. A number of `Math.random`
-- is a whole number of `scale` parts, and the share of repeats one of thousandths.
pub mod Apart
use sd_flash_sale.Prelude.{
  ℕ, ◌*◌, ◌/◌, ◌∷◌, ◌++◌, Bool, Option, none, some, Text, codes, to_string, leb, if◌then◌else◌,
}
use sd_flash_sale.LoadTest.Stages.{or_default}

abbrev pub load_test_email_domain : Text
load_test_email_domain = codes "loadtest.invalid"

-- What the environment sets: RUN_ID, EMAIL_REPEAT_SHARE in thousandths and EMAIL_REPEAT_POOL_SIZE
pub record Settings : Type 0 where
  pub run_id : Option Text
  pub repeat_share : Option ℕ
  pub repeat_pool_size : Option ℕ

abbrev pub run_id_of : Option Text → Text
run_id_of none = codes "local"
run_id_of (some run_id) = run_id

-- `-${runId}@${LOAD_TEST_EMAIL_DOMAIN}`
abbrev pub email_end : Settings → Text
email_end settings = b'-' ∷ run_id_of settings.run_id ++ b'@' ∷ load_test_email_domain

-- One call in an iteration of a virtual user, with the two numbers that `Math.random` gives it
pub record Call : Type 0 where
  pub vu : ℕ
  pub iter : ℕ
  pub pick : ℕ
  pub slot_pick : ℕ

unfoldable pub unique_email : Settings → Call → Text
unique_email settings call =
    b'v' ∷ b'u' ∷ to_string call.vu
    ++ b'-' ∷ b'i' ∷ b't' ∷ b'e' ∷ b'r' ∷ (to_string call.iter ++ email_end settings)

-- `Math.random() >= emailRepeatShare(0.3)`
abbrev pub is_fresh : ℕ → Settings → Call → Bool
is_fresh scale settings call = leb (or_default settings.repeat_share 300 * scale) (call.pick * 1000)

-- `Math.floor(Math.random() * emailRepeatPoolSize(200))`
abbrev pub slot_of : ℕ → Settings → Call → ℕ
slot_of scale settings call = call.slot_pick * or_default settings.repeat_pool_size 200 / scale

unfoldable pub repeat_email : ℕ → Settings → Call → Text
repeat_email scale settings call =
    codes "repeat" ++ (to_string (slot_of scale settings call) ++ email_end settings)

unfoldable pub purchase_email : ℕ → Settings → Call → Text
unfolding unique_email repeat_email
purchase_email scale settings call =
    if is_fresh scale settings call
    then unique_email settings call
    else repeat_email scale settings call
