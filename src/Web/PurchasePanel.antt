-- ===== src/Web/PurchasePanel.antt =====
-- apps/web/src/components/PurchasePanel/PurchasePanel.tsx, over usePurchase: what a buyer sees, and what a click
-- sets off. Every event meets the latest render. Styles are left out.
pub mod Paced
use sd_flash_sale.Prelude.{
  ℕ, ◌+◌, ◌-◌, Bool, true, false, not, ◌||◌, List, [], ◌∷◌, Option, none, some, Text, codes,
  is_some, leb, ltb, if◌then◌else◌,
}
use sd_flash_sale.Contract.{
  SalePhase, upcoming, active, ended, sold_out, PurchaseOutcome, success, already_purchased,
  sale_not_active, PurchaseResult,
}
use sd_flash_sale.Web.Purchase.{PurchaseState, use_purchase, submit, succeed, fail}

abbrev pub outcome_is_error : PurchaseOutcome → Bool
outcome_is_error success = false
outcome_is_error already_purchased = false
outcome_is_error PurchaseOutcome.sold_out = true
outcome_is_error sale_not_active = true

abbrev pub min_loading_ms : ℕ
min_loading_ms = 1000

-- Where `handleBuy` waits: for the post, since the click, or for its timer, until a time.
pub data Stage : Type 0 where
  idle : Stage
  posting : ℕ → Stage
  sleeping : ℕ → ℕ → Stage

-- `purchased` lists the calls of `onPurchased`, each with the times of the click and of the call.
pub record Panel (E : Type 0) : Type 0 where
  pub hook : PurchaseState E
  pub is_busy : Bool
  pub stage : Stage
  pub phase : SalePhase
  pub purchased : List (ℕ × ℕ)

abbrev pub is_active : SalePhase → Bool
is_active active = true
is_active _ = false

pub data Event (E : Type 0) : Type 0 where
  clicks : ℕ → Event E
  answers : PurchaseResult → ℕ → Event E
  fails : E → ℕ → Event E
  wakes : ℕ → Event E
  refreshes : SalePhase → Event E

module _ {E : Type 0} where
  abbrev pub disabled : Panel E → Bool
  disabled p = not (is_active p.phase) || p.hook.is_submitting || p.is_busy

  -- The end of `handleBuy`
  unfoldable pub finish_buy : ℕ → ℕ → Panel E → Panel E
  finish_buy started_at now p = record p {
    is_busy = false;
    stage = idle;
    purchased = (started_at, now) ∷ p.purchased;
  }

  -- After `await submit(…)`: the milliseconds that are left may be none.
  unfoldable pub after_submit : ℕ → ℕ → Panel E → Panel E
  unfolding finish_buy
  after_submit started_at now p =
      let remaining_ms = (min_loading_ms + started_at) - now in
      if ltb 0 remaining_ms
      then record p { stage = sleeping started_at (now + remaining_ms) }
      else finish_buy started_at now p

  -- `handleBuy`, up to its `await`, from the button that is not disabled
  unfoldable pub handle_buy : ℕ → Panel E → Panel E
  handle_buy now p =
      if disabled p
      then p
      else record p { is_busy = true; stage = posting now; hook = submit p.hook }

  abbrev pub settled : (PurchaseState E → PurchaseState E) → ℕ → Stage → Panel E → Panel E
  settled settle now (posting started_at) p =
      after_submit started_at now (record p { hook = settle p.hook })
  settled settle now _ p = p

  abbrev pub woken : ℕ → Stage → Panel E → Panel E
  woken now (sleeping started_at until) p = if leb until now then finish_buy started_at now p else p
  woken now _ p = p

  unfoldable pub step : Event E → Panel E → Panel E
  unfolding handle_buy
  step (clicks now) p = handle_buy now p
  step (answers outcome now) p = settled (succeed outcome) now p.stage p
  step (fails cause now) p = settled (fail cause) now p.stage p
  step (wakes now) p = woken now p.stage p
  step (refreshes phase) p = record p { phase = phase }

  unfoldable pub run : List (Event E) → Panel E → Panel E
  unfolding step
  run [] p = p
  run (e ∷ es) p = run es (step e p)

  unfoldable pub opened : SalePhase → Panel E
  unfolding use_purchase
  opened phase = record {
    hook = use_purchase;
    is_busy = false;
    stage = idle;
    phase = phase;
    purchased = [];
  }

pub record View (E : Type 0) : Type 0 where
  pub sign_in : Bool
  pub status : Option PurchaseResult
  pub is_error : Bool
  pub alert : Option E
  pub is_disabled : Bool
  pub label : Text
  pub order_link : Bool

abbrev pub label_of : SalePhase → Bool → Text
label_of upcoming busy = codes "Not yet available"
label_of ended busy = codes "Sale ended"
label_of sold_out busy = codes "Sold out"
label_of active true = codes "Buying…"
label_of active false = codes "Buy now"

abbrev pub shown {ℓ} : {A : Type ℓ} → Bool → Option A → Option A
shown true x = none
shown false x = x

abbrev pub shows_error : Option PurchaseResult → Bool
shows_error none = false
shows_error (some result) = outcome_is_error result.status

abbrev pub is_bought : Option PurchaseResult → Bool
is_bought none = false
is_bought (some result) = elim result.status [ success ↦ true | _ ↦ false ]

-- What is rendered for a visitor, who is signed in or not
unfoldable pub view : {E : Type 0} → Option Text → Panel E → View E
view none p = record {
  sign_in = true;
  status = none;
  is_error = false;
  alert = none;
  is_disabled = true;
  label = codes "Sign in to buy";
  order_link = false;
}
view (some email) p =
    let result = shown p.is_busy p.hook.result in
    record {
      sign_in = false;
      status = result;
      is_error = shows_error result;
      alert = shown p.is_busy p.hook.error;
      is_disabled = disabled p;
      label = label_of p.phase p.is_busy;
      order_link = is_bought result;
    }
