-- ===== src/Examples/AtRest.antt =====
-- The theorems about the load test's checks and the web application at concrete inputs.
use sd_flash_sale.Prelude.{ℕ, ◌≡◌, refl, Bool, true, false, List, [], ◌∷◌, some, arith}
use sd_flash_sale.Prelude.Result.{ok}
use sd_flash_sale.LoadTest.Verify.{VerifyResult, verify}
use sd_flash_sale.LoadTest.Verify.Holds.{verify-IsConsistent}
use sd_flash_sale.LoadTest.Stages.{RateStage, to_k6_stages, record_iteration}
use sd_flash_sale.LoadTest.Stages.Plateaus.{target_at, record_iteration-target_at}
use sd_flash_sale.Prelude.{Text}
use sd_flash_sale.Redis.Server.{absent_entry}
use sd_flash_sale.Redis.Gate.{IsWarm}
use sd_flash_sale.Redis.Sync.Warm.{gate_of}
use sd_flash_sale.Redis.WarmScript.{warm, input_of, buyer_emails}
use sd_flash_sale.Redis.WarmScript.Loaded.{warm-IsWarm}
use sd_flash_sale.Examples.RedisStub.{redis}
use sd_flash_sale.Examples.DatabaseStub.{postgres}
use sd_flash_sale.Web.AsyncData.{
  Event, Reply, resolved, rejected, render, refetch, reply, run, use_async_data,
}
use sd_flash_sale.Web.AsyncData.Latest
use sd_flash_sale.Web.AsyncData.Latest.{run-loads_current, replies, refetch-ignores_older}
use sd_flash_sale.Web.Purchase
use sd_flash_sale.Web.Purchase.Once.{IsOnce, run-use_purchase-IsOnce}
use sd_flash_sale.Examples.DatabaseStub.{
  sale_id, tables, sale_row, sale_row-found, tables-IsConsistent,
}

verify-IsConsistent_example :
    (result : VerifyResult) × (verify sale_id tables ≡ ok result) × (result.all_passed ≡ true)
verify-IsConsistent_example =
    verify-IsConsistent sale_id sale_row tables tables-IsConsistent sale_row-found

abbrev events : List (Event ℕ Bool)
events = reply 0 (rejected false) ∷ refetch ∷ reply 1 (resolved 7) ∷ render (some 6) ∷ []

abbrev late : List (ℕ × Reply ℕ Bool)
late = (0, resolved 3) ∷ []

abbrev none_yet : List (Event ℕ Bool)
none_yet = []

fetches_five : (run none_yet (use_async_data (some 5))).prev_fetcher ≡ some 5
unfolding run use_async_data
fetches_five = refl

one_older :
    Latest.all_before ℕ Bool (run none_yet (use_async_data (some 5))).next_attempt late ≡ true
unfolding run use_async_data
one_older = refl

abbrev clicks : List (Purchase.Event Bool)
clicks =
    Purchase.Event.submits
    ∷ Purchase.Event.submits
    ∷ Purchase.Event.fails true
    ∷ Purchase.Event.submits
    ∷ []

run-use_purchase-IsOnce_example : IsOnce Bool (Purchase.run clicks Purchase.use_purchase)
run-use_purchase-IsOnce_example = run-use_purchase-IsOnce Bool clicks

abbrev plan : List RateStage
plan =
    record { rate_per_second = 100; duration_seconds = 30 }
    ∷ record { rate_per_second = 200; duration_seconds = 1 }
    ∷ []

record_iteration-target_at_example :
    record_iteration plan 30500 ≡ target_at (to_k6_stages plan) 30500
record_iteration-target_at_example = record_iteration-target_at plan 30500 (omega arith)

warm-IsWarm_example :
    IsWarm redis sale_id
      (gate_of (input_of sale_row) (buyer_emails redis postgres tables sale_id))
      (warm redis postgres tables 150 (λ k. absent_entry))
warm-IsWarm_example =
    warm-IsWarm redis postgres tables 150 sale_id sale_row (λ k. absent_entry) (refl, tt)
      sale_row-found refl

abbrev by_name : Text → Text
by_name name = name
