-- ===== src/Examples/AtLoadTest.antt =====
-- The theorems about packages/load-test at concrete inputs.
use sd_flash_sale.Prelude.{
  ℕ, ◌+◌, ◌≤◌, ◌⊎◌, ◌≡◌, refl, true, false, Bool, ◌&&◌, ◌==◌, List, [], ◌∷◌, none, some, Text,
  codes, text_eq, text_eq_refl, count, if◌then◌else◌, arith,
}
use sd_flash_sale.Prelude.Result.{ok, throws}
use sd_flash_sale.Prelude.Json.{text, object, bare, field}
use sd_flash_sale.Api.Common.{intercept}
use sd_flash_sale.Database.Schema.{SaleRow, PurchaseRow, Tables}
use sd_flash_sale.Database.Scripts.{PostgresScripts, inserted_sale, deleted_sales, deleted_products}
use sd_flash_sale.LoadTest.Suite.{RunArgs, Replies, main, steps_of}
use sd_flash_sale.LoadTest.Suite.Outcome.{IsCalm, all_pass, reached, tests_run, main-exit_code}
use sd_flash_sale.LoadTest.DrainQueue.{Outside, wait_for_queue_drain}
use sd_flash_sale.LoadTest.DrainQueue.Ends.{IsTold, wait_for_queue_drain-ends}
use sd_flash_sale.LoadTest.Suite.{DrainQueueResult}
use sd_flash_sale.LoadTest.Sale.{delete_load_test_rows, create_load_test_sale}
use sd_flash_sale.LoadTest.Sale.Removed.{emptied}
use sd_flash_sale.LoadTest.Sale.Again.{tested, IsFresh, clean_up-undoes_create}
use sd_flash_sale.LoadTest.Client.{Reply, purchases}
use sd_flash_sale.LoadTest.Identity.{purchase_email, Settings, Call, is_fresh, slot_of}
use sd_flash_sale.LoadTest.Identity.Apart.{purchase_email_apart}
use sd_flash_sale.Examples.DatabaseStub.{tables, ann}
use sd_flash_sale.Prelude.{select, not}

-- k6 fails in every test, and the queue cannot be asked.
abbrev replies : Text → Replies Bool
replies name = record {
  run_id = codes "r1";
  prepared = ok (codes "s9");
  k6_exit_code = ok 99;
  drain = throws true;
  verified = ok true;
  cleaned = ok tt;
}

abbrev args : RunArgs
args = record { test_name = some (codes "smoke"); keep = false; label = codes "today" }

abbrev exits : Text → ℕ
exits name = 99

abbrev holds : Text → Bool
holds name = true

calm : IsCalm Bool (replies (codes "smoke")) 99 true
calm = record {
  sale_id = codes "s9";
  prepared_ok = refl;
  k6_ok = refl;
  verified_ok = refl;
  cleaned_ok = refl;
}

main-exit_code_example :
    let (exit, done) = main Bool [] (codes "http://api") replies args in
    let passes : Text → Bool = λ step. exits step == 0 && holds step in
    let steps = steps_of Bool args.test_name in
    (exit ≡ ok (if all_pass passes steps then 0 else 1)) × (tests_run done ≡ reached passes steps)
main-exit_code_example =
    main-exit_code Bool [] (codes "http://api") replies args exits holds (calm, tt)

abbrev outside : Outside
outside = record {
  replies_at = λ t. t + 3;
  fires_at = λ t ms. t + ms;
  depth = λ t. if t == 1003 then 5 else 0;
  replies_at_law = λ t. omega arith;
  fires_at_law = λ t ms. omega arith;
}

wait_for_queue_drain-ends_example :
    (result : DrainQueueResult) × (wait_for_queue_drain outside 41 10000 1000 ≡ some result)
    × IsTold outside 1000 10000 result
wait_for_queue_drain-ends_example = wait_for_queue_drain-ends outside 40 10000 1000 (omega arith)

abbrev scripts : PostgresScripts
scripts = record {
  new_product_id = λ t. codes "p9";
  new_sale_id = λ t. codes "s9";
  products_where = λ t test. select test t.products;
  sales_where = λ t test. select test t.sales;
  insert_product = λ t p. record t { products = p ∷ t.products };
  insert_sale = inserted_sale;
  delete_purchases = λ t test. record t { purchases = select (λ p. not (test p)) t.purchases };
  delete_sales = deleted_sales;
  delete_products = deleted_products;
  products_where_law = λ t test. refl;
  sales_where_law = λ t test. refl;
  insert_product_law = λ t p. refl;
  insert_sale_law = λ t s. refl;
  delete_purchases_law = λ t test. refl;
  delete_sales_law = λ t test. refl;
  delete_products_law = λ t test. refl;
}

abbrev bought : List PurchaseRow
bought = record { id = codes "b1"; sale_id = codes "s9"; email = ann; purchased_at = 5000000 } ∷ []

fresh : IsFresh scripts (emptied tables)
unfolding text_eq
fresh = record { product_new = refl; product_unused = refl; sale_unused = refl }

one_product :
    count (λ p. text_eq p.name (codes "[load-test] Flash Sale Target")) tables.products ≤ 1
unfolding text_eq
one_product = omega arith

clean_up-undoes_create_example :
    (ids : List Text) × (product_id : Text) × (sale : SaleRow) × (u : Tables)
    × (delete_load_test_rows scripts tables ≡ ok (ids, emptied tables))
    × (create_load_test_sale scripts 10 4000000 tables ≡ ok ((product_id, sale), u))
    × (sale.remaining_stock ≡ 10)
    × (delete_load_test_rows scripts (tested sale.id bought 9 u)
        ≡ ok (sale.id ∷ [], emptied tables))
clean_up-undoes_create_example =
    clean_up-undoes_create scripts tables 10 4000000 9 bought one_product fresh
      (text_eq_refl (codes "s9"), tt)

abbrev answer : Text → Reply
answer outcome = record {
  status = 200;
  json = some (intercept none 200 (object (field (codes "status") (text outcome) bare)));
}

abbrev failure : Reply
failure = record { status = 500; json = none }

abbrev replies_of_run : List Reply
replies_of_run =
    answer (codes "success") ∷ failure ∷ answer (codes "sold_out") ∷ answer (codes "gone") ∷ []

abbrev settings : Settings
settings = record { run_id = some (codes "r1"); repeat_share = none; repeat_pool_size = some 20 }

-- Two virtual users of whom both repeat an address, from the slot 3 of 20
abbrev one_repeat : Call
one_repeat = record { vu = 1; iter = 0; pick = 299; slot_pick = 150 }

abbrev another_repeat : Call
another_repeat = record { vu = 7; iter = 4; pick = 0; slot_pick = 199 }

purchase_email_apart_example :
    ((is_fresh 1000 settings one_repeat ≡ true)
      × (is_fresh 1000 settings another_repeat ≡ true)
      × (one_repeat.vu ≡ another_repeat.vu)
      × (one_repeat.iter ≡ another_repeat.iter))
    ⊎ ((is_fresh 1000 settings one_repeat ≡ false)
        × (is_fresh 1000 settings another_repeat ≡ false)
        × (slot_of 1000 settings one_repeat ≡ slot_of 1000 settings another_repeat))
unfolding purchase_email
purchase_email_apart_example = purchase_email_apart 1000 settings one_repeat another_repeat refl
