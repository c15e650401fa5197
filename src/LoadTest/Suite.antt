-- ===== src/LoadTest/Suite.antt =====
-- packages/load-test/scripts/run.ts and tests.ts: which tests are run, with which arguments and in which
-- order, and what the process exits with. Replies of the steps that another file or process takes are
-- arguments; what is printed is left out.
pub mod Outcome
use sd_flash_sale.Prelude.{
  ℕ, suc, Bool, true, false, ◌&&◌, ◌||◌, not, List, [], ◌∷◌, ◌++◌, map, Option, none, some, Text,
  codes, text_eq, contains, length, select, any, ltb, leb, ◌==◌, if◌then◌else◌,
}
use sd_flash_sale.Prelude.Result.{Result, ok, throws}

pub record TestProfile : Type 0 where
  pub name : Text
  pub stock : ℕ
  pub include_in_default_suite : Option Bool

abbrev pub smoke : Text
smoke = codes "smoke"

abbrev pub tests : List TestProfile
tests =
    record { name = smoke; stock = 10000; include_in_default_suite = none }
    ∷ record { name = codes "flash-sale-spike"; stock = 5000; include_in_default_suite = none }
    ∷ record {
      name = codes "capacity-ramp";
      stock = 2000000;
      include_in_default_suite = some false;
    }
    ∷ []

-- `test.includeInDefaultSuite !== false`
abbrev pub is_in_suite : Option Bool → Bool
is_in_suite none = true
is_in_suite (some include) = include

unfoldable pub default_suite_steps : List Text
default_suite_steps =
    map (λ (t : TestProfile). t.name) (select (λ t. is_in_suite t.include_in_default_suite) tests)

pub record RunArgs : Type 0 where
  pub test_name : Option Text
  pub keep : Bool
  pub label : Text

unfoldable pub scan_args : List Text → List Text × Bool → List Text × Bool
scan_args [] (positional, keep) = (positional, keep)
scan_args (arg ∷ argv) (positional, keep) =
    if text_eq arg (codes "--keep")
    then scan_args argv (positional, true)
    else scan_args argv (positional ++ arg ∷ [], keep)

-- `testName in STOCK_PROFILES`: a name of the roster, or of what every object inherits
abbrev pub is_known : (Text → Bool) → Text → Bool
is_known inherits name = contains (map (λ (t : TestProfile). t.name) tests) name || inherits name

abbrev pub first : List Text → Option Text
first [] = none
first (x ∷ xs) = some x

abbrev pub or_else : Option Text → Text → Text
or_else none default = default
or_else (some x) default = x

-- `none` when the process exits with 1
unfoldable pub parse_args : (Text → Bool) → Option Text → Text → List Text → Option RunArgs
unfolding scan_args
parse_args inherits results_label today argv =
    let (positional, keep) = scan_args argv ([], false) in
    elim (first positional) [
      | none ↦ some (record { test_name = none; keep = keep; label = or_else results_label today })
      | some name ↦
          if is_known inherits name
          then some
              (record { test_name = some name; keep = keep; label = or_else results_label today })
          else none
    ]

-- The reply to GET /health: its status, or none when fetch throws
unfoldable pub preflight_health_check : Option ℕ → Bool
preflight_health_check none = false
preflight_health_check (some status) = leb 200 status && ltb status 300

unfoldable pub forwarded_tuning_env : (Text → Option Text) → List Text → List (Text × Text)
forwarded_tuning_env env [] = []
forwarded_tuning_env env (name ∷ names) = elim (env name) [
  | none ↦ forwarded_tuning_env env names
  | some value ↦ (name, value) ∷ forwarded_tuning_env env names
]

abbrev pub env_args : List (Text × Text) → List Text
env_args [] = []
env_args ((key, value) ∷ env) = codes "--env" ∷ (key ++ (codes "=" ++ value)) ∷ env_args env

abbrev pub user_args : Option Text → List Text
user_args none = []
user_args (some user) = codes "--user" ∷ user ∷ []

-- The command and its arguments; the fourth argument is `uid:gid`, where the process has them.
unfoldable pub run_k6 : Bool → Text → Text → Option Text → List (Text × Text) → Text × List Text
run_k6 has_native_k6 test_name package_dir user env =
    let script_path = codes "k6/tests/" ++ (test_name ++ codes ".ts") in
    if has_native_k6 then (codes "k6", codes "run" ∷ env_args env ++ script_path ∷ []) else (
      codes "docker",
      codes "run"
            ∷ codes "--rm"
            ∷ codes "--network"
            ∷ codes "host"
            ∷ codes "-v"
            ∷ (package_dir ++ codes ":/work")
            ∷ codes "-w"
            ∷ codes "/work"
            ∷ user_args user
          ++ codes "grafana/k6" ∷ codes "run" ∷ env_args env
          ++ script_path ∷ [],
    )

pub record DrainQueueResult : Type 0 where
  pub drained_ms : ℕ
  pub timed_out : Bool
  pub final_depth : ℕ

-- What is printed of the barrier
pub data DrainReport : Type 0 where
  drain_timed_out drained unchecked : DrainReport

unfoldable pub drain_queue_before_verify : {E : Type 0} → Result E DrainQueueResult → DrainReport
drain_queue_before_verify (ok result) = if result.timed_out then drain_timed_out else drained
drain_queue_before_verify (throws error) = unchecked

pub record RunSingleTestOptions : Type 0 where
  pub base_url : Text
  pub results_dir : Text
  pub keep : Bool

-- What the steps of one test reply
pub record Replies (E : Type 0) : Type 0 where
  pub run_id : Text
  pub prepared : Result E Text
  pub k6_exit_code : Result E ℕ
  pub drain : Result E DrainQueueResult
  pub verified : Result E Bool
  pub cleaned : Result E (Unit {0})

-- What is done, in order
pub data Action : Type 0 where
  prepares : Text → Action
  runs_k6 : Text → List (Text × Text) → Action
  drains : DrainReport → Action
  verifies : Text → Action
  cleans_up : Action

module _ (E : Type 0) where
  abbrev pub Run : Type 0
  Run = Result E Bool × List Action

  abbrev pub k6_env : List (Text × Text) → RunSingleTestOptions → Text → Text → List (Text × Text)
  k6_env forwarded options sale_id run_id =
      (codes "BASE_URL", options.base_url)
      ∷ (codes "SALE_ID", sale_id)
      ∷ (codes "RUN_ID", run_id)
      ∷ (codes "RESULTS_DIR", options.results_dir)
      ∷ forwarded

  abbrev pub cleaned_up : Replies E → Bool → Bool → List Action → Run
  cleaned_up replies true passed done = (ok passed, done)
  cleaned_up replies false passed done = elim replies.cleaned [
    | ok u ↦ (ok passed, done ++ cleans_up ∷ [])
    | throws e ↦ (throws e, done ++ cleans_up ∷ [])
  ]

  abbrev pub after_k6 : Text → Replies E → Bool → ℕ → List Action → Run
  after_k6 sale_id replies keep code done =
      let done' =
        done ++ drains (drain_queue_before_verify replies.drain) ∷ verifies sale_id ∷ [] in
      elim replies.verified [
        | ok all_passed ↦ cleaned_up replies keep (code == 0 && all_passed) done'
        | throws e ↦ (throws e, done')
      ]

  abbrev pub after_prepare :
      List (Text × Text) → RunSingleTestOptions → Text → Replies E → Text → Run
  after_prepare forwarded options test_name replies sale_id =
      let done =
        prepares test_name
        ∷ runs_k6 test_name (k6_env forwarded options sale_id replies.run_id)
        ∷ [] in
      elim replies.k6_exit_code [
        | ok code ↦ after_k6 sale_id replies options.keep code done
        | throws e ↦ (throws e, done)
      ]

  unfoldable pub run_single_test :
      List (Text × Text) → RunSingleTestOptions → (Text → Replies E) → Text → Run
  run_single_test forwarded options replies test_name = elim (replies test_name).prepared [
    | ok sale_id ↦ after_prepare forwarded options test_name (replies test_name) sale_id
    | throws e ↦ (throws e, prepares test_name ∷ [])
  ]

  abbrev pub also_ran : Text → Bool → Result E (List (Text × Bool)) → Result E (List (Text × Bool))
  also_ran step passed (ok outcomes) = ok ((step, passed) ∷ outcomes)
  also_ran step passed (throws e) = throws e

  abbrev pub Steps : Type 0
  Steps = Result E (List (Text × Bool)) × List Action

  -- One round of the loop of `main`, from what the later ones give
  abbrev pub after_step : Text → Run → Steps → Steps
  after_step step (throws e, done) rest = (throws e, done)
  after_step step (ok passed, done) rest =
      if not passed && text_eq step smoke
      then (ok ((step, passed) ∷ []), done)
      else (also_ran step passed rest.0, done ++ rest.1)

  -- The loop of `main`: its outcomes, and what was done
  unfoldable pub run_steps : (Text → Run) → List Text → Steps
  run_steps run [] = (ok [], [])
  run_steps run (step ∷ steps) = after_step step (run step) (run_steps run steps)

  abbrev pub steps_of : Option Text → List Text
  steps_of none = default_suite_steps
  steps_of (some []) = default_suite_steps
  steps_of (some (c ∷ name)) = (c ∷ name) ∷ []

  abbrev pub exit_code : List Text → Result E (List (Text × Bool)) → Result E ℕ
  exit_code steps (throws e) = throws e
  exit_code steps (ok outcomes) =
      ok (if ltb (length outcomes) (length steps) || any (λ o. not o.1) outcomes then 1 else 0)

  -- `main`, once the API has answered the health check
  unfoldable pub main :
      List (Text × Text) → Text → (Text → Replies E) → RunArgs → Result E ℕ × List Action
  unfolding run_steps run_single_test default_suite_steps
  main forwarded base_url replies args =
      let options : RunSingleTestOptions = record {
        base_url = base_url;
        results_dir = codes "results/" ++ args.label;
        keep = args.keep;
      } in
      let steps = steps_of args.test_name in
      let (outcomes, done) = run_steps (run_single_test forwarded options replies) steps in
      (exit_code steps outcomes, done)
