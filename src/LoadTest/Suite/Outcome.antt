-- ===== src/LoadTest/Suite/Outcome.antt =====
-- What a run of the load tests exits with, and which tests it runs.
use sd_flash_sale.Prelude.{
  ℕ, ◌≡◌, refl, ap, ◌∙◌, Bool, true, ◌&&◌, ◌||◌, not, List, [], ◌∷◌, ◌++◌, map, Text, codes,
  text_eq, length, any, ltb, ◌==◌, if◌then◌else◌, All, All-map, arith, Bool-cases, inl, inr,
}
use sd_flash_sale.Prelude.Result.{ok, throws}
use sd_flash_sale.LoadTest.Suite.{
  smoke, RunArgs, RunSingleTestOptions, Replies, Action, runs_k6, Run, run_single_test, run_steps,
  steps_of, main, also_ran, Steps, after_step,
}

-- The steps up to the first smoke test that fails
unfoldable pub reached : (Text → Bool) → List Text → List Text
reached passes [] = []
reached passes (step ∷ steps) =
    if not (passes step) && text_eq step smoke then step ∷ [] else step ∷ reached passes steps

abbrev outcomes_of : (Text → Bool) → List Text → List (Text × Bool)
outcomes_of passes = map (λ step. (step, passes step))

abbrev pub all_pass : (Text → Bool) → List Text → Bool
all_pass passes [] = true
all_pass passes (step ∷ steps) = passes step && all_pass passes steps

-- The tests that k6 was started for
unfoldable pub tests_run : List Action → List Text
tests_run [] = []
tests_run (runs_k6 name env ∷ done) = name ∷ tests_run done
tests_run (_ ∷ done) = tests_run done

tests_run-append : (xs ys : List Action) → tests_run (xs ++ ys) ≡ tests_run xs ++ tests_run ys
unfolding tests_run
tests_run-append [] ys = refl
tests_run-append (runs_k6 name env ∷ xs) ys = ap (λ ns. name ∷ ns) (tests_run-append xs ys)
tests_run-append (_ ∷ xs) ys = tests_run-append xs ys

module _ (E : Type 0) where
  -- No step throws, whatever the barrier of the queue does: the sale that was prepared, the code with
  -- which k6 exits, and whether every check holds.
  pub record IsCalm (replies : Replies E) (code : ℕ) (holds : Bool) : Type 0 where
    pub sale_id : Text
    pub prepared_ok : replies.prepared ≡ ok sale_id
    pub k6_ok : replies.k6_exit_code ≡ ok code
    pub verified_ok : replies.verified ≡ ok holds
    pub cleaned_ok : replies.cleaned ≡ ok tt

  -- A test that ran to its end
  record IsRun (name : Text) (passed : Bool) (run : Run E) : Type 0 where
    answer : run.0 ≡ ok passed
    only : tests_run run.1 ≡ name ∷ []

  run_single_test-IsRun :
      (forwarded : List (Text × Text)) (options : RunSingleTestOptions) (replies : Text → Replies E)
      (name : Text) (code : ℕ) (holds : Bool)
      → IsCalm (replies name) code holds
      → IsRun name (code == 0 && holds) (run_single_test E forwarded options replies name)
  unfolding run_single_test tests_run
  run_single_test-IsRun forwarded options replies name code holds calm =
      elim (Bool-cases options.keep) [
        | inl keep ↦
            rw (run_single_test, calm.prepared_ok, calm.k6_ok, calm.verified_ok, keep)
              (record { answer = refl; only = refl })
        | inr drop ↦
            rw
              (
                run_single_test, calm.prepared_ok, calm.k6_ok, calm.verified_ok, drop,
                calm.cleaned_ok,
              )
              (record { answer = refl; only = refl })
      ]

  -- The loop's outcomes: those of the steps that were reached
  record IsDone (passes : Text → Bool) (steps : List Text) (end : Steps E) : Type 0 where
    outcomes : end.0 ≡ ok (outcomes_of passes (reached passes steps))
    tests : tests_run end.1 ≡ reached passes steps

  run_steps-IsDone :
      (run : Text → Run E) (passes : Text → Bool) (steps : List Text)
      → All (λ step. IsRun step (passes step) (run step)) steps
      → IsDone passes steps (run_steps E run steps)
  unfolding run_steps reached tests_run
  run_steps-IsDone run passes [] h = record { outcomes = refl; tests = refl }
  run_steps-IsDone run passes (step ∷ steps) h =
      ended (run_steps-IsDone run passes steps h.1) (run step) h.0
    where
      ended :
          IsDone passes steps (run_steps E run steps)
          → (m : Run E) → IsRun step (passes step) m
          → IsDone passes (step ∷ steps) (after_step E step m (run_steps E run steps))
      ended rest (throws e, done) ran = absurd (cc ran.answer)
      ended rest (ok passed, done) ran =
          let same : passed ≡ passes step = cc ran.answer in
          elim (Bool-cases (not (passes step) && text_eq step smoke)) [
            | inl aborts ↦
                rw (same, aborts) (record { outcomes = rw aborts refl; tests = rw aborts ran.only })
            | inr goes_on ↦
                rw (same, goes_on)
                  (record {
                    outcomes = rw goes_on (ap (also_ran E step (passes step)) rest.outcomes);
                    tests = rw goes_on (
                        tests_run-append done _
                        ∙ (ap (λ (ns : List Text). ns ++ tests_run (run_steps E run steps).1)
                              ran.only
                            ∙ ap (λ (ns : List Text). step ∷ ns) rest.tests));
                  })
          ]

  all_reached :
      (passes : Text → Bool) (steps : List Text)
      → (ltb (length (outcomes_of passes (reached passes steps))) (length steps)
          || any (λ o. not o.1) (outcomes_of passes (reached passes steps)))
        ≡ not (all_pass passes steps)
  unfolding reached
  all_reached passes [] = refl
  all_reached passes (step ∷ steps) = elim (Bool-cases (not (passes step) && text_eq step smoke)) [
    | inl aborts ↦ rw aborts (ground arith)
    | inr goes_on ↦ rw goes_on (ground (arith, all_reached passes steps))
  ]

  -- If no test throws, whatever the wait for the queue reports: `main` exits with 0 exactly if every
  -- chosen test has k6 exit with 0 and every check hold after it, and with 1 otherwise; and k6 is
  -- started for the chosen tests in their order, but for none after a smoke test that failed.
  pub main-exit_code :
      (forwarded : List (Text × Text)) (base_url : Text) (replies : Text → Replies E)
      (args : RunArgs) (exits : Text → ℕ) (holds : Text → Bool)
      → All (λ step. IsCalm (replies step) (exits step) (holds step)) (steps_of E args.test_name)
      → let (exit, done) = main E forwarded base_url replies args in
        let passes : Text → Bool = λ step. exits step == 0 && holds step in
        let steps = steps_of E args.test_name in
        (exit ≡ ok (if all_pass passes steps then 0 else 1))
        × (tests_run done ≡ reached passes steps)
  unfolding main
  main-exit_code forwarded base_url replies args exits holds calm =
      let passes : Text → Bool = λ step. exits step == 0 && holds step in
      let options : RunSingleTestOptions = record {
        base_url = base_url;
        results_dir = codes "results/" ++ args.label;
        keep = args.keep;
      } in
      let steps = steps_of E args.test_name in
      let end = run_steps-IsDone (run_single_test E forwarded options replies) passes steps (
        All-map
          (λ step c.
            run_single_test-IsRun forwarded options replies step (exits step) (holds step) c)
          steps calm) in
      (rw (end.outcomes, all_reached passes steps) (ground arith), end.tests)
