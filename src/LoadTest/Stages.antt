-- ===== src/LoadTest/Stages.antt =====
-- packages/load-test/k6/config/options.ts and k6/lib/capacity-stages.ts: the scenarios whose arrival rate
-- changes by stages. The names of the executors, the thresholds and the trend statistics are left out, and a
-- duration `${n}s` and a name `rate_${n}` are their numbers.
pub mod Plateaus
use sd_flash_sale.Prelude.{
  ℕ, zero, suc, ◌+◌, ◌-◌, ◌*◌, min, Bool, List, [], ◌∷◌, ◌++◌, map, Option, none, some, ltb, leb,
  if◌then◌else◌,
}

pub record RateStage : Type 0 where
  pub rate_per_second : ℕ
  pub duration_seconds : ℕ

pub record K6Stage : Type 0 where
  pub target : ℕ
  pub duration : ℕ

pub record BuiltScenario : Type 0 where
  pub pre_allocated_vus : ℕ
  pub stages : List K6Stage
  pub target_rate_per_second : ℕ
  pub max_vus : ℕ

abbrev pub or_default : Option ℕ → ℕ → ℕ
or_default none n = n
or_default (some m) n = m

unfoldable pub ramping_arrival_rate : ℕ → Option ℕ → ℕ → Option ℕ → Option ℕ → BuiltScenario
ramping_arrival_rate peak_rate ramp_up_seconds sustain_seconds ramp_down_seconds max_vus = record {
  pre_allocated_vus = min (or_default max_vus (peak_rate * 3)) peak_rate;
  stages =
      record { target = peak_rate; duration = or_default ramp_up_seconds 30 }
      ∷ record { target = peak_rate; duration = sustain_seconds }
      ∷ record { target = 0; duration = or_default ramp_down_seconds 30 }
      ∷ [];
  target_rate_per_second = peak_rate;
  max_vus = or_default max_vus (peak_rate * 3);
}

-- The smoke test's shape
pub record ConstantVus : Type 0 where
  pub vus : ℕ
  pub duration : ℕ

unfoldable pub constant_vus : ℕ → ℕ → ConstantVus
constant_vus vus duration_seconds = record { vus = vus; duration = duration_seconds }

abbrev pub jump_seconds : ℕ
jump_seconds = 2

unfoldable pub to_k6_stages : List RateStage → List K6Stage
to_k6_stages [] = []
to_k6_stages (stage ∷ stages) =
    let jump_for = min jump_seconds stage.duration_seconds in
    let hold_for = stage.duration_seconds - jump_for in
    let jump : K6Stage = record { target = stage.rate_per_second; duration = jump_for } in
    let hold : K6Stage = record { target = stage.rate_per_second; duration = hold_for } in
    let rest = to_k6_stages stages in if ltb 0 hold_for then jump ∷ hold ∷ rest else jump ∷ rest

-- `Math.max` of the rates, of which there is at least one
unfoldable pub max_rate : RateStage → List RateStage → ℕ
max_rate stage [] = stage.rate_per_second
max_rate stage (next ∷ stages) =
    let rest = max_rate next stages in
    if leb rest stage.rate_per_second then stage.rate_per_second else rest

-- With at least one stage; with none the rates have no maximum.
unfoldable pub stepped_arrival_rate : RateStage → List RateStage → Option ℕ → BuiltScenario
unfolding to_k6_stages max_rate
stepped_arrival_rate stage stages max_vus = record {
  pre_allocated_vus = min (or_default max_vus (max_rate stage stages * 3)) stage.rate_per_second;
  stages = to_k6_stages (stage ∷ stages);
  target_rate_per_second = max_rate stage stages;
  max_vus = or_default max_vus (max_rate stage stages * 3);
}

-- `stages.map((stage) => (cumulativeMs += stage.durationSeconds * 1000))`
unfoldable pub boundaries_ms : ℕ → List RateStage → List ℕ
boundaries_ms cumulative [] = []
boundaries_ms cumulative (stage ∷ stages) =
    (cumulative + stage.duration_seconds * 1000)
    ∷ boundaries_ms (cumulative + stage.duration_seconds * 1000) stages

abbrev pub add_one : Option ℕ → Option ℕ
add_one none = none
add_one (some i) = some (suc i)

-- `boundariesMs.findIndex((boundary) => elapsedMs < boundary)`
unfoldable pub find_index : ℕ → List ℕ → Option ℕ
find_index elapsed [] = none
find_index elapsed (boundary ∷ boundaries) =
    let later = add_one (find_index elapsed boundaries) in
    if ltb elapsed boundary then some 0 else later

abbrev pub name_at : List RateStage → ℕ → Option ℕ
name_at [] i = none
name_at (stage ∷ stages) zero = some stage.rate_per_second
name_at (stage ∷ stages) (suc i) = name_at stages i

abbrev pub last_name : List RateStage → Option ℕ
last_name [] = none
last_name (stage ∷ []) = some stage.rate_per_second
last_name (stage ∷ next ∷ stages) = last_name (next ∷ stages)

abbrev pub name_or_last : List RateStage → Option ℕ → Option ℕ
name_or_last stages (some i) = name_at stages i
name_or_last stages none = last_name stages

-- The stage that `recordIteration` counts an iteration in
unfoldable pub record_iteration : List RateStage → ℕ → Option ℕ
unfolding boundaries_ms find_index
record_iteration stages elapsed_ms =
    name_or_last stages (find_index elapsed_ms (boundaries_ms 0 stages))
