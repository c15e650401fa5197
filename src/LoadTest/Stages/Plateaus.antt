-- ===== src/LoadTest/Stages/Plateaus.antt =====
-- What the stages of packages/load-test/k6/config/options.ts offer at any time, and that the tracker of
-- k6/lib/capacity-stages.ts agrees.
use sd_flash_sale.Prelude.{
  ℕ, suc, ◌+◌, ◌-◌, ◌*◌, ◌≤◌, ◌<◌, ◌≡◌, refl, ◌∙◌, min, false, List, [], ◌∷◌, Option, none, some,
  ltb, if◌then◌else◌, if-cases, arith, Bool-cases, inl, inr,
}
use sd_flash_sale.LoadTest.Stages.{
  RateStage, K6Stage, to_k6_stages, boundaries_ms, find_index, name_at, record_iteration,
  jump_seconds,
}

-- The rate that k6 heads for at a time, in milliseconds from the start
abbrev pub target_at : List K6Stage → ℕ → Option ℕ
target_at [] t = none
target_at (stage ∷ stages) t =
    if ltb t (stage.duration * 1000)
    then some stage.target
    else target_at stages (t - stage.duration * 1000)

-- The rate that the plan gives for a time
abbrev pub rate_at : List RateStage → ℕ → Option ℕ
rate_at [] t = none
rate_at (stage ∷ stages) t =
    if ltb t (stage.duration_seconds * 1000)
    then some stage.rate_per_second
    else rate_at stages (t - stage.duration_seconds * 1000)

abbrev pub total_seconds : List RateStage → ℕ
total_seconds [] = 0
total_seconds (stage ∷ stages) = stage.duration_seconds + total_seconds stages

-- A jump and the hold behind it are one plateau.
target_at-plateau :
    (rate jump hold t : ℕ) (rest : List K6Stage)
    → target_at
        (record { target = rate; duration = jump }
          ∷ record { target = rate; duration = hold }
          ∷ rest)
        t
      ≡ (if ltb t ((jump + hold) * 1000)
          then some rate
          else target_at rest (t - (jump + hold) * 1000))
target_at-plateau rate jump hold t rest = elim (Bool-cases (ltb t (jump * 1000))) [
  | inl early ↦ ground arith
  | inr late ↦
      let later : (t - jump * 1000) - hold * 1000 ≡ t - (jump + hold) * 1000 = omega arith in
      rw (late, later) (ground arith)
]

-- At every time k6 heads for the rate that the plan gives for it, so each stage is a plateau behind its
-- jump, and after the last stage there is no target.
pub target_at-to_k6_stages :
    (stages : List RateStage) (t : ℕ) → target_at (to_k6_stages stages) t ≡ rate_at stages t
unfolding to_k6_stages
target_at-to_k6_stages [] t = refl
target_at-to_k6_stages (stage ∷ stages) t =
    if-cases (λ (ss : List K6Stage). target_at ss t ≡ rate_at (stage ∷ stages) t)
      (ltb 0 (stage.duration_seconds - min jump_seconds stage.duration_seconds))
      (λ held.
        let whole : min jump_seconds stage.duration_seconds
              + (stage.duration_seconds - min jump_seconds stage.duration_seconds)
            ≡ stage.duration_seconds =
          omega arith in
        target_at-plateau stage.rate_per_second (min jump_seconds stage.duration_seconds)
          (stage.duration_seconds - min jump_seconds stage.duration_seconds) t (to_k6_stages stages)
        ∙ rw (whole, target_at-to_k6_stages stages (t - stage.duration_seconds * 1000)) refl)
      (λ short.
        let whole : min jump_seconds stage.duration_seconds ≡ stage.duration_seconds =
          ground arith in
        rw (whole, target_at-to_k6_stages stages (t - stage.duration_seconds * 1000)) refl)

-- From a boundary on, the index that is found is that of the plan's stage.
found_index :
    (stages : List RateStage) (start t : ℕ)
    → start ≤ t
    → t < start + total_seconds stages * 1000
    → (i : ℕ) × (find_index t (boundaries_ms start stages) ≡ some i)
      × (name_at stages i ≡ rate_at stages (t - start))
unfolding find_index boundaries_ms
found_index [] start t le lt = absurd (omega (arith, le, lt))
found_index (stage ∷ stages) start t le lt =
    elim (Bool-cases (ltb t (start + stage.duration_seconds * 1000))) [
      | inl here ↦ (0, rw here refl, ground (arith, here))
      | inr beyond ↦
          let (i, found, name) =
            found_index stages (start + stage.duration_seconds * 1000) t (ground arith)
              (omega (arith, lt)) in
          let off : (t - start) - stage.duration_seconds * 1000
              ≡ t - (start + stage.duration_seconds * 1000) =
            omega arith in
          let past : ltb (t - start) (stage.duration_seconds * 1000) ≡ false = ground arith in
          (suc i, rw (beyond, found) refl, rw (past, off) name)
    ]

-- While the plan lasts, an iteration is counted in the stage whose rate k6 heads for at that time.
pub record_iteration-target_at :
    (stages : List RateStage) (t : ℕ)
    → t < total_seconds stages * 1000
    → record_iteration stages t ≡ target_at (to_k6_stages stages) t
unfolding record_iteration
record_iteration-target_at stages t lt =
    let (i, found, name) = found_index stages 0 t (omega arith) (omega arith) in
    let whole : t - 0 ≡ t = omega arith in
    rw (found, target_at-to_k6_stages stages t) (rw whole at name)
