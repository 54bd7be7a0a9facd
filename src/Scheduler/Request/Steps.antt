-- ===== src/Scheduler/Request/Steps.antt =====
-- The indices at which the ranges of the dependencies begin.
use worldcoin_aggregation.Prelude.{ℕ, zero, suc, ◌+◌, ◌-◌, ◌≤◌, ◌<◌, ◌≡◌, refl, [], ◌∷◌, arith}
use worldcoin_aggregation.Scheduler.Request.{steps, step_by}

steps-done : (fuel i end step : ℕ) → end ≤ i → steps fuel i end step ≡ []
unfolding steps
steps-done zero i end step h = refl
steps-done (suc fuel) i end step h = ground arith

steps-more :
    (fuel i end step : ℕ)
    → i < end
    → steps (suc fuel) i end step ≡ i ∷ steps fuel (i + step) end step
unfolding steps
steps-more fuel i end step h = ground arith

-- One step covers the range.
pub step_by-one :
    (start end step : ℕ) → start < end → end ≤ start + step → step_by start end step ≡ start ∷ []
unfolding step_by
step_by-one start end step h l =
    let e : end - start ≡ suc (end - start - 1) = omega arith in
    rw (
      e,
      steps-more (end - start - 1) start end step h,
      steps-done (end - start - 1) (start + step) end step l,
    )

-- Two steps cover the range.
pub step_by-two :
    (start end step : ℕ)
    → 0 < step
    → start + step < end
    → end ≤ start + step + step
    → step_by start end step ≡ start ∷ (start + step) ∷ []
unfolding step_by
step_by-two start end step z h l =
    let e : end - start ≡ suc (suc (end - start - 2)) = omega arith in
    rw (
      e,
      steps-more (suc (end - start - 2)) start end step (omega arith),
      steps-more (end - start - 2) (start + step) end step h,
      steps-done (end - start - 2) (start + step + step) end step l,
    )
