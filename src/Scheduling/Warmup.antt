-- ===== src/Scheduling/Warmup.antt =====
-- The warm-up ramp (app/domain/scheduling.py): how the daily cap of a mailbox grows.
use Prim.Native.Nat.{max, min}
use native.Mathlib.Nat.{mul-le-mul_right, zero-div}
use outreach_automation.Prelude.{ℕ, ◌+◌, ◌*◌, ◌/◌, ◌≤◌, ◌<◌, ◌≡◌, some, arith}
use outreach_automation.Campaign.Settings.{CampaignSettings}
use outreach_automation.Scheduling.{Ramp, ceiling, business_days_between, warmup_cap}
use outreach_automation.Scheduling.Days.{business_days_between-add}

div_mono : (x y k : ℕ) → x ≤ y → 0 < k → x / k ≤ y / k
div_mono x y k h p = grind arith

div_step : (x y k : ℕ) → y ≤ x + 1 → 0 < k → y / k ≤ x / k + 1
div_step x y k h p = grind arith

module _ (r : Ramp) (s : CampaignSettings) (started : ℕ) where
  steps : ℕ → ℕ
  steps today = business_days_between started today s / max r.warmup_step_days 1

  warming :
      (today : ℕ)
      → r.warmup_started_on ≡ some started
      → warmup_cap today r s ≡ min (r.warmup_start + steps today * r.warmup_step) (ceiling r s)
  unfolding warmup_cap steps
  warming today e = rw (e, warmup_cap)

  steps_mono : (a b : ℕ) → started ≤ a → a ≤ b → steps a ≤ steps b
  unfolding steps
  steps_mono a b h k =
      div_mono _ _ (max r.warmup_step_days 1)
        (omega (arith, (business_days_between-add started a b s h k).0)) (omega arith)

  steps_one : (a : ℕ) → started ≤ a → steps (a + 1) ≤ steps a + 1
  unfolding steps
  steps_one a h =
      let (sum, _, _) = business_days_between-add started a (a + 1) s h (omega arith) in
      let (_, _, one) = business_days_between-add a (a + 1) (a + 1) s (omega arith) (omega arith) in
      div_step _ _ (max r.warmup_step_days 1) (omega (arith, sum, one)) (omega arith)

  steps_first : steps started ≡ 0
  unfolding steps
  steps_first = rw none_yet (zero-div _)
    where
      none_yet : business_days_between started started s ≡ 0
      none_yet = omega (
        arith,
        (business_days_between-add started started started s (omega arith) (omega arith)).2,
      )

  -- From the day a mailbox starts to warm up, its daily allowance never shrinks from one date to a
  -- later one, grows by at most one step from a day to the next, and never passes the cap; on the
  -- first day it is the starting number, or the cap if that is less.
  pub warmup_cap_ramp :
      (a b : ℕ)
      → r.warmup_started_on ≡ some started
      → started ≤ a
      → a ≤ b
      → (warmup_cap a r s ≤ warmup_cap b r s)
        × (warmup_cap (a + 1) r s ≤ warmup_cap a r s + r.warmup_step)
        × (warmup_cap b r s ≤ ceiling r s)
        × (warmup_cap started r s ≡ min r.warmup_start (ceiling r s))
  warmup_cap_ramp a b e h k = (
    rw (warming a e, warming b e)
        (omega (arith, mul-le-mul_right r.warmup_step (steps_mono a b h k))),
    rw (warming a e, warming (a + 1) e)
        (omega (arith, mul-le-mul_right r.warmup_step (steps_one a h))),
    rw (warming b e) (omega arith),
    rw (warming started e, steps_first) (omega arith),
  )
