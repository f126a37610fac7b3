-- ===== src/Scheduling.antt =====
-- app/domain/scheduling.py: the send window, the warm-up ramp and the follow-up clock. A function
-- that takes `settings` and reads `settings.zone` takes that zone beside them. `pacing_gap`, which
-- computes in floats with a random factor, is left out.
pub mod Window
pub mod Days
pub mod Warmup
pub mod Followup
pub mod Table
use Prim.Native.Nat.{max, min}
use outreach_automation.Prelude.{
  ℕ, zero, suc, ◌+◌, ◌-◌, ◌*◌, ◌/◌, Bool, true, false, ◌&&◌, Option, none, some, ltb, leb,
  if◌then◌else◌,
}
use outreach_automation.Time.{day, date_of, time_of, combine, Zone}
use outreach_automation.Campaign.Settings.{CampaignSettings, is_send_day}

-- `window_start <= time < window_end`.
abbrev pub in_hours : ℕ → CampaignSettings → Bool
in_hours time s = leb s.window_start time && ltb time s.window_end

-- The loop of `next_window_open`: the first send day among the given number of days.
unfoldable pub find_send_day : ℕ → ℕ → CampaignSettings → Option ℕ
find_send_day zero date s = none
find_send_day (suc rounds) date s =
    let rest = find_send_day rounds (date + 1) s in if is_send_day date s then some date else rest

-- The loop of `business_days_between`, with the days left to walk.
unfoldable pub count_send_days : ℕ → ℕ → ℕ → CampaignSettings → ℕ
count_send_days zero date count s = count
count_send_days (suc rounds) date count s =
    count_send_days rounds (date + 1) (if is_send_day (date + 1) s then count + 1 else count) s

unfoldable pub business_days_between : ℕ → ℕ → CampaignSettings → ℕ
business_days_between start end s =
    if ltb end start then 0 else count_send_days (end - start) start 0 s

pub record Ramp : Type 0 where
  pub warmup_started_on : Option ℕ
  pub warmup_start : ℕ
  pub warmup_step : ℕ
  pub warmup_step_days : ℕ
  pub daily_cap : Option ℕ

abbrev pub or_default : Option ℕ → ℕ → ℕ
or_default none d = d
or_default (some n) d = n

abbrev pub ceiling : Ramp → CampaignSettings → ℕ
ceiling r s = or_default r.daily_cap s.daily_cap

warm_from : Option ℕ → ℕ → Ramp → CampaignSettings → ℕ
warm_from none today r s = ceiling r s
warm_from (some started) today r s =
    let elapsed = business_days_between started today s in
    let steps = elapsed / max r.warmup_step_days 1 in
    min (r.warmup_start + steps * r.warmup_step) (ceiling r s)

unfoldable pub warmup_cap : ℕ → Ramp → CampaignSettings → ℕ
unfolding warm_from
warmup_cap today r s = warm_from r.warmup_started_on today r s

-- A negative difference of dates stops at 0 here, and `max` turns it into 1 as in the source.
unfoldable pub warmup_day_number : ℕ → Option ℕ → Option ℕ
warmup_day_number today none = none
warmup_day_number today (some started) = some (max 1 (today + 1 - started))

unfoldable pub remaining_capacity : ℕ → ℕ → ℕ
remaining_capacity effective_cap sent_today = effective_cap - sent_today

module _ (z : Zone) where
  unfoldable pub in_window : ℕ → CampaignSettings → Bool
  in_window when s =
      let local = z.to_wall when in is_send_day (date_of local) s && in_hours (time_of local) s

  next_day_open : ℕ → CampaignSettings → Option ℕ
  next_day_open date s = elim (find_send_day 366 (date + 1) s) [
    | none ↦ none
    | some d ↦ some (z.from_wall (combine d s.window_start))
  ]

  -- `none` is the `ValueError` after a year with no send day.
  unfoldable pub next_window_open : ℕ → CampaignSettings → Option ℕ
  unfolding next_day_open
  next_window_open after s =
      let local = z.to_wall after in
      if is_send_day (date_of local) s && ltb (time_of local) s.window_start
      then some (z.from_wall (combine (date_of local) s.window_start))
      else if is_send_day (date_of local) s && ltb (time_of local) s.window_end
      then some after
      else next_day_open (date_of local) s

  unfoldable pub window_close : ℕ → CampaignSettings → ℕ
  window_close when s = z.from_wall (combine (date_of (z.to_wall when)) s.window_end)

  -- The wall time at which a follow-up is first aimed.
  abbrev pub followup_target : ℕ → ℕ → CampaignSettings → ℕ
  followup_target first_sent_at days s =
      let local = z.to_wall first_sent_at in
      combine (date_of local + days)
        (if in_hours (time_of local) s then time_of local else s.window_start)

  unfoldable pub followup_due_at : ℕ → CampaignSettings → Option ℕ → Option ℕ
  followup_due_at first_sent_at s after_days =
      let candidate =
        z.from_wall
          (followup_target first_sent_at (or_default after_days s.followup_after_days) s) in
      if in_window candidate s then some candidate else next_window_open candidate s

  unfoldable pub no_response_at : ℕ → CampaignSettings → ℕ
  no_response_at last_sent_at s =
      z.from_wall (combine (date_of (z.to_wall last_sent_at) + s.final_wait_days) s.window_start)

  unfoldable pub ist_day_bounds : ℕ → ℕ × ℕ
  ist_day_bounds when =
      let start = combine (date_of (z.to_wall when)) 0 in
      (z.from_wall start, z.from_wall (start + day))

unfoldable pub is_followup_overdue : ℕ → ℕ → CampaignSettings → Bool
is_followup_overdue due_at now s = ltb (due_at + s.followup_max_delay_days * day) now
