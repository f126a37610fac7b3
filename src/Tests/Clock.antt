-- ===== src/Tests/Clock.antt =====
-- Runs of the code of app/domain/campaign.py and app/domain/scheduling.py. The days are counted from
-- a Monday; the zone is India's.
use native.Mathlib.Omega.{arith}
use outreach_automation.Prelude.{
  ℕ, ◌+◌, ◌*◌, ◌≤◌, ◌<◌, ◌≡◌, refl, Bool, true, false, [], ◌∷◌, none, some, String, elem,
}
use outreach_automation.Time.{combine, kolkata, fixed_zone-IsSteady}
use outreach_automation.Campaign.Settings.{
  CampaignSettings, default_settings, validate, valid, sorted_days, in_bounds, is_empty,
  is_review_all, is_send_day,
}
use outreach_automation.Campaign.Settings.Valid.{IsValid, validate-IsValid}
use outreach_automation.Scheduling.{
  Ramp, find_send_day, count_send_days, business_days_between, warmup_cap, in_window,
  next_window_open, followup_due_at,
}
use outreach_automation.Scheduling.Window.{next_window_open_first}
use outreach_automation.Scheduling.Days.{next_window_open_total}
use outreach_automation.Scheduling.Followup.{followup_due_at_first}

any_zone : String → Bool
any_zone name = true

-- Days in disorder, one twice.
abbrev untidy : CampaignSettings
untidy = record default_settings { send_days = 4 ∷ 0 ∷ 4 ∷ [] }

abbrev tidy : CampaignSettings
tidy = record default_settings { send_days = 0 ∷ 4 ∷ [] }

untidy_valid : validate any_zone untidy ≡ valid tidy
unfolding validate any_zone in_bounds is_empty is_review_all sorted_days
untidy_valid = refl

validate-IsValid_example : IsValid tidy × ((d : ℕ) → elem d (0 ∷ 4 ∷ []) ≡ elem d (4 ∷ 0 ∷ 4 ∷ []))
validate-IsValid_example = validate-IsValid any_zone untidy tidy untidy_valid

-- Saturday at noon in India, 390 minutes into the day in UTC.
abbrev saturday : ℕ
saturday = 705 * 86400000000 + 23400000000

-- Monday at ten in India.
abbrev monday_open : ℕ
monday_open = 707 * 86400000000 + 16200000000

saturday_rolls : next_window_open kolkata saturday default_settings ≡ some monday_open
unfolding next_window_open find_send_day is_send_day
saturday_rolls = refl

next_window_open_first_example :
    (saturday ≤ monday_open)
    × (in_window kolkata monday_open default_settings ≡ true)
    × ((u : ℕ) → saturday ≤ u → u < monday_open → in_window kolkata u default_settings ≡ false)
next_window_open_first_example =
    next_window_open_first kolkata (fixed_zone-IsSteady 19800000000) default_settings saturday
      monday_open (omega arith) (omega arith) saturday_rolls

next_window_open_total_example :
    (t : ℕ) × (next_window_open kolkata saturday default_settings ≡ some t)
next_window_open_total_example =
    next_window_open_total kolkata saturday 2 default_settings (omega arith) refl (omega arith)

six_days : business_days_between 700 708 default_settings ≡ 6
unfolding business_days_between count_send_days is_send_day
six_days = refl

abbrev ramp : Ramp
ramp = record {
  warmup_started_on = some 700;
  warmup_start = 20;
  warmup_step = 10;
  warmup_step_days = 2;
  daily_cap = some 45;
}

ramped : warmup_cap 708 ramp default_settings ≡ 45
unfolding warmup_cap business_days_between count_send_days is_send_day
ramped = refl

-- A first email on Wednesday at noon: the follow-up falls on Saturday and moves to Monday.
abbrev pub wednesday : ℕ
wednesday = 702 * 86400000000 + 23400000000

wednesday_due : followup_due_at kolkata wednesday default_settings none ≡ some monday_open
unfolding followup_due_at in_window next_window_open find_send_day is_send_day
wednesday_due = refl

followup_due_at_first_example :
    let target = combine (702 + 3) 43200000000 in
    (wednesday ≤ monday_open)
    × (kolkata.to_wall (kolkata.from_wall target) ≡ target)
    × (kolkata.from_wall target ≤ monday_open)
    × (in_window kolkata monday_open default_settings ≡ true)
    × ((u : ℕ)
        → kolkata.from_wall target ≤ u
        → u < monday_open
        → in_window kolkata u default_settings ≡ false)
followup_due_at_first_example =
    followup_due_at_first kolkata (fixed_zone-IsSteady 19800000000) default_settings wednesday
      monday_open none (omega arith) (omega arith) (omega arith) wednesday_due
