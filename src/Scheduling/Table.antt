-- ===== src/Scheduling/Table.antt =====
-- The table of follow-up days in the comment of `followup_due_at` (app/domain/scheduling.py), for a
-- campaign that keeps the default settings.
use outreach_automation.Prelude.{
  ℕ, suc, ◌+◌, ◌*◌, ◌≤◌, ◌<◌, ◌≡◌, true, false, Option, none, some, arith, ltb, if◌then◌else◌, inl,
  inr, Bool-cases, ◌==◌, ap, ◌∙◌, ltb-false, lt→ltb,
}
use outreach_automation.Time.{day, date_of, time_of, combine, weekday, Zone, IsSteady}
use outreach_automation.Campaign.Settings.{CampaignSettings, is_send_day, default_settings}
use outreach_automation.Scheduling.{
  in_hours, in_window, next_window_open, followup_target, followup_due_at, next_day_open,
  find_send_day,
}

weekday_default : (e : ℕ) → is_send_day e default_settings ≡ ltb (weekday e) 5
unfolding is_send_day
weekday_default e = ground arith

find_here :
    (n d : ℕ) (s : CampaignSettings) → is_send_day d s ≡ true → find_send_day (suc n) d s ≡ some d
unfolding find_send_day
find_here n d s h = rw h

find_next :
    (n d : ℕ) (s : CampaignSettings)
    → is_send_day d s ≡ false
    → find_send_day (suc n) d s ≡ find_send_day n (d + 1) s
unfolding find_send_day
find_next n d s h = rw h

off_day : (e : ℕ) → 5 ≤ weekday e → is_send_day e default_settings ≡ false
off_day e h = weekday_default e ∙ ltb-false _ _ h

on_day : (e : ℕ) → weekday e < 5 → is_send_day e default_settings ≡ true
on_day e h = weekday_default e ∙ lt→ltb _ _ h

after_saturday : (e : ℕ) → weekday e ≡ 5 → find_send_day 366 (e + 1) default_settings ≡ some (e + 2)
after_saturday e h =
    find_next 365 (e + 1) default_settings (off_day (e + 1) (omega arith))
    ∙ find_here 364 (e + 1 + 1) default_settings (on_day (e + 1 + 1) (omega arith))
    ∙ ap some (omega arith)

after_sunday : (e : ℕ) → weekday e ≡ 6 → find_send_day 366 (e + 1) default_settings ≡ some (e + 1)
after_sunday e h = find_here 365 (e + 1) default_settings (on_day (e + 1) (omega arith))

-- The wall time of the table: Monday, Tuesday and Friday move three days on, at the same hour;
-- Wednesday and Thursday move to the opening of the window on the next Monday.
abbrev pub table : ℕ → ℕ
table local =
    if weekday (date_of local) == 2
    then combine (date_of local + 5) default_settings.window_start
    else if weekday (date_of local) == 3
    then combine (date_of local + 4) default_settings.window_start
    else local + 3 * day

module _ (z : Zone) where
  closed_day :
      (c w : ℕ) (s : CampaignSettings)
      → z.to_wall c ≡ w
      → is_send_day (date_of w) s ≡ false
      → (in_window z c s ≡ false) × (next_window_open z c s ≡ next_day_open z (date_of w) s)
  unfolding next_window_open in_window
  closed_day c w s e h = (rw (e, h), rw (e, h))

  open_day :
      (c w : ℕ) (s : CampaignSettings)
      → z.to_wall c ≡ w
      → is_send_day (date_of w) s ≡ true
      → in_hours (time_of w) s ≡ true
      → in_window z c s ≡ true
  unfolding in_window
  open_day c w s e h k = rw (e, h, k)

  next_day_on :
      (date d : ℕ) (s : CampaignSettings)
      → find_send_day 366 (date + 1) s ≡ some d
      → next_day_open z date s ≡ some (z.from_wall (combine d s.window_start))
  unfolding next_day_open
  next_day_on date d s e = rw (e, next_day_open)

  module _ (steady : IsSteady z) (first_sent_at : ℕ)
      (inside : in_window z first_sent_at default_settings ≡ true) where
    local : ℕ
    local = z.to_wall first_sent_at

    facts : (weekday (date_of local) < 5) × (in_hours (time_of local) default_settings ≡ true)
    unfolding in_window local
    facts = ground (arith, weekday_default (date_of (z.to_wall first_sent_at)))

    aimed : followup_target z first_sent_at 3 default_settings ≡ local + 3 * day
    unfolding local
    aimed = rw facts.1 (omega arith)

    aimed_wall : z.to_wall (z.from_wall (local + 3 * day)) ≡ local + 3 * day
    unfolding local
    aimed_wall = (steady.back first_sent_at _ (omega arith)).0

    -- What `followup_due_at` does with the instant aimed at.
    abbrev landing : Option ℕ
    landing =
        if in_window z (z.from_wall (local + 3 * day)) default_settings
        then some (z.from_wall (local + 3 * day))
        else next_window_open z (z.from_wall (local + 3 * day)) default_settings

    monday :
        (d : ℕ)
        → 5 ≤ weekday (date_of local + 3)
        → find_send_day 366 (date_of local + 3 + 1) default_settings ≡ some d
        → landing ≡ some (z.from_wall (combine d default_settings.window_start))
    monday d h found =
        let date_is : date_of (local + 3 * day) ≡ date_of local + 3 = omega arith in
        let (shut, next) =
          closed_day (z.from_wall (local + 3 * day)) (local + 3 * day) default_settings aimed_wall
            (rw date_is (off_day _ h)) in
        rw (shut, next, date_is) (next_day_on (date_of local + 3) d default_settings found)

    same_hour : weekday (date_of local + 3) < 5 → landing ≡ some (z.from_wall (local + 3 * day))
    same_hour h =
        let date_is : date_of (local + 3 * day) ≡ date_of local + 3 = omega arith in
        let time_is : time_of (local + 3 * day) ≡ time_of local = omega arith in
        rw (
          open_day (z.from_wall (local + 3 * day)) (local + 3 * day) default_settings aimed_wall
            (rw date_is (on_day _ h)) (rw time_is facts.1))

    aim_lands : landing ≡ some (z.from_wall (table local))
    aim_lands = elim (Bool-cases (weekday (date_of local) == 2)) [
      | inl wed ↦ rw wed (
          monday (date_of local + 5) (ground arith)
            (after_saturday (date_of local + 3) (ground arith) ∙ ap some (omega arith)))
      | inr other ↦ elim (Bool-cases (weekday (date_of local) == 3)) [
        | inl thu ↦
            rw (other, thu)
              (monday (date_of local + 4) (ground arith)
                (after_sunday (date_of local + 3) (ground arith) ∙ ap some (omega arith)))
        | inr rest ↦ rw (other, rest) (same_hour (ground (arith, facts.0)))
      ]
    ]

    -- With the default settings, a first email inside the window has its follow-up due where the
    -- table says: from Monday on Thursday, from Tuesday on Friday and from Friday on Monday, at the
    -- same hour; from Wednesday and from Thursday on Monday, when the window opens.
    pub followup_due_at-table :
        followup_due_at z first_sent_at default_settings none
        ≡ some (z.from_wall (table (z.to_wall first_sent_at)))
    unfolding followup_due_at local
    followup_due_at-table = rw aimed aim_lands
