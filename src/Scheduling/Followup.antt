-- ===== src/Scheduling/Followup.antt =====
-- When a follow-up is due, when silence counts, and the day that a cap is counted over
-- (app/domain/scheduling.py).
use native.Mathlib.Nat.{le_refl, le_trans}
use outreach_automation.Prelude.{
  refl, ℕ, ◌+◌, ◌≤◌, ◌<◌, ◌≡◌, true, false, Option, some, arith, ltb, leb, ◌&&◌, none,
  if◌then◌else◌, ◌↔◌, inl, inr, Bool-cases, subst, ltb→lt,
}
use outreach_automation.Time.{time_of, day, date_of, combine, Zone, IsSteady, to_wall_mono}
use outreach_automation.Campaign.Settings.{CampaignSettings}
use outreach_automation.Scheduling.{
  or_default, in_window, next_window_open, followup_target, followup_due_at, no_response_at,
  ist_day_bounds,
}
use outreach_automation.Scheduling.Window.{IsFirstOpen, next_window_open_first}

module _ (z : Zone) (steady : IsSteady z) where
  -- A wall time's instant is no later than any instant whose wall time is no earlier.
  not_before : (t w u : ℕ) → z.to_wall t ≤ w → w ≤ z.to_wall u → z.from_wall w ≤ u
  not_before t w u h k = elim (Bool-cases (leb (z.from_wall w) u)) [
    | inl e ↦ ground arith
    | inr e ↦
        absurd
          (omega (arith, steady.in_order u (z.from_wall w) (ground arith), (steady.back t w h).0))
  ]

  module _ (s : CampaignSettings) where
    target_later :
        (first_sent_at days : ℕ)
        → 1 ≤ days
        → z.to_wall first_sent_at ≤ followup_target z first_sent_at days s
    target_later first_sent_at days h = ground arith

    rolled :
        (c t : ℕ)
        → s.window_start < s.window_end
        → s.window_end ≤ day
        → (if in_window z c s then some c else next_window_open z c s) ≡ some t
        → IsFirstOpen z steady s c t
    rolled c t hw hd h = elim (Bool-cases (in_window z c s)) [
      | inl e ↦
          subst (IsFirstOpen z steady s c) (ground arith)
            (le_refl c, e, λ u p q. absurd (omega arith))
      | inr e ↦ next_window_open_first z steady s c t hw hd (rw e at h)
    ]

    abbrev IsAimed : ℕ → ℕ → ℕ → Type 0
    IsAimed first_sent_at t target =
        (first_sent_at ≤ t)
        × (z.to_wall (z.from_wall target) ≡ target)
        × (z.from_wall target ≤ t)
        × (in_window z t s ≡ true)
        × ((u : ℕ) → z.from_wall target ≤ u → u < t → in_window z u s ≡ false)

    days_waited :
        (after_days : Option ℕ)
        → or_default after_days s.followup_after_days
          ≡ elim after_days [ none ↦ s.followup_after_days | some n ↦ n ]
    days_waited none = refl
    days_waited (some n) = refl

    -- A follow-up that is due lies inside the window, at or after the aimed-at wall time (so many
    -- calendar days on, at the hour of the first email if that is in the window and at the opening
    -- otherwise), and the window is not open from that time up to it. The zone never moves its
    -- clocks, the window opens before it closes, within a day, and at least one day is waited.
    pub followup_due_at_first :
        (first_sent_at t : ℕ) (after_days : Option ℕ)
        → s.window_start < s.window_end
        → s.window_end ≤ day
        → 1 ≤ or_default after_days s.followup_after_days
        → followup_due_at z first_sent_at s after_days ≡ some t
        → let days : ℕ = elim after_days [ none ↦ s.followup_after_days | some n ↦ n ] in
          let clock = time_of (z.to_wall first_sent_at) in
          let target = combine (date_of (z.to_wall first_sent_at) + days) (
            if leb s.window_start clock && ltb clock s.window_end then clock else s.window_start) in
          (first_sent_at ≤ t)
          × (z.to_wall (z.from_wall target) ≡ target)
          × (z.from_wall target ≤ t)
          × (in_window z t s ≡ true)
          × ((u : ℕ) → z.from_wall target ≤ u → u < t → in_window z u s ≡ false)
    unfolding followup_due_at
    followup_due_at_first first_sent_at t after_days hw hd wait h =
        let days = or_default after_days s.followup_after_days in
        let (same, later) =
          steady.back first_sent_at (followup_target z first_sent_at days s)
            (target_later first_sent_at days wait) in
        let (a, b, c) = rolled _ t hw hd h in
        subst (λ (d : ℕ). IsAimed first_sent_at t (followup_target z first_sent_at d s))
          (days_waited after_days) (le_trans later a, same, a, b, c)

    -- Silence counts from a later instant than the email, whose wall time is the opening of the
    -- window so many days on.
    pub no_response_at_later :
        (last_sent_at : ℕ)
        → 1 ≤ s.final_wait_days
        → (last_sent_at ≤ no_response_at z last_sent_at s)
          × (z.to_wall (no_response_at z last_sent_at s)
              ≡ combine (date_of (z.to_wall last_sent_at) + s.final_wait_days) s.window_start)
    unfolding no_response_at
    no_response_at_later last_sent_at h =
        let (same, later) =
          steady.back last_sent_at
            (combine (date_of (z.to_wall last_sent_at) + s.final_wait_days) s.window_start)
            (omega arith) in
        (later, same)

  -- An instant lies between the bounds of a day exactly when its wall time has the date of that
  -- day. Some instant has a wall time no later than the start of the day, and the zone never moves
  -- its clocks.
  pub ist_day_bounds_iff :
      (earliest when u : ℕ)
      → z.to_wall earliest ≤ combine (date_of (z.to_wall when)) 0
      → (((ist_day_bounds z when).0 ≤ u) × (u < (ist_day_bounds z when).1))
        ↔ (date_of (z.to_wall u) ≡ date_of (z.to_wall when))
  unfolding ist_day_bounds
  ist_day_bounds_iff earliest when u h =
      let start = combine (date_of (z.to_wall when)) 0 in
      let from = (steady.back earliest start h).0 in
      let to = (steady.back earliest (start + day) (omega arith)).0 in
      (
        λ (p, q). omega (arith, to_wall_mono z steady _ u p, steady.in_order u _ q, from, to),
        λ e. (not_before earliest start u h (omega arith), before_end e),
      )
    where
      before_end :
          date_of (z.to_wall u) ≡ date_of (z.to_wall when)
          → u < z.from_wall (combine (date_of (z.to_wall when)) 0 + day)
      before_end e =
          let end = combine (date_of (z.to_wall when)) 0 + day in
          elim (Bool-cases (ltb u (z.from_wall end))) [
            | inl lt ↦ ltb→lt _ _ lt
            | inr ge ↦ absurd (
                omega (
                  arith,
                  to_wall_mono z steady (z.from_wall end) u (ground arith),
                  (steady.back earliest end (omega arith)).0,
                ))
          ]
