-- ===== src/Scheduling/Window.antt =====
-- The next opening of the send window is the earliest one (app/domain/scheduling.py).
use outreach_automation.Prelude.{
  ℕ, zero, suc, ◌+◌, ◌≤◌, ◌<◌, ◌≡◌, refl, Bool, true, false, ◌&&◌, some, arith, ltb, ◌⊎◌, inl, inr,
  Bool-cases, and-left, Option-cases, ==_iff, ◌==◌, subst,
}
use native.Mathlib.Nat.{le_refl}
use outreach_automation.Time.{day, date_of, time_of, combine, Zone, IsSteady, to_wall_mono}
use outreach_automation.Campaign.Settings.{CampaignSettings, is_send_day}
use outreach_automation.Scheduling.{
  in_hours, find_send_day, in_window, next_window_open, next_day_open,
}

-- The day found is a send day, and none before it is one.
pub find_send_day_first :
    (rounds date : ℕ) (s : CampaignSettings) (d : ℕ)
    → find_send_day rounds date s ≡ some d
    → (date ≤ d) × (is_send_day d s ≡ true) × ((e : ℕ) → date ≤ e → e < d → is_send_day e s ≡ false)
unfolding find_send_day
find_send_day_first zero date s d h = cc
find_send_day_first (suc rounds) date s d h = elim (Bool-cases (is_send_day date s)) [
  | inl yes' ↦ found (ground arith) yes'
  | inr no' ↦ later no' (find_send_day_first rounds (date + 1) s d (ground arith))
]
  where
    found :
        date ≡ d
        → is_send_day date s ≡ true
        → (date ≤ d)
          × (is_send_day d s ≡ true)
          × ((e : ℕ) → date ≤ e → e < d → is_send_day e s ≡ false)
    found e y =
        (omega arith, subst (λ x. is_send_day x s ≡ true) e y, λ x p q. absurd (omega arith))

    later :
        is_send_day date s ≡ false
        → (date + 1 ≤ d)
          × (is_send_day d s ≡ true)
          × ((e : ℕ) → date + 1 ≤ e → e < d → is_send_day e s ≡ false)
        → (date ≤ d)
          × (is_send_day d s ≡ true)
          × ((e : ℕ) → date ≤ e → e < d → is_send_day e s ≡ false)
    later n (a, b, c) = (
      omega arith,
      b,
      λ e p q. elim (Bool-cases (date == e)) [
        | inl same ↦ subst (λ x. is_send_day x s ≡ false) ((==_iff date e).0 same) n
        | inr other ↦ c e (ground arith) q
      ],
    )

-- The wall time at which the window of a day opens.
opening_date : (d ws : ℕ) → ws < day → date_of (combine d ws) ≡ d
opening_date d ws h = omega arith

opening_time : (d ws : ℕ) → ws < day → time_of (combine d ws) ≡ ws
opening_time d ws h = omega arith

and-false : (b : Bool) → (b && false) ≡ false
and-false true = refl
and-false false = refl

module _ (z : Zone) (steady : IsSteady z) (s : CampaignSettings) where
  before_opening :
      (v d : ℕ) → v < combine d s.window_start → date_of v ≡ d → in_hours (time_of v) s ≡ false
  before_opening v d h e = ground arith

  -- The opening on a send day, seen from an instant whose wall time is not after it.
  opening :
      (after d : ℕ)
      → s.window_start < s.window_end
      → s.window_end ≤ day
      → z.to_wall after ≤ combine d s.window_start
      → is_send_day d s ≡ true
      → (after ≤ z.from_wall (combine d s.window_start))
        × (in_window z (z.from_wall (combine d s.window_start)) s ≡ true)
  unfolding in_window
  opening after d hw hd le send =
      let w = combine d s.window_start in
      let (same, later) = steady.back after w le in
      (
        later,
        rw
            (
              same,
              opening_date d s.window_start (omega arith),
              send,
              opening_time d s.window_start (omega arith),
            )
            (ground arith),
      )

  -- Today's window is not open any more, if it was to be.
  abbrev Spent : ℕ → Type 0
  Spent w = (is_send_day (date_of w) s && ltb (time_of w) s.window_end) ≡ false

  Spent-later :
      (w v : ℕ)
      → Spent w
      → w ≤ v
      → date_of v ≡ date_of w
      → (is_send_day (date_of v) s && in_hours (time_of v) s) ≡ false
  Spent-later w v h le e = rw e (ground (arith, later_time))
    where
      later_time : time_of w ≤ time_of v
      later_time = omega arith

  closed_until :
      (after d : ℕ)
      → z.to_wall after ≤ combine d s.window_start
      → (date_of (z.to_wall after) ≡ d) ⊎ Spent (z.to_wall after)
      → ((e : ℕ) → date_of (z.to_wall after) < e → e < d → is_send_day e s ≡ false)
      → s.window_start < day
      → (u : ℕ) → after ≤ u
      → u < z.from_wall (combine d s.window_start)
      → in_window z u s ≡ false
  unfolding in_window
  closed_until after d le today skipped hd u p q = elim (Bool-cases (date_of v == d)) [
    | inl e ↦ rw (before_opening v d below ((==_iff _ d).0 e)) (and-false _)
    | inr e ↦ elim (Bool-cases (date_of v == date_of w)) [
      | inl f ↦ elim today [
        | inl same ↦ absurd (ground arith)
        | inr spent ↦ Spent-later w v spent from ((==_iff _ (date_of w)).0 f)
      ]
      | inr f ↦ rw (skipped (date_of v) (ground (arith, from)) (ground (arith, below)))
    ]
  ]
    where
      v : ℕ
      v = z.to_wall u

      w : ℕ
      w = z.to_wall after

      from : w ≤ v
      from = to_wall_mono z steady after u p

      below : v < combine d s.window_start
      below = omega (arith, steady.in_order u _ q, (steady.back after _ le).0)

  -- What the theorem below says of an instant.
  abbrev pub IsFirstOpen : ℕ → ℕ → Type 0
  IsFirstOpen after t =
      (after ≤ t)
      × (in_window z t s ≡ true)
      × ((u : ℕ) → after ≤ u → u < t → in_window z u s ≡ false)

  at_opening :
      (after t d : ℕ)
      → s.window_start < s.window_end
      → s.window_end ≤ day
      → z.to_wall after ≤ combine d s.window_start
      → is_send_day d s ≡ true
      → (date_of (z.to_wall after) ≡ d) ⊎ Spent (z.to_wall after)
      → ((e : ℕ) → date_of (z.to_wall after) < e → e < d → is_send_day e s ≡ false)
      → z.from_wall (combine d s.window_start) ≡ t
      → IsFirstOpen after t
  at_opening after t d hw hd le send today skipped e =
      let (a, b) = opening after d hw hd le send in
      subst (IsFirstOpen after) e (a, b, closed_until after d le today skipped (omega arith))

  search_first :
      (after t : ℕ)
      → s.window_start < s.window_end
      → s.window_end ≤ day
      → Spent (z.to_wall after)
      → next_day_open z (date_of (z.to_wall after)) s ≡ some t
      → IsFirstOpen after t
  unfolding next_day_open
  search_first after t hw hd spent h =
      elim (Option-cases (find_send_day 366 (date_of (z.to_wall after) + 1) s)) [
        | inl e ↦ cc (rw (e, next_day_open) at h)
        | inr (d, e) ↦
            let (a, b, c) = find_send_day_first 366 _ s d e in
            at_opening after t d hw hd (omega arith) b (inr spent) (λ x p q. c x (omega arith) q)
              (ground arith)
      ]

  -- The opening that the function finds is at or after the given instant and inside the window,
  -- and at no instant from the given one up to it is the window open. The zone never moves its
  -- clocks, and the window opens before it closes, within a day.
  pub next_window_open_first :
      (after t : ℕ)
      → s.window_start < s.window_end
      → s.window_end ≤ day
      → next_window_open z after s ≡ some t
      → (after ≤ t)
        × (in_window z t s ≡ true)
        × ((u : ℕ) → after ≤ u → u < t → in_window z u s ≡ false)
  unfolding next_window_open in_window
  next_window_open_first after t hw hd h =
      let w = z.to_wall after in
      elim (Bool-cases (is_send_day (date_of w) s && ltb (time_of w) s.window_start)) [
        | inl early ↦
            at_opening after t (date_of w) hw hd (ground arith)
              (and-left _ (ltb (time_of w) s.window_start) early) (inl refl)
              (λ e p q. absurd (omega arith)) (ground arith)
        | inr late ↦ elim (Bool-cases (is_send_day (date_of w) s && ltb (time_of w) s.window_end)) [
          | inl now ↦
              subst (IsFirstOpen after) (ground arith)
                (le_refl after, ground arith, λ u p q. absurd (omega arith))
          | inr spent ↦ search_first after t hw hd spent (ground arith)
        ]
      ]
