-- ===== src/Scheduling/Days.antt =====
-- Walking over days (app/domain/scheduling.py): the search for a send day ends, and what
-- `business_days_between` counts.
use outreach_automation.Prelude.{
  ℕ, zero, suc, ◌+◌, ◌-◌, ◌*◌, ◌%◌, ◌≤◌, ◌<◌, ◌≡◌, ◌≢◌, refl, sym, ap, ◌∙◌, ltb-false, Bool, true,
  false, ◌&&◌, Option, some, arith, ltb, if◌then◌else◌, inl, inr, Bool-cases, ◌==◌, elem, length,
  List, [], ◌∷◌,
}
use native.Mathlib.Nat.{add-zero}
use Prim.Native.Nat.add
use outreach_automation.Time.{date_of, time_of, combine, weekday, Zone}
use outreach_automation.Campaign.Settings.{CampaignSettings, is_send_day}
use outreach_automation.Scheduling.{
  find_send_day, next_window_open, next_day_open, count_send_days, business_days_between,
}

remove : ℕ → List ℕ → List ℕ
remove a [] = []
remove a (x ∷ xs) = if x == a then xs else x ∷ remove a xs

length-remove : (a : ℕ) (xs : List ℕ) → elem a xs ≡ true → suc (length (remove a xs)) ≡ length xs
unfolding remove
length-remove a [] h = cc
length-remove a (x ∷ xs) h = ground (arith, length-remove a xs)

elem-remove : (a b : ℕ) (xs : List ℕ) → a ≢ b → elem b (remove a xs) ≡ elem b xs
unfolding remove
elem-remove a b [] h = refl
elem-remove a b (x ∷ xs) h = ground (arith, elem-remove a b xs)

-- Of more days a week apart than there are holidays, one is no holiday.
free_week :
    (n a : ℕ) (holidays : List ℕ)
    → length holidays < n
    → (i : ℕ) × (i < n) × (elem (a + 7 * i) holidays ≡ false)
free_week zero a holidays h = elim h [ ]
free_week (suc n) a holidays h = elim (Bool-cases (elem (a + 7 * n) holidays)) [
  | inr free ↦ (n, omega arith, free)
  | inl taken ↦
      let (i, lt, free) =
        free_week n a (remove (a + 7 * n) holidays)
          (omega (arith, length-remove (a + 7 * n) holidays taken)) in
      (i, omega arith, sym (elem-remove (a + 7 * n) (a + 7 * i) holidays (omega arith)) ∙ free)
]

open_on :
    (x y : ℕ) (later : Option ℕ) (early now : Bool)
    → (t : ℕ) × (later ≡ some t)
    → (t : ℕ) × ((if early then some x else if now then some y else later) ≡ some t)
open_on x y later true now found = (x, refl)
open_on x y later false true found = (y, refl)
open_on x y later false false found = found

find_send_day_total :
    (rounds date e : ℕ) (s : CampaignSettings)
    → date ≤ e
    → e < date + rounds
    → is_send_day e s ≡ true
    → (d : ℕ) × (find_send_day rounds date s ≡ some d)
unfolding find_send_day
find_send_day_total zero date e s p q h = absurd (omega arith)
find_send_day_total (suc rounds) date e s p q h = elim (Bool-cases (is_send_day date s)) [
  | inl y ↦ (date, rw y)
  | inr n ↦
      rw n (find_send_day_total rounds (date + 1) e s (omega (arith, differ n)) (omega arith) h)
]
  where
    differ : is_send_day date s ≡ false → date ≢ e
    differ n same = cc (rw same at n)

-- The first date of a weekday, at or after a date.
next_weekday : ℕ → ℕ → ℕ
next_weekday date w = date + (7 + w - date % 7) % 7

next_weekday_lem :
    (date w i : ℕ)
    → w ≤ 6
    → i < 52
    → (date ≤ next_weekday date w + 7 * i)
      × (next_weekday date w + 7 * i < date + 366)
      × (weekday (next_weekday date w + 7 * i) ≡ w)
unfolding next_weekday
next_weekday_lem date w i h k = omega arith

send_day_in_year :
    (date w : ℕ) (s : CampaignSettings)
    → w ≤ 6
    → elem w s.send_days ≡ true
    → length s.holidays < 52
    → (e : ℕ) × (date ≤ e) × (e < date + 366) × (is_send_day e s ≡ true)
unfolding is_send_day
send_day_in_year date w s range named few =
    let (i, lt, free) = free_week 52 (next_weekday date w) s.holidays few in
    let (from, to, same) = next_weekday_lem date w i range lt in
    (next_weekday date w + 7 * i, from, to, rw (same, named, free))

-- When the settings name some weekday and fewer than 52 holidays, the walk over a year finds a
-- send day, so the function returns and never raises, whatever the zone and the instant.
pub next_window_open_total :
    (z : Zone) (after w : ℕ) (s : CampaignSettings)
    → w ≤ 6
    → elem w s.send_days ≡ true
    → length s.holidays < 52
    → (t : ℕ) × (next_window_open z after s ≡ some t)
unfolding next_window_open next_day_open
next_window_open_total z after w s range named few =
    let date = date_of (z.to_wall after) in
    let (e, from, to, send) = send_day_in_year (date + 1) w s range named few in
    let (d, found) = find_send_day_total 366 (date + 1) e s from to send in
    open_on _ _ _ (is_send_day date s && ltb (time_of (z.to_wall after)) s.window_start)
      (is_send_day date s && ltb (time_of (z.to_wall after)) s.window_end)
      (z.from_wall (combine d s.window_start), rw (found, next_day_open))

-- The send days after `start`, up to and with the day that many rounds on.
sends : ℕ → ℕ → CampaignSettings → ℕ
sends zero start s = 0
sends (suc rounds) start s =
    (if is_send_day (start + 1) s then 1 else 0) + sends rounds (start + 1) s

count_send_days-eq-add :
    (rounds date count : ℕ) (s : CampaignSettings)
    → count_send_days rounds date count s ≡ count + sends rounds date s
unfolding count_send_days sends
count_send_days-eq-add zero date count s = omega arith
count_send_days-eq-add (suc rounds) date count s = ground (
  arith,
  count_send_days-eq-add rounds (date + 1) count s,
  count_send_days-eq-add rounds (date + 1) (count + 1) s,
)

sends-add :
    (m n start : ℕ) (s : CampaignSettings)
    → sends (m + n) start s ≡ sends m start s + sends n (start + m) s
unfolding sends
sends-add zero n start s = rw (add.zero n, add-zero start) (sym (add.zero _))
sends-add (suc m) n start s =
    rw (add.suc m n)
      (omega (arith, sends-add m n (start + 1) s, ap (λ (x : ℕ). sends n x s) shifted))
  where
    shifted : start + 1 + m ≡ start + suc m
    shifted = omega arith

sends-le : (rounds start : ℕ) (s : CampaignSettings) → sends rounds start s ≤ rounds
unfolding sends
sends-le zero start s = omega arith
sends-le (suc rounds) start s = ground (arith, sends-le rounds (start + 1) s)

between-eq-sends :
    (a b : ℕ) (s : CampaignSettings) → a ≤ b → business_days_between a b s ≡ sends (b - a) a s
unfolding business_days_between
between-eq-sends a b s h = rw (ltb-false b a h) (count_send_days-eq-add (b - a) a 0 s ∙ add.zero _)

sends_one :
    (b : ℕ) (s : CampaignSettings) (n : ℕ)
    → n ≡ 1
    → sends n b s ≡ (if is_send_day (b + 1) s then 1 else 0)
unfolding sends
sends_one b s n e = rw e (add-zero _)

-- The count over a span of days is the sum of the counts over its parts, so that it counts each
-- send day after the first date, up to and with the last, once.
pub business_days_between-add :
    (a b c : ℕ) (s : CampaignSettings)
    → a ≤ b
    → b ≤ c
    → (business_days_between a c s ≡ business_days_between a b s + business_days_between b c s)
      × (business_days_between b (b + 1) s ≡ (if is_send_day (b + 1) s then 1 else 0))
      × (business_days_between a b s ≤ b - a)
business_days_between-add a b c s h k = (
  rw (between-eq-sends a c s (omega arith), between-eq-sends a b s h, between-eq-sends b c s k)
      whole,
  between-eq-sends b (b + 1) s (omega arith) ∙ one_day,
  rw (between-eq-sends a b s h) (sends-le (b - a) a s),
)
  where
    split : (c - a ≡ (b - a) + (c - b)) × (a + (b - a) ≡ b)
    split = omega arith

    whole : sends (c - a) a s ≡ sends (b - a) a s + sends (c - b) b s
    whole =
        rw split.0
          (sends-add (b - a) (c - b) a s ∙ ap (λ x. sends (b - a) a s + sends (c - b) x s) split.1)

    one_day : sends (b + 1 - b) b s ≡ (if is_send_day (b + 1) s then 1 else 0)
    one_day = sends_one b s (b + 1 - b) (omega arith)
