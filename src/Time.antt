-- ===== src/Time.antt =====
-- Points in time, as app/domain/scheduling.py uses the standard library's `datetime`.
-- An instant is a UTC `datetime`: microseconds since the start of the year 1. A wall time is a
-- zone's local `datetime`, in the same unit, so that its date is the quotient by a day and its time
-- of day the remainder. A date is its ordinal less one; a `timedelta` is a number of microseconds.
use native.Mathlib.Nat.{le_refl}
use outreach_automation.Prelude.{
  ℕ, ◌+◌, ◌-◌, ◌*◌, ◌/◌, ◌%◌, ◌≤◌, ◌<◌, ◌≡◌, inl, inr, arith, Bool-cases, ==_iff, ◌==◌,
}

abbrev pub second : ℕ
second = 1000000

abbrev pub minute : ℕ
minute = 60000000

abbrev pub day : ℕ
day = 86400000000

abbrev pub date_of : ℕ → ℕ
date_of w = w / day

abbrev pub time_of : ℕ → ℕ
time_of w = w % day

-- `datetime.combine`.
abbrev pub combine : ℕ → ℕ → ℕ
combine date time = date * day + time

-- `date.weekday()`: 0 is Monday, and the first of January of the year 1 was one.
abbrev pub weekday : ℕ → ℕ
weekday date = date % 7

-- `zoneinfo.ZoneInfo`, which reads a database outside the repository: `to_wall` is `astimezone`,
-- and `from_wall` the way back to UTC from a wall time with that zone attached.
pub record Zone : Type 0 where
  pub to_wall : ℕ → ℕ
  pub from_wall : ℕ → ℕ

-- A zone that never moves its clocks, such as the default Asia/Kolkata: wall times come in the
-- order of the instants, and a wall time at or after that of some instant is the wall time of an
-- instant no earlier.
pub record IsSteady (z : Zone) : Type 0 where
  pub in_order : (t u : ℕ) → t < u → z.to_wall t < z.to_wall u
  pub back : (t w : ℕ) → z.to_wall t ≤ w → (z.to_wall (z.from_wall w) ≡ w) × (t ≤ z.from_wall w)

-- The zone that is `offset` ahead of UTC all year.
abbrev pub fixed_zone : ℕ → Zone
fixed_zone offset = record { to_wall = λ t. t + offset; from_wall = λ w. w - offset }

pub fixed_zone-IsSteady : (offset : ℕ) → IsSteady (fixed_zone offset)
fixed_zone-IsSteady offset = record {
  in_order = λ t u h. omega arith;
  back = λ t w h. (omega arith, omega arith);
}

-- Asia/Kolkata is five and a half hours ahead.
abbrev pub kolkata : Zone
kolkata = fixed_zone 19800000000

pub to_wall_mono : (z : Zone) → IsSteady z → (t u : ℕ) → t ≤ u → z.to_wall t ≤ z.to_wall u
to_wall_mono z steady t u h = elim (Bool-cases (t == u)) [
  | inl e ↦ rw ((==_iff t u).0 e) (le_refl _)
  | inr e ↦ omega (arith, steady.in_order t u (ground arith))
]
