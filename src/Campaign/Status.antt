-- ===== src/Campaign/Status.antt =====
-- app/domain/campaign_schedule.py: which status a scheduled campaign should have. The sentence for
-- the dashboard (`schedule_note`) names its parts, and leaves out how a date is printed.
use outreach_automation.Prelude.{
  ℕ, ◌≤◌, ◌≡◌, ◌⊎◌, ◌↔◌, Bool, true, false, Option, none, some, arith, leb, ltb, if◌then◌else◌,
  ◌&&◌, not,
}
use mathlib.Core.Option
use outreach_automation.Time.{date_of}

pub data CampaignStatus : Type 0 where
  draft scheduled running paused completed archived : CampaignStatus

-- `status in MOVEABLE`.
abbrev pub moveable : CampaignStatus → Bool
moveable draft = true
moveable scheduled = true
moveable running = true
moveable paused = false
moveable completed = false
moveable archived = false

abbrev is_none : Option ℕ → Bool
is_none none = true
is_none (some t) = false

-- `ends_at is not None and now >= ends_at`, and the test against `starts_at`.
abbrev pub has_ended : Option ℕ → ℕ → Bool
has_ended none now = false
has_ended (some t) now = leb t now

abbrev pub not_begun : Option ℕ → ℕ → Bool
not_begun none now = false
not_begun (some t) now = ltb now t

unfoldable pub scheduled_status : CampaignStatus → Option ℕ → Option ℕ → ℕ → CampaignStatus
scheduled_status status starts_at ends_at now =
    if is_none starts_at && is_none ends_at
    then status
    else if not (moveable status)
    then status
    else if has_ended ends_at now
    then completed
    else if not_begun starts_at now
    then scheduled
    else running

-- A pass of the scheduler that was missed makes no difference: running it at one time and again
-- later gives the status that the later pass alone would give.
pub scheduled_status-scheduled_status :
    (status : CampaignStatus) (starts_at ends_at : Option ℕ) (now later : ℕ)
    → now ≤ later
    → scheduled_status (scheduled_status status starts_at ends_at now) starts_at ends_at later
      ≡ scheduled_status status starts_at ends_at later
unfolding scheduled_status
scheduled_status-scheduled_status status starts_at ends_at now later h = ground arith

-- The schedule leaves a paused, completed or archived campaign alone at any time, and gives one
-- that it may move and that has an end the status `completed` exactly from that end on.
pub scheduled_status_cases :
    (status : CampaignStatus) (starts_at : Option ℕ) (ends_at now : ℕ)
    → ((moveable status ≡ false) × (scheduled_status status starts_at (some ends_at) now ≡ status))
      ⊎ ((moveable status ≡ true)
          × ((scheduled_status status starts_at (some ends_at) now ≡ completed) ↔ (ends_at ≤ now)))
unfolding scheduled_status
scheduled_status_cases status starts_at ends_at now = ground arith

pub data Note : Type 0 where
  finished_on starts_on ends_on started_on : ℕ → Note
  starts_and_ends running_until : ℕ → ℕ → Note

is_completed : CampaignStatus → Bool
is_completed completed = true
is_completed _ = false

is_scheduled : CampaignStatus → Bool
is_scheduled scheduled = true
is_scheduled _ = false

dates_note : CampaignStatus → Option ℕ → Option ℕ → Option Note
unfolding is_completed is_scheduled
dates_note status none none = none
dates_note status none (some end) =
    some (if is_completed status then finished_on end else ends_on end)
dates_note status (some start) none =
    some (if is_scheduled status then starts_on start else started_on start)
dates_note status (some start) (some end) = some (
    if is_completed status
    then finished_on end
    else if is_scheduled status
    then starts_and_ends start end
    else running_until start end)

-- Dates only: the time of day is dropped.
unfoldable pub schedule_note : CampaignStatus → Option ℕ → Option ℕ → Option Note
unfolding dates_note
schedule_note status starts_at ends_at =
    dates_note status (Option.map date_of starts_at) (Option.map date_of ends_at)
