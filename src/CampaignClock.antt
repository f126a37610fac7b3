-- ===== src/CampaignClock.antt =====
-- app/services/campaign_clock.py: the pass that moves campaigns by their dates. The names of the report
-- are left out, and a date in an event is the number of its instant.
pub mod Missed
use outreach_automation.Prelude.{
  ℕ, suc, Bool, true, false, not, ◌&&◌, ◌||◌, List, [], ◌∷◌, ◌++◌, Option, none, some, String,
  if◌then◌else◌,
}
use outreach_automation.Db.{Db, Campaign, Event, Actor, Value}
use outreach_automation.Campaign.Status.{CampaignStatus, moveable, scheduled_status}

abbrev pub status_name : CampaignStatus → String
status_name CampaignStatus.draft = "draft"
status_name CampaignStatus.scheduled = "scheduled"
status_name CampaignStatus.running = "running"
status_name CampaignStatus.paused = "paused"
status_name CampaignStatus.completed = "completed"
status_name CampaignStatus.archived = "archived"

abbrev pub same_status : CampaignStatus → CampaignStatus → Bool
same_status CampaignStatus.draft CampaignStatus.draft = true
same_status CampaignStatus.scheduled CampaignStatus.scheduled = true
same_status CampaignStatus.running CampaignStatus.running = true
same_status CampaignStatus.paused CampaignStatus.paused = true
same_status CampaignStatus.completed CampaignStatus.completed = true
same_status CampaignStatus.archived CampaignStatus.archived = true
same_status _ _ = false

pub record ClockReport : Type 0 where
  pub started : ℕ
  pub completed : ℕ
  pub parked : ℕ

abbrev has_date : Option ℕ → Bool
has_date none = false
has_date (some t) = true

-- The rows of the query.
unfoldable pub is_scheduled : Campaign → Bool
is_scheduled c = (has_date c.starts_at || has_date c.ends_at) && moveable c.status && not c.paused

unfoldable pub target_of : ℕ → Campaign → CampaignStatus
target_of now c = scheduled_status c.status c.starts_at c.ends_at now

abbrev pub moves : ℕ → Campaign → Bool
moves now c = is_scheduled c && not (same_status (target_of now c) c.status)

abbrev date_value : Option ℕ → Value
date_value none = Value.null
date_value (some t) = Value.number t

unfoldable pub moved_event : ℕ → Campaign → Event
moved_event now c = record {
  org_id = c.org_id;
  campaign_id = some c.id;
  lead_id = none;
  actor = Actor.system;
  actor_id = none;
  type = "campaign.schedule_moved";
  from_state = none;
  to_state = none;
  data_ =
      ("from", Value.text (status_name c.status))
      ∷ ("to", Value.text (status_name (target_of now c)))
      ∷ ("starts_at", date_value c.starts_at)
      ∷ ("ends_at", date_value c.ends_at)
      ∷ [];
}

unfoldable pub counted : CampaignStatus → ClockReport → ClockReport
counted CampaignStatus.running r = record r { started = suc r.started }
counted CampaignStatus.completed r = record r { completed = suc r.completed }
counted _ r = record r { parked = suc r.parked }

-- The table of campaigns after the pass.
unfoldable pub moved_rows : ℕ → List Campaign → List Campaign
moved_rows now [] = []
moved_rows now (c ∷ cs) =
    (if moves now c then record c { status = target_of now c } else c) ∷ moved_rows now cs

unfoldable pub clock_events : ℕ → List Campaign → List Event
clock_events now [] = []
clock_events now (c ∷ cs) =
    let rest = clock_events now cs in if moves now c then moved_event now c ∷ rest else rest

unfoldable pub clock_report : ℕ → List Campaign → ClockReport → ClockReport
clock_report now [] r = r
clock_report now (c ∷ cs) r =
    clock_report now cs (if moves now c then counted (target_of now c) r else r)

abbrev pub empty_report : ClockReport
empty_report = record { started = 0; completed = 0; parked = 0 }

unfoldable pub run_campaign_clock : ℕ → Db → ClockReport × Db
run_campaign_clock now db = (
  clock_report now db.campaigns empty_report,
  record db {
    campaigns = moved_rows now db.campaigns;
    events = db.events ++ clock_events now db.campaigns;
  },
)
