-- ===== src/Tests/Pass.antt =====
-- Runs of the lifecycle pass, app/services/lifecycle.py.
use native.Mathlib.Omega.{arith}
use outreach_automation.Prelude.{ℕ, ◌*◌, ◌≡◌, refl, false, [], ◌∷◌, none, some, String, ok, err}
use outreach_automation.Time.{day, Zone, kolkata}
use outreach_automation.Lead.State.{followup_sent, sent, is_allowed}
use outreach_automation.Campaign.Settings.{CampaignSettings, default_settings}
use outreach_automation.Scheduling.{no_response_at}
use outreach_automation.Db.{Db, Lead, MessageKind}
use outreach_automation.Lead.Transition.{
  lock_lead, save_lead, record_event, assert_allowed, moved, state_changed, transition,
}
use outreach_automation.Jobs.{QueueConfig, new_job, waiting, enqueue}
use outreach_automation.Sendable.{Refusal, why_not_sendable}
use outreach_automation.Lifecycle.{
  LifecycleReport, no_report, followup_due, followup_job, queue_followup, has_live_draft,
  has_unread, close_move, close_silent, each,
}
use outreach_automation.Lifecycle.Silence.{between_followups}
use outreach_automation.Lifecycle.Closed.{Fate, each-close_silent}
use outreach_automation.Tests.Mail.{ada, spring, start, no_digest}

in_india : String → Zone
in_india name = kolkata

-- A campaign that allows three follow-ups, and a lead that had one of them.
abbrev three : CampaignSettings
three = record default_settings { max_followups = 3 }

abbrev pushy : Db
pushy = record start { campaigns = record spring { settings = some three } ∷ [] }

abbrev followed_up : Lead
followed_up = record ada { state = followup_sent; followups_sent = 1; last_message_at = some 0 }

between_followups_example :
    (followup_due pushy (900 * day) followed_up ≡ false)
    × (close_silent in_india (900 * day) followed_up no_report pushy ≡ ok (no_report, pushy))
    × ((r : Refusal) × (why_not_sendable no_digest 1 followed_up MessageKind.followup none
            (900 * day)
            pushy
          ≡ err r))
between_followups_example =
    between_followups no_digest in_india (900 * day) none followed_up three no_report pushy refl
      refl (omega arith)

abbrev config : QueueConfig
config = record { max_queued_jobs_per_org = 100; job_max_attempts = 5; job_lease_seconds = 300 }

abbrev one_more : Lead
one_more = record ada { state = sent; next_action_at = some 50 }

same_id : ℕ → ℕ
same_id n = n

abbrev asked : Db
asked = record pushy { jobs = new_job config (followup_job one_more) 7 60 ∷ [] }

abbrev counted : LifecycleReport
counted = record no_report { followups_queued = 1 }

queued_one : queue_followup config same_id 60 one_more no_report pushy ≡ ok (counted, asked)
unfolding queue_followup has_live_draft enqueue waiting same_id followup_job new_job
queued_one = refl

-- With the default of one follow-up, silence closes the lead.
abbrev calm : Db
calm = record start {
  leads = followed_up ∷ [];
  campaigns = record spring { settings = some default_settings } ∷ [];
}

abbrev closed_one : Db
closed_one =
    record_event (state_changed (close_move default_settings followed_up (900 * day)) followed_up)
      (save_lead (moved (close_move default_settings followed_up (900 * day)) followed_up) calm)

abbrev closed_report : LifecycleReport
closed_report = record no_report { closed_silent = 1 }

closed_all :
    each (close_silent in_india (900 * day)) (followed_up ∷ []) no_report calm
    ≡ ok (closed_report, closed_one)
unfolding each close_silent has_unread no_response_at in_india transition lock_lead assert_allowed
    is_allowed close_move
closed_all = refl

each-close_silent_example : Fate in_india (900 * day) 1 7 (followed_up ∷ []) calm closed_one
each-close_silent_example =
    each-close_silent in_india (900 * day) 1 7 (followed_up ∷ []) no_report closed_report calm
      closed_one closed_all
