-- ===== src/Lifecycle.antt =====
-- app/services/lifecycle.py: one pass that queues the follow-ups that are due and closes the leads
-- that have gone quiet. The zone database is the argument `zone_of`, and `new_id` gives the id of a
-- new job for a lead. The leads that a loop selects are those at its start.
pub mod Silence
pub mod Closed
pub mod Again
use outreach_automation.Prelude.{
  ℕ, suc, ◌+◌, Bool, true, false, not, ◌&&◌, ◌||◌, List, [], ◌∷◌, Option, none, some, String, ltb,
  leb, ◌==◌, if◌then◌else◌, any, count, select, sort_by, take, Result, ok, err, ◌>>=◌,
}
use outreach_automation.Time.{Zone}
use outreach_automation.Lead.State.{LeadState, same_state, is_in}
use outreach_automation.Campaign.Settings.{CampaignSettings}
use outreach_automation.Campaign.Status.{CampaignStatus}
use outreach_automation.Scheduling.{no_response_at}
use outreach_automation.Db.{
  Db, Lead, Campaign, Message, MessageKind, Direction, inbound, Draft, DraftStatus, Job,
  draft_followup, Actor, Value,
}
use outreach_automation.Db.Table.{find}
use outreach_automation.Lead.Transition.{StateError, Move, transition}
use outreach_automation.Jobs.{QueueConfig, QueueError, NewJob, enqueue}

abbrev pub batch_size : ℕ
batch_size = 100

-- `_LIVE`.
abbrev pub is_live_draft : DraftStatus → Bool
is_live_draft DraftStatus.generated = true
is_live_draft DraftStatus.validated = true
is_live_draft DraftStatus.pending_review = true
is_live_draft DraftStatus.approved = true
is_live_draft _ = false

pub data SkipReason : Type 0 where
  settings_unreadable no_followups all_sent draft_waiting inbound_unprocessed : SkipReason

abbrev pub reason_index : SkipReason → ℕ
reason_index settings_unreadable = 0
reason_index no_followups = 1
reason_index all_sent = 2
reason_index draft_waiting = 3
reason_index inbound_unprocessed = 4

-- `skipped` counts each reason.
pub record LifecycleReport : Type 0 where
  pub followups_queued : ℕ
  pub closed_silent : ℕ
  pub skipped : SkipReason → ℕ

unfoldable pub skip : SkipReason → LifecycleReport → LifecycleReport
skip reason r = record r {
  skipped = λ x. if reason_index x == reason_index reason then r.skipped x + 1 else r.skipped x;
}

pub data LifecycleError : Type 0 where
  queue_error : QueueError → LifecycleError
  state_error : StateError → LifecycleError

abbrev pub is_running_campaign : CampaignStatus → Bool
is_running_campaign CampaignStatus.running = true
is_running_campaign _ = false

abbrev pub is_followup : MessageKind → Bool
is_followup MessageKind.followup = true
is_followup _ = false

abbrev pub is_inbound : Direction → Bool
is_inbound inbound = true
is_inbound _ = false

-- The row joined to a lead.
abbrev pub campaign_of : Db → Lead → Option Campaign
campaign_of db l = find (λ (c : Campaign). c.id == l.campaign_id) db.campaigns

abbrev pub at_or_before : Option ℕ → ℕ → Bool
at_or_before none now = false
at_or_before (some t) now = leb t now

abbrev pub time_or_zero : Option ℕ → ℕ
time_or_zero none = 0
time_or_zero (some t) = t

-- A lead that `_queue_due_followups` selects.
unfoldable pub followup_due : Db → ℕ → Lead → Bool
followup_due db now l =
    same_state l.state LeadState.sent
    && not l.paused
    && at_or_before l.next_action_at now
    && elim (campaign_of db l) [
      | none ↦ false
      | some c ↦ not c.paused && is_running_campaign c.status
    ]

unfoldable pub due_leads : Db → ℕ → ℕ → List Lead
due_leads db now batch = take batch (
    sort_by (λ (l m : Lead). ltb (time_or_zero l.next_action_at) (time_or_zero m.next_action_at))
      (select (followup_due db now) db.leads))

unfoldable pub has_live_draft : Db → Lead → Bool
has_live_draft db l =
    any (λ (d : Draft). (d.lead_id == l.id) && is_followup d.kind && is_live_draft d.status)
      db.drafts

unfoldable pub followup_job : Lead → NewJob
followup_job l = record {
  org_id = l.org_id;
  kind = draft_followup;
  lead_id = some l.id;
  payload = ("lead_id", Value.id l.id) ∷ ("number", Value.number (l.followups_sent + 1)) ∷ [];
  priority = 100;
  run_after = none;
  dedupe_key = some (record { prefix = "followup"; parts = l.id ∷ (l.followups_sent + 1) ∷ [] });
  max_attempts = none;
}

abbrev pub or_full : {A : Type 0} → Result QueueError A → Result LifecycleError A
or_full (ok a) = ok a
or_full (err e) = err (queue_error e)

abbrev pub or_illegal : {A : Type 0} → Result StateError A → Result LifecycleError A
or_illegal (ok a) = ok a
or_illegal (err e) = err (state_error e)

abbrev pub settings_of : Db → Lead → Option CampaignSettings
settings_of db l = elim (campaign_of db l) [ none ↦ none | some c ↦ c.settings ]

pub queue_job :
    QueueConfig → ℕ → ℕ → Lead → LifecycleReport → Db → Result LifecycleError (LifecycleReport × Db)
unfolding followup_job
queue_job config job_id now l report db = do
  (row, jobs) ← or_full (enqueue config (followup_job l) job_id now db.jobs)
  ok (
    elim row [
      | none ↦ report
      | some j ↦ record report { followups_queued = report.followups_queued + 1 }
    ],
    record db { jobs = jobs },
  )

-- The body of the first loop.
unfoldable pub queue_followup :
    QueueConfig
    → (ℕ → ℕ)
    → ℕ
    → Lead
    → LifecycleReport
    → Db
    → Result LifecycleError (LifecycleReport × Db)
unfolding queue_job
queue_followup config new_id now l report db = elim (settings_of db l) [
  | none ↦ ok (skip settings_unreadable report, db)
  | some s ↦
      if s.max_followups == 0
      then ok (skip no_followups report, db)
      else if leb s.max_followups l.followups_sent
      then ok (skip all_sent report, db)
      else if has_live_draft db l
      then ok (skip draft_waiting report, db)
      else queue_job config (new_id l.id) now l report db
]

-- A lead that `_close_silent_leads` selects; the inner join keeps those with a campaign.
unfoldable pub may_be_silent : Db → Lead → Bool
may_be_silent db l =
    is_in l.state (LeadState.sent ∷ LeadState.followup_sent ∷ [])
    && elim l.last_message_at [ none ↦ false | some t ↦ true ]
    && elim (campaign_of db l) [ none ↦ false | some c ↦ true ]

unfoldable pub silent_candidates : Db → ℕ → List Lead
silent_candidates db batch = take batch (
    sort_by (λ (l m : Lead). ltb (time_or_zero l.last_message_at) (time_or_zero m.last_message_at))
      (select (may_be_silent db) db.leads))

abbrev pub is_of : Option ℕ → ℕ → Bool
is_of none n = false
is_of (some m) n = m == n

unfoldable pub has_unread : Db → Lead → ℕ → Bool
has_unread db l since =
    any (λ (m : Message). is_of m.lead_id l.id && is_inbound m.direction && ltb since m.created_at)
      db.messages

unfoldable pub close_move : CampaignSettings → Lead → ℕ → Move
close_move s l now = record {
  org_id = l.org_id;
  lead_id = l.id;
  to_state = LeadState.no_response;
  actor = Actor.system;
  actor_id = none;
  data_ =
      ("after_days", Value.number s.final_wait_days)
      ∷ ("followups_sent", Value.number l.followups_sent)
      ∷ [];
  next_action_at = none;
  clear_next_action = false;
  flags_add = [];
  flags_remove = [];
  now = now;
}

pub close :
    CampaignSettings
    → Lead
    → ℕ
    → LifecycleReport
    → Db
    → Result LifecycleError (LifecycleReport × Db)
unfolding close_move
close s l now report db = do
  (lead, db') ← or_illegal (transition (close_move s l now) db)
  ok (record report { closed_silent = report.closed_silent + 1 }, db')

-- The body of the second loop. A lead is selected only with a time of its last message.
unfoldable pub close_silent :
    (String → Zone) → ℕ → Lead → LifecycleReport → Db → Result LifecycleError (LifecycleReport × Db)
unfolding close
close_silent zone_of now l report db = elim (settings_of db l) [
  | none ↦ ok (skip settings_unreadable report, db)
  | some s ↦
      let last = time_or_zero l.last_message_at in
      if ltb l.followups_sent s.max_followups
      then ok (report, db)
      else if ltb now (no_response_at (zone_of s.timezone) last s)
      then ok (report, db)
      else if has_unread db l last
      then ok (skip inbound_unprocessed report, db)
      else close s l now report db
]

unfoldable pub each :
    (Lead → LifecycleReport → Db → Result LifecycleError (LifecycleReport × Db))
    → List Lead
    → LifecycleReport
    → Db
    → Result LifecycleError (LifecycleReport × Db)
each body [] report db = ok (report, db)
each body (l ∷ ls) report db = do (report', db') ← body l report db; each body ls report' db'

abbrev pub no_report : LifecycleReport
no_report = record { followups_queued = 0; closed_silent = 0; skipped = λ r. 0 }

unfoldable pub run_lifecycle :
    QueueConfig
    → (ℕ → ℕ)
    → (String → Zone)
    → ℕ
    → ℕ
    → Db
    → Result LifecycleError (LifecycleReport × Db)
unfolding each due_leads silent_candidates
run_lifecycle config new_id zone_of now batch db = do
  (report, db') ← each (queue_followup config new_id now) (due_leads db now batch) no_report db
  each (close_silent zone_of now) (silent_candidates db' batch) report db'
