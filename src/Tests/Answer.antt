-- ===== src/Tests/Answer.antt =====
-- Runs of app/services/reply/service.py.
use outreach_automation.Prelude.{◌≡◌, refl, false, [], ◌∷◌, none, some, ok, codes}
use outreach_automation.Time.{kolkata}
use outreach_automation.Lead.State.{sent, opted_out, is_allowed}
use outreach_automation.Campaign.Settings.{default_settings}
use outreach_automation.Db.{Db, Lead, Json, Value, SuppressionReason}
use outreach_automation.Lead.Transition.{
  lock_lead, save_lead, record_event, assert_allowed, moved, state_changed, transition, add_flags,
  remove_flags, Move,
}
use outreach_automation.Jobs.{QueueConfig}
use outreach_automation.Sendable.{Refusal}
use outreach_automation.Outbox.{refused, claim_send}
use outreach_automation.Reply.{opt_out, policy_for}
use outreach_automation.ReplyAct.{
  Inbound, cancel_on_reply, add_suppression, cancel_jobs, reply_move, move, act_suppress, act,
}
use outreach_automation.ReplyAct.Unsent.{Unsent, act-Unsent}
use outreach_automation.ReplyAct.OptOut.{act_suppress_bars}
use outreach_automation.Tests.Mail.{ada, start, no_digest, first_mail}

abbrev config : QueueConfig
config = record { max_queued_jobs_per_org = 100; job_max_attempts = 5; job_lease_seconds = 300 }

abbrev please_stop : Inbound
please_stop = record { message_id = 21; soft_bounce = false; dsn_status = none; return_date = none }

abbrev written_to : Lead
written_to = record ada { state = sent }

abbrev mailed : Db
mailed = record start { leads = written_to ∷ [] }

abbrev answered : Lead
answered = record written_to { last_message_at = some 300 }

abbrev facts : Json
facts = ("label", Value.text "opt_out") ∷ ("status", Value.null) ∷ []

abbrev stopping : Move
stopping = reply_move 1 answered opted_out facts 300

abbrev suppressed : Db
suppressed = cancel_jobs 1 7 cancel_on_reply 301 (
    add_suppression 1 (codes "ada@x.in") SuppressionReason.opt_out (some 21)
      (save_lead answered mailed))

abbrev stopped : Db
stopped =
    record_event (state_changed stopping answered) (save_lead (moved stopping answered) suppressed)

acted :
    act kolkata config 1 30 please_stop opt_out default_settings 300 301 written_to mailed
    ≡ ok stopped
unfolding act act_suppress policy_for move transition lock_lead assert_allowed is_allowed save_lead
    record_event moved add_flags remove_flags cancel_jobs add_suppression reply_move
acted = refl

act-Unsent_example : Unsent mailed stopped
act-Unsent_example =
    act-Unsent kolkata config 1 30 please_stop opt_out default_settings 300 301 written_to mailed
      stopped acted

act_suppress_bars_example :
    (r : Refusal) × (claim_send no_digest first_mail 12 (codes "u2") stopped
      ≡ ok (refused r, stopped))
unfolding policy_for save_lead record_event moved add_flags remove_flags cancel_jobs add_suppression
    reply_move
act_suppress_bars_example =
    act_suppress_bars no_digest kolkata config 1 30 please_stop opt_out default_settings 300 301
      written_to mailed stopped first_mail 12 (codes "u2") (moved stopping answered) refl refl acted
      refl refl refl
