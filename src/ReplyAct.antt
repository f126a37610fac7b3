-- ===== src/ReplyAct.antt =====
-- app/services/reply/service.py, `_act`: what the label of a reply causes, and `add_suppression` of
-- app/db/repo.py. `clock` is what `datetime.now` answers in the callees that are not given the time.
pub mod Unsent
pub mod OptOut
use Prim.Native.Nat.{max}
use outreach_automation.Prelude.{
  ℕ, ◌+◌, ◌-◌, ◌*◌, Bool, true, false, not, ◌&&◌, List, [], ◌∷◌, ◌++◌, Option, none, some, String,
  ◌==◌, if◌then◌else◌, any, Result, ok, err, ◌>>=◌,
}
use outreach_automation.Time.{day, date_of, Zone}
use outreach_automation.Address.{strip, lower, same_text}
use outreach_automation.Lead.State.{LeadState, same_state}
use outreach_automation.Campaign.Settings.{CampaignSettings}
use outreach_automation.Scheduling.{next_window_open}
use outreach_automation.Db.{
  Db, Lead, Event, Actor, Json, Value, JobKind, draft_lead, send_message, draft_reply, Suppression,
  SuppressionKind, SuppressionReason,
}
use outreach_automation.Lead.Transition.{
  StateError, lead_not_found, illegal_transition, Move, save_lead, record_event, transition,
}
use outreach_automation.Jobs.{QueueConfig, QueueError, NewJob, enqueue}
use outreach_automation.Queue.{cancel_for_lead}
use outreach_automation.Reply.{
  ReplyLabel, interested, question, objection, not_now, not_interested, has_vendor, opt_out,
  out_of_office, bounce, wrong_person_referral, hostile, other, ReplyAction, suppress, close, defer,
  needs_human, policy_for, is_opt_out,
}

abbrev pub label_name : ReplyLabel → String
label_name interested = "interested"
label_name question = "question"
label_name objection = "objection"
label_name not_now = "not_now"
label_name not_interested = "not_interested"
label_name has_vendor = "has_vendor"
label_name opt_out = "opt_out"
label_name out_of_office = "out_of_office"
label_name bounce = "bounce"
label_name wrong_person_referral = "wrong_person_referral"
label_name hostile = "hostile"
label_name other = "other"

abbrev pub is_bounce : ReplyLabel → Bool
is_bounce bounce = true
is_bounce _ = false

-- `CANCEL_ON_REPLY`.
abbrev pub cancel_on_reply : List JobKind
cancel_on_reply = send_message ∷ draft_lead ∷ []

-- In days.
abbrev pub default_ooo_defer_days : ℕ
default_ooo_defer_days = 5

-- What `_act` reads of a parsed message and its row.
pub record Inbound : Type 0 where
  pub message_id : ℕ
  pub soft_bounce : Bool
  pub dsn_status : Option String
  pub return_date : Option ℕ

abbrev pub optional : Option String → Value
optional none = Value.null
optional (some t) = Value.text t

pub data ActError : Type 0 where
  state_error : StateError → ActError
  queue_error : QueueError → ActError
  no_window : ActError

abbrev pub is_email : SuppressionKind → Bool
is_email SuppressionKind.email = true
is_email _ = false

abbrev pub is_suppression : ℕ → List ℕ → Suppression → Bool
is_suppression org_id value s = (s.org_id == org_id) && is_email s.kind && same_text s.value value

unfoldable pub add_suppression : ℕ → List ℕ → SuppressionReason → Option ℕ → Db → Db
add_suppression org_id value reason source_message_id db =
    let normalised = lower (strip value) in
    if any (is_suppression org_id normalised) db.suppressions then db else record db {
      suppressions =
          db.suppressions
          ++ record {
            org_id = org_id;
            kind = SuppressionKind.email;
            value = normalised;
            reason = reason;
            source_message_id = source_message_id;
          }
            ∷ [];
    }

unfoldable pub cancel_jobs : ℕ → ℕ → List JobKind → ℕ → Db → Db
cancel_jobs org_id lead_id kinds clock db = record db {
  jobs = (cancel_for_lead org_id lead_id (some kinds) clock db.jobs).1;
}

abbrev pub reply_event : ℕ → ℕ → String → Json → Event
reply_event org_id lead_id type data_ = record {
  org_id = org_id;
  campaign_id = none;
  lead_id = some lead_id;
  actor = Actor.system;
  actor_id = none;
  type = type;
  from_state = none;
  to_state = none;
  data_ = data_;
}

unfoldable pub reply_move : ℕ → Lead → LeadState → Json → ℕ → Move
reply_move org_id lead to_state data_ now = record {
  org_id = org_id;
  lead_id = lead.id;
  to_state = to_state;
  actor = Actor.system;
  actor_id = none;
  data_ = data_;
  next_action_at = none;
  clear_next_action = true;
  flags_add = [];
  flags_remove = [];
  now = now;
}

-- The exception that `_move` catches.
tolerate : ℕ → Lead → LeadState → Json → Db → Result StateError (Lead × Db) → Result ActError Db
tolerate org_id lead to_state data_ db (ok (l, db')) = ok db'
tolerate org_id lead to_state data_ db (err (lead_not_found i)) =
    err (state_error (lead_not_found i))
tolerate org_id lead to_state data_ db (err (illegal_transition i from to)) = ok (
    record_event
      (reply_event org_id lead.id "reply.transition_skipped" (
        data_
        ++ ("from_state", Value.state lead.state)
          ∷ ("to_state", Value.state to_state)
          ∷ (
            "why",
            Value.text "the state machine does not permit this move; the reply is still recorded",
          )
          ∷ []))
      db)

-- `_move`.
unfoldable pub move : ℕ → Lead → LeadState → Json → ℕ → Db → Result ActError Db
unfolding tolerate reply_move
move org_id lead to_state data_ now db =
    if same_state lead.state to_state
    then ok db
    else tolerate org_id lead to_state data_ db
        (transition (reply_move org_id lead to_state data_ now) db)

defer_to : Lead → Option ℕ → Db → Result ActError Db
defer_to lead none db = err no_window
defer_to lead (some t) db = ok (save_lead (record lead { next_action_at = some t }) db)

-- `_defer`.
unfoldable pub postpone : Zone → Lead → ℕ → CampaignSettings → ℕ → Db → Result ActError Db
unfolding defer_to
postpone z lead days s now db = defer_to lead (next_window_open z (now + days * day) s) db

unfoldable pub defer_days : Option ℕ → ℕ → ℕ
defer_days none now = default_ooo_defer_days
defer_days (some date) now = max (date_of date + 1 - date_of now) 1

unfoldable pub draft_reply_job : ℕ → Lead → ReplyLabel → Inbound → NewJob
draft_reply_job org_id lead label parsed = record {
  org_id = org_id;
  kind = draft_reply;
  lead_id = some lead.id;
  payload =
      ("message_id", Value.id parsed.message_id) ∷ ("label", Value.text (label_name label)) ∷ [];
  priority = 10;
  run_after = none;
  dedupe_key = some (record { prefix = "draft_reply"; parts = parsed.message_id ∷ [] });
  max_attempts = none;
}

or_full : {A : Type 0} → Result QueueError A → Result ActError A
or_full (ok a) = ok a
or_full (err e) = err (queue_error e)

module _ (z : Zone) (config : QueueConfig) (org_id job_id : ℕ) (parsed : Inbound)
    (label : ReplyLabel) (s : CampaignSettings) (now clock : ℕ) where
  unfoldable pub act_suppress : Lead → Db → Result ActError Db
  act_suppress lead db =
      if is_bounce label && parsed.soft_bounce
      then (do
        db' ← postpone z lead 1 s now db
        ok (
            record_event
              (reply_event org_id lead.id "reply.soft_bounce"
                (("status", optional parsed.dsn_status) ∷ []))
              db'))
      else move org_id lead (if is_opt_out label then LeadState.opted_out else LeadState.bounced)
          (("label", Value.text (label_name label)) ∷ ("status", optional parsed.dsn_status) ∷ [])
          now
          (cancel_jobs org_id lead.id cancel_on_reply clock (
            add_suppression org_id lead.email_norm
              (if is_opt_out label then SuppressionReason.opt_out else SuppressionReason.bounce)
              (some parsed.message_id) db))

  unfoldable pub act_close : Lead → Db → Result ActError Db
  act_close lead db =
      move org_id lead LeadState.not_interested (("label", Value.text (label_name label)) ∷ []) now
        (cancel_jobs org_id lead.id cancel_on_reply clock db)

  unfoldable pub act_defer : Lead → Db → Result ActError Db
  act_defer lead db = do
    db' ← postpone z lead (defer_days parsed.return_date now) s now db
    ok (
        record_event
          (reply_event org_id lead.id "reply.out_of_office" (
            ("defer_days", Value.number (defer_days parsed.return_date now))
            ∷ (
              "return_date",
              elim parsed.return_date [ none ↦ Value.null | some t ↦ Value.number t ],
            )
            ∷ []))
          db')

  unfoldable pub act_needs_human : Lead → Db → Result ActError Db
  unfolding or_full
  act_needs_human lead db = do
    db' ←
        move org_id lead LeadState.replied (("label", Value.text (label_name label)) ∷ []) now
          (cancel_jobs org_id lead.id (send_message ∷ []) clock db)
    (row, jobs) ←
        or_full (enqueue config (draft_reply_job org_id lead label parsed) job_id clock db'.jobs)
    ok (record db' { jobs = jobs })

  -- `_act`, with the action of the label's policy.
  unfoldable pub act : Lead → Db → Result ActError Db
  act lead db =
      let lead' : Lead = record lead { last_message_at = some now } in
      let db' = save_lead lead' db in
      elim (policy_for label).action [
        | suppress ↦ act_suppress lead' db'
        | close ↦ act_close lead' db'
        | defer ↦ act_defer lead' db'
        | needs_human ↦ act_needs_human lead' db'
      ]
