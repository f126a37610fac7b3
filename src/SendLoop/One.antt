-- ===== src/SendLoop/One.antt =====
-- app/worker/send_loop.py, `send_one`, with `load_for_send` of app/db/attachments.py and
-- `mark_unavailable` of app/services/mail/connection.py. Outside: the rendering of the footer and of
-- the unsubscribe link, the stored credential, and the rows and columns of the outcome dataset, which
-- never stop a send.
use Prim.Native.Nat.{max}
use outreach_automation.Prelude.{
  ℕ, ◌+◌, ◌-◌, ◌*◌, Bool, true, false, not, ◌&&◌, List, [], ◌∷◌, ◌++◌, Option, none, some, String,
  codes, ltb, ◌==◌, if◌then◌else◌, take, Result, ok, err, ◌>>=◌,
}
use outreach_automation.Time.{Zone, second, minute, day}
use outreach_automation.Lead.State.{LeadState}
use outreach_automation.Campaign.Settings.{CampaignSettings}
use outreach_automation.Scheduling.{
  in_window, next_window_open, followup_due_at, remaining_capacity,
}
use outreach_automation.Db.{
  Db, Mailbox, Message, Draft, DraftStatus, initial, followup, reply, Persona, Attachment, Org,
  Value, SuppressionReason, Actor,
}
use outreach_automation.Db.Table.{find, update_where}
use outreach_automation.Lead.Transition.{StateError, Move, record_event, transition}
use outreach_automation.Sendable.{Refusal}
use outreach_automation.Outbox.{
  Send, ClaimError, ClaimResult, claimed, refused, claim_send, message_event,
}
use outreach_automation.Sends.{MarkError, mark_sent, mark_failed}
use outreach_automation.ReplyAct.{add_suppression}
use outreach_automation.Drafts.Listing.{should_attach, attach_default}
use outreach_automation.SendLoop.{Candidate, sent_today, effective_cap, find_candidates}
use outreach_automation.SendLoop.Headers.{thread_headers}

-- What is handed to the SMTP sender.
pub record Outgoing : Type 0 where
  pub to_email : List ℕ
  pub from_email : List ℕ
  pub subject : List ℕ
  pub body : List ℕ
  pub persona : Persona
  pub message_id : Option (List ℕ)
  pub in_reply_to : Option (List ℕ)
  pub references : Option (List ℕ)
  pub attachment : Option (List ℕ)

pub data SmtpOutcome : Type 0 where
  delivered blocked rejected auth_failed failed : SmtpOutcome

pub record SmtpReport : Type 0 where
  pub outcome : SmtpOutcome
  pub response : Option (List ℕ)
  pub detail : List ℕ

-- What the pass asks of the world: whether a mailbox can log in, with the reason if not; the SMTP
-- server behind the guards of the sending mode; the pause drawn for the next send; a fresh id and a
-- fresh uuid; and the digest of erased addresses.
pub record World : Type 0 where
  pub login : Mailbox → Option (List ℕ)
  pub smtp : Outgoing → SmtpReport
  pub gap : ℕ
  pub message_id : ℕ
  pub uuid : List ℕ
  pub hashed_email : List ℕ → List ℕ

pub data Reason : Type 0 where
  no_org org_paused pacing outside_window nothing_ready was_sent : Reason
  is_paused : Option (List ℕ) → Reason
  cap_reached : ℕ → ℕ → Reason
  needs_reconnecting : List ℕ → Reason
  not_eligible : Refusal → Reason
  was_blocked was_rejected has_failed : List ℕ → Reason

pub record SendDecision : Type 0 where
  pub sent : Bool
  pub message_id : Option ℕ
  pub lead_id : Option ℕ
  pub reason : Reason
  pub wait : ℕ

pub data SendError : Type 0 where
  state_error : StateError → SendError
  claim_error : ClaimError → SendError
  mark_error : MarkError → SendError
  no_window : SendError

-- A pass: its decision or the exception that ended it, the database that was committed, and the
-- e-mail that left our hands.
pub record Pass : Type 0 where
  pub result : Result SendError SendDecision
  pub db : Db
  pub handed : Option Outgoing

abbrev pub idle : Reason → ℕ → Db → Pass
idle reason wait db = record {
  result =
      ok (record { sent = false; message_id = none; lead_id = none; reason = reason; wait = wait });
  db = db;
  handed = none;
}

-- A wait until a time that may not come.
abbrev pub idle_until : Reason → ℕ → ℕ → Option ℕ → Db → Pass
idle_until reason now least opens db = elim opens [
  | none ↦ record { result = err no_window; db = db; handed = none }
  | some t ↦ idle reason (max (t - now) least) db
]

abbrev pub save_mailbox : Mailbox → Db → Db
save_mailbox m db = record db {
  mailboxes = update_where (λ (x : Mailbox). x.id == m.id) (λ _. m) db.mailboxes;
}

unfoldable pub load_for_send : ℕ → Candidate → Db → Option (List ℕ)
load_for_send org_id c db =
    if not (should_attach c.draft.attach (attach_default c.draft.kind c.settings))
    then none
    else elim (find (λ (a : Attachment). (a.org_id == org_id) && (a.campaign_id == c.campaign.id))
        db.attachments) [ none ↦ none | some a ↦ some a.filename ]

unfoldable pub outgoing : ℕ → Mailbox → Candidate → Message → Db → Outgoing
outgoing org_id mailbox c m db = record {
  to_email = c.lead.email_norm;
  from_email = mailbox.from_email;
  subject = c.draft.subject;
  body = c.draft.body;
  persona = c.persona;
  message_id = m.message_id_hdr;
  in_reply_to = m.in_reply_to;
  references = m.references_hdr;
  attachment = load_for_send org_id c db;
}

abbrev pub park_move : ℕ → LeadState → Candidate → List String → Bool → List ℕ → ℕ → Move
park_move org_id to c flags clear reason now = record {
  org_id = org_id;
  lead_id = c.lead.id;
  to_state = to;
  actor = Actor.system;
  actor_id = none;
  data_ = ("reason", Value.chars reason) ∷ [];
  next_action_at = none;
  clear_next_action = clear;
  flags_add = flags;
  flags_remove = [];
  now = now;
}

abbrev pub or_state : {A : Type 0} → Result StateError A → Result SendError A
or_state (ok a) = ok a
or_state (err e) = err (state_error e)

abbrev pub or_mark : {A : Type 0} → Result MarkError A → Result SendError A
or_mark (ok a) = ok a
or_mark (err e) = err (mark_error e)

-- `_skip_lead`.
unfoldable pub skip_lead : ℕ → Candidate → List ℕ → ℕ → Db → Result SendError Db
skip_lead org_id c reason now db = elim c.draft.kind [
  | initial ↦
      or_state (
        transition (park_move org_id LeadState.skipped c ("not_allowlisted" ∷ []) false reason now)
          db)
      >>= λ r. ok r.1
  | followup ↦ ok db
  | reply ↦ ok db
]

-- `_bounce_lead`.
unfoldable pub bounce_lead : ℕ → Candidate → List ℕ → ℕ → Db → Result SendError Db
bounce_lead org_id c reason now db =
    or_state (
      transition (park_move org_id LeadState.bounced c [] true (take 300 reason) now)
        (add_suppression org_id c.lead.email_norm SuppressionReason.bounce none db))
    >>= λ r. ok r.1

abbrev pub decision : Bool → Option ℕ → Candidate → Reason → ℕ → SendDecision
decision sent message_id c reason wait = record {
  sent = sent;
  message_id = message_id;
  lead_id = some c.lead.id;
  reason = reason;
  wait = wait;
}

-- When the follow-up of a first e-mail is due.
unfoldable pub follow_at : Zone → Candidate → ℕ → Result SendError (Option ℕ)
follow_at z c now = elim c.draft.kind [
  | initial ↦
      if ltb 0 c.settings.max_followups
      then elim (followup_due_at z now c.settings none) [
        | none ↦ err no_window
        | some t ↦ ok (some t)
      ]
      else ok none
  | followup ↦ ok none
  | reply ↦ ok none
]

abbrev pub draft_sent : Candidate → Db → Db
draft_sent c db = record db {
  drafts =
      update_where (λ (d : Draft). d.id == c.draft.id)
        (λ (d : Draft). record d { status = DraftStatus.sent }) db.drafts;
}

abbrev pub auth_pause : ℕ → Mailbox → Candidate → List ℕ → Db → Db
auth_pause org_id mailbox c detail db =
    let reason = codes "SMTP authentication failed: " ++ take 200 detail in
    record_event
      (message_event org_id none (some c.lead.id) "mailbox.paused"
        (("reason", Value.chars reason) ∷ []))
      (save_mailbox (record mailbox { paused = true; pause_reason = some reason }) db)

-- Step 4, after the SMTP call.
unfoldable pub record_outcome :
    Zone
    → World
    → ℕ
    → Mailbox
    → Candidate
    → Message
    → SmtpReport
    → ℕ
    → Db
    → Result SendError (SendDecision × Db)
record_outcome z w org_id mailbox c m report now db = elim report.outcome [
  | delivered ↦ do
    due ← follow_at z c now
    (m', db') ← or_mark (mark_sent org_id m.id report.response due now db)
    ok (decision true (some m.id) c was_sent w.gap, draft_sent c db')
  | blocked ↦ do
    (m', db') ← or_mark (mark_failed org_id m.id report.detail db)
    db'' ← skip_lead org_id c report.detail now db'
    ok (decision false none c (was_blocked report.detail) second, db'')
  | rejected ↦ do
    (m', db') ← or_mark (mark_failed org_id m.id report.detail db)
    db'' ← bounce_lead org_id c report.detail now db'
    ok (decision false none c (was_rejected report.detail) (2 * second), db'')
  | auth_failed ↦ do
    (m', db') ← or_mark (mark_failed org_id m.id report.detail db)
    ok (
      decision false none c (has_failed report.detail) (5 * minute),
      auth_pause org_id mailbox c report.detail db',
    )
  | failed ↦ do
    (m', db') ← or_mark (mark_failed org_id m.id report.detail db)
    ok (decision false none c (has_failed report.detail) (30 * second), db')
]

-- The commit before the SMTP call, the call, and the commit after it; an exception between them
-- leaves what the first one wrote.
unfoldable pub hand_over : Zone → World → ℕ → Mailbox → Candidate → Message → ℕ → Db → Pass
hand_over z w org_id mailbox c m now db =
    let mailbox' = record mailbox { next_send_at = some (now + w.gap) } in
    let built = outgoing org_id mailbox c m db in
    let committed = save_mailbox mailbox' db in
    elim (record_outcome z w org_id mailbox' c m (w.smtp built) now committed) [
      | err e ↦ record { result = err e; db = committed; handed = some built }
      | ok r ↦ record { result = ok r.0; db = r.1; handed = some built }
    ]

unfoldable pub send_of : ℕ → Mailbox → Candidate → ℕ → Db → Send
send_of org_id mailbox c now db = record {
  org_id = org_id;
  lead_id = c.lead.id;
  kind = c.draft.kind;
  mailbox_id = some mailbox.id;
  draft_id = some c.draft.id;
  subject = some c.draft.subject;
  body_text = some c.draft.body;
  in_reply_to = (thread_headers c.lead.id c.draft.kind db).0;
  references = (thread_headers c.lead.id c.draft.kind db).1;
  now = now;
}

-- Step 2: what the claim answered.
unfoldable pub after_claim :
    Zone → World → ℕ → Mailbox → Candidate → ℕ → Db → Result ClaimError (ClaimResult × Db) → Pass
after_claim z w org_id mailbox c now db (err e) = record {
  result = err (claim_error e);
  db = db;
  handed = none;
}
after_claim z w org_id mailbox c now db (ok (refused r, db')) = record {
  result = ok (decision false none c (not_eligible r) (5 * second));
  db = db';
  handed = none;
}
after_claim z w org_id mailbox c now db (ok (claimed m, db')) =
    hand_over z w org_id mailbox c m now db'

unfoldable pub send_candidate : Zone → World → ℕ → Mailbox → Candidate → ℕ → Db → Pass
unfolding send_of
send_candidate z w org_id mailbox c now db = elim (w.login mailbox) [
  | some why ↦
      idle (needs_reconnecting why) (15 * minute)
        (save_mailbox (record mailbox { paused = true; pause_reason = some why }) db)
  | none ↦
      after_claim z w org_id mailbox c now db
        (claim_send w.hashed_email (send_of org_id mailbox c now db) w.message_id w.uuid db)
]

unfoldable pub send_first : Zone → World → ℕ → Mailbox → CampaignSettings → ℕ → Db → Pass
send_first z w org_id mailbox s now db = elim (find_candidates z org_id mailbox.id now db) [
  | c ∷ cs ↦ send_candidate z w org_id mailbox c now db
  | [] ↦
      if in_window z now s
      then idle nothing_ready (2 * minute) db
      else idle_until outside_window now (30 * second) (next_window_open z now s) db
]

abbrev pub paced : ℕ → Option ℕ → Option ℕ
paced now none = none
paced now (some t) = if ltb now t then some t else none

unfoldable pub send_one : Zone → World → ℕ → Mailbox → CampaignSettings → ℕ → Db → Pass
send_one z w org_id mailbox s now db = elim (find (λ (o : Org). o.id == org_id) db.orgs) [
  | none ↦ idle no_org (5 * minute) db
  | some org ↦
      let cap = effective_cap z mailbox s now in
      let used = sent_today z mailbox.id now db in
      if org.paused
      then idle org_paused (5 * minute) db
      else if mailbox.paused
      then idle (is_paused mailbox.pause_reason) (5 * minute) db
      else if remaining_capacity cap used == 0
      then idle_until (cap_reached used cap) now (10 * minute) (next_window_open z (now + day) s) db
      else elim (paced now mailbox.next_send_at) [
        | some t ↦ idle pacing (max (t - now) (5 * second)) db
        | none ↦ send_first z w org_id mailbox s now db
      ]
]
