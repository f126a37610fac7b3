-- ===== src/Tests/Mail.antt =====
-- Runs of app/db/outbox.py, app/domain/reply.py and app/domain/outcome.py.
use outreach_automation.Prelude.{
  ℕ, ◌≡◌, ◌↔◌, ◌⊎◌, refl, Bool, true, false, List, [], ◌∷◌, none, some, String, codes, Result, ok,
  err,
}
use outreach_automation.Address.{same_text, is_space, strip, lower, drop_space, trim_end}
use outreach_automation.Lead.State.{approved, is_allowed}
use outreach_automation.Campaign.Status.{CampaignStatus}
use outreach_automation.Db.{Db, Draft, DraftStatus, Lead, Campaign, Mailbox, Message, initial}
use outreach_automation.Lead.Transition.{
  lock_lead, save_lead, record_event, assert_allowed, moved, state_changed, transition,
}
use outreach_automation.Sendable.{
  Refusal, is_outbound_to, is_sibling, is_recent, already_in_touch, is_suppressed, is_unresolved,
  why_not_sendable,
}
use outreach_automation.Sends.{
  locked_message, save_message, sent_message, after_send, send_move, mark_sent, mark_unknown,
}
use outreach_automation.Outbox.{
  Send, assigned, new_message, next_sequence, sending_mailbox, after_checks, checked, ClaimError,
  ClaimResult, claimed, refused, claim_send,
}
use outreach_automation.Outbox.Refusals.{IsSendable, why_not_sendable_iff}
use outreach_automation.Outbox.Progress.{KeysBelow, claim_send_succeeds}
use outreach_automation.Outbox.Claim.{HasClaimed, with_message, claim_send_claimed, claim_send_once}
use outreach_automation.Sends.Outcome.{mark_sent_bars}
use outreach_automation.Sends.Sent.{IsSent, mark_sent-IsSent}
use outreach_automation.Reply.{
  ReplyLabel, interested, opt_out, word_sub, squeeze, is_word, normalise, keyword_opt_out,
  keyword_match, first_phrase, is_part, reconcile,
}
use outreach_automation.Reply.Label.{reconcile_opt_out}
use outreach_automation.LeadOutcome.{hostile, outcome_for_label}

abbrev pub ada : Lead
ada = record {
  id = 7;
  org_id = 1;
  campaign_id = 3;
  email_norm = codes "ada@x.in";
  state = approved;
  state_changed_at = 0;
  followups_sent = 0;
  next_action_at = none;
  last_message_at = none;
  flags = [];
  paused = false;
  mailbox_id = none;
  created_at = 0;
}

abbrev pub spring : Campaign
spring = record {
  id = 3;
  org_id = 1;
  mailbox_id = some 2;
  status = CampaignStatus.running;
  settings = none;
  paused = false;
  starts_at = none;
  ends_at = none;
  persona = none;
  created_at = 0;
}

abbrev pub office : Mailbox
office = record {
  id = 2;
  org_id = 1;
  from_email = codes "me@y.in";
  paused = false;
  pause_reason = none;
  from_name = [];
  reply_to = none;
  daily_cap = 100;
  warmup_started_on = none;
  warmup_start = 20;
  warmup_step = 10;
  warmup_step_days = 2;
  next_send_at = none;
  created_at = 0;
}

abbrev pub start : Db
start = record {
  leads = ada ∷ [];
  events = [];
  campaigns = spring ∷ [];
  mailboxes = office ∷ [];
  messages = [];
  jobs = [];
  suppressions = [];
  drafts = [];
  researches = [];
  attachments = [];
  orgs = [];
  campaign_mailboxes = [];
}

abbrev first_letter : Draft
first_letter = record {
  id = 5;
  org_id = 1;
  lead_id = 7;
  kind = initial;
  version = 1;
  subject = codes "Hello";
  body = codes "Hi";
  claims = [];
  validation = record {
    attempts = 1;
    prompt_version = "draft.v1";
    claims_checked = false;
    passed = true;
    failures = [];
    warnings = [];
    rejected_attempts = [];
    human_edited = false;
  };
  status = DraftStatus.approved;
  feedback = none;
  prompt_version = none;
  attach = none;
  derived_from_id = none;
  created_by = none;
  approved_by = none;
  approved_at = some 90;
  created_at = 50;
}

abbrev mail_db : Db
mail_db = record start { drafts = first_letter ∷ [] }

abbrev pub first_mail : Send
first_mail = record {
  org_id = 1;
  lead_id = 7;
  kind = initial;
  mailbox_id = none;
  draft_id = some 5;
  subject = some (codes "Hello");
  body_text = some (codes "Hi");
  in_reply_to = none;
  references = none;
  now = 100;
}

-- The digest of no address matches.
pub no_digest : List ℕ → List ℕ
no_digest email = []

abbrev first_message : Message
first_message = new_message first_mail 11 (codes "u1") (assigned 2 ada) office 1

abbrev pub claimed_db : Db
claimed_db =
    with_message first_mail first_message (assigned 2 ada) (save_lead (assigned 2 ada) mail_db)

ada_sendable : why_not_sendable no_digest 1 ada initial none 100 mail_db ≡ ok tt
unfolding why_not_sendable is_suppressed already_in_touch same_text
ada_sendable = refl

why_not_sendable_iff_example :
    (why_not_sendable no_digest 1 ada initial none 100 mail_db ≡ ok tt)
    ↔ IsSendable no_digest 1 ada initial none 100 mail_db
why_not_sendable_iff_example = why_not_sendable_iff no_digest 1 ada initial none 100 mail_db

ada_claimed :
    claim_send no_digest first_mail 11 (codes "u1") mail_db ≡ ok (claimed first_message, claimed_db)
unfolding claim_send lock_lead checked why_not_sendable is_suppressed already_in_touch after_checks
    sending_mailbox next_sequence save_lead same_text
ada_claimed = refl

claim_send_claimed_example : HasClaimed no_digest first_mail mail_db first_message claimed_db
claim_send_claimed_example =
    claim_send_claimed no_digest first_mail 11 (codes "u1") mail_db first_message claimed_db
      ada_claimed

claim_send_once_example :
    (r : Refusal) × (claim_send no_digest first_mail 12 (codes "u2") claimed_db
      ≡ ok (refused r, claimed_db))
claim_send_once_example =
    claim_send_once no_digest first_mail first_mail 11 12 (codes "u1") (codes "u2") mail_db
      claimed_db first_message ada_claimed refl refl refl

abbrev sent_first : Message
sent_first = sent_message none 200 first_message

of_ada : sent_first.lead_id ≡ some 7
unfolding sent_message new_message
of_ada = refl

abbrev sent_db : Db
sent_db =
    save_lead (after_send initial 200 (moved (send_move 1 7 sent_first none 200) (assigned 2 ada)))
      (record_event (state_changed (send_move 1 7 sent_first none 200) (assigned 2 ada)) (
        save_lead (moved (send_move 1 7 sent_first none 200) (assigned 2 ada))
          (save_message sent_first claimed_db)))

ada_sent : mark_sent 1 11 none none 200 claimed_db ≡ ok (sent_first, sent_db)
unfolding mark_sent locked_message transition lock_lead assert_allowed is_allowed save_message
    save_lead record_event sent_message new_message send_move
ada_sent = refl

mark_sent-IsSent_example : IsSent 1 11 200 claimed_db sent_first sent_db
mark_sent-IsSent_example =
    mark_sent-IsSent 1 11 none none 200 claimed_db sent_first sent_db ada_sent

mark_sent_bars_example :
    (r : Refusal) × (claim_send no_digest first_mail 12 (codes "u2") sent_db
      ≡ ok (refused r, sent_db))
unfolding sent_message new_message
mark_sent_bars_example =
    mark_sent_bars no_digest 1 11 none none 200 claimed_db sent_db sent_first first_mail 12
      (codes "u2") ada_sent refl of_ada refl

-- The claim of a second message, after the first was marked unknown, is not refused.
abbrev after_unknown : Result ClaimError (ClaimResult × Db)
after_unknown = elim (mark_unknown 1 11 (codes "not found") claimed_db) [
  | ok (m, db) ↦ claim_send no_digest first_mail 12 (codes "u2") db
  | err e ↦ err ClaimError.integrity_error
]

abbrev is_claimed : Result ClaimError (ClaimResult × Db) → Bool
is_claimed (ok (claimed m, db)) = true
is_claimed _ = false

unknown_claimed_again : is_claimed after_unknown ≡ true
unfolding mark_unknown locked_message claim_send lock_lead checked why_not_sendable is_suppressed
    already_in_touch after_checks sending_mailbox next_sequence save_lead save_message record_event
    new_message same_text is_unresolved is_recent is_sibling is_outbound_to
unknown_claimed_again = refl

-- The phrases are found inside words: a kind reply is taken for a request to stop.
kind_reply_opts_out : keyword_opt_out (codes "Your email matches what we need.") ≡ some "mail mat"
unfolding keyword_opt_out keyword_match first_phrase is_part normalise word_sub squeeze is_word
    is_space strip lower drop_space trim_end
kind_reply_opts_out = refl

reconcile_opt_out_example :
    ((reconcile interested (codes "Stop emailing me") false false).0 ≡ opt_out) ↔ (
      (interested ≡ opt_out)
      ⊎ ((phrase : String) × (keyword_opt_out (codes "Stop emailing me") ≡ some phrase)))
reconcile_opt_out_example = reconcile_opt_out interested (codes "Stop emailing me")

hostile_label : outcome_for_label ReplyLabel.hostile ≡ some hostile
unfolding outcome_for_label
hostile_label = refl

no_keys : KeysBelow []
no_keys lead_id kind n h = refl

claim_send_succeeds_example :
    (m : Message) × (db' : Db) × (claim_send no_digest first_mail 11 (codes "u1") mail_db
      ≡ ok (claimed m, db'))
    × KeysBelow db'.messages
claim_send_succeeds_example =
    claim_send_succeeds no_digest first_mail 11 (codes "u1") mail_db ada
      ((why_not_sendable_iff no_digest 1 ada initial none 100 mail_db).0 ada_sendable) refl no_keys
      refl
