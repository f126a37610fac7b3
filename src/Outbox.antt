-- ===== src/Outbox.antt =====
-- app/db/outbox.py: claiming the right to send one e-mail.
pub mod Claim
pub mod Refusals
pub mod Progress
use outreach_automation.Prelude.{
  ℕ, ◌+◌, ◌*◌, Bool, true, false, not, ◌&&◌, List, [], ◌∷◌, ◌++◌, Option, none, some, String, codes,
  ltb, ◌==◌, if◌then◌else◌, any, count, select, sort_by, take, Result, ok, err, ◌>>=◌, ◌>>◌,
}
use outreach_automation.Time.{minute}
use outreach_automation.Address.{after_at, or_localhost}
use outreach_automation.Lead.State.{LeadState}
use outreach_automation.Db.{
  Db, Draft, Lead, Campaign, Mailbox, Message, MessageKind, initial, followup, reply, MessageStatus,
  Direction, outbound, Event, Actor, Value,
}
use outreach_automation.Db.Table.{find, update_where}
use outreach_automation.Lead.Transition.{
  StateError, lock_lead, save_lead, record_event, Move, transition,
}
use outreach_automation.Sendable.{
  kind_index, kind_name, is_outbound, is_sending, first_of, is_outbound_to, Refusal,
  mailbox_missing, already_claimed, why_not_sendable,
}

build_message_id : List ℕ → List ℕ → List ℕ
build_message_id uuid from_email =
    codes "<" ++ uuid ++ codes "@" ++ or_localhost (after_at from_email) ++ codes ">"

unfoldable pub next_sequence : ℕ → MessageKind → Db → ℕ
unfolding is_outbound_to
next_sequence lead_id kind db = count (is_outbound_to lead_id kind) db.messages + 1

-- What a caller of `claim_send` passes besides the ids.
pub record Send : Type 0 where
  pub org_id : ℕ
  pub lead_id : ℕ
  pub kind : MessageKind
  pub mailbox_id : Option ℕ
  pub draft_id : Option ℕ
  pub subject : Option (List ℕ)
  pub body_text : Option (List ℕ)
  pub in_reply_to : Option (List ℕ)
  pub references : Option (List ℕ)
  pub now : ℕ

-- The text of the idempotency key, `lead_id:kind:sequence`, is unique in the table.
abbrev pub has_key : ℕ → MessageKind → ℕ → Message → Bool
has_key lead_id kind sequence m = elim m.idempotency_key [
  | none ↦ false
  | some (l, k, n) ↦ (l == lead_id) && (kind_index k == kind_index kind) && (n == sequence)
]

-- The mailbox is written to a lead that has none.
abbrev pub assigned : ℕ → Lead → Lead
assigned mailbox_id lead = elim lead.mailbox_id [
  | none ↦ record lead { mailbox_id = some mailbox_id }
  | some _ ↦ lead
]

unfoldable pub new_message : Send → ℕ → List ℕ → Lead → Mailbox → ℕ → Message
unfolding build_message_id
new_message s message_id uuid lead mailbox sequence = record {
  id = message_id;
  org_id = s.org_id;
  lead_id = some s.lead_id;
  mailbox_id = some mailbox.id;
  draft_id = s.draft_id;
  direction = outbound;
  kind = s.kind;
  message_id_hdr = some (build_message_id uuid mailbox.from_email);
  in_reply_to = s.in_reply_to;
  references_hdr = s.references;
  subject = s.subject;
  body_text = s.body_text;
  from_addr = some mailbox.from_email;
  to_addr = some lead.email_norm;
  status = MessageStatus.sending;
  idempotency_key = some (s.lead_id, s.kind, sequence);
  smtp_response = none;
  sent_at = none;
  received_at = none;
  created_at = s.now;
}

abbrev pub header_of : Message → Value
header_of m = elim m.message_id_hdr [ none ↦ Value.chars [] | some t ↦ Value.chars t ]

abbrev pub message_event : ℕ → Option ℕ → Option ℕ → String → List (String × Value) → Event
message_event org_id campaign_id lead_id type data_ = record {
  org_id = org_id;
  campaign_id = campaign_id;
  lead_id = lead_id;
  actor = Actor.system;
  actor_id = none;
  type = type;
  from_state = none;
  to_state = none;
  data_ = data_;
}

pub data ClaimResult : Type 0 where
  claimed : Message → ClaimResult
  refused : Refusal → ClaimResult

-- What `claim_send` raises: the lead is not there, or the database refuses the row for another reason
-- than the unique key.
pub data ClaimError : Type 0 where
  lead_error : StateError → ClaimError
  integrity_error : ClaimError

abbrev pub or_lead : {A : Type 0} → Result StateError A → Result ClaimError A
or_lead (ok a) = ok a
or_lead (err e) = err (lead_error e)

-- The foreign key on `draft_id`. The message's other foreign keys are those of rows that were read.
abbrev pub has_draft : Option ℕ → Db → Bool
has_draft none db = true
has_draft (some i) db = any (λ (d : Draft). d.id == i) db.drafts

-- The insert: the unique key refuses it and everything is rolled back, another constraint raises, or
-- it is done. PostgreSQL tests the unique key with the row and the foreign keys after the statement.
pub insert_message : Send → Message → Lead → ℕ → Db → Db → Result ClaimError (ClaimResult × Db)
insert_message s message lead sequence before db =
    if any (has_key s.lead_id s.kind sequence) db.messages
    then ok (refused already_claimed, before)
    else if not (has_draft s.draft_id db)
    then err integrity_error
    else ok (
      claimed message,
      record_event
          (message_event s.org_id (some lead.campaign_id) (some s.lead_id) "message.claimed"
            (("kind", Value.text (kind_name s.kind)) ∷ ("message_id", header_of message) ∷ []))
          (record db { messages = db.messages ++ message ∷ [] }),
    )

-- The mailbox that the caller, the lead or the campaign names.
unfoldable pub sending_mailbox : Send → Lead → Db → Option Mailbox
sending_mailbox s lead db = elim (find (λ (c : Campaign). c.id == lead.campaign_id) db.campaigns) [
  | none ↦ none
  | some campaign ↦ elim (first_of s.mailbox_id (first_of lead.mailbox_id campaign.mailbox_id)) [
    | none ↦ none
    | some b ↦ find (λ (m : Mailbox). m.id == b) db.mailboxes
  ]
]

-- `after_checks lead` is the rest of `claim_send` once nothing refuses. Where the source asserts
-- that a row exists the model names the reason that would have been given.
unfoldable pub after_checks : Send → ℕ → List ℕ → Lead → Db → Result ClaimError (ClaimResult × Db)
unfolding insert_message
after_checks s message_id uuid lead db = elim (sending_mailbox s lead db) [
  | none ↦ ok (refused mailbox_missing, db)
  | some mailbox ↦
      let lead' = assigned mailbox.id lead in
      let saved = save_lead lead' db in
      let sequence = next_sequence s.lead_id s.kind saved in
      insert_message s (new_message s message_id uuid lead' mailbox sequence) lead' sequence db
        saved
]

unfoldable pub checked :
    Send → ℕ → List ℕ → Lead → Db → Result Refusal (Unit {0}) → Result ClaimError (ClaimResult × Db)
checked s message_id uuid lead db (err r) = ok (refused r, db)
checked s message_id uuid lead db (ok tt) = after_checks s message_id uuid lead db

unfoldable pub claim_send :
    (List ℕ → List ℕ) → Send → ℕ → List ℕ → Db → Result ClaimError (ClaimResult × Db)
unfolding checked
claim_send hashed_email s message_id uuid db = do
  lead ← or_lead (lock_lead s.org_id s.lead_id db)
  checked s message_id uuid lead db
      (why_not_sendable hashed_email s.org_id lead s.kind s.mailbox_id s.now db)
