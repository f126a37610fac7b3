-- ===== src/Sends.antt =====
-- app/db/outbox.py: recording how a send ended.
pub mod Outcome
pub mod Sent
use outreach_automation.Prelude.{
  ℕ, ◌+◌, ◌*◌, Bool, true, false, ◌&&◌, List, [], ◌∷◌, ◌++◌, Option, none, some, String, codes, ltb,
  ◌==◌, if◌then◌else◌, any, count, select, sort_by, take, Result, ok, err, ◌>>=◌, ◌>>◌,
}
use outreach_automation.Time.{minute}
use outreach_automation.Address.{after_at, or_localhost}
use outreach_automation.Lead.State.{LeadState}
use outreach_automation.Db.{
  Db, Lead, Campaign, Mailbox, Message, MessageKind, initial, followup, reply, MessageStatus,
  Direction, outbound, Event, Actor, Value,
}
use outreach_automation.Db.Table.{find, update_where}
use outreach_automation.Lead.Transition.{
  StateError, lock_lead, save_lead, record_event, Move, transition,
}
use outreach_automation.Sendable.{
  kind_index, kind_name, is_outbound, is_sending, first_of, is_outbound_to, Refusal,
  mailbox_missing, already_claimed, why_not_sendable,
}
use outreach_automation.Outbox.{header_of, message_event}

abbrev pub stuck_after : ℕ
stuck_after = 10 * minute

pub data MarkError : Type 0 where
  message_not_found : ℕ → MarkError
  no_lead : ℕ → MarkError
  state_error : StateError → MarkError

-- `_locked_message`.
abbrev pub is_message : ℕ → ℕ → Message → Bool
is_message org_id message_id m = (m.id == message_id) && (m.org_id == org_id)

unfoldable pub locked_message : ℕ → ℕ → Db → Result MarkError Message
locked_message org_id message_id db = elim (find (is_message org_id message_id) db.messages) [
  | none ↦ err (message_not_found message_id)
  | some m ↦ ok m
]

unfoldable pub save_message : Message → Db → Db
save_message m db = record db {
  messages = update_where (is_message m.org_id m.id) (λ _. m) db.messages;
}

-- `(text or "")[:1000] or None`.
shortened : Option (List ℕ) → Option (List ℕ)
shortened none = none
shortened (some []) = none
shortened (some (c ∷ cs)) = some (take 1000 (c ∷ cs))

abbrev pub state_after : MessageKind → LeadState
state_after initial = LeadState.sent
state_after followup = LeadState.followup_sent
state_after reply = LeadState.in_conversation

abbrev pub is_followup : MessageKind → Bool
is_followup followup = true
is_followup _ = false

unfoldable pub sent_message : Option (List ℕ) → ℕ → Message → Message
unfolding shortened
sent_message smtp_response now m = record m {
  status = MessageStatus.sent;
  smtp_response = shortened smtp_response;
  sent_at = some now;
}

abbrev pub after_send : MessageKind → ℕ → Lead → Lead
after_send kind now l = record l {
  last_message_at = some now;
  followups_sent = if is_followup kind then l.followups_sent + 1 else l.followups_sent;
}

abbrev pub or_raise : {A : Type 0} → Result StateError A → Result MarkError A
or_raise (ok a) = ok a
or_raise (err e) = err (state_error e)

abbrev pub lead_of : Message → Result MarkError ℕ
lead_of m = elim m.lead_id [ none ↦ err (no_lead m.id) | some l ↦ ok l ]

unfoldable pub send_move : ℕ → ℕ → Message → Option ℕ → ℕ → Move
send_move org_id lead_id message next_action_at now = record {
  org_id = org_id;
  lead_id = lead_id;
  to_state = state_after message.kind;
  actor = Actor.system;
  actor_id = none;
  data_ = ("kind", Value.text (kind_name message.kind)) ∷ ("message_id", header_of message) ∷ [];
  next_action_at = next_action_at;
  clear_next_action = false;
  flags_add = [];
  flags_remove = [];
  now = now;
}

unfoldable pub mark_sent :
    ℕ → ℕ → Option (List ℕ) → Option ℕ → ℕ → Db → Result MarkError (Message × Db)
mark_sent org_id message_id smtp_response next_action_at now db = do
  found ← locked_message org_id message_id db
  let message = sent_message smtp_response now found
  lead_id ← lead_of message
  (lead, db') ←
      or_raise
        (transition (send_move org_id lead_id message next_action_at now) (save_message message db))
  ok (message, save_lead (after_send message.kind now lead) db')

unfoldable pub mark_failed : ℕ → ℕ → List ℕ → Db → Result MarkError (Message × Db)
mark_failed org_id message_id error db = do
  found ← locked_message org_id message_id db
  let message = record found {
    status = MessageStatus.failed;
    smtp_response = some (take 1000 error);
  }
  ok (
    message,
    record_event
        (message_event org_id none message.lead_id "message.failed" (
          ("kind", Value.text (kind_name message.kind))
          ∷ ("error", Value.chars (take 500 error))
          ∷ []))
        (save_message message db),
  )

unfoldable pub mark_unknown : ℕ → ℕ → List ℕ → Db → Result MarkError (Message × Db)
mark_unknown org_id message_id note db = do
  found ← locked_message org_id message_id db
  let message = record found {
    status = MessageStatus.unknown;
    smtp_response = some (take 1000 note);
  }
  ok (
    message,
    record_event
        (message_event org_id none message.lead_id "message.unknown" (
          ("kind", Value.text (kind_name message.kind))
          ∷ ("note", Value.chars (take 500 note))
          ∷ ("needs_human", Value.flag true)
          ∷ []))
        (save_message message db),
  )

abbrev pub of_org : Option ℕ → ℕ → Bool
of_org none org_id = true
of_org (some o) org_id = org_id == o

unfoldable pub find_stuck_sending : Option ℕ → ℕ → ℕ → Db → List Message
find_stuck_sending org_id older_than now db =
    sort_by (λ (m n : Message). ltb m.created_at n.created_at)
      (select
        (λ (m : Message).
          is_outbound m.direction
          && is_sending m.status
          && ltb (m.created_at + older_than) now
          && of_org org_id m.org_id)
        db.messages)
