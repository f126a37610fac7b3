-- ===== src/Sends/Sent.antt =====
-- What recording a send leaves of the message and of its lead (app/db/outbox.py, `mark_sent`).
use outreach_automation.Prelude.{
  ℕ, ◌+◌, ◌≡◌, true, refl, sym, ap, subst, ◌∙◌, List, Option, some, arith, ok,
}
use outreach_automation.Lead.State.{LeadState, is_allowed}
use outreach_automation.Db.{Db, Lead, Message, MessageKind, MessageStatus, initial, followup, reply}
use outreach_automation.Db.Table.{find, update_where, find-update_self, find-holds}
use outreach_automation.Lead.Transition.{is_lead, moved}
use outreach_automation.Sends.{
  is_message, state_after, after_send, sent_message, send_move, mark_sent,
}
use outreach_automation.Sends.Outcome.{SendRun, mark_sent-run}

-- The state of a lead that an e-mail of a kind went to, and by how much its follow-ups grow.
abbrev pub state_of_kind : MessageKind → LeadState
state_of_kind initial = LeadState.sent
state_of_kind followup = LeadState.followup_sent
state_of_kind reply = LeadState.in_conversation

abbrev pub one_if_followup : MessageKind → ℕ
one_if_followup initial = 0
one_if_followup followup = 1
one_if_followup reply = 0

-- The message is sent, at that time and else as it was, and its lead has moved on.
pub record IsSent (org_id message_id now : ℕ) (db : Db) (m : Message) (db' : Db) : Type 0 where
  pub old : Message
  pub lead_id : ℕ
  pub lead : Lead
  pub after : Lead
  pub was : find (is_message org_id message_id) db.messages ≡ some old
  pub same_mail :
      (m.id ≡ old.id)
      × (m.org_id ≡ old.org_id)
      × (m.kind ≡ old.kind)
      × (m.to_addr ≡ old.to_addr)
      × (m.subject ≡ old.subject)
      × (m.body_text ≡ old.body_text)
  pub status : m.status ≡ MessageStatus.sent
  pub at : m.sent_at ≡ some now
  pub stored : find (is_message org_id message_id) db'.messages ≡ some m
  pub of_lead : m.lead_id ≡ some lead_id
  pub lead_was : find (is_lead org_id lead_id) db.leads ≡ some lead
  pub lead_is : find (is_lead org_id lead_id) db'.leads ≡ some after
  pub state : after.state ≡ state_of_kind m.kind
  pub legal : is_allowed lead.state after.state ≡ true
  pub touched : after.last_message_at ≡ some now
  pub counted : after.followups_sent ≡ lead.followups_sent + one_if_followup m.kind

state_after-kind : (k : MessageKind) → state_after k ≡ state_of_kind k
state_after-kind initial = refl
state_after-kind followup = refl
state_after-kind reply = refl

after_send-counted :
    (k : MessageKind) (now : ℕ) (l : Lead)
    → (after_send k now l).followups_sent ≡ l.followups_sent + one_if_followup k
after_send-counted initial now l = ground arith
after_send-counted followup now l = refl
after_send-counted reply now l = ground arith

-- A row that is rewritten to one with its own ids is found as rewritten.
stored_row :
    (org_id message_id : ℕ) (old m : Message) (ms : List Message)
    → find (is_message org_id message_id) ms ≡ some old
    → m.id ≡ old.id
    → m.org_id ≡ old.org_id
    → find (is_message org_id message_id) (update_where (is_message m.org_id m.id) (λ _. m) ms)
      ≡ some m
stored_row org_id message_id old m ms found same_id same_org =
    subst (λ (o : ℕ). Stored o m.id) (sym (ground (arith, own)))
      (subst (λ (i : ℕ). Stored org_id i) (sym (ground (arith, own)))
        (find-update_self (is_message org_id message_id) ms old m found own))
  where
    Stored : ℕ → ℕ → Type 0
    Stored o i =
        find (is_message org_id message_id) (update_where (is_message o i) (λ _. m) ms) ≡ some m

    own : is_message org_id message_id m ≡ true
    own = ground (arith, find-holds (is_message org_id message_id) ms old found, same_id, same_org)

-- A send that is recorded is that of a message of the org, whose lead may move. The message stands in
-- the table as sent at that time, with its address and its text as they were; its lead is in the
-- state that the kind of e-mail leads to, `sent`, `followup_sent` or `in_conversation`, with the time
-- as that of its last message, and with one more follow-up counted for a follow-up and none else.
pub mark_sent-IsSent :
    (org_id message_id : ℕ) (smtp_response : Option (List ℕ)) (next_action_at : Option ℕ) (now : ℕ)
    (db : Db) (m : Message) (db' : Db)
    → mark_sent org_id message_id smtp_response next_action_at now db ≡ ok (m, db')
    → IsSent org_id message_id now db m db'
unfolding sent_message moved send_move
mark_sent-IsSent org_id message_id smtp_response next_action_at now db m db' h = record {
  old = run.old;
  lead_id = run.lead_id;
  lead = run.lead;
  after = after;
  was = run.was;
  same_mail = (
    ap (λ (x : Message). x.id) run.message,
    ap (λ (x : Message). x.org_id) run.message,
    ap (λ (x : Message). x.kind) run.message,
    ap (λ (x : Message). x.to_addr) run.message,
    ap (λ (x : Message). x.subject) run.message,
    ap (λ (x : Message). x.body_text) run.message,
  );
  status = ap (λ (x : Message). x.status) run.message;
  at = ap (λ (x : Message). x.sent_at) run.message;
  stored =
      ap (find (is_message org_id message_id)) run.messages
      ∙ stored_row org_id message_id run.old m db.messages run.was
          (ap (λ (x : Message). x.id) run.message) (ap (λ (x : Message). x.org_id) run.message);
  of_lead = run.of_lead;
  lead_was = run.lead_was;
  lead_is = run.lead_is;
  state = state_after-kind m.kind;
  legal = run.legal;
  touched = refl;
  counted = after_send-counted m.kind now run.lead;
}
  where
    run : SendRun org_id message_id smtp_response next_action_at now db m db'
    run = mark_sent-run org_id message_id smtp_response next_action_at now db m db' h

    after : Lead
    after =
        after_send m.kind now (moved (send_move org_id run.lead_id m next_action_at now) run.lead)
