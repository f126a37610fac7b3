-- ===== src/Sends/Outcome.antt =====
-- How a send ends (app/db/outbox.py, `mark_sent`, `mark_failed`, `mark_unknown`).
use outreach_automation.Prelude.{
  ℕ, true, false, ◌≡◌, refl, inl, inr, List, Option, some, Result, ok, arith, some-eq, Result-cases,
  Option-cases, sym, subst, ◌∙◌, ap,
}
use outreach_automation.Lead.State.{is_in, is_allowed}
use outreach_automation.Db.{Db, Lead, Message, MessageKind, initial, followup, reply}
use outreach_automation.Db.Table.{find, update_where}
use outreach_automation.Lead.Transition.{
  StateError, is_lead, lock_lead, save_lead, record_event, Move, moved, transition,
}
use outreach_automation.Lead.Transition.Effect.{
  Done, transition-Done, find-save_lead_self, moved-is_lead,
}
use outreach_automation.Sendable.{Refusal, valid_from, why_not_sendable}
use outreach_automation.Sends.{
  is_message, locked_message, save_message, state_after, after_send, sent_message, send_move,
  mark_sent,
}
use outreach_automation.Outbox.{Send, refused, checked, claim_send}
use outreach_automation.Outbox.Refusals.{sendable_state}

-- The run of a recorded send.
pub record SendRun (org_id message_id : ℕ) (smtp_response : Option (List ℕ))
    (next_action_at : Option ℕ) (now : ℕ) (db : Db) (m : Message) (db' : Db) : Type 0 where
  pub old : Message
  pub lead_id : ℕ
  pub lead : Lead
  pub was : find (is_message org_id message_id) db.messages ≡ some old
  pub message : m ≡ sent_message smtp_response now old
  pub of_lead : m.lead_id ≡ some lead_id
  pub lead_was : find (is_lead org_id lead_id) db.leads ≡ some lead
  pub legal : is_allowed lead.state (state_after m.kind) ≡ true
  pub lead_is :
      find (is_lead org_id lead_id) db'.leads
      ≡ some (after_send m.kind now (moved (send_move org_id lead_id m next_action_at now) lead))
  pub messages : db'.messages ≡ update_where (is_message m.org_id m.id) (λ _. m) db.messages

module _ (org_id message_id : ℕ) (smtp_response : Option (List ℕ)) (next_action_at : Option ℕ)
    (now : ℕ) (db : Db) where
  transition-SendRun :
      (old m : Message) (lead_id : ℕ) (lead' : Lead) (db₁ db' : Db)
      → find (is_message org_id message_id) db.messages ≡ some old
      → m ≡ sent_message smtp_response now old
      → m.lead_id ≡ some lead_id
      → transition (send_move org_id lead_id m next_action_at now) (save_message m db)
        ≡ ok (lead', db₁)
      → db' ≡ save_lead (after_send m.kind now lead') db₁
      → SendRun org_id message_id smtp_response next_action_at now db m db'
  unfolding save_message send_move record_event save_lead
  transition-SendRun old m lead_id lead' db₁ db' was message of_lead h saved = record {
    old = old;
    lead_id = lead_id;
    lead = d.before;
    was = was;
    message = message;
    of_lead = of_lead;
    lead_was = d.was;
    legal = d.legal;
    lead_is = lead_is;
    messages = ap (λ (x : Db). x.messages) saved ∙ ap (λ (x : Db). x.messages) d.saved;
  }
    where
      d : Done (send_move org_id lead_id m next_action_at now) (save_message m db) lead' db₁
      d =
          transition-Done (send_move org_id lead_id m next_action_at now) (save_message m db) lead'
            db₁ h

      move : Move
      move = send_move org_id lead_id m next_action_at now

      holds : is_lead org_id lead_id lead' ≡ true
      holds =
          subst (λ (l : Lead). is_lead org_id lead_id l ≡ true) (sym d.after)
            (moved-is_lead move d.before (save_message m db) d.was)

      found : find (is_lead org_id lead_id) db₁.leads ≡ some lead'
      found =
          subst (λ (x : Db). find (is_lead org_id lead_id) x.leads ≡ some lead') (sym d.saved)
            (find-save_lead_self lead' d.before org_id lead_id (save_message m db) d.was holds)

      lead_is :
          find (is_lead org_id lead_id) db'.leads
          ≡ some (after_send m.kind now (moved move d.before))
      lead_is =
          subst
            (λ (x : Db).
              find (is_lead org_id lead_id) x.leads
              ≡ some (after_send m.kind now (moved move d.before)))
            (sym saved)
            (subst
              (λ (l : Lead).
                find (is_lead org_id lead_id) (save_lead (after_send m.kind now lead') db₁).leads
                ≡ some (after_send m.kind now l))
              d.after
              (find-save_lead_self (after_send m.kind now lead') lead' org_id lead_id db₁ found
                holds))

  moved_lead : Message → ℕ → Result StateError (Lead × Db)
  moved_lead old lead_id =
      transition (send_move org_id lead_id (sent_message smtp_response now old) next_action_at now)
        (save_message (sent_message smtp_response now old) db)

  SendRun-by :
      (old : Message) (lead_id : ℕ) (lead' : Lead) (db₁ : Db) (m : Message) (db' : Db)
      → find (is_message org_id message_id) db.messages ≡ some old
      → (sent_message smtp_response now old).lead_id ≡ some lead_id
      → moved_lead old lead_id ≡ ok (lead', db₁)
      → (m ≡ sent_message smtp_response now old)
        × (db' ≡ save_lead (after_send (sent_message smtp_response now old).kind now lead') db₁)
      → SendRun org_id message_id smtp_response next_action_at now db m db'
  unfolding moved_lead
  SendRun-by old lead_id lead' db₁ m db' was of_lead done (message, saved) =
      subst (λ n. SendRun org_id message_id smtp_response next_action_at now db n db') (sym message)
        (transition-SendRun old (sent_message smtp_response now old) lead_id lead' db₁ db' was refl
          of_lead done saved)

  pub mark_sent-run :
      (m : Message) (db' : Db)
      → mark_sent org_id message_id smtp_response next_action_at now db ≡ ok (m, db')
      → SendRun org_id message_id smtp_response next_action_at now db m db'
  unfolding mark_sent locked_message moved_lead
  mark_sent-run m db' h = elim (Option-cases (find (is_message org_id message_id) db.messages)) [
    | inl missing ↦ absurd (ground (arith, h, missing))
    | inr (old, was) ↦ elim (Option-cases (sent_message smtp_response now old).lead_id) [
      | inl no_lead ↦ absurd (ground (arith, h, was, no_lead))
      | inr (lead_id, of_lead) ↦ elim (Result-cases (moved_lead old lead_id)) [
        | inl (e, refusal) ↦ absurd (ground (arith, h, was, of_lead, refusal))
        | inr ((lead', db₁), done) ↦
            SendRun-by old lead_id lead' db₁ m db' was of_lead done
              (ground (arith, h, was, of_lead, done))
      ]
    ]
  ]

state_after-not_valid : (kind : MessageKind) → is_in (state_after kind) (valid_from kind) ≡ false
state_after-not_valid initial = refl
state_after-not_valid followup = refl
state_after-not_valid reply = refl

-- On the database in which a send was recorded, an e-mail of the same kind to that lead is not
-- claimed again: the claim is refused and changes nothing.
pub mark_sent_bars :
    (hashed_email : List ℕ → List ℕ) (org_id message_id : ℕ) (smtp_response : Option (List ℕ))
    (next_action_at : Option ℕ) (now : ℕ) (db db' : Db) (m : Message) (t : Send) (message_id' : ℕ)
    (uuid : List ℕ)
    → mark_sent org_id message_id smtp_response next_action_at now db ≡ ok (m, db')
    → t.org_id ≡ org_id
    → m.lead_id ≡ some t.lead_id
    → t.kind ≡ m.kind
    → (r : Refusal) × (claim_send hashed_email t message_id' uuid db' ≡ ok (refused r, db'))
unfolding claim_send lock_lead checked moved send_move
mark_sent_bars hashed_email org_id message_id smtp_response next_action_at now db db' m t
      message_id' uuid h same_org same_lead same_kind =
    elim (Result-cases
      (why_not_sendable hashed_email t.org_id lead' t.kind t.mailbox_id t.now db')) [
        | inl (r, refusal) ↦ (r, ground (arith, found, refusal))
        | inr (done, sendable) ↦ absurd (
            ground (
              arith,
              barred,
              sendable_state hashed_email t.org_id lead' t.kind t.mailbox_id t.now db' sendable,
            ))
      ]
  where
    s : SendRun org_id message_id smtp_response next_action_at now db m db'
    s = mark_sent-run org_id message_id smtp_response next_action_at now db m db' h

    lead' : Lead
    lead' = after_send m.kind now (moved (send_move org_id s.lead_id m next_action_at now) s.lead)

    found : find (is_lead t.org_id t.lead_id) db'.leads ≡ some lead'
    found = rw (same_org, some-eq (sym same_lead ∙ s.of_lead)) s.lead_is

    barred : is_in lead'.state (valid_from t.kind) ≡ false
    barred = rw same_kind (state_after-not_valid m.kind)
