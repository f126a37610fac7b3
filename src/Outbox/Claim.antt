-- ===== src/Outbox/Claim.antt =====
-- What a claim does (app/db/outbox.py, `claim_send`), and that a second one waits for the first.
use outreach_automation.Prelude.{
  ℕ, ◌+◌, count, length, length-append, Bool, true, false, ◌≡◌, refl, inl, inr, List, [], ◌∷◌, ◌++◌,
  some, any, ok, arith, Result-cases, Option-cases, sym, subst, ◌∙◌, ap,
}
use outreach_automation.Db.{Db, Lead, Mailbox, Message, MessageStatus, outbound, Value}
use outreach_automation.Db.Table.{find, find-holds}
use outreach_automation.Lead.Transition.{is_lead, lock_lead, save_lead, record_event}
use outreach_automation.Lead.Transition.Effect.{find-save_lead_self}
use outreach_automation.Sendable.{
  Refusal, kind_name, first_of, is_unresolved, is_outbound_to, why_not_sendable,
}
use outreach_automation.Outbox.{
  Send, has_key, assigned, new_message, header_of, message_event, next_sequence, claimed, refused,
  insert_message, sending_mailbox, after_checks, checked, claim_send,
}
use outreach_automation.Outbox.Refusals.{IsSendable, why_not_sendable_iff, sendable_settled}

-- The database with the mailbox written to the lead, and with the message and its event.
abbrev pub with_message : Send → Message → Lead → Db → Db
with_message s m lead db =
    record_event
      (message_event s.org_id (some lead.campaign_id) (some s.lead_id) "message.claimed"
        (("kind", Value.text (kind_name s.kind)) ∷ ("message_id", header_of m) ∷ []))
      (record db { messages = db.messages ++ m ∷ [] })

abbrev pub sequence_of : Send → Lead → Mailbox → Db → ℕ
sequence_of s lead mailbox db =
    next_sequence s.lead_id s.kind (save_lead (assigned mailbox.id lead) db)

pub record IsClaimed (hashed_email : List ℕ → List ℕ) (s : Send) (message_id : ℕ) (uuid : List ℕ)
    (db : Db) (m : Message) (db' : Db) : Type 0 where
  pub lead : Lead
  pub found : find (is_lead s.org_id s.lead_id) db.leads ≡ some lead
  pub sendable : IsSendable hashed_email s.org_id lead s.kind s.mailbox_id s.now db
  pub message :
      m
      ≡ new_message s message_id uuid
          (assigned sendable.mailbox.id lead)
          sendable.mailbox
          (sequence_of s lead sendable.mailbox db)
  pub new_key :
      any (has_key s.lead_id s.kind (sequence_of s lead sendable.mailbox db)) db.messages ≡ false
  pub saved :
      db'
      ≡ with_message s m
          (assigned sendable.mailbox.id lead)
          (save_lead (assigned sendable.mailbox.id lead) db)

-- What a claim leaves, as a reader of the tables sees it.
pub record HasClaimed (hashed_email : List ℕ → List ℕ) (s : Send) (db : Db) (m : Message) (db' : Db)
    : Type 0 where
  pub lead : Lead
  pub found : find (is_lead s.org_id s.lead_id) db.leads ≡ some lead
  pub sendable : IsSendable hashed_email s.org_id lead s.kind s.mailbox_id s.now db
  pub going_out : m.direction ≡ outbound
  pub in_flight : m.status ≡ MessageStatus.sending
  pub of_lead : m.lead_id ≡ some s.lead_id
  pub of_kind : m.kind ≡ s.kind
  pub addressed : m.to_addr ≡ some lead.email_norm
  pub sent_from : m.from_addr ≡ some sendable.mailbox.from_email
  pub by_mailbox : m.mailbox_id ≡ some sendable.mailbox.id
  pub of_draft : m.draft_id ≡ s.draft_id
  pub text : (m.subject ≡ s.subject) × (m.body_text ≡ s.body_text)
  pub keyed :
      m.idempotency_key
      ≡ some (s.lead_id, s.kind, count (is_outbound_to s.lead_id s.kind) db.messages + 1)
  pub new_key :
      any
        (has_key s.lead_id s.kind (count (is_outbound_to s.lead_id s.kind) db.messages + 1))
        db.messages
      ≡ false
  pub messages : db'.messages ≡ db.messages ++ m ∷ []
  pub lead_after :
      (l : Lead) × (find (is_lead s.org_id s.lead_id) db'.leads ≡ some l)
      × (l.state ≡ lead.state)
      × (l.mailbox_id ≡ first_of lead.mailbox_id (some sendable.mailbox.id))
  pub one_event : length db'.events ≡ length db.events + 1

any-append_true :
    (p : Message → Bool) (ms : List Message) (m : Message)
    → p m ≡ true
    → any p (ms ++ m ∷ []) ≡ true
any-append_true p [] m h = ground (arith, h)
any-append_true p (x ∷ xs) m h = ground (arith, any-append_true p xs m h)

module _ (hashed_email : List ℕ → List ℕ) (s : Send) (message_id : ℕ) (uuid : List ℕ)
    (db : Db) where
  pub sending_mailbox-mailbox :
      (lead : Lead) (i : IsSendable hashed_email s.org_id lead s.kind s.mailbox_id s.now db)
      → sending_mailbox s lead db ≡ some i.mailbox
  unfolding sending_mailbox
  sending_mailbox-mailbox lead i = ground (arith, i.has_campaign, i.named, i.has_mailbox)

  claimed_insert :
      (lead lead' : Lead) (sequence : ℕ) (saved : Db) (m n : Message) (db' : Db)
      → insert_message s n lead' sequence db saved ≡ ok (claimed m, db')
      → (m ≡ n)
        × (any (has_key s.lead_id s.kind sequence) saved.messages ≡ false)
        × (db' ≡ with_message s m lead' saved)
  unfolding insert_message
  claimed_insert lead lead' sequence saved m n db' h = ground (arith, h)

  after_checks_claimed :
      (lead : Lead) (m : Message) (db' : Db)
      (i : IsSendable hashed_email s.org_id lead s.kind s.mailbox_id s.now db)
      → find (is_lead s.org_id s.lead_id) db.leads ≡ some lead
      → after_checks s message_id uuid lead db ≡ ok (claimed m, db')
      → IsClaimed hashed_email s message_id uuid db m db'
  unfolding after_checks save_lead
  after_checks_claimed lead m db' i found h = record {
    lead = lead;
    found = found;
    sendable = i;
    message = parts.0;
    new_key = parts.1;
    saved = parts.2;
  }
    where
      lead' : Lead
      lead' = assigned i.mailbox.id lead

      n : Message
      n = new_message s message_id uuid lead' i.mailbox (sequence_of s lead i.mailbox db)

      inserted :
          insert_message s n lead' (sequence_of s lead i.mailbox db) db (save_lead lead' db)
          ≡ ok (claimed m, db')
      inserted = ground (arith, h, sending_mailbox-mailbox lead i)

      parts :
          (m ≡ n)
          × (any
                (has_key s.lead_id s.kind (sequence_of s lead i.mailbox db))
                (save_lead lead' db).messages
              ≡ false)
          × (db' ≡ with_message s m lead' (save_lead lead' db))
      parts =
          claimed_insert lead lead' (sequence_of s lead i.mailbox db) (save_lead lead' db) m n db'
            inserted

  pub claim_send-IsClaimed :
      (m : Message) (db' : Db)
      → claim_send hashed_email s message_id uuid db ≡ ok (claimed m, db')
      → IsClaimed hashed_email s message_id uuid db m db'
  unfolding claim_send lock_lead checked
  claim_send-IsClaimed m db' h = elim (Option-cases (find (is_lead s.org_id s.lead_id) db.leads)) [
    | inl missing ↦ absurd (ground (arith, h, missing))
    | inr (lead, found) ↦
        elim (Result-cases
          (why_not_sendable hashed_email s.org_id lead s.kind s.mailbox_id s.now db)) [
            | inl (r, refusal) ↦ absurd (ground (arith, h, found, refusal))
            | inr (done, sendable) ↦
                after_checks_claimed lead m db'
                  ((why_not_sendable_iff hashed_email s.org_id lead s.kind s.mailbox_id s.now db).0
                    sendable)
                  found (ground (arith, h, found, sendable))
          ]
  ]

  assigned-is_lead :
      (mailbox_id : ℕ) (lead : Lead) (org_id lead_id : ℕ)
      → is_lead org_id lead_id (assigned mailbox_id lead) ≡ is_lead org_id lead_id lead
  assigned-is_lead mailbox_id lead org_id lead_id = ground arith

  holds_lead :
      (m : Message) (db' : Db) (c : IsClaimed hashed_email s message_id uuid db m db')
      → is_lead s.org_id s.lead_id (assigned c.sendable.mailbox.id c.lead) ≡ true
  holds_lead m db' c =
      assigned-is_lead c.sendable.mailbox.id c.lead s.org_id s.lead_id
      ∙ find-holds (is_lead s.org_id s.lead_id) db.leads c.lead c.found

  -- After a claim the lead is as it was, but for the mailbox that it now has.
  pub found_after :
      (m : Message) (db' : Db) (c : IsClaimed hashed_email s message_id uuid db m db')
      → find (is_lead s.org_id s.lead_id) db'.leads ≡ some (assigned c.sendable.mailbox.id c.lead)
  unfolding record_event
  found_after m db' c =
      subst
        (λ (d : Db).
          find (is_lead s.org_id s.lead_id) d.leads ≡ some (assigned c.sendable.mailbox.id c.lead))
        (sym c.saved)
        (find-save_lead_self (assigned c.sendable.mailbox.id c.lead) c.lead s.org_id s.lead_id db
          c.found (holds_lead m db' c))

  messages_after :
      (m : Message) (db' : Db)
      → IsClaimed hashed_email s message_id uuid db m db'
      → db'.messages ≡ db.messages ++ m ∷ []
  unfolding record_event save_lead
  messages_after m db' c = ap (λ (d : Db). d.messages) c.saved

  -- A claim succeeds only for a lead that exists and is sendable. It adds one row, at the end: an
  -- outgoing `sending` e-mail of the caller's kind and text, from the mailbox that sends for the lead
  -- to the lead's own address, under the key that counts the lead's e-mails of that kind, which no
  -- row had; the lead keeps its state and has that mailbox, unless it had one; one event is added.
  pub claim_send_claimed :
      (m : Message) (db' : Db)
      → claim_send hashed_email s message_id uuid db ≡ ok (claimed m, db')
      → HasClaimed hashed_email s db m db'
  unfolding new_message next_sequence save_lead record_event
  claim_send_claimed m db' h = record {
    lead = c.lead;
    found = c.found;
    sendable = c.sendable;
    going_out = rw c.message refl;
    in_flight = rw c.message refl;
    of_lead = rw c.message refl;
    of_kind = rw c.message refl;
    addressed = rw c.message (ground arith);
    sent_from = rw c.message refl;
    by_mailbox = rw c.message refl;
    of_draft = rw c.message refl;
    text = (rw c.message refl, rw c.message refl);
    keyed = rw c.message refl;
    new_key = c.new_key;
    messages = messages_after m db' c;
    lead_after =
        (assigned c.sendable.mailbox.id c.lead, found_after m db' c, ground arith, ground arith);
    one_event = ap (λ (d : Db). length d.events) c.saved ∙ length-append db.events _;
  }
    where
      c : IsClaimed hashed_email s message_id uuid db m db'
      c = claim_send-IsClaimed m db' h

  unresolved_after :
      (m : Message) (db' : Db) (c : IsClaimed hashed_email s message_id uuid db m db')
      → any (is_unresolved (assigned c.sendable.mailbox.id c.lead).id s.kind) db'.messages ≡ true
  unfolding is_unresolved is_outbound_to new_message
  unresolved_after m db' c =
      subst (λ ms. any (is_unresolved (assigned c.sendable.mailbox.id c.lead).id s.kind) ms ≡ true)
        (sym (messages_after m db' c))
        (any-append_true (is_unresolved (assigned c.sendable.mailbox.id c.lead).id s.kind)
          db.messages m (ground (arith, c.message, holds_lead m db' c)))

pub claim_send-again :
    (hashed_email : List ℕ → List ℕ) (s t : Send) (message_id message_id' : ℕ) (uuid uuid' : List ℕ)
    (db db' later : Db) (m : Message)
    → claim_send hashed_email s message_id uuid db ≡ ok (claimed m, db')
    → t.org_id ≡ s.org_id
    → t.lead_id ≡ s.lead_id
    → t.kind ≡ s.kind
    → later.leads ≡ db'.leads
    → later.messages ≡ db'.messages
    → (r : Refusal) × (claim_send hashed_email t message_id' uuid' later ≡ ok (refused r, later))
unfolding claim_send lock_lead checked
claim_send-again hashed_email s t message_id message_id' uuid uuid' db db' later m h same_org
      same_lead same_kind same_leads same_messages =
    elim (Result-cases
      (why_not_sendable hashed_email t.org_id lead' t.kind t.mailbox_id t.now later)) [
        | inl (r, refusal) ↦ (r, ground (arith, found, refusal))
        | inr (done, sendable) ↦ absurd (
            ground (
              arith,
              unresolved,
              sendable_settled hashed_email t.org_id lead' t.kind t.mailbox_id t.now later sendable,
            ))
      ]
  where
    c : IsClaimed hashed_email s message_id uuid db m db'
    c = claim_send-IsClaimed hashed_email s message_id uuid db m db' h

    lead' : Lead
    lead' = assigned c.sendable.mailbox.id c.lead

    found : find (is_lead t.org_id t.lead_id) later.leads ≡ some lead'
    found =
        rw (same_leads, same_org, same_lead) (found_after hashed_email s message_id uuid db m db' c)

    unresolved : any (is_unresolved lead'.id t.kind) later.messages ≡ true
    unresolved =
        rw (same_messages, same_kind) (unresolved_after hashed_email s message_id uuid db m db' c)

-- On the database that a claim for a lead leaves, another claim of an e-mail of the same kind for
-- that lead, from whatever mailbox and at whatever time, is refused and changes nothing.
pub claim_send_once :
    (hashed_email : List ℕ → List ℕ) (s t : Send) (message_id message_id' : ℕ) (uuid uuid' : List ℕ)
    (db db' : Db) (m : Message)
    → claim_send hashed_email s message_id uuid db ≡ ok (claimed m, db')
    → t.org_id ≡ s.org_id
    → t.lead_id ≡ s.lead_id
    → t.kind ≡ s.kind
    → (r : Refusal) × (claim_send hashed_email t message_id' uuid' db' ≡ ok (refused r, db'))
claim_send_once hashed_email s t message_id message_id' uuid uuid' db db' m h same_org same_lead
      same_kind =
    claim_send-again hashed_email s t message_id message_id' uuid uuid' db db' db' m h same_org
      same_lead same_kind refl refl
