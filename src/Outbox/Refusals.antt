-- ===== src/Outbox/Refusals.antt =====
-- What it takes for an e-mail to be sendable (app/db/outbox.py, `why_not_sendable`).
use outreach_automation.Prelude.{
  ℕ, true, false, ◌≡◌, ◌⊎◌, inl, inr, ◌↔◌, List, Option, none, some, ◌==◌, any, ok, arith,
  Option-cases, sym, subst, ==_iff,
}
use outreach_automation.Lead.State.{is_in}
use outreach_automation.Db.{Db, Lead, Campaign, Mailbox, MessageKind, initial}
use outreach_automation.Db.Table.{find, find-holds}
use outreach_automation.Sendable.{
  first_of, valid_from, is_suppressed, already_in_touch, is_unresolved, why_not_sendable,
}

-- What holds of a lead that may be sent an e-mail of a kind.
pub record IsSendable (hashed_email : List ℕ → List ℕ) (org_id : ℕ) (lead : Lead)
    (kind : MessageKind) (mailbox_id : Option ℕ) (now : ℕ) (db : Db) : Type 0 where
  pub campaign : Campaign
  pub mailbox : Mailbox
  pub lead_runs : lead.paused ≡ false
  pub in_state : is_in lead.state (valid_from kind) ≡ true
  pub has_campaign : find (λ (c : Campaign). c.id == lead.campaign_id) db.campaigns ≡ some campaign
  pub campaign_runs : campaign.paused ≡ false
  pub named : first_of mailbox_id (first_of lead.mailbox_id campaign.mailbox_id) ≡ some mailbox.id
  pub has_mailbox : find (λ (b : Mailbox). b.id == mailbox.id) db.mailboxes ≡ some mailbox
  pub mailbox_runs : mailbox.paused ≡ false
  pub same_sender : (lead.mailbox_id ≡ none) ⊎ (lead.mailbox_id ≡ some mailbox.id)
  pub welcome : is_suppressed hashed_email org_id lead.email_norm db ≡ false
  pub untouched : kind ≡ initial → already_in_touch org_id lead now db ≡ none
  pub settled : any (is_unresolved lead.id kind) db.messages ≡ false

module _ (hashed_email : List ℕ → List ℕ) (org_id : ℕ) (lead : Lead) (kind : MessageKind)
    (mailbox_id : Option ℕ) (now : ℕ) (db : Db) where
  abbrev Sendable : Type 0
  Sendable = why_not_sendable hashed_email org_id lead kind mailbox_id now db ≡ ok tt

  pub sendable_settled : Sendable → any (is_unresolved lead.id kind) db.messages ≡ false
  unfolding why_not_sendable
  sendable_settled h = ground (arith, h)

  pub sendable_state :
      Sendable → (lead.paused ≡ false) × (is_in lead.state (valid_from kind) ≡ true)
  unfolding why_not_sendable
  sendable_state h = ground (arith, h)

  sendable_rows :
      (c : Campaign) (i : ℕ) (b : Mailbox)
      → find (λ (c : Campaign). c.id == lead.campaign_id) db.campaigns ≡ some c
      → first_of mailbox_id (first_of lead.mailbox_id c.mailbox_id) ≡ some i
      → find (λ (b : Mailbox). b.id == i) db.mailboxes ≡ some b
      → Sendable
      → IsSendable hashed_email org_id lead kind mailbox_id now db
  unfolding why_not_sendable
  sendable_rows c i b has_c named has_b h = record {
    campaign = c;
    mailbox = b;
    lead_runs = ground (arith, h);
    in_state = ground (arith, h);
    has_campaign = has_c;
    campaign_runs = ground (arith, h, has_c);
    named = ground (arith, named, id_same);
    has_mailbox =
        subst (λ j. find (λ (b : Mailbox). b.id == j) db.mailboxes ≡ some b) (sym id_same) has_b;
    mailbox_runs = ground (arith, h, has_c, named, has_b);
    same_sender = ground (arith, h, has_c, named, has_b, id_same);
    welcome = ground (arith, h);
    untouched = λ e. ground (arith, h, e);
    settled = sendable_settled h;
  }
    where
      id_same : b.id ≡ i
      id_same = (==_iff b.id i).0 (find-holds (λ (b : Mailbox). b.id == i) db.mailboxes b has_b)

  -- Nothing refuses an e-mail exactly if the lead runs and is in a state for it, its campaign and the
  -- mailbox are there and run, the mailbox is the one that wrote to the lead before, the address is
  -- not suppressed, a first e-mail goes to nobody the org is in touch with, and none is in flight.
  pub why_not_sendable_iff : Sendable ↔ IsSendable hashed_email org_id lead kind mailbox_id now db
  unfolding why_not_sendable
  why_not_sendable_iff = (
    λ h. elim (Option-cases (find (λ (c : Campaign). c.id == lead.campaign_id) db.campaigns)) [
      | inl no_c ↦ absurd (ground (arith, h, no_c))
      | inr (c, has_c) ↦
          elim (Option-cases (first_of mailbox_id (first_of lead.mailbox_id c.mailbox_id))) [
            | inl no_i ↦ absurd (ground (arith, h, has_c, no_i))
            | inr (i, named) ↦
                elim (Option-cases (find (λ (b : Mailbox). b.id == i) db.mailboxes)) [
                  | inl no_b ↦ absurd (ground (arith, h, has_c, named, no_b))
                  | inr (b, has_b) ↦ sendable_rows c i b has_c named has_b h
                ]
          ]
    ],
    λ s. ground (
      arith, s.lead_runs, s.in_state, s.has_campaign, s.campaign_runs, s.named, s.has_mailbox,
      s.mailbox_runs, s.same_sender, s.welcome, s.untouched, s.settled,
    ),
  )
