-- ===== src/Outbox/Progress.antt =====
-- A claim of a sendable e-mail succeeds (app/db/outbox.py): idempotency keys count the messages of a
-- lead, so that the next one is free.
use outreach_automation.Prelude.{
  ℕ, ◌+◌, ◌<◌, ◌≡◌, refl, Bool, true, false, ◌&&◌, ◌||◌, inl, inr, List, [], ◌∷◌, ◌++◌, Option,
  none, some, ◌==◌, any, count, count-append, ok, arith, Bool-cases,
}
use outreach_automation.Db.{Db, Lead, Message, MessageKind}
use outreach_automation.Db.Table.{find}
use outreach_automation.Lead.Transition.{is_lead, lock_lead, save_lead, record_event}
use outreach_automation.Sendable.{kind_index, is_outbound_to}
use outreach_automation.Outbox.{
  Send, has_key, assigned, new_message, next_sequence, claimed, has_draft, insert_message,
  after_checks, checked, claim_send,
}
use outreach_automation.Outbox.Refusals.{IsSendable, why_not_sendable_iff}
use outreach_automation.Outbox.Claim.{with_message, sequence_of, sending_mailbox-mailbox}

-- No key of a lead and a kind is above the number of their outbound messages.
abbrev pub KeysBelow : List Message → Type 0
KeysBelow ms =
    (lead_id : ℕ) (kind : MessageKind) (n : ℕ)
    → count (is_outbound_to lead_id kind) ms < n
    → any (has_key lead_id kind n) ms ≡ false

any-append :
    (p : Message → Bool) (ms : List Message) (m : Message)
    → any p (ms ++ m ∷ []) ≡ (any p ms || p m)
any-append p [] m = ground arith
any-append p (x ∷ xs) m = ground (arith, any-append p xs m)

same_count :
    (i l : ℕ) (j k : MessageKind) (ms : List Message)
    → i ≡ l
    → kind_index j ≡ kind_index k
    → count (is_outbound_to i j) ms ≡ count (is_outbound_to l k) ms
unfolding is_outbound_to
same_count i l j k [] e f = refl
same_count i l j k (m ∷ ms) e f = ground (arith, e, f, same_count i l j k ms e f)

-- A message to lead `i` of kind `j` under the next key keeps the keys below the counts.
append-KeysBelow :
    (i : ℕ) (j : MessageKind) (ms : List Message) (m : Message)
    → ((l : ℕ) (k : MessageKind)
        → is_outbound_to l k m ≡ ((i == l) && (kind_index j == kind_index k)))
    → ((l : ℕ) (k : MessageKind) (n : ℕ)
        → has_key l k n m ≡ (
            (i == l) && (kind_index j == kind_index k) && (count (is_outbound_to i j) ms + 1 == n)))
    → KeysBelow ms
    → KeysBelow (ms ++ m ∷ [])
append-KeysBelow i j ms m counted keyed keys l k n h =
    elim (Bool-cases ((i == l) && (kind_index j == kind_index k))) [
      | inl same ↦ ground (
        arith,
        same,
        h,
        counted l k,
        keyed l k n,
        any-append (has_key l k n) ms m,
        keys l k n,
        count-append (is_outbound_to l k) ms (m ∷ []),
        same_count i l j k ms (ground (arith, same)) (ground (arith, same)),
      )
      | inr other ↦ ground (
        arith,
        other,
        h,
        counted l k,
        keyed l k n,
        any-append (has_key l k n) ms m,
        keys l k n,
        count-append (is_outbound_to l k) ms (m ∷ []),
      )
    ]

module _ (hashed_email : List ℕ → List ℕ) (s : Send) (message_id : ℕ) (uuid : List ℕ) (db : Db)
    (lead : Lead)
    (sendable : IsSendable hashed_email s.org_id lead s.kind s.mailbox_id s.now db) where
  lead' : Lead
  lead' = assigned sendable.mailbox.id lead

  claim_message : Message
  claim_message =
      new_message s message_id uuid lead' sendable.mailbox (sequence_of s lead sendable.mailbox db)

  claim_db : Db
  claim_db = with_message s claim_message lead' (save_lead lead' db)

  key_free :
      KeysBelow db.messages
      → any (has_key s.lead_id s.kind (sequence_of s lead sendable.mailbox db)) db.messages ≡ false
  unfolding next_sequence save_lead
  key_free keys =
      keys s.lead_id s.kind (count (is_outbound_to s.lead_id s.kind) db.messages + 1) (omega arith)

  keys_kept : KeysBelow db.messages → KeysBelow claim_db.messages
  unfolding claim_db claim_message new_message record_event save_lead next_sequence is_outbound_to
  keys_kept keys =
      append-KeysBelow s.lead_id s.kind db.messages claim_message (λ l k. ground arith)
        (λ l k n. ground arith) keys

  has_draft_after :
      (i : Option ℕ) (d : Db) → has_draft i d ≡ true → has_draft i (save_lead lead' d) ≡ true
  unfolding save_lead
  has_draft_after none d h = refl
  has_draft_after (some i) d h = h

  inserted :
      KeysBelow db.messages
      → has_draft s.draft_id db ≡ true
      → after_checks s message_id uuid lead db ≡ ok (claimed claim_message, claim_db)
  unfolding after_checks insert_message lead' claim_message claim_db save_lead
  inserted keys draft = ground (
    arith,
    has_draft_after s.draft_id db draft,
    sending_mailbox-mailbox hashed_email s message_id uuid db lead sendable,
    key_free keys,
  )

  -- A claim for a lead that exists and is sendable succeeds, if the draft that it names exists and no
  -- idempotency key is above the number of messages of its lead and kind; and that still holds of the
  -- database it leaves.
  pub claim_send_succeeds :
      find (is_lead s.org_id s.lead_id) db.leads ≡ some lead
      → KeysBelow db.messages
      → has_draft s.draft_id db ≡ true
      → (m : Message) × (db' : Db) × (claim_send hashed_email s message_id uuid db
          ≡ ok (claimed m, db'))
        × KeysBelow db'.messages
  unfolding claim_send lock_lead checked
  claim_send_succeeds found keys draft = (
    claim_message,
    claim_db,
    ground (
      arith,
      found,
      inserted keys draft,
      (why_not_sendable_iff hashed_email s.org_id lead s.kind s.mailbox_id s.now db).1 sendable,
    ),
    keys_kept keys,
  )
