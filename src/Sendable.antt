-- ===== src/Sendable.antt =====
-- app/db/outbox.py, `why_not_sendable`: the checks on stored state before an e-mail is claimed. The
-- digest of an erased address (app/services/privacy/erasure.py) is the argument `hashed_email`.
use outreach_automation.Prelude.{
  ℕ, ◌+◌, ◌*◌, Bool, true, false, not, ◌&&◌, List, [], ◌∷◌, Option, none, some, String, ltb, ◌==◌,
  if◌then◌else◌, any, select, Result, ok, err, ◌>>=◌, ◌>>◌,
}
use outreach_automation.Time.{day}
use outreach_automation.Address.{strip, lower, after_at, same_text}
use outreach_automation.Lead.State.{LeadState, is_in}
use outreach_automation.Db.{
  Db, Lead, Campaign, Mailbox, Message, MessageKind, initial, followup, reply, MessageStatus,
  Direction, outbound, inbound, Suppression, SuppressionKind,
}
use outreach_automation.Db.Table.{find}

abbrev pub kind_index : MessageKind → ℕ
kind_index initial = 0
kind_index followup = 1
kind_index reply = 2

abbrev pub kind_name : MessageKind → String
kind_name initial = "initial"
kind_name followup = "followup"
kind_name reply = "reply"

abbrev pub is_outbound : Direction → Bool
is_outbound outbound = true
is_outbound inbound = false

abbrev pub is_sending : MessageStatus → Bool
is_sending MessageStatus.sending = true
is_sending _ = false

-- `status in ("sent", "sending")`.
abbrev pub may_have_left : MessageStatus → Bool
may_have_left MessageStatus.sent = true
may_have_left MessageStatus.sending = true
may_have_left _ = false

-- `_VALID_FROM`.
abbrev pub valid_from : MessageKind → List LeadState
valid_from initial = LeadState.approved ∷ []
valid_from followup = LeadState.sent ∷ []
valid_from reply = LeadState.replied ∷ []

-- `_IN_CONVERSATION`.
abbrev pub in_conversation_states : List LeadState
in_conversation_states =
    LeadState.replied ∷ LeadState.in_conversation ∷ LeadState.meeting_booked ∷ LeadState.sent
    ∷ LeadState.followup_sent ∷ []

abbrev pub contact_cooldown : ℕ
contact_cooldown = 90 * day

-- The reasons that `why_not_sendable` and `claim_send` give.
pub data Refusal : Type 0 where
  lead_paused campaign_missing campaign_paused no_mailbox mailbox_missing : Refusal
  other_mailbox suppressed already_claimed : Refusal
  wrong_state : LeadState → MessageKind → Refusal
  mailbox_paused : Option (List ℕ) → Refusal
  in_touch : LeadState → Refusal
  emailed_on : ℕ → Refusal
  in_flight : MessageKind → Refusal

abbrev pub is_for : Option ℕ → ℕ → Bool
is_for none n = false
is_for (some m) n = m == n

-- `a or b` on ids.
abbrev pub first_of : Option ℕ → Option ℕ → Option ℕ
first_of none b = b
first_of (some a) b = some a

-- An outbound message of a kind to a lead.
unfoldable pub is_outbound_to : ℕ → MessageKind → Message → Bool
is_outbound_to lead_id kind m =
    is_for m.lead_id lead_id && (kind_index m.kind == kind_index kind) && is_outbound m.direction

unfoldable pub is_sibling : ℕ → Lead → Lead → Bool
is_sibling org_id lead l =
    (l.org_id == org_id)
    && same_text l.email_norm lead.email_norm
    && not (l.id == lead.id)
    && is_in l.state in_conversation_states

-- Some lead of another id, with the lead's address, has the message.
reaches : Lead → Message → Db → Bool
reaches lead m db =
    any
      (λ (l : Lead).
        is_for m.lead_id l.id && same_text l.email_norm lead.email_norm && not (l.id == lead.id))
      db.leads

sent_since_cooldown : ℕ → Option ℕ → Bool
sent_since_cooldown now none = false
sent_since_cooldown now (some t) = ltb now (t + contact_cooldown)

unfoldable pub is_recent : ℕ → Lead → ℕ → Db → Message → Bool
unfolding reaches sent_since_cooldown
is_recent org_id lead now db m =
    (m.org_id == org_id)
    && is_outbound m.direction
    && may_have_left m.status
    && reaches lead m db
    && sent_since_cooldown now m.sent_at

-- The latest of the times.
latest : List Message → Option ℕ
latest [] = none
latest (m ∷ ms) =
    let rest = latest ms in
    elim m.sent_at [
      | none ↦ rest
      | some t ↦ elim rest [ none ↦ some t | some u ↦ if ltb t u then some u else some t ]
    ]

unfoldable pub already_in_touch : ℕ → Lead → ℕ → Db → Option Refusal
unfolding latest is_sibling is_recent
already_in_touch org_id lead now db = elim (find (is_sibling org_id lead) db.leads) [
  | some l ↦ some (in_touch l.state)
  | none ↦ elim (latest (select (is_recent org_id lead now db) db.messages)) [
    | none ↦ none
    | some t ↦ some (emailed_on t)
  ]
]

unfoldable pub suppresses : (List ℕ → List ℕ) → ℕ → List ℕ → Suppression → Bool
suppresses hashed_email org_id email s = (s.org_id == org_id) && elim s.kind [
  | SuppressionKind.email ↦ same_text s.value (lower (strip email))
  | SuppressionKind.domain ↦ same_text s.value (after_at (lower (strip email)))
  | SuppressionKind.email_hash ↦ same_text s.value (hashed_email email)
]

unfoldable pub is_suppressed : (List ℕ → List ℕ) → ℕ → List ℕ → Db → Bool
unfolding suppresses
is_suppressed hashed_email org_id email db =
    any (suppresses hashed_email org_id email) db.suppressions

-- An early return of a reason.
abbrev pub refuse_if : Bool → Refusal → Result Refusal (Unit {0})
refuse_if b r = if b then err r else ok tt

abbrev pub or_refuse : {A : Type 0} → Refusal → Option A → Result Refusal A
or_refuse r none = err r
or_refuse r (some a) = ok a

abbrev pub refuse_for : Option Refusal → Result Refusal (Unit {0})
refuse_for none = ok tt
refuse_for (some r) = err r

abbrev pub is_initial : MessageKind → Bool
is_initial initial = true
is_initial _ = false

unfoldable pub is_unresolved : ℕ → MessageKind → Message → Bool
unfolding is_outbound_to
is_unresolved lead_id kind m = is_outbound_to lead_id kind m && is_sending m.status

-- An error is the reason why the e-mail is not sent.
unfoldable pub why_not_sendable :
    (List ℕ → List ℕ) → ℕ → Lead → MessageKind → Option ℕ → ℕ → Db → Result Refusal (Unit {0})
why_not_sendable hashed_email org_id lead kind mailbox_id now db = do
  refuse_if lead.paused lead_paused
  refuse_if (not (is_in lead.state (valid_from kind))) (wrong_state lead.state kind)
  campaign ←
      or_refuse campaign_missing (find (λ (c : Campaign). c.id == lead.campaign_id) db.campaigns)
  refuse_if campaign.paused campaign_paused
  mailbox_id' ←
      or_refuse no_mailbox (first_of mailbox_id (first_of lead.mailbox_id campaign.mailbox_id))
  mailbox ← or_refuse mailbox_missing (find (λ (b : Mailbox). b.id == mailbox_id') db.mailboxes)
  refuse_if mailbox.paused (mailbox_paused mailbox.pause_reason)
  refuse_if (not (elim lead.mailbox_id [ none ↦ true | some b ↦ b == mailbox_id' ])) other_mailbox
  refuse_if (is_suppressed hashed_email org_id lead.email_norm db) suppressed
  refuse_for (if is_initial kind then already_in_touch org_id lead now db else none)
  refuse_if (any (is_unresolved lead.id kind) db.messages) (in_flight kind)
