-- ===== src/LeadOutcome.antt =====
-- app/domain/outcome.py: the standing result of a lead, from a reply's label or from silence.
use outreach_automation.Prelude.{
  ℕ, ◌+◌, ◌*◌, ◌≤◌, Bool, true, false, ◌≡◌, ◌↔◌, Option, none, some, ltb, if◌then◌else◌, arith,
}
use outreach_automation.Time.{day}
use outreach_automation.Reply.{ReplyLabel}

pub data Outcome : Type 0 where
  positive_interest meeting_booked referral not_now not_relevant has_vendor objection : Outcome
  auto_reply unsubscribe hostile bounce no_reply_after_window : Outcome

abbrev pub censored : Outcome → Bool
censored no_reply_after_window = true
censored _ = false

abbrev pub is_meeting_booked : Outcome → Bool
is_meeting_booked meeting_booked = true
is_meeting_booked _ = false

-- `_FROM_LABEL`.
unfoldable pub outcome_for_label : ReplyLabel → Option Outcome
outcome_for_label ReplyLabel.interested = some positive_interest
outcome_for_label ReplyLabel.wrong_person_referral = some referral
outcome_for_label ReplyLabel.not_now = some not_now
outcome_for_label ReplyLabel.not_interested = some not_relevant
outcome_for_label ReplyLabel.has_vendor = some has_vendor
outcome_for_label ReplyLabel.objection = some objection
outcome_for_label ReplyLabel.opt_out = some unsubscribe
outcome_for_label ReplyLabel.out_of_office = some auto_reply
outcome_for_label ReplyLabel.hostile = some hostile
outcome_for_label ReplyLabel.bounce = some bounce
outcome_for_label ReplyLabel.question = none
outcome_for_label ReplyLabel.other = none

-- `now - first_sent_at < timedelta(days=wait_days)`, without a negative difference.
unfoldable pub resolve_silence : Option ℕ → ℕ → ℕ → Option Outcome
resolve_silence none wait_days now = none
resolve_silence (some first_sent_at) wait_days now =
    if ltb now (first_sent_at + wait_days * day) then none else some no_reply_after_window

-- Silence gives an outcome exactly when an email was sent and the wait since then is over, and that
-- outcome is censored; no label of a reply gives a censored outcome or a booked meeting.
pub outcome_evidence :
    (first_sent_at wait_days now : ℕ) (label : ReplyLabel) (o : Outcome)
    → outcome_for_label label ≡ some o
    → (resolve_silence none wait_days now ≡ none)
      × ((resolve_silence (some first_sent_at) wait_days now ≡ some no_reply_after_window)
          ↔ (first_sent_at + wait_days * day ≤ now))
      × (censored o ≡ false)
      × (is_meeting_booked o ≡ false)
unfolding outcome_for_label resolve_silence
outcome_evidence first_sent_at wait_days now label o h = ground (arith, h)
