-- ===== src/Lifecycle/Silence.antt =====
-- What the lifecycle pass does to one lead (app/services/lifecycle.py).
use outreach_automation.Prelude.{
  ℕ, ◌<◌, ◌≡◌, inl, inr, false, List, Option, some, String, ok, err, arith, Result-cases,
}
use outreach_automation.Time.{Zone}
use outreach_automation.Lead.State.{LeadState}
use outreach_automation.Campaign.Settings.{CampaignSettings}
use outreach_automation.Db.{Db, Lead, MessageKind}
use outreach_automation.Outbox.Refusals.{sendable_state}
use outreach_automation.Sendable.{Refusal, why_not_sendable}
use outreach_automation.Lifecycle.{LifecycleReport, settings_of, followup_due, close_silent}

-- Between two follow-ups nothing happens to a lead: if its campaign allows more follow-ups than it
-- had, then once one was sent it is never due, its silence is never counted, and no follow-up to it
-- is sendable.
pub between_followups :
    (hashed_email : List ℕ → List ℕ) (zone_of : String → Zone) (now : ℕ) (mailbox_id : Option ℕ)
    (l : Lead) (s : CampaignSettings) (report : LifecycleReport) (db : Db)
    → l.state ≡ LeadState.followup_sent
    → settings_of db l ≡ some s
    → l.followups_sent < s.max_followups
    → (followup_due db now l ≡ false)
      × (close_silent zone_of now l report db ≡ ok (report, db))
      × ((r : Refusal) × (why_not_sendable hashed_email l.org_id l MessageKind.followup mailbox_id
              now db
            ≡ err r))
unfolding followup_due close_silent
between_followups hashed_email zone_of now mailbox_id l s report db state settings owed =
    (ground (arith, state), ground (arith, settings, owed), refusal)
  where
    refusal :
        (r : Refusal) × (why_not_sendable hashed_email l.org_id l MessageKind.followup mailbox_id
            now db
          ≡ err r)
    refusal =
        elim (Result-cases
          (why_not_sendable hashed_email l.org_id l MessageKind.followup mailbox_id now db)) [
            | inl e ↦ e
            | inr (u, done) ↦ absurd (
                ground (
                  arith,
                  state,
                  sendable_state hashed_email l.org_id l MessageKind.followup mailbox_id now db
                      done,
                ))
          ]
