-- ===== src/ReplyAct/OptOut.antt =====
-- After a request to stop no e-mail is claimed for the address (app/services/reply/service.py with
-- app/db/outbox.py).
use outreach_automation.Prelude.{
  Option, ℕ, ◌≡◌, refl, inl, inr, Bool, true, false, ◌&&◌, List, [], ◌∷◌, ◌++◌, some, if◌then◌else◌,
  any, ok, arith, Bool-cases, Result-cases,
}
use outreach_automation.Time.{Zone}
use outreach_automation.Address.{same_text, lower, strip}
use outreach_automation.Lead.State.{LeadState}
use outreach_automation.Campaign.Settings.{CampaignSettings}
use outreach_automation.Db.{Db, Lead, Suppression, SuppressionKind, SuppressionReason, Value}
use outreach_automation.Db.Table.{find}
use outreach_automation.Lead.Transition.{is_lead, lock_lead, save_lead}
use outreach_automation.Jobs.{QueueConfig}
use outreach_automation.Sendable.{Refusal, suppresses, is_suppressed, why_not_sendable}
use outreach_automation.Outbox.{Send, refused, checked, claim_send}
use outreach_automation.Outbox.Refusals.{why_not_sendable_iff}
use outreach_automation.Reply.{ReplyLabel, suppress, policy_for, is_opt_out}
use outreach_automation.ReplyAct.{
  Inbound, is_bounce, cancel_on_reply, label_name, optional, is_suppression, add_suppression,
  cancel_jobs, act_suppress, act,
}
use outreach_automation.ReplyAct.Unsent.{Kept, move-Kept}

same_text_refl : (cs : List ℕ) → same_text cs cs ≡ true
unfolding same_text
same_text_refl [] = refl
same_text_refl (c ∷ cs) = ground (arith, same_text_refl cs)

any-append_true :
    (p : Suppression → Bool) (xs : List Suppression) (x : Suppression)
    → p x ≡ true
    → any p (xs ++ x ∷ []) ≡ true
any-append_true p [] x h = ground (arith, h)
any-append_true p (y ∷ ys) x h = ground (arith, any-append_true p ys x h)

suppression-suppresses :
    (hashed_email : List ℕ → List ℕ) (org_id : ℕ) (email : List ℕ) (s : Suppression)
    → is_suppression org_id (lower (strip email)) s ≡ true
    → suppresses hashed_email org_id email s ≡ true
unfolding suppresses
suppression-suppresses hashed_email org_id email s h = ground (arith, h)

any-suppresses :
    (hashed_email : List ℕ → List ℕ) (org_id : ℕ) (email : List ℕ) (xs : List Suppression)
    → any (is_suppression org_id (lower (strip email))) xs ≡ true
    → any (suppresses hashed_email org_id email) xs ≡ true
any-suppresses hashed_email org_id email [] h = h
any-suppresses hashed_email org_id email (x ∷ xs) h = ground (
  arith,
  h,
  suppression-suppresses hashed_email org_id email x,
  any-suppresses hashed_email org_id email xs,
)

pub add_suppression-suppresses :
    (hashed_email : List ℕ → List ℕ) (org_id : ℕ) (email : List ℕ) (reason : SuppressionReason)
    (id : Option ℕ) (db : Db)
    → is_suppressed hashed_email org_id email (add_suppression org_id email reason id db) ≡ true
unfolding is_suppressed add_suppression
add_suppression-suppresses hashed_email org_id email reason id db =
    elim (Bool-cases (any (is_suppression org_id (lower (strip email))) db.suppressions)) [
      | inl old ↦ ground (arith, old, any-suppresses hashed_email org_id email db.suppressions old)
      | inr new ↦ ground (
        arith,
        new,
        any-append_true (suppresses hashed_email org_id email) db.suppressions
            (record {
              org_id = org_id;
              kind = SuppressionKind.email;
              value = lower (strip email);
              reason = reason;
              source_message_id = id;
            })
            (suppression-suppresses hashed_email org_id email
              (record {
                org_id = org_id;
                kind = SuppressionKind.email;
                value = lower (strip email);
                reason = reason;
                source_message_id = id;
              })
              (ground (arith, same_text_refl (lower (strip email))))),
      )
    ]

module _ (hashed_email : List ℕ → List ℕ) (z : Zone) (config : QueueConfig) (org_id job_id : ℕ)
    (parsed : Inbound) (label : ReplyLabel) (s : CampaignSettings) (now clock : ℕ)
    (lead : Lead) where
  act_suppress-suppressed :
      (l : Lead) (db db' : Db)
      → (is_bounce label && parsed.soft_bounce) ≡ false
      → act_suppress z config org_id job_id parsed label s now clock l db ≡ ok db'
      → is_suppressed hashed_email org_id l.email_norm db' ≡ true
  unfolding act_suppress is_suppressed cancel_jobs
  act_suppress-suppressed l db db' hard h = rw kept.1 (
      add_suppression-suppresses hashed_email org_id l.email_norm reason (some parsed.message_id)
        db)
    where
      reason : SuppressionReason
      reason = if is_opt_out label then SuppressionReason.opt_out else SuppressionReason.bounce

      after : Db
      after =
          cancel_jobs org_id l.id cancel_on_reply clock
            (add_suppression org_id l.email_norm reason (some parsed.message_id) db)

      kept : Kept after db'
      kept =
          move-Kept org_id l (if is_opt_out label then LeadState.opted_out else LeadState.bounced)
            (("label", Value.text (label_name label)) ∷ ("status", optional parsed.dsn_status) ∷ [])
            now after db' (ground (arith, h, hard))

  -- When a reply's label suppresses (an opt-out, a hostile reply or a bounce that is not a soft one),
  -- then on the database that the action leaves no e-mail of any kind is claimed for a lead of that
  -- org with the same address: the claim is refused and changes nothing.
  pub act_suppress_bars :
      (db db' : Db) (t : Send) (message_id : ℕ) (uuid : List ℕ) (l : Lead)
      → (policy_for label).action ≡ suppress
      → (is_bounce label && parsed.soft_bounce) ≡ false
      → act z config org_id job_id parsed label s now clock lead db ≡ ok db'
      → t.org_id ≡ org_id
      → find (is_lead t.org_id t.lead_id) db'.leads ≡ some l
      → l.email_norm ≡ lead.email_norm
      → (r : Refusal) × (claim_send hashed_email t message_id uuid db' ≡ ok (refused r, db'))
  unfolding act claim_send lock_lead checked
  act_suppress_bars db db' t message_id uuid l policy hard h same_org found same_address =
      elim (Result-cases (why_not_sendable hashed_email t.org_id l t.kind t.mailbox_id t.now db')) [
        | inl (r, refusal) ↦ (r, ground (arith, found, refusal))
        | inr (done, sendable) ↦ absurd (
            ground (
              arith,
              suppressed,
              ((why_not_sendable_iff hashed_email t.org_id l t.kind t.mailbox_id t.now db').0
                  sendable).welcome,
            ))
      ]
    where
      lead' : Lead
      lead' = record lead { last_message_at = some now }

      suppressed : is_suppressed hashed_email t.org_id l.email_norm db' ≡ true
      suppressed =
          rw (same_org, same_address)
            (act_suppress-suppressed lead' (save_lead lead' db) db' hard
              (ground (arith, h, policy)))
