-- ===== src/Drafts/Verdict.antt =====
-- app/db/drafts.py: what `approve` and `reject` leave behind.
use outreach_automation.Prelude.{
  any, take, ℕ, true, ◌≡◌, refl, sym, ap, subst, ◌∙◌, inl, inr, List, [], ◌∷◌, ◌++◌, some, arith,
  count, ◌<◌, ok, bind-ok, through, ok-eq, Bool-cases, and-left, ==_iff,
}
use outreach_automation.Lead.State.{LeadState, same_state}
use outreach_automation.Address.{strip}
use outreach_automation.Db.{Db, Lead, Draft, DraftStatus}
use outreach_automation.Db.Table.{find}
use outreach_automation.Db.Unique.{Unique, find-IsAlone}
use outreach_automation.Lead.Transition.{transition}
use outreach_automation.Drafts.{Fresh, is_judgeable, is_failed, is_refused, max_rejections}
use outreach_automation.Drafts.Review.{
  is_draft, is_initial, assert_fixed, is_edited, Approval, approved_row, edited_draft,
  move_approved, approve, Rejection, rejected_row, send_back, redraft_job, reject,
}
use outreach_automation.Drafts.Steps.{insert_draft-added}
use outreach_automation.Drafts.Steps.Approved.{
  ApproveRun, approve-run, approve_text-cases, approve_edited-saved, approved-drafts, edit_of,
  retired_by,
}
use outreach_automation.Drafts.Steps.Rejected.{reject-run, rejected-drafts, few_rejections}
use outreach_automation.Jobs.{QueueConfig, holds_key}
use outreach_automation.Queue.Lease.{enqueue-conflicts}
use outreach_automation.Drafts.Desk.Each.{by_id}
use outreach_automation.Drafts.Found.{
  Has, IsIn, transition-found, lead_of_draft-owns, first_branch, open_failed-same,
}
use outreach_automation.Drafts.Redraft.{kind_to_redraft, redraft_job-holds}

move_approved-initial :
    (a : Approval) (d target : Draft) (lead : Lead) (db db' : Db)
    → move_approved a d target lead db ≡ ok db'
    → is_initial d.kind ≡ true
    → IsIn a.org_id lead.id LeadState.approved db'
unfolding move_approved
move_approved-initial a d target lead db db' h i =
    elim (bind-ok (transition _ db) _ _ (first_branch (is_initial d.kind) _ _ _ i h)) [
      | through (l, db1) done e ↦
          let f = transition-found _ db l db1 done in
          subst (IsIn a.org_id lead.id LeadState.approved) (ok-eq e) (l, f.2, f.1)
    ]

-- What an approval leaves, for the draft that was asked about.
pub record IsApproved (a : Approval) (db : Db) (target : Draft) (db' : Db) : Type 0 where
  pub draft : Draft
  pub found : find (is_draft a.org_id a.draft_id) db.drafts ≡ some draft
  pub judgeable : is_judgeable draft.status ≡ true
  pub fixed : is_failed draft.status ≡ true → is_edited a draft ≡ true
  pub same_desk : (target.lead_id ≡ draft.lead_id) × (target.kind ≡ draft.kind)
  pub status : target.status ≡ DraftStatus.approved
  pub approver : target.approved_by ≡ some a.approved_by
  pub stored : Has target db'.drafts
  pub lead_approved :
      is_initial draft.kind ≡ true → IsIn a.org_id draft.lead_id LeadState.approved db'

fixed_by :
    (a : Approval) (d : Draft)
    → assert_fixed a d ≡ ok tt
    → is_failed d.status ≡ true
    → is_edited a d ≡ true
unfolding assert_fixed
fixed_by a d h f = ground (arith, Bool-cases (is_edited a d))

-- The text that is approved.
record TextStored (a : Approval) (d target : Draft) (ds : List Draft) : Type 0 where
  desk : (target.lead_id ≡ d.lead_id) × (target.kind ≡ d.kind)
  status : target.status ≡ DraftStatus.approved
  approver : target.approved_by ≡ some a.approved_by
  stored : Has target ds

approve_text-TextStored :
    (new : Fresh) (a : Approval) (db : Db) (target : Draft) (db' : Db)
    → Unique by_id db.drafts
    → (r : ApproveRun new a db target db') → TextStored a r.draft target r.drafts
unfolding approved_row edited_draft
approve_text-TextStored new a db target db' u r =
    elim (approve_text-cases new a r.draft db.drafts target r.drafts r.text) [
      | inl (e, t, ds) ↦
          let (ys, zs, split, changed) =
            find-IsAlone by_id a.draft_id (is_draft a.org_id a.draft_id) db.drafts r.draft
              (λ x i. (==_iff x.id a.draft_id).0 (and-left _ _ i)) u r.found in
          subst (λ x. TextStored a r.draft x r.drafts) (sym t)
            (record {
              desk = (refl, refl);
              status = refl;
              approver = refl;
              stored = (ys, zs, ds ∙ changed (approved_row a));
            })
      | inr (e, k) ↦
          let (t, i) = approve_edited-saved new a r.draft db.drafts target r.drafts k in
          subst (λ x. TextStored a r.draft x r.drafts) (sym t)
            (record {
              desk = (refl, refl);
              status = refl;
              approver = refl;
              stored = (
                retired_by a db.drafts,
                [],
                (insert_draft-added (edit_of new a r.draft db.drafts) (retired_by a db.drafts)
                    r.drafts i).0,
              );
            })
    ]

-- An approval that returns found a draft that a reviewer may judge; one that failed validation was
-- changed. The draft that it returns is of the same lead and kind, approved in the reviewer's name,
-- and stands in the table; after a first e-mail's approval the lead is approved. The drafts' ids
-- were distinct.
pub approve-IsApproved :
    (new : Fresh) (a : Approval) (db : Db) (target : Draft) (db' : Db)
    → Unique by_id db.drafts
    → approve new a db ≡ ok (target, db')
    → IsApproved a db target db'
approve-IsApproved new a db target db' u h =
    let r = approve-run new a db target db' h in
    let t = approve_text-TextStored new a db target db' u r in
    let (ys, zs, e) = t.stored in
    record {
      draft = r.draft;
      found = r.found;
      judgeable = r.judgeable;
      fixed = fixed_by a r.draft r.fixed;
      same_desk = t.desk;
      status = t.status;
      approver = t.approver;
      stored = (ys, zs, approved-drafts new a db target db' r ∙ e);
      lead_approved = λ i.
          subst (λ n. IsIn a.org_id n LeadState.approved db')
            (open_failed-same a target r.lead _ r.opened_lead r.opened_db r.opened
              ∙ lead_of_draft-owns a.org_id r.draft db r.lead r.owned)
            (move_approved-initial a r.draft target r.opened_lead r.opened_db db' r.moved i);
    }

-- What a rejection leaves, for the draft that was asked about.
pub record IsRejected (r : Rejection) (db : Db) (target : Draft) (db' : Db) : Type 0 where
  pub draft : Draft
  pub lead : Lead
  pub found : find (is_draft r.org_id r.draft_id) db.drafts ≡ some draft
  pub judgeable : is_judgeable draft.status ≡ true
  pub few : count (is_refused draft.lead_id draft.kind) db.drafts < max_rejections
  pub rejected : target.status ≡ DraftStatus.rejected
  pub words : target.feedback ≡ some (take 2000 (strip r.feedback))
  pub same_draft :
      (target.id ≡ draft.id)
      × (target.lead_id ≡ draft.lead_id)
      × (target.kind ≡ draft.kind)
      × (target.subject ≡ draft.subject)
      × (target.body ≡ draft.body)
  pub stored : Has target db'.drafts
  pub sent_back :
      same_state lead.state LeadState.awaiting_approval ≡ true
      → IsIn r.org_id draft.lead_id LeadState.drafted db'
  pub owned : lead.id ≡ draft.lead_id
  pub redrafted :
      any
        (holds_key r.org_id
          (kind_to_redraft draft.kind)
          (record { prefix = "draft"; parts = draft.lead_id ∷ [] }))
        db'.jobs
      ≡ true

send_back-IsIn :
    (r : Rejection) (d : Draft) (lead : Lead) (db db' : Db)
    → send_back r d lead db ≡ ok db'
    → same_state lead.state LeadState.awaiting_approval ≡ true
    → IsIn r.org_id lead.id LeadState.drafted db'
unfolding send_back
send_back-IsIn r d lead db db' h i =
    elim (bind-ok (transition _ db) _ _
      (first_branch (same_state lead.state LeadState.awaiting_approval) _ _ _ i h)) [
        | through (l, db1) done e ↦
            let f = transition-found _ db l db1 done in
            subst (IsIn r.org_id lead.id LeadState.drafted) (ok-eq e) (l, f.2, f.1)
      ]

redraft-keyed :
    (org_id : ℕ) (d : Draft) (lead : Lead)
    → (redraft_job org_id d lead).dedupe_key
      ≡ some (record { prefix = "draft"; parts = lead.id ∷ [] })
unfolding redraft_job
redraft-keyed org_id d lead = refl

-- A rejection that returns found a draft that a reviewer may judge and fewer than five rejected ones
-- of its lead and kind. The draft stands in the table as rejected, with the reviewer's words; a lead
-- that awaited approval is drafted again; and a job to write the draft again is waiting or running
-- under the key of the lead: `draft_lead` for a first e-mail, `draft_reply` for a follow-up as for a
-- reply. The drafts' ids were distinct.
pub reject-IsRejected :
    (config : QueueConfig) (job_id clock : ℕ) (r : Rejection) (db : Db) (target : Draft) (db' : Db)
    → Unique by_id db.drafts
    → reject config job_id clock r db ≡ ok (target, db')
    → IsRejected r db target db'
unfolding rejected_row
reject-IsRejected config job_id clock r db target db' u h =
    let run = reject-run config job_id clock r db target db' h in
    let owned = lead_of_draft-owns r.org_id run.draft db run.lead run.owned in
    let (ys, zs, split, changed) =
      find-IsAlone by_id r.draft_id (is_draft r.org_id r.draft_id) db.drafts run.draft
        (λ x i. (==_iff x.id r.draft_id).0 (and-left _ _ i)) u run.found in
    record {
      draft = run.draft;
      lead = run.lead;
      found = run.found;
      judgeable = run.judgeable;
      few = few_rejections run.draft db.drafts run.few;
      rejected = ap (λ (x : Draft). x.status) run.target_is;
      words = ap (λ (x : Draft). x.feedback) run.target_is;
      same_draft = (
        ap (λ (x : Draft). x.id) run.target_is,
        ap (λ (x : Draft). x.lead_id) run.target_is,
        ap (λ (x : Draft). x.kind) run.target_is,
        ap (λ (x : Draft). x.subject) run.target_is,
        ap (λ (x : Draft). x.body) run.target_is,
      );
      stored = (
        ys,
        zs,
        rejected-drafts config job_id clock r db target db' run
            ∙ changed (rejected_row r)
            ∙ ap (λ x. ys ++ x ∷ zs) (sym run.target_is),
      );
      sent_back = λ i.
          subst (λ n. IsIn r.org_id n LeadState.drafted db') owned
            (subst (IsIn r.org_id run.lead.id LeadState.drafted) (sym run.kept)
              (send_back-IsIn r run.draft run.lead _ run.sent_back run.moved i));
      owned = owned;
      redrafted = redraft_job-holds r.org_id run.draft run.lead db'.jobs owned (
          enqueue-conflicts config (redraft_job r.org_id run.draft run.lead)
            (record { prefix = "draft"; parts = run.lead.id ∷ [] }) job_id clock run.sent_back.jobs
            db'.jobs run.row (redraft-keyed r.org_id run.draft run.lead) run.queued);
    }
