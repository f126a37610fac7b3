-- ===== src/Drafts/Steps/Rejected.antt =====
-- app/db/drafts.py, `reject` and `set_attach`: what a successful rejection went through, and what the
-- run of several operations does to the table.
use outreach_automation.Prelude.{
  ℕ, ◌<◌, Bool, true, ◌≡◌, ap, sym, ◌∙◌, ◌⊎◌, inl, inr, List, Option, some, String, arith, ◌==◌,
  count, Result, ok, err, bind-ok, through, ok-pair, ok-eq,
}
use outreach_automation.Db.{Db, Lead, Draft}
use outreach_automation.Db.Table.{find, update_where}
use outreach_automation.Lead.Transition.{record_event}
use outreach_automation.Jobs.{QueueConfig, enqueue}
use outreach_automation.Drafts.{is_judgeable, is_refused, max_rejections, save_draft}
use outreach_automation.Drafts.Review.{
  is_draft, locked_draft, assert_judgeable, lead_of_draft, approve, Rejection, rejected_row,
  assert_rejections, send_back, reject, set_attach, or_illegal, or_full,
}
use outreach_automation.Jobs.{QueueError}
use outreach_automation.Db.{Job}
use outreach_automation.Drafts.Review.{redraft_job, redraft}
use outreach_automation.Drafts.Steps.{
  TableMove, untouched, rejected, toggled, with_attach, moved_to, locked_draft-found,
  assert_judgeable-holds, send_back-drafts, ReviewOp, write, judge, refuse, toggle, perform,
  save_draft-moves,
}
use outreach_automation.Drafts.Steps.Approved.{approve-run, approve-moves, or_illegal-ok}

pub record RejectRun (config : QueueConfig) (job_id clock : ℕ) (r : Rejection) (db : Db)
    (target : Draft) (db' : Db) : Type 0 where
  pub draft : Draft
  pub lead : Lead
  pub sent_back : Db
  pub row : Option Job
  pub found : find (is_draft r.org_id r.draft_id) db.drafts ≡ some draft
  pub judgeable : is_judgeable draft.status ≡ true
  pub few : assert_rejections draft db.drafts ≡ ok tt
  pub owned : lead_of_draft r.org_id draft db ≡ ok lead
  pub moved :
      send_back r draft lead (record db {
        drafts = update_where (is_draft r.org_id r.draft_id) (rejected_row r) db.drafts;
      })
      ≡ ok sent_back
  pub queued :
      enqueue config (redraft_job r.org_id draft lead) job_id clock sent_back.jobs
      ≡ ok (row, db'.jobs)
  pub kept : db' ≡ record sent_back { jobs = db'.jobs }
  pub target_is : target ≡ rejected_row r draft

or_full-ok : {A : Type 0} (r : Result QueueError A) (a : A) → or_full r ≡ ok a → r ≡ ok a
or_full-ok (ok b) a h = ground arith
or_full-ok (err e) a h = absurd (cc)

reject-rest :
    (config : QueueConfig) (job_id clock : ℕ) (r : Rejection) (db : Db) (target : Draft) (db' : Db)
    (d : Draft) (lead : Lead)
    → find (is_draft r.org_id r.draft_id) db.drafts ≡ some d
    → is_judgeable d.status ≡ true
    → assert_rejections d db.drafts ≡ ok tt
    → lead_of_draft r.org_id d db ≡ ok lead
    → redraft config job_id clock r d lead (record db {
      drafts = update_where (is_draft r.org_id r.draft_id) (rejected_row r) db.drafts;
    })
      ≡ ok (target, db')
    → RejectRun config job_id clock r db target db'
unfolding redraft
reject-rest config job_id clock r db target db' d lead found judgeable few owned h =
    elim (bind-ok
      (or_illegal (
        send_back r d lead (record db {
          drafts = update_where (is_draft r.org_id r.draft_id) (rejected_row r) db.drafts;
        })))
      _ _ h) [
        | through db1 moved h1 ↦
            elim (bind-ok
              (or_full (enqueue config (redraft_job r.org_id d lead) job_id clock db1.jobs)) _ _
              h1) [
                | through (row, jobs) queued e ↦
                    let same = ok-pair e in
                    record {
                      draft = d;
                      lead = lead;
                      sent_back = db1;
                      row = row;
                      found = found;
                      judgeable = judgeable;
                      few = few;
                      owned = owned;
                      moved = or_illegal-ok _ _ moved;
                      queued =
                          or_full-ok _ _ queued
                          ∙ ap (λ j. ok (row, j)) (ap (λ (x : Db). x.jobs) same.1);
                      kept =
                          sym same.1
                          ∙ ap (λ j. record db1 { jobs = j }) (ap (λ (x : Db). x.jobs) same.1);
                      target_is = sym same.0;
                    }
              ]
      ]

pub reject-run :
    (config : QueueConfig) (job_id clock : ℕ) (r : Rejection) (db : Db) (target : Draft) (db' : Db)
    → reject config job_id clock r db ≡ ok (target, db')
    → RejectRun config job_id clock r db target db'
unfolding reject
reject-run config job_id clock r db target db' h =
    elim (bind-ok (locked_draft r.org_id r.draft_id db.drafts) _ _ h) [
      | through d locked h1 ↦ elim (bind-ok (assert_judgeable d) _ _ h1) [
        | through u judgeable h2 ↦ elim (bind-ok (assert_rejections d db.drafts) _ _ h2) [
          | through v few h3 ↦ elim (bind-ok (lead_of_draft r.org_id d db) _ _ h3) [
            | through lead owned h4 ↦
                reject-rest config job_id clock r db target db' d lead
                  (locked_draft-found r.org_id r.draft_id db.drafts d locked)
                  (assert_judgeable-holds d judgeable) few owned h4
          ]
        ]
      ]
    ]

pub few_rejections :
    (d : Draft) (ds : List Draft)
    → assert_rejections d ds ≡ ok tt
    → count (is_refused d.lead_id d.kind) ds < max_rejections
unfolding assert_rejections
few_rejections d ds h = ground arith

pub rejected-drafts :
    (config : QueueConfig) (job_id clock : ℕ) (r : Rejection) (db : Db) (target : Draft) (db' : Db)
    → RejectRun config job_id clock r db target db'
    → db'.drafts ≡ update_where (is_draft r.org_id r.draft_id) (rejected_row r) db.drafts
rejected-drafts config job_id clock r db target db' run =
    ap (λ (x : Db). x.drafts) run.kept
    ∙ send_back-drafts r run.draft run.lead _ run.sent_back run.moved

pub reject-moves :
    (config : QueueConfig) (job_id clock : ℕ) (r : Rejection) (db : Db) (target : Draft) (db' : Db)
    → RejectRun config job_id clock r db target db'
    → TableMove db.drafts db'.drafts
reject-moves config job_id clock r db target db' run =
    moved_to db.drafts _ db'.drafts (rejected-drafts config job_id clock r db target db' run)
      (rejected r run.draft run.found run.judgeable (few_rejections run.draft db.drafts run.few))

toggle-moves :
    (org_id : ℕ) (actor_id : Option String) (draft_id : ℕ) (attach : Bool) (db : Db)
    → TableMove db.drafts (set_attach org_id actor_id draft_id attach db).1.drafts
unfolding set_attach record_event
toggle-moves org_id actor_id draft_id attach db =
    elim (attach_cases org_id actor_id draft_id attach db) [
      | inl e ↦ moved_to db.drafts db.drafts _ e untouched
      | inr e ↦ moved_to db.drafts _ _ e (toggled draft_id attach)
    ]
  where
    attach_cases :
        (org_id : ℕ) (actor_id : Option String) (draft_id : ℕ) (attach : Bool) (db : Db)
        → ((set_attach org_id actor_id draft_id attach db).1.drafts ≡ db.drafts)
          ⊎ ((set_attach org_id actor_id draft_id attach db).1.drafts
              ≡ update_where (λ (x : Draft). x.id == draft_id) (with_attach attach) db.drafts)
    attach_cases org_id actor_id draft_id attach db = ground arith

-- Every operation makes a move of the table.
pub perform-moves :
    (config : QueueConfig) (o : ReviewOp) (db db' : Db)
    → perform config o db ≡ ok db'
    → TableMove db.drafts db'.drafts
unfolding perform
perform-moves config (write new org_id lead kind result created_by) db db' h =
    elim (bind-ok (save_draft new org_id lead kind result created_by db) _ _ h) [
      | through (row, db1) saved e ↦
          moved_to db.drafts db1.drafts db'.drafts (ap (λ (x : Db). x.drafts) (sym (ok-eq e)))
            (save_draft-moves new org_id lead kind result created_by db row db1 saved)
    ]
perform-moves config (judge new a) db db' h = elim (bind-ok (approve new a db) _ _ h) [
  | through (target, db1) done e ↦
      moved_to db.drafts db1.drafts db'.drafts (ap (λ (x : Db). x.drafts) (sym (ok-eq e)))
        (approve-moves new a db target db1 (approve-run new a db target db1 done))
]
perform-moves config (refuse job_id clock r) db db' h =
    elim (bind-ok (reject config job_id clock r db) _ _ h) [
      | through (target, db1) done e ↦
          moved_to db.drafts db1.drafts db'.drafts (ap (λ (x : Db). x.drafts) (sym (ok-eq e))) (
            reject-moves config job_id clock r db target db1
              (reject-run config job_id clock r db target db1 done))
    ]
perform-moves config (toggle org_id actor_id draft_id attach) db db' h =
    moved_to db.drafts _ db'.drafts (ap (λ (x : Db). x.drafts) (sym (ok-eq h)))
      (toggle-moves org_id actor_id draft_id attach db)
