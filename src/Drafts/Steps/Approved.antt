-- ===== src/Drafts/Steps/Approved.antt =====
-- app/db/drafts.py, `approve`: what a successful approval went through.
use outreach_automation.Prelude.{
  true, false, ◌≡◌, refl, ap, subst, ◌∙◌, ◌⊎◌, inl, inr, List, some, arith, Result, ok, err,
  Result-cases, bind-ok, through, ok-pair, Bool-cases,
}
use outreach_automation.Db.{Db, Lead, Draft, DraftStatus}
use outreach_automation.Db.Table.{find, update_where}
use outreach_automation.Lead.Transition.{StateError}
use outreach_automation.Drafts.{Fresh, is_judgeable, with_status, next_version, insert_draft}
use outreach_automation.Drafts.Review.{
  is_draft, locked_draft, assert_judgeable, lead_of_draft, assert_fixed, is_edited, Approval,
  approved_row, edited_draft, save_edit, approve_edited, approve_text, open_failed, move_approved,
  move_lead, approve, or_illegal,
}
use outreach_automation.Drafts.Steps.{
  TableMove, approved, edited, moved_to, insert_draft-added, locked_draft-found,
  assert_judgeable-holds, open_failed-drafts, move_approved-drafts,
}

pub record ApproveRun (new : Fresh) (a : Approval) (db : Db) (target : Draft) (db' : Db)
    : Type 0 where
  pub draft : Draft
  pub lead : Lead
  pub opened_lead : Lead
  pub opened_db : Db
  pub drafts : List Draft
  pub found : find (is_draft a.org_id a.draft_id) db.drafts ≡ some draft
  pub judgeable : is_judgeable draft.status ≡ true
  pub owned : lead_of_draft a.org_id draft db ≡ ok lead
  pub fixed : assert_fixed a draft ≡ ok tt
  pub text : approve_text new a draft db.drafts ≡ ok (target, drafts)
  pub opened :
      open_failed a target lead (record db { drafts = drafts }) ≡ ok (opened_lead, opened_db)
  pub moved : move_approved a draft target opened_lead opened_db ≡ ok db'

pub or_illegal-ok : {A : Type 0} (r : Result StateError A) (a : A) → or_illegal r ≡ ok a → r ≡ ok a
or_illegal-ok (ok b) a h = ground arith
or_illegal-ok (err e) a h = absurd (cc)

approve-rest :
    (new : Fresh) (a : Approval) (db : Db) (target : Draft) (db' : Db) (d : Draft) (lead : Lead)
    (t : Draft) (drafts : List Draft)
    → find (is_draft a.org_id a.draft_id) db.drafts ≡ some d
    → is_judgeable d.status ≡ true
    → lead_of_draft a.org_id d db ≡ ok lead
    → assert_fixed a d ≡ ok tt
    → approve_text new a d db.drafts ≡ ok (t, drafts)
    → move_lead a d t lead (record db { drafts = drafts }) ≡ ok (target, db')
    → ApproveRun new a db target db'
unfolding move_lead
approve-rest new a db target db' d lead t drafts found judgeable owned fixed text h =
    elim (bind-ok (or_illegal (open_failed a t lead (record db { drafts = drafts }))) _ _ h) [
      | through (lead', db1) opened h1 ↦
          elim (bind-ok (or_illegal (move_approved a d t lead' db1)) _ _ h1) [
            | through db2 moved e ↦
                let same = (ok-pair e).0 in
                record {
                  draft = d;
                  lead = lead;
                  opened_lead = lead';
                  opened_db = db1;
                  drafts = drafts;
                  found = found;
                  judgeable = judgeable;
                  owned = owned;
                  fixed = fixed;
                  text = subst (λ x. approve_text new a d db.drafts ≡ ok (x, drafts)) same text;
                  opened =
                      subst
                        (λ x.
                          open_failed a x lead (record db { drafts = drafts }) ≡ ok (lead', db1))
                        same (or_illegal-ok _ _ opened);
                  moved =
                      subst (λ x. move_approved a d x lead' db1 ≡ ok db') same
                        (or_illegal-ok _ _ moved ∙ ap ok (ok-pair e).1);
                }
          ]
    ]

pub approve-run :
    (new : Fresh) (a : Approval) (db : Db) (target : Draft) (db' : Db)
    → approve new a db ≡ ok (target, db')
    → ApproveRun new a db target db'
unfolding approve
approve-run new a db target db' h =
    elim (bind-ok (locked_draft a.org_id a.draft_id db.drafts) _ _ h) [
      | through d locked h1 ↦ elim (bind-ok (assert_judgeable d) _ _ h1) [
        | through u judgeable h2 ↦ elim (bind-ok (lead_of_draft a.org_id d db) _ _ h2) [
          | through lead owned h3 ↦ elim (bind-ok (assert_fixed a d) _ _ h3) [
            | through v fixed h4 ↦ elim (bind-ok (approve_text new a d db.drafts) _ _ h4) [
              | through (t, drafts) text h5 ↦
                  approve-rest new a db target db' d lead t drafts
                    (locked_draft-found a.org_id a.draft_id db.drafts d locked)
                    (assert_judgeable-holds d judgeable) owned fixed text h5
            ]
          ]
        ]
      ]
    ]

pub approved-drafts :
    (new : Fresh) (a : Approval) (db : Db) (target : Draft) (db' : Db)
    (r : ApproveRun new a db target db')
    → db'.drafts ≡ r.drafts
approved-drafts new a db target db' r =
    move_approved-drafts a r.draft target r.opened_lead r.opened_db db' r.moved
    ∙ open_failed-drafts a target r.lead (record db { drafts = r.drafts }) r.opened_lead r.opened_db
        r.opened

-- The new version, and the table that it is added to.
abbrev pub retired_by : Approval → List Draft → List Draft
retired_by a ds =
    update_where (is_draft a.org_id a.draft_id) (with_status DraftStatus.superseded) ds

abbrev pub edit_of : Fresh → Approval → Draft → List Draft → Draft
edit_of new a d ds = edited_draft new a d (next_version d.lead_id d.kind (retired_by a ds))

pub approve_edited-saved :
    (new : Fresh) (a : Approval) (d : Draft) (ds : List Draft) (target : Draft) (ds' : List Draft)
    → approve_edited new a d ds ≡ ok (target, ds')
    → (target ≡ edit_of new a d ds) × (insert_draft (edit_of new a d ds) (retired_by a ds) ≡ ok ds')
unfolding approve_edited save_edit
approve_edited-saved new a d ds target ds' h =
    elim (Result-cases (insert_draft (edit_of new a d ds) (retired_by a ds))) [
      | inl (e, f) ↦ absurd (ground arith)
      | inr (t, f) ↦ (ground arith, ground arith)
    ]

-- Without an edit, and with one.
pub approve_text-cases :
    (new : Fresh) (a : Approval) (d : Draft) (ds : List Draft) (target : Draft) (ds' : List Draft)
    → approve_text new a d ds ≡ ok (target, ds')
    → ((is_edited a d ≡ false)
        × (target ≡ approved_row a d)
        × (ds' ≡ update_where (is_draft a.org_id a.draft_id) (approved_row a) ds))
      ⊎ ((is_edited a d ≡ true) × (approve_edited new a d ds ≡ ok (target, ds')))
unfolding approve_text
approve_text-cases new a d ds target ds' h = elim (Bool-cases (is_edited a d)) [
  | inl e ↦ inr (e, ground arith)
  | inr e ↦ inl (e, ground arith, ground arith)
]

pub approve-moves :
    (new : Fresh) (a : Approval) (db : Db) (target : Draft) (db' : Db)
    → ApproveRun new a db target db'
    → TableMove db.drafts db'.drafts
unfolding edited_draft
approve-moves new a db target db' r =
    moved_to db.drafts r.drafts db'.drafts (approved-drafts new a db target db' r)
      (elim (approve_text-cases new a r.draft db.drafts target r.drafts r.text) [
        | inl e ↦ moved_to db.drafts _ r.drafts e.2 (approved a r.draft r.found r.judgeable)
        | inr e ↦
            let s = approve_edited-saved new a r.draft db.drafts target r.drafts e.1 in
            let i =
              insert_draft-added (edit_of new a r.draft db.drafts) (retired_by a db.drafts) r.drafts
                s.1 in
            moved_to db.drafts _ r.drafts i.0
              (edited new a r.draft (retired_by a db.drafts) r.found r.judgeable refl (i.1))
      ])
