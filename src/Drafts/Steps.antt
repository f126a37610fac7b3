-- ===== src/Drafts/Steps.antt =====
-- The operations of app/db/drafts.py one after another, and what each does to the table of drafts.
pub mod Approved
pub mod Rejected
use outreach_automation.Prelude.{
  ℕ, ◌<◌, Bool, true, false, ◌&&◌, ◌||◌, ◌≡◌, refl, ap, sym, subst, ◌∙◌, ◌⊎◌, inl, inr, List, [],
  ◌∷◌, ◌++◌, Option, none, some, String, arith, leb, ◌==◌, if◌then◌else◌, any, count, Result, ok,
  err, ◌>>=◌, ◌>>◌, Result-cases, bind-ok, Option-cases, Bool-cases,
}
use outreach_automation.Db.{Db, Lead, Draft, DraftStatus, MessageKind, initial, followup, reply}
use outreach_automation.Db.Table.{find, update_where}
use outreach_automation.Lead.State.{LeadState, same_state}
use outreach_automation.Lead.Transition.{
  StateError, Move, lock_lead, save_lead, assert_allowed, record_event, transition,
}
use outreach_automation.Jobs.{QueueConfig, enqueue}
use outreach_automation.Drafting.{DraftResult, DraftOutput, accepted}
use outreach_automation.Drafts.{
  DraftError, Fresh, is_judgeable, is_refused, has_version, with_status, max_rejections,
  supersede_live, next_version, insert_draft, text_to_save, written, created_event, save_draft,
}
use outreach_automation.Drafts.Review.{
  is_initial, is_draft, locked_draft, assert_judgeable, lead_of_draft, assert_fixed, is_edited,
  Approval, approved_row, edited_draft, save_edit, approve_edited, approve_text, open_failed,
  approval_event, move_approved, approve, Rejection, rejected_row, assert_rejections, send_back,
  reject, set_attach, or_illegal, or_full,
}

pub data ReviewOp : Type 0 where
  write : Fresh → ℕ → Lead → MessageKind → DraftResult → String → ReviewOp
  judge : Fresh → Approval → ReviewOp
  refuse : ℕ → ℕ → Rejection → ReviewOp
  toggle : ℕ → Option String → ℕ → Bool → ReviewOp

-- The database after one operation, and after several; an exception rolls back and ends the run.
unfoldable pub perform : QueueConfig → ReviewOp → Db → Result DraftError Db
perform c (write new org_id lead kind result created_by) db =
    save_draft new org_id lead kind result created_by db >>= λ r. ok r.1
perform c (judge new a) db = approve new a db >>= λ r. ok r.1
perform c (refuse job_id clock r) db = reject c job_id clock r db >>= λ s. ok s.1
perform c (toggle org_id actor_id draft_id attach) db =
    ok (set_attach org_id actor_id draft_id attach db).1

unfoldable pub perform_all : QueueConfig → List ReviewOp → Db → Result DraftError Db
unfolding perform
perform_all c [] db = ok db
perform_all c (o ∷ os) db = perform c o db >>= λ db'. perform_all c os db'

abbrev pub with_attach : Bool → Draft → Draft
with_attach b d = record d { attach = some b }

-- What may happen to the table.
pub data TableMove : List Draft → List Draft → Type 0 where
  wrote :
      {ds : List Draft} (d : Draft)
      → d.version ≡ next_version d.lead_id d.kind (supersede_live d.lead_id d.kind ds)
      → is_judgeable d.status ≡ true
      → any (λ (x : Draft). x.id == d.id) (supersede_live d.lead_id d.kind ds) ≡ false
      → TableMove ds (supersede_live d.lead_id d.kind ds ++ d ∷ [])
  approved :
      {ds : List Draft} (a : Approval) (d : Draft)
      → find (is_draft a.org_id a.draft_id) ds ≡ some d
      → is_judgeable d.status ≡ true
      → TableMove ds (update_where (is_draft a.org_id a.draft_id) (approved_row a) ds)
  edited :
      {ds : List Draft} (new : Fresh) (a : Approval) (d : Draft) (retired : List Draft)
      → find (is_draft a.org_id a.draft_id) ds ≡ some d
      → is_judgeable d.status ≡ true
      → retired
        ≡ update_where (is_draft a.org_id a.draft_id) (with_status DraftStatus.superseded) ds
      → any (λ (x : Draft). x.id == new.id) retired ≡ false
      → TableMove ds (retired ++ edited_draft new a d (next_version d.lead_id d.kind retired) ∷ [])
  rejected :
      {ds : List Draft} (r : Rejection) (d : Draft)
      → find (is_draft r.org_id r.draft_id) ds ≡ some d
      → is_judgeable d.status ≡ true
      → count (is_refused d.lead_id d.kind) ds < max_rejections
      → TableMove ds (update_where (is_draft r.org_id r.draft_id) (rejected_row r) ds)
  toggled :
      {ds : List Draft} (draft_id : ℕ) (attach : Bool)
      → TableMove ds (update_where (λ (x : Draft). x.id == draft_id) (with_attach attach) ds)
  untouched : {ds : List Draft} → TableMove ds ds

-- A table that a move leads to is a table that it leads to under another name.
pub moved_to : (ds ds' ds'' : List Draft) → ds'' ≡ ds' → TableMove ds ds' → TableMove ds ds''
moved_to ds ds' ds'' e m = subst (TableMove ds) (sym e) m

pub transition-drafts :
    (m : Move) (db : Db) (l : Lead) (db' : Db)
    → transition m db ≡ ok (l, db')
    → db'.drafts ≡ db.drafts
unfolding transition save_lead record_event
transition-drafts m db l db' h = ground arith

pub insert_draft-added :
    (d : Draft) (ds ds' : List Draft)
    → insert_draft d ds ≡ ok ds'
    → (ds' ≡ ds ++ d ∷ []) × (any (λ (x : Draft). x.id == d.id) ds ≡ false)
unfolding insert_draft
insert_draft-added d ds ds' h = ground arith

-- The row that `save_draft` adds, and the table that it is added to.
abbrev pub saved_row :
    Fresh → ℕ → Lead → MessageKind → DraftResult → String → List Draft → DraftOutput → Draft
saved_row new org_id lead kind result created_by ds text =
    written new org_id lead kind result created_by text
      (next_version lead.id kind (supersede_live lead.id kind ds))

pub save_draft-saved :
    (new : Fresh) (org_id : ℕ) (lead : Lead) (kind : MessageKind) (result : DraftResult)
    (created_by : String) (db : Db) (row : Draft) (db' : Db)
    → save_draft new org_id lead kind result created_by db ≡ ok (row, db')
    → (text : DraftOutput) × (text_to_save result ≡ ok text)
      × (row ≡ saved_row new org_id lead kind result created_by db.drafts text)
      × (insert_draft
            (saved_row new org_id lead kind result created_by db.drafts text)
            (supersede_live lead.id kind db.drafts)
          ≡ ok db'.drafts)
unfolding save_draft record_event
save_draft-saved new org_id lead kind result created_by db row db' h =
    elim (Result-cases (text_to_save result)) [
      | inl (e, f) ↦ absurd (ground arith)
      | inr (text, f) ↦
          elim (Result-cases (
            insert_draft (saved_row new org_id lead kind result created_by db.drafts text)
              (supersede_live lead.id kind db.drafts))) [
                | inl (e, g) ↦ absurd (ground arith)
                | inr (ds, g) ↦ (text, f, ground arith, ground arith)
              ]
    ]

status_of-judgeable :
    (new : Fresh) (org_id : ℕ) (lead : Lead) (kind : MessageKind) (result : DraftResult)
    (created_by : String) (text : DraftOutput) (n : ℕ)
    → is_judgeable (written new org_id lead kind result created_by text n).status ≡ true
unfolding written
status_of-judgeable new org_id lead kind result created_by text n =
    ground (arith, Bool-cases (accepted result))

pub save_draft-moves :
    (new : Fresh) (org_id : ℕ) (lead : Lead) (kind : MessageKind) (result : DraftResult)
    (created_by : String) (db : Db) (row : Draft) (db' : Db)
    → save_draft new org_id lead kind result created_by db ≡ ok (row, db')
    → TableMove db.drafts db'.drafts
unfolding written
save_draft-moves new org_id lead kind result created_by db row db' h =
    let s = save_draft-saved new org_id lead kind result created_by db row db' h in
    let d = saved_row new org_id lead kind result created_by db.drafts s.0 in
    let i = insert_draft-added d (supersede_live lead.id kind db.drafts) db'.drafts s.3 in
    moved_to db.drafts (supersede_live lead.id kind db.drafts ++ d ∷ []) db'.drafts i.0 (
      wrote d refl
        (status_of-judgeable new org_id lead kind result created_by s.0
          (next_version lead.id kind (supersede_live lead.id kind db.drafts)))
        i.1)

pub either_branch :
    {E A : Type 0} (b : Bool) (x y z : Result E A) → (if b then x else y) ≡ z → (x ≡ z) ⊎ (y ≡ z)
either_branch true x y z h = inl h
either_branch false x y z h = inr h

moved-drafts :
    (m : Move) (db db' : Db) → (transition m db >>= λ r. ok r.1) ≡ ok db' → db'.drafts ≡ db.drafts
moved-drafts m db db' h = elim (Result-cases (transition m db)) [
  | inl (e, f) ↦ absurd (ground arith)
  | inr ((l, d), f) ↦ let t = transition-drafts m db l d f in ground arith
]

pub open_failed-drafts :
    (a : Approval) (target : Draft) (lead : Lead) (db : Db) (l : Lead) (db' : Db)
    → open_failed a target lead db ≡ ok (l, db')
    → db'.drafts ≡ db.drafts
unfolding open_failed
open_failed-drafts a target lead db l db' h =
    elim (either_branch (same_state lead.state LeadState.drafted) _ _ _ h) [
      | inl e ↦ transition-drafts _ db l db' e
      | inr e ↦ ground arith
    ]

pub move_approved-drafts :
    (a : Approval) (d target : Draft) (lead : Lead) (db db' : Db)
    → move_approved a d target lead db ≡ ok db'
    → db'.drafts ≡ db.drafts
unfolding move_approved approval_event record_event
move_approved-drafts a d target lead db db' h = elim (either_branch (is_initial d.kind) _ _ _ h) [
  | inl e ↦ moved-drafts _ db db' e
  | inr e ↦ ground arith
]

pub send_back-drafts :
    (r : Rejection) (d : Draft) (lead : Lead) (db db' : Db)
    → send_back r d lead db ≡ ok db'
    → db'.drafts ≡ db.drafts
unfolding send_back
send_back-drafts r d lead db db' h =
    elim (either_branch (same_state lead.state LeadState.awaiting_approval) _ _ _ h) [
      | inl e ↦ moved-drafts _ db db' e
      | inr e ↦ ground arith
    ]

pub locked_draft-found :
    (o n : ℕ) (ds : List Draft) (d : Draft)
    → locked_draft o n ds ≡ ok d
    → find (is_draft o n) ds ≡ some d
unfolding locked_draft
locked_draft-found o n ds d h = ground (arith, Option-cases (find (is_draft o n) ds))

pub assert_judgeable-holds : (d : Draft) → assert_judgeable d ≡ ok tt → is_judgeable d.status ≡ true
unfolding assert_judgeable
assert_judgeable-holds d h = ground arith
