-- ===== src/Drafts/Review.antt =====
-- app/db/drafts.py: what a reviewer does to a draft, `approve`, `reject` and `set_attach`, and what
-- the next attempt is told.
use outreach_automation.Prelude.{
  ℕ, Bool, true, false, not, ◌&&◌, ◌||◌, List, [], ◌∷◌, ◌++◌, Option, none, some, String, leb, ◌==◌,
  if◌then◌else◌, count, take, Result, ok, err, ◌>>=◌, ◌>>◌,
}
use outreach_automation.Address.{strip, same_text}
use outreach_automation.Lead.State.{LeadState, same_state}
use outreach_automation.Db.{
  Db, Lead, Actor, Json, Value, Draft, DraftStatus, MessageKind, initial, JobKind,
}
use outreach_automation.Db.Table.{find, update_where}
use outreach_automation.Lead.Transition.{StateError, Move, record_event, transition}
use outreach_automation.Jobs.{QueueConfig, QueueError, NewJob, enqueue}
use outreach_automation.Sendable.{kind_name}
use outreach_automation.Drafting.{is_none_of}
use outreach_automation.Drafts.{
  DraftError, draft_not_found, not_judgeable, lead_missing, failed_validation, empty_edit,
  too_many_rejections, state_error, queue_error, is_judgeable, is_failed, is_refused, with_status,
  max_rejections, next_version, insert_draft, Fresh, draft_event,
}

-- The row that `_locked_draft` selects.
abbrev pub is_draft : ℕ → ℕ → Draft → Bool
is_draft org_id draft_id d = (d.id == draft_id) && (d.org_id == org_id)

unfoldable pub locked_draft : ℕ → ℕ → List Draft → Result DraftError Draft
locked_draft org_id draft_id drafts = elim (find (is_draft org_id draft_id) drafts) [
  | none ↦ err (draft_not_found draft_id)
  | some d ↦ ok d
]

unfoldable pub assert_judgeable : Draft → Result DraftError (Unit {0})
assert_judgeable d = if is_judgeable d.status then ok tt else err (not_judgeable d.id d.status)

unfoldable pub lead_with_id : ℕ → Lead → Bool
lead_with_id lead_id l = l.id == lead_id

unfoldable pub lead_of_draft : ℕ → Draft → Db → Result DraftError Lead
unfolding lead_with_id
lead_of_draft org_id d db = elim (find (lead_with_id d.lead_id) db.leads) [
  | none ↦ err lead_missing
  | some l ↦ if l.org_id == org_id then ok l else err lead_missing
]

abbrev pub or_illegal : {A : Type 0} → Result StateError A → Result DraftError A
or_illegal (ok a) = ok a
or_illegal (err e) = err (state_error e)

abbrev pub or_full : {A : Type 0} → Result QueueError A → Result DraftError A
or_full (ok a) = ok a
or_full (err e) = err (queue_error e)

pub record Approval : Type 0 where
  pub org_id : ℕ
  pub draft_id : ℕ
  pub approved_by : String
  pub edited_subject : Option (List ℕ)
  pub edited_body : Option (List ℕ)
  pub now : ℕ

abbrev pub differs : Option (List ℕ) → List ℕ → Bool
differs none old = false
differs (some new) old = not (same_text new old)

unfoldable pub is_edited : Approval → Draft → Bool
is_edited a d = differs a.edited_subject d.subject || differs a.edited_body d.body

unfoldable pub assert_fixed : Approval → Draft → Result DraftError (Unit {0})
unfolding is_edited
assert_fixed a d =
    if is_failed d.status && not (is_edited a d) then err (failed_validation d.id) else ok tt

abbrev pub edit_or : Option (List ℕ) → List ℕ → List ℕ
edit_or none old = strip old
edit_or (some new) old = strip new

unfoldable pub approved_row : Approval → Draft → Draft
approved_row a d = record d {
  status = DraftStatus.approved;
  approved_by = some a.approved_by;
  approved_at = some a.now;
}

-- The new version that an edit makes.
unfoldable pub edited_draft : Fresh → Approval → Draft → ℕ → Draft
edited_draft new a d version = record {
  id = new.id;
  org_id = a.org_id;
  lead_id = d.lead_id;
  kind = d.kind;
  version = version;
  subject = edit_or a.edited_subject d.subject;
  body = edit_or a.edited_body d.body;
  claims = d.claims;
  validation = record d.validation { human_edited = true };
  status = DraftStatus.approved;
  feedback = none;
  prompt_version = d.prompt_version;
  attach = none;
  derived_from_id = some d.id;
  created_by = some a.approved_by;
  approved_by = some a.approved_by;
  approved_at = some a.now;
  created_at = new.created_at;
}

unfoldable pub save_edit :
    Fresh → Approval → Draft → List Draft → Result DraftError (Draft × List Draft)
save_edit new a d drafts = do
  let retired =
      update_where (is_draft a.org_id a.draft_id) (with_status DraftStatus.superseded) drafts
  let target = edited_draft new a d (next_version d.lead_id d.kind retired)
  drafts' ← insert_draft target retired
  ok (target, drafts')

unfoldable pub approve_edited :
    Fresh → Approval → Draft → List Draft → Result DraftError (Draft × List Draft)
unfolding save_edit
approve_edited new a d drafts =
    if is_none_of (edit_or a.edited_subject d.subject) || is_none_of (edit_or a.edited_body d.body)
    then err empty_edit
    else save_edit new a d drafts

-- The draft that is approved, and the table.
unfoldable pub approve_text :
    Fresh → Approval → Draft → List Draft → Result DraftError (Draft × List Draft)
unfolding is_edited approve_edited
approve_text new a d drafts =
    if is_edited a d
    then approve_edited new a d drafts
    else ok (approved_row a d, update_where (is_draft a.org_id a.draft_id) (approved_row a) drafts)

abbrev pub review_move : ℕ → ℕ → LeadState → String → Json → ℕ → Move
review_move org_id lead_id to_state actor_id data_ now = record {
  org_id = org_id;
  lead_id = lead_id;
  to_state = to_state;
  actor = Actor.user;
  actor_id = some actor_id;
  data_ = data_;
  next_action_at = none;
  clear_next_action = false;
  flags_add = [];
  flags_remove = [];
  now = now;
}

abbrev pub open_move : Approval → Draft → Lead → Move
open_move a target lead =
    review_move a.org_id lead.id LeadState.awaiting_approval a.approved_by
      (("draft_id", Value.id target.id)
        ∷ ("reason", Value.text "a reviewer opened a failed draft")
        ∷ [])
      a.now

-- The step that a failed draft left out; the lead is the same object afterwards, in its new state.
unfoldable pub open_failed : Approval → Draft → Lead → Db → Result StateError (Lead × Db)
open_failed a target lead db =
    if same_state lead.state LeadState.drafted
    then transition (open_move a target lead) db
    else ok (lead, db)

abbrev pub approval_data : Draft → Bool → Json
approval_data target edited =
    ("draft_id", Value.id target.id)
    ∷ ("version", Value.number target.version)
    ∷ ("edited", Value.flag edited)
    ∷ []

unfoldable pub approval_event : Approval → Draft → Draft → Lead → Db → Db
approval_event a d target lead db =
    record_event
      (draft_event a.org_id (some lead.campaign_id) lead.id Actor.user (some a.approved_by)
        "draft.approved"
        (approval_data target (is_edited a d)
          ++ ("kind", Value.text (kind_name d.kind)) ∷ ("lead_state", Value.state lead.state) ∷ []))
      db

abbrev pub is_initial : MessageKind → Bool
is_initial initial = true
is_initial _ = false

abbrev pub approval_move : Approval → Draft → Draft → Lead → Move
approval_move a d target lead =
    review_move a.org_id lead.id LeadState.approved a.approved_by
      (approval_data target (is_edited a d)) a.now

-- Only a first e-mail moves the lead.
unfoldable pub move_approved : Approval → Draft → Draft → Lead → Db → Result StateError Db
unfolding approval_event
move_approved a d target lead db =
    if is_initial d.kind
    then (transition (approval_move a d target lead) db >>= λ moved. ok moved.1)
    else ok (approval_event a d target lead db)

unfoldable pub move_lead : Approval → Draft → Draft → Lead → Db → Result DraftError (Draft × Db)
move_lead a d target lead db = do
  (lead', db') ← or_illegal (open_failed a target lead db)
  db'' ← or_illegal (move_approved a d target lead' db')
  ok (target, db'')

unfoldable pub approve : Fresh → Approval → Db → Result DraftError (Draft × Db)
approve new a db = do
  draft ← locked_draft a.org_id a.draft_id db.drafts
  assert_judgeable draft
  lead ← lead_of_draft a.org_id draft db
  assert_fixed a draft
  (target, drafts) ← approve_text new a draft db.drafts
  move_lead a draft target lead (record db { drafts = drafts })

pub record Rejection : Type 0 where
  pub org_id : ℕ
  pub draft_id : ℕ
  pub rejected_by : String
  pub feedback : List ℕ
  pub now : ℕ

unfoldable pub assert_rejections : Draft → List Draft → Result DraftError (Unit {0})
assert_rejections d drafts =
    if leb max_rejections (count (is_refused d.lead_id d.kind) drafts)
    then err too_many_rejections
    else ok tt

unfoldable pub rejected_row : Rejection → Draft → Draft
rejected_row r d = record d {
  status = DraftStatus.rejected;
  feedback = some (take 2000 (strip r.feedback));
}

unfoldable pub send_back : Rejection → Draft → Lead → Db → Result StateError Db
unfolding rejected_row
send_back r d lead db =
    if same_state lead.state LeadState.awaiting_approval
    then (transition
          (review_move r.org_id lead.id LeadState.drafted r.rejected_by
            (("draft_id", Value.id d.id)
              ∷ ("feedback", Value.chars (take 2000 (strip r.feedback)))
              ∷ [])
            r.now)
          db
        >>= λ moved. ok moved.1)
    else ok db

-- A follow-up is written again as a reply is.
abbrev pub redraft_kind : MessageKind → JobKind
redraft_kind initial = JobKind.draft_lead
redraft_kind _ = JobKind.draft_reply

unfoldable pub redraft_job : ℕ → Draft → Lead → NewJob
redraft_job org_id d lead = record {
  org_id = org_id;
  kind = redraft_kind d.kind;
  lead_id = some lead.id;
  payload = ("lead_id", Value.id lead.id) ∷ [];
  priority = 100;
  run_after = none;
  dedupe_key = some (record { prefix = "draft"; parts = lead.id ∷ [] });
  max_attempts = none;
}

unfoldable pub redraft :
    QueueConfig → ℕ → ℕ → Rejection → Draft → Lead → Db → Result DraftError (Draft × Db)
unfolding redraft_job
redraft config job_id clock r d lead db = do
  db' ← or_illegal (send_back r d lead db)
  (row, jobs) ← or_full (enqueue config (redraft_job r.org_id d lead) job_id clock db'.jobs)
  ok (rejected_row r d, record db' { jobs = jobs })

-- `job_id` is the id of a new job, `clock` what the queue reads.
unfoldable pub reject : QueueConfig → ℕ → ℕ → Rejection → Db → Result DraftError (Draft × Db)
reject config job_id clock r db = do
  draft ← locked_draft r.org_id r.draft_id db.drafts
  assert_judgeable draft
  assert_rejections draft db.drafts
  lead ← lead_of_draft r.org_id draft db
  let drafts = update_where (is_draft r.org_id r.draft_id) (rejected_row r) db.drafts
  redraft config job_id clock r draft lead (record db { drafts = drafts })

-- `none` for no such draft, `some false` for one that was judged.
unfoldable pub set_attach : ℕ → Option String → ℕ → Bool → Db → Option Bool × Db
set_attach org_id actor_id draft_id attach db =
    elim (find (λ (d : Draft). d.id == draft_id) db.drafts) [
      | none ↦ (none, db)
      | some d ↦
          if not (d.org_id == org_id)
          then (none, db)
          else if not (is_judgeable d.status)
          then (some false, db)
          else (
            some true,
            record_event
                (draft_event org_id none d.lead_id Actor.user actor_id "draft.attachment_toggled" (
                  ("draft_id", Value.id d.id)
                  ∷ ("kind", Value.text (kind_name d.kind))
                  ∷ ("attach", Value.flag attach)
                  ∷ []))
                (record db {
                  drafts =
                      update_where (λ (x : Draft). x.id == draft_id)
                        (λ (x : Draft). record x { attach = some attach }) db.drafts;
                }),
          )
    ]
