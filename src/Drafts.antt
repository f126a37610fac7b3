-- ===== src/Drafts.antt =====
-- app/db/drafts.py: the versions of a draft, and what a reviewer does to them. The id and the
-- creation time that the database gives a new row are an argument; an `UPDATE` sets its columns and
-- keeps the others.
pub mod Review
pub mod Desk
pub mod Steps
pub mod History
pub mod Found
pub mod Redraft
pub mod Verdict
pub mod Listing
pub mod Questions
pub mod Saved
use Prim.Native.Nat.{max}
use outreach_automation.Prelude.{
  ℕ, ◌+◌, Bool, true, false, not, ◌&&◌, ◌||◌, List, [], ◌∷◌, ◌++◌, Option, none, some, String,
  codes, ltb, leb, ◌==◌, if◌then◌else◌, any, count, take, Result, ok, err, ◌>>=◌, ◌>>◌,
}
use outreach_automation.Address.{strip, same_text}
use outreach_automation.Lead.State.{LeadState, drafted, awaiting_approval, approved, same_state}
use outreach_automation.Db.{
  Db, Lead, Event, Actor, Json, Value, Draft, DraftStatus, Checks, MessageKind, initial, followup,
  reply, draft_lead, draft_reply,
}
use outreach_automation.Db.Table.{find, update_where}
use outreach_automation.Lead.Transition.{StateError, Move, record_event, transition}
use outreach_automation.Jobs.{QueueConfig, QueueError, NewJob, enqueue}
use outreach_automation.Sendable.{kind_index, kind_name}
use outreach_automation.Drafting.{
  DraftOutput, DraftResult, accepted, last_draft, validation_payload,
}

pub data DraftError : Type 0 where
  no_text : DraftError
  integrity_error : DraftError
  draft_not_found : ℕ → DraftError
  not_judgeable : ℕ → DraftStatus → DraftError
  lead_missing : DraftError
  failed_validation : ℕ → DraftError
  empty_edit : DraftError
  too_many_rejections : DraftError
  state_error : StateError → DraftError
  queue_error : QueueError → DraftError

-- `JUDGEABLE_STATUSES`.
abbrev pub is_judgeable : DraftStatus → Bool
is_judgeable DraftStatus.generated = true
is_judgeable DraftStatus.validated = true
is_judgeable DraftStatus.pending_review = true
is_judgeable DraftStatus.validation_failed = true
is_judgeable _ = false

abbrev pub is_failed : DraftStatus → Bool
is_failed DraftStatus.validation_failed = true
is_failed _ = false

abbrev pub is_rejected : DraftStatus → Bool
is_rejected DraftStatus.rejected = true
is_rejected _ = false

abbrev pub max_rejections : ℕ
max_rejections = 5

-- A draft of this lead and kind.
abbrev pub is_of : ℕ → MessageKind → Draft → Bool
is_of lead_id kind d = (d.lead_id == lead_id) && (kind_index d.kind == kind_index kind)

-- A draft of theirs that a reviewer may judge, and one that was rejected.
abbrev pub is_open : ℕ → MessageKind → Draft → Bool
is_open lead_id kind d = is_of lead_id kind d && is_judgeable d.status

abbrev pub is_refused : ℕ → MessageKind → Draft → Bool
is_refused lead_id kind d = is_of lead_id kind d && is_rejected d.status

-- `max(version)`, and 0 where there is none.
unfoldable pub highest : ℕ → MessageKind → List Draft → ℕ
highest lead_id kind [] = 0
highest lead_id kind (d ∷ ds) =
    if is_of lead_id kind d
    then max d.version (highest lead_id kind ds)
    else highest lead_id kind ds

unfoldable pub next_version : ℕ → MessageKind → List Draft → ℕ
next_version lead_id kind ds = highest lead_id kind ds + 1

abbrev pub with_status : DraftStatus → Draft → Draft
with_status s d = record d { status = s }

unfoldable pub supersede_live : ℕ → MessageKind → List Draft → List Draft
supersede_live lead_id kind ds =
    update_where (is_open lead_id kind) (with_status DraftStatus.superseded) ds

-- The primary key, and `uq_drafts_lead_kind_version`.
abbrev pub has_version : ℕ → MessageKind → ℕ → Draft → Bool
has_version lead_id kind version d = is_of lead_id kind d && (d.version == version)

unfoldable pub insert_draft : Draft → List Draft → Result DraftError (List Draft)
insert_draft d ds =
    if any (λ (x : Draft). x.id == d.id) ds || any (has_version d.lead_id d.kind d.version) ds
    then err integrity_error
    else ok (ds ++ d ∷ [])

-- What the database gives a new row.
pub record Fresh : Type 0 where
  pub id : ℕ
  pub created_at : ℕ

abbrev pub status_of : DraftResult → DraftStatus
status_of r = if accepted r then DraftStatus.pending_review else DraftStatus.validation_failed

unfoldable pub written :
    Fresh → ℕ → Lead → MessageKind → DraftResult → String → DraftOutput → ℕ → Draft
written new org_id lead kind result created_by text version = record {
  id = new.id;
  org_id = org_id;
  lead_id = lead.id;
  kind = kind;
  version = version;
  subject = text.subject;
  body = text.body;
  claims = text.claims;
  validation = validation_payload result;
  status = status_of result;
  feedback = none;
  prompt_version = some result.prompt_version;
  attach = none;
  derived_from_id = none;
  created_by = some created_by;
  approved_by = none;
  approved_at = none;
  created_at = new.created_at;
}

-- The draft of the result, or the text of its last attempt.
unfoldable pub text_to_save : DraftResult → Result DraftError DraftOutput
text_to_save result = elim result.draft [
  | some d ↦ ok d
  | none ↦ elim (last_draft result.attempts) [ none ↦ err no_text | some d ↦ ok d ]
]

abbrev pub status_name : DraftStatus → String
status_name DraftStatus.generated = "generated"
status_name DraftStatus.validated = "validated"
status_name DraftStatus.validation_failed = "validation_failed"
status_name DraftStatus.pending_review = "pending_review"
status_name DraftStatus.approved = "approved"
status_name DraftStatus.rejected = "rejected"
status_name DraftStatus.superseded = "superseded"
status_name DraftStatus.sent = "sent"

abbrev pub draft_event : ℕ → Option ℕ → ℕ → Actor → Option String → String → Json → Event
draft_event org_id campaign_id lead_id actor actor_id type data_ = record {
  org_id = org_id;
  campaign_id = campaign_id;
  lead_id = some lead_id;
  actor = actor;
  actor_id = actor_id;
  type = type;
  from_state = none;
  to_state = none;
  data_ = data_;
}

unfoldable pub created_event : ℕ → Lead → Draft → Event
created_event org_id lead d =
    draft_event org_id (some lead.campaign_id) lead.id Actor.llm none "draft.created" (
      ("kind", Value.text (kind_name d.kind))
      ∷ ("version", Value.number d.version)
      ∷ ("status", Value.text (status_name d.status))
      ∷ ("attempts", Value.number d.validation.attempts)
      ∷ [])

unfoldable pub save_draft :
    Fresh → ℕ → Lead → MessageKind → DraftResult → String → Db → Result DraftError (Draft × Db)
save_draft new org_id lead kind result created_by db = do
  let retired = supersede_live lead.id kind db.drafts
  text ← text_to_save result
  let row = written new org_id lead kind result created_by text (next_version lead.id kind retired)
  drafts ← insert_draft row retired
  ok (row, record_event (created_event org_id lead row) (record db { drafts = drafts }))
