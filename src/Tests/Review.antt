-- ===== src/Tests/Review.antt =====
-- Runs of app/services/drafting/generator.py and app/db/drafts.py: a draft is written, rejected,
-- written again and approved with an edit.
use Prim.Native.Nat.{max}
use outreach_automation.Prelude.{
  zero, suc, ℕ, ◌≤◌, ◌≡◌, refl, true, false, List, [], ◌∷◌, none, some, codes, Result, ok, err,
  count, length, arith,
}
use outreach_automation.Lead.State.{LeadState, is_allowed}
use outreach_automation.Db.{Db, Lead, Draft, DraftStatus, initial}
use outreach_automation.Db.Unique.{Unique}
use outreach_automation.Jobs.{QueueConfig, enqueue}
use outreach_automation.Lead.Transition.{
  lock_lead, save_lead, record_event, assert_allowed, moved, transition, add_flags, remove_flags,
}
use outreach_automation.Address.{strip, same_text, is_space, drop_space, trim_end}
use outreach_automation.Drafting.{
  DraftOutput, DraftResult, Task, answered, invalid_output, report_on, with_text, attempts_loop,
  generate_draft, last_draft, passed, validation_payload,
}
use outreach_automation.Drafts.{
  is_open, is_refused, is_judgeable, is_failed, DraftError, Fresh, supersede_live, highest,
  next_version, insert_draft, text_to_save, written, save_draft,
}
use outreach_automation.Drafts.Review.{
  is_draft, lead_with_id, Approval, Rejection, locked_draft, assert_judgeable, lead_of_draft,
  assert_fixed, is_edited, edited_draft, approved_row, save_edit, approve_edited, approve_text,
  open_failed, move_approved, move_lead, approve, rejected_row, assert_rejections, send_back,
  redraft, reject,
}
use outreach_automation.Drafts.Steps.{ReviewOp, write, judge, refuse, perform, perform_all}
use outreach_automation.Drafts.Desk.{Desk, Shows}
use outreach_automation.Drafts.Desk.Each.{by_id}
use outreach_automation.Drafts.Desk.Refines.{DeskRun, perform_all-refines, perform_all-few}
use outreach_automation.Drafts.History.{Kept, perform_all-Kept}
use outreach_automation.Drafting.Checked.{IsChecked, generate_draft-IsChecked}
use outreach_automation.Db.Table.{find}
use outreach_automation.Drafts.Verdict.{
  IsApproved, approve-IsApproved, IsRejected, reject-IsRejected,
}
use outreach_automation.Drafts.Questions.{proposable_from}
use outreach_automation.Drafts.Questions.Proposals.{approve-succeeds}
use outreach_automation.Drafts.Saved.{save_draft-IsChecked}
use outreach_automation.Drafts.Listing.{
  BulkReport, not_in_queue, plain_approval, why_skip, review_queue, items, joined, matches,
  row_limit, bulk_loop, bulk_query, bulk_approve,
}
use outreach_automation.Drafts.Listing.Bulk.{IsCareful, bulk_approve-IsCareful}
use outreach_automation.Tests.Mail.{ada, start}

abbrev config : QueueConfig
config = record { max_queued_jobs_per_org = 100; job_max_attempts = 5; job_lease_seconds = 300 }

abbrev letter : DraftOutput
letter = record { subject = codes "Hello"; body = codes "Dear Ada"; claims = [] }

-- The first answer is not of the schema, the second is a letter that passes.
abbrev pub writing : Task
writing = record {
  kind = initial;
  max_attempts = 3;
  check_claims = true;
  reviewer_feedback = none;
  build_draft_prompt = λ feedback. [];
  validate_draft = λ d. record { failures = []; warnings = [] };
  resolve_evidence = λ ref. none;
  structured = λ n prompt. elim n [ zero ↦ invalid_output (codes "bad") | suc m ↦ answered letter ];
  verdict = λ n claim evidence. invalid_output [];
  unverified = λ claim e. [];
  unsupported = λ claim e. [];
}

generate_draft-IsChecked_example :
    IsChecked writing (generate_draft writing)
    × (1 ≤ length (generate_draft writing).attempts)
    × (length (generate_draft writing).attempts ≤ max 1 3)
generate_draft-IsChecked_example = generate_draft-IsChecked writing

-- The second attempt's letter is the answer.
two_attempts :
    ((generate_draft writing).draft ≡ some letter) × (length (generate_draft writing).attempts ≡ 2)
unfolding generate_draft attempts_loop report_on with_text
two_attempts = (refl, refl)

abbrev result : DraftResult
result = record {
  draft = some letter;
  attempts = [];
  prompt_version = "draft.v1";
  claims_checked = false;
}

abbrev waiting_ada : Lead
waiting_ada = record ada { state = LeadState.awaiting_approval }

abbrev desk_db : Db
desk_db = record start { leads = waiting_ada ∷ [] }

abbrev row_id : ℕ → Fresh
row_id n = record { id = n; created_at = 50 }

abbrev no_thanks : Rejection
no_thanks = record {
  org_id = 1;
  draft_id = 1;
  rejected_by = "bo";
  feedback = codes "Shorter";
  now = 60;
}

abbrev edit : Approval
edit = record {
  org_id = 1;
  draft_id = 2;
  approved_by = "bo";
  edited_subject = some (codes "Hi");
  edited_body = none;
  now = 70;
}

abbrev session : List ReviewOp
session =
    write (row_id 1) 1 waiting_ada initial result "system"
    ∷ refuse 31 60 no_thanks
    ∷ write (row_id 2) 1 waiting_ada initial result "system"
    ∷ judge (row_id 3) edit
    ∷ []

abbrev or_start : Result DraftError Db → Db
or_start (ok db) = db
or_start (err e) = start

abbrev after : Db
after = or_start (perform_all config session desk_db)

session_done : perform_all config session desk_db ≡ ok after
unfolding perform_all perform save_draft supersede_live highest next_version insert_draft
    text_to_save written record_event validation_payload reject redraft locked_draft
    assert_judgeable assert_rejections lead_of_draft send_back rejected_row transition lock_lead
    assert_allowed is_allowed save_lead moved add_flags remove_flags enqueue approve assert_fixed
    is_edited approve_text approve_edited save_edit edited_draft approved_row move_lead open_failed
    move_approved same_text strip drop_space trim_end is_space
session_done = refl

abbrev empty_desk : Desk
empty_desk = record { versions = 0; waiting = false; refused = 0 }

nothing_written : Shows 7 initial desk_db.drafts empty_desk
unfolding highest
nothing_written = (refl, refl, refl)

perform_all-refines_example :
    (t : Desk) × DeskRun empty_desk t × Shows 7 initial after.drafts t × Unique by_id after.drafts
perform_all-refines_example =
    perform_all-refines config session desk_db after 7 initial empty_desk tt nothing_written
      session_done

perform_all-few_example :
    (count (is_open 7 initial) after.drafts ≤ 1) × (count (is_refused 7 initial) after.drafts ≤ 5)
perform_all-few_example =
    perform_all-few config session desk_db after 7 initial empty_desk tt nothing_written
      (omega arith) session_done

perform_all-Kept_example : Kept desk_db.drafts after.drafts
perform_all-Kept_example = perform_all-Kept config session desk_db after tt session_done

-- The table after the first draft was written.
abbrev first_db : Db
first_db =
    or_start
      (perform_all config (write (row_id 1) 1 waiting_ada initial result "system" ∷ []) desk_db)

abbrev pub first_row : Draft
first_row = written (row_id 1) 1 waiting_ada initial result "system" letter 1

first_alone : Unique by_id first_db.drafts
unfolding perform_all perform save_draft supersede_live highest next_version insert_draft
    text_to_save record_event
first_alone = (refl, tt)

first_found : find (is_draft 1 1) first_db.drafts ≡ some first_row
unfolding perform_all perform save_draft supersede_live highest next_version insert_draft
    text_to_save record_event written
first_found = refl

abbrev plain : Approval
plain = plain_approval 1 "bo" 70 1

-- What the approval and the rejection of the first draft answer.
abbrev approval_of : Result DraftError (Draft × Db) → Draft × Db
approval_of (ok r) = r
approval_of (err e) = (first_row, start)

abbrev passed_on : Draft × Db
passed_on = approval_of (approve (row_id 9) plain first_db)

approved_plain : approve (row_id 9) plain first_db ≡ ok (passed_on.0, passed_on.1)
unfolding perform_all perform save_draft supersede_live highest next_version insert_draft
    text_to_save written record_event validation_payload locked_draft assert_judgeable lead_with_id
    lead_of_draft transition lock_lead assert_allowed is_allowed save_lead moved add_flags
    remove_flags approve assert_fixed is_edited approve_text approved_row move_lead open_failed
    move_approved
approved_plain = refl

approve-IsApproved_example : IsApproved plain first_db passed_on.0 passed_on.1
approve-IsApproved_example =
    approve-IsApproved (row_id 9) plain first_db passed_on.0 passed_on.1 first_alone approved_plain

abbrev no_again : Rejection
no_again = record no_thanks { draft_id = 1 }

abbrev sent_away : Draft × Db
sent_away = approval_of (reject config 31 60 no_again first_db)

rejected_first : reject config 31 60 no_again first_db ≡ ok (sent_away.0, sent_away.1)
unfolding perform_all perform save_draft supersede_live highest next_version insert_draft
    text_to_save written record_event validation_payload reject redraft locked_draft
    assert_judgeable lead_with_id assert_rejections lead_of_draft send_back rejected_row transition
    lock_lead assert_allowed is_allowed save_lead moved add_flags remove_flags enqueue strip
    drop_space trim_end is_space
rejected_first = refl

reject-IsRejected_example : IsRejected no_again first_db sent_away.0 sent_away.1
reject-IsRejected_example =
    reject-IsRejected config 31 60 no_again first_db sent_away.0 sent_away.1 first_alone
      rejected_first

first_pending : is_judgeable first_row.status ≡ true
unfolding written
first_pending = refl

first_sound : is_failed first_row.status ≡ false
unfolding written
first_sound = refl

first_lead : find (lead_with_id first_row.lead_id) first_db.leads ≡ some waiting_ada
unfolding perform_all perform save_draft supersede_live highest next_version insert_draft
    text_to_save record_event written lead_with_id
first_lead = refl

first_proposable : proposable_from first_row.kind waiting_ada.state ≡ true
unfolding proposable_from written
first_proposable = refl

first_unchanged : is_edited plain first_row ≡ false
unfolding is_edited
first_unchanged = refl

approve-succeeds_example :
    (db' : Db) × (approve (row_id 9) plain first_db ≡ ok (approved_row plain first_row, db'))
approve-succeeds_example =
    approve-succeeds plain first_row first_db first_found first_pending first_sound (row_id 9)
      waiting_ada first_lead refl first_proposable first_unchanged

abbrev generated : Draft × Db
generated =
    approval_of
      (save_draft (row_id 1) 1 waiting_ada initial (generate_draft writing) "system" desk_db)

generated_saved :
    save_draft (row_id 1) 1 waiting_ada initial (generate_draft writing) "system" desk_db
    ≡ ok (generated.0, generated.1)
unfolding generate_draft attempts_loop report_on with_text save_draft supersede_live highest
    next_version insert_draft text_to_save record_event written
generated_saved = refl

generated_pending : generated.0.status ≡ DraftStatus.pending_review
unfolding generate_draft attempts_loop report_on with_text save_draft supersede_live highest
    next_version insert_draft text_to_save record_event written
generated_pending = refl

save_draft-IsChecked_example :
    (d : DraftOutput) × (generated.0.subject ≡ d.subject)
    × (generated.0.body ≡ d.body)
    × (generated.0.claims ≡ d.claims)
    × (last_draft (generate_draft writing).attempts ≡ some d)
    × (passed (writing.validate_draft d) ≡ true)
save_draft-IsChecked_example =
    save_draft-IsChecked writing (row_id 1) 1 waiting_ada "system" desk_db generated.0 generated.1
      generated_saved generated_pending

-- The research is good enough for a bulk approval of the first draft; there is no fourth.
abbrev researched : Db
researched = record first_db {
  researches = record { lead_id = 7; hooks = []; confidence = 80; thin = false } ∷ [];
}

abbrev report_of : Result DraftError (BulkReport × Db) → BulkReport × Db
report_of (ok r) = r
report_of (err e) = (record { approved = []; skipped = [] }, start)

abbrev bulk : BulkReport × Db
bulk = report_of (bulk_approve (row_id 9) 1 (1 ∷ 4 ∷ []) "bo" 60 70 researched)

bulk_done : bulk_approve (row_id 9) 1 (1 ∷ 4 ∷ []) "bo" 60 70 researched ≡ ok (bulk.0, bulk.1)
unfolding bulk_approve bulk_loop why_skip review_queue items joined matches row_limit perform_all
    perform save_draft supersede_live highest next_version insert_draft text_to_save written
    record_event validation_payload locked_draft assert_judgeable lead_with_id lead_of_draft
    transition lock_lead assert_allowed is_allowed save_lead moved add_flags remove_flags approve
    assert_fixed is_edited approve_text approved_row move_lead open_failed move_approved
bulk_done = refl

bulk_first : (bulk.0.approved ≡ 1 ∷ []) × (bulk.0.skipped ≡ (4, not_in_queue) ∷ [])
unfolding bulk_approve bulk_loop why_skip review_queue items joined matches row_limit perform_all
    perform save_draft supersede_live highest next_version insert_draft text_to_save written
    record_event validation_payload locked_draft assert_judgeable lead_with_id lead_of_draft
    transition lock_lead assert_allowed is_allowed save_lead moved add_flags remove_flags approve
    assert_fixed is_edited approve_text approved_row move_lead open_failed move_approved
bulk_first = (refl, refl)

bulk_approve-IsCareful_example :
    IsCareful config
      (row_id 9)
      1
      (1 ∷ 4 ∷ [])
      "bo"
      60
      70
      (review_queue (bulk_query 1 (1 ∷ 4 ∷ [])) researched)
      bulk.0
      researched
      bulk.1
bulk_approve-IsCareful_example =
    bulk_approve-IsCareful config (row_id 9) 1 (1 ∷ 4 ∷ []) "bo" 60 70 researched bulk.0 bulk.1
      bulk_done
