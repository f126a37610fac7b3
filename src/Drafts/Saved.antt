-- ===== src/Drafts/Saved.antt =====
-- app/db/drafts.py, `save_draft`, with app/services/drafting/generator.py before it: when a draft is
-- stored, and what a draft that waits for a reviewer went through.
use outreach_automation.Prelude.{
  ℕ, ◌+◌, true, false, ◌≡◌, refl, sym, ap, ◌∙◌, List, [], ◌∷◌, ◌++◌, Option, none, some, String,
  arith, ◌==◌, if◌then◌else◌, any, Result, ok, err, bind-to, ok-eq,
}
use outreach_automation.Db.{Db, Lead, Draft, DraftStatus, MessageKind}
use outreach_automation.Db.Unique.{any-has-update_where}
use outreach_automation.Drafting.{
  DraftOutput, DraftResult, last_draft, passed, Task, generate_draft,
}
use outreach_automation.Drafting.Checked.{generate_draft-IsChecked}
use outreach_automation.Drafts.{
  DraftError, no_text, integrity_error, Fresh, is_open, with_status, highest, supersede_live,
  next_version, insert_draft, text_to_save, status_of, written, save_draft,
}
use outreach_automation.Drafts.Desk.{highest-bounds}
use outreach_automation.Drafts.Desk.Each.{by_id}
use outreach_automation.Drafts.Steps.{saved_row, save_draft-saved}

-- A version that is higher than every other is free.
insert_draft-free :
    (d : Draft) (ds : List Draft)
    → any (λ (x : Draft). x.id == d.id) ds ≡ false
    → d.version ≡ highest d.lead_id d.kind ds + 1
    → insert_draft d ds ≡ ok (ds ++ d ∷ [])
unfolding insert_draft
insert_draft-free d ds fresh v =
    let free = highest-bounds d.lead_id d.kind d.version ds (omega (arith, v)) in ground arith

only_integrity :
    (d : Draft) (ds : List Draft) (e : DraftError) → insert_draft d ds ≡ err e → e ≡ integrity_error
unfolding insert_draft
only_integrity d ds e h = ground arith

module _ (new : Fresh) (org_id : ℕ) (lead : Lead) (kind : MessageKind) (result : DraftResult)
    (created_by : String) (db : Db) where
  -- A result with a text is stored, whatever versions there are, if its id is new.
  pub save_draft-succeeds :
      (text : DraftOutput)
      → text_to_save result ≡ ok text
      → any (λ (x : Draft). x.id == new.id) db.drafts ≡ false
      → (row : Draft) × (db' : Db) × (save_draft new org_id lead kind result created_by db
          ≡ ok (row, db'))
        × (row.status ≡ status_of result)
  unfolding save_draft written supersede_live next_version
  save_draft-succeeds text e fresh =
      let row = saved_row new org_id lead kind result created_by db.drafts text in
      let retired = supersede_live lead.id kind db.drafts in
      (
        row,
        _,
        bind-to (text_to_save result) _ text _ e (
            bind-to (insert_draft row retired) _ (retired ++ row ∷ []) _
              (insert_draft-free row retired
                (any-has-update_where by_id new.id (is_open lead.id kind)
                    (with_status DraftStatus.superseded) db.drafts (λ x. refl)
                  ∙ fresh)
                refl)
              refl),
        refl,
      )

pending_draft :
    (r : DraftResult) (text : DraftOutput)
    → text_to_save r ≡ ok text
    → status_of r ≡ DraftStatus.pending_review
    → r.draft ≡ some text
unfolding text_to_save
pending_draft r text e h = go r.draft e h
  where
    go :
        (o : Option DraftOutput)
        → ◌≡◌ {A = Result DraftError DraftOutput}
            (elim o [
              | some d ↦ ok d
              | none ↦ elim (last_draft r.attempts) [ none ↦ err no_text | some d ↦ ok d ]
            ])
            (ok text)
        → (if (elim o [ none ↦ false | some _ ↦ true ])
            then DraftStatus.pending_review
            else DraftStatus.validation_failed)
          ≡ DraftStatus.pending_review
        → o ≡ some text
    go (some d) f k = ap some (ok-eq f)
    go none f k = absurd (cc)

-- A draft that the generator wrote and that waits for a reviewer has the text of the last attempt,
-- and the deterministic rules found nothing against that text.
pub save_draft-IsChecked :
    (t : Task) (new : Fresh) (org_id : ℕ) (lead : Lead) (created_by : String) (db : Db)
    (row : Draft) (db' : Db)
    → save_draft new org_id lead t.kind (generate_draft t) created_by db ≡ ok (row, db')
    → row.status ≡ DraftStatus.pending_review
    → (d : DraftOutput) × (row.subject ≡ d.subject)
      × (row.body ≡ d.body)
      × (row.claims ≡ d.claims)
      × (last_draft (generate_draft t).attempts ≡ some d)
      × (passed (t.validate_draft d) ≡ true)
unfolding written
save_draft-IsChecked t new org_id lead created_by db row db' h p =
    let (text, e, r, i) =
      save_draft-saved new org_id lead t.kind (generate_draft t) created_by db row db' h in
    let checked = (generate_draft-IsChecked t).0 in
    let d = pending_draft (generate_draft t) text e (sym (ap (λ (x : Draft). x.status) r) ∙ p) in
    (
      text,
      ap (λ (x : Draft). x.subject) r,
      ap (λ (x : Draft). x.body) r,
      ap (λ (x : Draft). x.claims) r,
      checked.latest text d,
      checked.rules text d,
    )
