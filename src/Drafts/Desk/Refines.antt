-- ===== src/Drafts/Desk/Refines.antt =====
-- app/db/drafts.py against its specification: each operation is a step of every desk.
use outreach_automation.Prelude.{
  ℕ, ◌≤◌, Bool, ◌≡◌, refl, sym, ap, subst, List, [], ◌∷◌, arith, ◌==◌, count, ok, bind-ok, through,
  ok-eq,
}
use outreach_automation.Db.{Db, Draft, DraftStatus, MessageKind}
use outreach_automation.Db.Unique.{Unique, Unique-append, Unique-update_where}
use outreach_automation.Jobs.{QueueConfig}
use outreach_automation.Drafts.{
  max_rejections, is_open, is_refused, next_version, with_status, supersede_live,
}
use outreach_automation.Drafts.Review.{is_draft, approved_row, edited_draft, rejected_row}
use outreach_automation.Drafts.Desk.{
  Desk, DeskStep, elsewhere, put, pass, pass_edited, send_back, Shows, one_if,
}
use outreach_automation.Drafts.Steps.{
  TableMove, wrote, approved, edited, rejected, toggled, untouched, with_attach, ReviewOp, perform,
  perform_all,
}
use outreach_automation.Drafts.Steps.Rejected.{perform-moves}
use outreach_automation.Drafts.Desk.Each.{
  by_id, Moved, wrote-step, approved-step, rejected-step, edited-step, attached,
}

move-step :
    (l : ℕ) (k : MessageKind) (ds ds' : List Draft) (s : Desk)
    → TableMove ds ds'
    → Unique by_id ds
    → Shows l k ds s
    → Moved l k ds' s
move-step l k ds ds' s (wrote d v j fresh) u shows = wrote-step l k ds d s v j shows
move-step l k ds ds' s (approved a d found j) u shows = approved-step l k ds d s u j shows a found
move-step l k ds ds' s (edited new a d retired found j e fresh) u shows =
    edited-step l k ds d s u j shows new a retired found e
move-step l k ds ds' s (rejected r d found j few) u shows =
    rejected-step l k ds d s u j shows r found few
move-step l k ds ds' s (toggled n b) u shows =
    (s, elsewhere, attached l k ds s shows (λ x. x.id == n) b)
move-step l k ds ds' s untouched u shows = (s, elsewhere, shows)

pub move-Unique : (ds ds' : List Draft) → TableMove ds ds' → Unique by_id ds → Unique by_id ds'
unfolding supersede_live approved_row rejected_row edited_draft
move-Unique ds ds' (wrote d v j fresh) u =
    Unique-append by_id (supersede_live d.lead_id d.kind ds) d
      (Unique-update_where by_id (is_open d.lead_id d.kind) (with_status DraftStatus.superseded) ds
        (λ x. refl) u)
      fresh
move-Unique ds ds' (approved a d found j) u =
    Unique-update_where by_id (is_draft a.org_id a.draft_id) (approved_row a) ds (λ x. refl) u
move-Unique ds ds' (edited new a d retired found j e fresh) u =
    Unique-append by_id retired (edited_draft new a d (next_version d.lead_id d.kind retired))
      (subst (Unique by_id) (sym e) (
        Unique-update_where by_id (is_draft a.org_id a.draft_id)
          (with_status DraftStatus.superseded) ds (λ x. refl) u))
      fresh
move-Unique ds ds' (rejected r d found j few) u =
    Unique-update_where by_id (is_draft r.org_id r.draft_id) (rejected_row r) ds (λ x. refl) u
move-Unique ds ds' (toggled n b) u =
    Unique-update_where by_id (λ x. x.id == n) (with_attach b) ds (λ x. refl) u
move-Unique ds ds' untouched u = u

pub data DeskRun : Desk → Desk → Type 0 where
  rest : {s : Desk} → DeskRun s s
  later : {s t r : Desk} → DeskStep s t → DeskRun t r → DeskRun s r

-- Operations one after another, from a table whose ids are distinct and which a desk describes, are
-- steps of that desk: the table that they leave is described by the desk that the steps reach. So no
-- second draft of a lead and kind ever waits, a draft is judged only while it waits, and at most
-- five are rejected.
pub perform_all-refines :
    (config : QueueConfig) (os : List ReviewOp) (db db' : Db) (l : ℕ) (k : MessageKind) (s : Desk)
    → Unique by_id db.drafts
    → Shows l k db.drafts s
    → perform_all config os db ≡ ok db'
    → (t : Desk) × DeskRun s t × Shows l k db'.drafts t × Unique by_id db'.drafts
unfolding perform_all
perform_all-refines config [] db db' l k s u shows h =
    let e = ap (λ (x : Db). x.drafts) (ok-eq h) in
    (s, rest, subst (λ ds. Shows l k ds s) e shows, subst (Unique by_id) e u)
perform_all-refines config (o ∷ os) db db' l k s u shows h =
    elim (bind-ok (perform config o db) _ _ h) [
      | through db1 done h1 ↦
          let m = perform-moves config o db db1 done in
          let t = move-step l k db.drafts db1.drafts s m u shows in
          let r =
            perform_all-refines config os db1 db' l k t.0 (move-Unique db.drafts db1.drafts m u) t.2
              h1 in
          (r.0, later t.1 r.1, r.2, r.3)
    ]

step-refused : (s t : Desk) → DeskStep s t → s.refused ≤ max_rejections → t.refused ≤ max_rejections
step-refused s t elsewhere h = h
step-refused s t put h = h
step-refused s t (pass w) h = h
step-refused s t (pass_edited w) h = h
step-refused s t (send_back w few) h = omega arith

run-refused : (s t : Desk) → DeskRun s t → s.refused ≤ max_rejections → t.refused ≤ max_rejections
run-refused s t rest h = h
run-refused s t (later {t = m} step run) h = run-refused m t run (step-refused s m step h)

-- However long a review goes on, at most one draft of a lead and kind waits and at most five of them
-- are rejected, if that was so when the run began and the drafts' ids were distinct.
pub perform_all-few :
    (config : QueueConfig) (os : List ReviewOp) (db db' : Db) (l : ℕ) (k : MessageKind) (s : Desk)
    → Unique by_id db.drafts
    → Shows l k db.drafts s
    → s.refused ≤ max_rejections
    → perform_all config os db ≡ ok db'
    → (count (is_open l k) db'.drafts ≤ 1) × (count (is_refused l k) db'.drafts ≤ max_rejections)
perform_all-few config os db db' l k s u shows few h =
    let r = perform_all-refines config os db db' l k s u shows h in
    let b = run-refused s r.0 r.1 few in
    (at_most_one _ r.0.waiting r.2.1, subst (λ n. n ≤ max_rejections) (sym r.2.2) b)
  where
    at_most_one : (n : ℕ) (b : Bool) → n ≡ one_if b → n ≤ 1
    at_most_one n b e = ground arith
