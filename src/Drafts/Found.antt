-- ===== src/Drafts/Found.antt =====
-- app/db/drafts.py: the lead and the rows that `approve` and `reject` leave, as a reader finds them.
use outreach_automation.Prelude.{
  ℕ, Bool, true, false, ◌≡◌, refl, sym, ap, subst, inl, inr, List, ◌∷◌, ◌++◌, Option, none, some,
  arith, ◌==◌, if◌then◌else◌, Result, ok, err, Bool-cases, and-left, ==_iff,
}
use outreach_automation.Lead.State.{LeadState, same_state}
use outreach_automation.Db.{Db, Lead, Draft}
use outreach_automation.Db.Table.{find, find-holds}
use outreach_automation.Lead.Transition.{Move, is_lead, moved, record_event, transition}
use outreach_automation.Lead.Transition.Effect.{transition-Done, find-save_lead_self}
use outreach_automation.Drafts.{lead_missing}
use outreach_automation.Drafts.Review.{lead_with_id, lead_of_draft, Approval, open_failed}
use outreach_automation.Drafts.Steps.{either_branch}

-- The row stands in the table.
abbrev pub Has : Draft → List Draft → Type 0
Has d ds = (ys : List Draft) × (zs : List Draft) × (ds ≡ ys ++ d ∷ zs)

-- The lead as the database has it is in this state.
abbrev pub IsIn : ℕ → ℕ → LeadState → Db → Type 0
IsIn org_id lead_id s db =
    (l : Lead) × (find (is_lead org_id lead_id) db.leads ≡ some l) × (l.state ≡ s)

pub transition-found :
    (m : Move) (db : Db) (l : Lead) (db' : Db)
    → transition m db ≡ ok (l, db')
    → (l.id ≡ m.lead_id)
      × (l.state ≡ m.to_state)
      × (find (is_lead m.org_id m.lead_id) db'.leads ≡ some l)
unfolding moved record_event
transition-found m db l db' h =
    let d = transition-Done m db l db' h in
    let own = find-holds (is_lead m.org_id m.lead_id) db.leads d.before d.was in
    let mine = subst (λ x. is_lead m.org_id m.lead_id x ≡ true) (sym d.after) own in
    (
      (==_iff l.id m.lead_id).0 (and-left _ _ mine),
      ap (λ (x : Lead). x.state) d.after,
      subst (λ (x : Db). find (is_lead m.org_id m.lead_id) x.leads ≡ some l) (sym d.saved)
          (find-save_lead_self l d.before m.org_id m.lead_id db d.was mine),
    )

pub lead_of_draft-owns :
    (org_id : ℕ) (d : Draft) (db : Db) (lead : Lead)
    → lead_of_draft org_id d db ≡ ok lead
    → lead.id ≡ d.lead_id
unfolding lead_of_draft lead_with_id
lead_of_draft-owns org_id d db lead h = owner (find (lead_with_id d.lead_id) db.leads) refl h
  where
    owner :
        (o : Option Lead)
        → find (lead_with_id d.lead_id) db.leads ≡ o
        → (elim o [
          | none ↦ err lead_missing
          | some l ↦ if l.org_id == org_id then ok l else err lead_missing
        ])
          ≡ ok lead
        → lead.id ≡ d.lead_id
    owner none e k = absurd (cc)
    owner (some l) e k =
        let same : l ≡ lead = ground (arith, Bool-cases (l.org_id == org_id)) in
        subst (λ (x : Lead). x.id ≡ d.lead_id) same
          ((==_iff l.id d.lead_id).0 (find-holds (lead_with_id d.lead_id) db.leads l e))

pub first_branch :
    {E A : Type 0} (b : Bool) (x y z : Result E A) → b ≡ true → (if b then x else y) ≡ z → x ≡ z
first_branch true x y z e h = h
first_branch false x y z e h = absurd (cc)

pub open_failed-same :
    (a : Approval) (target : Draft) (lead : Lead) (db : Db) (l : Lead) (db' : Db)
    → open_failed a target lead db ≡ ok (l, db')
    → l.id ≡ lead.id
unfolding open_failed
open_failed-same a target lead db l db' h =
    elim (either_branch (same_state lead.state LeadState.drafted) _ _ _ h) [
      | inl e ↦ (transition-found _ db l db' e).0
      | inr e ↦ ground arith
    ]
