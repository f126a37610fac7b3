-- ===== src/Drafts/Questions/Proposals.antt =====
-- app/db/drafts.py: `PROPOSABLE_FROM` agrees with `approve`.
use outreach_automation.Prelude.{
  Bool, true, false, ◌≡◌, refl, sym, ap, subst, ◌∙◌, ◌⊎◌, inl, inr, List, [], ◌∷◌, some, arith,
  ◌==◌, if◌then◌else◌, Result, ok, ◌>>=◌, Result-cases, some-eq, bind-to, ==_iff, ==_refl, and-left,
}
use outreach_automation.Lead.State.{LeadState, is_allowed, same_state}
use outreach_automation.Db.{Db, Lead, Draft, MessageKind}
use outreach_automation.Db.Table.{find, update_where, find-holds}
use outreach_automation.Lead.Transition.{Move, is_lead, moved, transition}
use outreach_automation.Lead.Transition.Effect.{transition-Refused}
use outreach_automation.Drafts.{Fresh, is_judgeable, is_failed}
use outreach_automation.Drafts.Review.{
  approved_row, is_draft, is_initial, or_illegal, approval_event, lead_with_id, locked_draft,
  assert_judgeable, lead_of_draft, assert_fixed, is_edited, Approval, approve_text, open_move,
  approval_move, open_failed, move_approved, move_lead, approve,
}
use outreach_automation.Drafts.Found.{transition-found}
use outreach_automation.Drafts.Questions.{proposable_from}

-- The row that a weaker test finds first, if the stronger test accepts it.
find-stronger :
    (p q : Lead → Bool) (xs : List Lead) (l : Lead)
    → ((x : Lead) → q x ≡ true → p x ≡ true)
    → find p xs ≡ some l
    → q l ≡ true
    → find q xs ≡ some l
find-stronger p q [] l h e k = cc
find-stronger p q (x ∷ xs) l h e k = ground (arith, h x, find-stronger p q xs l h)

Succeeds : {E A : Type 0} → Result E A → Type 0
Succeeds {A = A} r = (a : A) × (r ≡ ok a)

transition-succeeds :
    (m : Move) (db : Db) (l : Lead)
    → find (is_lead m.org_id m.lead_id) db.leads ≡ some l
    → is_allowed l.state m.to_state ≡ true
    → (l' : Lead) × (db' : Db) × (transition m db ≡ ok (l', db'))
transition-succeeds m db l found legal = elim (Result-cases (transition m db)) [
  | inr ((l', db'), h) ↦ (l', db', h)
  | inl (e, h) ↦ elim (transition-Refused m db e h).why [
    | inl (missing, _) ↦ absurd (cc)
    | inr (l', found', illegal, _) ↦ absurd (
        let same = some-eq (sym found ∙ found') in
        let legal' = subst (λ (x : Lead). is_allowed x.state m.to_state ≡ true) same legal in cc)
  ]
]

take_branch :
    {E A : Type 0} (b : Bool) (x y z : Result E A) → b ≡ true → x ≡ z → (if b then x else y) ≡ z
take_branch true x y z e h = h
take_branch false x y z e h = absurd (cc)

open_failed-drafted :
    (a : Approval) (target : Draft) (lead : Lead) (db : Db)
    → find (is_lead a.org_id lead.id) db.leads ≡ some lead
    → lead.state ≡ LeadState.drafted
    → (l : Lead) × (db' : Db) × (open_failed a target lead db ≡ ok (l, db'))
      × (find (is_lead a.org_id l.id) db'.leads ≡ some l)
      × (l.state ≡ LeadState.awaiting_approval)
unfolding open_failed is_allowed
open_failed-drafted a target lead db found e =
    let (l, db', done) =
      transition-succeeds (open_move a target lead) db lead found
        (ap (λ s. is_allowed s LeadState.awaiting_approval) e) in
    let (same, state, found') = transition-found (open_move a target lead) db l db' done in
    (
      l,
      db',
      take_branch (same_state lead.state LeadState.drafted) _ _ _
          (ap (λ s. same_state s LeadState.drafted) e) done,
      subst (λ n. find (is_lead a.org_id n) db'.leads ≡ some l) (sym same) found',
      state,
    )

move_approved-awaiting :
    (a : Approval) (d target : Draft) (lead : Lead) (db : Db)
    → find (is_lead a.org_id lead.id) db.leads ≡ some lead
    → lead.state ≡ LeadState.awaiting_approval
    → is_initial d.kind ≡ true
    → (db' : Db) × (move_approved a d target lead db ≡ ok db')
unfolding move_approved is_allowed
move_approved-awaiting a d target lead db found e i =
    let (l, db', done) =
      transition-succeeds (approval_move a d target lead) db lead found
        (ap (λ s. is_allowed s LeadState.approved) e) in
    (db', take_branch (is_initial d.kind) _ _ _ i (ap (λ r. r >>= λ moved. ok moved.1) done))

-- Either a first e-mail of a lead that is drafted or awaits approval, or an e-mail that moves no lead.
proposable-cases :
    (k : MessageKind) (s : LeadState)
    → proposable_from k s ≡ true
    → ((is_initial k ≡ true) × ((s ≡ LeadState.drafted) ⊎ (s ≡ LeadState.awaiting_approval)))
      ⊎ ((is_initial k ≡ false) × (same_state s LeadState.drafted ≡ false))
unfolding proposable_from
proposable-cases k s h = ground arith

other_branch :
    {E A : Type 0} (b : Bool) (x y z : Result E A) → b ≡ false → y ≡ z → (if b then x else y) ≡ z
other_branch false x y z e h = h
other_branch true x y z e h = absurd (cc)

open_failed-elsewhere :
    (a : Approval) (target : Draft) (lead : Lead) (db : Db)
    → same_state lead.state LeadState.drafted ≡ false
    → open_failed a target lead db ≡ ok (lead, db)
unfolding open_failed
open_failed-elsewhere a target lead db h =
    other_branch (same_state lead.state LeadState.drafted) _ _ _ h refl

-- Both moves, one after the other.
both_moves :
    (a : Approval) (d target : Draft) (lead l : Lead) (db db1 db2 : Db)
    → open_failed a target lead db ≡ ok (l, db1)
    → move_approved a d target l db1 ≡ ok db2
    → move_lead a d target lead db ≡ ok (target, db2)
unfolding move_lead
both_moves a d target lead l db db1 db2 h k =
    bind-to (or_illegal (open_failed a target lead db)) _ (l, db1) (target, db2) (ap or_illegal h)
      (bind-to (or_illegal (move_approved a d target l db1)) _ db2 (target, db2) (ap or_illegal k)
        refl)

move_lead-ready :
    (a : Approval) (d target : Draft) (lead : Lead) (db : Db)
    → find (is_lead a.org_id lead.id) db.leads ≡ some lead
    → proposable_from d.kind lead.state ≡ true
    → (db' : Db) × (move_lead a d target lead db ≡ ok (target, db'))
unfolding move_approved
move_lead-ready a d target lead db found h = elim (proposable-cases d.kind lead.state h) [
  | inr (k, e) ↦ (
    approval_event a d target lead db,
    both_moves a d target lead lead db db (approval_event a d target lead db)
        (open_failed-elsewhere a target lead db e) (other_branch (is_initial d.kind) _ _ _ k refl),
  )
  | inl (k, inr e) ↦
      let (db', done) = move_approved-awaiting a d target lead db found e k in
      (
        db',
        both_moves a d target lead lead db db db'
            (open_failed-elsewhere a target lead db (ap (λ s. same_state s LeadState.drafted) e))
            done,
      )
  | inl (k, inl e) ↦
      let (l, db1, opened, found1, state) = open_failed-drafted a target lead db found e in
      let (db', done) = move_approved-awaiting a d target l db1 found1 state k in
      (db', both_moves a d target lead l db db1 db' opened done)
]

module _ (a : Approval) (d : Draft) (db : Db)
    (found : find (is_draft a.org_id a.draft_id) db.drafts ≡ some d)
    (judgeable : is_judgeable d.status ≡ true) (sound : is_failed d.status ≡ false) where
  locked : locked_draft a.org_id a.draft_id db.drafts ≡ ok d
  unfolding locked_draft
  locked = ground arith

  may_judge : assert_judgeable d ≡ ok tt
  unfolding assert_judgeable
  may_judge = ground arith

  need_not_fix : assert_fixed a d ≡ ok tt
  unfolding assert_fixed
  need_not_fix = ground arith

  lead_found :
      (l : Lead)
      → find (lead_with_id d.lead_id) db.leads ≡ some l
      → l.org_id ≡ a.org_id
      → lead_of_draft a.org_id d db ≡ ok l
  unfolding lead_of_draft lead_with_id
  lead_found l e o = ground (arith, ==_iff l.org_id a.org_id)

  plain_text :
      (new : Fresh)
      → is_edited a d ≡ false
      → approve_text new a d db.drafts
        ≡ ok (
          approved_row a d,
          update_where (is_draft a.org_id a.draft_id) (approved_row a) db.drafts,
        )
  unfolding approve_text
  plain_text new e = other_branch (is_edited a d) _ _ _ e refl

  -- A draft that passed validation and waits for its reviewer can be approved without an edit, and
  -- the lead's state does not stand in the way, whenever the lead is in a state that a draft of the
  -- kind may be proposed from.
  pub approve-succeeds :
      (new : Fresh) (lead : Lead)
      → find (lead_with_id d.lead_id) db.leads ≡ some lead
      → lead.org_id ≡ a.org_id
      → proposable_from d.kind lead.state ≡ true
      → is_edited a d ≡ false
      → (db' : Db) × (approve new a db ≡ ok (approved_row a d, db'))
  unfolding approve lead_with_id
  approve-succeeds new lead owned org h plain =
      let same =
        (==_iff lead.id d.lead_id).0 (find-holds (lead_with_id d.lead_id) db.leads lead owned) in
      let drafts = update_where (is_draft a.org_id a.draft_id) (approved_row a) db.drafts in
      let mine =
        find-stronger (lead_with_id d.lead_id) (is_lead a.org_id lead.id) db.leads lead
          (λ x q. subst (λ n. (x.id == n) ≡ true) same (and-left _ _ q)) owned
          (ground (arith, ==_refl lead.id, ==_iff lead.org_id a.org_id)) in
      let (db', moved) =
        move_lead-ready a d (approved_row a d) lead (record db { drafts = drafts }) mine h in
      (
        db',
        bind-to _ _ d _ locked (
            bind-to _ _ tt _ may_judge (
              bind-to _ _ lead _ (lead_found lead owned org) (
                bind-to _ _ tt _ need_not_fix
                  (bind-to _ _ (approved_row a d, drafts) _ (plain_text new plain) moved)))),
      )
