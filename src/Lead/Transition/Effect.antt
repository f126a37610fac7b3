-- ===== src/Lead/Transition/Effect.antt =====
-- What one transition does, on every branch (app/db/state.py).
use outreach_automation.Prelude.{
  ℕ, true, false, ◌&&◌, ◌≡◌, ◌⊎◌, inl, inr, none, some, ◌==◌, ok, err, arith, subst, sym,
  Bool-cases, Option-cases,
}
use outreach_automation.Lead.State.{is_allowed}
use outreach_automation.Db.{Db, Lead}
use outreach_automation.Db.Table.{
  find, update_where, find-update_self, find-update_other, find-holds,
}
use outreach_automation.Lead.Transition.{
  Move, StateError, lead_not_found, illegal_transition, is_lead, lock_lead, save_lead, record_event,
  assert_allowed, moved, state_changed, transition,
}

-- Saving a lead: the lead is found as it was saved, and every other lead as it was.
pub find-save_lead_self :
    (l old : Lead) (org_id lead_id : ℕ) (db : Db)
    → find (is_lead org_id lead_id) db.leads ≡ some old
    → is_lead org_id lead_id l ≡ true
    → find (is_lead org_id lead_id) (save_lead l db).leads ≡ some l
unfolding save_lead
find-save_lead_self l old org_id lead_id db h k =
    subst (λ (o : ℕ). Found o l.id) (sym org_same)
      (subst (λ (i : ℕ). Found org_id i) (sym id_same)
        (find-update_self (is_lead org_id lead_id) db.leads old l h k))
  where
    Found : ℕ → ℕ → Type 0
    Found o i =
        find (is_lead org_id lead_id) (update_where (is_lead o i) (λ _. l) db.leads) ≡ some l

    id_same : l.id ≡ lead_id
    id_same = ground (arith, k)

    org_same : l.org_id ≡ org_id
    org_same = ground (arith, k)

pub find-save_lead_other :
    (l : Lead) (org_id lead_id : ℕ) (db : Db)
    → is_lead org_id lead_id l ≡ false
    → find (is_lead org_id lead_id) (save_lead l db).leads ≡ find (is_lead org_id lead_id) db.leads
unfolding save_lead
find-save_lead_other l org_id lead_id db h =
    find-update_other (is_lead l.org_id l.id) (is_lead org_id lead_id) db.leads l
      (λ x p. ground arith) h

-- The two ways a transition ends.
pub record Refused (m : Move) (db : Db) (e : StateError) : Type 0 where
  pub why :
      ((find (is_lead m.org_id m.lead_id) db.leads ≡ none) × (e ≡ lead_not_found m.lead_id))
      ⊎ ((l : Lead) × (find (is_lead m.org_id m.lead_id) db.leads ≡ some l)
          × (is_allowed l.state m.to_state ≡ false)
          × (e ≡ illegal_transition m.lead_id l.state m.to_state))

pub record Done (m : Move) (db : Db) (l' : Lead) (db' : Db) : Type 0 where
  pub before : Lead
  pub was : find (is_lead m.org_id m.lead_id) db.leads ≡ some before
  pub legal : is_allowed before.state m.to_state ≡ true
  pub after : l' ≡ moved m before
  pub saved : db' ≡ record_event (state_changed m before) (save_lead l' db)

-- A transition that raises either found no such lead, or found it in a state from which the machine
-- forbids the move, and the error says which.
pub transition-Refused :
    (m : Move) (db : Db) (e : StateError) → transition m db ≡ err e → Refused m db e
unfolding transition lock_lead assert_allowed
transition-Refused m db e h = elim (Option-cases (find (is_lead m.org_id m.lead_id) db.leads)) [
  | inl none' ↦ record { why = inl (none', ground arith) }
  | inr (l, found) ↦ elim (Bool-cases (is_allowed l.state m.to_state)) [
    | inl legal ↦ absurd (ground arith)
    | inr illegal ↦ record { why = inr (l, found, illegal, ground arith) }
  ]
]

-- A transition that returns found the lead in a state from which the machine allows the move; it
-- returns the lead as moved, saves it, and records one event with both states.
pub transition-Done :
    (m : Move) (db : Db) (l' : Lead) (db' : Db) → transition m db ≡ ok (l', db') → Done m db l' db'
unfolding transition lock_lead assert_allowed
transition-Done m db l' db' h = elim (Option-cases (find (is_lead m.org_id m.lead_id) db.leads)) [
  | inl none' ↦ absurd (ground arith)
  | inr (l, found) ↦ elim (Bool-cases (is_allowed l.state m.to_state)) [
    | inl legal ↦ record {
      before = l;
      was = found;
      legal = legal;
      after = ground arith;
      saved = ground arith;
    }
    | inr illegal ↦ absurd (ground arith)
  ]
]

-- A lead that was found, and moved, has the ids that it was found by.
pub moved-is_lead :
    (m : Move) (l : Lead) (db : Db)
    → find (is_lead m.org_id m.lead_id) db.leads ≡ some l
    → is_lead m.org_id m.lead_id (moved m l) ≡ true
unfolding moved
moved-is_lead m l db h = find-holds (is_lead m.org_id m.lead_id) db.leads l h

pub moved_other :
    (m : Move) (l : Lead) (db : Db) (org_id lead_id : ℕ)
    → find (is_lead m.org_id m.lead_id) db.leads ≡ some l
    → ((m.org_id == org_id) && (m.lead_id == lead_id)) ≡ false
    → is_lead org_id lead_id (moved m l) ≡ false
unfolding moved
moved_other m l db org_id lead_id h k =
    ground (arith, find-holds (is_lead m.org_id m.lead_id) db.leads l h)
