-- ===== src/Lead/Transition/History.antt =====
-- The audit trail (app/db/state.py): a lead's events are the path that its state took.
use text.Mathlib.Text.{◌==◌ as str_eq}
use mathlib.Core.List.{append-nil, append_assoc}
use outreach_automation.Prelude.{
  ℕ, Bool, true, false, ◌&&◌, ◌≡◌, refl, inl, inr, List, [], ◌∷◌, ◌++◌, Option, none, some, ◌==◌,
  if◌then◌else◌, Result, ok, err, arith, Bool-cases, ==_refl, some-eq, sym, ◌∙◌, subst, ap,
}
use outreach_automation.Lead.State.{LeadState, new, approved, awaiting_approval, is_allowed, is_in}
use outreach_automation.Lead.State.Paths.{is_path, end_of, mail_left, mail_needs_approval}
use outreach_automation.Db.{Db, Lead, Event}
use outreach_automation.Db.Table.{find}
use outreach_automation.Lead.Transition.{
  Move, StateError, is_lead, save_lead, record_event, moved, state_changed, transition,
}
use outreach_automation.Lead.Transition.Effect.{
  transition-Done, find-save_lead_self, find-save_lead_other, moved-is_lead, moved_other,
}

-- Moves in the order in which their transactions end; one that raises is rolled back.
committed : Db → Result StateError (Lead × Db) → Db
committed db (ok (l, db')) = db'
committed db (err e) = db

unfoldable pub run : List Move → Db → Db
unfolding committed
run [] db = db
run (m ∷ ms) db = run ms (committed db (transition m db))

is_about : ℕ → ℕ → Event → Bool
is_about org_id lead_id e =
    str_eq e.type "lead.state_changed"
    && (e.org_id == org_id)
    && elim e.lead_id [ none ↦ false | some i ↦ i == lead_id ]

arrival : Option LeadState → List LeadState
arrival none = []
arrival (some s) = s ∷ []

-- The states that a lead's events say it went to, oldest first.
unfoldable pub history : ℕ → ℕ → List Event → List LeadState
unfolding is_about arrival
history org_id lead_id [] = []
history org_id lead_id (e ∷ es) =
    (if is_about org_id lead_id e then arrival e.to_state else []) ++ history org_id lead_id es

history-append :
    (org_id lead_id : ℕ) (es fs : List Event)
    → history org_id lead_id (es ++ fs) ≡ history org_id lead_id es ++ history org_id lead_id fs
unfolding history
history-append org_id lead_id [] fs = refl
history-append org_id lead_id (e ∷ es) fs = rw (history-append org_id lead_id es fs) (
    sym (
      append_assoc (if is_about org_id lead_id e then arrival e.to_state else [])
        (history org_id lead_id es) (history org_id lead_id fs)))

history_one :
    (org_id lead_id : ℕ) (m : Move) (l : Lead)
    → history org_id lead_id (state_changed m l ∷ [])
      ≡ (if (m.org_id == org_id) && (m.lead_id == lead_id) then m.to_state ∷ [] else [])
unfolding history
history_one org_id lead_id m l = ground (arith, append-nil {A = LeadState} (m.to_state ∷ []))

end_of-append :
    (s : LeadState) (ts us : List LeadState) → end_of s (ts ++ us) ≡ end_of (end_of s ts) us
unfolding end_of
end_of-append s [] us = refl
end_of-append s (t ∷ ts) us = end_of-append t ts us

is_path-append :
    (s : LeadState) (ts us : List LeadState)
    → is_path s ts ≡ true
    → is_path (end_of s ts) us ≡ true
    → is_path s (ts ++ us) ≡ true
unfolding is_path end_of
is_path-append s [] us h k = k
is_path-append s (t ∷ ts) us h k = ground (arith, is_path-append t ts us)

-- What a run does to one lead.
pub record Tracked (org_id lead_id : ℕ) (l : Lead) (db db' : Db) : Type 0 where
  pub row : Lead
  pub path : List LeadState
  pub found : find (is_lead org_id lead_id) db'.leads ≡ some row
  pub logged : history org_id lead_id db'.events ≡ history org_id lead_id db.events ++ path
  pub legal : is_path l.state path ≡ true
  pub ends : end_of l.state path ≡ row.state

-- The database after a move of a lead that was found.
abbrev after_move : Move → Lead → Db → Db
after_move m l db = record_event (state_changed m l) (save_lead (moved m l) db)

events-after_move :
    (m : Move) (l : Lead) (db : Db)
    → (after_move m l db).events ≡ db.events ++ state_changed m l ∷ []
unfolding record_event save_lead
events-after_move m l db = refl

leads-after_move :
    (m : Move) (l : Lead) (db : Db) → (after_move m l db).leads ≡ (save_lead (moved m l) db).leads
unfolding record_event
leads-after_move m l db = refl

move_own :
    (m : Move) (l : Lead) (db : Db)
    → find (is_lead m.org_id m.lead_id) db.leads ≡ some l
    → is_allowed l.state m.to_state ≡ true
    → Tracked m.org_id m.lead_id l db (after_move m l db)
unfolding is_path end_of moved
move_own m l db h legal = record {
  row = moved m l;
  path = m.to_state ∷ [];
  found =
      rw leads-after_move
        (find-save_lead_self (moved m l) l m.org_id m.lead_id db h (moved-is_lead m l db h));
  logged = rw (events-after_move, history-append, history_one, ==_refl m.org_id, ==_refl m.lead_id);
  legal = rw legal;
  ends = refl;
}

move_other :
    (m : Move) (l before : Lead) (db : Db) (org_id lead_id : ℕ)
    → find (is_lead m.org_id m.lead_id) db.leads ≡ some before
    → ((m.org_id == org_id) && (m.lead_id == lead_id)) ≡ false
    → find (is_lead org_id lead_id) db.leads ≡ some l
    → Tracked org_id lead_id l db (after_move m before db)
unfolding is_path end_of
move_other m l before db org_id lead_id was other h = record {
  row = l;
  path = [];
  found = rw leads-after_move (
      find-save_lead_other (moved m before) org_id lead_id db
        (moved_other m before db org_id lead_id was other)
      ∙ h);
  logged = rw (events-after_move, history-append, history_one, other);
  legal = refl;
  ends = refl;
}

module _ (org_id lead_id : ℕ) where
  stays :
      (l : Lead) (db : Db)
      → find (is_lead org_id lead_id) db.leads ≡ some l
      → Tracked org_id lead_id l db db
  unfolding is_path end_of
  stays l db h = record {
    row = l;
    path = [];
    found = h;
    logged = sym (append-nil _);
    legal = refl;
    ends = refl;
  }

  move-Tracked :
      (m : Move) (db : Db) (l : Lead)
      → find (is_lead org_id lead_id) db.leads ≡ some l
      → Tracked org_id lead_id l db (committed db (transition m db))
  unfolding committed
  move-Tracked m db l h = go (transition m db) refl
    where
      own :
          (before : Lead)
          → find (is_lead m.org_id m.lead_id) db.leads ≡ some before
          → is_allowed before.state m.to_state ≡ true
          → m.org_id ≡ org_id
          → m.lead_id ≡ lead_id
          → Tracked org_id lead_id l db (after_move m before db)
      own before was legal org lead =
          let here : find (is_lead m.org_id m.lead_id) db.leads ≡ some l =
            subst (λ (o : ℕ). find (is_lead o m.lead_id) db.leads ≡ some l) (sym org)
              (subst (λ (i : ℕ). find (is_lead org_id i) db.leads ≡ some l) (sym lead) h) in
          let same : l ≡ before = some-eq (sym here ∙ was) in
          subst (λ (b : Lead). Tracked org_id lead_id l db (after_move m b db)) same
            (subst (λ (o : ℕ). Tracked o lead_id l db (after_move m l db)) org
              (subst (λ (i : ℕ). Tracked m.org_id i l db (after_move m l db)) lead
                (move_own m l db here
                  (subst (λ (b : Lead). is_allowed b.state m.to_state ≡ true) (sym same) legal))))

      moves :
          (before : Lead)
          → find (is_lead m.org_id m.lead_id) db.leads ≡ some before
          → is_allowed before.state m.to_state ≡ true
          → Tracked org_id lead_id l db (after_move m before db)
      moves before was legal = elim (Bool-cases ((m.org_id == org_id) && (m.lead_id == lead_id))) [
        | inr other ↦ move_other m l before db org_id lead_id was other h
        | inl same ↦ own before was legal (ground arith) (ground arith)
      ]

      go :
          (r : Result StateError (Lead × Db))
          → transition m db ≡ r
          → Tracked org_id lead_id l db (committed db r)
      go (err e) p = stays l db h
      go (ok (l', db')) p =
          let d = transition-Done m db l' db' p in
          subst (Tracked org_id lead_id l db)
            (sym (
              d.saved ∙ ap (λ x. record_event (state_changed m d.before) (save_lead x db)) d.after))
            (moves d.before d.was d.legal)

  Tracked-trans :
      {l : Lead} {db db' db'' : Db} (first : Tracked org_id lead_id l db db')
      → Tracked org_id lead_id first.row db' db''
      → Tracked org_id lead_id l db db''
  Tracked-trans {l} {db} first second = record {
    row = second.row;
    path = first.path ++ second.path;
    found = second.found;
    logged =
        second.logged
        ∙ rw first.logged (append_assoc (history org_id lead_id db.events) first.path second.path);
    legal = is_path-append l.state first.path second.path first.legal (rw first.ends second.legal);
    ends = end_of-append l.state first.path second.path ∙ rw first.ends second.ends;
  }

  run-Tracked :
      (ms : List Move) (db : Db) (l : Lead)
      → find (is_lead org_id lead_id) db.leads ≡ some l
      → Tracked org_id lead_id l db (run ms db)
  unfolding run
  run-Tracked [] db l h = stays l db h
  run-Tracked (m ∷ ms) db l h =
      let t = move-Tracked m db l h in
      Tracked-trans t (run-Tracked ms (committed db (transition m db)) t.row t.found)

  -- Whatever moves are tried, of this lead and of others and with those refused rolled back, the
  -- lead is still there, and the events added about it are exactly a path of legal moves from the
  -- state that it was in to the state that it is in.
  pub run_audited :
      (ms : List Move) (db : Db) (l : Lead)
      → find (is_lead org_id lead_id) db.leads ≡ some l
      → (l' : Lead) × (path : List LeadState) × (find (is_lead org_id lead_id) (run ms db).leads
          ≡ some l')
        × (history org_id lead_id (run ms db).events ≡ history org_id lead_id db.events ++ path)
        × (is_path l.state path ≡ true)
        × (end_of l.state path ≡ l'.state)
  run_audited ms db l h =
      let t = run-Tracked ms db l h in (t.row, t.path, t.found, t.logged, t.legal, t.ends)

  -- Whatever moves are tried on a database in which the lead is new and has no events, a lead that
  -- ends in a state in which an email has gone out has events that say it awaited approval and was
  -- approved.
  pub run_shows_approval :
      (ms : List Move) (db : Db) (l l' : Lead)
      → find (is_lead org_id lead_id) db.leads ≡ some l
      → l.state ≡ new
      → history org_id lead_id db.events ≡ []
      → find (is_lead org_id lead_id) (run ms db).leads ≡ some l'
      → is_in l'.state mail_left ≡ true
      → (is_in approved (history org_id lead_id (run ms db).events) ≡ true)
        × (is_in awaiting_approval (history org_id lead_id (run ms db).events) ≡ true)
  run_shows_approval ms db l l' h fresh empty h' mail =
      let t = run-Tracked ms db l h in
      let same : t.row ≡ l' = some-eq (sym t.found ∙ h') in
      let log : history org_id lead_id (run ms db).events ≡ t.path =
        t.logged ∙ ap (λ x. x ++ t.path) empty in
      rw log (
        mail_needs_approval t.path
          (subst (λ (s : LeadState). is_path s t.path ≡ true) fresh t.legal)
          (subst (λ (s : LeadState). is_in s mail_left ≡ true)
            (sym (
              subst (λ (s : LeadState). end_of s t.path ≡ l'.state) fresh
                (t.ends ∙ ap (λ (x : Lead). x.state) same)))
            mail))
