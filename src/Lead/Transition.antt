-- ===== src/Lead/Transition.antt =====
-- app/db/state.py: the single writer of `leads.state`. A session is the database it reads and
-- writes; an exception returns no database, since the caller's transaction is then rolled back.
pub mod Effect
pub mod History
use text.Mathlib.Text.{◌==◌ as str_eq}
use outreach_automation.Prelude.{
  ℕ, Bool, true, false, ◌&&◌, ◌||◌, List, [], ◌∷◌, ◌++◌, Option, none, some, String, ◌==◌,
  if◌then◌else◌, Result, ok, err, ◌>>=◌, ◌>>◌,
}
use outreach_automation.Lead.State.{LeadState, is_allowed}
use outreach_automation.Db.{Db, Lead, Event, Actor, Json}
use outreach_automation.Db.Table.{find, update_where}

pub data StateError : Type 0 where
  lead_not_found : ℕ → StateError
  illegal_transition : ℕ → LeadState → LeadState → StateError

-- The row that `lock_lead` selects.
abbrev pub is_lead : ℕ → ℕ → Lead → Bool
is_lead org_id lead_id l = (l.id == lead_id) && (l.org_id == org_id)

or_not_found : ℕ → Option Lead → Result StateError Lead
or_not_found lead_id none = err (lead_not_found lead_id)
or_not_found lead_id (some l) = ok l

unfoldable pub lock_lead : ℕ → ℕ → Db → Result StateError Lead
unfolding or_not_found
lock_lead org_id lead_id db = or_not_found lead_id (find (is_lead org_id lead_id) db.leads)

-- The row of an object that was changed is written at the flush.
unfoldable pub save_lead : Lead → Db → Db
save_lead l db = record db { leads = update_where (is_lead l.org_id l.id) (λ _. l) db.leads }

unfoldable pub record_event : Event → Db → Db
record_event e db = record db { events = db.events ++ e ∷ [] }

unfoldable pub assert_allowed : ℕ → LeadState → LeadState → Result StateError (Unit {0})
assert_allowed lead_id from to =
    if is_allowed from to then ok tt else err (illegal_transition lead_id from to)

contains : String → List String → Bool
contains f [] = false
contains f (x ∷ xs) = str_eq x f || contains f xs

-- `flags.remove`: the first one.
remove_flag : String → List String → List String
remove_flag f [] = []
remove_flag f (x ∷ xs) = if str_eq x f then xs else x ∷ remove_flag f xs

unfoldable pub add_flags : List String → List String → List String
unfolding contains
add_flags [] flags = flags
add_flags (f ∷ fs) flags = add_flags fs (if contains f flags then flags else flags ++ f ∷ [])

unfoldable pub remove_flags : List String → List String → List String
unfolding remove_flag contains
remove_flags [] flags = flags
remove_flags (f ∷ fs) flags =
    remove_flags fs (if contains f flags then remove_flag f flags else flags)

pub record Move : Type 0 where
  pub org_id : ℕ
  pub lead_id : ℕ
  pub to_state : LeadState
  pub actor : Actor
  pub actor_id : Option String
  pub data_ : Json
  pub next_action_at : Option ℕ
  pub clear_next_action : Bool
  pub flags_add : List String
  pub flags_remove : List String
  pub now : ℕ

next_action : Move → Option ℕ → Option ℕ
next_action m old =
    if m.clear_next_action then none else elim m.next_action_at [ none ↦ old | some t ↦ some t ]

unfoldable pub moved : Move → Lead → Lead
unfolding next_action
moved m l = record l {
  state = m.to_state;
  state_changed_at = m.now;
  next_action_at = next_action m l.next_action_at;
  flags = remove_flags m.flags_remove (add_flags m.flags_add l.flags);
}

abbrev pub state_changed : Move → Lead → Event
state_changed m l = record {
  org_id = m.org_id;
  campaign_id = some l.campaign_id;
  lead_id = some m.lead_id;
  actor = m.actor;
  actor_id = m.actor_id;
  type = "lead.state_changed";
  from_state = some l.state;
  to_state = some m.to_state;
  data_ = m.data_;
}

-- The lead as it was moved, and the database.
unfoldable pub transition : Move → Db → Result StateError (Lead × Db)
transition m db = do
  lead ← lock_lead m.org_id m.lead_id db
  assert_allowed m.lead_id lead.state m.to_state
  ok (moved m lead, record_event (state_changed m lead) (save_lead (moved m lead) db))
