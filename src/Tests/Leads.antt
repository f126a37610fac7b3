-- ===== src/Tests/Leads.antt =====
-- Runs of the lead state machine and of app/db/state.py.
use outreach_automation.Prelude.{◌≡◌, refl, true, false, ◌++◌, List, [], ◌∷◌, none, some, ok, err}
use outreach_automation.Lead.State.{
  LeadState, new, drafted, awaiting_approval, approved, sent, is_in, is_allowed,
}
use outreach_automation.Lead.State.Paths.{is_path, end_of}
use outreach_automation.Db.{Db, Lead, Actor}
use outreach_automation.Db.Table.{find}
use outreach_automation.Lead.Transition.{
  Move, illegal_transition, is_lead, lock_lead, save_lead, record_event, assert_allowed, add_flags,
  remove_flags, moved, state_changed, transition,
}
use outreach_automation.Lead.Transition.History.{run, history, run_audited, run_shows_approval}

abbrev ada : Lead
ada = record {
  id = 7;
  org_id = 1;
  campaign_id = 3;
  email_norm = [];
  state = new;
  state_changed_at = 0;
  followups_sent = 0;
  next_action_at = none;
  last_message_at = none;
  flags = [];
  paused = false;
  mailbox_id = none;
  created_at = 0;
}

abbrev one_lead : Db
one_lead = record {
  leads = ada ∷ [];
  events = [];
  campaigns = [];
  mailboxes = [];
  messages = [];
  jobs = [];
  suppressions = [];
  drafts = [];
  researches = [];
  attachments = [];
  orgs = [];
  campaign_mailboxes = [];
}

abbrev to : LeadState → Move
to s = record {
  org_id = 1;
  lead_id = 7;
  to_state = s;
  actor = Actor.system;
  actor_id = none;
  data_ = [];
  next_action_at = none;
  clear_next_action = false;
  flags_add = [];
  flags_remove = [];
  now = 5;
}

new_not_sent : transition (to sent) one_lead ≡ err (illegal_transition 7 new sent)
unfolding transition lock_lead assert_allowed is_allowed
new_not_sent = refl

-- The database in which the lead was moved.
abbrev moved_once : Db
moved_once =
    record_event (state_changed (to drafted) ada) (save_lead (moved (to drafted) ada) one_lead)

new_drafted : transition (to drafted) one_lead ≡ ok (moved (to drafted) ada, moved_once)
unfolding transition lock_lead assert_allowed is_allowed
new_drafted = refl

-- A refused move stands among the others.
abbrev moves : List Move
moves = to drafted ∷ to sent ∷ to awaiting_approval ∷ to approved ∷ to sent ∷ []

run_audited_example :
    (l' : Lead) × (path : List LeadState) × (find (is_lead 1 7) (run moves one_lead).leads
      ≡ some l')
    × (history 1 7 (run moves one_lead).events ≡ history 1 7 [] ++ path)
    × (is_path new path ≡ true)
    × (end_of new path ≡ l'.state)
run_audited_example = run_audited 1 7 moves one_lead ada refl

abbrev sent_ada : Lead
sent_ada = record ada { state = sent; state_changed_at = 5 }

run_sends : find (is_lead 1 7) (run moves one_lead).leads ≡ some sent_ada
unfolding run transition lock_lead assert_allowed is_allowed save_lead record_event moved add_flags
    remove_flags
run_sends = refl

empty_history : history 1 7 [] ≡ []
unfolding history
empty_history = refl

run_shows_approval_example :
    (is_in approved (history 1 7 (run moves one_lead).events) ≡ true)
    × (is_in awaiting_approval (history 1 7 (run moves one_lead).events) ≡ true)
run_shows_approval_example =
    run_shows_approval 1 7 moves one_lead ada sent_ada refl refl empty_history run_sends refl
