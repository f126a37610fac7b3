-- ===== src/Lead/State/Sets.antt =====
-- The named sets of states against the transition table (app/domain/state.py).
use outreach_automation.Prelude.{
  Bool, true, false, ◌≡◌, refl, List, [], ◌∷◌, any, all, arith, ◌&&◌, not, ◌||◌,
}
use outreach_automation.Lead.State.{
  LeadState, new, enriching, researched, drafted, awaiting_approval, approved, sent, replied,
  in_conversation, meeting_booked, not_interested, opted_out, bounced, skipped, failed, same_state,
  is_in, is_allowed, is_terminal, recoverable, always_reachable,
}
use outreach_automation.Lead.State.Table.{states, states-all, same_bool, same_bool-eq}
use outreach_automation.Lead.State.Paths.{is_path, end_of}

-- Some move leads on that is no suppression.
unfoldable pub moves_on : LeadState → Bool
unfolding always_reachable
moves_on s = any (λ t. is_allowed s t && not (is_in t always_reachable)) states

reopen_table :
    all (λ s. same_bool (is_terminal s && moves_on s) (is_in s recoverable)) states ≡ true
unfolding is_terminal moves_on is_allowed recoverable
reopen_table = refl

-- The states marked recoverable are the terminal states with a move other than an opt-out or a
-- bounce, and no others.
pub recoverable-moves_on : (s : LeadState) → (is_terminal s && moves_on s) ≡ is_in s recoverable
recoverable-moves_on s =
    same_bool-eq _ _ (
      states-all (λ a. same_bool (is_terminal a && moves_on a) (is_in a recoverable)) reopen_table
        s)

-- A way from `new`, and a way to a booked meeting.
way_in : LeadState → List LeadState
way_in new = []
way_in enriching = enriching ∷ []
way_in researched = enriching ∷ researched ∷ []
way_in drafted = drafted ∷ []
way_in awaiting_approval = drafted ∷ awaiting_approval ∷ []
way_in approved = drafted ∷ awaiting_approval ∷ approved ∷ []
way_in skipped = skipped ∷ []
way_in failed = failed ∷ []
way_in opted_out = opted_out ∷ []
way_in bounced = bounced ∷ []
way_in sent = drafted ∷ awaiting_approval ∷ approved ∷ sent ∷ []
way_in in_conversation =
    drafted ∷ awaiting_approval ∷ approved ∷ sent ∷ replied ∷ in_conversation ∷ []
way_in s = drafted ∷ awaiting_approval ∷ approved ∷ sent ∷ s ∷ []

from_new : List LeadState
from_new = drafted ∷ awaiting_approval ∷ approved ∷ sent ∷ meeting_booked ∷ []

way_out : LeadState → List LeadState
unfolding from_new
way_out new = from_new
way_out enriching = researched ∷ from_new
way_out researched = from_new
way_out drafted = awaiting_approval ∷ approved ∷ sent ∷ meeting_booked ∷ []
way_out awaiting_approval = approved ∷ sent ∷ meeting_booked ∷ []
way_out approved = sent ∷ meeting_booked ∷ []
way_out meeting_booked = []
way_out not_interested = replied ∷ meeting_booked ∷ []
way_out opted_out = []
way_out bounced = []
way_out skipped = new ∷ from_new
way_out failed = new ∷ from_new
way_out s = meeting_booked ∷ []

ways_table :
    all
      (λ s.
        is_path new (way_in s)
        && same_state (end_of new (way_in s)) s
        && is_path s (way_out s)
        && (is_in s always_reachable || same_state (end_of s (way_out s)) meeting_booked))
      states
    ≡ true
unfolding way_in way_out is_path end_of is_allowed
ways_table = refl

ways :
    (s : LeadState)
    → (is_path new (way_in s)
        && same_state (end_of new (way_in s)) s
        && is_path s (way_out s)
        && (is_in s always_reachable || same_state (end_of s (way_out s)) meeting_booked))
      ≡ true
ways =
    states-all
      (λ a.
        is_path new (way_in a)
        && same_state (end_of new (way_in a)) a
        && is_path a (way_out a)
        && (is_in a always_reachable || same_state (end_of a (way_out a)) meeting_booked))
      ways_table

-- Every state is reached from `new` by some path of legal moves.
pub reached_from_new :
    (s : LeadState)
    → (ts : List LeadState) × (is_path new ts ≡ true) × (same_state (end_of new ts) s ≡ true)
reached_from_new s = (way_in s, ground (arith, ways s), ground (arith, ways s))

-- From every state but `opted_out` and `bounced` some path of legal moves leads to a booked
-- meeting, so no other state is a dead end.
pub no_dead_end :
    (s : LeadState)
    → is_in s always_reachable ≡ false
    → (ts : List LeadState) × (is_path s ts ≡ true)
      × (same_state (end_of s ts) meeting_booked ≡ true)
no_dead_end s h = (way_out s, ground (arith, ways s), ground (arith, ways s))
