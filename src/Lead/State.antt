-- ===== src/Lead/State.antt =====
-- app/domain/state.py: the lead state machine.
pub mod Table
pub mod Paths
pub mod Sets
use outreach_automation.Prelude.{
  ℕ, Bool, true, false, ◌&&◌, not, List, [], ◌∷◌, ◌++◌, map, elem, ◌==◌, if◌then◌else◌,
}

pub data LeadState : Type 0 where
  new enriching researched drafted awaiting_approval approved : LeadState
  sent followup_sent replied in_conversation : LeadState
  meeting_booked not_interested opted_out bounced no_response skipped failed : LeadState

-- The position in the enum, by which states are compared.
abbrev pub index : LeadState → ℕ
index new = 0
index enriching = 1
index researched = 2
index drafted = 3
index awaiting_approval = 4
index approved = 5
index sent = 6
index followup_sent = 7
index replied = 8
index in_conversation = 9
index meeting_booked = 10
index not_interested = 11
index opted_out = 12
index bounced = 13
index no_response = 14
index skipped = 15
index failed = 16

abbrev pub same_state : LeadState → LeadState → Bool
same_state s t = index s == index t

-- `state in (...)`.
abbrev pub is_in : LeadState → List LeadState → Bool
is_in s ts = elem (index s) (map index ts)

unfoldable pub terminal : List LeadState
terminal =
    meeting_booked ∷ not_interested ∷ opted_out ∷ bounced ∷ no_response ∷ skipped ∷ failed ∷ []

unfoldable pub recoverable : List LeadState
recoverable = failed ∷ skipped ∷ not_interested ∷ no_response ∷ []

unfoldable pub waiting : List LeadState
waiting = sent ∷ followup_sent ∷ in_conversation ∷ []

unfoldable pub needs_human_states : List LeadState
needs_human_states = awaiting_approval ∷ replied ∷ []

-- `_ALLOWED`.
unfoldable pub allowed : LeadState → List LeadState
allowed new = enriching ∷ drafted ∷ skipped ∷ failed ∷ []
allowed enriching = researched ∷ skipped ∷ failed ∷ []
allowed researched = drafted ∷ failed ∷ []
allowed drafted = awaiting_approval ∷ failed ∷ skipped ∷ []
allowed awaiting_approval = approved ∷ drafted ∷ skipped ∷ []
allowed approved = sent ∷ skipped ∷ failed ∷ []
allowed sent =
    followup_sent ∷ replied ∷ no_response ∷ bounced ∷ not_interested ∷ meeting_booked ∷ []
allowed followup_sent = replied ∷ no_response ∷ bounced ∷ not_interested ∷ meeting_booked ∷ []
allowed replied = in_conversation ∷ meeting_booked ∷ not_interested ∷ opted_out ∷ bounced ∷ []
allowed in_conversation = replied ∷ meeting_booked ∷ not_interested ∷ opted_out ∷ no_response ∷ []
allowed no_response = replied ∷ meeting_booked ∷ []
allowed failed = new ∷ skipped ∷ []
allowed skipped = new ∷ []
allowed not_interested = replied ∷ []
allowed meeting_booked = []
allowed opted_out = []
allowed bounced = []

unfoldable pub always_reachable : List LeadState
always_reachable = opted_out ∷ bounced ∷ []

unfoldable pub human_only : List LeadState
human_only = meeting_booked ∷ []

-- The tuple that `is_allowed` and `reachable_from` both write out.
abbrev pub finals : List LeadState
finals = opted_out ∷ bounced ∷ meeting_booked ∷ []

unfoldable pub is_allowed : LeadState → LeadState → Bool
unfolding always_reachable allowed
is_allowed from to =
    if same_state from to
    then false
    else if is_in to always_reachable && not (is_in from finals)
    then true
    else is_in to (allowed from)

unfoldable pub is_terminal : LeadState → Bool
unfolding terminal
is_terminal s = is_in s terminal

unfoldable pub needs_human : LeadState → Bool
unfolding needs_human_states
needs_human s = is_in s needs_human_states

unfoldable pub reachable_from : LeadState → List LeadState
unfolding allowed always_reachable
reachable_from s = if is_in s finals then allowed s else allowed s ++ always_reachable
