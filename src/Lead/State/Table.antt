-- ===== src/Lead/State/Table.antt =====
-- Facts about the transition table that hold at every pair of states (app/domain/state.py).
use outreach_automation.Prelude.{Bool, true, false, ◌≡◌, refl, List, [], ◌∷◌, all, arith, not}
use outreach_automation.Lead.State.{
  LeadState, new, enriching, researched, drafted, awaiting_approval, approved, sent, followup_sent,
  replied, in_conversation, meeting_booked, not_interested, opted_out, bounced, no_response,
  skipped, failed, is_in, is_allowed, reachable_from,
}

-- The states in the order of the enum.
abbrev pub states : List LeadState
states =
    new ∷ enriching ∷ researched ∷ drafted ∷ awaiting_approval ∷ approved ∷ sent ∷ followup_sent
    ∷ replied ∷ in_conversation ∷ meeting_booked ∷ not_interested ∷ opted_out ∷ bounced
    ∷ no_response ∷ skipped ∷ failed ∷ []

nth_holds : (p : LeadState → Bool) (s : LeadState) → all p states ≡ true → p s ≡ true
nth_holds p new h = ground arith
nth_holds p _ h = ground arith

-- A test that passes at every state of the list passes at every state.
pub states-all : (p : LeadState → Bool) → all p states ≡ true → (s : LeadState) → p s ≡ true
states-all p h s = nth_holds p s h

pub states-all_pairs :
    (p : LeadState → LeadState → Bool)
    → all (λ s. all (p s) states) states ≡ true
    → (s t : LeadState) → p s t ≡ true
states-all_pairs p h s t = states-all (p s) (states-all (λ x. all (p x) states) h s) t

abbrev pub same_bool : Bool → Bool → Bool
same_bool true b = b
same_bool false b = not b

pub same_bool-eq : (a b : Bool) → same_bool a b ≡ true → a ≡ b
same_bool-eq a b h = ground arith

agree_table :
    all (λ s. all (λ t. same_bool (is_allowed s t) (is_in t (reachable_from s))) states) states
    ≡ true
unfolding is_allowed reachable_from
agree_table = refl

-- For every two states, the guard accepts the move exactly when the second state is in the list
-- of moves that the API offers from the first.
pub is_allowed-reachable_from : (s t : LeadState) → is_allowed s t ≡ is_in t (reachable_from s)
is_allowed-reachable_from s t = same_bool-eq _ _ (
    states-all_pairs (λ a b. same_bool (is_allowed a b) (is_in b (reachable_from a))) agree_table s
      t)
