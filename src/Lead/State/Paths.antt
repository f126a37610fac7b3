-- ===== src/Lead/State/Paths.antt =====
-- Paths of legal moves (app/domain/state.py): what every history of a lead has in common.
use outreach_automation.Prelude.{
  Bool, true, false, ◌≡◌, refl, List, [], ◌∷◌, all, arith, ◌&&◌, ◌||◌, not,
}
use outreach_automation.Lead.State.{
  LeadState, new, enriching, researched, drafted, awaiting_approval, approved, sent, followup_sent,
  replied, in_conversation, meeting_booked, not_interested, opted_out, bounced, no_response,
  skipped, failed, same_state, is_in, finals, is_allowed,
}
use outreach_automation.Lead.State.Table.{states, states-all, states-all_pairs}

-- Each state of the list may follow the one before it.
unfoldable pub is_path : LeadState → List LeadState → Bool
is_path s [] = true
is_path s (t ∷ ts) = is_allowed s t && is_path t ts

unfoldable pub end_of : LeadState → List LeadState → LeadState
end_of s [] = s
end_of s (t ∷ ts) = end_of t ts

implies : Bool → Bool → Bool
implies a b = not a || b

implies-mp : (a b : Bool) → implies a b ≡ true → a ≡ true → b ≡ true
unfolding implies
implies-mp a b h k = ground arith

stuck_table :
    all (λ s. all (λ t. implies (is_in s finals) (not (is_allowed s t))) states) states ≡ true
unfolding is_allowed implies
stuck_table = refl

final_stuck : (s t : LeadState) → is_in s finals ≡ true → is_allowed s t ≡ false
unfolding implies
final_stuck s t h = ground (
  arith,
  states-all_pairs (λ a b. implies (is_in a finals) (not (is_allowed a b))) stuck_table s t,
)

-- No path of legal moves leads on from a lead that has opted out, bounced or booked a meeting.
pub final_absorbs :
    (s t : LeadState) (ts : List LeadState) → is_in s finals ≡ true → is_path s (t ∷ ts) ≡ false
unfolding is_path
final_absorbs s t ts h = ground (arith, final_stuck s t h)

-- States of a lead to which no email has gone out and for which none is approved.
abbrev pub before_approval : List LeadState
before_approval =
    new ∷ enriching ∷ researched ∷ drafted ∷ awaiting_approval ∷ skipped ∷ failed ∷ opted_out
    ∷ bounced ∷ []

-- States of a lead to which an email has gone out.
abbrev pub mail_left : List LeadState
mail_left =
    sent ∷ followup_sent ∷ replied ∷ in_conversation ∷ meeting_booked ∷ not_interested ∷ no_response
    ∷ []

leave_table :
    all
      (λ s.
        all
          (λ t.
            implies
              (is_in s before_approval && is_allowed s t)
              (is_in t before_approval || same_state approved t && same_state s awaiting_approval))
          states)
      states
    ≡ true
unfolding is_allowed implies
leave_table = refl

leave :
    (s t : LeadState)
    → is_in s before_approval ≡ true
    → is_allowed s t ≡ true
    → (is_in t before_approval || same_state approved t && same_state s awaiting_approval) ≡ true
leave s t h k =
    implies-mp _ _
      (states-all_pairs
        (λ a b.
          implies (is_in a before_approval && is_allowed a b)
            (is_in b before_approval || same_state approved b && same_state a awaiting_approval))
        leave_table s t)
      (ground arith)

apart_table : all (λ s. not (is_in s before_approval && is_in s mail_left)) states ≡ true
apart_table = refl

apart : (s : LeadState) → is_in s before_approval ≡ true → is_in s mail_left ≡ false
apart s h =
    ground
      (arith, states-all (λ a. not (is_in a before_approval && is_in a mail_left)) apart_table s)

approved_before_mail :
    (s : LeadState) (ts : List LeadState)
    → is_in s before_approval ≡ true
    → is_path s ts ≡ true
    → is_in (end_of s ts) mail_left ≡ true
    → (is_in approved ts ≡ true) × (is_in awaiting_approval (s ∷ ts) ≡ true)
unfolding is_path end_of
approved_before_mail s [] h p m = ground (arith, apart s h)
approved_before_mail s (t ∷ ts) h p m = ground (arith, leave s t h, approved_before_mail t ts)

-- Along every path of legal moves from `new` to a state in which an email has gone out, a draft
-- was put before a person and approved.
pub mail_needs_approval :
    (ts : List LeadState)
    → is_path new ts ≡ true
    → is_in (end_of new ts) mail_left ≡ true
    → (is_in approved ts ≡ true) × (is_in awaiting_approval ts ≡ true)
mail_needs_approval ts p m = approved_before_mail new ts refl p m
