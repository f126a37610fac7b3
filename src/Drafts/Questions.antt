-- ===== src/Drafts/Questions.antt =====
-- app/db/drafts.py: what other modules ask about the drafts of a lead.
pub mod Proposals
use outreach_automation.Prelude.{
  ℕ, Bool, true, false, not, ◌&&◌, ◌||◌, List, [], ◌∷◌, Option, none, some, String, codes, leb, ltb,
  ◌==◌, if◌then◌else◌, count, select, sort_by,
}
use outreach_automation.Address.{same_text}
use outreach_automation.Lead.State.{LeadState}
use outreach_automation.Db.{Draft, DraftStatus, MessageKind, initial, followup, reply}
use outreach_automation.Drafts.{is_judgeable, is_rejected, is_of}

-- Drafts that an agent may propose for a lead in a day.
abbrev pub proposal_daily_limit : ℕ
proposal_daily_limit = 5

unfoldable pub was_approved : Draft → Bool
was_approved d = elim d.status [ DraftStatus.approved ↦ true | _ ↦ false ]

-- `REPLACEABLE_STATUSES`.
unfoldable pub is_replaceable : Draft → Bool
unfolding was_approved
is_replaceable d = is_judgeable d.status || was_approved d

-- `PROPOSABLE_FROM`.
unfoldable pub proposable_from : MessageKind → LeadState → Bool
proposable_from initial LeadState.drafted = true
proposable_from initial LeadState.awaiting_approval = true
proposable_from initial _ = false
proposable_from followup LeadState.sent = true
proposable_from followup _ = false
proposable_from reply LeadState.replied = true
proposable_from reply _ = false

first : List Draft → Option Draft
first [] = none
first (d ∷ ds) = some d

-- The newest version, and the larger id where versions are the same.
newer : Draft → Draft → Bool
newer d e = ltb e.version d.version || ((e.version == d.version) && ltb e.id d.id)

unfoldable pub current_draft : ℕ → MessageKind → List Draft → Option Draft
unfolding first newer
current_draft lead_id kind ds =
    first (sort_by newer (select (λ (d : Draft). is_of lead_id kind d && is_replaceable d) ds))

starts_with : List ℕ → List ℕ → Bool
starts_with [] text = true
starts_with (p ∷ ps) [] = false
starts_with (p ∷ ps) (c ∷ cs) = (p == c) && starts_with ps cs

abbrev pub author_of : Draft → List ℕ
author_of d = elim d.created_by [ none ↦ [] | some a ↦ codes a ]

unfoldable pub is_by_agent : Draft → Bool
unfolding starts_with
is_by_agent d = starts_with (codes "mcp:") (author_of d)

unfoldable pub was_written_by_a_person : Draft → Bool
was_written_by_a_person d = not (same_text (author_of d) (codes "system")) && not (is_by_agent d)

unfoldable pub count_agent_drafts_since : ℕ → ℕ → ℕ → List Draft → ℕ
count_agent_drafts_since org_id lead_id since ds =
    count
      (λ (d : Draft).
        (d.org_id == org_id) && (d.lead_id == lead_id) && leb since d.created_at && is_by_agent d)
      ds

later_made : Draft → Draft → Bool
later_made d e =
    ltb e.created_at d.created_at || ((e.created_at == d.created_at) && ltb e.version d.version)

has_feedback : Draft → Bool
has_feedback d = elim d.feedback [ none ↦ false | some _ ↦ true ]

unfoldable pub latest_rejection_feedback : ℕ → ℕ → MessageKind → List Draft → Option (List ℕ)
unfolding first later_made has_feedback
latest_rejection_feedback org_id lead_id kind ds =
    elim (first (
      sort_by later_made (
        select
          (λ (d : Draft).
            (d.org_id == org_id) && is_of lead_id kind d && is_rejected d.status && has_feedback d)
          ds))) [ none ↦ none | some d ↦ d.feedback ]
