-- ===== src/SendLoop.antt =====
-- app/worker/send_loop.py: the capacity of a mailbox, and the approved drafts that it may send. A
-- mailbox's zone is that of its settings. `KIND_PRIORITY` puts replies before follow-ups and those
-- before first e-mails.
pub mod Headers
pub mod One
pub mod Queue
pub mod Allowed
pub mod Order
use outreach_automation.Prelude.{
  ℕ, zero, suc, ◌+◌, Bool, true, false, not, ◌&&◌, ◌||◌, List, [], ◌∷◌, ◌++◌, map, Option, none,
  some, leb, ltb, ◌==◌, if◌then◌else◌, any, elem, count, select, sort_by, take, length,
}
use outreach_automation.Time.{Zone, date_of}
use outreach_automation.Lead.State.{LeadState, approved, sent, replied, same_state}
use outreach_automation.Campaign.Settings.{CampaignSettings}
use outreach_automation.Campaign.Status.{CampaignStatus}
use outreach_automation.Scheduling.{Ramp, warmup_cap, in_window, ist_day_bounds}
use outreach_automation.Db.{
  Db, Lead, Campaign, Mailbox, Message, MessageStatus, Draft, DraftStatus, MessageKind, initial,
  followup, reply, Persona,
}
use outreach_automation.Db.Table.{find}
use outreach_automation.Sendable.{is_outbound}
use outreach_automation.Pool.{PoolMember, pool_for, campaign_ids_for, choose, usable_ids}

abbrev pub counts_today : MessageStatus → Bool
counts_today MessageStatus.sent = true
counts_today MessageStatus.sending = true
counts_today _ = false

-- `coalesce(sent_at, created_at)`.
abbrev pub occurred_at : Message → ℕ
occurred_at m = elim m.sent_at [ none ↦ m.created_at | some t ↦ t ]

abbrev pub is_of_mailbox : ℕ → Message → Bool
is_of_mailbox mailbox_id m = elim m.mailbox_id [ none ↦ false | some b ↦ b == mailbox_id ]

unfoldable pub sent_today : Zone → ℕ → ℕ → Db → ℕ
sent_today z mailbox_id now db =
    let (start, end) = ist_day_bounds z now in
    count
      (λ (m : Message).
        is_of_mailbox mailbox_id m
        && is_outbound m.direction
        && counts_today m.status
        && leb start (occurred_at m)
        && ltb (occurred_at m) end)
      db.messages

abbrev pub ramp_of : Zone → Mailbox → Ramp
ramp_of z m = record {
  warmup_started_on = elim m.warmup_started_on [
    | none ↦ none
    | some t ↦ some (date_of (z.to_wall t))
  ];
  warmup_start = m.warmup_start;
  warmup_step = m.warmup_step;
  warmup_step_days = m.warmup_step_days;
  daily_cap = some m.daily_cap;
}

unfoldable pub effective_cap : Zone → Mailbox → CampaignSettings → ℕ → ℕ
effective_cap z m s now = warmup_cap (date_of (z.to_wall now)) (ramp_of z m) s

pub record Candidate : Type 0 where
  pub lead : Lead
  pub draft : Draft
  pub campaign : Campaign
  pub persona : Persona
  pub settings : CampaignSettings

abbrev pub priority_of : MessageKind → ℕ
priority_of reply = 0
priority_of followup = 1
priority_of initial = 2

abbrev pub is_running : CampaignStatus → Bool
is_running CampaignStatus.running = true
is_running _ = false

abbrev pub is_approved : DraftStatus → Bool
is_approved DraftStatus.approved = true
is_approved _ = false

abbrev pub is_due : ℕ → Option ℕ → Bool
is_due now none = false
is_due now (some t) = leb t now

-- The draft's kind and the lead's state agree.
unfoldable pub kind_fits : ℕ → MessageKind → Lead → Bool
kind_fits now initial l = same_state l.state approved
kind_fits now followup l = same_state l.state sent && is_due now l.next_action_at
kind_fits now reply l = same_state l.state replied

-- Sticky, or not yet assigned.
abbrev pub may_send_as : ℕ → Lead → Bool
may_send_as mailbox_id l = elim l.mailbox_id [ none ↦ true | some m ↦ m == mailbox_id ]

pub record Row : Type 0 where
  pub lead : Lead
  pub draft : Draft
  pub campaign : Campaign

-- The drafts of a lead, each with the lead and its campaign.
unfoldable pub rows_with : Db → Lead → Option Campaign → List Draft → List Row
rows_with db l none ds = []
rows_with db l (some c) [] = []
rows_with db l (some c) (d ∷ ds) =
    let rest = rows_with db l (some c) ds in
    if d.lead_id == l.id then record { lead = l; draft = d; campaign = c } ∷ rest else rest

unfoldable pub rows_from : Db → List Lead → List Row
unfolding rows_with
rows_from db [] = []
rows_from db (l ∷ ls) =
    rows_with db l (find (λ (c : Campaign). c.id == l.campaign_id) db.campaigns) db.drafts
    ++ rows_from db ls

unfoldable pub is_sendable_row : ℕ → ℕ → List ℕ → Row → Bool
is_sendable_row org_id mailbox_id campaign_ids r =
    (r.lead.org_id == org_id)
    && elem r.campaign.id campaign_ids
    && not r.campaign.paused
    && is_running r.campaign.status
    && not r.lead.paused
    && is_approved r.draft.status
    && (same_state r.lead.state approved
        || same_state r.lead.state sent
        || same_state r.lead.state replied)
    && may_send_as mailbox_id r.lead

-- NULL comes last.
abbrev pub earlier : Option ℕ → Option ℕ → Bool
earlier none b = false
earlier (some a) none = true
earlier (some a) (some b) = ltb a b

abbrev pub page : ℕ
page = 20

unfoldable pub candidate_rows : ℕ → ℕ → Db → List Row
unfolding rows_from is_sendable_row
candidate_rows org_id mailbox_id db = take page (
    sort_by (λ (r s : Row). earlier r.draft.approved_at s.draft.approved_at)
      (select (is_sendable_row org_id mailbox_id (campaign_ids_for org_id mailbox_id db))
        (rows_from db db.leads)))

-- `_assignee_for`: the counts are needed only where the pool has more than one member.
unfoldable pub assignee_for : Zone → ℕ → Campaign → ℕ → Db → Option ℕ
assignee_for z org_id campaign now db = elim (pool_for org_id campaign db) [
  | [] ↦ none
  | m ∷ ms ↦ elim ms [
    | [] ↦ some m.mailbox_id
    | n ∷ ns ↦
        let members = m ∷ n ∷ ns in
        let ids = map (λ (p : PoolMember). p.mailbox_id) members in
        let usable = usable_ids org_id ids db in
        choose members (map (λ i. (i, sent_today z i now db)) usable) usable
  ]
]

abbrev pub is_assignee : ℕ → Option ℕ → Bool
is_assignee mailbox_id o = elim o [ none ↦ false | some m ↦ m == mailbox_id ]

-- A lead with a sender is this mailbox's; one without is, if the pool picks this mailbox.
unfoldable pub is_mine : Zone → ℕ → ℕ → ℕ → Row → Db → Bool
is_mine z org_id mailbox_id now r db = elim r.lead.mailbox_id [
  | none ↦ is_assignee mailbox_id (assignee_for z org_id r.campaign now db)
  | some _ ↦ true
]

abbrev pub candidate : Row → Persona → CampaignSettings → Candidate
candidate r p s = record {
  lead = r.lead;
  draft = r.draft;
  campaign = r.campaign;
  persona = p;
  settings = s;
}

unfoldable pub to_candidate : Zone → ℕ → ℕ → ℕ → Db → Row → Option Candidate
to_candidate z org_id mailbox_id now db r =
    if not (kind_fits now r.draft.kind r.lead) then none else elim r.campaign.settings [
      | none ↦ none
      | some s ↦ elim r.campaign.persona [
        | none ↦ none
        | some p ↦
            if in_window z now s && is_mine z org_id mailbox_id now r db
            then some (candidate r p s)
            else none
      ]
    ]

unfoldable pub keep : {A B : Type 0} → (A → Option B) → List A → List B
keep f [] = []
keep f (x ∷ xs) = elim (f x) [ none ↦ keep f xs | some y ↦ y ∷ keep f xs ]

-- The queue of each campaign, in the order in which the campaigns first appear.
unfoldable pub add_to : Candidate → List (ℕ × List Candidate) → List (ℕ × List Candidate)
add_to c [] = (c.lead.campaign_id, c ∷ []) ∷ []
add_to c ((i, q) ∷ qs) =
    let rest = add_to c qs in
    if i == c.lead.campaign_id then (i, q ++ c ∷ []) ∷ qs else (i, q) ∷ rest

unfoldable pub queues_from : List (ℕ × List Candidate) → List Candidate → List (ℕ × List Candidate)
unfolding add_to
queues_from qs [] = qs
queues_from qs (c ∷ cs) = queues_from (add_to c qs) cs

abbrev pub heads : List (List Candidate) → List Candidate
heads [] = []
heads ([] ∷ qs) = heads qs
heads ((c ∷ cs) ∷ qs) = c ∷ heads qs

abbrev pub tails : List (List Candidate) → List (List Candidate)
tails [] = []
tails ([] ∷ qs) = [] ∷ tails qs
tails ((c ∷ cs) ∷ qs) = cs ∷ tails qs

-- One of each queue in turn, for at most the given number of rounds.
unfoldable pub deal : ℕ → List (List Candidate) → List Candidate
deal zero qs = []
deal (suc n) qs = elim (heads qs) [ [] ↦ [] | c ∷ cs ↦ (c ∷ cs) ++ deal n (tails qs) ]

abbrev pub has_priority : ℕ → Candidate → Bool
has_priority p c = priority_of c.draft.kind == p

abbrev pub queues_of : ℕ → List Candidate → List (List Candidate)
queues_of p cs = map (λ q. q.1) (queues_from [] (select (has_priority p) cs))

abbrev pub approved_or : ℕ → Candidate → ℕ
approved_or now c = elim c.draft.approved_at [ none ↦ now | some t ↦ t ]

-- `_interleave`; a round takes at least one candidate, so that there are rounds enough.
unfoldable pub interleave : ℕ → List Candidate → List Candidate
unfolding queues_from
interleave now cs =
    let sorted = sort_by (λ c d. leb (approved_or now c) (approved_or now d)) cs in
    deal (length cs) (queues_of 0 sorted)
    ++ deal (length cs) (queues_of 1 sorted)
    ++ deal (length cs) (queues_of 2 sorted)

unfoldable pub find_candidates : Zone → ℕ → ℕ → ℕ → Db → List Candidate
unfolding keep
find_candidates z org_id mailbox_id now db = elim (campaign_ids_for org_id mailbox_id db) [
  | [] ↦ []
  | i ∷ is ↦
      interleave now
        (keep (to_candidate z org_id mailbox_id now db) (candidate_rows org_id mailbox_id db))
]
