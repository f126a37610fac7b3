-- ===== src/Drafts/Listing.antt =====
-- app/db/drafts.py: the review queue with its evidence, the approval of several drafts at once, and
-- the questions that other modules ask about drafts. `should_attach` is app/domain/attachment.py's,
-- the page size app/db/repo.py's.
pub mod Bulk
pub mod Fit
use Prim.Native.Nat.{max, min}
use outreach_automation.Prelude.{
  ℕ, Bool, true, false, not, ◌&&◌, ◌||◌, List, [], ◌∷◌, ◌++◌, Option, none, some, String, codes,
  leb, ltb, ◌==◌, if◌then◌else◌, any, count, length, take, select, sort_by, elem, Result, ok, err,
  ◌>>=◌,
}
use outreach_automation.Campaign.Settings.{CampaignSettings, default_settings}
use outreach_automation.Address.{same_text}
use outreach_automation.Db.{
  Db, Lead, Campaign, Draft, DraftStatus, MessageKind, initial, followup, reply, Research,
  Attachment, Json,
}
use outreach_automation.Db.Table.{find}
use outreach_automation.Drafting.{is_none_of}
use outreach_automation.Drafts.{DraftError, Fresh, is_judgeable, is_failed, is_rejected, is_of}
use outreach_automation.Drafts.Review.{Approval, approve, lead_with_id}

abbrev pub default_page : ℕ
default_page = 50

abbrev pub max_page : ℕ
max_page = 200

unfoldable pub page_size : Option ℕ → ℕ
page_size none = default_page
page_size (some limit) = max 1 (min limit max_page)

unfoldable pub should_attach : Option Bool → Bool → Bool
should_attach none campaign_default = campaign_default
should_attach (some b) campaign_default = b

abbrev pub settings_or_defaults : Campaign → CampaignSettings
settings_or_defaults c = elim c.settings [ none ↦ default_settings | some s ↦ s ]

abbrev pub attach_default : MessageKind → CampaignSettings → Bool
attach_default initial s = s.attach_initial
attach_default followup s = s.attach_followups
attach_default reply s = false

-- `_attached`.
unfoldable pub attached : Draft → Campaign → Bool
unfolding should_attach
attached d c = should_attach d.attach (attach_default d.kind (settings_or_defaults c))

pub record ReviewItem : Type 0 where
  pub draft : Draft
  pub lead : Lead
  pub hooks : List Json
  pub research_confidence : ℕ
  pub thin_research : Bool
  pub attachment_filename : Option (List ℕ)
  pub attached : Bool

unfoldable pub needs_individual_review : ReviewItem → Bool
needs_individual_review i = i.thin_research || not (is_none_of i.draft.validation.failures)

pub record Query : Type 0 where
  pub org_id : ℕ
  pub campaign_id : Option ℕ
  pub draft_ids : Option (List ℕ)
  pub limit : Option ℕ
  pub after : Option (ℕ × ℕ)
  pub include_failed : Bool

-- `LIVE_STATUSES`, and the failed ones if they are wanted.
abbrev pub is_listed : Bool → DraftStatus → Bool
is_listed include_failed s = is_judgeable s && (include_failed || not (is_failed s))

comes_after : Option (ℕ × ℕ) → Draft → Bool
comes_after none d = true
comes_after (some (moment, row_id)) d =
    ltb moment d.created_at || ((moment == d.created_at) && ltb row_id d.id)

is_asked : Option (List ℕ) → Draft → Bool
is_asked none d = true
is_asked (some ids) d = elem d.id ids

is_of_campaign : Option ℕ → Lead → Bool
is_of_campaign none l = true
is_of_campaign (some c) l = l.campaign_id == c

-- Oldest first, and the smaller id where the times are the same.
earlier : ReviewItem → ReviewItem → Bool
earlier i j =
    ltb i.draft.created_at j.draft.created_at
    || ((i.draft.created_at == j.draft.created_at) && ltb i.draft.id j.draft.id)

research_of : ℕ → Db → Option Research
research_of lead_id db = find (λ (r : Research). r.lead_id == lead_id) db.researches

filename_of : ℕ → Db → Option (List ℕ)
filename_of campaign_id db =
    elim (find (λ (a : Attachment). a.campaign_id == campaign_id) db.attachments) [
      | none ↦ none
      | some a ↦ some a.filename
    ]

abbrev has_name : Option (List ℕ) → Bool
has_name none = false
has_name (some f) = not (is_none_of f)

item_of : Draft → Lead → Campaign → Option Research → Option (List ℕ) → ReviewItem
item_of d l c research filename = record {
  draft = d;
  lead = l;
  hooks = elim research [ none ↦ [] | some r ↦ r.hooks ];
  research_confidence = elim research [ none ↦ 0 | some r ↦ r.confidence ];
  thin_research = elim research [ none ↦ true | some r ↦ r.thin ];
  attachment_filename = filename;
  attached = has_name filename && attached d c;
}

-- The joins on the lead and its campaign, which drop a draft that has none.
unfoldable pub joined : Db → Draft → List ReviewItem
unfolding research_of filename_of item_of
joined db d = elim (find (lead_with_id d.lead_id) db.leads) [
  | none ↦ []
  | some l ↦ elim (find (λ (c : Campaign). c.id == l.campaign_id) db.campaigns) [
    | none ↦ []
    | some c ↦ item_of d l c (research_of l.id db) (filename_of c.id db) ∷ []
  ]
]

unfoldable pub items : Db → List Draft → List ReviewItem
unfolding joined
items db [] = []
items db (d ∷ ds) = joined db d ++ items db ds

unfoldable pub matches : Query → ReviewItem → Bool
unfolding comes_after is_asked is_of_campaign
matches q i =
    (i.draft.org_id == q.org_id)
    && is_listed q.include_failed i.draft.status
    && is_of_campaign q.campaign_id i.lead
    && comes_after q.after i.draft
    && is_asked q.draft_ids i.draft

-- `len(draft_ids) or 1`, or the page.
unfoldable pub row_limit : Query → ℕ
unfolding page_size
row_limit q = elim q.draft_ids [ none ↦ page_size q.limit | some ids ↦ max 1 (length ids) ]

unfoldable pub review_queue : Query → Db → List ReviewItem
unfolding matches row_limit items earlier
review_queue q db = take (row_limit q) (sort_by earlier (select (matches q) (items db db.drafts)))

-- The count joins the lead only.
unfoldable pub review_queue_size : ℕ → Option ℕ → Bool → Db → ℕ
unfolding is_of_campaign
review_queue_size org_id campaign_id include_failed db =
    count
      (λ (d : Draft).
        (d.org_id == org_id)
        && is_listed include_failed d.status
        && elim (find (lead_with_id d.lead_id) db.leads) [
          | none ↦ false
          | some l ↦ is_of_campaign campaign_id l
        ])
      db.drafts

pub data Skip : Type 0 where
  not_in_queue validation_failed thin_research : Skip
  low_confidence : ℕ → ℕ → Skip

pub record BulkReport : Type 0 where
  pub approved : List ℕ
  pub skipped : List (ℕ × Skip)

-- `skipped[id] = reason`.
pub put : ℕ → Skip → List (ℕ × Skip) → List (ℕ × Skip)
put draft_id reason [] = (draft_id, reason) ∷ []
put draft_id reason ((i, r) ∷ rest) =
    let others = put draft_id reason rest in
    if i == draft_id then (i, reason) ∷ rest else (i, r) ∷ others

-- Why a draft is left to a person.
unfoldable pub why_skip : ℕ → Option ReviewItem → Option Skip
why_skip min_confidence none = some not_in_queue
why_skip min_confidence (some i) =
    if is_failed i.draft.status
    then some validation_failed
    else if i.thin_research
    then some thin_research
    else if ltb i.research_confidence min_confidence
    then some (low_confidence i.research_confidence min_confidence)
    else none

abbrev pub plain_approval : ℕ → String → ℕ → ℕ → Approval
plain_approval org_id approved_by now draft_id = record {
  org_id = org_id;
  draft_id = draft_id;
  approved_by = approved_by;
  edited_subject = none;
  edited_body = none;
  now = now;
}

abbrev pub item_with : ℕ → List ReviewItem → Option ReviewItem
item_with draft_id rows = find (λ (i : ReviewItem). i.draft.id == draft_id) rows

-- The loop over the ids; `rows` is the queue that was read before it. No approval of the loop makes
-- a new row, so that `new` is not used.
unfoldable pub bulk_loop :
    Fresh
    → ℕ
    → String
    → ℕ
    → ℕ
    → List ReviewItem
    → List ℕ
    → BulkReport
    → Db
    → Result DraftError (BulkReport × Db)
unfolding put
bulk_loop new org_id approved_by min_confidence now rows [] done db = ok (done, db)
bulk_loop new org_id approved_by min_confidence now rows (i ∷ ids) done db =
    elim (why_skip min_confidence (item_with i rows)) [
      | some reason ↦
          bulk_loop new org_id approved_by min_confidence now rows ids
            (record done { skipped = put i reason done.skipped }) db
      | none ↦ do
        (target, db') ← approve new (plain_approval org_id approved_by now i) db
        bulk_loop new org_id approved_by min_confidence now rows ids
            (record done { approved = done.approved ++ i ∷ [] }) db'
    ]

-- The drafts by their ids.
abbrev pub bulk_query : ℕ → List ℕ → Query
bulk_query org_id draft_ids = record {
  org_id = org_id;
  campaign_id = none;
  draft_ids = some draft_ids;
  limit = none;
  after = none;
  include_failed = true;
}

unfoldable pub bulk_approve :
    Fresh → ℕ → List ℕ → String → ℕ → ℕ → Db → Result DraftError (BulkReport × Db)
bulk_approve new org_id draft_ids approved_by min_confidence now db =
    bulk_loop new org_id approved_by min_confidence now
      (review_queue (bulk_query org_id draft_ids) db) draft_ids
      (record { approved = []; skipped = [] }) db
