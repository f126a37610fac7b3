-- ===== src/Pool.antt =====
-- app/services/mailboxes/pool.py: which mailboxes a campaign may send from, which campaigns a mailbox
-- works for, and which member of a pool a new lead gets. The quotient of a count and a weight, a float
-- in the source, is compared by products.
pub mod Members
pub mod Choice
use Prim.Native.Nat.{max}
use outreach_automation.Prelude.{
  ℕ, ◌*◌, Bool, true, false, not, ◌&&◌, ◌||◌, List, [], ◌∷◌, ◌++◌, map, Option, none, some, ltb,
  ◌==◌, if◌then◌else◌, elem, any, select,
}
use outreach_automation.Db.{Db, Campaign, Mailbox, CampaignMailbox}
use outreach_automation.Db.Table.{find}

pub record PoolMember : Type 0 where
  pub mailbox_id : ℕ
  pub weight : ℕ
  pub primary : Bool

abbrev pub default_weight : ℕ
default_weight = 1

abbrev pub rows_of : ℕ → ℕ → Db → List CampaignMailbox
rows_of org_id campaign_id db =
    select (λ (r : CampaignMailbox). (r.org_id == org_id) && (r.campaign_id == campaign_id))
      db.campaign_mailboxes

-- The weight of the last row for a mailbox, as a dict that was filled in order has it.
unfoldable pub weight_of : ℕ → ℕ → List CampaignMailbox → ℕ
weight_of mailbox_id default [] = default
weight_of mailbox_id default (r ∷ rs) =
    weight_of mailbox_id (if r.mailbox_id == mailbox_id then r.weight else default) rs

-- The other mailboxes of the rows, in the order of their ids and without repetition.
unfoldable pub insert_id : ℕ → List ℕ → List ℕ
insert_id i [] = i ∷ []
insert_id i (j ∷ js) =
    let rest = insert_id i js in if i == j then j ∷ js else if ltb i j then i ∷ j ∷ js else j ∷ rest

unfoldable pub extra_ids : Option ℕ → List CampaignMailbox → List ℕ
unfolding insert_id
extra_ids primary [] = []
extra_ids primary (r ∷ rs) =
    let rest = extra_ids primary rs in
    if elim primary [ none ↦ false | some p ↦ r.mailbox_id == p ]
    then rest
    else insert_id r.mailbox_id rest

unfoldable pub primary_member : Option ℕ → List CampaignMailbox → List PoolMember
unfolding weight_of
primary_member none rows = []
primary_member (some p) rows =
    record { mailbox_id = p; weight = weight_of p default_weight rows; primary = true } ∷ []

unfoldable pub extra_member : List CampaignMailbox → ℕ → PoolMember
extra_member rows i = record {
  mailbox_id = i;
  weight = weight_of i default_weight rows;
  primary = false;
}

unfoldable pub pool_for : ℕ → Campaign → Db → List PoolMember
unfolding extra_member weight_of
pool_for org_id campaign db =
    let rows = rows_of org_id campaign.id db in
    primary_member campaign.mailbox_id rows
    ++ map (extra_member rows) (extra_ids campaign.mailbox_id rows)

-- Without what was found before.
unfoldable pub distinct : List ℕ → List ℕ → List ℕ
distinct found [] = found
distinct found (i ∷ is) = distinct (if elem i found then found else found ++ i ∷ []) is

abbrev pub is_mailbox : ℕ → Option ℕ → Bool
is_mailbox mailbox_id o = elim o [ none ↦ false | some m ↦ m == mailbox_id ]

unfoldable pub campaign_ids_for : ℕ → ℕ → Db → List ℕ
unfolding distinct
campaign_ids_for org_id mailbox_id db = distinct [] (
    map (λ (c : Campaign). c.id)
      (select (λ (c : Campaign). (c.org_id == org_id) && is_mailbox mailbox_id c.mailbox_id)
        db.campaigns)
    ++ map (λ (r : CampaignMailbox). r.campaign_id)
        (select (λ (r : CampaignMailbox). (r.org_id == org_id) && (r.mailbox_id == mailbox_id))
          db.campaign_mailboxes))

-- `counts.get(id, 0)`.
abbrev pub count_of : List (ℕ × ℕ) → ℕ → ℕ
count_of [] i = 0
count_of ((j, n) ∷ rest) i = let later = count_of rest i in if j == i then n else later

-- A smaller load, or the same load and a smaller id.
unfoldable pub lighter : List (ℕ × ℕ) → PoolMember → PoolMember → Bool
lighter counts m n =
    let a = count_of counts m.mailbox_id * max n.weight 1 in
    let b = count_of counts n.mailbox_id * max m.weight 1 in
    ltb a b || ((a == b) && ltb m.mailbox_id n.mailbox_id)

-- `min`, which keeps the first of the least.
unfoldable pub lightest : List (ℕ × ℕ) → PoolMember → List PoolMember → PoolMember
unfolding lighter
lightest counts m [] = m
lightest counts m (n ∷ ns) = lightest counts (if lighter counts n m then n else m) ns

unfoldable pub choose : List PoolMember → List (ℕ × ℕ) → List ℕ → Option ℕ
choose members counts usable =
    elim (select (λ (m : PoolMember). elem m.mailbox_id usable) members) [
      | [] ↦ none
      | m ∷ ms ↦ some (lightest counts m ms).mailbox_id
    ]

unfoldable pub usable_ids : ℕ → List ℕ → Db → List ℕ
usable_ids org_id mailbox_ids db =
    map (λ (m : Mailbox). m.id)
      (select (λ (m : Mailbox). (m.org_id == org_id) && elem m.id mailbox_ids && not m.paused)
        db.mailboxes)
