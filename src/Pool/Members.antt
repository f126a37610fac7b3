-- ===== src/Pool/Members.antt =====
-- app/services/mailboxes/pool.py: `pool_for` and `campaign_ids_for` are inverse to each other.
use outreach_automation.Prelude.{
  ℕ, Bool, true, false, not, ◌&&◌, ◌||◌, ◌≡◌, refl, sym, ap, ◌∙◌, subst, inl, inr, Bool-cases,
  ==_iff, some-eq, List, [], ◌∷◌, ◌++◌, map, Option, none, some, arith, ◌==◌, if◌then◌else◌, any,
  elem, select,
}
use outreach_automation.Db.{Db, Campaign, CampaignMailbox}
use outreach_automation.Db.Table.{find}
use outreach_automation.Db.Unique.{Unique, has}
use outreach_automation.Pool.{
  PoolMember, rows_of, insert_id, extra_ids, primary_member, extra_member, pool_for, distinct,
  is_mailbox, campaign_ids_for,
}

elem-append : (a : ℕ) (xs ys : List ℕ) → elem a (xs ++ ys) ≡ (elem a xs || elem a ys)
elem-append a [] ys = refl
elem-append a (x ∷ xs) ys = ground (arith, elem-append a xs ys)

elem-insert_id : (a i : ℕ) (js : List ℕ) → elem a (insert_id i js) ≡ ((i == a) || elem a js)
unfolding insert_id
elem-insert_id a i [] = refl
elem-insert_id a i (j ∷ js) = ground (arith, elem-insert_id a i js)

elem-distinct :
    (a : ℕ) (found is : List ℕ) → elem a (distinct found is) ≡ (elem a found || elem a is)
unfolding distinct
elem-distinct a found [] = ground arith
elem-distinct a found (i ∷ is) =
    elem-distinct a (if elem i found then found else found ++ i ∷ []) is
    ∙ ground (arith, elem-append a found (i ∷ []), same i a)
  where
    same : (i a : ℕ) → (i == a) ≡ true → elem i found ≡ true → elem a found ≡ true
    same i a h = subst (λ b. elem i found ≡ true → elem b found ≡ true) ((==_iff i a).0 h) (λ k. k)

-- A mailbox is the campaign's own, or a row gives it to the campaign.
in_row : ℕ → ℕ → ℕ → CampaignMailbox → Bool
in_row org_id campaign_id mailbox_id r =
    (r.org_id == org_id) && (r.campaign_id == campaign_id) && (r.mailbox_id == mailbox_id)

module _ (org_id mailbox_id : ℕ) where
  elem-extra_ids :
      (primary : Option ℕ) (rows : List CampaignMailbox)
      → elem mailbox_id (extra_ids primary rows) ≡ (
          not (is_mailbox mailbox_id primary)
          && any (λ (r : CampaignMailbox). r.mailbox_id == mailbox_id) rows)
  unfolding extra_ids
  elem-extra_ids none [] = refl
  elem-extra_ids (some p) [] = ground arith
  elem-extra_ids none (r ∷ rows) = ground (
    arith,
    elem-insert_id mailbox_id r.mailbox_id (extra_ids none rows),
    elem-extra_ids none rows,
  )
  elem-extra_ids (some p) (r ∷ rows) = ground (
    arith,
    elem-insert_id mailbox_id r.mailbox_id (extra_ids (some p) rows),
    elem-extra_ids (some p) rows,
  )

  map-extra_member :
      (rows : List CampaignMailbox) (is : List ℕ)
      → map (λ (p : PoolMember). p.mailbox_id) (map (extra_member rows) is) ≡ is
  unfolding extra_member
  map-extra_member rows [] = refl
  map-extra_member rows (i ∷ is) = ap (λ js. i ∷ js) (map-extra_member rows is)

  any-rows_of :
      (campaign_id : ℕ) (rows : List CampaignMailbox)
      → any
          (λ (r : CampaignMailbox). r.mailbox_id == mailbox_id)
          (select
            (λ (r : CampaignMailbox). (r.org_id == org_id) && (r.campaign_id == campaign_id))
            rows)
        ≡ any (in_row org_id campaign_id mailbox_id) rows
  unfolding in_row
  any-rows_of campaign_id [] = refl
  any-rows_of campaign_id (r ∷ rows) = ground (arith, any-rows_of campaign_id rows)

  elem-rows :
      (campaign_id : ℕ) (rows : List CampaignMailbox)
      → elem campaign_id (
          map
            (λ (r : CampaignMailbox). r.campaign_id)
            (select
              (λ (r : CampaignMailbox). (r.org_id == org_id) && (r.mailbox_id == mailbox_id))
              rows))
        ≡ any (in_row org_id campaign_id mailbox_id) rows
  unfolding in_row
  elem-rows campaign_id [] = refl
  elem-rows campaign_id (r ∷ rows) = ground (arith, elem-rows campaign_id rows)

  elem-primary :
      (primary : Option ℕ) (rows : List CampaignMailbox) (is : List ℕ)
      → elem mailbox_id (
          map
            (λ (p : PoolMember). p.mailbox_id)
            (primary_member primary rows ++ map (extra_member rows) is))
        ≡ (is_mailbox mailbox_id primary || elem mailbox_id is)
  unfolding primary_member
  elem-primary none rows is = ap (elem mailbox_id) (map-extra_member rows is)
  elem-primary (some p) rows is =
      ap (λ js. (p == mailbox_id) || elem mailbox_id js) (map-extra_member rows is)

  elem-pool_for :
      (c : Campaign) (db : Db)
      → elem mailbox_id (map (λ (p : PoolMember). p.mailbox_id) (pool_for org_id c db)) ≡ (
          is_mailbox mailbox_id c.mailbox_id
          || any (in_row org_id c.id mailbox_id) db.campaign_mailboxes)
  unfolding pool_for
  elem-pool_for c db =
      elem-primary c.mailbox_id (rows_of org_id c.id db)
        (extra_ids c.mailbox_id (rows_of org_id c.id db))
      ∙ ground (
        arith,
        elem-extra_ids c.mailbox_id (rows_of org_id c.id db),
        any-rows_of c.id db.campaign_mailboxes,
      )

  no_campaign :
      (n : ℕ) (q : Campaign → Bool) (cs : List Campaign)
      → any (has (λ (c : Campaign). c.id) n) cs ≡ false
      → elem n (map (λ (c : Campaign). c.id) (select q cs)) ≡ false
  no_campaign n q [] h = refl
  no_campaign n q (c ∷ cs) h = ground (arith, no_campaign n q cs)

  elem-campaigns :
      (q : Campaign → Bool) (c : Campaign) (cs : List Campaign)
      → Unique (λ (x : Campaign). x.id) cs
      → find (λ (x : Campaign). x.id == c.id) cs ≡ some c
      → elem c.id (map (λ (x : Campaign). x.id) (select q cs)) ≡ q c
  elem-campaigns q c [] u h = absurd (cc)
  elem-campaigns q c (x ∷ cs) (fresh, u) h = elim (Bool-cases (x.id == c.id)) [
    | inl same ↦
        let found : x ≡ c = some-eq (ground (arith, h, same)) in
        ground (
          arith,
          no_campaign c.id q cs (ground (arith, fresh, (==_iff x.id c.id).0 same)),
          ap q found,
          same,
        )
    | inr other ↦ ground (arith, elem-campaigns q c cs u, other)
  ]

  -- A mailbox is in the pool of a campaign of the organisation exactly if the campaign is among
  -- those that the mailbox works for.
  pub pool_for-campaign_ids_for :
      (c : Campaign) (db : Db)
      → c.org_id ≡ org_id
      → Unique (λ (x : Campaign). x.id) db.campaigns
      → find (λ (x : Campaign). x.id == c.id) db.campaigns ≡ some c
      → elem mailbox_id (map (λ (p : PoolMember). p.mailbox_id) (pool_for org_id c db))
        ≡ elem c.id (campaign_ids_for org_id mailbox_id db)
  unfolding campaign_ids_for
  pool_for-campaign_ids_for c db own u h =
      elem-pool_for c db
      ∙ sym (
          elem-distinct c.id [] (own_ids ++ row_ids)
          ∙ elem-append c.id own_ids row_ids
          ∙ ground (
            arith,
            elem-campaigns
                (λ (x : Campaign). (x.org_id == org_id) && is_mailbox mailbox_id x.mailbox_id) c
                db.campaigns u h,
            elem-rows c.id db.campaign_mailboxes,
            (==_iff c.org_id org_id).1 own,
          ))
    where
      own_ids : List ℕ
      own_ids =
          map (λ (x : Campaign). x.id)
            (select (λ (x : Campaign). (x.org_id == org_id) && is_mailbox mailbox_id x.mailbox_id)
              db.campaigns)

      row_ids : List ℕ
      row_ids =
          map (λ (r : CampaignMailbox). r.campaign_id)
            (select (λ (r : CampaignMailbox). (r.org_id == org_id) && (r.mailbox_id == mailbox_id))
              db.campaign_mailboxes)
