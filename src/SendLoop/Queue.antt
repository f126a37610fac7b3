-- ===== src/SendLoop/Queue.antt =====
-- app/worker/send_loop.py, `find_candidates` and `_interleave`: what a candidate is, and that the
-- order loses none.
use outreach_automation.Prelude.{
  ℕ, zero, suc, Bool, true, false, not, ◌&&◌, ◌≡◌, refl, subst, List, [], ◌∷◌, ◌++◌, map, Option,
  none, some, leb, ◌==◌, if◌then◌else◌, All, select, insert_by, sort_by, take, length, some-eq,
  and-left,
}
use outreach_automation.Time.{Zone}
use outreach_automation.Campaign.Settings.{CampaignSettings}
use outreach_automation.Scheduling.{in_window}
use outreach_automation.Db.{Db, Lead, Campaign, Draft, Persona}
use outreach_automation.Db.Table.{find}
use outreach_automation.Pool.{campaign_ids_for}
use outreach_automation.SendLoop.{
  Candidate, candidate, Row, rows_with, rows_from, is_sendable_row, kind_fits, is_mine,
  candidate_rows, to_candidate, keep, add_to, queues_from, heads, tails, deal, has_priority,
  queues_of, approved_or, interleave, find_candidates,
}

module _ {ℓ} {A : Type 0} (P : A → Type ℓ) where
  pub All-append : (xs ys : List A) → All P xs → All P ys → All P (xs ++ ys)
  All-append [] ys a b = b
  All-append (x ∷ xs) ys (p, a) b = (p, All-append xs ys a b)

  pub All-select :
      (q : A → Bool) (xs : List A) → All P xs → All (λ x. P x × (q x ≡ true)) (select q xs)
  All-select q [] a = tt
  All-select q (x ∷ xs) (p, a) = go (All-select q xs a) (q x) refl
    where
      go :
          All (λ y. P y × (q y ≡ true)) (select q xs)
          → (b : Bool) → q x ≡ b
          → All (λ y. P y × (q y ≡ true)) (if b then x ∷ select q xs else select q xs)
      go rest true e = ((p, e), rest)
      go rest false e = rest

  All-insert_by :
      (before : A → A → Bool) (a : A) (xs : List A) → P a → All P xs → All P (insert_by before a xs)
  All-insert_by before a [] p h = (p, tt)
  All-insert_by before a (x ∷ xs) p (q, h) = go (All-insert_by before a xs p h) (before a x)
    where
      go :
          All P (insert_by before a xs)
          → (b : Bool) → All P (if b then a ∷ x ∷ xs else x ∷ insert_by before a xs)
      go r true = (p, (q, h))
      go r false = (q, r)

  pub All-sort_by : (before : A → A → Bool) (xs : List A) → All P xs → All P (sort_by before xs)
  All-sort_by before [] h = tt
  All-sort_by before (x ∷ xs) (p, h) =
      All-insert_by before x (sort_by before xs) p (All-sort_by before xs h)

  pub All-take : (n : ℕ) (xs : List A) → All P xs → All P (take n xs)
  All-take zero xs h = tt
  All-take (suc n) [] h = tt
  All-take (suc n) (x ∷ xs) (p, h) = (p, All-take n xs h)

pub All-keep :
    {A B : Type 0} (P : A → Type 0) (Q : B → Type 0) (f : A → Option B) (xs : List A)
    → ((x : A) (y : B) → P x → f x ≡ some y → Q y)
    → All P xs
    → All Q (keep f xs)
unfolding keep
All-keep P Q f [] h a = tt
All-keep {B = B} P Q f (x ∷ xs) h (p, a) = go (All-keep P Q f xs h a) (f x) refl
  where
    go :
        All Q (keep f xs)
        → (o : Option B) → f x ≡ o
        → All Q (elim o [ none ↦ keep f xs | some y ↦ y ∷ keep f xs ])
    go r none e = r
    go r (some y) e = (h x y p e, r)

-- A row is a draft with its lead and the lead's campaign.
abbrev pub IsRow : Db → Row → Type 0
IsRow db r =
    ((r.draft.lead_id == r.lead.id) ≡ true)
    × (find (λ (c : Campaign). c.id == r.lead.campaign_id) db.campaigns ≡ some r.campaign)

rows_with-IsRow :
    (db : Db) (l : Lead) (o : Option Campaign) (ds : List Draft)
    → find (λ (c : Campaign). c.id == l.campaign_id) db.campaigns ≡ o
    → All (IsRow db) (rows_with db l o ds)
unfolding rows_with
rows_with-IsRow db l none ds e = tt
rows_with-IsRow db l (some c) [] e = tt
rows_with-IsRow db l (some c) (d ∷ ds) e =
    go (rows_with-IsRow db l (some c) ds e) (d.lead_id == l.id) refl
  where
    go :
        All (IsRow db) (rows_with db l (some c) ds)
        → (b : Bool) → (d.lead_id == l.id) ≡ b
        → All (IsRow db) (
            if b
            then record { lead = l; draft = d; campaign = c } ∷ rows_with db l (some c) ds
            else rows_with db l (some c) ds)
    go rest true h = ((h, e), rest)
    go rest false h = rest

rows_from-IsRow : (db : Db) (ls : List Lead) → All (IsRow db) (rows_from db ls)
unfolding rows_from
rows_from-IsRow db [] = tt
rows_from-IsRow db (l ∷ ls) =
    All-append (IsRow db) _ _
      (rows_with-IsRow db l (find (λ (c : Campaign). c.id == l.campaign_id) db.campaigns) db.drafts
        refl)
      (rows_from-IsRow db ls)

-- What may be sent: an approved draft of the lead, in its own campaign's name and window, where the
-- lead's state fits the draft.
pub record IsCandidate (z : Zone) (org_id mailbox_id now : ℕ) (db : Db) (c : Candidate)
    : Type 0 where
  pub of_lead : (c.draft.lead_id == c.lead.id) ≡ true
  pub of_campaign :
      find (λ (x : Campaign). x.id == c.lead.campaign_id) db.campaigns ≡ some c.campaign
  pub selected :
      is_sendable_row org_id mailbox_id
        (campaign_ids_for org_id mailbox_id db)
        (record { lead = c.lead; draft = c.draft; campaign = c.campaign })
      ≡ true
  pub fits : kind_fits now c.draft.kind c.lead ≡ true
  pub own_settings : c.campaign.settings ≡ some c.settings
  pub own_persona : c.campaign.persona ≡ some c.persona
  pub open_window : in_window z now c.settings ≡ true

module _ (z : Zone) (org_id mailbox_id now : ℕ) (db : Db) where
  abbrev Chosen : Row → Type 0
  Chosen r =
      IsRow db r
      × (is_sendable_row org_id mailbox_id (campaign_ids_for org_id mailbox_id db) r ≡ true)

  to_candidate-IsCandidate :
      (r : Row) (c : Candidate)
      → Chosen r
      → to_candidate z org_id mailbox_id now db r ≡ some c
      → IsCandidate z org_id mailbox_id now db c
  unfolding to_candidate
  to_candidate-IsCandidate r c ((own, campaign), selected) h =
      go (kind_fits now r.draft.kind r.lead) refl r.campaign.settings refl r.campaign.persona refl h
    where
      last :
          (s : CampaignSettings) (p : Persona)
          → kind_fits now r.draft.kind r.lead ≡ true
          → r.campaign.settings ≡ some s
          → r.campaign.persona ≡ some p
          → (b : Bool) → (in_window z now s && is_mine z org_id mailbox_id now r db) ≡ b
          → (if b then some (candidate r p s) else none) ≡ some c
          → IsCandidate z org_id mailbox_id now db c
      last s p fits e f false i k = absurd (cc)
      last s p fits e f true i k =
          subst (IsCandidate z org_id mailbox_id now db) (some-eq k) (record {
            of_lead = own;
            of_campaign = campaign;
            selected = selected;
            fits = fits;
            own_settings = e;
            own_persona = f;
            open_window = and-left _ _ i;
          })

      go :
          (b : Bool)
          → kind_fits now r.draft.kind r.lead ≡ b
          → (s : Option CampaignSettings) → r.campaign.settings ≡ s
          → (p : Option Persona) → r.campaign.persona ≡ p
          → (if not b then none else elim s [
            | none ↦ none
            | some s' ↦ elim p [
              | none ↦ none
              | some p' ↦
                  if in_window z now s' && is_mine z org_id mailbox_id now r db
                  then some (candidate r p' s')
                  else none
            ]
          ])
            ≡ some c
          → IsCandidate z org_id mailbox_id now db c
      go false e s f p g k = absurd (cc)
      go true e none f p g k = absurd (cc)
      go true e (some s) f none g k = absurd (cc)
      go true e (some s) f (some p) g k = last s p e f g _ refl k

candidate_rows-Chosen :
    (z : Zone) (org_id mailbox_id now : ℕ) (db : Db)
    → All (Chosen z org_id mailbox_id now db) (candidate_rows org_id mailbox_id db)
unfolding candidate_rows
candidate_rows-Chosen z org_id mailbox_id now db =
    All-take (Chosen z org_id mailbox_id now db) 20 _ (
      All-sort_by (Chosen z org_id mailbox_id now db) _ _ (
        All-select (IsRow db)
          (is_sendable_row org_id mailbox_id (campaign_ids_for org_id mailbox_id db)) _
          (rows_from-IsRow db db.leads)))

module _ (P : Candidate → Type 0) where
  abbrev Queues : List (ℕ × List Candidate) → Type 0
  Queues qs = All (λ q. All P q.1) qs

  add_to-All :
      (c : Candidate) (qs : List (ℕ × List Candidate)) → P c → Queues qs → Queues (add_to c qs)
  unfolding add_to
  add_to-All c [] p h = ((p, tt), tt)
  add_to-All c ((i, q) ∷ qs) p (a, h) = go (add_to-All c qs p h) (i == c.lead.campaign_id)
    where
      go :
          Queues (add_to c qs)
          → (b : Bool) → Queues (if b then (i, q ++ c ∷ []) ∷ qs else (i, q) ∷ add_to c qs)
      go r true = (All-append P q (c ∷ []) a (p, tt), h)
      go r false = (a, r)

  queues_from-All :
      (cs : List Candidate) (qs : List (ℕ × List Candidate))
      → All P cs
      → Queues qs
      → Queues (queues_from qs cs)
  unfolding queues_from
  queues_from-All [] qs p h = h
  queues_from-All (c ∷ cs) qs (p, ps) h = queues_from-All cs (add_to c qs) ps (add_to-All c qs p h)

  map-All : (qs : List (ℕ × List Candidate)) → Queues qs → All (All P) (map (λ q. q.1) qs)
  map-All [] h = tt
  map-All (q ∷ qs) (p, h) = (p, map-All qs h)

  heads-All : (qs : List (List Candidate)) → All (All P) qs → All P (heads qs)
  heads-All [] h = tt
  heads-All ([] ∷ qs) (p, h) = heads-All qs h
  heads-All ((c ∷ cs) ∷ qs) ((p, ps), h) = (p, heads-All qs h)

  tails-All : (qs : List (List Candidate)) → All (All P) qs → All (All P) (tails qs)
  tails-All [] h = tt
  tails-All ([] ∷ qs) (p, h) = (tt, tails-All qs h)
  tails-All ((c ∷ cs) ∷ qs) ((p, ps), h) = (ps, tails-All qs h)

  deal-All : (n : ℕ) (qs : List (List Candidate)) → All (All P) qs → All P (deal n qs)
  unfolding deal
  deal-All zero qs h = tt
  deal-All (suc n) qs h = go (heads qs) (heads-All qs h) (deal-All n (tails qs) (tails-All qs h))
    where
      go :
          (l : List Candidate)
          → All P l
          → All P (deal n (tails qs))
          → All P (elim l [ [] ↦ [] | c ∷ cs ↦ (c ∷ cs) ++ deal n (tails qs) ])
      go [] a b = tt
      go (c ∷ cs) a b = All-append P (c ∷ cs) (deal n (tails qs)) a b

  forget : (q : Candidate → Bool) (cs : List Candidate) → All P cs → All P (select q cs)
  forget q [] h = tt
  forget q (c ∷ cs) (p, h) = go (forget q cs h) (q c)
    where
      go : All P (select q cs) → (b : Bool) → All P (if b then c ∷ select q cs else select q cs)
      go r true = (p, r)
      go r false = r

  dealt-All :
      (n : ℕ) (sorted : List Candidate)
      → All P sorted
      → (k : ℕ) → All P (deal n (queues_of k sorted))
  dealt-All n sorted h k =
      deal-All n _ (map-All _ (queues_from-All _ [] (forget (has_priority k) sorted h) tt))

  interleave-All : (now : ℕ) (cs : List Candidate) → All P cs → All P (interleave now cs)
  unfolding interleave
  interleave-All now cs h =
      let sorted = All-sort_by P (λ c d. leb (approved_or now c) (approved_or now d)) cs h in
      All-append P _ _
        (All-append P _ _ (dealt-All (length cs) _ sorted 0) (dealt-All (length cs) _ sorted 1))
        (dealt-All (length cs) _ sorted 2)

-- Whatever `find_candidates` offers a mailbox is an approved draft of a lead of the organisation,
-- which the lead's state fits, of a running campaign that the mailbox works for, whose window is
-- open, with that campaign's own settings and persona.
pub find_candidates-IsCandidate :
    (z : Zone) (org_id mailbox_id now : ℕ) (db : Db)
    → All (IsCandidate z org_id mailbox_id now db) (find_candidates z org_id mailbox_id now db)
unfolding find_candidates candidate_rows
find_candidates-IsCandidate z org_id mailbox_id now db = go (campaign_ids_for org_id mailbox_id db)
  where
    Good : Candidate → Type 0
    Good = IsCandidate z org_id mailbox_id now db

    go :
        (l : List ℕ)
        → All Good (elim l [
          | [] ↦ []
          | i ∷ is ↦
              interleave now (
                keep
                  (to_candidate z org_id mailbox_id now db)
                  (candidate_rows org_id mailbox_id db))
        ])
    go [] = tt
    go (i ∷ is) = interleave-All Good now _ (
        All-keep (Chosen z org_id mailbox_id now db) Good (to_candidate z org_id mailbox_id now db)
          (candidate_rows org_id mailbox_id db)
          (to_candidate-IsCandidate z org_id mailbox_id now db)
          (candidate_rows-Chosen z org_id mailbox_id now db))
