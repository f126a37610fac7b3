-- ===== src/Drafts/Listing/Bulk.antt =====
-- app/db/drafts.py, `bulk_approve`: which drafts it approves, and what it says of the others.
use outreach_automation.Prelude.{
  select, ℕ, Bool, true, false, ◌||◌, ◌≡◌, refl, sym, ap, subst, ◌∙◌, List, [], ◌∷◌, ◌++◌, map,
  Option, none, some, String, arith, ◌==◌, ==_iff, if◌then◌else◌, elem, ok, ◌>>=◌, bind-ok, through,
  ok-pair,
}
use outreach_automation.Db.{Db}
use outreach_automation.Jobs.{QueueConfig}
use outreach_automation.Drafts.{Fresh}
use outreach_automation.Drafts.Review.{approve}
use outreach_automation.Drafts.Steps.{ReviewOp, judge, perform, perform_all}
use outreach_automation.Drafts.Listing.Fit.{
  unless, is_fit, IsReason, unless-is_fit, why_skip-IsReason, unfit-why_skip,
}
use outreach_automation.Drafts.Listing.{
  ReviewItem, review_queue, Skip, BulkReport, put, why_skip, plain_approval, item_with, bulk_loop,
  bulk_query, bulk_approve,
}

-- `skipped.get(id)`.
abbrev pub lookup : ℕ → List (ℕ × Skip) → Option Skip
lookup i [] = none
lookup i ((j, r) ∷ rest) = let later = lookup i rest in if j == i then some r else later

lookup-put :
    (i j : ℕ) (r : Skip) (xs : List (ℕ × Skip))
    → lookup i (put j r xs) ≡ (if j == i then some r else lookup i xs)
unfolding put
lookup-put i j r [] = ground arith
lookup-put i j r ((k, q) ∷ xs) =
    ground (arith, lookup-put i j r xs, ==_iff k j, ==_iff k i, ==_iff j i)

-- What a report says of an id: the reason, if it was asked about and there is one.
abbrev say : Bool → Option Skip → Option Skip → Option Skip
say false o before = before
say true none before = before
say true (some r) before = some r

say-reason :
    (a b : Bool) (o before : Option Skip) (r : Skip)
    → (a ≡ true → o ≡ some r)
    → say b o (if a then some r else before) ≡ say (a || b) o before
say-reason false b o before r h = refl
say-reason true true (some q) before r h = refl
say-reason true true none before r h = absurd (let e = h refl in cc)
say-reason true false (some q) before r h = sym (h refl)
say-reason true false none before r h = absurd (let e = h refl in cc)

say-nothing :
    (a b : Bool) (o before : Option Skip)
    → (a ≡ true → o ≡ none)
    → say b o before ≡ say (a || b) o before
say-nothing false b o before h = refl
say-nothing true true o before h = refl
say-nothing true false none before h = refl
say-nothing true false (some q) before h = absurd (let e = h refl in cc)

append-nil : (xs : List ℕ) → xs ++ [] ≡ xs
append-nil [] = refl
append-nil (x ∷ xs) = ap (λ l. x ∷ l) (append-nil xs)

append-snoc : (xs : List ℕ) (i : ℕ) (ys : List ℕ) → (xs ++ i ∷ []) ++ ys ≡ xs ++ i ∷ ys
append-snoc [] i ys = refl
append-snoc (x ∷ xs) i ys = ap (λ l. x ∷ l) (append-snoc xs i ys)

module _ (config : QueueConfig) (new : Fresh) (org_id : ℕ) (approved_by : String)
    (min_confidence now : ℕ) (rows : List ReviewItem) where
  abbrev pub reason : ℕ → Option Skip
  reason i = why_skip min_confidence (item_with i rows)

  abbrev pub approvals : List ℕ → List ReviewOp
  approvals = map (λ i. judge new (plain_approval org_id approved_by now i))

  -- The ids that nothing speaks against.
  abbrev pub unopposed : List ℕ → List ℕ
  unopposed [] = []
  unopposed (i ∷ ids) = unless (reason i) i (unopposed ids)

  bulk_loop-approves :
      (ids : List ℕ) (done done' : BulkReport) (db db' : Db)
      → bulk_loop new org_id approved_by min_confidence now rows ids done db ≡ ok (done', db')
      → (done'.approved ≡ done.approved ++ unopposed ids)
        × (perform_all config (approvals (unopposed ids)) db ≡ ok db')
  unfolding bulk_loop perform_all perform
  bulk_loop-approves [] done done' db db' h =
      let e = ok-pair h in
      (ap (λ (x : BulkReport). x.approved) (sym e.0) ∙ sym (append-nil done.approved), ap ok e.1)
  bulk_loop-approves (i ∷ ids) done done' db db' h = go (bulk_loop-approves ids) (reason i) h
    where
      go :
          ((d d' : BulkReport) (e e' : Db)
            → bulk_loop new org_id approved_by min_confidence now rows ids d e ≡ ok (d', e')
            → (d'.approved ≡ d.approved ++ unopposed ids)
              × (perform_all config (approvals (unopposed ids)) e ≡ ok e'))
          → (o : Option Skip)
          → (elim o [
            | some r ↦
                bulk_loop new org_id approved_by min_confidence now rows ids
                  (record done { skipped = put i r done.skipped })
                  db
            | none ↦ approve new (plain_approval org_id approved_by now i) db >>= λ t.
                bulk_loop new org_id approved_by min_confidence now rows ids
                  (record done { approved = done.approved ++ i ∷ [] })
                  t.1
          ])
            ≡ ok (done', db')
          → (done'.approved ≡ done.approved ++ unless o i (unopposed ids))
            × (perform_all config (approvals (unless o i (unopposed ids))) db ≡ ok db')
      go again (some r) k = again (record done { skipped = put i r done.skipped }) done' db db' k
      go again none k =
          elim (bind-ok (approve new (plain_approval org_id approved_by now i) db) _ _ k) [
            | through (target, db1) first rest ↦
                let r =
                  again (record done { approved = done.approved ++ i ∷ [] }) done' db1 db' rest in
                (
                  r.0 ∙ append-snoc done.approved i (unopposed ids),
                  ap
                        (λ x. (x >>= λ t. ok t.1) >>= λ d.
                          perform_all config (approvals (unopposed ids)) d)
                        first
                      ∙ r.1,
                )
          ]

  bulk_loop-reports :
      (j : ℕ) (ids : List ℕ) (done done' : BulkReport) (db db' : Db)
      → bulk_loop new org_id approved_by min_confidence now rows ids done db ≡ ok (done', db')
      → lookup j done'.skipped ≡ say (elem j ids) (reason j) (lookup j done.skipped)
  unfolding bulk_loop
  bulk_loop-reports j [] done done' db db' h =
      ap (λ (x : BulkReport). lookup j x.skipped) (sym (ok-pair h).0)
  bulk_loop-reports j (i ∷ ids) done done' db db' h = go (bulk_loop-reports j ids) (reason i) refl h
    where
      go :
          ((d d' : BulkReport) (e e' : Db)
            → bulk_loop new org_id approved_by min_confidence now rows ids d e ≡ ok (d', e')
            → lookup j d'.skipped ≡ say (elem j ids) (reason j) (lookup j d.skipped))
          → (o : Option Skip) → reason i ≡ o
          → (elim o [
            | some r ↦
                bulk_loop new org_id approved_by min_confidence now rows ids
                  (record done { skipped = put i r done.skipped })
                  db
            | none ↦ approve new (plain_approval org_id approved_by now i) db >>= λ t.
                bulk_loop new org_id approved_by min_confidence now rows ids
                  (record done { approved = done.approved ++ i ∷ [] })
                  t.1
          ])
            ≡ ok (done', db')
          → lookup j done'.skipped ≡ say (elem j (i ∷ ids)) (reason j) (lookup j done.skipped)
      go again (some r) e k =
          again (record done { skipped = put i r done.skipped }) done' db db' k
          ∙ ap (say (elem j ids) (reason j)) (lookup-put j i r done.skipped)
          ∙ say-reason (i == j) (elem j ids) (reason j) (lookup j done.skipped) r
              (λ q. ap reason (sym ((==_iff i j).0 q)) ∙ e)
      go again none e k =
          elim (bind-ok (approve new (plain_approval org_id approved_by now i) db) _ _ k) [
            | through (target, db1) first rest ↦
                again (record done { approved = done.approved ++ i ∷ [] }) done' db1 db' rest
                ∙ say-nothing (i == j) (elem j ids) (reason j) (lookup j done.skipped)
                    (λ q. ap reason (sym ((==_iff i j).0 q)) ∙ e)
          ]

unopposed-select :
    (config : QueueConfig) (new : Fresh) (org_id : ℕ) (approved_by : String)
    (min_confidence now : ℕ) (rows : List ReviewItem) (ids : List ℕ)
    → unopposed config new org_id approved_by min_confidence now rows ids
      ≡ select (λ i. is_fit min_confidence (item_with i rows)) ids
unopposed-select config new org_id approved_by min_confidence now rows [] = refl
unopposed-select config new org_id approved_by min_confidence now rows (i ∷ ids) =
    unless-is_fit min_confidence (item_with i rows) i
      (unopposed config new org_id approved_by min_confidence now rows ids)
    ∙ ap (λ l. if is_fit min_confidence (item_with i rows) then i ∷ l else l)
        (unopposed-select config new org_id approved_by min_confidence now rows ids)

-- What a bulk approval does: it approves, one after the other and as a person would without an edit,
-- exactly the ids whose drafts are fit, and says of each other id why it was left.
pub record IsCareful (config : QueueConfig) (new : Fresh) (org_id : ℕ) (ids : List ℕ)
    (approved_by : String) (min_confidence now : ℕ) (rows : List ReviewItem) (done : BulkReport)
    (db db' : Db) : Type 0 where
  pub fit_ones : done.approved ≡ select (λ i. is_fit min_confidence (item_with i rows)) ids
  pub as_persons :
      perform_all config
        (map (λ i. judge new (plain_approval org_id approved_by now i)) done.approved)
        db
      ≡ ok db'
  pub reasons :
      (j : ℕ) (r : Skip)
      → lookup j done.skipped ≡ some r
      → (elem j ids ≡ true) × IsReason min_confidence (item_with j rows) r
  pub all_told :
      (j : ℕ)
      → elem j ids ≡ true
      → is_fit min_confidence (item_with j rows) ≡ false
      → (r : Skip) × (lookup j done.skipped ≡ some r)

say-first : (b : Bool) (o : Option Skip) → say b o none ≡ (if b then o else none)
say-first false o = refl
say-first true none = refl
say-first true (some r) = refl

told :
    (b : Bool) (o : Option Skip) (r : Skip)
    → (if b then o else none) ≡ some r
    → (b ≡ true) × (o ≡ some r)
told true o r h = (refl, h)
told false o r h = absurd (cc)

-- A bulk approval that returns approved, one after the other and without an edit, exactly those of
-- the drafts for which the queue shows a status that is not failed, research that is not thin and at
-- least the asked-for confidence, in the order in which they were named; and its report gives a
-- reason for each other id and for no id that was not named: that the queue does not show the draft,
-- or the first of these tests, in this order, that it does not pass.
pub bulk_approve-IsCareful :
    (config : QueueConfig) (new : Fresh) (org_id : ℕ) (ids : List ℕ) (approved_by : String)
    (min_confidence now : ℕ) (db : Db) (done : BulkReport) (db' : Db)
    → bulk_approve new org_id ids approved_by min_confidence now db ≡ ok (done, db')
    → IsCareful config new org_id ids approved_by min_confidence now
        (review_queue (bulk_query org_id ids) db)
        done
        db
        db'
unfolding bulk_approve
bulk_approve-IsCareful config new org_id ids approved_by min_confidence now db done db' h =
    let a =
      bulk_loop-approves config new org_id approved_by min_confidence now rows ids start done db db'
        h in
    record {
      fit_ones = a.0 ∙ unopposed-select config new org_id approved_by min_confidence now rows ids;
      as_persons =
          subst
            (λ l.
              perform_all config (map (λ i. judge new (plain_approval org_id approved_by now i)) l)
                db
              ≡ ok db')
            (sym a.0) a.1;
      reasons = λ j r k.
          let t =
            told (elem j ids) (why_skip min_confidence (item_with j rows)) r (sym (said j) ∙ k) in
          (t.0, why_skip-IsReason min_confidence (item_with j rows) r t.1);
      all_told = λ j asked unfit.
          let (r, e) = unfit-why_skip min_confidence (item_with j rows) unfit in
          (
            r,
            said j
                ∙ ap (λ b. if b then why_skip min_confidence (item_with j rows) else none) asked
                ∙ e,
          );
    }
  where
    rows : List ReviewItem
    rows = review_queue (bulk_query org_id ids) db

    start : BulkReport
    start = record { approved = []; skipped = [] }

    said :
        (j : ℕ)
        → lookup j done.skipped
          ≡ (if elem j ids then why_skip min_confidence (item_with j rows) else none)
    said j =
        bulk_loop-reports config new org_id approved_by min_confidence now rows j ids start done db
          db' h
        ∙ say-first (elem j ids) (why_skip min_confidence (item_with j rows))
