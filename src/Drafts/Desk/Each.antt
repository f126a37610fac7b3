-- ===== src/Drafts/Desk/Each.antt =====
-- app/db/drafts.py: what a change of the table of drafts is on one desk, a step of it.
use outreach_automation.Prelude.{
  ℕ, ◌+◌, ◌<◌, Bool, true, false, ◌&&◌, ◌≡◌, refl, sym, ap, subst, ◌∙◌, inl, inr, List, [], ◌∷◌,
  ◌++◌, some, arith, ◌==◌, ==_iff, ==_refl, count, Bool-cases, and-left, and-right,
}
use outreach_automation.Db.{Draft, DraftStatus, MessageKind, initial, followup, reply}
use outreach_automation.Db.Table.{find, update_where}
use outreach_automation.Db.Unique.{Unique}
use outreach_automation.Sendable.{kind_index}
use outreach_automation.Drafts.{
  Fresh, max_rejections, is_rejected, is_judgeable, is_of, is_open, is_refused, highest,
  next_version, with_status, supersede_live,
}
use outreach_automation.Drafts.Review.{
  is_draft, Approval, approved_row, edited_draft, Rejection, rejected_row,
}
use outreach_automation.Drafts.Desk.{
  Desk, DeskStep, elsewhere, put, pass, pass_edited, send_back, Shows, one_if, highest-update_where,
  count-open_superseded, count-refused_superseded, count-open_elsewhere,
}
use outreach_automation.Drafts.Desk.Moves.{
  judged_here, judged_elsewhere, added_here, added_elsewhere,
}
use outreach_automation.Drafts.Steps.{with_attach}

abbrev pub by_id : Draft → ℕ
by_id d = d.id

kind_index_eq : (k j : MessageKind) → (kind_index k == kind_index j) ≡ true → k ≡ j
kind_index_eq initial initial h = refl
kind_index_eq followup followup h = refl
kind_index_eq reply reply h = refl
kind_index_eq initial followup h = absurd (cc)
kind_index_eq initial reply h = absurd (cc)
kind_index_eq followup initial h = absurd (cc)
kind_index_eq followup reply h = absurd (cc)
kind_index_eq reply initial h = absurd (cc)
kind_index_eq reply followup h = absurd (cc)

own : (l : ℕ) (k : MessageKind) (d : Draft) → is_of l k d ≡ true → (d.lead_id ≡ l) × (d.kind ≡ k)
own l k d h = ((==_iff d.lead_id l).0 (and-left _ _ h), kind_index_eq d.kind k (and-right _ _ h))

module _ (l : ℕ) (k : MessageKind) (ds : List Draft) (s : Desk) (shows : Shows l k ds s) where
  superseded_here : Shows l k (supersede_live l k ds) (record s { waiting = false })
  unfolding supersede_live
  superseded_here = (
    highest-update_where l k (is_open l k) (with_status DraftStatus.superseded) ds
          (λ d. (refl, refl))
        ∙ shows.0,
    count-open_superseded l k ds,
    count-refused_superseded l k l k ds ∙ shows.2,
  )

  superseded_elsewhere :
      (m : ℕ) (j : MessageKind)
      → ((m == l) && (kind_index j == kind_index k)) ≡ false
      → Shows l k (supersede_live m j ds) s
  unfolding supersede_live
  superseded_elsewhere m j h = (
    highest-update_where l k (is_open m j) (with_status DraftStatus.superseded) ds
          (λ d. (refl, refl))
        ∙ shows.0,
    count-open_elsewhere l k m j ds h ∙ shows.1,
    count-refused_superseded l k m j ds ∙ shows.2,
  )

  -- A toggle changes nothing that a desk shows.
  pub attached : (p : Draft → Bool) (b : Bool) → Shows l k (update_where p (with_attach b) ds) s
  attached p b = (
    highest-update_where l k p (with_attach b) ds (λ d. (refl, refl)) ∙ shows.0,
    same_count (is_open l k) p (with_attach b) ds (λ d. refl) ∙ shows.1,
    same_count (is_refused l k) p (with_attach b) ds (λ d. refl) ∙ shows.2,
  )
    where
      same_count :
          (q p : Draft → Bool) (f : Draft → Draft) (xs : List Draft)
          → ((x : Draft) → q (f x) ≡ q x)
          → count q (update_where p f xs) ≡ count q xs
      same_count q p f [] h = refl
      same_count q p f (x ∷ xs) h = ground (arith, h x, same_count q p f xs h)

-- What a move does to one desk.
abbrev pub Moved : ℕ → MessageKind → List Draft → Desk → Type 0
Moved l k ds' s = (t : Desk) × DeskStep s t × Shows l k ds' t

-- A draft is on its own desk.
is_of_own : (d : Draft) → is_of d.lead_id d.kind d ≡ true
is_of_own d = ground (arith, ==_refl d.lead_id, ==_refl (kind_index d.kind))

judgeable_kept : (s : DraftStatus) → is_judgeable s ≡ true → is_rejected s ≡ false
judgeable_kept s h = ground arith

wrote_here :
    (ds : List Draft) (d : Draft) (s : Desk)
    → d.version ≡ next_version d.lead_id d.kind (supersede_live d.lead_id d.kind ds)
    → is_judgeable d.status ≡ true
    → Shows d.lead_id d.kind ds s
    → Moved d.lead_id d.kind (supersede_live d.lead_id d.kind ds ++ d ∷ []) s
unfolding next_version
wrote_here ds d s v j shows =
    let a =
      added_here d.lead_id d.kind (supersede_live d.lead_id d.kind ds) d
        (record s { waiting = false }) (superseded_here d.lead_id d.kind ds s shows) (is_of_own d) v
        (judgeable_kept d.status j) refl in
    (record s { versions = s.versions + 1; waiting = true }, put, (a.0, a.1 ∙ ap one_if j, a.2))

pub wrote-step :
    (l : ℕ) (k : MessageKind) (ds : List Draft) (d : Draft) (s : Desk)
    → d.version ≡ next_version d.lead_id d.kind (supersede_live d.lead_id d.kind ds)
    → is_judgeable d.status ≡ true
    → Shows l k ds s
    → Moved l k (supersede_live d.lead_id d.kind ds ++ d ∷ []) s
wrote-step l k ds d s v j shows = elim (Bool-cases (is_of l k d)) [
  | inl h ↦
      let o = own l k d h in
      subst (λ m. Shows m k ds s → Moved m k (supersede_live d.lead_id d.kind ds ++ d ∷ []) s) o.0
        (subst
          (λ i.
            Shows d.lead_id i ds s
            → Moved d.lead_id i (supersede_live d.lead_id d.kind ds ++ d ∷ []) s)
          o.1 (wrote_here ds d s v j))
        shows
  | inr h ↦ (
    s,
    elsewhere,
    added_elsewhere l k (supersede_live d.lead_id d.kind ds) d s
        (superseded_elsewhere l k ds s shows d.lead_id d.kind h) h,
  )
]

no_more_refused : (n : ℕ) → n + 0 ≡ n
no_more_refused n = omega arith

module _ (l : ℕ) (k : MessageKind) (ds : List Draft) (d : Draft) (s : Desk) (u : Unique by_id ds)
    (j : is_judgeable d.status ≡ true) (shows : Shows l k ds s) where
  few_here :
      is_of l k d ≡ true
      → count (is_refused d.lead_id d.kind) ds < max_rejections
      → s.refused < max_rejections
  few_here h few =
      subst (λ n. n < max_rejections)
        (ap (λ m. count (is_refused m d.kind) ds) (own l k d h).0
          ∙ ap (λ i. count (is_refused l i) ds) (own l k d h).1
          ∙ shows.2)
        few

  pub approved-step :
      (a : Approval)
      → find (is_draft a.org_id a.draft_id) ds ≡ some d
      → Moved l k (update_where (is_draft a.org_id a.draft_id) (approved_row a) ds) s
  unfolding approved_row
  approved-step a found = elim (Bool-cases (is_of l k d)) [
    | inr h ↦ (
      s,
      elsewhere,
      judged_elsewhere l k a.org_id a.draft_id (approved_row a) ds d s
          (λ x. (refl, refl, refl, refl)) u found shows h,
    )
    | inl h ↦
        let t =
          judged_here l k a.org_id a.draft_id (approved_row a) ds d s
            (λ x. (refl, refl, refl, refl)) u found shows h j refl in
        (record s { waiting = false }, pass t.0, (t.1.0, t.1.1, t.1.2 ∙ no_more_refused s.refused))
  ]

  pub rejected-step :
      (r : Rejection)
      → find (is_draft r.org_id r.draft_id) ds ≡ some d
      → count (is_refused d.lead_id d.kind) ds < max_rejections
      → Moved l k (update_where (is_draft r.org_id r.draft_id) (rejected_row r) ds) s
  unfolding rejected_row
  rejected-step r found few = elim (Bool-cases (is_of l k d)) [
    | inr h ↦ (
      s,
      elsewhere,
      judged_elsewhere l k r.org_id r.draft_id (rejected_row r) ds d s
          (λ x. (refl, refl, refl, refl)) u found shows h,
    )
    | inl h ↦
        let t =
          judged_here l k r.org_id r.draft_id (rejected_row r) ds d s
            (λ x. (refl, refl, refl, refl)) u found shows h j refl in
        let o = own l k d h in
        (record s { waiting = false; refused = s.refused + 1 }, send_back t.0 (few_here h few), t.1)
  ]

  pub edited-step :
      (new : Fresh) (a : Approval) (retired : List Draft)
      → find (is_draft a.org_id a.draft_id) ds ≡ some d
      → retired
        ≡ update_where (is_draft a.org_id a.draft_id) (with_status DraftStatus.superseded) ds
      → Moved l k (retired ++ edited_draft new a d (next_version d.lead_id d.kind retired) ∷ []) s
  unfolding edited_draft next_version
  edited-step new a retired found e = elim (Bool-cases (is_of l k d)) [
    | inr h ↦ (
      s,
      elsewhere,
      added_elsewhere l k retired (edited_draft new a d (next_version d.lead_id d.kind retired)) s
          (subst (λ x. Shows l k x s) (sym e)
            (judged_elsewhere l k a.org_id a.draft_id (with_status DraftStatus.superseded) ds d s
              (λ x. (refl, refl, refl, refl)) u found shows h))
          h,
    )
    | inl h ↦
        let t =
          judged_here l k a.org_id a.draft_id (with_status DraftStatus.superseded) ds d s
            (λ x. (refl, refl, refl, refl)) u found shows h j refl in
        let closed : Shows l k retired (record s { waiting = false }) =
          subst (λ x. Shows l k x (record s { waiting = false })) (sym e)
            (t.1.0, t.1.1, t.1.2 ∙ no_more_refused s.refused) in
        let v =
          ap (λ m. highest m d.kind retired + 1) (own l k d h).0
          ∙ ap (λ i. highest l i retired + 1) (own l k d h).1 in
        (
          record s { versions = s.versions + 1; waiting = false },
          pass_edited t.0,
          added_here l k retired (edited_draft new a d (next_version d.lead_id d.kind retired))
              (record s { waiting = false }) closed h v refl refl,
        )
  ]
