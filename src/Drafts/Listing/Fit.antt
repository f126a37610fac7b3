-- ===== src/Drafts/Listing/Fit.antt =====
-- app/db/drafts.py, `bulk_approve`: which drafts are fit for it, described apart from the code, and
-- what each reason to leave one says.
use outreach_automation.Prelude.{
  ℕ, ◌<◌, Bool, true, false, not, ◌&&◌, ◌≡◌, refl, sym, subst, ◌∙◌, inl, inr, List, ◌∷◌, Option,
  none, some, arith, ltb, leb, if◌then◌else◌, Bool-cases, some-eq,
}
use outreach_automation.Drafts.{is_failed}
use outreach_automation.Drafts.Listing.{
  ReviewItem, Skip, not_in_queue, validation_failed, thin_research, low_confidence, why_skip,
}

abbrev pub unless : Option Skip → ℕ → List ℕ → List ℕ
unless none i rest = i ∷ rest
unless (some _) i rest = rest

-- Whether a draft may be approved without a person's look: the queue shows it, its validation passed,
-- its research is not thin and its confidence is high enough.
abbrev pub is_fit : ℕ → Option ReviewItem → Bool
is_fit min_confidence none = false
is_fit min_confidence (some i) =
    not (is_failed i.draft.status)
    && not i.thin_research
    && leb min_confidence i.research_confidence

-- What each reason says of the draft: that the queue does not show it, or which test it is the first
-- to fail.
abbrev pub IsReason : ℕ → Option ReviewItem → Skip → Type 0
IsReason min_confidence o not_in_queue = o ≡ none
IsReason min_confidence o validation_failed =
    (i : ReviewItem) × (o ≡ some i) × (is_failed i.draft.status ≡ true)
IsReason min_confidence o thin_research =
    (i : ReviewItem) × (o ≡ some i) × (is_failed i.draft.status ≡ false) × (i.thin_research ≡ true)
IsReason min_confidence o (low_confidence has needs) =
    (i : ReviewItem) × (o ≡ some i)
    × (is_failed i.draft.status ≡ false)
    × (i.thin_research ≡ false)
    × (has ≡ i.research_confidence)
    × (needs ≡ min_confidence)
    × (has < needs)

pub unless-is_fit :
    (min_confidence : ℕ) (o : Option ReviewItem) (i : ℕ) (rest : List ℕ)
    → unless (why_skip min_confidence o) i rest
      ≡ (if is_fit min_confidence o then i ∷ rest else rest)
unfolding why_skip
unless-is_fit min_confidence none i rest = refl
unless-is_fit min_confidence (some item) i rest = ground (
  arith,
  Bool-cases (is_failed item.draft.status),
  Bool-cases item.thin_research,
  Bool-cases (ltb item.research_confidence min_confidence),
)

by-IsReason :
    (min_confidence : ℕ) (o : Option ReviewItem) (r q : Skip)
    → why_skip min_confidence o ≡ some r
    → why_skip min_confidence o ≡ some q
    → IsReason min_confidence o q
    → IsReason min_confidence o r
by-IsReason min_confidence o r q h k i = subst (IsReason min_confidence o) (some-eq (sym k ∙ h)) i

pub why_skip-IsReason :
    (min_confidence : ℕ) (o : Option ReviewItem) (r : Skip)
    → why_skip min_confidence o ≡ some r
    → IsReason min_confidence o r
unfolding why_skip
why_skip-IsReason min_confidence none r h = subst (IsReason min_confidence none) (some-eq h) refl
why_skip-IsReason min_confidence (some i) r h = elim (Bool-cases (is_failed i.draft.status)) [
  | inl failed ↦
      by-IsReason min_confidence (some i) r validation_failed h (ground (arith, failed))
        (i, refl, failed)
  | inr passed ↦ elim (Bool-cases i.thin_research) [
    | inl thin ↦
        by-IsReason min_confidence (some i) r thin_research h (ground (arith, passed, thin))
          (i, refl, passed, thin)
    | inr thick ↦ elim (Bool-cases (ltb i.research_confidence min_confidence)) [
      | inl low ↦
          by-IsReason min_confidence (some i) r
            (low_confidence i.research_confidence min_confidence) h
            (ground (arith, passed, thick, low))
            (i, refl, passed, thick, refl, refl, ground (arith, low))
      | inr enough ↦ absurd (ground (arith, passed, thick, enough, h))
    ]
  ]
]

pub unfit-why_skip :
    (min_confidence : ℕ) (o : Option ReviewItem)
    → is_fit min_confidence o ≡ false
    → (r : Skip) × (why_skip min_confidence o ≡ some r)
unfolding why_skip
unfit-why_skip min_confidence none h = (not_in_queue, refl)
unfit-why_skip min_confidence (some i) h = elim (Bool-cases (is_failed i.draft.status)) [
  | inl failed ↦ (validation_failed, ground (arith, failed))
  | inr passed ↦ elim (Bool-cases i.thin_research) [
    | inl thin ↦ (thin_research, ground (arith, passed, thin))
    | inr thick ↦
        (low_confidence i.research_confidence min_confidence, ground (arith, passed, thick, h))
  ]
]
