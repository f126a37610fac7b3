-- ===== src/Campaign/Settings/Valid.antt =====
-- What validated settings promise (app/domain/campaign.py).
use outreach_automation.Prelude.{
  ℕ, ◌≤◌, ◌<◌, ◌≡◌, refl, Bool, true, false, List, [], ◌∷◌, arith, all, elem, String, ◌||◌, ◌==◌,
  leb, Bool-cases, inl, inr, subst, sym,
}
use outreach_automation.Campaign.Settings.{
  CampaignSettings, valid, validate, review_all, insert_day, sorted_days, in_bounds, is_review_all,
  is_empty,
}

-- Strictly ascending.
abbrev pub Ascending : List ℕ → Type 0
Ascending [] = Unit
Ascending (x ∷ []) = Unit
Ascending (x ∷ y ∷ ys) = (x < y) × Ascending (y ∷ ys)

elem-insert_day : (a d : ℕ) (ds : List ℕ) → elem a (insert_day d ds) ≡ ((d == a) || elem a ds)
unfolding insert_day
elem-insert_day a d [] = refl
elem-insert_day a d (x ∷ xs) = ground (arith, elem-insert_day a d xs)

elem-sorted_days : (a : ℕ) (ds : List ℕ) → elem a (sorted_days ds) ≡ elem a ds
unfolding sorted_days
elem-sorted_days a [] = refl
elem-sorted_days a (d ∷ ds) =
    ground (arith, elem-insert_day a d (sorted_days ds), elem-sorted_days a ds)

insert_day-Ascending : (d : ℕ) (ds : List ℕ) → Ascending ds → Ascending (insert_day d ds)
unfolding insert_day
insert_day-Ascending d [] h = tt
insert_day-Ascending d (x ∷ []) h = ground arith
insert_day-Ascending d (x ∷ y ∷ ys) h = ground (arith, insert_day-Ascending d (y ∷ ys))

sorted_days-Ascending : (ds : List ℕ) → Ascending (sorted_days ds)
unfolding sorted_days
sorted_days-Ascending [] = tt
sorted_days-Ascending (d ∷ ds) = insert_day-Ascending d (sorted_days ds) (sorted_days-Ascending ds)

-- What a campaign may rely on.
pub record IsValid (s : CampaignSettings) : Type 0 where
  pub some_day : is_empty s.send_days ≡ false
  pub real_days : all (λ d. leb d 6) s.send_days ≡ true
  pub ascending : Ascending s.send_days
  pub opens : s.window_start < s.window_end
  pub reviewed : s.approval_mode ≡ review_all
  pub cap : (1 ≤ s.daily_cap) × (s.daily_cap ≤ 2000)
  pub followup_days : (1 ≤ s.followup_after_days) × (s.followup_after_days ≤ 60)
  pub followups : s.max_followups ≤ 5
  pub final_wait : (1 ≤ s.final_wait_days) × (s.final_wait_days ≤ 90)
  pub max_delay : (1 ≤ s.followup_max_delay_days) × (s.followup_max_delay_days ≤ 30)

all-insert_day :
    (p : ℕ → Bool) (d : ℕ) (ds : List ℕ)
    → p d ≡ true
    → all p ds ≡ true
    → all p (insert_day d ds) ≡ true
unfolding insert_day
all-insert_day p d [] h k = ground arith
all-insert_day p d (x ∷ xs) h k = ground (arith, all-insert_day p d xs)

all-sorted_days : (p : ℕ → Bool) (ds : List ℕ) → all p ds ≡ true → all p (sorted_days ds) ≡ true
unfolding sorted_days
all-sorted_days p [] h = refl
all-sorted_days p (d ∷ ds) h =
    ground (arith, all-insert_day p d (sorted_days ds), all-sorted_days p ds)

is_empty-insert_day : (d : ℕ) (ds : List ℕ) → is_empty (insert_day d ds) ≡ false
unfolding insert_day is_empty
is_empty-insert_day d [] = refl
is_empty-insert_day d (x ∷ xs) = ground arith

is_empty-sorted_days : (ds : List ℕ) → is_empty (sorted_days ds) ≡ is_empty ds
unfolding sorted_days is_empty
is_empty-sorted_days [] = refl
is_empty-sorted_days (d ∷ ds) = is_empty-insert_day d (sorted_days ds)

insert_day-least : (d : ℕ) (ds : List ℕ) → Ascending (d ∷ ds) → insert_day d ds ≡ d ∷ ds
unfolding insert_day
insert_day-least d [] h = refl
insert_day-least d (x ∷ xs) h = ground arith

Ascending-tail : (d : ℕ) (ds : List ℕ) → Ascending (d ∷ ds) → Ascending ds
Ascending-tail d [] h = tt
Ascending-tail d (x ∷ xs) h = h.1

sorted_days-fixed : (ds : List ℕ) → Ascending ds → sorted_days ds ≡ ds
unfolding sorted_days
sorted_days-fixed [] h = refl
sorted_days-fixed (d ∷ ds) h =
    rw (sorted_days-fixed ds (Ascending-tail d ds h)) (insert_day-least d ds h)

days_in_bounds : (s : CampaignSettings) → in_bounds s ≡ true → all (λ d. leb d 6) s.send_days ≡ true
unfolding in_bounds
days_in_bounds s h = elim (Bool-cases (all (λ d. leb d 6) s.send_days)) [
  | inl e ↦ e
  | inr e ↦ cc (rw e at h)
]

sorted-IsValid :
    (s : CampaignSettings)
    → in_bounds s ≡ true
    → is_empty s.send_days ≡ false
    → leb s.window_end s.window_start ≡ false
    → is_review_all s.approval_mode ≡ true
    → IsValid (record s { send_days = sorted_days s.send_days })
unfolding in_bounds is_review_all
sorted-IsValid s bounds days window review = record {
  some_day = rw (is_empty-sorted_days s.send_days) days;
  real_days = all-sorted_days (λ d. leb d 6) s.send_days (days_in_bounds s bounds);
  ascending = sorted_days-Ascending s.send_days;
  opens = ground arith;
  reviewed = ground arith;
  cap = ground arith;
  followup_days = ground arith;
  followups = ground arith;
  final_wait = ground arith;
  max_delay = ground arith;
}

in_bounds-sorted :
    (s : CampaignSettings)
    → in_bounds s ≡ true
    → in_bounds (record s { send_days = sorted_days s.send_days }) ≡ true
unfolding in_bounds
in_bounds-sorted s h =
    rw (all-sorted_days (λ d. leb d 6) s.send_days (days_in_bounds s h))
      (rw (days_in_bounds s h) at h)

module _ (zone_exists : String → Bool) (s : CampaignSettings) where
  -- The tests that `validate` makes, when it accepts.
  record Accepted (s' : CampaignSettings) : Type 0 where
    bounds : in_bounds s ≡ true
    zone : zone_exists s.timezone ≡ true
    days : is_empty s.send_days ≡ false
    window : leb s.window_end s.window_start ≡ false
    review : is_review_all s.approval_mode ≡ true
    result : s' ≡ record s { send_days = sorted_days s.send_days }

  accepted : (s' : CampaignSettings) → validate zone_exists s ≡ valid s' → Accepted s'
  unfolding validate
  accepted s' h = ground arith

  -- Settings that pass validation name at least one weekday, in strictly ascending order and the
  -- same ones that were given, have a window that opens before it closes, keep every draft under
  -- human review, and keep the numbers of emails and days within their bounds.
  pub validate-IsValid :
      (s' : CampaignSettings)
      → validate zone_exists s ≡ valid s'
      → IsValid s' × ((d : ℕ) → elem d s'.send_days ≡ elem d s.send_days)
  validate-IsValid s' h =
      let a = accepted s' h in
      (
        subst IsValid (sym a.result) (sorted-IsValid s a.bounds a.days a.window a.review),
        λ d. rw a.result (elem-sorted_days d s.send_days),
      )

  -- Settings that passed validation pass it again, unchanged: what is stored reads back the same.
  pub validate_again :
      (s' : CampaignSettings)
      → validate zone_exists s ≡ valid s'
      → validate zone_exists s' ≡ valid s'
  unfolding validate
  validate_again s' h =
      let a = accepted s' h in
      rw a.result (
        rw (
          in_bounds-sorted s a.bounds,
          a.zone,
          is_empty-sorted_days s.send_days,
          a.days,
          a.window,
          a.review,
          sorted_days-fixed _ (sorted_days-Ascending s.send_days),
        ))
