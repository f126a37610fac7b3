-- ===== src/CampaignClock/Missed.antt =====
-- app/services/campaign_clock.py: a pass that was missed, and a pass that is repeated.
use outreach_automation.Prelude.{
  ℕ, suc, ◌+◌, ◌≤◌, true, false, ◌≡◌, refl, ap, sym, ◌∙◌, List, [], ◌∷◌, ◌++◌, arith, if◌then◌else◌,
  length, length-append, inl, inr, Bool-cases,
}
use outreach_automation.Db.{Db, Campaign, Event}
use outreach_automation.Campaign.Status.{CampaignStatus, scheduled_status}
use outreach_automation.CampaignClock.{
  ClockReport, empty_report, same_status, is_scheduled, target_of, moves, counted, moved_rows,
  clock_events, clock_report, run_campaign_clock,
}

abbrev moved : ℕ → Campaign → Campaign
moved now c = if moves now c then record c { status = target_of now c } else c

-- The status that a pass leaves.
abbrev next : ℕ → Campaign → CampaignStatus
next now c = if is_scheduled c then target_of now c else c.status

same_status-eq : (s t : CampaignStatus) → same_status s t ≡ true → s ≡ t
same_status-eq s t h = ground (arith, h)

moved-status : (now : ℕ) (c : Campaign) → moved now c ≡ record c { status = next now c }
moved-status now c = elim (Bool-cases (is_scheduled c)) [
  | inr no_dates ↦ ground (arith, no_dates)
  | inl dated ↦ elim (Bool-cases (same_status (target_of now c) c.status)) [
    | inr other ↦ ground (arith, dated, other)
    | inl same ↦ ground (arith, dated, same, same_status-eq (target_of now c) c.status same)
  ]
]

next-next :
    (now later : ℕ) (c : Campaign)
    → now ≤ later
    → next later (record c { status = next now c }) ≡ next later c
unfolding target_of is_scheduled scheduled_status
next-next now later c h = ground (arith, h)

moved-moved :
    (now later : ℕ) (c : Campaign) → now ≤ later → moved later (moved now c) ≡ moved later c
moved-moved now later c h =
    ap (moved later) (moved-status now c)
    ∙ moved-status later (record c { status = next now c })
    ∙ ap (λ s. record c { status = s }) (next-next now later c h)
    ∙ sym (moved-status later c)

same_status-same : (s : CampaignStatus) → same_status s s ≡ true
same_status-same s = ground arith

-- What a pass moved, it does not move again at the same time.
moves-moved : (now : ℕ) (c : Campaign) → moves now (moved now c) ≡ false
moves-moved now c =
    ap (moves now) (moved-status now c)
    ∙ still (record c { status = next now c }) (next-next now now c (omega arith))
  where
    still : (d : Campaign) → next now d ≡ d.status → moves now d ≡ false
    still d h = elim (Bool-cases (is_scheduled d)) [
      | inr no_dates ↦ ground (arith, no_dates)
      | inl dated ↦ ground (arith, dated, h, same_status-same d.status)
    ]

moved_rows-moved_rows :
    (now later : ℕ) (cs : List Campaign)
    → now ≤ later
    → moved_rows later (moved_rows now cs) ≡ moved_rows later cs
unfolding moved_rows
moved_rows-moved_rows now later [] h = refl
moved_rows-moved_rows now later (c ∷ cs) h =
    ap (λ d. d ∷ moved_rows later (moved_rows now cs)) (moved-moved now later c h)
    ∙ ap (λ ds. moved later c ∷ ds) (moved_rows-moved_rows now later cs h)

moved_rows-same :
    (now : ℕ) (cs : List Campaign) → moved_rows now (moved_rows now cs) ≡ moved_rows now cs
moved_rows-same now cs = moved_rows-moved_rows now now cs (omega arith)

clock_events-moved_rows : (now : ℕ) (cs : List Campaign) → clock_events now (moved_rows now cs) ≡ []
unfolding clock_events moved_rows
clock_events-moved_rows now [] = refl
clock_events-moved_rows now (c ∷ cs) =
    ground (arith, moves-moved now c, clock_events-moved_rows now cs)

clock_report-moved_rows :
    (now : ℕ) (cs : List Campaign) (r : ClockReport) → clock_report now (moved_rows now cs) r ≡ r
unfolding clock_report moved_rows
clock_report-moved_rows now [] r = refl
clock_report-moved_rows now (c ∷ cs) r =
    ap
      (λ b.
        clock_report now (moved_rows now cs)
          (if b then counted (target_of now (moved now c)) r else r))
      (moves-moved now c)
    ∙ clock_report-moved_rows now cs r

total : ClockReport → ℕ
total r = r.started + r.completed + r.parked

total-counted : (s : CampaignStatus) (r : ClockReport) → total (counted s r) ≡ suc (total r)
unfolding total counted
total-counted s r = ground arith

total-clock_report :
    (now : ℕ) (cs : List Campaign) (r : ClockReport)
    → total (clock_report now cs r) ≡ total r + length (clock_events now cs)
unfolding clock_report clock_events
total-clock_report now [] r = omega arith
total-clock_report now (c ∷ cs) r = elim (Bool-cases (moves now c)) [
  | inl going ↦
      ap (λ b. total (clock_report now cs (if b then counted (target_of now c) r else r))) going
      ∙ ground (
        arith,
        going,
        total-clock_report now cs (counted (target_of now c) r),
        total-counted (target_of now c) r,
      )
  | inr staying ↦
      ap (λ b. total (clock_report now cs (if b then counted (target_of now c) r else r))) staying
      ∙ ground (arith, staying, total-clock_report now cs r)
]

append_none : (es : List Event) → es ++ [] ≡ es
append_none [] = refl
append_none (e ∷ es) = ap (λ x. e ∷ x) (append_none es)

-- A pass that was missed makes no difference to the campaigns that a later pass leaves; a pass that
-- is repeated at the same time reports nothing and changes nothing; and each campaign that is
-- reported has one event.
pub run_campaign_clock-run_campaign_clock :
    (now later : ℕ) (db : Db)
    → now ≤ later
    → ((run_campaign_clock later (run_campaign_clock now db).1).1.campaigns
        ≡ (run_campaign_clock later db).1.campaigns)
      × (run_campaign_clock now (run_campaign_clock now db).1
          ≡ (empty_report, (run_campaign_clock now db).1))
      × (length (run_campaign_clock now db).1.events
          ≡ length db.events
            + (let r = (run_campaign_clock now db).0 in r.started + r.completed + r.parked))
unfolding run_campaign_clock total
run_campaign_clock-run_campaign_clock now later db h = (
  moved_rows-moved_rows now later db.campaigns h,
  ap (λ r. (r, with_rows (moved_rows now rows) (es ++ clock_events now rows)))
        (clock_report-moved_rows now db.campaigns empty_report)
      ∙ ap (λ cs. (empty_report, with_rows cs (es ++ clock_events now rows)))
          (moved_rows-same now db.campaigns)
      ∙ ap (λ e. (empty_report, with_rows rows e))
          (ap (λ e. es ++ e) (clock_events-moved_rows now db.campaigns) ∙ append_none es),
  omega (
    arith,
    length-append db.events (clock_events now db.campaigns),
    total-clock_report now db.campaigns empty_report,
  ),
)
  where
    with_rows : List Campaign → List Event → Db
    with_rows cs e = record db { campaigns = cs; events = e }

    rows : List Campaign
    rows = moved_rows now db.campaigns

    es : List Event
    es = db.events ++ clock_events now db.campaigns
