-- ===== src/Lifecycle/Closed.antt =====
-- The second loop of the lifecycle pass (app/services/lifecycle.py, `_close_silent_leads`): which
-- leads it closes.
use mathlib.Core.List.{Memᴰ}
use outreach_automation.Prelude.{
  ℕ, ◌≤◌, ◌≡◌, refl, sym, ap, subst, ◌∙◌, ◌⊎◌, inl, inr, true, false, ◌&&◌, ◌==◌, List, [], ◌∷◌,
  some, String, ltb, ok, arith, Bool-cases, Option-cases, Result-cases, bind-ok, through, ok-pair,
}
use outreach_automation.Time.{Zone}
use outreach_automation.Lead.State.{LeadState}
use outreach_automation.Campaign.Settings.{CampaignSettings}
use outreach_automation.Scheduling.{no_response_at}
use outreach_automation.Db.{Db, Lead}
use outreach_automation.Db.Table.{find}
use outreach_automation.Lead.Transition.{is_lead, record_event, save_lead, moved, transition}
use outreach_automation.Lead.Transition.Effect.{
  Done, transition-Done, find-save_lead_self, find-save_lead_other, moved-is_lead,
}
use outreach_automation.Lifecycle.{
  LifecycleReport, settings_of, time_or_zero, has_unread, close_move, close, close_silent, each,
}

-- Why a lead may be closed: it had every follow-up its campaign allows, the wait since its last
-- message is over, and no newer message of it is there to read.
pub record IsSilent (zone_of : String → Zone) (now : ℕ) (l : Lead) (db : Db) : Type 0 where
  pub settings : CampaignSettings
  pub of_campaign : settings_of db l ≡ some settings
  pub exhausted : settings.max_followups ≤ l.followups_sent
  pub silent :
      no_response_at (zone_of settings.timezone) (time_or_zero l.last_message_at) settings ≤ now
  pub read : has_unread db l (time_or_zero l.last_message_at) ≡ false

-- The lead as the database has it is closed.
abbrev pub IsClosed : ℕ → ℕ → Db → Type 0
IsClosed org_id lead_id db =
    (l : Lead) × (find (is_lead org_id lead_id) db.leads ≡ some l)
    × (l.state ≡ LeadState.no_response)

-- One lead closed.
record Closes (l : Lead) (db db' : Db) : Type 0 where
  closed : IsClosed l.org_id l.id db'
  others :
      (org_id lead_id : ℕ)
      → ((l.org_id == org_id) && (l.id == lead_id)) ≡ false
      → find (is_lead org_id lead_id) db'.leads ≡ find (is_lead org_id lead_id) db.leads
  messages : db'.messages ≡ db.messages
  campaigns : db'.campaigns ≡ db.campaigns

transition-Closes :
    (s : CampaignSettings) (l : Lead) (now : ℕ) (lead : Lead) (db db' : Db)
    → transition (close_move s l now) db ≡ ok (lead, db')
    → Closes l db db'
unfolding close_move record_event save_lead moved
transition-Closes s l now lead db db' h = record {
  closed = (
    lead,
    subst (λ (x : Db). find (is_lead l.org_id l.id) x.leads ≡ some lead) (sym d.saved)
        (find-save_lead_self lead d.before l.org_id l.id db d.was own),
    ap (λ (x : Lead). x.state) d.after,
  );
  others = λ org_id lead_id apart.
      ap (λ (x : Db). find (is_lead org_id lead_id) x.leads) d.saved
      ∙ find-save_lead_other lead org_id lead_id db (ground (arith, own, apart));
  messages = ap (λ (x : Db). x.messages) d.saved;
  campaigns = ap (λ (x : Db). x.campaigns) d.saved;
}
  where
    d : Done (close_move s l now) db lead db'
    d = transition-Done (close_move s l now) db lead db' h

    own : is_lead l.org_id l.id lead ≡ true
    own =
        subst (λ (x : Lead). is_lead l.org_id l.id x ≡ true) (sym d.after)
          (moved-is_lead (close_move s l now) d.before db d.was)

module _ (zone_of : String → Zone) (now : ℕ) where
  close-Closes :
      (s : CampaignSettings) (l : Lead) (report report' : LifecycleReport) (db db' : Db)
      → close s l now report db ≡ ok (report', db')
      → Closes l db db'
  unfolding close
  close-Closes s l report report' db db' h =
      elim (Result-cases (transition (close_move s l now) db)) [
        | inl (e, refusal) ↦ absurd (ground (arith, h, refusal))
        | inr ((lead, db₁), done) ↦
            transition-Closes s l now lead db db' (done ∙ ground (arith, h, done))
      ]

  -- The body of the loop changes nothing, or closes its lead with reason.
  close_silent-Closes :
      (l : Lead) (report report' : LifecycleReport) (db db' : Db)
      → close_silent zone_of now l report db ≡ ok (report', db')
      → (db' ≡ db) ⊎ (IsSilent zone_of now l db × Closes l db db')
  unfolding close_silent
  close_silent-Closes l report report' db db' h = elim (Option-cases (settings_of db l)) [
    | inl unreadable ↦ inl (ground (arith, h, unreadable))
    | inr (s, settings) ↦ elim (Bool-cases (ltb l.followups_sent s.max_followups)) [
      | inl owed ↦ inl (ground (arith, h, settings, owed))
      | inr exhausted ↦
          elim (Bool-cases
            (ltb now (no_response_at (zone_of s.timezone) (time_or_zero l.last_message_at) s))) [
              | inl early ↦ inl (ground (arith, h, settings, exhausted, early))
              | inr silent ↦ elim (Bool-cases (has_unread db l (time_or_zero l.last_message_at))) [
                | inl unread ↦ inl (ground (arith, h, settings, exhausted, silent, unread))
                | inr read ↦ inr (
                  record {
                    settings = s;
                    of_campaign = settings;
                    exhausted = ground (arith, exhausted);
                    silent = ground (arith, silent);
                    read = read;
                  },
                  close-Closes s l report report' db db'
                      (ground (arith, h, settings, exhausted, silent, read)),
                )
              ]
            ]
    ]
  ]

  -- What the loop did to a lead: nothing, or it closed it, when it came to that lead in its list.
  pub data Fate (org_id lead_id : ℕ) (ls : List Lead) (db db' : Db) : Type 0 where
    as_before :
        find (is_lead org_id lead_id) db'.leads ≡ find (is_lead org_id lead_id) db.leads
        → Fate org_id lead_id ls db db'
    closed :
        (l : Lead)
        → Memᴰ l ls
        → l.org_id ≡ org_id
        → l.id ≡ lead_id
        → IsSilent zone_of now l db
        → IsClosed org_id lead_id db'
        → Fate org_id lead_id ls db db'

  -- Closing one lead leaves the reasons for closing the others.
  IsSilent-back :
      (m : Lead) (db db₁ : Db)
      → db₁.messages ≡ db.messages
      → db₁.campaigns ≡ db.campaigns
      → IsSilent zone_of now m db₁
      → IsSilent zone_of now m db
  unfolding has_unread
  IsSilent-back m db db₁ messages campaigns w = record {
    settings = w.settings;
    of_campaign = ground (arith, w.of_campaign, campaigns);
    exhausted = w.exhausted;
    silent = w.silent;
    read = rw (sym messages) w.read;
  }

  then_rest :
      (org_id lead_id : ℕ) (l : Lead) (ls : List Lead) (db db₁ db' : Db)
      → (db₁ ≡ db) ⊎ (IsSilent zone_of now l db × Closes l db db₁)
      → Fate org_id lead_id ls db₁ db'
      → Fate org_id lead_id (l ∷ ls) db db'
  then_rest org_id lead_id l ls db db₁ db' (inl e) (as_before f) =
      as_before (f ∙ ap (λ (x : Db). find (is_lead org_id lead_id) x.leads) e)
  then_rest org_id lead_id l ls db db₁ db' (inl e) (closed m i o n w c) =
      closed m (Memᴰ.tail i) o n (subst (IsSilent zone_of now m) e w) c
  then_rest org_id lead_id l ls db db₁ db' (inr (why, done)) (closed m i o n w c) =
      closed m (Memᴰ.tail i) o n (IsSilent-back m db db₁ done.messages done.campaigns w) c
  then_rest org_id lead_id l ls db db₁ db' (inr (why, done)) (as_before f) =
      elim (Bool-cases ((l.org_id == org_id) && (l.id == lead_id))) [
        | inr apart ↦ as_before (f ∙ done.others org_id lead_id apart)
        | inl same ↦
            closed l (Memᴰ.head refl) (ground (arith, same)) (ground (arith, same)) why
              (closed_one (ground (arith, same)) (ground (arith, same)))
      ]
    where
      closed_one : l.org_id ≡ org_id → l.id ≡ lead_id → IsClosed org_id lead_id db'
      closed_one o n =
          let (x, found, state) =
            subst (λ i. IsClosed org_id i db₁) n (subst (λ i. IsClosed i l.id db₁) o done.closed) in
          (x, f ∙ found, state)

  -- The loop over any leads, where it ends without an exception, leaves each lead of the database as
  -- it was, or in `no_response`; the second only if the lead is one of those, as read, had every
  -- follow-up its campaign allows, the wait since its last message was over, and the database had no
  -- newer message from it.
  pub each-close_silent :
      (org_id lead_id : ℕ) (ls : List Lead) (report report' : LifecycleReport) (db db' : Db)
      → each (close_silent zone_of now) ls report db ≡ ok (report', db')
      → Fate org_id lead_id ls db db'
  unfolding each
  each-close_silent org_id lead_id [] report report' db db' h =
      as_before (ap (λ (x : Db). find (is_lead org_id lead_id) x.leads) (sym (ok-pair h).1))
  each-close_silent org_id lead_id (l ∷ ls) report report' db db' h =
      elim (bind-ok (close_silent zone_of now l report db) _ _ h) [
        | through (report₁, db₁) e k ↦
            then_rest org_id lead_id l ls db db₁ db' (close_silent-Closes l report report₁ db db₁ e)
              (each-close_silent org_id lead_id ls report₁ report' db₁ db' k)
      ]
