-- ===== src/Lifecycle/Again.antt =====
-- The first loop of the lifecycle pass asks for one follow-up at a time (app/services/lifecycle.py).
use outreach_automation.Prelude.{
  ℕ, ◌+◌, ◌<◌, ◌≡◌, refl, sym, subst, ap, inl, inr, false, List, [], ◌∷◌, Option, none, some, leb,
  ◌==◌, ok, arith, Bool-cases, Option-cases, Result-cases,
}
use outreach_automation.Campaign.Settings.{CampaignSettings}
use outreach_automation.Db.{Db, Lead, Job, Key}
use outreach_automation.Jobs.{QueueConfig, waiting, enqueue}
use outreach_automation.Queue.Lease.{enqueue_again}
use outreach_automation.Lifecycle.{
  LifecycleReport, settings_unreadable, no_followups, all_sent, draft_waiting, skip, settings_of,
  followup_job, queue_job, queue_followup, has_live_draft,
}

abbrev pub with_jobs : List Job → Db → Db
with_jobs jobs db = record db { jobs = jobs }

-- The second time leaves the database alone and counts no follow-up.
abbrev pub Quiet : QueueConfig → (ℕ → ℕ) → ℕ → Lead → LifecycleReport → Db → Type 0
Quiet config new_id now l report db =
    (r : LifecycleReport) × (queue_followup config new_id now l report db ≡ ok (r, db))
    × (r.followups_queued ≡ report.followups_queued)

abbrev followup_key : Lead → Key
followup_key l = record { prefix = "followup"; parts = l.id ∷ (l.followups_sent + 1) ∷ [] }

module _ (config : QueueConfig) (l : Lead) where
  queue_job-quiet :
      (job_id job_id' now now' : ℕ) (report report' : LifecycleReport) (db db' : Db)
      → queue_job config job_id now l report db ≡ ok (report', db')
      → waiting l.org_id db'.jobs < config.max_queued_jobs_per_org
      → ((jobs : List Job) × (db' ≡ with_jobs jobs db))
        × (queue_job config job_id' now' l report' db' ≡ ok (report', db'))
  unfolding queue_job followup_job
  queue_job-quiet job_id job_id' now now' report report' db db' h room =
      elim (Result-cases (enqueue config (followup_job l) job_id now db.jobs)) [
        | inl (e, full) ↦ absurd (ground (arith, h, full))
        | inr ((row, jobs), first) ↦
            let saved : db' ≡ with_jobs jobs db = ground (arith, h, first) in
            ((jobs, saved), second row jobs saved first)
      ]
    where
      second :
          (row : Option Job) (jobs : List Job)
          → db' ≡ with_jobs jobs db
          → enqueue config (followup_job l) job_id now db.jobs ≡ ok (row, jobs)
          → queue_job config job_id' now' l report' db' ≡ ok (report', db')
      second row jobs saved first =
          let here : db'.jobs ≡ jobs = ap (λ (d : Db). d.jobs) saved in
          let again : enqueue config (followup_job l) job_id' now' db'.jobs ≡ ok (none, db'.jobs) =
            enqueue_again config (followup_job l) (followup_key l) job_id job_id' now now' db.jobs
              db'.jobs row refl
              (subst (λ js. enqueue config (followup_job l) job_id now db.jobs ≡ ok (row, js))
                (sym here) first)
              room in
          ground (arith, again)

  -- Asking twice for the same follow-up of a lead, while the queue of its org is not full, changes
  -- nothing the second time, at whatever time and with whatever ids, and counts no new follow-up.
  pub queue_followup_again :
      (new_id new_id' : ℕ → ℕ) (now now' : ℕ) (report report' : LifecycleReport) (db db' : Db)
      → queue_followup config new_id now l report db ≡ ok (report', db')
      → waiting l.org_id db'.jobs < config.max_queued_jobs_per_org
      → Quiet config new_id' now' l report' db'
  unfolding queue_followup skip has_live_draft
  queue_followup_again new_id new_id' now now' report report' db db' h room =
      elim (Option-cases (settings_of db l)) [
        | inl unreadable ↦
            same (ground (arith, h, unreadable))
              (skip settings_unreadable report', ground (arith, unreadable), refl)
        | inr (s, settings) ↦ elim (Bool-cases (s.max_followups == 0)) [
          | inl never ↦
              same (ground (arith, h, settings, never))
                (skip no_followups report', ground (arith, settings, never), refl)
          | inr allows ↦ elim (Bool-cases (leb s.max_followups l.followups_sent)) [
            | inl all ↦
                same (ground (arith, h, settings, allows, all))
                  (skip all_sent report', ground (arith, settings, allows, all), refl)
            | inr owed ↦ elim (Bool-cases (has_live_draft db l)) [
              | inl draft ↦
                  same (ground (arith, h, settings, allows, owed, draft)) (
                    skip draft_waiting report',
                    ground (arith, settings, allows, owed, draft),
                    refl,
                  )
              | inr no_draft ↦
                  let ((jobs, saved), second) =
                    queue_job-quiet (new_id l.id) (new_id' l.id) now now' report report' db db'
                      (ground (arith, h, settings, allows, owed, no_draft)) room in
                  (report', again jobs s saved settings allows owed no_draft second, refl)
            ]
          ]
        ]
      ]
    where
      same :
          db' ≡ db
          → Quiet config new_id' now' l report' db
          → Quiet config new_id' now' l report' db'
      same e q = subst (Quiet config new_id' now' l report') (sym e) q

      undrafted :
          (jobs : List Job)
          → has_live_draft db l ≡ false
          → has_live_draft (with_jobs jobs db) l ≡ false
      undrafted jobs h = h

      again :
          (jobs : List Job) (s : CampaignSettings)
          → db' ≡ with_jobs jobs db
          → settings_of db l ≡ some s
          → (s.max_followups == 0) ≡ false
          → leb s.max_followups l.followups_sent ≡ false
          → has_live_draft db l ≡ false
          → queue_job config (new_id' l.id) now' l report' db' ≡ ok (report', db')
          → queue_followup config new_id' now' l report' db' ≡ ok (report', db')
      again jobs s saved settings allows owed no_draft second = ground (
        arith,
        second,
        allows,
        owed,
        subst (λ (d : Db). settings_of d l ≡ some s) (sym saved) settings,
        subst (λ (d : Db). has_live_draft d l ≡ false) (sym saved) (undrafted jobs no_draft),
      )
