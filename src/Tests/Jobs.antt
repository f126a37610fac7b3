-- ===== src/Tests/Jobs.antt =====
-- Runs of the job queue, app/db/queue.py.
use native.Mathlib.Omega.{arith}
use outreach_automation.Prelude.{
  ℕ, ◌+◌, ◌*◌, ◌<◌, ◌≡◌, refl, Bool, false, List, [], ◌∷◌, none, some, ok, codes,
}
use outreach_automation.Time.{second}
use outreach_automation.Db.{Job, draft_lead, queued, Key}
use outreach_automation.Jobs.{QueueConfig, NewJob, new_job, waiting, enqueue}
use outreach_automation.Queue.{
  is_due, claimable, lease, leased, claim, heartbeat, finished, succeed, backoff_for, failed, fail,
}
use outreach_automation.Queue.Claim.{Pairwise, Claimed, claim_rows}
use outreach_automation.Queue.Lease.{lost_lease, enqueue_again, fail_takes_lease}
use outreach_automation.Queue.Rows.{
  IsOkTable, enqueues, claims, Reachable, empty, step, Reachable-IsOkTable,
}

abbrev config : QueueConfig
config = record { max_queued_jobs_per_org = 100; job_max_attempts = 5; job_lease_seconds = 300 }

abbrev followup_key : Key
followup_key = record { prefix = "followup"; parts = 7 ∷ 1 ∷ [] }

abbrev asked : NewJob
asked = record {
  org_id = 1;
  kind = draft_lead;
  lead_id = some 7;
  payload = [];
  priority = 50;
  run_after = none;
  dedupe_key = some followup_key;
  max_attempts = none;
}

abbrev unlocked : ℕ → Bool
unlocked id = false

abbrev one_job : List Job
one_job = new_job config asked 1 10 ∷ []

-- Worker 4 claims the job at 20.
abbrev held : List Job
held = leased 4 (20 + 300 * second) (new_job config asked 1 10) ∷ []

enqueued_one : enqueue config asked 1 10 [] ≡ ok (some (new_job config asked 1 10), one_job)
unfolding enqueue waiting
enqueued_one = refl

one_waiting : waiting 1 one_job < 100
unfolding waiting new_job
one_waiting = omega arith

enqueue_again_example : enqueue config asked 2 11 one_job ≡ ok (none, one_job)
enqueue_again_example =
    enqueue_again config asked followup_key 1 2 10 11 [] one_job (some (new_job config asked 1 10))
      refl enqueued_one one_waiting

claimed_one : (claim config unlocked 4 (draft_lead ∷ []) 1 none 20 one_job).1 ≡ held
unfolding claim claimable new_job is_due
claimed_one = refl

claim_rows_example :
    Pairwise
      (Claimed unlocked 4 (draft_lead ∷ []) (20 + lease config none) 20)
      one_job
      (claim config unlocked 4 (draft_lead ∷ []) 1 none 20 one_job).1
claim_rows_example = claim_rows config unlocked 4 (draft_lead ∷ []) 1 none 20 one_job (refl, tt)

-- Worker 9 does not hold the job that worker 4 claimed.
lost_lease_example :
    (succeed 1 (some 9) 30 held ≡ (false, held))
    × (heartbeat config 1 9 none 30 held ≡ (false, held))
unfolding leased new_job
lost_lease_example = lost_lease config 1 9 none 30 held refl

fail_takes_lease_example :
    succeed 1 (some 4) 40 (fail 1 (codes "boom") none false 30 held).1
    ≡ (false, (fail 1 (codes "boom") none false 30 held).1)
unfolding leased new_job
fail_takes_lease_example =
    fail_takes_lease 1 4 (codes "boom") none false 30 40 held
      (leased 4 (20 + 300 * second) (new_job config asked 1 10)) refl

third_wait : backoff_for 3 ≡ 120 * second
unfolding backoff_for
third_wait = refl

held_reached : Reachable config (claim config unlocked 4 (draft_lead ∷ []) 1 none 20 one_job).1
held_reached =
    step one_job (claim config unlocked 4 (draft_lead ∷ []) 1 none 20 one_job).1
      (step [] one_job empty
        (enqueues asked 1 10 (some (new_job config asked 1 10)) [] one_job refl enqueued_one))
      (claims unlocked 4 (draft_lead ∷ []) 1 none 20 one_job)

Reachable-IsOkTable_example :
    IsOkTable (claim config unlocked 4 (draft_lead ∷ []) 1 none 20 one_job).1
Reachable-IsOkTable_example =
    Reachable-IsOkTable config (claim config unlocked 4 (draft_lead ∷ []) 1 none 20 one_job).1
      (omega arith) held_reached

-- A worker that lost its lease fails the job that another one finished, and the job is queued again.
abbrev done : List Job
done = finished 50 (leased 4 (20 + 300 * second) (new_job config asked 1 10)) ∷ []

succeeded_requeued : (fail 1 (codes "boom") none false 60 done).0 ≡ some queued
unfolding fail failed finished leased new_job
succeeded_requeued = refl
