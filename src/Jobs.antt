-- ===== src/Jobs.antt =====
-- app/db/queue.py: a new job, and how it enters the table of jobs. A worker's name and an id are
-- numbers; `now` and the id of a new job are arguments.
use text.Mathlib.Text.{◌==◌ as str_eq}
use outreach_automation.Prelude.{
  ℕ, Bool, true, false, ◌&&◌, List, [], ◌∷◌, ◌++◌, map, Option, none, some, ◌==◌, leb,
  if◌then◌else◌, elem, any, count, Result, ok, err,
}
use outreach_automation.Db.{
  Job, JobKind, enrich_lead, research_lead, draft_lead, draft_followup, validate_draft,
  classify_reply, draft_reply, send_message, poll_ats_feed, tailor_resume, render_resume_pdf,
  JobStatus, queued, running, Key, Json,
}

abbrev pub kind_index : JobKind → ℕ
kind_index enrich_lead = 0
kind_index research_lead = 1
kind_index draft_lead = 2
kind_index draft_followup = 3
kind_index validate_draft = 4
kind_index classify_reply = 5
kind_index draft_reply = 6
kind_index send_message = 7
kind_index poll_ats_feed = 8
kind_index tailor_resume = 9
kind_index render_resume_pdf = 10

abbrev pub kind_in : JobKind → List JobKind → Bool
kind_in k ks = elem (kind_index k) (map kind_index ks)

abbrev pub is_queued : JobStatus → Bool
is_queued queued = true
is_queued _ = false

abbrev pub is_running : JobStatus → Bool
is_running running = true
is_running _ = false

-- `status in ("queued", "running")`.
abbrev pub is_live : JobStatus → Bool
is_live queued = true
is_live running = true
is_live _ = false

pub record QueueConfig : Type 0 where
  pub max_queued_jobs_per_org : ℕ
  pub job_max_attempts : ℕ
  pub job_lease_seconds : ℕ

unfoldable pub same_parts : List ℕ → List ℕ → Bool
same_parts [] [] = true
same_parts (x ∷ xs) (y ∷ ys) = (x == y) && same_parts xs ys
same_parts _ _ = false

unfoldable pub same_key : Key → Key → Bool
unfolding same_parts
same_key k l = str_eq k.prefix l.prefix && same_parts k.parts l.parts

pub record NewJob : Type 0 where
  pub org_id : ℕ
  pub kind : JobKind
  pub lead_id : Option ℕ
  pub payload : Json
  pub priority : ℕ
  pub run_after : Option ℕ
  pub dedupe_key : Option Key
  pub max_attempts : Option ℕ

-- The number of jobs waiting, and the ceiling.
pub data QueueError : Type 0 where
  queue_full : ℕ → ℕ → QueueError

-- `x or default`, which takes 0 for nothing.
abbrev pub or_else : Option ℕ → ℕ → ℕ
or_else none d = d
or_else (some n) d = if n == 0 then d else n

abbrev pub or_now : Option ℕ → ℕ → ℕ
or_now none now = now
or_now (some t) now = t

unfoldable pub new_job : QueueConfig → NewJob → ℕ → ℕ → Job
new_job c n job_id now = record {
  id = job_id;
  org_id = n.org_id;
  kind = n.kind;
  lead_id = n.lead_id;
  payload = n.payload;
  status = queued;
  priority = n.priority;
  run_after = or_now n.run_after now;
  attempts = 0;
  max_attempts = or_else n.max_attempts c.job_max_attempts;
  locked_by = none;
  locked_until = none;
  last_error = none;
  dedupe_key = n.dedupe_key;
  created_at = now;
  finished_at = none;
}

-- The partial unique index: a live job of the org and kind holds the key.
unfoldable pub holds_key : ℕ → JobKind → Key → Job → Bool
unfolding same_key
holds_key org_id kind key j =
    (j.org_id == org_id)
    && (kind_index j.kind == kind_index kind)
    && is_live j.status
    && elim j.dedupe_key [ none ↦ false | some k ↦ same_key k key ]

unfoldable pub conflicts : NewJob → List Job → Bool
unfolding holds_key
conflicts n jobs = elim n.dedupe_key [
  | none ↦ false
  | some key ↦ any (holds_key n.org_id n.kind key) jobs
]

unfoldable pub waiting : ℕ → List Job → ℕ
waiting org_id jobs = count (λ j. (j.org_id == org_id) && is_live j.status) jobs

-- The new row if one was inserted, and the table.
unfoldable pub enqueue :
    QueueConfig → NewJob → ℕ → ℕ → List Job → Result QueueError (Option Job × List Job)
unfolding waiting conflicts new_job
enqueue c n job_id now jobs =
    if leb c.max_queued_jobs_per_org (waiting n.org_id jobs)
    then err (queue_full (waiting n.org_id jobs) c.max_queued_jobs_per_org)
    else if conflicts n jobs
    then ok (none, jobs)
    else ok (some (new_job c n job_id now), jobs ++ new_job c n job_id now ∷ [])
