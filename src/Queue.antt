-- ===== src/Queue.antt =====
-- app/db/queue.py: the job queue, as functions on the table of jobs. Ties that SQL leaves open are broken by id.
pub mod Ids
pub mod Rows
pub mod Claim
pub mod Lease
use mathlib.Core.Option
use Prim.Native.Nat.{min, max}
use text.Mathlib.Text.{◌==◌ as str_eq}
use outreach_automation.Prelude.{
  insert_by, sort_by, ℕ, suc, ◌+◌, ◌*◌, ◌^◌, Bool, true, false, not, ◌&&◌, ◌||◌, List, [], ◌∷◌,
  ◌++◌, map, Option, none, some, String, codes, ◌==◌, ltb, leb, if◌then◌else◌, elem, any, count,
  select, take, Result, ok, err,
}
use outreach_automation.Time.{second}
use outreach_automation.Db.{
  Job, JobKind, enrich_lead, research_lead, draft_lead, draft_followup, validate_draft,
  classify_reply, draft_reply, send_message, poll_ats_feed, tailor_resume, render_resume_pdf,
  JobStatus, queued, running, succeeded, dead, cancelled, Key, Json,
}
use outreach_automation.Db.Table.{find, update_where}
use outreach_automation.Jobs.{
  NewJob, QueueConfig, QueueError, conflicts, enqueue, holds_key, is_live, is_queued, is_running,
  kind_in, kind_index, new_job, or_else, or_now, queue_full, same_key, same_parts, waiting,
}

abbrev pub lease : QueueConfig → Option ℕ → ℕ
lease c lease_seconds = or_else lease_seconds c.job_lease_seconds * second

unfoldable pub is_due : ℕ → List JobKind → Job → Bool
is_due now kinds j = is_queued j.status && leb j.run_after now && kind_in j.kind kinds

-- Lexicographic order of rows of numbers.
abbrev pub lex : ℕ → ℕ → Bool → Bool
lex a b rest = if ltb a b then true else if ltb b a then false else rest

-- `ORDER BY priority, run_after` within one workspace.
unfoldable pub precedes : Job → Job → Bool
precedes i j = lex i.priority j.priority (lex i.run_after j.run_after (ltb i.id j.id))

-- `row_number() OVER (PARTITION BY org_id ORDER BY priority, run_after)`.
unfoldable pub rank : List Job → Job → ℕ
rank due j = suc (count (λ i. (i.org_id == j.org_id) && precedes i j) due)

-- `ORDER BY rank, priority, run_after`.
unfoldable pub ahead : List Job → Job → Job → Bool
unfolding precedes
ahead due i j = lex (rank due i) (rank due j) (precedes i j)

-- The subquery: the due jobs in order, without the rows that another transaction has locked, up to
-- the limit.
unfoldable pub claimable : (ℕ → Bool) → ℕ → List JobKind → ℕ → List Job → List Job
claimable locked now kinds limit jobs =
    let due = select (is_due now kinds) jobs in
    take limit (select (λ j. not (locked j.id)) (sort_by (ahead due) due))

unfoldable pub leased : ℕ → ℕ → Job → Job
leased worker_id until j = record j {
  status = running;
  locked_by = some worker_id;
  locked_until = some until;
  attempts = j.attempts + 1;
}

-- The claimed jobs in the order in which they are handed over, and the table.
unfoldable pub claim :
    QueueConfig → (ℕ → Bool) → ℕ → List JobKind → ℕ → Option ℕ → ℕ → List Job → List Job × List Job
claim c locked worker_id kinds limit lease_seconds now jobs =
    let chosen = claimable locked now kinds limit jobs in
    let until = now + lease c lease_seconds in
    (
      sort_by precedes (map (leased worker_id until) chosen),
      update_where (λ j. elem j.id (map (λ i. i.id) chosen)) (leased worker_id until) jobs,
    )

abbrev pub holds_lease : ℕ → Option ℕ → Bool
holds_lease worker_id none = false
holds_lease worker_id (some w) = w == worker_id

unfoldable pub heartbeat : QueueConfig → ℕ → ℕ → Option ℕ → ℕ → List Job → Bool × List Job
heartbeat c job_id worker_id lease_seconds now jobs =
    let mine =
      λ (j : Job). (j.id == job_id) && is_running j.status && holds_lease worker_id j.locked_by in
    (
      count mine jobs == 1,
      update_where mine (λ j. record j { locked_until = some (now + lease c lease_seconds) }) jobs,
    )

-- `None` for the worker leaves the lease out of the test.
abbrev pub may_finish : Option ℕ → Option ℕ → Bool
may_finish none locked_by = true
may_finish (some worker_id) locked_by = holds_lease worker_id locked_by

unfoldable pub finished : ℕ → Job → Job
finished now j = record j {
  status = succeeded;
  locked_by = none;
  locked_until = none;
  last_error = none;
  finished_at = some now;
}

unfoldable pub succeed : ℕ → Option ℕ → ℕ → List Job → Bool × List Job
succeed job_id worker_id now jobs =
    let mine = λ (j : Job). (j.id == job_id) && may_finish worker_id j.locked_by in
    (count mine jobs == 1, update_where mine (finished now) jobs)

-- In microseconds.
unfoldable pub backoff_for : ℕ → ℕ
backoff_for attempts = min (2 ^ max attempts 1 * 15) 3600 * second

-- `retry_in or _backoff_for(...)`.
unfoldable pub failed : List ℕ → Option ℕ → Bool → ℕ → Job → Job
unfolding backoff_for
failed error retry_in permanent now j =
    let cleared : Job = record j {
      locked_by = none;
      locked_until = none;
      last_error = some (take 2000 error);
    } in
    if permanent || leb j.max_attempts j.attempts
    then record cleared { status = dead; finished_at = some now }
    else record cleared {
      status = queued;
      run_after = now + or_else retry_in (backoff_for j.attempts);
    }

-- `none` is the answer "missing".
unfoldable pub fail : ℕ → List ℕ → Option ℕ → Bool → ℕ → List Job → Option JobStatus × List Job
unfolding failed
fail job_id error retry_in permanent now jobs = elim (find (λ j. j.id == job_id) jobs) [
  | none ↦ (none, jobs)
  | some j ↦ (
    some (failed error retry_in permanent now j).status,
    update_where (λ i. i.id == job_id) (failed error retry_in permanent now) jobs,
  )
]

text_or : Option (List ℕ) → List ℕ
text_or none = []
text_or (some t) = t

abbrev pub expired : ℕ → Job → Bool
expired now j = is_running j.status && elim j.locked_until [ none ↦ false | some t ↦ ltb t now ]

unfoldable pub reaped : ℕ → Job → Job
unfolding backoff_for text_or
reaped now j =
    let cleared : Job = record j { locked_by = none; locked_until = none } in
    if leb j.max_attempts j.attempts
    then record cleared {
      status = dead;
      last_error = some (text_or j.last_error ++ codes " | lease expired, attempts exhausted");
      finished_at = some now;
    }
    else record cleared {
      status = queued;
      run_after = now + backoff_for j.attempts;
      last_error = some (text_or j.last_error ++ codes " | lease expired, requeued");
    }

until_of : Job → ℕ
until_of j = elim j.locked_until [ none ↦ 0 | some t ↦ t ]

-- What was touched, with the new status, and the table.
unfoldable pub reap_expired : (ℕ → Bool) → ℕ → ℕ → List Job → List (ℕ × JobStatus) × List Job
unfolding until_of
reap_expired locked now limit jobs =
    let late = take limit (
      select (λ j. not (locked j.id))
        (sort_by (λ i j. ltb (until_of i) (until_of j)) (select (expired now) jobs))) in
    (
      map (λ j. (j.id, (reaped now j).status)) late,
      update_where (λ j. elem j.id (map (λ i. i.id) late)) (reaped now) jobs,
    )

-- No kinds, or an empty list of them, means every kind.
abbrev pub any_kind : Option (List JobKind) → JobKind → Bool
any_kind none k = true
any_kind (some []) k = true
any_kind (some (x ∷ xs)) k = kind_in k (x ∷ xs)

abbrev pub to_cancel : ℕ → ℕ → Option (List JobKind) → Job → Bool
to_cancel org_id lead_id kinds j =
    (j.org_id == org_id)
    && elim j.lead_id [ none ↦ false | some l ↦ l == lead_id ]
    && is_queued j.status
    && any_kind kinds j.kind

unfoldable pub cancel_for_lead : ℕ → ℕ → Option (List JobKind) → ℕ → List Job → ℕ × List Job
cancel_for_lead org_id lead_id kinds now jobs = (
  count (to_cancel org_id lead_id kinds) jobs,
  update_where (to_cancel org_id lead_id kinds)
      (λ j. record j { status = cancelled; finished_at = some now }) jobs,
)

-- The older than `older_than` whose lease is missing or over.
unfoldable pub find_stuck_running : ℕ → ℕ → List Job → List Job
find_stuck_running older_than now jobs =
    select
      (λ j.
        is_running j.status
        && elim j.locked_until [ none ↦ true | some t ↦ ltb t now ]
        && ltb (j.created_at + older_than) now)
      jobs
