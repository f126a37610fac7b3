-- ===== src/Queue/Rows.antt =====
-- The rows of the job table over a queue's whole life (app/db/queue.py): a step relation with one
-- step for each operation, and what every row satisfies after any number of steps.
use outreach_automation.Prelude.{
  ℕ, ◌+◌, ◌≤◌, ◌<◌, ◌≡◌, refl, Bool, true, false, ◌&&◌, inl, inr, List, [], ◌∷◌, ◌++◌, map, Option,
  none, some, elem, select, All, arith, ◌==◌, Bool-cases, ok,
}
use outreach_automation.Db.{Job, JobKind, cancelled}
use outreach_automation.Db.Table.{update_where}
use outreach_automation.Jobs.{QueueConfig, NewJob, new_job, enqueue, is_queued, is_running}
use outreach_automation.Queue.{
  is_due, ahead, lease, leased, claimable, claim, heartbeat, finished, succeed, failed, fail,
  reaped, reap_expired, to_cancel, cancel_for_lead, holds_lease,
}
use outreach_automation.Queue.Ids.{
  ids, Distinct, Distinct-update_where, Distinct-append, In, picked-selected, selected-holds,
}

-- Both columns of the lease are set; either one is.
abbrev pub has_lease : Job → Bool
has_lease j = elim j.locked_by [
  | none ↦ false
  | some _ ↦ elim j.locked_until [ none ↦ false | some _ ↦ true ]
]

abbrev pub is_locked : Job → Bool
is_locked j = elim j.locked_by [
  | none ↦ elim j.locked_until [ none ↦ false | some _ ↦ true ]
  | some _ ↦ true
]

-- Attempts stay within the limit, a queued job has one left, and exactly a running job has a lease.
abbrev pub IsOk : Job → Type 0
IsOk j =
    (j.attempts ≤ j.max_attempts)
    × (is_queued j.status ≡ true → j.attempts < j.max_attempts)
    × (is_running j.status ≡ true → has_lease j ≡ true)
    × (is_running j.status ≡ false → is_locked j ≡ false)

abbrev pub IsOkTable : List Job → Type 0
IsOkTable js = Distinct js × All IsOk js

pub data Step (c : QueueConfig) : List Job → List Job → Type 0 where
  enqueues :
      (n : NewJob) (job_id now : ℕ) (row : Option Job) (js js' : List Job)
      → elem job_id (ids js) ≡ false
      → enqueue c n job_id now js ≡ ok (row, js')
      → Step c js js'
  claims :
      (locked : ℕ → Bool) (worker_id : ℕ) (kinds : List JobKind) (limit : ℕ)
      (lease_seconds : Option ℕ) (now : ℕ) (js : List Job)
      → Step c js (claim c locked worker_id kinds limit lease_seconds now js).1
  heartbeats :
      (job_id worker_id : ℕ) (lease_seconds : Option ℕ) (now : ℕ) (js : List Job)
      → Step c js (heartbeat c job_id worker_id lease_seconds now js).1
  succeeds :
      (job_id : ℕ) (worker_id : Option ℕ) (now : ℕ) (js : List Job)
      → Step c js (succeed job_id worker_id now js).1
  fails :
      (job_id : ℕ) (error : List ℕ) (retry_in : Option ℕ) (permanent : Bool) (now : ℕ)
      (js : List Job)
      → Step c js (fail job_id error retry_in permanent now js).1
  reaps :
      (locked : ℕ → Bool) (now limit : ℕ) (js : List Job)
      → Step c js (reap_expired locked now limit js).1
  cancels :
      (org_id lead_id : ℕ) (kinds : Option (List JobKind)) (now : ℕ) (js : List Job)
      → Step c js (cancel_for_lead org_id lead_id kinds now js).1

-- The tables that steps from an empty table reach.
pub data Reachable (c : QueueConfig) : List Job → Type 0 where
  empty : Reachable c []
  step : (js js' : List Job) → Reachable c js → Step c js js' → Reachable c js'

-- Each operation on one row.
new_job-IsOk :
    (c : QueueConfig) (n : NewJob) (job_id now : ℕ)
    → 0 < c.job_max_attempts
    → IsOk (new_job c n job_id now)
unfolding new_job
new_job-IsOk c n job_id now h = ground arith

leased-IsOk :
    (w until now : ℕ) (kinds : List JobKind) (j : Job)
    → is_due now kinds j ≡ true
    → IsOk j
    → IsOk (leased w until j)
unfolding leased is_due
leased-IsOk w until now kinds j d good = ground arith

finished-IsOk : (now : ℕ) (j : Job) → IsOk j → IsOk (finished now j)
unfolding finished
finished-IsOk now j good = ground arith

failed-IsOk :
    (error : List ℕ) (retry_in : Option ℕ) (permanent : Bool) (now : ℕ) (j : Job)
    → IsOk j
    → IsOk (failed error retry_in permanent now j)
unfolding failed
failed-IsOk error retry_in permanent now j good = ground arith

reaped-IsOk : (now : ℕ) (j : Job) → IsOk j → IsOk (reaped now j)
unfolding reaped
reaped-IsOk now j good = ground arith

cancelled-IsOk :
    (org_id lead_id : ℕ) (kinds : Option (List JobKind)) (now : ℕ) (j : Job)
    → to_cancel org_id lead_id kinds j ≡ true
    → IsOk j
    → IsOk (record j { status = cancelled; finished_at = some now })
cancelled-IsOk org_id lead_id kinds now j h good = ground arith

heartbeat-IsOk :
    (job_id worker_id t : ℕ) (j : Job)
    → ((j.id == job_id) && is_running j.status && holds_lease worker_id j.locked_by) ≡ true
    → IsOk j
    → IsOk (record j { locked_until = some t })
heartbeat-IsOk job_id worker_id t j h good = ground arith

All-update_where :
    (p : Job → Bool) (f : Job → Job) (js : List Job)
    → ((j : Job) → In j js → p j ≡ true → IsOk j → IsOk (f j))
    → All IsOk js
    → All IsOk (update_where p f js)
All-update_where p f [] h a = tt
All-update_where p f (j ∷ js) h a = (
  elim (Bool-cases (p j)) [
    | inl e ↦ ground (arith, e, h j (inl refl) e a.0)
    | inr e ↦ ground (arith, e, a.0)
  ],
  All-update_where p f js (λ i m. h i (inr m)) a.1,
)

table_kept :
    (p : Job → Bool) (f : Job → Job) (js : List Job)
    → ((j : Job) → (f j).id ≡ j.id)
    → ((j : Job) → In j js → p j ≡ true → IsOk j → IsOk (f j))
    → IsOkTable js
    → IsOkTable (update_where p f js)
table_kept p f js same h (d, a) = (Distinct-update_where p f js same d, All-update_where p f js h a)

All-append : (xs ys : List Job) → All IsOk xs → All IsOk ys → All IsOk (xs ++ ys)
All-append [] ys a b = b
All-append (x ∷ xs) ys a b = (a.0, All-append xs ys a.1 b)

enqueue_kept :
    (c : QueueConfig) (n : NewJob) (job_id now : ℕ) (row : Option Job) (js js' : List Job)
    → 0 < c.job_max_attempts
    → elem job_id (ids js) ≡ false
    → enqueue c n job_id now js ≡ ok (row, js')
    → IsOkTable js
    → IsOkTable js'
unfolding enqueue new_job
enqueue_kept c n job_id now row js js' pos fresh h (d, a) = ground (
  arith,
  h,
  d,
  a,
  Distinct-append js (new_job c n job_id now) d fresh,
  All-append js (new_job c n job_id now ∷ []) a (new_job-IsOk c n job_id now pos, tt),
)

failed-id :
    (error : List ℕ) (retry_in : Option ℕ) (permanent : Bool) (now : ℕ) (j : Job)
    → (failed error retry_in permanent now j).id ≡ j.id
unfolding failed
failed-id error retry_in permanent now j = ground arith

reaped-id : (now : ℕ) (j : Job) → (reaped now j).id ≡ j.id
unfolding reaped
reaped-id now j = ground arith

fail_kept :
    (job_id : ℕ) (error : List ℕ) (retry_in : Option ℕ) (permanent : Bool) (now : ℕ) (js : List Job)
    → IsOkTable js
    → IsOkTable (fail job_id error retry_in permanent now js).1
unfolding fail
fail_kept job_id error retry_in permanent now js good = ground (
  arith,
  good,
  table_kept (λ i. i.id == job_id) (failed error retry_in permanent now) js
      (failed-id error retry_in permanent now) (λ j m e. failed-IsOk error retry_in permanent now j)
      good,
)

Step-kept :
    (c : QueueConfig) (js js' : List Job)
    → 0 < c.job_max_attempts
    → Step c js js'
    → IsOkTable js
    → IsOkTable js'
unfolding claim claimable heartbeat succeed fail reap_expired cancel_for_lead leased finished failed
    reaped
Step-kept c js js' pos (enqueues n job_id now row _ _ fresh h) =
    enqueue_kept c n job_id now row js js' pos fresh h
Step-kept c js js' pos (claims locked worker_id kinds limit lease_seconds now _) = λ good.
    table_kept (λ j. elem j.id (map (λ i. i.id) (claimable locked now kinds limit js)))
      (leased worker_id (now + lease c lease_seconds)) js (λ _. refl)
      (λ j m e. leased-IsOk worker_id (now + lease c lease_seconds) now kinds j (
        selected-holds (is_due now kinds) j js good.0 m (
          picked-selected j.id locked limit (ahead (select (is_due now kinds) js))
            (is_due now kinds) js e)))
      good
Step-kept c js js' pos (heartbeats job_id worker_id lease_seconds now _) =
    table_kept _ (λ j. record j { locked_until = some (now + lease c lease_seconds) }) js
      (λ _. refl) (λ j m e. heartbeat-IsOk job_id worker_id (now + lease c lease_seconds) j e)
Step-kept c js js' pos (succeeds job_id worker_id now _) =
    table_kept _ (finished now) js (λ _. refl) (λ j m e. finished-IsOk now j)
Step-kept c js js' pos (fails job_id error retry_in permanent now _) =
    fail_kept job_id error retry_in permanent now js
Step-kept c js js' pos (reaps locked now limit _) =
    table_kept _ (reaped now) js (reaped-id now) (λ j m e. reaped-IsOk now j)
Step-kept c js js' pos (cancels org_id lead_id kinds now _) =
    table_kept _ (λ j. record j { status = cancelled; finished_at = some now }) js (λ _. refl)
      (λ j m e. cancelled-IsOk org_id lead_id kinds now j e)

-- In every table that the queue's operations reach from an empty one, whatever their order and
-- arguments, ids are unique, attempts never exceed a job's limit, a queued job has an attempt left,
-- and exactly the running jobs carry a lease; new ids are fresh and the configured limit is positive.
pub Reachable-IsOkTable :
    (c : QueueConfig) (js : List Job) → 0 < c.job_max_attempts → Reachable c js → IsOkTable js
Reachable-IsOkTable c js pos empty = (tt, tt)
Reachable-IsOkTable c js pos (step before _ r s) =
    Step-kept c before js pos s (Reachable-IsOkTable c before pos r)
