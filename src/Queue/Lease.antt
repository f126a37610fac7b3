-- ===== src/Queue/Lease.antt =====
-- Leases and duplicates in the job queue (app/db/queue.py): who may finish a job, when an insert is
-- a duplicate, and how long a failed job waits.
use outreach_automation.Prelude.{
  ℕ, ◌+◌, ◌*◌, ◌≤◌, ◌<◌, ◌≡◌, refl, sym, subst, Bool, true, false, ◌&&◌, List, [], ◌∷◌, ◌++◌,
  Option, none, some, ◌==◌, any, count, arith, ok,
}
use Prim.Native.Nat.{max}
use native.Mathlib.Nat.{pow-le-pow_right}
use text.Mathlib.TextPositions.{eq_refl}
use outreach_automation.Time.{second}
use outreach_automation.Db.{Job, Key}
use outreach_automation.Db.Table.{find, update_where}
use outreach_automation.Jobs.{
  QueueConfig, NewJob, new_job, same_parts, same_key, holds_key, conflicts, waiting, enqueue,
  is_running,
}
use outreach_automation.Queue.{
  lease, holds_lease, heartbeat, finished, succeed, backoff_for, failed, fail,
}

-- No row of the table is the job held by the worker.
abbrev pub not_held : ℕ → ℕ → List Job → Bool
not_held job_id worker_id jobs =
    count (λ j. (j.id == job_id) && holds_lease worker_id j.locked_by) jobs == 0

update_where-none :
    (p : Job → Bool) (f : Job → Job) (js : List Job) → count p js ≡ 0 → update_where p f js ≡ js
update_where-none p f [] h = refl
update_where-none p f (j ∷ js) h = ground (arith, update_where-none p f js)

running_count :
    (job_id worker_id : ℕ) (js : List Job)
    → count (λ j. (j.id == job_id) && holds_lease worker_id j.locked_by) js ≡ 0
    → count (λ j. (j.id == job_id) && is_running j.status && holds_lease worker_id j.locked_by) js
      ≡ 0
running_count job_id worker_id [] h = refl
running_count job_id worker_id (j ∷ js) h = ground (arith, running_count job_id worker_id js)

-- A worker that no longer holds a job changes nothing by finishing it or by a heartbeat, and both
-- tell it so.
pub lost_lease :
    (c : QueueConfig) (job_id worker_id : ℕ) (lease_seconds : Option ℕ) (now : ℕ) (jobs : List Job)
    → not_held job_id worker_id jobs ≡ true
    → (succeed job_id (some worker_id) now jobs ≡ (false, jobs))
      × (heartbeat c job_id worker_id lease_seconds now jobs ≡ (false, jobs))
unfolding succeed heartbeat
lost_lease c job_id worker_id lease_seconds now jobs h = ground (
  arith,
  h,
  update_where-none (λ (j : Job). (j.id == job_id) && holds_lease worker_id j.locked_by)
      (finished now) jobs,
  running_count job_id worker_id jobs,
  update_where-none
      (λ (j : Job). (j.id == job_id) && is_running j.status && holds_lease worker_id j.locked_by)
      (λ j. record j { locked_until = some (now + lease c lease_seconds) }) jobs,
)

-- The wait before a failed job is tried again is at least 30 seconds and at most an hour, and a
-- later attempt never waits less than an earlier one.
pub backoff_for_bounds :
    (attempts more : ℕ)
    → (30 * second ≤ backoff_for attempts)
      × (backoff_for attempts ≤ 3600 * second)
      × (backoff_for attempts ≤ backoff_for (attempts + more))
unfolding backoff_for
backoff_for_bounds attempts more = omega (
  arith,
  pow-le-pow_right {n = 2} (omega arith) {i = 1} {j = max attempts 1} (omega arith),
  pow-le-pow_right {n = 2} (omega arith) {i = max attempts 1} {j = max (attempts + more) 1}
      (omega arith),
)

same_parts_refl : (xs : List ℕ) → same_parts xs xs ≡ true
unfolding same_parts
same_parts_refl [] = refl
same_parts_refl (x ∷ xs) = ground (arith, same_parts_refl xs)

any-append_true :
    (p : Job → Bool) (js : List Job) (j : Job) → p j ≡ true → any p (js ++ j ∷ []) ≡ true
any-append_true p [] j h = ground (arith, h)
any-append_true p (x ∷ xs) j h = ground (arith, any-append_true p xs j h)

new_job-conflicts :
    (c : QueueConfig) (n : NewJob) (key : Key) (job_id now : ℕ) (jobs : List Job)
    → n.dedupe_key ≡ some key
    → conflicts n (jobs ++ new_job c n job_id now ∷ []) ≡ true
unfolding conflicts holds_key new_job same_key
new_job-conflicts c n key job_id now jobs h = ground (
  arith,
  h,
  same_parts_refl key.parts,
  eq_refl key.prefix,
  any-append_true (holds_key n.org_id n.kind key) jobs (new_job c n job_id now),
)

-- A job with a dedupe key that was asked for is there, or one that stands for it.
pub enqueue-conflicts :
    (c : QueueConfig) (n : NewJob) (key : Key) (job_id now : ℕ) (jobs jobs' : List Job)
    (row : Option Job)
    → n.dedupe_key ≡ some key
    → enqueue c n job_id now jobs ≡ ok (row, jobs')
    → conflicts n jobs' ≡ true
unfolding enqueue
enqueue-conflicts c n key job_id now jobs jobs' none h first = ground (arith, h, first)
enqueue-conflicts c n key job_id now jobs jobs' (some row) h first =
    ground (arith, h, first, new_job-conflicts c n key job_id now jobs h)

-- After a job with a dedupe key was asked for, whether it was inserted or not, asking for it again
-- while the queue is not full inserts nothing, at any time and under any id.
pub enqueue_again :
    (c : QueueConfig) (n : NewJob) (key : Key) (job_id job_id' now now' : ℕ) (jobs jobs' : List Job)
    (row : Option Job)
    → n.dedupe_key ≡ some key
    → enqueue c n job_id now jobs ≡ ok (row, jobs')
    → waiting n.org_id jobs' < c.max_queued_jobs_per_org
    → enqueue c n job_id' now' jobs' ≡ ok (none, jobs')
unfolding enqueue
enqueue_again c n key job_id job_id' now now' jobs jobs' none h first room =
    ground (arith, h, first, room)
enqueue_again c n key job_id job_id' now now' jobs jobs' (some row) h first room =
    ground (arith, h, first, room, new_job-conflicts c n key job_id now jobs h)

failed_not_held :
    (job_id worker_id : ℕ) (error : List ℕ) (retry_in : Option ℕ) (permanent : Bool) (now : ℕ)
    (js : List Job)
    → count
        (λ j. (j.id == job_id) && holds_lease worker_id j.locked_by)
        (update_where (λ i. i.id == job_id) (failed error retry_in permanent now) js)
      ≡ 0
unfolding failed
failed_not_held job_id worker_id error retry_in permanent now [] = refl
failed_not_held job_id worker_id error retry_in permanent now (j ∷ js) =
    ground (arith, failed_not_held job_id worker_id error retry_in permanent now js)

lost_succeed :
    (job_id worker_id now : ℕ) (jobs : List Job)
    → count (λ j. (j.id == job_id) && holds_lease worker_id j.locked_by) jobs ≡ 0
    → succeed job_id (some worker_id) now jobs ≡ (false, jobs)
unfolding succeed
lost_succeed job_id worker_id now jobs h = ground (
  arith,
  h,
  update_where-none (λ (j : Job). (j.id == job_id) && holds_lease worker_id j.locked_by)
      (finished now) jobs,
)

fail_table :
    (job_id : ℕ) (error : List ℕ) (retry_in : Option ℕ) (permanent : Bool) (now : ℕ)
    (jobs : List Job) (j : Job)
    → find (λ i. i.id == job_id) jobs ≡ some j
    → (fail job_id error retry_in permanent now jobs).1
      ≡ update_where (λ i. i.id == job_id) (failed error retry_in permanent now) jobs
unfolding fail
fail_table job_id error retry_in permanent now jobs j h = ground (arith, h)

-- Failing a job does not ask who holds it: whatever its state, nobody holds it afterwards, and the
-- worker that did is told that its lease is gone when it finishes.
pub fail_takes_lease :
    (job_id worker_id : ℕ) (error : List ℕ) (retry_in : Option ℕ) (permanent : Bool) (now later : ℕ)
    (jobs : List Job) (j : Job)
    → find (λ i. i.id == job_id) jobs ≡ some j
    → succeed job_id (some worker_id) later (fail job_id error retry_in permanent now jobs).1
      ≡ (false, (fail job_id error retry_in permanent now jobs).1)
fail_takes_lease job_id worker_id error retry_in permanent now later jobs j h =
    lost_succeed job_id worker_id later (fail job_id error retry_in permanent now jobs).1 (
      subst (λ js. count (λ j. (j.id == job_id) && holds_lease worker_id j.locked_by) js ≡ 0)
        (sym (fail_table job_id error retry_in permanent now jobs j h))
        (failed_not_held job_id worker_id error retry_in permanent now jobs))
