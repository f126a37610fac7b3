-- ===== src/Queue/Claim.antt =====
-- Claiming jobs (app/db/queue.py, `claim`): what it does to each row of the table, and what it hands out.
use outreach_automation.Prelude.{
  insert_by, sort_by, ℕ, suc, ◌+◌, ◌≤◌, ◌≡◌, refl, ap, Bool, true, false, not, ◌⊎◌, inl, inr, List,
  [], ◌∷◌, map, Option, some, if◌then◌else◌, elem, length, length-take-le, select, All, arith,
  Bool-cases,
}
use outreach_automation.Db.{Job, JobKind, running}
use outreach_automation.Db.Table.{update_where}
use outreach_automation.Jobs.{QueueConfig}
use outreach_automation.Queue.{is_due, ahead, precedes, claimable, lease, leased, claim}
use outreach_automation.Queue.Ids.{
  ids, Distinct, In, picked-selected, picked-unlocked, selected-holds,
}

-- The rows of a table and of the table after a change, paired.
abbrev pub Pairwise : (Job → Job → Type 0) → List Job → List Job → Type 0
Pairwise R [] [] = Unit
Pairwise R (x ∷ xs) (y ∷ ys) = R x y × Pairwise R xs ys
Pairwise R _ _ = ⊥

pub Pairwise-update_where :
    (R : Job → Job → Type 0) (p : Job → Bool) (f : Job → Job) (js : List Job)
    → ((j : Job) → In j js → R j (if p j then f j else j))
    → Pairwise R js (update_where p f js)
Pairwise-update_where R p f [] h = tt
Pairwise-update_where R p f (j ∷ js) h =
    (h j (inl refl), Pairwise-update_where R p f js (λ i m. h i (inr m)))

length-insert_by :
    (b : Job → Job → Bool) (j : Job) (js : List Job) → length (insert_by b j js) ≡ suc (length js)
length-insert_by b j [] = refl
length-insert_by b j (x ∷ xs) = ground (arith, length-insert_by b j xs)

length-sort_by : (b : Job → Job → Bool) (js : List Job) → length (sort_by b js) ≡ length js
length-sort_by b [] = refl
length-sort_by b (j ∷ js) = omega (arith, length-insert_by b j (sort_by b js), length-sort_by b js)

length-map : (f : Job → Job) (js : List Job) → length (map f js) ≡ length js
length-map f [] = refl
length-map f (j ∷ js) = omega (arith, length-map f js)

All-insert_by :
    (P : Job → Type 0) (b : Job → Job → Bool) (j : Job) (js : List Job)
    → P j
    → All P js
    → All P (insert_by b j js)
All-insert_by P b j [] p a = (p, tt)
All-insert_by P b j (x ∷ xs) p a = elim (Bool-cases (b j x)) [
  | inl e ↦ ground (arith, e)
  | inr e ↦ ground (arith, e, All-insert_by P b j xs p a.1)
]

All-sort_by :
    (P : Job → Type 0) (b : Job → Job → Bool) (js : List Job) → All P js → All P (sort_by b js)
All-sort_by P b [] a = tt
All-sort_by P b (j ∷ js) a = All-insert_by P b j (sort_by b js) a.0 (All-sort_by P b js a.1)

-- What a claim may do to one row: leave it, or lease a row that was due and that nobody had locked.
abbrev pub Claimed : (ℕ → Bool) → ℕ → List JobKind → ℕ → ℕ → Job → Job → Type 0
Claimed locked worker_id kinds until now j j' =
    (j' ≡ j)
    ⊎ ((is_due now kinds j ≡ true) × (locked j.id ≡ false) × (j' ≡ leased worker_id until j))

module _ (c : QueueConfig) (locked : ℕ → Bool) (worker_id : ℕ) (kinds : List JobKind) (limit : ℕ)
    (lease_seconds : Option ℕ) (now : ℕ) (jobs : List Job) where
  abbrev chosen : List Job
  chosen = claimable locked now kinds limit jobs

  abbrev until : ℕ
  until = now + lease c lease_seconds

  row-Claimed :
      Distinct jobs
      → (j : Job) → In j jobs
      → Claimed locked worker_id kinds until now j
          (if elem j.id (map (λ i. i.id) chosen) then leased worker_id until j else j)
  unfolding claimable
  row-Claimed d j m = elim (Bool-cases (elem j.id (ids chosen))) [
    | inl e ↦ inr (
      selected-holds (is_due now kinds) j jobs d m (
          picked-selected j.id locked limit (ahead (select (is_due now kinds) jobs))
            (is_due now kinds) jobs e),
      picked-unlocked j.id locked limit (ahead (select (is_due now kinds) jobs)) (is_due now kinds)
          jobs e,
      ap (λ b. if b then leased worker_id until j else j) e,
    )
    | inr e ↦ inl (ap (λ b. if b then leased worker_id until j else j) e)
  ]

  -- In a table where ids are unique, a claim changes each row in no other way than to lease it to the
  -- worker until now plus the lease, and only a row that was queued, due, of an accepted kind and not
  -- locked by another transaction.
  pub claim_rows :
      Distinct jobs
      → Pairwise
          (Claimed locked worker_id kinds (now + lease c lease_seconds) now)
          jobs
          (claim c locked worker_id kinds limit lease_seconds now jobs).1
  unfolding claim
  claim_rows d =
      Pairwise-update_where (Claimed locked worker_id kinds until now)
        (λ j. elem j.id (map (λ i. i.id) chosen)) (leased worker_id until) jobs (row-Claimed d)

  handed_out :
      (js : List Job)
      → All
          (λ (j : Job).
            (j.status ≡ running) × (j.locked_by ≡ some worker_id) × (j.locked_until ≡ some until))
          (map (leased worker_id until) js)
  unfolding leased
  handed_out [] = tt
  handed_out (j ∷ js) = ((refl, refl, refl), handed_out js)

  -- A claim hands out at most `limit` jobs, and each one is running, locked by the worker, until now
  -- plus the lease.
  pub claim_handed :
      (length (claim c locked worker_id kinds limit lease_seconds now jobs).0 ≤ limit)
      × All
          (λ (j : Job).
            (j.status ≡ running)
            × (j.locked_by ≡ some worker_id)
            × (j.locked_until ≡ some (now + lease c lease_seconds)))
          (claim c locked worker_id kinds limit lease_seconds now jobs).0
  unfolding claim claimable
  claim_handed = (
    at_most_limit,
    All-sort_by
        (λ (j : Job).
          (j.status ≡ running) × (j.locked_by ≡ some worker_id) × (j.locked_until ≡ some until))
        precedes (map (leased worker_id until) chosen) (handed_out chosen),
  )
    where
      at_most_limit : length (sort_by precedes (map (leased worker_id until) chosen)) ≤ limit
      at_most_limit = omega (
        arith,
        length-sort_by precedes (map (leased worker_id until) chosen),
        length-map (leased worker_id until) chosen,
        length-take-le limit (
            select (λ (j : Job). not (locked j.id))
              (sort_by (ahead (select (is_due now kinds) jobs)) (select (is_due now kinds) jobs))),
      )
