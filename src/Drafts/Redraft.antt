-- ===== src/Drafts/Redraft.antt =====
-- app/db/drafts.py, `reject`: which job writes a rejected draft again.
use outreach_automation.Prelude.{any, ℕ, true, ◌≡◌, subst, List, [], ◌∷◌}
use outreach_automation.Db.{Lead, Draft, Job, JobKind, MessageKind, initial, followup, reply}
use outreach_automation.Drafts.Review.{redraft_kind, redraft_job}
use outreach_automation.Jobs.{conflicts, holds_key}

-- The kind of job that writes a rejected draft again.
abbrev pub kind_to_redraft : MessageKind → JobKind
kind_to_redraft initial = JobKind.draft_lead
kind_to_redraft followup = JobKind.draft_reply
kind_to_redraft reply = JobKind.draft_reply

pub redraft_job-holds :
    (org_id : ℕ) (d : Draft) (lead : Lead) (jobs : List Job)
    → lead.id ≡ d.lead_id
    → conflicts (redraft_job org_id d lead) jobs ≡ true
    → any
        (holds_key org_id
          (kind_to_redraft d.kind)
          (record { prefix = "draft"; parts = d.lead_id ∷ [] }))
        jobs
      ≡ true
unfolding conflicts redraft_job
redraft_job-holds org_id d lead jobs owned h =
    subst
      (λ n.
        any
          (holds_key org_id (kind_to_redraft d.kind) (record { prefix = "draft"; parts = n ∷ [] }))
          jobs
        ≡ true)
      owned (same_kind d.kind h)
  where
    same_kind :
        (k : MessageKind)
        → any
            (holds_key org_id (redraft_kind k) (record { prefix = "draft"; parts = lead.id ∷ [] }))
            jobs
          ≡ true
        → any
            (holds_key org_id
              (kind_to_redraft k)
              (record { prefix = "draft"; parts = lead.id ∷ [] }))
            jobs
          ≡ true
    same_kind initial e = e
    same_kind followup e = e
    same_kind reply e = e
