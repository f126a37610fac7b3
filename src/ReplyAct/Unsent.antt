-- ===== src/ReplyAct/Unsent.antt =====
-- app/services/reply/service.py, `_act`: the tables of messages, drafts and jobs after the action.
use outreach_automation.Prelude.{
  ℕ, ◌≤◌, ◌≡◌, refl, ap, ◌∙◌, inl, inr, Bool, false, ◌&&◌, List, [], ◌∷◌, Option, some, ◌==◌,
  if◌then◌else◌, count, count-append, Result, ok, arith, Bool-cases, Result-cases,
}
use outreach_automation.Time.{Zone}
use outreach_automation.Lead.State.{LeadState, same_state}
use outreach_automation.Campaign.Settings.{CampaignSettings}
use outreach_automation.Db.{
  Db, Lead, Json, Job, JobKind, send_message, draft_reply, cancelled, SuppressionReason, Value,
}
use outreach_automation.Db.Table.{update_where}
use outreach_automation.Lead.Transition.{Move, save_lead, record_event, transition}
use outreach_automation.Lead.Transition.Effect.{transition-Done}
use outreach_automation.Jobs.{QueueConfig, NewJob, new_job, kind_index, is_live, enqueue}
use outreach_automation.Queue.{to_cancel, cancel_for_lead}
use outreach_automation.Reply.{
  is_opt_out, ReplyLabel, suppress, close, defer, needs_human, policy_for,
}
use outreach_automation.ReplyAct.{
  defer_days, is_bounce, cancel_on_reply, label_name, optional, Inbound, ActError, add_suppression,
  cancel_jobs, reply_move, tolerate, move, defer_to, postpone, draft_reply_job, act_suppress,
  act_close, act_defer, act_needs_human, act,
}

-- The same messages, suppressions, jobs and drafts.
abbrev pub Kept : Db → Db → Type 0
Kept db db' =
    (db'.messages ≡ db.messages)
    × (db'.suppressions ≡ db.suppressions)
    × (db'.jobs ≡ db.jobs)
    × (db'.drafts ≡ db.drafts)

transition-Kept :
    (m : Move) (db : Db) (l : Lead) (db' : Db) → transition m db ≡ ok (l, db') → Kept db db'
unfolding record_event save_lead
transition-Kept m db l db' h =
    let d = transition-Done m db l db' h in
    (
      ap (λ (x : Db). x.messages) d.saved,
      ap (λ (x : Db). x.suppressions) d.saved,
      ap (λ (x : Db). x.jobs) d.saved,
      ap (λ (x : Db). x.drafts) d.saved,
    )

pub move-Kept :
    (org_id : ℕ) (lead : Lead) (to_state : LeadState) (data_ : Json) (now : ℕ) (db db' : Db)
    → move org_id lead to_state data_ now db ≡ ok db'
    → Kept db db'
unfolding move tolerate record_event
move-Kept org_id lead to_state data_ now db db' h =
    elim (Bool-cases (same_state lead.state to_state)) [
      | inl same ↦ ground (arith, h, same)
      | inr other ↦
          elim (Result-cases (transition (reply_move org_id lead to_state data_ now) db)) [
            | inl (e, refusal) ↦ ground (arith, h, other, refusal)
            | inr ((l, db₁), done) ↦ ground (
              arith,
              h,
              other,
              done,
              transition-Kept (reply_move org_id lead to_state data_ now) db l db₁ done,
            )
          ]
    ]

postpone-Kept :
    (z : Zone) (lead : Lead) (days : ℕ) (s : CampaignSettings) (now : ℕ) (db db' : Db)
    → postpone z lead days s now db ≡ ok db'
    → Kept db db'
unfolding postpone defer_to save_lead
postpone-Kept z lead days s now db db' h = ground (arith, h)

-- The jobs of a kind that wait or run.
abbrev pub is_live_of : JobKind → Job → Bool
is_live_of k j = (kind_index j.kind == kind_index k) && is_live j.status

cancel-live :
    (k : JobKind) (org_id lead_id : ℕ) (kinds : Option (List JobKind)) (clock : ℕ) (js : List Job)
    → count (is_live_of k) (
        update_where
          (to_cancel org_id lead_id kinds)
          (λ j. record j { status = cancelled; finished_at = some clock })
          js)
      ≤ count (is_live_of k) js
cancel-live k org_id lead_id kinds clock [] = omega arith
cancel-live k org_id lead_id kinds clock (j ∷ js) =
    elim (Bool-cases (to_cancel org_id lead_id kinds j)) [
      | inl e ↦ ground (arith, e, cancel-live k org_id lead_id kinds clock js)
      | inr e ↦ ground (arith, e, cancel-live k org_id lead_id kinds clock js)
    ]

cancel_jobs-live :
    (k : JobKind) (org_id lead_id : ℕ) (kinds : List JobKind) (clock : ℕ) (db : Db)
    → count (is_live_of k) (cancel_jobs org_id lead_id kinds clock db).jobs
      ≤ count (is_live_of k) db.jobs
unfolding cancel_jobs cancel_for_lead
cancel_jobs-live k org_id lead_id kinds clock db =
    cancel-live k org_id lead_id (some kinds) clock db.jobs

enqueue-live :
    (k : JobKind) (config : QueueConfig) (n : NewJob) (job_id now : ℕ) (js js' : List Job)
    (row : Option Job)
    → (kind_index n.kind == kind_index k) ≡ false
    → enqueue config n job_id now js ≡ ok (row, js')
    → count (is_live_of k) js' ≤ count (is_live_of k) js
unfolding enqueue new_job
enqueue-live k config n job_id now js js' row other h =
    ground (arith, h, other, count-append (is_live_of k) js (new_job config n job_id now ∷ []))

-- No message and no draft is written or changed, and of no kind of job but `draft_reply` do more wait
-- or run.
abbrev pub Unsent : Db → Db → Type 0
Unsent db db' =
    (db'.messages ≡ db.messages)
    × (db'.drafts ≡ db.drafts)
    × ((k : JobKind)
        → (kind_index k == kind_index draft_reply) ≡ false
        → count (is_live_of k) db'.jobs ≤ count (is_live_of k) db.jobs)

module _ (z : Zone) (config : QueueConfig) (org_id job_id : ℕ) (parsed : Inbound)
    (label : ReplyLabel) (s : CampaignSettings) (now clock : ℕ) where
  moved_after_cancel :
      (lead : Lead) (to_state : LeadState) (data_ : Json) (kinds : List JobKind) (db db' : Db)
      → move org_id lead to_state data_ now (cancel_jobs org_id lead.id kinds clock db) ≡ ok db'
      → Unsent db db'
  unfolding cancel_jobs
  moved_after_cancel lead to_state data_ kinds db db' h =
      let (messages, _, jobs, drafts) =
        move-Kept org_id lead to_state data_ now (cancel_jobs org_id lead.id kinds clock db) db'
          h in
      (messages, drafts, λ k other. rw jobs (cancel_jobs-live k org_id lead.id kinds clock db))

  add_suppression-kept :
      (value : List ℕ) (reason : SuppressionReason) (db : Db)
      → ((add_suppression org_id value reason (some parsed.message_id) db).messages ≡ db.messages)
        × ((add_suppression org_id value reason (some parsed.message_id) db).jobs ≡ db.jobs)
        × ((add_suppression org_id value reason (some parsed.message_id) db).drafts ≡ db.drafts)
  unfolding add_suppression
  add_suppression-kept value reason db = ground arith

  Kept-Unsent : (db db' : Db) → Kept db db' → Unsent db db'
  Kept-Unsent db db' (messages, suppressions, jobs, drafts) =
      (messages, drafts, λ k other. rw jobs (omega arith))

  act_defer-Unsent :
      (lead : Lead) (db db' : Db)
      → act_defer z config org_id job_id parsed label s now clock lead db ≡ ok db'
      → Unsent db db'
  unfolding act_defer record_event
  act_defer-Unsent lead db db' h =
      elim (Result-cases (postpone z lead (defer_days parsed.return_date now) s now db)) [
        | inl (e, refusal) ↦ absurd (ground (arith, h, refusal))
        | inr (db₁, done) ↦ ground (
          arith,
          h,
          done,
          Kept-Unsent db db₁
              (postpone-Kept z lead (defer_days parsed.return_date now) s now db db₁ done),
        )
      ]

  act_suppress-Unsent :
      (lead : Lead) (db db' : Db)
      → act_suppress z config org_id job_id parsed label s now clock lead db ≡ ok db'
      → Unsent db db'
  unfolding act_suppress record_event
  act_suppress-Unsent lead db db' h = elim (Bool-cases (is_bounce label && parsed.soft_bounce)) [
    | inl soft ↦ elim (Result-cases (postpone z lead 1 s now db)) [
      | inl (e, refusal) ↦ absurd (ground (arith, h, soft, refusal))
      | inr (db₁, done) ↦
          ground
            (arith, h, soft, done, Kept-Unsent db db₁ (postpone-Kept z lead 1 s now db db₁ done))
    ]
    | inr hard ↦
        let (messages, drafts, fewer) =
          moved_after_cancel lead to_state data_ cancel_on_reply
            (add_suppression org_id lead.email_norm reason (some parsed.message_id) db) db'
            (ground (arith, h, hard)) in
        let (same_messages, same_jobs, same_drafts) =
          add_suppression-kept lead.email_norm reason db in
        (messages ∙ same_messages, drafts ∙ same_drafts, λ k other. rw same_jobs at (fewer k other))
  ]
    where
      reason : SuppressionReason
      reason = if is_opt_out label then SuppressionReason.opt_out else SuppressionReason.bounce

      to_state : LeadState
      to_state = if is_opt_out label then LeadState.opted_out else LeadState.bounced

      data_ : Json
      data_ = ("label", Value.text (label_name label)) ∷ ("status", optional parsed.dsn_status) ∷ []

  act_needs_human-Unsent :
      (lead : Lead) (db db' : Db)
      → act_needs_human z config org_id job_id parsed label s now clock lead db ≡ ok db'
      → Unsent db db'
  unfolding act_needs_human draft_reply_job
  act_needs_human-Unsent lead db db' h = elim (Result-cases moved_db) [
    | inl (e, refusal) ↦ absurd (ground (arith, h, refusal))
    | inr (db₁, done) ↦
        let (messages, drafts, fewer) =
          moved_after_cancel lead LeadState.replied data_ (send_message ∷ []) db db₁ done in
        elim (Result-cases
          (enqueue config (draft_reply_job org_id lead label parsed) job_id clock db₁.jobs)) [
            | inl (e, full) ↦ absurd (ground (arith, h, done, full))
            | inr ((row, jobs), queued) ↦ (
              ground (arith, h, done, queued, messages),
              ground (arith, h, done, queued, drafts),
              λ k other. ground (
                arith,
                h,
                done,
                queued,
                fewer k other,
                enqueue-live k config (draft_reply_job org_id lead label parsed) job_id clock
                    db₁.jobs jobs row (ground (arith, other)) queued,
              ),
            )
          ]
  ]
    where
      data_ : Json
      data_ = ("label", Value.text (label_name label)) ∷ []

      moved_db : Result ActError Db
      moved_db =
          move org_id lead LeadState.replied data_ now
            (cancel_jobs org_id lead.id (send_message ∷ []) clock db)

  -- Whatever its label, acting on a reply writes and changes no message and no draft, so that nothing
  -- is sent and nothing is approved for sending; and the only jobs that it queues are those that draft
  -- an answer.
  pub act-Unsent :
      (lead : Lead) (db db' : Db)
      → act z config org_id job_id parsed label s now clock lead db ≡ ok db'
      → Unsent db db'
  unfolding act act_close save_lead
  act-Unsent lead db db' h =
      elim (policy_for label).action as (λ a. (policy_for label).action ≡ a → Unsent db db') [
        | suppress ↦ λ e. act_suppress-Unsent lead' saved db' (ground (arith, h, e))
        | close ↦ λ e.
            moved_after_cancel lead' LeadState.not_interested
              (("label", Value.text (label_name label)) ∷ []) cancel_on_reply saved db'
              (ground (arith, h, e))
        | defer ↦ λ e. act_defer-Unsent lead' saved db' (ground (arith, h, e))
        | needs_human ↦ λ e. act_needs_human-Unsent lead' saved db' (ground (arith, h, e))
      ]
        refl
    where
      lead' : Lead
      lead' = record lead { last_message_at = some now }

      saved : Db
      saved = save_lead lead' db
