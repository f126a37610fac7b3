-- ===== src/SendLoop/Allowed.antt =====
-- app/worker/send_loop.py, `send_one`: when an e-mail leaves our hands, and what a crash after that
-- leaves behind.
use outreach_automation.Prelude.{
  ℕ, ◌<◌, ◌≤◌, false, ◌≡◌, refl, ap, sym, ◌∙◌, subst, ◌*◌, if◌then◌else◌, inl, inr, List, [], ◌∷◌,
  none, some, arith, ◌==◌, ok, err, All, Option-cases, Result,
}
use outreach_automation.Time.{Zone, second, minute}
use outreach_automation.Campaign.Settings.{CampaignSettings}
use outreach_automation.Scheduling.{in_window, next_window_open, remaining_capacity}
use outreach_automation.Db.{Db, Mailbox, Message, Org}
use outreach_automation.Db.Table.{find}
use outreach_automation.Outbox.{Send, ClaimError, ClaimResult, claimed, refused, claim_send}
use outreach_automation.Outbox.Claim.{claim_send-again}
use outreach_automation.Sendable.{Refusal}
use outreach_automation.SendLoop.{Candidate, sent_today, effective_cap, find_candidates}
use outreach_automation.SendLoop.Queue.{IsCandidate, find_candidates-IsCandidate}
use outreach_automation.SendLoop.One.{
  World, Pass, idle, idle_until, nothing_ready, outside_window, Outgoing, SendError, outgoing,
  send_of, hand_over, after_claim, send_candidate, send_first, send_one,
}

-- The e-mail goes to the lead's address, and its subject and body are those of the draft.
abbrev pub IsTextOf : Candidate → Outgoing → Type 0
IsTextOf c mail =
    (mail.to_email ≡ c.lead.email_norm)
    × (mail.subject ≡ c.draft.subject)
    × (mail.body ≡ c.draft.body)

-- What has to hold for an e-mail to be handed over.
pub record IsAllowed (z : Zone) (w : World) (org_id : ℕ) (mailbox : Mailbox) (s : CampaignSettings)
    (now : ℕ) (db : Db) (mail : Outgoing) : Type 0 where
  pub org : Org
  pub has_org : find (λ (o : Org). o.id == org_id) db.orgs ≡ some org
  pub org_runs : org.paused ≡ false
  pub mailbox_runs : mailbox.paused ≡ false
  pub below_cap : sent_today z mailbox.id now db < effective_cap z mailbox s now
  pub not_early : (t : ℕ) → mailbox.next_send_at ≡ some t → t ≤ now
  pub logged_in : w.login mailbox ≡ none
  pub chosen : Candidate
  pub ready : IsCandidate z org_id mailbox.id now db chosen
  pub others : List Candidate
  pub first : find_candidates z org_id mailbox.id now db ≡ chosen ∷ others
  pub message : Message
  pub claimed_db : Db
  pub has_claim :
      claim_send w.hashed_email (send_of org_id mailbox chosen now db) w.message_id w.uuid db
      ≡ ok (claimed message, claimed_db)
  pub built : mail ≡ outgoing org_id mailbox chosen message claimed_db
  pub own_text : IsTextOf chosen mail
  pub pass :
      send_one z w org_id mailbox s now db
      ≡ hand_over z w org_id mailbox chosen message now claimed_db

-- The same for what follows once the candidate is chosen.
record IsHanded (z : Zone) (w : World) (org_id : ℕ) (mailbox : Mailbox) (c : Candidate) (now : ℕ)
    (db : Db) (mail : Outgoing) : Type 0 where
  logged : w.login mailbox ≡ none
  row : Message
  after : Db
  claim :
      claim_send w.hashed_email (send_of org_id mailbox c now db) w.message_id w.uuid db
      ≡ ok (claimed row, after)
  content : mail ≡ outgoing org_id mailbox c row after
  whole : send_candidate z w org_id mailbox c now db ≡ hand_over z w org_id mailbox c row now after

module _ (z : Zone) (w : World) (org_id : ℕ) (mailbox : Mailbox) (now : ℕ) (mail : Outgoing) where
  hand_over_handed :
      (c : Candidate) (m : Message) (db : Db)
      → (hand_over z w org_id mailbox c m now db).handed ≡ some mail
      → mail ≡ outgoing org_id mailbox c m db
  unfolding hand_over
  hand_over_handed c m db h = ground (arith, h)

  after_claim_handed :
      (c : Candidate) (db : Db) (r : Result ClaimError (ClaimResult × Db))
      → (after_claim z w org_id mailbox c now db r).handed ≡ some mail
      → (m : Message) × (after : Db) × (r ≡ ok (claimed m, after))
        × (mail ≡ outgoing org_id mailbox c m after)
  unfolding after_claim
  after_claim_handed c db (err e) h = absurd (cc)
  after_claim_handed c db (ok (refused r, db')) h = absurd (cc)
  after_claim_handed c db (ok (claimed m, db')) h = (m, db', refl, hand_over_handed c m db' h)

  send_candidate_handed :
      (c : Candidate) (db : Db)
      → (send_candidate z w org_id mailbox c now db).handed ≡ some mail
      → IsHanded z w org_id mailbox c now db mail
  unfolding send_candidate after_claim
  send_candidate_handed c db h = elim (Option-cases (w.login mailbox)) [
    | inr (why, failed) ↦ absurd (ground (arith, h, failed))
    | inl logged ↦
        let (m, after, claim, content) =
          after_claim_handed c db
            (claim_send w.hashed_email (send_of org_id mailbox c now db) w.message_id w.uuid db)
            (ground (arith, h, logged)) in
        record {
          logged = logged;
          row = m;
          after = after;
          claim = claim;
          content = content;
          whole = ground (arith, logged, claim);
        }
  ]

  -- A candidate that the mailbox may send, at the head of the queue.
  abbrev IsFirst : Candidate → Db → Type 0
  IsFirst c db =
      IsCandidate z org_id mailbox.id now db c
      × ((others : List Candidate) × (find_candidates z org_id mailbox.id now db ≡ c ∷ others))

  IsFirst-candidate :
      (c : Candidate) (cs : List Candidate) (db : Db)
      → find_candidates z org_id mailbox.id now db ≡ c ∷ cs
      → IsFirst c db
  IsFirst-candidate c cs db h = (
    (subst (All (IsCandidate z org_id mailbox.id now db)) h
        (find_candidates-IsCandidate z org_id mailbox.id now db)).0,
    (cs, h),
  )

  send_first_handed :
      (s : CampaignSettings) (db : Db)
      → (send_first z w org_id mailbox s now db).handed ≡ some mail
      → (c : Candidate) × IsFirst c db
        × IsHanded z w org_id mailbox c now db mail
        × (send_first z w org_id mailbox s now db ≡ send_candidate z w org_id mailbox c now db)
  unfolding send_first
  send_first_handed s db h =
      go (find_candidates z org_id mailbox.id now db) (λ c cs. IsFirst-candidate c cs db) h
    where
      go :
          (l : List Candidate)
          → ((c : Candidate) (cs : List Candidate) → l ≡ c ∷ cs → IsFirst c db)
          → (elim l as (λ _. Pass) [
            | c ∷ cs ↦ send_candidate z w org_id mailbox c now db
            | [] ↦
                if in_window z now s
                then idle nothing_ready (2 * minute) db
                else idle_until outside_window now (30 * second) (next_window_open z now s) db
          ]).handed
            ≡ some mail
          → (c : Candidate) × IsFirst c db
            × IsHanded z w org_id mailbox c now db mail
            × ((elim l as (λ _. Pass) [
              | c ∷ cs ↦ send_candidate z w org_id mailbox c now db
              | [] ↦
                  if in_window z now s
                  then idle nothing_ready (2 * minute) db
                  else idle_until outside_window now (30 * second) (next_window_open z now s) db
            ])
                ≡ send_candidate z w org_id mailbox c now db)
      go [] first k = absurd (ground (arith, k))
      go (c ∷ cs) first k = (c, first c cs refl, send_candidate_handed c db k, refl)

  -- An e-mail is handed over only for an organisation and a mailbox that run, below the mailbox's cap
  -- of the day and after its pause, with a working login, for a candidate that the mailbox may send,
  -- whose claim succeeded on the stored state, and it is the candidate's text.
  pub send_one-IsAllowed :
      (s : CampaignSettings) (db : Db)
      → (send_one z w org_id mailbox s now db).handed ≡ some mail
      → IsAllowed z w org_id mailbox s now db mail
  unfolding send_one remaining_capacity outgoing
  send_one-IsAllowed s db h = elim (Option-cases (find (λ (o : Org). o.id == org_id) db.orgs)) [
    | inl missing ↦ absurd (ground (arith, h, missing))
    | inr (org, found) ↦
        let (c, (ready, (others, queue)), i, first) =
          send_first_handed s db (ground (arith, h, found)) in
        record {
          org = org;
          has_org = found;
          org_runs = ground (arith, h, found);
          mailbox_runs = ground (arith, h, found);
          below_cap = ground (arith, h, found);
          not_early = λ t k. ground (arith, h, found, k);
          logged_in = i.logged;
          chosen = c;
          ready = ready;
          others = others;
          first = queue;
          message = i.row;
          claimed_db = i.after;
          has_claim = i.claim;
          built = i.content;
          own_text =
              (ground (arith, i.content), ground (arith, i.content), ground (arith, i.content));
          pass = ground (arith, h, found, first, i.whole);
        }
  ]

  hand_over_stopped :
      (c : Candidate) (m : Message) (db : Db) (e : SendError)
      → (hand_over z w org_id mailbox c m now db).result ≡ err e
      → ((hand_over z w org_id mailbox c m now db).db.leads ≡ db.leads)
        × ((hand_over z w org_id mailbox c m now db).db.messages ≡ db.messages)
  unfolding hand_over
  hand_over_stopped c m db e h = (ground (arith, h), ground (arith, h))

  -- If an exception stops a pass after its e-mail was handed over, then that e-mail is of the candidate
  -- at the head of the mailbox's queue, with its address and text, and on the database that was
  -- committed every further claim of an e-mail of that kind for that lead is refused, from whatever
  -- mailbox and at whatever time. (Once the row is marked unknown, it refuses no more.)
  pub send_one-claim_send :
      (s : CampaignSettings) (db : Db) (e : SendError)
      → (send_one z w org_id mailbox s now db).handed ≡ some mail
      → (send_one z w org_id mailbox s now db).result ≡ err e
      → (c : Candidate) × ((others : List Candidate) × (find_candidates z org_id mailbox.id now db
            ≡ c ∷ others))
        × IsTextOf c mail
        × ((t : Send) (message_id : ℕ) (uuid : List ℕ)
            → t.org_id ≡ org_id
            → t.lead_id ≡ c.lead.id
            → t.kind ≡ c.draft.kind
            → (r : Refusal) × (claim_send w.hashed_email t message_id uuid
                  (send_one z w org_id mailbox s now db).db
                ≡ ok (refused r, (send_one z w org_id mailbox s now db).db)))
  unfolding send_of
  send_one-claim_send s db e h stopped = (
    a.chosen,
    (a.others, a.first),
    a.own_text,
    λ t message_id uuid same_org same_lead same_kind.
        claim_send-again w.hashed_email (send_of org_id mailbox a.chosen now db) t w.message_id
          message_id w.uuid uuid db a.claimed_db (send_one z w org_id mailbox s now db).db a.message
          a.has_claim same_org same_lead same_kind (ap (λ (p : Pass). p.db.leads) a.pass ∙ kept.0)
          (ap (λ (p : Pass). p.db.messages) a.pass ∙ kept.1),
  )
    where
      a : IsAllowed z w org_id mailbox s now db mail
      a = send_one-IsAllowed s db h

      kept :
          ((hand_over z w org_id mailbox a.chosen a.message now a.claimed_db).db.leads
            ≡ a.claimed_db.leads)
          × ((hand_over z w org_id mailbox a.chosen a.message now a.claimed_db).db.messages
              ≡ a.claimed_db.messages)
      kept =
          hand_over_stopped a.chosen a.message a.claimed_db e
            (sym (ap (λ (p : Pass). p.result) a.pass) ∙ stopped)
