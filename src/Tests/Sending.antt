-- ===== src/Tests/Sending.antt =====
-- Runs of app/worker/send_loop.py and app/services/mailboxes/pool.py: an approved first e-mail leaves
-- on a Wednesday at noon, once in the ordinary way and once with no send day left for a follow-up; a
-- send that was interrupted, and a campaign that starts, of recovery.py and campaign_clock.py.
use outreach_automation.Prelude.{
  zero, suc, ℕ, ◌+◌, ◌≡◌, refl, true, false, List, [], ◌∷◌, Option, none, some, codes, map, elem,
  ok, err, length, arith, count, ◌==◌, Bool,
}
use outreach_automation.Time.{kolkata}
use outreach_automation.Campaign.Status.{CampaignStatus, scheduled_status}
use outreach_automation.Address.{same_text}
use outreach_automation.Lead.State.{is_allowed}
use outreach_automation.Lead.Transition.{
  lock_lead, save_lead, record_event, assert_allowed, moved, add_flags, remove_flags, transition,
}
use outreach_automation.Campaign.Settings.{CampaignSettings, default_settings, is_send_day}
use outreach_automation.Scheduling.{
  in_window, next_window_open, find_send_day, followup_due_at, ist_day_bounds, warmup_cap,
  remaining_capacity,
}
use outreach_automation.Db.{Db, Campaign, Draft, DraftStatus, Message, Persona}
use outreach_automation.Sendable.{Refusal, why_not_sendable, is_suppressed, already_in_touch}
use outreach_automation.Outbox.{
  Send, claim_send, checked, after_checks, sending_mailbox, next_sequence, new_message, refused,
}
use outreach_automation.Drafts.{written}
use outreach_automation.Sends.{
  find_stuck_sending, mark_sent, locked_message, sent_message, save_message, send_move,
}
use outreach_automation.Pool.{
  PoolMember, pool_for, primary_member, extra_ids, distinct, campaign_ids_for, choose,
}
use outreach_automation.Pool.Members.{pool_for-campaign_ids_for}
use outreach_automation.Pool.Choice.{Among, IsLightest, choose-IsLightest}
use outreach_automation.SendLoop.{
  sent_today, effective_cap, find_candidates, candidate_rows, is_sendable_row, rows_from, rows_with,
  kind_fits, to_candidate, keep, interleave, deal, queues_from, add_to, is_mine, assignee_for,
  Candidate,
}
use outreach_automation.SendLoop.Order.{count-interleave}
use outreach_automation.SendLoop.Headers.{thread_headers}
use outreach_automation.SendLoop.One.{
  World, Outgoing, SmtpOutcome, Pass, send_one, send_first, send_candidate, after_claim, send_of,
  hand_over, outgoing, record_outcome, follow_at, no_window,
}
use outreach_automation.SendLoop.Allowed.{
  IsAllowed, IsTextOf, send_one-IsAllowed, send_one-claim_send,
}
use outreach_automation.CampaignClock.{
  empty_report, run_campaign_clock, clock_report, is_scheduled, target_of, counted,
}
use outreach_automation.CampaignClock.Missed.{run_campaign_clock-run_campaign_clock}
use outreach_automation.Recovery.{
  RecoveryReport, confirmed, resolve, resolve_all, mark_recovered, recovered_follow_at,
  recover_stuck_sends,
}
use outreach_automation.Db.Unique.{Unique}
use outreach_automation.Recovery.Resolved.{IsRecovered, recover_stuck_sends-IsRecovered}
use outreach_automation.Tests.Mail.{ada, claimed_db, spring, office, start, no_digest}
use outreach_automation.Tests.Clock.{wednesday}
use outreach_automation.Tests.Review.{first_row}

abbrev signer : Persona
signer = record {
  sender_name = codes "Mo";
  agency_name = [];
  agency_url = none;
  postal_address = none;
}

abbrev campaign_with : CampaignSettings → Campaign
campaign_with s = record spring { settings = some s; persona = some signer }

abbrev approved_draft : Draft
approved_draft = record first_row { status = DraftStatus.approved; approved_at = some 90 }

abbrev ready_db : CampaignSettings → Db
ready_db s = record start {
  campaigns = campaign_with s ∷ [];
  drafts = approved_draft ∷ [];
  orgs = record { id = 1; paused = false } ∷ [];
}

abbrev world : World
world = record {
  login = λ m. none;
  smtp = λ mail. record { outcome = SmtpOutcome.delivered; response = none; detail = [] };
  gap = 60;
  message_id = 11;
  uuid = codes "u1";
  hashed_email = no_digest;
}

-- The pass, and the mail of its hand-over where there is one.
abbrev pass_with : CampaignSettings → Pass
pass_with s = send_one kolkata world 1 office default_settings wednesday (ready_db s)

abbrev mail_of : Pass → Outgoing
mail_of p = elim p.handed [
  | some mail ↦ mail
  | none ↦ record {
    to_email = [];
    from_email = [];
    subject = [];
    body = [];
    persona = signer;
    message_id = none;
    in_reply_to = none;
    references = none;
    attachment = none;
  }
]

left : (pass_with default_settings).handed ≡ some (mail_of (pass_with default_settings))
unfolding send_one sent_today effective_cap warmup_cap ist_day_bounds remaining_capacity send_first
    find_candidates campaign_ids_for candidate_rows rows_from rows_with is_sendable_row keep
    to_candidate kind_fits in_window is_send_day is_mine assignee_for pool_for primary_member
    extra_ids distinct interleave deal queues_from add_to send_candidate send_of thread_headers
    claim_send lock_lead checked why_not_sendable is_suppressed already_in_touch after_checks
    sending_mailbox next_sequence save_lead same_text after_claim hand_over outgoing new_message
    written record_outcome follow_at followup_due_at next_window_open find_send_day mark_sent
    locked_message record_event sent_message transition save_message send_move assert_allowed
    is_allowed moved add_flags remove_flags
left = refl

send_one-IsAllowed_example :
    IsAllowed kolkata world 1 office default_settings wednesday
      (ready_db default_settings)
      (mail_of (pass_with default_settings))
send_one-IsAllowed_example =
    send_one-IsAllowed kolkata world 1 office wednesday (mail_of (pass_with default_settings))
      default_settings (ready_db default_settings) left

-- A campaign for Wednesdays whose next 53 are holidays: its first e-mails have no follow-up time.
abbrev weeks_from : ℕ → ℕ → List ℕ
weeks_from zero day = []
weeks_from (suc n) day = day ∷ weeks_from n (day + 7)

abbrev last_day : CampaignSettings
last_day = record default_settings { send_days = 2 ∷ []; holidays = weeks_from 53 709 }

left_last : (pass_with last_day).handed ≡ some (mail_of (pass_with last_day))
unfolding send_one sent_today effective_cap warmup_cap ist_day_bounds remaining_capacity send_first
    find_candidates campaign_ids_for candidate_rows rows_from rows_with is_sendable_row keep
    to_candidate kind_fits in_window is_send_day is_mine assignee_for pool_for primary_member
    extra_ids distinct interleave deal queues_from add_to send_candidate send_of thread_headers
    claim_send lock_lead checked why_not_sendable is_suppressed already_in_touch after_checks
    sending_mailbox next_sequence save_lead same_text after_claim hand_over outgoing new_message
    written record_outcome follow_at followup_due_at next_window_open find_send_day mark_sent
    locked_message record_event sent_message transition save_message send_move assert_allowed
    is_allowed moved add_flags remove_flags
left_last = refl

stopped_last : (pass_with last_day).result ≡ err no_window
unfolding send_one sent_today effective_cap warmup_cap ist_day_bounds remaining_capacity send_first
    find_candidates campaign_ids_for candidate_rows rows_from rows_with is_sendable_row keep
    to_candidate kind_fits in_window is_send_day is_mine assignee_for pool_for primary_member
    extra_ids distinct interleave deal queues_from add_to send_candidate send_of thread_headers
    claim_send lock_lead checked why_not_sendable is_suppressed already_in_touch after_checks
    sending_mailbox next_sequence save_lead same_text after_claim hand_over outgoing new_message
    written record_outcome follow_at followup_due_at next_window_open find_send_day mark_sent
    locked_message record_event sent_message transition save_message send_move assert_allowed
    is_allowed moved add_flags remove_flags
stopped_last = refl

send_one-claim_send_example :
    (c : Candidate) × ((others : List Candidate) × (find_candidates kolkata 1 2 wednesday
          (ready_db last_day)
        ≡ c ∷ others))
    × IsTextOf c (mail_of (pass_with last_day))
    × ((t : Send) (message_id : ℕ) (uuid : List ℕ)
        → t.org_id ≡ 1
        → t.lead_id ≡ c.lead.id
        → t.kind ≡ c.draft.kind
        → (r : Refusal) × (claim_send no_digest t message_id uuid (pass_with last_day).db
            ≡ ok (refused r, (pass_with last_day).db)))
send_one-claim_send_example =
    send_one-claim_send kolkata world 1 office wednesday (mail_of (pass_with last_day))
      default_settings (ready_db last_day) no_window left_last stopped_last

-- A pool of the campaign's own mailbox and another with twice its weight.
abbrev pool_db : Db
pool_db = record (ready_db default_settings) {
  campaign_mailboxes = record { org_id = 1; campaign_id = 3; mailbox_id = 4; weight = 2 } ∷ [];
}

pool_for-campaign_ids_for_example :
    elem 4
      (map (λ (p : PoolMember). p.mailbox_id) (pool_for 1 (campaign_with default_settings) pool_db))
    ≡ elem 3 (campaign_ids_for 1 4 pool_db)
pool_for-campaign_ids_for_example =
    pool_for-campaign_ids_for 1 4 (campaign_with default_settings) pool_db refl (refl, tt) refl

abbrev members : List PoolMember
members =
    record { mailbox_id = 2; weight = 1; primary = true }
    ∷ record { mailbox_id = 4; weight = 2; primary = false }
    ∷ []

choose-IsLightest_example :
    ((i : ℕ)
      → choose members ((2, 3) ∷ (4, 5) ∷ []) (2 ∷ 4 ∷ []) ≡ some i
      → (m : PoolMember) × (m.mailbox_id ≡ i)
        × IsLightest members ((2, 3) ∷ (4, 5) ∷ []) (2 ∷ 4 ∷ []) m)
    × (choose members ((2, 3) ∷ (4, 5) ∷ []) (2 ∷ 4 ∷ []) ≡ none
        → (n : PoolMember) → Among n members
        → elem n.mailbox_id (2 ∷ 4 ∷ []) ≡ false)
choose-IsLightest_example = choose-IsLightest members ((2, 3) ∷ (4, 5) ∷ []) (2 ∷ 4 ∷ [])

-- A claim whose worker died, twenty minutes later: the mailbox has the message in its sent folder.
abbrev stuck_db : Db
stuck_db = record claimed_db { campaigns = campaign_with default_settings ∷ [] }

abbrev in_sent : List ℕ → Option (List ℕ)
in_sent header = some (codes "Sent")

abbrev later : ℕ
later = 1200000200

abbrev recovered : RecoveryReport
recovered = record {
  rows_checked = 1;
  resolutions =
      record { message_id = 11; outcome = confirmed; detail = codes "found in Sent" } ∷ [];
}

recovered_one : (recover_stuck_sends kolkata in_sent (some 1) later stuck_db).0 ≡ ok recovered
unfolding recover_stuck_sends resolve_all resolve mark_recovered recovered_follow_at
    find_stuck_sending record_event save_lead new_message followup_due_at in_window is_send_day
    mark_sent locked_message sent_message transition lock_lead save_message send_move assert_allowed
    is_allowed
recovered_one = refl

stuck_apart : Unique (λ (m : Message). m.id) stuck_db.messages
unfolding record_event save_lead
stuck_apart = (refl, tt)

recover_stuck_sends-IsRecovered_example :
    IsRecovered in_sent
      (some 1)
      later
      stuck_db
      recovered
      (recover_stuck_sends kolkata in_sent (some 1) later stuck_db).1
recover_stuck_sends-IsRecovered_example =
    recover_stuck_sends-IsRecovered kolkata in_sent (some 1) later stuck_db recovered stuck_apart
      recovered_one

-- A campaign that starts at 10 and ends at 20, seen at 12 and again at 25.
abbrev dated_db : Db
dated_db = record start {
  campaigns =
      record spring { status = CampaignStatus.scheduled; starts_at = some 10; ends_at = some 20 }
      ∷ [];
}

run_campaign_clock-run_campaign_clock_example :
    ((run_campaign_clock 25 (run_campaign_clock 12 dated_db).1).1.campaigns
      ≡ (run_campaign_clock 25 dated_db).1.campaigns)
    × (run_campaign_clock 12 (run_campaign_clock 12 dated_db).1
        ≡ (empty_report, (run_campaign_clock 12 dated_db).1))
    × (length (run_campaign_clock 12 dated_db).1.events
        ≡ length dated_db.events
          + (let r = (run_campaign_clock 12 dated_db).0 in r.started + r.completed + r.parked))
run_campaign_clock-run_campaign_clock_example =
    run_campaign_clock-run_campaign_clock 12 25 dated_db (omega arith)

started_once : (run_campaign_clock 12 dated_db).0.started ≡ 1
unfolding run_campaign_clock clock_report is_scheduled target_of scheduled_status counted
started_once = refl

abbrev offered : Candidate
offered = record {
  lead = ada;
  draft = approved_draft;
  campaign = campaign_with default_settings;
  persona = signer;
  settings = default_settings;
}

abbrev for_ada : Candidate → Bool
for_ada c = c.lead.id == 7

count-interleave_example :
    count for_ada (interleave 100 (offered ∷ offered ∷ [])) ≡ count for_ada (offered ∷ offered ∷ [])
count-interleave_example = count-interleave for_ada 100 (offered ∷ offered ∷ [])
