-- ===== src/Lib.antt =====
-- The outreach automation backend: leads move through a state machine while e-mails to them are
-- drafted, approved by a person, sent inside a campaign's window, followed up and answered.
--
-- The parts and how they interact. The job queue (app/db/queue.py) hands work to workers. The send
-- loop (app/worker/send_loop.py) asks the pool of mailboxes (app/services/mailboxes/pool.py) whose
-- work a mailbox may do, the scheduling functions (app/domain/scheduling.py) whether the window is
-- open, and the outbox (app/db/outbox.py) for the right to send one e-mail; the outbox locks the lead,
-- checks the stored state, writes a message that is `sending`, and once the mail left moves the lead
-- through the single writer of its state (app/db/state.py), which asks the transition table
-- (app/domain/state.py) and records an event. A draft is generated and checked
-- (app/services/drafting/generator.py), stored as a new version, and judged by a reviewer
-- (app/db/drafts.py). A send that was interrupted is resolved by asking the mailbox
-- (app/services/reply/recovery.py). The lifecycle pass (app/services/lifecycle.py) queues
-- follow-ups that are due and closes leads that stay silent. A reply is labelled by rules and a model
-- (app/domain/reply.py); the reply service (app/services/reply/service.py) acts on the label, and the
-- label gives an outcome (app/domain/outcome.py). The settings of a campaign (app/domain/campaign.py)
-- and its dates (app/domain/campaign_schedule.py), which a clock applies
-- (app/services/campaign_clock.py), steer all this.
--
-- Files and code.
--   Prelude: shared names, Boolean tests, lists, texts, results.
--   Time: instants, wall times, dates and zones, for the standard library's datetime.
--   Campaign.Settings, Campaign.Status: app/domain/campaign.py, app/domain/campaign_schedule.py.
--   Scheduling: app/domain/scheduling.py, with a file of proofs for each group of its functions.
--   Lead.State, Lead.Transition: app/domain/state.py, app/db/state.py.
--   Db: the rows of app/db/models.py that the code uses, and tables as lists of rows.
--   Jobs, Queue: app/db/queue.py (a new job; the other operations). Queue.Rows has a step relation
--     with one step for each operation.
--   Address, Sendable, Outbox, Sends: app/db/outbox.py (texts, the checks, the claim, its outcomes).
--   Drafting: app/services/drafting/generator.py, with the shapes of schema.py and the report of
--     validate.py.
--   Drafts: app/db/drafts.py (save_draft); Drafts.Review (approve, reject, set_attach),
--     Drafts.Listing (the review queue, bulk_approve), Drafts.Questions. Drafts.Desk holds the
--     abstract desk of one lead and kind that the operations refine; Drafts.Steps what they do to the
--     table.
--   Pool: app/services/mailboxes/pool.py.
--   SendLoop: app/worker/send_loop.py up to the order of the candidates; SendLoop.Headers: the
--     headers of a thread; SendLoop.One: `send_one`, a pass whose result says what was committed and
--     what left, also when an exception ends it.
--   Recovery: app/services/reply/recovery.py, on any search of a mailbox.
--   Lifecycle, CampaignClock: app/services/lifecycle.py, app/services/campaign_clock.py.
--   Reply, LeadOutcome: app/domain/reply.py, app/domain/outcome.py.
--   ReplyAct: `_act`, `_move` and `_defer` of app/services/reply/service.py, and `add_suppression` of
--     app/db/repo.py; the matching of a reply to its lead, before these, is left out.
--   Tests: runs on concrete inputs.
-- Functions keep the source's names. A session is the database that it reads and writes, passed
-- along explicitly; an exception is an error value, after which the caller keeps the old database,
-- as a rolled-back transaction does. The row lock of a lead is what makes a claim or a transition
-- one step, so that interleavings are sequences of steps.
--
-- Bounds. An instant is a number of microseconds, which Python's datetime holds exactly. The search
-- for an open window walks 366 days, as the source's loop does, and reports `none` where the source
-- raises. `deal`, the interleaving of the send loop, has as fuel one round for each candidate, and each
-- round that finds one takes at least one. The other loops walk a list or a span of days.
--
-- Outside the model. The zone database, the digest of erased addresses, random identifiers and which
-- rows other transactions have locked are arguments. Texts are lists of code points, and `lower` is
-- that of ASCII and of the two characters that become ASCII letters. Ties that a query leaves open
-- are broken by id or by the order of the table. The SMTP server, the
-- logins and the pause between sends (floats and a random source) are arguments of the send loop, and
-- one zone stands for the zones of all settings. The network, the prompts, the HTTP layer and the
-- services around the core are left out.
pub mod Prelude
pub mod Time
pub mod Campaign
pub mod Scheduling
pub mod Lead
pub mod Db
pub mod Drafting
pub mod Drafts
pub mod Jobs
pub mod Queue
pub mod Address
pub mod Sendable
pub mod Outbox
pub mod Sends
pub mod Pool
pub mod SendLoop
pub mod Lifecycle
pub mod Reply
pub mod ReplyAct
pub mod LeadOutcome
pub mod Tests
pub mod Recovery
pub mod CampaignClock
