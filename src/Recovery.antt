-- ===== src/Recovery.antt =====
-- app/services/reply/recovery.py: sends that were interrupted are resolved by asking the mailbox. The
-- search of a mailbox for a Message-ID is an argument, which answers with a folder or with none.
pub mod Settled
pub mod Recorded
pub mod Resolved
use outreach_automation.Prelude.{
  ℕ, ◌*◌, ◌+◌, Bool, true, false, not, ◌&&◌, List, [], ◌∷◌, ◌++◌, map, Option, none, some, codes,
  ltb, ◌==◌, if◌then◌else◌, count, length, Result, ok, err, ◌>>=◌, ◌>>◌,
}
use outreach_automation.Time.{Zone, minute}
use outreach_automation.Scheduling.{followup_due_at}
use outreach_automation.Db.{
  Db, Lead, Campaign, Message, MessageKind, initial, followup, reply, Draft, DraftStatus,
}
use outreach_automation.Db.Table.{find, update_where}
use outreach_automation.Sends.{MarkError, mark_sent, mark_unknown, find_stuck_sending}

-- `SENT_FOLDERS`, joined by commas.
abbrev pub sent_folders : List ℕ
sent_folders = codes "[Gmail]/Sent Mail, Sent, INBOX"

abbrev pub grace : ℕ
grace = 15 * minute

pub data Outcome : Type 0 where
  confirmed unknown : Outcome

pub record Resolution : Type 0 where
  pub message_id : ℕ
  pub outcome : Outcome
  pub detail : List ℕ

pub record RecoveryReport : Type 0 where
  pub rows_checked : ℕ
  pub resolutions : List Resolution

abbrev is_confirmed : Resolution → Bool
is_confirmed r = elim r.outcome [ confirmed ↦ true | unknown ↦ false ]

unfoldable pub confirmed_sent : RecoveryReport → ℕ
confirmed_sent r = count is_confirmed r.resolutions

unfoldable pub needs_human : RecoveryReport → ℕ
needs_human r = count (λ x. not (is_confirmed x)) r.resolutions

pub data RecoveryError : Type 0 where
  message_not_found : ℕ → RecoveryError
  invalid_settings no_window : RecoveryError
  mark_error : MarkError → RecoveryError

-- What was read of a stuck row: `message_id_hdr or ""`.
pub record Stuck : Type 0 where
  pub message_id : ℕ
  pub org_id : ℕ
  pub header : List ℕ

abbrev pub stuck_row : Message → Stuck
stuck_row m = record {
  message_id = m.id;
  org_id = m.org_id;
  header = elim m.message_id_hdr [ none ↦ [] | some h ↦ h ];
}

abbrev pub or_mark : {A : Type 0} → Result MarkError A → Result RecoveryError A
or_mark (ok a) = ok a
or_mark (err e) = err (mark_error e)

campaign_of : Option ℕ → Db → Option Campaign
campaign_of none db = none
campaign_of (some lead_id) db = elim (find (λ (l : Lead). l.id == lead_id) db.leads) [
  | none ↦ none
  | some lead ↦ find (λ (c : Campaign). c.id == lead.campaign_id) db.campaigns
]

-- The follow-up counts from when the message was made.
follow_in : Zone → Message → Option Campaign → Result RecoveryError (Option ℕ)
follow_in z m none = ok none
follow_in z m (some c) = elim c.settings [
  | none ↦ err invalid_settings
  | some s ↦
      if ltb 0 s.max_followups
      then elim (followup_due_at z m.created_at s none) [
        | none ↦ err no_window
        | some t ↦ ok (some t)
      ]
      else ok none
]

unfoldable pub recovered_follow_at : Zone → Message → Db → Result RecoveryError (Option ℕ)
unfolding campaign_of follow_in
recovered_follow_at z m db = elim m.kind [
  | initial ↦ follow_in z m (campaign_of m.lead_id db)
  | followup ↦ ok none
  | reply ↦ ok none
]

abbrev of_draft : ℕ → Option ℕ → Draft → Bool
of_draft org_id draft_id d =
    elim draft_id [ none ↦ false | some i ↦ d.id == i ] && (d.org_id == org_id)

abbrev pub draft_sent : ℕ → Option ℕ → Db → Db
draft_sent org_id draft_id db = record db {
  drafts =
      update_where (of_draft org_id draft_id)
        (λ (d : Draft). record d { status = DraftStatus.sent }) db.drafts;
}

abbrev pub own_message : ℕ → ℕ → Db → Result RecoveryError Message
own_message org_id message_id db = elim (find (λ (m : Message). m.id == message_id) db.messages) [
  | none ↦ err (message_not_found message_id)
  | some m ↦ if m.org_id == org_id then ok m else err (message_not_found message_id)
]

abbrev pub recovered_note : List ℕ → List ℕ
recovered_note found_in =
    codes "recovered: found in " ++ found_in ++ codes " by Message-ID after an interrupted send"

-- `_mark_sent`.
unfoldable pub mark_recovered : Zone → ℕ → ℕ → List ℕ → ℕ → Db → Result RecoveryError Db
mark_recovered z org_id message_id found_in now db = do
  message ← own_message org_id message_id db
  follow_at ← recovered_follow_at z message db
  (m, db') ← or_mark (mark_sent org_id message_id (some (recovered_note found_in)) follow_at now db)
  ok (draft_sent org_id message.draft_id db')

abbrev pub no_header_note : List ℕ
no_header_note = codes "no Message-ID was stored, so delivery cannot be confirmed from the mailbox"

abbrev pub not_found_note : List ℕ → List ℕ
not_found_note header =
    codes "Message-ID "
    ++ header
    ++ codes " was not found in "
    ++ sent_folders
    ++ codes "; it probably never left, but confirm before sending again"

-- `_mark_unknown`.
unfoldable pub leave_unknown : Stuck → List ℕ → List ℕ → Db → Result RecoveryError (Resolution × Db)
leave_unknown c note detail db = do
  (m, db') ← or_mark (mark_unknown c.org_id c.message_id note db)
  ok (record { message_id = c.message_id; outcome = unknown; detail = detail }, db')

unfoldable pub resolve :
    Zone → (List ℕ → Option (List ℕ)) → ℕ → Stuck → Db → Result RecoveryError (Resolution × Db)
resolve z find_by_message_id now c db = elim c.header [
  | [] ↦ leave_unknown c no_header_note (codes "no Message-ID stored") db
  | x ∷ xs ↦ elim (find_by_message_id (x ∷ xs)) [
    | none ↦ leave_unknown c (not_found_note (x ∷ xs)) (codes "not found in the mailbox") db
    | some folder ↦ do
      db' ← mark_recovered z c.org_id c.message_id folder now db
      ok (
        record {
          message_id = c.message_id;
          outcome = confirmed;
          detail = codes "found in " ++ folder;
        },
        db',
      )
  ]
]

-- Each row in its own transaction: an exception ends the pass, and what was done before it stays.
unfoldable pub resolve_all :
    Zone
    → (List ℕ → Option (List ℕ))
    → ℕ
    → List Stuck
    → Db
    → Result RecoveryError (List Resolution) × Db
resolve_all z find_by_message_id now [] db = (ok [], db)
resolve_all z find_by_message_id now (c ∷ cs) db = elim (resolve z find_by_message_id now c db) [
  | err e ↦ (err e, db)
  | ok r ↦
      let rest = resolve_all z find_by_message_id now cs r.1 in
      (rest.0 >>= λ rs. ok (r.0 ∷ rs), rest.1)
]

unfoldable pub recover_stuck_sends :
    Zone → (List ℕ → Option (List ℕ)) → Option ℕ → ℕ → Db → Result RecoveryError RecoveryReport × Db
unfolding resolve_all
recover_stuck_sends z find_by_message_id org_id now db =
    let stuck = map stuck_row (find_stuck_sending org_id grace now db) in
    let done = resolve_all z find_by_message_id now stuck db in
    (done.0 >>= λ rs. ok (record { rows_checked = length stuck; resolutions = rs }), done.1)
