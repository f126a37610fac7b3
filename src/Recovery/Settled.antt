-- ===== src/Recovery/Settled.antt =====
-- app/services/reply/recovery.py: a row that was resolved is not `sending` any more.
use outreach_automation.Prelude.{
  ℕ, false, ◌≡◌, refl, sym, ap, subst, ◌∙◌, inl, inr, List, [], ◌∷◌, ◌++◌, codes, Option, none,
  some, arith, take, Result, ok, err, Option-cases, through, bind-ok, ok-pair, ok-eq,
}
use outreach_automation.Time.{Zone}
use outreach_automation.Db.{Db, Message, MessageStatus, Lead}
use outreach_automation.Db.Table.{find, find-holds, update_where}
use outreach_automation.Sendable.{is_sending}
use outreach_automation.Lead.Transition.{StateError, Move, transition, save_lead, record_event}
use outreach_automation.Lead.Transition.Effect.{transition-Done}
use outreach_automation.Sends.{
  MarkError, is_message, locked_message, save_message, sent_message, lead_of, or_raise, send_move,
  mark_sent, mark_unknown,
}
use outreach_automation.Recovery.{
  no_header_note, not_found_note, recovered_note, or_mark, own_message, recovered_follow_at, Stuck,
  Resolution, Outcome, confirmed, unknown, resolve, mark_recovered, leave_unknown,
}

-- The rows of one message were replaced by a row of a status, which is not `sending`.
pub record Settles (org_id message_id : ℕ) (status : MessageStatus) (db db' : Db) : Type 0 where
  pub row : Message
  pub own_id : row.id ≡ message_id
  pub recorded : row.status ≡ status
  pub settled : is_sending row.status ≡ false
  pub messages : db'.messages ≡ update_where (is_message org_id message_id) (λ _. row) db.messages

transition-messages :
    (m : Move) (db db' : Db) (l : Lead) → transition m db ≡ ok (l, db') → db'.messages ≡ db.messages
unfolding record_event save_lead
transition-messages m db db' l h = ap (λ (d : Db). d.messages) (transition-Done m db l db' h).saved

or_raise-ok :
    (r : Result StateError (Lead × Db)) (l : Lead) (db : Db)
    → or_raise r ≡ ok (l, db)
    → r ≡ ok (l, db)
or_raise-ok (ok a) l db h = cc
or_raise-ok (err e) l db h = absurd (cc)

or_mark-ok : (r : Result MarkError (Message × Db)) (a : Message × Db) → or_mark r ≡ ok a → r ≡ ok a
or_mark-ok (ok b) a h = cc
or_mark-ok (err e) a h = absurd (cc)

module _ (org_id message_id : ℕ) (db : Db) where
  found_row :
      (m : Message)
      → locked_message org_id message_id db ≡ ok m
      → (m.org_id ≡ org_id) × (m.id ≡ message_id)
  unfolding locked_message
  found_row m h = elim (Option-cases (find (is_message org_id message_id) db.messages)) [
    | inl missing ↦ absurd (ground (arith, h, missing))
    | inr (n, found) ↦
        let holds = find-holds (is_message org_id message_id) db.messages n found in
        ground (arith, h, found, holds)
  ]

  saved_row :
      (m : Message)
      → (m.org_id ≡ org_id) × (m.id ≡ message_id)
      → (save_message m db).messages
        ≡ update_where (is_message org_id message_id) (λ _. m) db.messages
  unfolding save_message
  saved_row m (same_org, same_id) =
      ap (λ o. update_where (is_message o m.id) (λ _. m) db.messages) same_org
      ∙ ap (λ i. update_where (is_message org_id i) (λ _. m) db.messages) same_id

  mark_unknown-Settles :
      (note : List ℕ) (m : Message) (db' : Db)
      → mark_unknown org_id message_id note db ≡ ok (m, db')
      → Settles org_id message_id MessageStatus.unknown db db'
  unfolding mark_unknown record_event
  mark_unknown-Settles note m db' h = elim (bind-ok (locked_message org_id message_id db) _ _ h) [
    | through found e k ↦ record {
      row = record found { status = MessageStatus.unknown; smtp_response = some (take 1000 note) };
      own_id = (found_row found e).1;
      recorded = refl;
      settled = refl;
      messages =
          sym (ap (λ (d : Db). d.messages) (ok-pair k).1)
          ∙ saved_row
              (record found {
                status = MessageStatus.unknown;
                smtp_response = some (take 1000 note);
              })
              (found_row found e);
    }
  ]

  mark_sent-Settles :
      (response : Option (List ℕ)) (next_action_at : Option ℕ) (now : ℕ) (m : Message) (db' : Db)
      → mark_sent org_id message_id response next_action_at now db ≡ ok (m, db')
      → Settles org_id message_id MessageStatus.sent db db'
  unfolding mark_sent save_message save_lead sent_message
  mark_sent-Settles response next_action_at now m db' h =
      elim (bind-ok (locked_message org_id message_id db) _ _ h) [
        | through found e k ↦ elim (bind-ok (lead_of (sent_message response now found)) _ _ k) [
          | through lead_id of_lead k' ↦
              elim (bind-ok
                (or_raise (
                  transition
                    (send_move org_id lead_id (sent_message response now found) next_action_at now)
                    (save_message (sent_message response now found) db)))
                _ _ k') [
                  | through (lead, moved) done k'' ↦ record {
                    row = sent_message response now found;
                    own_id = (found_row found e).1;
                    recorded = refl;
                    settled = refl;
                    messages =
                        sym (ap (λ (d : Db). d.messages) (ok-pair k'').1)
                        ∙ transition-messages
                            (send_move org_id lead_id (sent_message response now found)
                              next_action_at now)
                            (save_message (sent_message response now found) db) moved lead
                            (or_raise-ok _ lead moved done)
                        ∙ saved_row (sent_message response now found) (found_row found e);
                  }
                ]
        ]
      ]

-- What the source means to answer for a stuck row.
unfoldable pub answer : (List ℕ → Option (List ℕ)) → Stuck → Resolution
answer find_by_message_id c = record {
  message_id = c.message_id;
  outcome = elim c.header [
    | [] ↦ unknown
    | x ∷ xs ↦ elim (find_by_message_id (x ∷ xs)) [ none ↦ unknown | some folder ↦ confirmed ]
  ];
  detail = elim c.header [
    | [] ↦ codes "no Message-ID stored"
    | x ∷ xs ↦ elim (find_by_message_id (x ∷ xs)) [
      | none ↦ codes "not found in the mailbox"
      | some folder ↦ codes "found in " ++ folder
    ]
  ];
}

-- The status that a row has after an answer.
abbrev pub status_after : Outcome → MessageStatus
status_after confirmed = MessageStatus.sent
status_after unknown = MessageStatus.unknown

module _ (z : Zone) (find_by_message_id : List ℕ → Option (List ℕ)) (now : ℕ) where
  leave_unknown-Settles :
      (c : Stuck) (note detail : List ℕ) (db db' : Db) (r : Resolution)
      → leave_unknown c note detail db ≡ ok (r, db')
      → (r ≡ record { message_id = c.message_id; outcome = unknown; detail = detail })
        × Settles c.org_id c.message_id MessageStatus.unknown db db'
  unfolding leave_unknown
  leave_unknown-Settles c note detail db db' r h =
      elim (bind-ok (or_mark (mark_unknown c.org_id c.message_id note db)) _ _ h) [
        | through (m, db₁) done k ↦ (
          sym (ok-pair k).0,
          subst (Settles c.org_id c.message_id MessageStatus.unknown db) (ok-pair k).1 (
              mark_unknown-Settles c.org_id c.message_id db note m db₁
                (or_mark-ok _ (m, db₁) done)),
        )
      ]

  mark_recovered-Settles :
      (org_id message_id : ℕ) (folder : List ℕ) (db db' : Db)
      → mark_recovered z org_id message_id folder now db ≡ ok db'
      → Settles org_id message_id MessageStatus.sent db db'
  unfolding mark_recovered
  mark_recovered-Settles org_id message_id folder db db' h =
      elim (bind-ok (own_message org_id message_id db) _ _ h) [
        | through message e k ↦ elim (bind-ok (recovered_follow_at z message db) _ _ k) [
          | through follow_at e' k' ↦
              elim (bind-ok
                (or_mark
                  (mark_sent org_id message_id (some (recovered_note folder)) follow_at now db))
                _ _ k') [
                  | through (m, db₁) done k'' ↦
                      let s : Settles org_id message_id MessageStatus.sent db db₁ =
                        mark_sent-Settles org_id message_id db (some (recovered_note folder))
                          follow_at now m db₁ (or_mark-ok _ (m, db₁) done) in
                      record {
                        row = s.row;
                        own_id = s.own_id;
                        recorded = s.recorded;
                        settled = s.settled;
                        messages = sym (ap (λ (d : Db). d.messages) (ok-eq k'')) ∙ s.messages;
                      }
                ]
        ]
      ]

  abbrev pub Answered : Stuck → Db → Db → Resolution → Type 0
  Answered c db db' r =
      (r ≡ answer find_by_message_id c)
      × Settles c.org_id c.message_id (status_after (answer find_by_message_id c).outcome) db db'

  pub resolve-Settles :
      (c : Stuck) (db db' : Db) (r : Resolution)
      → resolve z find_by_message_id now c db ≡ ok (r, db')
      → Answered c db db' r
  unfolding resolve answer
  resolve-Settles c db db' r h = go c.header refl
    where
      unsure :
          (note detail : List ℕ)
          → leave_unknown c note detail db ≡ ok (r, db')
          → answer find_by_message_id c
            ≡ record { message_id = c.message_id; outcome = unknown; detail = detail }
          → Answered c db db' r
      unsure note detail k a =
          let (e, s) = leave_unknown-Settles c note detail db db' r k in
          (
            e ∙ sym a,
            subst (λ x. Settles c.org_id c.message_id x db db')
                (sym (ap (λ (x : Resolution). status_after x.outcome) a)) s,
          )

      go : (l : List ℕ) → c.header ≡ l → Answered c db db' r
      go [] e =
          unsure no_header_note (codes "no Message-ID stored") (ground (arith, h, e))
            (ground (arith, e))
      go (x ∷ xs) e = elim (Option-cases (find_by_message_id (x ∷ xs))) [
        | inl missing ↦
            unsure (not_found_note (x ∷ xs)) (codes "not found in the mailbox")
              (ground (arith, h, e, missing)) (ground (arith, e, missing))
        | inr (folder, found) ↦
            elim (bind-ok {B = Resolution × Db}
              (mark_recovered z c.org_id c.message_id folder now db)
              (λ d. ok (
                record {
                  message_id = c.message_id;
                  outcome = confirmed;
                  detail = codes "found in " ++ folder;
                },
                d,
              ))
              (r, db') (ground (arith, h, e, found))) [
                | through db₁ done k ↦ (
                  sym (ok-pair k).0 ∙ ground (arith, e, found),
                  subst (λ x. Settles c.org_id c.message_id x db db') (ground (arith, e, found))
                      (subst (Settles c.org_id c.message_id MessageStatus.sent db) (ok-pair k).1
                        (mark_recovered-Settles c.org_id c.message_id folder db db₁ done)),
                )
              ]
      ]
