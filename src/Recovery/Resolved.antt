-- ===== src/Recovery/Resolved.antt =====
-- app/services/reply/recovery.py, `recover_stuck_sends`: what a whole pass leaves.
use outreach_automation.Prelude.{
  All, ℕ, suc, ◌+◌, Bool, true, false, not, ◌&&◌, ◌≡◌, refl, sym, ap, subst, ◌∙◌, inl, inr, List,
  [], ◌∷◌, map, Option, arith, ltb, ◌==◌, any, select, sort_by, length, Result, ok, ◌>>=◌,
  Result-cases, Bool-cases, through, bind-ok, ok-eq,
}
use outreach_automation.Time.{Zone}
use outreach_automation.Db.{Db, Message}
use outreach_automation.Db.Table.{update_where}
use outreach_automation.Sendable.{is_outbound, is_sending}
use outreach_automation.Sends.{of_org, is_message, find_stuck_sending}
use outreach_automation.Recovery.{
  Stuck, stuck_row, Resolution, RecoveryReport, RecoveryError, grace, resolve, resolve_all,
  recover_stuck_sends,
}
use outreach_automation.Db.Unique.{Unique}
use outreach_automation.Recovery.Recorded.{
  any-sort_by, Recorded, resolve_all-Recorded, Unique-stuck, All-stuck,
}
use outreach_automation.Recovery.Settled.{Settles, answer, status_after, resolve-Settles}

-- A row that waits for an answer: it is stuck, and it is not in the list of those still to be asked.
abbrev same_row : Message → Stuck → Bool
same_row m c = (m.id == c.message_id) && (m.org_id == c.org_id)

abbrev is_left : (Message → Bool) → List Stuck → Message → Bool
is_left p cs m = p m && not (any (same_row m) cs)

abbrev is_stuck : Option ℕ → ℕ → Message → Bool
is_stuck org_id now m =
    is_outbound m.direction
    && is_sending m.status
    && ltb (m.created_at + grace) now
    && of_org org_id m.org_id

left-update :
    (org_id : Option ℕ) (now : ℕ) (c : Stuck) (cs : List Stuck) (row : Message) (ms : List Message)
    → is_sending row.status ≡ false
    → any (is_left (is_stuck org_id now) (c ∷ cs)) ms ≡ false
    → any
        (is_left (is_stuck org_id now) cs)
        (update_where (is_message c.org_id c.message_id) (λ _. row) ms)
      ≡ false
left-update org_id now c cs row [] h k = refl
left-update org_id now c cs row (m ∷ ms) h k =
    ground (arith, h, k, left-update org_id now c cs row ms h)

no_stuck :
    (p : Message → Bool) (ms : List Message) → any (is_left p []) ms ≡ false → select p ms ≡ []
no_stuck p [] h = refl
no_stuck p (m ∷ ms) h = ground (arith, no_stuck p ms)

any-stuck_row :
    (m : Message) (ms : List Message)
    → any (same_row m) (map stuck_row ms)
      ≡ any (λ (n : Message). (m.id == n.id) && (m.org_id == n.org_id)) ms
any-stuck_row m [] = refl
any-stuck_row m (n ∷ ns) = ground (arith, any-stuck_row m ns)

-- Every row that a test selects is in a list that has all selected rows.
none_missed :
    (p : Message → Bool) (cs : List Stuck) (ms : List Message)
    → ((m : Message)
        → any (λ (n : Message). (m.id == n.id) && (m.org_id == n.org_id)) (select p ms) ≡ true
        → any (same_row m) cs ≡ true)
    → any (is_left p cs) ms ≡ false
none_missed p cs [] h = refl
none_missed p cs (m ∷ ms) h = elim (Bool-cases (p m)) [
  | inl taken ↦ ground (
    arith,
    taken,
    h m (ground (arith, taken)),
    none_missed p cs ms (λ n k. h n (ground (arith, taken, k))),
  )
  | inr passed_by ↦
      ground (arith, passed_by, none_missed p cs ms (λ n k. h n (ground (arith, passed_by, k))))
]

module _ (org_id : Option ℕ) (now : ℕ) (db : Db) where
  all_read :
      any
        (is_left (is_stuck org_id now) (map stuck_row (find_stuck_sending org_id grace now db)))
        db.messages
      ≡ false
  unfolding find_stuck_sending
  all_read =
      none_missed (is_stuck org_id now) (map stuck_row (find_stuck_sending org_id grace now db))
        db.messages
        (λ m h.
          any-stuck_row m (find_stuck_sending org_id grace now db)
          ∙ any-sort_by (λ (n : Message). (m.id == n.id) && (m.org_id == n.org_id))
              (λ (a b : Message). ltb a.created_at b.created_at)
              (select (is_stuck org_id now) db.messages)
          ∙ h)

  none_stuck_left :
      any (is_left (is_stuck org_id now) []) db.messages ≡ false
      → find_stuck_sending org_id grace now db ≡ []
  unfolding find_stuck_sending
  none_stuck_left h =
      ap (sort_by (λ (a b : Message). ltb a.created_at b.created_at))
        (no_stuck (is_stuck org_id now) db.messages h)

-- What a pass that comes to its end has done: it answered for every row that was stuck, in the order
-- of their age, and left each with the status of its answer; and no row is stuck still.
pub record IsRecovered (find_by_message_id : List ℕ → Option (List ℕ)) (org_id : Option ℕ) (now : ℕ)
    (db : Db) (report : RecoveryReport) (db' : Db) : Type 0 where
  pub answers :
      report.resolutions
      ≡ map (answer find_by_message_id) (map stuck_row (find_stuck_sending org_id grace now db))
  pub checked_all : report.rows_checked ≡ length (find_stuck_sending org_id grace now db)
  pub recorded :
      All
        (λ (m : Message).
          Recorded
            (status_after (answer find_by_message_id (stuck_row m)).outcome)
            m.org_id
            m.id
            db'.messages)
        (find_stuck_sending org_id grace now db)
  pub none_stuck : find_stuck_sending org_id grace now db' ≡ []
  pub no_new_row : length db'.messages ≡ length db.messages

length-update_where :
    (q : Message → Bool) (f : Message → Message) (ms : List Message)
    → length (update_where q f ms) ≡ length ms
length-update_where q f [] = refl
length-update_where q f (m ∷ ms) = ap suc (length-update_where q f ms)

length-stuck : (ms : List Message) → length (map stuck_row ms) ≡ length ms
length-stuck [] = refl
length-stuck (m ∷ ms) = ap suc (length-stuck ms)

module _ (z : Zone) (find_by_message_id : List ℕ → Option (List ℕ)) (org_id : Option ℕ)
    (now : ℕ) where
  abbrev IsDone : List Stuck → Db → List Resolution → Type 0
  IsDone cs db rs =
      (rs ≡ map (answer find_by_message_id) cs)
      × (any (is_left (is_stuck org_id now) [])
            (resolve_all z find_by_message_id now cs db).1.messages
          ≡ false)
      × (length (resolve_all z find_by_message_id now cs db).1.messages ≡ length db.messages)

  -- One row answered, and the rest of the pass.
  resolve_all-step :
      (c : Stuck) (cs : List Stuck) (db db₁ : Db) (r : Resolution) (rs : List Resolution)
      → any (is_left (is_stuck org_id now) (c ∷ cs)) db.messages ≡ false
      → resolve z find_by_message_id now c db ≡ ok (r, db₁)
      → (r ≡ answer find_by_message_id c)
        × Settles c.org_id c.message_id (status_after (answer find_by_message_id c).outcome) db db₁
      → (resolve_all z find_by_message_id now (c ∷ cs) db).0 ≡ ok rs
      → ((rs' : List Resolution)
          → (resolve_all z find_by_message_id now cs db₁).0 ≡ ok rs'
          → any (is_left (is_stuck org_id now) cs) db₁.messages ≡ false
          → IsDone cs db₁ rs')
      → IsDone (c ∷ cs) db rs
  unfolding resolve_all
  resolve_all-step c cs db db₁ r rs k done (answered, s) h rest =
      elim (bind-ok (resolve_all z find_by_message_id now cs db₁).0 (λ rs'. ok (r ∷ rs')) rs
        (sym (ap (λ (x : Result RecoveryError (List Resolution) × Db). x.0) step) ∙ h)) [
          | through rs' e k' ↦
              let (later, none_stuck, size) = rest rs' e left in
              (
                sym (ok-eq k')
                    ∙ ap (λ x. x ∷ rs') answered
                    ∙ ap (λ xs. answer find_by_message_id c ∷ xs) later,
                ap
                      (λ (x : Result RecoveryError (List Resolution) × Db).
                        any (is_left (is_stuck org_id now) []) x.1.messages)
                      step
                    ∙ none_stuck,
                ap (λ (x : Result RecoveryError (List Resolution) × Db). length x.1.messages) step
                    ∙ size
                    ∙ ap length s.messages
                    ∙ length-update_where (is_message c.org_id c.message_id) (λ x. s.row)
                        db.messages,
              )
        ]
    where
      step : resolve_all z find_by_message_id now (c ∷ cs) db ≡ (
        (resolve_all z find_by_message_id now cs db₁).0 >>= λ rs'. ok (r ∷ rs'),
        (resolve_all z find_by_message_id now cs db₁).1,
      )
      step = ground (arith, done)

      left : any (is_left (is_stuck org_id now) cs) db₁.messages ≡ false
      left =
          subst (λ ms. any (is_left (is_stuck org_id now) cs) ms ≡ false) (sym s.messages)
            (left-update org_id now c cs s.row db.messages s.settled k)

  resolve_all-left :
      (cs : List Stuck) (db : Db) (rs : List Resolution)
      → (resolve_all z find_by_message_id now cs db).0 ≡ ok rs
      → any (is_left (is_stuck org_id now) cs) db.messages ≡ false
      → IsDone cs db rs
  unfolding resolve_all
  resolve_all-left [] db rs h k = (sym (ok-eq h), k, refl)
  resolve_all-left (c ∷ cs) db rs h k =
      elim (Result-cases (resolve z find_by_message_id now c db)) [
        | inl (e, failed) ↦ absurd (ground (arith, h, failed))
        | inr ((r, db₁), done) ↦
            resolve_all-step c cs db db₁ r rs k done
              (resolve-Settles z find_by_message_id now c db db₁ r done) h (resolve_all-left cs db₁)
      ]

  -- A pass that comes to its end has answered for every row that was stuck, as confirmed exactly if
  -- the row has a Message-ID that the mailbox has. It leaves the row of each with the status of its
  -- answer, `sent` if confirmed and else `unknown`; no row is stuck any more, and the messages are as
  -- many as before. The messages' ids were distinct.
  pub recover_stuck_sends-IsRecovered :
      (db : Db) (report : RecoveryReport)
      → Unique (λ (m : Message). m.id) db.messages
      → (recover_stuck_sends z find_by_message_id org_id now db).0 ≡ ok report
      → IsRecovered find_by_message_id org_id now db report
          (recover_stuck_sends z find_by_message_id org_id now db).1
  unfolding recover_stuck_sends
  recover_stuck_sends-IsRecovered db report u h =
      elim (bind-ok (resolve_all z find_by_message_id now stuck db).0
        (λ rs. ok (record { rows_checked = length stuck; resolutions = rs })) report h) [
          | through rs e k ↦ recovered rs e k
        ]
    where
      stuck : List Stuck
      stuck = map stuck_row (find_stuck_sending org_id grace now db)

      start : any (is_left (is_stuck org_id now) stuck) db.messages ≡ false
      start = all_read org_id now db

      recovered :
          (rs : List Resolution)
          → (resolve_all z find_by_message_id now stuck db).0 ≡ ok rs
          → ◌≡◌ {A = Result RecoveryError RecoveryReport}
              (ok (record { rows_checked = length stuck; resolutions = rs }))
              (ok report)
          → IsRecovered find_by_message_id org_id now db report
              (resolve_all z find_by_message_id now stuck db).1
      recovered rs e k =
          let (answers, none_left, size) = resolve_all-left stuck db rs e start in
          record {
            answers = sym (ap (λ (x : RecoveryReport). x.resolutions) (ok-eq k)) ∙ answers;
            checked_all =
                sym (ap (λ (x : RecoveryReport). x.rows_checked) (ok-eq k))
                ∙ length-stuck (find_stuck_sending org_id grace now db);
            recorded = All-stuck _ _ (
                resolve_all-Recorded z find_by_message_id now stuck db rs e
                  (Unique-stuck org_id now db u));
            none_stuck = none_stuck_left org_id now _ none_left;
            no_new_row = size;
          }
