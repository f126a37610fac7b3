-- ===== src/Recovery/Recorded.antt =====
-- app/services/reply/recovery.py: what the rows of the messages that a pass answered for hold when it
-- ends.
use outreach_automation.Prelude.{
  ℕ, Bool, true, false, ◌||◌, ◌≡◌, refl, sym, ap, subst, ◌∙◌, inl, inr, List, [], ◌∷◌, map, Option,
  arith, ltb, ◌==◌, ==_iff, if◌then◌else◌, All, any, select, insert_by, sort_by, ok, Result-cases,
  through, bind-ok,
}
use outreach_automation.Time.{Zone}
use outreach_automation.Db.{Db, Message, MessageStatus}
use outreach_automation.Db.Table.{update_where}
use outreach_automation.Db.Unique.{Unique, has}
use outreach_automation.Sends.{is_message, find_stuck_sending}
use outreach_automation.Recovery.{Stuck, stuck_row, Resolution, grace, resolve, resolve_all}
use outreach_automation.Recovery.Settled.{answer, status_after, resolve-Settles}

module _ (q : Message → Bool) (before : Message → Message → Bool) where
  pub any-insert_by :
      (m : Message) (ms : List Message) → any q (insert_by before m ms) ≡ (q m || any q ms)
  any-insert_by m [] = refl
  any-insert_by m (n ∷ ns) = ground (arith, any-insert_by m ns)

  pub any-sort_by : (ms : List Message) → any q (sort_by before ms) ≡ any q ms
  any-sort_by [] = refl
  any-sort_by (m ∷ ms) = ground (arith, any-insert_by m (sort_by before ms), any-sort_by ms)

-- The rows of a message have a status.
abbrev pub Recorded : MessageStatus → ℕ → ℕ → List Message → Type 0
Recorded status org_id message_id ms =
    All (λ (m : Message). is_message org_id message_id m ≡ true → m.status ≡ status) ms

Recorded-here :
    (status : MessageStatus) (org_id message_id : ℕ) (row : Message) (ms : List Message)
    → row.status ≡ status
    → Recorded status org_id message_id (update_where (is_message org_id message_id) (λ _. row) ms)
Recorded-here status org_id message_id row [] h = tt
Recorded-here status org_id message_id row (m ∷ ms) h =
    (here (is_message org_id message_id m) refl, Recorded-here status org_id message_id row ms h)
  where
    here :
        (b : Bool)
        → is_message org_id message_id m ≡ b
        → is_message org_id message_id (if b then row else m) ≡ true
        → (if b then row else m).status ≡ status
    here true e k = h
    here false e k = absurd (cc)

-- The update of a message with another id leaves them.
Recorded-other :
    (status : MessageStatus) (org_id message_id : ℕ) (o i : ℕ) (row : Message) (ms : List Message)
    → row.id ≡ i
    → (i == message_id) ≡ false
    → Recorded status org_id message_id ms
    → Recorded status org_id message_id (update_where (is_message o i) (λ _. row) ms)
Recorded-other status org_id message_id o i row [] own other h = tt
Recorded-other status org_id message_id o i row (m ∷ ms) own other (p, h) =
    (there (is_message o i m) p, Recorded-other status org_id message_id o i row ms own other h)
  where
    there :
        (b : Bool)
        → (is_message org_id message_id m ≡ true → m.status ≡ status)
        → is_message org_id message_id (if b then row else m) ≡ true
        → (if b then row else m).status ≡ status
    there true q k = absurd (ground (arith, own, other, k))
    there false q k = q k

module _ (z : Zone) (find_by_message_id : List ℕ → Option (List ℕ)) (now : ℕ) where
  -- A pass that comes to its end answered for the first row, and came to its end from there.
  data First (c : Stuck) (cs : List Stuck) (db : Db) : Type 0 where
    first :
        (r : Resolution) (db₁ : Db) (rs : List Resolution)
        → resolve z find_by_message_id now c db ≡ ok (r, db₁)
        → (resolve_all z find_by_message_id now cs db₁).0 ≡ ok rs
        → (resolve_all z find_by_message_id now (c ∷ cs) db).1
          ≡ (resolve_all z find_by_message_id now cs db₁).1
        → First c cs db

  resolve_all-First :
      (c : Stuck) (cs : List Stuck) (db : Db) (rs : List Resolution)
      → (resolve_all z find_by_message_id now (c ∷ cs) db).0 ≡ ok rs
      → First c cs db
  unfolding resolve_all
  resolve_all-First c cs db rs h = elim (Result-cases (resolve z find_by_message_id now c db)) [
    | inl (e, failed) ↦ absurd (ground (arith, h, failed))
    | inr ((r, db₁), done) ↦
        elim (bind-ok (resolve_all z find_by_message_id now cs db₁).0 (λ rs'. ok (r ∷ rs')) rs
          (ground (arith, h, done))) [
            | through rs' e k ↦ first r db₁ rs' done e (ground (arith, done))
          ]
  ]

  resolve_all-keeps :
      (status : MessageStatus) (org_id message_id : ℕ) (cs : List Stuck) (db : Db)
      (rs : List Resolution)
      → (resolve_all z find_by_message_id now cs db).0 ≡ ok rs
      → any (has (λ (c : Stuck). c.message_id) message_id) cs ≡ false
      → Recorded status org_id message_id db.messages
      → Recorded status org_id message_id (resolve_all z find_by_message_id now cs db).1.messages
  unfolding resolve_all
  resolve_all-keeps status org_id message_id [] db rs h apart k = k
  resolve_all-keeps status org_id message_id (c ∷ cs) db rs h apart k =
      elim (resolve_all-First c cs db rs h) [
        | first r db₁ rs' done later same ↦
            let (answered, s) = resolve-Settles z find_by_message_id now c db db₁ r done in
            subst (λ (d : Db). Recorded status org_id message_id d.messages) (sym same)
              (resolve_all-keeps status org_id message_id cs db₁ rs' later (ground (arith, apart)) (
                subst (Recorded status org_id message_id) (sym s.messages) (
                  Recorded-other status org_id message_id c.org_id c.message_id s.row db.messages
                    s.own_id (ground (arith, apart)) k)))
      ]

  pub resolve_all-Recorded :
      (cs : List Stuck) (db : Db) (rs : List Resolution)
      → (resolve_all z find_by_message_id now cs db).0 ≡ ok rs
      → Unique (λ (c : Stuck). c.message_id) cs
      → All
          (λ (c : Stuck).
            Recorded
              (status_after (answer find_by_message_id c).outcome)
              c.org_id
              c.message_id
              (resolve_all z find_by_message_id now cs db).1.messages)
          cs
  resolve_all-Recorded [] db rs h u = tt
  resolve_all-Recorded (c ∷ cs) db rs h (fresh, u) = elim (resolve_all-First c cs db rs h) [
    | first r db₁ rs' done later same ↦
        let (answered, s) = resolve-Settles z find_by_message_id now c db db₁ r done in
        let status : MessageStatus = status_after (answer find_by_message_id c).outcome in
        subst
          (λ (d : Db).
            All
              (λ (x : Stuck).
                Recorded (status_after (answer find_by_message_id x).outcome) x.org_id x.message_id
                  d.messages)
              (c ∷ cs))
          (sym same)
          (
            resolve_all-keeps status c.org_id c.message_id cs db₁ rs' later fresh (
                subst (Recorded status c.org_id c.message_id) (sym s.messages)
                  (Recorded-here status c.org_id c.message_id s.row db.messages s.recorded)),
            resolve_all-Recorded cs db₁ rs' later u,
          )
  ]

abbrev id_of : Message → ℕ
id_of m = m.id

any-select :
    (q p : Message → Bool) (ms : List Message) → any q ms ≡ false → any q (select p ms) ≡ false
any-select q p [] h = refl
any-select q p (m ∷ ms) h = ground (arith, any-select q p ms)

Unique-select :
    (p : Message → Bool) (ms : List Message) → Unique id_of ms → Unique id_of (select p ms)
Unique-select p [] u = tt
Unique-select p (m ∷ ms) (fresh, u) =
    kept (p m) (any-select (has id_of m.id) p ms fresh) (Unique-select p ms u)
  where
    kept :
        (b : Bool)
        → any (has id_of m.id) (select p ms) ≡ false
        → Unique id_of (select p ms)
        → Unique id_of (if b then m ∷ select p ms else select p ms)
    kept true f v = (f, v)
    kept false f v = v

Unique-insert_by :
    (before : Message → Message → Bool) (m : Message) (ms : List Message)
    → any (has id_of m.id) ms ≡ false
    → Unique id_of ms
    → Unique id_of (insert_by before m ms)
Unique-insert_by before m [] f u = (refl, tt)
Unique-insert_by before m (n ∷ ns) f (g, u) =
    put (before m n) (Unique-insert_by before m ns (ground (arith, f)) u)
      (any-insert_by (has id_of n.id) before m ns)
  where
    put :
        (b : Bool)
        → Unique id_of (insert_by before m ns)
        → any (has id_of n.id) (insert_by before m ns) ≡ ((m.id == n.id) || any (has id_of n.id) ns)
        → Unique id_of (if b then m ∷ n ∷ ns else n ∷ insert_by before m ns)
    put true v e = (f, (g, u))
    put false v e = (ground (arith, e, f, g, ==_iff m.id n.id, ==_iff n.id m.id), v)

Unique-sort_by :
    (before : Message → Message → Bool) (ms : List Message)
    → Unique id_of ms
    → Unique id_of (sort_by before ms)
Unique-sort_by before [] u = tt
Unique-sort_by before (m ∷ ms) (f, u) =
    Unique-insert_by before m (sort_by before ms) (any-sort_by (has id_of m.id) before ms ∙ f)
      (Unique-sort_by before ms u)

any-rows :
    (n : ℕ) (ms : List Message)
    → any (has (λ (c : Stuck). c.message_id) n) (map stuck_row ms) ≡ any (has id_of n) ms
any-rows n [] = refl
any-rows n (m ∷ ms) = ap (λ b. (m.id == n) || b) (any-rows n ms)

Unique-rows :
    (ms : List Message) → Unique id_of ms → Unique (λ (c : Stuck). c.message_id) (map stuck_row ms)
Unique-rows [] u = tt
Unique-rows (m ∷ ms) (f, u) = (any-rows m.id ms ∙ f, Unique-rows ms u)

pub Unique-stuck :
    (org_id : Option ℕ) (now : ℕ) (db : Db)
    → Unique (λ (m : Message). m.id) db.messages
    → Unique (λ (c : Stuck). c.message_id) (map stuck_row (find_stuck_sending org_id grace now db))
unfolding find_stuck_sending
Unique-stuck org_id now db u = Unique-rows (find_stuck_sending org_id grace now db) (
    Unique-sort_by (λ (a b : Message). ltb a.created_at b.created_at) _
      (Unique-select _ db.messages u))

pub All-stuck :
    (P : Stuck → Type 0) (ms : List Message)
    → All P (map stuck_row ms)
    → All (λ (m : Message). P (stuck_row m)) ms
All-stuck P [] a = tt
All-stuck P (m ∷ ms) (p, a) = (p, All-stuck P ms a)
