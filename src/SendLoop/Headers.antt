-- ===== src/SendLoop/Headers.antt =====
-- The headers that thread an e-mail: `thread_headers` of app/db/outbox.py and `build_references` of
-- app/services/mail/message.py.
use outreach_automation.Prelude.{
  ℕ, zero, suc, ◌-◌, Bool, true, false, not, ◌&&◌, List, [], ◌∷◌, ◌++◌, Option, none, some, leb,
  ltb, ◌==◌, if◌then◌else◌, length, select, sort_by,
}
use outreach_automation.Address.{is_space}
use outreach_automation.Db.{Db, Message, MessageKind, initial, followup, reply}
use outreach_automation.Sendable.{is_outbound}

-- `text.split()`.
words : List ℕ → List ℕ → List (List ℕ)
words [] [] = []
words (w ∷ ws) [] = (w ∷ ws) ∷ []
words word (c ∷ cs) = elim word [
  | [] ↦ if is_space c then words [] cs else words (c ∷ []) cs
  | w ∷ ws ↦ if is_space c then (w ∷ ws) ∷ words [] cs else words (w ∷ ws ++ c ∷ []) cs
]

joined : List (List ℕ) → List ℕ
joined [] = []
joined (w ∷ []) = w
joined (w ∷ v ∷ ws) = w ++ 32 ∷ joined (v ∷ ws)

drop : ℕ → List (List ℕ) → List (List ℕ)
drop zero ws = ws
drop (suc n) [] = []
drop (suc n) (w ∷ ws) = drop n ws

first_word : List (List ℕ) → List (List ℕ)
first_word [] = []
first_word (w ∷ ws) = w ∷ []

-- The first and the last five of a chain of more than six.
unfoldable pub build_references : Option (List ℕ) → List ℕ → List ℕ
unfolding words joined drop first_word
build_references previous replying_to =
    let chain = (elim previous [ none ↦ [] | some t ↦ words [] t ]) ++ replying_to ∷ [] in
    if leb (length chain) 6
    then joined chain
    else joined (first_word chain ++ drop (length chain - 5) chain)

abbrev pub is_parent : ℕ → MessageKind → Message → Bool
is_parent lead_id kind m =
    elim m.lead_id [ none ↦ false | some l ↦ l == lead_id ]
    && elim kind [ reply ↦ not (is_outbound m.direction) | _ ↦ is_outbound m.direction ]
    && elim m.message_id_hdr [ none ↦ false | some _ ↦ true ]

-- The newest of them.
parent_of : ℕ → MessageKind → Db → Option Message
parent_of lead_id kind db =
    elim (sort_by (λ (m n : Message). ltb n.created_at m.created_at)
      (select (is_parent lead_id kind) db.messages)) [ [] ↦ none | m ∷ ms ↦ some m ]

threaded : Option Message → Option (List ℕ) × Option (List ℕ)
threaded none = (none, none)
threaded (some m) = elim m.message_id_hdr [
  | none ↦ (none, none)
  | some h ↦ elim h [
    | [] ↦ (none, none)
    | c ∷ cs ↦ (some (c ∷ cs), some (build_references m.references_hdr (c ∷ cs)))
  ]
]

unfoldable pub thread_headers : ℕ → MessageKind → Db → Option (List ℕ) × Option (List ℕ)
unfolding parent_of threaded
thread_headers lead_id initial db = (none, none)
thread_headers lead_id followup db = threaded (parent_of lead_id followup db)
thread_headers lead_id reply db = threaded (parent_of lead_id reply db)
