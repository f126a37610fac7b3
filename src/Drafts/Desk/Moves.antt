-- ===== src/Drafts/Desk/Moves.antt =====
-- How the changes of a table of drafts (app/db/drafts.py) look on one desk: a row is judged, and a
-- row is added.
use Prim.Native.Nat.{max}
use outreach_automation.Prelude.{
  ℕ, ◌+◌, Bool, true, false, ◌&&◌, ◌||◌, ◌≡◌, ◌∙◌, List, [], ◌∷◌, ◌++◌, some, arith, if◌then◌else◌,
  count, count-append,
}
use outreach_automation.Db.{Draft, DraftStatus, MessageKind}
use outreach_automation.Db.Table.{find, update_where}
use outreach_automation.Db.Unique.{Unique, IsAlone, find-IsAlone, count-IsAlone}
use outreach_automation.Drafts.{is_judgeable, is_rejected, is_of, is_open, is_refused, highest}
use outreach_automation.Drafts.Review.{is_draft}
use outreach_automation.Drafts.Desk.{Desk, Shows, one_if, highest-append, highest-update_where}

-- A change of a row that keeps whose it is.
abbrev pub Keeps : (Draft → Draft) → Type 0
Keeps f =
    (d : Draft)
    → ((f d).id ≡ d.id)
      × ((f d).lead_id ≡ d.lead_id)
      × ((f d).kind ≡ d.kind)
      × ((f d).version ≡ d.version)

id_of : (o n : ℕ) (d : Draft) → is_draft o n d ≡ true → d.id ≡ n
id_of o n d h = ground arith

kept :
    (l : ℕ) (k : MessageKind) (f : Draft → Draft)
    → Keeps f
    → (d : Draft) → ((f d).version ≡ d.version) × (is_of l k (f d) ≡ is_of l k d)
kept l k f h d = ((h d).3, ground (arith, h d))

judgeable_kept : (s : DraftStatus) → is_judgeable s ≡ true → is_rejected s ≡ false
judgeable_kept s h = ground arith

both : (a b : Bool) → a ≡ true → b ≡ true → (a && b) ≡ true
both a b h k = ground arith

only : (a b : Bool) → a ≡ true → (a && b) ≡ b
only a b h = ground arith

not_both : (a b : Bool) → b ≡ false → (a && b) ≡ false
not_both a b h = ground arith

neither : (a b : Bool) → a ≡ false → (a && b) ≡ false
neither a b h = ground arith

fewer :
    (c' c : ℕ) (w a b : Bool)
    → c' + one_if a ≡ c + one_if b
    → c ≡ one_if w
    → a ≡ true
    → b ≡ false
    → (w ≡ true) × (c' ≡ 0)
fewer c' c w a b e h k l = ground arith

more :
    (c' c m : ℕ) (a b r : Bool)
    → c' + one_if a ≡ c + one_if b
    → c ≡ m
    → a ≡ false
    → b ≡ r
    → c' ≡ m + one_if r
more c' c m a b r e h k l = ground arith

equal : (c' c : ℕ) (a b : Bool) → c' + one_if a ≡ c + one_if b → a ≡ false → b ≡ false → c' ≡ c
equal c' c a b e k l = ground arith

newer : (h v n : ℕ) (b : Bool) → b ≡ true → v ≡ h + 1 → h ≡ n → max h (if b then v else 0) ≡ n + 1
newer h v n b e f g = ground arith

not_newer : (h v n : ℕ) (b : Bool) → b ≡ false → h ≡ n → max h (if b then v else 0) ≡ n
not_newer h v n b e g = ground arith

sum_open :
    (c : ℕ) (w a j : Bool)
    → c ≡ one_if w
    → a ≡ j
    → (w && j) ≡ false
    → c + one_if a ≡ one_if (w || j)
sum_open c w a j e f g = ground arith

no_more : (c n : ℕ) (a : Bool) → c ≡ n → a ≡ false → c + one_if a ≡ n
no_more c n a e f = ground arith

module _ (lead_id : ℕ) (kind : MessageKind) (o n : ℕ) (f : Draft → Draft) (ds : List Draft)
    (d : Draft) (s : Desk) (keeps : Keeps f) (u : Unique (λ (x : Draft). x.id) ds)
    (found : find (is_draft o n) ds ≡ some d) (shows : Shows lead_id kind ds s) where
  alone : IsAlone (λ (x : Draft). x.id) (is_draft o n) ds d
  alone = find-IsAlone (λ (x : Draft). x.id) n (is_draft o n) ds d (id_of o n) u found

  opened :
      count (is_open lead_id kind) (update_where (is_draft o n) f ds)
        + one_if (is_open lead_id kind d)
      ≡ count (is_open lead_id kind) ds + one_if (is_open lead_id kind (f d))
  opened = count-IsAlone (λ (x : Draft). x.id) (is_open lead_id kind) (is_draft o n) f ds d alone

  refusals :
      count (is_refused lead_id kind) (update_where (is_draft o n) f ds)
        + one_if (is_refused lead_id kind d)
      ≡ count (is_refused lead_id kind) ds + one_if (is_refused lead_id kind (f d))
  refusals =
      count-IsAlone (λ (x : Draft). x.id) (is_refused lead_id kind) (is_draft o n) f ds d alone

  newest : highest lead_id kind (update_where (is_draft o n) f ds) ≡ highest lead_id kind ds
  newest = highest-update_where lead_id kind (is_draft o n) f ds (kept lead_id kind f keeps)

  pub judged_here :
      is_of lead_id kind d ≡ true
      → is_judgeable d.status ≡ true
      → is_judgeable (f d).status ≡ false
      → (s.waiting ≡ true)
        × Shows lead_id kind
            (update_where (is_draft o n) f ds)
            (record s { waiting = false; refused = s.refused + one_if (is_rejected (f d).status) })
  judged_here h j g =
      let same = kept lead_id kind f keeps d in
      let r = judgeable_kept d.status j in
      let less = fewer _ _ s.waiting _ _ opened shows.1 (both _ _ h j) (not_both _ _ g) in
      (
        less.0,
        (
          newest ∙ shows.0,
          less.1,
          more _ _ _ _ _ (is_rejected (f d).status) refusals shows.2 (not_both _ _ r)
              (only _ _ (same.1 ∙ h)),
        ),
      )

  pub judged_elsewhere :
      is_of lead_id kind d ≡ false → Shows lead_id kind (update_where (is_draft o n) f ds) s
  judged_elsewhere h =
      let same = kept lead_id kind f keeps d in
      (
        newest ∙ shows.0,
        equal _ _ _ _ opened (neither _ _ h) (neither _ _ (same.1 ∙ h)) ∙ shows.1,
        equal _ _ _ _ refusals (neither _ _ h) (neither _ _ (same.1 ∙ h)) ∙ shows.2,
      )

module _ (lead_id : ℕ) (kind : MessageKind) (ds : List Draft) (d : Draft) (s : Desk)
    (shows : Shows lead_id kind ds s) where
  longer : (p : Draft → Bool) → count p (ds ++ d ∷ []) ≡ count p ds + one_if (p d)
  longer p = count-append p ds (d ∷ [])

  -- A new version: a draft that waits, put on an empty desk, or one that was judged already.
  pub added_here :
      is_of lead_id kind d ≡ true
      → d.version ≡ highest lead_id kind ds + 1
      → is_rejected d.status ≡ false
      → (s.waiting && is_judgeable d.status) ≡ false
      → Shows lead_id kind
          (ds ++ d ∷ [])
          (record s { versions = s.versions + 1; waiting = s.waiting || is_judgeable d.status })
  added_here h v r w = (
    highest-append lead_id kind ds d ∙ newer _ _ _ _ h v shows.0,
    longer (is_open lead_id kind) ∙ sum_open _ _ _ _ shows.1 (only _ _ h) w,
    longer (is_refused lead_id kind) ∙ no_more _ _ _ shows.2 (not_both _ _ r),
  )

  pub added_elsewhere : is_of lead_id kind d ≡ false → Shows lead_id kind (ds ++ d ∷ []) s
  added_elsewhere h = (
    highest-append lead_id kind ds d ∙ not_newer _ _ _ _ h shows.0,
    longer (is_open lead_id kind) ∙ no_more _ _ _ shows.1 (neither _ _ h),
    longer (is_refused lead_id kind) ∙ no_more _ _ _ shows.2 (neither _ _ h),
  )
