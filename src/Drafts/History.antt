-- ===== src/Drafts/History.antt =====
-- app/db/drafts.py: a draft is never overwritten, and what was decided stays decided.
use outreach_automation.Prelude.{
  if◌then◌else◌, Bool, true, false, ◌≡◌, refl, sym, ap, subst, ◌∙◌, ◌⊎◌, inl, inr, List, [], ◌∷◌,
  ◌++◌, some, ◌==◌, ok, bind-ok, through, ok-eq, ℕ, and-left, and-right, ==_iff,
}
use outreach_automation.Db.{Db, Draft, DraftStatus}
use outreach_automation.Db.Table.{find, update_where}
use outreach_automation.Db.Unique.{Unique, find-IsAlone}
use outreach_automation.Jobs.{QueueConfig}
use outreach_automation.Drafts.{is_judgeable, is_open, with_status, supersede_live}
use outreach_automation.Drafts.Review.{is_draft, approved_row, rejected_row}
use outreach_automation.Drafts.Steps.{
  TableMove, wrote, approved, edited, rejected, toggled, untouched, with_attach, ReviewOp, perform,
  perform_all,
}
use outreach_automation.Drafts.Steps.Rejected.{perform-moves}
use outreach_automation.Drafts.Desk.Each.{by_id}
use outreach_automation.Drafts.Desk.Refines.{move-Unique}

-- What was written and by whom.
abbrev pub IsSameText : Draft → Draft → Type 0
IsSameText x y =
    (y.id ≡ x.id)
    × (y.lead_id ≡ x.lead_id)
    × (y.kind ≡ x.kind)
    × (y.version ≡ x.version)
    × (y.subject ≡ x.subject)
    × (y.body ≡ x.body)
    × (y.claims ≡ x.claims)
    × (y.created_by ≡ x.created_by)
    × (y.derived_from_id ≡ x.derived_from_id)

-- The status is the one it was, or the draft waited and was judged.
abbrev pub IsFinal : DraftStatus → DraftStatus → Type 0
IsFinal s t = (t ≡ s) ⊎ ((is_judgeable s ≡ true) × (is_judgeable t ≡ false))

abbrev pub IsLaterOf : Draft → Draft → Type 0
IsLaterOf x y = IsSameText x y × IsFinal x.status y.status

-- Every row is still there, in its place.
abbrev pub Kept : List Draft → List Draft → Type 0
Kept [] ys = Unit
Kept (x ∷ xs) [] = ⊥
Kept (x ∷ xs) (y ∷ ys) = IsLaterOf x y × Kept xs ys

IsSameText-refl : (x : Draft) → IsSameText x x
IsSameText-refl x = (refl, refl, refl, refl, refl, refl, refl, refl, refl)

IsSameText-trans : (x y z : Draft) → IsSameText x y → IsSameText y z → IsSameText x z
IsSameText-trans x y z a b = (
  b.0 ∙ a.0,
  b.1 ∙ a.1,
  b.2 ∙ a.2,
  b.3 ∙ a.3,
  b.4 ∙ a.4,
  b.5 ∙ a.5,
  b.6 ∙ a.6,
  b.7 ∙ a.7,
  b.8 ∙ a.8,
)

IsFinal-trans : (s t u : DraftStatus) → IsFinal s t → IsFinal t u → IsFinal s u
IsFinal-trans s t u (inl a) (inl b) = inl (b ∙ a)
IsFinal-trans s t u (inl a) (inr b) = inr (ap is_judgeable (sym a) ∙ b.0, b.1)
IsFinal-trans s t u (inr a) (inl b) = inr (a.0, ap is_judgeable b ∙ a.1)
IsFinal-trans s t u (inr a) (inr b) = inr (a.0, b.1)

Kept-refl : (xs : List Draft) → Kept xs xs
Kept-refl [] = tt
Kept-refl (x ∷ xs) = ((IsSameText-refl x, inl refl), Kept-refl xs)

Kept-trans : (xs ys zs : List Draft) → Kept xs ys → Kept ys zs → Kept xs zs
Kept-trans [] ys zs a b = tt
Kept-trans (x ∷ xs) [] zs a b = absurd a
Kept-trans (x ∷ xs) (y ∷ ys) [] a b = absurd b
Kept-trans (x ∷ xs) (y ∷ ys) (z ∷ zs) ((p, f), a) ((q, g), b) = (
  (IsSameText-trans x y z p q, IsFinal-trans x.status y.status z.status f g),
  Kept-trans xs ys zs a b,
)

Kept-append : (xs ys zs : List Draft) → Kept xs ys → Kept xs (ys ++ zs)
Kept-append [] ys zs a = tt
Kept-append (x ∷ xs) [] zs a = absurd a
Kept-append (x ∷ xs) (y ∷ ys) zs (p, a) = (p, Kept-append xs ys zs a)

Kept-update_where :
    (p : Draft → Bool) (f : Draft → Draft) (xs : List Draft)
    → ((x : Draft) → p x ≡ true → IsLaterOf x (f x))
    → Kept xs (update_where p f xs)
Kept-update_where p f [] h = tt
Kept-update_where p f (x ∷ xs) h = (row (p x) refl, Kept-update_where p f xs h)
  where
    row : (b : Bool) → p x ≡ b → IsLaterOf x (if b then f x else x)
    row true e = h x e
    row false e = (IsSameText-refl x, inl refl)

Kept-middle :
    (ys zs : List Draft) (d e : Draft) → IsLaterOf d e → Kept (ys ++ d ∷ zs) (ys ++ e ∷ zs)
Kept-middle [] zs d e h = (h, Kept-refl zs)
Kept-middle (y ∷ ys) zs d e h = ((IsSameText-refl y, inl refl), Kept-middle ys zs d e h)

-- One draft that waits is rewritten.
Kept-judged :
    (o n : ℕ) (f : Draft → Draft) (ds : List Draft) (d : Draft)
    → Unique by_id ds
    → find (is_draft o n) ds ≡ some d
    → IsLaterOf d (f d)
    → Kept ds (update_where (is_draft o n) f ds)
Kept-judged o n f ds d u found h =
    let (ys, zs, e, g) =
      find-IsAlone by_id n (is_draft o n) ds d (λ x i. (==_iff x.id n).0 (and-left _ _ i)) u
        found in
    subst (λ l. Kept l (update_where (is_draft o n) f ds)) (sym e)
      (subst (Kept (ys ++ d ∷ zs)) (sym (g f)) (Kept-middle ys zs d (f d) h))

move-Kept : (ds ds' : List Draft) → TableMove ds ds' → Unique by_id ds → Kept ds ds'
unfolding supersede_live approved_row rejected_row
move-Kept ds ds' (wrote d v j fresh) u =
    Kept-append ds (supersede_live d.lead_id d.kind ds) (d ∷ []) (
      Kept-update_where (is_open d.lead_id d.kind) (with_status DraftStatus.superseded) ds
        (λ x o. (IsSameText-refl x, inr (and-right _ _ o, refl))))
move-Kept ds ds' (approved a d found j) u =
    Kept-judged a.org_id a.draft_id (approved_row a) ds d u found (IsSameText-refl d, inr (j, refl))
move-Kept ds ds' (edited new a d retired found j e fresh) u = Kept-append ds retired _ (
    subst (Kept ds) (sym e) (
      Kept-judged a.org_id a.draft_id (with_status DraftStatus.superseded) ds d u found
        (IsSameText-refl d, inr (j, refl))))
move-Kept ds ds' (rejected r d found j few) u =
    Kept-judged r.org_id r.draft_id (rejected_row r) ds d u found (IsSameText-refl d, inr (j, refl))
move-Kept ds ds' (toggled n b) u =
    Kept-update_where (λ x. x.id == n) (with_attach b) ds (λ x o. (IsSameText-refl x, inl refl))
move-Kept ds ds' untouched u = Kept-refl ds

-- However long a review goes on, every draft of the table is still in its place with its number, its
-- text and its author, and a draft that was judged before keeps its status, if the drafts' ids were
-- distinct when the run began.
pub perform_all-Kept :
    (config : QueueConfig) (os : List ReviewOp) (db db' : Db)
    → Unique by_id db.drafts
    → perform_all config os db ≡ ok db'
    → Kept db.drafts db'.drafts
unfolding perform_all
perform_all-Kept config [] db db' u h =
    subst (Kept db.drafts) (ap (λ (x : Db). x.drafts) (ok-eq h)) (Kept-refl db.drafts)
perform_all-Kept config (o ∷ os) db db' u h = elim (bind-ok (perform config o db) _ _ h) [
  | through db1 done h1 ↦
      let m = perform-moves config o db db1 done in
      Kept-trans db.drafts db1.drafts db'.drafts (move-Kept db.drafts db1.drafts m u)
        (perform_all-Kept config os db1 db' (move-Unique db.drafts db1.drafts m u) h1)
]
