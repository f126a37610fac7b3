-- ===== src/Drafts/Desk.antt =====
-- The review desk that app/db/drafts.py promises for one lead and one kind of draft: how many
-- versions were written, whether one is waiting for a reviewer, and how many were sent back.
pub mod Moves
pub mod Each
pub mod Refines
use Prim.Native.Nat.{max}
use outreach_automation.Prelude.{
  ℕ, ◌+◌, ◌≤◌, ◌<◌, Bool, true, false, not, ◌&&◌, ◌||◌, ◌≡◌, refl, ◌∙◌, ◌⊎◌, inl, inr, List, [],
  ◌∷◌, ◌++◌, Option, none, some, arith, ltb, ◌==◌, ==_iff, ==_refl, if◌then◌else◌, any, count,
  count-append, Bool-cases, and-left, sym,
}
use outreach_automation.Db.{Draft, DraftStatus, MessageKind}
use outreach_automation.Db.Table.{find, update_where, count-update_other}
use outreach_automation.Db.Unique.{Unique, IsAlone}
use outreach_automation.Sendable.{kind_index}
use outreach_automation.Drafts.{
  is_judgeable, is_rejected, is_of, is_open, is_refused, highest, with_status, supersede_live,
  max_rejections,
}

pub record Desk : Type 0 where
  pub versions : ℕ
  pub waiting : Bool
  pub refused : ℕ

-- What may happen on a desk.
pub data DeskStep : Desk → Desk → Type 0 where
  elsewhere : {s : Desk} → DeskStep s s
  put : {s : Desk} → DeskStep s (record s { versions = s.versions + 1; waiting = true })
  pass : {s : Desk} → s.waiting ≡ true → DeskStep s (record s { waiting = false })
  pass_edited :
      {s : Desk}
      → s.waiting ≡ true
      → DeskStep s (record s { versions = s.versions + 1; waiting = false })
  send_back :
      {s : Desk}
      → s.waiting ≡ true
      → s.refused < max_rejections
      → DeskStep s (record s { waiting = false; refused = s.refused + 1 })

abbrev pub one_if : Bool → ℕ
one_if b = if b then 1 else 0

-- The table shows this desk: at most one draft is open.
abbrev pub Shows : ℕ → MessageKind → List Draft → Desk → Type 0
Shows lead_id kind ds s =
    (highest lead_id kind ds ≡ s.versions)
    × (count (is_open lead_id kind) ds ≡ one_if s.waiting)
    × (count (is_refused lead_id kind) ds ≡ s.refused)

rejected_shut : (s : DraftStatus) → is_rejected s ≡ true → is_judgeable s ≡ false
rejected_shut s h = ground arith

one_desk :
    (d : Draft) (l : ℕ) (k : MessageKind) (m : ℕ) (j : MessageKind)
    → is_of l k d ≡ true
    → is_of m j d ≡ true
    → ((l == m) && (kind_index k == kind_index j)) ≡ true
one_desk d l k m j a b = ground (
  arith,
  ==_iff d.lead_id l,
  ==_iff d.lead_id m,
  ==_iff (kind_index d.kind) (kind_index k),
  ==_iff (kind_index d.kind) (kind_index j),
  ==_iff l m,
  ==_iff (kind_index k) (kind_index j),
)

module _ (lead_id : ℕ) (kind : MessageKind) where
  -- `highest` with no case under the recursive call.
  pub highest-cons :
      (d : Draft) (ds : List Draft)
      → highest lead_id kind (d ∷ ds) ≡ (
          if is_of lead_id kind d
          then max d.version (highest lead_id kind ds)
          else highest lead_id kind ds)
  unfolding highest
  highest-cons d ds = refl

  pub highest-append :
      (ds : List Draft) (d : Draft)
      → highest lead_id kind (ds ++ d ∷ [])
        ≡ max (highest lead_id kind ds) (if is_of lead_id kind d then d.version else 0)
  unfolding highest
  highest-append [] d = ground arith
  highest-append (x ∷ ds) d = ground (arith, highest-append ds d)

  -- A row may change in any column but these.
  pub highest-update_where :
      (p : Draft → Bool) (f : Draft → Draft) (ds : List Draft)
      → ((d : Draft)
          → ((f d).version ≡ d.version) × (is_of lead_id kind (f d) ≡ is_of lead_id kind d))
      → highest lead_id kind (update_where p f ds) ≡ highest lead_id kind ds
  unfolding highest
  highest-update_where p f [] h = refl
  highest-update_where p f (d ∷ ds) h = ground (arith, h d, highest-update_where p f ds h)

  pub highest-bounds :
      (version : ℕ) (ds : List Draft)
      → highest lead_id kind ds < version
      → any (λ (d : Draft). is_of lead_id kind d && (d.version == version)) ds ≡ false
  unfolding highest
  highest-bounds version [] h = refl
  highest-bounds version (d ∷ ds) h = ground (arith, highest-bounds version ds)

  pub count-open_superseded :
      (ds : List Draft) → count (is_open lead_id kind) (supersede_live lead_id kind ds) ≡ 0
  unfolding supersede_live
  count-open_superseded [] = refl
  count-open_superseded (d ∷ ds) = ground (arith, count-open_superseded ds)

  pub count-refused_superseded :
      (l : ℕ) (k : MessageKind) (ds : List Draft)
      → count (is_refused lead_id kind) (supersede_live l k ds) ≡ count (is_refused lead_id kind) ds
  unfolding supersede_live
  count-refused_superseded l k ds =
      count-update_other (is_refused lead_id kind) (is_open l k)
        (with_status DraftStatus.superseded) ds (λ d h. ground (arith, rejected_shut d.status))

  -- Another desk than the one whose drafts are superseded.
  pub count-open_elsewhere :
      (l : ℕ) (k : MessageKind) (ds : List Draft)
      → ((l == lead_id) && (kind_index k == kind_index kind)) ≡ false
      → count (is_open lead_id kind) (supersede_live l k ds) ≡ count (is_open lead_id kind) ds
  unfolding supersede_live
  count-open_elsewhere l k ds h =
      count-update_other (is_open lead_id kind) (is_open l k) (with_status DraftStatus.superseded)
        ds (λ d o. (apart d o, ground arith))
    where
      apart : (d : Draft) → is_open l k d ≡ true → is_open lead_id kind d ≡ false
      apart d o = elim (Bool-cases (is_of lead_id kind d)) [
        | inr e ↦ ground arith
        | inl e ↦
            let same =
              one_desk d l k lead_id kind (and-left (is_of l k d) (is_judgeable d.status) o) e in
            absurd (cc)
      ]
