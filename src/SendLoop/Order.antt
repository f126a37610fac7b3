-- ===== src/SendLoop/Order.antt =====
-- app/worker/send_loop.py, `_interleave`: the order in which candidates take their turns.
use outreach_automation.Prelude.{
  ℕ, zero, suc, ◌+◌, ◌≤◌, Bool, true, ◌≡◌, refl, sym, ap, ◌∙◌, List, [], ◌∷◌, ◌++◌, map, arith, leb,
  All, count, count-append, select, insert_by, sort_by, length,
}
use outreach_automation.Db.{MessageKind, initial, followup, reply}
use outreach_automation.SendLoop.{
  Candidate, add_to, queues_from, heads, tails, deal, has_priority, queues_of, approved_or,
  interleave,
}

abbrev every : Candidate → Bool
every c = true

module _ (q : Candidate → Bool) where
  abbrev total : List (List Candidate) → ℕ
  total [] = 0
  total (l ∷ ls) = count q l + total ls

  total-heads : (qs : List (List Candidate)) → count q (heads qs) + total (tails qs) ≡ total qs
  total-heads [] = refl
  total-heads ([] ∷ qs) = omega (arith, total-heads qs)
  total-heads ((c ∷ cs) ∷ qs) = ground (arith, total-heads qs)

  total-no_heads : (qs : List (List Candidate)) → heads qs ≡ [] → total qs ≡ 0
  total-no_heads [] h = refl
  total-no_heads ([] ∷ qs) h = omega (arith, total-no_heads qs h)
  total-no_heads ((c ∷ cs) ∷ qs) h = absurd (cc)

  abbrev Within : ℕ → List (List Candidate) → Type 0
  Within n qs = All (λ (l : List Candidate). length l ≤ n) qs

  Within-tails : (n : ℕ) (qs : List (List Candidate)) → Within (suc n) qs → Within n (tails qs)
  Within-tails n [] w = tt
  Within-tails n ([] ∷ qs) (p, w) = (omega arith, Within-tails n qs w)
  Within-tails n ((c ∷ cs) ∷ qs) (p, w) = (omega (arith, p), Within-tails n qs w)

  no_heads : (qs : List (List Candidate)) → Within 0 qs → heads qs ≡ []
  no_heads [] w = refl
  no_heads ([] ∷ qs) (p, w) = no_heads qs w
  no_heads ((c ∷ cs) ∷ qs) (p, w) = absurd (omega (arith, p))

  count-deal : (n : ℕ) (qs : List (List Candidate)) → Within n qs → count q (deal n qs) ≡ total qs
  unfolding deal
  count-deal zero qs w = sym (total-no_heads qs (no_heads qs w))
  count-deal (suc n) qs w = go (heads qs) refl (count-deal n (tails qs) (Within-tails n qs w))
    where
      go :
          (l : List Candidate)
          → heads qs ≡ l
          → count q (deal n (tails qs)) ≡ total (tails qs)
          → count q
              (elim l as (λ _. List Candidate) [ [] ↦ [] | c ∷ cs ↦ (c ∷ cs) ++ deal n (tails qs) ])
            ≡ total qs
      go [] e later = sym (total-no_heads qs e)
      go (c ∷ cs) e later =
          count-append q (c ∷ cs) (deal n (tails qs))
          ∙ omega (arith, later, total-heads qs, ap (count q) e)

  abbrev queues : List (ℕ × List Candidate) → List (List Candidate)
  queues qs = map (λ x. x.1) qs

  total-add_to :
      (c : Candidate) (qs : List (ℕ × List Candidate))
      → total (queues (add_to c qs)) ≡ total (queues qs) + count q (c ∷ [])
  unfolding add_to
  total-add_to c [] = ground arith
  total-add_to c ((i, l) ∷ qs) = ground (arith, total-add_to c qs, count-append q l (c ∷ []))

  total-queues_from :
      (qs : List (ℕ × List Candidate)) (cs : List Candidate)
      → total (queues (queues_from qs cs)) ≡ total (queues qs) + count q cs
  unfolding queues_from
  total-queues_from qs [] = omega arith
  total-queues_from qs (c ∷ cs) =
      ground (arith, total-queues_from (add_to c qs) cs, total-add_to c qs)

  count-insert_by :
      (before : Candidate → Candidate → Bool) (c : Candidate) (cs : List Candidate)
      → count q (insert_by before c cs) ≡ count q (c ∷ cs)
  count-insert_by before c [] = refl
  count-insert_by before c (d ∷ ds) = ground (arith, count-insert_by before c ds)

  count-sort_by :
      (before : Candidate → Candidate → Bool) (cs : List Candidate)
      → count q (sort_by before cs) ≡ count q cs
  count-sort_by before [] = refl
  count-sort_by before (c ∷ cs) =
      count-insert_by before c (sort_by before cs) ∙ ground (arith, count-sort_by before cs)

  count-priorities :
      (cs : List Candidate)
      → count q (select (has_priority 0) cs)
          + count q (select (has_priority 1) cs)
          + count q (select (has_priority 2) cs)
        ≡ count q cs
  count-priorities [] = refl
  count-priorities (c ∷ cs) = go c.draft.kind refl (count-priorities cs)
    where
      go :
          (k : MessageKind)
          → c.draft.kind ≡ k
          → count q (select (has_priority 0) cs)
              + count q (select (has_priority 1) cs)
              + count q (select (has_priority 2) cs)
            ≡ count q cs
          → count q (select (has_priority 0) (c ∷ cs))
              + count q (select (has_priority 1) (c ∷ cs))
              + count q (select (has_priority 2) (c ∷ cs))
            ≡ count q (c ∷ cs)
      go initial e h = ground (arith, e, h)
      go followup e h = ground (arith, e, h)
      go reply e h = ground (arith, e, h)

count-every : (cs : List Candidate) → count every cs ≡ length cs
count-every [] = refl
count-every (c ∷ cs) = ap suc (count-every cs)

-- No queue is longer than all of them together.
total-Within :
    (q : Candidate → Bool) (n : ℕ) (qs : List (List Candidate)) → total every qs ≤ n → Within q n qs
total-Within q n [] h = tt
total-Within q n (l ∷ ls) h =
    (omega (arith, h, count-every l), total-Within q n ls (omega (arith, h)))

count-select-le :
    (p : Candidate → Bool) (cs : List Candidate) → count every (select p cs) ≤ length cs
count-select-le p [] = omega arith
count-select-le p (c ∷ cs) = ground (arith, count-select-le p cs)

module _ (q : Candidate → Bool) where
  -- A round for each candidate is enough.
  count-deal-queues_of :
      (n k : ℕ) (cs : List Candidate)
      → length cs ≤ n
      → count q (deal n (queues_of k cs)) ≡ count q (select (has_priority k) cs)
  count-deal-queues_of n k cs h =
      count-deal q n (queues_of k cs) (
        total-Within q n (queues_of k cs) (
          omega (
            arith,
            total-queues_from every [] (select (has_priority k) cs),
            count-select-le (has_priority k) cs,
            h,
          )))
      ∙ omega (arith, total-queues_from q [] (select (has_priority k) cs))

  -- The turns that the campaigns take lose no candidate and give none twice: of whatever sort, there
  -- are as many in the order as there were before.
  pub count-interleave : (now : ℕ) (cs : List Candidate) → count q (interleave now cs) ≡ count q cs
  unfolding interleave
  count-interleave now cs =
      count-append q (part 0 ++ part 1) (part 2)
      ∙ omega (
        arith,
        count-append q (part 0) (part 1),
        counted 0,
        counted 1,
        counted 2,
        count-priorities q sorted,
        count-sort_by q before cs,
      )
    where
      before : Candidate → Candidate → Bool
      before c d = leb (approved_or now c) (approved_or now d)

      sorted : List Candidate
      sorted = sort_by before cs

      part : ℕ → List Candidate
      part k = deal (length cs) (queues_of k sorted)

      counted : (k : ℕ) → count q (part k) ≡ count q (select (has_priority k) sorted)
      counted k =
          count-deal-queues_of (length cs) k sorted
            (omega (arith, count-every sorted, count-sort_by every before cs, count-every cs))
