-- ===== src/Db/Table.antt =====
-- A table as the list of its rows: the first row that a test accepts, and the rewriting of rows.
use outreach_automation.Prelude.{
  Bool, true, false, ◌≡◌, refl, List, [], ◌∷◌, Option, none, some, arith, if◌then◌else◌, count,
}

module _ {ℓ} {A : Type ℓ} where
  abbrev pub find : (A → Bool) → List A → Option A
  find p [] = none
  find p (x ∷ xs) = let rest = find p xs in if p x then some x else rest

  -- `UPDATE ... WHERE`: every row that the test accepts is rewritten.
  abbrev pub update_where : (A → Bool) → (A → A) → List A → List A
  update_where p f [] = []
  update_where p f (x ∷ xs) = (if p x then f x else x) ∷ update_where p f xs

  pub find-holds : (p : A → Bool) (xs : List A) (a : A) → find p xs ≡ some a → p a ≡ true
  find-holds p [] a h = cc
  find-holds p (x ∷ xs) a h = ground (arith, find-holds p xs a)

  -- A row that is found, rewritten to a row that the test still accepts, is found so.
  pub find-update_self :
      (p : A → Bool) (xs : List A) (a b : A)
      → find p xs ≡ some a
      → p b ≡ true
      → find p (update_where p (λ _. b) xs) ≡ some b
  find-update_self p [] a b h k = cc
  find-update_self p (x ∷ xs) a b h k = ground (arith, find-update_self p xs a b)

  -- A row that another test finds is not touched, if the tests have no row in common.
  pub find-update_other :
      (p q : A → Bool) (xs : List A) (b : A)
      → ((x : A) → p x ≡ true → q x ≡ false)
      → q b ≡ false
      → find q (update_where p (λ _. b) xs) ≡ find q xs
  find-update_other p q [] b apart k = refl
  find-update_other p q (x ∷ xs) b apart k =
      ground (arith, apart x, find-update_other p q xs b apart k)

  -- Rows that a test refuses before and after are not counted.
  pub count-update_other :
      (q p : A → Bool) (f : A → A) (xs : List A)
      → ((x : A) → p x ≡ true → (q x ≡ false) × (q (f x) ≡ false))
      → count q (update_where p f xs) ≡ count q xs
  count-update_other q p f [] h = refl
  count-update_other q p f (x ∷ xs) h = ground (arith, h x, count-update_other q p f xs h)
