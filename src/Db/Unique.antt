-- ===== src/Db/Unique.antt =====
-- A table whose rows have distinct keys: a row that is found stands alone.
use outreach_automation.Prelude.{
  ℕ, ◌+◌, Bool, true, false, ◌||◌, ◌≡◌, refl, inl, inr, List, [], ◌∷◌, ◌++◌, some, arith, ◌==◌,
  if◌then◌else◌, any, count, count-append, Bool-cases,
}
use outreach_automation.Db.Table.{find, update_where}

module _ {ℓ} {A : Type ℓ} (key : A → ℕ) where
  abbrev pub has : ℕ → A → Bool
  has n x = key x == n

  -- No two rows have one key.
  abbrev pub Unique : List A → Type 0
  Unique [] = Unit
  Unique (x ∷ xs) = (any (has (key x)) xs ≡ false) × Unique xs

  any-has-append :
      (n : ℕ) (xs ys : List A) → any (has n) (xs ++ ys) ≡ (any (has n) xs || any (has n) ys)
  any-has-append n [] ys = refl
  any-has-append n (x ∷ xs) ys = ground (arith, any-has-append n xs ys)

  pub Unique-append :
      (xs : List A) (a : A) → Unique xs → any (has (key a)) xs ≡ false → Unique (xs ++ a ∷ [])
  Unique-append [] a u h = (refl, tt)
  Unique-append (x ∷ xs) a u h =
      ground (arith, any-has-append (key x) xs (a ∷ []), Unique-append xs a)

  any-has-update :
      (n : ℕ) (p : A → Bool) (f : A → A) (xs : List A)
      → ((x : A) → key (f x) ≡ key x)
      → any (has n) (update_where p f xs) ≡ any (has n) xs
  any-has-update n p f [] h = refl
  any-has-update n p f (x ∷ xs) h = ground (arith, h x, any-has-update n p f xs h)

  pub Unique-update_where :
      (p : A → Bool) (f : A → A) (xs : List A)
      → ((x : A) → key (f x) ≡ key x)
      → Unique xs
      → Unique (update_where p f xs)
  Unique-update_where p f [] h u = tt
  Unique-update_where p f (x ∷ xs) h u =
      ground (arith, h x, any-has-update (key x) p f xs h, Unique-update_where p f xs h)

  pub any-has-update_where :
      (n : ℕ) (p : A → Bool) (f : A → A) (xs : List A)
      → ((x : A) → key (f x) ≡ key x)
      → any (has n) (update_where p f xs) ≡ any (has n) xs
  any-has-update_where = any-has-update

  update_where-none :
      (n : ℕ) (p : A → Bool) (f : A → A) (xs : List A)
      → ((x : A) → p x ≡ true → key x ≡ n)
      → any (has n) xs ≡ false
      → update_where p f xs ≡ xs
  update_where-none n p f [] h k = refl
  update_where-none n p f (x ∷ xs) h k = ground (arith, h x, update_where-none n p f xs h)

  -- The rows before it and the rows after it are left alone.
  abbrev pub IsAlone : (A → Bool) → List A → A → Type ℓ
  IsAlone p xs a =
      (ys : List A) × (zs : List A) × (xs ≡ ys ++ a ∷ zs)
      × ((f : A → A) → update_where p f xs ≡ ys ++ f a ∷ zs)

  pub find-IsAlone :
      (n : ℕ) (p : A → Bool) (xs : List A) (a : A)
      → ((x : A) → p x ≡ true → key x ≡ n)
      → Unique xs
      → find p xs ≡ some a
      → IsAlone p xs a
  find-IsAlone n p [] a h u e = absurd (cc)
  find-IsAlone n p (x ∷ xs) a h u e = elim (Bool-cases (p x)) [
    | inl px ↦ ([], xs, ground arith, λ f. ground (arith, h x, update_where-none n p f xs h))
    | inr px ↦
        let rest = find-IsAlone n p xs a h u.1 (ground arith) in
        (x ∷ rest.0, rest.1, ground (arith, rest.2), λ f. ground (arith, rest.3 f))
  ]

  pub count-IsAlone :
      (q p : A → Bool) (f : A → A) (xs : List A) (a : A)
      → IsAlone p xs a
      → count q (update_where p f xs) + (if q a then 1 else 0)
        ≡ count q xs + (if q (f a) then 1 else 0)
  count-IsAlone q p f xs a (ys, zs, e, h) =
      ground (arith, e, h f, count-append q ys (a ∷ zs), count-append q ys (f a ∷ zs))
