-- ===== src/Pool/Choice.antt =====
-- app/services/mailboxes/pool.py, `choose`: which member a new lead gets.
use Prim.Native.Nat.{max}
use native.Mathlib.Nat.{mul_right_comm, mul-le-mul_right, le_of_mul-le-mul_right}
use outreach_automation.Prelude.{
  ℕ, ◌*◌, ◌≤◌, ◌<◌, Bool, true, false, ◌≡◌, refl, sym, ap, ◌∙◌, subst, ◌⊎◌, List, [], ◌∷◌, Option,
  none, some, arith, if◌then◌else◌, elem, select, All, inl, inr, Bool-cases, some-eq,
}
use outreach_automation.Pool.{PoolMember, count_of, lighter, lightest, choose}

abbrev pub Among : PoolMember → List PoolMember → Type 0
Among m [] = ⊥
Among m (x ∷ xs) = (m ≡ x) ⊎ Among m xs

-- Quotients compared by products are compared in one order.
cross_le : (a w b v c u : ℕ) → 0 < v → a * v ≤ b * w → b * u ≤ c * v → a * u ≤ c * w
cross_le a w b v c u pos h k =
    le_of_mul-le-mul_right {k = v}
      (omega (
        arith,
        mul-le-mul_right u h,
        mul-le-mul_right w k,
        mul_right_comm a v u,
        mul_right_comm b w u,
        mul_right_comm c v w,
      ))
      pos

positive : (n : ℕ) → 0 < max n 1
positive n = ground arith

module _ (counts : List (ℕ × ℕ)) where
  lighter_trans :
      (x y z : PoolMember)
      → lighter counts y x ≡ false
      → lighter counts z y ≡ false
      → lighter counts z x ≡ false
  unfolding lighter
  lighter_trans x y z h k = ground (
    arith,
    h,
    k,
    cross_le (count_of counts x.mailbox_id) (max x.weight 1) (count_of counts y.mailbox_id)
        (max y.weight 1) (count_of counts z.mailbox_id) (max z.weight 1) (positive y.weight),
    cross_le (count_of counts z.mailbox_id) (max z.weight 1) (count_of counts x.mailbox_id)
        (max x.weight 1) (count_of counts y.mailbox_id) (max y.weight 1) (positive x.weight),
    cross_le (count_of counts y.mailbox_id) (max y.weight 1) (count_of counts z.mailbox_id)
        (max z.weight 1) (count_of counts x.mailbox_id) (max x.weight 1) (positive z.weight),
  )

  lighter_asym : (x y : PoolMember) → lighter counts x y ≡ true → lighter counts y x ≡ false
  unfolding lighter
  lighter_asym x y h = ground (arith, h)

  abbrev NotHeavier : PoolMember → PoolMember → Type 0
  NotHeavier m n = lighter counts n m ≡ false

  -- The best so far, or the next member where that is lighter.
  abbrev better : PoolMember → PoolMember → PoolMember
  better m n = if lighter counts n m then n else m

  better-first : (m n best : PoolMember) → NotHeavier best (better m n) → NotHeavier best m
  better-first m n best h = elim (Bool-cases (lighter counts n m)) [
    | inl less ↦ lighter_trans best n m (ground (arith, h, less)) (lighter_asym n m less)
    | inr more ↦ ground (arith, h, more)
  ]

  better-second : (m n best : PoolMember) → NotHeavier best (better m n) → NotHeavier best n
  better-second m n best h = elim (Bool-cases (lighter counts n m)) [
    | inl less ↦ ground (arith, h, less)
    | inr more ↦ lighter_trans best m n (ground (arith, h, more)) more
  ]

  lightest-NotHeavier :
      (m : PoolMember) (ms : List PoolMember) → All (NotHeavier (lightest counts m ms)) (m ∷ ms)
  unfolding lightest lighter
  lightest-NotHeavier m [] = (ground arith, tt)
  lightest-NotHeavier m (n ∷ ns) =
      let (best, rest) = lightest-NotHeavier (better m n) ns in
      (
        better-first m n (lightest counts (better m n) ns) best,
        (better-second m n (lightest counts (better m n) ns) best, rest),
      )

  lightest-Among : (m : PoolMember) (ms : List PoolMember) → Among (lightest counts m ms) (m ∷ ms)
  unfolding lightest
  lightest-Among m [] = inl refl
  lightest-Among m (n ∷ ns) = elim (lightest-Among (better m n) ns) [
    | inr later ↦ inr (inr later)
    | inl first ↦ elim (Bool-cases (lighter counts n m)) [
      | inl less ↦ inr (inl (ground (arith, first, less)))
      | inr more ↦ inl (ground (arith, first, more))
    ]
  ]

abbrev is_usable : List ℕ → PoolMember → Bool
is_usable usable m = elem m.mailbox_id usable

-- A member that may send, and of those none has a smaller quotient of its count and its weight, and
-- none with the same quotient has a smaller id.
pub record IsLightest (members : List PoolMember) (counts : List (ℕ × ℕ)) (usable : List ℕ)
    (m : PoolMember) : Type 0 where
  pub member : Among m members
  pub can_send : elem m.mailbox_id usable ≡ true
  pub least :
      (n : PoolMember)
      → Among n members
      → elem n.mailbox_id usable ≡ true
      → count_of counts m.mailbox_id * max n.weight 1
        ≤ count_of counts n.mailbox_id * max m.weight 1
  pub first_of_ties :
      (n : PoolMember)
      → Among n members
      → elem n.mailbox_id usable ≡ true
      → count_of counts m.mailbox_id * max n.weight 1
        ≡ count_of counts n.mailbox_id * max m.weight 1
      → m.mailbox_id ≤ n.mailbox_id

Among-select :
    (q : PoolMember → Bool) (m : PoolMember) (ms : List PoolMember)
    → Among m (select q ms)
    → Among m ms × (q m ≡ true)
Among-select q m [] h = elim h [ ]
Among-select q m (x ∷ xs) h = go (Among-select q m xs) (q x) refl h
  where
    go :
        (Among m (select q xs) → Among m xs × (q m ≡ true))
        → (b : Bool) → q x ≡ b
        → Among m (if b then x ∷ select q xs else select q xs)
        → Among m (x ∷ xs) × (q m ≡ true)
    go rest true e (inl same) = (inl same, ap q same ∙ e)
    go rest true e (inr later) = let (a, k) = rest later in (inr a, k)
    go rest false e later = let (a, k) = rest later in (inr a, k)

All-select :
    (P : PoolMember → Type 0) (q : PoolMember → Bool) (n : PoolMember) (ms : List PoolMember)
    → All P (select q ms)
    → Among n ms
    → q n ≡ true
    → P n
All-select P q n [] a h k = elim h [ ]
All-select P q n (x ∷ xs) a h k = go (λ l i. All-select P q n xs l i k) (q x) refl a h
  where
    go :
        (All P (select q xs) → Among n xs → P n)
        → (b : Bool) → q x ≡ b
        → All P (if b then x ∷ select q xs else select q xs)
        → Among n (x ∷ xs)
        → P n
    go later_on true e (p, rest) (inl same) = subst P (sym same) p
    go later_on true e (p, rest) (inr later) = later_on rest later
    go later_on false e rest (inl same) = absurd (ground (arith, e, k, ap q same))
    go later_on false e rest (inr later) = later_on rest later

module _ (members : List PoolMember) (counts : List (ℕ × ℕ)) (usable : List ℕ) where
  lightest_usable :
      (m : PoolMember) (ms : List PoolMember)
      → select (is_usable usable) members ≡ m ∷ ms
      → IsLightest members counts usable (lightest counts m ms)
  unfolding lighter
  lightest_usable m ms e = record {
    member = from.0;
    can_send = from.1;
    least = λ n among ok_n. ground (arith, below n among ok_n);
    first_of_ties = λ n among ok_n same. ground (arith, below n among ok_n, same);
  }
    where
      best : PoolMember
      best = lightest counts m ms

      from : Among best members × (is_usable usable best ≡ true)
      from =
          Among-select (is_usable usable) best members
            (subst (Among best) (sym e) (lightest-Among counts m ms))

      below :
          (n : PoolMember)
          → Among n members
          → is_usable usable n ≡ true
          → lighter counts n best ≡ false
      below n =
          All-select (λ x. lighter counts x best ≡ false) (is_usable usable) n members
            (subst (All (λ x. lighter counts x best ≡ false)) (sym e)
              (lightest-NotHeavier counts m ms))

  none_usable :
      select (is_usable usable) members ≡ []
      → (n : PoolMember) → Among n members
      → is_usable usable n ≡ false
  none_usable e n among = elim (Bool-cases (is_usable usable n)) [
    | inr cannot ↦ cannot
    | inl can ↦
        All-select (λ x. is_usable usable x ≡ false) (is_usable usable) n members
          (subst (All (λ x. is_usable usable x ≡ false)) (sym e) tt) among can
  ]

  -- `choose` names the member that may send with the smallest quotient of its sends of the day and its
  -- weight, of those the one with the smallest id; and it names none only where none may send.
  pub choose-IsLightest :
      ((i : ℕ)
        → choose members counts usable ≡ some i
        → (m : PoolMember) × (m.mailbox_id ≡ i) × IsLightest members counts usable m)
      × (choose members counts usable ≡ none
          → (n : PoolMember) → Among n members
          → elem n.mailbox_id usable ≡ false)
  unfolding choose
  choose-IsLightest = go (select (is_usable usable) members) refl
    where
      go :
          (l : List PoolMember)
          → select (is_usable usable) members ≡ l
          → ((i : ℕ)
              → elim l as (λ _. Option ℕ) [
                | [] ↦ none
                | m ∷ ms ↦ some (lightest counts m ms).mailbox_id
              ]
                ≡ some i
              → (m : PoolMember) × (m.mailbox_id ≡ i) × IsLightest members counts usable m)
            × (elim l as (λ _. Option ℕ) [
              | [] ↦ none
              | m ∷ ms ↦ some (lightest counts m ms).mailbox_id
            ]
                  ≡ none
                → (n : PoolMember) → Among n members
                → elem n.mailbox_id usable ≡ false)
      go [] e = (λ i h. absurd (cc), λ h. none_usable e)
      go (m ∷ ms) e =
          (λ i h. (lightest counts m ms, some-eq h, lightest_usable m ms e), λ h. absurd (cc))
