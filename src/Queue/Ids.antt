-- ===== src/Queue/Ids.antt =====
-- The primary key of the table of jobs (app/db/queue.py): rows chosen by a query are found again
-- by their ids.
use outreach_automation.Prelude.{
  insert_by, sort_by, ℕ, zero, suc, Bool, true, false, not, ◌||◌, List, [], ◌∷◌, ◌++◌, map, ◌==◌,
  elem, select, take, arith, ◌≡◌, refl, sym, ◌∙◌, ap, ◌⊎◌, subst, ==_iff, inl, inr,
}
use outreach_automation.Db.{Job}
use outreach_automation.Db.Table.{update_where}

abbrev pub ids : List Job → List ℕ
ids = map (λ j. j.id)

-- No two rows have one id.
abbrev pub Distinct : List Job → Type 0
Distinct [] = Unit
Distinct (j ∷ js) = (elem j.id (ids js) ≡ false) × Distinct js

pub ids-update_where :
    (p : Job → Bool) (f : Job → Job) (js : List Job)
    → ((j : Job) → (f j).id ≡ j.id)
    → ids (update_where p f js) ≡ ids js
ids-update_where p f [] h = refl
ids-update_where p f (j ∷ js) h = ground (arith, h j, ids-update_where p f js h)

pub Distinct-update_where :
    (p : Job → Bool) (f : Job → Job) (js : List Job)
    → ((j : Job) → (f j).id ≡ j.id)
    → Distinct js
    → Distinct (update_where p f js)
Distinct-update_where p f [] h d = tt
Distinct-update_where p f (j ∷ js) h d =
    ground (arith, h j, ids-update_where p f js h, Distinct-update_where p f js h)

elem-append :
    (a : ℕ) (xs ys : List Job) → elem a (ids (xs ++ ys)) ≡ (elem a (ids xs) || elem a (ids ys))
elem-append a [] ys = refl
elem-append a (x ∷ xs) ys = ground (arith, elem-append a xs ys)

pub Distinct-append :
    (xs : List Job) (j : Job) → Distinct xs → elem j.id (ids xs) ≡ false → Distinct (xs ++ j ∷ [])
Distinct-append [] j d h = (refl, tt)
Distinct-append (x ∷ xs) j d h = ground (arith, elem-append x.id xs (j ∷ []), Distinct-append xs j)

elem-select :
    (a : ℕ) (p : Job → Bool) (xs : List Job)
    → elem a (ids (select p xs)) ≡ true
    → elem a (ids xs) ≡ true
elem-select a p [] h = h
elem-select a p (x ∷ xs) h = ground (arith, elem-select a p xs)

elem-take : (a n : ℕ) (xs : List Job) → elem a (ids (take n xs)) ≡ true → elem a (ids xs) ≡ true
elem-take a zero xs h = cc
elem-take a (suc n) [] h = h
elem-take a (suc n) (x ∷ xs) h = ground (arith, elem-take a n xs)

elem-insert_by :
    (a : ℕ) (before : Job → Job → Bool) (j : Job) (xs : List Job)
    → elem a (ids (insert_by before j xs)) ≡ ((j.id == a) || elem a (ids xs))
elem-insert_by a before j [] = refl
elem-insert_by a before j (x ∷ xs) = ground (arith, elem-insert_by a before j xs)

elem-sort_by :
    (a : ℕ) (before : Job → Job → Bool) (xs : List Job)
    → elem a (ids (sort_by before xs)) ≡ elem a (ids xs)
elem-sort_by a before [] = refl
elem-sort_by a before (x ∷ xs) =
    ground (arith, elem-insert_by a before x (sort_by before xs), elem-sort_by a before xs)

-- The rows that a query picks: those that pass a test, in some order, without the rows that others
-- have locked, up to a limit.
abbrev pub picked : (ℕ → Bool) → ℕ → (Job → Job → Bool) → (Job → Bool) → List Job → List Job
picked locked limit before p js =
    take limit (select (λ j. not (locked j.id)) (sort_by before (select p js)))

unlocked-select :
    (a : ℕ) (locked : ℕ → Bool) (xs : List Job)
    → elem a (ids (select (λ j. not (locked j.id)) xs)) ≡ true
    → locked a ≡ false
unlocked-select a locked [] h = cc
unlocked-select a locked (x ∷ xs) h =
    ground (arith, unlocked-select a locked xs, ==_iff x.id a, ap locked)

pub picked-selected :
    (a : ℕ) (locked : ℕ → Bool) (limit : ℕ) (before : Job → Job → Bool) (p : Job → Bool)
    (js : List Job)
    → elem a (ids (picked locked limit before p js)) ≡ true
    → elem a (ids (select p js)) ≡ true
picked-selected a locked limit before p js h = elem-sort_by-at (
    elem-select a (λ j. not (locked j.id)) (sort_by before (select p js))
      (elem-take a limit (select (λ j. not (locked j.id)) (sort_by before (select p js))) h))
  where
    elem-sort_by-at :
        elem a (ids (sort_by before (select p js))) ≡ true → elem a (ids (select p js)) ≡ true
    elem-sort_by-at k = sym (elem-sort_by a before (select p js)) ∙ k

pub picked-unlocked :
    (a : ℕ) (locked : ℕ → Bool) (limit : ℕ) (before : Job → Job → Bool) (p : Job → Bool)
    (js : List Job)
    → elem a (ids (picked locked limit before p js)) ≡ true
    → locked a ≡ false
picked-unlocked a locked limit before p js h =
    unlocked-select a locked (sort_by before (select p js))
      (elem-take a limit (select (λ j. not (locked j.id)) (sort_by before (select p js))) h)

-- A row of the list.
abbrev pub In : Job → List Job → Type 0
In j [] = ⊥
In j (x ∷ xs) = (x ≡ j) ⊎ In j xs

In-elem : (j : Job) (js : List Job) → In j js → elem j.id (ids js) ≡ true
In-elem j [] h = absurd h
In-elem j (x ∷ xs) (inl e) = ground (arith, ap (λ (k : Job). k.id) e)
In-elem j (x ∷ xs) (inr h) = ground (arith, In-elem j xs h)

-- With distinct ids, a row whose id is among the selected ones was itself selected.
pub selected-holds :
    (p : Job → Bool) (j : Job) (js : List Job)
    → Distinct js
    → In j js
    → elem j.id (ids (select p js)) ≡ true
    → p j ≡ true
selected-holds p j [] d h k = absurd h
selected-holds p j (x ∷ xs) d (inl e) k =
    subst (λ (y : Job). p y ≡ true) e
      (ground (
        arith,
        elem-select x.id p xs,
        subst (λ (y : Job). elem y.id (ids (select p (x ∷ xs))) ≡ true) (sym e) k,
      ))
selected-holds p j (x ∷ xs) d (inr h) k =
    ground (arith, selected-holds p j xs d.1 h, In-elem j xs h)
