-- ===== src/Address.antt =====
-- E-mail addresses as lists of code points: `strip`, `lower` and `rpartition` of Python's texts as
-- app/db/outbox.py uses them. `lower` is exact on ASCII and on the two other characters whose small
-- letter begins with an ASCII one; it keeps the rest.
use outreach_automation.Prelude.{
  ℕ, ◌+◌, Bool, true, false, ◌&&◌, ◌||◌, List, [], ◌∷◌, ◌++◌, leb, ◌==◌, if◌then◌else◌, elem, codes,
}

-- `str.isspace` of one character, and `\s` of a pattern.
unfoldable pub is_space : ℕ → Bool
is_space c =
    (leb 9 c && leb c 13)
    || (leb 28 c && leb c 32)
    || (leb 8192 c && leb c 8202)
    || elem c (133 ∷ 160 ∷ 5760 ∷ 8232 ∷ 8233 ∷ 8239 ∷ 8287 ∷ 12288 ∷ [])

unfoldable pub lower_char : ℕ → List ℕ
lower_char c =
    if leb 65 c && leb c 90
    then (c + 32) ∷ []
    else if c == 8490
    then 107 ∷ []
    else if c == 304
    then 105 ∷ 775 ∷ []
    else c ∷ []

unfoldable pub lower : List ℕ → List ℕ
unfolding lower_char
lower [] = []
lower (c ∷ cs) = lower_char c ++ lower cs

unfoldable pub drop_space : List ℕ → List ℕ
unfolding is_space
drop_space [] = []
drop_space (c ∷ cs) = let rest = drop_space cs in if is_space c then rest else c ∷ cs

-- Without the spaces at the end.
unfoldable pub trim_end : List ℕ → List ℕ
unfolding is_space
trim_end [] = []
trim_end (c ∷ cs) = elim (trim_end cs) [
  | [] ↦ if is_space c then [] else c ∷ []
  | x ∷ xs ↦ c ∷ x ∷ xs
]

unfoldable pub strip : List ℕ → List ℕ
unfolding drop_space trim_end
strip cs = trim_end (drop_space cs)

-- `rpartition("@")[2]`: what follows the last `@`, or the whole text.
unfoldable pub after_at : List ℕ → List ℕ
after_at [] = []
after_at (c ∷ cs) =
    let rest = after_at cs in if elem 64 cs then rest else if c == 64 then cs else c ∷ cs

abbrev pub or_localhost : List ℕ → List ℕ
or_localhost [] = codes "localhost"
or_localhost (c ∷ cs) = c ∷ cs

-- Equality of texts.
unfoldable pub same_text : List ℕ → List ℕ → Bool
same_text [] [] = true
same_text (x ∷ xs) (y ∷ ys) = (x == y) && same_text xs ys
same_text _ _ = false
