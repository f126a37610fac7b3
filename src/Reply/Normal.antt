-- ===== src/Reply/Normal.antt =====
-- The normal form of a reply's text, on which the keyword rules look (app/domain/reply.py).
use outreach_automation.Prelude.{
  ℕ, Bool, true, false, not, ◌&&◌, ◌||◌, ◌≡◌, ◌⊎◌, refl, sym, ◌∙◌, ap, List, [], ◌∷◌, ◌==◌,
  if◌then◌else◌, all, and-left, and-right, arith, subst, ==_iff, Bool-cases, inl, inr,
}
use outreach_automation.Address.{is_space, lower, lower_char, drop_space, trim_end, strip}
use outreach_automation.Reply.{is_word, word_sub, squeeze, normalise}

-- A letter, a digit or the space; and a text of these in which no space follows one, the flag
-- saying that one came before.
abbrev pub is_plain : ℕ → Bool
is_plain c = is_word c || (c == 32)

abbrev pub is_single : Bool → List ℕ → Bool
is_single after_space [] = true
is_single after_space (c ∷ cs) =
    is_plain c && not (after_space && (c == 32)) && is_single (c == 32) cs

-- No space at the end.
abbrev pub is_trimmed : List ℕ → Bool
is_trimmed [] = true
is_trimmed (c ∷ cs) = elim cs [ [] ↦ not (c == 32) | _ ↦ is_trimmed cs ]

word-lower_char : (c : ℕ) → is_word c ≡ true → lower_char c ≡ c ∷ []
unfolding is_word lower_char
word-lower_char c h = ground (arith, h)

space-lower_char : lower_char 32 ≡ 32 ∷ []
unfolding lower_char
space-lower_char = refl

plain-lower_char : (c : ℕ) → is_plain c ≡ true → lower_char c ≡ c ∷ []
plain-lower_char c h = elim (Bool-cases (c == 32)) [
  | inl e ↦ subst (λ d. lower_char d ≡ d ∷ []) (sym ((==_iff c 32).0 e)) space-lower_char
  | inr e ↦ word-lower_char c (ground (arith, h, e))
]

lower-plain : (cs : List ℕ) (b : Bool) → is_single b cs ≡ true → lower cs ≡ cs
unfolding lower
lower-plain [] b h = refl
lower-plain (c ∷ cs) b h = ground (arith, h, plain-lower_char c, lower-plain cs (c == 32))

word-is_space : (c : ℕ) → is_word c ≡ true → is_space c ≡ false
unfolding is_space is_word
word-is_space c h = ground (arith, h)

space-is_space : is_space 32 ≡ true
unfolding is_space
space-is_space = refl

plain-is_space : (c : ℕ) → is_plain c ≡ true → is_space c ≡ (c == 32)
plain-is_space c h = elim (Bool-cases (c == 32)) [
  | inl e ↦ subst (λ d. is_space d ≡ (d == 32)) (sym ((==_iff c 32).0 e)) space-is_space
  | inr e ↦ word-is_space c (ground (arith, h, e)) ∙ sym e
]

plain-kept : (c : ℕ) → is_plain c ≡ true → (is_word c || is_space c) ≡ true
plain-kept c h = ground (arith, h, plain-is_space c h)

word_sub-plain : (cs : List ℕ) (b r : Bool) → is_single b cs ≡ true → word_sub r cs ≡ cs
unfolding word_sub
word_sub-plain [] b r h = refl
word_sub-plain (c ∷ cs) b r h =
    ap
      (λ k.
        if k then c ∷ word_sub false cs else if r then word_sub true cs else 32 ∷ word_sub true cs)
      (plain-kept c plain)
    ∙ ap (λ xs. c ∷ xs) (word_sub-plain cs (c == 32) false (ground (arith, h)))
  where
    plain : is_plain c ≡ true
    plain = ground (arith, h)

squeeze-plain : (cs : List ℕ) (b : Bool) → is_single b cs ≡ true → squeeze b cs ≡ cs
unfolding squeeze
squeeze-plain [] b h = refl
squeeze-plain (c ∷ cs) b h =
    ground (arith, h, plain-is_space c, ==_iff c 32, squeeze-plain cs (c == 32))

trim_end-plain :
    (cs : List ℕ) (b : Bool) → is_single b cs ≡ true → is_trimmed cs ≡ true → trim_end cs ≡ cs
unfolding trim_end
trim_end-plain [] b h k = refl
trim_end-plain (c ∷ []) b h k = ground (arith, h, k, plain-is_space c)
trim_end-plain (c ∷ d ∷ ds) b h k = ground (arith, h, k, trim_end-plain (d ∷ ds) (c == 32))

-- A text that is in normal form: words of letters and digits, with one space between two of them.
abbrev pub is_normal : List ℕ → Bool
is_normal cs = is_single true cs && is_trimmed cs

drop_space-plain : (cs : List ℕ) → is_single true cs ≡ true → drop_space cs ≡ cs
unfolding drop_space
drop_space-plain [] h = refl
drop_space-plain (c ∷ cs) h = ground (arith, h, plain-is_space c)

single-any : (cs : List ℕ) → is_single true cs ≡ true → is_single false cs ≡ true
single-any [] h = refl
single-any (c ∷ cs) h = ground (arith, h)

normalise-normal : (cs : List ℕ) → is_normal cs ≡ true → normalise cs ≡ cs
unfolding normalise strip
normalise-normal cs h =
    ap (λ t. trim_end (drop_space (squeeze false (word_sub false t)))) (lower-plain cs true single)
    ∙ ap (λ t. trim_end (drop_space (squeeze false t))) (word_sub-plain cs true false single)
    ∙ ap (λ t. trim_end (drop_space t)) (squeeze-plain cs false (single-any cs single))
    ∙ ap trim_end (drop_space-plain cs single)
    ∙ trim_end-plain cs true single (and-right (is_single true cs) (is_trimmed cs) h)
  where
    single : is_single true cs ≡ true
    single = and-left (is_single true cs) (is_trimmed cs) h

-- The other half: the output is normal.
word_sub-kept : (cs : List ℕ) (r : Bool) → all (λ c. is_word c || is_space c) (word_sub r cs) ≡ true
unfolding word_sub
word_sub-kept [] r = refl
word_sub-kept (c ∷ cs) r = elim (Bool-cases (is_word c || is_space c)) [
  | inl e ↦ ground (arith, e, word_sub-kept cs false)
  | inr e ↦ ground (arith, e, space-is_space, word_sub-kept cs true)
]

word-space : (c : ℕ) → is_word c ≡ true → (c == 32) ≡ false
unfolding is_word
word-space c h = ground (arith, h)

squeeze-single :
    (cs : List ℕ) (b : Bool)
    → all (λ c. is_word c || is_space c) cs ≡ true
    → is_single b (squeeze b cs) ≡ true
unfolding squeeze
squeeze-single [] b h = refl
squeeze-single (c ∷ cs) b h = elim (Bool-cases (is_space c)) [
  | inl e ↦ ground (arith, h, e, squeeze-single cs true)
  | inr e ↦ ground (
    arith,
    h,
    e,
    word-space c (ground (arith, h, e)),
    squeeze-single cs false (ground (arith, h)),
  )
]

drop_space-single :
    (cs : List ℕ) (b : Bool) → is_single b cs ≡ true → is_single true (drop_space cs) ≡ true
unfolding drop_space
drop_space-single [] b h = refl
drop_space-single (c ∷ cs) b h = ground (arith, h, plain-is_space c, drop_space-single cs (c == 32))

List-cases : (cs : List ℕ) → (cs ≡ []) ⊎ ((x : ℕ) × (xs : List ℕ) × (cs ≡ x ∷ xs))
List-cases [] = inl refl
List-cases (x ∷ xs) = inr (x, xs, refl)

trim_end-single :
    (cs : List ℕ) (b : Bool) → is_single b cs ≡ true → is_single b (trim_end cs) ≡ true
unfolding trim_end
trim_end-single [] b h = refl
trim_end-single (c ∷ cs) b h = elim (List-cases (trim_end cs)) [
  | inl e ↦ ground (arith, h, e)
  | inr (x, xs, e) ↦ ground (arith, h, e, trim_end-single cs (c == 32))
]

trim_end-trimmed :
    (cs : List ℕ) (b : Bool) → is_single b cs ≡ true → is_trimmed (trim_end cs) ≡ true
unfolding trim_end
trim_end-trimmed [] b h = refl
trim_end-trimmed (c ∷ cs) b h = elim (List-cases (trim_end cs)) [
  | inl e ↦ ground (arith, h, e, plain-is_space c)
  | inr (x, xs, e) ↦ ground (arith, h, e, trim_end-trimmed cs (c == 32))
]

normalise-is_normal : (text : List ℕ) → is_normal (normalise text) ≡ true
unfolding normalise strip
normalise-is_normal text = ground (
  arith,
  trim_end-single (drop_space (squeeze false (word_sub false (lower text)))) true dropped,
  trim_end-trimmed (drop_space (squeeze false (word_sub false (lower text)))) true dropped,
)
  where
    dropped : is_single true (drop_space (squeeze false (word_sub false (lower text)))) ≡ true
    dropped =
        drop_space-single (squeeze false (word_sub false (lower text))) false
          (squeeze-single (word_sub false (lower text)) false (word_sub-kept (lower text) false))

-- The normal form of any text is words of small letters and digits with one space between two of
-- them, and normalising it again changes nothing.
pub normalise-normalise :
    (text : List ℕ)
    → (is_normal (normalise text) ≡ true) × (normalise (normalise text) ≡ normalise text)
normalise-normalise text =
    (normalise-is_normal text, normalise-normal (normalise text) (normalise-is_normal text))
