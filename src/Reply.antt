-- ===== src/Reply.antt =====
-- app/domain/reply.py: the labels of replies, what each may cause, and the keyword rules.
pub mod Normal
pub mod Label
use outreach_automation.Prelude.{
  ℕ, suc, Bool, true, false, not, ◌&&◌, ◌||◌, List, [], ◌∷◌, ◌++◌, Option, none, some, String,
  codes, leb, ◌==◌, if◌then◌else◌, any,
}
use outreach_automation.Address.{is_space, lower, strip, same_text}

pub data ReplyLabel : Type 0 where
  interested question objection not_now not_interested has_vendor : ReplyLabel
  opt_out out_of_office bounce wrong_person_referral hostile other : ReplyLabel

pub data ReplyAction : Type 0 where
  suppress close defer needs_human : ReplyAction

pub record LabelPolicy : Type 0 where
  pub action : ReplyAction
  pub draft_reply : Bool
  pub notify : Bool

abbrev pub label_policy : ReplyAction → Bool → Bool → LabelPolicy
label_policy action draft_reply notify = record {
  action = action;
  draft_reply = draft_reply;
  notify = notify;
}

-- `POLICY`.
unfoldable pub policy_for : ReplyLabel → LabelPolicy
policy_for interested = label_policy needs_human true true
policy_for question = label_policy needs_human true true
policy_for objection = label_policy needs_human true true
policy_for not_now = label_policy needs_human true true
policy_for wrong_person_referral = label_policy needs_human true true
policy_for not_interested = label_policy close false false
policy_for has_vendor = label_policy close false false
policy_for opt_out = label_policy suppress false true
policy_for bounce = label_policy suppress false false
policy_for hostile = label_policy suppress false true
policy_for out_of_office = label_policy defer false false
policy_for other = label_policy needs_human false true

abbrev pub opt_out_phrases : List String
opt_out_phrases =
    "unsubscribe" ∷ "remove me" ∷ "remove my email" ∷ "take me off" ∷ "opt out" ∷ "opt-out"
    ∷ "stop emailing" ∷ "stop contacting" ∷ "stop sending" ∷ "do not email" ∷ "don't email"
    ∷ "dont email" ∷ "do not contact" ∷ "don't contact" ∷ "no longer wish" ∷ "no further emails"
    ∷ "delete my data" ∷ "delete my details" ∷ "gdpr" ∷ "mat bhejo" ∷ "mail na kare" ∷ "mail mat"
    ∷ "band karo" ∷ "please stop" ∷ []

abbrev pub short_refusals : List String
short_refusals = "no thanks" ∷ "no thank you" ∷ "not interested" ∷ "no" ∷ []

abbrev pub referral_phrases : List String
referral_phrases =
    "wrong person" ∷ "not the right person" ∷ "i am not responsible" ∷ "please contact"
    ∷ "you should speak to" ∷ "forward this to" ∷ "my colleague" ∷ "speak to my" ∷ "reach out to"
    ∷ "no longer with" ∷ "has left the company" ∷ "left the company" ∷ []

-- `[a-z0-9]`.
unfoldable pub is_word : ℕ → Bool
is_word c = (leb 97 c && leb c 122) || (leb 48 c && leb c 57)

-- `_WORD.sub(" ", text)`: each run of other characters is one space. The flag says that the
-- character before was in such a run.
unfoldable pub word_sub : Bool → List ℕ → List ℕ
unfolding is_space is_word
word_sub in_run [] = []
word_sub in_run (c ∷ cs) =
    if is_word c || is_space c
    then c ∷ word_sub false cs
    else if in_run
    then word_sub true cs
    else 32 ∷ word_sub true cs

-- `re.sub(r"\s+", " ", text)`, likewise.
unfoldable pub squeeze : Bool → List ℕ → List ℕ
unfolding is_space
squeeze in_run [] = []
squeeze in_run (c ∷ cs) =
    if not (is_space c)
    then c ∷ squeeze false cs
    else if in_run
    then squeeze true cs
    else 32 ∷ squeeze true cs

unfoldable pub normalise : List ℕ → List ℕ
unfolding word_sub squeeze
normalise text = strip (squeeze false (word_sub false (lower text)))

starts_with : List ℕ → List ℕ → Bool
starts_with [] text = true
starts_with (c ∷ cs) [] = false
starts_with (c ∷ cs) (d ∷ ds) = (c == d) && starts_with cs ds

-- `part in text`.
unfoldable pub is_part : List ℕ → List ℕ → Bool
unfolding starts_with
is_part part [] = starts_with part []
is_part part (c ∷ cs) = starts_with part (c ∷ cs) || is_part part cs

-- `len(text.split())`. The flag says that a word has begun.
word_count : Bool → List ℕ → ℕ
word_count in_word [] = 0
word_count in_word (c ∷ cs) =
    if is_space c
    then word_count false cs
    else if in_word
    then word_count true cs
    else suc (word_count true cs)

-- The first phrase that a test accepts.
unfoldable pub first_phrase : (List ℕ → Bool) → List String → Option String
unfolding normalise
first_phrase p [] = none
first_phrase p (x ∷ xs) =
    let rest = first_phrase p xs in if p (normalise (codes x)) then some x else rest

unfoldable pub keyword_match : List ℕ → Option String
unfolding word_count
keyword_match [] = none
keyword_match (c ∷ cs) = elim (first_phrase (λ p. is_part p (c ∷ cs)) opt_out_phrases) [
  | some x ↦ some x
  | none ↦
      let refusal = first_phrase (λ p. same_text (c ∷ cs) p) short_refusals in
      if leb (word_count false (c ∷ cs)) 4 then refusal else none
]

-- The phrase that matched, or `none` where the source returns `False`.
unfoldable pub keyword_opt_out : List ℕ → Option String
unfolding keyword_match
keyword_opt_out body = keyword_match (normalise body)

unfoldable pub looks_like_referral : List ℕ → Bool
looks_like_referral body =
    any (λ x. is_part (normalise (codes x)) (normalise body)) referral_phrases

pub data Reason : Type 0 where
  delivery_notice auto_reply opt_out_without_keyword referral_wording : Reason
  overridden_by_headers overridden_by_keyword model_said : ReplyLabel → Reason
  keyword_rule : String → Reason

abbrev pub is_opt_out : ReplyLabel → Bool
is_opt_out opt_out = true
is_opt_out _ = false

abbrev pub is_out_of_office : ReplyLabel → Bool
is_out_of_office out_of_office = true
is_out_of_office _ = false

-- The labels that referral wording may change.
abbrev pub may_be_referral : ReplyLabel → Bool
may_be_referral other = true
may_be_referral not_interested = true
may_be_referral _ = false

unfoldable pub reconcile : ReplyLabel → List ℕ → Bool → Bool → ReplyLabel × List Reason
reconcile model_label body is_bounce is_auto =
    if is_bounce
    then (bounce, delivery_notice ∷ [])
    else if is_auto
    then (
      out_of_office,
      auto_reply
          ∷ (if is_out_of_office model_label then [] else overridden_by_headers model_label ∷ []),
    )
    else elim (keyword_opt_out body) [
      | some phrase ↦ (
        opt_out,
        keyword_rule phrase
            ∷ (if is_opt_out model_label then [] else overridden_by_keyword model_label ∷ []),
      )
      | none ↦
          if is_opt_out model_label
          then (opt_out, opt_out_without_keyword ∷ [])
          else if looks_like_referral body && may_be_referral model_label
          then (wrong_person_referral, referral_wording ∷ [])
          else (model_label, model_said model_label ∷ [])
    ]
