-- ===== src/Reply/Label.antt =====
-- What the label of a reply can be and what it may cause (app/domain/reply.py).
use outreach_automation.Prelude.{
  ℕ, Bool, false, ◌≡◌, ◌⊎◌, ◌↔◌, Option-cases, inl, inr, List, none, some, String, arith,
}
use outreach_automation.Reply.{
  ReplyLabel, opt_out, out_of_office, bounce, wrong_person_referral, keyword_opt_out, reconcile,
}

-- Unless the headers say that a machine answered, a request to stop is honoured, whether a keyword
-- or the model finds it; and a reply is labelled so for no other reason.
pub reconcile_opt_out :
    (model_label : ReplyLabel) (body : List ℕ)
    → ((reconcile model_label body false false).0 ≡ opt_out)
      ↔ ((model_label ≡ opt_out) ⊎ ((phrase : String) × (keyword_opt_out body ≡ some phrase)))
unfolding reconcile
reconcile_opt_out model_label body = elim (Option-cases (keyword_opt_out body)) [
  | inl no_phrase ↦ (λ h. inl (ground (arith, h, no_phrase)), λ h. ground (arith, h, no_phrase))
  | inr (phrase, found) ↦ (λ h. inr (phrase, found), λ h. ground (arith, found))
]

-- A label that is neither the headers', nor an opt-out, nor a referral is the model's own, and then
-- no keyword asked to stop: no rule turns a reply into interest.
pub reconcile_model :
    (model_label : ReplyLabel) (body : List ℕ) (is_bounce is_auto : Bool)
    → ((reconcile model_label body is_bounce is_auto).0 ≡ bounce)
      ⊎ ((reconcile model_label body is_bounce is_auto).0 ≡ out_of_office)
      ⊎ ((reconcile model_label body is_bounce is_auto).0 ≡ opt_out)
      ⊎ ((reconcile model_label body is_bounce is_auto).0 ≡ wrong_person_referral)
      ⊎ (((reconcile model_label body is_bounce is_auto).0 ≡ model_label)
          × (keyword_opt_out body ≡ none))
unfolding reconcile
reconcile_model model_label body is_bounce is_auto = ground arith
