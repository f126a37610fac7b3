-- ===== src/Drafting.antt =====
-- app/services/drafting/generator.py: writing a draft, checking it and writing it again, with the
-- shapes of schema.py and the report of validate.py. The language model, the prompt that is built
-- for it and the deterministic checks are arguments; a model that is asked is a function of the
-- number of questions before and of the prompt.
pub mod Checked
use Prim.Native.Nat.{max}
use outreach_automation.Prelude.{
  ℕ, zero, suc, ◌+◌, Bool, true, false, not, ◌&&◌, ◌||◌, List, [], ◌∷◌, ◌++◌, map, Option, none,
  some, String, codes, length, take, select, if◌then◌else◌,
}
use outreach_automation.Db.{DraftClaim, Checks, MessageKind, initial, followup, reply}

pub record DraftOutput : Type 0 where
  pub subject : List ℕ
  pub body : List ℕ
  pub claims : List DraftClaim

pub record ValidationReport : Type 0 where
  pub failures : List (List ℕ)
  pub warnings : List (List ℕ)

abbrev pub is_none_of : {A : Type 0} → List A → Bool
is_none_of [] = true
is_none_of (x ∷ xs) = false

abbrev pub passed : ValidationReport → Bool
passed r = is_none_of r.failures

unfoldable pub fail : List ℕ → ValidationReport → ValidationReport
fail reason r = record r { failures = r.failures ++ reason ∷ [] }

unfoldable pub warn : List ℕ → ValidationReport → ValidationReport
warn reason r = record r { warnings = r.warnings ++ reason ∷ [] }

-- The failures one under another, each with a dash before it.
unfoldable pub feedback_lines : List (List ℕ) → List ℕ
feedback_lines [] = []
feedback_lines (f ∷ []) = codes "- " ++ f
feedback_lines (f ∷ g ∷ fs) = codes "- " ++ f ++ 10 ∷ feedback_lines (g ∷ fs)

pub record DraftAttempt : Type 0 where
  pub draft : Option DraftOutput
  pub report : Option ValidationReport
  pub error : Option (List ℕ)

abbrev pub is_accepted : DraftAttempt → Bool
is_accepted a = elim a.draft [
  | none ↦ false
  | some _ ↦ elim a.report [ none ↦ false | some r ↦ passed r ]
]

pub record DraftResult : Type 0 where
  pub draft : Option DraftOutput
  pub attempts : List DraftAttempt
  pub prompt_version : String
  pub claims_checked : Bool

abbrev pub accepted : DraftResult → Bool
accepted r = elim r.draft [ none ↦ false | some _ ↦ true ]

abbrev pub last : {A : Type 0} → List A → Option A
last [] = none
last (x ∷ xs) = elim (last xs) [ none ↦ some x | some y ↦ some y ]

-- `attempts[-1].draft if attempts else None`.
unfoldable pub last_draft : List DraftAttempt → Option DraftOutput
last_draft attempts = elim (last attempts) [ none ↦ none | some a ↦ a.draft ]

last_report : List DraftAttempt → Option ValidationReport
last_report attempts = elim (last attempts) [ none ↦ none | some a ↦ a.report ]

failures_of : Option ValidationReport → List (List ℕ)
failures_of none = []
failures_of (some r) = r.failures

warnings_of : Option ValidationReport → List (List ℕ)
warnings_of none = []
warnings_of (some r) = r.warnings

unfoldable pub validation_payload : DraftResult → Checks
unfolding last_report failures_of warnings_of
validation_payload r = record {
  attempts = length r.attempts;
  prompt_version = r.prompt_version;
  claims_checked = r.claims_checked;
  passed = accepted r;
  failures = failures_of (last_report r.attempts);
  warnings = warnings_of (last_report r.attempts);
  rejected_attempts =
      map (λ (a : DraftAttempt). (failures_of a.report, a.error))
        (select (λ (a : DraftAttempt). not (is_accepted a)) r.attempts);
  human_edited = false;
}

-- An answer of `Router.structured`: the value, output that is not of the schema, or another error.
pub data Answer (A : Type 0) : Type 0 where
  answered : A → Answer A
  invalid_output : List ℕ → Answer A
  llm_error : List ℕ → Answer A

pub record ClaimVerdict : Type 0 where
  pub supported : Bool
  pub reason : List ℕ

-- What one call of `generate_draft` is given. `structured n prompt` answers the draft prompt of the
-- attempt after `n` others, and `verdict n claim evidence` a claim's. `unverified` and `unsupported`
-- are the texts of the warning and of the failure.
pub record Task : Type 0 where
  pub kind : MessageKind
  pub max_attempts : ℕ
  pub check_claims : Bool
  pub reviewer_feedback : Option (List ℕ)
  pub build_draft_prompt : Option (List ℕ) → List ℕ
  pub validate_draft : DraftOutput → ValidationReport
  pub resolve_evidence : List ℕ → Option (List ℕ)
  pub structured : ℕ → List ℕ → Answer DraftOutput
  pub verdict : ℕ → DraftClaim → List ℕ → Answer ClaimVerdict
  pub unverified : DraftClaim → List ℕ → List ℕ
  pub unsupported : DraftClaim → List ℕ → List ℕ

abbrev pub is_reply : MessageKind → Bool
is_reply reply = true
is_reply _ = false

-- A draft's prompt version and a reply's.
abbrev pub prompt_version_of : MessageKind → String
prompt_version_of k = if is_reply k then "reply.v1" else "draft.v1"

judged_claim : Task → DraftClaim → Answer ClaimVerdict → ValidationReport → ValidationReport
judged_claim t c (invalid_output e) r = warn (t.unverified c e) r
judged_claim t c (llm_error e) r = warn (t.unverified c e) r
judged_claim t c (answered v) r = if v.supported then r else fail (t.unsupported c v.reason) r

-- `_check_claims`; evidence that does not resolve was reported before.
unfoldable pub check_claims : Task → ℕ → List DraftClaim → ValidationReport → ValidationReport
unfolding judged_claim
check_claims t n [] r = r
check_claims t n (c ∷ cs) r = check_claims t n cs (elim (t.resolve_evidence c.evidence_ref) [
  | none ↦ r
  | some evidence ↦ judged_claim t c (t.verdict n c evidence) r
])

abbrev pub needs_claim_check : Task → DraftOutput → Bool
needs_claim_check t d = passed (t.validate_draft d) && t.check_claims && not (is_none_of d.claims)

unfoldable pub report_on : Task → ℕ → DraftOutput → ValidationReport
report_on t n d =
    if needs_claim_check t d
    then check_claims t n d.claims (t.validate_draft d)
    else t.validate_draft d

abbrev pub with_attempt : DraftAttempt → DraftResult → DraftResult
with_attempt a r = record r { attempts = r.attempts ++ a ∷ [] }

abbrev pub failed_attempt : List ℕ → DraftAttempt
failed_attempt e = record { draft = none; report = none; error = some e }

-- The attempt that gave a text.
unfoldable pub with_text : Task → DraftOutput → DraftResult → DraftResult
with_text t d r =
    with_attempt
      (record { draft = some d; report = some (report_on t (length r.attempts) d); error = none })
      (record r { claims_checked = r.claims_checked || needs_claim_check t d })

abbrev pub not_json : List ℕ
not_json =
    codes
      "Your previous response was not valid JSON matching the required schema. Return exactly the fields requested."

-- `attempts_left` passes of the loop.
unfoldable pub attempts_loop : Task → ℕ → Option (List ℕ) → DraftResult → DraftResult
attempts_loop t zero feedback r = r
attempts_loop t (suc n) feedback r =
    elim (t.structured (length r.attempts) (t.build_draft_prompt feedback)) [
      | invalid_output e ↦ attempts_loop t n (some not_json) (with_attempt (failed_attempt e) r)
      | llm_error e ↦ with_attempt (failed_attempt e) r
      | answered d ↦ elim (report_on t (length r.attempts) d).failures [
        | [] ↦ record (with_text t d r) { draft = some d }
        | f ∷ fs ↦ attempts_loop t n (some (feedback_lines (f ∷ fs))) (with_text t d r)
      ]
    ]

abbrev pub no_attempts : Task → DraftResult
no_attempts t = record {
  draft = none;
  attempts = [];
  prompt_version = prompt_version_of t.kind;
  claims_checked = false;
}

unfoldable pub generate_draft : Task → DraftResult
generate_draft t = attempts_loop t (max 1 t.max_attempts) t.reviewer_feedback (no_attempts t)
