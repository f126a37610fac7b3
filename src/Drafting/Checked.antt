-- ===== src/Drafting/Checked.antt =====
-- app/services/drafting/generator.py: how often a draft is tried, and what a draft that is accepted
-- went through.
use Prim.Native.Nat.{max}
use outreach_automation.Prelude.{
  ℕ, zero, suc, ◌+◌, ◌-◌, ◌≤◌, Bool, true, false, ◌≡◌, refl, ap, subst, ◌∙◌, List, [], ◌∷◌, ◌++◌,
  All, Option, none, some, arith, if◌then◌else◌, length, length-append, some-eq,
}
use outreach_automation.Db.{DraftClaim}
use outreach_automation.Drafting.{
  ClaimVerdict, DraftOutput, ValidationReport, passed, is_none_of, fail, warn, feedback_lines,
  DraftAttempt, DraftResult, last, last_draft, Answer, answered, invalid_output, llm_error, Task,
  judged_claim, check_claims, needs_claim_check, report_on, with_attempt, failed_attempt, with_text,
  not_json, attempts_loop, no_attempts, generate_draft,
}

is_none_of-snoc : {A : Type 0} (xs : List A) (a : A) → is_none_of (xs ++ a ∷ []) ≡ false
is_none_of-snoc [] a = refl
is_none_of-snoc (x ∷ xs) a = refl

last-snoc : {A : Type 0} (xs : List A) (a : A) → last (xs ++ a ∷ []) ≡ some a
last-snoc [] a = refl
last-snoc (x ∷ xs) a = ap (λ o. elim o [ none ↦ some x | some y ↦ some y ]) (last-snoc xs a)

-- A claim check never takes a failure back.
judged_claim-keeps :
    (t : Task) (c : DraftClaim) (a : Answer _) (r : ValidationReport)
    → passed (judged_claim t c a r) ≡ true
    → passed r ≡ true
unfolding judged_claim fail warn
judged_claim-keeps t c (invalid_output e) r h = h
judged_claim-keeps t c (llm_error e) r h = h
judged_claim-keeps t c (answered v) r h =
    ground (arith, is_none_of-snoc r.failures (t.unsupported c v.reason))

check_claims-keeps :
    (t : Task) (n : ℕ) (cs : List DraftClaim) (r : ValidationReport)
    → passed (check_claims t n cs r) ≡ true
    → passed r ≡ true
unfolding check_claims
check_claims-keeps t n [] r h = h
check_claims-keeps t n (c ∷ cs) r h =
    go (t.resolve_evidence c.evidence_ref) (check_claims-keeps t n cs _ h)
  where
    go :
        (o : Option (List ℕ))
        → passed (elim o [ none ↦ r | some evidence ↦ judged_claim t c (t.verdict n c evidence) r ])
          ≡ true
        → passed r ≡ true
    go none k = k
    go (some evidence) k = judged_claim-keeps t c (t.verdict n c evidence) r k

-- An answer that finds a claim unsupported is a failure.
judged_claim-supported :
    (t : Task) (c : DraftClaim) (v : ClaimVerdict) (r : ValidationReport)
    → passed (judged_claim t c (answered v) r) ≡ true
    → v.supported ≡ true
unfolding judged_claim fail
judged_claim-supported t c v r h =
    ground (arith, is_none_of-snoc r.failures (t.unsupported c v.reason))

-- The verdict on a claim whose evidence resolves, if the model gave one in an attempt, is that the
-- evidence supports it.
abbrev pub IsSupported : Task → ℕ → DraftClaim → Type 0
IsSupported t n c =
    (evidence : List ℕ) (v : ClaimVerdict)
    → t.resolve_evidence c.evidence_ref ≡ some evidence
    → t.verdict n c evidence ≡ answered v
    → v.supported ≡ true

check_claims-IsSupported :
    (t : Task) (n : ℕ) (cs : List DraftClaim) (r : ValidationReport)
    → passed (check_claims t n cs r) ≡ true
    → All (IsSupported t n) cs
unfolding check_claims
check_claims-IsSupported t n [] r h = tt
check_claims-IsSupported t n (c ∷ cs) r h = (
  λ evidence v e k. judged_claim-supported t c v r (
      subst (λ a. passed (judged_claim t c a r) ≡ true) k
        (subst
          (λ o. passed (elim o [ none ↦ r | some x ↦ judged_claim t c (t.verdict n c x) r ]) ≡ true)
          e (check_claims-keeps t n cs _ h))),
  check_claims-IsSupported t n cs _ h,
)

report_on-checked :
    (t : Task) (n : ℕ) (d : DraftOutput)
    → passed (report_on t n d) ≡ true
    → passed (t.validate_draft d) ≡ true
unfolding report_on
report_on-checked t n d h = go (needs_claim_check t d) h
  where
    go :
        (b : Bool)
        → passed (if b then check_claims t n d.claims (t.validate_draft d) else t.validate_draft d)
          ≡ true
        → passed (t.validate_draft d) ≡ true
    go true k = check_claims-keeps t n d.claims (t.validate_draft d) k
    go false k = k

report_on-IsSupported :
    (t : Task) (n : ℕ) (d : DraftOutput)
    → t.check_claims ≡ true
    → passed (report_on t n d) ≡ true
    → All (IsSupported t n) d.claims
unfolding report_on
report_on-IsSupported t n d on h = go d.claims refl
  where
    go : (cs : List DraftClaim) → d.claims ≡ cs → All (IsSupported t n) cs
    go [] e = tt
    go (c ∷ cs) e =
        check_claims-IsSupported t n (c ∷ cs) (t.validate_draft d)
          (ground (arith, e, on, h, report_on-checked t n d h))

-- What `generate_draft` answers: a draft only if it is the last attempt's, and no rule and no claim
-- check spoke against it.
pub record IsChecked (t : Task) (r : DraftResult) : Type 0 where
  pub latest : (d : DraftOutput) → r.draft ≡ some d → last_draft r.attempts ≡ some d
  pub rules : (d : DraftOutput) → r.draft ≡ some d → passed (t.validate_draft d) ≡ true
  pub claims :
      (d : DraftOutput)
      → r.draft ≡ some d
      → t.check_claims ≡ true
      → (n : ℕ) × (length r.attempts ≡ n + 1) × All (IsSupported t n) d.claims

empty-IsChecked : (t : Task) (r : DraftResult) → r.draft ≡ none → IsChecked t r
empty-IsChecked t r e = record {
  latest = λ d h. absurd (cc);
  rules = λ d h. absurd (cc);
  claims = λ d h on. absurd (cc);
}

accepted-IsChecked :
    (t : Task) (d : DraftOutput) (r : DraftResult)
    → (report_on t (length r.attempts) d).failures ≡ []
    → IsChecked t (record (with_text t d r) { draft = some d })
unfolding with_text last_draft
accepted-IsChecked t d r e = record {
  latest = λ d' h. ap (λ o. elim o [ none ↦ none | some a ↦ a.draft ]) (last-snoc r.attempts _) ∙ h;
  rules = λ d' h.
      subst (λ x. passed (t.validate_draft x) ≡ true) (some-eq h)
        (report_on-checked t (length r.attempts) d (ap is_none_of e));
  claims = λ d' h on. (
    length r.attempts,
    length-append r.attempts _,
    subst (λ (x : DraftOutput). All (IsSupported t (length r.attempts)) x.claims) (some-eq h)
        (report_on-IsSupported t (length r.attempts) d on (ap is_none_of e)),
  );
}

-- The number of attempts grows by at least one and at most `n`, where `n` are left.
abbrev Grows : ℕ → DraftResult → DraftResult → Type 0
Grows n r r' =
    (length r.attempts + (n - (n - 1)) ≤ length r'.attempts)
    × (length r'.attempts ≤ length r.attempts + n)

with_attempt-longer :
    (a : DraftAttempt) (r : DraftResult)
    → length (with_attempt a r).attempts ≡ length r.attempts + 1
with_attempt-longer a r = length-append r.attempts (a ∷ [])

one_more :
    (n : ℕ) (r r1 r' : DraftResult)
    → length r1.attempts ≡ length r.attempts + 1
    → Grows n r1 r'
    → Grows (suc n) r r'
one_more n r r1 r' e g = (omega (arith, e, g.0, g.1), omega (arith, e, g.0, g.1))

just_one :
    (n : ℕ) (r r' : DraftResult) → length r'.attempts ≡ length r.attempts + 1 → Grows (suc n) r r'
just_one n r r' e = (omega arith, omega arith)

attempts_loop-IsChecked :
    (t : Task) (n : ℕ) (feedback : Option (List ℕ)) (r : DraftResult)
    → r.draft ≡ none
    → IsChecked t (attempts_loop t n feedback r) × Grows n r (attempts_loop t n feedback r)
unfolding attempts_loop with_text
attempts_loop-IsChecked t zero feedback r e = (empty-IsChecked t r e, (omega arith, omega arith))
attempts_loop-IsChecked t (suc n) feedback r e =
    go (attempts_loop-IsChecked t n)
      (t.structured (length r.attempts) (t.build_draft_prompt feedback))
  where
    Good : DraftResult → Type 0
    Good r' = IsChecked t r' × Grows (suc n) r r'

    judged :
        ((f : Option (List ℕ)) (q : DraftResult)
          → q.draft ≡ none
          → IsChecked t (attempts_loop t n f q) × Grows n q (attempts_loop t n f q))
        → (d : DraftOutput) (fs : List (List ℕ)) → (report_on t (length r.attempts) d).failures ≡ fs
        → Good (elim fs [
          | [] ↦ record (with_text t d r) { draft = some d }
          | g ∷ gs ↦ attempts_loop t n (some (feedback_lines (g ∷ gs))) (with_text t d r)
        ])
    judged again d [] k = (
      accepted-IsChecked t d r k,
      just_one n r (record (with_text t d r) { draft = some d }) (length-append r.attempts _),
    )
    judged again d (g ∷ gs) k =
        let w = again (some (feedback_lines (g ∷ gs))) (with_text t d r) e in
        (
          w.0,
          one_more n r (with_text t d r)
              (attempts_loop t n (some (feedback_lines (g ∷ gs))) (with_text t d r))
              (length-append r.attempts _) w.1,
        )

    go :
        ((f : Option (List ℕ)) (q : DraftResult)
          → q.draft ≡ none
          → IsChecked t (attempts_loop t n f q) × Grows n q (attempts_loop t n f q))
        → (a : Answer DraftOutput)
        → Good (elim a [
          | invalid_output x ↦ attempts_loop t n (some not_json) (with_attempt (failed_attempt x) r)
          | llm_error x ↦ with_attempt (failed_attempt x) r
          | answered d ↦ elim (report_on t (length r.attempts) d).failures [
            | [] ↦ record (with_text t d r) { draft = some d }
            | g ∷ gs ↦ attempts_loop t n (some (feedback_lines (g ∷ gs))) (with_text t d r)
          ]
        ])
    go again (invalid_output x) =
        let w = again (some not_json) (with_attempt (failed_attempt x) r) e in
        (
          w.0,
          one_more n r (with_attempt (failed_attempt x) r)
              (attempts_loop t n (some not_json) (with_attempt (failed_attempt x) r))
              (with_attempt-longer (failed_attempt x) r) w.1,
        )
    go again (llm_error x) = (
      empty-IsChecked t (with_attempt (failed_attempt x) r) e,
      just_one n r (with_attempt (failed_attempt x) r) (with_attempt-longer (failed_attempt x) r),
    )
    go again (answered d) = judged again d (report_on t (length r.attempts) d).failures refl

at_least_one : (m l : ℕ) → 0 + (max 1 m - (max 1 m - 1)) ≤ l → 1 ≤ l
at_least_one m l h = ground arith

-- A draft is tried at least once and at most as often as the campaign allows, or once if that is 0.
-- The draft that is answered, if one is, is the text of the last attempt; the deterministic rules
-- found nothing against it; and if the campaign has its claims checked, the model's verdict on each
-- of its claims whose evidence resolves, where that attempt got one, is that the evidence supports it.
pub generate_draft-IsChecked :
    (t : Task)
    → IsChecked t (generate_draft t)
      × (1 ≤ length (generate_draft t).attempts)
      × (length (generate_draft t).attempts ≤ max 1 t.max_attempts)
unfolding generate_draft
generate_draft-IsChecked t =
    let w =
      attempts_loop-IsChecked t (max 1 t.max_attempts) t.reviewer_feedback (no_attempts t) refl in
    (w.0, at_least_one t.max_attempts _ w.1.0, omega (arith, w.1.1))
