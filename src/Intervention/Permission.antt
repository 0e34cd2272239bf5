-- ===== src/Intervention/Permission.antt =====
-- `DeterministicInterventionPolicy.evaluate`: its results and the conditions of a permission.
use lilavel_runtime.Prelude.{
  ◌≡◌, ◌↔◌, refl, sym, ◌∙◌, ◌⊎◌, inl, inr, Bool, true, false, List, [], ◌∷◌, ◌||◌, arith, contains,
  if-cases, if_not-cases,
}
use lilavel_runtime.SemanticActor.Types.{is_user}
use lilavel_runtime.Intervention.Reasons.{
  InterventionDecision, CognitionReasonCode, CognitionReasonCode_Comparable,
}
use lilavel_runtime.Intervention.Types.{
  HandlingState, FreshnessPolicy, InterventionCandidate, SocialPermissionContext,
  SocialPermissionResult, social_permission_result, reason_codes_valid, speaks, same_flag,
}
use lilavel_runtime.Intervention.Policy.{
  allows, bounded_reasons, Evaluation, denied, allowed, is_user_source, is_unavailable, is_busy,
  is_current, is_exhausted, is_handled, is_unresolved, is_vulnerable, is_recent, any_supports,
  evaluate_interject, evaluate_decision, evaluate,
}
use lilavel_runtime.Intervention.Bounded.{bounded_reasons-valid, bounded_reasons-valid_nil}

-- What a decision needs of its own, behind the guards that all decisions share.
abbrev pub Earned : InterventionDecision → InterventionCandidate → SocialPermissionContext → Type 0
Earned InterventionDecision.none c x = Unit
Earned InterventionDecision.respond c x = (x.response_obligation || x.continuity_current) ≡ true
Earned InterventionDecision.interject c x =
    (is_unresolved x.handling ≡ true)
    × (is_vulnerable x.sensitivity ≡ false)
    × (is_recent x.recent_speech ≡ false)
    × (any_supports c.reason_codes ≡ true)
    × (contains CognitionReasonCode.interruption_cost_high c.reason_codes ≡ false)

-- The conditions under which the current state permits the candidate's decision.
pub record Permitted (p : FreshnessPolicy) (c : InterventionCandidate) (x : SocialPermissionContext)
    : Type 0 where
  pub not_user : (is_user x.priority || is_user_source x.source_kind) ≡ false
  pub surface : is_unavailable x.speaking_surface ≡ false
  pub floor : is_busy x.floor ≡ false
  pub activity : is_current x.activity ≡ true
  pub fresh : allows p x.freshness_class c.decision x.freshness ≡ true
  pub budget : is_exhausted x.intervention_budget ≡ false
  pub earned : Earned c.decision c x

-- The reason that `evaluate` adds when it allows a decision.
abbrev pub added : InterventionDecision → List CognitionReasonCode
added InterventionDecision.respond = CognitionReasonCode.response_obligation ∷ []
added _ = []

unresolved_open : (h : HandlingState) → is_unresolved h ≡ true → is_handled h ≡ false
unresolved_open h e = ground arith

evaluate_decision-Earned :
    (d : InterventionDecision) (c : InterventionCandidate) (x : SocialPermissionContext)
    → Earned d c x
    → evaluate_decision d c x ≡ allowed c d (added d)
unfolding evaluate_decision evaluate_interject
evaluate_decision-Earned InterventionDecision.none c x h = refl
evaluate_decision-Earned InterventionDecision.respond c x h = rw h refl
evaluate_decision-Earned InterventionDecision.interject c x h =
    rw (h.0, h.1, h.2, h.3, h.4, unresolved_open x.handling h.0) refl

evaluate-Permitted :
    (p : FreshnessPolicy) (c : InterventionCandidate) (x : SocialPermissionContext)
    → Permitted p c x
    → evaluate p c x ≡ allowed c c.decision (added c.decision)
unfolding evaluate
evaluate-Permitted p c x h =
    rw (h.not_user, h.surface, h.floor, h.activity, h.fresh, h.budget)
      (evaluate_decision-Earned c.decision c x h.earned)

module _ {ℓ} (P : Evaluation → Type ℓ) (c : InterventionCandidate)
    (x : SocialPermissionContext) where
  decision_cases :
      (d : InterventionDecision)
      → ((reason : CognitionReasonCode) → P (denied c reason))
      → (Earned d c x → P (allowed c d (added d)))
      → P (evaluate_decision d c x)
  unfolding evaluate_decision evaluate_interject
  decision_cases InterventionDecision.none deny allow = allow tt
  decision_cases InterventionDecision.respond deny allow =
      if_not-cases P (x.response_obligation || x.continuity_current) _ _
        (λ _. deny CognitionReasonCode.no_response_obligation) allow
  decision_cases InterventionDecision.interject deny allow =
      if-cases P (is_handled x.handling) _ _ (λ _. deny CognitionReasonCode.already_handled)
        (λ ha.
          if_not-cases P (is_unresolved x.handling) _ _
            (λ _. deny CognitionReasonCode.stale_context)
            (λ un.
              if-cases P (is_vulnerable x.sensitivity) _ _
                (λ _. deny CognitionReasonCode.vulnerability)
                (λ vu.
                  if-cases P (is_recent x.recent_speech) _ _
                    (λ _. deny CognitionReasonCode.social_backoff)
                    (λ re.
                      if_not-cases P (any_supports c.reason_codes) _ _
                        (λ _. deny CognitionReasonCode.interruption_cost_high)
                        (λ su.
                          if-cases P
                            (contains CognitionReasonCode.interruption_cost_high c.reason_codes) _ _
                            (λ _. deny CognitionReasonCode.interruption_cost_high)
                            (λ co. allow (un, vu, re, su, co)))))))

  evaluate_cases :
      (p : FreshnessPolicy)
      → ((is_user x.priority || is_user_source x.source_kind) ≡ true → P Evaluation.excluded)
      → ((reason : CognitionReasonCode) → P (denied c reason))
      → (Permitted p c x → P (allowed c c.decision (added c.decision)))
      → P (evaluate p c x)
  unfolding evaluate
  evaluate_cases p user deny allow =
      if-cases P (is_user x.priority || is_user_source x.source_kind) _ _ user (λ nu.
        if-cases P (is_unavailable x.speaking_surface) _ _
          (λ _. deny CognitionReasonCode.no_speaking_surface)
          (λ su.
            if-cases P (is_busy x.floor) _ _ (λ _. deny CognitionReasonCode.floor_busy)
              (λ fl.
                if_not-cases P (is_current x.activity) _ _
                  (λ _. deny CognitionReasonCode.stale_context)
                  (λ ac.
                    if_not-cases P (allows p x.freshness_class c.decision x.freshness) _ _
                      (λ _. deny CognitionReasonCode.stale_context)
                      (λ fr.
                        if-cases P (is_exhausted x.intervention_budget) _ _
                          (λ _. deny CognitionReasonCode.intervention_budget_exhausted)
                          (λ bu. decision_cases c.decision deny (λ e. allow (record {
                            not_user = nu;
                            surface = su;
                            floor = fl;
                            activity = ac;
                            fresh = fr;
                            budget = bu;
                            earned = e;
                          }))))))))

-- What a denial gives.
abbrev pub denied_result : InterventionCandidate → CognitionReasonCode → SocialPermissionResult
denied_result c reason = record {
  candidate_decision = c.decision;
  decision = InterventionDecision.none;
  permitted = false;
  reason_codes = bounded_reasons (reason ∷ []) c.reason_codes;
}

-- A denial keeps the checks of its result.
denied_resolved :
    (c : InterventionCandidate) (reason : CognitionReasonCode)
    → denied c reason ≡ Evaluation.resolved (denied_result c reason)
unfolding denied social_permission_result
denied_resolved c reason = rw (bounded_reasons-valid reason c.reason_codes) refl

-- What `evaluate` gives when it allows the decision.
abbrev pub permission : InterventionCandidate → SocialPermissionResult
permission c = record {
  candidate_decision = c.decision;
  decision = c.decision;
  permitted = speaks c.decision;
  reason_codes = bounded_reasons (added c.decision) c.reason_codes;
}

same_flag_refl : (b : Bool) → same_flag b b ≡ true
same_flag_refl true = refl
same_flag_refl false = refl

added-valid :
    (d : InterventionDecision) (codes : List CognitionReasonCode)
    → reason_codes_valid codes ≡ true
    → reason_codes_valid (bounded_reasons (added d) codes) ≡ true
unfolding reason_codes_valid
added-valid InterventionDecision.respond codes h = bounded_reasons-valid _ codes
added-valid InterventionDecision.none [] h = ground arith
added-valid InterventionDecision.none (c ∷ cs) h = bounded_reasons-valid_nil c cs
added-valid InterventionDecision.interject [] h = ground arith
added-valid InterventionDecision.interject (c ∷ cs) h = bounded_reasons-valid_nil c cs

allowed_resolved :
    (c : InterventionCandidate)
    → reason_codes_valid c.reason_codes ≡ true
    → allowed c c.decision (added c.decision) ≡ Evaluation.resolved (permission c)
unfolding allowed social_permission_result
allowed_resolved c h =
    rw (added-valid c.decision c.reason_codes h, same_flag_refl (speaks c.decision)) refl

-- What `evaluate` may give for a candidate: user work is excluded, and all else has a result that
-- passes its own checks.
abbrev pub Sound : InterventionCandidate → SocialPermissionContext → Evaluation → Type 0
Sound c x e =
    (((is_user x.priority || is_user_source x.source_kind) ≡ true) × (e ≡ Evaluation.excluded))
    ⊎ ((r : SocialPermissionResult) × (e ≡ Evaluation.resolved r)
        × (reason_codes_valid r.reason_codes ≡ true)
        × (r.candidate_decision ≡ c.decision)
        × (r.permitted ≡ speaks r.decision))

-- `evaluate` on a candidate with valid reason codes excludes user work, and otherwise gives a
-- result that passes its own checks: one to eight unique reasons, the candidate's decision, and a
-- flag that agrees with the decision.
pub evaluate_total :
    (p : FreshnessPolicy) (c : InterventionCandidate) (x : SocialPermissionContext)
    → reason_codes_valid c.reason_codes ≡ true
    → Sound c x (evaluate p c x)
evaluate_total p c x h =
    evaluate_cases (Sound c x) c x p (λ user. inl (user, refl))
      (λ reason. inr (
        denied_result c reason,
        denied_resolved c reason,
        bounded_reasons-valid reason c.reason_codes,
        refl,
        refl,
      ))
      (λ _.
        inr
          (permission c, allowed_resolved c h, added-valid c.decision c.reason_codes h, refl, refl))

denial_is_silent :
    (c : InterventionCandidate) (reason : CognitionReasonCode)
    → speaks c.decision ≡ true
    → denied c reason ≡ Evaluation.resolved (permission c)
    → ⊥
denial_is_silent c reason s e = silent (sym (denied_resolved c reason) ∙ e) s
  where
    silent :
        Evaluation.resolved (denied_result c reason) ≡ Evaluation.resolved (permission c)
        → speaks c.decision ≡ true
        → ⊥
    silent q t = cc

-- A candidate with valid reason codes that asks to speak gets the result that carries its
-- decision exactly when the work is not the user's, a surface is available, the floor is not
-- busy, the activity is current, the age is allowed, the budget is not exhausted, and the
-- decision's own conditions hold.
pub speaks_iff_Permitted :
    (p : FreshnessPolicy) (c : InterventionCandidate) (x : SocialPermissionContext)
    → reason_codes_valid c.reason_codes ≡ true
    → speaks c.decision ≡ true
    → (evaluate p c x ≡ Evaluation.resolved (permission c)) ↔ Permitted p c x
speaks_iff_Permitted p c x h s = (
  evaluate_cases (λ e. e ≡ Evaluation.resolved (permission c) → Permitted p c x) c x p (λ _ e. cc)
      (λ reason e. absurd (denial_is_silent c reason s e)) (λ ok _. ok),
  λ ok. evaluate-Permitted p c x ok ∙ allowed_resolved c h,
)
