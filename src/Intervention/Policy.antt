-- ===== src/Intervention/Policy.antt =====
-- `FreshnessPolicy.allows` and `DeterministicInterventionPolicy.evaluate` of
-- apps/runtime/src/lilavel_runtime/intervention.py.
use lilavel_runtime.Prelude.{
  ℕ, Bool, true, false, Option, List, [], ◌∷◌, ◌++◌, not, ◌&&◌, ◌||◌, length, leb, ltb, contains,
  if◌then◌else◌,
}
use lilavel_runtime.SemanticActor.Types.{SemanticSourceKind, is_user}
use lilavel_runtime.Intervention.Reasons.{
  InterventionDecision, CognitionReasonCode, CognitionReasonCode_Comparable,
}
use lilavel_runtime.Intervention.Types.{
  max_intervention_reason_codes, SpeakingSurfaceState, FloorState, ActivityState, FreshnessClass,
  FreshnessBucket, RecentSpeechState, InterventionBudgetState, HandlingState, SocialSensitivity,
  FreshnessProfile, FreshnessPolicy, InterventionCandidate, SocialPermissionContext,
  SocialPermissionResult, social_permission_result, speaks,
}

abbrev pub default_profile : FreshnessProfile
default_profile = record {
  respond_until = FreshnessBucket.fresh;
  interject_until = FreshnessBucket.fresh;
}

abbrev pub default_freshness_profiles : FreshnessClass → FreshnessProfile
default_freshness_profiles FreshnessClass.continuity = record default_profile {
  respond_until = FreshnessBucket.aging;
}
default_freshness_profiles FreshnessClass.temporal = record default_profile {
  respond_until = FreshnessBucket.aging;
}
default_freshness_profiles _ = default_profile

abbrev pub freshness_rank : FreshnessBucket → ℕ
freshness_rank FreshnessBucket.fresh = 0
freshness_rank FreshnessBucket.aging = 1
freshness_rank FreshnessBucket.stale = 2

unfoldable pub allows :
    FreshnessPolicy → FreshnessClass → InterventionDecision → FreshnessBucket → Bool
allows p class d FreshnessBucket.stale = false
allows p class InterventionDecision.none age = true
allows p class InterventionDecision.respond age =
    leb (freshness_rank age) (freshness_rank (p.profiles class).respond_until)
allows p class InterventionDecision.interject age =
    leb (freshness_rank age) (freshness_rank (p.profiles class).interject_until)

-- The inner loop of `_bounded_reasons` over one group, after the reasons taken so far.
unfoldable pub add_reasons :
    List CognitionReasonCode → List CognitionReasonCode → List CognitionReasonCode
add_reasons reasons [] = reasons
add_reasons reasons (c ∷ cs) =
    add_reasons
      (if not (contains c reasons) && ltb (length reasons) max_intervention_reason_codes
        then reasons ++ c ∷ []
        else reasons)
      cs

-- `_bounded_reasons` of two groups
unfoldable pub bounded_reasons :
    List CognitionReasonCode → List CognitionReasonCode → List CognitionReasonCode
unfolding add_reasons
bounded_reasons first second = add_reasons (add_reasons [] first) second

-- What `evaluate` gives: `AmbientInterventionExcluded` is raised, the result's own checks raise, or
-- a result.
pub data Evaluation : Type 0 where
  excluded : Evaluation
  refused : Evaluation
  resolved : SocialPermissionResult → Evaluation

abbrev pub of_construction : Option SocialPermissionResult → Evaluation
of_construction Option.none = Evaluation.refused
of_construction (Option.some r) = Evaluation.resolved r

unfoldable pub denied : InterventionCandidate → CognitionReasonCode → Evaluation
denied c reason = of_construction (
    social_permission_result c.decision InterventionDecision.none false
      (bounded_reasons (reason ∷ []) c.reason_codes))

unfoldable pub allowed :
    InterventionCandidate → InterventionDecision → List CognitionReasonCode → Evaluation
allowed c d additional =
    of_construction
      (social_permission_result c.decision d (speaks d) (bounded_reasons additional c.reason_codes))

abbrev pub is_user_source : SemanticSourceKind → Bool
is_user_source SemanticSourceKind.user = true
is_user_source _ = false

abbrev pub is_unavailable : SpeakingSurfaceState → Bool
is_unavailable SpeakingSurfaceState.unavailable = true
is_unavailable _ = false

abbrev pub is_busy : FloorState → Bool
is_busy FloorState.busy = true
is_busy _ = false

abbrev pub is_current : ActivityState → Bool
is_current ActivityState.current = true
is_current _ = false

abbrev pub is_exhausted : InterventionBudgetState → Bool
is_exhausted InterventionBudgetState.exhausted = true
is_exhausted _ = false

abbrev pub is_handled : HandlingState → Bool
is_handled HandlingState.handled = true
is_handled _ = false

abbrev pub is_unresolved : HandlingState → Bool
is_unresolved HandlingState.unresolved = true
is_unresolved _ = false

abbrev pub is_vulnerable : SocialSensitivity → Bool
is_vulnerable SocialSensitivity.vulnerable = true
is_vulnerable _ = false

abbrev pub is_recent : RecentSpeechState → Bool
is_recent RecentSpeechState.recent = true
is_recent _ = false

-- `_INTERJECT_SUPPORTING_REASONS`
abbrev pub supports_interject : CognitionReasonCode → Bool
supports_interject CognitionReasonCode.contradiction = true
supports_interject CognitionReasonCode.evidence_update = true
supports_interject CognitionReasonCode.ambiguity_material = true
supports_interject CognitionReasonCode.critical_event = true
supports_interject CognitionReasonCode.constraint_forgotten = true
supports_interject CognitionReasonCode.discussion_stuck = true
supports_interject CognitionReasonCode.unique_information = true
supports_interject _ = false

abbrev pub any_supports : List CognitionReasonCode → Bool
any_supports [] = false
any_supports (c ∷ cs) = supports_interject c || any_supports cs

-- The branch of unsolicited initiative.
unfoldable pub evaluate_interject : InterventionCandidate → SocialPermissionContext → Evaluation
evaluate_interject c x =
    if is_handled x.handling
    then denied c CognitionReasonCode.already_handled
    else if not (is_unresolved x.handling)
    then denied c CognitionReasonCode.stale_context
    else if is_vulnerable x.sensitivity
    then denied c CognitionReasonCode.vulnerability
    else if is_recent x.recent_speech
    then denied c CognitionReasonCode.social_backoff
    else if not (any_supports c.reason_codes)
    then denied c CognitionReasonCode.interruption_cost_high
    else if contains CognitionReasonCode.interruption_cost_high c.reason_codes
    then denied c CognitionReasonCode.interruption_cost_high
    else allowed c InterventionDecision.interject []

-- The branches on the candidate's decision, which is the first argument.
unfoldable pub evaluate_decision :
    InterventionDecision → InterventionCandidate → SocialPermissionContext → Evaluation
evaluate_decision InterventionDecision.none c x = allowed c InterventionDecision.none []
evaluate_decision InterventionDecision.respond c x =
    if not (x.response_obligation || x.continuity_current)
    then denied c CognitionReasonCode.no_response_obligation
    else allowed c InterventionDecision.respond (CognitionReasonCode.response_obligation ∷ [])
evaluate_decision InterventionDecision.interject c x = evaluate_interject c x

unfoldable pub evaluate :
    FreshnessPolicy → InterventionCandidate → SocialPermissionContext → Evaluation
evaluate p c x =
    if is_user x.priority || is_user_source x.source_kind
    then Evaluation.excluded
    else if is_unavailable x.speaking_surface
    then denied c CognitionReasonCode.no_speaking_surface
    else if is_busy x.floor
    then denied c CognitionReasonCode.floor_busy
    else if not (is_current x.activity)
    then denied c CognitionReasonCode.stale_context
    else if not (allows p x.freshness_class c.decision x.freshness)
    then denied c CognitionReasonCode.stale_context
    else if is_exhausted x.intervention_budget
    then denied c CognitionReasonCode.intervention_budget_exhausted
    else evaluate_decision c.decision c x
