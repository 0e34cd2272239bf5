-- ===== src/Intervention/Tests.antt =====
-- Candidates and calls on concrete values, and the promises at them.
use lilavel_runtime.Prelude.{
  ◌+◌, ◌≤◌, ◌≡◌, ◌↔◌, refl, true, false, Option, List, [], ◌∷◌, arith, take,
}
use lilavel_runtime.SemanticActor.Types.{SemanticPriority, SemanticSourceKind}
use lilavel_runtime.Intervention.Reasons.{InterventionDecision, CognitionReasonCode, same_code}
use lilavel_runtime.Intervention.Types.{
  SpeakingSurfaceState, FloorState, ActivityState, FreshnessClass, FreshnessBucket,
  RecentSpeechState, InterventionBudgetState, HandlingState, SocialSensitivity, FreshnessPolicy,
  InterventionValue, InterventionCandidate, SocialPermissionContext, reason_codes_valid,
  intervention_candidate,
}
use lilavel_runtime.Intervention.Policy.{
  default_freshness_profiles, allows, add_reasons, bounded_reasons, Evaluation, evaluate,
}
use lilavel_runtime.Intervention.Bounded.{first_seen, bounded_reasons_lem}
use lilavel_runtime.Intervention.Permission.{
  Permitted, Sound, permission, evaluate_total, speaks_iff_Permitted,
}
use lilavel_runtime.Intervention.Accounting.{SpeechAccounting}
use lilavel_runtime.Intervention.Budget.{
  Call, confirms, clears, replenishes, after_all, budgeted, replenished, remaining_within_bound,
  budget_is_spent, default_interject_is_fresh,
}

abbrev default_policy : FreshnessPolicy
default_policy = record { profiles = default_freshness_profiles }

abbrev remark : InterventionCandidate
remark = record {
  decision = InterventionDecision.interject;
  reason_codes = CognitionReasonCode.contradiction ∷ CognitionReasonCode.high_relevance ∷ [];
  semantic_value = InterventionValue.material_contribution;
}

abbrev opportunity : SocialPermissionContext
opportunity = record {
  priority = SemanticPriority.non_user;
  source_kind = SemanticSourceKind.external;
  speaking_surface = SpeakingSurfaceState.available;
  freshness_class = FreshnessClass.reactive;
  freshness = FreshnessBucket.fresh;
  activity = ActivityState.current;
  floor = FloorState.free;
  recent_speech = RecentSpeechState.clear;
  intervention_budget = InterventionBudgetState.available;
  handling = HandlingState.unresolved;
  sensitivity = SocialSensitivity.ordinary;
  response_obligation = false;
  continuity_current = false;
}

remark_valid : reason_codes_valid remark.reason_codes ≡ true
unfolding reason_codes_valid same_code
remark_valid = refl

remark_constructs :
    intervention_candidate remark.decision remark.reason_codes Option.none ≡ Option.some remark
unfolding intervention_candidate reason_codes_valid same_code
remark_constructs = refl

evaluate_total_example : Sound remark opportunity (evaluate default_policy remark opportunity)
evaluate_total_example = evaluate_total default_policy remark opportunity remark_valid

speaks_iff_Permitted_example :
    (evaluate default_policy remark opportunity ≡ Evaluation.resolved (permission remark))
    ↔ Permitted default_policy remark opportunity
speaks_iff_Permitted_example =
    speaks_iff_Permitted default_policy remark opportunity remark_valid refl

remark_is_permitted :
    evaluate default_policy remark opportunity ≡ Evaluation.resolved (permission remark)
unfolding allows same_code
remark_is_permitted = speaks_iff_Permitted_example.1 (record {
  not_user = refl;
  surface = refl;
  floor = refl;
  activity = refl;
  fresh = refl;
  budget = refl;
  earned = (refl, refl, refl, refl, refl);
})

abbrev twice : List CognitionReasonCode
twice = CognitionReasonCode.repetition ∷ CognitionReasonCode.repetition ∷ []

bounded_reasons_lem_example :
    bounded_reasons (CognitionReasonCode.floor_busy ∷ []) twice
    ≡ take 8 (first_seen [] (CognitionReasonCode.floor_busy ∷ twice))
bounded_reasons_lem_example = bounded_reasons_lem (CognitionReasonCode.floor_busy ∷ []) twice

twice_once :
    bounded_reasons (CognitionReasonCode.floor_busy ∷ []) twice
    ≡ CognitionReasonCode.floor_busy ∷ CognitionReasonCode.repetition ∷ []
unfolding bounded_reasons add_reasons same_code
twice_once = refl

abbrev one_left : SpeechAccounting
one_left = record {
  remaining_budget = 1;
  recent_speech = RecentSpeechState.clear;
  confirmed_speech_count = 0;
}

abbrev calls : List Call
calls =
    confirms InterventionDecision.interject
    ∷ confirms InterventionDecision.interject
    ∷ clears
    ∷ replenishes 2
    ∷ []

budget_is_spent_example :
    budgeted calls one_left + (after_all calls one_left).remaining_budget
    ≤ one_left.remaining_budget + replenished calls
budget_is_spent_example = budget_is_spent calls one_left

remaining_within_bound_example : (after_all calls one_left).remaining_budget ≤ 256
remaining_within_bound_example = remaining_within_bound calls one_left (omega arith)

default_interject_is_fresh_example :
    (allows
        (record { profiles = default_freshness_profiles })
        FreshnessClass.temporal
        InterventionDecision.interject
        FreshnessBucket.fresh
      ≡ true)
    ↔ (FreshnessBucket.fresh ≡ FreshnessBucket.fresh)
default_interject_is_fresh_example =
    default_interject_is_fresh FreshnessClass.temporal FreshnessBucket.fresh
