-- ===== src/Intervention/Types.antt =====
-- The data of apps/runtime/src/lilavel_runtime/intervention.py: the coarse states of the
-- environment, the context that a decision is checked against, and its result.
use lilavel_runtime.Prelude.{
  ℕ, Bool, true, false, Option, List, not, ◌&&◌, length, leb, is_unique, is_empty, if◌then◌else◌,
}
use lilavel_runtime.SemanticActor.Types.{SemanticPriority, SemanticSourceKind}
use lilavel_runtime.Intervention.Reasons.{
  InterventionDecision, CognitionReasonCode, CognitionReasonCode_Comparable,
}

abbrev pub max_intervention_reason_codes : ℕ
max_intervention_reason_codes = 8

pub data InterventionValue : Type 0 where
  none : InterventionValue
  response_obligation : InterventionValue
  material_contribution : InterventionValue

pub data SpeakingSurfaceState : Type 0 where
  available : SpeakingSurfaceState
  unavailable : SpeakingSurfaceState

pub data FloorState : Type 0 where
  unknown : FloorState
  free : FloorState
  busy : FloorState

pub data ActivityState : Type 0 where
  unknown : ActivityState
  current : ActivityState
  not_current : ActivityState

pub data FreshnessClass : Type 0 where
  reactive : FreshnessClass
  continuity : FreshnessClass
  internal : FreshnessClass
  temporal : FreshnessClass

pub data FreshnessBucket : Type 0 where
  fresh : FreshnessBucket
  aging : FreshnessBucket
  stale : FreshnessBucket

pub data RecentSpeechState : Type 0 where
  clear : RecentSpeechState
  recent : RecentSpeechState

pub data InterventionBudgetState : Type 0 where
  available : InterventionBudgetState
  exhausted : InterventionBudgetState

pub data HandlingState : Type 0 where
  unknown : HandlingState
  unresolved : HandlingState
  handled : HandlingState

pub data SocialSensitivity : Type 0 where
  ordinary : SocialSensitivity
  vulnerable : SocialSensitivity

pub record FreshnessProfile : Type 0 where
  pub respond_until : FreshnessBucket
  pub interject_until : FreshnessBucket

-- The mapping covers every class, so it is a function.
pub record FreshnessPolicy : Type 0 where
  pub profiles : FreshnessClass → FreshnessProfile

pub record InterventionCandidate : Type 0 where
  pub decision : InterventionDecision
  pub reason_codes : List CognitionReasonCode
  pub semantic_value : InterventionValue

pub record SocialPermissionContext : Type 0 where
  pub priority : SemanticPriority
  pub source_kind : SemanticSourceKind
  pub speaking_surface : SpeakingSurfaceState
  pub freshness_class : FreshnessClass
  pub freshness : FreshnessBucket
  pub activity : ActivityState
  pub floor : FloorState
  pub recent_speech : RecentSpeechState
  pub intervention_budget : InterventionBudgetState
  pub handling : HandlingState
  pub sensitivity : SocialSensitivity
  pub response_obligation : Bool
  pub continuity_current : Bool

pub record SocialPermissionResult : Type 0 where
  pub candidate_decision : InterventionDecision
  pub decision : InterventionDecision
  pub permitted : Bool
  pub reason_codes : List CognitionReasonCode

-- The checks that candidates and results make on their reason codes.
unfoldable pub reason_codes_valid : List CognitionReasonCode → Bool
reason_codes_valid codes =
    not (is_empty codes) && leb (length codes) max_intervention_reason_codes && is_unique codes

-- The value that a decision stands for.
abbrev pub value_of : InterventionDecision → InterventionValue
value_of InterventionDecision.none = InterventionValue.none
value_of InterventionDecision.respond = InterventionValue.response_obligation
value_of InterventionDecision.interject = InterventionValue.material_contribution

abbrev pub same_value : InterventionValue → InterventionValue → Bool
same_value InterventionValue.none InterventionValue.none = true
same_value InterventionValue.response_obligation InterventionValue.response_obligation = true
same_value InterventionValue.material_contribution InterventionValue.material_contribution = true
same_value _ _ = false

-- The constructor of a candidate, with nothing where `__post_init__` raises.
unfoldable pub intervention_candidate :
    InterventionDecision
    → List CognitionReasonCode
    → Option InterventionValue
    → Option InterventionCandidate
intervention_candidate d codes value =
    let v : InterventionValue = elim value [ Option.none ↦ value_of d | Option.some v ↦ v ] in
    if reason_codes_valid codes && same_value v (value_of d)
    then Option.some (record { decision = d; reason_codes = codes; semantic_value = v })
    else Option.none

abbrev pub speaks : InterventionDecision → Bool
speaks InterventionDecision.none = false
speaks _ = true

abbrev pub same_flag : Bool → Bool → Bool
same_flag true b = b
same_flag false b = not b

-- The constructor of a result, with nothing where `__post_init__` raises.
unfoldable pub social_permission_result :
    InterventionDecision
    → InterventionDecision
    → Bool
    → List CognitionReasonCode
    → Option SocialPermissionResult
social_permission_result candidate d permitted codes =
    if reason_codes_valid codes && same_flag permitted (speaks d)
    then Option.some (record {
      candidate_decision = candidate;
      decision = d;
      permitted = permitted;
      reason_codes = codes;
    })
    else Option.none
