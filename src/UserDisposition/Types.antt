-- ===== src/UserDisposition/Types.antt =====
-- The modes and outcomes of apps/runtime/src/lilavel_runtime/user_disposition.py, and
-- `TurnBehaviorResolution` of apps/core/src/lilavel_core/cognition.py with its checks. The guidance
-- that a behavior carries (working state, disposition, reasons) is a parameter: the resolver only
-- passes it on.
use lilavel_runtime.Prelude.{
  ℕ, String, Bool, true, false, Option, none, some, not, ◌&&◌, ◌||◌, is_some, if◌then◌else◌,
}
use lilavel_runtime.Prelude.Text.{is_bounded_text}

pub data DeliberationMode : Type 0 where
  default_only always_plan selective : DeliberationMode

pub data DeliberationDecision : Type 0 where
  fast plan : DeliberationDecision

pub data PlannerFallbackReason : Type 0 where
  rejected provider_failure timeout cancelled unexpected : PlannerFallbackReason

pub data TurnBehaviorSource : Type 0 where
  default planner : TurnBehaviorSource

pub data TurnBehaviorResolutionOutcome : Type 0 where
  not_invoked accepted rejected fallback : TurnBehaviorResolutionOutcome

pub record TurnBehavior (Guidance : Type 0) : Type 0 where
  pub guidance : Guidance
  pub source : TurnBehaviorSource

-- The fallback of the router has one value, so its field is a flag.
pub record TurnBehaviorResolution (Guidance : Type 0) : Type 0 where
  pub behavior : TurnBehavior Guidance
  pub planner_invoked : Bool
  pub outcome : TurnBehaviorResolutionOutcome
  pub fallback_reason : Option PlannerFallbackReason
  pub planner_duration_ms : Option ℕ
  pub materially_differs_from_default : Bool
  pub deliberation_decision : DeliberationDecision
  pub deliberation_mode : DeliberationMode
  pub deliberation_policy : Option String
  pub policy_failed : Bool

abbrev pub is_planner : TurnBehaviorSource → Bool
is_planner TurnBehaviorSource.planner = true
is_planner TurnBehaviorSource.default = false

abbrev pub is_not_invoked : TurnBehaviorResolutionOutcome → Bool
is_not_invoked TurnBehaviorResolutionOutcome.not_invoked = true
is_not_invoked _ = false

abbrev pub is_accepted : TurnBehaviorResolutionOutcome → Bool
is_accepted TurnBehaviorResolutionOutcome.accepted = true
is_accepted _ = false

unfoldable pub policy_text_valid : Option String → Bool
policy_text_valid none = true
policy_text_valid (some s) = is_bounded_text 128 s

-- The checks of `__post_init__` that types do not make.
unfoldable pub resolution_valid : {Guidance : Type 0} → TurnBehaviorResolution Guidance → Bool
resolution_valid r =
    policy_text_valid r.deliberation_policy
    && (r.planner_invoked || is_not_invoked r.outcome)
    && (if is_accepted r.outcome
        then is_planner r.behavior.source && not (is_some r.fallback_reason)
        else not (is_planner r.behavior.source))
    && not (is_not_invoked r.outcome && is_some r.fallback_reason)
