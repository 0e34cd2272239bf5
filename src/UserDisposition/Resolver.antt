-- ===== src/UserDisposition/Resolver.antt =====
-- `UserDispositionResolver.resolve`. What the policy, the planner and the clock give, and what the
-- cancellation token says at each test, is the turn.
use Prim.Native.Nat.{◌/◌}
use lilavel_runtime.Prelude.{
  ℕ, ◌-◌, String, Bool, true, false, Option, none, some, List, [], ◌∷◌, ◌++◌, if◌then◌else◌,
}
use lilavel_runtime.UserDisposition.Types.{
  DeliberationMode, DeliberationDecision, PlannerFallbackReason, TurnBehaviorSource,
  TurnBehaviorResolutionOutcome, TurnBehavior, TurnBehaviorResolution, resolution_valid,
}

-- `policy.decide`, or the context it needs, raises, is cancelled, or decides.
pub data PolicyOutcome : Type 0 where
  decides : DeliberationDecision → PolicyOutcome
  policy_raises policy_cancelled : PolicyOutcome

-- `plan_candidate` gives a candidate, with the guidance it stands for if it is one for the user, or
-- nothing, or raises: an error says whether its work is uncontained and whether it is a
-- RuntimeError.
pub data PlannerOutcome (Guidance : Type 0) : Type 0 where
  plans : Option Guidance → PlannerOutcome Guidance
  plans_nothing : PlannerOutcome Guidance
  planner_cancelled : PlannerOutcome Guidance
  planner_timed_out : PlannerOutcome Guidance
  planner_raises : Bool → Bool → PlannerOutcome Guidance

-- What happens in one call: the token before the policy and after it, at the planner's own
-- cancellation whether the task or the token asks for it, whether the history is empty, the
-- policy's identity unless it is invalid, and the clock around the planner.
pub record Turn (Guidance : Type 0) : Type 0 where
  pub requested_before : Bool
  pub requested_after : Bool
  pub requested_inside : Bool
  pub history_is_empty : Bool
  pub policy_name : Option String
  pub policy : PolicyOutcome
  pub planner : PlannerOutcome Guidance
  pub started_ns : ℕ
  pub ended_ns : ℕ

-- `resolve` gives a resolution or raises: CancelledError, the planner's uncontained error, the
-- ValueError of the policy's identity, the RuntimeError of a candidate that is not the user's, or
-- the ValueError of the resolution itself.
pub data Resolved (Guidance : Type 0) : Type 0 where
  resolved : TurnBehaviorResolution Guidance → Resolved Guidance
  cancelled uncontained policy_unnamed not_for_user invalid_resolution : Resolved Guidance

module _ {Guidance : Type 0} (default_guidance : Guidance)
    (differs : Guidance → Guidance → Bool) where
  abbrev pub default_behavior : TurnBehavior Guidance
  default_behavior = record { guidance = default_guidance; source = TurnBehaviorSource.default }

  -- `_duration_ms`
  abbrev pub duration_ms : Turn Guidance → ℕ
  duration_ms t = (t.ended_ns - t.started_ns) / 1000000

  -- The construction of a resolution, and what the core records of it.
  unfoldable pub settled :
      TurnBehaviorResolution Guidance
      → List (TurnBehaviorResolution Guidance)
      → Resolved Guidance × List (TurnBehaviorResolution Guidance)
  settled r recorded =
      if resolution_valid r
      then (resolved r, recorded ++ r ∷ [])
      else (invalid_resolution, recorded)

  -- The resolution without a planner.
  abbrev pub unplanned : DeliberationMode → Option String → Bool → TurnBehaviorResolution Guidance
  unplanned mode policy_name failed = record {
    behavior = default_behavior;
    planner_invoked = false;
    outcome = TurnBehaviorResolutionOutcome.not_invoked;
    fallback_reason = none;
    planner_duration_ms = none;
    materially_differs_from_default = false;
    deliberation_decision = DeliberationDecision.fast;
    deliberation_mode = mode;
    deliberation_policy = policy_name;
    policy_failed = failed;
  }

  -- The resolution of a planner that gave no behavior: `_fallback`, and the rejected candidate.
  abbrev pub without_behavior :
      DeliberationMode
      → Option String
      → TurnBehaviorResolutionOutcome
      → PlannerFallbackReason
      → Turn Guidance
      → TurnBehaviorResolution Guidance
  without_behavior mode policy_name outcome reason t = record (unplanned mode policy_name false) {
    planner_invoked = true;
    outcome = outcome;
    fallback_reason = some reason;
    planner_duration_ms = some (duration_ms t);
    deliberation_decision = DeliberationDecision.plan;
  }

  abbrev pub with_behavior :
      DeliberationMode → Option String → Guidance → Turn Guidance → TurnBehaviorResolution Guidance
  with_behavior mode policy_name g t = record (unplanned mode policy_name false) {
    behavior = record { guidance = g; source = TurnBehaviorSource.planner };
    planner_invoked = true;
    outcome = TurnBehaviorResolutionOutcome.accepted;
    planner_duration_ms = some (duration_ms t);
    materially_differs_from_default = differs g default_guidance;
    deliberation_decision = DeliberationDecision.plan;
  }

  -- The part behind the decision to plan, from what the planner gave.
  unfoldable pub planned :
      PlannerOutcome Guidance
      → DeliberationMode
      → Option String
      → Turn Guidance
      → List (TurnBehaviorResolution Guidance)
      → Resolved Guidance × List (TurnBehaviorResolution Guidance)
  planned (plans (some g)) mode name t recorded = settled (with_behavior mode name g t) recorded
  planned (plans none) mode name t recorded = (not_for_user, recorded)
  planned plans_nothing mode name t recorded =
      settled
        (without_behavior mode name TurnBehaviorResolutionOutcome.rejected
          PlannerFallbackReason.rejected t)
        recorded
  planned planner_cancelled mode name t recorded =
      if t.requested_inside
      then (cancelled, recorded)
      else settled
          (without_behavior mode name TurnBehaviorResolutionOutcome.fallback
            PlannerFallbackReason.cancelled t)
          recorded
  planned planner_timed_out mode name t recorded =
      settled
        (without_behavior mode name TurnBehaviorResolutionOutcome.fallback
          PlannerFallbackReason.timeout t)
        recorded
  planned (planner_raises true runtime) mode name t recorded = (uncontained, recorded)
  planned (planner_raises false runtime) mode name t recorded =
      settled
        (without_behavior mode name TurnBehaviorResolutionOutcome.fallback
          (if runtime
            then PlannerFallbackReason.provider_failure
            else PlannerFallbackReason.unexpected)
          t)
        recorded

  -- `core.history[-1]` of an empty history raises IndexError before the planner is called.
  abbrev pub planner_outcome : Turn Guidance → PlannerOutcome Guidance
  planner_outcome t = if t.history_is_empty then planner_raises false false else t.planner

  -- An empty history makes the policy's context raise.
  abbrev pub policy_outcome : Turn Guidance → PolicyOutcome
  policy_outcome t = if t.history_is_empty then policy_raises else t.policy

  -- The branches on what the policy gave.
  unfoldable pub by_policy :
      PolicyOutcome
      → String
      → Turn Guidance
      → List (TurnBehaviorResolution Guidance)
      → Resolved Guidance × List (TurnBehaviorResolution Guidance)
  by_policy policy_cancelled name t recorded = (cancelled, recorded)
  by_policy policy_raises name t recorded =
      settled (unplanned DeliberationMode.selective (some name) true) recorded
  by_policy (decides DeliberationDecision.fast) name t recorded =
      if t.requested_after
      then (cancelled, recorded)
      else settled (unplanned DeliberationMode.selective (some name) false) recorded
  by_policy (decides DeliberationDecision.plan) name t recorded =
      if t.requested_after
      then (cancelled, recorded)
      else planned (planner_outcome t) DeliberationMode.selective (some name) t recorded

  unfoldable pub resolve :
      DeliberationMode
      → Turn Guidance
      → List (TurnBehaviorResolution Guidance)
      → Resolved Guidance × List (TurnBehaviorResolution Guidance)
  resolve DeliberationMode.default_only t recorded =
      settled (unplanned DeliberationMode.default_only none false) recorded
  resolve DeliberationMode.always_plan t recorded =
      if t.requested_before
      then (cancelled, recorded)
      else planned (planner_outcome t) DeliberationMode.always_plan (some "always_plan") t recorded
  resolve DeliberationMode.selective t recorded =
      if t.requested_before then (cancelled, recorded) else elim t.policy_name [
        | none ↦ (policy_unnamed, recorded)
        | some name ↦ by_policy (policy_outcome t) name t recorded
      ]
