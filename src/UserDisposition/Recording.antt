-- ===== src/UserDisposition/Recording.antt =====
-- `resolve`: what it gives and what it leaves recorded.
use lilavel_runtime.Prelude.{
  ◌≡◌, ◌↔◌, refl, String, Bool, true, false, Option, none, some, if-cases, List, [], ◌∷◌, ◌++◌,
}
use lilavel_runtime.Prelude.Text.{is_bounded_text}
use lilavel_runtime.UserDisposition.Types.{
  DeliberationMode, DeliberationDecision, TurnBehaviorResolution, is_planner, is_accepted,
  resolution_valid, policy_text_valid,
}
use lilavel_runtime.UserDisposition.Resolver.{
  Turn, PolicyOutcome, decides, policy_raises, policy_cancelled, PlannerOutcome, plans,
  plans_nothing, planner_cancelled, planner_timed_out, planner_raises, Resolved, resolved,
  policy_unnamed, invalid_resolution, settled, planned, planner_outcome, by_policy, policy_outcome,
  resolve, unplanned,
}

-- The policy's identity is absent where `_policy_identity` raises, and bounded text otherwise.
abbrev pub NameIsBounded : {Guidance : Type 0} → Turn Guidance → Type 0
NameIsBounded t = policy_text_valid t.policy_name ≡ true

always_plan_is_bounded : policy_text_valid (some "always_plan") ≡ true
unfolding policy_text_valid is_bounded_text
always_plan_is_bounded = refl

no_policy_is_valid : policy_text_valid none ≡ true
unfolding policy_text_valid
no_policy_is_valid = refl

module _ {Guidance : Type 0} (default_guidance : Guidance)
    (differs : Guidance → Guidance → Bool) where
  -- A resolution that is given is valid, is the one that is recorded, plans exactly when its
  -- decision says so, and has the planner's behavior exactly when it is accepted.
  abbrev pub RecordsOnce :
      List (TurnBehaviorResolution Guidance)
      → Resolved Guidance × List (TurnBehaviorResolution Guidance)
      → Type 0
  RecordsOnce recorded (resolved r, after) =
      (after ≡ recorded ++ r ∷ [])
      × (resolution_valid r ≡ true)
      × ((r.planner_invoked ≡ true) ↔ (r.deliberation_decision ≡ DeliberationDecision.plan))
      × (is_planner r.behavior.source ≡ is_accepted r.outcome)
  RecordsOnce recorded (invalid_resolution, after) = ⊥
  RecordsOnce recorded (_, after) = after ≡ recorded

  settled-RecordsOnce :
      (r : TurnBehaviorResolution Guidance) (recorded : List (TurnBehaviorResolution Guidance))
      → resolution_valid r ≡ true
      → ((r.planner_invoked ≡ true) ↔ (r.deliberation_decision ≡ DeliberationDecision.plan))
      → is_planner r.behavior.source ≡ is_accepted r.outcome
      → RecordsOnce recorded (settled default_guidance differs r recorded)
  unfolding settled
  settled-RecordsOnce r recorded v d s = rw v (refl, v, d, s)

  planned-RecordsOnce :
      (o : PlannerOutcome Guidance) (mode : DeliberationMode) (name : Option String)
      (t : Turn Guidance) (recorded : List (TurnBehaviorResolution Guidance))
      → policy_text_valid name ≡ true
      → RecordsOnce recorded (planned default_guidance differs o mode name t recorded)
  unfolding planned resolution_valid
  planned-RecordsOnce (plans (some g)) mode name t recorded v =
      settled-RecordsOnce _ recorded (rw v refl) (λ _. refl, λ _. refl) refl
  planned-RecordsOnce (plans none) mode name t recorded v = refl
  planned-RecordsOnce plans_nothing mode name t recorded v =
      settled-RecordsOnce _ recorded (rw v refl) (λ _. refl, λ _. refl) refl
  planned-RecordsOnce planner_cancelled mode name t recorded v =
      if-cases (RecordsOnce recorded) t.requested_inside _ _ (λ _. refl)
        (λ _. settled-RecordsOnce _ recorded (rw v refl) (λ _. refl, λ _. refl) refl)
  planned-RecordsOnce planner_timed_out mode name t recorded v =
      settled-RecordsOnce _ recorded (rw v refl) (λ _. refl, λ _. refl) refl
  planned-RecordsOnce (planner_raises true runtime) mode name t recorded v = refl
  planned-RecordsOnce (planner_raises false runtime) mode name t recorded v =
      settled-RecordsOnce _ recorded (rw v refl) (λ _. refl, λ _. refl) refl

  unplanned-RecordsOnce :
      (mode : DeliberationMode) (name : Option String) (failed : Bool)
      (recorded : List (TurnBehaviorResolution Guidance))
      → policy_text_valid name ≡ true
      → RecordsOnce recorded (
          settled default_guidance differs
            (unplanned default_guidance differs mode name failed)
            recorded)
  unfolding resolution_valid
  unplanned-RecordsOnce mode name failed recorded v =
      settled-RecordsOnce _ recorded (rw v refl) (λ e. cc, λ e. cc) refl

  by_policy-RecordsOnce :
      (o : PolicyOutcome) (name : String) (t : Turn Guidance)
      (recorded : List (TurnBehaviorResolution Guidance))
      → policy_text_valid (some name) ≡ true
      → RecordsOnce recorded (by_policy default_guidance differs o name t recorded)
  unfolding by_policy
  by_policy-RecordsOnce policy_cancelled name t recorded v = refl
  by_policy-RecordsOnce policy_raises name t recorded v =
      unplanned-RecordsOnce DeliberationMode.selective (some name) true recorded v
  by_policy-RecordsOnce (decides DeliberationDecision.fast) name t recorded v =
      if-cases (RecordsOnce recorded) t.requested_after _ _ (λ _. refl)
        (λ _. unplanned-RecordsOnce DeliberationMode.selective (some name) false recorded v)
  by_policy-RecordsOnce (decides DeliberationDecision.plan) name t recorded v =
      if-cases (RecordsOnce recorded) t.requested_after _ _ (λ _. refl)
        (λ _.
          planned-RecordsOnce (planner_outcome default_guidance differs t)
            DeliberationMode.selective (some name) t recorded v)

  -- Where the policy's identity, if it has one, is bounded text: `resolve` gives a resolution
  -- that is valid and is recorded as the one new record, whose planner was invoked exactly when
  -- its decision is to plan and whose behavior is the planner's exactly when it is accepted; or
  -- it raises and records nothing. It never raises for an invalid resolution.
  pub resolve-RecordsOnce :
      (mode : DeliberationMode) (t : Turn Guidance)
      (recorded : List (TurnBehaviorResolution Guidance))
      → NameIsBounded t
      → RecordsOnce recorded (resolve default_guidance differs mode t recorded)
  unfolding resolve
  resolve-RecordsOnce DeliberationMode.default_only t recorded h =
      unplanned-RecordsOnce DeliberationMode.default_only none false recorded no_policy_is_valid
  resolve-RecordsOnce DeliberationMode.always_plan t recorded h =
      if-cases (RecordsOnce recorded) t.requested_before _ _ (λ _. refl)
        (λ _.
          planned-RecordsOnce (planner_outcome default_guidance differs t)
            DeliberationMode.always_plan (some "always_plan") t recorded always_plan_is_bounded)
  resolve-RecordsOnce DeliberationMode.selective t recorded h =
      if-cases (RecordsOnce recorded) t.requested_before _ _ (λ _. refl)
        (λ _. named t.policy_name h)
    where
      named :
          (name : Option String)
          → policy_text_valid name ≡ true
          → RecordsOnce recorded (elim name [
            | none ↦ (policy_unnamed, recorded)
            | some name ↦
                by_policy default_guidance differs
                  (policy_outcome default_guidance differs t)
                  name
                  t
                  recorded
          ])
      named none v = refl
      named (some name) v = by_policy-RecordsOnce _ name t recorded v
