-- ===== src/UserDisposition/Fallback.antt =====
-- `resolve`: the turns in which it falls back safely.
use lilavel_runtime.Prelude.{
  ◌≡◌, refl, ap, String, Bool, true, false, Option, none, some, if-cases, List, [], ◌∷◌, ◌++◌,
  arith,
}
use lilavel_runtime.UserDisposition.Types.{
  DeliberationMode, DeliberationDecision, TurnBehaviorResolution,
}
use lilavel_runtime.UserDisposition.Recording.{NameIsBounded, RecordsOnce, resolve-RecordsOnce}
use lilavel_runtime.UserDisposition.Resolver.{
  Turn, PolicyOutcome, decides, policy_raises, policy_cancelled, PlannerOutcome, plans,
  plans_nothing, planner_cancelled, planner_timed_out, planner_raises, Resolved, resolved,
  cancelled, uncontained, policy_unnamed, not_for_user, invalid_resolution, settled, planned,
  planner_outcome, by_policy, policy_outcome, resolve,
}

-- The policy is not cancelled.
abbrev pub policy_can_end : PolicyOutcome → Bool
policy_can_end policy_cancelled = false
policy_can_end _ = true

-- The planner's work is contained, and its candidates are for the user.
abbrev pub planner_contained : {Guidance : Type 0} → PlannerOutcome Guidance → Bool
planner_contained (planner_raises true _) = false
planner_contained (plans none) = false
planner_contained _ = true

module _ {Guidance : Type 0} (default_guidance : Guidance)
    (differs : Guidance → Guidance → Bool) where
  -- The call ends in the construction of a resolution.
  abbrev constructs : Resolved Guidance → Bool
  constructs (resolved r) = true
  constructs invalid_resolution = true
  constructs _ = false

  abbrev Constructs : Resolved Guidance × List (TurnBehaviorResolution Guidance) → Type 0
  Constructs x = constructs x.0 ≡ true

  settled-constructs :
      (r : TurnBehaviorResolution Guidance) (recorded : List (TurnBehaviorResolution Guidance))
      → constructs (settled default_guidance differs r recorded).0 ≡ true
  unfolding settled
  settled-constructs r recorded = ground arith

  planned-constructs :
      (o : PlannerOutcome Guidance) (mode : DeliberationMode) (name : Option String)
      (t : Turn Guidance) (recorded : List (TurnBehaviorResolution Guidance))
      → t.requested_inside ≡ false
      → planner_contained o ≡ true
      → constructs (planned default_guidance differs o mode name t recorded).0 ≡ true
  unfolding planned
  planned-constructs (plans (some g)) mode name t recorded i c = settled-constructs _ recorded
  planned-constructs (plans none) mode name t recorded i c = cc
  planned-constructs plans_nothing mode name t recorded i c = settled-constructs _ recorded
  planned-constructs planner_cancelled mode name t recorded i c =
      rw i (settled-constructs _ recorded)
  planned-constructs planner_timed_out mode name t recorded i c = settled-constructs _ recorded
  planned-constructs (planner_raises true runtime) mode name t recorded i c = cc
  planned-constructs (planner_raises false runtime) mode name t recorded i c =
      settled-constructs _ recorded

  contained_outcome :
      (t : Turn Guidance)
      → planner_contained t.planner ≡ true
      → planner_contained (planner_outcome default_guidance differs t) ≡ true
  contained_outcome t c =
      if-cases (λ o. planner_contained o ≡ true) t.history_is_empty (planner_raises false false)
        t.planner (λ _. refl) (λ _. c)

  by_policy-constructs :
      (o : PolicyOutcome) (name : String) (t : Turn Guidance)
      (recorded : List (TurnBehaviorResolution Guidance))
      → t.requested_after ≡ false
      → t.requested_inside ≡ false
      → policy_can_end o ≡ true
      → planner_contained t.planner ≡ true
      → constructs (by_policy default_guidance differs o name t recorded).0 ≡ true
  unfolding by_policy
  by_policy-constructs policy_cancelled name t recorded a i p c = cc
  by_policy-constructs policy_raises name t recorded a i p c = settled-constructs _ recorded
  by_policy-constructs (decides DeliberationDecision.fast) name t recorded a i p c =
      if-cases Constructs t.requested_after _ _ (λ e. cc (e, a))
        (λ _. settled-constructs _ recorded)
  by_policy-constructs (decides DeliberationDecision.plan) name t recorded a i p c =
      if-cases Constructs t.requested_after _ _ (λ e. cc (e, a))
        (λ _. planned-constructs _ _ _ t recorded i (contained_outcome t c))

  resolve-constructs :
      (mode : DeliberationMode) (t : Turn Guidance)
      (recorded : List (TurnBehaviorResolution Guidance)) (name : String)
      → t.policy_name ≡ some name
      → t.requested_before ≡ false
      → t.requested_after ≡ false
      → t.requested_inside ≡ false
      → policy_can_end t.policy ≡ true
      → planner_contained t.planner ≡ true
      → constructs (resolve default_guidance differs mode t recorded).0 ≡ true
  unfolding resolve
  resolve-constructs DeliberationMode.default_only t recorded name n b a i p c =
      settled-constructs _ recorded
  resolve-constructs DeliberationMode.always_plan t recorded name n b a i p c =
      if-cases Constructs t.requested_before _ _ (λ e. cc (e, b))
        (λ _. planned-constructs _ _ _ t recorded i (contained_outcome t c))
  resolve-constructs DeliberationMode.selective t recorded name n b a i p c =
      if-cases Constructs t.requested_before _ _ (λ e. cc (e, b)) (λ _. named t.policy_name n)
    where
      named :
          (o : Option String)
          → o ≡ some name
          → Constructs (elim o [
            | none ↦ (policy_unnamed, recorded)
            | some name ↦
                by_policy default_guidance differs
                  (policy_outcome default_guidance differs t)
                  name
                  t
                  recorded
          ])
      named none e = cc
      named (some other) e =
          by_policy-constructs _ other t recorded a i
            (if-cases (λ o. policy_can_end o ≡ true) t.history_is_empty policy_raises t.policy
              (λ _. refl) (λ _. p))
            c

  recorded_result :
      (recorded : List (TurnBehaviorResolution Guidance))
      (x : Resolved Guidance × List (TurnBehaviorResolution Guidance))
      → RecordsOnce default_guidance differs recorded x
      → constructs x.0 ≡ true
      → (r : TurnBehaviorResolution Guidance) × (x ≡ (resolved r, recorded ++ r ∷ []))
  recorded_result recorded (resolved r, after) h c = (r, ap (λ l. (resolved r, l)) h.0)
  recorded_result recorded (invalid_resolution, after) h c = absurd h
  recorded_result recorded (cancelled, after) h c = cc
  recorded_result recorded (uncontained, after) h c = cc
  recorded_result recorded (policy_unnamed, after) h c = cc
  recorded_result recorded (not_for_user, after) h c = cc

  -- Without a cancellation request, with a policy that has a name of bounded text and is not
  -- itself cancelled, and a planner whose errors are contained and whose candidates are for the
  -- user, `resolve` gives a resolution in every mode, and records it as the one new record.
  pub resolve_is_total :
      (mode : DeliberationMode) (t : Turn Guidance)
      (recorded : List (TurnBehaviorResolution Guidance)) (name : String)
      → t.policy_name ≡ some name
      → NameIsBounded t
      → t.requested_before ≡ false
      → t.requested_after ≡ false
      → t.requested_inside ≡ false
      → policy_can_end t.policy ≡ true
      → planner_contained t.planner ≡ true
      → (r : TurnBehaviorResolution Guidance) × (resolve default_guidance differs mode t recorded
          ≡ (resolved r, recorded ++ r ∷ []))
  resolve_is_total mode t recorded name n v b a i p c =
      recorded_result recorded _ (resolve-RecordsOnce default_guidance differs mode t recorded v)
        (resolve-constructs mode t recorded name n b a i p c)
