-- ===== src/UserDisposition/Tests.antt =====
-- A planned turn and a failing one, and the promises at them.
use lilavel_runtime.Prelude.{ℕ, ◌≡◌, refl, Bool, true, false, some, [], ◌∷◌, not, eqb}
use lilavel_runtime.Prelude.Text.{is_bounded_text}
use lilavel_runtime.UserDisposition.Types.{
  DeliberationMode, DeliberationDecision, TurnBehaviorResolution, policy_text_valid,
  resolution_valid,
}
use lilavel_runtime.UserDisposition.Resolver.{
  Turn, decides, plans, planner_raises, resolved, settled, planned, by_policy, resolve,
  with_behavior,
}
use lilavel_runtime.UserDisposition.Recording.{NameIsBounded, RecordsOnce, resolve-RecordsOnce}
use lilavel_runtime.UserDisposition.Fallback.{resolve_is_total}

-- Guidance is a number here, and 0 is the default.
abbrev differs : ℕ → ℕ → Bool
differs a b = not (eqb a b)

abbrev planned_turn : Turn ℕ
planned_turn = record {
  requested_before = false;
  requested_after = false;
  requested_inside = false;
  history_is_empty = false;
  policy_name = some "keyword_v1";
  policy = decides DeliberationDecision.plan;
  planner = plans (some 7);
  started_ns = 1000000;
  ended_ns = 5000000;
}

-- The planner raises a RuntimeError of contained work.
abbrev failing_turn : Turn ℕ
failing_turn = record planned_turn { planner = planner_raises false true }

name_is_bounded : NameIsBounded planned_turn
unfolding policy_text_valid is_bounded_text
name_is_bounded = refl

plan_is_accepted :
    (resolve 0 differs DeliberationMode.selective planned_turn []).0
    ≡ resolved
        (with_behavior 0 differs DeliberationMode.selective (some "keyword_v1") 7 planned_turn)
unfolding resolve by_policy planned settled resolution_valid policy_text_valid is_bounded_text
plan_is_accepted = refl

resolve-RecordsOnce_example :
    RecordsOnce 0 differs [] (resolve 0 differs DeliberationMode.selective planned_turn [])
resolve-RecordsOnce_example =
    resolve-RecordsOnce 0 differs DeliberationMode.selective planned_turn [] name_is_bounded

resolve_is_total_example :
    (r : TurnBehaviorResolution ℕ) × (resolve 0 differs DeliberationMode.selective failing_turn []
      ≡ (resolved r, r ∷ []))
resolve_is_total_example =
    resolve_is_total 0 differs DeliberationMode.selective failing_turn [] "keyword_v1" refl
      name_is_bounded refl refl refl refl refl
