-- ===== src/Intervention/Budget.antt =====
-- The budget of unsolicited speech, over any sequence of calls on `SpeechAccounting`; and the
-- freshness that a decision needs.
use lilavel_runtime.Prelude.{ℕ, ◌+◌, ◌≤◌, ◌≡◌, ◌↔◌, true, List, [], ◌∷◌, arith, or_else}
use lilavel_runtime.Intervention.Reasons.{InterventionDecision}
use lilavel_runtime.Intervention.Types.{FreshnessBucket, FreshnessClass, InterventionBudgetState}
use lilavel_runtime.Intervention.Policy.{allows, default_freshness_profiles}
use lilavel_runtime.Intervention.Accounting.{
  SpeechAccounting, snapshot, record_confirmed_speech, clear_recent_speech, replenish,
}

-- The calls that change the accounting.
pub data Call : Type 0 where
  confirms : InterventionDecision → Call
  clears : Call
  replenishes : ℕ → Call

-- A call that raises leaves the accounting as it was.
unfoldable pub after : Call → SpeechAccounting → SpeechAccounting
after (confirms d) a = record_confirmed_speech d a
after clears a = clear_recent_speech a
after (replenishes n) a = or_else (replenish n a) a

unfoldable pub after_all : List Call → SpeechAccounting → SpeechAccounting
unfolding after
after_all [] a = a
after_all (c ∷ cs) a = after_all cs (after c a)

-- The unsolicited speech that was confirmed while the snapshot had a budget left.
unfoldable pub budgeted : List Call → SpeechAccounting → ℕ
unfolding after
budgeted [] a = 0
budgeted (confirms InterventionDecision.interject ∷ cs) a =
    let rest = budgeted cs (after (confirms InterventionDecision.interject) a) in
    elim (snapshot a).1 [
      | InterventionBudgetState.available ↦ rest + 1
      | InterventionBudgetState.exhausted ↦ rest
    ]
budgeted (c ∷ cs) a = budgeted cs (after c a)

unfoldable pub replenished : List Call → ℕ
replenished [] = 0
replenished (replenishes n ∷ cs) = replenished cs + n
replenished (_ ∷ cs) = replenished cs

-- The budget left never exceeds 256, whatever is called on an accounting within that bound.
pub remaining_within_bound :
    (cs : List Call) (a : SpeechAccounting)
    → a.remaining_budget ≤ 256
    → (after_all cs a).remaining_budget ≤ 256
unfolding after_all record_confirmed_speech clear_recent_speech replenish
remaining_within_bound [] a h = h
remaining_within_bound (c ∷ cs) a h = remaining_within_bound cs (after c a) (ground arith)

-- Over any calls, the unsolicited speech confirmed while the snapshot had a budget left, together
-- with the budget that is left, is at most the budget at the start and what was replenished.
pub budget_is_spent :
    (cs : List Call) (a : SpeechAccounting)
    → budgeted cs a + (after_all cs a).remaining_budget ≤ a.remaining_budget + replenished cs
unfolding after_all budgeted replenished record_confirmed_speech clear_recent_speech replenish
    snapshot
budget_is_spent [] a = ground arith
budget_is_spent (c ∷ cs) a = ground (arith, budget_is_spent cs (after c a))

-- Under the default profiles unsolicited speech is allowed exactly at a fresh age, in every
-- class.
pub default_interject_is_fresh :
    (class : FreshnessClass) (age : FreshnessBucket)
    → (allows
          (record { profiles = default_freshness_profiles })
          class
          InterventionDecision.interject
          age
        ≡ true)
      ↔ (age ≡ FreshnessBucket.fresh)
unfolding allows
default_interject_is_fresh class age = (λ h. ground arith, λ h. ground arith)
