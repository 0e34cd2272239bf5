-- ===== src/Intervention/Reasons.antt =====
-- The reasons a policy may give: `CognitionReasonCode` and `InterventionDecision` of
-- apps/core/src/lilavel_core/cognition.py, with the test that `in` makes on them.
use lilavel_runtime.Prelude.{
  ℕ, zero, suc, List, [], ◌∷◌, ◌≡◌, refl, sym, ap, ◌∙◌, ◌↔◌, Bool, true, eqb, eqb_iff, Comparable,
}

pub data InterventionDecision : Type 0 where
  none : InterventionDecision
  respond : InterventionDecision
  interject : InterventionDecision

pub data CognitionReasonCode : Type 0 where
  direct_address : CognitionReasonCode
  explicit_question : CognitionReasonCode
  contradiction : CognitionReasonCode
  evidence_update : CognitionReasonCode
  ambiguity_material : CognitionReasonCode
  low_information_gap : CognitionReasonCode
  social_followup : CognitionReasonCode
  critical_event : CognitionReasonCode
  high_relevance : CognitionReasonCode
  high_novelty : CognitionReasonCode
  interest_affinity : CognitionReasonCode
  interruption_cost_high : CognitionReasonCode
  repetition : CognitionReasonCode
  no_new_value : CognitionReasonCode
  vulnerability : CognitionReasonCode
  playful_context : CognitionReasonCode
  ambient_context : CognitionReasonCode
  not_addressed : CognitionReasonCode
  low_relevance : CognitionReasonCode
  response_obligation : CognitionReasonCode
  no_response_obligation : CognitionReasonCode
  stale_context : CognitionReasonCode
  social_backoff : CognitionReasonCode
  floor_busy : CognitionReasonCode
  no_speaking_surface : CognitionReasonCode
  intervention_budget_exhausted : CognitionReasonCode
  already_handled : CognitionReasonCode
  constraint_forgotten : CognitionReasonCode
  discussion_stuck : CognitionReasonCode
  unique_information : CognitionReasonCode
  simple_request : CognitionReasonCode
  high_social_stakes : CognitionReasonCode
  multiple_plausible_moves : CognitionReasonCode
  intervention_uncertain : CognitionReasonCode
  reversible_assumption : CognitionReasonCode

-- The place of a code in the declaration of the enum.
abbrev index : CognitionReasonCode → ℕ
index CognitionReasonCode.direct_address = 0
index CognitionReasonCode.explicit_question = 1
index CognitionReasonCode.contradiction = 2
index CognitionReasonCode.evidence_update = 3
index CognitionReasonCode.ambiguity_material = 4
index CognitionReasonCode.low_information_gap = 5
index CognitionReasonCode.social_followup = 6
index CognitionReasonCode.critical_event = 7
index CognitionReasonCode.high_relevance = 8
index CognitionReasonCode.high_novelty = 9
index CognitionReasonCode.interest_affinity = 10
index CognitionReasonCode.interruption_cost_high = 11
index CognitionReasonCode.repetition = 12
index CognitionReasonCode.no_new_value = 13
index CognitionReasonCode.vulnerability = 14
index CognitionReasonCode.playful_context = 15
index CognitionReasonCode.ambient_context = 16
index CognitionReasonCode.not_addressed = 17
index CognitionReasonCode.low_relevance = 18
index CognitionReasonCode.response_obligation = 19
index CognitionReasonCode.no_response_obligation = 20
index CognitionReasonCode.stale_context = 21
index CognitionReasonCode.social_backoff = 22
index CognitionReasonCode.floor_busy = 23
index CognitionReasonCode.no_speaking_surface = 24
index CognitionReasonCode.intervention_budget_exhausted = 25
index CognitionReasonCode.already_handled = 26
index CognitionReasonCode.constraint_forgotten = 27
index CognitionReasonCode.discussion_stuck = 28
index CognitionReasonCode.unique_information = 29
index CognitionReasonCode.simple_request = 30
index CognitionReasonCode.high_social_stakes = 31
index CognitionReasonCode.multiple_plausible_moves = 32
index CognitionReasonCode.intervention_uncertain = 33
index CognitionReasonCode.reversible_assumption = 34

-- Every code, in that order.
abbrev all_codes : List CognitionReasonCode
all_codes =
    CognitionReasonCode.direct_address ∷ CognitionReasonCode.explicit_question
    ∷ CognitionReasonCode.contradiction ∷ CognitionReasonCode.evidence_update
    ∷ CognitionReasonCode.ambiguity_material ∷ CognitionReasonCode.low_information_gap
    ∷ CognitionReasonCode.social_followup ∷ CognitionReasonCode.critical_event
    ∷ CognitionReasonCode.high_relevance ∷ CognitionReasonCode.high_novelty
    ∷ CognitionReasonCode.interest_affinity ∷ CognitionReasonCode.interruption_cost_high
    ∷ CognitionReasonCode.repetition ∷ CognitionReasonCode.no_new_value
    ∷ CognitionReasonCode.vulnerability ∷ CognitionReasonCode.playful_context
    ∷ CognitionReasonCode.ambient_context ∷ CognitionReasonCode.not_addressed
    ∷ CognitionReasonCode.low_relevance ∷ CognitionReasonCode.response_obligation
    ∷ CognitionReasonCode.no_response_obligation ∷ CognitionReasonCode.stale_context
    ∷ CognitionReasonCode.social_backoff ∷ CognitionReasonCode.floor_busy
    ∷ CognitionReasonCode.no_speaking_surface ∷ CognitionReasonCode.intervention_budget_exhausted
    ∷ CognitionReasonCode.already_handled ∷ CognitionReasonCode.constraint_forgotten
    ∷ CognitionReasonCode.discussion_stuck ∷ CognitionReasonCode.unique_information
    ∷ CognitionReasonCode.simple_request ∷ CognitionReasonCode.high_social_stakes
    ∷ CognitionReasonCode.multiple_plausible_moves ∷ CognitionReasonCode.intervention_uncertain
    ∷ CognitionReasonCode.reversible_assumption ∷ []

abbrev at_place : ℕ → List CognitionReasonCode → CognitionReasonCode
at_place _ [] = CognitionReasonCode.direct_address
at_place zero (c ∷ _) = c
at_place (suc n) (_ ∷ cs) = at_place n cs

abbrev at_index : ℕ → CognitionReasonCode
at_index n = at_place n all_codes

at_index-index : (c : CognitionReasonCode) → at_index (index c) ≡ c
at_index-index CognitionReasonCode.direct_address = refl
at_index-index CognitionReasonCode.explicit_question = refl
at_index-index CognitionReasonCode.contradiction = refl
at_index-index CognitionReasonCode.evidence_update = refl
at_index-index CognitionReasonCode.ambiguity_material = refl
at_index-index CognitionReasonCode.low_information_gap = refl
at_index-index CognitionReasonCode.social_followup = refl
at_index-index CognitionReasonCode.critical_event = refl
at_index-index CognitionReasonCode.high_relevance = refl
at_index-index CognitionReasonCode.high_novelty = refl
at_index-index CognitionReasonCode.interest_affinity = refl
at_index-index CognitionReasonCode.interruption_cost_high = refl
at_index-index CognitionReasonCode.repetition = refl
at_index-index CognitionReasonCode.no_new_value = refl
at_index-index CognitionReasonCode.vulnerability = refl
at_index-index CognitionReasonCode.playful_context = refl
at_index-index CognitionReasonCode.ambient_context = refl
at_index-index CognitionReasonCode.not_addressed = refl
at_index-index CognitionReasonCode.low_relevance = refl
at_index-index CognitionReasonCode.response_obligation = refl
at_index-index CognitionReasonCode.no_response_obligation = refl
at_index-index CognitionReasonCode.stale_context = refl
at_index-index CognitionReasonCode.social_backoff = refl
at_index-index CognitionReasonCode.floor_busy = refl
at_index-index CognitionReasonCode.no_speaking_surface = refl
at_index-index CognitionReasonCode.intervention_budget_exhausted = refl
at_index-index CognitionReasonCode.already_handled = refl
at_index-index CognitionReasonCode.constraint_forgotten = refl
at_index-index CognitionReasonCode.discussion_stuck = refl
at_index-index CognitionReasonCode.unique_information = refl
at_index-index CognitionReasonCode.simple_request = refl
at_index-index CognitionReasonCode.high_social_stakes = refl
at_index-index CognitionReasonCode.multiple_plausible_moves = refl
at_index-index CognitionReasonCode.intervention_uncertain = refl
at_index-index CognitionReasonCode.reversible_assumption = refl

unfoldable pub same_code : CognitionReasonCode → CognitionReasonCode → Bool
same_code c d = eqb (index c) (index d)

pub same_code_iff : (c d : CognitionReasonCode) → (same_code c d ≡ true) ↔ (c ≡ d)
unfolding same_code
same_code_iff c d = (
  λ h. sym (at_index-index c) ∙ ap at_index ((eqb_iff (index c) (index d)).0 h) ∙ at_index-index d,
  λ e. (eqb_iff (index c) (index d)).1 (ap index e),
)

instance abbrev pub CognitionReasonCode_Comparable : Comparable CognitionReasonCode
CognitionReasonCode_Comparable = record { same = same_code; same_iff = same_code_iff }
