-- ===== src/Attention/Gate.antt =====
-- `DeterministicAttentionCognitionGate` of attention.py: `evaluate` and `decide`.
use Prim.Native.String.{◌++◌ as ◌+++◌}
use lilavel_runtime.Prelude.{
  ℕ, String, Bool, true, false, Option, some, List, [], ◌∷◌, ◌++◌, not, ◌&&◌, leb, length, is_empty,
  contains, is_unique, take, if◌then◌else◌, ◌==◌, String_Eq,
}
use lilavel_runtime.Prelude.Dict
use lilavel_runtime.Prelude.Dict.{Dict}
use lilavel_runtime.Prelude.Text.{is_bounded_text}
use lilavel_runtime.Intervention.Reasons.{CognitionReasonCode}
use lilavel_runtime.Attention.Types.{
  AttentionDecision, Observation, AttentionVerdict, AttentionEvidenceExtractor,
}
use lilavel_runtime.Attention.Policy.{max_attention_reason_codes, extract, evaluate_evidence}

-- The value of a code of the enum.
abbrev pub code_value : CognitionReasonCode → String
code_value CognitionReasonCode.direct_address = "direct_address"
code_value CognitionReasonCode.explicit_question = "explicit_question"
code_value CognitionReasonCode.contradiction = "contradiction"
code_value CognitionReasonCode.evidence_update = "evidence_update"
code_value CognitionReasonCode.ambiguity_material = "ambiguity_material"
code_value CognitionReasonCode.low_information_gap = "low_information_gap"
code_value CognitionReasonCode.social_followup = "social_followup"
code_value CognitionReasonCode.critical_event = "critical_event"
code_value CognitionReasonCode.high_relevance = "high_relevance"
code_value CognitionReasonCode.high_novelty = "high_novelty"
code_value CognitionReasonCode.interest_affinity = "interest_affinity"
code_value CognitionReasonCode.interruption_cost_high = "interruption_cost_high"
code_value CognitionReasonCode.repetition = "repetition"
code_value CognitionReasonCode.no_new_value = "no_new_value"
code_value CognitionReasonCode.vulnerability = "vulnerability"
code_value CognitionReasonCode.playful_context = "playful_context"
code_value CognitionReasonCode.ambient_context = "ambient_context"
code_value CognitionReasonCode.not_addressed = "not_addressed"
code_value CognitionReasonCode.low_relevance = "low_relevance"
code_value CognitionReasonCode.response_obligation = "response_obligation"
code_value CognitionReasonCode.no_response_obligation = "no_response_obligation"
code_value CognitionReasonCode.stale_context = "stale_context"
code_value CognitionReasonCode.social_backoff = "social_backoff"
code_value CognitionReasonCode.floor_busy = "floor_busy"
code_value CognitionReasonCode.no_speaking_surface = "no_speaking_surface"
code_value CognitionReasonCode.intervention_budget_exhausted = "intervention_budget_exhausted"
code_value CognitionReasonCode.already_handled = "already_handled"
code_value CognitionReasonCode.constraint_forgotten = "constraint_forgotten"
code_value CognitionReasonCode.discussion_stuck = "discussion_stuck"
code_value CognitionReasonCode.unique_information = "unique_information"
code_value CognitionReasonCode.simple_request = "simple_request"
code_value CognitionReasonCode.high_social_stakes = "high_social_stakes"
code_value CognitionReasonCode.multiple_plausible_moves = "multiple_plausible_moves"
code_value CognitionReasonCode.intervention_uncertain = "intervention_uncertain"
code_value CognitionReasonCode.reversible_assumption = "reversible_assumption"

abbrev cons_verdict :
    Option AttentionVerdict → Option (List AttentionVerdict) → Option (List AttentionVerdict)
cons_verdict (some v) (some vs) = some (v ∷ vs)
cons_verdict Option.none rest = Option.none
cons_verdict (some v) Option.none = Option.none

-- The loop of `evaluate`, with the identifiers seen so far and nothing where a verdict raises.
unfoldable pub evaluate_from :
    AttentionEvidenceExtractor → List String → List Observation → Option (List AttentionVerdict)
evaluate_from x seen [] = some []
evaluate_from x seen (o ∷ os) =
    let known = evaluate_from x seen os in
    let rest = evaluate_from x (o.observation_id ∷ seen) os in
    if contains o.observation_id seen
    then known
    else cons_verdict (evaluate_evidence (extract x o)) rest

abbrev pub evaluate : AttentionEvidenceExtractor → List Observation → Option (List AttentionVerdict)
evaluate x observations = evaluate_from x [] observations

abbrev pub is_think : AttentionDecision → Bool
is_think AttentionDecision.think = true
is_think _ = false

abbrev pub thinking_ids : List AttentionVerdict → List String
thinking_ids [] = []
thinking_ids (v ∷ vs) =
    if is_think v.decision then v.observation_id ∷ thinking_ids vs else thinking_ids vs

abbrev pub is_direct_message : Observation → Bool
is_direct_message o = o.event.kind == "direct_message"

-- The loop over the direct messages, with the identifiers seen so far.
unfoldable pub direct_from : List String → List String → List Observation → List String
direct_from thinking seen [] = []
direct_from thinking seen (o ∷ os) =
    let skipped = direct_from thinking seen os in
    let rest = direct_from thinking (o.observation_id ∷ seen) os in
    if contains o.observation_id thinking
      && is_direct_message o
      && not (contains o.observation_id seen)
    then o.observation_id ∷ rest
    else skipped

-- What `decide` gives. An external `CognitionTrigger` has identifiers of observations and a reason.
pub data GateDecision : Type 0 where
  no_cognition : GateDecision
  trigger : List String → String → GateDecision
  raises : GateDecision

-- The checks of an external `CognitionTrigger`. The identifiers are texts of observations.
unfoldable pub cognition_trigger : List String → String → GateDecision
cognition_trigger ids reason =
    if not (is_empty ids) && leb (length ids) 8 && is_unique ids && is_bounded_text 128 reason
    then trigger ids reason
    else raises

-- The comprehension `selected_verdicts`, behind the verdicts read.
unfoldable pub selected_verdicts :
    List String
    → List AttentionVerdict
    → Dict String AttentionVerdict
    → Dict String AttentionVerdict
selected_verdicts ids [] d = d
selected_verdicts ids (v ∷ vs) d =
    selected_verdicts ids vs
      (if contains v.observation_id ids then Dict.set v.observation_id v d else d)

unfoldable pub add_values : List String → List CognitionReasonCode → List String
add_values values [] = values
add_values values (c ∷ cs) =
    add_values (if contains (code_value c) values then values else values ++ code_value c ∷ []) cs

-- The loop over the selected identifiers, with nothing where a key is missing.
unfoldable pub collect_values :
    Dict String AttentionVerdict → List String → List String → Option (List String)
collect_values d [] values = some values
collect_values d (i ∷ ids) values = elim (Dict.get i d) [
  | Option.none ↦ Option.none
  | some v ↦ collect_values d ids (add_values values v.reason_codes)
]

-- `",".join(...)`
abbrev pub joined_by_comma : List String → String
joined_by_comma [] = ""
joined_by_comma (v ∷ []) = v
joined_by_comma (v ∷ w ∷ vs) = v +++ "," +++ joined_by_comma (w ∷ vs)

abbrev pub attention_reason : List String → String
attention_reason values = "attention:" +++ joined_by_comma (take max_attention_reason_codes values)

abbrev pub ambient_trigger : List String → Option (List String) → GateDecision
ambient_trigger ids Option.none = raises
ambient_trigger ids (some values) = cognition_trigger ids (attention_reason values)

-- `decide` behind its verdicts.
unfoldable pub decide_on : ℕ → List Observation → List AttentionVerdict → GateDecision
decide_on max_observations observations verdicts =
    let thinking = thinking_ids verdicts in
    let direct = direct_from thinking [] observations in
    if is_empty thinking
    then no_cognition
    else if is_empty direct
    then (let ids = take max_observations thinking in
        ambient_trigger ids (collect_values (selected_verdicts ids verdicts []) ids []))
    else cognition_trigger (take max_observations direct) "explicit_direct_message"

unfoldable pub decide : AttentionEvidenceExtractor → ℕ → List Observation → GateDecision
decide x max_observations observations = elim (evaluate x observations) [
  | Option.none ↦ raises
  | some verdicts ↦ decide_on max_observations observations verdicts
]
