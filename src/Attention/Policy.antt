-- ===== src/Attention/Policy.antt =====
-- `AttentionEvidenceExtractor`, `_reason_codes` and `DeterministicAttentionPolicy.evaluate` of
-- attention.py.
use lilavel_runtime.Prelude.{
  ℕ, String, Bool, true, false, Option, some, List, [], ◌∷◌, ◌++◌, not, ◌&&◌, ◌||◌, ltb, length,
  is_empty, contains, or_else, if◌then◌else◌, ◌==◌, String_Eq,
}
use lilavel_runtime.Prelude.Dict
use lilavel_runtime.Prelude.Dict.{Dict}
use lilavel_runtime.Prelude.Text.{is_bounded_text}
use lilavel_runtime.Intervention.Reasons.{CognitionReasonCode, CognitionReasonCode_Comparable}
use lilavel_runtime.Attention.Types.{
  AttentionDecision, Observation, AttentionRelevance, AttentionNovelty, AttentionInterestAffinity,
  AttentionSignalProfile, AttentionEvidence, AttentionVerdict, AttentionEvidenceExtractor,
  reason_codes_valid,
}

abbrev pub max_attention_event_profiles : ℕ
max_attention_event_profiles = 16

abbrev pub max_attention_reason_codes : ℕ
max_attention_reason_codes = 8

-- `AttentionSignalProfile()`
abbrev pub default_signals : AttentionSignalProfile
default_signals = record {
  direct_address = false;
  critical_event = false;
  continuity = false;
  relevance = AttentionRelevance.unknown;
  novelty = AttentionNovelty.unknown;
  interest_affinity = AttentionInterestAffinity.unknown;
  repetition = false;
  no_new_value = false;
}

abbrev pub direct_message_signals : AttentionSignalProfile
direct_message_signals = record default_signals { direct_address = true }

-- The loop of `__init__` over the trusted profiles, with nothing where it raises.
unfoldable pub add_profiles :
    List (String × AttentionSignalProfile)
    → Dict String AttentionSignalProfile
    → Option (Dict String AttentionSignalProfile)
add_profiles [] profiles = some profiles
add_profiles ((kind, profile) ∷ trusted) profiles =
    let rest = add_profiles trusted (Dict.set kind profile profiles) in
    if not (is_bounded_text 128 kind)
    then Option.none
    else if kind == "direct_message" && not profile.direct_address
    then Option.none
    else rest

abbrev pub bounded_profiles : Dict String AttentionSignalProfile → Option AttentionEvidenceExtractor
bounded_profiles profiles =
    if ltb max_attention_event_profiles (length profiles)
    then Option.none
    else some (record { profiles = profiles })

-- `__init__` of the extractor.
unfoldable pub attention_evidence_extractor :
    List (String × AttentionSignalProfile) → Option AttentionEvidenceExtractor
attention_evidence_extractor trusted =
    elim (add_profiles trusted (("direct_message", direct_message_signals) ∷ [])) [
      | Option.none ↦ Option.none
      | some profiles ↦ bounded_profiles profiles
    ]

unfoldable pub extract : AttentionEvidenceExtractor → Observation → AttentionEvidence
extract x o = record {
  observation_id = o.observation_id;
  profile = or_else (Dict.get o.event.kind x.profiles) default_signals;
}

abbrev pub is_high_relevance : AttentionRelevance → Bool
is_high_relevance AttentionRelevance.high = true
is_high_relevance _ = false

abbrev pub is_low_relevance : AttentionRelevance → Bool
is_low_relevance AttentionRelevance.low = true
is_low_relevance _ = false

abbrev pub is_high_novelty : AttentionNovelty → Bool
is_high_novelty AttentionNovelty.high = true
is_high_novelty _ = false

abbrev pub has_affinity : AttentionInterestAffinity → Bool
has_affinity AttentionInterestAffinity.weak = true
has_affinity AttentionInterestAffinity.strong = true
has_affinity _ = false

-- The nested `add` of `_reason_codes`, under its test.
unfoldable pub add :
    Bool → CognitionReasonCode → List CognitionReasonCode → List CognitionReasonCode
add test code reasons =
    if test && not (contains code reasons) && ltb (length reasons) max_attention_reason_codes
    then reasons ++ code ∷ []
    else reasons

abbrev pub signal_codes : AttentionSignalProfile → List CognitionReasonCode
signal_codes p = add (is_low_relevance p.relevance) CognitionReasonCode.low_relevance (
    add p.no_new_value CognitionReasonCode.no_new_value (
      add p.repetition CognitionReasonCode.repetition (
        add (has_affinity p.interest_affinity) CognitionReasonCode.interest_affinity (
          add (is_high_novelty p.novelty) CognitionReasonCode.high_novelty (
            add (is_high_relevance p.relevance) CognitionReasonCode.high_relevance (
              add p.continuity CognitionReasonCode.social_followup (
                add p.critical_event CognitionReasonCode.critical_event
                  (add p.direct_address CognitionReasonCode.direct_address []))))))))

unfoldable pub reason_codes : AttentionSignalProfile → List CognitionReasonCode
reason_codes p =
    if is_empty (signal_codes p)
    then add true CognitionReasonCode.not_addressed
        (add true CognitionReasonCode.ambient_context (signal_codes p))
    else signal_codes p

abbrev pub is_worthy : AttentionSignalProfile → Bool
is_worthy p =
    p.direct_address
    || p.critical_event
    || p.continuity
    || (is_high_relevance p.relevance && is_high_novelty p.novelty)

abbrev pub is_noise : AttentionSignalProfile → Bool
is_noise p = is_low_relevance p.relevance || (p.repetition && p.no_new_value)

unfoldable pub decision_of : AttentionSignalProfile → AttentionDecision
decision_of p =
    if is_worthy p
    then AttentionDecision.think
    else if is_noise p
    then AttentionDecision.drop
    else AttentionDecision.note

-- `evaluate` of the policy, with nothing where the verdict's own checks raise.
unfoldable pub evaluate_evidence : AttentionEvidence → Option AttentionVerdict
evaluate_evidence e =
    if reason_codes_valid (reason_codes e.profile)
    then some (record {
      observation_id = e.observation_id;
      decision = decision_of e.profile;
      reason_codes = reason_codes e.profile;
    })
    else Option.none
