-- ===== src/Attention/Verdicts.antt =====
-- Every verdict is valid, and what it decides.
use lilavel_runtime.Prelude.{
  ◌≤◌, ◌≡◌, refl, ap, ◌⊎◌, inl, inr, Bool, true, false, some, List, [], ◌∷◌, ◌++◌, not, ◌&&◌, ltb,
  arith, length, length-append, is_empty, contains, is_unique, is_unique-add, if-cases, Bool-cases,
  String_Eq,
}
use lilavel_runtime.Intervention.Reasons.{CognitionReasonCode, CognitionReasonCode_Comparable}
use lilavel_runtime.Attention.Types.{
  AttentionDecision, AttentionRelevance, AttentionNovelty, AttentionSignalProfile,
  AttentionEvidence, AttentionVerdict, reason_codes_valid,
}
use lilavel_runtime.Attention.Policy.{
  add, signal_codes, reason_codes, is_worthy, is_noise, decision_of, evaluate_evidence,
  is_high_relevance, is_low_relevance, is_high_novelty,
}

-- Reasons that are few and differ from one another.
abbrev FewUnique : List CognitionReasonCode → Type 0
FewUnique codes = (length codes ≤ 8) × (is_unique codes ≡ true)

add-FewUnique :
    (test : Bool) (code : CognitionReasonCode) (reasons : List CognitionReasonCode)
    → FewUnique reasons
    → FewUnique (add test code reasons)
unfolding add
add-FewUnique test code reasons h =
    if-cases FewUnique (test && not (contains code reasons) && ltb (length reasons) 8)
      (reasons ++ code ∷ []) reasons
      (λ added. (
        ground (arith, length-append reasons (code ∷ []), added),
        is_unique-add reasons code h.1 (ground (arith, added)),
      ))
      (λ _. h)

signal_codes-FewUnique : (p : AttentionSignalProfile) → FewUnique (signal_codes p)
signal_codes-FewUnique p = add-FewUnique _ _ _ (
    add-FewUnique _ _ _ (
      add-FewUnique _ _ _ (
        add-FewUnique _ _ _ (
          add-FewUnique _ _ _ (
            add-FewUnique _ _ _ (
              add-FewUnique _ _ _
                (add-FewUnique _ _ _ (add-FewUnique _ _ [] (omega arith, refl)))))))))

reason_codes-FewUnique : (p : AttentionSignalProfile) → FewUnique (reason_codes p)
unfolding reason_codes
reason_codes-FewUnique p =
    if-cases FewUnique (is_empty (signal_codes p)) _ _
      (λ _. add-FewUnique _ _ _ (add-FewUnique _ _ _ (signal_codes-FewUnique p)))
      (λ _. signal_codes-FewUnique p)

-- The two codes of an empty list.
both_added :
    (codes : List CognitionReasonCode)
    → is_empty codes ≡ true
    → is_empty (
        add true CognitionReasonCode.not_addressed
          (add true CognitionReasonCode.ambient_context codes))
      ≡ false
unfolding add lilavel_runtime.Intervention.Reasons.same_code
both_added [] h = refl
both_added (c ∷ cs) h = cc

reason_codes_given : (p : AttentionSignalProfile) → is_empty (reason_codes p) ≡ false
unfolding reason_codes
reason_codes_given p =
    if-cases (λ (codes : List CognitionReasonCode). is_empty codes ≡ false)
      (is_empty (signal_codes p)) _ _ (λ empty. both_added (signal_codes p) empty) (λ given. given)

-- What the policy makes of a profile.
abbrev pub verdict_for : AttentionEvidence → AttentionVerdict
verdict_for e = record {
  observation_id = e.observation_id;
  decision = decision_of e.profile;
  reason_codes = reason_codes e.profile;
}

reason_codes_are_valid : (p : AttentionSignalProfile) → reason_codes_valid (reason_codes p) ≡ true
reason_codes_are_valid p =
    ground (arith, reason_codes_given p, (reason_codes-FewUnique p).0, (reason_codes-FewUnique p).1)

-- What is worth a thought: a direct address, a critical event, a continued conversation, or what is
-- highly relevant and highly novel at once.
abbrev pub Worthy : AttentionSignalProfile → Type 0
Worthy p =
    (p.direct_address ≡ true)
    ⊎ (p.critical_event ≡ true)
    ⊎ (p.continuity ≡ true)
    ⊎ ((p.relevance ≡ AttentionRelevance.high) × (p.novelty ≡ AttentionNovelty.high))

-- What may be dropped where it is not worth a thought: the hardly relevant, and what repeats
-- without new value.
abbrev pub Noise : AttentionSignalProfile → Type 0
Noise p = (p.relevance ≡ AttentionRelevance.low) ⊎ ((p.repetition ≡ true) × (p.no_new_value ≡ true))

high_relevance_lem :
    (r : AttentionRelevance) → is_high_relevance r ≡ true → r ≡ AttentionRelevance.high
high_relevance_lem AttentionRelevance.unknown h = cc
high_relevance_lem AttentionRelevance.low h = cc
high_relevance_lem AttentionRelevance.normal h = cc
high_relevance_lem AttentionRelevance.high h = refl

low_relevance_lem :
    (r : AttentionRelevance) → is_low_relevance r ≡ true → r ≡ AttentionRelevance.low
low_relevance_lem AttentionRelevance.unknown h = cc
low_relevance_lem AttentionRelevance.low h = refl
low_relevance_lem AttentionRelevance.normal h = cc
low_relevance_lem AttentionRelevance.high h = cc

high_novelty_lem : (n : AttentionNovelty) → is_high_novelty n ≡ true → n ≡ AttentionNovelty.high
high_novelty_lem AttentionNovelty.unknown h = cc
high_novelty_lem AttentionNovelty.low h = cc
high_novelty_lem AttentionNovelty.normal h = cc
high_novelty_lem AttentionNovelty.high h = refl

worthy_lem : (p : AttentionSignalProfile) → is_worthy p ≡ true → Worthy p
worthy_lem p h = elim (Bool-cases p.direct_address) [
  | inl direct ↦ inl direct
  | inr not_direct ↦ elim (Bool-cases p.critical_event) [
    | inl critical ↦ inr (inl critical)
    | inr not_critical ↦ elim (Bool-cases p.continuity) [
      | inl continued ↦ inr (inr (inl continued))
      | inr not_continued ↦ inr (
          inr (
            inr (
              high_relevance_lem p.relevance (ground arith),
              high_novelty_lem p.novelty (ground arith),
            )))
    ]
  ]
]

ordinary_lem : (p : AttentionSignalProfile) → is_worthy p ≡ false → ¬ Worthy p
ordinary_lem p h (inl direct) = ground (arith, h, direct)
ordinary_lem p h (inr (inl critical)) = ground (arith, h, critical)
ordinary_lem p h (inr (inr (inl continued))) = ground (arith, h, continued)
ordinary_lem p h (inr (inr (inr (relevance, novelty)))) =
    ground (arith, h, ap is_high_relevance relevance, ap is_high_novelty novelty)

noise_lem : (p : AttentionSignalProfile) → is_noise p ≡ true → Noise p
noise_lem p h = elim (Bool-cases (is_low_relevance p.relevance)) [
  | inl low ↦ inl (low_relevance_lem p.relevance low)
  | inr other ↦ inr (ground (arith, h, other), ground (arith, h, other))
]

context_lem : (p : AttentionSignalProfile) → is_noise p ≡ false → ¬ Noise p
context_lem p h (inl low) = ground (arith, h, ap is_low_relevance low)
context_lem p h (inr (repeated, idle)) = ground (arith, h, repeated, idle)

-- When a verdict is to think, to drop or to note.
abbrev pub Justified : AttentionSignalProfile → AttentionDecision → Type 0
Justified p AttentionDecision.think = Worthy p
Justified p AttentionDecision.drop = (¬ Worthy p) × Noise p
Justified p AttentionDecision.note = (¬ Worthy p) × (¬ Noise p)

pub decision_of-Justified : (p : AttentionSignalProfile) → Justified p (decision_of p)
unfolding decision_of
decision_of-Justified p =
    if-cases (Justified p) (is_worthy p) _ _ (λ worthy. worthy_lem p worthy)
      (λ ordinary.
        if-cases (Justified p) (is_noise p) _ _
          (λ noise. (ordinary_lem p ordinary, noise_lem p noise))
          (λ context. (ordinary_lem p ordinary, context_lem p context)))

-- The policy gives a verdict for every evidence, with one to eight unique reason codes: to think
-- where the profile is a direct address, a critical event or a continued conversation, or is both
-- highly relevant and highly novel; else to drop where it is of low relevance, or repeats without
-- new value; else to note.
pub evaluate_evidence-Justified :
    (e : AttentionEvidence)
    → (evaluate_evidence e ≡ some (verdict_for e))
      × (reason_codes_valid (verdict_for e).reason_codes ≡ true)
      × Justified e.profile (verdict_for e).decision
unfolding evaluate_evidence
evaluate_evidence-Justified e = (
  rw (reason_codes_are_valid e.profile) refl,
  reason_codes_are_valid e.profile,
  decision_of-Justified e.profile,
)
