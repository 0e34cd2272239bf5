-- ===== src/Attention/Chosen.antt =====
-- What `evaluate` gives, and which identifiers `decide` chooses.
use lilavel_runtime.Prelude.{
  ◌≡◌, refl, ap, ◌∙◌, inl, inr, String, Bool, true, false, some, List, [], ◌∷◌, not, ◌&&◌, arith,
  map, contains, is_unique, All, if◌then◌else◌, if-cases, Bool-cases, ◌==◌, ==_refl, String_Eq,
}
use lilavel_runtime.Attention.Types.{Observation, AttentionVerdict, AttentionEvidenceExtractor}
use lilavel_runtime.Attention.Policy.{extract}
use lilavel_runtime.Attention.Gate.{
  evaluate_from, is_think, thinking_ids, is_direct_message, direct_from,
}
use lilavel_runtime.Attention.Verdicts.{verdict_for, evaluate_evidence-Justified}
use lilavel_runtime.Attention.Signals.{Signal, think-Signal}

-- One verdict for each identifier that was not seen, at its first observation.
abbrev pub verdicts_from :
    AttentionEvidenceExtractor → List String → List Observation → List AttentionVerdict
verdicts_from x seen [] = []
verdicts_from x seen (o ∷ os) =
    let known = verdicts_from x seen os in
    let rest = verdicts_from x (o.observation_id ∷ seen) os in
    if contains o.observation_id seen then known else verdict_for (extract x o) ∷ rest

pub evaluate_from_lem :
    (x : AttentionEvidenceExtractor) (seen : List String) (os : List Observation)
    → evaluate_from x seen os ≡ some (verdicts_from x seen os)
unfolding evaluate_from
evaluate_from_lem x seen [] = refl
evaluate_from_lem x seen (o ∷ os) = elim (Bool-cases (contains o.observation_id seen)) [
  | inl known ↦ rw known (evaluate_from_lem x seen os)
  | inr new ↦
      rw
        (
          new,
          (evaluate_evidence-Justified (extract x o)).0,
          evaluate_from,
          evaluate_from_lem x (o.observation_id ∷ seen) os,
        )
        refl
]

abbrev pub ids_of : List AttentionVerdict → List String
ids_of vs = map (λ (v : AttentionVerdict). v.observation_id) vs

-- No identifier that was seen before has a verdict.
pub seen_ids_absent :
    (x : AttentionEvidenceExtractor) (seen : List String) (os : List Observation) (i : String)
    → contains i seen ≡ true
    → contains i (ids_of (verdicts_from x seen os)) ≡ false
unfolding extract
seen_ids_absent x seen [] i h = refl
seen_ids_absent x seen (o ∷ os) i h = elim (Bool-cases (contains o.observation_id seen)) [
  | inl known ↦ rw known (seen_ids_absent x seen os i h)
  | inr new ↦
      let rest = seen_ids_absent x (o.observation_id ∷ seen) os i (ground (arith, h)) in
      elim (Bool-cases (o.observation_id == i)) [
        | inl same ↦ cc ((String_Eq.same_iff o.observation_id i).0 same, new, h)
        | inr other ↦ rw new (ground (arith, other, rest))
      ]
]

pub verdicts_from_unique :
    (x : AttentionEvidenceExtractor) (seen : List String) (os : List Observation)
    → is_unique (ids_of (verdicts_from x seen os)) ≡ true
unfolding extract
verdicts_from_unique x seen [] = refl
verdicts_from_unique x seen (o ∷ os) = elim (Bool-cases (contains o.observation_id seen)) [
  | inl known ↦ rw known (verdicts_from_unique x seen os)
  | inr new ↦
      let i = o.observation_id in
      let absent = seen_ids_absent x (i ∷ seen) os i (ground (arith, ==_refl i)) in
      rw new (ground (arith, absent, verdicts_from_unique x (i ∷ seen) os))
]

abbrev pub When : Bool → Type 0 → Type 0
When true T = T
When false T = Unit

-- A verdict to think has codes of the nine signals.
abbrev pub SignalsWhereThinking : AttentionVerdict → Type 0
SignalsWhereThinking v = When (is_think v.decision) (All Signal v.reason_codes)

signals_where_thinking :
    (x : AttentionEvidenceExtractor) (o : Observation)
    → SignalsWhereThinking (verdict_for (extract x o))
signals_where_thinking x o = elim (Bool-cases (is_think (verdict_for (extract x o)).decision)) [
  | inl thinks ↦ rw (thinks, SignalsWhereThinking) (think-Signal (extract x o) thinks)
  | inr idle ↦ rw (idle, SignalsWhereThinking) tt
]

pub verdicts_from-SignalsWhereThinking :
    (x : AttentionEvidenceExtractor) (seen : List String) (os : List Observation)
    → All SignalsWhereThinking (verdicts_from x seen os)
verdicts_from-SignalsWhereThinking x seen [] = tt
verdicts_from-SignalsWhereThinking x seen (o ∷ os) =
    if-cases (All SignalsWhereThinking) (contains o.observation_id seen) (verdicts_from x seen os)
      (verdict_for (extract x o) ∷ verdicts_from x (o.observation_id ∷ seen) os)
      (λ _. verdicts_from-SignalsWhereThinking x seen os)
      (λ _. (
        signals_where_thinking x o,
        verdicts_from-SignalsWhereThinking x (o.observation_id ∷ seen) os,
      ))

pub thinking_is_among :
    (i : String) (vs : List AttentionVerdict)
    → contains i (thinking_ids vs) ≡ true
    → contains i (ids_of vs) ≡ true
thinking_is_among i [] h = h
thinking_is_among i (v ∷ vs) h = ground (arith, thinking_is_among i vs)

pub thinking_unique :
    (vs : List AttentionVerdict) → is_unique (ids_of vs) ≡ true → is_unique (thinking_ids vs) ≡ true
thinking_unique [] u = refl
thinking_unique (v ∷ vs) u =
    ground (arith, thinking_unique vs, thinking_is_among v.observation_id vs, u)

-- Direct messages that were not seen before, all of which think, each of them once.
pub direct_from_unseen :
    (thinking seen : List String) (os : List Observation) (i : String)
    → contains i seen ≡ true
    → contains i (direct_from thinking seen os) ≡ false
unfolding direct_from
direct_from_unseen thinking seen [] i h = refl
direct_from_unseen thinking seen (o ∷ os) i h =
    if-cases (λ ids. contains i ids ≡ false)
      (contains o.observation_id thinking
        && is_direct_message o
        && not (contains o.observation_id seen))
      (o.observation_id ∷ direct_from thinking (o.observation_id ∷ seen) os)
      (direct_from thinking seen os)
      (λ kept. elim (Bool-cases (o.observation_id == i)) [
        | inl same ↦
            let equal = (String_Eq.same_iff o.observation_id i).0 same in
            let seen_too : contains o.observation_id seen ≡ true =
              ap (λ k. contains k seen) equal ∙ h in
            ground (arith, kept, seen_too)
        | inr other ↦ ground (
          arith,
          other,
          direct_from_unseen thinking (o.observation_id ∷ seen) os i (ground (arith, h)),
        )
      ])
      (λ _. direct_from_unseen thinking seen os i h)

pub direct_from_unique :
    (thinking seen : List String) (os : List Observation)
    → is_unique (direct_from thinking seen os) ≡ true
unfolding direct_from
direct_from_unique thinking seen [] = refl
direct_from_unique thinking seen (o ∷ os) =
    let i = o.observation_id in
    if-cases (λ ids. is_unique ids ≡ true)
      (contains i thinking && is_direct_message o && not (contains i seen))
      (i ∷ direct_from thinking (i ∷ seen) os) (direct_from thinking seen os)
      (λ _. ground (
        arith,
        direct_from_unseen thinking (i ∷ seen) os i (ground (arith, ==_refl i)),
        direct_from_unique thinking (i ∷ seen) os,
      ))
      (λ _. direct_from_unique thinking seen os)
