-- ===== src/Attention/Thinks.antt =====
-- Which observations are worth a thought, and which of them are direct messages.
use lilavel_runtime.Prelude.{
  ◌≡◌, ◌≢◌, ◌⊎◌, refl, sym, ap, ◌∙◌, inl, inr, String, true, false, List, [], ◌∷◌, not, ◌&&◌, arith,
  contains, if◌then◌else◌, if-cases, Bool-cases, ◌==◌, String_Eq,
}
use lilavel_runtime.Attention.Types.{
  AttentionDecision, Observation, AttentionSignalProfile, AttentionEvidenceExtractor,
}
use lilavel_runtime.Attention.Policy.{extract, decision_of}
use lilavel_runtime.Attention.Gate.{thinking_ids, is_think, is_direct_message, direct_from}
use lilavel_runtime.Attention.Verdicts.{Worthy, Justified, decision_of-Justified}
use lilavel_runtime.Attention.Chosen.{verdicts_from, seen_ids_absent, thinking_is_among}

-- The first observation with an identifier has a profile that is worth a thought.
abbrev pub Thinks : AttentionEvidenceExtractor → List Observation → String → Type 0
Thinks x [] i = ⊥
Thinks x (o ∷ os) i =
    ((o.observation_id ≡ i) × Worthy (extract x o).profile)
    ⊎ ((o.observation_id ≢ i) × Thinks x os i)

-- Some direct message has an identifier.
abbrev pub OfDirectMessage : List Observation → String → Type 0
OfDirectMessage [] i = ⊥
OfDirectMessage (o ∷ os) i =
    ((o.observation_id ≡ i) × (o.event.kind ≡ "direct_message")) ⊎ OfDirectMessage os i

think_deserved :
    (p : AttentionSignalProfile) (d : AttentionDecision)
    → Justified p d
    → is_think d ≡ true
    → Worthy p
think_deserved p AttentionDecision.think j h = j
think_deserved p AttentionDecision.drop j h = cc
think_deserved p AttentionDecision.note j h = cc

idle_is_unworthy :
    (p : AttentionSignalProfile) (d : AttentionDecision)
    → Justified p d
    → is_think d ≡ false
    → ¬ Worthy p
idle_is_unworthy p AttentionDecision.think j h w = cc
idle_is_unworthy p AttentionDecision.drop j h w = j.0 w
idle_is_unworthy p AttentionDecision.note j h w = j.0 w

different : (i j : String) → (i == j) ≡ false → i ≢ j
different i j other same = let found = (String_Eq.same_iff i j).1 same in cc (found, other)

-- What a further identifier, that was not seen before, does to those that think.
first_thinks :
    (x : AttentionEvidenceExtractor) (seen : List String) (o : Observation) (os : List Observation)
    → contains o.observation_id seen ≡ false
    → thinking_ids (verdicts_from x seen (o ∷ os)) ≡ (
        if is_think (decision_of (extract x o).profile)
        then o.observation_id ∷ thinking_ids (verdicts_from x (o.observation_id ∷ seen) os)
        else thinking_ids (verdicts_from x (o.observation_id ∷ seen) os))
unfolding extract
first_thinks x seen o os new = rw new refl

later_thinks :
    (x : AttentionEvidenceExtractor) (seen : List String) (o : Observation) (os : List Observation)
    → contains o.observation_id seen ≡ true
    → thinking_ids (verdicts_from x seen (o ∷ os)) ≡ thinking_ids (verdicts_from x seen os)
later_thinks x seen o os known = rw known refl

-- An identifier that was seen before does not think.
seen_idle :
    (x : AttentionEvidenceExtractor) (seen : List String) (os : List Observation) (i : String)
    → contains i seen ≡ true
    → contains i (thinking_ids (verdicts_from x seen os)) ≡ false
seen_idle x seen os i h =
    let absent = seen_ids_absent x seen os i h in
    let among = thinking_is_among i (verdicts_from x seen os) in
    elim (Bool-cases (contains i (thinking_ids (verdicts_from x seen os)))) [
      | inl thinks ↦ cc (among thinks, absent)
      | inr idle ↦ idle
    ]

-- The identifiers that think are those worth a thought.
pub thinking-Thinks :
    (x : AttentionEvidenceExtractor) (seen : List String) (os : List Observation) (i : String)
    → contains i seen ≡ false
    → contains i (thinking_ids (verdicts_from x seen os)) ≡ true
    → Thinks x os i
thinking-Thinks x seen [] i new h = cc
thinking-Thinks x seen (o ∷ os) i new h =
    let k = o.observation_id in
    let d = decision_of (extract x o).profile in
    elim (Bool-cases (contains k seen)) [
      | inl known ↦ inr (
        (λ (same : k ≡ i). cc (ap (λ j. contains j seen) same, known, new)),
        thinking-Thinks x seen os i new
            (sym (ap (contains i) (later_thinks x seen o os known)) ∙ h),
      )
      | inr first ↦
          let among = sym (ap (contains i) (first_thinks x seen o os first)) ∙ h in
          elim (Bool-cases (k == i)) [
            | inl same ↦
                let equal = (String_Eq.same_iff k i).0 same in
                let idle = seen_idle x (k ∷ seen) os i (ground (arith, same)) in
                inl (
                  equal,
                  think_deserved (extract x o).profile d
                      (decision_of-Justified (extract x o).profile) (ground (arith, among, idle)),
                )
            | inr other ↦ inr (
              different k i other,
              thinking-Thinks x (k ∷ seen) os i (ground (arith, other, new))
                  (ground (arith, other, among)),
            )
          ]
    ]

pub Thinks-thinking :
    (x : AttentionEvidenceExtractor) (seen : List String) (os : List Observation) (i : String)
    → contains i seen ≡ false
    → Thinks x os i
    → contains i (thinking_ids (verdicts_from x seen os)) ≡ true
Thinks-thinking x seen [] i new h = absurd h
Thinks-thinking x seen (o ∷ os) i new (inl (same, worthy)) =
    let k = o.observation_id in
    let d = decision_of (extract x o).profile in
    let first : contains k seen ≡ false = ap (λ j. contains j seen) same ∙ new in
    let found : (k == i) ≡ true = (String_Eq.same_iff k i).1 same in
    ap (contains i) (first_thinks x seen o os first) ∙ elim (Bool-cases (is_think d)) [
      | inl thinks ↦ ground (arith, found, thinks)
      | inr idle ↦ absurd (
          idle_is_unworthy (extract x o).profile d (decision_of-Justified (extract x o).profile)
            idle worthy)
    ]
Thinks-thinking x seen (o ∷ os) i new (inr (other, h)) =
    let k = o.observation_id in
    elim (Bool-cases (contains k seen)) [
      | inl known ↦
          ap (contains i) (later_thinks x seen o os known) ∙ Thinks-thinking x seen os i new h
      | inr first ↦ elim (Bool-cases (k == i)) [
        | inl same ↦ absurd (other ((String_Eq.same_iff k i).0 same))
        | inr differs ↦
            let rest = Thinks-thinking x (k ∷ seen) os i (ground (arith, differs, new)) h in
            ap (contains i) (first_thinks x seen o os first) ∙ ground (arith, rest)
      ]
    ]

-- Every direct message that thinks is among the direct messages found.
pub direct_from_finds :
    (thinking seen : List String) (os : List Observation) (i : String)
    → contains i thinking ≡ true
    → contains i seen ≡ false
    → OfDirectMessage os i
    → contains i (direct_from thinking seen os) ≡ true
unfolding direct_from
direct_from_finds thinking seen [] i t new h = absurd h
direct_from_finds thinking seen (o ∷ os) i t new (inl (same, direct)) =
    let k = o.observation_id in
    let found : (k == i) ≡ true = (String_Eq.same_iff k i).1 same in
    let kind = (String_Eq.same_iff o.event.kind "direct_message").1 direct in
    let thinks : contains k thinking ≡ true = ap (λ j. contains j thinking) same ∙ t in
    let first : contains k seen ≡ false = ap (λ j. contains j seen) same ∙ new in
    ground (arith, found, kind, thinks, first)
direct_from_finds thinking seen (o ∷ os) i t new (inr h) =
    let k = o.observation_id in
    if-cases (λ ids. contains i ids ≡ true)
      (contains k thinking && is_direct_message o && not (contains k seen))
      (k ∷ direct_from thinking (k ∷ seen) os) (direct_from thinking seen os)
      (λ kept. elim (Bool-cases (k == i)) [
        | inl same ↦ ground (arith, same)
        | inr other ↦
            let rest =
              direct_from_finds thinking (k ∷ seen) os i t (ground (arith, other, new)) h in
            ground (arith, rest)
      ])
      (λ _. direct_from_finds thinking seen os i t new h)
