-- ===== src/Attention/Decide.antt =====
-- `decide` never raises, and what it decides.
use mathlib.Core.Path.{subst}
use lilavel_runtime.Prelude.{
  ℕ, zero, suc, ◌≤◌, ◌<◌, ◌≡◌, ◌⊎◌, refl, sym, ap, ◌∙◌, min, inl, inr, String, Bool, true, false,
  Option, some, List, [], ◌∷◌, ◌++◌, not, ◌&&◌, ◌||◌, leb, arith, length, length-take, is_empty,
  contains, is_unique, is_unique-add, take, All, All-append, if◌then◌else◌, if-cases, if_not-cases,
  Bool-cases, Option-cases, ◌==◌, ==_refl, String_Eq,
}
use lilavel_runtime.Prelude.Text.{is_bounded_text}
use lilavel_runtime.Attention.Types.{Observation, AttentionVerdict, AttentionEvidenceExtractor}
use lilavel_runtime.Attention.Gate.{
  thinking_ids, is_direct_message, direct_from, GateDecision, no_cognition, trigger, raises,
  cognition_trigger, selected_verdicts, collect_values, attention_reason, ambient_trigger,
  decide_on, decide,
}
use lilavel_runtime.Attention.Reason.{is_unique-take, All-take, attention_reason-fits}
use lilavel_runtime.Attention.Chosen.{
  verdicts_from, evaluate_from_lem, ids_of, verdicts_from_unique, SignalsWhereThinking,
  verdicts_from-SignalsWhereThinking, thinking_unique, direct_from_unique,
}
use lilavel_runtime.Attention.Thinks.{
  Thinks, OfDirectMessage, thinking-Thinks, Thinks-thinking, direct_from_finds,
}
use lilavel_runtime.Attention.Collect.{selected-HasSignals, collect_values-FineValues}

map-All :
    (P Q : String → Type 0) (ids : List String) → ((i : String) → P i → Q i) → All P ids → All Q ids
map-All P Q [] f h = tt
map-All P Q (i ∷ ids) f h = (f i h.0, map-All P Q ids f h.1)

OfDirectMessage-cons :
    (thinking : List String) (o : Observation) (os : List Observation) (i : String)
    → (contains i thinking ≡ true) × OfDirectMessage os i
    → (contains i thinking ≡ true) × OfDirectMessage (o ∷ os) i
OfDirectMessage-cons thinking o os i h = (h.0, inr h.1)

direct_from-OfDirectMessage :
    (thinking seen : List String) (os : List Observation)
    → All (λ i. (contains i thinking ≡ true) × OfDirectMessage os i) (direct_from thinking seen os)
unfolding direct_from
direct_from-OfDirectMessage thinking seen [] = tt
direct_from-OfDirectMessage thinking seen (o ∷ os) =
    let i = o.observation_id in
    if-cases (All (λ j. (contains j thinking ≡ true) × OfDirectMessage (o ∷ os) j))
      (contains i thinking && is_direct_message o && not (contains i seen))
      (i ∷ direct_from thinking (i ∷ seen) os) (direct_from thinking seen os)
      (λ kept. (
        (
          ground (arith, kept),
          inl (refl, (String_Eq.same_iff o.event.kind "direct_message").0 (ground (arith, kept))),
        ),
        map-All _ _ _ (OfDirectMessage-cons thinking o os)
            (direct_from-OfDirectMessage thinking (i ∷ seen) os),
      ))
      (λ _.
        map-All _ _ _ (OfDirectMessage-cons thinking o os)
          (direct_from-OfDirectMessage thinking seen os))

-- The identifiers of a trigger: some, few, different from one another, and of a kind.
abbrev pub GoodIds : ℕ → (String → Type 0) → List String → Type 0
GoodIds bound P ids =
    (is_empty ids ≡ false) × (length ids ≤ bound) × (is_unique ids ≡ true) × All P ids

take-GoodIds :
    (bound : ℕ) (P : String → Type 0) (ids : List String)
    → 0 < bound
    → is_empty ids ≡ false
    → is_unique ids ≡ true
    → All P ids
    → GoodIds bound P (take bound ids)
take-GoodIds zero P ids b e u h = absurd (omega arith)
take-GoodIds (suc n) P [] b e u h = cc
take-GoodIds (suc n) P (i ∷ ids) b e u h = (
  refl,
  omega (arith, length-take (suc n) (i ∷ ids)),
  is_unique-take (suc n) (i ∷ ids) u,
  All-take P (suc n) (i ∷ ids) h,
)

-- No direct message is worth a thought.
abbrev pub NoDirectThinks : AttentionEvidenceExtractor → List Observation → Type 0
NoDirectThinks x os =
    All (λ o. ¬ (OfDirectMessage os o.observation_id × Thinks x os o.observation_id)) os

-- A trigger by direct messages alone, or one where no direct message is worth a thought.
abbrev pub DirectFirst :
    AttentionEvidenceExtractor → List Observation → List String → String → Type 0
DirectFirst x os ids reason =
    ((reason ≡ "explicit_direct_message") × All (OfDirectMessage os) ids) ⊎ NoDirectThinks x os

-- What may come out: nothing where no observation is worth a thought, or a trigger that is right.
abbrev pub Decided : AttentionEvidenceExtractor → ℕ → List Observation → GateDecision → Type 0
Decided x bound os no_cognition = All (λ o. ¬ Thinks x os o.observation_id) os
Decided x bound os (trigger ids reason) =
    (is_bounded_text 128 reason ≡ true)
    × GoodIds bound (Thinks x os) ids
    × DirectFirst x os ids reason
Decided x bound os raises = ⊥

every_observation :
    (P : Observation → Type 0) (os : List Observation) → ((o : Observation) → P o) → All P os
every_observation P [] f = tt
every_observation P (o ∷ os) f = (f o, every_observation P os f)

empty_contains : (i : String) (ids : List String) → is_empty ids ≡ true → contains i ids ≡ false
empty_contains i [] h = refl
empty_contains i (_ ∷ _) h = cc

idle-Decided :
    (x : AttentionEvidenceExtractor) (bound : ℕ) (os : List Observation)
    → is_empty (thinking_ids (verdicts_from x [] os)) ≡ true
    → Decided x bound os no_cognition
idle-Decided x bound os idle = every_observation _ os (λ o t.
    let thinks = Thinks-thinking x [] os o.observation_id refl t in
    let absent = empty_contains o.observation_id _ idle in cc (thinks, absent))

ambient-NoDirectThinks :
    (x : AttentionEvidenceExtractor) (os : List Observation)
    → is_empty (direct_from (thinking_ids (verdicts_from x [] os)) [] os) ≡ true
    → NoDirectThinks x os
ambient-NoDirectThinks x os ambient = every_observation _ os (λ o h.
    let thinking = thinking_ids (verdicts_from x [] os) in
    let thinks = Thinks-thinking x [] os o.observation_id refl h.1 in
    let found = direct_from_finds thinking [] os o.observation_id thinks refl h.0 in
    let absent = empty_contains o.observation_id _ ambient in cc (found, absent))

cognition_trigger-Decided :
    (x : AttentionEvidenceExtractor) (bound : ℕ) (os : List Observation) (ids : List String)
    (reason : String)
    → bound ≤ 8
    → GoodIds bound (Thinks x os) ids
    → is_bounded_text 128 reason ≡ true
    → DirectFirst x os ids reason
    → Decided x bound os (cognition_trigger ids reason)
unfolding cognition_trigger
cognition_trigger-Decided x bound os ids reason l g r d =
    if-cases (Decided x bound os)
      (not (is_empty ids) && leb (length ids) 8 && is_unique ids && is_bounded_text 128 reason)
      (trigger ids reason) raises (λ _. (r, g, d)) (λ bad. ground (arith, bad, g.0, g.1, g.2, r))

both_All :
    (P Q : String → Type 0) (ids : List String) → All P ids → All Q ids → All (λ i. P i × Q i) ids
both_All P Q [] h k = tt
both_All P Q (i ∷ ids) h k = ((h.0, k.0), both_All P Q ids h.1 k.1)

All-contained :
    (ids all : List String)
    → ((i : String) → contains i ids ≡ true → contains i all ≡ true)
    → All (λ i. contains i all ≡ true) ids
All-contained [] all f = tt
All-contained (i ∷ ids) all f =
    (f i (ground (arith, ==_refl i)), All-contained ids all (λ j h. f j (ground arith)))

ambient-Decided :
    (x : AttentionEvidenceExtractor) (bound : ℕ) (os : List Observation) (ids : List String)
    (vs : List AttentionVerdict)
    → bound ≤ 8
    → GoodIds bound (Thinks x os) ids
    → NoDirectThinks x os
    → is_unique (ids_of vs) ≡ true
    → All SignalsWhereThinking vs
    → All (λ i. contains i (thinking_ids vs) ≡ true) ids
    → Decided x bound os (ambient_trigger ids (collect_values (selected_verdicts ids vs []) ids []))
ambient-Decided x bound os ids vs l g none_direct u s t =
    let themselves = All-contained ids ids (λ i h. h) in
    let has = both_All _ _ ids themselves t in
    let (out, collected, fine) =
      collect_values-FineValues (selected_verdicts ids vs []) ids [] (refl, tt)
        (map-All _ _ ids (λ i h. selected-HasSignals ids vs [] i u s h.0 h.1) has) in
    rw collected (
      cognition_trigger-Decided x bound os ids (attention_reason out) l g
        (attention_reason-fits out fine.0 fine.1) (inr none_direct))

decide_on-Decided :
    (x : AttentionEvidenceExtractor) (bound : ℕ) (os : List Observation)
    → 0 < bound
    → bound ≤ 8
    → Decided x bound os (decide_on bound os (verdicts_from x [] os))
unfolding decide_on is_bounded_text lilavel_runtime.Prelude.Text.is_blank
    lilavel_runtime.Prelude.Text.is_space
decide_on-Decided x bound os b l =
    let vs = verdicts_from x [] os in
    let thinking = thinking_ids vs in
    let direct = direct_from thinking [] os in
    let unique = verdicts_from_unique x [] os in
    let contained = All-contained thinking thinking (λ i h. h) in
    let found = direct_from-OfDirectMessage thinking [] os in
    if-cases (Decided x bound os) (is_empty thinking) _ _ (λ idle. idle-Decided x bound os idle)
      (λ thinks.
        if-cases (Decided x bound os) (is_empty direct) _ _
          (λ ambient.
            ambient-Decided x bound os (take bound thinking) vs l
              (take-GoodIds bound (Thinks x os) thinking b thinks (thinking_unique vs unique)
                (map-All _ _ thinking (λ i h. thinking-Thinks x [] os i refl h) contained))
              (ambient-NoDirectThinks x os ambient) unique
              (verdicts_from-SignalsWhereThinking x [] os) (All-take _ bound thinking contained))
          (λ some_direct.
            cognition_trigger-Decided x bound os (take bound direct) "explicit_direct_message" l
              (take-GoodIds bound (Thinks x os) direct b some_direct
                (direct_from_unique thinking [] os)
                (map-All _ _ direct (λ i h. thinking-Thinks x [] os i refl h.0) found))
              refl (inl (refl, All-take _ bound direct (map-All _ _ direct (λ i h. h.1) found)))))

decide_lem :
    (x : AttentionEvidenceExtractor) (bound : ℕ) (os : List Observation)
    → decide x bound os ≡ decide_on bound os (verdicts_from x [] os)
unfolding decide
decide_lem x bound os = rw (evaluate_from_lem x [] os, decide) refl

-- With a bound from one to eight, `decide` never raises: it gives no cognition only where no
-- observation is worth a thought, the first with an identifier counting, and otherwise a trigger
-- whose reason is bounded text of at most 128 bytes and whose identifiers are some, no more than
-- the bound, unique, and all of observations worth a thought; they are all of direct messages,
-- and the reason says so, unless no direct message is worth a thought.
pub decide-Decided :
    (x : AttentionEvidenceExtractor) (bound : ℕ) (os : List Observation)
    → 0 < bound
    → bound ≤ 8
    → Decided x bound os (decide x bound os)
decide-Decided x bound os b l =
    subst (Decided x bound os) (sym (decide_lem x bound os)) (decide_on-Decided x bound os b l)
