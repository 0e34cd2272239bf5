-- ===== src/Attention/Direct.antt =====
-- Whatever profiles are trusted, a direct message is worth thinking.
use mathlib.Core.Path.{subst}
use lilavel_runtime.Prelude.{
  ◌≡◌, refl, ap, ◌∙◌, inl, inr, String, true, false, Option, some, List, [], ◌∷◌, not, ◌&&◌, ltb,
  length, arith, or_else, if-cases, Bool-cases, ◌==◌, String_Eq,
}
use lilavel_runtime.Prelude.Dict
use lilavel_runtime.Prelude.Dict.{Dict}
use lilavel_runtime.Prelude.Text.{is_bounded_text}
use lilavel_runtime.Attention.Types.{
  AttentionDecision, Observation, AttentionSignalProfile, AttentionEvidenceExtractor,
}
use lilavel_runtime.Attention.Policy.{
  max_attention_event_profiles, default_signals, direct_message_signals, add_profiles,
  bounded_profiles, attention_evidence_extractor, extract, decision_of, is_worthy,
}
use lilavel_runtime.Attention.Verdicts.{verdict_for}

-- What direct messages are taken for.
abbrev direct_signals : Dict String AttentionSignalProfile → AttentionSignalProfile
direct_signals d = or_else (Dict.get "direct_message" d) default_signals

abbrev KeepsDirect : Option (Dict String AttentionSignalProfile) → Type 0
KeepsDirect Option.none = Unit
KeepsDirect (some d) = (direct_signals d).direct_address ≡ true

set-direct_address :
    (kind : String) (p : AttentionSignalProfile) (d : Dict String AttentionSignalProfile)
    → (direct_signals d).direct_address ≡ true
    → (kind == "direct_message" && not p.direct_address) ≡ false
    → (direct_signals (Dict.set kind p d)).direct_address ≡ true
set-direct_address kind p d h k = elim (Bool-cases (kind == "direct_message")) [
  | inl same ↦ rw (Dict.get-set kind "direct_message" p d, same) (ground (arith, k, same))
  | inr other ↦ rw (Dict.get-set kind "direct_message" p d, other) h
]

add_profiles-KeepsDirect :
    (trusted : List (String × AttentionSignalProfile)) (d : Dict String AttentionSignalProfile)
    → (direct_signals d).direct_address ≡ true
    → KeepsDirect (add_profiles trusted d)
unfolding add_profiles
add_profiles-KeepsDirect [] d h = h
add_profiles-KeepsDirect ((kind, p) ∷ trusted) d h =
    if-cases KeepsDirect (not (is_bounded_text 128 kind)) _ _ (λ _. tt)
      (λ _.
        if-cases KeepsDirect (kind == "direct_message" && not p.direct_address) _ _ (λ _. tt)
          (λ kept.
            add_profiles-KeepsDirect trusted (Dict.set kind p d)
              (set-direct_address kind p d h kept)))

-- An extractor that was made takes direct messages for addressed ones.
abbrev Addressed : Option AttentionEvidenceExtractor → Type 0
Addressed Option.none = Unit
Addressed (some x) = (direct_signals x.profiles).direct_address ≡ true

bounded-Addressed :
    (o : Option (Dict String AttentionSignalProfile))
    → KeepsDirect o
    → Addressed (elim o [ Option.none ↦ Option.none | some d ↦ bounded_profiles d ])
bounded-Addressed Option.none h = tt
bounded-Addressed (some d) h =
    if-cases Addressed (ltb max_attention_event_profiles (length d)) _ _ (λ _. tt) (λ _. h)

made-Addressed :
    (trusted : List (String × AttentionSignalProfile))
    → Addressed (attention_evidence_extractor trusted)
unfolding attention_evidence_extractor Dict.get
made-Addressed trusted =
    bounded-Addressed _
      (add_profiles-KeepsDirect trusted (("direct_message", direct_message_signals) ∷ []) refl)

addressed_is_think :
    (p : AttentionSignalProfile) → p.direct_address ≡ true → decision_of p ≡ AttentionDecision.think
unfolding decision_of
addressed_is_think p h =
    if-cases (λ d. d ≡ AttentionDecision.think) (is_worthy p) _ _ (λ _. refl)
      (λ ordinary. ground (arith, ordinary, h))

-- Whatever trusted profiles the extractor was made with, an observation of a direct message is
-- decided to think.
pub direct_message_thinks :
    (trusted : List (String × AttentionSignalProfile)) (x : AttentionEvidenceExtractor)
    (o : Observation)
    → attention_evidence_extractor trusted ≡ some x
    → o.event.kind ≡ "direct_message"
    → (verdict_for (extract x o)).decision ≡ AttentionDecision.think
unfolding extract
direct_message_thinks trusted x o made direct = addressed_is_think (extract x o).profile (
    ap (λ k. (or_else (Dict.get k x.profiles) default_signals).direct_address) direct
    ∙ subst Addressed made (made-Addressed trusted))
