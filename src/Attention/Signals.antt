-- ===== src/Attention/Signals.antt =====
-- The reason codes of a verdict to think are among nine.
use lilavel_runtime.Prelude.{
  ◌≡◌, refl, sym, ap, ◌∙◌, inl, inr, String, Bool, true, false, List, [], ◌∷◌, ◌++◌, not, ◌&&◌, ltb,
  arith, length, is_empty, contains, All, All-append, if◌then◌else◌, if-cases, Bool-cases,
  String_Eq,
}
use lilavel_runtime.Intervention.Reasons.{CognitionReasonCode, CognitionReasonCode_Comparable}
use lilavel_runtime.Attention.Types.{AttentionDecision, AttentionSignalProfile, AttentionEvidence}
use lilavel_runtime.Attention.Policy.{
  add, signal_codes, reason_codes, is_worthy, is_noise, decision_of,
}
use lilavel_runtime.Attention.Gate.{code_value, is_think}
use lilavel_runtime.Attention.Verdicts.{verdict_for}

abbrev pub signal_values : List String
signal_values =
    "direct_address" ∷ "critical_event" ∷ "social_followup" ∷ "high_relevance" ∷ "high_novelty"
    ∷ "interest_affinity" ∷ "repetition" ∷ "no_new_value" ∷ "low_relevance" ∷ []

abbrev pub Signal : CognitionReasonCode → Type 0
Signal c = contains (code_value c) signal_values ≡ true

add-Signal :
    (test : Bool) (code : CognitionReasonCode) (reasons : List CognitionReasonCode)
    → Signal code
    → All Signal reasons
    → All Signal (add test code reasons)
unfolding add
add-Signal test code reasons s h =
    if-cases (All Signal) (test && not (contains code reasons) && ltb (length reasons) 8) _ _
      (λ _. All-append Signal reasons (code ∷ []) h (s, tt)) (λ _. h)

signal_codes-Signal : (p : AttentionSignalProfile) → All Signal (signal_codes p)
signal_codes-Signal p = add-Signal _ _ _ refl (
    add-Signal _ _ _ refl (
      add-Signal _ _ _ refl (
        add-Signal _ _ _ refl (
          add-Signal _ _ _ refl (
            add-Signal _ _ _ refl
              (add-Signal _ _ _ refl (add-Signal _ _ _ refl (add-Signal _ _ [] refl tt))))))))

add_empty :
    (test : Bool) (code : CognitionReasonCode) (reasons : List CognitionReasonCode)
    → is_empty (add test code reasons) ≡ true
    → (is_empty reasons ≡ true) × (test ≡ false)
unfolding add
add_empty false code reasons h = (h, refl)
add_empty true code [] h = cc
add_empty true code (r ∷ rs) h =
    if-cases
      (λ (codes : List CognitionReasonCode).
        is_empty codes ≡ true → (false ≡ true) × (true ≡ false))
      (not (contains code (r ∷ rs)) && ltb (length (r ∷ rs)) 8) (r ∷ rs ++ code ∷ []) (r ∷ rs)
      (λ _ k. (k, sym k)) (λ _ k. (k, sym k)) h

worthy_has_signals :
    (p : AttentionSignalProfile) → is_worthy p ≡ true → is_empty (signal_codes p) ≡ false
worthy_has_signals p w = elim (Bool-cases (is_empty (signal_codes p))) [
  | inr given ↦ given
  | inl empty ↦
      let (e1, _) = add_empty _ _ _ empty in
      let (e2, _) = add_empty _ _ _ e1 in
      let (e3, _) = add_empty _ _ _ e2 in
      let (e4, _) = add_empty _ _ _ e3 in
      let (e5, _) = add_empty _ _ _ e4 in
      let (e6, relevance) = add_empty _ _ _ e5 in
      let (e7, continuity) = add_empty _ _ _ e6 in
      let (e8, critical) = add_empty _ _ _ e7 in
      let (_, direct) = add_empty _ _ _ e8 in
      ground (arith, relevance, continuity, critical, direct, w)
]

think_is_worthy :
    (p : AttentionSignalProfile) → is_think (decision_of p) ≡ true → is_worthy p ≡ true
unfolding decision_of
think_is_worthy p h = elim (Bool-cases (is_worthy p)) [
  | inl worthy ↦ worthy
  | inr ordinary ↦
      let late : is_think (if is_noise p then AttentionDecision.drop else AttentionDecision.note)
          ≡ true =
        sym (
          ap is_think (
            ap
              (λ b.
                if b
                then AttentionDecision.think
                else if is_noise p
                then AttentionDecision.drop
                else AttentionDecision.note)
              ordinary))
        ∙ h in
      absurd (
        if-cases (λ d. is_think d ≡ true → ⊥) (is_noise p) AttentionDecision.drop
          AttentionDecision.note (λ _ k. cc) (λ _ k. cc) late)
]

-- The codes of a verdict to think.
pub think-Signal :
    (e : AttentionEvidence)
    → is_think (verdict_for e).decision ≡ true
    → All Signal (verdict_for e).reason_codes
unfolding reason_codes
think-Signal e h =
    if-cases (All Signal) (is_empty (signal_codes e.profile)) _ _
      (λ empty. cc (worthy_has_signals e.profile (think_is_worthy e.profile h), empty))
      (λ _. signal_codes-Signal e.profile)
