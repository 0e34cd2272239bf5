-- ===== src/Attention/Collect.antt =====
-- The reasons of an ambient trigger: every chosen identifier has a verdict.
use mathlib.Core.Path.{subst}
use lilavel_runtime.Prelude.{
  ◌≡◌, refl, ap, ◌∙◌, inl, inr, String, Bool, true, false, Option, some, List, [], ◌∷◌, ◌++◌, ◌&&◌,
  arith, contains, is_unique, is_unique-add, All, All-append, if◌then◌else◌, if-cases, Bool-cases,
  Option-cases, ◌==◌, ==_refl, String_Eq,
}
use lilavel_runtime.Prelude.Dict
use lilavel_runtime.Prelude.Dict.{Dict}
use lilavel_runtime.Intervention.Reasons.{CognitionReasonCode}
use lilavel_runtime.Attention.Types.{AttentionVerdict}
use lilavel_runtime.Attention.Gate.{
  code_value, is_think, thinking_ids, selected_verdicts, add_values, collect_values,
}
use lilavel_runtime.Attention.Signals.{Signal, signal_values}
use lilavel_runtime.Attention.Reason.{In}
use lilavel_runtime.Attention.Chosen.{ids_of, SignalsWhereThinking, When}

-- The identifier has a verdict, whose codes are among the nine.
abbrev pub HasSignals : Option AttentionVerdict → Type 0
HasSignals Option.none = ⊥
HasSignals (some v) = All Signal v.reason_codes

kept_verdict :
    (ids : List String) (vs : List AttentionVerdict) (d : Dict String AttentionVerdict) (i : String)
    → contains i (ids_of vs) ≡ false
    → Dict.get i (selected_verdicts ids vs d) ≡ Dict.get i d
unfolding selected_verdicts
kept_verdict ids [] d i h = refl
kept_verdict ids (v ∷ vs) d i h =
    kept_verdict ids vs _ i (ground (arith, h))
    ∙ if-cases (λ b. Dict.get i b ≡ Dict.get i d) (contains v.observation_id ids)
        (Dict.set v.observation_id v d) d
        (λ _. ground (arith, Dict.get-set v.observation_id i v d, h)) (λ _. refl)

where_true : (b : Bool) (T : Type 0) → b ≡ true → When b T → T
where_true true T h t = t
where_true false T h t = cc

-- A verdict that stands at the head, and is the only one of its identifier.
first_verdict-HasSignals :
    (ids : List String) (v : AttentionVerdict) (vs : List AttentionVerdict)
    (d : Dict String AttentionVerdict)
    → contains v.observation_id (ids_of vs) ≡ false
    → contains v.observation_id ids ≡ true
    → SignalsWhereThinking v
    → is_think v.decision ≡ true
    → HasSignals (Dict.get v.observation_id (selected_verdicts ids (v ∷ vs) d))
unfolding selected_verdicts
first_verdict-HasSignals ids v vs d once chosen s thinks =
    let i = v.observation_id in
    let found : Dict.get i (Dict.set i v d) ≡ some v =
      ground (arith, Dict.get-set i i v d, ==_refl i) in
    let signals = where_true (is_think v.decision) (All Signal v.reason_codes) thinks s in
    rw (chosen, kept_verdict ids vs (Dict.set i v d) i once, found) signals

pub selected-HasSignals :
    (ids : List String) (vs : List AttentionVerdict) (d : Dict String AttentionVerdict) (i : String)
    → is_unique (ids_of vs) ≡ true
    → All SignalsWhereThinking vs
    → contains i ids ≡ true
    → contains i (thinking_ids vs) ≡ true
    → HasSignals (Dict.get i (selected_verdicts ids vs d))
unfolding selected_verdicts
selected-HasSignals ids [] d i u s chosen h = cc
selected-HasSignals ids (v ∷ vs) d i u s chosen h =
    elim (Bool-cases (contains i (thinking_ids vs))) [
      | inl later ↦
          selected-HasSignals ids vs
            (if contains v.observation_id ids then Dict.set v.observation_id v d else d) i
            (ground (arith, u)) s.1 chosen later
      | inr not_later ↦
          let here : ((v.observation_id == i) && is_think v.decision) ≡ true =
            ground (arith, h, not_later) in
          let equal = (String_Eq.same_iff v.observation_id i).0 (ground (arith, here)) in
          rw (← equal) (
            first_verdict-HasSignals ids v vs d (ground (arith, u))
              (ap (λ k. contains k ids) equal ∙ chosen) s.0 (ground (arith, here)))
    ]

-- Values that differ from one another, all of them among the nine.
abbrev pub FineValues : List String → Type 0
FineValues values = (is_unique values ≡ true) × In signal_values values

add_values-FineValues :
    (values : List String) (cs : List CognitionReasonCode)
    → FineValues values
    → All Signal cs
    → FineValues (add_values values cs)
unfolding add_values
add_values-FineValues values [] f h = f
add_values-FineValues values (c ∷ cs) f h =
    add_values-FineValues
      (if contains (code_value c) values then values else values ++ code_value c ∷ []) cs
      (if-cases FineValues (contains (code_value c) values) values (values ++ code_value c ∷ [])
        (λ _. f)
        (λ new. (
          is_unique-add values (code_value c) f.0 new,
          All-append _ values (code_value c ∷ []) f.1 (h.0, tt),
        )))
      h.1

-- The values that the loop collects: no key is missing.
pub collect_values-FineValues :
    (d : Dict String AttentionVerdict) (ids values : List String)
    → FineValues values
    → All (λ i. HasSignals (Dict.get i d)) ids
    → (out : List String) × (collect_values d ids values ≡ some out) × FineValues out
unfolding collect_values
collect_values-FineValues d [] values f h = (values, refl, f)
collect_values-FineValues d (i ∷ ids) values f h = elim (Option-cases (Dict.get i d)) [
  | inl absent ↦ absurd (subst HasSignals absent h.0)
  | inr (v, found) ↦
      let signals = subst HasSignals found h.0 in
      let (out, collected, fine) =
        collect_values-FineValues d ids (add_values values v.reason_codes)
          (add_values-FineValues values v.reason_codes f signals) h.1 in
      (out, rw (found, collect_values) collected, fine)
]
