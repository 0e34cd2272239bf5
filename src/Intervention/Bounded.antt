-- ===== src/Intervention/Bounded.antt =====
-- `_bounded_reasons` of apps/runtime/src/lilavel_runtime/intervention.py, against a reference.
use lilavel_runtime.Prelude.{
  ℕ, ◌≤◌, ◌≡◌, refl, sym, ap, ◌∙◌, true, List, [], ◌∷◌, ◌++◌, not, ◌&&◌, arith, length,
  length-append, take, contains, ltb, if◌then◌else◌, if-cases, Bool-cases, inl, inr, is_unique,
  is_unique-add, take-full, take-fits,
}
use mathlib.Core.List.{append_assoc, append-nil}
use lilavel_runtime.Intervention.Reasons.{CognitionReasonCode, CognitionReasonCode_Comparable}
use lilavel_runtime.Intervention.Types.{reason_codes_valid}
use lilavel_runtime.Intervention.Policy.{add_reasons, bounded_reasons}

-- Few, unique, and no fewer than before.
abbrev pub FewUnique : ℕ → List CognitionReasonCode → Type 0
FewUnique n xs = (is_unique xs ≡ true) × (length xs ≤ 8) × (n ≤ length xs)

pub add_reasons-FewUnique :
    (n : ℕ) (xs cs : List CognitionReasonCode) → FewUnique n xs → FewUnique n (add_reasons xs cs)
unfolding add_reasons
add_reasons-FewUnique n xs [] h = h
add_reasons-FewUnique n xs (c ∷ cs) h =
    if-cases (λ ys. FewUnique n (add_reasons ys cs)) (not (contains c xs) && ltb (length xs) 8)
      (xs ++ c ∷ []) xs
      (λ t. add_reasons-FewUnique n (xs ++ c ∷ []) cs (
        is_unique-add xs c h.0 (ground arith),
        ground (arith, length-append xs (c ∷ [])),
        ground (arith, length-append xs (c ∷ [])),
      ))
      (λ f. add_reasons-FewUnique n xs cs h)

FewUnique-valid : (xs : List CognitionReasonCode) → FewUnique 1 xs → reason_codes_valid xs ≡ true
unfolding reason_codes_valid
FewUnique-valid [] h = ground arith
FewUnique-valid (x ∷ xs) h = ground arith

pub bounded_reasons-valid :
    (c : CognitionReasonCode) (second : List CognitionReasonCode)
    → reason_codes_valid (bounded_reasons (c ∷ []) second) ≡ true
unfolding bounded_reasons add_reasons
bounded_reasons-valid c second =
    FewUnique-valid _ (add_reasons-FewUnique 1 (c ∷ []) second (refl, ground arith, ground arith))

pub bounded_reasons-valid_nil :
    (c : CognitionReasonCode) (second : List CognitionReasonCode)
    → reason_codes_valid (bounded_reasons [] (c ∷ second)) ≡ true
unfolding bounded_reasons add_reasons
bounded_reasons-valid_nil c second =
    FewUnique-valid _ (add_reasons-FewUnique 1 (c ∷ []) second (refl, ground arith, ground arith))

-- The codes that are not among those seen, each at its first place.
unfoldable pub first_seen :
    List CognitionReasonCode → List CognitionReasonCode → List CognitionReasonCode
first_seen seen [] = []
first_seen seen (c ∷ cs) =
    let new = first_seen (seen ++ c ∷ []) cs in
    let old = first_seen seen cs in if contains c seen then old else c ∷ new

-- A list that is full takes no more reasons.
add_reasons-full : (xs cs : List CognitionReasonCode) → length xs ≡ 8 → add_reasons xs cs ≡ xs
unfolding add_reasons
add_reasons-full xs [] h = refl
add_reasons-full xs (c ∷ cs) h = ground (arith, add_reasons-full xs cs h)

add_reasons-first_seen :
    (xs cs : List CognitionReasonCode)
    → length xs ≤ 8
    → add_reasons xs cs ≡ take 8 (xs ++ first_seen xs cs)
unfolding add_reasons first_seen
add_reasons-first_seen xs [] h =
    sym (take-fits 8 (xs ++ []) (ground (arith, length-append xs [])) ∙ append-nil xs)
add_reasons-first_seen xs (c ∷ cs) h = elim (Bool-cases (contains c xs)) [
  | inl old ↦ rw old (add_reasons-first_seen xs cs h)
  | inr new ↦ elim (Bool-cases (ltb (length xs) 8)) [
    | inl room ↦
        rw (new, room)
          (add_reasons-first_seen (xs ++ c ∷ []) cs (ground (arith, length-append xs (c ∷ [])))
            ∙ ap (take 8) (append_assoc xs (c ∷ []) (first_seen (xs ++ c ∷ []) cs)))
    | inr full ↦
        rw (new, full)
          (add_reasons-full xs cs (ground arith)
            ∙ sym (take-full 8 xs (c ∷ first_seen (xs ++ c ∷ []) cs) (ground arith)))
  ]
]

add_reasons-append :
    (cs ds xs : List CognitionReasonCode)
    → add_reasons xs (cs ++ ds) ≡ add_reasons (add_reasons xs cs) ds
unfolding add_reasons
add_reasons-append [] ds xs = refl
add_reasons-append (c ∷ cs) ds xs = add_reasons-append cs ds _

-- `_bounded_reasons` of two groups keeps the first eight distinct codes of the groups, in their
-- order.
pub bounded_reasons_lem :
    (first second : List CognitionReasonCode)
    → bounded_reasons first second ≡ take 8 (first_seen [] (first ++ second))
unfolding bounded_reasons
bounded_reasons_lem first second =
    sym (add_reasons-append first second [])
    ∙ add_reasons-first_seen [] (first ++ second) (ground arith)
