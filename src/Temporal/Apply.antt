-- ===== src/Temporal/Apply.antt =====
-- The invariant through `apply`, which may raise OverflowError.
use lilavel_runtime.Prelude.{
  ℕ, suc, ◌<◌, ◌+◌, String, List, [], ◌∷◌, ◌||◌, not, arith, length, is_empty, ltb, if-cases,
  String_Eq,
}
use lilavel_runtime.Prelude.Text.{is_bounded_text}
use lilavel_runtime.Temporal.Types.{
  TemporalProposal, TemporalPreparation, Result, ok, key_error, value_error, overflow_error, ◌>>=◌,
  TemporalCoordinator, Digests,
}
use lilavel_runtime.Temporal.Coordinator.{normalize_deadline, datetime_max}
use lilavel_runtime.Temporal.Admission.{
  existing_by_key, keys_of, exceeds_capacity, commit, prepare, normalized_from, apply,
}
use lilavel_runtime.Temporal.Invariant.{WellFormed, Returns}
use lilavel_runtime.Temporal.Existing.{Covers}
use lilavel_runtime.Temporal.Commit.{BoundedSources, existing-Covers, commit-WellFormed}
use lilavel_runtime.Temporal.Deadline.{Clamped, normalize_deadline_within}

-- The horizon from an instant passes the last instant of a `datetime`.
abbrev pub PastTheEnd : TemporalCoordinator → ℕ → Type 0
PastTheEnd c now = datetime_max < now + c.maximum_horizon

-- A call returns what it should, or raises OverflowError where that may be.
abbrev pub ReturnsUnless {ℓ} : {A : Type ℓ} → Type 0 → (A → Type 0) → Result A → Type 0
ReturnsUnless Q P (ok a) = P a
ReturnsUnless Q P key_error = ⊥
ReturnsUnless Q P value_error = ⊥
ReturnsUnless Q P overflow_error = Q

abbrev pub KeepsUnless {ℓ} : {A : Type ℓ} → Type 0 → Result (A × TemporalCoordinator) → Type 0
KeepsUnless Q r = ReturnsUnless Q (λ p. WellFormed p.1) r

ReturnsUnless-then {ℓ κ} :
    {A : Type ℓ} {B : Type κ} (Q : Type 0) (P : B → Type 0) (r : Result A) (f : A → Result B)
    → ReturnsUnless Q (λ _. Unit) r
    → ((a : A) → ReturnsUnless Q P (f a))
    → ReturnsUnless Q P (r >>= f)
ReturnsUnless-then Q P (ok a) f h g = g a
ReturnsUnless-then Q P key_error f h g = absurd h
ReturnsUnless-then Q P value_error f h g = absurd h
ReturnsUnless-then Q P overflow_error f h g = h

weaken-Returns {ℓ} :
    {A : Type ℓ} (Q : Type 0) (P : A → Type 0) (r : Result A)
    → Returns P r
    → ReturnsUnless Q (λ _. Unit) r
weaken-Returns Q P (ok a) h = tt
weaken-Returns Q P key_error h = h
weaken-Returns Q P value_error h = h
weaken-Returns Q P overflow_error h = absurd h

weaken-Kept {ℓ} :
    {A : Type ℓ} (Q : Type 0) (P : A → Type 0) (r : Result A) → Returns P r → ReturnsUnless Q P r
weaken-Kept Q P (ok a) h = h
weaken-Kept Q P key_error h = h
weaken-Kept Q P value_error h = h
weaken-Kept Q P overflow_error h = absurd h

weaken-Clamped :
    (c : TemporalCoordinator) (requested now : ℕ) (r : Result ℕ)
    → Clamped c requested now r
    → ReturnsUnless (PastTheEnd c now) (λ _. Unit) r
weaken-Clamped c requested now (ok d) h = tt
weaken-Clamped c requested now key_error h = h
weaken-Clamped c requested now value_error h = h
weaken-Clamped c requested now overflow_error h = h

normalized_from-ReturnsUnless :
    (h : Digests) (c : TemporalCoordinator) (now index : ℕ) (ps : List TemporalProposal)
    → WellFormed c
    → ReturnsUnless (PastTheEnd c now) (λ _. Unit) (normalized_from h c now index ps)
unfolding normalized_from
normalized_from-ReturnsUnless h c now index [] w = tt
normalized_from-ReturnsUnless h c now index (p ∷ ps) w =
    ReturnsUnless-then _ _ (normalize_deadline c p.not_before now) _
      (weaken-Clamped c p.not_before now _ (normalize_deadline_within c p.not_before now w))
      (λ deadline.
        ReturnsUnless-then _ _ (normalized_from h c now (suc index) ps) _
          (normalized_from-ReturnsUnless h c now (suc index) ps w) (λ items. tt))

prepare-ReturnsUnless :
    (h : Digests) (now : ℕ) (proposals : List TemporalProposal) (episode trigger : String)
    (c : TemporalCoordinator)
    → BoundedSources episode trigger
    → WellFormed c
    → ReturnsUnless (PastTheEnd c now) (λ _. Unit) (prepare h c now proposals episode trigger)
unfolding prepare
prepare-ReturnsUnless h now proposals episode trigger c b w =
    let Fine = ReturnsUnless {A = TemporalPreparation} (PastTheEnd c now) (λ _. Unit) in
    if-cases Fine (not (is_bounded_text 128 episode) || not (is_bounded_text 128 trigger)) _ _
      (λ long. ground (arith, b))
      (λ _.
        if-cases Fine (is_empty proposals) _ _ (λ _. tt)
          (λ _.
            if-cases Fine (ltb 8 (length proposals)) _ _ (λ _. tt)
              (λ _.
                ReturnsUnless-then _ _ (existing_by_key c) _
                  (weaken-Returns _ (λ existing. Covers c.intents c.dedup_keys existing)
                    (existing_by_key c) (existing-Covers c w))
                  (λ existing.
                    ReturnsUnless-then _ _ (normalized_from h c now 0 proposals) _
                      (normalized_from-ReturnsUnless h c now 0 proposals w)
                      (λ items.
                        if-cases Fine (exceeds_capacity c existing (keys_of items)) _ _ (λ _. tt)
                          (λ _. tt))))))

-- In a well-formed coordinator, with bounded source identifiers, `apply` returns and leaves the
-- coordinator well formed, or raises OverflowError; that only where its horizon from this instant
-- passes the last instant of a `datetime`. It raises nothing else.
pub apply-KeepsUnless :
    (h : Digests) (now : ℕ) (proposals : List TemporalProposal) (episode trigger : String)
    (c : TemporalCoordinator)
    → BoundedSources episode trigger
    → WellFormed c
    → KeepsUnless (PastTheEnd c now) (apply h now proposals episode trigger c)
unfolding apply
apply-KeepsUnless h now proposals episode trigger c b w =
    ReturnsUnless-then _ _ (prepare h c now proposals episode trigger) _
      (prepare-ReturnsUnless h now proposals episode trigger c b w)
      (λ p.
        weaken-Kept _ (λ q. WellFormed q.1) (commit h p episode trigger c)
          (commit-WellFormed h p episode trigger c b w))
