-- ===== src/Temporal/Accept.antt =====
-- What `prepare` accepts, `commit` does not reject in the same state.
use mathlib.Core.Path.{subst}
use lilavel_runtime.Prelude.{
  ℕ, ◌≡◌, refl, String, Bool, true, false, List, [], ◌∷◌, not, ◌||◌, ltb, length, is_empty, arith,
  if◌then◌else◌, if-cases,
}
use lilavel_runtime.Prelude.Dict.{Dict}
use lilavel_runtime.Prelude.Text.{is_bounded_text}
use lilavel_runtime.Temporal.Types.{
  TemporalApplicationStatus, TemporalProposal, TemporalApplication, PreparedTemporalProposal,
  TemporalPreparation, prepared, rejection, Result, ok, key_error, value_error, overflow_error,
  ◌>>=◌, Digests, TemporalCoordinator,
}
use lilavel_runtime.Temporal.Admission.{
  existing_by_key, keys_of, exceeds_capacity, normalized_from, indices_from, rejected_application,
  admit_items, commit_with, commit, prepare, apply, all_duplicate,
}
use lilavel_runtime.Temporal.Invariant.{WellFormed, Returns}
use lilavel_runtime.Temporal.History.{trim_history-WellFormed}
use lilavel_runtime.Temporal.Commit.{BoundedSources, existing-Covers, admit_items-Untrimmed}
use lilavel_runtime.Temporal.Existing.{Covers}

abbrev pub is_rejected : TemporalApplication → Bool
is_rejected r = elim r.status [ TemporalApplicationStatus.rejected ↦ true | _ ↦ false ]

-- The prepared items fit beside the pending wakes.
abbrev HasRoom : TemporalCoordinator → List PreparedTemporalProposal → Type 0
HasRoom c [] = Unit
HasRoom c (item ∷ items) =
    Returns (λ existing. exceeds_capacity c existing (keys_of (item ∷ items)) ≡ false)
      (existing_by_key c)

abbrev Roomy : TemporalCoordinator → Result TemporalPreparation → Type 0
Roomy c (ok (prepared items)) = HasRoom c items
Roomy c (ok (rejection r)) = Unit
Roomy c key_error = Unit
Roomy c value_error = Unit
Roomy c overflow_error = Unit

-- The test of `prepare`, on the keys that it computed.
room_tested :
    (c : TemporalCoordinator) (items : List PreparedTemporalProposal)
    (refused : TemporalApplication) (existing : Dict String String)
    → existing_by_key c ≡ ok existing
    → Roomy c (
        if exceeds_capacity c existing (keys_of items)
        then ok (rejection refused)
        else ok (prepared items))
room_tested c [] refused existing e =
    if-cases (Roomy c) (exceeds_capacity c existing []) _ _ (λ _. tt) (λ _. tt)
room_tested c (item ∷ items) refused existing e =
    if-cases (Roomy c) (exceeds_capacity c existing (keys_of (item ∷ items))) _ _ (λ _. tt)
      (λ room. rw e room)

room_found :
    (c : TemporalCoordinator) (normalized : Result (List PreparedTemporalProposal))
    (refused : TemporalApplication) (r : Result (Dict String String))
    → existing_by_key c ≡ r
    → Roomy c (
        r >>= λ existing. normalized >>= λ items.
        if exceeds_capacity c existing (keys_of items)
        then ok (rejection refused)
        else ok (prepared items))
room_found c (ok items) refused (ok existing) e = room_tested c items refused existing e
room_found c key_error refused (ok existing) e = tt
room_found c value_error refused (ok existing) e = tt
room_found c overflow_error refused (ok existing) e = tt
room_found c normalized refused key_error e = tt
room_found c normalized refused value_error e = tt
room_found c normalized refused overflow_error e = tt

prepare-Roomy :
    (h : Digests) (now : ℕ) (proposals : List TemporalProposal) (episode trigger : String)
    (c : TemporalCoordinator)
    → Roomy c (prepare h c now proposals episode trigger)
unfolding prepare
prepare-Roomy h now proposals episode trigger c =
    if-cases (Roomy c) (not (is_bounded_text 128 episode) || not (is_bounded_text 128 trigger)) _ _
      (λ _. tt)
      (λ _.
        if-cases (Roomy c) (is_empty proposals) _ _ (λ _. tt)
          (λ _.
            if-cases (Roomy c) (ltb 8 (length proposals)) _ _ (λ _. tt)
              (λ _.
                room_found c (normalized_from h c now 0 proposals)
                  (rejected_application (indices_from 0 proposals) "pending_wake_capacity")
                  (existing_by_key c) refl)))

-- What a call gives is no rejection.
abbrev pub Accepted : Result (TemporalApplication × TemporalCoordinator) → Type 0
Accepted r = Returns (λ p. is_rejected p.0 ≡ false) r

trimmed-Accepted :
    (a : TemporalApplication) (r : Result TemporalCoordinator)
    → is_rejected a ≡ false
    → Returns WellFormed r
    → Accepted (r >>= λ trimmed. ok (a, trimmed))
trimmed-Accepted a (ok c) h w = h
trimmed-Accepted a key_error h w = absurd w
trimmed-Accepted a value_error h w = absurd w
trimmed-Accepted a overflow_error h w = absurd w

status_accepts :
    (b : Bool)
    → elim (if b then TemporalApplicationStatus.duplicate else TemporalApplicationStatus.applied)
        as (λ _. Bool) [ TemporalApplicationStatus.rejected ↦ true | _ ↦ false ]
      ≡ false
status_accepts true = refl
status_accepts false = refl

commit_with-Accepted :
    (h : Digests) (episode trigger : String) (items : List PreparedTemporalProposal)
    (c : TemporalCoordinator) (r : Result (Dict String String))
    → WellFormed c
    → Returns (λ existing. Covers c.intents c.dedup_keys existing) r
    → Returns (λ existing. exceeds_capacity c existing (keys_of items) ≡ false) r
    → Accepted (r >>= commit_with h episode trigger items c)
unfolding commit_with
commit_with-Accepted h episode trigger items c (ok existing) w v room =
    if-cases Accepted (exceeds_capacity c existing (keys_of items)) _ _ (λ full. cc (full, room))
      (λ _.
        trimmed-Accepted _ _
          (status_accepts (all_duplicate (admit_items h episode trigger items existing c).0))
          (trim_history-WellFormed _
            (admit_items-Untrimmed h episode trigger items existing c w v room)))
commit_with-Accepted h episode trigger items c key_error w v room = absurd v
commit_with-Accepted h episode trigger items c value_error w v room = absurd v
commit_with-Accepted h episode trigger items c overflow_error w v room = absurd v

commit-Accepted :
    (h : Digests) (items : List PreparedTemporalProposal) (episode trigger : String)
    (c : TemporalCoordinator)
    → BoundedSources episode trigger
    → WellFormed c
    → HasRoom c items
    → Accepted (commit h (prepared items) episode trigger c)
unfolding commit
commit-Accepted h [] episode trigger c b w room = refl
commit-Accepted h (item ∷ items) episode trigger c b w room =
    if-cases Accepted (not (is_bounded_text 128 episode) || not (is_bounded_text 128 trigger)) _ _
      (λ long. ground (arith, b))
      (λ _. commit_with-Accepted h episode trigger (item ∷ items) c _ w (existing-Covers c w) room)

-- In a well-formed coordinator, with bounded source identifiers: where `prepare` gives a
-- preparation without a rejection, `apply` returns, and what it returns is no rejection.
pub prepared_is_Accepted :
    (h : Digests) (now : ℕ) (proposals : List TemporalProposal) (episode trigger : String)
    (c : TemporalCoordinator) (items : List PreparedTemporalProposal)
    → BoundedSources episode trigger
    → WellFormed c
    → prepare h c now proposals episode trigger ≡ ok (prepared items)
    → Accepted (apply h now proposals episode trigger c)
unfolding apply
prepared_is_Accepted h now proposals episode trigger c items b w e = rw e (
    commit-Accepted h items episode trigger c b w
      (subst (Roomy c) e (prepare-Roomy h now proposals episode trigger c)))
