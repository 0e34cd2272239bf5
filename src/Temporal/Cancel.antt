-- ===== src/Temporal/Cancel.antt =====
-- A wake that `cancel` settles stays settled: cancelling it again does nothing.
use mathlib.Core.Path.{subst}
use lilavel_runtime.Prelude.{
  ◌≡◌, refl, sym, ap, ◌∙◌, inl, inr, String, Bool, true, false, Option, none, some, [], ◌∷◌, length,
  is_some, leb, if◌then◌else◌, if-cases, if_not-cases, Bool-cases, Option-cases, ==_refl, String_Eq,
}
use lilavel_runtime.Prelude.Dict
use lilavel_runtime.Prelude.Dict.{Dict}
use lilavel_runtime.Prelude.Text.{is_bounded_text}
use lilavel_runtime.Prelude.Entries.{get-pop-some}
use lilavel_runtime.Temporal.Types.{
  WakeIntent, WakeIntentStatus, Result, ok, key_error, value_error, overflow_error, ◌>>=◌,
  TemporalCoordinator, is_pending,
}
use lilavel_runtime.Temporal.Coordinator.{max_wake_history}
use lilavel_runtime.Temporal.Trim.{delete, trim_from, trim_history}
use lilavel_runtime.Temporal.Dispatch.{cancel}
use lilavel_runtime.Temporal.Invariant.{WellFormed}
use lilavel_runtime.Temporal.Admit.{get_of_set}

-- What is stored under an identifier is not pending.
abbrev SettledIn : String → Dict String WakeIntent → Type 0
SettledIn k d = (i : WakeIntent) → Dict.get k d ≡ some i → is_pending i ≡ false

-- What a result that is given satisfies.
abbrev IfOk {ℓ} : {A : Type ℓ} → (A → Type 0) → Result A → Type 0
IfOk P (ok a) = P a
IfOk P key_error = Unit
IfOk P value_error = Unit
IfOk P overflow_error = Unit

IfOk-then {ℓ κ} :
    {A : Type ℓ} {B : Type κ} (P : A → Type 0) (Q : B → Type 0) (r : Result A) (f : A → Result B)
    → IfOk P r
    → ((a : A) → P a → IfOk Q (f a))
    → IfOk Q (r >>= f)
IfOk-then P Q (ok a) f h g = g a h
IfOk-then P Q key_error f h g = tt
IfOk-then P Q value_error f h g = tt
IfOk-then P Q overflow_error f h g = tt

-- The keys are distinct, and no pending wake is stored under the identifier.
abbrev Settled : String → Dict String WakeIntent → Type 0
Settled k d = Dict.Distinct d × SettledIn k d

delete-Settled :
    (k w : String) (d : Dict String WakeIntent) → Settled k d → IfOk (Settled k) (delete w d)
unfolding delete
delete-Settled k w d h =
    if-cases (IfOk (Settled k)) (is_some (Dict.get w d)) (ok (Dict.pop w d)) key_error
      (λ _. (Dict.Distinct-pop w d h.0, λ i g. h.1 i (get-pop-some w k i d h.0 g))) (λ _. tt)

delete_any : (w : String) (d : Dict String String) → IfOk (λ _. Unit) (delete w d)
unfolding delete
delete_any w d =
    if-cases (IfOk (λ _. Unit)) (is_some (Dict.get w d)) (ok (Dict.pop w d)) key_error (λ _. tt)
      (λ _. tt)

abbrev SettledPair : String → Dict String WakeIntent × Dict String String → Type 0
SettledPair k p = Settled k p.0

trim_from-Settled :
    (k : String) (rest intents : Dict String WakeIntent) (keys : Dict String String)
    → Settled k intents
    → IfOk (SettledPair k) (trim_from rest intents keys)
unfolding trim_from
trim_from-Settled k [] intents keys h = h
trim_from-Settled k ((w, i) ∷ rest) intents keys h = elim (Bool-cases (is_pending i)) [
  | inl pending ↦ rw (pending, trim_from) (trim_from-Settled k rest intents keys h)
  | inr settled ↦
      rw (settled, trim_from)
        (IfOk-then (Settled k) (SettledPair k) (delete w intents) _ (delete-Settled k w intents h)
          (λ d s.
            IfOk-then (λ _. Unit) (SettledPair k) (delete w keys) _ (delete_any w keys)
              (λ b _. elim (Bool-cases (leb (length d) max_wake_history)) [
                | inl enough ↦ rw (enough) s
                | inr more ↦ rw (more) (trim_from-Settled k rest d b s)
              ])))
]

abbrev SettledState : String → TemporalCoordinator → Type 0
SettledState k c = SettledIn k c.intents

trim_history-Settled :
    (k : String) (c : TemporalCoordinator)
    → Settled k c.intents
    → IfOk (SettledState k) (trim_history c)
unfolding trim_history
trim_history-Settled k c h =
    if-cases (IfOk (SettledState k)) (leb (length c.intents) max_wake_history) _ _ (λ _. h.1)
      (λ _.
        IfOk-then (SettledPair k) (SettledState k) _ _
          (trim_from-Settled k c.intents c.intents c.dedup_keys h) (λ p s. s.1))

-- A cancellation that gives a wake leaves it settled.
abbrev Cancelled : String → Option WakeIntent × TemporalCoordinator → Type 0
Cancelled k (none, c) = Unit
Cancelled k (some _, c) = SettledState k c

cancelled_is_settled :
    (i : WakeIntent) (supersede : Bool)
    → is_pending (record i {
      status = if supersede then WakeIntentStatus.superseded else WakeIntentStatus.cancelled;
    })
      ≡ false
cancelled_is_settled i true = refl
cancelled_is_settled i false = refl

set-SettledIn :
    (k : String) (v : WakeIntent) (d : Dict String WakeIntent)
    → is_pending v ≡ false
    → SettledIn k (Dict.set k v d)
set-SettledIn k v d s j g = elim (get_of_set k k v j d g) [
  | inl (_, value) ↦ sym (ap (λ x. is_pending x) value) ∙ s
  | inr (other, _) ↦ cc (other, ==_refl k)
]

cancel-Cancelled :
    (id : String) (supersede : Bool) (c : TemporalCoordinator)
    → WellFormed c
    → IfOk (Cancelled id) (cancel id supersede c)
unfolding cancel
cancel-Cancelled id supersede c w =
    if_not-cases (IfOk (Cancelled id)) (is_bounded_text 128 id) _ _ (λ _. tt)
      (λ _. elim (Option-cases (Dict.get id c.intents)) [
        | inl absent ↦ rw absent tt
        | inr (i, found) ↦ rw found (
            if_not-cases (IfOk (Cancelled id)) (is_pending i) _ _ (λ _. tt)
              (λ _.
                IfOk-then (SettledState id) (Cancelled id) _ _
                  (trim_history-Settled id _ (
                    Dict.Distinct-set id _ c.intents w.consistent.distinct,
                    set-SettledIn id _ c.intents (cancelled_is_settled i supersede),
                  ))
                  (λ d s. s)))
      ])

cancel_settled :
    (id : String) (supersede : Bool) (c : TemporalCoordinator)
    → is_bounded_text 128 id ≡ true
    → SettledState id c
    → cancel id supersede c ≡ ok (none, c)
unfolding cancel
cancel_settled id supersede c b s = elim (Option-cases (Dict.get id c.intents)) [
  | inl absent ↦ rw (b, absent) refl
  | inr (i, found) ↦ rw (b, found, s i found) refl
]

-- In a well-formed coordinator, where `cancel` gives the wake that it settled, cancelling the
-- same identifier again, superseding or not, gives none and changes nothing.
pub cancel_once :
    (id : String) (supersede again : Bool) (c d : TemporalCoordinator) (i : WakeIntent)
    → is_bounded_text 128 id ≡ true
    → WellFormed c
    → cancel id supersede c ≡ ok (some i, d)
    → cancel id again d ≡ ok (none, d)
cancel_once id supersede again c d i b w e =
    cancel_settled id again d b (subst (IfOk (Cancelled id)) e (cancel-Cancelled id supersede c w))
