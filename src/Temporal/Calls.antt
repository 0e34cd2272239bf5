-- ===== src/Temporal/Calls.antt =====
-- Any calls on a new coordinator, one after another.
use lilavel_runtime.Prelude.{
  ℕ, ◌≡◌, String, Bool, true, Option, none, some, List, [], ◌∷◌, ◌&&◌, arith, leb, ltb, if-cases,
  String_Eq,
}
use lilavel_runtime.Prelude.Text.{is_bounded_text}
use lilavel_runtime.Prelude.Dict
use mathlib.Core.Path.{subst}
use lilavel_runtime.Temporal.Types.{
  TemporalProposal, TemporalPreparation, Result, ok, key_error, value_error, overflow_error, ◌>>=◌,
  Digests, TemporalCoordinator,
}
use lilavel_runtime.Temporal.Coordinator.{
  temporal_coordinator, pending_count, max_pending_wake_intents,
}
use lilavel_runtime.Temporal.Admission.{apply, commit}
use lilavel_runtime.Temporal.Dispatch.{cancel, poll_due}
use lilavel_runtime.Temporal.Invariant.{WellFormed, Returns}
use lilavel_runtime.Temporal.Commit.{BoundedSources, Keeps, commit-WellFormed}
use lilavel_runtime.Temporal.Apply.{KeepsUnless, apply-KeepsUnless}
use lilavel_runtime.Temporal.Settle.{cancel-WellFormed}
use lilavel_runtime.Temporal.Due.{poll_due-WellFormed}

-- What `__init__` gives is well formed.
abbrev pub Made : Option TemporalCoordinator → Type 0
Made none = Unit
Made (some c) = WellFormed c

pub temporal_coordinator-WellFormed :
    (scope : String) (minimum horizon capacity : ℕ) (instance_id : String)
    → Made (temporal_coordinator scope minimum horizon capacity instance_id)
unfolding temporal_coordinator pending_count Dict.get
temporal_coordinator-WellFormed scope minimum horizon capacity instance_id =
    if-cases Made
      (is_bounded_text 128 scope
        && is_bounded_text 128 instance_id
        && ltb 0 minimum
        && leb minimum horizon
        && ltb 0 capacity
        && leb capacity max_pending_wake_intents)
      _ _
      (λ fine. record {
        consistent = record {
          same = tt;
          distinct = tt;
          named = λ k i g. cc;
          one = λ v w key i j kv kw gv gw pv pw. cc;
        };
        within = omega arith;
        small = ground arith;
        history = omega arith;
        window = ground arith;
      })
      (λ _. tt)

-- A call, with a preparation that may be old when it is committed.
pub data Call : Type 0 where
  apply_call : ℕ → List TemporalProposal → String → String → Call
  commit_call : TemporalPreparation → String → String → Call
  cancel_call : String → Bool → Call
  poll_call : ℕ → Call

-- The texts that a caller passes are bounded, as `_require_text` asks.
abbrev pub Fine : Call → Type 0
Fine (apply_call now proposals episode trigger) = BoundedSources episode trigger
Fine (commit_call p episode trigger) = BoundedSources episode trigger
Fine (cancel_call id supersede) = is_bounded_text 128 id ≡ true
Fine (poll_call now) = Unit

-- `apply` that raises OverflowError has changed nothing: its dates are computed in `prepare`.
abbrev pub behind_apply {ℓ} :
    {A : Type ℓ}
    → TemporalCoordinator
    → Result (A × TemporalCoordinator)
    → Result TemporalCoordinator
behind_apply c (ok p) = ok p.1
behind_apply c key_error = key_error
behind_apply c value_error = value_error
behind_apply c overflow_error = ok c

-- What a call leaves; `poll_due` leaves its state also where it raises.
abbrev pub after : Digests → Call → TemporalCoordinator → Result TemporalCoordinator
after h (apply_call now proposals episode trigger) c =
    behind_apply c (apply h now proposals episode trigger c)
after h (commit_call p episode trigger) c = commit h p episode trigger c >>= λ p. ok p.1
after h (cancel_call id supersede) c = cancel id supersede c >>= λ p. ok p.1
after h (poll_call now) c = ok (poll_due now c).1

unfoldable pub run : Digests → List Call → TemporalCoordinator → Result TemporalCoordinator
run h [] c = ok c
run h (call ∷ calls) c = after h call c >>= run h calls

abbrev pub EveryFine : List Call → Type 0
EveryFine [] = Unit
EveryFine (call ∷ calls) = Fine call × EveryFine calls

Keeps-state {ℓ} :
    {A : Type ℓ} (r : Result (A × TemporalCoordinator))
    → Keeps r
    → Returns WellFormed (r >>= λ p. ok p.1)
Keeps-state (ok p) h = h
Keeps-state key_error h = absurd h
Keeps-state value_error h = absurd h
Keeps-state overflow_error h = absurd h

behind_apply-WellFormed {ℓ} :
    {A : Type ℓ} (Q : Type 0) (c : TemporalCoordinator) (r : Result (A × TemporalCoordinator))
    → WellFormed c
    → KeepsUnless Q r
    → Returns WellFormed (behind_apply c r)
behind_apply-WellFormed Q c (ok p) w h = h
behind_apply-WellFormed Q c key_error w h = absurd h
behind_apply-WellFormed Q c value_error w h = absurd h
behind_apply-WellFormed Q c overflow_error w h = w

after-WellFormed :
    (h : Digests) (call : Call) (c : TemporalCoordinator)
    → Fine call
    → WellFormed c
    → Returns WellFormed (after h call c)
after-WellFormed h (apply_call now proposals episode trigger) c f w =
    behind_apply-WellFormed _ c _ w (apply-KeepsUnless h now proposals episode trigger c f w)
after-WellFormed h (commit_call p episode trigger) c f w =
    Keeps-state _ (commit-WellFormed h p episode trigger c f w)
after-WellFormed h (cancel_call id supersede) c f w =
    Keeps-state _ (cancel-WellFormed id supersede c f w)
after-WellFormed h (poll_call now) c f w = poll_due-WellFormed now c w

Returns-bind :
    (r : Result TemporalCoordinator) (f : TemporalCoordinator → Result TemporalCoordinator)
    → Returns WellFormed r
    → ((c : TemporalCoordinator) → WellFormed c → Returns WellFormed (f c))
    → Returns WellFormed (r >>= f)
Returns-bind (ok c) f h g = g c h
Returns-bind key_error f h g = absurd h
Returns-bind value_error f h g = absurd h
Returns-bind overflow_error f h g = absurd h

run-keeps :
    (h : Digests) (calls : List Call) (c : TemporalCoordinator)
    → EveryFine calls
    → WellFormed c
    → Returns WellFormed (run h calls c)
unfolding run
run-keeps h [] c f w = w
run-keeps h (call ∷ calls) c f w =
    Returns-bind (after h call c) (run h calls) (after-WellFormed h call c f.0 w)
      (λ d v. run-keeps h calls d f.1 v)

-- After `__init__`, whatever calls with bounded texts are made, stale preparations included, none
-- but `poll_due` raises, or `apply` an OverflowError, which changes nothing; and the coordinator
-- stays well formed: at most its capacity of wakes is pending, the history holds at most 256
-- wakes, the two dictionaries have the same keys, and two pending wakes never have the same
-- deduplication key.
pub run-WellFormed :
    (h : Digests) (scope : String) (minimum horizon capacity : ℕ) (instance_id : String)
    (c : TemporalCoordinator) (calls : List Call)
    → temporal_coordinator scope minimum horizon capacity instance_id ≡ some c
    → EveryFine calls
    → Returns WellFormed (run h calls c)
run-WellFormed h scope minimum horizon capacity instance_id c calls made fine =
    run-keeps h calls c fine
      (subst Made made (temporal_coordinator-WellFormed scope minimum horizon capacity instance_id))
