-- ===== src/Temporal/Tests.antt =====
-- Runs of the temporal coordinator at concrete inputs.
use Prim.Native.String.{◌++◌ as ◌+++◌}
use lilavel_runtime.Prelude.{
  true, ℕ, zero, suc, ◌≡◌, refl, String, false, none, some, List, [], ◌∷◌, map, arith,
}
use lilavel_runtime.Prelude.Dict
use lilavel_runtime.Prelude.Text.{is_bounded_text}
use lilavel_runtime.Temporal.Types.{
  TemporalProposal, WakeIntent, WakeIntentStatus, Result, ok, value_error, overflow_error, Digests,
  TemporalCoordinator,
}
use lilavel_runtime.Temporal.Coordinator.{
  temporal_coordinator, pending_count, normalize_deadline, instant_after, dedup_key, wake_id,
}
use lilavel_runtime.Temporal.Admission.{
  existing_from, new_keys, normalized_from, prepare, admit_wake, admit_items, commit_with, commit,
  apply,
}
use lilavel_runtime.Temporal.Trim.{trim_history}
use lilavel_runtime.Temporal.Dispatch.{
  cancel, comes_before, insert_sorted, sorted, is_due, due_wakes, poll_due, next_deadline,
  trigger_of,
}
use lilavel_runtime.Temporal.Invariant.{WellFormed, Returns}
use lilavel_runtime.Temporal.Apply.{PastTheEnd, KeepsUnless, apply-KeepsUnless}
use lilavel_runtime.Temporal.Accept.{Accepted, prepared_is_Accepted}
use lilavel_runtime.Temporal.Cancel.{cancel_once}
use lilavel_runtime.Temporal.Fire.{poll_due_fires_once}
use lilavel_runtime.Temporal.Order.{InOrder, DueNow, due_wakes-InOrder}
use lilavel_runtime.Temporal.Deadline.{Clamped, normalize_deadline_within, next_deadline_lem}
use lilavel_runtime.Temporal.Collision.{pending_at, poll_due_collision}
use lilavel_runtime.Temporal.Calls.{
  Call, apply_call, cancel_call, poll_call, run, run-WellFormed, temporal_coordinator-WellFormed,
}

-- A digest that keeps its text, and numbers in unary.
abbrev tally : ℕ → String
tally zero = ""
tally (suc n) = "I" +++ tally n

abbrev plain : Digests
plain = record { hexdigest = λ s. s; decimal = tally }

abbrev fresh : TemporalCoordinator
fresh = record {
  scope_id = "s";
  minimum_delay = 10;
  maximum_horizon = 100;
  pending_capacity = 2;
  runtime_instance_id = "i";
  next_sequence = 0;
  intents = [];
  dedup_keys = [];
}

abbrev soon : TemporalProposal
soon = record { reason = "soon"; not_before = 0; intention_ref = none }

abbrev later : TemporalProposal
later = record { reason = "later"; not_before = 50; intention_ref = none }

-- What is left behind a call that is known to return.
abbrev state_of {ℓ} : {A : Type ℓ} → Result (A × TemporalCoordinator) → TemporalCoordinator
state_of (ok p) = p.1
state_of _ = fresh

abbrev two : TemporalCoordinator
two = state_of (apply plain 0 (later ∷ soon ∷ soon ∷ []) "episode" "trigger" fresh)

two_pending : pending_count two ≡ 2
unfolding apply prepare existing_from new_keys normalized_from normalize_deadline instant_after
    dedup_key commit commit_with admit_items admit_wake wake_id trim_history pending_count Dict.get
    Dict.set is_bounded_text
two_pending = refl

two_order : map (λ (i : WakeIntent). i.reason) (due_wakes 60 two) ≡ "soon" ∷ "later" ∷ []
unfolding apply prepare existing_from new_keys normalized_from normalize_deadline instant_after
    dedup_key commit commit_with admit_items admit_wake wake_id trim_history pending_count Dict.get
    Dict.set is_due sorted insert_sorted comes_before is_bounded_text
two_order = refl

fresh_made : temporal_coordinator "s" 10 100 2 "i" ≡ some fresh
unfolding temporal_coordinator is_bounded_text
fresh_made = refl

fresh-WellFormed : WellFormed fresh
unfolding temporal_coordinator is_bounded_text
fresh-WellFormed = temporal_coordinator-WellFormed "s" 10 100 2 "i"

two-WellFormed : WellFormed two
unfolding apply prepare existing_from new_keys normalized_from normalize_deadline instant_after
    dedup_key commit commit_with admit_items admit_wake wake_id trim_history pending_count Dict.get
    Dict.set is_bounded_text
two-WellFormed =
    apply-KeepsUnless plain 0 (later ∷ soon ∷ soon ∷ []) "episode" "trigger" fresh (refl, refl)
      fresh-WellFormed

abbrev some_calls : List Call
some_calls =
    apply_call 0 (later ∷ soon ∷ soon ∷ []) "episode" "trigger"
    ∷ poll_call 20
    ∷ apply_call 30 (soon ∷ []) "episode" "trigger"
    ∷ cancel_call "none" false
    ∷ []

run-WellFormed_example : Returns WellFormed (run plain some_calls fresh)
unfolding is_bounded_text
run-WellFormed_example =
    run-WellFormed plain "s" 10 100 2 "i" fresh some_calls fresh_made
      ((refl, refl), (tt, ((refl, refl), (refl, tt))))

poll_due_fires_once_example :
    ((poll_due 60 two).0 ≡ ok (map trigger_of (due_wakes 60 two)))
    × (poll_due 60 (poll_due 60 two).1 ≡ (ok [], (poll_due 60 two).1))
unfolding apply prepare existing_from new_keys normalized_from normalize_deadline instant_after
    dedup_key commit commit_with admit_items admit_wake wake_id trim_history pending_count Dict.get
    Dict.set is_bounded_text is_due sorted insert_sorted comes_before
poll_due_fires_once_example = poll_due_fires_once 60 two two-WellFormed (refl, (refl, tt))

due_wakes-InOrder_example : InOrder (due_wakes 60 two) × DueNow 60 (due_wakes 60 two)
due_wakes-InOrder_example = due_wakes-InOrder 60 two

clamped_to_horizon : normalize_deadline fresh 500 7 ≡ ok 107
unfolding normalize_deadline instant_after
clamped_to_horizon = refl

normalize_deadline_within_example : Clamped fresh 500 7 (normalize_deadline fresh 500 7)
normalize_deadline_within_example = normalize_deadline_within fresh 500 7 fresh-WellFormed

-- The longest `timedelta` as the horizon, which `__init__` accepts.
abbrev endless : TemporalCoordinator
endless = record fresh { maximum_horizon = 86399999999999999999 }

endless_made : temporal_coordinator "s" 10 86399999999999999999 2 "i" ≡ some endless
unfolding temporal_coordinator is_bounded_text
endless_made = refl

endless_horizon_raises : apply plain 0 (later ∷ []) "episode" "trigger" endless ≡ overflow_error
unfolding apply prepare existing_from normalized_from normalize_deadline instant_after
    is_bounded_text
endless_horizon_raises = refl

apply-KeepsUnless_example :
    KeepsUnless
      (PastTheEnd endless 0)
      (apply plain 0 (soon ∷ later ∷ []) "episode" "trigger" endless)
unfolding is_bounded_text temporal_coordinator
apply-KeepsUnless_example =
    apply-KeepsUnless plain 0 (soon ∷ later ∷ []) "episode" "trigger" endless (refl, refl)
      (temporal_coordinator-WellFormed "s" 10 86399999999999999999 2 "i")

next_deadline_lem_example : poll_due 5 two ≡ (ok [], two)
unfolding apply prepare existing_from new_keys normalized_from normalize_deadline instant_after
    dedup_key commit commit_with admit_items admit_wake wake_id trim_history pending_count Dict.get
    Dict.set is_bounded_text next_deadline sorted insert_sorted comes_before
next_deadline_lem_example = next_deadline_lem two 10 5 refl (omega arith)

-- A wake whose source trigger is also its source episode.
abbrev colliding : TemporalCoordinator
colliding = state_of (apply plain 0 (soon ∷ []) "same" "same" fresh)

abbrev colliding_wake : WakeIntent
colliding_wake = record {
  wake_intent_id = "wake:i\u{1f}s\u{1f}soon\u{1f}\u{1f}I";
  scope_id = "s";
  reason = "soon";
  not_before = 10;
  source_episode_id = "same";
  source_trigger_id = "same";
  intention_ref = none;
  sequence = 1;
  status = WakeIntentStatus.pending;
}

poll_due_collision_example :
    ((poll_due 20 colliding).0 ≡ value_error)
    × (pending_at colliding_wake.wake_intent_id (poll_due 20 colliding).1 ≡ false)
unfolding apply prepare existing_from new_keys normalized_from normalize_deadline instant_after
    dedup_key commit commit_with admit_items admit_wake wake_id trim_history pending_count Dict.get
    Dict.set is_bounded_text is_due sorted insert_sorted
poll_due_collision_example = poll_due_collision 20 colliding colliding_wake [] refl refl

prepared_is_Accepted_example : Accepted (apply plain 0 (soon ∷ []) "episode" "trigger" fresh)
unfolding apply prepare existing_from new_keys normalized_from normalize_deadline instant_after
    dedup_key commit commit_with admit_items admit_wake wake_id trim_history pending_count Dict.get
    Dict.set is_bounded_text
prepared_is_Accepted_example =
    prepared_is_Accepted plain 0 (soon ∷ []) "episode" "trigger" fresh
      (record {
        proposal_index = 0;
        proposal = soon;
        normalized_not_before = 10;
        dedup_key = dedup_key plain fresh soon;
      }
        ∷ [])
      (refl, refl) fresh-WellFormed refl

colliding-WellFormed : WellFormed colliding
unfolding apply prepare existing_from new_keys normalized_from normalize_deadline instant_after
    dedup_key commit commit_with admit_items admit_wake wake_id trim_history pending_count Dict.get
    Dict.set is_bounded_text
colliding-WellFormed =
    apply-KeepsUnless plain 0 (soon ∷ []) "same" "same" fresh (refl, refl) fresh-WellFormed

abbrev after_cancel : TemporalCoordinator
after_cancel = state_of (cancel colliding_wake.wake_intent_id false colliding)

cancel_once_example :
    cancel colliding_wake.wake_intent_id true after_cancel ≡ ok (none, after_cancel)
unfolding apply prepare existing_from new_keys normalized_from normalize_deadline instant_after
    dedup_key commit commit_with admit_items admit_wake wake_id trim_history pending_count Dict.get
    Dict.set is_bounded_text cancel
cancel_once_example =
    cancel_once colliding_wake.wake_intent_id false true colliding after_cancel
      (record colliding_wake { status = WakeIntentStatus.cancelled }) refl colliding-WellFormed refl
