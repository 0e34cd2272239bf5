-- ===== src/Temporal/Dispatch.antt =====
-- `cancel`, `poll_due` and `next_deadline` of `TemporalCoordinator`.
use Prim.Native.Nat.{Ordering}
use Prim.Native.Nat as Nat
use Prim.Native.String as Text
use lilavel_runtime.Prelude.{
  ℕ, String, Bool, true, false, Option, none, some, List, [], ◌∷◌, not, select, leb, is_unique,
  if◌then◌else◌, String_Eq,
}
use lilavel_runtime.Prelude.Dict
use lilavel_runtime.Prelude.Text.{is_bounded_text}
use lilavel_runtime.Temporal.Types.{
  WakeIntentStatus, WakeIntent, CognitionTrigger, Result, ok, value_error, ◌>>=◌,
  TemporalCoordinator, is_pending,
}
use lilavel_runtime.Temporal.Trim.{trim_history}

unfoldable pub cancel :
    String → Bool → TemporalCoordinator → Result (Option WakeIntent × TemporalCoordinator)
cancel id supersede c =
    if not (is_bounded_text 128 id) then value_error else elim (Dict.get id c.intents) [
      | none ↦ ok (none, c)
      | some i ↦
          if not (is_pending i)
          then ok (none, c)
          else let updated = record i {
            status = if supersede then WakeIntentStatus.superseded else WakeIntentStatus.cancelled;
          } in
            (trim_history (record c { intents = Dict.set id updated c.intents }) >>= λ trimmed.
            ok (some updated, trimmed))
    ]

-- The order of `(not_before, sequence, wake_intent_id)`.
unfoldable pub comes_before : WakeIntent → WakeIntent → Bool
comes_before a b = elim (Nat.compare a.not_before b.not_before) [
  | Ordering.lt ↦ true
  | Ordering.gt ↦ false
  | Ordering.eq ↦ elim (Nat.compare a.sequence b.sequence) [
    | Ordering.lt ↦ true
    | Ordering.gt ↦ false
    | Ordering.eq ↦ elim (Text.compare a.wake_intent_id b.wake_intent_id) [
      | Ordering.lt ↦ true
      | _ ↦ false
    ]
  ]
]

unfoldable pub insert_sorted : WakeIntent → List WakeIntent → List WakeIntent
insert_sorted i [] = i ∷ []
insert_sorted i (j ∷ js) = if comes_before j i then j ∷ insert_sorted i js else i ∷ j ∷ js

-- `sorted`, which is stable.
unfoldable pub sorted : List WakeIntent → List WakeIntent
unfolding insert_sorted
sorted [] = []
sorted (i ∷ is) = insert_sorted i (sorted is)

-- The filter of `poll_due`.
unfoldable pub is_due : ℕ → WakeIntent → Bool
is_due now i = elim i.status [
  | WakeIntentStatus.pending ↦ leb i.not_before now
  | WakeIntentStatus.due ↦ false
  | WakeIntentStatus.cancelled ↦ false
  | WakeIntentStatus.superseded ↦ false
  | WakeIntentStatus.dispatched ↦ false
]

abbrev pub source_refs : WakeIntent → List String
source_refs i =
    i.wake_intent_id
    ∷ i.source_episode_id
    ∷ i.source_trigger_id
    ∷ elim i.intention_ref [ none ↦ [] | some ref ↦ ref ∷ [] ]

abbrev pub trigger_of : WakeIntent → CognitionTrigger
trigger_of i = record {
  reason = i.reason;
  wake_intent_id = i.wake_intent_id;
  source_refs = source_refs i;
}

abbrev pub fence : WakeIntent → TemporalCoordinator → TemporalCoordinator
fence i c = record c {
  intents = Dict.set i.wake_intent_id (record i { status = WakeIntentStatus.dispatched }) c.intents;
}

-- The loop of `poll_due`: the wake is fenced, then its trigger is made, which raises where two of
-- its source references agree. What was fenced stays fenced.
unfoldable pub dispatch :
    List WakeIntent → TemporalCoordinator → Result (List CognitionTrigger) × TemporalCoordinator
dispatch [] c = (ok [], c)
dispatch (i ∷ is) c =
    let rest = dispatch is (fence i c) in
    if is_unique (source_refs i)
    then (rest.0 >>= (λ triggers. ok (trigger_of i ∷ triggers)), rest.1)
    else (value_error, fence i c)

abbrev pub due_wakes : ℕ → TemporalCoordinator → List WakeIntent
due_wakes now c = sorted (select (is_due now) (Dict.values c.intents))

unfoldable pub poll_due :
    ℕ → TemporalCoordinator → Result (List CognitionTrigger) × TemporalCoordinator
poll_due now c = dispatch (due_wakes now c) c

unfoldable pub next_deadline : TemporalCoordinator → Option ℕ
next_deadline c = elim (sorted (select is_pending (Dict.values c.intents))) [
  | [] ↦ none
  | i ∷ _ ↦ some i.not_before
]
