-- ===== src/SemanticActor/Machine.antt =====
-- `start`, `stop` and the events of the event loop. An event that the worker's `await` does not
-- allow gives `none`.
pub mod Cases
use mathlib.Core.Path.{subst}
use lilavel_runtime.Prelude.{
  ℕ, String, Bool, true, false, ◌||◌, Option, none, some, List, [], ◌∷◌, eqb, if◌then◌else◌,
  is_empty, select, not, ◌≡◌, ◌++◌, inl, inr, Option-cases,
}
use lilavel_runtime.SemanticActor.Types.{
  SemanticActorState, SemanticSourceKind, SemanticPriority, SemanticEpisodeStatus,
  SemanticEpisodeRequest, Record,
}
use lilavel_runtime.SemanticActor.State.{
  Actor, Worker, absent, ready, asleep, executing, in_grace, joining, joining_cancelled, done,
  request_cancellation, reject_queued, shutdown_failure, settle, returning,
}
use lilavel_runtime.SemanticActor.Admission.{create_request, admit, is_poisoned}
use lilavel_runtime.SemanticActor.Worker.{
  ExecutorOutcome, GraceOutcome, ended, timed_out, JoinOutcome, joined, without_result,
  execution_result, grace_result, join_result, note_uncontained, loop_head, finish, begin_grace,
  begin_cancelled_join, begin_return, is_stopping,
}

-- `start`: from any state but NEW it raises and changes nothing.
unfoldable pub start : Actor → Actor
start a = elim a.state [
  | SemanticActorState.new ↦ record a { state = SemanticActorState.running; worker = ready }
  | _ ↦ a
]

pub data StopResult : Type 0 where
  stop_returns stop_waits : StopResult
  stop_raises : String → StopResult

abbrev pub worker_is_done : Worker → Bool
worker_is_done done = true
worker_is_done _ = false

abbrev pub worker_is_absent : Worker → Bool
worker_is_absent absent = true
worker_is_absent _ = false

unfoldable pub cancel_active : Actor → Actor
unfolding request_cancellation
cancel_active a = elim a.active [
  | none ↦ a
  | some r ↦ request_cancellation r false "actor_shutdown" a
]

-- `stop` of a running or stopping actor, up to its wait for the worker.
unfoldable pub begin_stop : Actor → StopResult × Actor
begin_stop a =
    let b =
      cancel_active
        (reject_queued "actor_shutdown" (record a { state = SemanticActorState.stopping })) in
    let c = record b { wake = true } in
    if worker_is_absent c.worker
    then (stop_raises "worker_missing", shutdown_failure "worker_missing" c)
    else (stop_waits, c)

-- `stop` of a poisoned actor, up to its wait for the worker.
unfoldable pub begin_stop_poisoned : Actor → StopResult × Actor
begin_stop_poisoned a =
    let b = reject_queued "actor_poisoned" a in
    if not (worker_is_absent b.worker)
    then (if not (worker_is_done b.worker)
        then (stop_waits, record b { wake = true })
        else if is_empty b.uncontained
        then (stop_returns, b)
        else (stop_raises "uncontained_work", b))
    else if is_empty b.uncontained
    then (stop_returns, b)
    else (stop_raises "uncontained_work", b)

unfoldable pub stop : Actor → StopResult × Actor
stop a = elim a.state [
  | SemanticActorState.new ↦ (stop_returns, record a { state = SemanticActorState.stopped })
  | SemanticActorState.stopped ↦ (stop_returns, a)
  | SemanticActorState.poisoned ↦ begin_stop_poisoned a
  | SemanticActorState.running ↦ begin_stop a
  | SemanticActorState.stopping ↦ begin_stop a
]

-- The end of `stop` once the worker has settled; the flag says that the actor was poisoned when
-- `stop` began.
unfoldable pub end_stop : Bool → Actor → StopResult × Actor
unfolding shutdown_failure
end_stop true a =
    if is_empty a.uncontained then (stop_returns, a) else (stop_raises "uncontained_work", a)
end_stop false a =
    if is_empty a.uncontained
    then (
      stop_returns,
      elim a.state [
        | SemanticActorState.stopping ↦ record a { state = SemanticActorState.stopped }
        | _ ↦ a
      ],
    )
    else (stop_raises "uncontained_work", shutdown_failure "uncontained_work" a)

-- The end of `stop` whose wait timed out, once the worker has taken its cancellation.
unfoldable pub end_stop_late : Actor → StopResult × Actor
unfolding shutdown_failure
end_stop_late a = (stop_raises "shutdown_timeout", shutdown_failure "shutdown_timeout" a)

-- The handler of `_run` for a cancellation while a record is active.
unfoldable pub abandon : Record → Actor → Actor
unfolding request_cancellation settle
abandon r a =
    let b = request_cancellation r false "worker_cancelled" (record a { active = none }) in
    let c = settle r SemanticEpisodeStatus.cancelled none (some "worker_cancelled") b in
    let d = reject_queued "actor_shutdown" c in record d { worker = done }

-- A cancellation of the worker task, thrown into the `await` that it is in. Only a `stop` whose wait
-- timed out cancels it. A task that has not begun ends with no handler run.
unfoldable pub cancel_worker : Actor → Worker → Actor
cancel_worker a ready = record a { worker = done }
cancel_worker a asleep = let b = reject_queued "actor_shutdown" a in record b { worker = done }
cancel_worker a (executing r) = begin_cancelled_join r a
cancel_worker a (in_grace r) =
    begin_return r (without_result SemanticEpisodeStatus.cancelled "cancelled" false) a
cancel_worker a (joining r) =
    begin_return r (without_result SemanticEpisodeStatus.cancelled "cancelled" false) a
cancel_worker a (joining_cancelled r) =
    begin_return r (without_result SemanticEpisodeStatus.cancelled "worker_cancelled" false) a
cancel_worker a (returning r x) = abandon r a
cancel_worker a absent = a
cancel_worker a done = a

pub data Event : Type 0 where
  issues : String → SemanticSourceKind → SemanticPriority → Option String → Event
  starts : Event
  admits : SemanticEpisodeRequest → Event
  worker_runs : Event
  worker_wakes : Event
  execution_ends : ExecutorOutcome → Event
  cancellation_wins : Event
  grace_ends : GraceOutcome → Event
  join_ends : JoinOutcome → Event
  execution_returns : String → Event
  worker_is_cancelled : Event
  uncontained_ends : ℕ → Event
  stop_begins : Event
  stop_ends : Bool → Event
  stop_times_out : Event

-- `_uncontained_done`
unfoldable pub uncontained_done : ℕ → Actor → Actor
uncontained_done n a = record a { uncontained = select (λ m. not (eqb m n)) a.uncontained }

-- What happens at the `await` that the worker is in.
unfoldable pub worker_step : Event → Actor → Worker → Option Actor
worker_step worker_runs a ready = some (loop_head a)
worker_step worker_wakes a asleep = if a.wake then some (loop_head a) else none
worker_step (execution_ends outcome) a (executing r) =
    let requested = (a.cells r.episode.sequence).cancellation_requested in
    some (begin_return r (execution_result requested outcome) a)
worker_step cancellation_wins a (executing r) =
    if (a.cells r.episode.sequence).token_requested then some (begin_grace r a) else none
worker_step (grace_ends (ended outcome)) a (in_grace r) =
    some (begin_return r (grace_result outcome) a)
worker_step (grace_ends timed_out) a (in_grace r) = some (record a { worker = joining r })
worker_step (join_ends outcome) a (joining r) =
    some (begin_return r (join_result "cancelled" outcome) (note_uncontained outcome r a))
worker_step (join_ends outcome) a (joining_cancelled r) =
    some (begin_return r (join_result "worker_cancelled" outcome) (note_uncontained outcome r a))
worker_step (execution_returns fresh) a (returning r x) = some (finish fresh r x a)
worker_step (stop_ends was_poisoned) a done = some (end_stop was_poisoned a).1
worker_step stop_times_out a done = some (end_stop_late a).1
worker_step _ a _ = none

unfoldable pub step : Event → Actor → Option Actor
step (issues request_id source_kind priority scope_id) a =
    some (create_request request_id source_kind priority scope_id a).1
step starts a = some (start a)
step (admits r) a = some (admit r a).1
step worker_is_cancelled a =
    if is_stopping a.state || is_poisoned a.state then some (cancel_worker a a.worker) else none
step (uncontained_ends n) a = some (uncontained_done n a)
step stop_begins a = some (stop a).1
step e a = worker_step e a a.worker

-- The events one after the other, while they can happen.
unfoldable pub run : List Event → Actor → Option Actor
run [] a = some a
run (e ∷ es) a = elim (step e a) [ none ↦ none | some b ↦ run es b ]

pub data Reach (a : Actor) : Actor → Type 0 where
  here : Reach a a
  next : {b c : Actor} (e : Event) → Reach a b → step e b ≡ some c → Reach a c

Reach-first : {a b c : Actor} (e : Event) → step e a ≡ some b → Reach b c → Reach a c
Reach-first e s here = next e here s
Reach-first e s (next e' r s') = next e' (Reach-first e s r) s'

refuse : {b : Actor} → none ≡ some b → ⊥
refuse h = cc

pub run-Reach : (es : List Event) (a b : Actor) → run es a ≡ some b → Reach a b
unfolding run
run-Reach [] a b h = subst (Reach a) (cc) here
run-Reach (e ∷ es) a b h = elim (Option-cases (step e a)) [
  | inl stuck ↦ absurd (refuse (rw (stuck, run) at h))
  | inr (c, s) ↦ Reach-first e s (run-Reach es c b (rw (s, run) at h))
]
