-- ===== src/SemanticActor/Worker.antt =====
-- `_run` and `_execute`, cut at their `await`s: each function is what the worker task does from
-- one `await` to the next. `fresh` is the id that `uuid4` would give if the session rotates.
pub mod Cases
use lilavel_runtime.Prelude.{
  ℕ, suc, ◌+◌, String, Bool, true, false, Option, none, some, List, [], ◌∷◌, ◌++◌, eqb,
  if◌then◌else◌, max,
}
use lilavel_runtime.SemanticActor.Types.{
  Execution, SemanticActorState, SemanticEpisodeStatus, ExecutorResult, Record, reason_is_valid,
}
use lilavel_runtime.SemanticActor.State.{
  Actor, Worker, ready, asleep, executing, in_grace, joining, joining_cancelled, returning, done,
  queued_count, set_cell, record_request_evidence, poison, settle, reject_queued,
  maybe_rotate_session,
}
use lilavel_runtime.SemanticActor.Admission.{is_poisoned}

-- How the executor's coroutine ends; an error may carry `semantic_uncontained = True`.
pub data ExecutorOutcome : Type 0 where
  returned : ExecutorResult → ExecutorOutcome
  was_cancelled : ExecutorOutcome
  raised : Bool → ExecutorOutcome

-- The end of the grace period: the executor ended in time, or not.
pub data GraceOutcome : Type 0 where
  ended : ExecutorOutcome → GraceOutcome
  timed_out : GraceOutcome

-- The end of `_cancel_and_join`: the task ended, did not end in time, or is beyond containment.
pub data JoinOutcome : Type 0 where
  joined join_timed_out join_uncontained : JoinOutcome

abbrev pub without_result : SemanticEpisodeStatus → String → Bool → Execution
without_result status reason_code uncontained = record {
  status = status;
  result = none;
  reason_code = some reason_code;
  uncontained = uncontained;
}

abbrev pub of_result : ExecutorResult → Execution
of_result result = elim result.semantic_status [
  | some status ↦ record {
    status = status;
    result = some result;
    reason_code = result.reason_code;
    uncontained = false;
  }
  | none ↦ record {
    status = SemanticEpisodeStatus.completed;
    result = some result;
    reason_code = none;
    uncontained = false;
  }
]

-- `_execution_result`, given `record.cancellation_requested`
unfoldable pub execution_result : Bool → ExecutorOutcome → Execution
execution_result requested (returned result) =
    if requested
    then without_result SemanticEpisodeStatus.cancelled "cancelled_after_request" false
    else of_result result
execution_result requested was_cancelled =
    without_result SemanticEpisodeStatus.cancelled "cancelled" false
execution_result requested (raised true) =
    without_result SemanticEpisodeStatus.failed "uncontainable_settlement" true
execution_result requested (raised false) =
    without_result SemanticEpisodeStatus.failed "executor_failed" false

-- The branches of the first `wait_for` but its timeout.
unfoldable pub grace_result : ExecutorOutcome → Execution
grace_result (returned _) = without_result SemanticEpisodeStatus.cancelled "cancelled" false
grace_result was_cancelled = without_result SemanticEpisodeStatus.cancelled "cancelled" false
grace_result (raised true) =
    without_result SemanticEpisodeStatus.failed "uncontainable_settlement" true
grace_result (raised false) = without_result SemanticEpisodeStatus.failed "executor_failed" false

-- After the join, with the reason of a contained cancellation.
unfoldable pub join_result : String → JoinOutcome → Execution
join_result reason_code joined = without_result SemanticEpisodeStatus.cancelled reason_code false
join_result reason_code join_timed_out =
    without_result SemanticEpisodeStatus.failed "uncontainable_settlement" true
join_result reason_code join_uncontained =
    without_result SemanticEpisodeStatus.failed "uncontainable_settlement" true

-- `self._uncontained.add(execution)`
unfoldable pub note_uncontained : JoinOutcome → Record → Actor → Actor
note_uncontained joined r a = a
note_uncontained _ r a = record a { uncontained = r.episode.sequence ∷ a.uncontained }

abbrev pub is_stopping : SemanticActorState → Bool
is_stopping SemanticActorState.stopping = true
is_stopping _ = false

-- `_pop_next`
unfoldable pub pop_next : List Record → List Record → Option (Record × List Record × List Record)
pop_next (r ∷ users) others = some (r, users, others)
pop_next [] (r ∷ others) = some (r, [], others)
pop_next [] [] = none

-- The next record becomes the active one, and its executor is called.
unfoldable pub activate : Record → Actor → Actor
unfolding record_request_evidence
activate r a =
    let c = a.cells r.episode.sequence in
    let a' = set_cell r.episode.sequence (record c { status = SemanticEpisodeStatus.active }) a in
    record_request_evidence r SemanticEpisodeStatus.active none
      (record a' { active = some r; max_active = max a.max_active 1; worker = executing r })

unfoldable pub begin_next : Actor → Actor
unfolding pop_next activate
begin_next a = elim (pop_next a.user_queue a.non_user_queue) [
  | none ↦ a
  | some (r, users, others) ↦ activate r (record a { user_queue = users; non_user_queue = others })
]

-- No work: the worker ends if the actor is stopping, and sleeps if not.
unfoldable pub rest : Actor → Actor
rest a =
    if is_stopping a.state
    then record a { wake = false; worker = done }
    else record a { wake = false; worker = asleep }

-- The head of the loop. After a rejection the lanes are empty, so the next round rests.
unfoldable pub loop_head : Actor → Actor
unfolding reject_queued rest begin_next
loop_head a =
    if is_poisoned a.state
    then (let a' = reject_queued "actor_poisoned" a in record a' { worker = done })
    else if eqb (queued_count a) 0
    then rest a
    else if is_stopping a.state
    then rest (reject_queued "actor_shutdown" a)
    else begin_next a

-- The worker fails closed: the last branch of `_run`, or its return after an uncontained episode.
unfoldable pub fail_closed : String → Actor → Actor
unfolding poison reject_queued
fail_closed reason_code a =
    let a' = reject_queued "actor_poisoned" (poison reason_code a) in record a' { worker = done }

-- The record is active no more, and settled.
unfoldable pub after_episode : Record → Execution → Actor → Actor
unfolding settle
after_episode r e a = settle r e.status e.result e.reason_code (record a { active = none })

-- The record is active no more and its status is written, and its settlement has raised.
unfoldable pub unsettled : Record → Execution → Actor → Actor
unsettled r e a =
    let c = a.cells r.episode.sequence in
    set_cell r.episode.sequence (record c { status = e.status }) (record a { active = none })

-- What `_run` does when `_execute` has returned. A reason that is no bounded text makes the
-- settlement's constructor raise.
unfoldable pub finish : String → Record → Execution → Actor → Actor
finish fresh r e a =
    if reason_is_valid e.reason_code
    then (if e.uncontained
        then fail_closed "uncontainable_settlement" (after_episode r e a)
        else loop_head (maybe_rotate_session fresh (after_episode r e a)))
    else fail_closed "actor_failed" (unsettled r e a)

-- What `_execute` will return is known, and the cancellation task is gathered.
unfoldable pub begin_return : Record → Execution → Actor → Actor
begin_return r x a = record a { worker = returning r x }

-- The cancellation task ends first: the grace period begins.
unfoldable pub begin_grace : Record → Actor → Actor
unfolding record_request_evidence
begin_grace r a =
    let c = a.cells r.episode.sequence in
    let cancelling = SemanticEpisodeStatus.cancellation_requested in
    let a' = set_cell r.episode.sequence (record c { status = cancelling }) a in
    record_request_evidence r cancelling (some "cancellation_requested")
      (record a' { worker = in_grace r })

-- The worker itself is cancelled in the main wait of `_execute`.
unfoldable pub begin_cancelled_join : Record → Actor → Actor
begin_cancelled_join r a =
    let c = a.cells r.episode.sequence in
    let a' = set_cell r.episode.sequence (record c { token_requested = true }) a in
    record a' { worker = joining_cancelled r }
