-- ===== src/SemanticActor/Tests.antt =====
-- Runs of the actor on concrete events, and the guarantees at those runs.
use lilavel_runtime.Prelude.{
  ◌+◌, ◌≤◌, ◌≡◌, ◌≢◌, refl, ◌⊎◌, inl, inr, String, true, false, Option, none, some, List, [], ◌∷◌,
  ◌++◌, arith, length, or_else, is_some, String_Eq, Pair_Eq, All, map, ◌↔◌,
}
use lilavel_runtime.Prelude.Dict
use lilavel_runtime.SemanticActor.Types.{
  Execution, SemanticActorState, SemanticActorFailure, SemanticSourceKind, SemanticPriority,
  SemanticEpisodeStatus, SemanticEpisodeRequest, SemanticSettlement, is_user, receipt,
  reason_is_valid,
}
use lilavel_runtime.SemanticActor.State.{
  settle, Actor, init, queued_count, active_count, done, maybe_rotate_session, key_of, poison,
  reject_queued,
}
use lilavel_runtime.SemanticActor.Admission.{admit, admit_new, accept, enqueue, preempt, new_record}
use lilavel_runtime.SemanticActor.Worker.{
  returned, raised, finish, loop_head, execution_result, after_episode, of_result, fail_closed,
}
use lilavel_runtime.SemanticActor.Machine.{
  worker_is_cancelled, cancel_worker, abandon, execution_returns, Event, starts, admits,
  worker_runs, worker_wakes, execution_ends, stop_begins, stop_ends, run, run-Reach, step,
  worker_step, start, stop, begin_stop, end_stop, cancel_active, Reach, here,
}
use lilavel_runtime.SemanticActor.Priority.Invariant.{AskedToStop}
use lilavel_runtime.SemanticActor.Fence.Steps.{
  ActorFailed, Reach-FencedUnlessFailed, init-FencedActor,
}
use lilavel_runtime.SemanticActor.Fence.Worker.{FencedActor}
use lilavel_runtime.SemanticActor.Fenced.{record_key}
use lilavel_runtime.SemanticActor.Lifecycle.Invariant.{init-Lifecycle}
use lilavel_runtime.SemanticActor.Lifecycle.Steps.{Reach-Lifecycle}
use lilavel_runtime.SemanticActor.Admission.Cases.{Admissible}
use lilavel_runtime.SemanticActor.AdmissionContract.{
  WasAccepted, again_in_flight, again_settled, accepted_iff_Admissible, readmission_is_duplicate,
  settled_is_duplicate, failed_actor_accepts_nothing, invalid_reason_leaks,
}
use lilavel_runtime.SemanticActor.Cancelled.{NotCompleting, NotCompleted}
use lilavel_runtime.SemanticActor.Honoured.{cancelled_never_completes}
use lilavel_runtime.SemanticActor.Guarantees.{
  in_flight_accounted, stopped_settles_all, user_work_preempts, user_lane_first,
}

abbrev fresh_actor : Actor
fresh_actor = init "scope" "actor:1" 2 4 8

abbrev request : String → SemanticPriority → SemanticEpisodeRequest
request id priority = record {
  request_id = id;
  source_kind = SemanticSourceKind.internal;
  priority = priority;
  scope_id = "scope";
  actor_session_id = "actor:1";
  request_sequence = 1;
}

abbrev background : SemanticEpisodeRequest
background = request "background" SemanticPriority.non_user

abbrev question : SemanticEpisodeRequest
question = request "question" SemanticPriority.user

-- A background episode runs, and the user asks.
abbrev asked : List Event
asked = starts ∷ worker_runs ∷ admits background ∷ worker_wakes ∷ admits question ∷ []

-- Then the background episode ends, and the user's is executed and ends too; the actor stops.
abbrev whole_life : List Event
whole_life =
    starts
    ∷ worker_runs
    ∷ admits background
    ∷ worker_wakes
    ∷ admits question
    ∷ execution_ends (raised false)
    ∷ execution_returns "actor:2"
    ∷ execution_ends (returned (record { semantic_status = none; reason_code = none }))
    ∷ execution_returns "actor:2"
    ∷ stop_begins
    ∷ worker_wakes
    ∷ stop_ends false
    ∷ []

-- The actor after the events.
life : List Event → Actor
life es = or_else (run es fresh_actor) fresh_actor

-- Unfolding this runs the events.
lived : List Event → Actor
unfolding lilavel_runtime.SemanticActor.Worker.begin_return cancel_worker abandon life init run step
    worker_step start admit admit_new accept enqueue preempt stop begin_stop end_stop finish
    loop_head Dict.get Dict.set Dict.pop reason_is_valid execution_result maybe_rotate_session
    after_episode cancel_active fail_closed poison reject_queued
lived = life

-- What ran to its end is a history of the actor.
reaches :
    (a : Actor) (o : Option Actor) (es : List Event)
    → run es a ≡ o
    → is_some o ≡ true
    → Reach a (or_else o a)
reaches a none es e h = cc
reaches a (some b) es e h = run-Reach es a b e

history :
    (es : List Event)
    → is_some (run es fresh_actor) ≡ true
    → Reach fresh_actor (or_else (run es fresh_actor) fresh_actor)
history es h = reaches fresh_actor (run es fresh_actor) es refl h

asked_runs : is_some (run asked fresh_actor) ≡ true
unfolding lived
asked_runs = refl

whole_life_runs : is_some (run whole_life fresh_actor) ≡ true
unfolding lived
whole_life_runs = refl

life-asked : Reach fresh_actor (life asked)
unfolding life
life-asked = history asked asked_runs

life_whole : Reach fresh_actor (life whole_life)
unfolding life
life_whole = history whole_life whole_life_runs

in_flight_accounted_example :
    ActorFailed (life asked)
    ⊎ ((length (life asked).in_flight ≡ queued_count (life asked) + active_count (life asked))
        × (length (life asked).settled + length (life asked).in_flight
            ≤ (life asked).fence_capacity))
in_flight_accounted_example = in_flight_accounted "scope" "actor:1" 2 4 8 life-asked

two_in_flight : length (life asked).in_flight ≡ 2
unfolding lived
two_in_flight = refl

life_ends : (life whole_life).state ≡ SemanticActorState.stopped
unfolding lived
life_ends = refl

-- The statuses told, in order: the user's episode runs after the background one has settled.
life_statuses :
    map (λ e. e.status) (life whole_life).evidence
    ≡ SemanticEpisodeStatus.queued ∷ SemanticEpisodeStatus.active ∷ SemanticEpisodeStatus.queued
      ∷ SemanticEpisodeStatus.cancellation_requested ∷ SemanticEpisodeStatus.failed
      ∷ SemanticEpisodeStatus.active ∷ SemanticEpisodeStatus.completed ∷ []
unfolding lived
life_statuses = refl

stopped_settles_all_example :
    ((life whole_life).in_flight ≡ [])
    × (queued_count (life whole_life) ≡ 0)
    × ((life whole_life).active ≡ none)
    × ((life whole_life).failure ≡ none)
stopped_settles_all_example = stopped_settles_all "scope" "actor:1" 2 4 8 life_whole life_ends

background_active : (life asked).active ≡ some (new_record background 1)
unfolding lived
background_active = refl

question_waits : (life asked).user_queue ≢ []
unfolding lived
question_waits h = cc

user_work_preempts_example :
    AskedToStop (life asked) (new_record background 1)
    × All (λ x. is_user x.request.priority ≡ true) (life asked).user_queue
user_work_preempts_example =
    user_work_preempts "scope" "actor:1" 2 4 8 life-asked (new_record background 1)
      background_active refl question_waits

abbrev two_lanes : Actor
two_lanes = record fresh_actor {
  state = SemanticActorState.running;
  user_queue = new_record question 2 ∷ [];
  non_user_queue = new_record background 1 ∷ [];
}

user_lane_first_example :
    ((loop_head two_lanes).active ≡ some (new_record question 2))
    × ((loop_head two_lanes).user_queue ++ (loop_head two_lanes).non_user_queue
        ≡ two_lanes.non_user_queue)
user_lane_first_example =
    user_lane_first two_lanes (new_record question 2) two_lanes.non_user_queue refl refl

-- The background episode gives a result although it was asked to stop.
abbrev too_late : List Event
too_late =
    execution_ends (returned (record { semantic_status = none; reason_code = none }))
    ∷ execution_returns "actor:2"
    ∷ []

after_too_late : Actor
unfolding lived
after_too_late = or_else (run too_late (life asked)) fresh_actor

late_result_dropped :
    (after_too_late.cells 1).future
    ≡ some (record {
      request_id = "background";
      sequence = 1;
      status = SemanticEpisodeStatus.cancelled;
      reason_code = some "cancelled_after_request";
      result = none;
    })
unfolding lived after_too_late
late_result_dropped = refl

too_late_runs : Reach (life asked) after_too_late
unfolding lived after_too_late
too_late_runs = run-Reach too_late (life asked) after_too_late refl

background_asked : ((life asked).cells 1).cancellation_requested ≡ true
unfolding lived
background_asked = refl

background_open : NotCompleted ((life asked).cells 1).future
unfolding lived
background_open = tt

background_runs : NotCompleting 1 (life asked).worker
unfolding lived
background_runs = tt

background_admitted : 1 ≤ (life asked).next_episode_sequence
unfolding lived
background_admitted = omega arith

cancelled_never_completes_example :
    ((after_too_late.cells 1).cancellation_requested ≡ true)
    × NotCompleted (after_too_late.cells 1).future
cancelled_never_completes_example =
    cancelled_never_completes 1 background_admitted background_asked background_open background_runs
      too_late_runs

-- A request that comes while `_execute` gathers its cancellation task is too late.
abbrev asked_late : List Event
asked_late =
    starts
    ∷ worker_runs
    ∷ admits background
    ∷ worker_wakes
    ∷ execution_ends (returned (record { semantic_status = none; reason_code = none }))
    ∷ admits question
    ∷ execution_returns "actor:2"
    ∷ []

asked_late_completes :
    (((life asked_late).cells 1).cancellation_requested ≡ true)
    × (((life asked_late).cells 1).status ≡ SemanticEpisodeStatus.completed)
unfolding lived
asked_late_completes = (refl, refl)

-- A stop that times out there settles the record in the handler of `_run`.
abbrev cut_off : List Event
cut_off =
    starts
    ∷ worker_runs
    ∷ admits background
    ∷ worker_wakes
    ∷ execution_ends (returned (record { semantic_status = none; reason_code = none }))
    ∷ stop_begins
    ∷ worker_is_cancelled
    ∷ []

cut_off_is_cancelled :
    (((life cut_off).cells 1).status ≡ SemanticEpisodeStatus.cancelled)
    × ((life cut_off).in_flight ≡ [])
    × ((life cut_off).active ≡ none)
unfolding lived
cut_off_is_cancelled = (refl, refl, refl)

abbrev idle : Actor
idle = life (starts ∷ worker_runs ∷ [])

idle_admits : Admissible question idle
unfolding lived
idle_admits = record {
  not_in_flight = refl;
  not_settled = refl;
  scope = refl;
  session = refl;
  running = refl;
  fence_room = omega arith;
  mailbox_room = omega arith;
}

accepted_iff_Admissible_example : WasAccepted (admit question idle).0 ↔ Admissible question idle
accepted_iff_Admissible_example = accepted_iff_Admissible question idle

readmission_is_duplicate_example :
    let b = (admit question idle).1 in
    ((admit question b).0 ≡ receipt (again_in_flight question (idle.next_episode_sequence + 1)))
    × ((admit question b).1.in_flight ≡ b.in_flight)
    × ((admit question b).1.settled ≡ b.settled)
    × ((admit question b).1.user_queue ≡ b.user_queue)
    × ((admit question b).1.non_user_queue ≡ b.non_user_queue)
    × ((admit question b).1.next_episode_sequence ≡ b.next_episode_sequence)
readmission_is_duplicate_example = readmission_is_duplicate question idle idle_admits

fenced :
    (es : List Event)
    → Reach fresh_actor (life es)
    → (life es).failure ≡ none
    → FencedActor (life es)
fenced es r fine =
    elim (Reach-FencedUnlessFailed r (init-Lifecycle _ _ _ _ _)
      (inr (init-FencedActor _ _ _ _ _))).1 [ inl failed ↦ cc (failed, fine) | inr h ↦ h ]

no_failure : ((life asked).failure ≡ none) × ((life whole_life).failure ≡ none)
unfolding lived
no_failure = (refl, refl)

abbrev background_failed : SemanticSettlement
background_failed = record {
  request_id = "background";
  sequence = 1;
  status = SemanticEpisodeStatus.failed;
  reason_code = some "executor_failed";
  result = none;
}

background_settled : Dict.get (key_of background) (life whole_life).settled ≡ some background_failed
unfolding lived
background_settled = refl

abbrev background_dropped : Actor
background_dropped =
    settle (new_record background 1) SemanticEpisodeStatus.cancelled none (some "cancelled")
      (life asked)

settled_is_duplicate_example :
    ((admit background background_dropped).0
      ≡ receipt (
          again_settled background (record {
            request_id = "background";
            sequence = 1;
            status = SemanticEpisodeStatus.cancelled;
            reason_code = some "cancelled";
            result = none;
          })))
    × ((admit background background_dropped).1.in_flight ≡ background_dropped.in_flight)
    × ((admit background background_dropped).1.settled ≡ background_dropped.settled)
    × ((admit background background_dropped).1.user_queue ≡ background_dropped.user_queue)
    × ((admit background background_dropped).1.non_user_queue ≡ background_dropped.non_user_queue)
    × ((admit background background_dropped).1.next_episode_sequence
        ≡ background_dropped.next_episode_sequence)
settled_is_duplicate_example =
    settled_is_duplicate (new_record background 1) SemanticEpisodeStatus.cancelled none
      (some "cancelled") (life asked) (fenced asked life-asked no_failure.0)

abbrev blank_reason : Execution
blank_reason =
    of_result
      (record { semantic_status = some SemanticEpisodeStatus.failed; reason_code = some " " })

invalid_reason_leaks_example :
    let b = finish "actor:2" (new_record background 1) blank_reason (life asked) in
    (Dict.get (record_key (new_record background 1)) b.in_flight ≡ some (new_record background 1))
    × (Dict.get (record_key (new_record background 1)) b.settled ≡ none)
    × (b.worker ≡ done)
    × (b.active ≡ none)
    × ActorFailed b
unfolding reason_is_valid
invalid_reason_leaks_example =
    invalid_reason_leaks "actor:2" (new_record background 1) blank_reason (life asked)
      background_active no_failure.0 (fenced asked life-asked no_failure.0) refl

abbrev poisoned_life : List Event
poisoned_life =
    starts
    ∷ worker_runs
    ∷ admits background
    ∷ worker_wakes
    ∷ execution_ends (raised true)
    ∷ execution_returns "actor:2"
    ∷ []

poisoned_runs : is_some (run poisoned_life fresh_actor) ≡ true
unfolding lived
poisoned_runs = refl

poisoned_reached : Reach fresh_actor (life poisoned_life)
unfolding life
poisoned_reached = history poisoned_life poisoned_runs

poisoned_fails :
    (life poisoned_life).failure ≡ some (SemanticActorFailure.poisoned "uncontainable_settlement")
unfolding lived
poisoned_fails = refl

failed_actor_accepts_nothing_example : ¬ WasAccepted (admit question (life poisoned_life)).0
failed_actor_accepts_nothing_example =
    failed_actor_accepts_nothing (SemanticActorFailure.poisoned "uncontainable_settlement") question
      (Reach-Lifecycle poisoned_reached (init-Lifecycle "scope" "actor:1" 2 4 8)) poisoned_fails
      here
