-- ===== src/SemanticActor/Lifecycle/Calls.antt =====
-- The calls of other tasks keep the lifecycle invariant.
use lilavel_runtime.Prelude.{◌≡◌, String, Bool, true, false, arith, ◌+◌}
use lilavel_runtime.SemanticActor.Types.{
  SemanticActorState, SemanticEpisodeRequest, Record, SemanticSettlement,
}
use lilavel_runtime.SemanticActor.State.{Actor, done, shutdown_failure, reject_queued}
use lilavel_runtime.SemanticActor.Admission.{
  is_poisoned, admit, accept, is_running, enqueue, preempt, rejected_admission, duplicate_in_flight,
  duplicate_settled, new_record,
}
use lilavel_runtime.SemanticActor.Machine.{
  start, stop, begin_stop, begin_stop_poisoned, cancel_active, end_stop, end_stop_late,
}
use lilavel_runtime.SemanticActor.Frame.{Kept, reject_queued-Kept, reject_queued_empties}
use lilavel_runtime.SemanticActor.Admission.Cases.{admit_cases}
use lilavel_runtime.SemanticActor.Lifecycle.Invariant.{is_started, Lifecycle}

pub enqueue-Lifecycle :
    (r : Record) (a : Actor) → Lifecycle a → is_running a.state ≡ true → Lifecycle (enqueue r a)
unfolding enqueue
enqueue-Lifecycle r a h s = ground arith

pub preempt-Lifecycle :
    (r : SemanticEpisodeRequest) (a : Actor) → Lifecycle a → Lifecycle (preempt r a)
unfolding preempt
preempt-Lifecycle r a h = ground arith

pub accept-Lifecycle :
    (r : SemanticEpisodeRequest) (a : Actor)
    → Lifecycle a
    → is_running a.state ≡ true
    → Lifecycle (accept r a).1
unfolding accept
accept-Lifecycle r a h s =
    let n = new_record r (a.next_episode_sequence + 1) in
    ground (arith, preempt-Lifecycle r (enqueue n a) (enqueue-Lifecycle n a h s))

pub rejected_admission-Lifecycle :
    (r : SemanticEpisodeRequest) (reason : String) (a : Actor)
    → Lifecycle a
    → Lifecycle (rejected_admission r reason a).1
unfolding rejected_admission
rejected_admission-Lifecycle r reason a h = ground arith

pub duplicate_in_flight-Lifecycle :
    (r : SemanticEpisodeRequest) (x : Record) (a : Actor)
    → Lifecycle a
    → Lifecycle (duplicate_in_flight r x a).1
unfolding duplicate_in_flight
duplicate_in_flight-Lifecycle r x a h = ground arith

pub duplicate_settled-Lifecycle :
    (r : SemanticEpisodeRequest) (s : SemanticSettlement) (a : Actor)
    → Lifecycle a
    → Lifecycle (duplicate_settled r s a).1
unfolding duplicate_settled
duplicate_settled-Lifecycle r s a h = ground arith

pub admit-Lifecycle :
    (r : SemanticEpisodeRequest) (a : Actor) → Lifecycle a → Lifecycle (admit r a).1
admit-Lifecycle r a h =
    admit_cases (λ q. Lifecycle q.1) r a (λ x _. duplicate_in_flight-Lifecycle r x a h)
      (λ s _ _. duplicate_settled-Lifecycle r s a h)
      (λ reason. rejected_admission-Lifecycle r reason a h) h
      (λ ok. accept-Lifecycle r a h ok.running)

pub cancel_active-Kept :
    (a : Actor)
    → Kept a (cancel_active a)
      × ((cancel_active a).user_queue ≡ a.user_queue)
      × ((cancel_active a).non_user_queue ≡ a.non_user_queue)
unfolding cancel_active
cancel_active-Kept a = ground arith

pub begin_stop-Lifecycle :
    (a : Actor)
    → Lifecycle a
    → is_started a.state ≡ true
    → is_poisoned a.state ≡ false
    → Lifecycle (begin_stop a).1
unfolding begin_stop shutdown_failure
begin_stop-Lifecycle a h s p =
    let stopping = record a { state = SemanticActorState.stopping } in
    ground (
      arith,
      reject_queued-Kept "actor_shutdown" stopping,
      reject_queued_empties "actor_shutdown" stopping,
      cancel_active-Kept (reject_queued "actor_shutdown" stopping),
    )

pub begin_stop_poisoned-Lifecycle : (a : Actor) → Lifecycle a → Lifecycle (begin_stop_poisoned a).1
unfolding begin_stop_poisoned
begin_stop_poisoned-Lifecycle a h =
    ground (arith, reject_queued-Kept "actor_poisoned" a, reject_queued_empties "actor_poisoned" a)

pub stop-Lifecycle : (a : Actor) → Lifecycle a → Lifecycle (stop a).1
unfolding stop
stop-Lifecycle a h = ground (arith, begin_stop-Lifecycle a h, begin_stop_poisoned-Lifecycle a h)

pub end_stop-Lifecycle :
    (b : Bool) (a : Actor) → Lifecycle a → a.worker ≡ done → Lifecycle (end_stop b a).1
unfolding end_stop
end_stop-Lifecycle b a h w = ground arith

pub end_stop_late-Lifecycle :
    (a : Actor) → Lifecycle a → a.worker ≡ done → Lifecycle (end_stop_late a).1
unfolding end_stop_late
end_stop_late-Lifecycle a h w = ground arith

pub start-Lifecycle : (a : Actor) → Lifecycle a → Lifecycle (start a)
unfolding start
start-Lifecycle a h = ground arith
