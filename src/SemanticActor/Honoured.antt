-- ===== src/SemanticActor/Honoured.antt =====
-- A request for cancellation is honoured through the calls and every event.
use mathlib.Core.Path.{subst}
use lilavel_runtime.Prelude.{
  ℕ, ◌+◌, ◌≤◌, ◌≡◌, inl, inr, Bool, true, false, ◌&&◌, some, arith, eqb, is_empty, not, if-cases,
  Option-cases,
}
use lilavel_runtime.SemanticActor.Types.{
  SemanticActorState, SemanticEpisodeRequest, is_user, is_non_user,
}
use lilavel_runtime.SemanticActor.State.{Actor, reject_queued}
use lilavel_runtime.SemanticActor.Admission.{
  admit, accept, preempt, enqueue, new_record, duplicate_in_flight, duplicate_settled,
  rejected_admission,
}
use lilavel_runtime.SemanticActor.Admission.Cases.{admit_cases}
use lilavel_runtime.SemanticActor.Machine.{
  start, stop, begin_stop, begin_stop_poisoned, cancel_active, end_stop, end_stop_late, step, Event,
  Reach, here, next, worker_is_absent, worker_is_done, StopResult, uncontained_done,
}
use lilavel_runtime.SemanticActor.Machine.Cases.{step_cases}
use lilavel_runtime.SemanticActor.Cancelled.{
  NotCompleting, NotCompleted, Quiet, Silenced, reject_queued-Silenced,
  request_cancellation-Silenced,
}
use lilavel_runtime.SemanticActor.Silenced.{
  idly, loop_head-Silenced, finish-Silenced, begin_return-Silenced, joins-Silenced,
  abandon-Silenced, begin_grace-Silenced, begin_cancelled_join-Silenced, shutdown_failure-Silenced,
}

enqueue-Silenced :
    (n : ℕ) (r : SemanticEpisodeRequest) (a : Actor)
    → Silenced n a
    → Silenced n (enqueue (new_record r (a.next_episode_sequence + 1)) a)
unfolding enqueue
enqueue-Silenced n r a h = (
  omega (arith, h.0),
  if-cases Quiet (eqb (a.next_episode_sequence + 1) n) _ (a.cells n)
      (λ same. ground (arith, same, h.0)) (λ _. h.1),
  h.2,
)

preempt-Silenced :
    (n : ℕ) (r : SemanticEpisodeRequest) (a : Actor) → Silenced n a → Silenced n (preempt r a)
unfolding preempt
preempt-Silenced n r a h = elim (Option-cases a.active) [
  | inl idle ↦ rw (idle, preempt) h
  | inr (x, busy) ↦
      rw (busy, preempt)
        (if-cases (Silenced n) (is_user r.priority && is_non_user x.request.priority) _ _
          (λ _. request_cancellation-Silenced n x true "user_priority" a h) (λ _. h))
]

admit-Silenced :
    (n : ℕ) (r : SemanticEpisodeRequest) (a : Actor) → Silenced n a → Silenced n (admit r a).1
unfolding accept rejected_admission duplicate_in_flight duplicate_settled
admit-Silenced n r a h =
    admit_cases (λ q. Silenced n q.1) r a (λ x _. h) (λ s _ _. h) (λ reason. h) h
      (λ _. preempt-Silenced n r _ (enqueue-Silenced n r a h))

cancel_active-Silenced : (n : ℕ) (a : Actor) → Silenced n a → Silenced n (cancel_active a)
unfolding cancel_active
cancel_active-Silenced n a h = elim (Option-cases a.active) [
  | inl idle ↦ rw (idle, cancel_active) h
  | inr (x, busy) ↦
      rw (busy, cancel_active) (request_cancellation-Silenced n x false "actor_shutdown" a h)
]

begin_stop-Silenced : (n : ℕ) (a : Actor) → Silenced n a → Silenced n (begin_stop a).1
unfolding begin_stop
begin_stop-Silenced n a h =
    let stopping = record a { state = SemanticActorState.stopping } in
    let b = cancel_active (reject_queued "actor_shutdown" stopping) in
    let quiet = cancel_active-Silenced n _ (reject_queued-Silenced n "actor_shutdown" stopping h) in
    if-cases (λ (q : StopResult × Actor). Silenced n q.1) (worker_is_absent b.worker) _ _
      (λ _. shutdown_failure-Silenced n "worker_missing" (record b { wake = true }) quiet)
      (λ _. quiet)

begin_stop_poisoned-Silenced :
    (n : ℕ) (a : Actor) → Silenced n a → Silenced n (begin_stop_poisoned a).1
unfolding begin_stop_poisoned
begin_stop_poisoned-Silenced n a h =
    let b = reject_queued "actor_poisoned" a in
    let quiet = reject_queued-Silenced n "actor_poisoned" a h in
    let Fine = λ (q : StopResult × Actor). Silenced n q.1 in
    if-cases Fine (not (worker_is_absent b.worker)) _ _
      (λ _.
        if-cases Fine (not (worker_is_done b.worker)) _ _ (λ _. quiet)
          (λ _. if-cases Fine (is_empty b.uncontained) _ _ (λ _. quiet) (λ _. quiet)))
      (λ _. if-cases Fine (is_empty b.uncontained) _ _ (λ _. quiet) (λ _. quiet))

stop-Silenced : (n : ℕ) (a : Actor) → Silenced n a → Silenced n (stop a).1
unfolding stop
stop-Silenced n a h =
    ground (arith, begin_stop-Silenced n a h, begin_stop_poisoned-Silenced n a h, h)

start-Silenced : (n : ℕ) (a : Actor) → Silenced n a → Silenced n (start a)
unfolding start
start-Silenced n a h = ground (arith, h)

end_stop-Silenced : (n : ℕ) (b : Bool) (a : Actor) → Silenced n a → Silenced n (end_stop b a).1
unfolding end_stop
end_stop-Silenced n b a h = ground (arith, h)

step-Silenced : (n : ℕ) (e : Event) (a b : Actor) → step e a ≡ some b → Silenced n a → Silenced n b
unfolding end_stop_late lilavel_runtime.SemanticActor.Admission.create_request uncontained_done
step-Silenced n e a b s h =
    step_cases (Silenced n) a
      (record {
        unchanged = h;
        issues = λ id source priority scope. h;
        starts = start-Silenced n a h;
        admits = λ r. admit-Silenced n r a h;
        uncontained_ends = λ m. h;
        stop_begins = stop-Silenced n a h;
        stop_ends = λ was w. end_stop-Silenced n was a h;
        stop_late = λ w. shutdown_failure-Silenced n "shutdown_timeout" a h;
        head = λ w. loop_head-Silenced n a h;
        returns = λ r x w honours. begin_return-Silenced n r x a honours h;
        finishes = λ fresh r x w. finish-Silenced n fresh r x a (subst (NotCompleting n) w h.2) h;
        joins = λ r o x w honours. joins-Silenced n r o x a honours h;
        grace = λ r w t. begin_grace-Silenced n r a h;
        grace_over = λ r w. idly n a h;
        cancelled_early = λ s w. idly n a h;
        cancelled_asleep = λ s w.
            idly n (reject_queued "actor_shutdown" a)
              (reject_queued-Silenced n "actor_shutdown" a h);
        cancelled_join = λ r s w. begin_cancelled_join-Silenced n r a h;
        cancelled_return = λ r x s w. abandon-Silenced n r a h;
      })
      e b s

Reach-Silenced : (n : ℕ) {a b : Actor} → Reach a b → Silenced n a → Silenced n b
Reach-Silenced n here h = h
Reach-Silenced n (next {b} {c} e r s) h = step-Silenced n e b c s (Reach-Silenced n r h)

-- Once the cancellation of an admitted record was requested, while it has not completed and
-- `_execute` is not about to return that it has, its cancellation stays requested, and it never
-- completes and no result of it is kept, whatever events follow: the record's future, once it is
-- resolved, has another status than COMPLETED.
pub cancelled_never_completes :
    {a b : Actor} (n : ℕ)
    → n ≤ a.next_episode_sequence
    → (a.cells n).cancellation_requested ≡ true
    → NotCompleted (a.cells n).future
    → NotCompleting n a.worker
    → Reach a b
    → ((b.cells n).cancellation_requested ≡ true) × NotCompleted (b.cells n).future
cancelled_never_completes n l asked pending under_way r =
    (Reach-Silenced n r (l, (asked, pending), under_way)).1
