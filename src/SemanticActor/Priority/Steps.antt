-- ===== src/SemanticActor/Priority/Steps.antt =====
-- Every event keeps the lanes apart and queued user work heard.
use lilavel_runtime.Prelude.{
  none, ℕ, ◌+◌, ◌≤◌, ◌≡◌, refl, inl, inr, String, Bool, true, false, some, List, [], ◌∷◌, arith,
  All, All-append, All-imp, Bool-cases,
}
use lilavel_runtime.SemanticActor.Types.{
  Execution, SemanticEpisodeStatus, SemanticActorState, SemanticEpisodeRequest, Record, is_user,
}
use lilavel_runtime.SemanticActor.State.{
  request_cancellation, settle, Actor, init, reject_queued, shutdown_failure,
}
use lilavel_runtime.SemanticActor.Admission.{
  create_request, admit, accept, enqueue, preempt, new_record, rejected_admission,
  duplicate_in_flight, duplicate_settled,
}
use lilavel_runtime.SemanticActor.Admission.Cases.{admit_cases}
use lilavel_runtime.SemanticActor.Worker.{
  begin_return, JoinOutcome, note_uncontained, begin_grace, begin_cancelled_join,
}
use lilavel_runtime.SemanticActor.Machine.{
  abandon, Event, start, stop, begin_stop, begin_stop_poisoned, cancel_active, end_stop,
  end_stop_late, uncontained_done, step, Reach, here, next,
}
use lilavel_runtime.SemanticActor.Machine.Cases.{step_cases}
use lilavel_runtime.SemanticActor.Lifecycle.Invariant.{Lifecycle}
use lilavel_runtime.SemanticActor.Lifecycle.Steps.{head-AtHead, step-Lifecycle}
use lilavel_runtime.SemanticActor.Priority.Invariant.{
  InLane, Lanes, Preempting, same, reject-Preempting, loop_head-Preempting, finish-Preempting,
}

wider :
    (user : Bool) (n : ℕ) (rs : List Record) → All (InLane user n) rs → All (InLane user (n + 1)) rs
wider user n rs h = All-imp _ _ rs (λ r p. (p.0, omega arith)) h

-- A new record joins the lane of its priority, with the next number.
enqueue-Lanes :
    (r : SemanticEpisodeRequest) (a : Actor)
    → Lanes a
    → Lanes (enqueue (new_record r (a.next_episode_sequence + 1)) a)
unfolding enqueue
enqueue-Lanes r a l =
    let n = a.next_episode_sequence in
    let us = wider true n a.user_queue l.users in
    let ns = wider false n a.non_user_queue l.others in
    let x = new_record r (n + 1) in
    elim (Bool-cases (is_user r.priority)) [
      | inl user ↦ record {
        users = simp user (All-append _ a.user_queue (x ∷ []) us ((user, omega arith), tt));
        others = simp user ns;
      }
      | inr other ↦ record {
        users = simp other us;
        others = simp other (All-append _ a.non_user_queue (x ∷ []) ns ((other, omega arith), tt));
      }
    ]

-- What `accept` leaves of the actor before it preempts.
enqueue_same :
    (r : SemanticEpisodeRequest) (a : Actor) (x : Record)
    → a.active ≡ some x
    → x.episode.sequence ≤ a.next_episode_sequence
    → let b = enqueue (new_record r (a.next_episode_sequence + 1)) a in
      (b.active ≡ some x) × (b.cells x.episode.sequence ≡ a.cells x.episode.sequence)
unfolding enqueue
enqueue_same r a x q n = ground arith

accept-Preempting :
    (r : SemanticEpisodeRequest) (a : Actor) → Preempting a → Preempting (accept r a).1
unfolding accept preempt enqueue
accept-Preempting r a h = record {
  lanes =
      let l = enqueue-Lanes r a h.lanes in
      record { users = ground (arith, l.users); others = ground (arith, l.others) };
  numbered = λ x q. ground (arith, h.numbered x);
  preempted = λ x q o k. ground (arith, h.preempted x, h.numbered x);
}

admit-Preempting :
    (r : SemanticEpisodeRequest) (a : Actor) → Preempting a → Preempting (admit r a).1
unfolding duplicate_in_flight duplicate_settled rejected_admission
admit-Preempting r a h =
    admit_cases (λ q. Preempting q.1) r a (λ x _. same a _ refl refl refl refl refl h)
      (λ s _ _. same a _ refl refl refl refl refl h) (λ reason. same a _ refl refl refl refl refl h)
      h (λ ok. accept-Preempting r a h)

cancel_active-Preempting : (a : Actor) → Preempting a → Preempting (cancel_active a)
unfolding cancel_active
cancel_active-Preempting a h = record {
  lanes = record { users = ground (arith, h.lanes); others = ground (arith, h.lanes) };
  numbered = λ x q. ground (arith, h.numbered x);
  preempted = λ x q o k. ground (arith, h.preempted x);
}

begin_stop-Preempting : (a : Actor) → Preempting a → Preempting (begin_stop a).1
unfolding begin_stop shutdown_failure
begin_stop-Preempting a h =
    let stopping = record a { state = SemanticActorState.stopping } in
    same (cancel_active (reject_queued "actor_shutdown" stopping)) _ (ground arith) (ground arith)
      (ground arith) (ground arith) (ground arith)
      (cancel_active-Preempting _ (reject-Preempting "actor_shutdown" stopping h.numbered))

begin_stop_poisoned-Preempting : (a : Actor) → Preempting a → Preempting (begin_stop_poisoned a).1
unfolding begin_stop_poisoned
begin_stop_poisoned-Preempting a h =
    same (reject_queued "actor_poisoned" a) _ (ground arith) (ground arith) (ground arith)
      (ground arith) (ground arith) (reject-Preempting "actor_poisoned" a h.numbered)

stop-Preempting : (a : Actor) → Preempting a → Preempting (stop a).1
unfolding stop
stop-Preempting a h = by_state a.state refl
  where
    by_state : (s : SemanticActorState) → a.state ≡ s → Preempting (stop a).1
    by_state SemanticActorState.new e = rw (e, stop) (same a _ refl refl refl refl refl h)
    by_state SemanticActorState.running e = rw (e, stop) (begin_stop-Preempting a h)
    by_state SemanticActorState.stopping e = rw (e, stop) (begin_stop-Preempting a h)
    by_state SemanticActorState.stopped e = rw (e, stop) h
    by_state SemanticActorState.poisoned e = rw (e, stop) (begin_stop_poisoned-Preempting a h)

end_stop-Preempting : (was : Bool) (a : Actor) → Preempting a → Preempting (end_stop was a).1
unfolding end_stop
end_stop-Preempting was a h =
    same a (end_stop was a).1 (ground arith) (ground arith) (ground arith) (ground arith)
      (ground arith) h

end_stop_late-Preempting : (a : Actor) → Preempting a → Preempting (end_stop_late a).1
unfolding end_stop_late
end_stop_late-Preempting a h =
    same a (end_stop_late a).1 (ground arith) (ground arith) (ground arith) (ground arith)
      (ground arith) h

start-Preempting : (a : Actor) → Preempting a → Preempting (start a)
unfolding start
start-Preempting a h =
    same a (start a) (ground arith) (ground arith) (ground arith) (ground arith) (ground arith) h

joins-Preempting :
    (r : Record) (o : JoinOutcome) (x : Execution) (a : Actor)
    → Preempting a
    → Preempting (begin_return r x (note_uncontained o r a))
unfolding note_uncontained begin_return
joins-Preempting r o x a h =
    same a (begin_return r x (note_uncontained o r a)) (ground arith) (ground arith) (ground arith)
      (ground arith) (ground arith) h

abandon-Preempting : (r : Record) (a : Actor) → Preempting (abandon r a)
unfolding abandon settle request_cancellation
abandon-Preempting r a =
    let c =
      settle r SemanticEpisodeStatus.cancelled none (some "worker_cancelled")
        (request_cancellation r false "worker_cancelled" (record a { active = none })) in
    same (reject_queued "actor_shutdown" c) _ refl refl refl refl refl
      (reject-Preempting "actor_shutdown" c (λ x k. ground arith))

-- A write that keeps the flags of every cell, or sets them.
begin_grace-Preempting : (r : Record) (a : Actor) → Preempting a → Preempting (begin_grace r a)
unfolding begin_grace
begin_grace-Preempting r a h = record {
  lanes = record { users = h.lanes.users; others = h.lanes.others };
  numbered = h.numbered;
  preempted = λ x q o k. ground (arith, h.preempted x);
}

begin_cancelled_join-Preempting :
    (r : Record) (a : Actor) → Preempting a → Preempting (begin_cancelled_join r a)
unfolding begin_cancelled_join
begin_cancelled_join-Preempting r a h = record {
  lanes = record { users = h.lanes.users; others = h.lanes.others };
  numbered = h.numbered;
  preempted = λ x q o k. ground (arith, h.preempted x);
}

-- Every event keeps the lanes apart, the numbers below the last one given, and the preemption.
pub step-Preempting :
    (e : Event) (a b : Actor) → Lifecycle a → Preempting a → step e a ≡ some b → Preempting b
unfolding create_request uncontained_done begin_return
step-Preempting e a b l h =
    step_cases Preempting a
      (record {
        unchanged = h;
        issues = λ id source priority scope. same a _ refl refl refl refl refl h;
        starts = start-Preempting a h;
        admits = λ r. admit-Preempting r a h;
        uncontained_ends = λ n. same a _ refl refl refl refl refl h;
        stop_begins = stop-Preempting a h;
        stop_ends = λ was w. end_stop-Preempting was a h;
        stop_late = λ w. end_stop_late-Preempting a h;
        head = λ w. loop_head-Preempting a (head-AtHead a l w).idle h.lanes;
        returns = λ r x w _. same a _ refl refl refl refl refl h;
        finishes = λ fresh r x w. finish-Preempting fresh r x a h.lanes;
        joins = λ r o x w _. joins-Preempting r o x a h;
        grace = λ r w t. begin_grace-Preempting r a h;
        grace_over = λ r w. same a _ refl refl refl refl refl h;
        cancelled_early = λ s w. same a _ refl refl refl refl refl h;
        cancelled_asleep = λ s w.
            same (reject_queued "actor_shutdown" a) _ refl refl refl refl refl
              (reject-Preempting "actor_shutdown" a h.numbered);
        cancelled_join = λ r s w. begin_cancelled_join-Preempting r a h;
        cancelled_return = λ r x s w. abandon-Preempting r a;
      })
      e b

pub Reach-Preempting :
    {a b : Actor} → Reach a b → Lifecycle a → Preempting a → Lifecycle b × Preempting b
Reach-Preempting here l h = (l, h)
Reach-Preempting (next e r s) l h =
    let (l', h') = Reach-Preempting r l h in
    (step-Lifecycle e _ _ l' s, step-Preempting e _ _ l' h' s)

pub init-Preempting : (scope session : String) (m f e : ℕ) → Preempting (init scope session m f e)
unfolding init
init-Preempting scope session m f e = record {
  lanes = record { users = tt; others = tt };
  numbered = λ r q. cc;
  preempted = λ r q. cc;
}
