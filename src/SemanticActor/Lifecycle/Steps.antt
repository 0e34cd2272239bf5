-- ===== src/SemanticActor/Lifecycle/Steps.antt =====
-- Every event keeps the lifecycle invariant.
use lilavel_runtime.Prelude.{ℕ, ◌≡◌, String, false, Option, none, some, arith, ◌⊎◌}
use lilavel_runtime.SemanticActor.Types.{
  Execution, SemanticEpisodeStatus, SemanticSourceKind, SemanticPriority, Record,
}
use lilavel_runtime.SemanticActor.State.{
  Actor, worker_record, ready, asleep, in_grace, joining, done, reject_queued, returning, settle,
  request_cancellation,
}
use lilavel_runtime.SemanticActor.Admission.{create_request, is_running}
use lilavel_runtime.SemanticActor.Worker.{begin_return, note_uncontained, JoinOutcome}
use lilavel_runtime.SemanticActor.Machine.{
  abandon, Event, step, Reach, here, next, uncontained_done,
}
use lilavel_runtime.SemanticActor.Frame.{reject_queued-Kept, reject_queued_empties}
use lilavel_runtime.SemanticActor.Lifecycle.Invariant.{is_at_rest, Lifecycle, AtHead}
use lilavel_runtime.SemanticActor.Lifecycle.Worker.{
  loop_head-Lifecycle, finish-Lifecycle, begin_grace-Lifecycle, begin_cancelled_join-Lifecycle,
}
use lilavel_runtime.SemanticActor.Machine.Cases.{step_cases}
use lilavel_runtime.SemanticActor.Lifecycle.Calls.{
  admit-Lifecycle, stop-Lifecycle, end_stop-Lifecycle, end_stop_late-Lifecycle, start-Lifecycle,
}

pub record_at_work :
    (a : Actor) (r : Record) → worker_record a.worker ≡ some r → is_at_rest a.worker ≡ false
record_at_work a r h = ground arith

pub head-AtHead : (a : Actor) → Lifecycle a → (a.worker ≡ ready) ⊎ (a.worker ≡ asleep) → AtHead a
head-AtHead a h w = ground arith

issue-Lifecycle :
    (id : String) (source : SemanticSourceKind) (priority : SemanticPriority)
    (scope : Option String) (a : Actor)
    → Lifecycle a
    → Lifecycle (create_request id source priority scope a).1
unfolding create_request
issue-Lifecycle id source priority scope a h = ground arith

uncontained_done-Lifecycle : (n : ℕ) (a : Actor) → Lifecycle a → Lifecycle (uncontained_done n a)
unfolding uncontained_done
uncontained_done-Lifecycle n a h = ground arith

grace_over-Lifecycle :
    (a : Actor) (r : Record)
    → Lifecycle a
    → a.worker ≡ in_grace r
    → Lifecycle (record a { worker = joining r })
grace_over-Lifecycle a r h w = ground arith

cancelled_early-Lifecycle :
    (a : Actor)
    → Lifecycle a
    → is_running a.state ≡ false
    → a.worker ≡ ready
    → Lifecycle (record a { worker = done })
cancelled_early-Lifecycle a h s w = ground arith

cancelled_asleep-Lifecycle :
    (a : Actor)
    → Lifecycle a
    → is_running a.state ≡ false
    → a.worker ≡ asleep
    → Lifecycle (let b = reject_queued "actor_shutdown" a in record b { worker = done })
cancelled_asleep-Lifecycle a h s w =
    ground (arith, reject_queued-Kept "actor_shutdown" a, reject_queued_empties "actor_shutdown" a)

joins-Lifecycle :
    (r : Record) (o : JoinOutcome) (x : Execution) (a : Actor)
    → Lifecycle a
    → worker_record a.worker ≡ some r
    → Lifecycle (begin_return r x (note_uncontained o r a))
unfolding begin_return note_uncontained
joins-Lifecycle r o x a h w = ground arith

begin_return-Lifecycle :
    (r : Record) (x : Execution) (a : Actor)
    → Lifecycle a
    → worker_record a.worker ≡ some r
    → Lifecycle (begin_return r x a)
unfolding begin_return
begin_return-Lifecycle r x a h w = ground arith

returning_at_work :
    (a : Actor) (r : Record) (x : Execution)
    → a.worker ≡ returning r x
    → is_at_rest a.worker ≡ false
returning_at_work a r x w = ground arith

abandon-Lifecycle :
    (r : Record) (x : Execution) (a : Actor)
    → Lifecycle a
    → is_running a.state ≡ false
    → a.worker ≡ returning r x
    → Lifecycle (abandon r a)
unfolding abandon request_cancellation settle
abandon-Lifecycle r x a h s w =
    let c =
      settle r SemanticEpisodeStatus.cancelled none (some "worker_cancelled")
        (request_cancellation r false "worker_cancelled" (record a { active = none })) in
    ground (arith, reject_queued-Kept "actor_shutdown" c, reject_queued_empties "actor_shutdown" c)

-- Every event, in every state, keeps the lifecycle invariant.
pub step-Lifecycle : (e : Event) (a b : Actor) → Lifecycle a → step e a ≡ some b → Lifecycle b
step-Lifecycle e a b h =
    step_cases Lifecycle a
      (record {
        unchanged = h;
        issues = λ id source priority scope. issue-Lifecycle id source priority scope a h;
        starts = start-Lifecycle a h;
        admits = λ r. admit-Lifecycle r a h;
        uncontained_ends = λ n. uncontained_done-Lifecycle n a h;
        stop_begins = stop-Lifecycle a h;
        stop_ends = λ was w. end_stop-Lifecycle was a h w;
        stop_late = λ w. end_stop_late-Lifecycle a h w;
        head = λ w. loop_head-Lifecycle a (head-AtHead a h w);
        returns = λ r x w _. begin_return-Lifecycle r x a h w;
        finishes = λ fresh r x w. finish-Lifecycle fresh r x a h (returning_at_work a r x w);
        joins = λ r o x w _. joins-Lifecycle r o x a h w;
        grace = λ r w t. begin_grace-Lifecycle r a h w;
        grace_over = λ r w. grace_over-Lifecycle a r h w;
        cancelled_early = λ s w. cancelled_early-Lifecycle a h s w;
        cancelled_asleep = λ s w. cancelled_asleep-Lifecycle a h s w;
        cancelled_join = λ r s w. begin_cancelled_join-Lifecycle r a h w;
        cancelled_return = λ r x s w. abandon-Lifecycle r x a h s w;
      })
      e b

pub Reach-Lifecycle : {a b : Actor} → Reach a b → Lifecycle a → Lifecycle b
Reach-Lifecycle here h = h
Reach-Lifecycle (next e r s) h = step-Lifecycle e _ _ (Reach-Lifecycle r h) s
