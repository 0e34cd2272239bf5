-- ===== src/SemanticActor/Lifecycle/Failure.antt =====
-- The first failure of an actor stays its failure.
use lilavel_runtime.Prelude.{ap, ◌≡◌, ◌⊎◌, inr, Bool, some, arith}
use lilavel_runtime.SemanticActor.Types.{
  SemanticActorState, SemanticActorFailure, SemanticEpisodeRequest, Record,
}
use lilavel_runtime.SemanticActor.State.{
  Actor, ready, asleep, executing, worker_record, reject_queued, shutdown_failure,
}
use lilavel_runtime.SemanticActor.Admission.{
  create_request, admit, accept, enqueue, preempt, rejected_admission, duplicate_in_flight,
  duplicate_settled,
}
use lilavel_runtime.SemanticActor.Admission.Cases.{admit_cases}
use lilavel_runtime.SemanticActor.Machine.{
  Event, start, stop, begin_stop, begin_stop_poisoned, end_stop, end_stop_late, uncontained_done,
  step,
}
use lilavel_runtime.SemanticActor.Machine.Cases.{step_cases}
use lilavel_runtime.SemanticActor.Frame.{reject_queued-Kept}
use lilavel_runtime.SemanticActor.Lifecycle.Invariant.{Lifecycle}
use lilavel_runtime.SemanticActor.Lifecycle.Calls.{cancel_active-Kept}

module _ (f : SemanticActorFailure) (a : Actor) (failed : a.failure ≡ some f) where
  abbrev Failed : Actor → Type 0
  Failed b = b.failure ≡ some f

  admit-Failed : (r : SemanticEpisodeRequest) → Failed (admit r a).1
  unfolding duplicate_in_flight duplicate_settled rejected_admission accept preempt enqueue
  admit-Failed r =
      admit_cases (λ q. Failed q.1) r a (λ _ _. failed) (λ _ _ _. failed) (λ _. failed) failed
        λ ok. ground arith

  stop-Failed : Failed (stop a).1
  unfolding stop begin_stop begin_stop_poisoned shutdown_failure
  stop-Failed =
      let stopping = record a { state = SemanticActorState.stopping } in
      ground (
        arith,
        reject_queued-Kept "actor_shutdown" stopping,
        reject_queued-Kept "actor_poisoned" a,
        cancel_active-Kept (reject_queued "actor_shutdown" stopping),
      )

  at_work : Lifecycle a → {r : Record} → worker_record a.worker ≡ some r → ⊥
  at_work h w = ground arith

  awake : Lifecycle a → (a.worker ≡ ready) ⊎ (a.worker ≡ asleep) → ⊥
  awake h w = ground arith

  executes : Lifecycle a → (r : Record) → a.worker ≡ executing r → ⊥
  executes h r w = ground arith

  end_stop-Failed : (was : Bool) → Failed (end_stop was a).1
  unfolding end_stop
  end_stop-Failed was = ground arith

  end_stop_late-Failed : Failed (end_stop_late a).1
  unfolding end_stop_late
  end_stop_late-Failed = ground arith

  start-Failed : Failed (start a)
  unfolding start
  start-Failed = ground arith

  -- No event gives an actor that has failed another failure.
  pub step-failure : (e : Event) (b : Actor) → Lifecycle a → step e a ≡ some b → b.failure ≡ some f
  unfolding create_request uncontained_done
  step-failure e b h =
      step_cases Failed a
        (record {
          unchanged = failed;
          issues = λ id source priority scope. failed;
          starts = start-Failed;
          admits = admit-Failed;
          uncontained_ends = λ n. failed;
          stop_begins = stop-Failed;
          stop_ends = λ was w. end_stop-Failed was;
          stop_late = λ w. end_stop_late-Failed;
          head = λ w. absurd (awake h w);
          returns = λ r x w _. absurd (at_work h w);
          finishes = λ fresh r x w. absurd (at_work h (ap worker_record w));
          joins = λ r o x w _. absurd (at_work h w);
          grace = λ r w t. absurd (executes h r w);
          grace_over = λ r w. failed;
          cancelled_early = λ s w. failed;
          cancelled_asleep = λ s w. absurd (awake h (inr w));
          cancelled_join = λ r s w. absurd (executes h r w);
          cancelled_return = λ r x s w. absurd (at_work h (ap worker_record w));
        })
        e b
