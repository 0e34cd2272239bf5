-- ===== src/SemanticActor/Fence/Steps.antt =====
-- Every event keeps the request fences in step with the lanes and the active record, or closes the
-- actor with the failure "actor_failed".
use lilavel_runtime.Prelude.{
  ap, false, ℕ, ◌≡◌, refl, ◌⊎◌, inl, inr, String, none, some, arith, Bool-cases,
}
use lilavel_runtime.Prelude.Dict
use lilavel_runtime.SemanticActor.Types.{
  Execution, SemanticEpisodeStatus, SemanticActorFailure, Record, reason_is_valid,
}
use lilavel_runtime.SemanticActor.State.{
  settle, request_cancellation, Actor, worker_record, reject_queued, poison, init,
}
use lilavel_runtime.SemanticActor.Admission.{create_request}
use lilavel_runtime.SemanticActor.Worker.{
  begin_return, after_episode, without_result, JoinOutcome, note_uncontained, fail_closed,
  unsettled, finish, begin_grace, begin_cancelled_join,
}
use lilavel_runtime.SemanticActor.Machine.{
  abandon, Event, step, uncontained_done, Reach, here, next,
}
use lilavel_runtime.SemanticActor.Machine.Cases.{StepCases, step_cases}
use lilavel_runtime.SemanticActor.Frame.{reject_queued-Kept}
use lilavel_runtime.SemanticActor.Fence.Worker.{
  FencedActor, FencedActor-transfer, reject-FencedActor, loop_head-FencedActor, finish-FencedActor,
  after_episode-FencedActor,
}
use lilavel_runtime.SemanticActor.Fence.Calls.{
  admit-FencedActor, stop-FencedActor, end_stop-FencedActor, end_stop_late-FencedActor,
  start-FencedActor,
}
use lilavel_runtime.SemanticActor.Lifecycle.Invariant.{Lifecycle}
use lilavel_runtime.SemanticActor.Lifecycle.Steps.{head-AtHead, step-Lifecycle}
use lilavel_runtime.SemanticActor.Lifecycle.Failure.{step-failure}

abbrev pub ActorFailed : Actor → Type 0
ActorFailed a = a.failure ≡ some (SemanticActorFailure.poisoned "actor_failed")

abbrev pub FencedUnlessFailed : Actor → Type 0
FencedUnlessFailed a = ActorFailed a ⊎ FencedActor a

-- A settlement that raises is told as the failure.
unsettled-ActorFailed :
    (r : Record) (e : Execution) (a : Actor)
    → a.failure ≡ none
    → ActorFailed (fail_closed "actor_failed" (unsettled r e a))
unfolding fail_closed poison unsettled
unsettled-ActorFailed r e a h =
    ground (arith, reject_queued-Kept "actor_poisoned" (poison "actor_failed" (unsettled r e a)))

finish-Fenced :
    (fresh : String) (r : Record) (e : Execution) (a : Actor)
    → a.active ≡ some r
    → a.failure ≡ none
    → FencedActor a
    → FencedUnlessFailed (finish fresh r e a)
unfolding finish
finish-Fenced fresh r e a q n h = elim (Bool-cases (reason_is_valid e.reason_code)) [
  | inl valid ↦ inr (finish-FencedActor fresh r e a q valid h)
  | inr invalid ↦ inl (rw invalid (unsettled-ActorFailed r e a n))
]

note_uncontained-same :
    (o : JoinOutcome) (r : Record) (a : Actor)
    → FencedActor a
    → FencedActor (note_uncontained o r a)
      × ((note_uncontained o r a).active ≡ a.active)
      × ((note_uncontained o r a).failure ≡ a.failure)
unfolding note_uncontained
note_uncontained-same o r a h = (
  FencedActor-transfer a (note_uncontained o r a) (ground arith) (ground arith) (ground arith)
      (ground arith) (ground arith) (ground arith) (ground arith) h,
  ground arith,
  ground arith,
)

at_work :
    (a : Actor) (r : Record)
    → Lifecycle a
    → worker_record a.worker ≡ some r
    → (a.active ≡ some r) × (a.failure ≡ none)
at_work a r h w = ground arith

-- The active record is settled by the handler, and then the queued ones.
abandon-FencedActor :
    (r : Record) (a : Actor) → a.active ≡ some r → FencedActor a → FencedActor (abandon r a)
unfolding abandon after_episode settle request_cancellation
abandon-FencedActor r a q h =
    let x = without_result SemanticEpisodeStatus.cancelled "worker_cancelled" false in
    let c =
      settle r SemanticEpisodeStatus.cancelled none (some "worker_cancelled")
        (request_cancellation r false "worker_cancelled" (record a { active = none })) in
    FencedActor-transfer (reject_queued "actor_shutdown" c) _ refl refl refl refl refl refl refl (
      reject-FencedActor "actor_shutdown" c (
        FencedActor-transfer (after_episode r x a) c (ground arith) (ground arith) (ground arith)
          (ground arith) (ground arith) (ground arith) (ground arith)
          (after_episode-FencedActor r x a q h)))

cases : (a : Actor) → Lifecycle a → FencedActor a → StepCases FencedUnlessFailed a
unfolding create_request uncontained_done begin_grace begin_cancelled_join begin_return
cases a l h = record {
  unchanged = inr h;
  issues = λ id source priority scope.
      inr (FencedActor-transfer a _ refl refl refl refl refl refl refl h);
  starts = inr (start-FencedActor a h);
  admits = λ r. inr (admit-FencedActor r a h);
  uncontained_ends = λ n. inr (FencedActor-transfer a _ refl refl refl refl refl refl refl h);
  stop_begins = inr (stop-FencedActor a h);
  stop_ends = λ was w. inr (end_stop-FencedActor was a h);
  stop_late = λ w. inr (end_stop_late-FencedActor a h);
  head = λ w. inr (loop_head-FencedActor a (head-AtHead a l w).idle h);
  returns = λ r x w _. inr (FencedActor-transfer a _ refl refl refl refl refl refl refl h);
  finishes = λ fresh r x w.
      let (q, n) = at_work a r l (ap worker_record w) in finish-Fenced fresh r x a q n h;
  joins = λ r o x w _. inr (
      FencedActor-transfer (note_uncontained o r a) _ refl refl refl refl refl refl refl
        (note_uncontained-same o r a h).0);
  grace = λ r w t. inr (FencedActor-transfer a _ refl refl refl refl refl refl refl h);
  grace_over = λ r w. inr (FencedActor-transfer a _ refl refl refl refl refl refl refl h);
  cancelled_early = λ s w. inr (FencedActor-transfer a _ refl refl refl refl refl refl refl h);
  cancelled_asleep = λ s w. inr (
      FencedActor-transfer (reject_queued "actor_shutdown" a) _ refl refl refl refl refl refl refl
        (reject-FencedActor "actor_shutdown" a h));
  cancelled_join = λ r s w. inr (FencedActor-transfer a _ refl refl refl refl refl refl refl h);
  cancelled_return =
      λ r x s w. inr (abandon-FencedActor r a (at_work a r l (ap worker_record w)).0 h);
}

pub step-FencedUnlessFailed :
    (e : Event) (a b : Actor)
    → Lifecycle a
    → FencedUnlessFailed a
    → step e a ≡ some b
    → FencedUnlessFailed b
step-FencedUnlessFailed e a b l (inl failed) s = inl (step-failure _ a failed e b l s)
step-FencedUnlessFailed e a b l (inr h) s = step_cases FencedUnlessFailed a (cases a l h) e b s

pub Reach-FencedUnlessFailed :
    {a b : Actor}
    → Reach a b
    → Lifecycle a
    → FencedUnlessFailed a
    → Lifecycle b × FencedUnlessFailed b
Reach-FencedUnlessFailed here l h = (l, h)
Reach-FencedUnlessFailed (next e r s) l h =
    let (l', h') = Reach-FencedUnlessFailed r l h in
    (step-Lifecycle e _ _ l' s, step-FencedUnlessFailed e _ _ l' h' s)

pub init-FencedActor : (scope session : String) (m f e : ℕ) → FencedActor (init scope session m f e)
unfolding init Dict.get
init-FencedActor scope session m f e = record {
  distinct = tt;
  fenced = refl;
  disjoint = λ k r q. cc;
  settled_session = λ k r q. cc;
  sessions = tt;
  within = omega arith;
}
