-- ===== src/SemanticActor/AdmissionContract.antt =====
-- What `admit` promises: when it accepts, and what a request that comes again gets.
use mathlib.Core.List.{append_assoc}
use lilavel_runtime.Prelude.{
  ℕ, ◌+◌, ◌≡◌, ◌↔◌, refl, String, false, ◌∙◌, Option, none, some, [], ◌∷◌, ◌++◌, arith, ==_refl,
  Pair_Eq, String_Eq,
}
use lilavel_runtime.Prelude.Dict
use lilavel_runtime.SemanticActor.Types.{
  Execution, SemanticActorFailure, SemanticAdmission, SemanticAdmissionStatus,
  SemanticEpisodeRequest, SemanticSettlement, SemanticEpisodeStatus, ExecutorResult,
  SettlementFuture, AdmitResult, receipt, mailbox_full, Record, reason_is_valid,
}
use lilavel_runtime.SemanticActor.State.{Actor, done, key_of, poison, settle, settlement}
use lilavel_runtime.SemanticActor.Admission.{
  admit, admit_new, accept, enqueue, preempt, new_record, rejected_admission, duplicate_in_flight,
  duplicate_settled,
}
use lilavel_runtime.SemanticActor.Admission.Cases.{Admissible, admit_cases}
use lilavel_runtime.SemanticActor.Worker.{finish, fail_closed, unsettled}
use lilavel_runtime.SemanticActor.Machine.{Reach}
use lilavel_runtime.SemanticActor.Frame.{reject_queued-Kept}
use lilavel_runtime.SemanticActor.Fenced.{record_key}
use lilavel_runtime.SemanticActor.Lifecycle.Invariant.{Lifecycle}
use lilavel_runtime.SemanticActor.Fence.Operations.{
  FenceOf, FenceOf-transfer, reject_queued-FenceOf,
}
use lilavel_runtime.SemanticActor.Fence.Worker.{held, FencedActor, FenceOf-list}
use lilavel_runtime.SemanticActor.Fence.Steps.{ActorFailed}
use lilavel_runtime.SemanticActor.Guarantees.{failure_stays}

abbrev pub WasAccepted : AdmitResult → Type 0
WasAccepted (receipt s) = s.status ≡ SemanticAdmissionStatus.accepted
WasAccepted mailbox_full = ⊥

Admissible-accepted :
    (r : SemanticEpisodeRequest) (a : Actor) → Admissible r a → (admit r a) ≡ accept r a
unfolding admit admit_new
Admissible-accepted r a ok = ground (
  arith,
  ok.not_in_flight,
  ok.not_settled,
  String_Eq.same_iff r.scope_id a.scope_id,
  String_Eq.same_iff r.actor_session_id a.session_id,
)

-- `admit` accepts a request exactly when it is neither in flight nor settled, is of the actor's
-- scope and session, the actor is running, and the fence and the mailbox have room.
pub accepted_iff_Admissible :
    (r : SemanticEpisodeRequest) (a : Actor) → WasAccepted (admit r a).0 ↔ Admissible r a
unfolding accept rejected_admission duplicate_in_flight duplicate_settled
accepted_iff_Admissible r a = (
  admit_cases (λ q. WasAccepted q.0 → Admissible r a) r a (λ x _ h. cc) (λ s _ _ h. cc)
      (λ reason h. cc) (λ h. absurd h) (λ ok _. ok),
  λ ok. rw (Admissible-accepted r a ok),
)

-- The receipt of a request that comes again while it is in flight.
abbrev pub again_in_flight : SemanticEpisodeRequest → ℕ → SemanticAdmission
again_in_flight r n = record {
  request_id = r.request_id;
  sequence = n;
  status = SemanticAdmissionStatus.duplicate;
  reason_code = some "request_already_admitted";
  settlement_future = SettlementFuture.of_record n;
  episode = some ((new_record r n).episode);
}

accepted_in_flight :
    (r : SemanticEpisodeRequest) (a : Actor)
    → Dict.get (key_of r) (accept r a).1.in_flight
      ≡ some (new_record r (a.next_episode_sequence + 1))
unfolding accept preempt enqueue
accepted_in_flight r a =
    let n = new_record r (a.next_episode_sequence + 1) in
    ground (arith, Dict.get-set (key_of r) (key_of r) n a.in_flight, ==_refl (key_of r))

-- An accepted request that comes again gets a duplicate receipt with the same sequence, episode
-- and future, and no lane, fence or sequence counter changes.
pub readmission_is_duplicate :
    (r : SemanticEpisodeRequest) (a : Actor)
    → Admissible r a
    → let b = (admit r a).1 in
      ((admit r b).0 ≡ receipt (again_in_flight r (a.next_episode_sequence + 1)))
      × ((admit r b).1.in_flight ≡ b.in_flight)
      × ((admit r b).1.settled ≡ b.settled)
      × ((admit r b).1.user_queue ≡ b.user_queue)
      × ((admit r b).1.non_user_queue ≡ b.non_user_queue)
      × ((admit r b).1.next_episode_sequence ≡ b.next_episode_sequence)
unfolding duplicate_in_flight admit
readmission_is_duplicate r a ok =
    rw (Admissible-accepted r a ok) (flying (accept r a).1 (accepted_in_flight r a))
  where
    n : Record
    n = new_record r (a.next_episode_sequence + 1)

    flying :
        (b : Actor)
        → Dict.get (key_of r) b.in_flight ≡ some n
        → ((admit r b).0 ≡ receipt (again_in_flight r (a.next_episode_sequence + 1)))
          × ((admit r b).1.in_flight ≡ b.in_flight)
          × ((admit r b).1.settled ≡ b.settled)
          × ((admit r b).1.user_queue ≡ b.user_queue)
          × ((admit r b).1.non_user_queue ≡ b.non_user_queue)
          × ((admit r b).1.next_episode_sequence ≡ b.next_episode_sequence)
    flying b e = rw (e, admit) (refl, refl, refl, refl, refl, refl)

-- The receipt of a request that comes again after its settlement.
abbrev pub again_settled : SemanticEpisodeRequest → SemanticSettlement → SemanticAdmission
again_settled r s = record {
  request_id = r.request_id;
  sequence = s.sequence;
  status = SemanticAdmissionStatus.duplicate;
  reason_code = some "request_already_settled";
  settlement_future = SettlementFuture.resolved s;
  episode = none;
}

-- What a settlement leaves in the two fences.
settle_fences :
    (x : Record) (status : SemanticEpisodeStatus) (result : Option ExecutorResult)
    (reason_code : Option String) (a : Actor)
    → FencedActor a
    → let b = settle x status result reason_code a in
      (Dict.get (record_key x) b.in_flight ≡ none)
      × (Dict.get (record_key x) b.settled
          ≡ some (record (settlement x status result reason_code) { result = none }))
unfolding settle
settle_fences x status result reason_code a h = (
  Dict.get-pop_self (record_key x) a.in_flight h.distinct,
  Dict.get-set (record_key x) (record_key x) _ a.settled ∙ rw (==_refl (record_key x)) refl,
)

duplicate_of_settled :
    (r : SemanticEpisodeRequest) (s : SemanticSettlement) (b : Actor)
    → Dict.get (key_of r) b.in_flight ≡ none
    → Dict.get (key_of r) b.settled ≡ some s
    → ((admit r b).0 ≡ receipt (again_settled r s))
      × ((admit r b).1.in_flight ≡ b.in_flight)
      × ((admit r b).1.settled ≡ b.settled)
      × ((admit r b).1.user_queue ≡ b.user_queue)
      × ((admit r b).1.non_user_queue ≡ b.non_user_queue)
      × ((admit r b).1.next_episode_sequence ≡ b.next_episode_sequence)
unfolding admit duplicate_settled
duplicate_of_settled r s b absent settled =
    rw (absent, settled, admit) (refl, refl, refl, refl, refl, refl)

-- In an actor whose fences are exact: after a record is settled with any status and reason, its
-- request admitted again gets a duplicate receipt with the record's sequence, and the settlement
-- without its result; the fences, the lanes and the sequence counter stay as they are.
pub settled_is_duplicate :
    (x : Record) (status : SemanticEpisodeStatus) (result : Option ExecutorResult)
    (reason_code : Option String) (a : Actor)
    → FencedActor a
    → let b = settle x status result reason_code a in
      ((admit x.request b).0
        ≡ receipt (
            again_settled x.request (record {
              request_id = x.request.request_id;
              sequence = x.episode.sequence;
              status = status;
              reason_code = reason_code;
              result = none;
            })))
      × ((admit x.request b).1.in_flight ≡ b.in_flight)
      × ((admit x.request b).1.settled ≡ b.settled)
      × ((admit x.request b).1.user_queue ≡ b.user_queue)
      × ((admit x.request b).1.non_user_queue ≡ b.non_user_queue)
      × ((admit x.request b).1.next_episode_sequence ≡ b.next_episode_sequence)
settled_is_duplicate x status result reason_code a h =
    let fences = settle_fences x status result reason_code a h in
    duplicate_of_settled x.request _ (settle x status result reason_code a) fences.0 fences.1

-- Once an actor that satisfies the lifecycle invariant has failed, it accepts no request after
-- any further events.
pub failed_actor_accepts_nothing :
    {a b : Actor} (f : SemanticActorFailure) (r : SemanticEpisodeRequest)
    → Lifecycle a
    → a.failure ≡ some f
    → Reach a b
    → ¬ WasAccepted (admit r b).0
failed_actor_accepts_nothing {a} {b} f r l h reach accepted =
    let (l', failed) = failure_stays f reach l h in
    let ok = (accepted_iff_Admissible r b).0 accepted in ground (arith, ok.running, l'.sound)

-- Where the fence still holds a record that is no longer active, failing closed leaves it there.
fail_closed_leaks :
    (r : Record) (b : Actor)
    → b.active ≡ none
    → b.failure ≡ none
    → FenceOf (b.user_queue ++ (b.non_user_queue ++ r ∷ [])) b
    → let c = fail_closed "actor_failed" b in
      (Dict.get (record_key r) c.in_flight ≡ some r)
      × (Dict.get (record_key r) c.settled ≡ none)
      × (c.worker ≡ done)
      × (c.active ≡ none)
      × ActorFailed c
unfolding fail_closed poison
fail_closed_leaks r b q n h =
    let p = poison "actor_failed" b in
    let k = reject_queued-Kept "actor_poisoned" p in
    let moved =
      FenceOf-transfer {rs = b.user_queue ++ (b.non_user_queue ++ r ∷ [])} b p (ground arith)
        (ground arith) (ground arith) (ground arith) h in
    let left =
      reject_queued-FenceOf "actor_poisoned" (r ∷ []) p
        (FenceOf-list {xs = b.user_queue ++ (b.non_user_queue ++ r ∷ [])} p (ground arith) moved) in
    (
      left.fenced.0,
      left.disjoint (record_key r) r left.fenced.0,
      refl,
      ground (arith, k.active),
      ground (arith, k.failure),
    )

-- When an episode of an actor with exact fences and no failure ends with a reason that is no
-- bounded text, its record stays in the in-flight fence and never enters the settled one, the
-- worker has ended, no record is active, and the actor has failed with "actor_failed".
pub invalid_reason_leaks :
    (fresh : String) (r : Record) (e : Execution) (a : Actor)
    → a.active ≡ some r
    → a.failure ≡ none
    → FencedActor a
    → reason_is_valid e.reason_code ≡ false
    → let b = finish fresh r e a in
      (Dict.get (record_key r) b.in_flight ≡ some r)
      × (Dict.get (record_key r) b.settled ≡ none)
      × (b.worker ≡ done)
      × (b.active ≡ none)
      × ActorFailed b
unfolding finish unsettled
invalid_reason_leaks fresh r e a q n h bad = rw bad (
    fail_closed_leaks r (unsettled r e a) refl n (
      FenceOf-transfer a (unsettled r e a) refl refl refl refl (
        FenceOf-list {xs = held a} a (rw q (append_assoc a.user_queue a.non_user_queue (r ∷ [])))
          h)))
