-- ===== src/SemanticActor/Fence/Calls.antt =====
-- The calls of other tasks keep the request fences.
use mathlib.Core.List.{append_assoc}
use lilavel_runtime.Prelude.{
  ◌+◌, ◌≡◌, refl, inl, inr, Bool, true, List, [], ◌∷◌, ◌++◌, ◌==◌, arith, Pair_Eq, All, Bool-cases,
}
use lilavel_runtime.Prelude.Dict
use lilavel_runtime.Prelude.Dict.{Dict, Distinct}
use lilavel_runtime.SemanticActor.Types.{
  SemanticActorState, SemanticEpisodeRequest, Record, is_user,
}
use lilavel_runtime.SemanticActor.State.{Actor, reject_queued, shutdown_failure}
use lilavel_runtime.SemanticActor.Admission.{
  admit, accept, enqueue, preempt, new_record, rejected_admission, duplicate_in_flight,
  duplicate_settled,
}
use lilavel_runtime.SemanticActor.Admission.Cases.{Admissible, admit_cases}
use lilavel_runtime.SemanticActor.Machine.{
  stop, begin_stop, begin_stop_poisoned, cancel_active, end_stop, end_stop_late, start,
}
use lilavel_runtime.SemanticActor.Fenced.{record_key, Fenced-set}
use lilavel_runtime.SemanticActor.Fence.Operations.{InSession, FenceOf}
use lilavel_runtime.SemanticActor.Fence.Worker.{
  active_list, lanes, held, FencedActor, FenceOf-list, FencedActor-transfer, reject-FencedActor,
}

All-insert :
    (P : Record → Type 0) (xs ys : List Record) (r : Record)
    → P r
    → All P (xs ++ ys)
    → All P (xs ++ r ∷ ys)
All-insert P [] ys r p h = (p, h)
All-insert P (x ∷ xs) ys r p h = (h.0, All-insert P xs ys r p h.1)

-- A new record enters its lane and the fence of those in flight.
enqueue-FenceOf :
    (xs ys : List Record) (r : Record) (a : Actor)
    → Admissible r.request a
    → FenceOf (xs ++ ys) a
    → FenceOf (xs ++ r ∷ ys) (enqueue r a)
unfolding enqueue
enqueue-FenceOf xs ys r a ok h = record {
  distinct = Dict.Distinct-set (record_key r) r a.in_flight h.distinct;
  fenced = Fenced-set xs ys r a.in_flight ok.not_in_flight h.fenced;
  disjoint = λ k x e. elim (Bool-cases (record_key r == k)) [
    | inl same ↦ cc ((Pair_Eq.same_iff (record_key r) k).0 same, ok.not_settled)
    | inr other ↦
        h.disjoint k x (ground (arith, other, Dict.get-set (record_key r) k r a.in_flight, e))
  ];
  settled_session = h.settled_session;
  sessions = All-insert (InSession a.session_id) xs ys r ok.session h.sessions;
  within = omega (arith, ok.fence_room, Dict.length-set-le (record_key r) r a.in_flight);
}

enqueue-FencedActor :
    (r : Record) (a : Actor) → Admissible r.request a → FencedActor a → FencedActor (enqueue r a)
unfolding enqueue
enqueue-FencedActor r a ok h =
    let us = a.user_queue in
    let ns = a.non_user_queue in
    let act = active_list a.active in
    let b = enqueue r a in
    elim (Bool-cases (is_user r.request.priority)) [
      | inl user ↦
          FenceOf-list {xs = us ++ r ∷ (ns ++ act)} {ys = held b} b (simp (user, append_assoc))
            (enqueue-FenceOf us (ns ++ act) r a ok (FenceOf-list a (append_assoc us ns act) h))
      | inr other ↦
          FenceOf-list {xs = lanes a ++ r ∷ act} {ys = held b} b (simp (other, append_assoc))
            (enqueue-FenceOf (lanes a) act r a ok h)
    ]

preempt-FencedActor :
    (r : SemanticEpisodeRequest) (a : Actor) → FencedActor a → FencedActor (preempt r a)
unfolding preempt
preempt-FencedActor r a h =
    FencedActor-transfer a (preempt r a) (ground arith) (ground arith) (ground arith) (ground arith)
      (ground arith) (ground arith) (ground arith) h

pub admit-FencedActor :
    (r : SemanticEpisodeRequest) (a : Actor) → FencedActor a → FencedActor (admit r a).1
unfolding duplicate_in_flight duplicate_settled rejected_admission accept
admit-FencedActor r a h =
    admit_cases (λ q. FencedActor q.1) r a
      (λ x _. FencedActor-transfer a _ refl refl refl refl refl refl refl h)
      (λ s _ _. FencedActor-transfer a _ refl refl refl refl refl refl refl h)
      (λ reason. FencedActor-transfer a _ refl refl refl refl refl refl refl h) h
      λ ok.
        let n = new_record r (a.next_episode_sequence + 1) in
        let b = preempt r (enqueue n a) in
        FencedActor-transfer b (record b { wake = true }) refl refl refl refl refl refl refl
          (preempt-FencedActor r (enqueue n a) (enqueue-FencedActor n a (again ok) h))
  where
    again : Admissible r a → Admissible (new_record r 0).request a
    again ok = ok

cancel_active-FencedActor : (a : Actor) → FencedActor a → FencedActor (cancel_active a)
unfolding cancel_active
cancel_active-FencedActor a h =
    FencedActor-transfer a (cancel_active a) (ground arith) (ground arith) (ground arith)
      (ground arith) (ground arith) (ground arith) (ground arith) h

begin_stop-FencedActor : (a : Actor) → FencedActor a → FencedActor (begin_stop a).1
unfolding begin_stop shutdown_failure
begin_stop-FencedActor a h =
    let stopping = record a { state = SemanticActorState.stopping } in
    let b = cancel_active (reject_queued "actor_shutdown" stopping) in
    FencedActor-transfer b _ (ground arith) (ground arith) (ground arith) (ground arith)
      (ground arith) (ground arith) (ground arith)
      (cancel_active-FencedActor _ (
        reject-FencedActor "actor_shutdown" stopping
          (FencedActor-transfer a stopping refl refl refl refl refl refl refl h)))

begin_stop_poisoned-FencedActor :
    (a : Actor) → FencedActor a → FencedActor (begin_stop_poisoned a).1
unfolding begin_stop_poisoned
begin_stop_poisoned-FencedActor a h =
    FencedActor-transfer (reject_queued "actor_poisoned" a) _ (ground arith) (ground arith)
      (ground arith) (ground arith) (ground arith) (ground arith) (ground arith)
      (reject-FencedActor "actor_poisoned" a h)

pub stop-FencedActor : (a : Actor) → FencedActor a → FencedActor (stop a).1
unfolding stop
stop-FencedActor a h = by_state a.state refl
  where
    by_state : (s : SemanticActorState) → a.state ≡ s → FencedActor (stop a).1
    by_state SemanticActorState.new e =
        rw (e, stop) (FencedActor-transfer a _ refl refl refl refl refl refl refl h)
    by_state SemanticActorState.running e = rw (e, stop) (begin_stop-FencedActor a h)
    by_state SemanticActorState.stopping e = rw (e, stop) (begin_stop-FencedActor a h)
    by_state SemanticActorState.stopped e = rw (e, stop) h
    by_state SemanticActorState.poisoned e = rw (e, stop) (begin_stop_poisoned-FencedActor a h)

pub end_stop-FencedActor : (was : Bool) (a : Actor) → FencedActor a → FencedActor (end_stop was a).1
unfolding end_stop
end_stop-FencedActor was a h =
    FencedActor-transfer a (end_stop was a).1 (ground arith) (ground arith) (ground arith)
      (ground arith) (ground arith) (ground arith) (ground arith) h

pub end_stop_late-FencedActor : (a : Actor) → FencedActor a → FencedActor (end_stop_late a).1
unfolding end_stop_late
end_stop_late-FencedActor a h =
    FencedActor-transfer a (end_stop_late a).1 (ground arith) (ground arith) (ground arith)
      (ground arith) (ground arith) (ground arith) (ground arith) h

pub start-FencedActor : (a : Actor) → FencedActor a → FencedActor (start a)
unfolding start
start-FencedActor a h =
    FencedActor-transfer a (start a) (ground arith) (ground arith) (ground arith) (ground arith)
      (ground arith) (ground arith) (ground arith) h
