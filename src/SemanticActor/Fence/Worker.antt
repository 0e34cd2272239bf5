-- ===== src/SemanticActor/Fence/Worker.antt =====
-- The worker's moves keep the request fences in step with the lanes and the active record.
use mathlib.Core.Path.{subst}
use mathlib.Core.List.{append-nil, append_assoc}
use lilavel_runtime.Prelude.{
  ◌≡◌, refl, sym, ap, inl, inr, String, true, false, Option, none, some, List, [], ◌∷◌, ◌++◌,
  length, length-eq-zero, arith, Pair_Eq, if-cases,
}
use lilavel_runtime.Prelude.Dict
use lilavel_runtime.Prelude.Dict.{Dict, Distinct}
use lilavel_runtime.SemanticActor.Types.{Execution, Record, reason_is_valid}
use lilavel_runtime.SemanticActor.State.{
  Actor, Key, asleep, done, reject_queued, poison, maybe_rotate_session,
}
use lilavel_runtime.SemanticActor.Worker.{
  is_stopping, rest, activate, pop_next, begin_next, loop_head, fail_closed, after_episode, finish,
}
use lilavel_runtime.SemanticActor.Worker.Cases.{
  pop_next-some, begin_next_cases, loop_head_cases, finish_cases,
}
use lilavel_runtime.SemanticActor.Frame.{reject_queued-Kept, reject_queued_empties}
use lilavel_runtime.SemanticActor.Fence.Operations.{
  FenceOf, FenceOf-transfer, FenceOf-last, settle-FenceOf, reject_queued-FenceOf,
}

abbrev pub active_list : Option Record → List Record
active_list none = []
active_list (some r) = r ∷ []

abbrev pub lanes : Actor → List Record
lanes a = a.user_queue ++ a.non_user_queue

-- The records that are queued or active.
abbrev pub held : Actor → List Record
held a = lanes a ++ active_list a.active

abbrev pub FencedActor : Actor → Type 0
FencedActor a = FenceOf (held a) a

pub FenceOf-list : {xs ys : List Record} (a : Actor) → xs ≡ ys → FenceOf xs a → FenceOf ys a
FenceOf-list a p h = subst (λ l. FenceOf l a) p h

-- The lanes, the active record and the fences decide.
pub FencedActor-transfer :
    (a b : Actor)
    → b.user_queue ≡ a.user_queue
    → b.non_user_queue ≡ a.non_user_queue
    → b.active ≡ a.active
    → b.in_flight ≡ a.in_flight
    → b.settled ≡ a.settled
    → b.session_id ≡ a.session_id
    → b.fence_capacity ≡ a.fence_capacity
    → FencedActor a
    → FencedActor b
FencedActor-transfer a b u n act i s d c h =
    FenceOf-list {xs = held a} {ys = held b} b (cc (u, n, act)) (FenceOf-transfer a b i s d c h)

-- After a rejection the active record alone is in flight.
pub reject-FencedActor :
    (reason : String) (a : Actor) → FencedActor a → FencedActor (reject_queued reason a)
reject-FencedActor reason a h =
    let (u, n) = reject_queued_empties reason a in
    let k = (reject_queued-Kept reason a).active in
    FenceOf-list {xs = active_list a.active} {ys = held (reject_queued reason a)} _ (simp (u, n, k))
      (reject_queued-FenceOf reason (active_list a.active) a
        (FenceOf-list a (append_assoc a.user_queue a.non_user_queue (active_list a.active)) h))

pub activate-FencedActor :
    (r : Record) (a : Actor) → FenceOf (r ∷ lanes a) a → FencedActor (activate r a)
unfolding activate
activate-FencedActor r a h =
    FenceOf-transfer a (activate r a) refl refl refl refl (FenceOf-last [] (lanes a) r a h)

pub begin_next-FencedActor :
    (a : Actor) → a.active ≡ none → FencedActor a → FencedActor (begin_next a)
begin_next-FencedActor a e h = begin_next_cases FencedActor a h λ r us ns q.
    activate-FencedActor r (record a { user_queue = us; non_user_queue = ns })
      (FenceOf-transfer a (record a { user_queue = us; non_user_queue = ns }) refl refl refl refl
        (FenceOf-list {xs = held a} {ys = r ∷ (us ++ ns)} a (order r us ns q) h))
  where
    order :
        (r : Record) (us ns : List Record)
        → pop_next a.user_queue a.non_user_queue ≡ some (r, us, ns)
        → held a ≡ r ∷ (us ++ ns)
    order r us ns q = elim (pop_next-some _ _ us ns r q) [
      | inl (p, p') ↦ cc (e, append-nil (lanes a), p, p')
      | inr (p, p', p'') ↦ cc (e, append-nil (lanes a), p, p', p'')
    ]

pub loop_head-FencedActor :
    (a : Actor) → a.active ≡ none → FencedActor a → FencedActor (loop_head a)
unfolding rest
loop_head-FencedActor a e h =
    loop_head_cases FencedActor a
      (FencedActor-transfer (reject_queued "actor_poisoned" a) _ refl refl refl refl refl refl refl
        (reject-FencedActor "actor_poisoned" a h))
      (rest-FencedActor a h) (λ _ _. rest-FencedActor _ (reject-FencedActor "actor_shutdown" a h))
      (λ _ _ _. begin_next-FencedActor a e h)
  where
    rest-FencedActor : (b : Actor) → FencedActor b → FencedActor (rest b)
    rest-FencedActor b k =
        if-cases FencedActor (is_stopping b.state) _ _
          (λ _.
            FencedActor-transfer b (record b { wake = false; worker = done }) refl refl refl refl
              refl refl refl k)
          (λ _.
            FencedActor-transfer b (record b { wake = false; worker = asleep }) refl refl refl refl
              refl refl refl k)

fail_closed-FencedActor :
    (reason : String) (a : Actor) → FencedActor a → FencedActor (fail_closed reason a)
unfolding fail_closed poison
fail_closed-FencedActor reason a h =
    let b = poison reason a in
    FencedActor-transfer (reject_queued "actor_poisoned" b) _ refl refl refl refl refl refl refl (
      reject-FencedActor "actor_poisoned" b (
        FencedActor-transfer a b (ground arith) (ground arith) (ground arith) (ground arith)
          (ground arith) (ground arith) (ground arith) h))

-- The active record is settled, and none is active.
pub after_episode-FencedActor :
    (r : Record) (e : Execution) (a : Actor)
    → a.active ≡ some r
    → FencedActor a
    → FencedActor (after_episode r e a)
unfolding after_episode
after_episode-FencedActor r e a q h =
    let b = record a { active = none } in
    settle-FenceOf (lanes a) [] r e.status e.result e.reason_code b (
      FenceOf-transfer a b refl refl refl refl
        (FenceOf-list {xs = held a} {ys = lanes a ++ r ∷ []} a (cc q) h))

-- A new session starts only when nothing is in flight.
pub maybe_rotate_session-FencedActor :
    (fresh : String) (a : Actor) → FencedActor a → FencedActor (maybe_rotate_session fresh a)
unfolding maybe_rotate_session Dict.get
maybe_rotate_session-FencedActor fresh a h =
    if-cases FencedActor _ a (record a { session_id = fresh; settled = [] }) (λ _. h)
      λ idle.
        let u = length-eq-zero a.user_queue (ground arith) in
        let n = length-eq-zero a.non_user_queue (ground arith) in
        let act : a.active ≡ none = ground arith in
        let nothing : held a ≡ [] = cc (u, n, act) in
        let old = FenceOf-list {xs = held a} {ys = []} a nothing h in
        FenceOf-list {xs = []} {ys = held a} (record a { session_id = fresh; settled = [] })
          (sym nothing)
          (record {
            distinct = old.distinct;
            fenced = old.fenced;
            disjoint = λ k r e. refl;
            settled_session = λ k s e. cc;
            sessions = tt;
            within = omega (arith, ap (length {A = Key × Record}) old.fenced);
          })

-- An episode whose settlement is accepted keeps the fences.
pub finish-FencedActor :
    (fresh : String) (r : Record) (e : Execution) (a : Actor)
    → a.active ≡ some r
    → reason_is_valid e.reason_code ≡ true
    → FencedActor a
    → FencedActor (finish fresh r e a)
unfolding after_episode maybe_rotate_session
finish-FencedActor fresh r e a q valid h =
    let settled = after_episode-FencedActor r e a q h in
    finish_cases FencedActor a fresh r e
      (λ _. fail_closed-FencedActor "uncontainable_settlement" _ settled)
      (λ _. loop_head-FencedActor _ (idle fresh) (maybe_rotate_session-FencedActor fresh _ settled))
      (λ invalid. cc)
  where
    idle : (f : String) → (maybe_rotate_session f (after_episode r e a)).active ≡ none
    idle f = ground arith
