-- ===== src/SemanticActor/Silenced.antt =====
-- A request for cancellation is honoured through the moves of the worker.
use lilavel_runtime.Prelude.{
  ◌⊎◌, ◌≢◌, ap, ℕ, ◌≤◌, inl, inr, String, true, false, ◌||◌, none, some, ltb, is_some, length,
  if-cases, Option-cases,
}
use lilavel_runtime.SemanticActor.Types.{Cell, SemanticEpisodeStatus, Execution, Record}
use lilavel_runtime.SemanticActor.State.{
  request_cancellation, settle, Actor, reject_queued, maybe_rotate_session, queued_count, poison,
  shutdown_failure,
}
use lilavel_runtime.SemanticActor.Worker.{
  begin_return, JoinOutcome, joined, join_timed_out, join_uncontained, note_uncontained, activate,
  rest, is_stopping, loop_head, fail_closed, after_episode, unsettled, finish, begin_grace,
  begin_cancelled_join,
}
use lilavel_runtime.SemanticActor.Worker.Cases.{begin_next_cases, loop_head_cases, finish_cases}
use lilavel_runtime.SemanticActor.Machine.{abandon}
use lilavel_runtime.SemanticActor.Machine.Cases.{HonoursRequest}
use lilavel_runtime.SemanticActor.Cancelled.{
  Quiet, Silenced, set_cell-Silenced, settle-Silenced, reject_queued-Silenced,
  request_cancellation-Silenced,
}

-- The worker does something else than return from `_execute`.
pub idly :
    (n : ℕ) (a : Actor)
    → Silenced n a
    → (n ≤ a.next_episode_sequence) × Quiet (a.cells n) × Unit {0}
idly n a h = (h.0, h.1, tt)

activate-Silenced : (n : ℕ) (r : Record) (a : Actor) → Silenced n a → Silenced n (activate r a)
unfolding activate
activate-Silenced n r a h =
    let m = r.episode.sequence in
    let c : Cell = record (a.cells m) { status = SemanticEpisodeStatus.active } in
    let k = set_cell-Silenced n m c a (λ _ q. q) h in (k.0, k.1, tt)

rest-Silenced : (n : ℕ) (a : Actor) → Silenced n a → Silenced n (rest a)
unfolding rest
rest-Silenced n a h =
    if-cases (Silenced n) (is_stopping a.state) _ _ (λ _. idly n a h) (λ _. idly n a h)

pub loop_head-Silenced : (n : ℕ) (a : Actor) → Silenced n a → Silenced n (loop_head a)
loop_head-Silenced n a h =
    loop_head_cases (Silenced n) a
      (idly n (reject_queued "actor_poisoned" a) (reject_queued-Silenced n "actor_poisoned" a h))
      (rest-Silenced n a h)
      (λ _ _. rest-Silenced n _ (reject_queued-Silenced n "actor_shutdown" a h))
      (λ _ _ _. begin_next_cases (Silenced n) a h (λ r us ns _. activate-Silenced n r _ h))

poison-Silenced :
    (n : ℕ) (reason : String) (a : Actor) → Silenced n a → Silenced n (poison reason a)
unfolding poison
poison-Silenced n reason a h = elim (Option-cases a.failure) [
  | inl sound ↦ rw (sound, poison) h
  | inr (f, failed) ↦ rw (failed, poison) h
]

pub shutdown_failure-Silenced :
    (n : ℕ) (reason : String) (a : Actor) → Silenced n a → Silenced n (shutdown_failure reason a)
unfolding shutdown_failure
shutdown_failure-Silenced n reason a h = elim (Option-cases a.failure) [
  | inl sound ↦ rw (sound, shutdown_failure) h
  | inr (f, failed) ↦ rw (failed, shutdown_failure) h
]

fail_closed-Silenced :
    (n : ℕ) (reason : String) (a : Actor) → Silenced n a → Silenced n (fail_closed reason a)
unfolding fail_closed
fail_closed-Silenced n reason a h =
    idly n (reject_queued "actor_poisoned" (poison reason a))
      (reject_queued-Silenced n "actor_poisoned" (poison reason a) (poison-Silenced n reason a h))

maybe_rotate_session-Silenced :
    (n : ℕ) (fresh : String) (a : Actor) → Silenced n a → Silenced n (maybe_rotate_session fresh a)
unfolding maybe_rotate_session
maybe_rotate_session-Silenced n fresh a h =
    if-cases (Silenced n)
      (ltb (length a.settled) a.fence_capacity || is_some a.active || ltb 0 (queued_count a)) _ _
      (λ _. h) (λ _. h)

pub finish-Silenced :
    (n : ℕ) (fresh : String) (r : Record) (x : Execution) (a : Actor)
    → (r.episode.sequence ≢ n) ⊎ (x.status ≢ SemanticEpisodeStatus.completed)
    → Silenced n a
    → Silenced n (finish fresh r x a)
unfolding after_episode unsettled
finish-Silenced n fresh r x a honours h =
    let settled =
      settle-Silenced n r x.status x.result x.reason_code (record a { active = none }) honours h in
    finish_cases (Silenced n) a fresh r x (λ _. fail_closed-Silenced n _ _ settled)
      (λ _. loop_head-Silenced n _ (maybe_rotate_session-Silenced n fresh _ settled))
      (λ _. fail_closed-Silenced n _ _ (set_cell-Silenced n r.episode.sequence _ a (λ _ q. q) h))

pub begin_return-Silenced :
    (n : ℕ) (r : Record) (x : Execution) (a : Actor)
    → HonoursRequest r x a
    → Silenced n a
    → Silenced n (begin_return r x a)
unfolding begin_return
begin_return-Silenced n r x a (inr other) h = (h.0, h.1, inr other)
begin_return-Silenced n r x a (inl free) h = (
  h.0,
  h.1,
  inl (λ same.
      let asked = h.1.0 in cc (ap (λ k. (a.cells k).cancellation_requested) same, free, asked)),
)

pub joins-Silenced :
    (n : ℕ) (r : Record) (o : JoinOutcome) (x : Execution) (a : Actor)
    → HonoursRequest r x a
    → Silenced n a
    → Silenced n (begin_return r x (note_uncontained o r a))
unfolding note_uncontained
joins-Silenced n r joined x a honours h = begin_return-Silenced n r x a honours h
joins-Silenced n r join_timed_out x a honours h =
    begin_return-Silenced n r x (note_uncontained join_timed_out r a) honours h
joins-Silenced n r join_uncontained x a honours h =
    begin_return-Silenced n r x (note_uncontained join_uncontained r a) honours h

pub abandon-Silenced : (n : ℕ) (r : Record) (a : Actor) → Silenced n a → Silenced n (abandon r a)
unfolding abandon
abandon-Silenced n r a h =
    let b = request_cancellation r false "worker_cancelled" (record a { active = none }) in
    let c = settle r SemanticEpisodeStatus.cancelled none (some "worker_cancelled") b in
    let asked =
      request_cancellation-Silenced n r false "worker_cancelled" (record a { active = none }) h in
    let settled =
      settle-Silenced n r SemanticEpisodeStatus.cancelled none (some "worker_cancelled") b
        (inr (λ e. cc)) asked in
    idly n (reject_queued "actor_shutdown" c) (reject_queued-Silenced n "actor_shutdown" c settled)

pub begin_grace-Silenced :
    (n : ℕ) (r : Record) (a : Actor) → Silenced n a → Silenced n (begin_grace r a)
unfolding begin_grace
begin_grace-Silenced n r a h =
    let m = r.episode.sequence in
    let c : Cell = record (a.cells m) { status = SemanticEpisodeStatus.cancellation_requested } in
    let k = set_cell-Silenced n m c a (λ _ q. q) h in (k.0, k.1, tt)

pub begin_cancelled_join-Silenced :
    (n : ℕ) (r : Record) (a : Actor) → Silenced n a → Silenced n (begin_cancelled_join r a)
unfolding begin_cancelled_join
begin_cancelled_join-Silenced n r a h =
    let m = r.episode.sequence in
    let c : Cell = record (a.cells m) { token_requested = true } in
    let k = set_cell-Silenced n m c a (λ _ q. q) h in (k.0, k.1, tt)
