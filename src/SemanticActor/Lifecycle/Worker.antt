-- ===== src/SemanticActor/Lifecycle/Worker.antt =====
-- The worker's moves keep the lifecycle invariant.
use lilavel_runtime.Prelude.{◌≡◌, ◌≢◌, String, true, false, arith}
use lilavel_runtime.SemanticActor.Types.{Execution, Record}
use lilavel_runtime.SemanticActor.State.{
  Actor, executing, poison, maybe_rotate_session, queued_count,
}
use lilavel_runtime.SemanticActor.Admission.{is_running}
use lilavel_runtime.SemanticActor.Worker.{
  loop_head, begin_next, finish, fail_closed, after_episode, unsettled, begin_grace,
  begin_cancelled_join, note_uncontained, JoinOutcome,
}
use lilavel_runtime.SemanticActor.Frame.{reject_queued-Kept, reject_queued_empties}
use lilavel_runtime.SemanticActor.Lifecycle.Invariant.{is_at_rest, Lifecycle, AtHead}

pub begin_next-Lifecycle :
    (a : Actor)
    → AtHead a
    → is_running a.state ≡ true
    → queued_count a ≢ 0
    → Lifecycle (begin_next a)
unfolding begin_next
begin_next-Lifecycle a h s q = ground arith

pub loop_head-Lifecycle : (a : Actor) → AtHead a → Lifecycle (loop_head a)
unfolding loop_head
loop_head-Lifecycle a h = ground (
  arith,
  reject_queued-Kept "actor_poisoned" a,
  reject_queued-Kept "actor_shutdown" a,
  reject_queued_empties "actor_poisoned" a,
  reject_queued_empties "actor_shutdown" a,
  begin_next-Lifecycle a h,
)

pub fail_closed-Lifecycle :
    (reason : String) (a : Actor) → AtHead a → Lifecycle (fail_closed reason a)
unfolding fail_closed
fail_closed-Lifecycle reason a h = ground (
  arith,
  reject_queued-Kept "actor_poisoned" (poison reason a),
  reject_queued_empties "actor_poisoned" (poison reason a),
)

pub after_episode-AtHead :
    (r : Record) (e : Execution) (a : Actor)
    → Lifecycle a
    → is_at_rest a.worker ≡ false
    → AtHead (after_episode r e a)
unfolding after_episode
after_episode-AtHead r e a h w = ground arith

pub maybe_rotate_session-AtHead :
    (fresh : String) (a : Actor) → AtHead a → AtHead (maybe_rotate_session fresh a)
unfolding maybe_rotate_session
maybe_rotate_session-AtHead fresh a h = ground arith

pub unsettled-AtHead :
    (r : Record) (e : Execution) (a : Actor)
    → Lifecycle a
    → is_at_rest a.worker ≡ false
    → AtHead (unsettled r e a)
unfolding unsettled
unsettled-AtHead r e a h w = ground arith

-- The end of an episode puts the worker back at the head of the loop, or closes the actor.
pub finish-Lifecycle :
    (fresh : String) (r : Record) (e : Execution) (a : Actor)
    → Lifecycle a
    → is_at_rest a.worker ≡ false
    → Lifecycle (finish fresh r e a)
unfolding finish
finish-Lifecycle fresh r e a h w =
    let settled = after_episode-AtHead r e a h w in
    ground (
      arith,
      fail_closed-Lifecycle "uncontainable_settlement" _ settled,
      loop_head-Lifecycle _ (maybe_rotate_session-AtHead fresh _ settled),
      fail_closed-Lifecycle "actor_failed" _ (unsettled-AtHead r e a h w),
    )

pub note_uncontained-Lifecycle :
    (o : JoinOutcome) (r : Record) (a : Actor)
    → Lifecycle a
    → is_at_rest a.worker ≡ false
    → Lifecycle (note_uncontained o r a) × (is_at_rest (note_uncontained o r a).worker ≡ false)
unfolding note_uncontained
note_uncontained-Lifecycle o r a h w = ground arith

pub begin_grace-Lifecycle :
    (r : Record) (a : Actor) → Lifecycle a → a.worker ≡ executing r → Lifecycle (begin_grace r a)
unfolding begin_grace
begin_grace-Lifecycle r a h w = ground arith

pub begin_cancelled_join-Lifecycle :
    (r : Record) (a : Actor)
    → Lifecycle a
    → a.worker ≡ executing r
    → Lifecycle (begin_cancelled_join r a)
unfolding begin_cancelled_join
begin_cancelled_join-Lifecycle r a h w = ground arith
