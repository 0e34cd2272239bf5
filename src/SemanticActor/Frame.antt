-- ===== src/SemanticActor/Frame.antt =====
-- What rejecting the queued records leaves alone.
use lilavel_runtime.Prelude.{◌≡◌, refl, String, List, [], ◌∷◌, arith}
use lilavel_runtime.SemanticActor.Types.{Record}
use lilavel_runtime.SemanticActor.State.{Actor, settle, reject, settle_all, reject_queued}

pub record Kept (a b : Actor) : Type 0 where
  pub scope_id : b.scope_id ≡ a.scope_id
  pub mailbox_capacity : b.mailbox_capacity ≡ a.mailbox_capacity
  pub fence_capacity : b.fence_capacity ≡ a.fence_capacity
  pub evidence_capacity : b.evidence_capacity ≡ a.evidence_capacity
  pub session_id : b.session_id ≡ a.session_id
  pub state : b.state ≡ a.state
  pub active : b.active ≡ a.active
  pub worker : b.worker ≡ a.worker
  pub wake : b.wake ≡ a.wake
  pub failure : b.failure ≡ a.failure
  pub failure_event : b.failure_event ≡ a.failure_event
  pub uncontained : b.uncontained ≡ a.uncontained
  pub max_active : b.max_active ≡ a.max_active
  pub next_request_sequence : b.next_request_sequence ≡ a.next_request_sequence
  pub next_episode_sequence : b.next_episode_sequence ≡ a.next_episode_sequence

-- The lanes too, but for the records that the loop was given.
pub settle_all-Kept :
    (reason : String) (rs : List Record) (a : Actor) → Kept a (settle_all reason rs a)
unfolding settle_all settle
settle_all-Kept reason [] a = ground arith
settle_all-Kept reason (r ∷ rs) a = ground (arith, settle_all-Kept reason rs (reject reason r a))

pub settle_all_lanes :
    (reason : String) (rs : List Record) (a : Actor)
    → ((settle_all reason rs a).user_queue ≡ a.user_queue)
      × ((settle_all reason rs a).non_user_queue ≡ a.non_user_queue)
unfolding settle_all settle
settle_all_lanes reason [] a = (refl, refl)
settle_all_lanes reason (r ∷ rs) a = settle_all_lanes reason rs (reject reason r a)

pub reject_queued-Kept : (reason : String) (a : Actor) → Kept a (reject_queued reason a)
unfolding reject_queued
reject_queued-Kept reason a =
    let b = settle_all reason a.user_queue (record a { user_queue = [] }) in
    ground (
      arith,
      settle_all-Kept reason a.user_queue (record a { user_queue = [] }),
      settle_all-Kept reason a.non_user_queue (record b { non_user_queue = [] }),
    )

-- Both lanes are empty afterwards.
pub reject_queued_empties :
    (reason : String) (a : Actor)
    → ((reject_queued reason a).user_queue ≡ []) × ((reject_queued reason a).non_user_queue ≡ [])
unfolding reject_queued
reject_queued_empties reason a =
    let b = settle_all reason a.user_queue (record a { user_queue = [] }) in
    ground (
      arith,
      settle_all_lanes reason a.user_queue (record a { user_queue = [] }),
      settle_all_lanes reason a.non_user_queue (record b { non_user_queue = [] }),
    )
