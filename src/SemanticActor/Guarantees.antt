-- ===== src/SemanticActor/Guarantees.antt =====
-- What the actor promises, over every sequence of events from its construction.
use mathlib.Core.Path.{subst}
use lilavel_runtime.Prelude.{
  ℕ, ◌+◌, ◌≤◌, ◌≡◌, ◌≢◌, ◌∙◌, ◌⊎◌, inl, inr, String, true, false, none, some, List, [], ◌∷◌, ◌++◌,
  arith, length, length-append, All, All-imp,
}
use lilavel_runtime.SemanticActor.Types.{SemanticActorState, SemanticActorFailure, Record, is_user}
use lilavel_runtime.SemanticActor.State.{Actor, init, queued_count, active_count}
use lilavel_runtime.SemanticActor.Worker.{loop_head, begin_next, pop_next, activate}
use lilavel_runtime.SemanticActor.Machine.{Reach, here, next}
use lilavel_runtime.SemanticActor.Fenced.{Fenced, length-Fenced}
use lilavel_runtime.SemanticActor.Lifecycle.Invariant.{Lifecycle, init-Lifecycle}
use lilavel_runtime.SemanticActor.Lifecycle.Steps.{step-Lifecycle}
use lilavel_runtime.SemanticActor.Lifecycle.Failure.{step-failure}
use lilavel_runtime.SemanticActor.Fence.Worker.{held, FencedActor, active_list, lanes}
use lilavel_runtime.SemanticActor.Fence.Steps.{
  ActorFailed, FencedUnlessFailed, Reach-FencedUnlessFailed, init-FencedActor,
}
use lilavel_runtime.SemanticActor.Priority.Invariant.{AskedToStop}
use lilavel_runtime.SemanticActor.Priority.Steps.{Reach-Preempting, init-Preempting}

length-held : (a : Actor) → length (held a) ≡ queued_count a + active_count a
length-held a = ground (
  arith,
  length-append (lanes a) (active_list a.active),
  length-append a.user_queue a.non_user_queue,
)

reached :
    (scope session : String) (m f e : ℕ) {a : Actor}
    → Reach (init scope session m f e) a
    → Lifecycle a × FencedUnlessFailed a
reached scope session m f e r =
    Reach-FencedUnlessFailed r (init-Lifecycle scope session m f e)
      (inr (init-FencedActor scope session m f e))

nothing_in_flight : (a : Actor) → held a ≡ [] → FencedActor a → a.in_flight ≡ []
nothing_in_flight a nothing h =
    let none_fenced : Fenced [] a.in_flight = subst (λ l. Fenced l a.in_flight) nothing h.fenced in
    none_fenced

-- After any events from construction, unless the actor has failed with "actor_failed", the
-- records in flight are as many as those queued and active, and settled plus in-flight requests
-- are within the fence capacity.
pub in_flight_accounted :
    (scope session : String) (m f e : ℕ) {a : Actor}
    → Reach (init scope session m f e) a
    → ActorFailed a
      ⊎ ((length a.in_flight ≡ queued_count a + active_count a)
          × (length a.settled + length a.in_flight ≤ a.fence_capacity))
in_flight_accounted scope session m f e {a} r = elim (reached scope session m f e r).1 [
  | inl failed ↦ inl failed
  | inr h ↦ inr (length-Fenced (held a) a.in_flight h.fenced ∙ length-held a, h.within)
]

stopped_facts :
    (a : Actor)
    → Lifecycle a
    → a.state ≡ SemanticActorState.stopped
    → (a.user_queue ≡ []) × (a.non_user_queue ≡ []) × (a.active ≡ none) × (a.failure ≡ none)
stopped_facts a l s = ground arith

-- When the actor is in STOPPED after any events from construction, no record is in flight, queued
-- or active, and it has no failure.
pub stopped_settles_all :
    (scope session : String) (m f e : ℕ) {a : Actor}
    → Reach (init scope session m f e) a
    → a.state ≡ SemanticActorState.stopped
    → (a.in_flight ≡ []) × (queued_count a ≡ 0) × (a.active ≡ none) × (a.failure ≡ none)
stopped_settles_all scope session m f e {a} r s =
    let (l, h) = reached scope session m f e r in
    let (u, n, act, fine) = stopped_facts a l s in
    elim h [
      | inl failed ↦ cc (failed, fine)
      | inr fenced ↦
          let nothing : held a ≡ [] = cc (u, n, act) in
          (nothing_in_flight a nothing fenced, simp (u, n), act, fine)
    ]

-- After any events from construction, when a user record waits and a non-user episode is active,
-- that episode has been asked to stop, its token included, and the user lane holds user records
-- alone.
pub user_work_preempts :
    (scope session : String) (m f e : ℕ) {a : Actor}
    → Reach (init scope session m f e) a
    → (r : Record) → a.active ≡ some r
    → is_user r.request.priority ≡ false
    → a.user_queue ≢ []
    → AskedToStop a r × All (λ x. is_user x.request.priority ≡ true) a.user_queue
user_work_preempts scope session m f e {a} h r q o k =
    let p =
      (Reach-Preempting h (init-Lifecycle scope session m f e)
        (init-Preempting scope session m f e)).1 in
    (p.preempted r q o k, All-imp _ _ a.user_queue (λ x y. y.0) p.lanes.users)

-- In a running actor the head of the loop activates the first record of the user lane followed by
-- the non-user lane, and the other records keep their order.
pub user_lane_first :
    (a : Actor) (r : Record) (rs : List Record)
    → a.state ≡ SemanticActorState.running
    → a.user_queue ++ a.non_user_queue ≡ r ∷ rs
    → ((loop_head a).active ≡ some r)
      × ((loop_head a).user_queue ++ (loop_head a).non_user_queue ≡ rs)
unfolding loop_head begin_next pop_next activate
user_lane_first a r rs s e = ground arith

pub failure_stays :
    {a b : Actor} (f : SemanticActorFailure)
    → Reach a b
    → Lifecycle a
    → a.failure ≡ some f
    → Lifecycle b × (b.failure ≡ some f)
failure_stays f here l h = (l, h)
failure_stays f (next e r s) l h =
    let (l', h') = failure_stays f r l h in
    (step-Lifecycle e _ _ l' s, step-failure f _ h' e _ l' s)
