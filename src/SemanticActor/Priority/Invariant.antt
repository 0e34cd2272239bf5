-- ===== src/SemanticActor/Priority/Invariant.antt =====
-- The lanes hold what their names say, episodes are numbered, and queued user work has asked the
-- non-user episode under way to stop. How the methods keep that.
use mathlib.Core.Path.{subst}
use lilavel_runtime.Prelude.{
  ℕ, ◌≤◌, ◌≡◌, ◌≢◌, refl, sym, ◌∙◌, String, Bool, true, false, none, some, [], ◌∷◌, arith, All, inl,
  inr,
}
use lilavel_runtime.SemanticActor.Types.{Execution, Record, Cell, is_user}
use lilavel_runtime.SemanticActor.State.{Actor, reject_queued, maybe_rotate_session, poison}
use lilavel_runtime.SemanticActor.Worker.{
  activate, begin_next, rest, loop_head, fail_closed, after_episode, unsettled, finish,
}
use lilavel_runtime.SemanticActor.Worker.Cases.{
  pop_next-some, begin_next_cases, loop_head_cases, finish_cases,
}
use lilavel_runtime.SemanticActor.Frame.{reject_queued-Kept, reject_queued_empties}

-- A record of a lane, under a bound on the sequences given out.
abbrev pub InLane : Bool → ℕ → Record → Type 0
InLane user n r = (is_user r.request.priority ≡ user) × (r.episode.sequence ≤ n)

pub record Lanes (a : Actor) : Type 0 where
  pub users : All (InLane true a.next_episode_sequence) a.user_queue
  pub others : All (InLane false a.next_episode_sequence) a.non_user_queue

abbrev pub Asked : Cell → Type 0
Asked c = (c.cancellation_requested ≡ true) × (c.token_requested ≡ true)

abbrev pub AskedToStop : Actor → Record → Type 0
AskedToStop a r = Asked (a.cells r.episode.sequence)

pub record Preempting (a : Actor) : Type 0 where
  pub lanes : Lanes a
  pub numbered : (r : Record) → a.active ≡ some r → r.episode.sequence ≤ a.next_episode_sequence
  pub preempted :
      (r : Record)
      → a.active ≡ some r
      → is_user r.request.priority ≡ false
      → a.user_queue ≢ []
      → AskedToStop a r

pub idle-Preempting : (a : Actor) → a.active ≡ none → Lanes a → Preempting a
idle-Preempting a e l = record { lanes = l; numbered = λ r q. cc; preempted = λ r q. cc }

pub reject-Preempting :
    (reason : String) (a : Actor)
    → ((r : Record) → a.active ≡ some r → r.episode.sequence ≤ a.next_episode_sequence)
    → Preempting (reject_queued reason a)
reject-Preempting reason a numbered =
    let (u, n) = reject_queued_empties reason a in
    let k = reject_queued-Kept reason a in
    record {
      lanes = record { users = simp u tt; others = simp n tt };
      numbered = λ r q. simp (k.next_episode_sequence) (numbered r (sym k.active ∙ q));
      preempted = λ r q o h. absurd (h u);
    }

pub same :
    (a b : Actor)
    → b.user_queue ≡ a.user_queue
    → b.non_user_queue ≡ a.non_user_queue
    → b.active ≡ a.active
    → b.cells ≡ a.cells
    → b.next_episode_sequence ≡ a.next_episode_sequence
    → Preempting a
    → Preempting b
same a b u n act c s h = record {
  lanes = record { users = simp (u, s) h.lanes.users; others = simp (n, s) h.lanes.others };
  numbered = λ r q. simp s (h.numbered r (sym act ∙ q));
  preempted = λ r q o k.
      subst (λ f. Asked (f r.episode.sequence)) (sym c)
        (h.preempted r (sym act ∙ q) o (λ z. k (u ∙ z)));
}

-- The user lane goes first: a non-user record becomes active only when no user record waits.
begin_next-Preempting : (a : Actor) → a.active ≡ none → Lanes a → Preempting (begin_next a)
unfolding activate
begin_next-Preempting a e l = begin_next_cases Preempting a (idle-Preempting a e l) λ r us ns q.
    elim (pop_next-some _ _ us ns r q) [
      | inl (p, p') ↦
          let users : All User (r ∷ us) = subst (All User) p l.users in
          record {
            lanes = record { users = users.1; others = subst (All Other) p' l.others };
            numbered = λ x k. ground (arith, users.0.1);
            preempted = λ x k o h. cc (users.0.0);
          }
      | inr (p, p', p'') ↦
          let others : All Other (r ∷ ns) = subst (All Other) p'' l.others in
          record {
            lanes = record { users = subst (All User) (sym p') tt; others = others.1 };
            numbered = λ x k. ground (arith, others.0.1);
            preempted = λ x k o h. absurd (h p');
          }
    ]
  where
    User : Record → Type 0
    User = InLane true a.next_episode_sequence

    Other : Record → Type 0
    Other = InLane false a.next_episode_sequence

pub loop_head-Preempting : (a : Actor) → a.active ≡ none → Lanes a → Preempting (loop_head a)
unfolding rest
loop_head-Preempting a e l =
    loop_head_cases Preempting a (same _ _ refl refl refl refl refl (rejected "actor_poisoned"))
      (rested a (idle-Preempting a e l)) (λ _ _. rested _ (rejected "actor_shutdown"))
      (λ _ _ _. begin_next-Preempting a e l)
  where
    rejected : (reason : String) → Preempting (reject_queued reason a)
    rejected reason = reject-Preempting reason a (λ r q. cc)

    rested : (b : Actor) → Preempting b → Preempting (rest b)
    rested b h =
        same b (rest b) (ground arith) (ground arith) (ground arith) (ground arith) (ground arith) h

-- The end of an episode, however it ends.
pub finish-Preempting :
    (fresh : String) (r : Record) (e : Execution) (a : Actor)
    → Lanes a
    → Preempting (finish fresh r e a)
unfolding fail_closed poison after_episode unsettled maybe_rotate_session
finish-Preempting fresh r e a l =
    finish_cases Preempting a fresh r e
      (λ _. closed "uncontainable_settlement" (after_episode r e a) refl)
      (λ _.
        loop_head-Preempting _ (ground arith)
          (record { users = ground (arith, l.users); others = ground (arith, l.others) }))
      (λ _. closed "actor_failed" (unsettled r e a) refl)
  where
    closed : (reason : String) (b : Actor) → b.active ≡ none → Preempting (fail_closed reason b)
    closed reason b q =
        same (reject_queued "actor_poisoned" (poison reason b)) _ refl refl refl refl refl
          (reject-Preempting "actor_poisoned" (poison reason b) (λ x k. ground arith))
