-- ===== src/SemanticActor/Worker/Cases.antt =====
-- What the head of the loop does, as rules for proofs.
use lilavel_runtime.Prelude.{
  ◌≡◌, ◌≢◌, refl, String, true, false, some, List, [], ◌∷◌, arith, inl, inr, ◌⊎◌, eqb, Option-cases,
  if-cases,
}
use lilavel_runtime.SemanticActor.Types.{Execution, Record, reason_is_valid}
use lilavel_runtime.SemanticActor.State.{
  Actor, done, queued_count, reject_queued, maybe_rotate_session,
}
use lilavel_runtime.SemanticActor.Admission.{is_poisoned}
use lilavel_runtime.SemanticActor.Worker.{
  is_stopping, pop_next, activate, begin_next, rest, loop_head, fail_closed, after_episode,
  unsettled, finish,
}

-- The user lane goes first, and each lane in its order.
pub pop_next-some :
    (us ns us' ns' : List Record) (r : Record)
    → pop_next us ns ≡ some (r, us', ns')
    → ((us ≡ r ∷ us') × (ns ≡ ns')) ⊎ ((us ≡ []) × (us' ≡ []) × (ns ≡ r ∷ ns'))
unfolding pop_next
pop_next-some [] [] us' ns' r h = cc
pop_next-some [] (x ∷ ns) us' ns' r h = inr (refl, ground arith, ground arith)
pop_next-some (x ∷ us) ns us' ns' r h = inl (ground arith, ground arith)

module _ {ℓ} (P : Actor → Type ℓ) (a : Actor) where
  pub begin_next_cases :
      P a
      → ((r : Record) (us ns : List Record)
          → pop_next a.user_queue a.non_user_queue ≡ some (r, us, ns)
          → P (activate r (record a { user_queue = us; non_user_queue = ns })))
      → P (begin_next a)
  unfolding begin_next
  begin_next_cases empty taken = elim (Option-cases (pop_next a.user_queue a.non_user_queue)) [
    | inl e ↦ rw (e, begin_next) empty
    | inr ((r, us, ns), e) ↦ rw (e, begin_next) (taken r us ns e)
  ]

  pub loop_head_cases :
      (let b = reject_queued "actor_poisoned" a in P (record b { worker = done }))
      → P (rest a)
      → (is_poisoned a.state ≡ false
          → is_stopping a.state ≡ true
          → P (rest (reject_queued "actor_shutdown" a)))
      → (is_poisoned a.state ≡ false
          → is_stopping a.state ≡ false
          → queued_count a ≢ 0
          → P (begin_next a))
      → P (loop_head a)
  unfolding loop_head
  loop_head_cases poisoned resting stopping working =
      if-cases P (is_poisoned a.state) _ _ (λ _. poisoned)
        λ sound.
          if-cases P (eqb (queued_count a) 0) _ _ (λ _. resting)
            λ some_work.
              if-cases P (is_stopping a.state) _ _ (stopping sound)
                λ going. working sound going (ground arith)

  pub finish_cases :
      (fresh : String) (r : Record) (e : Execution)
      → (reason_is_valid e.reason_code ≡ true
          → P (fail_closed "uncontainable_settlement" (after_episode r e a)))
      → (reason_is_valid e.reason_code ≡ true
          → P (loop_head (maybe_rotate_session fresh (after_episode r e a))))
      → (reason_is_valid e.reason_code ≡ false → P (fail_closed "actor_failed" (unsettled r e a)))
      → P (finish fresh r e a)
  unfolding finish
  finish_cases fresh r e closed on raised =
      if-cases P (reason_is_valid e.reason_code) _ _
        (λ valid. if-cases P e.uncontained _ _ (λ _. closed valid) (λ _. on valid)) raised
