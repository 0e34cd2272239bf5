-- ===== src/SemanticActor/Admission/Cases.antt =====
-- The ways in which `admit` can go, as a rule for proofs.
use lilavel_runtime.Prelude.{
  ◌+◌, ◌<◌, ◌≡◌, String, true, not, none, some, ◌==◌, length, arith, leb, String_Eq, Pair_Eq, inl,
  inr, if-cases, Option-cases,
}
use lilavel_runtime.Prelude.Dict
use lilavel_runtime.SemanticActor.Types.{
  SemanticEpisodeRequest, SemanticSettlement, AdmitResult, mailbox_full, Record,
}
use lilavel_runtime.SemanticActor.State.{Actor, queued_count, key_of}
use lilavel_runtime.SemanticActor.Admission.{
  rejected_admission, duplicate_in_flight, duplicate_settled, accept, is_running, is_poisoned,
  admit_new, admit,
}

-- All that `admit` has tested when it accepts.
pub record Admissible (r : SemanticEpisodeRequest) (a : Actor) : Type 0 where
  pub not_in_flight : Dict.get (key_of r) a.in_flight ≡ none
  pub not_settled : Dict.get (key_of r) a.settled ≡ none
  pub scope : r.scope_id ≡ a.scope_id
  pub session : r.actor_session_id ≡ a.session_id
  pub running : is_running a.state ≡ true
  pub fence_room : length a.settled + length a.in_flight < a.fence_capacity
  pub mailbox_room : queued_count a < a.mailbox_capacity

module _ {ℓ} (P : AdmitResult × Actor → Type ℓ) (r : SemanticEpisodeRequest) (a : Actor) where
  admit_new_cases :
      Dict.get (key_of r) a.in_flight ≡ none
      → Dict.get (key_of r) a.settled ≡ none
      → ((reason : String) → P (rejected_admission r reason a))
      → P (mailbox_full, a)
      → (Admissible r a → P (accept r a))
      → P (admit_new r a)
  unfolding admit_new
  admit_new_cases nf ns rejected full accepted =
      if-cases P (not (r.scope_id == a.scope_id)) _ _ (λ _. rejected _)
        λ scope.
          if-cases P (not (r.actor_session_id == a.session_id)) _ _ (λ _. rejected _)
            λ session.
              if-cases P (is_poisoned a.state) _ _ (λ _. rejected _)
                λ _.
                  if-cases P (not (is_running a.state)) _ _ (λ _. rejected _)
                    λ running.
                      if-cases P (leb a.fence_capacity (length a.settled + length a.in_flight)) _ _
                        (λ _. rejected _)
                        λ fence.
                          if-cases P (leb a.mailbox_capacity (queued_count a)) _ _ (λ _. full)
                            λ mailbox. accepted (record {
                              not_in_flight = nf;
                              not_settled = ns;
                              scope = ground (arith, String_Eq.same_iff r.scope_id a.scope_id);
                              session =
                                  ground
                                    (arith, String_Eq.same_iff r.actor_session_id a.session_id);
                              running = ground arith;
                              fence_room = ground arith;
                              mailbox_room = ground arith;
                            })

  pub admit_cases :
      ((x : Record) → Dict.get (key_of r) a.in_flight ≡ some x → P (duplicate_in_flight r x a))
      → ((s : SemanticSettlement)
          → Dict.get (key_of r) a.in_flight ≡ none
          → Dict.get (key_of r) a.settled ≡ some s
          → P (duplicate_settled r s a))
      → ((reason : String) → P (rejected_admission r reason a))
      → P (mailbox_full, a)
      → (Admissible r a → P (accept r a))
      → P (admit r a)
  unfolding admit
  admit_cases flying settled rejected full accepted =
      elim (Option-cases (Dict.get (key_of r) a.in_flight)) [
        | inr (x, e) ↦ rw (e, admit) (flying x e)
        | inl e ↦ elim (Option-cases (Dict.get (key_of r) a.settled)) [
          | inr (s, e') ↦ rw (e, e', admit) (settled s e e')
          | inl e' ↦ rw (e, e', admit) (admit_new_cases e e' rejected full accepted)
        ]
      ]
