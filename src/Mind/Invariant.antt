-- ===== src/Mind/Invariant.antt =====
-- What every operation of `MindState` keeps.
use lilavel_runtime.Prelude.{
  ℕ, ◌+◌, ◌≤◌, ◌<◌, ◌≡◌, String, Option, none, some, List, [], ◌∷◌, ◌++◌, arith, length,
  length-append, length-keep_last, keep_last, ◌&&◌, if_not-cases, String_Eq,
}
use lilavel_runtime.Prelude.Text.{is_bounded_text}
use lilavel_runtime.Mind.State.{
  MindIntention, MindStateDelta, MindState, SelfAction, mind_state, delta_is_valid, make_room,
  new_intention, DeltaResult, applied, version_conflict, capacity_exceeded, CreateResult,
  apply_deltas, created, full, create_intention, express, marked, not_active, mark_expressed,
  MarkResult, max_self_action_text_bytes,
}
use lilavel_runtime.Mind.Marking.{Expressed, express-Expressed}
use lilavel_runtime.Mind.Batches.{Outcome, batch_settles}
use lilavel_runtime.Mind.Room.{Room, make_room-Room}

-- The bounds of the state.
pub record WellFormed (s : MindState) : Type 0 where
  pub positive : 0 < s.self_actions_capacity
  pub intentions_fit : length s.intentions ≤ s.intentions_capacity
  pub self_actions_fit : length s.self_actions ≤ s.self_actions_capacity

-- The calls that change the state.
pub data Call : Type 0 where
  applies : (ℕ → String) → List MindStateDelta → ℕ → Call
  creates : String → MindStateDelta → Call
  marks : String → String → String → Call

abbrev pub after : Call → MindState → MindState
after (applies fresh ds v) s = (apply_deltas fresh ds v s).1
after (creates id d) s = (create_intention id d s).1
after (marks action_id id text) s = (mark_expressed action_id id text s).1

abbrev pub after_all : List Call → MindState → MindState
after_all [] s = s
after_all (c ∷ cs) s = after_all cs (after c s)

pub mind_state-WellFormed : (n m : ℕ) (s : MindState) → mind_state n m ≡ some s → WellFormed s
unfolding mind_state
mind_state-WellFormed n m s e = ground arith

Outcome-WellFormed :
    (n v : ℕ) (s : MindState) (r : DeltaResult × MindState)
    → WellFormed s
    → Outcome n v s r
    → WellFormed r.1
Outcome-WellFormed n v s (applied made, t) h o = ground arith
Outcome-WellFormed n v s (version_conflict, t) h o = ground arith
Outcome-WellFormed n v s (capacity_exceeded, t) h o = ground arith

apply_deltas-WellFormed :
    (fresh : ℕ → String) (ds : List MindStateDelta) (v : ℕ) (s : MindState)
    → WellFormed s
    → WellFormed (apply_deltas fresh ds v s).1
unfolding apply_deltas
apply_deltas-WellFormed fresh [] v s h = h
apply_deltas-WellFormed fresh (d ∷ ds) v s h =
    Outcome-WellFormed _ v s _ h (batch_settles fresh d ds v s h.intentions_fit)

create_intention-WellFormed :
    (id : String) (d : MindStateDelta) (s : MindState)
    → WellFormed s
    → WellFormed (create_intention id d s).1
unfolding create_intention
create_intention-WellFormed id d s h =
    if_not-cases (λ (r : CreateResult × MindState). WellFormed r.1) (delta_is_valid d) _ _ (λ _. h)
      (λ _.
        kept_fits (make_room s.intentions_capacity s.intentions)
          (make_room-Room s.intentions_capacity s.intentions h.intentions_fit))
  where
    kept_fits :
        (o : Option (List MindIntention))
        → Room s.intentions_capacity s.intentions o
        → WellFormed
            (elim o as (λ _. CreateResult × MindState) [
              | none ↦ (full, s)
              | some kept ↦ (
                created (new_intention id d),
                record s { intentions = kept ++ new_intention id d ∷ []; version = s.version + 1 },
              )
            ]).1
    kept_fits none r = h
    kept_fits (some kept) r = ground (arith, length-append kept (new_intention id d ∷ []))

Marked-WellFormed :
    (id text : String) (s : MindState) (o : Option (List MindIntention)) (action : SelfAction)
    → WellFormed s
    → Expressed id s.intentions o
    → WellFormed
        (elim o as (λ _. MarkResult × MindState) [
          | none ↦ (not_active, s)
          | some intentions ↦ (
            marked action,
            record s {
              intentions = intentions;
              self_actions = keep_last s.self_actions_capacity (s.self_actions ++ action ∷ []);
              version = s.version + 1;
            },
          )
        ]).1
Marked-WellFormed id text s none action h e = h
Marked-WellFormed id text s (some done) action h e =
    let n = length-keep_last s.self_actions_capacity (s.self_actions ++ action ∷ []) in
    record { positive = h.positive; intentions_fit = ground arith; self_actions_fit = ground arith }

mark_expressed-WellFormed :
    (action_id id text : String) (s : MindState)
    → WellFormed s
    → WellFormed (mark_expressed action_id id text s).1
unfolding mark_expressed
mark_expressed-WellFormed action_id id text s h =
    if_not-cases (λ (r : MarkResult × MindState). WellFormed r.1)
      (is_bounded_text 128 id && is_bounded_text max_self_action_text_bytes text) _ _ (λ _. h)
      (λ _.
        Marked-WellFormed id text s (express id s.intentions) _ h
          (express-Expressed id s.intentions))

after-WellFormed : (c : Call) (s : MindState) → WellFormed s → WellFormed (after c s)
after-WellFormed (applies fresh ds v) s h = apply_deltas-WellFormed fresh ds v s h
after-WellFormed (creates id d) s h = create_intention-WellFormed id d s h
after-WellFormed (marks action_id id text) s h = mark_expressed-WellFormed action_id id text s h

after_all-WellFormed : (cs : List Call) (s : MindState) → WellFormed s → WellFormed (after_all cs s)
after_all-WellFormed [] s h = h
after_all-WellFormed (c ∷ cs) s h = after_all-WellFormed cs (after c s) (after-WellFormed c s h)

-- After any calls on a new mind state, the intentions and the remembered actions are within the
-- state's capacities.
pub mind_stays_bounded :
    (n m : ℕ) (s : MindState) (cs : List Call)
    → mind_state n m ≡ some s
    → let t = after_all cs s in
      (length t.intentions ≤ t.intentions_capacity)
      × (length t.self_actions ≤ t.self_actions_capacity)
mind_stays_bounded n m s cs e =
    let w = after_all-WellFormed cs s (mind_state-WellFormed n m s e) in
    (w.intentions_fit, w.self_actions_fit)
