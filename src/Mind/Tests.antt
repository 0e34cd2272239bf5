-- ===== src/Mind/Tests.antt =====
-- Calls on a small mind state, and the promises at them.
use lilavel_runtime.Prelude.{
  ℕ, zero, suc, ◌≤◌, ◌≡◌, refl, String, true, some, List, [], ◌∷◌, arith, length, All,
}
use lilavel_runtime.Prelude.Text.{is_bounded_text}
use lilavel_runtime.Mind.State.{
  IntentionStatus, IntentionKind, MindStateDelta, MindState, mind_state, delta_is_valid,
  new_intention, evict, make_room, simulate, applied, capacity_exceeded, apply_deltas,
  mark_expressed,
}
use lilavel_runtime.Mind.Batches.{
  Outcome, batch_settles, create_each, AllOrNothing, batch_is_repeated,
}
use lilavel_runtime.Mind.Marking.{Marked, mark_expressed_once}
use lilavel_runtime.Mind.Invariant.{Call, applies, creates, marks, after_all, mind_stays_bounded}

abbrev plan : MindStateDelta
plan = record {
  text = "ask about the trip";
  user_message_id = "u1";
  assistant_message_id = "a1";
  intention_kind = IntentionKind.initiative;
}

abbrev empty_mind : MindState
empty_mind = record {
  intentions_capacity = 2;
  self_actions_capacity = 1;
  intentions = [];
  self_actions = [];
  version = 0;
}

abbrev ids : ℕ → String
ids zero = "i0"
ids (suc _) = "i1"

-- One intention is expressed, one is active, and there is no room left.
abbrev busy_mind : MindState
busy_mind = record empty_mind {
  intentions =
      record (new_intention "old" plan) { status = IntentionStatus.expressed }
      ∷ new_intention "now" plan
      ∷ [];
  version = 3;
}

batch_settles_example : Outcome 1 3 busy_mind (apply_deltas ids (plan ∷ []) 3 busy_mind)
batch_settles_example = batch_settles ids plan [] 3 busy_mind (omega arith)

-- The expressed intention makes room for one, and then there is none for a second.
evicts_expressed :
    (apply_deltas ids (plan ∷ []) 3 busy_mind).0 ≡ applied (new_intention "i0" plan ∷ [])
unfolding apply_deltas simulate make_room evict
evicts_expressed = refl

exceeds : (apply_deltas ids (plan ∷ plan ∷ []) 3 busy_mind).0 ≡ capacity_exceeded
unfolding apply_deltas simulate make_room evict
exceeds = refl

plan_valid : All (λ d. delta_is_valid d ≡ true) (plan ∷ plan ∷ [])
unfolding delta_is_valid is_bounded_text
plan_valid = (refl, (refl, tt))

batch_is_repeated_example :
    AllOrNothing busy_mind
      (apply_deltas ids (plan ∷ plan ∷ []) 3 busy_mind)
      (create_each ids 0 (plan ∷ plan ∷ []) busy_mind)
batch_is_repeated_example = batch_is_repeated ids plan (plan ∷ []) busy_mind plan_valid

mark_expressed_once_example :
    Marked "now" "how was the trip?" busy_mind
      (mark_expressed "s1" "now" "how was the trip?" busy_mind)
mark_expressed_once_example = mark_expressed_once "s1" "now" "how was the trip?" busy_mind

empty_mind_is_new : mind_state 2 1 ≡ some empty_mind
unfolding mind_state
empty_mind_is_new = refl

abbrev some_calls : List Call
some_calls =
    applies ids (plan ∷ plan ∷ []) 0 ∷ marks "s1" "i0" "how was the trip?" ∷ creates "i2" plan ∷ []

mind_stays_bounded_example :
    let t = after_all some_calls empty_mind in
    (length t.intentions ≤ t.intentions_capacity)
    × (length t.self_actions ≤ t.self_actions_capacity)
mind_stays_bounded_example = mind_stays_bounded 2 1 empty_mind some_calls empty_mind_is_new
