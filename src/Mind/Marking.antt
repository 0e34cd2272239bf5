-- ===== src/Mind/Marking.antt =====
-- What `mark_expressed` promises.
use lilavel_runtime.Prelude.{
  ◌+◌, ◌≡◌, refl, String, Option, none, some, List, [], ◌∷◌, ◌++◌, arith, length, keep_last, true,
  if◌then◌else◌, not, ◌&&◌, if_not-cases, ◌==◌, String_Eq,
}
use lilavel_runtime.Prelude.Text.{is_bounded_text}
use lilavel_runtime.Mind.State.{
  IntentionStatus, MindIntention, MindState, SelfAction, is_active, express, marked, not_active,
  bad_text, mark_expressed, MarkResult, projection, max_self_action_text_bytes,
}
use lilavel_runtime.Mind.Room.{actives}

-- What `express` leaves: as many intentions, one active fewer, and none that the identifier can
-- express.
abbrev pub Expressed : String → List MindIntention → Option (List MindIntention) → Type 0
Expressed id ms none = Unit
Expressed id ms (some done) =
    (length done ≡ length ms)
    × (length (actives done) + 1 ≡ length (actives ms))
    × (express id done ≡ none)

Expressed-cons :
    (id : String) (m : MindIntention) (ms : List MindIntention) (o : Option (List MindIntention))
    → Expressed id ms o
    → Expressed id (m ∷ ms) (
        if not (m.intention_id == id)
        then elim o [ none ↦ none | some done ↦ some (m ∷ done) ]
        else if not (is_active m)
        then none
        else some (record m { status = IntentionStatus.expressed } ∷ ms))
unfolding express
Expressed-cons id m ms none h = ground arith
Expressed-cons id m ms (some done) h = ground arith

pub express-Expressed : (id : String) (ms : List MindIntention) → Expressed id ms (express id ms)
unfolding express
express-Expressed id [] = tt
express-Expressed id (m ∷ ms) = Expressed-cons id m ms (express id ms) (express-Expressed id ms)

-- What `mark_expressed` does to a state within its bounds: without effect, or one active intention
-- fewer, the action remembered last, and the same identifier gives nothing afterwards.
abbrev pub Marked : String → String → MindState → MarkResult × MindState → Type 0
Marked id text s (marked action, t) =
    (action.intention_id ≡ id)
    × (length (projection t).active_intentions + 1 ≡ length (projection s).active_intentions)
    × (t.self_actions ≡ keep_last s.self_actions_capacity (s.self_actions ++ action ∷ []))
    × (t.version ≡ s.version + 1)
    × ((other : String) → (mark_expressed other id text t).0 ≡ not_active)
Marked id text s (not_active, t) = t ≡ s
Marked id text s (bad_text, t) = t ≡ s

-- `mark_expressed` either changes nothing, or takes one intention out of the active ones,
-- remembers the action last within the capacity of remembered actions, adds one to the version,
-- and gives nothing when called again for the same identifier and text.
pub mark_expressed_once :
    (action_id id text : String) (s : MindState)
    → Marked id text s (mark_expressed action_id id text s)
unfolding mark_expressed projection
mark_expressed_once action_id id text s =
    if_not-cases (Marked id text s)
      (is_bounded_text 128 id && is_bounded_text max_self_action_text_bytes text) _ _ (λ _. refl)
      (λ ok. outcome ok (express id s.intentions) (express-Expressed id s.intentions))
  where
    outcome :
        (is_bounded_text 128 id && is_bounded_text max_self_action_text_bytes text) ≡ true
        → (o : Option (List MindIntention)) → Expressed id s.intentions o
        → Marked id text s (elim o [
          | none ↦ (not_active, s)
          | some intentions ↦
              let action : SelfAction = record {
                action_id = action_id;
                intention_id = id;
                text = text;
              } in
              (
                marked action,
                record s {
                  intentions = intentions;
                  self_actions = keep_last s.self_actions_capacity (s.self_actions ++ action ∷ []);
                  version = s.version + 1;
                },
              )
        ])
    outcome ok none h = refl
    outcome ok (some done) h = (refl, h.1, refl, refl, λ other. rw (ok, h.2) refl)
