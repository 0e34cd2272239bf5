-- ===== src/Mind/State.antt =====
-- `MindState` of apps/runtime/src/lilavel_runtime/mind.py. What uuid4 gives is an argument.
use lilavel_runtime.Prelude.{
  ℕ, suc, ◌+◌, String, Bool, true, false, Option, none, some, List, [], ◌∷◌, ◌++◌, not, ◌&&◌,
  length, select, keep_last, is_empty, leb, eqb, if◌then◌else◌, ◌==◌, String_Eq,
}
use lilavel_runtime.Prelude.Text.{is_bounded_text}

abbrev pub max_intention_text_bytes : ℕ
max_intention_text_bytes = 512

abbrev pub max_self_action_text_bytes : ℕ
max_self_action_text_bytes = 4096

pub data IntentionStatus : Type 0 where
  active expressed : IntentionStatus

pub data IntentionKind : Type 0 where
  initiative deferred_commitment : IntentionKind

-- The delta's `kind` has one value, so it is left out.
pub record MindStateDelta : Type 0 where
  pub text : String
  pub user_message_id : String
  pub assistant_message_id : String
  pub intention_kind : IntentionKind

-- `__post_init__` of a delta, and the checks that `create_intention` makes on its arguments.
unfoldable pub delta_is_valid : MindStateDelta → Bool
delta_is_valid d =
    is_bounded_text max_intention_text_bytes d.text
    && is_bounded_text 128 d.user_message_id
    && is_bounded_text 128 d.assistant_message_id

pub record MindIntention : Type 0 where
  pub intention_id : String
  pub text : String
  pub user_message_id : String
  pub assistant_message_id : String
  pub kind : IntentionKind
  pub status : IntentionStatus

pub record SelfAction : Type 0 where
  pub action_id : String
  pub intention_id : String
  pub text : String

pub record MindProjection : Type 0 where
  pub active_intentions : List MindIntention
  pub recent_self_actions : List SelfAction

pub record MindStateSnapshot : Type 0 where
  pub version : ℕ
  pub intentions : List MindIntention
  pub recent_self_actions : List SelfAction

pub record MindState : Type 0 where
  pub intentions_capacity : ℕ
  pub self_actions_capacity : ℕ
  pub intentions : List MindIntention
  pub self_actions : List SelfAction
  pub version : ℕ

-- `__init__`, with nothing where it raises.
unfoldable pub mind_state : ℕ → ℕ → Option MindState
mind_state intentions_capacity self_actions_capacity =
    if leb 1 intentions_capacity && leb 1 self_actions_capacity
    then some (record {
      intentions_capacity = intentions_capacity;
      self_actions_capacity = self_actions_capacity;
      intentions = [];
      self_actions = [];
      version = 0;
    })
    else none

abbrev pub is_active : MindIntention → Bool
is_active m = elim m.status [ IntentionStatus.active ↦ true | IntentionStatus.expressed ↦ false ]

unfoldable pub projection : MindState → MindProjection
projection s = record {
  active_intentions = select is_active s.intentions;
  recent_self_actions = s.self_actions;
}

unfoldable pub snapshot : MindState → MindStateSnapshot
snapshot s = record {
  version = s.version;
  intentions = s.intentions;
  recent_self_actions = s.self_actions;
}

-- The list without its first expressed intention, or nothing when all are active.
unfoldable pub evict : List MindIntention → Option (List MindIntention)
evict [] = none
evict (m ∷ ms) =
    let rest = evict ms in
    if is_active m then elim rest [ none ↦ none | some kept ↦ some (m ∷ kept) ] else some ms

unfoldable pub make_room : ℕ → List MindIntention → Option (List MindIntention)
make_room capacity retained =
    if leb capacity (length retained) then evict retained else some retained

abbrev pub new_intention : String → MindStateDelta → MindIntention
new_intention id d = record {
  intention_id = id;
  text = d.text;
  user_message_id = d.user_message_id;
  assistant_message_id = d.assistant_message_id;
  kind = d.intention_kind;
  status = IntentionStatus.active;
}

-- The loop of `apply_deltas` over the deltas left, with the identifiers that uuid4 gives from the
-- n-th on: what is created and what is retained.
unfoldable pub simulate :
    (ℕ → String)
    → ℕ
    → ℕ
    → List MindStateDelta
    → List MindIntention
    → Option (List MindIntention × List MindIntention)
simulate fresh capacity n [] retained = some ([], retained)
simulate fresh capacity n (d ∷ ds) retained = elim (make_room capacity retained) [
  | none ↦ none
  | some kept ↦ elim (simulate fresh capacity (suc n) ds (kept ++ new_intention (fresh n) d ∷ [])) [
    | none ↦ none
    | some (made, final) ↦ some (new_intention (fresh n) d ∷ made, final)
  ]
]

pub data DeltaResult : Type 0 where
  applied : List MindIntention → DeltaResult
  version_conflict capacity_exceeded : DeltaResult

unfoldable pub apply_deltas :
    (ℕ → String) → List MindStateDelta → ℕ → MindState → DeltaResult × MindState
apply_deltas fresh deltas expected_version s =
    if is_empty deltas
    then (applied [], s)
    else if not (eqb s.version expected_version)
    then (version_conflict, s)
    else elim (simulate fresh s.intentions_capacity 0 deltas s.intentions) [
      | none ↦ (capacity_exceeded, s)
      | some (made, retained) ↦
          (applied made, record s { intentions = retained; version = s.version + length made })
    ]

pub data CreateResult : Type 0 where
  created : MindIntention → CreateResult
  full invalid_text : CreateResult

unfoldable pub create_intention : String → MindStateDelta → MindState → CreateResult × MindState
create_intention id d s =
    if not (delta_is_valid d)
    then (invalid_text, s)
    else elim (make_room s.intentions_capacity s.intentions) [
      | none ↦ (full, s)
      | some kept ↦ (
        created (new_intention id d),
        record s { intentions = kept ++ new_intention id d ∷ []; version = s.version + 1 },
      )
    ]

-- The loop of `mark_expressed`: nothing where no intention has the identifier or the first one that
-- has it is expressed already.
unfoldable pub express : String → List MindIntention → Option (List MindIntention)
express id [] = none
express id (m ∷ ms) =
    let rest = express id ms in
    if not (m.intention_id == id)
    then elim rest [ none ↦ none | some done ↦ some (m ∷ done) ]
    else if not (is_active m)
    then none
    else some (record m { status = IntentionStatus.expressed } ∷ ms)

pub data MarkResult : Type 0 where
  marked : SelfAction → MarkResult
  not_active bad_text : MarkResult

unfoldable pub mark_expressed : String → String → String → MindState → MarkResult × MindState
mark_expressed action_id id text s =
    if not (is_bounded_text 128 id && is_bounded_text max_self_action_text_bytes text)
    then (bad_text, s)
    else elim (express id s.intentions) [
      | none ↦ (not_active, s)
      | some intentions ↦
          let action : SelfAction = record {
            action_id = action_id;
            intention_id = id;
            text = text;
          } in
          (
            marked action,
            record s {
              intentions = intentions;
              self_actions = keep_last s.self_actions_capacity (s.self_actions ++ action ∷ []);
              version = s.version + 1;
            },
          )
    ]
