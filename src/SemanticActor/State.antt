-- ===== src/SemanticActor/State.antt =====
-- The fields of `SemanticActor` and the methods that its operations share: evidence, settlement,
-- poisoning, cancellation requests, the choice of the next record, and session rotation.
use lilavel_runtime.Prelude.{
  ℕ, ◌+◌, String, Bool, true, false, not, ◌&&◌, ◌||◌, Option, none, some, List, [], ◌∷◌, ◌++◌, ltb,
  leb, eqb, if◌then◌else◌, length, is_empty, is_some, keep_last, String_Eq, Pair_Eq,
}
use lilavel_runtime.Prelude.Dict
use lilavel_runtime.Prelude.Dict.{Dict}
use lilavel_runtime.SemanticActor.Types.{
  Execution, SemanticActorState, SemanticEpisodeStatus, SemanticActorFailure,
  SemanticEpisodeRequest, ExecutorResult, SemanticSettlement, SemanticActorEvidence, Record, Cell,
  fresh_cell, is_user, is_under_way, result_if_completed,
}

-- Where the worker task stands: the `await` that it is in, with the record that it executes.
pub data Worker : Type 0 where
  absent : Worker  -- no task yet
  ready : Worker  -- about to run the head of the loop
  asleep : Worker  -- in `self._wake.wait()`
  executing : Record → Worker  -- in `asyncio.wait((execution, cancellation))`
  in_grace : Record → Worker  -- in the first `wait_for` of `_execute`
  joining : Record → Worker  -- in `_cancel_and_join` after the grace period
  joining_cancelled : Record → Worker  -- in `_cancel_and_join` after a cancelled worker
  returning : Record → Execution → Worker  -- in the `finally` of `_execute`
  done : Worker

-- The record that the worker executes.
abbrev pub worker_record : Worker → Option Record
worker_record (executing r) = some r
worker_record (in_grace r) = some r
worker_record (joining r) = some r
worker_record (joining_cancelled r) = some r
worker_record (returning r x) = some r
worker_record _ = none

abbrev pub Key : Type 0
Key = String × String

pub record Actor : Type 0 where
  pub scope_id : String
  pub mailbox_capacity : ℕ
  pub fence_capacity : ℕ
  pub evidence_capacity : ℕ
  pub session_id : String
  pub state : SemanticActorState
  pub user_queue : List Record
  pub non_user_queue : List Record
  pub in_flight : Dict Key Record
  pub settled : Dict Key SemanticSettlement
  pub evidence : List SemanticActorEvidence
  pub wake : Bool
  pub worker : Worker
  pub active : Option Record
  pub uncontained : List ℕ
  pub failure : Option SemanticActorFailure
  pub failure_event : Bool
  pub next_request_sequence : ℕ
  pub next_episode_sequence : ℕ
  pub max_active : ℕ
  pub cells : ℕ → Cell

-- `__init__`, for capacities within their bounds.
unfoldable pub init : String → String → ℕ → ℕ → ℕ → Actor
init scope_id session_id mailbox_capacity fence_capacity evidence_capacity = record {
  scope_id = scope_id;
  mailbox_capacity = mailbox_capacity;
  fence_capacity = fence_capacity;
  evidence_capacity = evidence_capacity;
  session_id = session_id;
  state = SemanticActorState.new;
  user_queue = [];
  non_user_queue = [];
  in_flight = [];
  settled = [];
  evidence = [];
  wake = false;
  worker = absent;
  active = none;
  uncontained = [];
  failure = none;
  failure_event = false;
  next_request_sequence = 0;
  next_episode_sequence = 0;
  max_active = 0;
  cells = λ _. fresh_cell;
}

-- The bounds that `__init__` checks.
unfoldable pub capacities_valid : ℕ → ℕ → ℕ → Bool
capacities_valid mailbox_capacity fence_capacity evidence_capacity =
    (ltb 0 mailbox_capacity && leb mailbox_capacity 128)
    && (ltb 0 fence_capacity && leb fence_capacity 256)
    && (ltb 0 evidence_capacity && leb evidence_capacity 512)

abbrev pub queued_count : Actor → ℕ
queued_count a = length a.user_queue + length a.non_user_queue

abbrev pub active_count : Actor → ℕ
active_count a = if is_some a.active then 1 else 0

abbrev pub key_of : SemanticEpisodeRequest → Key
key_of r = (r.actor_session_id, r.request_id)

-- `user_work_active_or_queued`
unfoldable pub user_work_active_or_queued : Actor → Bool
user_work_active_or_queued a =
    (elim a.active [ none ↦ false | some r ↦ is_user r.request.priority ])
    || not (is_empty a.user_queue)

-- A write to the mutable fields of the record with a sequence.
abbrev pub set_cell : ℕ → Cell → Actor → Actor
set_cell n c a = record a { cells = λ m. if eqb n m then c else a.cells m }

-- `deque.append` with `maxlen`
unfoldable pub append_evidence : SemanticActorEvidence → Actor → Actor
append_evidence e a = record a { evidence = keep_last a.evidence_capacity (a.evidence ++ e ∷ []) }

unfoldable pub record_request_evidence :
    Record → SemanticEpisodeStatus → Option String → Actor → Actor
unfolding append_evidence
record_request_evidence r status reason_code a =
    append_evidence
      (record {
        sequence = r.episode.sequence;
        request_id = r.request.request_id;
        source_kind = r.request.source_kind;
        priority = r.request.priority;
        status = status;
        cancellation_requested = (a.cells r.episode.sequence).cancellation_requested;
        preempted = (a.cells r.episode.sequence).preempted;
        reason_code = reason_code;
      })
      a

unfoldable pub record_request_evidence_from_request :
    SemanticEpisodeRequest → SemanticEpisodeStatus → ℕ → Option String → Actor → Actor
unfolding append_evidence
record_request_evidence_from_request r status sequence reason_code a =
    append_evidence
      (record {
        sequence = sequence;
        request_id = r.request_id;
        source_kind = r.source_kind;
        priority = r.priority;
        status = status;
        cancellation_requested = false;
        preempted = false;
        reason_code = reason_code;
      })
      a

-- `_poison` and `_shutdown_failure`: the first failure stays.
unfoldable pub fail_with : SemanticActorFailure → Actor → Actor
fail_with f a = elim a.failure [
  | none ↦ record a { state = SemanticActorState.poisoned; failure = some f; failure_event = true }
  | some _ ↦ record a { state = SemanticActorState.poisoned }
]

unfoldable pub poison : String → Actor → Actor
unfolding fail_with
poison reason_code = fail_with (SemanticActorFailure.poisoned reason_code)

unfoldable pub shutdown_failure : String → Actor → Actor
unfolding fail_with
shutdown_failure reason_code = fail_with (SemanticActorFailure.shutdown_timeout reason_code)

-- `_request_cancellation`, on the record's cell; the evidence is of an episode under way.
unfoldable pub cancelled_cell : Bool → Cell → Cell
cancelled_cell preempted c = record c {
  cancellation_requested = true;
  preempted = c.preempted || preempted;
  token_requested = true;
  status = if is_under_way c.status then SemanticEpisodeStatus.cancellation_requested else c.status;
}

unfoldable pub request_cancellation : Record → Bool → String → Actor → Actor
unfolding cancelled_cell record_request_evidence
request_cancellation r preempted reason_code a =
    let c = a.cells r.episode.sequence in
    let a' = set_cell r.episode.sequence (cancelled_cell preempted c) a in
    if is_under_way c.status
    then record_request_evidence r SemanticEpisodeStatus.cancellation_requested (some reason_code)
        a'
    else a'

-- `_settle`, once its settlement has passed `reason_is_valid`.
abbrev pub settlement :
    Record → SemanticEpisodeStatus → Option ExecutorResult → Option String → SemanticSettlement
settlement r status result reason_code = record {
  request_id = r.request.request_id;
  sequence = r.episode.sequence;
  status = status;
  reason_code = reason_code;
  result = result_if_completed status result;
}

abbrev pub resolve : SemanticSettlement → Option SemanticSettlement → Option SemanticSettlement
resolve s none = some s
resolve s (some old) = some old

abbrev pub settled_cell : SemanticEpisodeStatus → SemanticSettlement → Cell → Cell
settled_cell status s c = record c { status = status; future = resolve s c.future }

unfoldable pub settle :
    Record → SemanticEpisodeStatus → Option ExecutorResult → Option String → Actor → Actor
unfolding record_request_evidence
settle r status result reason_code a =
    let n = r.episode.sequence in
    let s = settlement r status result reason_code in
    let a' = set_cell n (settled_cell status s (a.cells n)) a in
    record_request_evidence r status reason_code (record a' {
      in_flight = Dict.pop (key_of r.request) a.in_flight;
      settled = Dict.set (key_of r.request) (record s { result = none }) a.settled;
    })

-- How `_reject_queued` settles one record.
abbrev pub reject : String → Record → Actor → Actor
reject reason_code r = settle r SemanticEpisodeStatus.cancelled none (some reason_code)

-- `_reject_queued`: the user lane first, each lane in its order.
unfoldable pub settle_all : String → List Record → Actor → Actor
settle_all reason_code [] a = a
settle_all reason_code (r ∷ rs) a = settle_all reason_code rs (reject reason_code r a)

unfoldable pub reject_queued : String → Actor → Actor
unfolding settle_all
reject_queued reason_code a =
    let a' = settle_all reason_code a.user_queue (record a { user_queue = [] }) in
    settle_all reason_code a.non_user_queue (record a' { non_user_queue = [] })

-- `_maybe_rotate_session`, with the session id that `uuid4` would give.
unfoldable pub maybe_rotate_session : String → Actor → Actor
maybe_rotate_session fresh a =
    if ltb (length a.settled) a.fence_capacity || is_some a.active || ltb 0 (queued_count a)
    then a
    else record a { session_id = fresh; settled = [] }
