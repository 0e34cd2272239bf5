-- ===== src/SemanticActor/Types.antt =====
-- The enums and frozen dataclasses of semantic_actor.py. The executor of a request is not data of
-- the model: what it does comes as events of the worker. A result object is known by the two
-- attributes that the actor reads of it.
use lilavel_runtime.Prelude.{ℕ, String, Bool, true, false, ◌&&◌, Option, none, some, leb}
use lilavel_runtime.Prelude.Text.{is_bounded_text}

pub data SemanticActorState : Type 0 where
  new running stopping stopped poisoned : SemanticActorState

pub data SemanticSourceKind : Type 0 where
  user reactive external temporal internal autonomous : SemanticSourceKind

pub data SemanticPriority : Type 0 where
  user non_user : SemanticPriority

pub data SemanticEpisodeStatus : Type 0 where
  queued active cancellation_requested completed cancelled failed : SemanticEpisodeStatus
  rejected duplicate : SemanticEpisodeStatus

pub data SemanticAdmissionStatus : Type 0 where
  accepted duplicate rejected : SemanticAdmissionStatus

pub data SemanticActorFailure : Type 0 where
  poisoned shutdown_timeout : String → SemanticActorFailure

pub record SemanticEpisodeRequest : Type 0 where
  pub request_id : String
  pub source_kind : SemanticSourceKind
  pub priority : SemanticPriority
  pub scope_id : String
  pub actor_session_id : String
  pub request_sequence : ℕ

-- The tests of `SemanticEpisodeRequest.__post_init__` that its types leave open.
unfoldable pub request_is_valid : SemanticEpisodeRequest → Bool
unfolding is_bounded_text
request_is_valid r =
    is_bounded_text 128 r.request_id
    && is_bounded_text 128 r.scope_id
    && is_bounded_text 128 r.actor_session_id
    && leb 1 r.request_sequence

pub record SemanticEpisode : Type 0 where
  pub request_id : String
  pub sequence : ℕ
  pub source_kind : SemanticSourceKind
  pub priority : SemanticPriority
  pub scope_id : String
  pub actor_session_id : String

-- What the actor reads of an executor's result: `semantic_status` and `reason_code`.
pub record ExecutorResult : Type 0 where
  pub semantic_status : Option SemanticEpisodeStatus
  pub reason_code : Option String

pub record SemanticSettlement : Type 0 where
  pub request_id : String
  pub sequence : ℕ
  pub status : SemanticEpisodeStatus
  pub reason_code : Option String
  pub result : Option ExecutorResult

-- The test of `SemanticSettlement.__post_init__` on the reason. Its other tests cannot fail: the
-- request id is that of a request that passed the same test, and a sequence is not negative.
unfoldable pub reason_is_valid : Option String → Bool
unfolding is_bounded_text
reason_is_valid none = true
reason_is_valid (some reason) = is_bounded_text 128 reason

pub record SemanticActorEvidence : Type 0 where
  pub sequence : ℕ
  pub request_id : String
  pub source_kind : SemanticSourceKind
  pub priority : SemanticPriority
  pub status : SemanticEpisodeStatus
  pub cancellation_requested : Bool
  pub preempted : Bool
  pub reason_code : Option String

-- The tuple that `_execute` returns.
pub record Execution : Type 0 where
  pub status : SemanticEpisodeStatus
  pub result : Option ExecutorResult
  pub reason_code : Option String
  pub uncontained : Bool

-- The future behind a receipt: that of the record with this sequence, or one resolved at once.
pub data SettlementFuture : Type 0 where
  of_record : ℕ → SettlementFuture
  resolved : SemanticSettlement → SettlementFuture

pub record SemanticAdmission : Type 0 where
  pub request_id : String
  pub sequence : ℕ
  pub status : SemanticAdmissionStatus
  pub reason_code : Option String
  pub settlement_future : SettlementFuture
  pub episode : Option SemanticEpisode

-- `admit` returns a receipt, or raises `SemanticMailboxFull`.
pub data AdmitResult : Type 0 where
  receipt : SemanticAdmission → AdmitResult
  mailbox_full : AdmitResult

-- `_Record`: what never changes of it. Its mutable fields are the cell of its sequence.
pub record Record : Type 0 where
  pub request : SemanticEpisodeRequest
  pub episode : SemanticEpisode

-- The mutable fields of a `_Record`, its token and its future included.
pub record Cell : Type 0 where
  pub status : SemanticEpisodeStatus
  pub cancellation_requested : Bool
  pub preempted : Bool
  pub token_requested : Bool
  pub future : Option SemanticSettlement

abbrev pub fresh_cell : Cell
fresh_cell = record {
  status = SemanticEpisodeStatus.queued;
  cancellation_requested = false;
  preempted = false;
  token_requested = false;
  future = none;
}

abbrev pub is_user : SemanticPriority → Bool
is_user SemanticPriority.user = true
is_user SemanticPriority.non_user = false

abbrev pub is_non_user : SemanticPriority → Bool
is_non_user SemanticPriority.user = false
is_non_user SemanticPriority.non_user = true

-- `status in {ACTIVE, CANCELLATION_REQUESTED}`
abbrev pub is_under_way : SemanticEpisodeStatus → Bool
is_under_way SemanticEpisodeStatus.active = true
is_under_way SemanticEpisodeStatus.cancellation_requested = true
is_under_way _ = false

-- `result if status is SemanticEpisodeStatus.COMPLETED else None`
abbrev pub result_if_completed :
    SemanticEpisodeStatus → Option ExecutorResult → Option ExecutorResult
result_if_completed SemanticEpisodeStatus.completed result = result
result_if_completed _ result = none
