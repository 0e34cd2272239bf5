-- ===== src/Temporal/Types.antt =====
-- The data of apps/runtime/src/lilavel_runtime/temporal.py. An instant is the number of microseconds
-- since the first one of a `datetime`.
-- A value that is passed in has passed its own constructor's checks of its texts, and `WakeIntent`
-- repeats those of the values it is made of, so they are not made again.
use lilavel_runtime.Prelude.{ℕ, String, Bool, true, false, Option, List}
use lilavel_runtime.Prelude.Dict.{Dict}

pub data WakeIntentStatus : Type 0 where
  pending due cancelled superseded dispatched : WakeIntentStatus

pub data TemporalApplicationStatus : Type 0 where
  not_requested applied partial duplicate rejected : TemporalApplicationStatus

-- `TemporalProposal` of contracts.py.
pub record TemporalProposal : Type 0 where
  pub reason : String
  pub not_before : ℕ
  pub intention_ref : Option String

pub record WakeIntent : Type 0 where
  pub wake_intent_id : String
  pub scope_id : String
  pub reason : String
  pub not_before : ℕ
  pub source_episode_id : String
  pub source_trigger_id : String
  pub intention_ref : Option String
  pub sequence : ℕ
  pub status : WakeIntentStatus

pub record TemporalProposalApplication : Type 0 where
  pub proposal_index : ℕ
  pub status : TemporalApplicationStatus
  pub wake_intent_id : Option String
  pub reason_code : Option String

pub record TemporalApplication : Type 0 where
  pub status : TemporalApplicationStatus
  pub proposals : List TemporalProposalApplication
  pub reason_code : Option String

pub record PreparedTemporalProposal : Type 0 where
  pub proposal_index : ℕ
  pub proposal : TemporalProposal
  pub normalized_not_before : ℕ
  pub dedup_key : String

-- A preparation is prepared or rejected, never both.
pub data TemporalPreparation : Type 0 where
  prepared : List PreparedTemporalProposal → TemporalPreparation
  rejection : TemporalApplication → TemporalPreparation

-- A temporal `CognitionTrigger` of contracts.py.
pub record CognitionTrigger : Type 0 where
  pub reason : String
  pub wake_intent_id : String
  pub source_refs : List String

-- A call gives a result or raises: KeyError of a dictionary, ValueError of a check,
-- OverflowError of a date beyond the last one.
pub data Result {ℓ} (A : Type ℓ) : Type ℓ where
  ok : A → Result A
  key_error : Result A
  value_error : Result A
  overflow_error : Result A

infixl 5 ◌>>=◌
abbrev pub ◌>>=◌ {ℓ κ} : {A : Type ℓ} {B : Type κ} → Result A → (A → Result B) → Result B
ok a >>= f = f a
key_error >>= f = key_error
value_error >>= f = value_error
overflow_error >>= f = overflow_error

-- What hashlib's sha256 gives for a text, in hexadecimal, and Python's decimal `str` of a number.
pub record Digests : Type 0 where
  pub hexdigest : String → String
  pub decimal : ℕ → String

pub record TemporalCoordinator : Type 0 where
  pub scope_id : String
  pub minimum_delay : ℕ
  pub maximum_horizon : ℕ
  pub pending_capacity : ℕ
  pub runtime_instance_id : String
  pub next_sequence : ℕ
  pub intents : Dict String WakeIntent
  pub dedup_keys : Dict String String

abbrev pub is_pending : WakeIntent → Bool
is_pending i = elim i.status [
  | WakeIntentStatus.pending ↦ true
  | WakeIntentStatus.due ↦ true
  | WakeIntentStatus.cancelled ↦ false
  | WakeIntentStatus.superseded ↦ false
  | WakeIntentStatus.dispatched ↦ false
]
