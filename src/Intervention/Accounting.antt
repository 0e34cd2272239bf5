-- ===== src/Intervention/Accounting.antt =====
-- `SpeechAccounting` of apps/runtime/src/lilavel_runtime/intervention.py.
use lilavel_runtime.Prelude.{
  ℕ, ◌+◌, ◌-◌, min, Bool, true, false, Option, none, some, ◌&&◌, leb, ltb, if◌then◌else◌,
}
use lilavel_runtime.Intervention.Reasons.{InterventionDecision}
use lilavel_runtime.Intervention.Types.{RecentSpeechState, InterventionBudgetState}

-- The bound on the budget and on one replenishment.
abbrev pub max_budget : ℕ
max_budget = 256

pub record SpeechAccounting : Type 0 where
  pub remaining_budget : ℕ
  pub recent_speech : RecentSpeechState
  pub confirmed_speech_count : ℕ

-- `__init__`, with nothing where it raises.
unfoldable pub speech_accounting : ℕ → Option SpeechAccounting
speech_accounting budget =
    if leb budget max_budget
    then some (record {
      remaining_budget = budget;
      recent_speech = RecentSpeechState.clear;
      confirmed_speech_count = 0;
    })
    else none

unfoldable pub snapshot : SpeechAccounting → RecentSpeechState × InterventionBudgetState
snapshot a = (
  a.recent_speech,
  if ltb 0 a.remaining_budget
      then InterventionBudgetState.available
      else InterventionBudgetState.exhausted,
)

abbrev pub is_interject : InterventionDecision → Bool
is_interject InterventionDecision.interject = true
is_interject _ = false

unfoldable pub record_confirmed_speech : InterventionDecision → SpeechAccounting → SpeechAccounting
record_confirmed_speech d a = record a {
  confirmed_speech_count = a.confirmed_speech_count + 1;
  recent_speech = RecentSpeechState.recent;
  remaining_budget =
      if is_interject d && ltb 0 a.remaining_budget
      then a.remaining_budget - 1
      else a.remaining_budget;
}

unfoldable pub clear_recent_speech : SpeechAccounting → SpeechAccounting
clear_recent_speech a = record a { recent_speech = RecentSpeechState.clear }

-- Nothing where it raises.
unfoldable pub replenish : ℕ → SpeechAccounting → Option SpeechAccounting
replenish amount a =
    if leb amount max_budget
    then some (record a { remaining_budget = min max_budget (a.remaining_budget + amount) })
    else none
