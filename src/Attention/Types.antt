-- ===== src/Attention/Types.antt =====
-- The data of attention.py, with what it takes from contracts.py and from
-- apps/core/src/lilavel_core/cognition.py. The types stand for the checks of types.
use lilavel_runtime.Prelude.{ℕ, String, Bool, List, ◌&&◌, not, is_empty, length, leb, is_unique}
use lilavel_runtime.Prelude.Dict.{Dict}
use lilavel_runtime.Intervention.Reasons.{CognitionReasonCode, CognitionReasonCode_Comparable}

pub data AttentionDecision : Type 0 where
  drop note think : AttentionDecision

-- `WorldEvent` and `Observation` of contracts.py. Attention reads no payload and no trust label.
pub record WorldEvent : Type 0 where
  pub event_id : String
  pub kind : String

pub record Observation : Type 0 where
  pub observation_id : String
  pub sequence : ℕ
  pub event : WorldEvent

pub data AttentionRelevance : Type 0 where
  unknown low normal high : AttentionRelevance

pub data AttentionNovelty : Type 0 where
  unknown low normal high : AttentionNovelty

pub data AttentionInterestAffinity : Type 0 where
  unknown none weak strong : AttentionInterestAffinity

pub record AttentionSignalProfile : Type 0 where
  pub direct_address : Bool
  pub critical_event : Bool
  pub continuity : Bool
  pub relevance : AttentionRelevance
  pub novelty : AttentionNovelty
  pub interest_affinity : AttentionInterestAffinity
  pub repetition : Bool
  pub no_new_value : Bool

pub record AttentionEvidence : Type 0 where
  pub observation_id : String
  pub profile : AttentionSignalProfile

pub record AttentionVerdict : Type 0 where
  pub observation_id : String
  pub decision : AttentionDecision
  pub reason_codes : List CognitionReasonCode

-- The checks of `AttentionVerdict.__post_init__` on the reason codes.
abbrev pub reason_codes_valid : List CognitionReasonCode → Bool
reason_codes_valid codes = not (is_empty codes) && leb (length codes) 8 && is_unique codes

-- `AttentionEvidenceExtractor`, which keeps its profiles.
pub record AttentionEvidenceExtractor : Type 0 where
  pub profiles : Dict String AttentionSignalProfile
