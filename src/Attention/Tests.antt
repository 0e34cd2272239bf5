-- ===== src/Attention/Tests.antt =====
-- Runs of the attention gate at concrete inputs.
use lilavel_runtime.Prelude.{◌≡◌, refl, String, true, some, List, [], ◌∷◌, ◌++◌, arith}
use lilavel_runtime.Prelude.Dict
use lilavel_runtime.Prelude.Text.{is_bounded_text, is_blank, is_space}
use lilavel_runtime.Intervention.Reasons.{same_code}
use lilavel_runtime.Attention.Types.{
  AttentionDecision, Observation, AttentionRelevance, AttentionNovelty, AttentionSignalProfile,
  AttentionEvidence, AttentionEvidenceExtractor, reason_codes_valid,
}
use lilavel_runtime.Attention.Policy.{
  attention_evidence_extractor, add_profiles, default_signals, direct_message_signals, extract, add,
  reason_codes, decision_of, evaluate_evidence,
}
use lilavel_runtime.Attention.Gate.{
  decide, decide_on, evaluate_from, direct_from, cognition_trigger, selected_verdicts, add_values,
  collect_values, trigger,
}
use lilavel_runtime.Attention.Verdicts.{verdict_for, Justified, evaluate_evidence-Justified}
use lilavel_runtime.Attention.Direct.{direct_message_thinks}
use lilavel_runtime.Attention.Decide.{Decided, decide-Decided}

abbrev news_signals : AttentionSignalProfile
news_signals = record default_signals {
  relevance = AttentionRelevance.high;
  novelty = AttentionNovelty.high;
}

abbrev extractor : AttentionEvidenceExtractor
extractor = record {
  profiles = ("direct_message", direct_message_signals) ∷ ("news", news_signals) ∷ [];
}

extractor_made : attention_evidence_extractor (("news", news_signals) ∷ []) ≡ some extractor
unfolding attention_evidence_extractor add_profiles is_bounded_text is_blank is_space Dict.set
extractor_made = refl

abbrev observed : String → String → Observation
observed id kind = record {
  observation_id = id;
  sequence = 1;
  event = record { event_id = "event"; kind = kind };
}

abbrev ambient : List Observation
ambient = observed "a" "news" ∷ observed "b" "chatter" ∷ observed "a" "news" ∷ []

ambient_thinks :
    decide extractor 8 ambient ≡ trigger ("a" ∷ []) "attention:high_relevance,high_novelty"
unfolding decide decide_on evaluate_from evaluate_evidence extract reason_codes add decision_of
    same_code direct_from cognition_trigger selected_verdicts add_values collect_values
    is_bounded_text is_blank is_space Dict.get Dict.set
ambient_thinks = refl

abbrev with_direct : List Observation
with_direct = ambient ++ observed "c" "direct_message" ∷ []

direct_thinks : decide extractor 8 with_direct ≡ trigger ("c" ∷ []) "explicit_direct_message"
unfolding decide decide_on evaluate_from evaluate_evidence extract reason_codes add decision_of
    same_code direct_from cognition_trigger selected_verdicts add_values collect_values
    is_bounded_text is_blank is_space Dict.get Dict.set
direct_thinks = refl

abbrev news : AttentionEvidence
news = record { observation_id = "a"; profile = news_signals }

evaluate_evidence-Justified_example :
    (evaluate_evidence news ≡ some (verdict_for news))
    × (reason_codes_valid (verdict_for news).reason_codes ≡ true)
    × Justified news_signals (verdict_for news).decision
evaluate_evidence-Justified_example = evaluate_evidence-Justified news

decide-Decided_example : Decided extractor 8 with_direct (decide extractor 8 with_direct)
decide-Decided_example = decide-Decided extractor 8 with_direct (omega arith) (omega arith)

direct_message_thinks_example :
    (verdict_for (extract extractor (observed "c" "direct_message"))).decision
    ≡ AttentionDecision.think
direct_message_thinks_example =
    direct_message_thinks (("news", news_signals) ∷ []) extractor (observed "c" "direct_message")
      extractor_made refl
