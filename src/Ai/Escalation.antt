-- ===== src/Ai/Escalation.antt =====
-- backend/app/modules/ai/application/escalation.py: whether the answer is sent. The search of a message
-- for a request for a human, by regular expressions, and the format of a score are parameters.
use ai_customer_support_plat.Prelude.{
  ℕ, ltb, leb, Bool, true, false, not, ◌&&◌, ◌||◌, List, [], ◌∷◌, ◌++◌, Option, none, some,
  if◌then◌else◌, Text, codes, text_eq, upper, filter_by,
}
use ai_customer_support_plat.Ai.State.{
  is_other, AgentDecision, ai_resolve, escalate_decision, suggest_only, soft_reply, is_suggest,
  ConfidenceBreakdown, SupportAgentState, AiConfig, is_angry,
}
use ai_customer_support_plat.Ai.Policy.{is_soft_action, join}
use ai_customer_support_plat.Ai.Confidence.{
  note, intent_in, intent_text, nonempty, effective_confidence_threshold,
}

-- `list(dict.fromkeys(reasons))`
unfoldable pub dedupe : List Text → List Text
dedupe [] = []
dedupe (r ∷ rs) = r ∷ filter_by (λ s. not (text_eq s r)) (dedupe rs)

-- `list(state.confidence_breakdown.reasons) if state.confidence_breakdown else []`
abbrev pub given_reasons : Option ConfidenceBreakdown → List Text
given_reasons none = []
given_reasons (some b) = b.reasons

-- The intent is set and is not in the allowed list, if there is such a list.
abbrev pub is_not_allowed : SupportAgentState → AiConfig → Bool
is_not_allowed s c = elim s.intent [
  | none ↦ false
  | some i ↦ nonempty c.allowed_intents && not (intent_in (some i) c.allowed_intents)
]

unfoldable pub to_send : SupportAgentState → AgentDecision → SupportAgentState
to_send s d = record s { escalation_required = false; escalation_reason = none; decision = some d }

unfoldable pub to_escalate : SupportAgentState → Text → SupportAgentState
to_escalate s r = record s {
  escalation_required = true;
  escalation_reason = some r;
  decision = some escalate_decision;
}

unfoldable pub judge : SupportAgentState → AiConfig → List Text → SupportAgentState
judge s c reasons =
    if is_suggest c.mode
    then to_send s suggest_only
    else if nonempty reasons
    then to_escalate s (join reasons)
    else if leb (effective_confidence_threshold c) s.support_confidence && s.grounded
    then record s { escalation_required = false; decision = some ai_resolve }
    else to_escalate s (codes "Confidence or grounding below auto-reply threshold")

module _ (detect_human_request : Text → Bool) (show_score : ℕ → Text) where
  unfoldable pub collected_reasons : SupportAgentState → AiConfig → List Text
  collected_reasons s c =
      given_reasons s.confidence_breakdown
      ++ note (s.human_requested || detect_human_request s.user_message)
          (codes "Customer requested a human agent")
      ++ note (is_angry (upper s.sentiment)) (codes "Customer sentiment: " ++ upper s.sentiment)
      ++ note (is_other s.intent && c.escalate_if_unknown) (codes "Intent classified as OTHER")
      ++ note (intent_in s.intent c.restricted_intents)
          (codes "Intent " ++ intent_text s.intent ++ codes " is restricted")
      ++ note (is_not_allowed s c)
          (codes "Intent " ++ intent_text s.intent ++ codes " not in allowed list")
      ++ note (ltb s.retrieval_score c.min_relevance_score)
          (codes "No sufficiently relevant knowledge found")
      ++ note (not s.grounded && s.knowledge_available) (codes "Answer failed grounding validation")
      ++ note (ltb s.support_confidence (effective_confidence_threshold c)) (
          codes "Support confidence "
          ++ show_score s.support_confidence
          ++ codes " below threshold "
          ++ show_score (effective_confidence_threshold c))

  unfoldable pub evaluate_escalation : SupportAgentState → AiConfig → SupportAgentState
  evaluate_escalation s c =
      if s.policy_allows_ungrounded_send && is_soft_action s.policy_action
      then (if is_suggest c.mode then to_send s suggest_only else to_send s soft_reply)
      else judge s c (dedupe (collected_reasons s c))
