-- ===== src/Ai/Confidence.antt =====
-- backend/app/modules/ai/application/confidence_service.py. The weighted sum of lines 74-82 is float
-- arithmetic: it is the parameter `weigh`. The agent always passes its configuration.
use ai_customer_support_plat.Prelude.{
  ℕ, ◌+◌, min, max, ◌==◌, ltb, Bool, true, false, not, ◌&&◌, ◌||◌, List, [], ◌∷◌, ◌++◌, length,
  Option, none, some, if◌then◌else◌, Text, codes, is_empty, strip,
}
use ai_customer_support_plat.Ai.State.{
  IntentLabel, intent_value, text_in, AgentDecision, ai_resolve, escalate_decision, suggest_only,
  soft_reply, is_suggest, ConfidenceComponents, ConfidenceBreakdown, SupportAgentState, AiConfig,
}

-- A text that may be `None`, as a condition.
abbrev pub has_text : Option Text → Bool
has_text none = false
has_text (some t) = not (is_empty t)

unfoldable pub context_completeness : SupportAgentState → ℕ
context_completeness s = min 10000 (
    5000
    + (if has_text s.customer_name then 2000 else 0)
    + (if s.has_history then 1500 else 0)
    + (if has_text s.conversation_summary then 1500 else 0))

-- `state.draft_response or state.final_response or ""`
abbrev pub response_text : SupportAgentState → Text
response_text s =
    if not (is_empty s.draft_response)
    then s.draft_response
    else elim s.final_response [ none ↦ [] | some t ↦ t ]

unfoldable pub response_validation_score : SupportAgentState → ℕ
response_validation_score s =
    if is_empty (response_text s)
    then 0
    else if ltb (length (strip (response_text s))) 5
    then 3000
    else 10000

unfoldable pub policy_score : SupportAgentState → AiConfig → ℕ
policy_score s c =
    if s.human_requested
    then 0
    else if not c.enabled
    then 0
    else if s.human_controlled
    then 0
    else 10000

unfoldable pub grounding_component : SupportAgentState → ℕ
grounding_component s =
    if not (s.grounding_score == 0) then s.grounding_score else if s.grounded then 9000 else 2000

unfoldable pub components_of : SupportAgentState → AiConfig → ConfidenceComponents
components_of s c = record {
  intent = s.intent_confidence;
  retrieval = s.retrieval_score;
  grounding = grounding_component s;
  context = context_completeness s;
  policy = policy_score s c;
  response_validation = response_validation_score s;
}

-- A reason that is given under a condition.
unfoldable pub note : Bool → Text → List Text
note b r = if b then r ∷ [] else []

-- `state.intent and state.intent.value in intents`
abbrev pub intent_in : Option IntentLabel → List Text → Bool
intent_in none intents = false
intent_in (some i) intents = text_in (intent_value i) intents

-- `f"…{state.intent.value}…"`, where there is an intent
abbrev pub intent_text : Option IntentLabel → Text
intent_text none = []
intent_text (some i) = intent_value i

unfoldable pub effective_confidence_threshold : AiConfig → ℕ
effective_confidence_threshold c = max c.auto_reply_threshold c.escalation_threshold

unfoldable pub knowledge_reasons : SupportAgentState → AiConfig → List Text
knowledge_reasons s c =
    if s.policy_allows_ungrounded_send
    then []
    else note (not s.knowledge_available) (codes "No sufficiently relevant knowledge found")
      ++ note (ltb s.retrieval_score c.min_relevance_score)
          (codes "Knowledge relevance below threshold")
      ++ note (not s.grounded || ltb (grounding_component s) 5000)
          (codes "Answer not grounded in retrieved knowledge")

unfoldable pub breakdown_reasons : SupportAgentState → AiConfig → List Text
breakdown_reasons s c =
    knowledge_reasons s c
    ++ note s.human_requested (codes "Customer requested human agent")
    ++ note (intent_in s.intent c.restricted_intents)
        (codes "Intent " ++ intent_text s.intent ++ codes " requires human handling")
    ++ note (ltb (policy_score s c) 10000) (codes "Policy blocked auto-reply")

-- `bool(reasons)`
abbrev pub nonempty : List Text → Bool
nonempty [] = false
nonempty (r ∷ rs) = true

unfoldable pub breakdown_decision : SupportAgentState → AiConfig → List Text → ℕ → AgentDecision
breakdown_decision s c reasons final =
    let soft = s.policy_allows_ungrounded_send && not s.human_requested in
    if is_suggest c.mode
    then (if soft || not (nonempty reasons) then suggest_only else escalate_decision)
    else if soft
    then soft_reply
    else if nonempty reasons || ltb final (effective_confidence_threshold c)
    then escalate_decision
    else ai_resolve

module _ (weigh : ConfidenceComponents → ℕ) where
  unfoldable pub calculate_confidence_breakdown : SupportAgentState → AiConfig → ConfidenceBreakdown
  calculate_confidence_breakdown s c = record {
    final = weigh (components_of s c);
    components = components_of s c;
    decision = breakdown_decision s c (breakdown_reasons s c) (weigh (components_of s c));
    reasons = breakdown_reasons s c;
  }
