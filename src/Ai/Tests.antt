-- ===== src/Ai/Tests.antt =====
-- A calm customer with a documented question, and one who asks for a human.
use ai_customer_support_plat.Prelude.{
  ℕ, ◌≡◌, ◌⊎◌, refl, Bool, true, false, [], ◌∷◌, none, some, Text, codes, text_eq, is_empty, strip,
  lstrip, is_space, upper, upper_code,
}
use ai_customer_support_plat.Ai.State.{
  billing, support_request, escalate, soft_refuse, ai_resolve, auto_reply, ConfidenceComponents,
  SupportAgentState, AiConfig, is_angry, intent_value, text_in,
}
use ai_customer_support_plat.Ai.Policy.{
  join, policy_reason, min_kind_confidence, evaluate_early_policy, evaluate_no_kb_policy,
  apply_action, apply_policy_to_state,
}
use ai_customer_support_plat.Ai.Draft.{
  or_default, scope, name, clarify_draft, refuse_draft, safe_draft, draft_for, render_soft_draft,
}
use ai_customer_support_plat.Ai.Confidence.{
  context_completeness, response_validation_score, policy_score, grounding_component, components_of,
  note, effective_confidence_threshold, knowledge_reasons, breakdown_reasons, breakdown_decision,
  calculate_confidence_breakdown,
}
use ai_customer_support_plat.Ai.Escalation.{
  dedupe, collected_reasons, to_send, to_escalate, judge, evaluate_escalation,
}
use ai_customer_support_plat.Ai.Agent.{
  Answers, normalize_sentiment, gate_passed, classify, early, no_knowledge, retrieve, answer,
  pursue, weighed, finish, fallback_support_agent,
}
use ai_customer_support_plat.Ai.Soft.{IsCautious, IsHonest, policies-IsCautious}
use ai_customer_support_plat.Ai.Outcome.{
  IsSendable, IsEscalated, IsOutcome, evaluate_escalation_lem,
}
use ai_customer_support_plat.Ai.Handover.{
  IsValidated, before, fallback_support_agent-IsEscalated, fallback_support_agent-IsValidated,
}

service : Unit {0}
unfolding text_eq is_empty strip lstrip is_space upper upper_code is_angry intent_value text_in join
    policy_reason min_kind_confidence evaluate_early_policy evaluate_no_kb_policy apply_action
    apply_policy_to_state or_default scope name clarify_draft refuse_draft safe_draft draft_for
    render_soft_draft context_completeness response_validation_score policy_score
    grounding_component components_of note effective_confidence_threshold knowledge_reasons
    breakdown_reasons breakdown_decision calculate_confidence_breakdown dedupe collected_reasons
    to_send to_escalate judge evaluate_escalation normalize_sentiment gate_passed classify early
    no_knowledge retrieve answer pursue weighed finish fallback_support_agent
service = tt

abbrev settings : AiConfig
settings = record {
  enabled = true;
  mode = auto_reply;
  escalate_if_unknown = true;
  restricted_intents = [];
  allowed_intents = [];
  min_relevance_score = 3500;
  escalation_threshold = 6000;
  auto_reply_threshold = 8500;
  require_knowledge = true;
  response_policy_enabled = true;
  soft_reply_greetings = true;
  ood_soft_refuse = true;
  ood_escalates = false;
  safe_reply_min_kind_confidence = 5500;
  assistant_scope_summary = [];
  assistant_display_name = [];
}

abbrev fresh_state : Text → SupportAgentState
fresh_state message = record {
  customer_name = none;
  has_history = false;
  conversation_summary = none;
  human_controlled = false;
  user_message = message;
  intent = none;
  intent_confidence = 0;
  message_kind = none;
  message_kind_confidence = 0;
  retrieved_documents = [];
  retrieval_score = 0;
  knowledge_available = true;
  draft_response = [];
  grounded = false;
  grounding_score = 0;
  support_confidence = 0;
  confidence_breakdown = none;
  sentiment = codes "NEUTRAL";
  escalation_required = false;
  escalation_reason = none;
  decision = none;
  final_response = none;
  human_requested = false;
  policy_action = none;
  policy_allows_ungrounded_send = false;
  soft_refuse_kind = none;
}

abbrev answers : Answers
answers = record {
  summary = none;
  intent = billing;
  confidence = 9000;
  message_kind = some support_request;
  message_kind_confidence = 9000;
  sentiment = some (codes "neutral");
  requires_human = false;
  has_store = true;
  documents = 9000 ∷ 7000 ∷ [];
  retrieval_score = 8600;
  answer = codes "Open Billing.";
  grounding_score = 9000;
  grounding_grounded = true;
}

abbrev detect : Text → Bool
detect m = text_eq m (codes "human agent")

abbrev no_digits : ℕ → Text
no_digits n = []

abbrev by_grounding : ConfidenceComponents → ℕ
by_grounding k = k.grounding

abbrev question : SupportAgentState
question = fresh_state (codes "Where is my invoice?")

abbrev plea : SupportAgentState
plea = fresh_state (codes "human agent")

resolved_test :
    ((fallback_support_agent detect no_digits by_grounding answers settings question).decision
      ≡ some ai_resolve)
    × ((fallback_support_agent detect no_digits by_grounding answers settings
          question).final_response
        ≡ some (codes "Open Billing."))
unfolding service
resolved_test = (refl, refl)

policies-IsCautious_example :
    IsCautious question settings (evaluate_early_policy question settings)
    × IsCautious question settings (evaluate_no_kb_policy question settings)
    × IsHonest question (evaluate_early_policy question settings)
    × IsHonest question (evaluate_no_kb_policy question settings)
    × (((evaluate_no_kb_policy question settings).action ≡ escalate)
        ⊎ ((evaluate_no_kb_policy question settings).action ≡ soft_refuse))
policies-IsCautious_example = policies-IsCautious question settings

evaluate_escalation_lem_example :
    IsOutcome detect settings question (evaluate_escalation detect no_digits question settings)
evaluate_escalation_lem_example = evaluate_escalation_lem detect no_digits question settings

fallback_support_agent-IsEscalated_example :
    IsEscalated (fallback_support_agent detect no_digits by_grounding answers settings plea)
unfolding service
fallback_support_agent-IsEscalated_example =
    fallback_support_agent-IsEscalated detect no_digits by_grounding answers settings plea refl refl
      refl refl

fallback_support_agent-IsValidated_example :
    IsValidated answers settings
    × IsSendable detect (before detect no_digits by_grounding answers settings question) settings
unfolding service
fallback_support_agent-IsValidated_example =
    fallback_support_agent-IsValidated detect no_digits by_grounding answers settings question refl
      refl
