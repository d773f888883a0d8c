-- ===== src/Ai/State.antt =====
-- backend/app/modules/ai/domain/schemas.py and domain/models.py: the state of the support agent and the
-- configuration that its steps read. A score is a float of which the steps use the order alone, so
-- it is read as a number of ten-thousandths. The fields that no modelled step reads are left out.
use ai_customer_support_plat.Prelude.{
  ℕ, Bool, true, false, List, [], ◌∷◌, Option, some, Text, codes, text_eq, any,
}

pub data IntentLabel : Type 0 where
  general_question account_access billing technical_issue bug_report : IntentLabel
  feature_request refund cancellation other : IntentLabel

-- `IntentLabel.value`
unfoldable pub intent_value : IntentLabel → Text
intent_value general_question = codes "GENERAL_QUESTION"
intent_value account_access = codes "ACCOUNT_ACCESS"
intent_value billing = codes "BILLING"
intent_value technical_issue = codes "TECHNICAL_ISSUE"
intent_value bug_report = codes "BUG_REPORT"
intent_value feature_request = codes "FEATURE_REQUEST"
intent_value refund = codes "REFUND"
intent_value cancellation = codes "CANCELLATION"
intent_value other = codes "OTHER"

abbrev pub is_other : Option IntentLabel → Bool
is_other (some other) = true
is_other _ = false

pub data MessageKind : Type 0 where
  greeting identity small_talk support_request human_request out_of_domain unclear : MessageKind

pub data PolicyAction : Type 0 where
  safe_reply soft_refuse continue_support escalate clarify : PolicyAction

pub data SoftRefuseKind : Type 0 where
  refuse_domain insufficient_knowledge : SoftRefuseKind

pub data AgentDecision : Type 0 where
  ai_resolve escalate_decision suggest_only soft_reply : AgentDecision

pub data AiMode : Type 0 where
  draft_only suggest auto_reply : AiMode

abbrev pub is_suggest : AiMode → Bool
is_suggest suggest = true
is_suggest _ = false

-- `text in texts`
unfoldable pub text_in : Text → List Text → Bool
text_in s ts = any (text_eq s) ts

-- The components that the weighted confidence is made of.
pub record ConfidenceComponents : Type 0 where
  pub intent : ℕ
  pub retrieval : ℕ
  pub grounding : ℕ
  pub context : ℕ
  pub policy : ℕ
  pub response_validation : ℕ

pub record ConfidenceBreakdown : Type 0 where
  pub final : ℕ
  pub components : ConfidenceComponents
  pub decision : AgentDecision
  pub reasons : List Text

-- `retrieved_documents` by their scores, `customer_name` the name in the customer's context,
-- `has_history` whether the conversation has earlier turns.
pub record SupportAgentState : Type 0 where
  pub customer_name : Option Text
  pub has_history : Bool
  pub conversation_summary : Option Text
  pub human_controlled : Bool
  pub user_message : Text
  pub intent : Option IntentLabel
  pub intent_confidence : ℕ
  pub message_kind : Option MessageKind
  pub message_kind_confidence : ℕ
  pub retrieved_documents : List ℕ
  pub retrieval_score : ℕ
  pub knowledge_available : Bool
  pub draft_response : Text
  pub grounded : Bool
  pub grounding_score : ℕ
  pub support_confidence : ℕ
  pub confidence_breakdown : Option ConfidenceBreakdown
  pub sentiment : Text
  pub escalation_required : Bool
  pub escalation_reason : Option Text
  pub decision : Option AgentDecision
  pub final_response : Option Text
  pub human_requested : Bool
  pub policy_action : Option PolicyAction
  pub policy_allows_ungrounded_send : Bool
  pub soft_refuse_kind : Option SoftRefuseKind

-- `RuntimeAIConfig`, with the fields of the three configuration protocols.
pub record AiConfig : Type 0 where
  pub enabled : Bool
  pub mode : AiMode
  pub escalate_if_unknown : Bool
  pub restricted_intents : List Text
  pub allowed_intents : List Text
  pub min_relevance_score : ℕ
  pub escalation_threshold : ℕ
  pub auto_reply_threshold : ℕ
  pub require_knowledge : Bool
  pub response_policy_enabled : Bool
  pub soft_reply_greetings : Bool
  pub ood_soft_refuse : Bool
  pub ood_escalates : Bool
  pub safe_reply_min_kind_confidence : ℕ
  pub assistant_scope_summary : Text
  pub assistant_display_name : Text

-- `sentiment in {"ANGRY", "NEGATIVE", "FRUSTRATED"}`, of a sentiment in upper case
unfoldable pub is_angry : Text → Bool
unfolding text_in text_eq
is_angry s = text_in s (codes "ANGRY" ∷ codes "NEGATIVE" ∷ codes "FRUSTRATED" ∷ [])
