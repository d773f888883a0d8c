-- ===== src/Ai/Agent.antt =====
-- backend/app/modules/ai/graphs/support_agent.py: `_fallback_support_agent`, the steps of the agent in
-- order, with the relevance gate of infrastructure/retrieval/relevance_gate.py. What the language
-- model and the search return is the argument `Answers`; citations, trace, prompt version and the
-- summary that the model writes for an escalation are left out.
use ai_customer_support_plat.Prelude.{
  ℕ, max, ltb, leb, Bool, true, false, not, ◌&&◌, ◌||◌, List, [], ◌∷◌, ◌++◌, Option, none, some,
  if◌then◌else◌, Text, codes, is_empty, strip, upper,
}
use ai_customer_support_plat.Ai.State.{
  IntentLabel, MessageKind, PolicyAction, escalate, ai_resolve, suggest_only, soft_reply,
  ConfidenceComponents, SupportAgentState, AiConfig, text_in,
}
use ai_customer_support_plat.Ai.Policy.{
  kind_of, evaluate_early_policy, evaluate_no_kb_policy, is_soft_action, apply_policy_to_state,
}
use ai_customer_support_plat.Ai.Draft.{render_soft_draft}
use ai_customer_support_plat.Ai.Confidence.{calculate_confidence_breakdown}
use ai_customer_support_plat.Ai.Escalation.{evaluate_escalation}

-- `summary` is what the summarizer returned, `has_store` whether there are a session and an
-- organization, `documents` the scores of the ranked documents.
pub record Answers : Type 0 where
  pub summary : Option Text
  pub intent : IntentLabel
  pub confidence : ℕ
  pub message_kind : Option MessageKind
  pub message_kind_confidence : ℕ
  pub sentiment : Option Text
  pub requires_human : Bool
  pub has_store : Bool
  pub documents : List ℕ
  pub retrieval_score : ℕ
  pub answer : Text
  pub grounding_score : ℕ
  pub grounding_grounded : Bool

unfoldable pub normalize_sentiment : Option Text → Text
normalize_sentiment none = codes "NEUTRAL"
normalize_sentiment (some raw) =
    let value = upper (strip raw) in
    if text_in value (codes "POSITIVE" ∷ codes "NEUTRAL" ∷ codes "NEGATIVE" ∷ codes "ANGRY" ∷ [])
    then value
    else codes "NEUTRAL"

-- `max(d.score for d in docs)`
abbrev pub top_score : List ℕ → ℕ
top_score [] = 0
top_score (d ∷ ds) = max d (top_score ds)

-- `RelevanceGate.evaluate(...).passed`
unfoldable pub gate_passed : List ℕ → ℕ → Bool → Bool
gate_passed [] threshold require_knowledge = not require_knowledge
gate_passed (d ∷ ds) threshold require_knowledge = not (ltb (top_score (d ∷ ds)) threshold)

-- A text that replaces the other one when there is one.
abbrev pub or_keep : Option Text → Option Text → Option Text
or_keep none old = old
or_keep (some []) old = old
or_keep (some (c ∷ t)) old = some (c ∷ t)

unfoldable pub classify : (Text → Bool) → Answers → SupportAgentState → SupportAgentState
classify detect_human_request x s = record s {
  conversation_summary = or_keep x.summary s.conversation_summary;
  intent = some x.intent;
  intent_confidence = x.confidence;
  message_kind = some (kind_of x.message_kind);
  message_kind_confidence = x.message_kind_confidence;
  sentiment = normalize_sentiment x.sentiment;
  human_requested = detect_human_request s.user_message || x.requires_human;
}

unfoldable pub early : AiConfig → SupportAgentState → SupportAgentState
early c s =
    let d = evaluate_early_policy s c in
    let t = apply_policy_to_state s d in
    if is_soft_action (some d.action)
    then record t {
      draft_response = render_soft_draft t d c;
      grounded = false;
      knowledge_available = false;
    }
    else t

abbrev pub is_escalate : Option PolicyAction → Bool
is_escalate (some escalate) = true
is_escalate _ = false

unfoldable pub no_knowledge : AiConfig → SupportAgentState → SupportAgentState
no_knowledge c s =
    let d = evaluate_no_kb_policy s c in
    let t = record (apply_policy_to_state s d) { grounded = false } in
    if is_soft_action (some d.action)
    then record t { draft_response = render_soft_draft t d c }
    else record t {
      draft_response =
          codes
            "I don't have enough information in our knowledge base to answer that confidently. Regarding: "
          ++ s.user_message;
    }

unfoldable pub retrieve : Answers → AiConfig → SupportAgentState → SupportAgentState
retrieve x c s =
    let passed = gate_passed x.documents c.min_relevance_score c.require_knowledge in
    let t = record s {
      retrieved_documents = x.documents;
      retrieval_score = x.retrieval_score;
      knowledge_available = passed;
    } in
    if not x.has_store then s else if passed then t else no_knowledge c t

-- The generated answer, then the check of its grounding, which has the last word on `grounded`.
unfoldable pub answer : Answers → SupportAgentState → SupportAgentState
answer x s =
    if s.knowledge_available && is_empty s.draft_response
    then record s {
      draft_response = x.answer;
      grounding_score = x.grounding_score;
      grounded = x.grounding_grounded && leb 5000 x.grounding_score;
    }
    else s

unfoldable pub pursue : Answers → AiConfig → SupportAgentState → SupportAgentState
pursue x c s =
    if is_soft_action s.policy_action || is_escalate s.policy_action
    then s
    else answer x (retrieve x c s)

unfoldable pub weighed :
    (ConfidenceComponents → ℕ) → AiConfig → SupportAgentState → SupportAgentState
weighed weigh c s =
    let b = calculate_confidence_breakdown weigh s c in
    record s { support_confidence = b.final; confidence_breakdown = some b }

unfoldable pub finish : SupportAgentState → SupportAgentState
finish s = elim s.decision [
  | some ai_resolve ↦ record s { final_response = some s.draft_response }
  | some soft_reply ↦ record s { final_response = some s.draft_response }
  | some suggest_only ↦ record s {
    final_response = some s.draft_response;
    escalation_required = false;
  }
  | _ ↦ s
]

module _ (detect_human_request : Text → Bool) (show_score : ℕ → Text)
    (weigh : ConfidenceComponents → ℕ) where
  unfoldable pub fallback_support_agent : Answers → AiConfig → SupportAgentState → SupportAgentState
  fallback_support_agent x c s = finish (
      evaluate_escalation detect_human_request show_score
        (weighed weigh c (pursue x c (early c (classify detect_human_request x s)))) c)
