-- ===== src/Ai/Policy.antt =====
-- backend/app/modules/ai/application/response_policy.py: the early policy, the policy without knowledge
-- and their effect on the state.
use ai_customer_support_plat.Prelude.{
  ℕ, ◌==◌, ltb, Bool, true, false, not, ◌&&◌, ◌||◌, List, [], ◌∷◌, ◌++◌, Option, none, some,
  if◌then◌else◌, Text, codes, upper,
}
use ai_customer_support_plat.Ai.State.{
  MessageKind, greeting, identity, small_talk, support_request, human_request, out_of_domain,
  unclear, PolicyAction, safe_reply, soft_refuse, continue_support, escalate, clarify,
  SoftRefuseKind, refuse_domain, insufficient_knowledge, SupportAgentState, AiConfig, is_angry,
}

pub record PolicyDecision : Type 0 where
  pub action : PolicyAction
  pub allow_ungrounded_send : Bool
  pub reasons : List Text
  pub soft_refuse_kind : Option SoftRefuseKind

-- `kind in _SOFT_KINDS`
abbrev pub is_soft_kind : MessageKind → Bool
is_soft_kind greeting = true
is_soft_kind identity = true
is_soft_kind small_talk = true
is_soft_kind _ = false

abbrev pub is_human_request : Option MessageKind → Bool
is_human_request (some human_request) = true
is_human_request _ = false

abbrev pub is_out_of_domain : Option MessageKind → Bool
is_out_of_domain (some out_of_domain) = true
is_out_of_domain _ = false

abbrev pub is_unclear : MessageKind → Bool
is_unclear unclear = true
is_unclear _ = false

-- `state.message_kind or MessageKind.SUPPORT_REQUEST`
abbrev pub kind_of : Option MessageKind → MessageKind
kind_of none = support_request
kind_of (some k) = k

abbrev pub kind_value : MessageKind → Text
kind_value greeting = codes "GREETING"
kind_value identity = codes "IDENTITY"
kind_value small_talk = codes "SMALL_TALK"
kind_value support_request = codes "SUPPORT_REQUEST"
kind_value human_request = codes "HUMAN_REQUEST"
kind_value out_of_domain = codes "OUT_OF_DOMAIN"
kind_value unclear = codes "UNCLEAR"

-- A decision without a kind of refusal, and one with it.
abbrev pub plain : PolicyAction → Bool → Text → PolicyDecision
plain action send reason = record {
  action = action;
  allow_ungrounded_send = send;
  reasons = reason ∷ [];
  soft_refuse_kind = none;
}

abbrev pub refusal : PolicyAction → Bool → Text → SoftRefuseKind → PolicyDecision
refusal action send reason kind = record {
  action = action;
  allow_ungrounded_send = send;
  reasons = reason ∷ [];
  soft_refuse_kind = some kind;
}

abbrev pub human_decision : PolicyDecision
human_decision = plain escalate false (codes "Customer requested a human agent")

abbrev pub sentiment_decision : Text → PolicyDecision
sentiment_decision s = plain escalate false (codes "Customer sentiment: " ++ s)

-- `float(getattr(config, "safe_reply_min_kind_confidence", 0.55) or 0.55)`
unfoldable pub min_kind_confidence : AiConfig → ℕ
min_kind_confidence c =
    if c.safe_reply_min_kind_confidence == 0 then 5500 else c.safe_reply_min_kind_confidence

unfoldable pub evaluate_early_policy : SupportAgentState → AiConfig → PolicyDecision
evaluate_early_policy s c =
    let kind = kind_of s.message_kind in
    if not c.response_policy_enabled
    then plain continue_support false (codes "Response policy disabled")
    else if s.human_requested || is_human_request s.message_kind
    then human_decision
    else if is_angry (upper s.sentiment)
    then sentiment_decision (upper s.sentiment)
    else if is_soft_kind kind && ltb s.message_kind_confidence (min_kind_confidence c)
    then plain continue_support false (codes "Message kind confidence below safe-reply threshold")
    else if c.soft_reply_greetings && is_soft_kind kind
    then plain safe_reply true (codes "Safe reply for " ++ kind_value kind)
    else if is_out_of_domain (some kind)
    then if c.ood_escalates
      then refusal escalate false (codes "Out-of-domain message (ood_escalates)") refuse_domain
      else if c.ood_soft_refuse
      then refusal soft_refuse true (codes "Out-of-domain soft refuse") refuse_domain
      else refusal escalate false (codes "Out-of-domain without soft refuse") refuse_domain
    else if is_unclear kind
    then plain clarify true (codes "Unclear message — ask for clarification")
    else plain continue_support false (codes "Continue support pipeline")

unfoldable pub evaluate_no_kb_policy : SupportAgentState → AiConfig → PolicyDecision
evaluate_no_kb_policy s c =
    if not c.response_policy_enabled
    then refusal escalate false (codes "No knowledge (policy disabled — legacy escalate)")
        insufficient_knowledge
    else if s.human_requested || is_human_request s.message_kind
    then human_decision
    else if is_angry (upper s.sentiment)
    then sentiment_decision (upper s.sentiment)
    else if is_out_of_domain s.message_kind
    then if c.ood_escalates
      then refusal escalate false (codes "Out-of-domain after retrieval (ood_escalates)")
          refuse_domain
      else if c.ood_soft_refuse
      then refusal soft_refuse true (codes "Out-of-domain soft refuse") refuse_domain
      else refusal escalate false (codes "Out-of-domain without soft refuse") refuse_domain
    else if c.ood_escalates
    then refusal escalate false (codes "Support request with insufficient knowledge — escalate")
        insufficient_knowledge
    else if c.ood_soft_refuse
    then refusal soft_refuse true
        (codes "Support request with insufficient knowledge — soft refuse") insufficient_knowledge
    else refusal escalate false (codes "Support request with insufficient knowledge — escalate")
        insufficient_knowledge

-- `_SOFT_ACTIONS`, `_SOFT_POLICY_ACTIONS`
abbrev pub is_soft_action : Option PolicyAction → Bool
is_soft_action (some safe_reply) = true
is_soft_action (some soft_refuse) = true
is_soft_action (some clarify) = true
is_soft_action _ = false

-- `"; ".join(reasons)`
unfoldable pub join : List Text → Text
join [] = []
join (r ∷ []) = r
join (r ∷ s ∷ rs) = r ++ codes "; " ++ join (s ∷ rs)

unfoldable pub policy_reason : List Text → Text
policy_reason [] = codes "Policy escalate"
policy_reason (r ∷ rs) = join (r ∷ rs)

-- The first three assignments, then the branch on the action.
abbrev pub with_decision : SupportAgentState → PolicyDecision → SupportAgentState
with_decision s d = record s {
  policy_action = some d.action;
  policy_allows_ungrounded_send = d.allow_ungrounded_send;
  soft_refuse_kind = d.soft_refuse_kind;
}

unfoldable pub apply_action : PolicyAction → PolicyDecision → SupportAgentState → SupportAgentState
apply_action continue_support d s = s
apply_action escalate d s = record s {
  escalation_required = true;
  escalation_reason = some (policy_reason d.reasons);
}
apply_action _ d s = record s { escalation_required = false; escalation_reason = none }

unfoldable pub apply_policy_to_state : SupportAgentState → PolicyDecision → SupportAgentState
apply_policy_to_state s d = apply_action d.action d (with_decision s d)
