-- ===== src/Ai/Draft.antt =====
-- backend/app/modules/ai/application/response_policy.py: the text of a soft reply.
use ai_customer_support_plat.Prelude.{
  Option, some, ◌++◌, if◌then◌else◌, Text, codes, is_empty, strip,
}
use ai_customer_support_plat.Ai.State.{
  MessageKind, identity, small_talk, PolicyAction, soft_refuse, clarify, SoftRefuseKind,
  insufficient_knowledge, SupportAgentState, AiConfig,
}
use ai_customer_support_plat.Ai.Policy.{PolicyDecision}

-- `value.strip() or default`
unfoldable pub or_default : Text → Text → Text
or_default value default = if is_empty (strip value) then default else strip value

unfoldable pub scope : AiConfig → Text
scope c = or_default c.assistant_scope_summary (
    codes "password resets, account access, billing questions, and other topics in our help center")

unfoldable pub name : AiConfig → Text
name c = or_default c.assistant_display_name (codes "Support Assistant")

unfoldable pub clarify_draft : AiConfig → Text
clarify_draft c =
    codes "Happy to help. Could you share a bit more about what you need? I can assist with "
    ++ scope c
    ++ codes "."

unfoldable pub refuse_draft : Option SoftRefuseKind → AiConfig → Text
refuse_draft (some insufficient_knowledge) c =
    codes
      "I don't have enough information in our knowledge base to answer that confidently. I can help with "
    ++ scope c
    ++ codes ". If you'd like, I can connect you with a human agent."
refuse_draft _ c =
    codes "That's outside what I can help with. I focus on "
    ++ scope c
    ++ codes ". Would you like me to connect you with a human agent?"

unfoldable pub safe_draft : Option MessageKind → AiConfig → Text
safe_draft (some identity) c =
    codes "I'm "
    ++ name c
    ++ codes ", an AI support assistant. I can help with "
    ++ scope c
    ++ codes ". What can I help you with today?"
safe_draft (some small_talk) c =
    codes "You're welcome! If you need anything else, I can help with " ++ scope c ++ codes "."
safe_draft _ c =
    codes "Hello! I'm "
    ++ name c
    ++ codes ". I can help with "
    ++ scope c
    ++ codes ". How can I assist you today?"

unfoldable pub draft_for : PolicyAction → SupportAgentState → PolicyDecision → AiConfig → Text
draft_for clarify s d c = clarify_draft c
draft_for soft_refuse s d c = refuse_draft d.soft_refuse_kind c
draft_for _ s d c = safe_draft s.message_kind c

unfoldable pub render_soft_draft : SupportAgentState → PolicyDecision → AiConfig → Text
render_soft_draft s d c = draft_for d.action s d c
