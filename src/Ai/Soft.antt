-- ===== src/Ai/Soft.antt =====
-- Which messages may be answered without knowledge behind the answer.
use ai_customer_support_plat.Prelude.{
  ◌≡◌, ◌≢◌, ◌⊎◌, Bool, true, false, ◌&&◌, ◌||◌, some, upper, arith,
}
use ai_customer_support_plat.Ai.State.{
  soft_refuse, escalate, refuse_domain, SupportAgentState, AiConfig, is_angry,
}
use ai_customer_support_plat.Ai.Policy.{
  PolicyDecision, is_human_request, is_out_of_domain, evaluate_early_policy, evaluate_no_kb_policy,
  is_soft_action,
}

-- The customer wants a human, or is angry.
abbrev pub needs_human : SupportAgentState → Bool
needs_human s =
    (s.human_requested || is_human_request s.message_kind) || is_angry (upper s.sentiment)

-- An answer without knowledge, which needs the policy on and a customer who needs no human, or the
-- others.
abbrev pub IsCautious : SupportAgentState → AiConfig → PolicyDecision → Type 0
IsCautious s c d =
    ((d.allow_ungrounded_send ≡ true)
      × (is_soft_action (some d.action) ≡ true)
      × (c.response_policy_enabled ≡ true)
      × (needs_human s ≡ false))
    ⊎ ((d.allow_ungrounded_send ≡ false)
        × (is_soft_action (some d.action) ≡ false)
        × (((c.response_policy_enabled && needs_human s) ≡ false) ⊎ (d.action ≡ escalate)))

-- A message is called out of the domain only if it was classified so.
abbrev pub IsHonest : SupportAgentState → PolicyDecision → Type 0
IsHonest s d = (d.soft_refuse_kind ≢ some refuse_domain) ⊎ (is_out_of_domain s.message_kind ≡ true)

-- Both policies give an answer without knowledge only together with a soft action, only when the
-- policy is enabled and only to a customer who neither asked for a human nor is angry; with the
-- policy enabled they escalate every other customer; neither calls a message out of the domain that
-- was not classified so; and without knowledge the answer is an escalation or a soft refusal.
pub policies-IsCautious :
    (s : SupportAgentState) (c : AiConfig)
    → IsCautious s c (evaluate_early_policy s c)
      × IsCautious s c (evaluate_no_kb_policy s c)
      × IsHonest s (evaluate_early_policy s c)
      × IsHonest s (evaluate_no_kb_policy s c)
      × (((evaluate_no_kb_policy s c).action ≡ escalate)
          ⊎ ((evaluate_no_kb_policy s c).action ≡ soft_refuse))
unfolding evaluate_early_policy evaluate_no_kb_policy
policies-IsCautious s c = (ground arith, ground arith, ground arith, ground arith, ground arith)
