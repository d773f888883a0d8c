-- ===== src/Ai/Handover.antt =====
-- The whole run of `_fallback_support_agent`: when the customer is handed over, and when the agent resolves.
use ai_customer_support_plat.Prelude.{
  ℕ, ◌≡◌, ◌≤◌, ◌⊎◌, ◌∙◌, sym, ap, refl, inl, inr, Bool, true, false, some, Text, arith,
}
use ai_customer_support_plat.Ai.State.{
  escalate, ai_resolve, is_suggest, ConfidenceComponents, SupportAgentState, AiConfig,
}
use ai_customer_support_plat.Ai.Policy.{
  PolicyDecision, apply_action, apply_policy_to_state, evaluate_early_policy, evaluate_no_kb_policy,
}
use ai_customer_support_plat.Ai.Escalation.{evaluate_escalation}
use ai_customer_support_plat.Ai.Agent.{
  Answers, classify, early, no_knowledge, retrieve, answer, pursue, weighed, finish,
  fallback_support_agent,
}
use ai_customer_support_plat.Ai.Outcome.{
  IsSendable, IsEscalated, is_soft_path, evaluate_escalation_lem,
}
use ai_customer_support_plat.Ai.Soft.{needs_human, policies-IsCautious}

apply_policy-grounded :
    (s : SupportAgentState) (d : PolicyDecision) → (apply_policy_to_state s d).grounded ≡ s.grounded
unfolding apply_policy_to_state apply_action
apply_policy-grounded s d = ground arith

early-grounded :
    (c : AiConfig) (s : SupportAgentState) → (early c s).grounded ≡ true → s.grounded ≡ true
unfolding early
early-grounded c s h = ground (arith, apply_policy-grounded s (evaluate_early_policy s c))

module _ (x : Answers) (c : AiConfig) where
  retrieve-grounded : (s : SupportAgentState) → (retrieve x c s).grounded ≡ true → s.grounded ≡ true
  unfolding retrieve no_knowledge
  retrieve-grounded s h = ground (arith, apply_policy-grounded s (evaluate_no_kb_policy s c))

  -- The validator accepted the answer.
  abbrev pub IsValidated : Type 0
  IsValidated = (x.grounding_grounded ≡ true) × (5000 ≤ x.grounding_score)

  pursue-grounded :
      (s : SupportAgentState) → (pursue x c s).grounded ≡ true → (s.grounded ≡ true) ⊎ IsValidated
  unfolding pursue answer
  pursue-grounded s h = ground (arith, retrieve-grounded s)

-- With the policy on, a customer who needs a human is escalated early.
early-escalates :
    (c : AiConfig) (s : SupportAgentState)
    → c.response_policy_enabled ≡ true
    → needs_human s ≡ true
    → (evaluate_early_policy s c).action ≡ escalate
early-escalates c s on h = elim ((policies-IsCautious s c).0) [
  | inl p ↦ ground arith
  | inr q ↦ ground (arith, q.2)
]

finish-decision : (s : SupportAgentState) → (finish s).decision ≡ s.decision
unfolding finish
finish-decision s = ground arith

early-action :
    (c : AiConfig) (s : SupportAgentState)
    → (evaluate_early_policy s c).action ≡ escalate
    → (early c s).policy_action ≡ some escalate
unfolding early apply_policy_to_state apply_action
early-action c s e = rw e refl

pursue-escalate :
    (x : Answers) (c : AiConfig) (s : SupportAgentState)
    → s.policy_action ≡ some escalate
    → pursue x c s ≡ s
unfolding pursue
pursue-escalate x c s e = rw e refl

finish-escalated : (t : SupportAgentState) → IsEscalated t → finish t ≡ t
unfolding finish
finish-escalated t h = rw h.0 refl

module _ (detect : Text → Bool) (show_score : ℕ → Text) (weigh : ConfidenceComponents → ℕ)
    (x : Answers) (c : AiConfig) (s : SupportAgentState) where
  -- What `evaluate_escalation` is given.
  abbrev pub before : SupportAgentState
  before = weighed weigh c (pursue x c (early c (classify detect x s)))

  before-grounded : s.grounded ≡ false → before.grounded ≡ true → IsValidated x c
  unfolding weighed classify
  before-grounded h g = elim (pursue-grounded x c (early c (classify detect x s)) g) [
    | inl e ↦ absurd (ground (arith, early-grounded c (classify detect x s) e))
    | inr v ↦ v
  ]

  -- What it returns.
  abbrev decided : SupportAgentState
  decided = evaluate_escalation detect show_score before c

  -- Nothing is tried after an early escalation.
  pursue-early :
      c.response_policy_enabled ≡ true
      → needs_human (classify detect x s) ≡ true
      → pursue x c (early c (classify detect x s)) ≡ early c (classify detect x s)
  pursue-early on h =
      pursue-escalate x c _ (early-action c _ (early-escalates c (classify detect x s) on h))

  before-strict :
      c.response_policy_enabled ≡ true
      → needs_human (classify detect x s) ≡ true
      → is_soft_path before ≡ false
  unfolding weighed
  before-strict on h =
      rw (pursue-early on h, early-action c _ (early-escalates c (classify detect x s) on h))
        (ground arith)

  before-ungrounded :
      c.response_policy_enabled ≡ true
      → s.grounded ≡ false
      → needs_human (classify detect x s) ≡ true
      → ¬ (before.grounded ≡ true)
  unfolding weighed classify
  before-ungrounded on g h e = ground (
    arith,
    early-grounded c (classify detect x s) (sym (ap (λ t. t.grounded) (pursue-early on h)) ∙ e),
  )

  -- If the policy is on, the agent is not in the suggestion mode and starts from an ungrounded state,
  -- then a customer who asks for a human, or is classified so, or is angry, is handed over: the
  -- outcome is an escalation, with the flag set and a reason.
  pub fallback_support_agent-IsEscalated :
      c.response_policy_enabled ≡ true
      → is_suggest c.mode ≡ false
      → s.grounded ≡ false
      → needs_human (classify detect x s) ≡ true
      → IsEscalated (fallback_support_agent detect show_score weigh x c s)
  unfolding fallback_support_agent
  fallback_support_agent-IsEscalated on m g h =
      elim (evaluate_escalation_lem detect show_score before c) [
        | inl p ↦ absurd (ground (arith, p.0))
        | inr (inl p) ↦ absurd (ground (arith, p.1, before-strict on h))
        | inr (inr (inl p)) ↦ absurd (before-ungrounded on g h p.2.grounded)
        | inr (inr (inr p)) ↦ rw (finish-escalated decided p.3) p.3
      ]

  -- From an ungrounded state, the agent resolves a conversation only with an answer that the grounding
  -- check accepted with at least half of the full score, to a customer whose sentiment is not angry,
  -- with a relevant retrieval and a confidence that reaches both thresholds.
  pub fallback_support_agent-IsValidated :
      s.grounded ≡ false
      → (fallback_support_agent detect show_score weigh x c s).decision ≡ some ai_resolve
      → IsValidated x c × IsSendable detect before c
  unfolding fallback_support_agent
  fallback_support_agent-IsValidated g h =
      let decision : decided.decision ≡ some ai_resolve = sym (finish-decision decided) ∙ h in
      elim (evaluate_escalation_lem detect show_score before c) [
        | inl p ↦ absurd (ground (arith, sym p.1.0 ∙ decision))
        | inr (inl p) ↦ absurd (ground (arith, sym p.2.0 ∙ decision))
        | inr (inr (inl p)) ↦ (before-grounded g p.2.grounded, p.2)
        | inr (inr (inr p)) ↦ absurd (ground (arith, sym p.3.0 ∙ decision))
      ]
