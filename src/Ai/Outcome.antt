-- ===== src/Ai/Outcome.antt =====
-- What the agent decides in the end.
use ai_customer_support_plat.Prelude.{
  ℕ, ◌≡◌, ◌≤◌, ◌⊎◌, ◌∙◌, ap, refl, inl, inr, ltb, leb, Bool, true, false, not, ◌&&◌, ◌||◌, List, [],
  ◌∷◌, ◌++◌, some, Text, is_some, upper, arith, Bool-cases,
}
use ai_customer_support_plat.Ai.State.{
  is_other, AgentDecision, ai_resolve, escalate_decision, suggest_only, soft_reply, is_suggest,
  SupportAgentState, AiConfig, is_angry,
}
use ai_customer_support_plat.Ai.Policy.{is_soft_action}
use ai_customer_support_plat.Ai.Confidence.{
  note, intent_in, nonempty, effective_confidence_threshold,
}
use ai_customer_support_plat.Ai.Escalation.{
  dedupe, given_reasons, is_not_allowed, collected_reasons, to_send, to_escalate, judge,
  evaluate_escalation,
}

-- A message that the answer may be sent for: there is no reason against it.
pub record IsSendable (detect : Text → Bool) (s : SupportAgentState) (c : AiConfig) : Type 0 where
  pub no_reason : given_reasons s.confidence_breakdown ≡ []
  pub not_asked : (s.human_requested || detect s.user_message) ≡ false
  pub calm : is_angry (upper s.sentiment) ≡ false
  pub known_intent : (is_other s.intent && c.escalate_if_unknown) ≡ false
  pub unrestricted : intent_in s.intent c.restricted_intents ≡ false
  pub allowed : is_not_allowed s c ≡ false
  pub relevant : c.min_relevance_score ≤ s.retrieval_score
  pub grounded : s.grounded ≡ true
  pub automatic : c.auto_reply_threshold ≤ s.support_confidence
  pub unescalated : c.escalation_threshold ≤ s.support_confidence

abbrev pub is_soft_path : SupportAgentState → Bool
is_soft_path s = s.policy_allows_ungrounded_send && is_soft_action s.policy_action

abbrev pub IsSent : AgentDecision → SupportAgentState → Type 0
IsSent d t = (t.decision ≡ some d) × (t.escalation_required ≡ false)

abbrev pub IsEscalated : SupportAgentState → Type 0
IsEscalated t =
    (t.decision ≡ some escalate_decision)
    × (t.escalation_required ≡ true)
    × (is_some t.escalation_reason ≡ true)

-- The four outcomes.
abbrev pub IsOutcome : (Text → Bool) → AiConfig → SupportAgentState → SupportAgentState → Type 0
IsOutcome detect c s t =
    ((is_suggest c.mode ≡ true) × IsSent suggest_only t)
    ⊎ ((is_suggest c.mode ≡ false) × (is_soft_path s ≡ true) × IsSent soft_reply t)
    ⊎ ((is_suggest c.mode ≡ false)
        × (is_soft_path s ≡ false)
        × IsSendable detect s c
        × IsSent ai_resolve t)
    ⊎ ((is_suggest c.mode ≡ false)
        × (is_soft_path s ≡ false)
        × ¬ IsSendable detect s c
        × IsEscalated t)

nonempty-append : (xs ys : List Text) → nonempty (xs ++ ys) ≡ (nonempty xs || nonempty ys)
nonempty-append [] ys = refl
nonempty-append (x ∷ xs) ys = refl

nonempty-note : (b : Bool) (r : Text) → nonempty (note b r) ≡ b
unfolding note
nonempty-note true r = refl
nonempty-note false r = refl

nonempty-dedupe : (xs : List Text) → nonempty (dedupe xs) ≡ nonempty xs
unfolding dedupe
nonempty-dedupe [] = refl
nonempty-dedupe (x ∷ xs) = refl

nonempty-[] : (xs : List Text) → nonempty xs ≡ false → xs ≡ []
nonempty-[] [] h = refl
nonempty-[] (x ∷ xs) h = ground arith

module _ (detect : Text → Bool) (show_score : ℕ → Text) where
  -- Whether there is a reason, as one test.
  has_reason : SupportAgentState → AiConfig → Bool
  has_reason s c =
      nonempty (given_reasons s.confidence_breakdown)
      || ((s.human_requested || detect s.user_message)
          || (is_angry (upper s.sentiment)
              || ((is_other s.intent && c.escalate_if_unknown)
                  || (intent_in s.intent c.restricted_intents
                      || (is_not_allowed s c
                          || (ltb s.retrieval_score c.min_relevance_score
                              || ((not s.grounded && s.knowledge_available)
                                  || ltb s.support_confidence
                                      (effective_confidence_threshold c))))))))

  nonempty-reasons :
      (s : SupportAgentState) (c : AiConfig)
      → nonempty (dedupe (collected_reasons detect show_score s c)) ≡ has_reason s c
  unfolding collected_reasons has_reason
  nonempty-reasons s c = simp (nonempty-dedupe, nonempty-append, nonempty-note) (ground arith)

  has_reason-IsSendable :
      (s : SupportAgentState) (c : AiConfig)
      → (has_reason s c ≡ false) × (s.grounded ≡ true)
      → IsSendable detect s c
  unfolding has_reason effective_confidence_threshold
  has_reason-IsSendable s c h = record {
    no_reason = nonempty-[] _ (ground arith);
    not_asked = ground arith;
    calm = ground arith;
    known_intent = ground arith;
    unrestricted = ground arith;
    allowed = ground arith;
    relevant = ground arith;
    grounded = h.1;
    automatic = ground arith;
    unescalated = ground arith;
  }

  IsSendable-has_reason :
      (s : SupportAgentState) (c : AiConfig) → IsSendable detect s c → has_reason s c ≡ false
  unfolding has_reason effective_confidence_threshold
  IsSendable-has_reason s c h =
      rw
        (
          ap nonempty h.no_reason,
          h.not_asked,
          h.calm,
          h.known_intent,
          h.unrestricted,
          h.allowed,
          h.grounded,
        )
        (ground (arith, h.relevant, h.automatic, h.unescalated))

  has_reason-confident :
      (s : SupportAgentState) (c : AiConfig)
      → has_reason s c ≡ false
      → leb (effective_confidence_threshold c) s.support_confidence ≡ true
  unfolding has_reason
  has_reason-confident s c h = ground arith

  ready :
      (s : SupportAgentState) (c : AiConfig) (b : Bool)
      → has_reason s c ≡ false
      → s.grounded ≡ b
      → (leb (effective_confidence_threshold c) s.support_confidence && s.grounded) ≡ b
  ready s c b h g = rw (has_reason-confident s c h) g

  judge-suggest :
      (s : SupportAgentState) (c : AiConfig) (reasons : List Text)
      → is_suggest c.mode ≡ true
      → judge s c reasons ≡ to_send s suggest_only
  unfolding judge
  judge-suggest s c reasons m = rw m refl

  judge_lem :
      (s : SupportAgentState) (c : AiConfig) (reasons : List Text)
      → is_suggest c.mode ≡ false
      → nonempty reasons ≡ has_reason s c
      → (IsSendable detect s c
          × ((judge s c reasons).decision ≡ some ai_resolve)
          × ((judge s c reasons).escalation_required ≡ false))
        ⊎ ((¬ IsSendable detect s c)
            × ((judge s c reasons).decision ≡ some escalate_decision)
            × ((judge s c reasons).escalation_required ≡ true)
            × (is_some (judge s c reasons).escalation_reason ≡ true))
  unfolding judge to_escalate
  judge_lem s c reasons m e = elim (Bool-cases (has_reason s c)) [
    | inl reason ↦
        rw (m, e ∙ reason)
          (inr (λ i. ground (arith, IsSendable-has_reason s c i), refl, refl, refl))
    | inr without ↦ elim (Bool-cases s.grounded) [
      | inl grounded ↦
          rw (m, e ∙ without, ready s c true without grounded)
            (inl (has_reason-IsSendable s c (without, grounded), refl, refl))
      | inr ungrounded ↦
          rw (m, e ∙ without, ready s c false without ungrounded)
            (inr (λ i. ground (arith, i.grounded, ungrounded), refl, refl, refl))
    ]
  ]

  -- In the suggestion mode the outcome is a suggestion; else, on the soft path, a soft reply; else, the
  -- answer is resolved if it is sendable, and escalated, with the flag set and a reason, if it is not.
  pub evaluate_escalation_lem :
      (s : SupportAgentState) (c : AiConfig)
      → IsOutcome detect c s (evaluate_escalation detect show_score s c)
  unfolding evaluate_escalation to_send
  evaluate_escalation_lem s c = elim (Bool-cases (is_suggest c.mode)) [
    | inl m ↦ elim (Bool-cases (is_soft_path s)) [
      | inl soft ↦ rw (soft, m) (inl (refl, (refl, refl)))
      | inr strict ↦ rw (strict, judge-suggest s c _ m) (inl (m, (refl, refl)))
    ]
    | inr m ↦ elim (Bool-cases (is_soft_path s)) [
      | inl soft ↦ rw (soft, m) (inr (inl (refl, refl, (refl, refl))))
      | inr strict ↦ elim (judge_lem s c _ m (nonempty-reasons s c)) [
        | inl p ↦ rw strict (inr (inr (inl (m, refl, p.0, (p.1, p.2)))))
        | inr q ↦ rw strict (inr (inr (inr (m, refl, q.0, (q.1, q.2, q.3)))))
      ]
    ]
  ]
