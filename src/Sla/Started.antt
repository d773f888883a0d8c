-- ===== src/Sla/Started.antt =====
-- What `start_timers_for_conversation` guarantees.
use ai_customer_support_plat.Prelude.{
  ℕ, ◌≡◌, refl, inl, inr, Bool, true, ◌||◌, List, [], ◌∷◌, ◌++◌, Option, ==_refl, any, arith,
  Bool-cases,
}
use ai_customer_support_plat.Domain.{
  Priority, SlaPolicy, SlaTimer, SlaTimerType, first_response, resolution,
}
use ai_customer_support_plat.Hours.Calendar.{BusinessHours}
use ai_customer_support_plat.Sla.Service.{
  type_eq, is_current, start_one, start_policies, start_timers, matching_policies,
}

any-append_all :
    (p : SlaTimer → Bool) (ts us : List SlaTimer) → any p (ts ++ us) ≡ (any p ts || any p us)
any-append_all p [] us = refl
any-append_all p (t ∷ ts) us = ground (arith, any-append_all p ts us)

type_eq_refl : (ty : SlaTimerType) → type_eq ty ty ≡ true
type_eq_refl first_response = refl
type_eq_refl resolution = refl

module _ (to_local to_utc : ℕ → ℕ) (hours : Option BusinessHours) (now org cid : ℕ) where
  start_one-starts :
      (policy : ℕ) (ty : SlaTimerType) (minutes : ℕ) (ts : List SlaTimer)
      → any (is_current cid ty) (start_one to_local to_utc hours now org cid policy ty minutes ts)
        ≡ true
  unfolding start_one
  start_one-starts policy ty minutes ts = elim (Bool-cases (any (is_current cid ty) ts)) [
    | inl existing ↦ rw existing existing
    | inr fresh ↦
        rw (fresh, any-append_all (is_current cid ty) ts, ==_refl cid, type_eq_refl ty)
          (ground arith)
  ]

  start_one-keeps :
      (p : SlaTimer → Bool) (policy : ℕ) (ty : SlaTimerType) (minutes : ℕ) (ts : List SlaTimer)
      → any p ts ≡ true
      → any p (start_one to_local to_utc hours now org cid policy ty minutes ts) ≡ true
  unfolding start_one
  start_one-keeps p policy ty minutes ts h = elim (Bool-cases (any (is_current cid ty) ts)) [
    | inl existing ↦ rw existing h
    | inr fresh ↦ rw (fresh, any-append_all p ts, h) refl
  ]

  start_policies-keeps :
      (p : SlaTimer → Bool) (ps : List SlaPolicy) (ts : List SlaTimer)
      → any p ts ≡ true
      → any p (start_policies to_local to_utc hours now org cid ps ts) ≡ true
  unfolding start_policies
  start_policies-keeps p [] ts h = h
  start_policies-keeps p (q ∷ ps) ts h = start_policies-keeps p ps _ (
      start_one-keeps p q.id resolution q.resolution_minutes _
        (start_one-keeps p q.id first_response q.first_response_minutes ts h))

  start_policies-starts :
      (ty : SlaTimerType) (p : SlaPolicy) (ps : List SlaPolicy) (ts : List SlaTimer)
      → any (is_current cid ty) (start_policies to_local to_utc hours now org cid (p ∷ ps) ts)
        ≡ true
  unfolding start_policies
  start_policies-starts first_response p ps ts =
      start_policies-keeps (is_current cid first_response) ps _ (
        start_one-keeps (is_current cid first_response) p.id resolution p.resolution_minutes _
          (start_one-starts p.id first_response p.first_response_minutes ts))
  start_policies-starts resolution p ps ts =
      start_policies-keeps (is_current cid resolution) ps _
        (start_one-starts p.id resolution p.resolution_minutes _)

  -- Where a policy matches the organisation and the priority, the conversation has an active timer of
  -- each type after `start_timers_for_conversation`, whatever timers there were.
  pub start_timers-starts :
      (policies : List SlaPolicy) (priority : Priority) (ty : SlaTimerType) (ts : List SlaTimer)
      (p : SlaPolicy) (ps : List SlaPolicy)
      → matching_policies org priority policies ≡ p ∷ ps
      → any
          (is_current cid ty)
          (start_timers to_local to_utc policies hours now org cid priority ts)
        ≡ true
  unfolding start_timers
  start_timers-starts policies priority ty ts p ps h = rw h (start_policies-starts ty p ps ts)
