-- ===== src/Sla/Active.antt =====
-- A conversation has at most one active timer of each type, and `check_breaches` leaves none overdue.
use ai_customer_support_plat.Prelude.{
  ℕ, suc, ◌<◌, ◌≡◌, refl, ap, inl, inr, Bool, true, false, ◌&&◌, List, [], ◌∷◌, ◌++◌, Option,
  if◌then◌else◌, any, All, arith, Bool-cases,
}
use ai_customer_support_plat.Domain.{
  SlaPolicy, SlaTimer, SlaTimerType, first_response, resolution, SlaTimerStatus, running, breached,
}
use ai_customer_support_plat.Hours.Calendar.{BusinessHours}
use ai_customer_support_plat.Sla.Service.{
  type_eq, is_running, is_active, is_current, start_one, start_policies, start_timers, update_where,
  to_pause, pause_timers, to_resume, resume_timers, to_breach, check_breaches, complete_type,
  complete_first_response, complete_resolution, matching_policies, Call, start, pause, resume,
  breaches, first_responded, resolved, apply, run,
}

-- No active timer is followed by an active one of its conversation and type.
abbrev pub IsSingle : List SlaTimer → Type 0
IsSingle [] = Unit
IsSingle (t ∷ ts) =
    ((is_active t.status && any (is_current t.conversation_id t.timer_type) ts) ≡ false)
    × IsSingle ts

and-imp :
    (a b x y : Bool)
    → (a && x) ≡ false
    → (b ≡ true → a ≡ true)
    → (x ≡ false → y ≡ false)
    → (b && y) ≡ false
and-imp a b x y h f g = ground arith

module _ (p : SlaTimer → Bool) (f : SlaTimer → SlaTimer)
    (same : (t : SlaTimer)
      → ((f t).conversation_id ≡ t.conversation_id) × ((f t).timer_type ≡ t.timer_type))
    (was : (t : SlaTimer) → p t ≡ true → is_active t.status ≡ true) where
  update-current :
      (cid : ℕ) (ty : SlaTimerType) (ts : List SlaTimer)
      → any (is_current cid ty) ts ≡ false
      → any (is_current cid ty) (update_where p f ts) ≡ false
  unfolding update_where
  update-current cid ty [] h = refl
  update-current cid ty (t ∷ ts) h = elim (Bool-cases (p t)) [
    | inl chosen ↦
        rw chosen
          (rw ((same t).0, (same t).1) (ground (arith, was t chosen, update-current cid ty ts)))
    | inr left ↦ rw left (ground (arith, update-current cid ty ts))
  ]

  update-IsSingle : (ts : List SlaTimer) → IsSingle ts → IsSingle (update_where p f ts)
  unfolding update_where
  update-IsSingle [] h = tt
  update-IsSingle (t ∷ ts) h = elim (Bool-cases (p t)) [
    | inl chosen ↦ rw chosen (
      and-imp (is_active t.status) _ _
          (any (is_current (f t).conversation_id (f t).timer_type) (update_where p f ts)) h.0
          (λ a. was t chosen)
          (λ e. rw ((same t).0, (same t).1) (update-current t.conversation_id t.timer_type ts e)),
      update-IsSingle ts h.1,
    )
    | inr left ↦ rw left (
      and-imp (is_active t.status) _ _ _ h.0 (λ a. a)
          (update-current t.conversation_id t.timer_type ts),
      update-IsSingle ts h.1,
    )
  ]

any-append :
    (p : SlaTimer → Bool) (ts : List SlaTimer) (t : SlaTimer)
    → any p ts ≡ false
    → p t ≡ false
    → any p (ts ++ t ∷ []) ≡ false
any-append p [] t h e = ground arith
any-append p (u ∷ ts) t h e = ground (arith, any-append p ts t)

type_eq_comm : (a b : SlaTimerType) → type_eq a b ≡ type_eq b a
type_eq_comm first_response first_response = refl
type_eq_comm first_response resolution = refl
type_eq_comm resolution first_response = refl
type_eq_comm resolution resolution = refl

-- An active timer that is not current for a second one has the second not current for it.
is_current_comm :
    (u t : SlaTimer)
    → is_current t.conversation_id t.timer_type u ≡ false
    → is_active u.status ≡ true
    → is_current u.conversation_id u.timer_type t ≡ false
is_current_comm u t e a = rw (type_eq_comm t.timer_type u.timer_type) (ground arith)

IsSingle-append :
    (ts : List SlaTimer) (t : SlaTimer)
    → IsSingle ts
    → any (is_current t.conversation_id t.timer_type) ts ≡ false
    → IsSingle (ts ++ t ∷ [])
IsSingle-append [] t h e = (ground arith, tt)
IsSingle-append (u ∷ ts) t h e = elim (Bool-cases (is_active u.status)) [
  | inl a ↦ rw a (
    any-append (is_current u.conversation_id u.timer_type) ts t (ground arith)
        (is_current_comm u t (ground arith) a),
    IsSingle-append ts t h.1 (ground arith),
  )
  | inr inactive ↦ rw inactive (refl, IsSingle-append ts t h.1 (ground arith))
]

module _ (to_local to_utc : ℕ → ℕ) where
  start_one-IsSingle :
      (hours : Option BusinessHours) (now org cid policy : ℕ) (ty : SlaTimerType) (minutes : ℕ)
      (ts : List SlaTimer)
      → IsSingle ts
      → IsSingle (start_one to_local to_utc hours now org cid policy ty minutes ts)
  unfolding start_one
  start_one-IsSingle hours now org cid policy ty minutes ts h =
      elim (Bool-cases (any (is_current cid ty) ts)) [
        | inl existing ↦ rw existing h
        | inr fresh ↦ rw fresh (IsSingle-append ts _ h fresh)
      ]

  start_policies-IsSingle :
      (hours : Option BusinessHours) (now org cid : ℕ) (ps : List SlaPolicy) (ts : List SlaTimer)
      → IsSingle ts
      → IsSingle (start_policies to_local to_utc hours now org cid ps ts)
  unfolding start_policies
  start_policies-IsSingle hours now org cid [] ts h = h
  start_policies-IsSingle hours now org cid (p ∷ ps) ts h =
      start_policies-IsSingle hours now org cid ps _ (
        start_one-IsSingle hours now org cid p.id resolution p.resolution_minutes _
          (start_one-IsSingle hours now org cid p.id first_response p.first_response_minutes ts h))

  apply-IsSingle :
      (c : Call) (ts : List SlaTimer) → IsSingle ts → IsSingle (apply to_local to_utc c ts)
  unfolding apply start_timers pause_timers resume_timers check_breaches complete_first_response
      complete_resolution complete_type
  apply-IsSingle (start ps h now org cid pr) ts s =
      start_policies-IsSingle h now org cid (matching_policies org pr ps) ts s
  apply-IsSingle (pause now cid) ts s =
      update-IsSingle (to_pause cid) _ (λ t. (refl, refl)) (λ t e. ground arith) ts s
  apply-IsSingle (resume cid) ts s =
      update-IsSingle (to_resume cid) _ (λ t. (refl, refl)) (λ t e. ground arith) ts s
  apply-IsSingle (breaches now org) ts s =
      update-IsSingle (to_breach now org) _ (λ t. (refl, refl)) (λ t e. ground arith) ts s
  apply-IsSingle (first_responded now cid) ts s =
      update-IsSingle (is_current cid first_response) _ (λ t. (refl, refl)) (λ t e. ground arith) ts
        s
  apply-IsSingle (resolved now cid) ts s =
      update-IsSingle (is_current cid resolution) _ (λ t. (refl, refl)) (λ t e. ground arith) ts s

  -- If no conversation has two active timers of one type, then none has after any calls of the
  -- service, in any order.
  pub run-IsSingle :
      (cs : List Call) (ts : List SlaTimer) → IsSingle ts → IsSingle (run to_local to_utc cs ts)
  unfolding run
  run-IsSingle [] ts h = h
  run-IsSingle (c ∷ cs) ts h = run-IsSingle cs _ (apply-IsSingle c ts h)

-- A timer is overdue when it runs past its due date.
abbrev pub IsOverdue : ℕ → ℕ → SlaTimer → Type 0
IsOverdue now org t = (t.organization_id ≡ org) × (t.status ≡ running) × (t.due_at < now)

-- How many timers of the first table are breached in the second one and were not before.
abbrev is_breached : SlaTimerStatus → Bool
is_breached breached = true
is_breached _ = false

abbrev pub newly_breached : List SlaTimer → List SlaTimer → ℕ
newly_breached (t ∷ ts) (u ∷ us) =
    if is_running t.status && is_breached u.status
    then suc (newly_breached ts us)
    else newly_breached ts us
newly_breached _ _ = 0

to_breach-is_running :
    (now org : ℕ) (t : SlaTimer) → to_breach now org t ≡ true → is_running t.status ≡ true
to_breach-is_running now org t h = ground arith

running-not-breached : (s : SlaTimerStatus) → (is_running s && is_breached s) ≡ false
running-not-breached s = ground arith

-- `check_breaches` leaves no overdue timer of the organization, and returns the number of timers
-- that it has taken from running to breached.
pub check_breaches_lem :
    (now org : ℕ) (ts : List SlaTimer)
    → All (λ t. ¬ IsOverdue now org t) (check_breaches now org ts).1
      × ((check_breaches now org ts).0 ≡ newly_breached ts (check_breaches now org ts).1)
unfolding check_breaches update_where
check_breaches_lem now org [] = (tt, refl)
check_breaches_lem now org (t ∷ ts) = elim (Bool-cases (to_breach now org t)) [
  | inl overdue ↦
      rw (overdue, to_breach-is_running now org t overdue)
        (
          (λ o. ground arith, (check_breaches_lem now org ts).0),
          ap (λ n. suc n) (check_breaches_lem now org ts).1,
        )
  | inr not_due ↦
      rw (not_due, running-not-breached t.status)
        ((λ o. ground arith, (check_breaches_lem now org ts).0), (check_breaches_lem now org ts).1)
]
