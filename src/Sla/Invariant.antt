-- ===== src/Sla/Invariant.antt =====
-- What holds of every timer after any calls: its dates agree with its status, and a timer that was
-- completed or breached stays as it was.
use ai_customer_support_plat.Prelude.{
  ℕ, ◌<◌, ◌≡◌, ◌⊎◌, ◌∙◌, refl, sym, ap, inl, inr, Bool, true, List, [], ◌∷◌, ◌++◌, Option, none,
  some, any, All, is_some, arith, Bool-cases,
}
use ai_customer_support_plat.Domain.{
  SlaPolicy, SlaTimer, SlaTimerType, first_response, resolution, SlaTimerStatus, running, paused,
  completed, breached,
}
use ai_customer_support_plat.Hours.Calendar.{BusinessHours}
use ai_customer_support_plat.Sla.Service.{
  is_active, is_current, start_one, start_policies, start_timers, update_where, to_pause,
  pause_timers, to_resume, resume_timers, to_breach, check_breaches, complete_type,
  complete_first_response, complete_resolution, matching_policies, Call, start, pause, resume,
  breaches, first_responded, resolved, apply, run,
}

-- The dates that a status comes with.
abbrev pub HasDates : SlaTimerStatus → SlaTimer → Type 0
HasDates running t = (t.paused_at ≡ none) × (t.completed_at ≡ none) × (t.breached_at ≡ none)
HasDates paused t = (is_some t.paused_at ≡ true) × (t.completed_at ≡ none) × (t.breached_at ≡ none)
HasDates completed t = (is_some t.completed_at ≡ true) × (t.breached_at ≡ none)
HasDates breached t =
    (t.completed_at ≡ none) × ((b : ℕ) × (t.breached_at ≡ some b) × (t.due_at < b))

abbrev pub IsDated : SlaTimer → Type 0
IsDated t = HasDates t.status t

-- What `t` may have become: its due date, owner and type are fixed, and it is the same row if it was
-- completed or breached.
pub record Evolves (t u : SlaTimer) : Type 0 where
  pub due_at : u.due_at ≡ t.due_at
  pub conversation : u.conversation_id ≡ t.conversation_id
  pub kind : u.timer_type ≡ t.timer_type
  pub final : (is_active t.status ≡ true) ⊎ (u ≡ t)

-- Each row of the first table is still there, in its place, as it has evolved.
abbrev pub AllEvolve : List SlaTimer → List SlaTimer → Type 0
AllEvolve [] us = Unit
AllEvolve (t ∷ ts) [] = ⊥
AllEvolve (t ∷ ts) (u ∷ us) = Evolves t u × AllEvolve ts us

Evolves-refl : (t : SlaTimer) → Evolves t t
Evolves-refl t = record { due_at = refl; conversation = refl; kind = refl; final = inr refl }

AllEvolve-refl : (ts : List SlaTimer) → AllEvolve ts ts
AllEvolve-refl [] = tt
AllEvolve-refl (t ∷ ts) = (Evolves-refl t, AllEvolve-refl ts)

Evolves-trans : (t u v : SlaTimer) → Evolves t u → Evolves u v → Evolves t v
Evolves-trans t u v p q = record {
  due_at = q.due_at ∙ p.due_at;
  conversation = q.conversation ∙ p.conversation;
  kind = q.kind ∙ p.kind;
  final = elim p.final [
    | inl a ↦ inl a
    | inr same ↦ elim q.final [
      | inl a ↦ inl (sym (ap (λ r. is_active r.status) same) ∙ a)
      | inr fixed ↦ inr (fixed ∙ same)
    ]
  ];
}

AllEvolve-trans : (ts us vs : List SlaTimer) → AllEvolve ts us → AllEvolve us vs → AllEvolve ts vs
AllEvolve-trans [] us vs p q = tt
AllEvolve-trans (t ∷ ts) [] vs p q = absurd p
AllEvolve-trans (t ∷ ts) (u ∷ us) [] p q = absurd q
AllEvolve-trans (t ∷ ts) (u ∷ us) (v ∷ vs) p q =
    (Evolves-trans t u v p.0 q.0, AllEvolve-trans ts us vs p.1 q.1)

AllEvolve-append : (ts us : List SlaTimer) → AllEvolve ts (ts ++ us)
AllEvolve-append [] us = tt
AllEvolve-append (t ∷ ts) us = (Evolves-refl t, AllEvolve-append ts us)

-- A rewrite of selected rows is sound if it is sound for each selected row.
module _ (p : SlaTimer → Bool) (f : SlaTimer → SlaTimer)
    (sound : (t : SlaTimer) → p t ≡ true → Evolves t (f t) × (IsDated t → IsDated (f t))) where
  update-evolves : (ts : List SlaTimer) → AllEvolve ts (update_where p f ts)
  unfolding update_where
  update-evolves [] = tt
  update-evolves (t ∷ ts) = elim (Bool-cases (p t)) [
    | inl chosen ↦ rw chosen ((sound t chosen).0, update-evolves ts)
    | inr left ↦ rw left (Evolves-refl t, update-evolves ts)
  ]

  update-IsDated : (ts : List SlaTimer) → All IsDated ts → All IsDated (update_where p f ts)
  unfolding update_where
  update-IsDated [] h = tt
  update-IsDated (t ∷ ts) h = elim (Bool-cases (p t)) [
    | inl chosen ↦ rw chosen ((sound t chosen).1 h.0, update-IsDated ts h.1)
    | inr left ↦ rw left (h.0, update-IsDated ts h.1)
  ]

-- `t` as rewritten to `u`.
abbrev IsSound : SlaTimer → SlaTimer → Type 0
IsSound t u = Evolves t u × (IsDated t → IsDated u)

pause-IsSound :
    (now cid : ℕ) (t : SlaTimer)
    → to_pause cid t ≡ true
    → IsSound t (record t { status = paused; paused_at = some now })
pause-IsSound now cid t h = (
  record { due_at = refl; conversation = refl; kind = refl; final = inl (ground arith) },
  λ d. ground arith,
)

resume-IsSound :
    (cid : ℕ) (t : SlaTimer)
    → to_resume cid t ≡ true
    → IsSound t (record t { status = running; paused_at = none })
resume-IsSound cid t h = (
  record { due_at = refl; conversation = refl; kind = refl; final = inl (ground arith) },
  λ d. ground arith,
)

breach-IsSound :
    (now org : ℕ) (t : SlaTimer)
    → to_breach now org t ≡ true
    → IsSound t (record t { status = breached; breached_at = some now })
breach-IsSound now org t h = (
  record { due_at = refl; conversation = refl; kind = refl; final = inl (ground arith) },
  λ d. (ground arith, (now, refl, ground arith)),
)

complete-IsSound :
    (now cid : ℕ) (ty : SlaTimerType) (t : SlaTimer)
    → is_current cid ty t ≡ true
    → IsSound t (record t { status = completed; completed_at = some now })
complete-IsSound now cid ty t h = (
  record { due_at = refl; conversation = refl; kind = refl; final = inl (ground arith) },
  λ d. ground arith,
)

All-append_one :
    (P : SlaTimer → Type 0) (ts : List SlaTimer) (t : SlaTimer)
    → All P ts
    → P t
    → All P (ts ++ t ∷ [])
All-append_one P [] t h p = (p, tt)
All-append_one P (u ∷ ts) t h p = (h.0, All-append_one P ts t h.1 p)

-- The table `us` is what the table `ts` may become.
abbrev IsProgress : List SlaTimer → List SlaTimer → Type 0
IsProgress ts us = AllEvolve ts us × (All IsDated ts → All IsDated us)

IsProgress-trans :
    (ts us vs : List SlaTimer) → IsProgress ts us → IsProgress us vs → IsProgress ts vs
IsProgress-trans ts us vs p q = (AllEvolve-trans ts us vs p.0 q.0, λ d. q.1 (p.1 d))

module _ (to_local to_utc : ℕ → ℕ) where
  start_one-IsProgress :
      (hours : Option BusinessHours) (now org cid policy : ℕ) (ty : SlaTimerType) (minutes : ℕ)
      (ts : List SlaTimer)
      → IsProgress ts (start_one to_local to_utc hours now org cid policy ty minutes ts)
  unfolding start_one
  start_one-IsProgress hours now org cid policy ty minutes ts =
      elim (Bool-cases (any (is_current cid ty) ts)) [
        | inl existing ↦ rw existing (AllEvolve-refl ts, λ d. d)
        | inr fresh ↦
            rw fresh (AllEvolve-append ts _, λ d. All-append_one IsDated ts _ d (refl, refl, refl))
      ]

  start_policies-IsProgress :
      (hours : Option BusinessHours) (now org cid : ℕ) (ps : List SlaPolicy) (ts : List SlaTimer)
      → IsProgress ts (start_policies to_local to_utc hours now org cid ps ts)
  unfolding start_policies
  start_policies-IsProgress hours now org cid [] ts = (AllEvolve-refl ts, λ d. d)
  start_policies-IsProgress hours now org cid (p ∷ ps) ts =
      let us =
        start_one to_local to_utc hours now org cid p.id first_response p.first_response_minutes
          ts in
      let vs =
        start_one to_local to_utc hours now org cid p.id resolution p.resolution_minutes us in
      IsProgress-trans ts us _
        (start_one-IsProgress hours now org cid p.id first_response p.first_response_minutes ts)
        (IsProgress-trans us vs _
          (start_one-IsProgress hours now org cid p.id resolution p.resolution_minutes us)
          (start_policies-IsProgress hours now org cid ps vs))

  apply-IsProgress : (c : Call) (ts : List SlaTimer) → IsProgress ts (apply to_local to_utc c ts)
  unfolding apply start_timers pause_timers resume_timers check_breaches complete_first_response
      complete_resolution complete_type
  apply-IsProgress (start ps h now org cid pr) ts =
      start_policies-IsProgress h now org cid (matching_policies org pr ps) ts
  apply-IsProgress (pause now cid) ts =
      (update-evolves _ _ (pause-IsSound now cid) ts, update-IsDated _ _ (pause-IsSound now cid) ts)
  apply-IsProgress (resume cid) ts =
      (update-evolves _ _ (resume-IsSound cid) ts, update-IsDated _ _ (resume-IsSound cid) ts)
  apply-IsProgress (breaches now org) ts = (
    update-evolves _ _ (breach-IsSound now org) ts,
    update-IsDated _ _ (breach-IsSound now org) ts,
  )
  apply-IsProgress (first_responded now cid) ts = (
    update-evolves _ _ (complete-IsSound now cid first_response) ts,
    update-IsDated _ _ (complete-IsSound now cid first_response) ts,
  )
  apply-IsProgress (resolved now cid) ts = (
    update-evolves _ _ (complete-IsSound now cid resolution) ts,
    update-IsDated _ _ (complete-IsSound now cid resolution) ts,
  )

  run-IsProgress : (cs : List Call) (ts : List SlaTimer) → IsProgress ts (run to_local to_utc cs ts)
  unfolding run
  run-IsProgress [] ts = (AllEvolve-refl ts, λ d. d)
  run-IsProgress (c ∷ cs) ts =
      IsProgress-trans ts (apply to_local to_utc c ts) _ (apply-IsProgress c ts)
        (run-IsProgress cs (apply to_local to_utc c ts))

  -- After any calls of the service, in any order, each timer that was there keeps its due date, its
  -- conversation and its type, and a completed or breached one is as it was.
  pub run-AllEvolve :
      (cs : List Call) (ts : List SlaTimer) → AllEvolve ts (run to_local to_utc cs ts)
  run-AllEvolve cs ts = (run-IsProgress cs ts).0

  -- If the dates of all timers agree with their statuses, then they do after any calls of the
  -- service, in any order: a breached timer was breached after it was due.
  pub run-IsDated :
      (cs : List Call) (ts : List SlaTimer)
      → All IsDated ts
      → All IsDated (run to_local to_utc cs ts)
  run-IsDated cs ts d = (run-IsProgress cs ts).1 d
