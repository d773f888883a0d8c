-- ===== src/Sla/Service.antt =====
-- backend/app/modules/sla/application/service.py: `SLAService`, on the rows of `sla_timers`. The
-- clock is the argument `now`, in microseconds; the conversions between it and local time, which
-- the time-zone database makes, are parameters.
use ai_customer_support_plat.Prelude.{
  ℕ, ◌+◌, ◌*◌, Bool, true, false, ◌&&◌, ◌||◌, List, [], ◌∷◌, ◌++◌, Option, none, some, ltb, ◌==◌,
  if◌then◌else◌, length, filter_by, any,
}
use ai_customer_support_plat.Domain.{
  Priority, low, normal, high, urgent, SlaPolicy, SlaTimer, SlaTimerType, first_response,
  resolution, SlaTimerStatus, running, paused, completed, breached,
}
use ai_customer_support_plat.Hours.Calendar.{minute, BusinessHours}
use ai_customer_support_plat.Hours.Service.{add_business_minutes}

abbrev pub type_eq : SlaTimerType → SlaTimerType → Bool
type_eq first_response first_response = true
type_eq resolution resolution = true
type_eq _ _ = false

abbrev pub is_running : SlaTimerStatus → Bool
is_running running = true
is_running _ = false

abbrev pub is_paused : SlaTimerStatus → Bool
is_paused paused = true
is_paused _ = false

-- `status.in_([RUNNING, PAUSED])`
abbrev pub is_active : SlaTimerStatus → Bool
is_active s = is_running s || is_paused s

abbrev pub priority_eq : Priority → Priority → Bool
priority_eq low low = true
priority_eq normal normal = true
priority_eq high high = true
priority_eq urgent urgent = true
priority_eq _ _ = false

abbrev pub applies : Option Priority → Priority → Bool
applies none p = true
applies (some q) p = priority_eq q p

-- `_matching_policies`
unfoldable pub matching_policies : ℕ → Priority → List SlaPolicy → List SlaPolicy
matching_policies org p policies =
    filter_by (λ q. (q.organization_id == org && q.enabled) && applies q.applies_to_priority p)
      policies

-- An active timer of the conversation and the type.
abbrev pub is_current : ℕ → SlaTimerType → SlaTimer → Bool
is_current cid ty t = (t.conversation_id == cid && type_eq t.timer_type ty) && is_active t.status

module _ (to_local to_utc : ℕ → ℕ) where
  unfoldable pub due : Option BusinessHours → ℕ → ℕ → ℕ
  due none now minutes = now + minutes * minute
  due (some hours) now minutes = to_utc (add_business_minutes hours (to_local now) minutes)

  abbrev pub new_timer : ℕ → ℕ → ℕ → SlaTimerType → ℕ → ℕ → SlaTimer
  new_timer org cid policy ty now due_at = record {
    organization_id = org;
    sla_policy_id = policy;
    conversation_id = cid;
    timer_type = ty;
    started_at = now;
    due_at = due_at;
    paused_at = none;
    completed_at = none;
    breached_at = none;
    status = running;
  }

  -- One round of the inner loop: the query sees the timers that this call has added.
  unfoldable pub start_one :
      Option BusinessHours → ℕ → ℕ → ℕ → ℕ → SlaTimerType → ℕ → List SlaTimer → List SlaTimer
  start_one hours now org cid policy ty minutes timers =
      if any (is_current cid ty) timers
      then timers
      else timers ++ new_timer org cid policy ty now (due hours now minutes) ∷ []

  unfoldable pub start_policies :
      Option BusinessHours → ℕ → ℕ → ℕ → List SlaPolicy → List SlaTimer → List SlaTimer
  start_policies hours now org cid [] timers = timers
  start_policies hours now org cid (p ∷ ps) timers = start_policies hours now org cid ps (
      start_one hours now org cid p.id resolution p.resolution_minutes
        (start_one hours now org cid p.id first_response p.first_response_minutes timers))

  unfoldable pub start_timers :
      List SlaPolicy → Option BusinessHours → ℕ → ℕ → ℕ → Priority → List SlaTimer → List SlaTimer
  start_timers policies hours now org cid priority timers =
      start_policies hours now org cid (matching_policies org priority policies) timers

-- A selected row is rewritten, the others stay.
unfoldable pub update_where :
    (SlaTimer → Bool) → (SlaTimer → SlaTimer) → List SlaTimer → List SlaTimer
update_where p f [] = []
update_where p f (t ∷ ts) = (if p t then f t else t) ∷ update_where p f ts

abbrev pub to_pause : ℕ → SlaTimer → Bool
to_pause cid t = t.conversation_id == cid && is_running t.status

unfoldable pub pause_timers : ℕ → ℕ → List SlaTimer → List SlaTimer
pause_timers now cid =
    update_where (to_pause cid) (λ t. record t { status = paused; paused_at = some now })

abbrev pub to_resume : ℕ → SlaTimer → Bool
to_resume cid t = t.conversation_id == cid && is_paused t.status

unfoldable pub resume_timers : ℕ → List SlaTimer → List SlaTimer
resume_timers cid =
    update_where (to_resume cid) (λ t. record t { status = running; paused_at = none })

abbrev pub to_breach : ℕ → ℕ → SlaTimer → Bool
to_breach now org t = (t.organization_id == org && is_running t.status) && ltb t.due_at now

unfoldable pub check_breaches : ℕ → ℕ → List SlaTimer → ℕ × List SlaTimer
check_breaches now org timers = (
  length (filter_by (to_breach now org) timers),
  update_where (to_breach now org) (λ t. record t { status = breached; breached_at = some now })
      timers,
)

-- `_complete_type`
unfoldable pub complete_type : ℕ → ℕ → SlaTimerType → List SlaTimer → List SlaTimer
complete_type now cid ty =
    update_where (is_current cid ty) (λ t. record t { status = completed; completed_at = some now })

unfoldable pub complete_first_response : ℕ → ℕ → List SlaTimer → List SlaTimer
complete_first_response now cid = complete_type now cid first_response

unfoldable pub complete_resolution : ℕ → ℕ → List SlaTimer → List SlaTimer
complete_resolution now cid = complete_type now cid resolution

-- One call of the service, at its time, with the tables that it reads.
pub data Call : Type 0 where
  start : List SlaPolicy → Option BusinessHours → (now org cid : ℕ) → Priority → Call
  pause : (now cid : ℕ) → Call
  resume : (cid : ℕ) → Call
  breaches : (now org : ℕ) → Call
  first_responded : (now cid : ℕ) → Call
  resolved : (now cid : ℕ) → Call

module _ (to_local to_utc : ℕ → ℕ) where
  unfoldable pub apply : Call → List SlaTimer → List SlaTimer
  apply (start ps h now org cid pr) ts = start_timers to_local to_utc ps h now org cid pr ts
  apply (pause now cid) ts = pause_timers now cid ts
  apply (resume cid) ts = resume_timers cid ts
  apply (breaches now org) ts = (check_breaches now org ts).1
  apply (first_responded now cid) ts = complete_first_response now cid ts
  apply (resolved now cid) ts = complete_resolution now cid ts

  unfoldable pub run : List Call → List SlaTimer → List SlaTimer
  run [] ts = ts
  run (c ∷ cs) ts = run cs (apply c ts)
