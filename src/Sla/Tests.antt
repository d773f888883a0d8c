-- ===== src/Sla/Tests.antt =====
-- A conversation with one running and one paused timer, through a pause, a breach check and a close.
use ai_customer_support_plat.Prelude.{any, ℕ, ◌≡◌, refl, true, List, [], ◌∷◌, none, some, All}
use ai_customer_support_plat.Domain.{
  high, SlaPolicy, SlaTimer, first_response, resolution, running, paused, completed, breached,
}
use ai_customer_support_plat.Sla.Service.{
  is_current, due, start_one, start_policies, start_timers, update_where, pause_timers,
  resume_timers, check_breaches, complete_type, complete_first_response, complete_resolution,
  matching_policies, Call, start, resume, breaches, resolved, apply, run,
}
use ai_customer_support_plat.Sla.Started.{start_timers-starts}
use ai_customer_support_plat.Sla.Invariant.{IsDated, AllEvolve, run-AllEvolve, run-IsDated}
use ai_customer_support_plat.Sla.Active.{
  IsSingle, IsOverdue, newly_breached, run-IsSingle, check_breaches_lem,
}

service : Unit {0}
unfolding due start_one start_policies start_timers update_where pause_timers resume_timers
    check_breaches complete_type complete_first_response complete_resolution matching_policies apply
    run
service = tt

abbrev reply_timer : SlaTimer
reply_timer = record {
  organization_id = 1;
  sla_policy_id = 4;
  conversation_id = 9;
  timer_type = first_response;
  started_at = 100;
  due_at = 200;
  paused_at = none;
  completed_at = none;
  breached_at = none;
  status = running;
}

abbrev resolution_timer : SlaTimer
resolution_timer = record {
  organization_id = 1;
  sla_policy_id = 4;
  conversation_id = 9;
  timer_type = resolution;
  started_at = 100;
  due_at = 900;
  paused_at = some 150;
  completed_at = none;
  breached_at = none;
  status = paused;
}

abbrev timers : List SlaTimer
timers = reply_timer ∷ resolution_timer ∷ []

abbrev gold : SlaPolicy
gold = record {
  id = 4;
  organization_id = 1;
  first_response_minutes = 2;
  resolution_minutes = 60;
  applies_to_priority = some high;
  enabled = true;
}

abbrev same_clock : ℕ → ℕ
same_clock t = t

abbrev calls : List Call
calls = resume 9 ∷ breaches 300 1 ∷ resolved 400 9 ∷ start (gold ∷ []) none 500 1 9 high ∷ []

-- The breach check takes the reply timer, the close the other, and the start makes two new ones.
run_test :
    run same_clock same_clock calls timers
    ≡ record reply_timer { status = breached; breached_at = some 300 }
      ∷ record resolution_timer { status = completed; completed_at = some 400; paused_at = none }
      ∷ record reply_timer { started_at = 500; due_at = 120000500 }
      ∷ record resolution_timer {
        started_at = 500;
        due_at = 3600000500;
        status = running;
        paused_at = none;
      }
      ∷ []
unfolding service
run_test = refl

timers-IsSingle : IsSingle timers
timers-IsSingle = (refl, (refl, tt))

timers-IsDated : All IsDated timers
timers-IsDated = ((refl, refl, refl), ((refl, refl, refl), tt))

run-AllEvolve_example : AllEvolve timers (run same_clock same_clock calls timers)
run-AllEvolve_example = run-AllEvolve same_clock same_clock calls timers

run-IsDated_example : All IsDated (run same_clock same_clock calls timers)
run-IsDated_example = run-IsDated same_clock same_clock calls timers timers-IsDated

run-IsSingle_example : IsSingle (run same_clock same_clock calls timers)
run-IsSingle_example = run-IsSingle same_clock same_clock calls timers timers-IsSingle

check_breaches_lem_example :
    All (λ t. ¬ IsOverdue 300 1 t) (check_breaches 300 1 timers).1
    × ((check_breaches 300 1 timers).0 ≡ newly_breached timers (check_breaches 300 1 timers).1)
check_breaches_lem_example = check_breaches_lem 300 1 timers

start_timers-starts_example :
    any
      (is_current 12 resolution)
      (start_timers same_clock same_clock (gold ∷ []) none 500 1 12 high timers)
    ≡ true
unfolding matching_policies
start_timers-starts_example =
    start_timers-starts same_clock same_clock none 500 1 12 (gold ∷ []) high resolution timers gold
      [] refl
