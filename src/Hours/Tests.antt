-- ===== src/Hours/Tests.antt =====
-- An office that is open on Monday from 9 to 17 and on Tuesday from 9 to 12, with a holiday on the
-- second Monday.
use ai_customer_support_plat.Prelude.{
  ℕ, ◌+◌, ◌*◌, ◌≤◌, ◌≡◌, refl, false, [], ◌∷◌, none, some, arith,
}
use ai_customer_support_plat.Hours.Calendar.{
  minute, combine, BusinessHours, is_holiday, schedule_for_day, find_day,
}
use ai_customer_support_plat.Hours.Service.{
  window, is_open_for_hours, round, add_loop, add_business_minutes, open_day, open_loop,
  next_open_time, next_close_time,
}
use ai_customer_support_plat.Hours.Elapsed.{
  left, day_start, minutes_before, open_before, dropped_before,
}
use ai_customer_support_plat.Hours.Due.{IsDue, HasDayTimes, open_until, add_business_minutes-IsDue}
use ai_customer_support_plat.Hours.Opening.{IsRegular, IsFirstOpen, next_open_time-IsFirstOpen}

abbrev clock : ℕ → ℕ → ℕ
clock h m = (h * 60 + m) * minute

abbrev office : BusinessHours
office = record {
  schedules =
      record {
        day_of_week = 0;
        open_time = some (clock 9 0);
        close_time = some (clock 17 0);
        is_closed = false;
      }
      ∷ record {
        day_of_week = 1;
        open_time = some (clock 9 0);
        close_time = some (clock 12 0);
        is_closed = false;
      }
      ∷ [];
  holidays = 7 ∷ [];
}

service : Unit {0}
unfolding is_holiday schedule_for_day find_day window is_open_for_hours round add_loop
    add_business_minutes open_day open_loop next_open_time next_close_time left day_start
    minutes_before open_before dropped_before
service = tt

-- Ten hours from Monday at 10: seven on Monday, three on Tuesday, which is its close; one minute
-- more falls on the Tuesday after the holiday.
due_tests :
    (add_business_minutes office (combine 0 (clock 10 0)) 600 ≡ combine 1 (clock 12 0))
    × (add_business_minutes office (combine 0 (clock 10 0)) 601 ≡ combine 8 (clock 9 1))
unfolding service
due_tests = (refl, refl)

opening_tests :
    (next_open_time office (combine 0 (clock 10 0)) ≡ some (combine 0 (clock 10 0)))
    × (next_open_time office (combine 1 (clock 12 0)) ≡ some (combine 8 (clock 9 0)))
    × (next_close_time office (combine 0 (clock 10 0)) ≡ some (combine 0 (clock 17 0)))
    × (next_close_time office (combine 2 (clock 10 0)) ≡ none)
unfolding service
opening_tests = (refl, refl, refl, refl)

office-HasDayTimes : HasDayTimes office
unfolding service
office-HasDayTimes d = ground arith

office-IsRegular : IsRegular office
unfolding service
office-IsRegular d = ground arith

-- From half past four and thirty seconds, an hour takes the last half hour of Monday but thirty
-- seconds, and thirty-one minutes of Tuesday.
dropped_seconds :
    (add_business_minutes office (combine 0 (clock 16 30) + 30000000) 60 ≡ combine 1 (clock 9 31))
    × (dropped_before office (combine 0 (clock 16 30) + 30000000) 1 ≡ 30000000)
unfolding service
dropped_seconds = (refl, refl)

add_business_minutes-IsDue_example :
    let answer = add_business_minutes office (combine 0 (clock 16 30) + 30000000) 60 in
    (due : IsDue office (combine 0 (clock 16 30) + 30000000) 60 answer) × (open_until office
        (combine 0 (clock 16 30) + 30000000)
        due.day
        due.open_at
        answer
      ≡ 60 * minute + dropped_before office (combine 0 (clock 16 30) + 30000000) due.day)
    × (dropped_before office (combine 0 (clock 16 30) + 30000000) due.day + due.day
        ≤ due.day * minute)
unfolding service
add_business_minutes-IsDue_example =
    add_business_minutes-IsDue office (combine 0 (clock 16 30) + 30000000) 60 2 office-HasDayTimes
      (omega arith) (omega arith) (omega arith)

next_open_time-IsFirstOpen_example :
    IsFirstOpen office (combine 1 (clock 12 0)) (1 + 366) (some (combine 8 (clock 9 0)))
unfolding service
next_open_time-IsFirstOpen_example =
    next_open_time-IsFirstOpen office (combine 1 (clock 12 0)) office-IsRegular
