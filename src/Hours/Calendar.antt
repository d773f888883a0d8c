-- ===== src/Hours/Calendar.antt =====
-- The weekly schedule and the holidays of backend/app/modules/business_hours/domain/models.py, and
-- local time. Datetimes that share one `tzinfo` are added, subtracted and compared by their
-- wall-clock fields, so local time is one number: microseconds since the midnight that opens day
-- 0, a Monday. Times of a day are microseconds since its midnight.
use ai_customer_support_plat.Prelude.{
  ℕ, ◌+◌, ◌*◌, ◌/◌, ◌%◌, Bool, List, [], ◌∷◌, Option, none, some, ◌==◌, if◌then◌else◌, any,
}

abbrev pub day_length : ℕ
day_length = 86400000000

abbrev pub minute : ℕ
minute = 60000000

-- `.date()` and `.time()`
abbrev pub date : ℕ → ℕ
date t = t / day_length

abbrev pub time : ℕ → ℕ
time t = t % day_length

-- `.weekday()`
abbrev pub weekday : ℕ → ℕ
weekday d = d % 7

-- `datetime.combine(day, time)`
abbrev pub combine : ℕ → ℕ → ℕ
combine d s = d * day_length + s

pub record BusinessHoursSchedule : Type 0 where
  pub day_of_week : ℕ
  pub open_time : Option ℕ
  pub close_time : Option ℕ
  pub is_closed : Bool

pub record BusinessHours : Type 0 where
  pub schedules : List BusinessHoursSchedule
  pub holidays : List ℕ

-- `_is_holiday`
unfoldable pub is_holiday : BusinessHours → ℕ → Bool
is_holiday hours d = any (λ h. h == d) hours.holidays

unfoldable pub find_day : ℕ → List BusinessHoursSchedule → Option BusinessHoursSchedule
find_day w [] = none
find_day w (s ∷ ss) = if s.day_of_week == w then some s else find_day w ss

-- `_schedule_for_day`
unfoldable pub schedule_for_day : BusinessHours → ℕ → Option BusinessHoursSchedule
schedule_for_day hours w = find_day w hours.schedules
