-- ===== src/Hours/Service.antt =====
-- backend/app/modules/business_hours/application/service.py: `BusinessHoursService`, on local time.
use ai_customer_support_plat.Prelude.{
  ℕ, zero, suc, ◌+◌, ◌-◌, ◌*◌, ◌/◌, Bool, false, ◌&&◌, not, Option, none, some, ltb, leb, ◌==◌,
  if◌then◌else◌,
}
use ai_customer_support_plat.Hours.Calendar.{
  minute, date, time, weekday, combine, BusinessHoursSchedule, BusinessHours, is_holiday,
  schedule_for_day,
}

-- The opening and closing times of a day that has both and is not marked closed; a time that is
-- midnight is a value like any other.
abbrev pub window_of : Option BusinessHoursSchedule → Option (ℕ × ℕ)
window_of none = none
window_of (some s) = if s.is_closed then none else elim s.open_time [
  | none ↦ none
  | some o ↦ elim s.close_time [ none ↦ none | some c ↦ some (o, c) ]
]

unfoldable pub window : BusinessHours → ℕ → Option (ℕ × ℕ)
window hours d = if is_holiday hours d then none else window_of (schedule_for_day hours (weekday d))

abbrev pub is_inside : Option (ℕ × ℕ) → ℕ → Bool
is_inside none s = false
is_inside (some (o, c)) s = leb o s && ltb s c

-- `_is_open_for_hours`
unfoldable pub is_open_for_hours : BusinessHours → ℕ → Bool
is_open_for_hours hours t = is_inside (window hours (date t)) (time t)

-- Midnight of the next day.
abbrev pub next_midnight : ℕ → ℕ
next_midnight t = combine (date t + 1) 0

-- One round of the loop of `add_business_minutes`: the answer, or the next `current` and
-- `remaining`.
pub data Round : Type 0 where
  answer : ℕ → Round
  next : ℕ → ℕ → Round

-- `if current < open_dt: current = open_dt`
abbrev pub opened : ℕ → ℕ → ℕ
opened current open_dt = if ltb current open_dt then open_dt else current

abbrev pub work : ℕ → ℕ → ℕ → Round
work current close_dt remaining =
    if leb close_dt current
    then next (next_midnight current) remaining
    else (let available = (close_dt - current) / minute in
        if leb remaining available
        then answer (current + remaining * minute)
        else next (next_midnight current) (remaining - available))

abbrev pub round_in : Option (ℕ × ℕ) → ℕ → ℕ → Round
round_in none current remaining = next (next_midnight current) remaining
round_in (some (o, c)) current remaining =
    work (opened current (combine (date current) o)) (combine (date current) c) remaining

unfoldable pub round : BusinessHours → ℕ → ℕ → Round
round hours current remaining = round_in (window hours (date current)) current remaining

-- `while remaining > 0 and safety < 10000`, with the rounds that `safety` leaves.
unfoldable pub add_loop : ℕ → BusinessHours → ℕ → ℕ → ℕ
add_loop zero hours current remaining = current
add_loop (suc f) hours current remaining =
    if remaining == 0
    then current
    else elim (round hours current remaining) [ answer t ↦ t | next c r ↦ add_loop f hours c r ]

unfoldable pub add_business_minutes : BusinessHours → ℕ → ℕ → ℕ
add_business_minutes hours start minutes = add_loop 10000 hours start minutes

-- A day of `next_open_time`: `next_open_day hours local offset d` is its answer for the day `d`.
abbrev pub later_than : Option ℕ → ℕ → Bool
later_than none s = false
later_than (some c) s = ltb s c

abbrev pub open_on : Option BusinessHoursSchedule → ℕ → Bool → ℕ → Option ℕ
open_on none local today d = none
open_on (some s) local today d = if s.is_closed then none else elim s.open_time [
  | none ↦ none
  | some o ↦
      if today && leb (combine d o) local
      then (if later_than s.close_time (time local) then some local else none)
      else some (combine d o)
]

unfoldable pub open_day : BusinessHours → ℕ → Bool → ℕ → Option ℕ
open_day hours local today d =
    if is_holiday hours d then none else open_on (schedule_for_day hours (weekday d)) local today d

-- `for offset in range(0, 366)`, on the offsets from the given one on.
unfoldable pub open_loop : ℕ → BusinessHours → ℕ → ℕ → Option ℕ
open_loop zero hours local offset = none
open_loop (suc f) hours local offset =
    elim (open_day hours local (offset == 0) (date local + offset)) [
      | some t ↦ some t
      | none ↦ open_loop f hours local (offset + 1)
    ]

unfoldable pub next_open_time : BusinessHours → ℕ → Option ℕ
next_open_time hours local = open_loop 366 hours local 0

abbrev pub close_on : Option BusinessHoursSchedule → ℕ → Option ℕ
close_on none d = none
close_on (some s) d =
    if s.is_closed then none else elim s.close_time [ none ↦ none | some c ↦ some (combine d c) ]

unfoldable pub next_close_time : BusinessHours → ℕ → Option ℕ
next_close_time hours local =
    if not (is_open_for_hours hours local)
    then none
    else close_on (schedule_for_day hours (weekday (date local))) (date local)
