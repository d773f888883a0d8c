-- ===== src/Hours/Elapsed.antt =====
-- Open time by days, in whole minutes as `add_business_minutes` counts it and in full.
use ai_customer_support_plat.Prelude.{
  ℕ, zero, suc, ◌+◌, ◌-◌, ◌*◌, ◌/◌, ◌%◌, ◌≤◌, ◌≡◌, refl, Option, none, some, arith,
}
use ai_customer_support_plat.Hours.Calendar.{minute, date, combine, BusinessHours}
use ai_customer_support_plat.Hours.Service.{window, next_midnight, opened}

-- Whole minutes of a day's window that are left at `t`.
abbrev pub left_in : Option (ℕ × ℕ) → ℕ → ℕ
left_in none t = 0
left_in (some (o, c)) t = (combine (date t) c - opened t (combine (date t) o)) / minute

unfoldable pub left : BusinessHours → ℕ → ℕ
left hours t = left_in (window hours (date t)) t

-- The start of the `j`th day from `t`, `t` itself being the 0th, and the minutes before it.
unfoldable pub day_start : ℕ → ℕ → ℕ
day_start t zero = t
day_start t (suc j) = day_start (next_midnight t) j

unfoldable pub minutes_before : BusinessHours → ℕ → ℕ → ℕ
minutes_before hours t zero = 0
minutes_before hours t (suc j) = left hours t + minutes_before hours (next_midnight t) j

-- The same in full: the open time of a day that is left at `t`, and that of the days before the `j`th.
abbrev pub open_in : Option (ℕ × ℕ) → ℕ → ℕ
open_in none t = 0
open_in (some (o, c)) t = combine (date t) c - opened t (combine (date t) o)

unfoldable pub open_before : BusinessHours → ℕ → ℕ → ℕ
open_before hours t zero = 0
open_before hours t (suc j) =
    open_in (window hours (date t)) t + open_before hours (next_midnight t) j

-- The part of a minute at the end of a day that is not counted, and those of the days before the
-- `j`th.
abbrev pub dropped_in : Option (ℕ × ℕ) → ℕ → ℕ
dropped_in w t = open_in w t % minute

unfoldable pub dropped_before : BusinessHours → ℕ → ℕ → ℕ
dropped_before hours t zero = 0
dropped_before hours t (suc j) =
    dropped_in (window hours (date t)) t + dropped_before hours (next_midnight t) j

split_in : (w : Option (ℕ × ℕ)) (t : ℕ) → open_in w t ≡ left_in w t * minute + dropped_in w t
split_in none t = refl
split_in (some (o, c)) t = omega arith

pub open_before-split :
    (hours : BusinessHours) (t j : ℕ)
    → open_before hours t j ≡ minutes_before hours t j * minute + dropped_before hours t j
unfolding open_before minutes_before dropped_before left
open_before-split hours t zero = refl
open_before-split hours t (suc j) =
    omega (arith, split_in (window hours (date t)) t, open_before-split hours (next_midnight t) j)

dropped_in-small : (w : Option (ℕ × ℕ)) (t : ℕ) → dropped_in w t + 1 ≤ minute
dropped_in-small none t = omega arith
dropped_in-small (some (o, c)) t = omega arith

pub dropped_before-small :
    (hours : BusinessHours) (t j : ℕ) → dropped_before hours t j + j ≤ j * minute
unfolding dropped_before
dropped_before-small hours t zero = omega arith
dropped_before-small hours t (suc j) = omega (
  arith,
  dropped_in-small (window hours (date t)) t,
  dropped_before-small hours (next_midnight t) j,
)
