-- ===== src/Hours/Opening.antt =====
-- `next_open_time` finds the first moment from the given one on at which the hours are open.
use ai_customer_support_plat.Prelude.{
  ℕ, zero, suc, ◌+◌, ◌≤◌, ◌<◌, ◌≡◌, ◌⊎◌, inl, inr, refl, sym, subst, Bool, true, false, ◌&&◌,
  Option, none, some, ltb, leb, ◌==◌, if◌then◌else◌, arith, Bool-cases, Option-cases,
}
use ai_customer_support_plat.Hours.Calendar.{
  day_length, date, time, weekday, combine, BusinessHoursSchedule, BusinessHours, is_holiday,
  schedule_for_day,
}
use ai_customer_support_plat.Hours.Service.{
  window_of, window, is_inside, is_open_for_hours, later_than, open_on, open_day, open_loop,
  next_open_time,
}

-- A day that opens closes later on that day.
abbrev pub IsRegularDay : Option ℕ → Option ℕ → Type 0
IsRegularDay none c = Unit
IsRegularDay (some o) none = ⊥
IsRegularDay (some o) (some c) = (o < c) × (c < day_length)

abbrev pub IsRegularRow : Option BusinessHoursSchedule → Type 0
IsRegularRow none = Unit
IsRegularRow (some s) = s.is_closed ≡ false → IsRegularDay s.open_time s.close_time

abbrev pub IsRegular : BusinessHours → Type 0
IsRegular hours = (d : ℕ) → IsRegularRow (schedule_for_day hours (weekday d))

-- The day `d` is the one of `local`, or a later one.
abbrev IsDay : ℕ → Bool → ℕ → Type 0
IsDay local true d = d ≡ date local
IsDay local false d = date local < d

-- Closed on the day `d` from `local` on, before `t`.
abbrev IsShut : (ℕ → Bool) → ℕ → ℕ → ℕ → Type 0
IsShut is_open local d t = (u : ℕ) → date u ≡ d → local ≤ u → u < t → is_open (time u) ≡ false

-- What the answer for one day says of that day.
abbrev DayAnswer : (ℕ → Bool) → ℕ → ℕ → Option ℕ → Type 0
DayAnswer is_open local d none = (u : ℕ) → date u ≡ d → local ≤ u → is_open (time u) ≡ false
DayAnswer is_open local d (some t) =
    (is_open (time t) ≡ true) × (date t ≡ d) × (local ≤ t) × IsShut is_open local d t

module _ (local d o c : ℕ) (regular : IsRegularDay (some o) (some c)) where
  later_day : date local < d → DayAnswer (is_inside (some (o, c))) local d (some (combine d o))
  later_day h = (ground arith, omega arith, omega arith, λ u e l b. ground arith)

  same_day :
      (today : Bool)
      → IsDay local today d
      → DayAnswer (is_inside (some (o, c))) local d (
          if today && leb (combine d o) local
          then (if later_than (some c) (time local) then some local else none)
          else some (combine d o))
  same_day false h = later_day h
  same_day true h = elim (Bool-cases (leb (combine d o) local)) [
    | inl past ↦ elim (Bool-cases (ltb (time local) c)) [
      | inl still ↦
          rw (past, still) (ground arith, sym h, omega arith, λ u e l b. absurd (omega arith))
      | inr over ↦ rw (past, over) (λ u e l. ground arith)
    ]
    | inr early ↦ rw early (ground arith, omega arith, ground arith, λ u e l b. ground arith)
  ]

shut_row : (local d : ℕ) → DayAnswer (is_inside none) local d none
shut_row local d = λ u e l. refl

row_answer :
    (day_of_week : ℕ) (o c : Option ℕ) (is_closed : Bool) (local : ℕ) (today : Bool) (d : ℕ)
    → let s : BusinessHoursSchedule = record {
      day_of_week = day_of_week;
      open_time = o;
      close_time = c;
      is_closed = is_closed;
    } in
      IsRegularRow (some s)
      → IsDay local today d
      → DayAnswer (is_inside (window_of (some s))) local d (open_on (some s) local today d)
row_answer w o c true local today d r h = shut_row local d
row_answer w none c false local today d r h = shut_row local d
row_answer w (some o) none false local today d r h = absurd (r refl)
row_answer w (some o) (some c) false local today d r h = same_day local d o c (r refl) today h

open_on-answer :
    (row : Option BusinessHoursSchedule) (local : ℕ) (today : Bool) (d : ℕ)
    → IsRegularRow row
    → IsDay local today d
    → DayAnswer (is_inside (window_of row)) local d (open_on row local today d)
open_on-answer none local today d r h = shut_row local d
open_on-answer (some s) local today d r h =
    row_answer s.day_of_week s.open_time s.close_time s.is_closed local today d r h

open_day-answer :
    (hours : BusinessHours) (local : ℕ) (today : Bool) (d : ℕ)
    → IsRegular hours
    → IsDay local today d
    → DayAnswer (is_inside (window hours d)) local d (open_day hours local today d)
unfolding open_day window
open_day-answer hours local today d r h = elim (Bool-cases (is_holiday hours d)) [
  | inl holiday ↦ rw holiday (shut_row local d)
  | inr working ↦
      rw working (open_on-answer (schedule_for_day hours (weekday d)) local today d (r d) h)
]

some_inj : (v t : ℕ) → some v ≡ some t → v ≡ t
some_inj v t h = ground arith

day_cases : (a d : ℕ) → a < d + 1 → (a < d) ⊎ (a ≡ d)
day_cases a d h = grind arith

module _ (hours : BusinessHours) (local : ℕ) where
  -- Closed from `local` on until the day `d`.
  abbrev IsShutUntil : ℕ → Type 0
  IsShutUntil d = (u : ℕ) → local ≤ u → date u < d → is_open_for_hours hours u ≡ false

  -- The answer is the first open moment from `local` on, or there is none before the day `d`.
  abbrev pub IsFirstOpen : ℕ → Option ℕ → Type 0
  IsFirstOpen d none = IsShutUntil d
  IsFirstOpen d (some t) =
      (is_open_for_hours hours t ≡ true)
      × (local ≤ t)
      × ((u : ℕ) → local ≤ u → u < t → is_open_for_hours hours u ≡ false)

  found-IsFirstOpen :
      (d : ℕ) (r : Option ℕ) (e t : ℕ)
      → r ≡ some t
      → DayAnswer (is_inside (window hours d)) local d r
      → IsShutUntil d
      → IsFirstOpen e (some t)
  unfolding is_open_for_hours
  found-IsFirstOpen d none e t p a s = absurd (cc)
  found-IsFirstOpen d (some v) e t p (open', day, later, shut) s =
      subst (λ w. IsFirstOpen e (some w)) (some_inj v t p)
        (
          rw day open',
          later,
          λ u l b. elim (day_cases (date u) d (omega arith)) [
            | inl earlier ↦ s u l earlier
            | inr same ↦ rw same (shut u same l b)
          ],
        )

  missed-IsShutUntil :
      (d : ℕ) (r : Option ℕ)
      → r ≡ none
      → DayAnswer (is_inside (window hours d)) local d r
      → IsShutUntil d
      → IsShutUntil (d + 1)
  unfolding is_open_for_hours
  missed-IsShutUntil d (some v) p a s = absurd (cc)
  missed-IsShutUntil d none p a s = λ u l b. elim (day_cases (date u) d b) [
    | inl earlier ↦ s u l earlier
    | inr same ↦ rw same (a u same l)
  ]

  IsDay-of : (offset : ℕ) → IsDay local (offset == 0) (date local + offset)
  IsDay-of zero = omega arith
  IsDay-of (suc k) = let e : (suc k == 0) ≡ false = ground arith in rw e (omega arith)

  open_loop-IsFirstOpen :
      (f offset : ℕ)
      → IsRegular hours
      → IsShutUntil (date local + offset)
      → IsFirstOpen (date local + offset + f) (open_loop f hours local offset)
  unfolding open_loop
  open_loop-IsFirstOpen zero offset r s = λ u l b. s u l (omega arith)
  open_loop-IsFirstOpen (suc f) offset r s =
      let d = date local + offset in
      let a = open_day-answer hours local (offset == 0) d r (IsDay-of offset) in
      elim (Option-cases (open_day hours local (offset == 0) d)) [
        | inl missed ↦
            let s' = missed-IsShutUntil d _ missed a s in
            rw (missed, open_loop)
              (subst (λ e. IsFirstOpen e (open_loop f hours local (offset + 1))) (omega arith)
                (open_loop-IsFirstOpen f (offset + 1) r (subst IsShutUntil (omega arith) s')))
        | inr (t, found) ↦ rw (found, open_loop) (found-IsFirstOpen d _ (d + suc f) t found a s)
      ]

  -- Where every day that opens closes later on that day, `next_open_time` answers with the first
  -- moment from the given one on at which the hours are open, and with nothing only if they stay
  -- shut for that day and the 365 days after it.
  pub next_open_time-IsFirstOpen :
      IsRegular hours → IsFirstOpen (date local + 366) (next_open_time hours local)
  unfolding next_open_time
  next_open_time-IsFirstOpen r =
      subst (λ e. IsFirstOpen e (open_loop 366 hours local 0)) (omega arith)
        (open_loop-IsFirstOpen 366 0 r (λ u l b. absurd (omega arith)))
