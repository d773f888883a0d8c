-- ===== src/Hours/Due.antt =====
-- `add_business_minutes` finds the moment at which the minutes are used up.
use ai_customer_support_plat.Prelude.{
  ℕ, zero, suc, ◌+◌, ◌-◌, ◌*◌, ◌/◌, ◌≤◌, ◌<◌, ◌≡◌, ◌⊎◌, inl, inr, refl, ap, ◌∙◌, false, Option,
  none, some, ltb, leb, ◌==◌, leb_iff, arith, Bool-cases,
}
use ai_customer_support_plat.Hours.Calendar.{day_length, minute, date, combine, BusinessHours}
use ai_customer_support_plat.Hours.Elapsed.{
  left_in, left, day_start, minutes_before, open_before, dropped_before, open_before-split,
  dropped_before-small,
}
use ai_customer_support_plat.Hours.Service.{
  window, next_midnight, answer, next, opened, work, round_in, round, add_loop,
  add_business_minutes,
}

-- `r` is the moment at which `m` business minutes after `t` are used up: on the first day by whose
-- close they fit, as long after that day's opening (or after `t`) as the earlier days left over, and
-- not after its close.
pub record IsDue (hours : BusinessHours) (t m r : ℕ) : Type 0 where
  pub day : ℕ
  pub open_at : ℕ
  pub close_at : ℕ
  pub at_work : window hours (date (day_start t day)) ≡ some (open_at, close_at)
  pub before : minutes_before hours t day < m
  pub fits : m ≤ minutes_before hours t (suc day)
  pub moment :
      r
      ≡ opened (day_start t day) (combine (date (day_start t day)) open_at)
        + (m - minutes_before hours t day) * minute
  pub by_close : r ≤ combine (date (day_start t day)) close_at

-- The times of a schedule are times of a day.
abbrev pub IsTimed : Option (ℕ × ℕ) → Type 0
IsTimed none = Unit
IsTimed (some (o, c)) = (o < day_length) × (c < day_length)

abbrev pub HasDayTimes : BusinessHours → Type 0
HasDayTimes hours = (d : ℕ) → IsTimed (window hours d)

nothing_left : (start close m : ℕ) → close ≤ start → m ≡ m - (close - start) / minute
nothing_left start close m h = omega arith

fits-le : (start close m : ℕ) → 0 < m → m ≤ (close - start) / minute → start + m * minute ≤ close
fits-le start close m p h = omega arith

work_left :
    (start close m : ℕ)
    → 0 < m
    → ((m ≤ (close - start) / minute)
        × (work start close m ≡ answer (start + m * minute))
        × (start + m * minute ≤ close))
      ⊎ (((close - start) / minute < m)
          × (work start close m ≡ next (next_midnight start) (m - (close - start) / minute)))
work_left start close m h = elim (Bool-cases (leb close start)) [
  | inl over ↦
      inr (ground arith, rw over (cc (nothing_left start close m ((leb_iff close start).0 over))))
  | inr open' ↦ elim (Bool-cases (leb m ((close - start) / minute))) [
    | inl fits ↦
        inl ((leb_iff m _).0 fits, rw (open', fits), fits-le start close m h ((leb_iff m _).0 fits))
    | inr more ↦ inr (ground arith, rw (open', more))
  ]
]

opened-date :
    (t o : ℕ) → o < day_length → next_midnight (opened t (combine (date t) o)) ≡ next_midnight t
opened-date t o h = elim (Bool-cases (ltb t (combine (date t) o))) [
  | inl early ↦ rw early (omega arith)
  | inr late ↦ rw late
]

-- The day's round: either the minutes fit into what the day has left, or they are carried over.
round_in_left :
    (w : Option (ℕ × ℕ)) (t m : ℕ)
    → IsTimed w
    → 0 < m
    → ((o : ℕ) × (c : ℕ) × (w ≡ some (o, c))
        × (m ≤ left_in w t)
        × (round_in w t m ≡ answer (opened t (combine (date t) o) + m * minute))
        × (opened t (combine (date t) o) + m * minute ≤ combine (date t) c))
      ⊎ ((left_in w t < m) × (round_in w t m ≡ next (next_midnight t) (m - left_in w t)))
round_in_left none t m timed h = inr (h, ap (next (next_midnight t)) (omega arith))
round_in_left (some (o, c)) t m timed h =
    elim (work_left (opened t (combine (date t) o)) (combine (date t) c) m h) [
      | inl (fits, e, b) ↦ inl (o, c, refl, fits, e, b)
      | inr (less, e) ↦
          inr (less, e ∙ ap (λ d. next d (m - left_in (some (o, c)) t)) (opened-date t o timed.0))
    ]

carry :
    (hours : BusinessHours) (t m r : ℕ)
    → left hours t < m
    → IsDue hours (next_midnight t) (m - left hours t) r
    → IsDue hours t m r
unfolding day_start minutes_before
carry hours t m r less d = record {
  day = suc d.day;
  open_at = d.open_at;
  close_at = d.close_at;
  at_work = d.at_work;
  before = omega (arith, d.before);
  fits = omega (arith, d.fits);
  moment =
      d.moment
      ∙ ap
          (λ n.
            opened (day_start (next_midnight t) d.day)
              (combine (date (day_start (next_midnight t) d.day)) d.open_at)
            + n * minute)
          (omega arith);
  by_close = d.by_close;
}

today :
    (hours : BusinessHours) (t m o c : ℕ)
    → window hours (date t) ≡ some (o, c)
    → 0 < m
    → m ≤ left hours t
    → opened t (combine (date t) o) + m * minute ≤ combine (date t) c
    → IsDue hours t m (opened t (combine (date t) o) + m * minute)
unfolding day_start minutes_before
today hours t m o c w p fits b = record {
  day = 0;
  open_at = o;
  close_at = c;
  at_work = w;
  before = p;
  fits = omega arith;
  moment = ap (λ n. opened t (combine (date t) o) + n * minute) (omega arith);
  by_close = b;
}

-- A later day is needed only if there is one.
enough_later :
    (hours : BusinessHours) (t m k : ℕ)
    → left hours t < m
    → m ≤ minutes_before hours t (suc k)
    → (j : ℕ) × (k ≡ suc j) × (m - left hours t ≤ minutes_before hours (next_midnight t) (suc j))
unfolding minutes_before
enough_later hours t m zero less h = absurd (omega arith)
enough_later hours t m (suc j) less h = (j, refl, omega arith)

add_loop-IsDue :
    (f k : ℕ) (hours : BusinessHours) (t m : ℕ)
    → HasDayTimes hours
    → 0 < m
    → m ≤ minutes_before hours t (suc k)
    → k < f
    → IsDue hours t m (add_loop f hours t m)
unfolding add_loop round left
add_loop-IsDue zero k hours t m timed p enough h = absurd (omega arith)
add_loop-IsDue (suc f) k hours t m timed p enough h =
    let positive : (m == 0) ≡ false = ground arith in
    elim (round_in_left (window hours (date t)) t m (timed (date t)) p) [
      | inl (o, c, w, fits, e, b) ↦ rw positive (rw e (today hours t m o c w p fits b))
      | inr (less, e) ↦
          let (j, later, more) = enough_later hours t m k less enough in
          rw positive (
            rw e (
              carry hours t m _ less (
                add_loop-IsDue f j hours (next_midnight t) (m - left hours t) timed (omega arith)
                  more (omega arith))))
    ]

-- The open time from `t` to `r`, which lies on the `j`th day, at or after its opening at `open_at`.
abbrev pub open_until : BusinessHours → ℕ → ℕ → ℕ → ℕ → ℕ
open_until hours t j open_at r =
    open_before hours t j + (r - opened (day_start t j) (combine (date (day_start t j)) open_at))

IsDue-open_until :
    (hours : BusinessHours) (t m r : ℕ) (d : IsDue hours t m r)
    → open_until hours t d.day d.open_at r ≡ m * minute + dropped_before hours t d.day
IsDue-open_until hours t m r d = omega (arith, open_before-split hours t d.day, d.moment, d.before)

-- With times of day for the schedule, a positive number of minutes, and enough of them in the
-- windows of the first `days` days, 10,000 at most, `add_business_minutes` answers on the first day by
-- whose close the minutes fit, each day counted in whole minutes, as long after its opening (or after
-- the start, if that is later) as the earlier days left over. The open time from the start to the
-- answer is those minutes, and what the counting drops: the part of a minute at the end of each
-- earlier day, less than a minute for each.
pub add_business_minutes-IsDue :
    (hours : BusinessHours) (start minutes days : ℕ)
    → HasDayTimes hours
    → 0 < minutes
    → days ≤ 10000
    → minutes ≤ minutes_before hours start days
    → (due : IsDue hours start minutes (add_business_minutes hours start minutes)) × (open_until
          hours start due.day due.open_at
          (add_business_minutes hours start minutes)
        ≡ minutes * minute + dropped_before hours start due.day)
      × (dropped_before hours start due.day + due.day ≤ due.day * minute)
unfolding add_business_minutes minutes_before
add_business_minutes-IsDue hours start minutes zero timed p most enough = absurd (omega arith)
add_business_minutes-IsDue hours start minutes (suc k) timed p most enough =
    let due = add_loop-IsDue 10000 k hours start minutes timed p enough (omega arith) in
    (due, IsDue-open_until hours start minutes _ due, dropped_before-small hours start due.day)
