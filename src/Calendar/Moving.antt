-- ===== src/Calendar/Moving.antt =====
-- src/util.cc: `addMonths` moves by the number of months and stays on the calendar.
use Prim.Native.Nat.{min}
use wmbm_16brandnew.Prelude.{
  ℕ, zero, suc, ◌+◌, ◌*◌, ◌/◌, ◌%◌, ◌≤◌, ◌<◌, ◌≡◌, ◌≢◌, refl, inl, inr, Option, none, some, ltb,
  ◌==◌, ==_iff, arith, Bool-cases,
}
use wmbm_16brandnew.Calendar.{
  is_leap_year, get_days_in_month, Date, Months, forward, back, move, move_day, add_months,
}

-- A day of the calendar.
pub record OnCalendar (d : Date) (days : ℕ) : Type 0 where
  pub in_year : d.month < 12
  pub length_of : get_days_in_month d.year d.month ≡ some days
  pub first : 1 ≤ d.mday
  pub final : d.mday ≤ days

-- The months from the year 0 to the month of the date.
abbrev pub month_count : ℕ → ℕ → ℕ
month_count year month = year * 12 + month

-- Every month that there is has a length, of one day at least.
days_of :
    (year month : ℕ)
    → month < 12
    → (days : ℕ) × (get_days_in_month year month ≡ some days) × (1 ≤ days)
unfolding get_days_in_month
days_of year zero h = (31, refl, omega arith)
days_of year (suc zero) h = elim (Bool-cases (is_leap_year year)) [
  | inl leap ↦ (29, rw (leap, get_days_in_month) refl, omega arith)
  | inr plain ↦ (28, rw (plain, get_days_in_month) refl, omega arith)
]
days_of year (suc (suc zero)) h = (31, refl, omega arith)
days_of year (suc (suc (suc zero))) h = (30, refl, omega arith)
days_of year (suc (suc (suc (suc zero)))) h = (31, refl, omega arith)
days_of year (suc (suc (suc (suc (suc zero))))) h = (30, refl, omega arith)
days_of year (suc (suc (suc (suc (suc (suc zero)))))) h = (31, refl, omega arith)
days_of year (suc (suc (suc (suc (suc (suc (suc zero))))))) h = (31, refl, omega arith)
days_of year (suc (suc (suc (suc (suc (suc (suc (suc zero)))))))) h = (30, refl, omega arith)
days_of year (suc (suc (suc (suc (suc (suc (suc (suc (suc zero))))))))) h = (31, refl, omega arith)
days_of year (suc (suc (suc (suc (suc (suc (suc (suc (suc (suc zero)))))))))) h =
    (30, refl, omega arith)
days_of year (suc (suc (suc (suc (suc (suc (suc (suc (suc (suc (suc zero))))))))))) h =
    (31, refl, omega arith)
days_of year (suc (suc (suc (suc (suc (suc (suc (suc (suc (suc (suc (suc month)))))))))))) h =
    absurd (omega arith)

-- What a move by months comes to, from `from` months on.
data Moved (from : ℕ) : Months → Option (ℕ × ℕ) → Type 0 where
  ahead :
      (n year month : ℕ)
      → month < 12
      → month_count year month ≡ from + n
      → Moved from (forward n) (some (year, month))
  behind :
      (n year month : ℕ)
      → month < 12
      → month_count year month + n ≡ from
      → Moved from (back n) (some (year, month))
  too_early : (n : ℕ) → from < n → Moved from (back n) none

move-Moved :
    (year month : ℕ) (months : Months)
    → month < 12
    → Moved (month_count year month) months (move year month months)
unfolding move
move-Moved year month (forward n) h = elim (Bool-cases (ltb 11 (month + n % 12))) [
  | inl over ↦ rw (over, move) (ahead n _ _ (omega arith) (ground (arith, over)))
  | inr within_year ↦
      rw (within_year, move) (ahead n _ _ (ground (arith, within_year)) (omega arith))
]
move-Moved year month (back n) h = elim (Bool-cases (ltb month (n % 12))) [
  | inl borrow ↦ elim (Bool-cases (ltb year (n / 12 + 1))) [
    | inl early ↦ rw (borrow, early, move) (too_early n (ground (arith, borrow, early)))
    | inr later ↦
        rw (borrow, later, move)
          (behind n _ _ (ground (arith, borrow)) (ground (arith, borrow, later)))
  ]
  | inr plain ↦ elim (Bool-cases (ltb year (n / 12))) [
    | inl early ↦ rw (plain, early, move) (too_early n (ground (arith, plain, early)))
    | inr later ↦
        rw (plain, later, move) (behind n _ _ (omega arith) (ground (arith, plain, later)))
  ]
]

-- The last day of a month of `days` days becomes the last one of a month of `days'` days, and any
-- other day stays, or becomes the last one where the month is too short for it.
pub data DayMoved (days days' : ℕ) : ℕ → ℕ → Type 0 where
  final_day : DayMoved days days' days days'
  other_day : (mday : ℕ) → mday ≢ days → DayMoved days days' mday (min mday days')

move_day-DayMoved : (mday days days' : ℕ) → DayMoved days days' mday (move_day mday days days')
unfolding move_day
move_day-DayMoved mday days days' = elim (Bool-cases (mday == days)) [
  | inl same ↦
      let e : mday ≡ days = (==_iff mday days).0 same in rw (same, move_day) (rw e final_day)
  | inr other ↦ rw (other, move_day) (other_day mday (ground (arith, other)))
]

move_day_bounds :
    (mday days days' : ℕ)
    → 1 ≤ mday
    → 1 ≤ days'
    → (1 ≤ move_day mday days days') × (move_day mday days days' ≤ days')
unfolding move_day
move_day_bounds mday days days' h k = elim (Bool-cases (mday == days)) [
  | inl same ↦ rw (same, move_day) (omega arith, omega arith)
  | inr other ↦ rw (other, move_day) (omega arith, omega arith)
]

-- What adding months to a date, in a month of `days` days, comes to.
pub data Added (d : Date) (days : ℕ) : Months → Option Date → Type 0 where
  later :
      (n days' : ℕ) (r : Date)
      → month_count r.year r.month ≡ month_count d.year d.month + n
      → OnCalendar r days'
      → DayMoved days days' d.mday r.mday
      → Added d days (forward n) (some r)
  earlier :
      (n days' : ℕ) (r : Date)
      → month_count r.year r.month + n ≡ month_count d.year d.month
      → OnCalendar r days'
      → DayMoved days days' d.mday r.mday
      → Added d days (back n) (some r)
  before_christ : (n : ℕ) → month_count d.year d.month < n → Added d days (back n) none

moved_date : Date → ℕ → ℕ → ℕ → ℕ → Date
moved_date d days days' year month = record {
  year = year;
  month = month;
  mday = move_day d.mday days days';
}

moved_date-OnCalendar :
    (d : Date) (days days' year month : ℕ)
    → OnCalendar d days
    → month < 12
    → get_days_in_month year month ≡ some days'
    → 1 ≤ days'
    → OnCalendar (moved_date d days days' year month) days'
unfolding moved_date
moved_date-OnCalendar d days days' year month on h e k =
    let (low, high) = move_day_bounds d.mday days days' on.first k in
    record { in_year = h; length_of = e; first = low; final = high }

add_months_at :
    (d : Date) (days days' year month : ℕ) (months : Months)
    → get_days_in_month d.year d.month ≡ some days
    → move d.year d.month months ≡ some (year, month)
    → get_days_in_month year month ≡ some days'
    → add_months d months ≡ some (moved_date d days days' year month)
unfolding add_months moved_date
add_months_at d days days' year month months h k e = rw (h, k, e, add_months) refl

add_months-none :
    (d : Date) (days : ℕ) (months : Months)
    → get_days_in_month d.year d.month ≡ some days
    → move d.year d.month months ≡ none
    → add_months d months ≡ none
unfolding add_months
add_months-none d days months h k = rw (h, k, add_months) refl

add_months-Added :
    (d : Date) (days : ℕ) (months : Months) (r : Option (ℕ × ℕ))
    → OnCalendar d days
    → move d.year d.month months ≡ r
    → Moved (month_count d.year d.month) months r
    → Added d days months (add_months d months)
unfolding moved_date
add_months-Added d days (forward n) (some (year, month)) on e (ahead n' y m h count) =
    let (days', len, pos) = days_of year month h in
    rw (add_months_at d days days' year month (forward n) on.length_of e len) (
      later n days' _ count (moved_date-OnCalendar d days days' year month on h len pos)
        (move_day-DayMoved d.mday days days'))
add_months-Added d days (back n) (some (year, month)) on e (behind n' y m h count) =
    let (days', len, pos) = days_of year month h in
    rw (add_months_at d days days' year month (back n) on.length_of e len) (
      earlier n days' _ count (moved_date-OnCalendar d days days' year month on h len pos)
        (move_day-DayMoved d.mday days days'))
add_months-Added d days (back n) none on e (too_early n' h) =
    rw (add_months-none d days (back n) on.length_of e) (before_christ n h)
add_months-Added d days (forward n) none on e absurd_move = elim absurd_move [ ]

-- `addMonths` moves a day of the calendar by exactly the number of months, to a day of the calendar:
-- the last day of a month to the last day of the other one, and any other day to the same one, cut
-- to the length of the month. It has no result here only before the year 0.
pub add_months_moves :
    (d : Date) (days : ℕ) (months : Months)
    → OnCalendar d days
    → Added d days months (add_months d months)
add_months_moves d days months on =
    add_months-Added d days months _ on refl (move-Moved d.year d.month months on.in_year)
