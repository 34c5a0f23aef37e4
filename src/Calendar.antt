-- ===== src/Calendar.antt =====
-- src/util.cc: `is_leap_year`, `get_days_in_month` and `addMonths`. A year is counted from the birth
-- of Christ (`tm_year + 1900`), and a month from 0, as in `tm_mon`.
pub mod Moving
mod Runs
use Prim.Native.Nat.{min}
use wmbm_16brandnew.Prelude.{
  ℕ, ◌+◌, ◌-◌, ◌*◌, ◌/◌, ◌%◌, Bool, true, false, not, ◌&&◌, Option, none, some, List, [], ◌∷◌,
  get_elem?, ltb, leb, ◌==◌, if◌then◌else◌,
}

unfoldable pub is_leap_year : ℕ → Bool
is_leap_year year =
    if not (year % 4 == 0)
    then false
    else if year % 400 == 0
    then true
    else if year % 100 == 0
    then false
    else true

abbrev days_in_months : List ℕ
days_in_months = 31 ∷ 28 ∷ 31 ∷ 30 ∷ 31 ∷ 30 ∷ 31 ∷ 31 ∷ 30 ∷ 31 ∷ 30 ∷ 31 ∷ []

-- `none` where the assertion on the month fails.
unfoldable pub get_days_in_month : ℕ → ℕ → Option ℕ
get_days_in_month year month = elim (get_elem? days_in_months month) [
  | none ↦ none
  | some days ↦ some (if (month == 1) && is_leap_year year then days + 1 else days)
]

pub record Date : Type 0 where
  pub year : ℕ
  pub month : ℕ
  pub mday : ℕ

-- A number of months to add, or to take away if it is negative.
pub data Months : Type 0 where
  forward back : ℕ → Months

-- The year and the month behind the two loops, of which each takes one round at most, since a month
-- that passed the assertion is moved by less than twelve. `none` is a year before 0, for which there
-- is no number here.
unfoldable pub move : ℕ → ℕ → Months → Option (ℕ × ℕ)
move year month (forward n) =
    if ltb 11 (month + n % 12)
    then some (year + n / 12 + 1, month + n % 12 - 12)
    else some (year + n / 12, month + n % 12)
move year month (back n) =
    if ltb month (n % 12)
    then (if ltb year (n / 12 + 1) then none else some (year - n / 12 - 1, month + 12 - n % 12))
    else if ltb year (n / 12)
    then none
    else some (year - n / 12, month - n % 12)

-- The last day of a month maps to the last day of the resulting month.
unfoldable pub move_day : ℕ → ℕ → ℕ → ℕ
move_day mday days days' = if mday == days then days' else min mday days'

unfoldable pub add_months : Date → Months → Option Date
add_months d months = elim (get_days_in_month d.year d.month) [
  | none ↦ none
  | some days ↦ elim (move d.year d.month months) [
    | none ↦ none
    | some (year, month) ↦ elim (get_days_in_month year month) [
      | none ↦ none
      | some days' ↦ some (record { year = year; month = month; mday = move_day d.mday days days' })
    ]
  ]
]
