-- ===== src/Calendar/Runs.antt =====
-- Concrete runs, and the theorems at concrete inputs.
use wmbm_16brandnew.Prelude.{◌≡◌, refl, some, arith}
use wmbm_16brandnew.Calendar.{
  is_leap_year, get_days_in_month, Date, forward, back, move, move_day, add_months,
}
use wmbm_16brandnew.Calendar.Moving.{OnCalendar, Added, add_months_moves}

abbrev leap_day : Date
leap_day = record { year = 2020; month = 1; mday = 29 }

leap_day-OnCalendar : OnCalendar leap_day 29
unfolding get_days_in_month is_leap_year
leap_day-OnCalendar = record {
  in_year = omega arith;
  length_of = refl;
  first = omega arith;
  final = omega arith;
}

-- The last day of February becomes the last day of January.
add_months_run : add_months leap_day (back 13) ≡ some (record { year = 2019; month = 0; mday = 31 })
unfolding add_months move move_day get_days_in_month is_leap_year
add_months_run = refl

add_months_moves_example : Added leap_day 29 (forward 12) (add_months leap_day (forward 12))
add_months_moves_example = add_months_moves leap_day 29 (forward 12) leap_day-OnCalendar
