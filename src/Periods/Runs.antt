-- ===== src/Periods/Runs.antt =====
-- Concrete runs, and the theorems at concrete inputs.
use wmbm_16brandnew.Prelude.{
  ◌≡◌, ◌↔◌, ◌<◌, refl, true, false, none, some, [], ◌∷◌, arith, All, codes, length,
}
use wmbm_16brandnew.Hex.{c_str}
use wmbm_16brandnew.Text.{equal}
use wmbm_16brandnew.Periods.{
  TimePeriod, extract_single_period, extract_times, extract_days, find_paren, hour_of, digit,
  day_name_to_nr, extract_periods, null_token, is_valid_time_period, is_inside_time_period,
  extract_first, extract_tokens, add_period, is_inside, is_inside_any, tokens,
}
use wmbm_16brandnew.Periods.Single.{print_period, print_days, print_times, day_name, two_digits}
use wmbm_16brandnew.Periods.Documented.{IsDocumented}
use wmbm_16brandnew.Periods.Valid.{joined, texts, is_valid_time_period-documented}
use wmbm_16brandnew.Periods.Tokens.{IsComma, extract_periods_null_iff}

abbrev office_hours : TimePeriod
office_hours = record { day_in_week_from = 0; day_in_week_to = 4; hour_from = 8; hour_to = 17 }

office_hours_run : extract_single_period (codes "mon-fri(08-17)") ≡ some office_hours
unfolding extract_single_period extract_times extract_days find_paren hour_of digit day_name_to_nr
    equal
office_hours_run = refl

-- Saturday is no day.
saturday_run : extract_single_period (codes "sat(08-17)") ≡ none
unfolding extract_single_period extract_times extract_days find_paren hour_of digit day_name_to_nr
    equal
saturday_run = refl

-- On a Wednesday at noon
inside_run : is_inside_time_period 3 12 (codes "sun(00-23),mon-fri(08-17)") ≡ some true
unfolding is_inside_time_period is_inside_any is_inside extract_periods extract_first extract_tokens
    add_period tokens c_str extract_single_period extract_times extract_days find_paren hour_of
    digit day_name_to_nr equal
inside_run = refl

extract_periods_null_iff_example :
    (extract_periods (codes ",,") ≡ null_token)
    ↔ ((0 < length (codes ",,")) × All IsComma (c_str (codes ",,")))
extract_periods_null_iff_example = extract_periods_null_iff (codes ",,")

abbrev weekend : TimePeriod
weekend = record { day_in_week_from = 5; day_in_week_to = 6; hour_from = 9; hour_to = 12 }

office_hours-IsDocumented : IsDocumented office_hours
office_hours-IsDocumented = record {
  days = omega arith;
  week = omega arith;
  hours = omega arith;
  day = omega arith;
}

weekend-IsDocumented : IsDocumented weekend
weekend-IsDocumented = record {
  days = omega arith;
  week = omega arith;
  hours = omega arith;
  day = omega arith;
}

-- The example of the manual
manual_run : joined (texts (office_hours ∷ weekend ∷ [])) ≡ codes "mon-fri(08-17),sat-sun(09-12)"
unfolding joined print_period print_days print_times day_name two_digits
manual_run = refl

is_valid_time_period-documented_example :
    is_valid_time_period (joined (texts (office_hours ∷ weekend ∷ []))) ≡ some false
is_valid_time_period-documented_example =
    is_valid_time_period-documented office_hours (weekend ∷ [])
      (office_hours-IsDocumented, (weekend-IsDocumented, tt))
