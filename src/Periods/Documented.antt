-- ===== src/Periods/Documented.antt =====
-- src/util.cc: the texts of single periods that the documentation has, in `extract_single_period`.
use wmbm_16brandnew.Prelude.{
  ℕ, ◌+◌, ◌/◌, ◌%◌, ◌≤◌, Bool, true, false, ◌&&◌, ◌||◌, Option, none, some, ◌++◌, Bytes, All, codes,
  leb, ◌==◌, if◌then◌else◌, all_below, all_below_sound, ◌≡◌, refl, ap, ◌∙◌, inl, inr, Bool-cases,
  Option-cases, ==_iff, arith,
}
use wmbm_16brandnew.Text.{equal}
use wmbm_16brandnew.Periods.{
  TimePeriod, digit, hour_of, extract_times, day_name_to_nr, extract_days, extract_single_period,
}
use wmbm_16brandnew.Periods.Single.{
  misspelt, day_name, two_digits, print_days, print_times, print_period, IsPeriod,
}
use wmbm_16brandnew.Periods.Accepted.{
  IsNoParen, print_days-IsNoParen, both_parts, extract_single_period-both_parts,
  printed_is_accepted,
}

-- The name of Saturday in the documentation
abbrev pub documented : Bytes
documented = codes "sat"

-- A period as the documentation has them: the hours go up to 24.
pub record IsDocumented (tp : TimePeriod) : Type 0 where
  pub days : tp.day_in_week_from ≤ tp.day_in_week_to
  pub week : tp.day_in_week_to ≤ 6
  pub hours : tp.hour_from ≤ tp.hour_to
  pub day : tp.hour_to ≤ 24

-- Saturday is the first or the last day of the period.
abbrev pub names_saturday : ℕ → ℕ → Bool
names_saturday from to = (from == 5) || (to == 5)

abbrev pub is_refused : TimePeriod → Bool
is_refused tp = names_saturday tp.day_in_week_from tp.day_in_week_to || (tp.hour_to == 24)

is_none : Option (ℕ × ℕ) → Bool
is_none none = true
is_none (some _) = false

-- Saturday is no day, and the texts of the other days are the same as before.
refuses : ℕ → ℕ → Bool
refuses from to =
    if leb from to && names_saturday from to
    then is_none (extract_days (print_days documented from to))
    else true

refuses_table : all_below 7 (λ from. all_below 7 (refuses from)) ≡ true
unfolding all_below refuses is_none extract_days print_days day_name day_name_to_nr equal
refuses_table = refl

is_none_lem : (o : Option (ℕ × ℕ)) → is_none o ≡ true → o ≡ none
unfolding is_none
is_none_lem none h = refl
is_none_lem (some p) h = cc

extract_days-saturday :
    (from to : ℕ)
    → from ≤ to
    → to ≤ 6
    → names_saturday from to ≡ true
    → extract_days (print_days documented from to) ≡ none
unfolding refuses
extract_days-saturday from to le week names =
    let row =
      all_below_sound 7 (λ x. all_below 7 (refuses x)) from refuses_table
        (omega (arith, le, week)) in
    let entry = all_below_sound 7 (refuses from) to row (omega (arith, week)) in
    let ordered : leb from to ≡ true = ground (arith, le) in
    is_none_lem _ (rw (ordered, names) at entry)

extract_times-24 : (from : ℕ) → extract_times (print_times from 24) ≡ none
unfolding extract_times print_times two_digits
extract_times-24 from =
    let late : hour_of (b'0' + 24 / 10) (b'0' + 24 % 10) ≡ none = unfold hour_of digit in refl in
    elim (Option-cases (hour_of (b'0' + from / 10) (b'0' + from % 10))) [
      | inl bad ↦ rw bad refl
      | inr (h, good) ↦ rw (good, late) refl
    ]

no_days : (days times : Bytes) → extract_days days ≡ none → both_parts days times ≡ none
no_days days times h = elim (Option-cases (extract_times times)) [
  | inl bad ↦ rw bad refl
  | inr (t, good) ↦ rw (good, h) refl
]

documented-IsNoParen : All IsNoParen documented
documented-IsNoParen = (refl, (refl, (refl, tt)))

day_name-documented : (d : ℕ) → (d == 5) ≡ false → day_name documented d ≡ day_name misspelt d
unfolding day_name
day_name-documented d h = rw h refl

print_days-documented :
    (from to : ℕ)
    → names_saturday from to ≡ false
    → print_days documented from to ≡ print_days misspelt from to
unfolding print_days
print_days-documented from to h =
    let f : (from == 5) ≡ false = ground (arith, h) in
    let t : (to == 5) ≡ false = ground (arith, h) in
    rw (day_name-documented from f, day_name-documented to t) refl

-- A documented text is refused where it names Saturday or the hour 24, and read otherwise.
pub extract_single_period-documented :
    (tp : TimePeriod)
    → IsDocumented tp
    → extract_single_period (print_period documented tp) ≡ (if is_refused tp then none else some tp)
unfolding print_period
extract_single_period-documented tp h =
    let from = tp.day_in_week_from in
    let to = tp.day_in_week_to in
    let days = print_days documented from to in
    let (no_paren, three) = print_days-IsNoParen _ _ _ documented-IsNoParen from to h.days h.week in
    let parts = extract_single_period-both_parts days tp.hour_from tp.hour_to no_paren three in
    elim (Bool-cases (names_saturday from to)) [
      | inl names ↦
          rw names (parts ∙ no_days days _ (extract_days-saturday from to h.days h.week names))
      | inr others ↦ elim (Bool-cases (tp.hour_to == 24)) [
        | inl late ↦
            let e : tp.hour_to ≡ 24 = (==_iff tp.hour_to 24).0 late in
            rw (others, late)
              (parts
                ∙ ap (λ n. both_parts days (print_times tp.hour_from n)) e
                ∙ rw (extract_times-24 tp.hour_from) refl)
        | inr early ↦
            let day = h.day in
            let p : IsPeriod tp = record {
              days = h.days;
              week = h.week;
              hours = h.hours;
              day = ground (arith, early, day);
            } in
            rw (others, early)
              (ap (λ d. extract_single_period (d ++ print_times tp.hour_from tp.hour_to))
                  (print_days-documented from to others)
                ∙ printed_is_accepted tp p)
      ]
    ]
