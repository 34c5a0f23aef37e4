-- ===== src/Periods/Accepted.antt =====
-- src/util.cc: `extract_single_period` accepts the text of a period and nothing else.
use wmbm_16brandnew.Prelude.{
  ℕ, zero, suc, ◌+◌, ◌-◌, ◌≤◌, ◌<◌, true, false, Option, none, some, [], ◌∷◌, ◌++◌, Bytes, All,
  get_or, length, length-append, ltb, leb, ◌==◌, ◌≡◌, refl, sym, ap, ◌∙◌, ◌↔◌, inl, inr, Bool-cases,
  ==_iff, arith,
}
use mathlib.Core.Path.{subst}
use wmbm_16brandnew.Periods.{
  TimePeriod, ◌>>=◌, extract_times, day_name_to_nr, extract_days, find_paren, extract_single_period,
}
use wmbm_16brandnew.Periods.Single.{
  misspelt, day_name, two_digits, print_days, print_times, print_period, IsPeriod, chain, guard,
  extract_times_sound, extract_times_read, extract_days_sound, day_name_to_nr_read,
}

abbrev pub IsNoParen : ℕ → Type 0
IsNoParen c = (c == b'(') ≡ false

-- The three letters of a day, if the ones of Saturday are `x`, `y` and `z`
pub day_shape :
    (x y z : ℕ)
    → All IsNoParen (x ∷ y ∷ z ∷ [])
    → (d : ℕ) → d ≤ 6
    → (a : ℕ) × (b : ℕ) × (c : ℕ) × (day_name (x ∷ y ∷ z ∷ []) d ≡ a ∷ b ∷ c ∷ [])
      × All IsNoParen (a ∷ b ∷ c ∷ [])
unfolding day_name
day_shape x y z h zero le = (_, _, _, refl, (refl, (refl, (refl, tt))))
day_shape x y z h (suc zero) le = (_, _, _, refl, (refl, (refl, (refl, tt))))
day_shape x y z h (suc (suc zero)) le = (_, _, _, refl, (refl, (refl, (refl, tt))))
day_shape x y z h (suc (suc (suc zero))) le = (_, _, _, refl, (refl, (refl, (refl, tt))))
day_shape x y z h (suc (suc (suc (suc zero)))) le = (_, _, _, refl, (refl, (refl, (refl, tt))))
day_shape x y z h (suc (suc (suc (suc (suc zero))))) le = (_, _, _, refl, h)
day_shape x y z h (suc (suc (suc (suc (suc (suc zero)))))) le =
    (_, _, _, refl, (refl, (refl, (refl, tt))))
day_shape x y z h (suc (suc (suc (suc (suc (suc (suc n))))))) le = absurd (omega (arith, le))

-- The text of one or two days has three letters at least, and no parenthesis.
pub print_days-IsNoParen :
    (x y z : ℕ)
    → All IsNoParen (x ∷ y ∷ z ∷ [])
    → (from to : ℕ) → from ≤ to
    → to ≤ 6
    → All IsNoParen (print_days (x ∷ y ∷ z ∷ []) from to)
      × (3 ≤ length (print_days (x ∷ y ∷ z ∷ []) from to))
unfolding print_days
print_days-IsNoParen x y z h from to le week =
    let (a, b, c, e, (na, (nb, (nc, _)))) = day_shape x y z h from (omega (arith, le, week)) in
    let (a', b', c', e', (na', (nb', (nc', _)))) = day_shape x y z h to week in
    elim (Bool-cases (from == to)) [
      | inl same ↦ rw (same, e) ((na, (nb, (nc, tt))), omega arith)
      | inr other ↦
          rw (other, e, e') ((na, (nb, (nc, (refl, (na', (nb', (nc', tt))))))), omega arith)
    ]

misspelt-IsNoParen : All IsNoParen misspelt
misspelt-IsNoParen = (refl, (refl, (refl, tt)))

one_day :
    (a b c d : ℕ)
    → day_name_to_nr (a ∷ b ∷ c ∷ []) ≡ some d
    → extract_days (a ∷ b ∷ c ∷ []) ≡ some (d, d)
unfolding extract_days
one_day a b c d h = rw h refl

two_days :
    (a b c d e f from to : ℕ)
    → day_name_to_nr (a ∷ b ∷ c ∷ []) ≡ some from
    → day_name_to_nr (d ∷ e ∷ f ∷ []) ≡ some to
    → from < to
    → extract_days (a ∷ b ∷ c ∷ b'-' ∷ d ∷ e ∷ f ∷ []) ≡ some (from, to)
unfolding extract_days
two_days a b c d e f from to h k lt =
    let p : leb to from ≡ false = ground (arith, lt) in rw (h, k, p) refl

extract_days_read :
    (from to : ℕ)
    → from ≤ to
    → to ≤ 6
    → extract_days (print_days misspelt from to) ≡ some (from, to)
unfolding print_days
extract_days_read from to le week =
    let (a, b, c, e, _) =
      day_shape b's' b'a' b'y' misspelt-IsNoParen from (omega (arith, le, week)) in
    let (a', b', c', e', _) = day_shape b's' b'a' b'y' misspelt-IsNoParen to week in
    let h : day_name_to_nr (a ∷ b ∷ c ∷ []) ≡ some from =
      rw⁻¹ e (day_name_to_nr_read from (omega (arith, le, week))) in
    let k : day_name_to_nr (a' ∷ b' ∷ c' ∷ []) ≡ some to = rw⁻¹ e' (day_name_to_nr_read to week) in
    elim (Bool-cases (from == to)) [
      | inl same ↦
          let q : from ≡ to = (==_iff from to).0 same in
          rw (same, e) (one_day a b c from h ∙ ap (λ d. some (from, d)) q)
      | inr other ↦
          rw (other, e, e') (two_days a b c a' b' c' from to h k (ground (arith, le, other)))
    ]

some_pair :
    (x y x' y' : Bytes)
    → ◌≡◌ {A = Option (Bytes × Bytes)} (some (x, y)) (some (x', y'))
    → (x ≡ x') × (y ≡ y')
some_pair x y x' y' h =
    (ap (λ o. elim o [ none ↦ x | some p ↦ p.0 ]) h, ap (λ o. elim o [ none ↦ y | some p ↦ p.1 ]) h)

find_paren_sound :
    (tok days times : Bytes)
    → find_paren tok ≡ some (days, times)
    → (tok ≡ days ++ times) × (w : Bytes) × (times ≡ b'(' ∷ w)
unfolding find_paren
find_paren_sound [] days times h = cc
find_paren_sound (c ∷ tok) days times h = elim (Bool-cases (c == b'(')) [
  | inl found ↦
      let (no_days, all_times) = some_pair [] (c ∷ tok) days times (rw found at h) in
      let p : c ≡ b'(' = (==_iff c b'(').0 found in
      (all_times ∙ ap (λ d. d ++ times) no_days, tok, sym all_times ∙ ap (λ b. b ∷ tok) p)
  | inr other ↦
      let ((before, behind), found, h1) = chain (find_paren tok) _ _ (rw other at h) in
      let (first, others) = some_pair (c ∷ before) behind days times h1 in
      let (e, w, q) = find_paren_sound tok before behind found in
      (
        ap (λ v. c ∷ v) e ∙ ap (λ d. d ++ behind) first ∙ ap (λ t. days ++ t) others,
        w,
        sym others ∙ q,
      )
]

find_paren_read :
    (days w : Bytes) → All IsNoParen days → find_paren (days ++ b'(' ∷ w) ≡ some (days, b'(' ∷ w)
unfolding find_paren
find_paren_read [] w h = refl
find_paren_read (c ∷ days) w h = rw (h.0, find_paren_read days w h.1) refl

get_or_behind :
    (days v : Bytes) (i k : ℕ) → i ≡ length days + k → get_or (days ++ v) i 0 ≡ get_or v k 0
get_or_behind [] v i k e = ap (λ n. get_or v n 0) (omega (arith, e))
get_or_behind (c ∷ days) v zero k e = absurd (omega (arith, e))
get_or_behind (c ∷ days) v (suc i) k e = get_or_behind days v i k (omega (arith, e))

-- The last character of a text that ends in the seven of the hours
last_of_times :
    (days v : Bytes) → length v ≡ 7 → get_or (days ++ v) (length (days ++ v) - 1) 0 ≡ get_or v 6 0
last_of_times days v size = get_or_behind days v _ 6 (omega (arith, length-append days v, size))

accepted_parts :
    (tok days times : Bytes) (first final from to : ℕ)
    → find_paren tok ≡ some (days, times)
    → (get_or tok (length tok - 1) 0 == b')') ≡ true
    → extract_times times ≡ some (from, to)
    → extract_days days ≡ some (first, final)
    → let tp : TimePeriod = record {
      day_in_week_from = first;
      day_in_week_to = final;
      hour_from = from;
      hour_to = to;
    } in
      IsPeriod tp × (tok ≡ print_period misspelt tp)
unfolding print_period print_times two_digits
accepted_parts tok days times first final from to split closed read_hours read_days =
    let (tok_is, w, opens) = find_paren_sound tok days times split in
    let (c, d, times_are, hours, day) = extract_times_sound times from to read_hours in
    let (days_are, ordered, week) = extract_days_sound days first final read_days in
    let text : ℕ → ℕ → Bytes =
      λ k l. k ∷ (two_digits from ++ (b'-' ∷ (two_digits to ++ (l ∷ [])))) in
    let c_is : c ≡ b'(' = ap (λ v. get_or v 0 0) (sym times_are ∙ opens) in
    let size : length times ≡ 7 = ap length times_are in
    let d_is : d ≡ b')' =
      ap (λ v. get_or v 6 0) (sym times_are)
      ∙ sym (last_of_times days times size)
      ∙ ap (λ v. get_or v (length v - 1) 0) (sym tok_is)
      ∙ (==_iff _ b')').0 closed in
    (
      record { days = ordered; week = week; hours = hours; day = day },
      tok_is
          ∙ ap (λ v. days ++ v) times_are
          ∙ ap (λ v. v ++ text c d) days_are
          ∙ ap (λ k. print_days misspelt first final ++ text k d) c_is
          ∙ ap (λ k. print_days misspelt first final ++ text b'(' k) d_is,
    )

accepted_is_printed :
    (tok : Bytes) (tp : TimePeriod)
    → extract_single_period tok ≡ some tp
    → IsPeriod tp × (tok ≡ print_period misspelt tp)
unfolding extract_single_period
accepted_is_printed tok tp h = elim (Bool-cases (ltb (length tok) 8)) [
  | inl short ↦ let h' = rw short at h in cc
  | inr long ↦
      let ((days, times), split, h1) = chain (find_paren tok) _ tp (rw long at h) in
      let (closed, h2) = guard (get_or tok (length tok - 1) 0 == b')') _ tp h1 in
      let ((from, to), read_hours, h3) = chain (extract_times times) _ tp h2 in
      let ((first, final), read_days, h4) = chain (extract_days days) _ tp h3 in
      let read : TimePeriod = record {
        day_in_week_from = first;
        day_in_week_to = final;
        hour_from = from;
        hour_to = to;
      } in
      let e : read ≡ tp = ap (λ o. elim o [ none ↦ read | some p ↦ p ]) h4 in
      subst (λ p. IsPeriod p × (tok ≡ print_period misspelt p)) e
        (accepted_parts tok days times first final from to split closed read_hours read_days)
]

-- What the hours and the days in a text of this shape come to
abbrev pub both_parts : Bytes → Bytes → Option TimePeriod
both_parts days times = extract_times times >>= λ t. extract_days days >>= λ d.
    some (record { day_in_week_from = d.0; day_in_week_to = d.1; hour_from = t.0; hour_to = t.1 })

pub extract_single_period-both_parts :
    (days : Bytes) (from to : ℕ)
    → All IsNoParen days
    → 3 ≤ length days
    → extract_single_period (days ++ print_times from to) ≡ both_parts days (print_times from to)
unfolding extract_single_period print_times two_digits
extract_single_period-both_parts days from to no_paren three =
    let times = print_times from to in
    let long : ltb (length (days ++ times)) 8 ≡ false =
      let size = length-append days times in ground (arith, size, three) in
    rw (long, find_paren_read days _ no_paren, last_of_times days times refl) refl

pub printed_is_accepted :
    (tp : TimePeriod) → IsPeriod tp → extract_single_period (print_period misspelt tp) ≡ some tp
unfolding print_period
printed_is_accepted tp h =
    let (no_paren, three) =
      print_days-IsNoParen _ _ _ misspelt-IsNoParen tp.day_in_week_from tp.day_in_week_to h.days
        h.week in
    extract_single_period-both_parts _ tp.hour_from tp.hour_to no_paren three
    ∙ rw
        (
          extract_times_read tp.hour_from tp.hour_to h.hours h.day,
          extract_days_read tp.day_in_week_from tp.day_in_week_to h.days h.week,
        )
        refl

pub extract_single_period_iff :
    (tok : Bytes) (tp : TimePeriod)
    → (extract_single_period tok ≡ some tp) ↔ (IsPeriod tp × (tok ≡ print_period misspelt tp))
extract_single_period_iff tok tp =
    (accepted_is_printed tok tp, λ h. ap extract_single_period h.1 ∙ printed_is_accepted tp h.0)
