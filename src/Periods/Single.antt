-- ===== src/Periods/Single.antt =====
-- src/util.cc: the parts of a period, `extract_times` and `extract_days`, and their texts.
use wmbm_16brandnew.Prelude.{
  ℕ, zero, suc, ◌+◌, ◌*◌, ◌/◌, ◌%◌, ◌≤◌, Bool, true, false, not, Option, none, some, [], ◌∷◌, ◌++◌,
  Bytes, codes, ltb, leb, ◌==◌, if◌then◌else◌, ◌≡◌, refl, ap, ◌∙◌, ◌⊎◌, inl, inr, ==_iff, arith,
}
use wmbm_16brandnew.Text.{equal}
use wmbm_16brandnew.Text.Equal.{equal_iff}
use wmbm_16brandnew.Periods.{
  TimePeriod, ◌>>=◌, digit, hour_of, extract_times, day_name_to_nr, extract_days,
}

-- What the program takes for the name of Saturday, where the documentation has `sat`
abbrev pub misspelt : Bytes
misspelt = codes "say"

-- The name of a day, with the one of Saturday given
unfoldable pub day_name : Bytes → ℕ → Bytes
day_name saturday d =
    if d == 0
    then codes "mon"
    else if d == 1
    then codes "tue"
    else if d == 2
    then codes "wed"
    else if d == 3
    then codes "thu"
    else if d == 4
    then codes "fri"
    else if d == 5
    then saturday
    else codes "sun"

unfoldable pub two_digits : ℕ → Bytes
two_digits n = (b'0' + n / 10) ∷ (b'0' + n % 10) ∷ []

-- The text of a period
unfoldable pub print_days : Bytes → ℕ → ℕ → Bytes
print_days saturday from to =
    if from == to
    then day_name saturday from
    else day_name saturday from ++ b'-' ∷ day_name saturday to

unfoldable pub print_times : ℕ → ℕ → Bytes
print_times from to = b'(' ∷ two_digits from ++ b'-' ∷ two_digits to ++ b')' ∷ []

unfoldable pub print_period : Bytes → TimePeriod → Bytes
print_period saturday tp =
    print_days saturday tp.day_in_week_from tp.day_in_week_to ++ print_times tp.hour_from tp.hour_to

pub record IsPeriod (tp : TimePeriod) : Type 0 where
  pub days : tp.day_in_week_from ≤ tp.day_in_week_to
  pub week : tp.day_in_week_to ≤ 6
  pub hours : tp.hour_from ≤ tp.hour_to
  pub day : tp.hour_to ≤ 23

digit_sound : (c x : ℕ) → digit c ≡ some x → (c ≡ b'0' + x) × (x ≤ 9)
unfolding digit
digit_sound c x h = ground (arith, h)

digit_read : (x : ℕ) → x ≤ 9 → digit (b'0' + x) ≡ some x
unfolding digit
digit_read x le = ground (arith, le)

-- A chain of steps comes to a value only if each of them does.
pub chain :
    {A B : Type 0} (m : Option A) (f : A → Option B) (b : B)
    → (m >>= f) ≡ some b
    → (a : A) × (m ≡ some a) × (f a ≡ some b)
chain none f b h = cc
chain (some a) f b h = (a, refl, h)

pub guard :
    {A : Type 0} (b : Bool) (m : Option A) (a : A)
    → (if not b then none else m) ≡ some a
    → (b ≡ true) × (m ≡ some a)
guard true m a h = (refl, h)
guard false m a h = cc

pair_of :
    (b : Bool) (x y x' y' : ℕ)
    → if◌then◌else◌ {A = Option (ℕ × ℕ)} b none (some (x, y)) ≡ some (x', y')
    → (b ≡ false) × (x ≡ x') × (y ≡ y')
pair_of true x y x' y' h = cc
pair_of false x y x' y' h = (
  refl,
  ap (λ o. elim o [ none ↦ x | some p ↦ p.0 ]) h,
  ap (λ o. elim o [ none ↦ y | some p ↦ p.1 ]) h,
)

hour_of_print : (a b n : ℕ) → hour_of a b ≡ some n → (a ∷ b ∷ [] ≡ two_digits n) × (n ≤ 23)
unfolding hour_of two_digits
hour_of_print a b n h =
    let (x, dx, hx) = chain (digit a) _ n h in
    let (y, dy, hy) = chain (digit b) _ n hx in
    let (ea, lx) = digit_sound a x dx in
    let (eb, ly) = digit_sound b y dy in
    let (en, le) : (n ≡ x * 10 + y) × (n ≤ 23) = ground (arith, hy) in
    let q1 : a ≡ b'0' + n / 10 = omega (arith, ea, en, lx, ly) in
    let q2 : b ≡ b'0' + n % 10 = omega (arith, eb, en, lx, ly) in (rw (q1, q2) refl, le)

hour_of_read : (n : ℕ) → n ≤ 23 → hour_of (b'0' + n / 10) (b'0' + n % 10) ≡ some n
unfolding hour_of
hour_of_read n le =
    rw (digit_read (n / 10) (omega (arith, le)), digit_read (n % 10) (omega arith))
      (ground (arith, le))

branch :
    (b : Bool) (n d : ℕ) (others : Option ℕ)
    → (if b then some n else others) ≡ some d
    → ((b ≡ true) × (n ≡ d)) ⊎ (others ≡ some d)
branch true n d others h = inl (refl, ground (arith, h))
branch false n d others h = inr h

-- A step of the search for a name
named :
    (name key : Bytes) (n d : ℕ) (others : Option ℕ)
    → (if equal name key then some n else others) ≡ some d
    → ((name ≡ key) × (n ≡ d)) ⊎ (others ≡ some d)
named name key n d others h = elim (branch (equal name key) n d others h) [
  | inl (same, e) ↦ inl ((equal_iff name key).0 same, e)
  | inr h' ↦ inr h'
]

IsNameOf : Bytes → ℕ → Type 0
IsNameOf name d = (name ≡ day_name misspelt d) × (d ≤ 6)

-- The days before one are passed over.
is_name :
    (name : Bytes) (n d : ℕ) → n ≤ 6 → (name ≡ day_name misspelt n) × (n ≡ d) → IsNameOf name d
unfolding IsNameOf
is_name name n d le (e, q) = rw⁻¹ q (e, le)

day_name_to_nr_sound : (name : Bytes) (d : ℕ) → day_name_to_nr name ≡ some d → IsNameOf name d
unfolding day_name_to_nr day_name
day_name_to_nr_sound name d h = elim (named name _ 0 d _ h) [
  | inl p ↦ is_name name 0 d (omega arith) p
  | inr h1 ↦ elim (named name _ 1 d _ h1) [
    | inl p ↦ is_name name 1 d (omega arith) p
    | inr h2 ↦ elim (named name _ 2 d _ h2) [
      | inl p ↦ is_name name 2 d (omega arith) p
      | inr h3 ↦ elim (named name _ 3 d _ h3) [
        | inl p ↦ is_name name 3 d (omega arith) p
        | inr h4 ↦ elim (named name _ 4 d _ h4) [
          | inl p ↦ is_name name 4 d (omega arith) p
          | inr h5 ↦ elim (named name _ 5 d _ h5) [
            | inl p ↦ is_name name 5 d (omega arith) p
            | inr h6 ↦ elim (named name _ 6 d _ h6) [
              | inl p ↦ is_name name 6 d (omega arith) p
              | inr h7 ↦ cc
            ]
          ]
        ]
      ]
    ]
  ]
]

pub day_name_to_nr_read : (d : ℕ) → d ≤ 6 → day_name_to_nr (day_name misspelt d) ≡ some d
unfolding day_name_to_nr day_name equal
day_name_to_nr_read zero le = refl
day_name_to_nr_read (suc zero) le = refl
day_name_to_nr_read (suc (suc zero)) le = refl
day_name_to_nr_read (suc (suc (suc zero))) le = refl
day_name_to_nr_read (suc (suc (suc (suc zero)))) le = refl
day_name_to_nr_read (suc (suc (suc (suc (suc zero))))) le = refl
day_name_to_nr_read (suc (suc (suc (suc (suc (suc zero)))))) le = refl
day_name_to_nr_read (suc (suc (suc (suc (suc (suc (suc n))))))) le = absurd (omega (arith, le))

-- The hours between two characters, which are not looked at
pub extract_times_sound :
    (v : Bytes) (from to : ℕ)
    → extract_times v ≡ some (from, to)
    → (first : ℕ) × (final : ℕ) × (v
        ≡ first ∷ two_digits from ++ b'-' ∷ two_digits to ++ final ∷ [])
      × (from ≤ to)
      × (to ≤ 23)
unfolding extract_times two_digits
extract_times_sound [] from to h = cc
extract_times_sound (_ ∷ []) from to h = cc
extract_times_sound (_ ∷ _ ∷ []) from to h = cc
extract_times_sound (_ ∷ _ ∷ _ ∷ []) from to h = cc
extract_times_sound (_ ∷ _ ∷ _ ∷ _ ∷ []) from to h = cc
extract_times_sound (_ ∷ _ ∷ _ ∷ _ ∷ _ ∷ []) from to h = cc
extract_times_sound (_ ∷ _ ∷ _ ∷ _ ∷ _ ∷ _ ∷ []) from to h = cc
extract_times_sound (first ∷ fa ∷ fb ∷ minus ∷ ta ∷ tb ∷ final ∷ []) from to h =
    let (is_minus, h0) = guard (minus == b'-') _ _ h in
    let (f, hf, h1) = chain (hour_of fa fb) _ _ h0 in
    let (t, ht, h2) = chain (hour_of ta tb) _ _ h1 in
    let (ordered, ef, et) = pair_of (ltb t f) f t from to h2 in
    let (two_f, le_f) = hour_of_print fa fb f hf in
    let (two_t, le_t) = hour_of_print ta tb t ht in
    let m : minus ≡ b'-' = (==_iff minus b'-').0 is_minus in
    (
      first,
      final,
      ap (λ w. first ∷ w ++ minus ∷ ta ∷ tb ∷ final ∷ []) two_f
          ∙ ap (λ c. first ∷ two_digits f ++ c ∷ ta ∷ tb ∷ final ∷ []) m
          ∙ ap (λ w. first ∷ two_digits f ++ b'-' ∷ w ++ final ∷ []) two_t
          ∙ ap (λ n. first ∷ two_digits n ++ b'-' ∷ two_digits t ++ final ∷ []) ef
          ∙ ap (λ n. first ∷ two_digits from ++ b'-' ∷ two_digits n ++ final ∷ []) et,
      ground (arith, ordered, ef, et),
      omega (arith, le_t, et),
    )
extract_times_sound (_ ∷ _ ∷ _ ∷ _ ∷ _ ∷ _ ∷ _ ∷ _ ∷ _) from to h = cc

pub extract_times_read :
    (from to : ℕ) → from ≤ to → to ≤ 23 → extract_times (print_times from to) ≡ some (from, to)
unfolding extract_times print_times two_digits
extract_times_read from to le day =
    rw (hour_of_read from (omega (arith, le, day)), hour_of_read to day)
      (let p : ltb to from ≡ false = ground (arith, le) in rw p refl)

pub extract_days_sound :
    (p : Bytes) (from to : ℕ)
    → extract_days p ≡ some (from, to)
    → (p ≡ print_days misspelt from to) × (from ≤ to) × (to ≤ 6)
unfolding extract_days print_days IsNameOf
extract_days_sound [] from to h = cc
extract_days_sound (_ ∷ []) from to h = cc
extract_days_sound (_ ∷ _ ∷ []) from to h = cc
extract_days_sound (a ∷ b ∷ c ∷ []) from to h =
    let (d, hd, h1) = chain (day_name_to_nr (a ∷ b ∷ c ∷ [])) _ _ h in
    let (_, ef, et) = pair_of false d d from to h1 in
    let (e, le) = day_name_to_nr_sound _ d hd in
    let same : (from == to) ≡ true = ground (arith, ef, et) in
    (rw same (e ∙ ap (day_name misspelt) ef), omega (arith, ef, et), omega (arith, et, le))
extract_days_sound (_ ∷ _ ∷ _ ∷ _ ∷ []) from to h = cc
extract_days_sound (_ ∷ _ ∷ _ ∷ _ ∷ _ ∷ []) from to h = cc
extract_days_sound (_ ∷ _ ∷ _ ∷ _ ∷ _ ∷ _ ∷ []) from to h = cc
extract_days_sound (a ∷ b ∷ c ∷ minus ∷ d ∷ e ∷ f ∷ []) from to h =
    let (is_minus, h0) = guard (minus == b'-') _ _ h in
    let (x, hx, h1) = chain (day_name_to_nr (a ∷ b ∷ c ∷ [])) _ _ h0 in
    let (y, hy, h2) = chain (day_name_to_nr (d ∷ e ∷ f ∷ [])) _ _ h1 in
    let (ordered, ex, ey) = pair_of (leb y x) x y from to h2 in
    let (nx, lx) = day_name_to_nr_sound _ x hx in
    let (ny, ly) = day_name_to_nr_sound _ y hy in
    let m : minus ≡ b'-' = (==_iff minus b'-').0 is_minus in
    let other : (from == to) ≡ false = ground (arith, ordered, ex, ey) in
    (
      rw other (
          ap (λ w. w ++ minus ∷ d ∷ e ∷ f ∷ []) (nx ∙ ap (day_name misspelt) ex)
          ∙ ap (λ k. day_name misspelt from ++ k ∷ d ∷ e ∷ f ∷ []) m
          ∙ ap (λ w. day_name misspelt from ++ b'-' ∷ w) (ny ∙ ap (day_name misspelt) ey)),
      ground (arith, ordered, ex, ey),
      omega (arith, ey, ly),
    )
extract_days_sound (_ ∷ _ ∷ _ ∷ _ ∷ _ ∷ _ ∷ _ ∷ _ ∷ _) from to h = cc
