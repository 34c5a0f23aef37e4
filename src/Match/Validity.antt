-- ===== src/Match/Validity.antt =====
-- src/util.cc: what `isValidMatchExpression` accepts.
use wmbm_16brandnew.Prelude.{
  ℕ, suc, ◌+◌, ◌≤◌, ◌≡◌, refl, ap, sym, ◌∙◌, ◌⊎◌, ◌↔◌, inl, inr, Bool, true, false, [], ◌∷◌, ◌++◌,
  arith, Bytes, All, length, ◌==◌, Bool-cases, ==_iff,
}
use mathlib.Core.Path.{subst}
use mathlib.Core.List.{append-nil}
use wmbm_16brandnew.Match.{
  is_id_digit, eat_digits, check_tail, check_digits, is_valid_match_expression,
}

abbrev pub Digits : Bool → Bytes → Type 0
Digits nc ds = All (λ c. is_id_digit nc c ≡ true) ds

-- The expressions behind the negation mark: eight digits, or a star behind at most seven.
pub data Expression (nc : Bool) : Bytes → Type 0 where
  exact : (ds : Bytes) → Digits nc ds → length ds ≡ 8 → Expression nc ds
  wild : (ds : Bytes) → Digits nc ds → length ds ≤ 7 → Expression nc (ds ++ b'*' ∷ [])

digit-ne-star : (nc : Bool) → is_id_digit nc b'*' ≡ false
unfolding is_id_digit
digit-ne-star true = refl
digit-ne-star false = refl

eat_digits-append :
    (nc : Bool) (ds rest : Bytes) (n : ℕ)
    → Digits nc ds
    → eat_digits nc (ds ++ rest) n ≡ eat_digits nc rest (n + length ds)
unfolding eat_digits
eat_digits-append nc [] rest n h = ap (eat_digits nc rest) (omega arith)
eat_digits-append nc (d ∷ ds) rest n h =
    let e : n + suc (length ds) ≡ n + 1 + length ds = omega arith in
    rw h.0 (rw e (eat_digits-append nc ds rest (n + 1) h.1))

-- What the loop eats is digits; what it leaves does not start with one.
eat_digits_lem :
    (nc : Bool) (me : Bytes) (n : ℕ)
    → (ds : Bytes) × Digits nc ds
      × (me ≡ ds ++ (eat_digits nc me n).0)
      × ((eat_digits nc me n).1 ≡ n + length ds)
unfolding eat_digits
eat_digits_lem nc [] n = ([], tt, refl, omega arith)
eat_digits_lem nc (c ∷ me) n = elim (Bool-cases (is_id_digit nc c)) [
  | inr e ↦ ([], tt, rw e refl, rw e (omega arith))
  | inl e ↦
      let (ds, digits, split, count) = eat_digits_lem nc me (n + 1) in
      (c ∷ ds, (e, digits), rw e (ap (λ t. c ∷ t) split), rw e (omega arith))
]

check_tail_cases :
    (rest : Bytes) (count : ℕ)
    → check_tail rest count ≡ true
    → ((rest ≡ []) × (count ≡ 8)) ⊎ ((rest ≡ b'*' ∷ []) × (count ≤ 7))
unfolding check_tail
check_tail_cases [] count h = inl (refl, ground arith)
check_tail_cases (c ∷ []) count h = inr (ground arith, ground arith)
check_tail_cases (c ∷ d ∷ rest) count h = cc

check_digits-Expression : (nc : Bool) (me : Bytes) → check_digits nc me ≡ true → Expression nc me
unfolding check_digits
check_digits-Expression nc [] h = cc
check_digits-Expression nc (c ∷ me) h =
    let (ds, digits, split, count) = eat_digits_lem nc (c ∷ me) 0 in
    elim (check_tail_cases _ _ h) [
      | inl (none_left, eight) ↦
          subst (Expression nc) (sym (split ∙ ap (λ t. ds ++ t) none_left ∙ append-nil ds))
            (exact ds digits (omega arith))
      | inr (star_left, few) ↦
          subst (Expression nc) (sym (split ∙ ap (λ t. ds ++ t) star_left))
            (wild ds digits (omega arith))
    ]

eat_digits_nil : (nc : Bool) (n : ℕ) → eat_digits nc [] n ≡ ([], n)
unfolding eat_digits
eat_digits_nil nc n = refl

-- The two calls behind `check_digits`, on an expression that is not empty.
checks : Bool → Bytes → Bool
checks nc me = let (rest, count) = eat_digits nc me 0 in check_tail rest count

check_digits-checks :
    (nc : Bool) (c : ℕ) (me : Bytes) → check_digits nc (c ∷ me) ≡ checks nc (c ∷ me)
unfolding check_digits checks
check_digits-checks nc c me = refl

checks-exact : (nc : Bool) (ds : Bytes) → Digits nc ds → length ds ≡ 8 → checks nc ds ≡ true
unfolding checks check_tail
checks-exact nc ds h e =
    let eaten : eat_digits nc ds 0 ≡ ([], 0 + length ds) =
      rw append-nil at (eat_digits-append nc ds [] 0 h ∙ eat_digits_nil nc (0 + length ds)) in
    rw eaten (ground (arith, e))

checks-wild :
    (nc : Bool) (ds : Bytes) → Digits nc ds → length ds ≤ 7 → checks nc (ds ++ b'*' ∷ []) ≡ true
unfolding checks check_tail
checks-wild nc ds h e =
    let stop : eat_digits nc (b'*' ∷ []) (0 + length ds) ≡ (b'*' ∷ [], 0 + length ds) =
      unfold eat_digits in rw (digit-ne-star nc) in
    rw (eat_digits-append nc ds (b'*' ∷ []) 0 h, stop) (ground arith)

Expression-check_digits : (nc : Bool) (me : Bytes) → Expression nc me → check_digits nc me ≡ true
Expression-check_digits nc me (exact [] h e) = absurd (omega arith)
Expression-check_digits nc me (exact (c ∷ ds) h e) =
    check_digits-checks nc c ds ∙ checks-exact nc (c ∷ ds) h e
Expression-check_digits nc me (wild [] h e) = check_digits-checks nc b'*' [] ∙ checks-wild nc [] h e
Expression-check_digits nc me (wild (d ∷ ds) h e) =
    check_digits-checks nc d (ds ++ b'*' ∷ []) ∙ checks-wild nc (d ∷ ds) h e

mark_invalid : (nc : Bool) (me : Bytes) → check_digits nc (b'!' ∷ me) ≡ false
unfolding check_digits eat_digits check_tail is_id_digit
mark_invalid true [] = refl
mark_invalid true (c ∷ me) = refl
mark_invalid false [] = refl
mark_invalid false (c ∷ me) = refl

-- A match expression is valid exactly when it is eight digits, or at most seven digits and a star,
-- or one of these behind an exclamation mark. The digits are decimal, and may be lower case
-- hexadecimal ones if meters that do not comply are let through.
pub is_valid_match_expression_lem :
    (nc : Bool) (me : Bytes)
    → (is_valid_match_expression me nc ≡ true)
      ↔ (Expression nc me ⊎ ((e : Bytes) × (me ≡ b'!' ∷ e) × Expression nc e))
unfolding is_valid_match_expression
is_valid_match_expression_lem nc [] = (
  λ e. cc,
  λ s. elim s [
    | inl x ↦ cc (nil_invalid nc (Expression-check_digits nc [] x))
    | inr (e, eq, x) ↦ cc
  ],
)
  where
    nil_invalid : (nc : Bool) → check_digits nc [] ≡ true → false ≡ true
    nil_invalid nc h = unfold check_digits in h
is_valid_match_expression_lem nc (c ∷ me) = elim (Bool-cases (c == b'!')) [
  | inr plain ↦ (
    λ h. inl (check_digits-Expression nc (c ∷ me) (rw plain at h)),
    λ s. elim s [
      | inl x ↦ rw plain (Expression-check_digits nc (c ∷ me) x)
      | inr (e, eq, x) ↦ absurd (ground (arith, plain, eq))
    ],
  )
  | inl mark ↦
      let is_mark : c ≡ b'!' = (==_iff c b'!').0 mark in
      (
        λ h. inr (me, ap (λ (t : ℕ). t ∷ me) is_mark, check_digits-Expression nc me (rw mark at h)),
        λ s. elim s [
          | inl x ↦
              let bad : check_digits nc (b'!' ∷ me) ≡ true =
                subst (λ (t : ℕ). check_digits nc (t ∷ me) ≡ true) is_mark
                  (Expression-check_digits nc (c ∷ me) x) in
              cc (bad, mark_invalid nc me)
          | inr (e, eq, x) ↦
              let same : me ≡ e = cc (eq) in rw mark (rw same (Expression-check_digits nc e x))
        ],
      )
]
