-- ===== src/Text/Trimming.antt =====
-- src/util.cc: `trimWhitespace` takes the blanks off both ends, and nothing else.
use wmbm_16brandnew.Prelude.{
  ℕ, ◌≡◌, refl, ap, ◌∙◌, inl, inr, Bool, true, false, ◌&&◌, [], ◌∷◌, ◌++◌, Bytes, All,
  if◌then◌else◌, Bool-cases,
}
use wmbm_16brandnew.Text.{is_empty, is_blank, eat_whitespace, trim_right, trim_whitespace}

abbrev pub IsBlank : ℕ → Type 0
IsBlank c = is_blank c ≡ true

-- The text does not start with a blank.
abbrev pub StartsBare : Bytes → Type 0
StartsBare [] = Unit {0}
StartsBare (x ∷ s) = is_blank x ≡ false

-- The text does not end with a blank.
abbrev pub EndsBare : Bytes → Type 0
EndsBare [] = Unit {0}
EndsBare (x ∷ []) = is_blank x ≡ false
EndsBare (x ∷ y ∷ s) = EndsBare (y ∷ s)

eat_whitespace_lem :
    (s : Bytes)
    → (l : Bytes) × All IsBlank l × (s ≡ l ++ eat_whitespace s) × StartsBare (eat_whitespace s)
unfolding eat_whitespace
eat_whitespace_lem [] = ([], tt, refl, tt)
eat_whitespace_lem (x ∷ s) = elim (Bool-cases (is_blank x)) [
  | inl blank ↦
      let (l, all, e, bare) = eat_whitespace_lem s in
      rw (blank, eat_whitespace) (x ∷ l, (blank, all), ap (λ t. x ∷ t) e, bare)
  | inr other ↦ rw (other, eat_whitespace) ([], tt, refl, other)
]

-- `t` is the text `s` without the blanks at its end.
record Trimmed (s t : Bytes) : Type 0 where
  right : Bytes
  blanks : All IsBlank right
  split : s ≡ t ++ right
  bare : EndsBare t

-- What `trim_right` makes of a text, of whose rest it makes `t`.
trim_cons : ℕ → Bytes → Bytes
trim_cons x t = if is_blank x && is_empty t then [] else x ∷ t

&&-false : (b : Bool) → (b && false) ≡ false
&&-false true = refl
&&-false false = refl

trim_cons-Trimmed : (x : ℕ) (s t : Bytes) → Trimmed s t → Trimmed (x ∷ s) (trim_cons x t)
unfolding trim_cons
trim_cons-Trimmed x s [] m = elim (Bool-cases (is_blank x)) [
  | inl blank ↦
      rw (blank, trim_cons)
        (record {
          right = x ∷ m.right;
          blanks = (blank, m.blanks);
          split = ap (λ t. x ∷ t) m.split;
          bare = tt;
        })
  | inr other ↦
      rw (other, trim_cons)
        (record {
          right = m.right;
          blanks = m.blanks;
          split = ap (λ t. x ∷ t) m.split;
          bare = other;
        })
]
trim_cons-Trimmed x s (y ∷ t) m =
    rw (&&-false (is_blank x), trim_cons)
      (record {
        right = m.right;
        blanks = m.blanks;
        split = ap (λ t. x ∷ t) m.split;
        bare = m.bare;
      })

trim_right-Trimmed : (s : Bytes) → Trimmed s (trim_right s)
unfolding trim_right trim_cons
trim_right-Trimmed [] = record { right = []; blanks = tt; split = refl; bare = tt }
trim_right-Trimmed (x ∷ s) = trim_cons-Trimmed x s (trim_right s) (trim_right-Trimmed s)

trim_right-StartsBare : (s : Bytes) → StartsBare s → StartsBare (trim_right s)
unfolding trim_right
trim_right-StartsBare [] h = tt
trim_right-StartsBare (x ∷ s) h = rw (h, trim_right) h

-- `trimWhitespace` takes blanks off both ends of a text, spaces and tabs, and nothing else: what is
-- left neither starts nor ends with one.
pub trim_whitespace_lem :
    (s : Bytes)
    → (left right : Bytes) × (s ≡ left ++ (trim_whitespace s ++ right))
      × All IsBlank left
      × All IsBlank right
      × StartsBare (trim_whitespace s)
      × EndsBare (trim_whitespace s)
unfolding trim_whitespace
trim_whitespace_lem s =
    let (left, blanks, split, bare) = eat_whitespace_lem s in
    let m = trim_right-Trimmed (eat_whitespace s) in
    (
      left,
      m.right,
      split ∙ ap (λ t. left ++ t) m.split,
      blanks,
      m.blanks,
      trim_right-StartsBare (eat_whitespace s) bare,
      m.bare,
    )
