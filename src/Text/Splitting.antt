-- ===== src/Text/Splitting.antt =====
-- src/util.cc: `eatTo`, `trimWhitespace` and `splitString` against plain descriptions.
use wmbm_16brandnew.Prelude.{
  ℕ, zero, suc, ◌≤◌, ◌≡◌, ◌≢◌, refl, ap, inl, inr, false, Option, some, [], ◌∷◌, ◌++◌, arith, Bytes,
  All, length, ◌==◌, Bool-cases,
}
use wmbm_16brandnew.Text.{eat_loop, stops}

abbrev pub Lacks : ℕ → Bytes → Type 0
Lacks c s = All (λ x. x ≢ c) s

-- `rest` is empty or starts with the terminator.
abbrev pub Ends : ℕ → Bytes → Type 0
Ends c [] = Unit {0}
Ends c (x ∷ rest) = x ≡ c

-- The loop of `eatTo` stops at the terminator, at the end, and when it has taken enough.
pub eat_loop_takes :
    (max c : ℕ) (token rest : Bytes)
    → Lacks c token
    → length token ≤ max
    → Ends c rest
    → eat_loop max (some c) (token ++ rest) ≡ (token, rest)
unfolding eat_loop stops
eat_loop_takes zero c [] rest h k e = refl
eat_loop_takes zero c (x ∷ token) rest h k e = absurd (omega arith)
eat_loop_takes (suc max) c [] [] h k e = refl
eat_loop_takes (suc max) c [] (y ∷ rest) h k e = ground (arith, e)
eat_loop_takes (suc max) c (x ∷ token) rest h k e =
    let other : (x == c) ≡ false = ground (arith, h.0) in
    rw (other, eat_loop_takes max c token rest h.1 (omega arith) e)

-- More than `max` bytes without the terminator are cut, and the byte behind the cut is an error.
pub eat_loop_cuts :
    (max c x : ℕ) (token rest : Bytes)
    → Lacks c token
    → length token ≡ max
    → eat_loop max (some c) (token ++ x ∷ rest) ≡ (token, x ∷ rest)
unfolding eat_loop stops
eat_loop_cuts zero c x [] rest h k = refl
eat_loop_cuts zero c x (y ∷ token) rest h k = absurd (omega arith)
eat_loop_cuts (suc max) c x [] rest h k = absurd (omega arith)
eat_loop_cuts (suc max) c x (y ∷ token) rest h k =
    let other : (y == c) ≡ false = ground (arith, h.0) in
    rw (other, eat_loop_cuts max c x token rest h.1 (omega arith))

-- What is taken and what is left make up the input; at most `max` bytes are taken.
pub eat_loop_append :
    (max : ℕ) (c : Option ℕ) (v : Bytes)
    → ((eat_loop max c v).0 ++ (eat_loop max c v).1 ≡ v) × (length (eat_loop max c v).0 ≤ max)
unfolding eat_loop
eat_loop_append zero c v = (refl, omega arith)
eat_loop_append (suc max) c [] = (refl, omega arith)
eat_loop_append (suc max) c (x ∷ v) = elim (Bool-cases (stops c x)) [
  | inl e ↦ rw e (refl, omega arith)
  | inr e ↦
      rw e (ap (λ t. x ∷ t) (eat_loop_append max c v).0, omega (arith, (eat_loop_append max c v).1))
]
