-- ===== src/Prelude/Words.antt =====
-- Machine words as native numbers: wrap by `%`, shift by `/` and `*`, test a bit by both; and a
-- check of every value of a small range by evaluation.
use Prim.Native.Nat.{ℕ, zero, suc, ◌/◌, ◌%◌, ◌^◌, ◌<◌}
use mathlib.Core.Path.{◌≡◌}
use mathlib.Core.Bool.{Bool, true, false}
use mathlib.Core.Logic.{inl, inr}
use native.Mathlib.Omega.{arith}
use wmbm_16brandnew.Prelude.Tests.{◌==◌, ==_iff, if◌then◌else◌, Bool-cases}

abbrev pub u8 : ℕ → ℕ
u8 x = x % 256

abbrev pub u16 : ℕ → ℕ
u16 x = x % 65536

abbrev pub u32 : ℕ → ℕ
u32 x = x % 4294967296

-- (x & (1 << k)) != 0
abbrev pub bit_set : ℕ → ℕ → Bool
bit_set x k = x / 2 ^ k % 2 == 1

-- The test passes for each number below the bound.
unfoldable pub all_below : ℕ → (ℕ → Bool) → Bool
all_below zero test = true
all_below (suc bound) test = if test bound then all_below bound test else false

-- At the number `k`, which is the last one below the bound or stands before it.
pub all_below_sound :
    (bound : ℕ) (test : ℕ → Bool) (k : ℕ) → all_below bound test ≡ true → k < bound → test k ≡ true
unfolding all_below
all_below_sound zero test k passed below = absurd (omega arith)
all_below_sound (suc bound) test k passed below = elim (Bool-cases (test bound)) [
  | inr fails ↦ cc (rw fails at passed)
  | inl holds ↦ elim (Bool-cases (k == bound)) [
    | inl at_end ↦ rw ((==_iff k bound).0 at_end) holds
    | inr before ↦ all_below_sound bound test k (rw holds at passed) (ground (arith, before, below))
  ]
]

-- Two functions agree below a bound where the table of their values does.
pub agree_below :
    (n : ℕ) (f g : ℕ → ℕ) → all_below n (λ x. f x == g x) ≡ true → (x : ℕ) → x < n → f x ≡ g x
agree_below n f g table x h = (==_iff (f x) (g x)).0 (all_below_sound n _ x table h)
