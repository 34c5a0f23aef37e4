-- ===== src/Cipher/Words.antt =====
-- src/util.cc: `incrementIV` and `shiftLeft` on byte arrays, as arithmetic on the numbers that the
-- arrays write, the highest byte first.
use wmbm_16brandnew.Prelude.{
  ℕ, suc, ◌+◌, ◌-◌, ◌*◌, ◌/◌, ◌%◌, ◌^◌, ◌≤◌, ◌<◌, ◌≡◌, refl, ap, sym, ◌∙◌, inl, inr, Bool, true,
  false, [], ◌∷◌, Bytes, IsByte, All, length, leb, u8, Bool-cases, arith,
}
use native.Mathlib.Nat.{pow-suc, mul-le-mul_right, mod-eq_of_lt, add-mul-mod_self_right}
use wmbm_16brandnew.Cipher.{increment_loop, increment_iv, shift_loop, shift_left}

-- The number that an array writes.
abbrev pub big_number : Bytes → ℕ
big_number [] = 0
big_number (b ∷ v) = b * 256 ^ length v + big_number v

-- A carry as a number.
abbrev carry : Bool → ℕ
carry true = 1
carry false = 0

length-increment_loop : (v : Bytes) → length (increment_loop v).1 ≡ length v
unfolding increment_loop
length-increment_loop [] = refl
length-increment_loop (b ∷ v) = elim (Bool-cases (increment_loop v).0) [
  | inl moves ↦ rw (moves, increment_loop) (ap suc (length-increment_loop v))
  | inr stays ↦ rw (stays, increment_loop) (ap suc (length-increment_loop v))
]

increment_loop_counts :
    (v : Bytes)
    → All IsByte v
    → big_number (increment_loop v).1 + carry (increment_loop v).0 * 256 ^ length v
      ≡ big_number v + 1
unfolding increment_loop
increment_loop_counts [] h = omega arith
increment_loop_counts (b ∷ v) h =
    let ih = increment_loop_counts v h.1 in
    let same = length-increment_loop v in
    elim (Bool-cases (increment_loop v).0) [
      | inl moves ↦
          let step = rw moves at ih in
          elim (Bool-cases (leb (b + 1) 255)) [
            | inl small ↦
                let e : u8 (b + 1) ≡ b + 1 = ground (arith, small) in
                rw (moves, small, increment_loop, same, e) (omega (arith, step))
            | inr over ↦
                let e : b ≡ 255 = ground (arith, over, h.0) in
                rw (moves, over, increment_loop, same, pow-suc, e) (omega (arith, step))
          ]
      | inr stays ↦ rw (stays, increment_loop, same) (omega (arith, rw stays at ih))
    ]

pub big_number-lt : (v : Bytes) → All IsByte v → big_number v < 256 ^ length v
big_number-lt [] h = omega arith
big_number-lt (b ∷ v) h =
    rw pow-suc (bound b (256 ^ length v) (big_number v) h.0 (big_number-lt v h.1))
  where
    bound : (b p n : ℕ) → b < 256 → n < p → b * p + n < p * 256
    bound b p n hb hn = let most : b * p ≤ 255 * p = mul-le-mul_right p (omega arith) in omega arith

increment_loop-IsByte : (v : Bytes) → All IsByte v → All IsByte (increment_loop v).1
unfolding increment_loop
increment_loop-IsByte [] h = h
increment_loop-IsByte (b ∷ v) h = elim (Bool-cases (increment_loop v).0) [
  | inl moves ↦ rw (moves, increment_loop) (omega arith, increment_loop-IsByte v h.1)
  | inr stays ↦ rw (stays, increment_loop) (h.0, increment_loop-IsByte v h.1)
]

-- A number that is written with a carry is the remainder without it.
wrapped : (r c m n : ℕ) → r < m → r + c * m ≡ n → r ≡ n % m
wrapped r c m n h e = sym (mod-eq_of_lt h) ∙ sym (add-mul-mod_self_right r c m) ∙ ap (λ t. t % m) e

-- `incrementIV` adds one to the number that the array writes, and wraps around at the power of 256
-- that it has no room for.
pub increment_iv_adds :
    (v : Bytes)
    → All IsByte v
    → (length (increment_iv v) ≡ length v)
      × (big_number (increment_iv v) ≡ (big_number v + 1) % 256 ^ length v)
unfolding increment_iv
increment_iv_adds v h =
    let same = length-increment_loop v in
    let bound = big_number-lt (increment_loop v).1 (increment_loop-IsByte v h) in
    (
      same,
      wrapped _ (carry (increment_loop v).0) _ _ (rw same at bound) (increment_loop_counts v h),
    )

pub increment_iv-IsByte : (v : Bytes) → All IsByte v → All IsByte (increment_iv v)
unfolding increment_iv
increment_iv-IsByte v h = increment_loop-IsByte v h

regroup :
    (b d p c n m : ℕ)
    → b ≡ d + 128
    → n + c * p ≡ m * 2
    → (d * 2 + c) * p + n + 1 * (p * 256) ≡ (b * p + m) * 2
regroup b d p c n m h e = rw h (omega (arith, e))

shift_loop_lem :
    (v : Bytes)
    → All IsByte v
    → (length (shift_loop v).1 ≡ length v)
      × ((shift_loop v).0 < 2)
      × All IsByte (shift_loop v).1
      × (big_number (shift_loop v).1 + (shift_loop v).0 * 256 ^ length v ≡ big_number v * 2)
unfolding shift_loop
shift_loop_lem [] h = (refl, omega arith, h, omega arith)
shift_loop_lem (b ∷ v) h =
    let (same, bit, bytes, count) = shift_loop_lem v h.1 in
    (
      ap suc same,
      omega arith,
      (omega arith, bytes),
      rw (same, pow-suc) (doubled b (256 ^ length v) (shift_loop v).0 _ _ h.0 bit count),
    )
  where
    doubled :
        (b p c n m : ℕ)
        → b < 256
        → c < 2
        → n + c * p ≡ m * 2
        → (u8 (b * 2) + c) * p + n + b / 128 % 2 * (p * 256) ≡ (b * p + m) * 2
    doubled b p c n m hb hc e = elim (Bool-cases (leb b 127)) [
      | inl small ↦
          let low : b * 2 % 256 ≡ b * 2 = ground (arith, small) in
          let top : b / 128 % 2 ≡ 0 = ground (arith, small) in rw (low, top) (omega (arith, e))
      | inr large ↦
          let split : b ≡ (b - 128) + 128 = ground (arith, large) in
          let low : b * 2 % 256 ≡ (b - 128) * 2 = ground (arith, large, hb) in
          let top : b / 128 % 2 ≡ 1 = ground (arith, large, hb) in
          rw (low, top) (regroup b (b - 128) p c n m split e)
    ]

-- `shiftLeft` doubles the number that the array writes, and lets the top bit go.
pub shift_left_doubles :
    (v : Bytes)
    → All IsByte v
    → (length (shift_left v) ≡ length v)
      × (big_number (shift_left v) ≡ big_number v * 2 % 256 ^ length v)
unfolding shift_left
shift_left_doubles v h =
    let (same, bit, bytes, count) = shift_loop_lem v h in
    (same, wrapped _ _ _ _ (rw same at (big_number-lt (shift_loop v).1 bytes)) count)

pub shift_left-IsByte : (v : Bytes) → All IsByte v → All IsByte (shift_left v)
unfolding shift_left
shift_left-IsByte v h = (shift_loop_lem v h).2
