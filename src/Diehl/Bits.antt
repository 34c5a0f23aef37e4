-- ===== src/Diehl/Bits.antt =====
-- src/manufacturer_specificities.cc: the shift register of `decodeDiehlLfsr`, as a row of 32 bits.
use wmbm_16brandnew.Prelude.{
  ℕ, zero, suc, ◌+◌, ◌*◌, ◌/◌, ◌%◌, ◌^◌, ◌<◌, ◌≡◌, refl, ap, ◌∙◌, List, [], ◌∷◌, All, All-take,
  get_or, take, drop, length, length-take, arith, u32,
}
use native.Mathlib.Nat.{pow-suc}
use wmbm_16brandnew.Diehl.{shift_register, shifts}

abbrev pub IsBit : ℕ → Type 0
IsBit b = b < 2

-- The bits of a number, the lowest one first, and the number that bits write
unfoldable pub bits : ℕ → ℕ → List ℕ
bits zero k = []
bits (suc n) k = k % 2 ∷ bits n (k / 2)

unfoldable pub number : List ℕ → ℕ
number [] = 0
number (b ∷ bs) = b + 2 * number bs

abbrev pub bit : List ℕ → ℕ → ℕ
bit bs i = get_or bs i 0

-- A linear feedback shift register with the taps 1, 2, 11 and 31: their parity is the new lowest bit,
-- and the highest one is dropped.
abbrev pub step : List ℕ → List ℕ
step bs = (bit bs 1 + bit bs 2 + bit bs 11 + bit bs 31) % 2 ∷ take 31 bs

abbrev pub steps : ℕ → List ℕ → List ℕ
steps zero bs = bs
steps (suc n) bs = steps n (step bs)

-- A number is what its lowest bits write, up to a multiple of a power of two.
pub number-bits : (n k : ℕ) → (q : ℕ) × (k ≡ number (bits n k) + 2 ^ n * q)
unfolding number bits
number-bits zero k = (k, omega arith)
number-bits (suc n) k = let (q, e) = number-bits n (k / 2) in (q, rw pow-suc (omega (arith, e)))

power_positive : (n : ℕ) → 0 < 2 ^ n
power_positive zero = omega arith
power_positive (suc n) = rw pow-suc (omega (arith, power_positive n))

pub length-bits : (n k : ℕ) → length (bits n k) ≡ n
unfolding bits
length-bits zero k = refl
length-bits (suc n) k = ap suc (length-bits n (k / 2))

pub bits-IsBit : (n k : ℕ) → All IsBit (bits n k)
unfolding bits
bits-IsBit zero k = tt
bits-IsBit (suc n) k = (omega arith, bits-IsBit n (k / 2))

-- A row of bits is cut into its lower and its upper ones.
number-take :
    (i : ℕ) (bs : List ℕ)
    → All IsBit bs
    → (number bs ≡ number (take i bs) + 2 ^ i * number (drop i bs)) × (number (take i bs) < 2 ^ i)
unfolding number
number-take zero bs h = (omega arith, omega arith)
number-take (suc i) [] h = (omega arith, power_positive (suc i))
number-take (suc i) (b ∷ bs) h =
    let (e, lt) = number-take i bs h.1 in
    let bit_b = h.0 in rw pow-suc (omega (arith, e), omega (arith, lt, bit_b))

number-drop :
    (i : ℕ) (bs : List ℕ)
    → i < length bs
    → All IsBit bs
    → (q : ℕ) × (number (drop i bs) ≡ bit bs i + 2 * q) × (bit bs i < 2)
unfolding number
number-drop i [] lt h = absurd (omega (arith, lt))
number-drop zero (b ∷ bs) lt h = (number bs, refl, h.0)
number-drop (suc i) (b ∷ bs) lt h = number-drop i bs (omega (arith, lt)) h.1

-- The bit at an index, between the ones below it and the ones above it
bit_between :
    (i : ℕ) (bs : List ℕ)
    → i < length bs
    → All IsBit bs
    → (low : ℕ) × (high : ℕ) × (number bs ≡ low + 2 ^ i * (bit bs i + 2 * high))
      × (low < 2 ^ i)
      × (bit bs i < 2)
bit_between i bs lt h =
    let (e, small) = number-take i bs h in
    let (q, d, b) = number-drop i bs lt h in
    (number (take i bs), q, e ∙ ap (λ n. number (take i bs) + 2 ^ i * n) d, small, b)

-- The number of a register, and the row of its bits
pub record IsRegister (k : ℕ) (bs : List ℕ) : Type 0 where
  pub above : ℕ
  pub written : k ≡ number bs + 2 ^ 32 * above
  pub size : length bs ≡ 32
  pub in_bits : All IsBit bs

step-IsBit : (bs : List ℕ) → All IsBit bs → All IsBit (step bs)
step-IsBit bs h = (omega arith, All-take IsBit 31 bs h)

pub shift_register-step :
    (k : ℕ) (bs : List ℕ) → IsRegister k bs → IsRegister (shift_register k) (step bs)
unfolding shift_register number
shift_register-step k bs h =
    let size = h.size in
    let w = h.written in
    let (l1, h1, e1, s1, b1) = bit_between 1 bs (omega (arith, size)) h.in_bits in
    let (l2, h2, e2, s2, b2) = bit_between 2 bs (omega (arith, size)) h.in_bits in
    let (l11, h11, e11, s11, b11) = bit_between 11 bs (omega (arith, size)) h.in_bits in
    let (e31, s31) = number-take 31 bs h.in_bits in
    let (h31, d31, b31) = number-drop 31 bs (omega (arith, size)) h.in_bits in
    let t1 : k / 2 % 2 ≡ bit bs 1 = omega (arith, w, e1, s1, b1) in
    let t2 : k / 4 % 2 ≡ bit bs 2 = omega (arith, w, e2, s2, b2) in
    let t11 : k / 2048 % 2 ≡ bit bs 11 = omega (arith, w, e11, s11, b11) in
    let t31 : k / 2147483648 % 2 ≡ bit bs 31 = omega (arith, w, e31, s31, d31, b31) in
    let low : u32 (k * 2) ≡ 2 * number (take 31 bs) = omega (arith, w, e31, s31, d31, b31) in
    record {
      above = 0;
      written = rw (t1, t2, t11, t31, low) (omega arith);
      size = omega (arith, size, length-take 31 bs);
      in_bits = step-IsBit bs h.in_bits;
    }

pub shifts-steps : (n k : ℕ) (bs : List ℕ) → IsRegister k bs → IsRegister (shifts n k) (steps n bs)
unfolding shifts
shifts-steps zero k bs h = h
shifts-steps (suc n) k bs h =
    shifts-steps n (shift_register k) (step bs) (shift_register-step k bs h)

-- The lowest byte of a register
pub low_byte : (k : ℕ) (bs : List ℕ) → IsRegister k bs → k % 256 ≡ number (take 8 bs)
low_byte k bs h =
    let w = h.written in let (e, s) = number-take 8 bs h.in_bits in omega (arith, w, e, s)

pub bits-IsRegister : (k : ℕ) → IsRegister k (bits 32 k)
bits-IsRegister k =
    let (q, e) = number-bits 32 k in
    record { above = q; written = e; size = length-bits 32 k; in_bits = bits-IsBit 32 k }
