-- ===== src/Hex/Printing.antt =====
-- src/util.cc: `safeString`, and the BCD helpers on one byte.
use wmbm_16brandnew.Prelude.{
  ℕ, zero, suc, ◌+◌, ◌*◌, ◌/◌, ◌%◌, ◌≤◌, ◌<◌, ◌≡◌, refl, ap, ◌∙◌, ◌⊎◌, inl, inr, Bool, true, false,
  not, ◌&&◌, Option, some, [], ◌∷◌, arith, Bytes, IsByte, All, get_or, take, drop, within, ltb, leb,
  ◌==◌, if◌then◌else◌, all_below, all_below_sound, Bool-cases,
}
use wmbm_16brandnew.Hex.{
  char2int, hex, hex_byte, bin2hex, bin2hex_range, bin2hex_offset, safe_byte, safe_string, bcd2bin,
  revbcd2bin, reverse,
}
use wmbm_16brandnew.Hex.RoundTrip.{hex_digit_lem}

hex_value : Option ℕ → Option ℕ → ℕ
hex_value (some x) (some y) = x * 16 + y
hex_value _ _ = 0

-- Undoes `safeString`: the two digits between angle brackets, or a character as it stands.
pub read_safe : Bytes → Bytes
read_safe [] = []
read_safe (a ∷ []) = a ∷ []
read_safe (a ∷ b ∷ []) = a ∷ b ∷ []
read_safe (a ∷ b ∷ c ∷ []) = a ∷ b ∷ c ∷ []
read_safe (a ∷ b ∷ c ∷ d ∷ s) =
    let plain = a ∷ read_safe (b ∷ c ∷ d ∷ s) in
    if a == b'<' then hex_value (char2int b) (char2int c) ∷ read_safe s else plain

-- The three helpers agree on every byte: `reverse` swaps the two digits, and `revbcd2bin` reads
-- them in the opposite order. On digits below ten they give the decimal number.
pub bcd_digits :
    (hi lo : ℕ)
    → hi < 10
    → lo < 10
    → (bcd2bin (hi * 16 + lo) ≡ 10 * hi + lo)
      × (revbcd2bin (hi * 16 + lo) ≡ 10 * lo + hi)
      × (reverse (hi * 16 + lo) ≡ lo * 16 + hi)
unfolding bcd2bin revbcd2bin reverse
bcd_digits hi lo h k = omega arith

-- On every byte, `revbcd2bin` is `bcd2bin` of the swapped byte, and swapping twice gives the byte.
pub reverse_lem :
    (c : ℕ) → c < 256 → (revbcd2bin c ≡ bcd2bin (reverse c)) × (reverse (reverse c) ≡ c)
unfolding bcd2bin revbcd2bin reverse
reverse_lem c h = omega arith

printable_digit : ℕ → Bool
printable_digit d = within 32 126 (get_or hex d 0)

printable_table : all_below 16 printable_digit ≡ true
unfolding all_below printable_digit
printable_table = refl

abbrev pub IsPrintable : ℕ → Type 0
IsPrintable c = (32 ≤ c) × (c < 127)

hex_digit-IsPrintable : (d : ℕ) → d < 16 → IsPrintable (get_or hex d 0)
unfolding printable_digit
hex_digit-IsPrintable d h = ground (arith, all_below_sound 16 printable_digit d printable_table h)

-- What one byte prints as: itself, a printable character other than the brackets, or its two
-- digits between brackets.
safe_byte_cases :
    (c : ℕ)
    → ((safe_byte c ≡ c ∷ []) × IsPrintable c × ((c == b'<') ≡ false))
      ⊎ (safe_byte c ≡ b'<' ∷ get_or hex (c / 16 % 16) 0 ∷ get_or hex (c % 16) 0 ∷ b'>' ∷ [])
unfolding safe_byte hex_byte
safe_byte_cases c =
    elim (Bool-cases (leb 32 c && ltb c 127 && not (c == b'<') && not (c == b'>'))) [
      | inl e ↦ inl (rw e, ground arith, ground arith)
      | inr e ↦ inr (rw e)
    ]

-- Every character of `safeString` is printable ASCII, whatever the bytes.
pub safe_string-IsPrintable : (v : Bytes) → All IsByte v → All IsPrintable (safe_string v)
unfolding safe_string
safe_string-IsPrintable [] h = tt
safe_string-IsPrintable (c ∷ v) h = elim (safe_byte_cases c) [
  | inl (e, printable, other) ↦ rw e (printable, safe_string-IsPrintable v h.1)
  | inr e ↦ rw e (
    omega arith,
    (
      hex_digit-IsPrintable (c / 16 % 16) (omega arith),
      (hex_digit-IsPrintable (c % 16) (omega arith), (omega arith, safe_string-IsPrintable v h.1)),
    ),
  )
]

read_safe_plain : (c : ℕ) (s : Bytes) → (c == b'<') ≡ false → read_safe (c ∷ s) ≡ c ∷ read_safe s
unfolding read_safe
read_safe_plain c [] e = refl
read_safe_plain c (x ∷ []) e = refl
read_safe_plain c (x ∷ y ∷ []) e = refl
read_safe_plain c (x ∷ y ∷ z ∷ s) e = rw e

read_safe_escaped :
    (c : ℕ) (s : Bytes)
    → c < 256
    → read_safe (b'<' ∷ get_or hex (c / 16 % 16) 0 ∷ get_or hex (c % 16) 0 ∷ b'>' ∷ s)
      ≡ c ∷ read_safe s
unfolding read_safe hex_value
read_safe_escaped c s h =
    let hi = hex_digit_lem (c / 16 % 16) (omega arith) in
    let lo = hex_digit_lem (c % 16) (omega arith) in
    let whole : c / 16 % 16 * 16 + c % 16 ≡ c = omega arith in rw (hi.0, lo.0) (rw whole)

-- `safeString` loses nothing: the bytes can be read back from what it prints.
pub read_safe-safe_string : (v : Bytes) → All IsByte v → read_safe (safe_string v) ≡ v
unfolding safe_string
read_safe-safe_string [] h = unfold read_safe in refl
read_safe-safe_string (c ∷ v) h = elim (safe_byte_cases c) [
  | inl (e, printable, other) ↦
      rw e (read_safe_plain c (safe_string v) other ∙ ap (λ t. c ∷ t) (read_safe-safe_string v h.1))
  | inr e ↦
      rw e (read_safe_escaped c (safe_string v) h.0 ∙ ap (λ t. c ∷ t) (read_safe-safe_string v h.1))
]

bin2hex_range_lem : (w : Bytes) (n : ℕ) → bin2hex_range w n ≡ bin2hex (take n w)
unfolding bin2hex_range bin2hex
bin2hex_range_lem [] zero = refl
bin2hex_range_lem [] (suc n) = refl
bin2hex_range_lem (c ∷ w) zero = refl
bin2hex_range_lem (c ∷ w) (suc n) = rw (bin2hex_range_lem w n)

-- `bin2hex(data, offset, len)` prints the bytes from the offset on, `len` of them at most.
pub bin2hex_offset_lem :
    (v : Bytes) (offset len : ℕ) → bin2hex_offset v offset len ≡ bin2hex (take len (drop offset v))
unfolding bin2hex_offset
bin2hex_offset_lem v offset len = bin2hex_range_lem (drop offset v) len
