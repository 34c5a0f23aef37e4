-- ===== src/Raw/Copying.antt =====
-- src/wmbus_rawtty.cc: hexadecimal digits that arrive in chunks, through `copy`.
use wmbm_16brandnew.Prelude.{
  ℕ, suc, ◌+◌, ◌-◌, ◌*◌, ◌%◌, true, false, Option, none, some, [], ◌∷◌, ◌++◌, All, Bytes, take,
  drop, length, length-take, All-take, ◌==◌, if◌then◌else◌, ◌≡◌, refl, sym, ap, ◌∙◌, inl, inr,
  Bool-cases, Option-cases, arith,
}
use mathlib.Core.List.{append-nil, append_assoc}
use wmbm_16brandnew.Hex.{is_hex_char, char2int, hex2bin_bytes, hex2bin_pairs, hex2bin_pair}
use wmbm_16brandnew.Raw.{Copied, copied, hex_chars, add_bin, copy_hex}

-- The digits two by two: the bytes, and the digit that is left
abbrev or_zero : Option ℕ → ℕ
or_zero none = 0
or_zero (some v) = v

abbrev value : ℕ → ℕ
value c = or_zero (char2int c)

whole : Bytes → Bytes
whole [] = []
whole (a ∷ []) = []
whole (a ∷ b ∷ s) = (value a * 16 + value b) % 256 ∷ whole s

left : Bytes → Bytes
left [] = []
left (a ∷ []) = a ∷ []
left (a ∷ b ∷ s) = left s

-- A digit
IsHex : ℕ → Type 0
IsHex c = is_hex_char c ≡ true

hex_chars-IsHex : (v : Bytes) → All IsHex (hex_chars v)
unfolding hex_chars IsHex
hex_chars-IsHex [] = tt
hex_chars-IsHex (c ∷ v) = elim (Bool-cases (is_hex_char c)) [
  | inl digit ↦ rw digit (digit, hex_chars-IsHex v)
  | inr other ↦ rw other (hex_chars-IsHex v)
]

hex_chars-append : (v w : Bytes) → hex_chars (v ++ w) ≡ hex_chars v ++ hex_chars w
unfolding hex_chars
hex_chars-append [] w = refl
hex_chars-append (c ∷ v) w = elim (Bool-cases (is_hex_char c)) [
  | inl digit ↦ rw (digit, hex_chars-append v w) refl
  | inr other ↦ rw (other, hex_chars-append v w) refl
]

hex_chars-left : (v : Bytes) → All IsHex v → hex_chars v ≡ v
unfolding hex_chars IsHex
hex_chars-left [] h = refl
hex_chars-left (c ∷ v) h = rw (h.0, hex_chars-left v h.1) refl

left-IsHex : (v : Bytes) → All IsHex v → All IsHex (left v)
unfolding left
left-IsHex [] h = tt
left-IsHex (a ∷ []) h = h
left-IsHex (a ∷ b ∷ s) h = left-IsHex s h.1.1

whole-append : (v w : Bytes) → whole (v ++ w) ≡ whole v ++ whole (left v ++ w)
unfolding whole left
whole-append [] w = refl
whole-append (a ∷ []) w = refl
whole-append (a ∷ b ∷ s) w = ap (λ t. (value a * 16 + value b) % 256 ∷ t) (whole-append s w)

left-append : (v w : Bytes) → left (v ++ w) ≡ left (left v ++ w)
unfolding left
left-append [] w = refl
left-append (a ∷ []) w = refl
left-append (a ∷ b ∷ s) w = left-append s w

IsHex-char2int : (c : ℕ) → IsHex c → char2int c ≡ some (value c)
unfolding IsHex is_hex_char
IsHex-char2int c h = elim (Option-cases (char2int c)) [
  | inl bad ↦ absurd (ground (arith, bad, h))
  | inr (v, good) ↦ good ∙ ap some (sym (ap or_zero good))
]

space_lem : is_hex_char b' ' ≡ false
unfolding is_hex_char char2int
space_lem = refl

IsHex-space : (c : ℕ) → IsHex c → (c == b' ') ≡ false
unfolding IsHex
IsHex-space c h = elim (Bool-cases (c == b' ')) [
  | inl space ↦
      let e : c ≡ b' ' = ground (arith, space) in
      let same = ap is_hex_char e in cc (h, same, space_lem)
  | inr other ↦ other
]

hex2bin_pairs-whole : (v to : Bytes) → All IsHex v → hex2bin_pairs (v) to ≡ (true, to ++ whole v)
unfolding hex2bin_pairs hex2bin_pair whole
hex2bin_pairs-whole [] to h = rw append-nil
hex2bin_pairs-whole (a ∷ []) to h = rw append-nil
hex2bin_pairs-whole (a ∷ b ∷ s) to h =
    rw (IsHex-space a h.0, IsHex-char2int a h.0, IsHex-char2int b h.1.0)
      (hex2bin_pairs-whole s (to ++ (value a * 16 + value b) % 256 ∷ []) h.1.1 ∙ rw append_assoc)

hex2bin_bytes-whole :
    (v : Bytes) → All IsHex v → (length v % 2 == 1) ≡ false → hex2bin_bytes v [] ≡ (true, whole v)
unfolding hex2bin_bytes
hex2bin_bytes-whole v h even = rw even (hex2bin_pairs-whole v [] h)

-- The last digit, where their number is odd
odd_parts :
    (v : Bytes)
    → length v % 2 ≡ 1
    → (drop (length v - 1) v ≡ left v) × (whole (take (length v - 1) v) ≡ whole v)
unfolding left whole
odd_parts [] odd = absurd (omega (arith, odd))
odd_parts (a ∷ []) odd = (refl, refl)
odd_parts (a ∷ b ∷ s) odd =
    let (last, front) = odd_parts s (omega (arith, odd)) in
    let n : length (a ∷ b ∷ s) - 1 ≡ suc (suc (length s - 1)) = omega (arith, odd) in
    rw n (last, ap (λ t. (value a * 16 + value b) % 256 ∷ t) front)

even_left : (v : Bytes) → length v % 2 ≡ 0 → left v ≡ []
unfolding left
even_left [] even = refl
even_left (a ∷ []) even = absurd (omega (arith, even))
even_left (a ∷ b ∷ s) even = even_left s (omega (arith, even))

even_front : (v : Bytes) → length v % 2 ≡ 1 → (length (take (length v - 1) v) % 2 == 1) ≡ false
even_front v odd = ground (arith, odd, length-take (length v - 1) v)

-- `copy` on digits alone
copy_digits : Bytes → Bytes → Copied
copy_digits digits to =
    let n = length digits in
    if n == 0
    then copied [] to
    else if n % 2 == 1
    then add_bin (drop (n - 1) digits) to (hex2bin_bytes (take (n - 1) digits) [])
    else add_bin [] to (hex2bin_bytes digits [])

copy_digits-whole :
    (digits to : Bytes)
    → All IsHex digits
    → copy_digits digits to ≡ copied (left digits) (to ++ whole digits)
unfolding copy_digits add_bin
copy_digits-whole [] to h = unfold left whole in rw append-nil
copy_digits-whole (a ∷ s) to h = elim (Bool-cases (length (a ∷ s) % 2 == 1)) [
  | inl odd ↦
      let nonempty : (length (a ∷ s) == 0) ≡ false = ground arith in
      let odd' : length (a ∷ s) % 2 ≡ 1 = ground (arith, odd) in
      let (last, front) = odd_parts (a ∷ s) odd' in
      let bin =
        hex2bin_bytes-whole (take (length (a ∷ s) - 1) (a ∷ s))
          (All-take IsHex (length (a ∷ s) - 1) (a ∷ s) h) (even_front (a ∷ s) odd') in
      rw (nonempty, odd, bin, last, front) refl
  | inr even ↦
      let nonempty : (length (a ∷ s) == 0) ≡ false = ground arith in
      rw
        (
          nonempty,
          even,
          hex2bin_bytes-whole (a ∷ s) h even,
          even_left (a ∷ s) (ground (arith, even)),
        )
        refl
]

copy_hex-whole :
    (from to : Bytes)
    → copy_hex from to ≡ copied (left (hex_chars from)) (to ++ whole (hex_chars from))
unfolding copy_hex copy_digits
copy_hex-whole from to = copy_digits-whole (hex_chars from) to (hex_chars-IsHex from)

-- Hexadecimal text that arrives in two chunks, between two calls of `copy`: the assertion holds both
-- times, and both buffers are left as by one call on the whole text. What is no digit may stand
-- anywhere, and the text may be cut between the two digits of a byte.
pub copy_hex-append :
    (from more to : Bytes)
    → (read_buffer data_buffer : Bytes) × (copy_hex from to ≡ copied read_buffer data_buffer)
      × (copy_hex (read_buffer ++ more) data_buffer ≡ copy_hex (from ++ more) to)
copy_hex-append from more to =
    let digits = hex_chars from in
    let r = left digits in
    let again : hex_chars (r ++ more) ≡ r ++ hex_chars more =
      hex_chars-append r more
      ∙ ap (λ t. t ++ hex_chars more)
          (hex_chars-left r (left-IsHex digits (hex_chars-IsHex from))) in
    let rest : left (hex_chars (r ++ more)) ≡ left (hex_chars (from ++ more)) =
      ap left again
      ∙ sym (left-append digits (hex_chars more))
      ∙ ap left (sym (hex_chars-append from more)) in
    let bytes : (to ++ whole digits) ++ whole (hex_chars (r ++ more))
        ≡ to ++ whole (hex_chars (from ++ more)) =
      append_assoc to (whole digits) (whole (hex_chars (r ++ more)))
      ∙ ap (λ t. to ++ (whole digits ++ whole t)) again
      ∙ ap (λ t. to ++ t) (sym (whole-append digits (hex_chars more)))
      ∙ ap (λ t. to ++ whole t) (sym (hex_chars-append from more)) in
    (
      r,
      to ++ whole digits,
      copy_hex-whole from to,
      copy_hex-whole (r ++ more) (to ++ whole digits)
          ∙ ap (λ t. copied t ((to ++ whole digits) ++ whole (hex_chars (r ++ more)))) rest
          ∙ ap (copied (left (hex_chars (from ++ more)))) bytes
          ∙ sym (copy_hex-whole (from ++ more) to),
    )
