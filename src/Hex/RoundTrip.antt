-- ===== src/Hex/RoundTrip.antt =====
-- src/util.cc: `hex2bin` after `bin2hex`, and `bin2hex` after `hex2bin`.
use wmbm_16brandnew.Prelude.{
  ℕ, suc, ◌+◌, ◌-◌, ◌*◌, ◌/◌, ◌%◌, ◌≤◌, ◌<◌, ◌≡◌, ◌≢◌, refl, ◌∙◌, inl, inr, Bool, true, false, not,
  ◌&&◌, Option, none, some, [], ◌∷◌, ◌++◌, map, arith, Bytes, IsByte, All, get_or, length, within,
  ltb, ◌==◌, if◌then◌else◌, all_below, all_below_sound, Bool-cases, Option-cases,
}
use mathlib.Core.List.{append-nil, append_assoc}
use wmbm_16brandnew.Hex.{
  char2int, is_hex_char, c_str, is_hex_string_loop, is_hex_string, hex2bin_pair, hex2bin_chars,
  hex2bin, hex2bin_pairs, hex2bin_bytes, hex, hex_byte, bin2hex,
}

reads_back : ℕ → Bool
reads_back d =
    elim (char2int (get_or hex d 0)) [ none ↦ false | some v ↦ v == d ]
    && not (get_or hex d 0 == b' ')
    && not (get_or hex d 0 == 0)

digits_table : all_below 16 reads_back ≡ true
unfolding all_below reads_back char2int
digits_table = refl

-- A digit of the table is read back, and is neither a space nor a NUL.
pub hex_digit_lem :
    (d : ℕ)
    → d < 16
    → (char2int (get_or hex d 0) ≡ some d)
      × ((get_or hex d 0 == b' ') ≡ false)
      × ((get_or hex d 0 == 0) ≡ false)
unfolding reads_back
hex_digit_lem d h = elim (Option-cases (char2int (get_or hex d 0))) [
  | inl e ↦ absurd (ground (arith, e, all_below_sound 16 reads_back d digits_table h))
  | inr (v, e) ↦ (
    ground (arith, e, all_below_sound 16 reads_back d digits_table h),
    ground (arith, e, all_below_sound 16 reads_back d digits_table h),
    ground (arith, e, all_below_sound 16 reads_back d digits_table h),
  )
]

hex2bin_chars-hex_byte :
    (b : ℕ) (s target : Bytes)
    → b < 256
    → hex2bin_chars (hex_byte b ++ s) target ≡ hex2bin_chars s (target ++ b ∷ [])
unfolding hex2bin_chars hex_byte
hex2bin_chars-hex_byte b s target h =
    let hi = hex_digit_lem (b / 16 % 16) (omega arith) in
    let lo = hex_digit_lem (b % 16) (omega arith) in
    let whole : (b / 16 % 16 * 16 + b % 16) % 256 ≡ b = omega arith in
    rw (hi.1, hi.0, lo.0) (rw whole)

hex2bin_pairs-hex_byte :
    (b : ℕ) (s target : Bytes)
    → b < 256
    → hex2bin_pairs (hex_byte b ++ s) target ≡ hex2bin_pairs s (target ++ b ∷ [])
unfolding hex2bin_pairs hex_byte
hex2bin_pairs-hex_byte b s target h =
    let hi = hex_digit_lem (b / 16 % 16) (omega arith) in
    let lo = hex_digit_lem (b % 16) (omega arith) in
    let whole : (b / 16 % 16 * 16 + b % 16) % 256 ≡ b = omega arith in
    rw (hi.1, hi.0, lo.0) (rw whole)

pub hex2bin_chars-bin2hex :
    (v target : Bytes) → All IsByte v → hex2bin_chars (bin2hex v) target ≡ (true, target ++ v)
unfolding bin2hex
hex2bin_chars-bin2hex [] target h = unfold hex2bin_chars in rw append-nil
hex2bin_chars-bin2hex (b ∷ v) target h =
    hex2bin_chars-hex_byte b (bin2hex v) target h.0
    ∙ hex2bin_chars-bin2hex v (target ++ b ∷ []) h.1
    ∙ rw append_assoc

c_str-bin2hex : (v : Bytes) → All IsByte v → c_str (bin2hex v) ≡ bin2hex v
unfolding c_str bin2hex hex_byte
c_str-bin2hex [] h = refl
c_str-bin2hex (b ∷ v) h =
    let hi = hex_digit_lem (b / 16 % 16) (omega arith) in
    let lo = hex_digit_lem (b % 16) (omega arith) in rw (hi.2, lo.2, c_str-bin2hex v h.1)

-- Whatever bytes are printed by `bin2hex`, `hex2bin` over the string reads them back onto the end
-- of the target, and reports success.
pub hex2bin-bin2hex :
    (v target : Bytes) → All IsByte v → hex2bin (bin2hex v) target ≡ (true, target ++ v)
unfolding hex2bin
hex2bin-bin2hex v target h = rw (c_str-bin2hex v h) (hex2bin_chars-bin2hex v target h)

pub length-bin2hex : (v : Bytes) → length (bin2hex v) ≡ 2 * length v
unfolding bin2hex hex_byte
length-bin2hex [] = omega arith
length-bin2hex (b ∷ v) = omega (arith, length-bin2hex v)

hex2bin_pairs-bin2hex :
    (v target : Bytes) → All IsByte v → hex2bin_pairs (bin2hex v) target ≡ (true, target ++ v)
unfolding bin2hex
hex2bin_pairs-bin2hex [] target h = unfold hex2bin_pairs in rw append-nil
hex2bin_pairs-bin2hex (b ∷ v) target h =
    hex2bin_pairs-hex_byte b (bin2hex v) target h.0
    ∙ hex2bin_pairs-bin2hex v (target ++ b ∷ []) h.1
    ∙ rw append_assoc

-- The same for the overload that reads a byte vector.
pub hex2bin_bytes-bin2hex :
    (v target : Bytes) → All IsByte v → hex2bin_bytes (bin2hex v) target ≡ (true, target ++ v)
unfolding hex2bin_bytes
hex2bin_bytes-bin2hex v target h =
    rw (hex2bin_pairs-bin2hex v target h) (ground (arith, length-bin2hex v))

-- An upper case digit, and itself for any other character.
abbrev pub to_upper : ℕ → ℕ
to_upper c = if within b'a' b'f' c then c - 32 else c

digit_fits : ℕ → Bool
digit_fits c = elim (char2int c) [
  | none ↦ true
  | some d ↦ ltb d 16 && not (c == b' ') && get_or hex d 0 == to_upper c
]

digits_fit_table : all_below 128 digit_fits ≡ true
unfolding all_below digit_fits char2int
digits_fit_table = refl

char2int_ascii : (c d : ℕ) → char2int c ≡ some d → c < 128
unfolding char2int
char2int_ascii c d h = ground arith

char2int_lem :
    (c d : ℕ)
    → char2int c ≡ some d
    → (d < 16) × ((c == b' ') ≡ false) × (get_or hex d 0 ≡ to_upper c)
unfolding digit_fits
char2int_lem c d h =
    let fits = all_below_sound 128 digit_fits c digits_fit_table (char2int_ascii c d h) in
    (ground (arith, h, fits), ground (arith, h, fits), ground (arith, h, fits))

-- The two halves of a byte that a pair of digits was read into.
pair_halves : (a b : ℕ) → a < 16 → b < 16 → (a * 16 + b) % 256 / 16 % 16 ≡ a
pair_halves a b h k = omega arith

pair_halves_low : (a b : ℕ) → a < 16 → b < 16 → (a * 16 + b) % 256 % 16 ≡ b
pair_halves_low a b h k = omega arith

is_hex_char→digit : (c : ℕ) → is_hex_char c ≡ true → (d : ℕ) × (char2int c ≡ some d)
unfolding is_hex_char
is_hex_char→digit c h = elim (Option-cases (char2int c)) [
  | inl e ↦ absurd (ground (arith, e))
  | inr r ↦ r
]

is_hex_string_loop_cons :
    (c n : ℕ) (s : Bytes)
    → is_hex_string_loop (c ∷ s) n ≡ (true, false)
    → (is_hex_char c ≡ true) × (is_hex_string_loop s (n + 1) ≡ (true, false))
unfolding is_hex_string_loop
is_hex_string_loop_cons c n s h = elim (Bool-cases (is_hex_char c)) [
  | inl e ↦ (e, rw e at h)
  | inr e ↦ absurd (ground (arith, e))
]

-- What a C string of digits is read into, and that it prints as the string in upper case.
abbrev ReadsAs : Bytes → Bytes → Type 0
ReadsAs s target =
    (v : Bytes) × (hex2bin_chars s target ≡ (true, target ++ v)) × (bin2hex v ≡ map to_upper s)

odd_loop : (n : ℕ) → n % 2 ≡ 0 → is_hex_string_loop [] (n + 1) ≢ (true, false)
unfolding is_hex_string_loop
odd_loop n e = ground arith

hex2bin_chars_pair :
    (a b x y : ℕ) (s target : Bytes)
    → char2int a ≡ some x
    → char2int b ≡ some y
    → ReadsAs s (target ++ ((x * 16 + y) % 256) ∷ [])
    → ReadsAs (a ∷ b ∷ s) target
unfolding hex2bin_chars bin2hex hex_byte
hex2bin_chars_pair a b x y s target ha hb (v, reads, prints) =
    let fa = char2int_lem a x ha in
    let fb = char2int_lem b y hb in
    (
      (x * 16 + y) % 256 ∷ v,
      rw (fa.1, ha, hb) (rw reads (rw append_assoc)),
      rw (pair_halves x y fa.0 fb.0, pair_halves_low x y fa.0 fb.0, fa.2, fb.2, prints),
    )

hex2bin_chars-ReadsAs :
    (s target : Bytes) (n : ℕ)
    → n % 2 ≡ 0
    → is_hex_string_loop s n ≡ (true, false)
    → ReadsAs s target
hex2bin_chars-ReadsAs [] target n e h =
    ([], unfold hex2bin_chars in rw append-nil, unfold bin2hex in refl)
hex2bin_chars-ReadsAs (a ∷ []) target n e h =
    absurd (odd_loop n e (is_hex_string_loop_cons a n [] h).1)
hex2bin_chars-ReadsAs (a ∷ b ∷ s) target n e h =
    let first = is_hex_string_loop_cons a n (b ∷ s) h in
    let second = is_hex_string_loop_cons b (n + 1) s first.1 in
    let (x, ha) = is_hex_char→digit a first.0 in
    let (y, hb) = is_hex_char→digit b second.0 in
    hex2bin_chars_pair a b x y s target ha hb (
      hex2bin_chars-ReadsAs s (target ++ ((x * 16 + y) % 256) ∷ []) (n + 1 + 1) (omega arith)
        second.1)

-- A C string that `isHexString` accepts, and does not call invalid, is read by `hex2bin` without
-- failure, and what is read prints as the same string in upper case.
pub is_hex_string-hex2bin :
    (s target : Bytes)
    → is_hex_string s ≡ (true, false)
    → (v : Bytes) × (hex2bin_chars s target ≡ (true, target ++ v)) × (bin2hex v ≡ map to_upper s)
unfolding is_hex_string
is_hex_string-hex2bin [] target h = cc
is_hex_string-hex2bin (c ∷ s) target h = hex2bin_chars-ReadsAs (c ∷ s) target 0 (omega arith) h

-- `t` extends `target` by bytes, at most one for each two of `n` characters.
abbrev Appends : ℕ → Bytes → Bytes → Type 0
Appends n target t = (v : Bytes) × (t ≡ target ++ v) × (2 * length v ≤ n) × All IsByte v

Appends-none : (n : ℕ) (target : Bytes) → Appends n target target
Appends-none n target = ([], rw append-nil, omega arith, tt)

Appends-more : (n : ℕ) (target t : Bytes) → Appends n target t → Appends (suc n) target t
Appends-more n target t (v, e, bound, bytes) = (v, e, omega arith, bytes)

Appends-cons :
    (n x : ℕ) (target t : Bytes)
    → x < 256
    → Appends n (target ++ x ∷ []) t
    → Appends (suc (suc n)) target t
Appends-cons n x target t h (v, e, bound, bytes) =
    (x ∷ v, e ∙ append_assoc target (x ∷ []) v, omega arith, (h, bytes))

hex2bin_pair-IsByte : (p q : Option ℕ) {x : ℕ} → hex2bin_pair p q ≡ some x → x < 256
unfolding hex2bin_pair
hex2bin_pair-IsByte none q h = cc
hex2bin_pair-IsByte (some a) none h = cc
hex2bin_pair-IsByte (some a) (some b) h = ground arith

-- Whatever the text, `hex2bin` only appends bytes to the target, at most one for each two
-- characters, also where it fails.
pub hex2bin_chars_appends :
    (s target : Bytes)
    → (v : Bytes) × ((hex2bin_chars s target).1 ≡ target ++ v)
      × (2 * length v ≤ length s)
      × All IsByte v
unfolding hex2bin_chars
hex2bin_chars_appends [] target = Appends-none 0 target
hex2bin_chars_appends (a ∷ []) target = Appends-none 1 target
hex2bin_chars_appends (a ∷ b ∷ s) target = elim (Bool-cases (a == b' ')) [
  | inl e ↦ rw e (Appends-more (suc (length s)) target _ (hex2bin_chars_appends (b ∷ s) target))
  | inr e ↦ elim (Option-cases (hex2bin_pair (char2int a) (char2int b))) [
    | inl bad ↦ rw (e, bad) (Appends-none (suc (suc (length s))) target)
    | inr (x, good) ↦
        rw (e, good)
          (Appends-cons (length s) x target _ (hex2bin_pair-IsByte _ _ good)
            (hex2bin_chars_appends s (target ++ x ∷ [])))
  ]
]
