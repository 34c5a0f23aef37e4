-- ===== src/Dv/Values/Formats.antt =====
-- src/dvparser.cc: `extractDVlong` on numbers that were written in the formats of the DIF.
use wmbm_16brandnew.Prelude.{
  ℕ, zero, suc, ◌+◌, ◌-◌, ◌*◌, ◌/◌, ◌%◌, ◌^◌, ◌<◌, ◌≡◌, refl, ap, ◌∙◌, true, false, Bool, ltb, ◌==◌,
  ==_iff, if◌then◌else◌, arith, All, some, [], ◌∷◌, Bytes, IsByte, length, get_or, agree_below,
  all_below,
}
use native.Mathlib.Nat.{pow-suc}
use wmbm_16brandnew.Hex.{hex, hex_byte, bin2hex}
use wmbm_16brandnew.Hex.RoundTrip.{hex2bin-bin2hex, length-bin2hex}
use wmbm_16brandnew.Text.{is_empty}
use wmbm_16brandnew.Dv.{DvEntry, fetch}
use wmbm_16brandnew.Dv.Values.{
  Values, found, breaks_down, raw, broken, little_endian, read_binary, bcd_sum, read_bcd, read_raw,
  extract_dv, extracted_raw, extract_dv_long, value_bytes,
}
use wmbm_16brandnew.Dv.Values.Numbers.{extract_number_reads}

-- The formats of binary numbers: the low bits of the DIF and the number of bytes.
pub data BinaryFormat : ℕ → ℕ → Type 0 where
  bits_8 : BinaryFormat 1 1
  bits_16 : BinaryFormat 2 2
  bits_24 : BinaryFormat 3 3
  bits_32 : BinaryFormat 4 4
  bits_48 : BinaryFormat 6 6
  bits_64 : BinaryFormat 7 8

-- The formats of decimal numbers.
pub data DecimalFormat : ℕ → ℕ → Type 0 where
  digits_2 : DecimalFormat 0x9 1
  digits_4 : DecimalFormat 0xA 2
  digits_6 : DecimalFormat 0xB 3
  digits_8 : DecimalFormat 0xC 4
  digits_12 : DecimalFormat 0xE 6

-- `n` in `width` bytes, the lowest byte first.
abbrev pub to_bytes : ℕ → ℕ → Bytes
to_bytes zero n = []
to_bytes (suc width) n = n % 256 ∷ to_bytes width (n / 256)

-- `n` in `width` bytes of two decimal digits each, the lowest byte first.
abbrev pub to_bcd : ℕ → ℕ → Bytes
to_bcd zero n = []
to_bcd (suc width) n = (n / 10 % 10 * 16 + n % 10) ∷ to_bcd width (n / 100)

bound_step : (base width n : ℕ) → n < base ^ suc width → n < base ^ width * base
bound_step base width n h = rw (← pow-suc base width) h

little_endian-to_bytes : (width n : ℕ) → n < 256 ^ width → little_endian (to_bytes width n) ≡ n
unfolding little_endian
little_endian-to_bytes zero n h = omega arith
little_endian-to_bytes (suc width) n h =
    let bound = bound_step 256 width n h in
    let tail = little_endian-to_bytes width (n / 256) (omega arith) in omega arith

to_bytes-IsByte : (width n : ℕ) → All IsByte (to_bytes width n)
to_bytes-IsByte zero n = omega arith
to_bytes-IsByte (suc width) n = (omega arith, to_bytes-IsByte width (n / 256))

length-to_bytes : (width n : ℕ) → length (to_bytes width n) ≡ width
length-to_bytes zero n = refl
length-to_bytes (suc width) n = ap suc (length-to_bytes width (n / 256))

to_bcd-IsByte : (width n : ℕ) → All IsByte (to_bcd width n)
to_bcd-IsByte zero n = omega arith
to_bcd-IsByte (suc width) n = (omega arith, to_bcd-IsByte width (n / 100))

length-to_bcd : (width n : ℕ) → length (to_bcd width n) ≡ width
length-to_bcd zero n = refl
length-to_bcd (suc width) n = ap suc (length-to_bcd width (n / 100))

-- A decimal digit as a character.
digit_table : all_below 10 (λ d. (get_or hex d 0 - b'0') == d) ≡ true
unfolding all_below
digit_table = refl

digit_lem : (d : ℕ) → d < 10 → get_or hex d 0 - b'0' ≡ d
digit_lem d h = agree_below 10 (λ d. get_or hex d 0 - b'0') (λ d. d) digit_table d h

bcd_sum-to_bcd : (width n : ℕ) → n < 100 ^ width → bcd_sum (bin2hex (to_bcd width n)) ≡ n
unfolding bcd_sum bin2hex hex_byte
bcd_sum-to_bcd zero n h = omega arith
bcd_sum-to_bcd (suc width) n h =
    let bound = bound_step 100 width n h in
    let tail = bcd_sum-to_bcd width (n / 100) (omega arith) in
    let hi_digit : (n / 10 % 10 * 16 + n % 10) / 16 % 16 ≡ n / 10 % 10 = omega arith in
    let lo_digit : (n / 10 % 10 * 16 + n % 10) % 16 ≡ n % 10 = omega arith in
    rw
      (
        hi_digit,
        lo_digit,
        digit_lem (n / 10 % 10) (omega arith),
        digit_lem (n % 10) (omega arith),
        tail,
      )
      (omega arith)

is_empty-bin2hex : (v : Bytes) → 0 < length v → is_empty (bin2hex v) ≡ false
unfolding bin2hex hex_byte
is_empty-bin2hex [] h = absurd (omega arith)
is_empty-bin2hex (b ∷ v) h = refl

value_bytes-bin2hex :
    (entry : DvEntry) (v : Bytes) → All IsByte v → entry.value ≡ bin2hex v → value_bytes entry ≡ v
unfolding value_bytes
value_bytes-bin2hex entry v h e = rw e (ap (λ r. r.1) (hex2bin-bin2hex v [] h))

read_raw-binary :
    {t width : ℕ} (e : DvEntry) → BinaryFormat t width → read_raw t e ≡ read_binary width e
unfolding read_raw
read_raw-binary e bits_8 = refl
read_raw-binary e bits_16 = refl
read_raw-binary e bits_24 = refl
read_raw-binary e bits_32 = refl
read_raw-binary e bits_48 = refl
read_raw-binary e bits_64 = refl

read_raw-decimal :
    {t width : ℕ} (e : DvEntry) → DecimalFormat t width → read_raw t e ≡ read_bcd (2 * width) e
unfolding read_raw
read_raw-decimal e digits_2 = refl
read_raw-decimal e digits_4 = refl
read_raw-decimal e digits_6 = refl
read_raw-decimal e digits_8 = refl
read_raw-decimal e digits_12 = refl

binary-filled : {t width : ℕ} → BinaryFormat t width → 0 < width
binary-filled bits_8 = omega arith
binary-filled bits_16 = omega arith
binary-filled bits_24 = omega arith
binary-filled bits_32 = omega arith
binary-filled bits_48 = omega arith
binary-filled bits_64 = omega arith

decimal-filled : {t width : ℕ} → DecimalFormat t width → 0 < width
decimal-filled digits_2 = omega arith
decimal-filled digits_4 = omega arith
decimal-filled digits_6 = omega arith
decimal-filled digits_8 = omega arith
decimal-filled digits_12 = omega arith

==_refl : (n : ℕ) → (n == n) ≡ true
==_refl n = (==_iff n n).1 refl

read_binary-to_bytes :
    (width n : ℕ) (entry : DvEntry)
    → n < 256 ^ width
    → entry.value ≡ bin2hex (to_bytes width n)
    → read_binary width entry ≡ raw n
unfolding read_binary
read_binary-to_bytes width n entry h e =
    rw
      (
        value_bytes-bin2hex entry (to_bytes width n) (to_bytes-IsByte width n) e,
        length-to_bytes width n,
        ==_refl width,
        little_endian-to_bytes width n h,
      )
      refl

read_bcd-to_bcd :
    (width n : ℕ) (entry : DvEntry)
    → n < 100 ^ width
    → entry.value ≡ bin2hex (to_bcd width n)
    → read_bcd (2 * width) entry ≡ (if ltb n 2147483648 then raw n else broken)
unfolding read_bcd
read_bcd-to_bcd width n entry h e =
    rw
      (
        e,
        length-bin2hex (to_bcd width n),
        length-to_bcd width n,
        ==_refl (2 * width),
        bcd_sum-to_bcd width n h,
      )
      refl

filled_value :
    (entry : DvEntry) (v : Bytes) (width : ℕ)
    → length v ≡ width
    → 0 < width
    → entry.value ≡ bin2hex v
    → is_empty entry.value ≡ false
filled_value entry v width h k e = rw e (is_empty-bin2hex v (omega arith))

extracted-if :
    (at n : ℕ) (b : Bool)
    → extracted_raw at (if b then raw n else broken) (λ k. k)
      ≡ (if b then found (some at) n else breaks_down)
unfolding extracted_raw
extracted-if at n true = refl
extracted-if at n false = refl

module _ (values : Values) (key : Bytes) (at : ℕ) (entry : DvEntry) (dif vif width n : ℕ) where
  -- A number of 8 to 64 bits that was written in the binary format of its DIF, the lowest byte
  -- first, is what `extractDVlong` finds at the key, with the offset of the entry.
  pub extract_dv_long_binary :
      fetch key values ≡ some (at, entry)
      → extract_dv key ≡ some (dif, vif)
      → BinaryFormat (dif % 16) width
      → n < 256 ^ width
      → entry.value ≡ bin2hex (to_bytes width n)
      → extract_dv_long values key ≡ found (some at) n
  unfolding extract_dv_long extracted_raw
  extract_dv_long_binary at_key dv format h e =
      let filled =
        filled_value entry (to_bytes width n) width (length-to_bytes width n) (binary-filled format)
          e in
      extract_number_reads values key 0 (λ v k. k) at entry dif vif at_key dv filled
      ∙ rw (read_raw-binary entry format, read_binary-to_bytes width n entry h e) refl

  -- A number of 2 to 12 decimal digits that was written in the BCD format of its DIF is what
  -- `extractDVlong` finds, if it is less than 2^31. A number of twelve digits that is not less makes
  -- the sum of its digits overflow, which is taken in an int.
  pub extract_dv_long_bcd :
      fetch key values ≡ some (at, entry)
      → extract_dv key ≡ some (dif, vif)
      → DecimalFormat (dif % 16) width
      → n < 100 ^ width
      → entry.value ≡ bin2hex (to_bcd width n)
      → extract_dv_long values key ≡ (if ltb n 2147483648 then found (some at) n else breaks_down)
  unfolding extract_dv_long
  extract_dv_long_bcd at_key dv format h e =
      let filled =
        filled_value entry (to_bcd width n) width (length-to_bcd width n) (decimal-filled format)
          e in
      extract_number_reads values key 0 (λ v k. k) at entry dif vif at_key dv filled
      ∙ rw (read_raw-decimal entry format, read_bcd-to_bcd width n entry h e)
          (extracted-if at n (ltb n 2147483648))
