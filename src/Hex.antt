-- ===== src/Hex.antt =====
-- src/util.cc: hexadecimal text and bytes (`char2int` to `safeString`), and BCD bytes.
pub mod RoundTrip
pub mod Printing
mod Runs
use wmbm_16brandnew.Prelude.{
  ℕ, zero, suc, ◌+◌, ◌-◌, ◌*◌, ◌/◌, ◌%◌, Bool, true, false, not, ◌&&◌, ◌||◌, Option, none, some,
  List, [], ◌∷◌, ◌++◌, codes, Bytes, drop, get_or, length, ltb, leb, ◌==◌, within, if◌then◌else◌,
}

-- `none` is the result -1.
unfoldable pub char2int : ℕ → Option ℕ
char2int c =
    if within b'0' b'9' c
    then some (c - b'0')
    else if within b'A' b'F' c
    then some (c - b'A' + 10)
    else if within b'a' b'f' c
    then some (c - b'a' + 10)
    else none

unfoldable pub is_hex_char : ℕ → Bool
unfolding char2int
is_hex_char c = elim (char2int c) [ none ↦ false | some v ↦ true ]

-- uchar arithmetic: `c&15` is `c % 16` and `c>>4` is `c / 16`.
unfoldable pub bcd2bin : ℕ → ℕ
bcd2bin c = (c % 16 + c / 16 * 10) % 256

unfoldable pub revbcd2bin : ℕ → ℕ
revbcd2bin c = (c % 16 * 10 + c / 16) % 256

unfoldable pub reverse : ℕ → ℕ
reverse c = (c % 16 * 16 + c / 16) % 256

-- What a `const char*` to the content of a string reads: all up to the first NUL.
unfoldable pub c_str : Bytes → Bytes
c_str [] = []
c_str (c ∷ s) = if c == 0 then [] else c ∷ c_str s

-- The loop of `isHexString` over a C string, with `n` characters read: the result and `*invalid`.
unfoldable pub is_hex_string_loop : Bytes → ℕ → Bool × Bool
unfolding is_hex_char
is_hex_string_loop [] n = (true, n % 2 == 1)
is_hex_string_loop (c ∷ s) n =
    let rest = is_hex_string_loop s (n + 1) in if is_hex_char c then rest else (false, false)

unfoldable pub is_hex_string : Bytes → Bool × Bool
unfolding is_hex_string_loop
is_hex_string [] = (false, false)
is_hex_string (c ∷ s) = is_hex_string_loop (c ∷ s) 0

-- `hex2bin` over a C string. It appends to the target, also before it fails.
unfoldable pub hex2bin_pair : Option ℕ → Option ℕ → Option ℕ
hex2bin_pair none lo = none
hex2bin_pair (some hi) none = none
hex2bin_pair (some hi) (some lo) = some ((hi * 16 + lo) % 256)

unfoldable pub hex2bin_chars : Bytes → Bytes → Bool × Bytes
unfolding char2int hex2bin_pair
hex2bin_chars [] target = (true, target)
hex2bin_chars (a ∷ []) target = (true, target)
hex2bin_chars (a ∷ b ∷ s) target =
    let skipped = hex2bin_chars (b ∷ s) target in
    if a == b' ' then skipped else elim (hex2bin_pair (char2int a) (char2int b)) [
      | none ↦ (false, target)
      | some v ↦ hex2bin_chars s (target ++ v ∷ [])
    ]

-- `hex2bin(string &src, …)`
unfoldable pub hex2bin : Bytes → Bytes → Bool × Bytes
unfolding c_str hex2bin_chars
hex2bin src target = hex2bin_chars (c_str src) target

-- `hex2bin(vector<uchar> &src, …)`: steps of two, where a pair that starts with a space is skipped.
unfoldable pub hex2bin_pairs : Bytes → Bytes → Bool × Bytes
unfolding char2int hex2bin_pair
hex2bin_pairs [] target = (true, target)
hex2bin_pairs (a ∷ []) target = (true, target)
hex2bin_pairs (a ∷ b ∷ s) target =
    let skipped = hex2bin_pairs s target in
    if not (a == b' ')
    then elim (hex2bin_pair (char2int a) (char2int b)) [
      | none ↦ (false, target)
      | some v ↦ hex2bin_pairs s (target ++ v ∷ [])
    ]
    else skipped

unfoldable pub hex2bin_bytes : Bytes → Bytes → Bool × Bytes
unfolding hex2bin_pairs
hex2bin_bytes src target = if length src % 2 == 1 then (false, target) else hex2bin_pairs src target

abbrev pub hex : Bytes
hex = codes "0123456789ABCDEF"

unfoldable pub hex_byte : ℕ → Bytes
hex_byte ch = get_or hex (ch / 16 % 16) 0 ∷ get_or hex (ch % 16) 0 ∷ []

-- `bin2hex(const vector<uchar>&)`
unfoldable pub bin2hex : Bytes → Bytes
unfolding hex_byte
bin2hex [] = []
bin2hex (ch ∷ target) = hex_byte ch ++ bin2hex target

-- `bin2hex(data, end, len)` over what lies between the iterators; a `len` below 1 gives nothing.
unfoldable pub bin2hex_range : Bytes → ℕ → Bytes
unfolding hex_byte
bin2hex_range [] len = []
bin2hex_range (ch ∷ target) zero = []
bin2hex_range (ch ∷ target) (suc len) = hex_byte ch ++ bin2hex_range target len

-- `bin2hex(data, offset, len)`, for an offset within the vector
unfoldable pub bin2hex_offset : Bytes → ℕ → ℕ → Bytes
unfolding bin2hex_range
bin2hex_offset target offset len = bin2hex_range (drop offset target) len

-- A `char` is signed: from 128 on it fails `ch >= 32`, as it fails `ch < 127` here.
unfoldable pub safe_byte : ℕ → Bytes
unfolding hex_byte
safe_byte ch =
    if leb 32 ch && ltb ch 127 && not (ch == b'<') && not (ch == b'>')
    then ch ∷ []
    else b'<' ∷ hex_byte ch ++ b'>' ∷ []

unfoldable pub safe_string : Bytes → Bytes
unfolding safe_byte
safe_string [] = []
safe_string (ch ∷ target) = safe_byte ch ++ safe_string target
