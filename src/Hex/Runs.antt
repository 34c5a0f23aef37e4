-- ===== src/Hex/Runs.antt =====
-- Concrete runs, and the theorems at concrete inputs.
use wmbm_16brandnew.Prelude.{◌≡◌, refl, true, false, [], ◌∷◌, arith, Bytes, IsByte, All, codes}
use wmbm_16brandnew.Hex.{
  char2int, is_hex_char, is_hex_string, is_hex_string_loop, c_str, hex2bin_pair, hex2bin_chars,
  hex2bin, hex_byte, bin2hex, safe_byte, safe_string,
}

abbrev some_bytes : Bytes
some_bytes = 0x2e ∷ 0x00 ∷ 0xff ∷ 0x41 ∷ []

bin2hex_run : bin2hex some_bytes ≡ codes "2E00FF41"
unfolding bin2hex hex_byte
bin2hex_run = refl

-- Spaces are passed over, and a character that is no digit fails.
hex2bin_run : hex2bin (codes "2e 44 |9") [] ≡ (false, 0x2e ∷ 0x44 ∷ [])
unfolding hex2bin hex2bin_chars hex2bin_pair char2int c_str
hex2bin_run = refl

safe_string_run : safe_string some_bytes ≡ codes ".<00><FF>A"
unfolding safe_string safe_byte
safe_string_run = refl

is_hex_string_run : is_hex_string (codes "2e4F") ≡ (true, false)
unfolding is_hex_string is_hex_string_loop is_hex_char
is_hex_string_run = refl

some_bytes-IsByte : All IsByte some_bytes
some_bytes-IsByte = omega arith
