-- ===== src/Dv/Values/Runs.antt =====
-- Concrete runs, and the theorems at concrete inputs.
use wmbm_16brandnew.Prelude.{
  ℕ, ◌≡◌, ◌≢◌, refl, true, Option, none, some, [], ◌∷◌, Bytes, codes, arith, u32,
}
use wmbm_16brandnew.Hex.{bin2hex, hex_byte, hex2bin, hex2bin_chars, hex2bin_pair, char2int, c_str}
use wmbm_16brandnew.Text.{equal}
use wmbm_16brandnew.Dv.{DvEntry, instantaneous, unknown, fetch}
use wmbm_16brandnew.Dv.Values.{
  Values, volume, no_information, find_key, extract_vif, extract_dv, found, extract_dv_long,
  extract_dv_double,
}
use wmbm_16brandnew.Dv.Values.Keys.{FirstMatch, find_key-FirstMatch}
use wmbm_16brandnew.Dv.Values.Numbers.{extract_dv_double_wraps}
use wmbm_16brandnew.Dv.Values.Formats.{
  bits_64, digits_8, to_bytes, to_bcd, extract_dv_long_binary, extract_dv_long_bcd,
}

abbrev entry : Bytes → DvEntry
entry value = record {
  kind = instantaneous;
  value_information = 0x13;
  storagenr = 0;
  tariff = 0;
  subunit = 0;
  value = value;
}

abbrev five_billion : Values
five_billion = (codes "0713", (9, entry (bin2hex (to_bytes 8 5000000000)))) ∷ []

abbrev litres : Values
litres = (codes "0C13", (3, entry (bin2hex (to_bcd 4 1474)))) ∷ []

five_billion_fetched :
    fetch (codes "0713") five_billion ≡ some (9, entry (bin2hex (to_bytes 8 5000000000)))
unfolding fetch equal
five_billion_fetched = refl

litres_fetched : fetch (codes "0C13") litres ≡ some (3, entry (bin2hex (to_bcd 4 1474)))
unfolding fetch equal
litres_fetched = refl

litres_text : bin2hex (to_bcd 4 1474) ≡ codes "74140000"
unfolding bin2hex hex_byte
litres_text = refl

keys_run :
    (extract_dv (codes "0713") ≡ some (0x07, 0x13))
    × (extract_dv (codes "0C13") ≡ some (0x0c, 0x13))
unfolding extract_dv extract_vif hex2bin hex2bin_chars hex2bin_pair char2int c_str
keys_run = (refl, refl)

volume_no_none : volume ≢ no_information
volume_no_none e = cc

find_key-FirstMatch_example :
    FirstMatch unknown volume (some 0) none litres (find_key unknown volume (some 0) none litres)
find_key-FirstMatch_example = find_key-FirstMatch unknown volume (some 0) none litres

extract_dv_long_binary_example :
    extract_dv_long five_billion (codes "0713") ≡ found (some 9) 5000000000
extract_dv_long_binary_example =
    extract_dv_long_binary five_billion (codes "0713") 9 (entry (bin2hex (to_bytes 8 5000000000)))
      0x07 0x13 8 5000000000 five_billion_fetched keys_run.0 bits_64 (omega arith) refl

extract_dv_long_bcd_example : extract_dv_long litres (codes "0C13") ≡ found (some 3) 1474
extract_dv_long_bcd_example =
    extract_dv_long_bcd litres (codes "0C13") 3 (entry (bin2hex (to_bcd 4 1474))) 0x0c 0x13 4 1474
      litres_fetched keys_run.1 digits_8 (omega arith) refl

extract_dv_long-five_billion :
    extract_dv_long five_billion (codes "0713") ≡ found (some 9) 5000000000
extract_dv_long-five_billion =
    extract_dv_long_binary five_billion (codes "0713") 9 (entry (bin2hex (to_bytes 8 5000000000)))
      0x07 0x13 8 5000000000 five_billion_fetched keys_run.0 bits_64 (omega arith) refl

extract_dv_double_wraps_example :
    (s : Option (ℕ × ℕ)) × (extract_dv_double five_billion (codes "0713") true
      ≡ found (some 9) (record { raw_value = u32 5000000000; scale = s }))
extract_dv_double_wraps_example =
    extract_dv_double_wraps five_billion (codes "0713") true (some 9) 5000000000
      extract_dv_long-five_billion
