-- ===== src/Raw/Runs.antt =====
-- Concrete runs of the raw receivers, and the theorems at concrete inputs.
use wmbm_16brandnew.Prelude.{[], ◌∷◌, ◌++◌, Bytes, codes, ◌≡◌, ◌≢◌, refl}
use wmbm_16brandnew.Hex.{is_hex_char, char2int, hex2bin_bytes, hex2bin_pairs, hex2bin_pair}
use wmbm_16brandnew.Frame.{Found, check_mbus_frame, check_mbus_end, checksum}
use wmbm_16brandnew.Raw.{
  telegrams, unfinished, telegram_of, put_first, handle, raw_loop, process_rc1180_data,
  process_mbus_data, copied, copy_hex, hex_chars, add_bin,
}
use wmbm_16brandnew.Raw.Ending.{raw_rounds_end}
use wmbm_16brandnew.Raw.Copying.{copy_hex-append}

abbrev nothing_found : Found
nothing_found = record { frame_length = 0; payload_len = 0; payload_offset = 0 }

-- An acknowledgement, which is handled as an empty telegram, and a long frame with one more byte
abbrev arrived : Bytes
arrived = 0xE5 ∷ 0x68 ∷ 0x03 ∷ 0x03 ∷ 0x68 ∷ 0x08 ∷ 0x01 ∷ 0x72 ∷ 0x7B ∷ 0x16 ∷ 0x68 ∷ []

mbus_run :
    process_mbus_data nothing_found [] arrived
    ≡ telegrams ([] ∷ (0x03 ∷ 0x08 ∷ 0x01 ∷ 0x72 ∷ []) ∷ []) (0x68 ∷ [])
unfolding process_mbus_data raw_loop handle put_first telegram_of check_mbus_frame check_mbus_end
    checksum
mbus_run = refl

copy_run : copy_hex (codes "4 4\n9") (0x0B ∷ []) ≡ copied (codes "9") (0x0B ∷ 0x44 ∷ [])
unfolding copy_hex add_bin hex_chars is_hex_char char2int hex2bin_bytes hex2bin_pairs hex2bin_pair
copy_run = refl

raw_rounds_end_example :
    (process_rc1180_data nothing_found arrived (0x16 ∷ []) ≢ unfinished)
    × (process_mbus_data nothing_found arrived (0x16 ∷ []) ≢ unfinished)
raw_rounds_end_example = raw_rounds_end nothing_found arrived (0x16 ∷ [])

copy_hex-append_example :
    (read_buffer data_buffer : Bytes) × (copy_hex (codes "0B4") [] ≡ copied read_buffer data_buffer)
    × (copy_hex (read_buffer ++ codes "4\n93") data_buffer
        ≡ copy_hex (codes "0B4" ++ codes "4\n93") [])
copy_hex-append_example = copy_hex-append (codes "0B4") (codes "4\n93") []
