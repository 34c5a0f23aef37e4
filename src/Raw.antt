-- ===== src/Raw.antt =====
-- src/wmbus_rc1180.cc, src/wmbus_rawtty.cc and src/mbus_rawtty.cc: the receivers that hand on the
-- frames as they come, and find them by `checkWMBusFrame` or `checkMBusFrame`.
pub mod Ending
pub mod Copying
pub mod Runs
use wmbm_16brandnew.Prelude.{
  ℕ, zero, suc, ◌+◌, ◌-◌, ◌*◌, ◌/◌, ◌%◌, Bool, true, false, not, Option, none, some, List, [], ◌∷◌,
  ◌++◌, Bytes, get_or, take, drop, length, ltb, leb, ◌==◌, if◌then◌else◌, u8,
}
use wmbm_16brandnew.Hex.{is_hex_char, hex2bin_bytes}
use wmbm_16brandnew.Frame.{
  FrameStatus, partial_frame, full_frame, error_in_frame, text_and_not_frame, Found,
  check_wmbus_frame, check_mbus_frame,
}

abbrev pub Finder : Type 0
Finder = Bytes → Found → FrameStatus × Bytes × Found

-- The byte for the length is put before the payload.
unfoldable pub telegram_of : Bytes → Found → Bytes
telegram_of buffer found =
    if found.payload_len == 0
    then []
    else u8 found.payload_len ∷ take found.payload_len (drop found.payload_offset buffer)

-- The telegrams that are handled, and what is left in the buffer; `unfinished` is the end of the fuel.
pub data Telegrams : Type 0 where
  telegrams : List Bytes → Bytes → Telegrams
  unfinished : Telegrams

unfoldable pub put_first : Bytes → Telegrams → Telegrams
put_first t (telegrams ts buffer) = telegrams (t ∷ ts) buffer
put_first t unfinished = unfinished

-- `next` is the loop, with the buffer and the numbers that the finder wrote. The status for text is
-- not looked at.
unfoldable pub handle : (Bytes → Found → Telegrams) → FrameStatus × Bytes × Found → Telegrams
handle next (partial_frame, buffer, found) = telegrams [] buffer
handle next (error_in_frame, buffer, found) = telegrams [] []
handle next (full_frame, buffer, found) =
    put_first (telegram_of buffer found) (next (drop found.frame_length buffer) found)
handle next (text_and_not_frame, buffer, found) = next buffer found

unfoldable pub raw_loop : Finder → ℕ → Bytes → Found → Telegrams
raw_loop finder zero buffer found = unfinished
raw_loop finder (suc fuel) buffer found = handle (raw_loop finder fuel) (finder buffer found)

abbrev pub raw_rounds : Finder → Bytes → Found → Telegrams
raw_rounds finder buffer found = raw_loop finder (length buffer + 1) buffer found

-- `processSerialData` of the RC1180; `found` are the numbers before the finder writes them.
unfoldable pub process_rc1180_data : Found → Bytes → Bytes → Telegrams
process_rc1180_data found buffer data_ = raw_rounds check_wmbus_frame (buffer ++ data_) found

-- `processSerialData` of the wired receiver
unfoldable pub process_mbus_data : Found → Bytes → Bytes → Telegrams
process_mbus_data found buffer data_ = raw_rounds check_mbus_frame (buffer ++ data_) found

-- What `copy` leaves in the two buffers; `assert_fails` is a failed assertion.
pub data Copied : Type 0 where
  copied : Bytes → Bytes → Copied
  assert_fails : Copied

unfoldable pub hex_chars : Bytes → Bytes
hex_chars [] = []
hex_chars (c ∷ from) = let rest = hex_chars from in if is_hex_char c then c ∷ rest else rest

unfoldable pub add_bin : Bytes → Bytes → Bool × Bytes → Copied
add_bin from to (true, bin) = copied from (to ++ bin)
add_bin from to (false, bin) = assert_fails

-- `copy` where hexadecimal digits arrive: all else is thrown away, and a last odd digit is kept.
unfoldable pub copy_hex : Bytes → Bytes → Copied
copy_hex from to =
    let digits = hex_chars from in
    let n = length digits in
    if n == 0
    then copied [] to
    else if n % 2 == 1
    then add_bin (drop (n - 1) digits) to (hex2bin_bytes (take (n - 1) digits) [])
    else add_bin [] to (hex2bin_bytes digits [])

-- `copy` where the bytes arrive as they are
unfoldable pub copy_bin : Bytes → Bytes → Copied
copy_bin from to = copied [] (to ++ from)

unfoldable pub copy : Bool → Bytes → Bytes → Copied
copy is_hex from to = if is_hex then copy_hex from to else copy_bin from to

unfoldable pub process_copied : Found → Copied → Option (Bytes × Telegrams)
process_copied found (copied read_buffer data_buffer) =
    some (read_buffer, raw_rounds check_wmbus_frame data_buffer found)
process_copied found assert_fails = none

-- `processSerialData` of the raw line, with the two buffers: what is left in the first one, and the
-- result of the loop on the second one
unfoldable pub process_raw_data : Bool → Found → Bytes → Bytes → Bytes → Option (Bytes × Telegrams)
process_raw_data is_hex found read_buffer data_buffer data_ =
    process_copied found (copy is_hex (read_buffer ++ data_) data_buffer)
