-- ===== src/Rtlwmbus.antt =====
-- src/wmbus_rtlwmbus.cc: the lines of rtl_wmbus, `checkRTLWMBUSFrame`, and the loop of
-- `processSerialData` over the bytes that arrive.
pub mod Ending
pub mod Second
pub mod Runs
use wmbm_16brandnew.Prelude.{
  ℕ, zero, suc, ◌+◌, ◌-◌, ◌*◌, ◌/◌, ◌%◌, Bool, true, false, not, ◌&&◌, ◌||◌, Option, none, some,
  List, [], ◌∷◌, ◌++◌, Bytes, get_or, take, drop, length, ltb, leb, ◌==◌, if◌then◌else◌, u8,
}
use wmbm_16brandnew.Hex.{hex2bin_bytes}
use wmbm_16brandnew.Frame.{byte_at, set_length}

-- A full frame has the length of what is taken from the buffer, where its hexadecimal digits stand,
-- and the text for the strength of the signal, if there is one. `rtl_reads_past` is a read past the end.
pub record HexFrame : Type 0 where
  pub hex_frame_length : ℕ
  pub hex_payload_len : ℕ
  pub hex_payload_offset : ℕ
  pub rssi : Option Bytes

pub data RtlChecked : Type 0 where
  rtl_partial rtl_text rtl_error rtl_reads_past : RtlChecked
  rtl_full : HexFrame → RtlChecked

-- The index of the first such byte, or the length of the buffer
unfoldable pub find_byte : ℕ → Bytes → ℕ
find_byte c [] = 0
find_byte c (b ∷ data_) = let later = find_byte c data_ in if b == c then 0 else suc later

-- The index of the fourth semicolon, from index `i` on, where `count` of them were seen. The last byte
-- of the buffer is not looked at.
unfoldable pub fourth_semicolon : ℕ → ℕ → Bytes → Option ℕ
fourth_semicolon count i [] = none
fourth_semicolon count i (a ∷ []) = none
fourth_semicolon count i (a ∷ b ∷ data_) =
    let seen = if a == b';' then count + 1 else count in
    let later = fourth_semicolon seen (i + 1) (b ∷ data_) in if seen == 4 then some i else later

-- The index of the first `0x`, from index `i` on
unfoldable pub find_0x : ℕ → Bytes → Option ℕ
find_0x i [] = none
find_0x i (a ∷ []) = none
find_0x i (a ∷ b ∷ data_) =
    let later = find_0x (i + 1) (b ∷ data_) in if (a == b'0') && (b == b'x') then some i else later

-- How many digits there are up to the end of the line, or to a semicolon with `0x` behind it
pub data HexEnd : Type 0 where
  ends_at : ℕ → HexEnd
  no_end past_end : HexEnd

unfoldable pub after_digit : HexEnd → HexEnd
after_digit (ends_at n) = ends_at (suc n)
after_digit no_end = no_end
after_digit past_end = past_end

-- `data[eolp+1] == '0' && data[eolp+2] == 'x'`
unfoldable pub at_semicolon : Bytes → HexEnd → HexEnd
at_semicolon [] later = past_end
at_semicolon (a ∷ []) later = if a == b'0' then past_end else later
at_semicolon (a ∷ b ∷ data_) later = if (a == b'0') && (b == b'x') then ends_at 0 else later

unfoldable pub find_hex_end : Bytes → HexEnd
find_hex_end [] = no_end
find_hex_end (b ∷ data_) =
    let later = after_digit (find_hex_end data_) in
    if b == b'\n' then ends_at 0 else if b == b';' then at_semicolon data_ later else later

unfoldable pub frame_at : ℕ → Option Bytes → HexEnd → RtlChecked
frame_at i rssi (ends_at n) = rtl_full (record {
  hex_frame_length = i + n + 1;
  hex_payload_len = n;
  hex_payload_offset = i;
  rssi = rssi;
})
frame_at i rssi no_end = rtl_partial
frame_at i rssi past_end = rtl_reads_past

-- The search for the telegram, from index `i` on
unfoldable pub check_0x : Bytes → Option Bytes → Option ℕ → RtlChecked
check_0x data_ rssi none = rtl_error
check_0x data_ rssi (some i) = frame_at (i + 2) rssi (find_hex_end (drop (i + 2) data_))

-- The text for the strength stands between the fourth semicolon and the next one. Without a fourth
-- semicolon the index is at the last byte.
unfoldable pub check_rssi : Bytes → Option ℕ → RtlChecked
check_rssi data_ none =
    check_0x data_ none (find_0x (length data_ - 1) (drop (length data_ - 1) data_))
check_rssi data_ (some i) =
    let n = find_byte b';' (drop (i + 1) data_) in
    let rssi = if ltb n 5 then some (take n (drop (i + 1) data_)) else none in
    check_0x data_ rssi (find_0x (i + 1 + n) (drop (i + 1 + n) data_))

abbrev pub starts_with : ℕ → ℕ → Bytes → Bool
starts_with a b data_ = (byte_at data_ 0 == a) && (byte_at data_ 1 == b)

unfoldable pub check_rtlwmbus_frame : Bytes → RtlChecked
check_rtlwmbus_frame data_ =
    let found = check_rssi data_ (fourth_semicolon 0 0 data_) in
    if leb (length data_) (find_byte b'\n' data_)
    then rtl_partial
    else if ltb (length data_) 10
    then rtl_error
    else if starts_with b'0' b'x' data_
    then found
    else if not (starts_with b'T' b'1' data_)
        && not (starts_with b'C' b'1' data_)
        && not (starts_with b'S' b'1' data_)
    then rtl_text
    else if not
        ((byte_at data_ 1 == b'1') && (byte_at data_ 2 == b';') && (byte_at data_ 3 == b'1'))
    then rtl_error
    else found

-- The digits, where a last odd one is dropped; what was decoded of bad digits is kept.
unfoldable pub decode_hex : Bytes → Bytes
decode_hex hex =
    let (ok, payload) = hex2bin_bytes hex [] in
    if ok
    then payload
    else if length hex % 2 == 1
    then (hex2bin_bytes (take (length hex - 1) hex) []).1
    else payload

-- The first byte is set to the length, where it is another one.
unfoldable pub adjust_len : Bytes → Bytes
adjust_len [] = []
adjust_len (l ∷ payload) = if l == length payload then l ∷ payload else set_length (l ∷ payload)

-- The telegrams with the texts for their strengths, and what is left in the buffer; `rtl_stuck` is the
-- end of the fuel.
pub data RtlReceived : Type 0 where
  rtl_received : List (Bytes × Option Bytes) → Bytes → RtlReceived
  rtl_breaks_off rtl_stuck : RtlReceived

unfoldable pub add_rtl_telegram : Bytes × Option Bytes → RtlReceived → RtlReceived
add_rtl_telegram t (rtl_received ts buffer) = rtl_received (t ∷ ts) buffer
add_rtl_telegram t rtl_breaks_off = rtl_breaks_off
add_rtl_telegram t rtl_stuck = rtl_stuck

unfoldable pub rtl_react : Bytes → (Bytes → RtlReceived) → RtlChecked → RtlReceived
rtl_react buffer next rtl_partial = rtl_received [] buffer
rtl_react buffer next rtl_text = rtl_received [] []
rtl_react buffer next rtl_error = rtl_received [] []
rtl_react buffer next rtl_reads_past = rtl_breaks_off
rtl_react buffer next (rtl_full f) =
    let hex = take f.hex_payload_len (drop f.hex_payload_offset buffer) in
    add_rtl_telegram (adjust_len (decode_hex hex), f.rssi) (next (drop f.hex_frame_length buffer))

unfoldable pub rtl_loop : ℕ → Bytes → RtlReceived
rtl_loop zero buffer = rtl_stuck
rtl_loop (suc fuel) buffer = rtl_react buffer (rtl_loop fuel) (check_rtlwmbus_frame buffer)

-- `processSerialData`: each round takes a byte at least.
unfoldable pub process_rtlwmbus_data : Bytes → Bytes → RtlReceived
process_rtlwmbus_data buffer data_ = rtl_loop (length (buffer ++ data_) + 1) (buffer ++ data_)
