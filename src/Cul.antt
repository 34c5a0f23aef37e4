-- ===== src/Cul.antt =====
-- src/wmbus_cul.cc: the lines of the CUL receiver, `checkCULFrame`, and the loop of
-- `processSerialData` over the bytes that arrive.
pub mod Telegrams
pub mod Rounds
pub mod Runs
use wmbm_16brandnew.Prelude.{
  ℕ, zero, suc, ◌+◌, ◌-◌, ◌*◌, ◌/◌, ◌%◌, Bool, true, false, not, ◌&&◌, ◌||◌, Option, none, some,
  List, [], ◌∷◌, ◌++◌, Bytes, codes, get_or, take, drop, length, ltb, leb, ◌==◌, if◌then◌else◌,
}
use wmbm_16brandnew.Hex.{hex2bin_bytes, safe_string}
use wmbm_16brandnew.Frame.{
  Trim, trimmed, rejected, fault, stuck, byte_at, trim_crcs_format_a, trim_crcs_format_b,
}

-- A full frame has its length, its payload, and the strength of the signal below 0 dBm. `breaks_down`
-- is a read outside of a vector; `endless` stands for the end of the fuel of the trimming.
pub data Line : Type 0 where
  partial text in_error : Line
  full : ℕ → Bytes → ℕ → Line
  breaks_down endless : Line

unfoldable pub find_eol : Bytes → Option ℕ
find_eol [] = none
find_eol (b ∷ data_) =
    let later = find_eol data_ in
    if b == b'\n' then some 0 else elim later [ none ↦ none | some eolp ↦ some (suc eolp) ]

-- The byte for the strength is signed, and its half is cut towards zero.
unfoldable pub rssi_below : ℕ → ℕ
rssi_below rssi_raw = if ltb rssi_raw 128 then 74 - rssi_raw / 2 else 74 + (256 - rssi_raw) / 2

unfoldable pub of_trim : ℕ → ℕ → Trim → Line
of_trim eolp rssi (trimmed payload) = full eolp payload rssi
of_trim eolp rssi rejected = in_error
of_trim eolp rssi fault = breaks_down
of_trim eolp rssi stuck = endless

-- The telegram itself, where a `Y` in front of it announces the frame format B
unfoldable pub trim_hex : Bool → ℕ → ℕ → Bool × Bytes → Line
trim_hex is_b eolp rssi (false, payload) = in_error
trim_hex is_b eolp rssi (true, payload) =
    of_trim eolp rssi (if is_b then trim_crcs_format_b payload else trim_crcs_format_a payload)

-- What stands between the letters in front and the four digits behind, which end at `end`
unfoldable pub check_payload : Bytes → ℕ → ℕ → ℕ → Line
check_payload data_ eolp end rssi =
    let is_b = byte_at data_ 1 == b'Y' in
    let start = if is_b then 2 else 1 in
    if ltb (end - 4) start
    then breaks_down
    else trim_hex is_b eolp rssi (hex2bin_bytes (take (end - 4 - start) (drop start data_)) [])

-- The bytes LQI and RSSI behind the telegram; bad digits are only warned about.
unfoldable pub check_signal : Bytes → ℕ → ℕ → Bytes → Line
check_signal data_ eolp end [] = breaks_down
check_signal data_ eolp end (lqi ∷ []) = breaks_down
check_signal data_ eolp end (lqi ∷ rssi_raw ∷ _) =
    check_payload data_ eolp end (rssi_below rssi_raw)

unfoldable pub check_line : Bytes → ℕ → ℕ → Line
check_line data_ eolp end =
    if not (byte_at data_ 0 == b'b')
    then text
    else if ltb end 4
    then breaks_down
    else check_signal data_ eolp end (hex2bin_bytes (take 4 (drop (end - 4) data_)) []).1

-- `data[eolp-2]` is read first: the byte in front of the line feed, which may be missing.
unfoldable pub check_cul_frame : Bytes → Line
check_cul_frame data_ = elim (find_eol data_) [
  | none ↦ partial
  | some zero ↦ breaks_down
  | some (suc i) ↦ check_line data_ (i + 2) (if byte_at data_ i == b'\r' then i else i + 1)
]

-- `string::find`, as a test
unfoldable pub starts : Bytes → Bytes → Bool
starts [] data_ = true
starts (a ∷ word) [] = false
starts (a ∷ word) (b ∷ data_) = let rest = starts word data_ in (a == b) && rest

unfoldable pub occurs : Bytes → Bytes → Bool
occurs word [] = starts word []
occurs word (b ∷ data_) = let later = occurs word data_ in starts word (b ∷ data_) || later

-- `none` is the empty string.
unfoldable pub expected_responses : Bytes → Option Bytes
expected_responses data_ =
    let safe = safe_string data_ in
    if occurs (codes "CMODE") safe
    then some (codes "CMODE")
    else if occurs (codes "TMODE") safe
    then some (codes "TMODE")
    else if occurs (codes "SMODE") safe
    then some (codes "SMODE")
    else none

-- The telegrams that are handled, with the strengths of their signals, the response that is
-- announced to the one who waits for it, and what is left in the buffer
pub data Handled : Type 0 where
  handled : List (Bytes × ℕ) → Option Bytes → Bytes → Handled
  breaks_off out_of_fuel : Handled

unfoldable pub add_telegram : Bytes × ℕ → Handled → Handled
add_telegram t (handled ts response buffer) = handled (t ∷ ts) response buffer
add_telegram t breaks_off = breaks_off
add_telegram t out_of_fuel = out_of_fuel

-- `waiting` says that a command was sent; `next` is the loop on the rest of the buffer.
unfoldable pub act_on : Bool → Bytes → (Bytes → Handled) → Line → Handled
act_on waiting buffer next partial = handled [] none buffer
act_on waiting buffer next text =
    handled [] (if waiting then expected_responses buffer else none) []
act_on waiting buffer next in_error = handled [] none []
act_on waiting buffer next (full frame_length payload rssi) =
    add_telegram (payload, rssi) (next (drop frame_length buffer))
act_on waiting buffer next breaks_down = breaks_off
act_on waiting buffer next endless = out_of_fuel

unfoldable pub cul_loop : Bool → ℕ → Bytes → Handled
cul_loop waiting zero buffer = out_of_fuel
cul_loop waiting (suc fuel) buffer =
    act_on waiting buffer (cul_loop waiting fuel) (check_cul_frame buffer)

-- `processSerialData`: each round takes a line.
unfoldable pub process_cul_data : Bool → Bytes → Bytes → Handled
process_cul_data waiting buffer data_ =
    cul_loop waiting (length (buffer ++ data_) + 1) (buffer ++ data_)
