-- ===== src/Im871a.antt =====
-- src/wmbus_im871a.cc: the frames of the im871a receiver, `checkIM871AFrame`, and the loop of
-- `processSerialData` over the bytes that arrive.
pub mod Ending
pub mod Frames
pub mod Stream
pub mod Runs
use wmbm_16brandnew.Prelude.{
  ℕ, zero, suc, ◌+◌, ◌-◌, ◌*◌, ◌/◌, ◌%◌, Bool, true, false, not, ◌&&◌, ◌||◌, Option, none, some,
  List, [], ◌∷◌, ◌++◌, Bytes, get_or, take, drop, length, ltb, leb, ◌==◌, if◌then◌else◌, bit_set,
}

-- What the finder writes where a frame is full. `rssi` is the byte for the strength of the signal.
pub record Info : Type 0 where
  pub frame_length : ℕ
  pub endpoint : ℕ
  pub msgid : ℕ
  pub payload_len : ℕ
  pub rssi : Option ℕ

-- The buffer stands with the results that keep it: what is before the first byte 0xa5 is dropped.
pub data Checked : Type 0 where
  partial : Bytes → Checked
  full : Bytes → Info → Checked
  in_error : Checked

unfoldable pub find_a5 : Bytes → Bytes
find_a5 [] = []
find_a5 (b ∷ data_) = if b == 0xa5 then b ∷ data_ else find_a5 data_

-- The highest message of an endpoint, if there is such an endpoint
unfoldable pub last_msgid : ℕ → Option ℕ
last_msgid endpoint =
    if endpoint == 1
    then some 0x27
    else if endpoint == 2
    then some 0x05
    else if endpoint == 3
    then some 0x07
    else if endpoint == 4
    then some 0x02
    else none

unfoldable pub is_msgid : ℕ → ℕ → Bool
is_msgid endpoint msgid = elim (last_msgid endpoint) [
  | none ↦ false
  | some final ↦ leb 1 msgid && leb msgid final
]

-- The bytes for the time, for the strength of the signal and for the checksum
unfoldable pub timestamp_len : ℕ → ℕ
timestamp_len ctrlbits = if bit_set ctrlbits 1 then 4 else 0

unfoldable pub rssi_len : ℕ → ℕ
rssi_len ctrlbits = if bit_set ctrlbits 2 then 1 else 0

unfoldable pub crc16_len : ℕ → ℕ
crc16_len ctrlbits = if bit_set ctrlbits 3 then 2 else 0

abbrev pub ctrlbits_of : Bytes → ℕ
ctrlbits_of data_ = get_or data_ 1 0 / 16 % 16

unfoldable pub info_of : Bytes → Info
info_of data_ =
    let ctrlbits = ctrlbits_of data_ in
    let payload_len = get_or data_ 3 0 in
    record {
      frame_length =
          4 + payload_len + timestamp_len ctrlbits + rssi_len ctrlbits + crc16_len ctrlbits;
      endpoint = get_or data_ 1 0 % 16;
      msgid = get_or data_ 2 0;
      payload_len = payload_len;
      rssi =
          if bit_set ctrlbits 2
          then some (get_or data_ (4 + payload_len + timestamp_len ctrlbits) 0)
          else none;
    }

-- The part behind the search for the first byte. A checksum that is wrong is only warned about.
unfoldable pub check_from_a5 : Bytes → Checked
check_from_a5 data_ =
    if ltb (length data_) 4
    then partial data_
    else if bit_set (ctrlbits_of data_) 0
        || not (is_msgid (get_or data_ 1 0 % 16) (get_or data_ 2 0))
    then in_error
    else if ltb (length data_) (info_of data_).frame_length
    then partial data_
    else full data_ (info_of data_)

unfoldable pub check_found : Bytes → Checked
check_found [] = in_error
check_found (b ∷ data_) = check_from_a5 (b ∷ data_)

unfoldable pub check_im871a_frame : Bytes → Checked
check_im871a_frame [] = partial []
check_im871a_frame (b ∷ data_) = check_found (find_a5 (b ∷ data_))

-- What the handlers get
pub record Message : Type 0 where
  pub endpoint : ℕ
  pub msgid : ℕ
  pub payload : Bytes

-- The length is put before the payload of a telegram.
unfoldable pub message_of : Bytes → Info → Message
message_of data_ i =
    let content = take i.payload_len (drop 4 data_) in
    record {
      endpoint = i.endpoint;
      msgid = i.msgid;
      payload =
          if i.payload_len == 0
          then []
          else if (i.endpoint == 2) && (i.msgid == 3)
          then i.payload_len ∷ content
          else content;
    }

-- `toDBM`, as the negated number: the slope of the line is a half, and an int cuts the rest off.
unfoldable pub to_dbm : ℕ → ℕ
to_dbm rssi = if leb 230 rssi then 0 else (245 - rssi) / 2

-- The strength is kept from one frame to the next in the same loop.
unfoldable pub strength : ℕ → Option ℕ → ℕ
strength rssi_dbm none = rssi_dbm
strength rssi_dbm (some rssi) = to_dbm rssi

-- The messages with their strengths, and what is left in the buffer; `stuck` is the end of the fuel.
pub data Received : Type 0 where
  received : List (Message × ℕ) → Bytes → Received
  stuck : Received

unfoldable pub add_message : Message × ℕ → Received → Received
add_message m (received ms buffer) = received (m ∷ ms) buffer
add_message m stuck = stuck

-- What is done with the result of the finder; `next` is the loop on the shorter buffer.
unfoldable pub react : ℕ → (ℕ → Bytes → Received) → Checked → Received
react rssi_dbm next (partial buffer) = received [] buffer
react rssi_dbm next in_error = received [] []
react rssi_dbm next (full buffer i) =
    let dbm = strength rssi_dbm i.rssi in
    add_message (message_of buffer i, dbm) (next dbm (drop i.frame_length buffer))

unfoldable pub receive_loop : ℕ → ℕ → Bytes → Received
receive_loop zero rssi_dbm buffer = stuck
receive_loop (suc fuel) rssi_dbm buffer =
    react rssi_dbm (receive_loop fuel) (check_im871a_frame buffer)

-- `processSerialData`: each round takes four bytes at least.
unfoldable pub process_serial_data : Bytes → Bytes → Received
process_serial_data buffer data_ = receive_loop (length (buffer ++ data_) + 1) 0 (buffer ++ data_)
