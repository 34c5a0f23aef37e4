-- ===== src/Im871a/Runs.antt =====
-- Concrete runs of the receiver, and the theorems at concrete inputs.
use wmbm_16brandnew.Prelude.{List, [], ◌∷◌, ◌++◌, map, Bytes, ◌≡◌, ◌≢◌, refl}
use wmbm_16brandnew.Im871a.{
  check_im871a_frame, message_of, info_of, is_msgid, timestamp_len, rssi_len, crc16_len, last_msgid,
  to_dbm, process_serial_data, received, stuck, add_message, react, receive_loop, check_found,
  check_from_a5, find_a5, strength,
}
use wmbm_16brandnew.Im871a.Frames.{IsFrame, message}
use wmbm_16brandnew.Im871a.Stream.{Receives, process_serial_data-concat}
use wmbm_16brandnew.Im871a.Ending.{process_serial_data_ends}

-- The answer to a ping
abbrev pong : Bytes
pong = 0xA5 ∷ 0x01 ∷ 0x02 ∷ 0x00 ∷ []

-- A telegram of two bytes, with the strength of its signal
abbrev heard : Bytes
heard = 0xA5 ∷ 0x42 ∷ 0x03 ∷ 0x02 ∷ 0x44 ∷ 0x93 ∷ 0xCD ∷ []

pong-IsFrame : IsFrame pong
unfolding is_msgid last_msgid timestamp_len rssi_len crc16_len
pong-IsFrame = record {
  control = 0x01;
  msgid = 0x02;
  len = 0;
  body = [];
  shape = refl;
  unreserved = refl;
  known = refl;
  size = refl;
}

heard-IsFrame : IsFrame heard
unfolding is_msgid last_msgid timestamp_len rssi_len crc16_len
heard-IsFrame = record {
  control = 0x42;
  msgid = 0x03;
  len = 2;
  body = 0x44 ∷ 0x93 ∷ 0xCD ∷ [];
  shape = refl;
  unreserved = refl;
  known = refl;
  size = refl;
}

-- The strength 0xCD stands for -20 dBm.
heard_run :
    process_serial_data [] (heard ++ (0xA5 ∷ []))
    ≡ received
        ((record { endpoint = 2; msgid = 3; payload = 2 ∷ 0x44 ∷ 0x93 ∷ [] }, 20) ∷ [])
        (0xA5 ∷ [])
unfolding process_serial_data receive_loop react add_message check_im871a_frame check_found
    check_from_a5 find_a5 info_of message_of is_msgid last_msgid timestamp_len rssi_len crc16_len
    strength to_dbm
heard_run = refl

-- The chunks cut the frames apart, and one of them is empty.
abbrev chunks : List Bytes
chunks =
    (0xA5 ∷ [])
    ∷ (0x01 ∷ 0x02 ∷ 0x00 ∷ 0xA5 ∷ 0x42 ∷ [])
    ∷ []
    ∷ (0x03 ∷ 0x02 ∷ 0x44 ∷ 0x93 ∷ 0xCD ∷ [])
    ∷ []

process_serial_data-concat_example : Receives [] chunks (map message (pong ∷ heard ∷ [])) []
process_serial_data-concat_example =
    process_serial_data-concat (pong ∷ heard ∷ []) chunks (pong-IsFrame, (heard-IsFrame, tt)) refl

process_serial_data_ends_example : process_serial_data pong heard ≢ stuck
process_serial_data_ends_example = process_serial_data_ends pong heard
