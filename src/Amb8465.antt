-- ===== src/Amb8465.antt =====
-- src/wmbus_amb8465.cc: the frames of the amb8465 receiver, `checkAMB8465Frame`, and the loop of
-- `processSerialData` over the bytes that arrive.
pub mod Ending
pub mod Clearing
pub mod Runs
use wmbm_16brandnew.Prelude.{
  ℕ, zero, suc, ◌+◌, ◌-◌, ◌*◌, ◌/◌, ◌%◌, Bool, true, false, not, ◌&&◌, ◌||◌, Option, none, some,
  List, [], ◌∷◌, ◌++◌, Bytes, get_or, take, drop, length, ltb, leb, ◌==◌, if◌then◌else◌, u8,
}
use wmbm_16brandnew.Frame.{byte_at}

-- What the finder writes where a frame is full; `rssi` is the strength of the signal below 0 dBm.
pub record Response : Type 0 where
  pub frame_length : ℕ
  pub msgid : ℕ
  pub payload_len : ℕ
  pub payload_offset : ℕ
  pub rssi : Option ℕ

-- The buffer stands with the results that keep it. The finder never reports an error.
pub data AmbChecked : Type 0 where
  amb_partial : Bytes → AmbChecked
  amb_full : Bytes → Response → AmbChecked
  amb_error : AmbChecked

-- The byte is signed, and its half is cut towards zero.
unfoldable pub amb_dbm : ℕ → ℕ
amb_dbm rssi = if leb 128 rssi then (256 - rssi) / 2 + 74 else 74 - rssi / 2

-- `FF CMD len payload [RSSI] CS`; a checksum that is wrong is only reported.
unfoldable pub command_response : Bool → Bytes → Response
command_response rssi_expected data_ =
    let has_rssi = rssi_expected && (byte_at data_ 1 == 0x83) in
    let frame_length = 4 + byte_at data_ 2 + (if has_rssi then 1 else 0) in
    record {
      frame_length = frame_length;
      msgid = byte_at data_ 1;
      payload_len = byte_at data_ 2;
      payload_offset = 3;
      rssi = if has_rssi then some (amb_dbm (byte_at data_ (frame_length - 2))) else none;
    }

unfoldable pub message_response : Bool → Bytes → ℕ → Response
message_response rssi_expected data_ offset =
    let payload_len = byte_at data_ offset in
    record {
      frame_length = payload_len + offset + 1;
      msgid = 0;
      payload_len = payload_len;
      payload_offset = offset + 1;
      rssi =
          if rssi_expected
          then some (amb_dbm (byte_at data_ (payload_len + offset + 1 - 1)))
          else none;
    }

unfoldable pub when_whole : Bytes → Response → AmbChecked
when_whole data_ r =
    if ltb (length data_) r.frame_length then amb_partial data_ else amb_full data_ r

-- The loop for a length byte of at least 10 with 0x44 behind it, from `offset` on
unfoldable pub find_telegram : ℕ → Bytes → Option ℕ
find_telegram offset [] = none
find_telegram offset (a ∷ []) = none
find_telegram offset (a ∷ b ∷ data_) =
    let later = find_telegram (offset + 1) (b ∷ data_) in
    if leb 10 a && (b == 0x44) then some offset else if leb (length data_) 1 then none else later

unfoldable pub check_telegram : Bool → Bytes → Option ℕ → AmbChecked
check_telegram rssi_expected data_ none = amb_partial (byte_at data_ (length data_ - 1) ∷ [])
check_telegram rssi_expected data_ (some offset) =
    when_whole data_ (message_response rssi_expected data_ offset)

unfoldable pub check_amb8465_frame : Bool → Bytes → AmbChecked
check_amb8465_frame rssi_expected data_ =
    if ltb (length data_) 2
    then amb_partial data_
    else if byte_at data_ 0 == 0xff
    then (if ltb (length data_) 3
        then amb_partial data_
        else when_whole data_ (command_response rssi_expected data_))
    else check_telegram rssi_expected data_ (find_telegram 0 data_)

-- What `handleMessage` gets. The strength is undefined where no frame of the same loop had one.
pub record AmbMessage : Type 0 where
  pub msgid : ℕ
  pub payload : Bytes
  pub rssi : Option ℕ

unfoldable pub amb_message : Bytes → Response → Option ℕ → AmbMessage
amb_message buffer r rssi = record {
  msgid = r.msgid;
  payload =
      if r.payload_len == 0
      then []
      else u8 r.payload_len ∷ take r.payload_len (drop r.payload_offset buffer);
  rssi = rssi;
}

unfoldable pub newer : Option ℕ → Option ℕ → Option ℕ
newer rssi none = rssi
newer rssi (some r) = some r

-- The messages, what is left in the buffer, the time of the chunk, which is 0 where it is cleared,
-- and whether a protocol error was detected. `amb_stuck` is the end of the fuel.
pub data AmbReceived : Type 0 where
  amb_received : List AmbMessage → Bytes → ℕ → Bool → AmbReceived
  amb_stuck : AmbReceived

unfoldable pub add_amb_message : AmbMessage → AmbReceived → AmbReceived
add_amb_message m (amb_received ms buffer last_rx error) =
    amb_received (m ∷ ms) buffer last_rx error
add_amb_message m amb_stuck = amb_stuck

-- `last_rx` is the time of the chunk before, and `now` that of this one.
unfoldable pub amb_react :
    ℕ → ℕ → Option ℕ → (Option ℕ → Bytes → AmbReceived) → AmbChecked → AmbReceived
amb_react now last_rx rssi next (amb_partial buffer) =
    amb_received [] buffer (if ltb 0 (length buffer) then now else 0) false
amb_react now last_rx rssi next amb_error = amb_received [] [] last_rx true
amb_react now last_rx rssi next (amb_full buffer r) =
    add_amb_message (amb_message buffer r (newer rssi r.rssi))
      (next (newer rssi r.rssi) (drop r.frame_length buffer))

unfoldable pub amb_loop : Bool → ℕ → ℕ → ℕ → Option ℕ → Bytes → AmbReceived
amb_loop rssi_expected now last_rx zero rssi buffer = amb_stuck
amb_loop rssi_expected now last_rx (suc fuel) rssi buffer =
    amb_react now last_rx rssi (amb_loop rssi_expected now last_rx fuel)
      (check_amb8465_frame rssi_expected buffer)

unfoldable pub note_error : Bool → AmbReceived → AmbReceived
note_error dropped (amb_received ms buffer last_rx error) =
    amb_received ms buffer last_rx (dropped || error)
note_error dropped amb_stuck = amb_stuck

-- `processSerialData`, with the times in microseconds: what waited for two seconds is dropped.
unfoldable pub process_amb8465_data : Bool → ℕ → ℕ → Bytes → Bytes → AmbReceived
process_amb8465_data rssi_expected now last_rx buffer data_ =
    let dropped = ltb 0 (length buffer) && ltb 0 last_rx && leb 2000000 (now - last_rx) in
    let whole = (if dropped then [] else buffer) ++ data_ in
    note_error dropped (amb_loop rssi_expected now last_rx (length whole + 1) none whole)
