-- ===== src/Amb8465/Runs.antt =====
-- Concrete runs of the amb8465, and the theorems at concrete inputs.
use wmbm_16brandnew.Prelude.{true, [], ◌∷◌, ◌++◌, some, ◌≡◌, refl, arith}
use wmbm_16brandnew.Amb8465.{
  amb_partial, check_amb8465_frame, when_whole, command_response, amb_dbm, amb_message, newer,
  add_amb_message, amb_react, amb_loop, note_error, process_amb8465_data, amb_received,
}
use wmbm_16brandnew.Amb8465.Clearing.{check_amb8465_frame_loses}

-- A command response with the strength of the signal, behind a buffer that waited for too long
command_run :
    process_amb8465_data true 5000000 2000000
      (0x01 ∷ [])
      (0xFF ∷ 0x83 ∷ 0x01 ∷ 0x44 ∷ 0xC8 ∷ 0x00 ∷ 0x0A ∷ [])
    ≡ amb_received
        (record { msgid = 0x83; payload = 0x01 ∷ 0x44 ∷ []; rssi = some 102 } ∷ [])
        (0x0A ∷ [])
        5000000
        true
unfolding process_amb8465_data amb_loop amb_react check_amb8465_frame when_whole command_response
    amb_dbm amb_message newer add_amb_message note_error
command_run = refl

check_amb8465_frame_loses_example :
    check_amb8465_frame true (0x01 ∷ ((0x02 ∷ []) ++ 0x0A ∷ 0x44 ∷ [])) ≡ amb_partial (0x44 ∷ [])
check_amb8465_frame_loses_example =
    check_amb8465_frame_loses true 0x01 0x0A (0x02 ∷ []) (omega arith) (omega arith, tt)
      (omega arith)
