-- ===== src/Rtlwmbus/Runs.antt =====
-- Concrete runs on the lines of rtl_wmbus, and the theorems at concrete inputs.
use wmbm_16brandnew.Prelude.{[], ◌∷◌, ◌++◌, codes, some, ◌≡◌, refl, arith}
use wmbm_16brandnew.Hex.{char2int, hex2bin_bytes, hex2bin_pairs, hex2bin_pair}
use wmbm_16brandnew.Frame.{set_length}
use wmbm_16brandnew.Rtlwmbus.{
  rtl_error, find_byte, fourth_semicolon, find_0x, after_digit, at_semicolon, find_hex_end,
  frame_at, check_0x, check_rssi, check_rtlwmbus_frame, decode_hex, adjust_len, rtl_received,
  add_rtl_telegram, rtl_react, rtl_loop, process_rtlwmbus_data,
}
use wmbm_16brandnew.Rtlwmbus.Second.{check_rtlwmbus_frame_loses}

-- A line with two telegrams: the first one is handled, the second one is lost.
two_run :
    process_rtlwmbus_data [] (codes "T1;1;1;2019;117;102;9474;0x0344931;0x02449315\n")
    ≡ rtl_received ((0x02 ∷ 0x44 ∷ 0x93 ∷ [], some (codes "117")) ∷ []) []
unfolding process_rtlwmbus_data rtl_loop rtl_react add_rtl_telegram adjust_len decode_hex set_length
    hex2bin_bytes hex2bin_pairs hex2bin_pair char2int check_rtlwmbus_frame check_rssi check_0x
    frame_at find_hex_end at_semicolon after_digit find_0x fourth_semicolon find_byte
two_run = refl

check_rtlwmbus_frame_loses_example :
    (check_rtlwmbus_frame (b'0' ∷ b'x' ∷ (codes "02449315" ++ b'\n' ∷ [])) ≡ rtl_error)
    × (process_rtlwmbus_data [] (b'0' ∷ b'x' ∷ (codes "02449315" ++ b'\n' ∷ []))
        ≡ rtl_received [] [])
check_rtlwmbus_frame_loses_example =
    check_rtlwmbus_frame_loses (codes "02449315")
      (
        (omega arith, omega arith),
        (
          (omega arith, omega arith),
          (
            (omega arith, omega arith),
            (
              (omega arith, omega arith),
              (
                (omega arith, omega arith),
                (
                  (omega arith, omega arith),
                  ((omega arith, omega arith), ((omega arith, omega arith), tt)),
                ),
              ),
            ),
          ),
        ),
      )
      (omega arith)
