-- ===== src/Cul/Runs.antt =====
-- Concrete runs of the CUL receiver, and the theorems at concrete inputs.
use wmbm_16brandnew.Prelude.{
  true, false, [], ◌∷◌, ◌++◌, Bytes, IsByte, All, codes, some, length, All-append, ◌/◌, ◌%◌, ◌+◌,
  ◌≡◌, ◌≢◌, refl, arith,
}
use wmbm_16brandnew.Crc.{crc16_en13757}
use wmbm_16brandnew.Crc.Detection.{crc16_en13757-lt}
use wmbm_16brandnew.Hex.{hex2bin_bytes, safe_string, char2int}
use wmbm_16brandnew.Frame.{set_length}
use wmbm_16brandnew.Frame.FormatA.{sealed, last}
use wmbm_16brandnew.Cul.{
  full, breaks_down, find_eol, rssi_below, check_line, check_signal, check_cul_frame, handled,
  out_of_fuel, act_on, cul_loop, process_cul_data, expected_responses, starts, occurs,
}
use wmbm_16brandnew.Cul.Telegrams.{printed, crlf, check_cul_frame-Blocks}
use wmbm_16brandnew.Cul.Rounds.{process_cul_data_ends}

-- The answer to a command is announced.
response_run : process_cul_data true [] (codes "CMODE\r\n") ≡ handled [] (some (codes "CMODE")) []
unfolding process_cul_data cul_loop act_on check_cul_frame find_eol check_line expected_responses
    occurs starts safe_string
response_run = refl

-- An empty line is read in front of its first byte.
empty_line_run : check_cul_frame (codes "\n") ≡ breaks_down
unfolding check_cul_frame find_eol
empty_line_run = refl

-- Where the digits for the signal are none, their bytes are read all the same.
bad_signal_run : check_cul_frame (codes "b0011zz00\r\n") ≡ breaks_down
unfolding check_cul_frame find_eol check_line check_signal hex2bin_bytes char2int
bad_signal_run = refl

abbrev header : Bytes
header = 0x0E ∷ 0x44 ∷ 0x93 ∷ 0x15 ∷ 0x78 ∷ 0x56 ∷ 0x34 ∷ 0x12 ∷ 0x01 ∷ 0x07 ∷ []

abbrev content : Bytes
content = 0x78 ∷ 0x2F ∷ []

sealed-IsByte : (v : Bytes) → All IsByte v → All IsByte (sealed v)
unfolding sealed
sealed-IsByte v h =
    let lt = crc16_en13757-lt v in
    All-append IsByte v (crc16_en13757 v / 256 ∷ crc16_en13757 v % 256 ∷ []) h
      (omega (arith, lt), (omega arith, tt))

frame-IsByte : All IsByte (sealed header ++ sealed content)
frame-IsByte =
    All-append IsByte (sealed header) (sealed content)
      (sealed-IsByte header (
        omega arith,
        (
          omega arith,
          (
            omega arith,
            (
              omega arith,
              (
                omega arith,
                (omega arith, (omega arith, (omega arith, (omega arith, (omega arith, tt))))),
              ),
            ),
          ),
        ),
      ))
      (sealed-IsByte content (omega arith, (omega arith, tt)))

check_cul_frame-Blocks_example :
    check_cul_frame (
      printed false (sealed header ++ sealed content) 0x20 0xC8
      ++ ((b'\r' ∷ b'\n' ∷ []) ++ codes "b"))
    ≡ full
        (length (printed false (sealed header ++ sealed content) 0x20 0xC8) + 2)
        (set_length (header ++ content))
        (rssi_below 0xC8)
check_cul_frame-Blocks_example =
    check_cul_frame-Blocks header 0x20 0xC8 (b'\r' ∷ b'\n' ∷ []) (codes "b") refl
      (last content (omega arith) (omega arith)) frame-IsByte (omega arith) (omega arith) crlf

process_cul_data_ends_example :
    process_cul_data false (codes "b001") (codes "\nCMODE\r\n") ≢ out_of_fuel
process_cul_data_ends_example = process_cul_data_ends false (codes "b001") (codes "\nCMODE\r\n")
