-- ===== src/Frame.antt =====
-- src/wmbus.cc: `trimCRCsFrameFormatA` and `trimCRCsFrameFormatB`, which check and take out the
-- block checksums of a frame, and the frame finders `checkWMBusFrame` and `checkMBusFrame`.
-- `FUZZING` is false, as src/util.h defines it.
pub mod FormatA
pub mod FormatB
pub mod Finder
pub mod MBus
mod Runs
use wmbm_16brandnew.Prelude.{
  ℕ, zero, suc, ◌+◌, ◌-◌, ◌*◌, ◌/◌, ◌%◌, ◌^◌, ◌≤◌, ◌<◌, ◌≡◌, ◌≢◌, refl, ap, sym, ◌∙◌, ◌⊎◌, ◌↔◌, inl,
  inr, Bool, true, false, not, ◌&&◌, ◌||◌, Option, none, some, List, [], ◌∷◌, ◌++◌, map, arith,
  Bytes, IsByte, All, codes, get_or, get_elem?, take, drop, replicate, length, length-append,
  length-take, length-drop, take-append-drop, take-append_length, drop-append_length,
  length-replicate, within, ltb, leb, ◌==◌, if◌then◌else◌, all_below, all_below_sound, agree_below,
  Bool-cases, Option-cases, flag_cases, ==_iff, u8, u16, u32, bit_set,
}
use mathlib.Core.List.{append-nil, append_assoc}
use wmbm_16brandnew.Crc.{crc16_en13757}

-- `rejected` is the result false, with the payload as it was. `fault` is a read past the end of the
-- payload, which C++ leaves undefined. `stuck` is no result of the program: the fuel ran out.
pub data Trim : Type 0 where
  trimmed : Bytes → Trim
  rejected fault stuck : Trim

-- `data[i]`, for an index within the vector
abbrev pub byte_at : Bytes → ℕ → ℕ
byte_at v i = get_or v i 0

-- `payload[i] << 8 | payload[i+1]`
unfoldable pub big_endian : Bytes → ℕ → ℕ
big_endian v i = byte_at v i * 256 + byte_at v (i + 1)

-- `out[0] = out.size()-1`, cut to a byte
unfoldable pub set_length : Bytes → Bytes
set_length [] = []
set_length (x ∷ out) = u8 (length out) ∷ out

-- What follows `pos` in the loop over the blocks of 16 bytes: `pos+18 <= len` says that 18 bytes are
-- left. Behind the loop, `pos < len-2` says that more than two are left.
unfoldable pub trim_last : Bytes → Bytes → Trim
trim_last rest out =
    let blen = length rest - 2 in
    if ltb 2 (length rest)
    then (if crc16_en13757 (take blen rest) == big_endian rest blen
        then trimmed (set_length (out ++ take blen rest))
        else rejected)
    else trimmed (set_length out)

unfoldable pub trim_blocks : ℕ → Bytes → Bytes → Trim
trim_blocks zero rest out = stuck
trim_blocks (suc fuel) rest out =
    let more = trim_blocks fuel (drop 18 rest) (out ++ take 16 rest) in
    if leb 18 (length rest)
    then (if crc16_en13757 (take 16 rest) == big_endian rest 16 then more else rejected)
    else trim_last rest out

unfoldable pub trim_crcs_format_a : Bytes → Trim
trim_crcs_format_a payload =
    if ltb (length payload) 12
    then rejected
    else if crc16_en13757 (take 10 payload) == big_endian payload 10
    then trim_blocks (length payload) (drop 12 payload) (take 10 payload)
    else rejected

-- The bytes from `from` on, `count` of them: `none` where the read would pass the end.
unfoldable pub read_range : Bytes → ℕ → ℕ → Option Bytes
read_range v from count =
    if leb (from + count) (length v) then some (take count (drop from v)) else none

-- The second block, from `crc1_pos + 2` on. The checksum is taken over `crc2_pos` bytes.
unfoldable pub trim_second : Bytes → ℕ → ℕ → Bytes → Trim
trim_second payload crc1_pos crc2_pos out = elim (read_range payload (crc1_pos + 2) crc2_pos) [
  | none ↦ fault
  | some block ↦
      if crc16_en13757 block == big_endian payload crc2_pos
      then trimmed
          (set_length (out ++ take (crc2_pos - (crc1_pos + 2)) (drop (crc1_pos + 2) payload)))
      else rejected
]

unfoldable pub trim_crcs_format_b : Bytes → Trim
trim_crcs_format_b payload =
    let len = length payload in
    let crc1_pos = if leb len 128 then len - 2 else 126 in
    let crc2_pos = if leb len 128 then 0 else len - 2 in
    if ltb len 12
    then rejected
    else if crc16_en13757 (take crc1_pos payload) == big_endian payload crc1_pos
    then (if ltb 0 crc2_pos
        then trim_second payload crc1_pos crc2_pos (take crc1_pos payload)
        else trimmed (set_length (take crc1_pos payload)))
    else rejected

pub data FrameStatus : Type 0 where
  partial_frame full_frame error_in_frame text_and_not_frame : FrameStatus

-- The three numbers that a finder writes; it leaves them as they were where it returns early.
pub record Found : Type 0 where
  pub frame_length : ℕ
  pub payload_len : ℕ
  pub payload_offset : ℕ

-- The search for a byte 0x44 behind a length byte that fits the rest of the buffer, at index `i`
-- with `left` rounds to go; `data[i]+1 == (uchar)remaining` compares with one byte. The result is
-- the payload length and the offset.
unfoldable pub find_sync : ℕ → ℕ → Bytes → Option (ℕ × ℕ)
find_sync zero i data_ = none
find_sync (suc left) i data_ =
    let later = find_sync left (i + 1) data_ in
    if (byte_at data_ (i + 1) == 0x44) && (byte_at data_ i + 1 == u8 (length data_ - i))
    then some (byte_at data_ i, i + 1)
    else later

unfoldable pub finish_found : Bytes → ℕ → ℕ → FrameStatus × Bytes × Found
finish_found data_ payload_len offset =
    let found : Found = record {
      frame_length = payload_len + offset;
      payload_len = payload_len;
      payload_offset = offset;
    } in
    if ltb (length data_) (payload_len + offset)
    then (partial_frame, data_, found)
    else (full_frame, data_, found)

unfoldable pub check_wmbus_frame : Bytes → Found → FrameStatus × Bytes × Found
check_wmbus_frame data_ out =
    if ltb (length data_) 11
    then (partial_frame, data_, out)
    else if byte_at data_ 1 == 0x44
    then finish_found data_ (byte_at data_ 0) 1
    else elim (find_sync (length data_ - 2) 0 data_) [
      | none ↦ (error_in_frame, [], out)
      | some (payload_len, offset) ↦ finish_found data_ payload_len offset
    ]

-- `csc += data[i]` over a block, in a byte
unfoldable pub checksum : ℕ → Bytes → ℕ
checksum csc [] = csc
checksum csc (b ∷ bs) = checksum (u8 (csc + b)) bs

-- The frame is complete: stop byte, then checksum.
unfoldable pub check_mbus_end : Bytes → Found → ℕ → FrameStatus × Bytes × Found
check_mbus_end data_ out frame_length =
    if not (byte_at data_ (frame_length - 1) == 0x16)
    then (error_in_frame, [], record out { frame_length = frame_length })
    else if not
        (byte_at data_ (frame_length - 2) == checksum 0 (take (frame_length - 6) (drop 4 data_)))
    then (error_in_frame, [], record out { frame_length = frame_length })
    else (
      full_frame,
      data_,
      record { frame_length = frame_length; payload_len = frame_length - 6; payload_offset = 4 },
    )

unfoldable pub check_mbus_frame : Bytes → Found → FrameStatus × Bytes × Found
check_mbus_frame data_ out =
    let frame_length = byte_at data_ 1 + 4 + 1 + 1 in
    if ltb 0 (length data_) && (byte_at data_ 0 == 0xe5)
    then (full_frame, data_, record { frame_length = 1; payload_len = 0; payload_offset = 0 })
    else if ltb (length data_) 6
    then (partial_frame, data_, out)
    else if not (byte_at data_ 0 == 0x68) && not (byte_at data_ 3 == 0x68)
    then (error_in_frame, [], out)
    else if not (byte_at data_ 1 == byte_at data_ 2)
    then (error_in_frame, [], out)
    else if ltb (length data_) frame_length
    then (partial_frame, data_, record out { frame_length = frame_length })
    else check_mbus_end data_ out frame_length
