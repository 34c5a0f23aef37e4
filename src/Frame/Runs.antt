-- ===== src/Frame/Runs.antt =====
-- Concrete runs, and the theorems at concrete inputs.
use wmbm_16brandnew.Prelude.{
  ◌≤◌, ◌≡◌, ◌⊎◌, inl, refl, [], ◌∷◌, ◌++◌, arith, Bytes, length, drop, replicate,
}
use wmbm_16brandnew.Crc.{
  en13757_round, en13757_rounds, crc16_en13757_per_byte, en13757_loop, crc16_en13757,
}
use wmbm_16brandnew.Frame.{
  trimmed, rejected, fault, set_length, big_endian, trim_last, trim_blocks, trim_crcs_format_a,
  trim_crcs_format_b, full_frame, error_in_frame, Found, find_sync, finish_found, check_wmbus_frame,
  checksum, check_mbus_frame,
}
use wmbm_16brandnew.Frame.FormatA.{sealed, Blocks, last, trim_crcs_format_a-Blocks}
use wmbm_16brandnew.Frame.FormatA.Sound.{trim_crcs_format_a_sound}
use wmbm_16brandnew.Frame.FormatA.Corruption.{crc_bytes, trim_crcs_format_a_changed}
use wmbm_16brandnew.Frame.FormatB.{trim_crcs_format_b_sound, trim_crcs_format_b_long}
use wmbm_16brandnew.Frame.Finder.{IsTelegramAt, check_wmbus_frame_full}
use wmbm_16brandnew.Frame.MBus.{long_frame, check_mbus_frame_accepts, check_mbus_frame_rejects}

-- The header that src/testinternals.cc takes the checksum of.
abbrev header : Bytes
header = 0xee ∷ 0x44 ∷ 0x9a ∷ 0xce ∷ 0x01 ∷ 0x00 ∷ 0x00 ∷ 0x80 ∷ 0x23 ∷ 0x07 ∷ []

abbrev nothing_found : Found
nothing_found = record { frame_length = 0; payload_len = 0; payload_offset = 0 }

-- The header with its checksum, and one stray byte.
abbrev short_frame : Bytes
short_frame = header ++ 0xaa ∷ 0xbc ∷ 5 ∷ []

trim_crcs_format_a_run : trim_crcs_format_a short_frame ≡ trimmed (9 ∷ drop 1 header)
unfolding trim_crcs_format_a trim_blocks trim_last set_length big_endian crc16_en13757 en13757_loop
    crc16_en13757_per_byte en13757_rounds en13757_round
trim_crcs_format_a_run = refl

trim_crcs_format_b_run :
    trim_crcs_format_b (header ++ 0xaa ∷ 0xbc ∷ []) ≡ trimmed (9 ∷ drop 1 header)
unfolding trim_crcs_format_b set_length big_endian crc16_en13757 en13757_loop crc16_en13757_per_byte
    en13757_rounds en13757_round
trim_crcs_format_b_run = refl

trim_crcs_format_a-Blocks_example :
    trim_crcs_format_a (sealed header ++ sealed (1 ∷ 2 ∷ []))
    ≡ trimmed (set_length (header ++ 1 ∷ 2 ∷ []))
trim_crcs_format_a-Blocks_example =
    trim_crcs_format_a-Blocks header refl (last (1 ∷ 2 ∷ []) (omega arith) (omega arith))

trim_crcs_format_a_sound_example :
    (h : Bytes) × (content : Bytes) × (frame : Bytes) × (short_frame ≡ sealed h ++ frame)
    × (length h ≡ 10)
    × Blocks content frame
    × (9 ∷ drop 1 header ≡ set_length (h ++ content))
trim_crcs_format_a_sound_example =
    trim_crcs_format_a_sound short_frame (9 ∷ drop 1 header) (omega arith) trim_crcs_format_a_run

trim_crcs_format_a_changed_example :
    trim_crcs_format_a ((0xef ∷ drop 1 header) ++ (crc_bytes header ++ 5 ∷ [])) ≡ rejected
trim_crcs_format_a_changed_example =
    trim_crcs_format_a_changed [] (drop 1 header) (5 ∷ []) 0xee 0xef refl (omega arith)
      (omega arith) (omega arith)

trim_crcs_format_b_sound_example :
    (b : Bytes) × (header ++ 0xaa ∷ 0xbc ∷ [] ≡ sealed b)
    × (10 ≤ length b)
    × (length b ≤ 126)
    × (9 ∷ drop 1 header ≡ set_length b)
trim_crcs_format_b_sound_example =
    trim_crcs_format_b_sound (header ++ 0xaa ∷ 0xbc ∷ []) (9 ∷ drop 1 header) (omega arith)
      trim_crcs_format_b_run

trim_crcs_format_b_long_example :
    (trim_crcs_format_b (replicate 140 7) ≡ rejected)
    ⊎ (trim_crcs_format_b (replicate 140 7) ≡ fault)
trim_crcs_format_b_long_example = trim_crcs_format_b_long (replicate 140 7) (omega arith)

-- A telegram of 12 bytes behind two bytes of noise.
abbrev noise : Bytes
noise = 1 ∷ 2 ∷ 11 ∷ 0x44 ∷ replicate 10 0

noise_run : (check_wmbus_frame noise nothing_found).0 ≡ full_frame
unfolding check_wmbus_frame find_sync finish_found
noise_run = refl

check_wmbus_frame_full_example :
    ((check_wmbus_frame noise nothing_found).1 ≡ noise)
    × IsTelegramAt noise (check_wmbus_frame noise nothing_found).2
check_wmbus_frame_full_example = check_wmbus_frame_full noise nothing_found noise_run

zeros_run : (check_wmbus_frame (replicate 12 0) nothing_found).0 ≡ error_in_frame
unfolding check_wmbus_frame find_sync finish_found
zeros_run = refl

check_mbus_frame_accepts_example :
    check_mbus_frame
      (long_frame 0x68 0x68 (8 ∷ 1 ∷ 0x72 ∷ []) (checksum 0 (8 ∷ 1 ∷ 0x72 ∷ [])) 0x16 [])
      nothing_found
    ≡ (
      full_frame,
      long_frame 0x68 0x68 (8 ∷ 1 ∷ 0x72 ∷ []) (checksum 0 (8 ∷ 1 ∷ 0x72 ∷ [])) 0x16 [],
      record { frame_length = 9; payload_len = 3; payload_offset = 4 },
    )
check_mbus_frame_accepts_example =
    check_mbus_frame_accepts 0x68 0x68 (8 ∷ 1 ∷ 0x72 ∷ []) [] nothing_found (omega arith, inl refl)

check_mbus_frame_rejects_example :
    check_mbus_frame
      (long_frame 0x68 0x68 (8 ∷ 2 ∷ 0x72 ∷ []) (checksum 0 (8 ∷ 1 ∷ 0x72 ∷ [])) 0x16 [])
      nothing_found
    ≡ (error_in_frame, [], record nothing_found { frame_length = 9 })
check_mbus_frame_rejects_example =
    check_mbus_frame_rejects 0x68 0x68 0x16 (8 ∷ []) (0x72 ∷ []) [] 1 2 nothing_found
      (omega arith, inl refl) (omega arith) (omega arith) (inl (omega arith))
