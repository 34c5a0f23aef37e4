-- ===== src/Diehl/Runs.antt =====
-- Concrete runs, and the theorems at concrete inputs.
use wmbm_16brandnew.Prelude.{◌≡◌, refl, some, [], ◌∷◌, ◌++◌, Bytes, replicate, arith}
use wmbm_16brandnew.Diehl.{header_1_byte, decode_loop, shifts, shift_register, decode_diehl_lfsr}
use wmbm_16brandnew.Diehl.Bits.{bits}
use wmbm_16brandnew.Diehl.Register.{encrypt, seed_of, first_byte, decode_diehl_lfsr_encrypted}

abbrev header : Bytes
header = 0x19 ∷ 0x44 ∷ replicate 13 0

abbrev plain : Bytes
plain = 0x4B ∷ 0x10 ∷ 0xFF ∷ []

decode_diehl_lfsr_encrypted_example :
    decode_diehl_lfsr header
      (header ++ encrypt (bits 32 (seed_of header header 0x12345678)) plain)
      0x12345678
      header_1_byte
      0x4B
    ≡ some plain
decode_diehl_lfsr_encrypted_example =
    decode_diehl_lfsr_encrypted header header plain 0x12345678 header_1_byte 0x4B (omega arith) refl
      (omega arith, (omega arith, (omega arith, tt))) (first_byte (0x10 ∷ 0xFF ∷ []))

-- The first byte of the key stream of the seed 1
register_run : decode_loop 1 (0 ∷ []) ≡ 0x72 ∷ []
unfolding decode_loop shifts shift_register
register_run = refl
