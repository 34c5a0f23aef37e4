-- ===== src/Crc/Runs.antt =====
-- Concrete runs, and the theorems at concrete inputs.
use wmbm_16brandnew.Prelude.{◌≡◌, refl, [], ◌∷◌}
use wmbm_16brandnew.Crc.{
  en13757_round, en13757_rounds, crc16_en13757_per_byte, en13757_loop, crc16_en13757,
}

-- The values that src/testinternals.cc expects.
crc16_en13757_run : crc16_en13757 (0x01 ∷ 0xfd ∷ 0x1f ∷ 0x01 ∷ []) ≡ 0xcc22
unfolding crc16_en13757 en13757_loop crc16_en13757_per_byte en13757_rounds en13757_round
crc16_en13757_run = refl
