-- ===== src/Crc.antt =====
-- src/util.cc: the two checksums over 16 bits, `crc16_EN13757` and `crc16_CCITT`.
mod Rounds
pub mod Merge
pub mod Detection
mod Runs
use Prim.Native.Nat.{bit_xor}
use wmbm_16brandnew.Prelude.{
  ℕ, zero, suc, ◌+◌, ◌-◌, ◌*◌, ◌/◌, ◌%◌, ◌^◌, ◌≤◌, ◌<◌, ◌≡◌, ◌≢◌, refl, ap, sym, ◌∙◌, ◌⊎◌, ◌↔◌, inl,
  inr, Bool, true, false, not, ◌&&◌, ◌||◌, Option, none, some, List, [], ◌∷◌, ◌++◌, map, arith,
  Bytes, IsByte, All, codes, get_or, get_elem?, take, drop, replicate, length, length-append,
  length-take, length-drop, take-append-drop, take-append_length, drop-append_length,
  length-replicate, within, ltb, leb, ◌==◌, if◌then◌else◌, all_below, all_below_sound, agree_below,
  Bool-cases, Option-cases, flag_cases, ==_iff, u8, u16, u32, bit_set,
}
use mathlib.Core.List.{append-nil, append_assoc}

-- One round of the loop of `crc16_EN13757_per_byte`: the top bits of the register and of the byte
-- decide whether the polynomial is added to the shifted register.
unfoldable pub en13757_round : ℕ → ℕ → ℕ
en13757_round crc b =
    let shifted = u16 (crc * 2) in
    if (crc / 32768 % 2) == (b / 128 % 2) then shifted else bit_xor shifted 0x3D65

-- The `i` rounds that are left; `b <<= 1` is cut to a byte.
unfoldable pub en13757_rounds : ℕ → ℕ → ℕ → ℕ
unfolding en13757_round
en13757_rounds zero crc b = crc
en13757_rounds (suc i) crc b = en13757_rounds i (en13757_round crc b) (u8 (b * 2))

unfoldable pub crc16_en13757_per_byte : ℕ → ℕ → ℕ
unfolding en13757_rounds
crc16_en13757_per_byte crc b = en13757_rounds 8 crc b

unfoldable pub en13757_loop : ℕ → Bytes → ℕ
unfolding crc16_en13757_per_byte
en13757_loop crc [] = crc
en13757_loop crc (b ∷ bs) = en13757_loop (crc16_en13757_per_byte crc b) bs

-- `~crc` on 16 bits.
unfoldable pub crc16_en13757 : Bytes → ℕ
unfolding en13757_loop
crc16_en13757 bs = 65535 - en13757_loop 0 bs

-- One round of `crc16_CCITT`, which shifts to the right.
unfoldable pub ccitt_round : ℕ → ℕ → ℕ
ccitt_round crc b = if (b % 2) == (crc % 2) then crc / 2 else bit_xor (crc / 2) 0x8408

unfoldable pub ccitt_rounds : ℕ → ℕ → ℕ → ℕ
unfolding ccitt_round
ccitt_rounds zero crc b = crc
ccitt_rounds (suc bits) crc b = ccitt_rounds bits (ccitt_round crc b) (b / 2)

unfoldable pub ccitt_loop : ℕ → Bytes → ℕ
unfolding ccitt_rounds
ccitt_loop crc [] = crc
ccitt_loop crc (b ∷ bs) = ccitt_loop (ccitt_rounds 8 crc b) bs

unfoldable pub crc16_ccitt : Bytes → ℕ
unfolding ccitt_loop
crc16_ccitt bs = ccitt_loop 0xFFFF bs

unfoldable pub crc16_ccitt_check : Bytes → Bool
unfolding crc16_ccitt
crc16_ccitt_check bs = (65535 - crc16_ccitt bs) == 0x0F47
