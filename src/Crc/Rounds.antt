-- ===== src/Crc/Rounds.antt =====
-- src/util.cc: a round of `crc16_EN13757_per_byte` can be undone, and stays in 16 bits.
use Prim.Native.Nat.{bit_xor}
use wmbm_16brandnew.Prelude.{
  ℕ, zero, suc, ◌+◌, ◌-◌, ◌*◌, ◌/◌, ◌%◌, ◌<◌, ◌≡◌, refl, ap, sym, ◌∙◌, Bool, true, ◌&&◌, arith, ltb,
  ◌==◌, if◌then◌else◌, all_below, all_below_sound, u8, u16,
}
use wmbm_16brandnew.Crc.{en13757_round, en13757_rounds}

-- The register before a round, from the register after it and the top bit that was read. The
-- polynomial is odd, so the lowest bit tells whether it was added.
undo : ℕ → ℕ → ℕ
undo bit y = if y % 2 == 0 then y / 2 + bit * 32768 else bit_xor y 0x3D65 / 2 + (1 - bit) * 32768

step_bit : ℕ → ℕ → ℕ
step_bit bit crc =
    if (crc / 32768 % 2) == bit then u16 (crc * 2) else bit_xor (u16 (crc * 2)) 0x3D65

-- Both halves of the table, by the high byte of the register.
undoes : ℕ → ℕ → ℕ → Bool
undoes bit hi lo =
    let crc = hi * 256 + lo in undo bit (step_bit bit crc) == crc && ltb (step_bit bit crc) 65536

undo_table : ℕ → Bool
undo_table bit = all_below 256 (λ hi. all_below 256 (undoes bit hi))

undo_tables : (undo_table 0 ≡ true) × (undo_table 1 ≡ true)
unfolding undo_table all_below undoes undo step_bit
undo_tables = (refl, refl)

abbrev pub IsU16 : ℕ → Type 0
IsU16 x = x < 65536

undo-step_bit_split :
    (bit hi lo : ℕ)
    → bit < 2
    → hi < 256
    → lo < 256
    → (undo bit (step_bit bit (hi * 256 + lo)) ≡ hi * 256 + lo)
      × IsU16 (step_bit bit (hi * 256 + lo))
unfolding undo_table undoes
undo-step_bit_split zero hi lo hb hh hl =
    let row = all_below_sound 256 (λ h. all_below 256 (undoes 0 h)) hi undo_tables.0 hh in
    let entry = all_below_sound 256 (undoes 0 hi) lo row hl in
    (ground (arith, entry), ground (arith, entry))
undo-step_bit_split (suc zero) hi lo hb hh hl =
    let row = all_below_sound 256 (λ h. all_below 256 (undoes 1 h)) hi undo_tables.1 hh in
    let entry = all_below_sound 256 (undoes 1 hi) lo row hl in
    (ground (arith, entry), ground (arith, entry))
undo-step_bit_split (suc (suc n)) hi lo hb hh hl = absurd (omega arith)

undo-step_bit :
    (bit crc : ℕ)
    → bit < 2
    → IsU16 crc
    → (undo bit (step_bit bit crc) ≡ crc) × IsU16 (step_bit bit crc)
undo-step_bit bit crc hb hc =
    let whole : crc / 256 * 256 + crc % 256 ≡ crc = omega arith in
    rw whole at (undo-step_bit_split bit (crc / 256) (crc % 256) hb (omega arith) (omega arith))

en13757_round-step_bit : (crc b : ℕ) → en13757_round crc b ≡ step_bit (b / 128 % 2) crc
unfolding en13757_round step_bit
en13757_round-step_bit crc b = refl

pub en13757_round-IsU16 : (crc b : ℕ) → IsU16 crc → IsU16 (en13757_round crc b)
en13757_round-IsU16 crc b h =
    rw en13757_round-step_bit (undo-step_bit (b / 128 % 2) crc (omega arith) h).1

-- With the same byte read, two registers stay apart.
en13757_round_injective :
    (x y b : ℕ) → IsU16 x → IsU16 y → en13757_round x b ≡ en13757_round y b → x ≡ y
en13757_round_injective x y b hx hy e =
    let bit = b / 128 % 2 in
    sym (undo-step_bit bit x (omega arith) hx).0
    ∙ ap (undo bit) (sym (en13757_round-step_bit x b) ∙ e ∙ en13757_round-step_bit y b)
    ∙ (undo-step_bit bit y (omega arith) hy).0

pub en13757_rounds-IsU16 : (i crc b : ℕ) → IsU16 crc → IsU16 (en13757_rounds i crc b)
unfolding en13757_rounds
en13757_rounds-IsU16 zero crc b h = h
en13757_rounds-IsU16 (suc i) crc b h =
    en13757_rounds-IsU16 i (en13757_round crc b) (u8 (b * 2)) (en13757_round-IsU16 crc b h)

pub en13757_rounds_injective :
    (i x y b : ℕ) → IsU16 x → IsU16 y → en13757_rounds i x b ≡ en13757_rounds i y b → x ≡ y
unfolding en13757_rounds
en13757_rounds_injective zero x y b hx hy e = e
en13757_rounds_injective (suc i) x y b hx hy e = en13757_round_injective x y b hx hy (
    en13757_rounds_injective i (en13757_round x b) (en13757_round y b) (u8 (b * 2))
      (en13757_round-IsU16 x b hx) (en13757_round-IsU16 y b hy) e)
