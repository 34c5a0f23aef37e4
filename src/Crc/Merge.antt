-- ===== src/Crc/Merge.antt =====
-- src/util.cc: reading a byte into the register of `crc16_EN13757_per_byte` is adding it to the
-- top half and reading eight zeros.
use Prim.Native.Nat.{bit_xor}
use wmbm_16brandnew.Prelude.{
  ℕ, zero, suc, ◌+◌, ◌*◌, ◌/◌, ◌%◌, ◌<◌, ◌≡◌, refl, ap, sym, ◌∙◌, inl, inr, Bool, true, false, not,
  ◌&&◌, ◌||◌, arith, ltb, ◌==◌, if◌then◌else◌, all_below, all_below_sound, agree_below, Bool-cases,
  ==_iff, u8, u16,
}
use wmbm_16brandnew.Crc.{en13757_round, en13757_rounds, crc16_en13757_per_byte}
use wmbm_16brandnew.Crc.Rounds.{
  IsU16, en13757_round-IsU16, en13757_rounds-IsU16, en13757_rounds_injective,
}

-- The byte moved into the top of the register.
merge : ℕ → ℕ → ℕ
merge crc b = bit_xor (crc / 256) b * 256 + crc % 256

-- Adding the polynomial goes byte by byte.
xor_splits : ℕ → ℕ → Bool
xor_splits hi lo = bit_xor (hi * 256 + lo) 0x3D65 == bit_xor hi 0x3D * 256 + bit_xor lo 0x65

xor_splits_table : all_below 256 (λ hi. all_below 256 (xor_splits hi)) ≡ true
unfolding all_below xor_splits
xor_splits_table = refl

xor_split :
    (hi lo : ℕ)
    → hi < 256
    → lo < 256
    → bit_xor (hi * 256 + lo) 0x3D65 ≡ bit_xor hi 0x3D * 256 + bit_xor lo 0x65
unfolding xor_splits
xor_split hi lo hh hl =
    let row = all_below_sound 256 (λ h. all_below 256 (xor_splits h)) hi xor_splits_table hh in
    (==_iff _ _).0 (all_below_sound 256 (xor_splits hi) lo row hl)

-- The high byte of the register after a round, with `carry` from the low byte.
high_round : ℕ → ℕ → ℕ → ℕ
high_round carry hi b =
    let shifted = u8 (hi * 2 + carry) in
    if (hi / 128 % 2) == (b / 128 % 2) then shifted else bit_xor shifted 0x3D

merges : ℕ → ℕ → ℕ → Bool
merges carry hi b =
    (bit_xor (high_round carry hi b) (u8 (b * 2)) == high_round carry (bit_xor hi b) 0)
    && ltb (bit_xor hi b) 256
    && ((bit_xor hi b / 128 % 2 == 0) && (hi / 128 % 2 == b / 128 % 2)
        || (bit_xor hi b / 128 % 2 == 1) && not (hi / 128 % 2 == b / 128 % 2))

merges_table : ℕ → Bool
merges_table carry = all_below 256 (λ hi. all_below 256 (merges carry hi))

merges_tables : (merges_table 0 ≡ true) × (merges_table 1 ≡ true)
unfolding merges_table all_below merges high_round
merges_tables = (refl, refl)

xor_is_byte : ℕ → ℕ → Bool
xor_is_byte a b = ltb (bit_xor a b) 256 && (bit_xor a (bit_xor a b) == b)

xor_is_byte_table : all_below 256 (λ a. all_below 256 (xor_is_byte a)) ≡ true
unfolding all_below xor_is_byte
xor_is_byte_table = refl

-- On bytes, `^` gives a byte, and is undone by itself.
pub bit_xor_bytes :
    (a b : ℕ) → a < 256 → b < 256 → (bit_xor a b < 256) × (bit_xor a (bit_xor a b) ≡ b)
unfolding xor_is_byte
bit_xor_bytes a b ha hb =
    let row = all_below_sound 256 (λ x. all_below 256 (xor_is_byte x)) a xor_is_byte_table ha in
    let entry = all_below_sound 256 (xor_is_byte a) b row hb in
    (ground (arith, entry), ground (arith, entry))

merges_lem : (carry hi b : ℕ) → carry < 2 → hi < 256 → b < 256 → merges carry hi b ≡ true
unfolding merges_table
merges_lem zero hi b hc hh hb =
    all_below_sound 256 (merges 0 hi) b
      (all_below_sound 256 (λ h. all_below 256 (merges 0 h)) hi merges_tables.0 hh) hb
merges_lem (suc zero) hi b hc hh hb =
    all_below_sound 256 (merges 1 hi) b
      (all_below_sound 256 (λ h. all_below 256 (merges 1 h)) hi merges_tables.1 hh) hb
merges_lem (suc (suc n)) hi b hc hh hb = absurd (omega arith)

low_round : Bool → ℕ → ℕ
low_round equal lo = if equal then u8 (lo * 2) else bit_xor (u8 (lo * 2)) 0x65

-- A round, byte by byte.
round_split :
    (hi lo b : ℕ)
    → hi < 256
    → lo < 256
    → en13757_round (hi * 256 + lo) b
      ≡ high_round (lo / 128) hi b * 256 + low_round ((hi / 128 % 2) == (b / 128 % 2)) lo
unfolding en13757_round high_round low_round
round_split hi lo b hh hl =
    let top : (hi * 256 + lo) / 32768 % 2 ≡ hi / 128 % 2 = omega arith in
    let shifted : u16 ((hi * 256 + lo) * 2) ≡ u8 (hi * 2 + lo / 128) * 256 + u8 (lo * 2) =
      omega arith in
    rw (top, shifted)
      (elim (Bool-cases ((hi / 128 % 2) == (b / 128 % 2))) [
        | inl e ↦ rw e
        | inr e ↦
            rw e (xor_split (u8 (hi * 2 + lo / 128)) (u8 (lo * 2)) (omega arith) (omega arith))
      ])

low_round-lt : (equal : Bool) (lo : ℕ) → low_round equal lo < 256
unfolding low_round
low_round-lt true lo = omega arith
low_round-lt false lo = (bit_xor_bytes (u8 (lo * 2)) 0x65 (omega arith) (omega arith)).0

merge_split : (hi lo b : ℕ) → lo < 256 → merge (hi * 256 + lo) b ≡ bit_xor hi b * 256 + lo
unfolding merge
merge_split hi lo b h =
    let high : (hi * 256 + lo) / 256 ≡ hi = omega arith in
    let low : (hi * 256 + lo) % 256 ≡ lo = omega arith in rw (high, low)

-- Reading a byte is the same as adding it to the top of the register and reading zeros.
merge_round_split :
    (hi lo b : ℕ)
    → hi < 256
    → lo < 256
    → b < 256
    → merge (en13757_round (hi * 256 + lo) b) (u8 (b * 2))
      ≡ en13757_round (merge (hi * 256 + lo) b) 0
unfolding merges
merge_round_split hi lo b hh hl hb =
    let t = merges_lem (lo / 128) hi b (omega arith) hh hb in
    rw
      (
        round_split hi lo b hh hl,
        merge_split (high_round (lo / 128) hi b) (low_round ((hi / 128 % 2) == (b / 128 % 2)) lo)
            (u8 (b * 2)) (low_round-lt _ lo),
        merge_split hi lo b hl,
        round_split (bit_xor hi b) lo 0 (bit_xor_bytes hi b hh hb).0 hl,
      )
      (ground (arith, t))

merge_round :
    (crc b : ℕ)
    → IsU16 crc
    → b < 256
    → merge (en13757_round crc b) (u8 (b * 2)) ≡ en13757_round (merge crc b) 0
merge_round crc b hc hb =
    let whole : crc / 256 * 256 + crc % 256 ≡ crc = omega arith in
    rw whole at (merge_round_split (crc / 256) (crc % 256) b (omega arith) (omega arith) hb)

merge-IsU16 : (crc b : ℕ) → IsU16 crc → b < 256 → IsU16 (merge crc b)
unfolding merge
merge-IsU16 crc b hc hb = omega (arith, (bit_xor_bytes (crc / 256) b (omega arith) hb).0)

-- After `i` rounds the bits still to be read are the byte shifted `i` times.
shifted_byte : ℕ → ℕ → ℕ
shifted_byte zero b = b
shifted_byte (suc i) b = shifted_byte i (u8 (b * 2))

merge_rounds :
    (i crc b : ℕ)
    → IsU16 crc
    → b < 256
    → merge (en13757_rounds i crc b) (shifted_byte i b) ≡ en13757_rounds i (merge crc b) 0
unfolding en13757_rounds shifted_byte
merge_rounds zero crc b hc hb = refl
merge_rounds (suc i) crc b hc hb =
    merge_rounds i (en13757_round crc b) (u8 (b * 2)) (en13757_round-IsU16 crc b hc) (omega arith)
    ∙ ap (λ m. en13757_rounds i m 0) (merge_round crc b hc hb)

shifted_out : (b : ℕ) → b < 256 → shifted_byte 8 b ≡ 0
unfolding shifted_byte
shifted_out b h = omega arith

xor_zero : (x : ℕ) → x < 256 → bit_xor x 0 ≡ x
unfolding all_below
xor_zero = agree_below 256 (λ x. bit_xor x 0) (λ x. x) refl

merge_zero : (crc : ℕ) → IsU16 crc → merge crc 0 ≡ crc
unfolding merge
merge_zero crc h = rw (xor_zero (crc / 256) (omega arith)) (omega arith)

merge_injective : (crc b c : ℕ) → IsU16 crc → b < 256 → c < 256 → merge crc b ≡ merge crc c → b ≡ c
unfolding merge
merge_injective crc b c h hb hc e =
    let hi = crc / 256 in
    let same : bit_xor hi b ≡ bit_xor hi c = omega arith in
    sym (bit_xor_bytes hi b (omega arith) hb).1
    ∙ ap (bit_xor hi) same
    ∙ (bit_xor_bytes hi c (omega arith) hc).1

per_byte-merge :
    (crc b : ℕ)
    → IsU16 crc
    → b < 256
    → crc16_en13757_per_byte crc b ≡ en13757_rounds 8 (merge crc b) 0
unfolding crc16_en13757_per_byte
per_byte-merge crc b hc hb =
    sym (merge_zero _ (en13757_rounds-IsU16 8 crc b hc))
    ∙ ap (merge (en13757_rounds 8 crc b)) (sym (shifted_out b hb))
    ∙ merge_rounds 8 crc b hc hb

pub per_byte-IsU16 : (crc b : ℕ) → IsU16 crc → IsU16 (crc16_en13757_per_byte crc b)
unfolding crc16_en13757_per_byte
per_byte-IsU16 crc b h = en13757_rounds-IsU16 8 crc b h

pub per_byte_injective :
    (crc b c : ℕ)
    → IsU16 crc
    → b < 256
    → c < 256
    → crc16_en13757_per_byte crc b ≡ crc16_en13757_per_byte crc c
    → b ≡ c
per_byte_injective crc b c h hb hc e = merge_injective crc b c h hb hc (
    en13757_rounds_injective 8 (merge crc b) (merge crc c) 0 (merge-IsU16 crc b h hb)
      (merge-IsU16 crc c h hc) (sym (per_byte-merge crc b h hb) ∙ e ∙ per_byte-merge crc c h hc))
