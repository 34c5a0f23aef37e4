-- ===== src/Cipher/Subkeys.antt =====
-- src/aescmac.cc: `generateSubkeys` against RFC 4493, which doubles a block as a number of 128 bits.
use Prim.Native.Nat.{bit_xor}
use wmbm_16brandnew.Prelude.{
  ℕ, zero, suc, ◌+◌, ◌*◌, ◌/◌, ◌%◌, ◌^◌, ◌<◌, ◌≡◌, refl, ap, sym, ◌∙◌, inl, inr, not, [], ◌∷◌,
  Bytes, IsByte, All, length, if◌then◌else◌, Bool-cases, arith, replicate, get_or, ltb, bit_set,
}
use native.Mathlib.Nat.{pow-suc, mul-add-div_right, div-eq_of_lt}
use wmbm_16brandnew.Cipher.{xorit, shift_left, subkey, generate_subkeys}
use wmbm_16brandnew.Crc.Merge.{bit_xor_bytes}
use wmbm_16brandnew.Cipher.Ctr.{IsBlockCipher}
use wmbm_16brandnew.Cipher.Words.{big_number, big_number-lt, shift_left_doubles, shift_left-IsByte}

-- The bytes of a number, `size` of them, the highest one first
unfoldable pub written : ℕ → ℕ → Bytes
written zero n = []
written (suc size) n = (n / 256 ^ size % 256) ∷ written size n

-- The exclusive or of the bytes at the same index
unfoldable pub zip_with : (ℕ → ℕ → ℕ) → Bytes → Bytes → Bytes
zip_with f (a ∷ v) (b ∷ w) = f a b ∷ zip_with f v w
zip_with f _ _ = []

abbrev pub xor_blocks : Bytes → Bytes → Bytes
xor_blocks v w = zip_with bit_xor v w

-- RFC 4493: a block is shifted to the left by one bit, and where the top bit goes, the constant 0x87
-- is added to it.
abbrev pub doubled : Bytes → Bytes
doubled b =
    let shifted = written 16 (big_number b * 2 % 2 ^ 128) in
    if ltb (big_number b) (2 ^ 127) then shifted else xor_blocks shifted (written 16 0x87)

pub xorit_lem : (v w : Bytes) → xorit v w ≡ xor_blocks v w
unfolding xorit zip_with
xorit_lem [] w = refl
xorit_lem (a ∷ v) [] = refl
xorit_lem (a ∷ v) (b ∷ w) = ap (λ t. bit_xor a b ∷ t) (xorit_lem v w)

-- The bytes of a number that has `c` in front of them
written-big_number :
    (v : Bytes) (c : ℕ) → All IsByte v → written (length v) (big_number v + c * 256 ^ length v) ≡ v
unfolding written
written-big_number [] c h = refl
written-big_number (b ∷ v) c h =
    let p = 256 ^ length v in
    let m = big_number v in
    let m_lt = big_number-lt v h.1 in
    let n : big_number (b ∷ v) + c * 256 ^ suc (length v) ≡ (b + c * 256) * p + m =
      rw pow-suc (omega arith) in
    let high : ((b + c * 256) * p + m) / p ≡ b + c * 256 =
      mul-add-div_right (omega (arith, m_lt)) (b + c * 256) m
      ∙ rw (div-eq_of_lt m_lt) (omega arith) in
    let byte : (b + c * 256) % 256 ≡ b = let lt = h.0 in omega (arith, lt) in
    let rest : written (length v) ((b + c * 256) * p + m) ≡ v =
      ap (written (length v)) {x = (b + c * 256) * p + m} {y = m + (b + c * 256) * p} (omega arith)
      ∙ written-big_number v (b + c * 256) h.1 in
    rw (n, high, byte, rest) refl

shift_left-written :
    (v : Bytes)
    → length v ≡ 16
    → All IsByte v
    → shift_left v ≡ written 16 (big_number v * 2 % 2 ^ 128)
shift_left-written v size h =
    let (same, number) = shift_left_doubles v h in
    let number' : big_number (shift_left v) ≡ big_number v * 2 % 2 ^ 128 =
      number ∙ ap (λ k. big_number v * 2 % 256 ^ k) size in
    sym (written-big_number (shift_left v) 0 (shift_left-IsByte v h))
    ∙ ap (written (length (shift_left v)))
        {x = big_number (shift_left v) + 0 * 256 ^ length (shift_left v)}
        {y = big_number (shift_left v)} (omega arith)
    ∙ ap (λ k. written k (big_number (shift_left v))) (same ∙ size)
    ∙ ap (written 16) number'

top_bit :
    (v : Bytes)
    → length v ≡ 16
    → All IsByte v
    → bit_set (get_or v 0 0) 7 ≡ not (ltb (big_number v) (2 ^ 127))
top_bit [] size h = absurd (omega (arith, size))
top_bit (b ∷ v) size h =
    let e : 256 ^ length v ≡ 256 ^ 15 =
      ap (λ k. 256 ^ k) {x = length v} {y = 15} (omega (arith, size)) in
    let lt : big_number v < 256 ^ 15 = rw e at (big_number-lt v h.1) in
    let byte = h.0 in rw e (ground (arith, lt, byte))

-- Half of `generateSubkeys` doubles a block.
subkey-doubled : (v : Bytes) → length v ≡ 16 → All IsByte v → subkey v ≡ doubled v
unfolding subkey written
subkey-doubled v size h =
    let top = top_bit v size h in
    let shifted = shift_left-written v size h in
    elim (Bool-cases (ltb (big_number v) (2 ^ 127))) [
      | inl small ↦ rw (top, small, shifted) refl
      | inr large ↦ rw (top, large, shifted) (xorit_lem _ (written 16 0x87))
    ]

written-IsByte : (size n : ℕ) → All IsByte (written size n)
unfolding written
written-IsByte zero n = tt
written-IsByte (suc size) n = (omega arith, written-IsByte size n)

zip_with-IsByte : (v w : Bytes) → All IsByte v → All IsByte w → All IsByte (xor_blocks v w)
unfolding zip_with
zip_with-IsByte [] w h k = tt
zip_with-IsByte (a ∷ v) [] h k = tt
zip_with-IsByte (a ∷ v) (b ∷ w) h k = ((bit_xor_bytes a b h.0 k.0).0, zip_with-IsByte v w h.1 k.1)

doubled-IsByte : (v : Bytes) → All IsByte (doubled v)
doubled-IsByte v = elim (Bool-cases (ltb (big_number v) (2 ^ 127))) [
  | inl small ↦ rw small (written-IsByte 16 _)
  | inr large ↦ rw large (zip_with-IsByte _ _ (written-IsByte 16 _) (written-IsByte 16 0x87))
]

length-doubled : (v : Bytes) → length (doubled v) ≡ 16
unfolding written zip_with
length-doubled v = elim (Bool-cases (ltb (big_number v) (2 ^ 127))) [
  | inl small ↦ rw small refl
  | inr large ↦ rw large refl
]

-- The subkeys of RFC 4493: the block of zeroes is encrypted and doubled, once and twice.
abbrev pub key_one : (Bytes → Bytes → Bytes) → Bytes → Bytes
key_one ecb key = doubled (ecb (replicate 16 0) key)

abbrev pub key_two : (Bytes → Bytes → Bytes) → Bytes → Bytes
key_two ecb key = doubled (key_one ecb key)

pub generate_subkeys_lem :
    (ecb : Bytes → Bytes → Bytes) (key : Bytes)
    → IsBlockCipher ecb
    → generate_subkeys ecb key ≡ (key_one ecb key, key_two ecb key)
unfolding generate_subkeys
generate_subkeys_lem ecb key cipher =
    let l = ecb (replicate 16 0) key in
    let one : subkey l ≡ key_one ecb key =
      subkey-doubled l (cipher.size _ key) (cipher.bytes _ key) in
    rw one (
      ap (λ k. (key_one ecb key, k))
        (subkey-doubled (key_one ecb key) (length-doubled l) (doubled-IsByte l)))
