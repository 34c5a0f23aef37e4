-- ===== src/Diehl/Register.antt =====
-- src/manufacturer_specificities.cc: what is encrypted with the shift register is decoded again.
use Prim.Native.Nat.{bit_xor, bit_and}
use wmbm_16brandnew.Prelude.{
  ℕ, zero, suc, ◌+◌, ◌*◌, ◌^◌, ◌%◌, ◌≤◌, ◌<◌, ◌≡◌, refl, ap, sym, ◌∙◌, Bool, true, false, ◌&&◌,
  some, List, [], ◌∷◌, ◌++◌, Bytes, IsByte, All, get_or, take, drop, length, length-append,
  length-drop, drop-append_exact, take-append_within, ltb, leb, ◌==◌, ==_iff, arith, all_below,
  all_below_sound,
}
use wmbm_16brandnew.Cipher.Words.{big_number}
use wmbm_16brandnew.Diehl.{
  shifts, decode_loop, CheckMethod, checksum_and_0xef, header_1_byte, sum_bytes, passes,
  uint32_from_bytes, xor_options, seed, decode_diehl_lfsr,
}
use wmbm_16brandnew.Diehl.Bits.{
  number, bits, steps, IsRegister, shifts-steps, low_byte, bits-IsRegister,
}

xor_right : ℕ → ℕ → Bool
xor_right a b = ltb (bit_xor a b) 256 && (bit_xor (bit_xor a b) b == a)

xor_right_table : all_below 256 (λ a. all_below 256 (xor_right a)) ≡ true
unfolding all_below xor_right
xor_right_table = refl

xor_right_lem : (a b : ℕ) → a < 256 → b < 256 → (bit_xor a b < 256) × (bit_xor (bit_xor a b) b ≡ a)
unfolding xor_right
xor_right_lem a b ha hb =
    let row = all_below_sound 256 (λ x. all_below 256 (xor_right x)) a xor_right_table ha in
    let entry = all_below_sound 256 (xor_right a) b row hb in
    (ground (arith, entry), ground (arith, entry))

-- The bytes are encrypted one after the other: the register makes eight steps, and its lowest eight
-- bits are added to the byte.
unfoldable pub encrypt : List ℕ → Bytes → Bytes
encrypt bs [] = []
encrypt bs (b ∷ plain) = let bs' = steps 8 bs in bit_xor b (number (take 8 bs')) ∷ encrypt bs' plain

decode_loop-encrypt :
    (k : ℕ) (bs : List ℕ) (v : Bytes)
    → IsRegister k bs
    → All IsByte v
    → decode_loop k (encrypt bs v) ≡ v
unfolding decode_loop encrypt
decode_loop-encrypt k bs [] r h = refl
decode_loop-encrypt k bs (b ∷ v) r h =
    let next = shifts-steps 8 k bs r in
    let low = low_byte (shifts 8 k) (steps 8 bs) next in
    let byte =
      ap (λ n. bit_xor (bit_xor b n) (shifts 8 k % 256)) (sym low)
      ∙ (xor_right_lem b (shifts 8 k % 256) h.0 (omega arith)).1 in
    rw (byte, decode_loop-encrypt (shifts 8 k) (steps 8 bs) v next h.1) refl

-- The number that four bytes write from an index on, the highest byte first
abbrev pub word_at : Bytes → ℕ → ℕ
word_at v i = big_number (take 4 (drop i v))

get_or-drop : (v : Bytes) (i j : ℕ) → get_or v (i + j) 0 ≡ get_or (drop i v) j 0
get_or-drop v zero j = ap (λ n. get_or v n 0) {x = 0 + j} {y = j} (omega arith)
get_or-drop [] (suc i) j = refl
get_or-drop (x ∷ v) (suc i) j =
    ap (λ n. get_or (x ∷ v) n 0) {x = suc i + j} {y = suc (i + j)} (omega arith) ∙ get_or-drop v i j

four_bytes :
    (w : Bytes)
    → 4 ≤ length w
    → ((get_or w 0 0 * 256 + get_or w 1 0) * 256 + get_or w 2 0) * 256 + get_or w 3 0
      ≡ big_number (take 4 w)
four_bytes [] h = absurd (omega (arith, h))
four_bytes (a ∷ []) h = absurd (omega (arith, h))
four_bytes (a ∷ b ∷ []) h = absurd (omega (arith, h))
four_bytes (a ∷ b ∷ c ∷ []) h = absurd (omega (arith, h))
four_bytes (a ∷ b ∷ c ∷ d ∷ w) h = omega arith

uint32_from_bytes-word_at :
    (v : Bytes) (i : ℕ) → i + 4 ≤ length v → uint32_from_bytes v i ≡ some (word_at v i)
unfolding uint32_from_bytes
uint32_from_bytes-word_at v i h =
    let enough : leb (i + 4) (length v) ≡ true = ground (arith, h) in
    let first : get_or v i 0 ≡ get_or (drop i v) 0 0 =
      ap (λ n. get_or v n 0) {x = i} {y = i + 0} (omega arith) ∙ get_or-drop v i 0 in
    rw (enough, first, get_or-drop v i 1, get_or-drop v i 2, get_or-drop v i 3)
      (ap some (four_bytes (drop i v) (omega (arith, h, length-drop i v))))

-- The seed: the key, with the maker and the address of the frame before its transformation, and the
-- four bytes from the CI field on, added to it.
abbrev pub seed_of : Bytes → Bytes → ℕ → ℕ
seed_of origin header key =
    bit_xor (bit_xor (bit_xor key (word_at origin 2)) (word_at origin 6)) (word_at header 10)

drop-append_within : (n : ℕ) (v w : Bytes) → n ≤ length v → drop n (v ++ w) ≡ drop n v ++ w
drop-append_within zero v w h = refl
drop-append_within (suc n) [] w h = absurd (omega (arith, h))
drop-append_within (suc n) (x ∷ v) w h = drop-append_within n v w (omega (arith, h))

seed-seed_of :
    (origin header content : Bytes) (key : ℕ)
    → 10 ≤ length origin
    → length header ≡ 15
    → seed origin (header ++ content) key ≡ some (seed_of origin header key)
unfolding seed xor_options
seed-seed_of origin header content key long h =
    let front : take 4 (drop 10 (header ++ content)) ≡ take 4 (drop 10 header) =
      ap (take 4) (drop-append_within 10 header content (omega (arith, h)))
      ∙ take-append_within 4 (drop 10 header) content (omega (arith, h, length-drop 10 header)) in
    rw
      (
        uint32_from_bytes-word_at origin 2 (omega (arith, long)),
        uint32_from_bytes-word_at origin 6 (omega (arith, long)),
        uint32_from_bytes-word_at (header ++ content) 10
            (omega (arith, h, length-append header content)),
        front,
      )
      refl

-- What is checked of the content
abbrev pub total : Bytes → ℕ
total [] = 0
total (b ∷ v) = b + total v

pub data IsChecked (check_value : ℕ) : CheckMethod → Bytes → Type 0 where
  nothing : (method : CheckMethod) → IsChecked check_value method []
  first_byte : (v : Bytes) → IsChecked check_value header_1_byte (0x4B ∷ v)
  summed :
      (v : Bytes)
      → bit_and (total v % 2 ^ 32) 0xEF ≡ check_value
      → IsChecked check_value checksum_and_0xef v

sum_bytes-total : (v : Bytes) → sum_bytes v ≡ total v % 2 ^ 32
unfolding sum_bytes
sum_bytes-total [] = refl
sum_bytes-total (b ∷ v) = omega (arith, sum_bytes-total v)

passes-IsChecked :
    (method : CheckMethod) (check_value : ℕ) (v : Bytes)
    → IsChecked check_value method v
    → passes method check_value v ≡ true
unfolding passes
passes-IsChecked header_1_byte check_value _ (nothing _) = refl
passes-IsChecked checksum_and_0xef check_value _ (nothing _) = refl
passes-IsChecked _ check_value _ (first_byte v) = refl
passes-IsChecked _ check_value [] (summed _ e) = refl
passes-IsChecked _ check_value (b ∷ v) (summed _ e) =
    rw (sum_bytes-total (b ∷ v)) ((==_iff _ check_value).1 e)

-- The content of a frame, all of it bytes and behind a header of 15 bytes, is encrypted by a linear
-- feedback shift register of 32 bits with the taps 1, 2, 11 and 31, which starts from the seed of the
-- key, the header and an original frame of 10 bytes at least, and makes eight steps for each byte. Then
-- `decodeDiehlLfsr` gives the plain content, for every key, if the content is what the method of the
-- check asks for.
pub decode_diehl_lfsr_encrypted :
    (origin header plain : Bytes) (key : ℕ) (method : CheckMethod) (check_value : ℕ)
    → 10 ≤ length origin
    → length header ≡ 15
    → All IsByte plain
    → IsChecked check_value method plain
    → decode_diehl_lfsr origin
        (header ++ encrypt (bits 32 (seed_of origin header key)) plain)
        key
        method
        check_value
      ≡ some plain
unfolding decode_diehl_lfsr
decode_diehl_lfsr_encrypted origin header plain key method check_value long h bytes check =
    let k = seed_of origin header key in
    let content = encrypt (bits 32 k) plain in
    let enough : ltb (length (header ++ content)) 15 ≡ false =
      ground (arith, length-append header content, h) in
    rw
      (
        decode_diehl_lfsr,
        seed-seed_of origin header content key long h,
        enough,
        drop-append_exact 15 header content h,
        decode_loop-encrypt k (bits 32 k) plain (bits-IsRegister k) bytes,
        passes-IsChecked method check_value plain check,
      )
      refl
