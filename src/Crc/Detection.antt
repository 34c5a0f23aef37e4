-- ===== src/Crc/Detection.antt =====
-- src/util.cc: `crc16_EN13757` stays in 16 bits and tells apart any two blocks that differ in one
-- byte.
use wmbm_16brandnew.Prelude.{ℕ, ◌-◌, ◌<◌, ◌≡◌, ◌≢◌, refl, sym, ◌∙◌, [], ◌∷◌, ◌++◌, arith, Bytes}
use wmbm_16brandnew.Crc.{crc16_en13757_per_byte, en13757_loop, crc16_en13757}
use wmbm_16brandnew.Crc.Rounds.{IsU16, en13757_rounds-IsU16, en13757_rounds_injective}
use wmbm_16brandnew.Crc.Merge.{per_byte-IsU16, per_byte_injective}

en13757_loop-IsU16 : (bs : Bytes) (crc : ℕ) → IsU16 crc → IsU16 (en13757_loop crc bs)
unfolding en13757_loop
en13757_loop-IsU16 [] crc h = h
en13757_loop-IsU16 (b ∷ bs) crc h = en13757_loop-IsU16 bs _ (per_byte-IsU16 crc b h)

en13757_loop_injective :
    (bs : Bytes) (x y : ℕ) → IsU16 x → IsU16 y → en13757_loop x bs ≡ en13757_loop y bs → x ≡ y
unfolding en13757_loop crc16_en13757_per_byte
en13757_loop_injective [] x y hx hy e = e
en13757_loop_injective (b ∷ bs) x y hx hy e = en13757_rounds_injective 8 x y b hx hy (
    en13757_loop_injective bs _ _ (en13757_rounds-IsU16 8 x b hx) (en13757_rounds-IsU16 8 y b hy) e)

en13757_loop-append :
    (xs ys : Bytes) (crc : ℕ) → en13757_loop crc (xs ++ ys) ≡ en13757_loop (en13757_loop crc xs) ys
unfolding en13757_loop
en13757_loop-append [] ys crc = refl
en13757_loop-append (x ∷ xs) ys crc = en13757_loop-append xs ys _

-- The checksum of any bytes is a number of 16 bits.
pub crc16_en13757-lt : (bs : Bytes) → crc16_en13757 bs < 65536
unfolding crc16_en13757
crc16_en13757-lt bs = omega arith

-- The complement is undone.
en13757_loop_eq :
    (xs ys : Bytes) → crc16_en13757 xs ≡ crc16_en13757 ys → en13757_loop 0 xs ≡ en13757_loop 0 ys
en13757_loop_eq xs ys e =
    unfold_complement (en13757_loop 0 xs) (en13757_loop 0 ys)
      (en13757_loop-IsU16 xs 0 (omega arith)) (en13757_loop-IsU16 ys 0 (omega arith))
      (unfold crc16_en13757 in e)
  where
    unfold_complement : (x y : ℕ) → IsU16 x → IsU16 y → 65535 - x ≡ 65535 - y → x ≡ y
    unfold_complement x y hx hy h = omega arith

-- The registers after one changed byte and a common rest are equal only if the byte is.
loop_detects :
    (after : Bytes) (start b c : ℕ)
    → IsU16 start
    → b < 256
    → c < 256
    → en13757_loop start (b ∷ after) ≡ en13757_loop start (c ∷ after)
    → b ≡ c
loop_detects after start b c h hb hc e = per_byte_injective start b c h hb hc (
    en13757_loop_injective after _ _ (per_byte-IsU16 start b h) (per_byte-IsU16 start c h)
      (unfold en13757_loop in e))

-- Where two blocks agree before and after one byte and have the same checksum, that byte is the same.
pub crc16_en13757_detects :
    (before after : Bytes) (b c : ℕ)
    → b < 256
    → c < 256
    → crc16_en13757 (before ++ b ∷ after) ≡ crc16_en13757 (before ++ c ∷ after)
    → b ≡ c
crc16_en13757_detects before after b c hb hc e =
    loop_detects after (en13757_loop 0 before) b c (en13757_loop-IsU16 before 0 (omega arith)) hb hc
      (sym (en13757_loop-append before (b ∷ after) 0)
        ∙ en13757_loop_eq (before ++ b ∷ after) (before ++ c ∷ after) e
        ∙ en13757_loop-append before (c ∷ after) 0)

-- A block in which exactly one byte was changed, wherever it stands, has another checksum.
pub crc16_en13757_changed :
    (before after : Bytes) (b c : ℕ)
    → b < 256
    → c < 256
    → b ≢ c
    → crc16_en13757 (before ++ b ∷ after) ≢ crc16_en13757 (before ++ c ∷ after)
crc16_en13757_changed before after b c hb hc ne e =
    ne (crc16_en13757_detects before after b c hb hc e)
