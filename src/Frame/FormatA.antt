-- ===== src/Frame/FormatA.antt =====
-- src/wmbus.cc: `trimCRCsFrameFormatA` against the frame format A of EN 13757-4.
pub mod Sound
pub mod Corruption
use wmbm_16brandnew.Prelude.{
  ℕ, zero, suc, ◌+◌, ◌-◌, ◌*◌, ◌/◌, ◌%◌, ◌^◌, ◌≤◌, ◌<◌, ◌≡◌, ◌≢◌, refl, ap, sym, ◌∙◌, ◌⊎◌, ◌↔◌, inl,
  inr, Bool, true, false, not, ◌&&◌, ◌||◌, Option, none, some, List, [], ◌∷◌, ◌++◌, map, arith,
  Bytes, IsByte, All, codes, get_or, get_elem?, take, drop, replicate, length, length-append,
  length-take, length-drop, take-append-drop, take-append_length, drop-append_length,
  length-replicate, within, ltb, leb, ◌==◌, if◌then◌else◌, all_below, all_below_sound, agree_below,
  Bool-cases, Option-cases, flag_cases, ==_iff, u8, u16, u32, bit_set,
}
use mathlib.Core.List.{append-nil, append_assoc}
use Prim.Native.Nat.{min}
use wmbm_16brandnew.Crc.{crc16_en13757}
use wmbm_16brandnew.Crc.Detection.{crc16_en13757-lt}
use wmbm_16brandnew.Frame.{
  Trim, trimmed, rejected, fault, stuck, byte_at, big_endian, set_length, trim_last, trim_blocks,
  trim_crcs_format_a,
}

-- A block with its checksum behind it, high byte first.
unfoldable pub sealed : Bytes → Bytes
sealed b = b ++ crc16_en13757 b / 256 ∷ crc16_en13757 b % 256 ∷ []

-- The blocks behind the first one, with the content that they carry: full blocks of 16 bytes, and
-- behind these a shorter block, or one or two stray bytes, or nothing.
pub data Blocks : Bytes → Bytes → Type 0 where
  done : (stray : Bytes) → length stray ≤ 2 → Blocks [] stray
  last : (b : Bytes) → 0 < length b → length b < 16 → Blocks b (sealed b)
  block :
      (b : Bytes) {content frame : Bytes}
      → length b ≡ 16
      → Blocks content frame
      → Blocks (b ++ content) (sealed b ++ frame)

pub length-sealed : (b : Bytes) → length (sealed b) ≡ length b + 2
unfolding sealed
length-sealed b =
    omega (arith, length-append b (crc16_en13757 b / 256 ∷ crc16_en13757 b % 256 ∷ []))

pub take-sealed : (b rest : Bytes) → take (length b) (sealed b ++ rest) ≡ b
unfolding sealed
take-sealed b rest = rw append_assoc (take-append_length b _)

drop-sealed : (b rest : Bytes) → drop (length b + 2) (sealed b ++ rest) ≡ rest
drop-sealed b rest = rw (← length-sealed b) (drop-append_length (sealed b) rest)

pub byte_at-append_first :
    (b : Bytes) (x : ℕ) (rest : Bytes) → byte_at (b ++ x ∷ rest) (length b) ≡ x
byte_at-append_first [] x rest = refl
byte_at-append_first (y ∷ b) x rest = byte_at-append_first b x rest

pub byte_at-append_second :
    (b : Bytes) (x y : ℕ) (rest : Bytes) → byte_at (b ++ x ∷ y ∷ rest) (length b + 1) ≡ y
byte_at-append_second [] x y rest = refl
byte_at-append_second (z ∷ b) x y rest =
    ap (byte_at (z ∷ b ++ x ∷ y ∷ rest)) {x = length (z ∷ b) + 1} {y = suc (length b + 1)}
      (omega arith)
    ∙ byte_at-append_second b x y rest

pub big_endian-append :
    (b : Bytes) (x y : ℕ) (rest : Bytes) → big_endian (b ++ x ∷ y ∷ rest) (length b) ≡ x * 256 + y
unfolding big_endian
big_endian-append b x y rest = rw (byte_at-append_first, byte_at-append_second)

pub big_endian-sealed :
    (b rest : Bytes) → big_endian (sealed b ++ rest) (length b) ≡ crc16_en13757 b
unfolding sealed
big_endian-sealed b rest = rw (append_assoc, big_endian-append) (omega arith)

pub length-append_sealed : (b rest : Bytes) → length (sealed b ++ rest) ≡ length b + 2 + length rest
length-append_sealed b rest = omega (arith, length-append (sealed b) rest, length-sealed b)

-- What the program reads of a sealed block whose length is known.
pub record Reads (n m : ℕ) (b rest frame : Bytes) : Type 0 where
  pub content : take n frame ≡ b
  pub behind : drop m frame ≡ rest
  pub checksum : big_endian frame n ≡ crc16_en13757 b
  pub size : length frame ≡ m + length rest

pub sealed-Reads :
    (n m : ℕ) (b rest : Bytes) → length b ≡ n → n + 2 ≡ m → Reads n m b rest (sealed b ++ rest)
sealed-Reads n m b rest h k = record {
  content = rw (← h) (take-sealed b rest);
  behind = rw (← k, ← h) (drop-sealed b rest);
  checksum = rw (← h) (big_endian-sealed b rest);
  size = omega (arith, length-append_sealed b rest);
}

pub ==_refl : (n : ℕ) → (n == n) ≡ true
==_refl n = (==_iff n n).1 refl

-- A frame whose header passes is handed to the loop.
trim_header :
    {header rest payload : Bytes}
    → Reads 10 12 header rest payload
    → trim_crcs_format_a payload ≡ trim_blocks (length payload) rest header
unfolding trim_crcs_format_a
trim_header {header} {rest} {payload} r =
    let long : ltb (length payload) 12 ≡ false = ground (arith, r.size) in
    rw (long, r.content, r.checksum, r.behind, ==_refl (crc16_en13757 header))

trim_block :
    {b rest frame : Bytes} (fuel : ℕ) (out : Bytes)
    → Reads 16 18 b rest frame
    → trim_blocks (suc fuel) frame out ≡ trim_blocks fuel rest (out ++ b)
unfolding trim_blocks
trim_block {b} {rest} {frame} fuel out r =
    let long : leb 18 (length frame) ≡ true = ground (arith, r.size) in
    rw (long, r.content, r.checksum, r.behind, ==_refl (crc16_en13757 b))

trim_end :
    (fuel : ℕ) (rest out : Bytes)
    → length rest < 18
    → trim_blocks (suc fuel) rest out ≡ trim_last rest out
unfolding trim_blocks
trim_end fuel rest out h = let short : leb 18 (length rest) ≡ false = ground arith in rw short

trim_suffix :
    (suffix out : Bytes) → length suffix ≤ 2 → trim_last suffix out ≡ trimmed (set_length out)
unfolding trim_last
trim_suffix suffix out h = let short : ltb 2 (length suffix) ≡ false = ground arith in rw short

trim_final :
    (b out : Bytes) → 0 < length b → trim_last (sealed b) out ≡ trimmed (set_length (out ++ b))
unfolding trim_last
trim_final b out h =
    let blen : length (sealed b) - 2 ≡ length b = omega (arith, length-sealed b) in
    let long : ltb 2 (length (sealed b)) ≡ true = ground (arith, length-sealed b) in
    let content : take (length b) (sealed b) ≡ b = rw append-nil at (take-sealed b []) in
    let checksum : big_endian (sealed b) (length b) ≡ crc16_en13757 b =
      rw append-nil at (big_endian-sealed b []) in
    rw (long, blen, content, checksum, ==_refl (crc16_en13757 b))

trim_blocks-Blocks :
    (out : Bytes) (fuel : ℕ) {content frame : Bytes}
    → Blocks content frame
    → length frame < fuel
    → trim_blocks fuel frame out ≡ trimmed (set_length (out ++ content))
trim_blocks-Blocks out zero b k = elim k [ ]
trim_blocks-Blocks out (suc fuel) (done stray h) k =
    rw append-nil (trim_end fuel stray out (omega arith) ∙ trim_suffix stray out h)
trim_blocks-Blocks out (suc fuel) (last b pos short) k =
    trim_end fuel (sealed b) out (omega (arith, length-sealed b)) ∙ trim_final b out pos
trim_blocks-Blocks out (suc fuel) (block b {content} {frame} e rest) k =
    rw (← append_assoc out b content) (
      trim_block fuel out (sealed-Reads 16 18 b frame e (omega arith))
      ∙ trim_blocks-Blocks (out ++ b) fuel rest (omega (arith, length-append_sealed b frame)))

-- A frame of format A is trimmed to its content: the first block of ten bytes and the content of
-- the blocks behind it, with the length in the first byte put right.
pub trim_crcs_format_a-Blocks :
    (header : Bytes) {content frame : Bytes}
    → length header ≡ 10
    → Blocks content frame
    → trim_crcs_format_a (sealed header ++ frame) ≡ trimmed (set_length (header ++ content))
trim_crcs_format_a-Blocks header {content} {frame} h b =
    trim_header (sealed-Reads 10 12 header frame h (omega arith))
    ∙ trim_blocks-Blocks header _ b (omega (arith, length-append_sealed header frame))
