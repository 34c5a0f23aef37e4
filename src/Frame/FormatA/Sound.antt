-- ===== src/Frame/FormatA/Sound.antt =====
-- src/wmbus.cc: what `trimCRCsFrameFormatA` accepts, and that it always comes to an end.
use wmbm_16brandnew.Prelude.{
  drop_all, ℕ, zero, suc, ◌+◌, ◌-◌, ◌/◌, ◌%◌, ◌≤◌, ◌<◌, ◌≡◌, ◌≢◌, refl, ap, sym, ◌∙◌, inl, inr,
  Bool, true, false, [], ◌∷◌, ◌++◌, arith, Bytes, IsByte, All, take, drop, length, length-take,
  length-drop, ltb, leb, ◌==◌, if◌then◌else◌, Bool-cases, ==_iff,
}
use mathlib.Core.Path.{subst}
use mathlib.Core.List.{append-nil, append_assoc}
use wmbm_16brandnew.Crc.{crc16_en13757}
use wmbm_16brandnew.Frame.{
  Trim, trimmed, rejected, byte_at, big_endian, set_length, trim_last, trim_blocks,
  trim_crcs_format_a,
}
use wmbm_16brandnew.Frame.FormatA.{sealed, Blocks, done, last, block}

pub byte_at-lt : (v : Bytes) (i : ℕ) → All IsByte v → byte_at v i < 256
byte_at-lt [] i h = omega arith
byte_at-lt (x ∷ v) zero h = h.0
byte_at-lt (x ∷ v) (suc i) h = byte_at-lt v i h.1

All-drop : (n : ℕ) (v : Bytes) → All IsByte v → All IsByte (drop n v)
All-drop zero v h = h
All-drop (suc n) [] h = h
All-drop (suc n) (x ∷ v) h = All-drop n v h.1

split_two :
    (n : ℕ) (v : Bytes)
    → n + 2 ≤ length v
    → v ≡ take n v ++ byte_at v n ∷ byte_at v (n + 1) ∷ drop (n + 2) v
split_two zero [] h = absurd (omega arith)
split_two zero (x ∷ []) h = absurd (omega arith)
split_two zero (x ∷ y ∷ v) h = refl
split_two (suc n) [] h = absurd (omega arith)
split_two (suc n) (x ∷ v) h =
    let i : suc n + 1 ≡ suc (n + 1) = omega arith in
    let j : suc n + 2 ≡ suc (n + 2) = omega arith in
    rw (i, j) (ap (λ t. x ∷ t) (split_two n v (omega arith)))

-- Where the two bytes behind `n` bytes are their checksum, the frame starts with a sealed block.
pub resealed :
    (n : ℕ) (v : Bytes)
    → All IsByte v
    → n + 2 ≤ length v
    → crc16_en13757 (take n v) ≡ big_endian v n
    → v ≡ sealed (take n v) ++ drop (n + 2) v
unfolding sealed big_endian
resealed n v bytes h e =
    let x = byte_at v n in
    let y = byte_at v (n + 1) in
    let small = byte_at-lt v (n + 1) bytes in
    let hi : crc16_en13757 (take n v) / 256 ≡ x = omega arith in
    let lo : crc16_en13757 (take n v) % 256 ≡ y = omega arith in
    rw (hi, lo, append_assoc) (split_two n v h)

pub length-take_le : (n : ℕ) (v : Bytes) → n ≤ length v → length (take n v) ≡ n
length-take_le n v h = omega (arith, length-take n v)

pub trimmed-ne-rejected : {x : Bytes} → trimmed x ≢ rejected
trimmed-ne-rejected e = cc

-- What is accepted behind `out`.
abbrev AcceptsBlocks : Bytes → Bytes → Bytes → Type 0
AcceptsBlocks frame out result =
    (content : Bytes) × Blocks content frame × (result ≡ set_length (out ++ content))

pub Trim_injective : {x y : Bytes} → trimmed x ≡ trimmed y → y ≡ x
Trim_injective e = cc

Blocks-last :
    (frame : Bytes)
    → All IsByte frame
    → 2 < length frame
    → length frame < 18
    → crc16_en13757 (take (length frame - 2) frame) ≡ big_endian frame (length frame - 2)
    → Blocks (take (length frame - 2) frame) frame
Blocks-last frame bytes long short e =
    let n = length frame - 2 in
    let size : length (take n frame) ≡ n = length-take_le n frame (omega arith) in
    let rest : drop (n + 2) frame ≡ [] = drop_all (n + 2) frame (omega arith) in
    let whole : frame ≡ sealed (take n frame) =
      resealed n frame bytes (omega arith) e ∙ rw rest (append-nil (sealed (take n frame))) in
    subst (Blocks (take n frame)) (sym whole) (last (take n frame) (omega arith) (omega arith))

trim_last_sound :
    (frame out result : Bytes)
    → All IsByte frame
    → length frame < 18
    → trim_last frame out ≡ trimmed result
    → AcceptsBlocks frame out result
unfolding trim_last
trim_last_sound frame out result bytes h e = elim (Bool-cases (ltb 2 (length frame))) [
  | inr short ↦
      ([], done frame (ground (arith, short)), rw append-nil (Trim_injective (rw short at e)))
  | inl long ↦
      elim (Bool-cases
        (crc16_en13757 (take (length frame - 2) frame) == big_endian frame (length frame - 2))) [
          | inr bad ↦ absurd (trimmed-ne-rejected (rw (long, bad) at (sym e)))
          | inl good ↦ (
            take (length frame - 2) frame,
            Blocks-last frame bytes (ground (arith, long)) h ((==_iff _ _).0 good),
            Trim_injective (rw (long, good) at e),
          )
        ]
]

trim_blocks_sound :
    (fuel : ℕ) (frame out result : Bytes)
    → All IsByte frame
    → trim_blocks fuel frame out ≡ trimmed result
    → AcceptsBlocks frame out result
unfolding trim_blocks
trim_blocks_sound zero frame out result bytes e = cc
trim_blocks_sound (suc fuel) frame out result bytes e = elim (Bool-cases (leb 18 (length frame))) [
  | inr short ↦ trim_last_sound frame out result bytes (ground (arith, short)) (rw short at e)
  | inl long ↦ elim (Bool-cases (crc16_en13757 (take 16 frame) == big_endian frame 16)) [
    | inr bad ↦ absurd (trimmed-ne-rejected (rw (long, bad) at (sym e)))
    | inl good ↦
        let (content, blocks, eq) =
          trim_blocks_sound fuel (drop 18 frame) (out ++ take 16 frame) result
            (All-drop 18 frame bytes) (rw (long, good) at e) in
        (
          take 16 frame ++ content,
          subst (Blocks (take 16 frame ++ content))
              (sym (resealed 16 frame bytes (ground (arith, long)) ((==_iff _ _).0 good)))
              (block (take 16 frame) (length-take_le 16 frame (ground (arith, long))) blocks),
          rw (← append_assoc out (take 16 frame) content) eq,
        )
  ]
]

-- Whatever `trimCRCsFrameFormatA` accepts is a frame of format A, and the result is its content: a
-- sealed block of ten bytes and the blocks behind it, with the length in the first byte put right.
pub trim_crcs_format_a_sound :
    (payload result : Bytes)
    → All IsByte payload
    → trim_crcs_format_a payload ≡ trimmed result
    → (header : Bytes) × (content : Bytes) × (frame : Bytes) × (payload ≡ sealed header ++ frame)
      × (length header ≡ 10)
      × Blocks content frame
      × (result ≡ set_length (header ++ content))
unfolding trim_crcs_format_a
trim_crcs_format_a_sound payload result bytes e = elim (Bool-cases (ltb (length payload) 12)) [
  | inl short ↦ absurd (trimmed-ne-rejected (rw short at (sym e)))
  | inr long ↦ elim (Bool-cases (crc16_en13757 (take 10 payload) == big_endian payload 10)) [
    | inr bad ↦ absurd (trimmed-ne-rejected (rw (long, bad) at (sym e)))
    | inl good ↦
        let (content, blocks, eq) =
          trim_blocks_sound (length payload) (drop 12 payload) (take 10 payload) result
            (All-drop 12 payload bytes) (rw (long, good) at e) in
        (
          take 10 payload,
          content,
          drop 12 payload,
          resealed 10 payload bytes (ground (arith, long)) ((==_iff _ _).0 good),
          length-take_le 10 payload (ground (arith, long)),
          blocks,
          eq,
        )
  ]
]

-- `trimmed` or `rejected`: the results that the program has.
pub data IsResult : Trim → Type 0 where
  accepts : (v : Bytes) → IsResult (trimmed v)
  rejects : IsResult rejected

pub if-IsResult : (b : Bool) {x y : Trim} → IsResult x → IsResult y → IsResult (if b then x else y)
if-IsResult true x y = x
if-IsResult false x y = y

trim_last-IsResult : (frame out : Bytes) → IsResult (trim_last frame out)
unfolding trim_last
trim_last-IsResult frame out = if-IsResult _ (if-IsResult _ (accepts _) rejects) (accepts _)

trim_blocks-IsResult :
    (fuel : ℕ) (frame out : Bytes) → length frame < fuel → IsResult (trim_blocks fuel frame out)
unfolding trim_blocks
trim_blocks-IsResult zero frame out h = elim h [ ]
trim_blocks-IsResult (suc fuel) frame out h = elim (Bool-cases (leb 18 (length frame))) [
  | inr short ↦ rw short (trim_last-IsResult frame out)
  | inl long ↦ rw long (
      if-IsResult _
        (trim_blocks-IsResult fuel (drop 18 frame) (out ++ take 16 frame)
          (ground (arith, long, length-drop 18 frame)))
        rejects)
]

-- On every payload `trimCRCsFrameFormatA` comes to an end, reads nothing behind the payload, and
-- either accepts or rejects it.
pub trim_crcs_format_a-IsResult : (payload : Bytes) → IsResult (trim_crcs_format_a payload)
unfolding trim_crcs_format_a
trim_crcs_format_a-IsResult payload = elim (Bool-cases (ltb (length payload) 12)) [
  | inl short ↦ rw short rejects
  | inr long ↦ rw long (
      if-IsResult _
        (trim_blocks-IsResult (length payload) (drop 12 payload) (take 10 payload)
          (ground (arith, long, length-drop 12 payload)))
        rejects)
]
