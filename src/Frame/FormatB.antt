-- ===== src/Frame/FormatB.antt =====
-- src/wmbus.cc: `trimCRCsFrameFormatB`, on frames of one block and on longer ones.
use wmbm_16brandnew.Prelude.{
  drop_all, ◌+◌, ◌-◌, ◌≤◌, ◌<◌, ◌≡◌, sym, ◌∙◌, ◌⊎◌, inl, inr, true, false, [], arith, Bytes, IsByte,
  All, take, drop, length, length-take, ltb, leb, ◌==◌, Bool-cases, ==_iff,
}
use mathlib.Core.List.{append-nil}
use wmbm_16brandnew.Crc.{crc16_en13757}
use wmbm_16brandnew.Frame.{
  trimmed, rejected, fault, big_endian, set_length, read_range, trim_second, trim_crcs_format_b,
}
use wmbm_16brandnew.Frame.FormatA.{sealed, ==_refl, take-sealed, big_endian-sealed, length-sealed}
use wmbm_16brandnew.Frame.FormatA.Sound.{resealed, trimmed-ne-rejected, Trim_injective}

-- A frame of one block.
pub trim_crcs_format_b-sealed :
    (b : Bytes)
    → 10 ≤ length b
    → length b ≤ 126
    → trim_crcs_format_b (sealed b) ≡ trimmed (set_length b)
unfolding trim_crcs_format_b
trim_crcs_format_b-sealed b lo hi =
    let enough : ltb (length (sealed b)) 12 ≡ false = ground (arith, length-sealed b) in
    let one : leb (length (sealed b)) 128 ≡ true = ground (arith, length-sealed b) in
    let crc1 : length (sealed b) - 2 ≡ length b = omega (arith, length-sealed b) in
    let content : take (length b) (sealed b) ≡ b = rw append-nil at (take-sealed b []) in
    let checksum : big_endian (sealed b) (length b) ≡ crc16_en13757 b =
      rw append-nil at (big_endian-sealed b []) in
    rw (enough, one) (rw crc1 (rw (content, checksum, ==_refl (crc16_en13757 b))))

one_block :
    (payload result : Bytes)
    → All IsByte payload
    → leb (length payload) 128 ≡ true
    → trim_crcs_format_b payload ≡ trimmed result
    → (b : Bytes) × (payload ≡ sealed b)
      × (10 ≤ length b)
      × (length b ≤ 126)
      × (result ≡ set_length b)
unfolding trim_crcs_format_b
one_block payload result bytes one e = elim (Bool-cases (ltb (length payload) 12)) [
  | inl short ↦ absurd (trimmed-ne-rejected (rw short at (sym e)))
  | inr enough ↦
      elim (Bool-cases (
        crc16_en13757 (take (length payload - 2) payload)
        == big_endian payload (length payload - 2))) [
          | inr bad ↦ absurd (trimmed-ne-rejected (rw bad at (rw (enough, one) at (sym e))))
          | inl good ↦
              let long : 12 ≤ length payload = ground (arith, enough) in
              let n : length payload - 2 + 2 ≡ length payload = omega arith in
              let size : length (take (length payload - 2) payload) ≡ length payload - 2 =
                omega (arith, length-take (length payload - 2) payload) in
              let behind : drop (length payload - 2 + 2) payload ≡ [] =
                drop_all (length payload - 2 + 2) payload (omega arith) in
              let whole : payload ≡ sealed (take (length payload - 2) payload) =
                resealed (length payload - 2) payload bytes (omega arith) ((==_iff _ _).0 good)
                ∙ rw behind (append-nil (sealed (take (length payload - 2) payload))) in
              (
                take (length payload - 2) payload,
                whole,
                omega arith,
                ground (arith, size, one),
                Trim_injective (rw good at (rw (enough, one) at e)),
              )
        ]
]

-- The second block is read past the end of the payload.
trim_second-fault :
    (payload out : Bytes)
    → 12 ≤ length payload
    → trim_second payload 126 (length payload - 2) out ≡ fault
unfolding trim_second read_range
trim_second-fault payload out h =
    let outside : leb (126 + 2 + (length payload - 2)) (length payload) ≡ false = ground arith in
    rw (outside, trim_second, read_range)

-- A frame of more than 128 bytes, which has a second block, is never accepted: its first block is
-- rejected, or the checksum of the second one is taken over more bytes than the payload has left.
pub trim_crcs_format_b_long :
    (payload : Bytes)
    → 128 < length payload
    → (trim_crcs_format_b payload ≡ rejected) ⊎ (trim_crcs_format_b payload ≡ fault)
unfolding trim_crcs_format_b
trim_crcs_format_b_long payload h =
    let enough : ltb (length payload) 12 ≡ false = ground arith in
    let two : leb (length payload) 128 ≡ false = ground arith in
    let second : ltb 0 (length payload - 2) ≡ true = ground arith in
    elim (Bool-cases (crc16_en13757 (take 126 payload) == big_endian payload 126)) [
      | inr bad ↦ inl (rw (enough, two) (rw bad))
      | inl good ↦
          inr (rw (enough, two) (rw (good, second) (trim_second-fault payload _ (omega arith))))
    ]

-- What is accepted is a single block of at most 126 bytes with its checksum behind it.
pub trim_crcs_format_b_sound :
    (payload result : Bytes)
    → All IsByte payload
    → trim_crcs_format_b payload ≡ trimmed result
    → (b : Bytes) × (payload ≡ sealed b)
      × (10 ≤ length b)
      × (length b ≤ 126)
      × (result ≡ set_length b)
trim_crcs_format_b_sound payload result bytes e = elim (Bool-cases (leb (length payload) 128)) [
  | inr long ↦ elim (trim_crcs_format_b_long payload (ground (arith, long))) [
    | inl r ↦ absurd (trimmed-ne-rejected (sym e ∙ r))
    | inr f ↦ cc (e, f)
  ]
  | inl one ↦ one_block payload result bytes one e
]
