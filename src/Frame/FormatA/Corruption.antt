-- ===== src/Frame/FormatA/Corruption.antt =====
-- src/wmbus.cc: `trimCRCsFrameFormatA` on a frame in which one byte was changed.
use wmbm_16brandnew.Prelude.{
  ℕ, ◌+◌, ◌*◌, ◌/◌, ◌%◌, ◌<◌, ◌≡◌, ◌≢◌, sym, ◌∙◌, false, [], ◌∷◌, ◌++◌, arith, Bytes, take, length,
  length-append, take-append_length, ltb, ◌==◌,
}
use wmbm_16brandnew.Crc.{crc16_en13757}
use wmbm_16brandnew.Crc.Detection.{crc16_en13757_detects}
use wmbm_16brandnew.Frame.{rejected, big_endian, trim_crcs_format_a}
use wmbm_16brandnew.Frame.FormatA.{big_endian-append}

-- The bytes of a checksum, high byte first.
abbrev pub crc_bytes : Bytes → Bytes
crc_bytes b = crc16_en13757 b / 256 ∷ crc16_en13757 b % 256 ∷ []

trim_bad_header :
    (header rest : Bytes) (x y : ℕ)
    → length header ≡ 10
    → crc16_en13757 header ≢ x * 256 + y
    → trim_crcs_format_a (header ++ x ∷ y ∷ rest) ≡ rejected
unfolding trim_crcs_format_a
trim_bad_header header rest x y h ne =
    let long : ltb (length (header ++ x ∷ y ∷ rest)) 12 ≡ false =
      ground (arith, length-append header (x ∷ y ∷ rest)) in
    let content : take 10 (header ++ x ∷ y ∷ rest) ≡ header =
      rw (← h) (take-append_length header (x ∷ y ∷ rest)) in
    let sum : big_endian (header ++ x ∷ y ∷ rest) 10 ≡ x * 256 + y =
      rw (← h) (big_endian-append header x y rest) in
    let bad : (crc16_en13757 header == x * 256 + y) ≡ false = ground (arith, ne) in
    rw (long, content, sum, bad)

-- A frame of format A in which one byte of the first block arrives changed is rejected.
pub trim_crcs_format_a_changed :
    (before after rest : Bytes) (b c : ℕ)
    → length (before ++ b ∷ after) ≡ 10
    → b < 256
    → c < 256
    → b ≢ c
    → trim_crcs_format_a ((before ++ c ∷ after) ++ (crc_bytes (before ++ b ∷ after) ++ rest))
      ≡ rejected
trim_crcs_format_a_changed before after rest b c h hb hc ne =
    let sent = before ++ b ∷ after in
    let arrived = before ++ c ∷ after in
    let size : length arrived ≡ 10 =
      omega (arith, length-append before (b ∷ after), length-append before (c ∷ after)) in
    let whole : crc16_en13757 sent / 256 * 256 + crc16_en13757 sent % 256 ≡ crc16_en13757 sent =
      omega arith in
    trim_bad_header arrived rest (crc16_en13757 sent / 256) (crc16_en13757 sent % 256) size
      (λ e. ne (sym (crc16_en13757_detects before after c b hc hb (e ∙ whole))))
