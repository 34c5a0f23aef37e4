-- ===== src/Telegram/Decrypted.antt =====
-- src/wmbus.cc: `parseELL` finds the payload that was encrypted under the key of the meter.
use wmbm_16brandnew.Prelude.{
  ℕ, ◌+◌, ◌*◌, ◌/◌, ◌%◌, ◌≤◌, ◌<◌, Bool, false, not, ◌||◌, some, [], ◌∷◌, ◌++◌, Bytes, IsByte, All,
  drop, take, length, ltb, ◌==◌, ◌≡◌, refl, ap, ◌∙◌, arith, inl, inr, Bool-cases,
  take-append_length, drop-append_length,
}
use wmbm_16brandnew.Text.{is_empty}
use wmbm_16brandnew.Crc.{crc16_en13757}
use wmbm_16brandnew.Cipher.{ctr_iv, decrypt_ell_aes_ctr}
use wmbm_16brandnew.Cipher.Ctr.{IsBlockCipher, decrypt_ell_aes_ctr_undone}
use wmbm_16brandnew.Telegram.Modes.{
  is_ci_field_of_type, ci_type_of, same_ci_type, ci_field_length, ell_aes_ctr, to_ell_security_mode,
}
use wmbm_16brandnew.Telegram.{Telegram, ok, Action, ◌>>=◌, modify, take_bytes, long_word}
use wmbm_16brandnew.Telegram.Headers.{passed, byte_then, bind_step}
use wmbm_16brandnew.Telegram.Bounds.{parse_ell_step}
use wmbm_16brandnew.Telegram.ExtendedLink.{
  too_short, parse_ell_session, parse_ell_fields, decrypt_ell, decrypt_ell_in, set_session_number,
  set_payload_crc, parse_ell, parse_ell_header,
}

abbrev taken : ℕ → Telegram → Telegram
taken n t = record t {
  before = t.before ++ take n t.rest;
  rest = drop n t.rest;
  parsed = t.parsed ++ take n t.rest;
}

bytes_then :
    {A : Type 0} (n : ℕ) (f : Bytes → Action A) (t : Telegram)
    → n ≤ length t.rest
    → (take_bytes n >>= f) t ≡ f (take n t.rest) (taken n t)
unfolding take_bytes ◌>>=◌
bytes_then n f t le =
    bind_step (take_bytes n) (λ t'. ok (take n t'.rest) (taken n t')) f t
      (let p : ltb (length t.rest) n ≡ false = ground (arith, le) in rw p refl)

-- What is before the position does not matter.
decrypt_behind :
    (ecb : Bytes → Bytes → Bytes) (iv front behind key : Bytes)
    → drop (length front) (decrypt_ell_aes_ctr ecb iv (front ++ behind) (length front) key)
      ≡ decrypt_ell_aes_ctr ecb iv behind 0 key
unfolding decrypt_ell_aes_ctr
decrypt_behind ecb iv front behind key = elim (Bool-cases (is_empty key)) [
  | inl no_key ↦ rw (no_key, drop-append_length front behind) refl
  | inr with_key ↦
      rw (with_key, take-append_length front behind, drop-append_length front behind)
        (drop-append_length front _)
]

-- The payload behind its checksum
abbrev pub checked : Bytes → Bytes
checked p = let c = crc16_en13757 p in c % 256 ∷ c / 256 ∷ p

session_steps :
    (ecb : Bytes → Bytes → Bytes) (t : Telegram)
    → 4 ≤ length t.rest
    → parse_ell_session ecb t
      ≡ (take_bytes 2 >>= λ crc_b. modify (set_payload_crc crc_b))
          (decrypt_ell ecb (set_session_number (take 4 t.rest) (taken 4 t)))
unfolding parse_ell_session ◌>>=◌
session_steps ecb t le = bytes_then 4 _ t le

-- The telegram with the fields of the session, once the payload is decrypted
decrypted_rest :
    (ecb : Bytes → Bytes → Bytes) (t : Telegram) (sn_b key plain : Bytes)
    → IsBlockCipher ecb
    → All IsByte plain
    → t.meter_keys ≡ some key
    → long_word sn_b / 0x20000000 % 8 ≡ 1
    → let iv = ctr_iv t.dll.mfct_b t.dll.a t.ell.cc sn_b in
      t.rest ≡ decrypt_ell_aes_ctr ecb iv plain 0 key
      → decrypt_ell ecb (set_session_number sn_b t)
        ≡ record (set_session_number sn_b t) { rest = plain }
unfolding decrypt_ell decrypt_ell_in set_session_number to_ell_security_mode
decrypted_rest ecb t sn_b key plain cipher bytes keys mode e =
    let t2 = set_session_number sn_b t in
    let iv = ctr_iv t.dll.mfct_b t.dll.a t.ell.cc sn_b in
    let ctr : t2.ell.sec_mode ≡ ell_aes_ctr = rw mode refl in
    let undone = (decrypt_ell_aes_ctr_undone ecb cipher key iv plain 0 bytes (omega arith)).0 in
    ap (λ m. decrypt_ell_in ecb m t.meter_keys t2) ctr
    ∙ ap (λ k. decrypt_ell_in ecb ell_aes_ctr k t2) keys
    ∙ ap (λ r. record t2 { rest = r })
        (decrypt_behind ecb iv t.before t.rest key
          ∙ ap (λ v. decrypt_ell_aes_ctr ecb iv v 0 key) e
          ∙ undone)

intact : (failed : Bool) (n : ℕ) → (failed || not (n / 256 * 256 + n % 256 == n)) ≡ failed
intact failed n = ground arith

-- The checksum is read and compared.
crc_steps :
    (t : Telegram) (p : Bytes)
    → t.rest ≡ checked p
    → (t' : Telegram) × ((take_bytes 2 >>= λ crc_b. modify (set_payload_crc crc_b)) t ≡ ok tt t')
      × (t'.rest ≡ p)
      × (t'.decryption_failed ≡ t.decryption_failed)
unfolding set_payload_crc
crc_steps t p e = (
  set_payload_crc (take 2 t.rest) (taken 2 t),
  bytes_then 2 (λ crc_b. modify (set_payload_crc crc_b)) t
      (let k = ap length e in omega (arith, k)),
  rw e refl,
  rw e (intact t.decryption_failed (crc16_en13757 p)),
)

header_steps :
    (ecb : Bytes → Bytes → Bytes) (t : Telegram) (control acc : ℕ) (v : Bytes)
    → t.rest ≡ 0x8D ∷ control ∷ acc ∷ v
    → 6 ≤ length v
    → let t1 = passed 0x8D (control ∷ acc ∷ v) t in
      let t2 = record t1 { ell = record t1.ell { ci = 0x8D } } in
      let t3 = passed control (acc ∷ v) t2 in
      let t4 = record t3 { ell = record t3.ell { cc = control } } in
      let t5 = passed acc v t4 in
      parse_ell ecb t ≡ parse_ell_session ecb (record t5 { ell = record t5.ell { acc = acc } })
unfolding parse_ell_header parse_ell_fields too_short ci_field_length is_ci_field_of_type ci_type_of
    same_ci_type ◌>>=◌
header_steps ecb t control acc v e le =
    let long : ltb (length t.rest) 9 ≡ false = let k = ap length e in ground (arith, k, le) in
    parse_ell_step ecb t 0x8D (control ∷ acc ∷ v) e
    ∙ ap (λ b. parse_ell_header ecb 0x8D b t) long
    ∙ byte_then _ t 0x8D (control ∷ acc ∷ v) e
    ∙ byte_then _ _ control (acc ∷ v) refl
    ∙ byte_then _ _ acc v refl

-- A telegram with the extended link layer II whose payload, behind its checksum, was encrypted under
-- the key that the program has for the meter: the parser comes to its end, what is left is the payload
-- as it was before the encryption, and the checksum of the payload is found to be right. This is so
-- for every block cipher with blocks of 16 bytes, every payload and checksum of bytes, whatever was
-- parsed before, if the session number is of mode 1.
pub parse_ell_decrypts :
    (ecb : Bytes → Bytes → Bytes) (t : Telegram) (control acc s0 s1 s2 s3 : ℕ) (key payload : Bytes)
    → IsBlockCipher ecb
    → All IsByte (checked payload)
    → t.meter_keys ≡ some key
    → s3 / 32 % 8 ≡ 1
    → s2 < 256
    → s1 < 256
    → s0 < 256
    → let sn_b = s0 ∷ s1 ∷ s2 ∷ s3 ∷ [] in
      let iv = ctr_iv t.dll.mfct_b t.dll.a control sn_b in
      t.rest
        ≡ 0x8D
          ∷ control
          ∷ acc
          ∷ s0
          ∷ s1
          ∷ s2
          ∷ s3
          ∷ decrypt_ell_aes_ctr ecb iv (checked payload) 0 key
      → (t' : Telegram) × (parse_ell ecb t ≡ ok tt t')
        × (t'.rest ≡ payload)
        × (t'.decryption_failed ≡ t.decryption_failed)
unfolding set_session_number
parse_ell_decrypts ecb t control acc s0 s1 s2 s3 key payload cipher bytes keys mode l2 l1 l0 e =
    let sn_b = s0 ∷ s1 ∷ s2 ∷ s3 ∷ [] in
    let iv = ctr_iv t.dll.mfct_b t.dll.a control sn_b in
    let encrypted = decrypt_ell_aes_ctr ecb iv (checked payload) 0 key in
    let undone =
      decrypt_ell_aes_ctr_undone ecb cipher key iv (checked payload) 0 bytes (omega arith) in
    let v = s0 ∷ s1 ∷ s2 ∷ s3 ∷ encrypted in
    let t1 = passed 0x8D (control ∷ acc ∷ v) t in
    let t2 = record t1 { ell = record t1.ell { ci = 0x8D } } in
    let t3 = passed control (acc ∷ v) t2 in
    let t4 = record t3 { ell = record t3.ell { cc = control } } in
    let t5 = passed acc v t4 in
    let t6 = record t5 { ell = record t5.ell { acc = acc } } in
    let t7 = taken 4 t6 in
    let in_mode : long_word sn_b / 0x20000000 % 8 ≡ 1 = omega (arith, mode, l2, l1, l0) in
    let t8 = record (set_session_number sn_b t7) { rest = checked payload } in
    let (t', ends, left, failed) = crc_steps t8 payload refl in
    (
      t',
      header_steps ecb t control acc v e (let k = undone.2 in omega (arith, k))
          ∙ session_steps ecb t6 (omega arith)
          ∙ ap (take_bytes 2 >>= λ crc_b. modify (set_payload_crc crc_b))
              (decrypted_rest ecb t7 sn_b key (checked payload) cipher bytes keys in_mode refl)
          ∙ ends,
      left,
      failed,
    )
