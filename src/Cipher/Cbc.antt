-- ===== src/Cipher/Cbc.antt =====
-- src/wmbus_utils.cc: what `decrypt_TPL_AES_CBC_IV` and `decrypt_TPL_AES_CBC_NO_IV` do to a frame.
use wmbm_16brandnew.Prelude.{
  ℕ, ◌+◌, ◌-◌, ◌*◌, ◌%◌, ◌≤◌, ◌<◌, ◌≡◌, ◌≢◌, ap, sym, ◌∙◌, inl, inr, false, ◌++◌, Bytes, length,
  Bool-cases, arith, take, drop, length-append, length-take, length-drop, drop_add, ◌==◌, ==_iff,
  ltb, ◌⊎◌, take-append_exact, drop-append_exact,
}
use wmbm_16brandnew.Text.{is_empty}
use wmbm_16brandnew.Cipher.{cbc_len, decrypt_tpl_aes_cbc_iv}

-- The encrypted part: whole blocks, and at most the announced number of them, where a number is
-- announced; it is shorter than that only where less than a block more is left, and where no number
-- is announced it takes all the blocks that are there.
pub record IsEncryptedPart (num_encr_blocks size len : ℕ) : Type 0 where
  pub within_size : len ≤ size
  pub in_blocks : len % 16 ≡ 0
  pub announced : (num_encr_blocks ≡ 0) ⊎ (len ≤ num_encr_blocks * 16)
  pub no_shorter : (size < len + 16) ⊎ ((num_encr_blocks ≢ 0) × (len ≡ num_encr_blocks * 16))

cbc_len-IsEncryptedPart : (num size : ℕ) → IsEncryptedPart num size (cbc_len num size)
unfolding cbc_len
cbc_len-IsEncryptedPart num size = elim (Bool-cases (num == 0)) [
  | inl all ↦
      let e : num ≡ 0 = (==_iff num 0).0 all in
      let fits : ltb size size ≡ false = ground arith in
      rw (all, fits, cbc_len)
        (record {
          within_size = omega arith;
          in_blocks = omega arith;
          announced = inl e;
          no_shorter = inl (omega arith);
        })
  | inr counted ↦ elim (Bool-cases (ltb size (num * 16))) [
    | inl short ↦
        rw (counted, short, cbc_len)
          (record {
            within_size = omega arith;
            in_blocks = omega arith;
            announced = inr (ground (arith, short));
            no_shorter = inl (omega arith);
          })
    | inr enough ↦
        rw (counted, enough, cbc_len)
          (record {
            within_size = ground (arith, enough);
            in_blocks = omega arith;
            announced = inr (omega arith);
            no_shorter = inr (ground (arith, counted), omega arith);
          })
  ]
]

-- What a frame comes to whose bytes behind `pos` are replaced by `plain` and the rest from `len` on.
spliced :
    (frame plain : Bytes) (pos len : ℕ)
    → pos + len ≤ length frame
    → length plain ≡ len
    → let r = take pos frame ++ (plain ++ drop len (drop pos frame)) in
      (length r ≡ length frame)
      × (take pos r ≡ take pos frame)
      × (take len (drop pos r) ≡ plain)
      × (drop (pos + len) r ≡ drop (pos + len) frame)
spliced frame plain pos len h same =
    let front = take pos frame in
    let tail = drop len (drop pos frame) in
    let size : length front ≡ pos = omega (arith, length-take pos frame) in
    let drops : drop pos (front ++ (plain ++ tail)) ≡ plain ++ tail =
      drop-append_exact pos front (plain ++ tail) size in
    (
      omega (
        arith,
        length-append front (plain ++ tail),
        length-append plain tail,
        length-drop len (drop pos frame),
        length-drop pos frame,
      ),
      take-append_exact pos front (plain ++ tail) size,
      ap (take len) drops ∙ take-append_exact len plain tail same,
      drop_add pos len (front ++ (plain ++ tail))
          ∙ ap (drop len) drops
          ∙ drop-append_exact len plain tail same
          ∙ sym (drop_add pos len frame),
    )

-- `decrypt_TPL_AES_CBC_IV`, with a key, decrypts whole blocks behind the header, as many as were
-- announced and are there, and all that are there where no number was announced: these are replaced
-- by their decryption, and everything else in the frame stays where it was, the bytes before and
-- behind. This holds for every decryption that keeps
-- the length, and for a header within the frame.
pub decrypt_tpl_aes_cbc_iv_lem :
    (cbc : Bytes → Bytes → Bytes → Bytes) (num : ℕ) (iv frame : Bytes) (pos : ℕ) (key : Bytes)
    → ((v : Bytes) → length (cbc v key iv) ≡ length v)
    → is_empty key ≡ false
    → pos ≤ length frame
    → (len : ℕ) × IsEncryptedPart num (length frame - pos) len
      × (length (decrypt_tpl_aes_cbc_iv cbc num iv frame pos key) ≡ length frame)
      × (take pos (decrypt_tpl_aes_cbc_iv cbc num iv frame pos key) ≡ take pos frame)
      × (take len (drop pos (decrypt_tpl_aes_cbc_iv cbc num iv frame pos key))
          ≡ cbc (take len (drop pos frame)) key iv)
      × (drop (pos + len) (decrypt_tpl_aes_cbc_iv cbc num iv frame pos key)
          ≡ drop (pos + len) frame)
unfolding decrypt_tpl_aes_cbc_iv
decrypt_tpl_aes_cbc_iv_lem cbc num iv frame pos key length-cbc with_key h =
    let len = cbc_len num (length frame - pos) in
    let part = cbc_len-IsEncryptedPart num (length frame - pos) in
    let plain = cbc (take len (drop pos frame)) key iv in
    let bound : len ≤ length frame - pos = part.within_size in
    let size : length plain ≡ len = omega (
      arith,
      length-cbc (take len (drop pos frame)),
      length-take len (drop pos frame),
      length-drop pos frame,
    ) in
    let (whole, front, middle, tail) = spliced frame plain pos len (omega arith) size in
    rw (with_key, length-drop pos frame) (len, part, whole, front, middle, tail)
