-- ===== src/Telegram/ExtendedLink.antt =====
-- src/wmbus.cc: `parseELL` and `parseNWL`. `ecb` is `AES_ECB_encrypt`.
use wmbm_16brandnew.Prelude.{
  ℕ, ◌+◌, ◌/◌, ◌%◌, Bool, true, false, not, ◌||◌, Option, none, some, Bytes, drop, length, ltb,
  ◌==◌, if◌then◌else◌,
}
use wmbm_16brandnew.Crc.{crc16_en13757}
use wmbm_16brandnew.Cipher.{ctr_iv, decrypt_ell_aes_ctr}
use wmbm_16brandnew.Telegram.Modes.{
  ell, ci_field_length, is_ci_field_of_type, EllSecurityMode, ell_no_security, ell_aes_ctr,
  ell_reserved, to_ell_security_mode,
}
use wmbm_16brandnew.Telegram.{
  Telegram, frame, Action, pure, stop, ◌>>=◌, ◌>>◌, modify, remaining, peek, take_bytes, take_byte,
  word, long_word, id_text, add_id,
}

-- `remaining < ciFieldLength(ci) + extra`, of signed integers
unfoldable pub too_short : ℕ → ℕ → ℕ → Bool
too_short n ci extra = elim (ci_field_length ci) [ none ↦ false | some len ↦ ltb n (len + extra) ]

-- The part for `has_target_mft_address`
unfoldable pub parse_ell_target : Action (Unit {0})
parse_ell_target = do
  mfct_b ← take_bytes 2
  modify (λ t. record t {
    ell = record t.ell { mfct_b = mfct_b; mfct = word mfct_b; id_found = true };
  })
  id_b ← take_bytes 4
  modify (λ t. add_id (id_text id_b) (record t { ell = record t.ell { id_b = id_b } }))
  version ← take_byte
  type_ ← take_byte
  modify (λ t. record t { ell = record t.ell { version = version; type_ = type_ } })

unfoldable pub set_session_number : Bytes → Telegram → Telegram
set_session_number sn_b t =
    let sn = long_word sn_b in
    record t {
      ell = record t.ell {
        sn_b = sn_b;
        sn = sn;
        sn_session = sn % 16;
        sn_time = sn / 16 % 0x2000000;
        sn_sec = sn / 0x20000000 % 8;
        sec_mode = to_ell_security_mode (sn / 0x20000000 % 8);
      };
    }

-- The frame behind the position is decrypted, if the mode says so and there are keys.
unfoldable pub decrypt_ell_in :
    (Bytes → Bytes → Bytes) → EllSecurityMode → Option Bytes → Telegram → Telegram
decrypt_ell_in ecb ell_aes_ctr (some key) t =
    let iv = ctr_iv t.dll.mfct_b t.dll.a t.ell.cc t.ell.sn_b in
    let start = length t.before in
    record t { rest = drop start (decrypt_ell_aes_ctr ecb iv (frame t) start key) }
decrypt_ell_in ecb ell_aes_ctr none t = t
decrypt_ell_in ecb ell_no_security keys t = t
decrypt_ell_in ecb ell_reserved keys t = t

unfoldable pub decrypt_ell : (Bytes → Bytes → Bytes) → Telegram → Telegram
decrypt_ell ecb t = decrypt_ell_in ecb t.ell.sec_mode t.meter_keys t

-- The checksum covers what is behind its own two bytes.
unfoldable pub set_payload_crc : Bytes → Telegram → Telegram
set_payload_crc crc_b t = record t {
  ell = record t.ell { pl_crc_b = crc_b; pl_crc = word crc_b };
  decryption_failed = t.decryption_failed || not (word crc_b == crc16_en13757 t.rest);
}

-- The part for `has_session_number_pl_crc`
unfoldable pub parse_ell_session : (Bytes → Bytes → Bytes) → Action (Unit {0})
parse_ell_session ecb = do
  sn_b ← take_bytes 4
  modify (set_session_number sn_b)
  modify (decrypt_ell ecb)
  crc_b ← take_bytes 2
  modify (set_payload_crc crc_b)

-- The switch over `ell_ci`
unfoldable pub parse_ell_fields : (Bytes → Bytes → Bytes) → ℕ → Action (Unit {0})
parse_ell_fields ecb ci =
    if ci == 0x8D
    then parse_ell_session ecb
    else if ci == 0x8E
    then parse_ell_target
    else if ci == 0x8F
    then parse_ell_target >> parse_ell_session ecb
    else if ci == 0x86
    then stop
    else pure tt

-- The part behind the test of the CI field; `short` is the test of the length.
unfoldable pub parse_ell_header : (Bytes → Bytes → Bytes) → ℕ → Bool → Action (Unit {0})
parse_ell_header ecb ci short = do
  _ ← take_byte
  modify (λ t. record t { ell = record t.ell { ci = ci } })
  if short then stop else do
    cc ← take_byte
    modify (λ t. record t { ell = record t.ell { cc = cc } })
    acc ← take_byte
    modify (λ t. record t { ell = record t.ell { acc = acc } })
    parse_ell_fields ecb ci

unfoldable pub parse_ell : (Bytes → Bytes → Bytes) → Action (Unit {0})
parse_ell ecb = do
  n ← remaining
  if n == 0 then stop else do
    ci ← peek
    if is_ci_field_of_type ci ell then parse_ell_header ecb ci (too_short n ci 1) else pure tt

unfoldable pub parse_nwl : Action (Unit {0})
parse_nwl = pure tt
