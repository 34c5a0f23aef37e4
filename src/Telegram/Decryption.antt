-- ===== src/Telegram/Decryption.antt =====
-- src/wmbus.cc: `alreadyDecryptedCBC` and `potentiallyDecrypt`. `ecb` is `AES_ECB_encrypt` and `cbc`
-- is `AES_CBC_decrypt_buffer`.
use wmbm_16brandnew.Prelude.{
  ℕ, Bool, true, false, not, ◌&&◌, ◌||◌, Option, none, some, [], ◌∷◌, Bytes, get_or, drop, take,
  length, ◌==◌, if◌then◌else◌,
}
use wmbm_16brandnew.Text.{is_empty}
use wmbm_16brandnew.Cipher.{cbc_iv, decrypt_tpl_aes_cbc_iv, decrypt_tpl_aes_cbc_no_iv}
use wmbm_16brandnew.Diehl.{
  real_data, detect_interpretation, decrypt_diehl_real_data, add_default_key,
}
use wmbm_16brandnew.Telegram.Modes.{
  TplSecurityMode, aes_cbc_iv, aes_cbc_no_iv, specific_16_31, from_tpl_security_mode,
}
use wmbm_16brandnew.Telegram.Authentication.{check_mac}
use wmbm_16brandnew.Telegram.{
  Telegram, frame, ok, faults, Action, pure, stop, undefined, ◌>>=◌, ◌>>◌, gets, modify, check,
  peek, take_bytes,
}

-- `*(pos+1)`
unfoldable pub peek_second : Action ℕ
peek_second t = elim t.rest [ [] ↦ faults | _ ∷ [] ↦ faults | _ ∷ b ∷ _ ↦ ok b t ]

unfoldable pub already_decrypted_cbc : Action Bool
already_decrypted_cbc = do
  first ← peek
  if not (first == 0x2f) then pure false else do
    second ← peek_second
    if not (second == 0x2f) then pure false else do _ ← take_bytes 2; pure true

-- The two bytes that show that the decryption succeeded
unfoldable pub take_check_bytes : Action (Unit {0})
take_check_bytes = do
  check 2
  b ← gets (λ t. take 2 t.rest)
  if not (get_or b 0 0 == 0x2f) || not (get_or b 1 0 == 0x2f)
      then stop
      else do _ ← take_bytes 2; pure tt

-- The key, which can be the default one of the manufacturer.
unfoldable pub key_for_cbc_iv : Telegram → Bytes → Bytes
key_for_cbc_iv t key = if is_empty key then add_default_key (frame t) true key else key

unfoldable pub decrypt_cbc_iv : (Bytes → Bytes → Bytes → Bytes) → Bytes → Telegram → Telegram
decrypt_cbc_iv cbc key t =
    let iv =
      if t.tpl.id_found
      then cbc_iv t.tpl.mfct_b t.tpl.a t.tpl.acc
      else cbc_iv t.dll.mfct_b t.dll.a t.tpl.acc in
    let start = length t.before in
    record t {
      rest = drop start (decrypt_tpl_aes_cbc_iv cbc t.tpl.num_encr_blocks iv (frame t) start key);
    }

unfoldable pub decrypt_cbc_no_iv : (Bytes → Bytes → Bytes → Bytes) → Telegram → Telegram
decrypt_cbc_no_iv cbc t =
    let start = length t.before in
    record t {
      rest =
          drop start (
            decrypt_tpl_aes_cbc_no_iv cbc t.tpl.num_encr_blocks (frame t) start
              t.tpl.generated_key);
    }

-- Without keys there is nothing to do.
unfoldable pub decrypt_iv_with : (Bytes → Bytes → Bytes → Bytes) → Option Bytes → Action (Unit {0})
decrypt_iv_with cbc none = stop
decrypt_iv_with cbc (some old) = do
  key ← gets (λ t. key_for_cbc_iv t old)
  modify (λ t. record t { meter_keys = some key })
  modify (decrypt_cbc_iv cbc key)
  take_check_bytes

unfoldable pub potentially_decrypt_iv : (Bytes → Bytes → Bytes → Bytes) → Action (Unit {0})
potentially_decrypt_iv cbc = do
  already ← already_decrypted_cbc
  if already then pure tt else do keys ← gets (λ t. t.meter_keys); decrypt_iv_with cbc keys

-- No keys, or none for a telegram that is simulated
unfoldable pub skips_mac : Telegram → Bool
skips_mac t = elim t.meter_keys [ none ↦ true | some key ↦ is_empty key && t.is_simulated ]

unfoldable pub mac_matches : (Bytes → Bytes → Bytes) → Telegram → Bool
mac_matches ecb t =
    check_mac ecb t.afl (drop t.tpl.start (frame t)) t.afl.mac_b t.tpl.generated_mac_key

unfoldable pub potentially_decrypt_no_iv :
    (Bytes → Bytes → Bytes) → (Bytes → Bytes → Bytes → Bytes) → Action (Unit {0})
potentially_decrypt_no_iv ecb cbc = do
  already ← already_decrypted_cbc
  if already then pure tt else do
    skips ← gets skips_mac
    if skips then check 2 >> (take_bytes 2 >>= λ _. pure tt) else do
      mac_ok ← gets (mac_matches ecb)
      if not mac_ok then stop else do modify (decrypt_cbc_no_iv cbc); take_check_bytes

-- `mustDecryptDiehlRealData`
unfoldable pub must_decrypt_diehl_real_data : Bytes → Bool
must_decrypt_diehl_real_data frame = elim (detect_interpretation frame) [
  | real_data ↦ true
  | _ ↦ false
]

-- What is done with the result of `decryptDielhRealData`, which `none` says is undefined.
unfoldable pub keep_decoded : Option (Bool × Bytes) → Action (Unit {0})
keep_decoded none = undefined
keep_decoded (some (true, f)) = modify (λ t. record t { rest = drop (length t.before) f })
keep_decoded (some (false, f)) = do
  simulated ← gets (λ t. t.is_simulated)
  if simulated then pure tt else stop

unfoldable pub decrypt_real_data : Bytes → Action (Unit {0})
decrypt_real_data key = do
  result ← gets (λ t. decrypt_diehl_real_data t.original (frame t) (length t.before) key)
  keep_decoded result

unfoldable pub decrypt_real_data_with : Option Bytes → Action (Unit {0})
decrypt_real_data_with none = stop
decrypt_real_data_with (some key) = decrypt_real_data key

unfoldable pub potentially_decrypt_diehl : Action (Unit {0})
potentially_decrypt_diehl = do
  real ← gets (λ t. must_decrypt_diehl_real_data (frame t))
  if not real then pure tt else do keys ← gets (λ t. t.meter_keys); decrypt_real_data_with keys

unfoldable pub decrypt_in_mode :
    (Bytes → Bytes → Bytes) → (Bytes → Bytes → Bytes → Bytes) → TplSecurityMode → Action (Unit {0})
decrypt_in_mode ecb cbc mode =
    let m = from_tpl_security_mode mode in
    if m == from_tpl_security_mode aes_cbc_iv
    then potentially_decrypt_iv cbc
    else if m == from_tpl_security_mode aes_cbc_no_iv
    then potentially_decrypt_no_iv ecb cbc
    else if m == from_tpl_security_mode specific_16_31
    then potentially_decrypt_diehl
    else pure tt

unfoldable pub potentially_decrypt :
    (Bytes → Bytes → Bytes) → (Bytes → Bytes → Bytes → Bytes) → Action (Unit {0})
potentially_decrypt ecb cbc = do mode ← gets (λ t. t.tpl.sec_mode); decrypt_in_mode ecb cbc mode
